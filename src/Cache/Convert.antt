-- ===== src/Cache/Convert.antt =====
-- Items of the cache and encrypted items: filterProtectedItems, encryptedItemToCacheItem, ToCacheItems,
-- Items.UUIDs, Items.Validate, Items.ValidateSaved and retrieveItemsKeysFromCache of cache/cache.go,
-- and the loop of Sync over the dirty items.
pub mod Laws
use text.Mathlib.Text.{starts_with}
use gosn_v.Prelude.{
  ℕ, String, Bool, true, false, not, ◌&&◌, ◌||◌, Option, none, some, List, [], ◌∷◌, ◌==◌, map, keep,
  if◌then◌else◌,
}
use gosn_v.Items.ContentType
use gosn_v.Items.Types.{EncryptedItem}
use gosn_v.Cache.Types.{CacheItem}

unfoldable pub filter_protected_items : List CacheItem → List CacheItem
filter_protected_items [] = []
filter_protected_items (item ∷ items) =
    let rest = filter_protected_items items in
    if (item.content_type == ContentType.items_key) && item.deleted
    then rest
    else if (item.content_type == ContentType.user_preferences) && item.deleted
    then rest
    else item ∷ rest

unfoldable pub uuids : List CacheItem → List String
uuids [] = []
uuids (i ∷ is) = let rest = uuids is in if i.deleted then rest else i.uuid ∷ rest

unfoldable pub encrypted_item_to_cache_item : EncryptedItem → CacheItem
encrypted_item_to_cache_item ei = record {
  uuid = ei.uuid;
  content = ei.content;
  content_type = ei.content_type;
  items_key_id = ei.items_key_id;
  enc_item_key = ei.enc_item_key;
  created_at = ei.created_at;
  updated_at = ei.updated_at;
  duplicate_of = ei.duplicate_of;
  dirtied_date = 0;
  created_at_timestamp = ei.created_at_timestamp;
  updated_at_timestamp = ei.updated_at_timestamp;
  deleted = ei.deleted;
  dirty = false;
}

-- What Sync and retrieveItemsKeysFromCache make of an item of the cache.
unfoldable pub cache_item_to_encrypted_item : CacheItem → EncryptedItem
cache_item_to_encrypted_item d = record {
  uuid = d.uuid;
  items_key_id = d.items_key_id;
  content = d.content;
  content_type = d.content_type;
  enc_item_key = d.enc_item_key;
  created_at = d.created_at;
  updated_at = d.updated_at;
  duplicate_of = d.duplicate_of;
  auth_hash = none;
  updated_with_session = none;
  key_system_identifier = none;
  shared_vault_uuid = none;
  user_uuid = none;
  last_edited_by_uuid = none;
  created_at_timestamp = d.created_at_timestamp;
  updated_at_timestamp = d.updated_at_timestamp;
  deleted = d.deleted;
}

-- An item that ToCacheItems panics or exits on.
abbrev pub is_refused : EncryptedItem → Bool
is_refused i =
    (not i.deleted
      && ((i.items_key_id == "")
          && not ((i.content_type == ContentType.items_key) || starts_with i.content_type "SF")))
    || ((i.content_type == ContentType.items_key) && not (i.items_key_id == ""))

-- An item as ToCacheItems converts it at a time `now`.
unfoldable pub to_cache_item : (now : ℕ) → (clean : Bool) → EncryptedItem → CacheItem
to_cache_item now clean i = record {
  uuid = i.uuid;
  content = i.content;
  content_type = i.content_type;
  items_key_id = i.items_key_id;
  enc_item_key = i.enc_item_key;
  created_at = i.created_at;
  updated_at = i.updated_at;
  duplicate_of = i.duplicate_of;
  dirtied_date = if not clean then now else 0;
  created_at_timestamp = i.created_at_timestamp;
  updated_at_timestamp = i.updated_at_timestamp;
  deleted = i.deleted;
  dirty = not clean;
}

abbrev pub prepend : CacheItem → Option (List CacheItem) → Option (List CacheItem)
prepend c none = none
prepend c (some cs) = some (c ∷ cs)

-- ToCacheItems, none for a panic or an exit.
unfoldable pub to_cache_items : ℕ → Bool → List EncryptedItem → Option (List CacheItem)
unfolding to_cache_item
to_cache_items now clean [] = some []
to_cache_items now clean (i ∷ is) =
    let rest = prepend (to_cache_item now clean i) (to_cache_items now clean is) in
    if is_refused i then none else rest

-- Items.Validate: the UUID and content type of the item that its error names.
unfoldable pub validate_items : List CacheItem → Option (String × String)
validate_items [] = none
validate_items (i ∷ is) =
    let rest = validate_items is in
    if starts_with i.content "003"
    then rest
    else if (i.uuid == "")
        || ((i.content_type == "")
            || ((i.content == "")
                || (((i.enc_item_key == "") && not (i.content_type == ContentType.sf_extension))
                    || (not (i.content_type == ContentType.items_key)
                        && (not (i.content_type == ContentType.sf_extension)
                            && (i.items_key_id == ""))))))
    then some (i.uuid, i.content_type)
    else rest

-- Items.ValidateSaved
unfoldable pub validate_saved : List CacheItem → Option (String × String)
validate_saved [] = none
validate_saved (i ∷ is) =
    let rest = validate_saved is in
    if i.deleted
    then rest
    else if (i.uuid == "") || (i.content_type == "")
    then some (i.uuid, i.content_type)
    else rest

unfoldable pub retrieve_items_keys_from_cache : List CacheItem → List EncryptedItem
unfolding cache_item_to_encrypted_item
retrieve_items_keys_from_cache [] = []
retrieve_items_keys_from_cache (i ∷ is) =
    let rest = retrieve_items_keys_from_cache is in
    if (i.content_type == ContentType.items_key) && not i.deleted
    then cache_item_to_encrypted_item i ∷ rest
    else rest

abbrev pub push : EncryptedItem → Option (List EncryptedItem) → Option (List EncryptedItem)
push e none = none
push e (some es) = some (e ∷ es)

-- What Sync pushes of the dirty items, none for a panic.
unfoldable pub dirty_items_to_push : List CacheItem → Option (List EncryptedItem)
unfolding cache_item_to_encrypted_item
dirty_items_to_push [] = some []
dirty_items_to_push (d ∷ ds) =
    let rest = dirty_items_to_push ds in
    let pushed = push (cache_item_to_encrypted_item d) rest in
    let checked =
      if (d.content_type == ContentType.user_preferences) && d.deleted then rest else pushed in
    if not (d.content_type == ContentType.items_key)
    then checked
    else if d.deleted
    then rest
    else if d.content == ""
    then none
    else if not (d.uuid == "") && not (d.updated_at == "")
    then rest
    else checked
