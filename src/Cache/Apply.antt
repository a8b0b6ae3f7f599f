-- ===== src/Cache/Apply.antt =====
-- What Sync of cache/cache.go does with the answer of items.Sync: it writes the saved and the new items to
-- the database and takes the new items keys into the session. Conflicts are left over by no answer.
pub mod Result
use gosn_v.Prelude.{
  ℕ, String, Bool, true, false, not, ◌&&◌, Option, none, some, List, [], ◌∷◌, ◌++◌, ◌⊎◌, inl, inr,
  map, ◌==◌, if◌then◌else◌,
}
use gosn_v.Items.ContentType
use gosn_v.Items.Types.{EncryptedItem}
use gosn_v.Session.Types.{Session}
use gosn_v.Crypto.Libraries.{Primitives}
use gosn_v.Crypto.{Outcome, done, failed, panicked}
use gosn_v.Items.Encryption.{ItemsKeyJson}
use gosn_v.Items.Encryption.Decryption.{decrypt_and_parse_item_keys}
use gosn_v.Cache.Types.{CacheItem}
use gosn_v.Cache.Convert.{encrypted_item_to_cache_item}
use gosn_v.Cache.Keys.{with_items_keys}
use gosn_v.Cache.Store.Database.{Storm}
use gosn_v.Cache.Store.{StoreError, save_cache_items, delete_cache_items, clean_cache_items}

-- processCachedItemsKeys
unfoldable pub process_cached_items_keys :
    Primitives → ItemsKeyJson → Session → List EncryptedItem → Outcome Session
unfolding decrypt_and_parse_item_keys with_items_keys
process_cached_items_keys p json s eiks =
    elim (decrypt_and_parse_item_keys p json s.master_key eiks) [
      | done iks ↦ done (with_items_keys iks s)
      | failed e ↦ failed e
      | panicked ↦ panicked
    ]

-- The saved items that go into the database and those that leave it.
pub record Sorted : Type 0 where
  pub saved : List CacheItem
  pub removed : List CacheItem

pub data SortError : Type 0 where
  find_failed : String → SortError
  exited : SortError

abbrev pub add_saved : CacheItem → Sorted ⊎ SortError → Sorted ⊎ SortError
add_saved i (inl r) = inl (record r { saved = i ∷ r.saved })
add_saved i (inr e) = inr e

abbrev pub add_removed : List CacheItem ⊎ String → Sorted ⊎ SortError → Sorted ⊎ SortError
add_removed (inr e) rest = inr (find_failed e)
add_removed (inl found) (inl r) = inl (record r { removed = found ++ r.removed })
add_removed (inl found) (inr e) = inr e

-- The new items that go into the database, those that leave it, and the items keys among them.
pub record Received : Type 0 where
  pub items : List CacheItem
  pub deleted : List CacheItem
  pub items_keys : List EncryptedItem

unfoldable pub receive : List EncryptedItem → Received
unfolding encrypted_item_to_cache_item
receive [] = record { items = []; deleted = []; items_keys = [] }
receive (i ∷ is) =
    let rest = receive is in
    let item = encrypted_item_to_cache_item i in
    if (i.content_type == ContentType.items_key) && i.deleted
    then rest
    else if (i.content_type == ContentType.user_preferences) && i.deleted
    then rest
    else if i.deleted
    then record rest { deleted = item ∷ rest.deleted }
    else record rest {
      items = item ∷ rest.items;
      items_keys =
          if i.content_type == ContentType.items_key then i ∷ rest.items_keys else rest.items_keys;
    }

module _ {DB : Type 0} (storm : Storm DB) where
  -- The loop over the saved items: log.Fatalf on a deleted items key ends the program.
  unfoldable pub sort_saved : DB → List EncryptedItem → Sorted ⊎ SortError
  unfolding encrypted_item_to_cache_item
  sort_saved db [] = inl (record { saved = []; removed = [] })
  sort_saved db (x ∷ xs) =
      let rest = sort_saved db xs in
      if (x.content_type == ContentType.items_key) && x.deleted
      then inr exited
      else if x.deleted
      then add_removed (storm.find_uuid x.uuid db) rest
      else add_saved (encrypted_item_to_cache_item x) rest

  -- A write of a list of items that is left out where there is none.
  abbrev pub unless_empty :
      (List CacheItem → Bool → DB → Option StoreError × DB)
      → List CacheItem
      → DB
      → Option StoreError × DB
  unless_empty write [] db = (none, db)
  unless_empty write (i ∷ is) db = write (i ∷ is) false db

  abbrev pub next_write :
      (DB → Option StoreError × DB) → Option StoreError × DB → Option StoreError × DB
  next_write write (none, db) = write db
  next_write write (some e, db) = (some e, db)

  -- The writes, each only if there was no error before.
  unfoldable pub write_answer : List CacheItem → Sorted → Received → DB → Option StoreError × DB
  unfolding save_cache_items delete_cache_items clean_cache_items
  write_answer dirty sorted received db =
      let saved = unless_empty (save_cache_items storm) sorted.saved db in
      let removed = next_write (unless_empty (delete_cache_items storm) sorted.removed) saved in
      let cleaned = next_write (unless_empty (clean_cache_items storm) dirty) removed in
      let added = next_write (unless_empty (save_cache_items storm) received.items) cleaned in
      next_write (unless_empty (delete_cache_items storm) received.deleted) added
