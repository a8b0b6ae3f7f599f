-- ===== src/Cache/Reading.antt =====
-- Items.ToItems of cache/cache.go: the items of the cache, decrypted.
mod Examples
use text.Mathlib.Text.{starts_with}
use gosn_v.Prelude.{
  ℕ, ◌≡◌, refl, ap, sym, ◌∙◌, String, Bool, true, false, not, ◌&&◌, Option, none, some, inl, inr,
  List, [], ◌∷◌, ◌==◌, map, keep, Bool-cases, eqb, length, if◌then◌else◌,
}
use gosn_v.Items.Types.{EncryptedItem, Item}
use gosn_v.Items.Parsing.{Reading, read, crashed, Times, ContentJson}
use gosn_v.Items.Reading.{decrypt_and_parse}
use gosn_v.Items.Encryption.Parallel.{Arrival}
use gosn_v.Crypto.Libraries.{Primitives}
use gosn_v.Session.Types.{Session}
use gosn_v.Cache.Types.{CacheItem}
use gosn_v.Cache.Convert.{
  cache_item_to_encrypted_item, to_cache_item, to_cache_items, is_refused, prepend,
}

-- The encrypted items that ToItems decrypts.
unfoldable pub current_items : List CacheItem → List EncryptedItem
unfolding cache_item_to_encrypted_item
current_items [] = []
current_items (ei ∷ pi) =
    let rest = current_items pi in
    if ei.deleted
    then rest
    else if starts_with ei.content "003"
    then rest
    else cache_item_to_encrypted_item ei ∷ rest

module _ (times : Times) (json : ContentJson) (p : Primitives) (s : Session)
    (arrival : Arrival) where
  unfoldable pub read_current : List EncryptedItem → Reading (List Item)
  unfolding decrypt_and_parse
  read_current [] = read []
  read_current (e ∷ es) =
      let items = decrypt_and_parse times json p s arrival (e ∷ es) in
      if eqb (length s.items_keys) 0
      then crashed
      else if s.default_items_key.items_key == ""
      then crashed
      else items

  unfoldable pub to_items : List CacheItem → Reading (List Item)
  unfolding current_items read_current
  to_items pi = read_current (current_items pi)

-- What ToItems passes over.
abbrev pub is_current : EncryptedItem → Bool
is_current e = not e.deleted && not (starts_with e.content "003")

-- An item without the fields that the cache does not keep.
abbrev pub stripped : EncryptedItem → EncryptedItem
stripped e = record e {
  auth_hash = none;
  updated_with_session = none;
  key_system_identifier = none;
  shared_vault_uuid = none;
  user_uuid = none;
  last_edited_by_uuid = none;
}

prepended :
    (c : CacheItem) (o : Option (List CacheItem)) (cs : List CacheItem)
    → prepend c o ≡ some cs
    → (rest : List CacheItem) × (o ≡ some rest) × (cs ≡ c ∷ rest)
prepended c none cs h = absurd (cc h)
prepended c (some rest) cs h = (rest, refl, cc h)

unrefused :
    (refused : Bool) (o : Option (List CacheItem)) (cs : List CacheItem)
    → (if refused then none else o) ≡ some cs
    → o ≡ some cs
unrefused true o cs h = absurd (cc h)
unrefused false o cs h = h

-- Where ToCacheItems returns, it has converted each item.
converted :
    (now : ℕ) (clean : Bool) (es : List EncryptedItem) (cs : List CacheItem)
    → to_cache_items now clean es ≡ some cs
    → cs ≡ map (to_cache_item now clean) es
unfolding to_cache_items
converted now clean [] cs h = cc h
converted now clean (e ∷ es) cs h =
    let (rest, found, same) = prepended _ _ cs (unrefused (is_refused e) _ cs h) in
    same
    ∙ ap (λ (l : List CacheItem). to_cache_item now clean e ∷ l) (converted now clean es rest found)

current_of :
    (now : ℕ) (clean : Bool) (es : List EncryptedItem)
    → current_items (map (to_cache_item now clean) es) ≡ map stripped (keep is_current es)
unfolding current_items to_cache_item cache_item_to_encrypted_item
current_of now clean [] = refl
current_of now clean (e ∷ es) = elim (Bool-cases e.deleted) [
  | inl deleted ↦ rw deleted (current_of now clean es)
  | inr kept ↦ elim (Bool-cases (starts_with e.content "003")) [
    | inl old ↦ rw (kept, old) (current_of now clean es)
    | inr new ↦
        rw (kept, new)
          (ap (λ (l : List EncryptedItem). stripped (record e { deleted = false }) ∷ l)
            (current_of now clean es))
  ]
]

module _ (times : Times) (json : ContentJson) (p : Primitives) (s : Session)
    (arrival : Arrival) where
  read_current_lem :
      (es : List EncryptedItem)
      → eqb (length s.items_keys) 0 ≡ false
      → (s.default_items_key.items_key == "") ≡ false
      → read_current times json p s arrival es ≡ decrypt_and_parse times json p s arrival es
  unfolding read_current
  read_current_lem [] keys default = refl
  read_current_lem (e ∷ es) keys default = rw (keys, default) refl

  -- Where ToCacheItems returns, and the session has items keys and a default one: ToItems reads of the cache
  -- what DecryptAndParse makes of the items that were put into it, in their order, without those that are deleted
  -- or of an old version, and without the fields that the cache does not keep.
  pub to_items-to_cache_items :
      (now : ℕ) (clean : Bool) (es : List EncryptedItem) (cs : List CacheItem)
      → to_cache_items now clean es ≡ some cs
      → eqb (length s.items_keys) 0 ≡ false
      → (s.default_items_key.items_key == "") ≡ false
      → to_items times json p s arrival cs
        ≡ decrypt_and_parse times json p s arrival (map stripped (keep is_current es))
  unfolding to_items
  to_items-to_cache_items now clean es cs h keys default =
      ap (λ (l : List CacheItem). read_current times json p s arrival (current_items l))
        (converted now clean es cs h)
      ∙ ap (λ (l : List EncryptedItem). read_current times json p s arrival l)
          (current_of now clean es)
      ∙ read_current_lem _ keys default
