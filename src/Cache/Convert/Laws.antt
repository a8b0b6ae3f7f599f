-- ===== src/Cache/Convert/Laws.antt =====
-- What conversion between the cache and the server keeps.
use gosn_v.Prelude.{
  Bool, not, ◌&&◌, ◌||◌, ◌≡◌, refl, none, some, List, [], ◌∷◌, ◌==◌, map, keep, any, if◌then◌else◌,
  arith, eq_iff, Bool-cases, inl, inr,
}
use gosn_v.Items.ContentType
use gosn_v.Sync.Guard.{filtered_items}
use gosn_v.Cache.Types.{CacheItem}
use gosn_v.Cache.Convert.{filter_protected_items, cache_item_to_encrypted_item, dirty_items_to_push}

-- A deleted items key or a deleted set of preferences.
abbrev pub is_protected : CacheItem → Bool
is_protected i =
    i.deleted
    && ((i.content_type == ContentType.items_key)
        || (i.content_type == ContentType.user_preferences))

pub filter_protected_items_lem :
    (items : List CacheItem) → filter_protected_items items ≡ keep (λ i. not (is_protected i)) items
unfolding filter_protected_items
filter_protected_items_lem [] = refl
filter_protected_items_lem (i ∷ is) = ground (arith, filter_protected_items_lem is)

-- An items key that Sync panics on.
abbrev pub is_empty_key : CacheItem → Bool
is_empty_key d = (d.content_type == ContentType.items_key) && (not d.deleted && (d.content == ""))

-- What Sync of the cache pushes is what the guard of Sync of the items lets through of the dirty
-- items, in their order: the two guards agree. It panics exactly on an items key without content.
pub dirty_items_to_push_lem :
    (dirty : List CacheItem)
    → dirty_items_to_push dirty ≡ (
        if any is_empty_key dirty
        then none
        else some (filtered_items (map cache_item_to_encrypted_item dirty)))
unfolding dirty_items_to_push filtered_items cache_item_to_encrypted_item
dirty_items_to_push_lem [] = refl
dirty_items_to_push_lem (d ∷ ds) = elim (Bool-cases (any is_empty_key ds)) [
  | inl e ↦ ground (
    arith,
    e,
    dirty_items_to_push_lem ds,
    eq_iff d.content_type ContentType.items_key,
    eq_iff d.content_type ContentType.user_preferences,
  )
  | inr e ↦ ground (
    arith,
    e,
    dirty_items_to_push_lem ds,
    eq_iff d.content_type ContentType.items_key,
    eq_iff d.content_type ContentType.user_preferences,
  )
]
