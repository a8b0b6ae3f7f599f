-- ===== src/Cache/Apply/Result.antt =====
-- What the cache holds after the answer of items.Sync is written.
use gosn_v.Prelude.{
  ℕ, ◌*◌, ◌≡◌, ◌≢◌, refl, ap, ◌∙◌, sym, String, Bool, false, not, Option, none, some, List, [], ◌∷◌,
  inl, inr, take, map, keep, any, ◌&&◌, ◌==◌, arith, Bool-cases,
}
use gosn_v.Items.ContentType
use gosn_v.Items.Types.{EncryptedItem}
use gosn_v.Cache.Types.{CacheItem}
use gosn_v.Cache.Store.Database.{Storm, StormLaws}
use gosn_v.Cache.Store.{
  StoreError, batch_size, save_cache_items, delete_cache_items, clean_cache_items,
}
use gosn_v.Cache.Store.Views.{
  View, view, put_each, remove_each, unprotected, save_cache_items_lem, delete_cache_items_lem,
}
use gosn_v.Cache.Store.Clean.{clean_each, clean_cache_items_lem}
use gosn_v.Cache.Convert.{encrypted_item_to_cache_item}
use gosn_v.Cache.Apply.{receive, Sorted, Received, unless_empty, next_write, write_answer}

-- What the cache should hold, by the map that it was.
pub merged_view : List CacheItem → Sorted → Received → View → View
merged_view dirty sorted received v = remove_each (unprotected received.deleted) (
    put_each (unprotected received.items) (
      clean_each dirty
        (remove_each (unprotected sorted.removed) (put_each (unprotected sorted.saved) v))))

module _ {DB : Type 0} (storm : Storm DB) (laws : StormLaws storm)
    (steady : (uuid : String) (tx : DB) (e : String)
      → storm.unset_dirty uuid tx ≢ inr (e, false)) where
  abbrev pub seen : DB → View
  seen = view storm laws

  -- A write that, without an error, changes the map by `f`.
  abbrev IsWrite : (View → View) → (DB → Option StoreError × DB) → Type 0
  IsWrite f write = (db : DB) → (write db).0 ≡ none → seen (write db).1 ≡ f (seen db)

  next_write-IsWrite :
      (f : View → View) (write : DB → Option StoreError × DB) (v : View)
      (r : Option StoreError × DB)
      → IsWrite f write
      → (r.0 ≡ none → seen r.1 ≡ v)
      → (next_write storm write r).0 ≡ none
      → seen (next_write storm write r).1 ≡ f v
  next_write-IsWrite f write v (none, db) h k no_error = h db no_error ∙ ap f (k refl)
  next_write-IsWrite f write v (some e, db) h k no_error = absurd (cc)

  -- A write that lands a number of whole batches, and all of them without an error.
  unless_empty-IsWrite :
      (effect : List CacheItem → View → View) (chosen : List CacheItem → List CacheItem)
      (write : List CacheItem → Bool → DB → Option StoreError × DB)
      → ((v : View) → effect (chosen []) v ≡ v)
      → ((items : List CacheItem) (close : Bool) (db : DB)
          → (n : ℕ) × (seen (write items close db).1
              ≡ effect (take (n * batch_size) (chosen items)) (seen db))
            × ((write items close db).0 ≡ none
                → take (n * batch_size) (chosen items) ≡ chosen items))
      → (items : List CacheItem) → IsWrite (effect (chosen items)) (unless_empty storm write items)
  unless_empty-IsWrite effect chosen write nil h [] db no_error = sym (nil (seen db))
  unless_empty-IsWrite effect chosen write nil h (i ∷ is) db no_error =
      let (n, landed, complete) = h (i ∷ is) false db in
      landed ∙ ap (λ l. effect l (seen db)) (complete no_error)

  save-IsWrite :
      (items : List CacheItem)
      → IsWrite (put_each (unprotected items)) (unless_empty storm (save_cache_items storm) items)
  save-IsWrite =
      unless_empty-IsWrite put_each unprotected (save_cache_items storm) (λ v. refl)
        (save_cache_items_lem storm laws)

  delete-IsWrite :
      (items : List CacheItem)
      → IsWrite
          (remove_each (unprotected items))
          (unless_empty storm (delete_cache_items storm) items)
  delete-IsWrite =
      unless_empty-IsWrite remove_each unprotected (delete_cache_items storm) (λ v. refl)
        (delete_cache_items_lem storm laws)

  clean-IsWrite :
      (items : List CacheItem)
      → IsWrite (clean_each items) (unless_empty storm (clean_cache_items storm) items)
  clean-IsWrite =
      unless_empty-IsWrite clean_each (λ l. l) (clean_cache_items storm) (λ v. refl)
        (clean_cache_items_lem storm laws steady)

  -- Where no write of Sync returns an error, the cache holds afterwards what it held before, with the
  -- saved items put into it, the removed ones taken out, the dirty ones marked as clean, the new items
  -- put into it and the deleted ones taken out, in this order, but for deleted items keys and deleted
  -- preferences, which are neither put nor taken out.
  pub write_answer_lem :
      (dirty : List CacheItem) (sorted : Sorted) (received : Received) (db : DB)
      → (write_answer storm dirty sorted received db).0 ≡ none
      → seen (write_answer storm dirty sorted received db).1
        ≡ merged_view dirty sorted received (seen db)
  unfolding write_answer merged_view
  write_answer_lem dirty sorted received db no_error =
      let saved = unless_empty storm (save_cache_items storm) sorted.saved db in
      let removed =
        next_write storm (unless_empty storm (delete_cache_items storm) sorted.removed) saved in
      let cleaned = next_write storm (unless_empty storm (clean_cache_items storm) dirty) removed in
      let added =
        next_write storm (unless_empty storm (save_cache_items storm) received.items) cleaned in
      next_write-IsWrite (remove_each (unprotected received.deleted)) _ _ added
        (delete-IsWrite received.deleted)
        (next_write-IsWrite (put_each (unprotected received.items)) _ _ cleaned
          (save-IsWrite received.items)
          (next_write-IsWrite (clean_each dirty) _ _ removed (clean-IsWrite dirty) (
            next_write-IsWrite (remove_each (unprotected sorted.removed)) _ _ saved
              (delete-IsWrite sorted.removed) (save-IsWrite sorted.saved db))))
        no_error

-- Of the new items Sync puts exactly those that are not deleted into the cache, all of them, takes out those
-- that are deleted and neither an items key nor preferences, and takes the items keys that are not
-- deleted into the session, each in the order of the answer.
pub receive_lem :
    (is : List EncryptedItem)
    → ((receive is).items ≡ map encrypted_item_to_cache_item (keep (λ i. not i.deleted) is))
      × ((receive is).deleted
          ≡ map encrypted_item_to_cache_item (
              keep
                (λ i.
                  i.deleted
                  && not (
                      any
                        (λ t. i.content_type == t)
                        (ContentType.items_key ∷ ContentType.user_preferences ∷ [])))
                is))
      × ((receive is).items_keys
          ≡ keep (λ i. not i.deleted && (i.content_type == ContentType.items_key)) is)
unfolding receive
receive_lem [] = (refl, refl, refl)
receive_lem (i ∷ is) =
    let (a, b, c) = receive_lem is in
    elim (Bool-cases i.deleted) [
      | inl e ↦ (ground (arith, e, a), ground (arith, e, b), ground (arith, e, c))
      | inr e ↦ (ground (arith, e, a), ground (arith, e, b), ground (arith, e, c))
    ]
