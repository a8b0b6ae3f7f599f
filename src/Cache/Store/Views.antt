-- ===== src/Cache/Store/Views.antt =====
-- What the cache holds after its items are written, deleted or marked: a database is viewed as the map
-- from UUIDs to items that its lookups make up.
use mathlib.Core.Path.{fun_ext}
use gosn_v.Prelude.{
  ℕ, zero, suc, ◌+◌, ◌*◌, ◌≤◌, String, Bool, true, false, not, Option, none, some, List, [], ◌∷◌,
  ◌++◌, ◌⊎◌, inl, inr, ◌≡◌, refl, ap, subst, ◌∙◌, sym, length, take, drop, ◌==◌, keep,
  if◌then◌else◌, arith, Sum-cases, eq_iff, take-add, take-append-drop, length-drop,
}
use gosn_v.Cache.Types.{CacheItem}
use gosn_v.Cache.Convert.{filter_protected_items}
use gosn_v.Cache.Convert.Laws.{is_protected, filter_protected_items_lem}
use gosn_v.Cache.Store.Database.{Storm, StormLaws}
use gosn_v.Cache.Store.{
  batch_size, StoreError, in_batches, save_all, delete_all, save_cache_items, delete_filtered,
  delete_cache_items, close_after,
}

abbrev pub View : Type 0
View = String → Option CacheItem

-- The map with items put one after another, and with items removed.
abbrev pub put_each : List CacheItem → View → View
put_each [] v = v
put_each (i ∷ is) v = put_each is (λ u. if u == i.uuid then some i else v u)

abbrev pub remove_each : List CacheItem → View → View
remove_each [] v = v
remove_each (i ∷ is) v = remove_each is (λ u. if u == i.uuid then none else v u)

-- The items that SaveCacheItems and DeleteCacheItems do not pass over.
abbrev pub unprotected : List CacheItem → List CacheItem
unprotected = keep (λ i. not (is_protected i))

put_each-append :
    (xs ys : List CacheItem) (v : View) → put_each (xs ++ ys) v ≡ put_each ys (put_each xs v)
put_each-append [] ys v = refl
put_each-append (x ∷ xs) ys v = put_each-append xs ys _

remove_each-append :
    (xs ys : List CacheItem) (v : View)
    → remove_each (xs ++ ys) v ≡ remove_each ys (remove_each xs v)
remove_each-append [] ys v = refl
remove_each-append (x ∷ xs) ys v = remove_each-append xs ys _

cut :
    (n : ℕ) (xs : List CacheItem)
    → take (suc n * batch_size) xs
      ≡ take batch_size xs ++ take (n * batch_size) (drop batch_size xs)
cut n xs =
    let more : suc n * batch_size ≡ batch_size + n * batch_size = omega arith in
    rw more (take-add batch_size (n * batch_size) xs)

module _ {DB : Type 0} (storm : Storm DB) (laws : StormLaws storm) where
  abbrev pub view : DB → View
  view db = λ u. storm.lookup u db

  save_all-put_each :
      (items : List CacheItem) (tx saved : DB)
      → save_all storm items tx ≡ inl saved
      → view saved ≡ put_each items (view tx)
  unfolding save_all
  save_all-put_each [] tx saved h = let e : tx ≡ saved = cc in rw e refl
  save_all-put_each (i ∷ is) tx saved h = elim (Sum-cases (storm.save i tx)) [
    | inr (e, k) ↦ let no = rw (save_all, k) at h in absurd (cc)
    | inl (next, k) ↦
        let here : view next ≡ (λ u. if u == i.uuid then some i else view tx u) =
          fun_ext (λ u. laws.lookup-save u i tx next k) in
        save_all-put_each is next saved (rw (save_all, k) at h) ∙ ap (put_each is) here
  ]

  delete_all-remove_each :
      (items : List CacheItem) (tx deleted : DB)
      → delete_all storm items tx ≡ inl deleted
      → view deleted ≡ remove_each items (view tx)
  unfolding delete_all
  delete_all-remove_each [] tx deleted h = let e : tx ≡ deleted = cc in rw e refl
  delete_all-remove_each (i ∷ is) tx deleted h = elim (Sum-cases (storm.delete_struct i tx)) [
    | inl (next, k) ↦
        let here : view next ≡ (λ u. if u == i.uuid then none else view tx u) =
          fun_ext (λ u. laws.lookup-delete_struct u i tx next k) in
        delete_all-remove_each is next deleted (rw (delete_all, k) at h) ∙ ap (remove_each is) here
    | inr ((e, false), k) ↦ let no = rw (delete_all, k) at h in absurd (cc)
    | inr ((e, true), k) ↦
        let gone = laws.delete_struct_missing i tx e k in
        let here : view tx ≡ (λ u. if u == i.uuid then none else view tx u) =
          fun_ext (λ u. ground (arith, gone, eq_iff u i.uuid)) in
        delete_all-remove_each is tx deleted (rw (delete_all, k) at h) ∙ ap (remove_each is) here
  ]

  -- A write of a list of items whose effect on the map is known, in batches.
  module _ (effect : List CacheItem → View → View) (effect_nil : (v : View) → effect [] v ≡ v)
      (effect-append : (xs ys : List CacheItem) (v : View)
        → effect (xs ++ ys) v ≡ effect ys (effect xs v))
      (write : List CacheItem → DB → DB ⊎ StoreError)
      (write_lem : (items : List CacheItem) (tx written : DB)
        → write items tx ≡ inl written
        → view written ≡ effect items (view tx)) where
    pub in_batches_lem :
        (fuel : ℕ) (items : List CacheItem) (db : DB)
        → length items ≤ fuel
        → (n : ℕ) × (view (in_batches storm write fuel items db).1
            ≡ effect (take (n * batch_size) items) (view db))
          × ((in_batches storm write fuel items db).0 ≡ none → take (n * batch_size) items ≡ items)
    unfolding in_batches
    in_batches_lem zero [] db h = (0, sym (effect_nil (view db)), λ _. refl)
    in_batches_lem zero (i ∷ is) db h = absurd (omega arith)
    in_batches_lem (suc fuel) [] db h = (0, sym (effect_nil (view db)), λ _. refl)
    in_batches_lem (suc fuel) (i ∷ is) db h = elim (Sum-cases (storm.begin db)) [
      | inr (e, k) ↦ rw (in_batches, k) (0, sym (effect_nil (view db)), λ no. absurd (cc))
      | inl (tx, k) ↦ elim (Sum-cases (write (take batch_size (i ∷ is)) tx)) [
        | inr (e, l) ↦ rw (in_batches, k, l) (0, sym (effect_nil (view db)), λ no. absurd (cc))
        | inl (written, l) ↦ elim (Sum-cases (storm.commit written)) [
          | inr (e, m) ↦ rw (in_batches, k, l, m) (0, sym (effect_nil (view db)), λ no. absurd (cc))
          | inl (next, m) ↦
              let shorter : length (drop batch_size (i ∷ is)) ≤ fuel =
                omega (arith, length-drop batch_size (i ∷ is), h) in
              let (n, seen, complete) =
                in_batches_lem fuel (drop batch_size (i ∷ is)) next shorter in
              let first = take batch_size (i ∷ is) in
              let done = cut n (i ∷ is) in
              let here : view next ≡ effect first (view db) =
                fun_ext (λ u. laws.lookup-commit u written next m)
                ∙ write_lem first tx written l
                ∙ ap (effect first) (fun_ext (λ u. laws.lookup-begin u db tx k)) in
              rw (in_batches, k, l, m)
                (
                  suc n,
                  seen
                      ∙ ap (effect (take (n * batch_size) (drop batch_size (i ∷ is)))) here
                      ∙ sym (effect-append first _ (view db))
                      ∙ ap (λ t. effect t (view db)) (sym done),
                  λ no_error.
                      done
                      ∙ ap (λ t. first ++ t) (complete no_error)
                      ∙ take-append-drop batch_size (i ∷ is),
                )
        ]
      ]
    ]

  pub closed_view :
      (close : Bool) (r : Option StoreError × DB) → view (close_after storm close r).1 ≡ view r.1
  closed_view close (some e, db) = refl
  closed_view true (none, db) = refl
  closed_view false (none, db) = refl

  pub closed_error :
      (close : Bool) (r : Option StoreError × DB)
      → (close_after storm close r).0 ≡ none
      → r.0 ≡ none
  closed_error close (some e, db) h = h
  closed_error close (none, db) h = refl

  -- Whatever the database does, SaveCacheItems leaves the cache as if a number of whole batches of
  -- 500 of the items that are no deleted items key and no deleted preferences were put into it one
  -- after another, the later one of a UUID in place of the earlier, and all of them, where it returns
  -- no error: a batch is saved as a whole or not at all.
  pub save_cache_items_lem :
      (items : List CacheItem) (close : Bool) (db : DB)
      → (n : ℕ) × (view (save_cache_items storm items close db).1
          ≡ put_each (take (n * batch_size) (unprotected items)) (view db))
        × ((save_cache_items storm items close db).0 ≡ none
            → take (n * batch_size) (unprotected items) ≡ unprotected items)
  unfolding save_cache_items
  save_cache_items_lem [] close db = (0, refl, λ no. absurd (cc))
  save_cache_items_lem (i ∷ is) close db =
      let items = filter_protected_items (i ∷ is) in
      let same : items ≡ unprotected (i ∷ is) = filter_protected_items_lem (i ∷ is) in
      let r = in_batches storm (save_all storm) (length items) items db in
      let (n, seen, complete) =
        in_batches_lem put_each (λ v. refl) put_each-append (save_all storm) save_all-put_each
          (length items) items db (omega arith) in
      (
        n,
        closed_view close r ∙ seen ∙ ap (λ l. put_each (take (n * batch_size) l) (view db)) same,
        λ no_error.
            subst (λ l. take (n * batch_size) l ≡ l) same
              (complete (closed_error close r no_error)),
      )

  delete_filtered_lem :
      (items : List CacheItem) (close : Bool) (db : DB)
      → (n : ℕ) × (view (delete_filtered storm items close db).1
          ≡ remove_each (take (n * batch_size) items) (view db))
        × ((delete_filtered storm items close db).0 ≡ none → take (n * batch_size) items ≡ items)
  unfolding delete_filtered
  delete_filtered_lem [] close db = (0, refl, λ _. refl)
  delete_filtered_lem (i ∷ is) close db =
      let r = in_batches storm (delete_all storm) (length (i ∷ is)) (i ∷ is) db in
      let (n, seen, complete) =
        in_batches_lem remove_each (λ v. refl) remove_each-append (delete_all storm)
          delete_all-remove_each (length (i ∷ is)) (i ∷ is) db (omega arith) in
      (n, closed_view close r ∙ seen, λ no_error. complete (closed_error close r no_error))

  -- Whatever the database does, DeleteCacheItems leaves the cache without the UUIDs of a number of whole
  -- batches of 500 of the items that are no deleted items key and no deleted preferences, and without
  -- those of all of them, where it returns no error; all other UUIDs keep what they had.
  pub delete_cache_items_lem :
      (items : List CacheItem) (close : Bool) (db : DB)
      → (n : ℕ) × (view (delete_cache_items storm items close db).1
          ≡ remove_each (take (n * batch_size) (unprotected items)) (view db))
        × ((delete_cache_items storm items close db).0 ≡ none
            → take (n * batch_size) (unprotected items) ≡ unprotected items)
  unfolding delete_cache_items
  delete_cache_items_lem [] close db = (0, refl, λ no. absurd (cc))
  delete_cache_items_lem (i ∷ is) close db =
      let same = filter_protected_items_lem (i ∷ is) in
      subst
        (λ l.
          (n : ℕ) × (view (delete_filtered storm (filter_protected_items (i ∷ is)) close db).1
            ≡ remove_each (take (n * batch_size) l) (view db))
          × ((delete_filtered storm (filter_protected_items (i ∷ is)) close db).0 ≡ none
              → take (n * batch_size) l ≡ l))
        same (delete_filtered_lem (filter_protected_items (i ∷ is)) close db)
