-- ===== src/Cache/Store/Clean.antt =====
-- What the cache holds after CleanCacheItems.
use mathlib.Core.Path.{fun_ext}
use mathlib.Core.Option
use gosn_v.Prelude.{
  ℕ, ◌*◌, ◌≡◌, ◌≢◌, refl, ap, ◌∙◌, String, Bool, true, false, none, List, [], ◌∷◌, ◌++◌, ◌⊎◌, inl,
  inr, length, take, ◌==◌, if◌then◌else◌, arith, eq_iff, Sum-cases, Bool-cases,
}
use gosn_v.Cache.Types.{CacheItem}
use gosn_v.Cache.Store.Database.{Storm, StormLaws, without_dirty, without_date}
use gosn_v.Cache.Store.{
  batch_size, StoreError, clean_date, clean_all, clean_cache_items, in_batches,
}
use gosn_v.Cache.Store.Views.{View, view, in_batches_lem, closed_view, closed_error}

-- A map with a change made to the entry of one UUID.
abbrev pub change : (CacheItem → CacheItem) → String → View → View
change f uuid v = λ u. if u == uuid then Option.map f (v u) else v u

-- The map with items marked as clean, one after another.
abbrev pub clean_each : List CacheItem → View → View
clean_each [] v = v
clean_each (i ∷ is) v = clean_each is (change without_date i.uuid (change without_dirty i.uuid v))

clean_each-append :
    (xs ys : List CacheItem) (v : View) → clean_each (xs ++ ys) v ≡ clean_each ys (clean_each xs v)
clean_each-append [] ys v = refl
clean_each-append (x ∷ xs) ys v = clean_each-append xs ys _

change_missing :
    (f : CacheItem → CacheItem) (uuid : String) (v : View) → v uuid ≡ none → v ≡ change f uuid v
change_missing f uuid v h = fun_ext (λ u. elim (Bool-cases (u == uuid)) [
  | inl e ↦ rw (e, (eq_iff u uuid).0 e, h) refl
  | inr e ↦ rw e refl
])

module _ {DB : Type 0} (storm : Storm DB) (laws : StormLaws storm)
    (steady : (uuid : String) (tx : DB) (e : String)
      → storm.unset_dirty uuid tx ≢ inr (e, false)) where
  clean_date_lem :
      (uuid : String) (rest : DB → DB ⊎ StoreError) (tx cleaned : DB)
      → clean_date storm uuid rest tx ≡ inl cleaned
      → (next : DB) × (view storm laws next ≡ change without_date uuid (view storm laws tx))
        × (rest next ≡ inl cleaned)
  unfolding clean_date
  clean_date_lem uuid rest tx cleaned h = elim (Sum-cases (storm.unset_dirtied_date uuid tx)) [
    | inl (next, k) ↦ (
      next,
      fun_ext (λ u. laws.lookup-unset_dirtied_date u uuid tx next k),
      rw (clean_date, k) at h,
    )
    | inr ((e, true), k) ↦ (
      tx,
      change_missing without_date uuid (view storm laws tx)
          (laws.unset_dirtied_date_missing uuid tx e k),
      rw (clean_date, k) at h,
    )
    | inr ((e, false), k) ↦ let no = rw (clean_date, k) at h in absurd (cc)
  ]

  clean_all-clean_each :
      (items : List CacheItem) (tx cleaned : DB)
      → clean_all storm items tx ≡ inl cleaned
      → view storm laws cleaned ≡ clean_each items (view storm laws tx)
  unfolding clean_all
  clean_all-clean_each [] tx cleaned h = let e : tx ≡ cleaned = cc in rw e refl
  clean_all-clean_each (i ∷ is) tx cleaned h = elim (Sum-cases (storm.unset_dirty i.uuid tx)) [
    | inl (next, k) ↦
        let (last, seen, more) =
          clean_date_lem i.uuid (clean_all storm is) next cleaned (rw (clean_all, k) at h) in
        clean_all-clean_each is last cleaned more
        ∙ ap (clean_each is) (
            seen
            ∙ ap (change without_date i.uuid)
                (fun_ext (λ u. laws.lookup-unset_dirty u i.uuid tx next k)))
    | inr ((e, true), k) ↦
        let gone = laws.unset_dirty_missing i.uuid tx e k in
        clean_all-clean_each is tx cleaned (rw (clean_all, k) at h)
        ∙ ap (clean_each is) (
            change_missing without_date i.uuid (view storm laws tx) gone
            ∙ ap (change without_date i.uuid)
                (change_missing without_dirty i.uuid (view storm laws tx) gone))
    | inr ((e, false), k) ↦ absurd (steady i.uuid tx e k)
  ]

  -- Where an update of the flag fails only on an item that is not found, CleanCacheItems leaves the cache
  -- as if the items of a number of whole batches of 500 were marked as clean, and all of them, where it
  -- returns no error.
  pub clean_cache_items_lem :
      (items : List CacheItem) (close : Bool) (db : DB)
      → (n : ℕ) × (view storm laws (clean_cache_items storm items close db).1
          ≡ clean_each (take (n * batch_size) items) (view storm laws db))
        × ((clean_cache_items storm items close db).0 ≡ none → take (n * batch_size) items ≡ items)
  unfolding clean_cache_items
  clean_cache_items_lem [] close db = (0, refl, λ no. absurd (cc))
  clean_cache_items_lem (i ∷ is) close db =
      let r = in_batches storm (clean_all storm) (length (i ∷ is)) (i ∷ is) db in
      let (n, seen, complete) =
        in_batches_lem storm laws clean_each (λ v. refl) clean_each-append (clean_all storm)
          clean_all-clean_each (length (i ∷ is)) (i ∷ is) db (omega arith) in
      (
        n,
        closed_view storm laws close r ∙ seen,
        λ no_error. complete (closed_error storm laws close r no_error),
      )
