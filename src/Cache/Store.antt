-- ===== src/Cache/Store.antt =====
-- Writing to the cache: SaveCacheItems, DeleteCacheItems and CleanCacheItems of cache/cache.go over
-- the database, which is a parameter. The database is not nil.
pub mod Database
pub mod Views
pub mod Clean
use gosn_v.Prelude.{
  ℕ, zero, suc, ◌+◌, String, Bool, true, false, Option, none, some, List, [], ◌∷◌, ◌⊎◌, inl, inr,
  length, take, drop, if◌then◌else◌,
}
use text.Mathlib.Text.{starts_with}
use gosn_v.Cache.Types.{CacheItem}
use gosn_v.Cache.Convert.{filter_protected_items}
use gosn_v.Cache.Store.Database.{Storm}

abbrev pub batch_size : ℕ
batch_size = 500

pub data StoreError : Type 0 where
  no_items : StoreError
  begin_failed commit_failed close_failed : String → StoreError
  rolled_back : String → StoreError
  rollback_failed : (rollback cause : String) → StoreError

module _ {DB : Type 0} (storm : Storm DB) where
  abbrev roll_back : DB → String → StoreError
  roll_back tx e = elim (storm.rollback tx) [ none ↦ rolled_back e | some r ↦ rollback_failed r e ]

  -- One transaction after another, of 500 items each, by fuel.
  unfoldable pub in_batches :
      (List CacheItem → DB → DB ⊎ StoreError) → ℕ → List CacheItem → DB → Option StoreError × DB
  in_batches write zero items db = (none, db)
  in_batches write (suc fuel) [] db = (none, db)
  in_batches write (suc fuel) (i ∷ is) db = elim (storm.begin db) [
    | inr e ↦ (some (begin_failed e), db)
    | inl tx ↦ elim (write (take batch_size (i ∷ is)) tx) [
      | inr e ↦ (some e, db)
      | inl tx ↦ elim (storm.commit tx) [
        | inr e ↦ (some (commit_failed e), db)
        | inl db ↦ in_batches write fuel (drop batch_size (i ∷ is)) db
      ]
    ]
  ]

  abbrev pub close_after : Bool → Option StoreError × DB → Option StoreError × DB
  close_after close (some e, db) = (some e, db)
  close_after close (none, db) =
      if close
      then (elim (storm.close db) [ none ↦ none | some e ↦ some (close_failed e) ], db)
      else (none, db)

  unfoldable pub save_all : List CacheItem → DB → DB ⊎ StoreError
  save_all [] tx = inl tx
  save_all (i ∷ is) tx = elim (storm.save i tx) [
    | inr e ↦ inr (roll_back tx e)
    | inl tx ↦ save_all is tx
  ]

  unfoldable pub save_cache_items : List CacheItem → Bool → DB → Option StoreError × DB
  unfolding in_batches save_all
  save_cache_items [] close db = (some no_items, db)
  save_cache_items (i ∷ is) close db =
      let items = filter_protected_items (i ∷ is) in
      close_after close (in_batches save_all (length items) items db)

  -- An item that is not found is passed over.
  unfoldable pub delete_all : List CacheItem → DB → DB ⊎ StoreError
  delete_all [] tx = inl tx
  delete_all (i ∷ is) tx = elim (storm.delete_struct i tx) [
    | inr (e, true) ↦ delete_all is tx
    | inr (e, false) ↦ inr (roll_back tx e)
    | inl tx ↦ delete_all is tx
  ]

  -- Nothing is closed where the filter leaves no item.
  unfoldable pub delete_filtered : List CacheItem → Bool → DB → Option StoreError × DB
  unfolding in_batches delete_all
  delete_filtered [] close db = (none, db)
  delete_filtered (i ∷ is) close db =
      close_after close (in_batches delete_all (length (i ∷ is)) (i ∷ is) db)

  unfoldable pub delete_cache_items : List CacheItem → Bool → DB → Option StoreError × DB
  unfolding delete_filtered
  delete_cache_items [] close db = (some no_items, db)
  delete_cache_items (i ∷ is) close db = delete_filtered (filter_protected_items (i ∷ is)) close db

  unfoldable pub clean_date : String → (DB → DB ⊎ StoreError) → DB → DB ⊎ StoreError
  clean_date uuid rest tx = elim (storm.unset_dirtied_date uuid tx) [
    | inr (e, true) ↦ rest tx
    | inr (e, false) ↦ inr (roll_back tx e)
    | inl tx ↦ rest tx
  ]

  -- The two updates of an item: an error of the first other than that it is not found is lost.
  unfoldable pub clean_all : List CacheItem → DB → DB ⊎ StoreError
  unfolding clean_date
  clean_all [] tx = inl tx
  clean_all (i ∷ is) tx = elim (storm.unset_dirty i.uuid tx) [
    | inr (e, true) ↦ clean_all is tx
    | inr (e, false) ↦ clean_date i.uuid (clean_all is) tx
    | inl tx ↦ clean_date i.uuid (clean_all is) tx
  ]

  unfoldable pub clean_cache_items : List CacheItem → Bool → DB → Option StoreError × DB
  unfolding in_batches clean_all
  clean_cache_items [] close db = (some no_items, db)
  clean_cache_items (i ∷ is) close db =
      close_after close (in_batches clean_all (length (i ∷ is)) (i ∷ is) db)
