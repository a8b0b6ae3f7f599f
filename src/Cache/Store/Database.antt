-- ===== src/Cache/Store/Database.antt =====
-- What cache/cache.go uses of a database of storm on its items, and the behaviour that storm documents.
use gosn_v.Prelude.{
  String, Bool, true, false, Option, none, some, List, ◌⊎◌, inl, inr, ◌≡◌, ◌==◌, if◌then◌else◌,
}
use mathlib.Core.Option
use gosn_v.Cache.Types.{CacheItem}

-- An open database or transaction is a value; each operation returns the next one or an error, with
-- whether its text says "not found", where that is asked.
pub record Storm (DB : Type 0) : Type 0 where
  pub begin : DB → DB ⊎ String
  pub save : CacheItem → DB → DB ⊎ String
  pub delete_struct : CacheItem → DB → DB ⊎ (String × Bool)
  pub unset_dirty : String → DB → DB ⊎ (String × Bool)
  pub unset_dirtied_date : String → DB → DB ⊎ (String × Bool)
  pub commit : DB → DB ⊎ String
  pub rollback : DB → Option String
  pub close : DB → Option String
  -- db.Find("UUID", uuid, &items): empty where it is not found
  pub find_uuid : String → DB → List CacheItem ⊎ String
  -- db.One("UUID", uuid, &item): none where it is not found
  pub lookup : String → DB → Option CacheItem

abbrev pub without_dirty : CacheItem → CacheItem
without_dirty i = record i { dirty = false }

abbrev pub without_date : CacheItem → CacheItem
without_date i = record i { dirtied_date = 0 }

-- What a lookup finds afterwards.
pub record StormLaws {DB : Type 0} (storm : Storm DB) : Type 0 where
  pub lookup-begin :
      (u : String) (db tx : DB) → storm.begin db ≡ inl tx → storm.lookup u tx ≡ storm.lookup u db
  pub lookup-commit :
      (u : String) (tx db : DB) → storm.commit tx ≡ inl db → storm.lookup u db ≡ storm.lookup u tx
  pub lookup-save :
      (u : String) (i : CacheItem) (tx saved : DB)
      → storm.save i tx ≡ inl saved
      → storm.lookup u saved ≡ (if u == i.uuid then some i else storm.lookup u tx)
  pub lookup-delete_struct :
      (u : String) (i : CacheItem) (tx deleted : DB)
      → storm.delete_struct i tx ≡ inl deleted
      → storm.lookup u deleted ≡ (if u == i.uuid then none else storm.lookup u tx)
  pub delete_struct_missing :
      (i : CacheItem) (tx : DB) (e : String)
      → storm.delete_struct i tx ≡ inr (e, true)
      → storm.lookup i.uuid tx ≡ none
  pub lookup-unset_dirty :
      (u uuid : String) (tx cleaned : DB)
      → storm.unset_dirty uuid tx ≡ inl cleaned
      → storm.lookup u cleaned
        ≡ (if u == uuid then Option.map without_dirty (storm.lookup u tx) else storm.lookup u tx)
  pub unset_dirty_missing :
      (uuid : String) (tx : DB) (e : String)
      → storm.unset_dirty uuid tx ≡ inr (e, true)
      → storm.lookup uuid tx ≡ none
  pub lookup-unset_dirtied_date :
      (u uuid : String) (tx cleaned : DB)
      → storm.unset_dirtied_date uuid tx ≡ inl cleaned
      → storm.lookup u cleaned
        ≡ (if u == uuid then Option.map without_date (storm.lookup u tx) else storm.lookup u tx)
  pub unset_dirtied_date_missing :
      (uuid : String) (tx : DB) (e : String)
      → storm.unset_dirtied_date uuid tx ≡ inr (e, true)
      → storm.lookup uuid tx ≡ none
