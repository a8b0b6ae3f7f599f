-- ===== src/Cache/Types.antt =====
-- The data of cache/cache.go. A date is a number of nanoseconds after 1970, 0 for the zero time.
use gosn_v.Prelude.{ℕ, String, Bool, Option}

pub record CacheItem : Type 0 where
  pub uuid : String
  pub content : String
  pub content_type : String
  pub items_key_id : String
  pub enc_item_key : String
  pub created_at : String
  pub updated_at : String
  pub duplicate_of : Option String
  pub dirtied_date : ℕ
  pub created_at_timestamp : ℕ
  pub updated_at_timestamp : ℕ
  pub deleted : Bool
  pub dirty : Bool
