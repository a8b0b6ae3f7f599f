-- ===== src/Cache/Token.antt =====
-- The sync token of cache/cache.go: what the Sync of the cache starts with, the choice of its time-out, and
-- the test for a large data set. Times are in nanoseconds.
pub mod Freshness
use gosn_v.Prelude.{
  ℕ, zero, suc, ◌-◌, ◌*◌, String, Bool, true, false, Option, none, some, List, [], ◌∷◌, ◌⊎◌, inl,
  inr, ltb, eqb, if◌then◌else◌,
}
use gosn_v.Cache.Retry.{calculate_sync_timeout}

pub record SyncToken : Type 0 where
  pub sync_token : String
  pub created_at : ℕ

-- The bucket of the tokens in the database: all of them, none where they cannot be read, and its removal.
pub record TokenStore (World : Type 0) : Type 0 where
  pub all_tokens : World → Option (List SyncToken)
  pub drop_tokens : World → Option String × World

abbrev pub sync_token_max_age : ℕ
sync_token_max_age = 24 * 3600 * 1000000000

module _ {World : Type 0} where
  unfoldable pub after_drop : Option String × World → (String ⊎ String) × World
  after_drop (none, next) = (inl "", next)
  after_drop (some e, next) = (inr e, next)

  unfoldable pub reset : TokenStore World → World → (String ⊎ String) × World
  unfolding after_drop
  reset store w = after_drop (store.drop_tokens w)

  unfoldable pub usable :
      (now : ℕ) → TokenStore World → World → Option (List SyncToken) → (String ⊎ String) × World
  unfolding reset
  usable now store w none = (inl "", w)
  usable now store w (some []) = (inl "", w)
  usable now store w (some (token ∷ [])) =
      if ltb sync_token_max_age (now - token.created_at)
      then reset store w
      else (inl token.sync_token, w)
  usable now store w (some (token ∷ other ∷ tokens)) = reset store w

  -- The token, which may be empty, or an error.
  unfoldable pub validate_and_clean_sync_token :
      (now : ℕ) → TokenStore World → World → (String ⊎ String) × World
  unfolding usable
  validate_and_clean_sync_token now store w = usable now store w (store.all_tokens w)

abbrev nanoseconds : (seconds : ℕ) → ℕ
nanoseconds seconds = seconds * 1000000000

-- By the duration in SN_SYNC_TIMEOUT, not negative, none where it is empty or no duration: the time-out, and
-- the retries.
unfoldable pub get_sync_configuration : Option ℕ → (item_count : ℕ) → ℕ × ℕ
unfolding calculate_sync_timeout
get_sync_configuration none item_count = (nanoseconds (calculate_sync_timeout item_count), 3)
get_sync_configuration (some timeout) item_count =
    (if eqb timeout 0 then nanoseconds (calculate_sync_timeout item_count) else timeout, 3)

-- By the number of items in the database, none where there is no database or no number.
unfoldable pub should_use_batched_sync : Option ℕ → Bool
should_use_batched_sync none = false
should_use_batched_sync (some item_count) = ltb 100 item_count
