-- ===== src/Cache/Retry.antt =====
-- The retries of a synchronisation of the cache: enforceRateLimitBackoff, SyncWithRetry and
-- calculateSyncTimeout of cache/cache.go, and the loop of Sync around items.Sync.
pub mod Laws
use gosn_v.Prelude.{
  ℕ, zero, suc, ◌+◌, ◌-◌, ◌*◌, ◌%◌, ◌^◌, String, Bool, true, false, not, ◌&&◌, ◌||◌, Option, none,
  some, List, [], ◌∷◌, ◌++◌, ◌⊎◌, inl, inr, ltb, leb, eqb, if◌then◌else◌,
}
use gosn_v.Items.Types.{EncryptedItem}
use gosn_v.Cache.Errors.{
  SyncError, SyncErrorType, Error, plain, classified, classify_sync_error, handle_sync_error,
  rate_limit,
}

-- Seconds
unfoldable pub calculate_sync_timeout : ℕ → ℕ
calculate_sync_timeout item_count =
    if ltb item_count 10
    then 30
    else if ltb item_count 100
    then 60
    else if ltb item_count 1000
    then 120
    else 240

pub record RateLimitBackoff : Type 0 where
  pub attempts : ℕ
  pub base_delay_ms : ℕ
  pub max_delay_ms : ℕ

abbrev pub no_backoff : RateLimitBackoff
no_backoff = record { attempts = 0; base_delay_ms = 0; max_delay_ms = 0 }

abbrev initialised : RateLimitBackoff → RateLimitBackoff
initialised b =
    if eqb b.attempts 0 && eqb b.base_delay_ms 0
    then record b { base_delay_ms = 1000; max_delay_ms = 5000 }
    else b

-- The number of milliseconds of a delay that is an int64: none is slept where it is negative.
abbrev pub capped : (max_delay delay : ℕ) → ℕ
capped max_delay delay =
    if leb (2 ^ 63) delay then 0 else if ltb max_delay delay then max_delay else delay

-- The state afterwards and the milliseconds slept.
unfoldable pub enforce_rate_limit_backoff : RateLimitBackoff → RateLimitBackoff × ℕ
enforce_rate_limit_backoff backoff =
    let b = initialised backoff in
    (
      record b { attempts = suc b.attempts },
      capped b.max_delay_ms ((b.base_delay_ms * 2 ^ b.attempts) % 2 ^ 64),
    )

unfoldable pub as_sync_error : Error → SyncError
unfolding classify_sync_error
as_sync_error (plain err) = classify_sync_error err
as_sync_error (classified e) = e

-- The state of the rate limit and the milliseconds slept after an error that may be retried.
unfoldable pub back_off : SyncError → RateLimitBackoff → RateLimitBackoff × ℕ
unfolding enforce_rate_limit_backoff
back_off e backoff = elim e.type [
  | SyncErrorType.rate_limit ↦ enforce_rate_limit_backoff backoff
  | _ ↦ (backoff, e.backoff_ms)
]

-- What SyncWithRetry returns, the world afterwards and the delays between the attempts.
pub record Tried (SyncOutput World : Type 0) : Type 0 where
  pub out : SyncOutput
  pub error : Option SyncError
  pub world : World
  pub delays : List ℕ

-- A synchronisation: its output, its error, if any, and the world afterwards.
abbrev pub Synchronise : (SyncOutput World : Type 0) → Type 0
Synchronise SyncOutput World = World → SyncOutput × Option Error × World

module _ {SyncOutput World : Type 0} (sync : Synchronise SyncOutput World) where
  abbrev pub stop : SyncOutput → Option SyncError → World → Tried SyncOutput World
  stop out error world = record { out = out; error = error; world = world; delays = [] }

  abbrev pub delayed : ℕ → Tried SyncOutput World → Tried SyncOutput World
  delayed ms r = record r { delays = ms ∷ r.delays }

  -- What follows an attempt: `retry` goes on with the state of the rate limit.
  unfoldable pub after_attempt :
      (retry : Option (RateLimitBackoff → World → Tried SyncOutput World))
      → RateLimitBackoff
      → SyncOutput × Option Error × World
      → Tried SyncOutput World
  unfolding as_sync_error back_off
  after_attempt retry backoff (out, none, world) = stop out none world
  after_attempt none backoff (out, some e, world) = stop out (some (as_sync_error e)) world
  after_attempt (some retry) backoff (out, some e, world) =
      let (backoff, ms) = back_off (as_sync_error e) backoff in
      let retried = delayed ms (retry backoff world) in
      if not (as_sync_error e).retryable then stop out (some (as_sync_error e)) world else retried

  -- The loop over the attempts, by the number of retries that are left.
  unfoldable pub sync_attempts : ℕ → RateLimitBackoff → World → Tried SyncOutput World
  unfolding after_attempt
  sync_attempts zero backoff world = after_attempt none backoff (sync world)
  sync_attempts (suc left) backoff world =
      after_attempt (some (sync_attempts left)) backoff (sync world)

  -- SyncWithRetry for a number of retries that is not negative.
  unfoldable pub sync_with_retry : ℕ → World → Tried SyncOutput World
  unfolding sync_attempts
  sync_with_retry max_retries world = sync_attempts max_retries no_backoff world

-- The input of items.Sync.
pub record PushInput : Type 0 where
  pub items : List EncryptedItem
  pub sync_token : String

-- What the loop returns, the inputs that items.Sync was called with and the seconds slept.
pub record Pushed (SyncOutput : Type 0) : Type 0 where
  pub out : Option SyncOutput
  pub error : Option String
  pub calls : List PushInput
  pub drops_token : Bool
  pub slept : ℕ

module _ {SyncOutput : Type 0} (items_sync : List PushInput → PushInput → SyncOutput ⊎ String)
    (cache_db_path : String) where
  -- The loop of Sync around items.Sync, after `attempt` attempts; `left` of the three are left.
  unfoldable pub push_attempts :
      (left attempt : ℕ) → PushInput → List PushInput → Option String → Pushed SyncOutput
  unfolding handle_sync_error
  push_attempts zero attempt input calls error = record {
    out = none;
    error = error;
    calls = calls;
    drops_token = false;
    slept = 0;
  }
  push_attempts (suc left) attempt input calls error = elim (items_sync calls input) [
    | inl out ↦ record {
      out = some out;
      error = none;
      calls = calls ++ input ∷ [];
      drops_token = false;
      slept = 0;
    }
    | inr e ↦
        let handled = handle_sync_error cache_db_path e in
        let rest = push_attempts left (suc attempt) input (calls ++ input ∷ []) (some e) in
        if not handled.should_retry
        then record {
          out = none;
          error = handled.final;
          calls = calls ++ input ∷ [];
          drops_token = false;
          slept = 0;
        }
        else record rest {
          drops_token = handled.drops_token || rest.drops_token;
          slept =
              handled.slept
              + (if eqb left 0 then 0 else if ltb 5 (suc attempt) then 5 else suc attempt)
              + rest.slept;
        }
  ]

  unfoldable pub push_with_retries : PushInput → Pushed SyncOutput
  unfolding push_attempts
  push_with_retries input = push_attempts 3 0 input [] none
