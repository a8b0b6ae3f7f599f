-- ===== src/Cache/Errors.antt =====
-- The errors of a synchronisation of the cache: classifySyncError, validateSessionItemsKey and
-- handleSyncError of cache/cache.go.
use Prim.Native.String.{◌++◌ as concat}
use gosn_v.Prelude.{
  ℕ, String, Bool, true, false, not, ◌&&◌, ◌||◌, Option, none, some, List, [], ◌∷◌, ◌≡◌, ◌==◌, map,
  any, leb, arith, if◌then◌else◌,
}
use gosn_v.Prelude.Bytes.{codes, includes}
use gosn_v.Filter.Types.{lower}
use gosn_v.Session.Types.{Session}

pub data SyncErrorType : Type 0 where
  unknown rate_limit validation authentication items_key conflict network : SyncErrorType

-- The original error is its text.
pub record SyncError : Type 0 where
  pub type : SyncErrorType
  pub original : String
  pub message : String
  pub retryable : Bool
  pub backoff_ms : ℕ

-- An error that a synchronisation returns.
pub data Error : Type 0 where
  plain : String → Error
  classified : SyncError → Error

-- strings.Contains(strings.ToLower(message), word) for one of some words
unfoldable pub says : String → List String → Bool
unfolding includes
says message words = any (λ word. includes (map lower (codes message)) (codes word)) words

abbrev pub rate_limit_words : List String
rate_limit_words = "429" ∷ "rate limit" ∷ "exceeded the maximum bandwidth" ∷ []

abbrev pub items_key_words : List String
items_key_words = "items key" ∷ "itemskey" ∷ "empty default items key" ∷ []

abbrev pub authentication_words : List String
authentication_words = "auth" ∷ "unauthorized" ∷ "invalid session" ∷ "token" ∷ []

abbrev pub validation_words : List String
validation_words = "validation" ∷ "invalid" ∷ "malformed" ∷ "bad request" ∷ []

abbrev pub network_words : List String
network_words = "network" ∷ "connection" ∷ "timeout" ∷ "unreachable" ∷ []

unfoldable pub classify_sync_error : String → SyncError
classify_sync_error err =
    if says err rate_limit_words
    then record {
      type = rate_limit;
      original = err;
      message = "Rate limit exceeded - server requested backoff";
      retryable = true;
      backoff_ms = 5000;
    }
    else if says err items_key_words
    then record {
      type = items_key;
      original = err;
      message = "Missing or invalid ItemsKey - account setup required";
      retryable = false;
      backoff_ms = 0;
    }
    else if says err authentication_words
    then record {
      type = authentication;
      original = err;
      message = "Authentication failed - session may be expired";
      retryable = false;
      backoff_ms = 0;
    }
    else if says err validation_words
    then record {
      type = validation;
      original = err;
      message = "Validation failed - check item data format";
      retryable = false;
      backoff_ms = 0;
    }
    else if says err network_words
    then record {
      type = network;
      original = err;
      message = "Network connectivity issue - temporary failure";
      retryable = true;
      backoff_ms = 2000;
    }
    else if says err ("conflict" ∷ [])
    then record {
      type = conflict;
      original = err;
      message = "Sync conflict detected - items may need resolution";
      retryable = true;
      backoff_ms = 1000;
    }
    else record {
      type = unknown;
      original = err;
      message = concat "Unknown sync error: " err;
      retryable = true;
      backoff_ms = 1000;
    }

-- Of a session that is not nil.
unfoldable pub validate_session_items_key : Session → Option SyncError
validate_session_items_key s =
    if s.default_items_key.items_key == ""
    then some (record {
      type = items_key;
      original = "no default ItemsKey available";
      message = "Session lacks valid ItemsKey for encryption operations";
      retryable = false;
      backoff_ms = 0;
    })
    else none

-- A decision of handleSyncError: whether to try again, whether it opens the database to drop
-- the token, the seconds that it sleeps, and the error.
pub record Handled : Type 0 where
  pub should_retry : Bool
  pub drops_token : Bool
  pub slept : ℕ
  pub final : Option String

unfoldable pub handle_sync_error : (cache_db_path : String) → String → Handled
handle_sync_error cache_db_path err =
    if says err ("giving up" ∷ [])
    then record {
      should_retry = false;
      drops_token = false;
      slept = 0;
      final = some (concat "sync timed out after maximum retries: " err);
    }
    else if says err ("database is locked" ∷ [])
    then record { should_retry = true; drops_token = false; slept = 1; final = none }
    else if says err ("invalid sync token" ∷ [])
    then record {
      should_retry = true;
      drops_token = not (cache_db_path == "");
      slept = 0;
      final = none;
    }
    else record { should_retry = false; drops_token = false; slept = 0; final = some err }

abbrev rules_out_retry : String → Bool
rules_out_retry err =
    says err items_key_words || (says err authentication_words || says err validation_words)

-- An error may be retried exactly if its text, in lower case, names a rate limit, or names neither an
-- items key nor the authentication nor the validation; then, and only then, it has a delay, of one
-- to five seconds.
pub classify_sync_error_lem :
    (err : String)
    → let e = classify_sync_error err in
      (e.retryable ≡ (says err rate_limit_words || not (rules_out_retry err)))
      × ((leb 1000 e.backoff_ms && leb e.backoff_ms 5000) ≡ e.retryable)
      × ((leb 1 e.backoff_ms) ≡ e.retryable)
unfolding classify_sync_error
classify_sync_error_lem err = ground arith
