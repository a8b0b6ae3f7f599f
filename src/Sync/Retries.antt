-- ===== src/Sync/Retries.antt =====
-- syncItems of items/sync.go with the attempts at syncItemsViaAPI, with smaller pages after a request that is
-- too large. The package that repeats an attempt is a parameter.
pub mod Calls
mod Examples
use Prim.Native.String.{◌++◌ as concat}
use gosn_v.Prelude.{
  ℕ, zero, suc, ◌+◌, ◌≤◌, ◌<◌, ◌≡◌, String, Bool, true, false, not, ◌&&◌, ◌||◌, Option, none, some,
  List, [], ◌∷◌, ltb, if◌then◌else◌, ◌⊎◌, inl, inr,
}
use gosn_v.Cache.Errors.{says}
use gosn_v.Items.Encrypted.{MapOrder, dedupe, remove_unsupported}
use gosn_v.Sync.Types.{SyncInput, SyncOutput, SyncResponseData}
use gosn_v.Sync.Conflicts.{dedupe_conflicts}
use gosn_v.Sync.Saved.{update_timestamps_on_saved_items}
use gosn_v.Sync.Batch.{resize_for_retry}

-- What an attempt leaves behind: the input of the next one, the last response, the world, whether the program
-- has ended, and the number of attempts.
pub record Progress (World : Type 0) : Type 0 where
  pub input : SyncInput
  pub response : SyncResponseData
  pub world : World
  pub exited : Bool
  pub attempts : ℕ

-- What an attempt returns: whether there may be another one, and the error.
pub record Turn (World : Type 0) : Type 0 where
  pub retry : Bool
  pub error : Option String
  pub progress : Progress World

-- try.Do from an attempt on, by what it documents: it calls the function again while that returns true and an
-- error, ten times at most.
pub record Retrier (World : Type 0) : Type 0 where
  pub run :
      (attempt : ℕ)
      → (ℕ → Progress World → Turn World)
      → Progress World
      → Option String × Progress World
  pub run_again :
      (attempt : ℕ) (f : ℕ → Progress World → Turn World) (p : Progress World) (e : String)
      → attempt < 10
      → (f attempt p).retry ≡ true
      → (f attempt p).error ≡ some e
      → run attempt f p ≡ run (suc attempt) f (f attempt p).progress
  pub run_stop :
      (attempt : ℕ) (f : ℕ → Progress World → Turn World) (p : Progress World)
      → (f attempt p).retry ≡ false
      → run attempt f p ≡ ((f attempt p).error, (f attempt p).progress)
  pub run_success :
      (attempt : ℕ) (f : ℕ → Progress World → Turn World) (p : Progress World)
      → (f attempt p).error ≡ none
      → run attempt f p ≡ (none, (f attempt p).progress)

module _ {World : Type 0} where
  -- The next attempt starts at the last item put, with smaller pages.
  abbrev pub shrunk : Progress World → Progress World
  shrunk p = record p {
    input = resize_for_retry (record p.input { next_item = p.response.last_item_put });
  }

  abbrev pub from_last : Progress World → Progress World
  from_last p = record p { input = record p.input { next_item = p.response.last_item_put } }

  unfoldable pub turn_of : (attempt : ℕ) → Option String → Progress World → Turn World
  turn_of attempt none p = record { retry = ltb attempt 4; error = none; progress = p }
  turn_of attempt (some e) p =
      if says e ("session token" ∷ []) && says e ("expired" ∷ [])
      then record { retry = false; error = some e; progress = record p { exited = true } }
      else if says e ("too large" ∷ [])
      then record { retry = ltb attempt 4; error = some e; progress = shrunk p }
      else if says e ("timeout" ∷ [])
      then record { retry = ltb attempt 4; error = some e; progress = shrunk p }
      else if says e ("unauthorized" ∷ [])
      then record {
        retry = false;
        error =
            some
              "sync failed due to either password change since session created, or server throttling. try re-adding session.";
        progress = from_last p;
      }
      else if says e ("EOF" ∷ [])
      then record { retry = ltb attempt 4; error = some e; progress = shrunk p }
      else if says e ("giving up" ∷ [])
      then record { retry = false; error = some (concat "sync failed: " e); progress = p }
      else if says e ("500" ∷ "internal server error" ∷ [])
      then record { retry = ltb attempt 4; error = some e; progress = p }
      else record {
        retry = false;
        error = some (concat "sync returned unhandled error: " e);
        progress = p;
      }

  -- Before the first attempt.
  abbrev pub begun : SyncInput → SyncResponseData → World → Progress World
  begun input nothing world = record {
    input = input;
    response = nothing;
    world = world;
    exited = false;
    attempts = 0;
  }

  module _ (via_api : SyncInput → World → (SyncResponseData × Option String) × World) where
    -- The function that is repeated: the response of the attempt before is overwritten.
    unfoldable pub sync_attempt : ℕ → Progress World → Turn World
    unfolding turn_of
    sync_attempt attempt p =
        let ((response, error), world) = via_api p.input p.world in
        turn_of attempt error
          (record p { response = response; world = world; attempts = suc p.attempts })

    -- The attempts of syncItems, for a session that is valid.
    unfoldable pub sync_items_attempts :
        Retrier World → SyncInput → SyncResponseData → World → Option String × Progress World
    unfolding sync_attempt
    sync_items_attempts retrier input nothing world =
        retrier.run 1 sync_attempt (begun input nothing world)

-- The output that syncItems makes of the last response.
unfoldable pub output_of : MapOrder → SyncInput → SyncResponseData → SyncOutput
unfolding dedupe remove_unsupported dedupe_conflicts update_timestamps_on_saved_items
output_of order input response = record {
  items = remove_unsupported (dedupe order response.items);
  saved_items =
      update_timestamps_on_saved_items input.items
        (remove_unsupported (dedupe order response.saved_items));
  unsaved = remove_unsupported (dedupe order response.unsaved);
  conflicts = dedupe_conflicts response.conflicts;
  sync_token = response.sync_token;
  cursor = response.cursor_token;
}

module _ {World : Type 0} where
  -- The error, or the output of the last response.
  unfoldable pub output_or_error :
      MapOrder → Option String × Progress World → (SyncOutput ⊎ String) × Progress World
  unfolding output_of
  output_or_error order (some e, p) = (inr (concat "sync | " e), p)
  output_or_error order (none, p) = (inl (output_of order p.input p.response), p)

  -- The function as a whole, by what Session.Valid says and by the error of the reading of the delay.
  unfoldable pub sync_items :
      (SyncInput → World → (SyncResponseData × Option String) × World)
      → Retrier World
      → MapOrder
      → (session_valid : Bool) → (delay_error : Option String) → SyncInput
      → SyncResponseData
      → World
      → (SyncOutput ⊎ String) × Progress World
  unfolding sync_items_attempts output_or_error
  sync_items via_api retrier order false delay_error input nothing world =
      (inr "session is invalid", begun input nothing world)
  sync_items via_api retrier order true (some e) input nothing world =
      (inr e, begun input nothing world)
  sync_items via_api retrier order true none input nothing world =
      output_or_error order (sync_items_attempts via_api retrier input nothing world)
