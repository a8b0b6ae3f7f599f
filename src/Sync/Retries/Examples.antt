-- ===== src/Sync/Retries/Examples.antt =====
-- A package that repeats an attempt, and tests of syncItems with it.
use gosn_v.Prelude.{
  ℕ, zero, suc, ◌-◌, ◌≤◌, ◌<◌, ◌≡◌, refl, ap, String, Bool-cases, inl, inr, ◌∙◌, true, false,
  Option, none, some, [], arith, if◌then◌else◌,
}
use mathlib.Core.List.Perm
use gosn_v.Items.Encrypted.{MapOrder}
use gosn_v.Cache.Errors.{says}
use gosn_v.Sync.Types.{SyncInput, SyncResponseData}
use gosn_v.Sync.Paging.{nothing}
use gosn_v.Sync.Retries.{
  Progress, Turn, Retrier, sync_items, sync_items_attempts, sync_attempt, turn_of, output_or_error,
}
use gosn_v.Sync.Retries.Calls.{sync_items_bounds}

one_less : (attempt : ℕ) → attempt < 10 → 10 - attempt ≡ suc (10 - suc attempt)
one_less attempt h = omega arith

module _ {World : Type 0} where
  unfoldable settle : Turn World → Option String × Progress World → Option String × Progress World
  settle t rest =
      if t.retry
      then elim t.error [ none ↦ (none, t.progress) | some e ↦ rest ]
      else (t.error, t.progress)

  unfoldable run_from :
      ℕ → ℕ → (ℕ → Progress World → Turn World) → Progress World → Option String × Progress World
  run_from zero attempt f p =
      settle (f attempt p) (some "exceeded retry limit", (f attempt p).progress)
  run_from (suc left) attempt f p =
      settle (f attempt p) (run_from left (suc attempt) f (f attempt p).progress)

  settle_again :
      (t : Turn World) (e : String) (rest : Option String × Progress World)
      → t.retry ≡ true
      → t.error ≡ some e
      → settle t rest ≡ rest
  unfolding settle
  settle_again t e rest again failed = rw again (rw failed refl)

  settle_stop :
      (t : Turn World) (rest : Option String × Progress World)
      → t.retry ≡ false
      → settle t rest ≡ (t.error, t.progress)
  unfolding settle
  settle_stop t rest stop = rw stop refl

  settle_done :
      (t : Turn World) (rest : Option String × Progress World)
      → t.error ≡ none
      → settle t rest ≡ (none, t.progress)
  unfolding settle
  settle_done t rest done = elim (Bool-cases t.retry) [
    | inl again ↦ rw again (rw done refl)
    | inr stop ↦ rw stop (rw done refl)
  ]

  run_from_lem :
      (left attempt : ℕ) (f : ℕ → Progress World → Turn World) (p : Progress World)
      → (rest : Option String × Progress World) × (run_from left attempt f p
          ≡ settle (f attempt p) rest)
  unfolding run_from
  run_from_lem zero attempt f p = (_, refl)
  run_from_lem (suc left) attempt f p = (_, refl)

  run_from_again :
      (left attempt : ℕ) (f : ℕ → Progress World → Turn World) (p : Progress World) (e : String)
      → (f attempt p).retry ≡ true
      → (f attempt p).error ≡ some e
      → run_from (suc left) attempt f p ≡ run_from left (suc attempt) f (f attempt p).progress
  unfolding run_from
  run_from_again left attempt f p e again failed = settle_again (f attempt p) e _ again failed

  abbrev ten_times : Retrier World
  ten_times = record {
    run = λ attempt f p. run_from (10 - attempt) attempt f p;
    run_again = λ attempt f p e h again failed.
        ap (λ left. run_from left attempt f p) (one_less attempt h)
        ∙ run_from_again (10 - suc attempt) attempt f p e again failed;
    run_stop = λ attempt f p stop.
        let (rest, same) = run_from_lem (10 - attempt) attempt f p in
        same ∙ settle_stop (f attempt p) rest stop;
    run_success = λ attempt f p done.
        let (rest, same) = run_from_lem (10 - attempt) attempt f p in
        same ∙ settle_done (f attempt p) rest done;
  }

abbrev first_come : MapOrder
first_come = record { values = λ l. l; values-perm = λ l. Perm.refl l }

-- A server that is always too busy: it counts its requests.
abbrev busy : SyncInput → ℕ → (SyncResponseData × Option String) × ℕ
busy input asked = ((nothing, some "Request timeout"), suc asked)

abbrev no_items : SyncInput
no_items = record { sync_token = ""; cursor_token = ""; items = []; next_item = 0; page_size = 500 }

sync_items_bounds_example :
    (sync_items busy ten_times first_come true none no_items nothing 0).1.attempts ≤ 4
sync_items_bounds_example = sync_items_bounds busy ten_times first_come true none no_items nothing 0

-- The fourth attempt is made, and its error returned.
busy_test :
    ((sync_items busy ten_times first_come true none no_items nothing 0).0
      ≡ inr "sync | Request timeout")
    × ((sync_items busy ten_times first_come true none no_items nothing 0).1.attempts ≡ 4)
unfolding sync_items sync_items_attempts sync_attempt turn_of output_or_error run_from settle says
busy_test = (refl, refl)

abbrev cut_off : SyncInput → ℕ → (SyncResponseData × Option String) × ℕ
cut_off input asked = ((nothing, some "unexpected EOF"), suc asked)

-- EOF in capitals is in no error put in lower case: such an error is not one that is tried again.
cut_off_test :
    ((sync_items cut_off ten_times first_come true none no_items nothing 0).0
      ≡ inr "sync | sync returned unhandled error: unexpected EOF")
    × ((sync_items cut_off ten_times first_come true none no_items nothing 0).1.attempts ≡ 1)
unfolding sync_items sync_items_attempts sync_attempt turn_of output_or_error run_from settle says
cut_off_test = (refl, refl)
