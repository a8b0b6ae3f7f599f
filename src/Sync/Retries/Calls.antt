-- ===== src/Sync/Retries/Calls.antt =====
-- How often syncItems of items/sync.go calls syncItemsViaAPI.
use gosn_v.Prelude.{
  ℕ, zero, suc, ◌+◌, ◌≤◌, ◌<◌, ◌≡◌, refl, ap, ◌∙◌, String, Bool, true, false, Option, none, some,
  arith, Bool-cases, Option-cases, inl, inr,
}
use gosn_v.Sync.Types.{SyncInput, SyncResponseData}
use gosn_v.Sync.Retries.{
  Progress, Retrier, turn_of, sync_attempt, sync_items_attempts, sync_items, output_or_error,
}
use gosn_v.Items.Encrypted.{MapOrder}

turn_of_attempts :
    {World : Type 0} (attempt : ℕ) (e : Option String) (p : Progress World)
    → (turn_of attempt e p).progress.attempts ≡ p.attempts
unfolding turn_of
turn_of_attempts attempt none p = refl
turn_of_attempts attempt (some e) p = ground arith

turn_of_retry :
    {World : Type 0} (attempt : ℕ) (e : Option String) (p : Progress World)
    → (turn_of attempt e p).retry ≡ true
    → attempt < 4
unfolding turn_of
turn_of_retry attempt none p h = ground arith
turn_of_retry attempt (some e) p h = ground arith

output_or_error_bounds :
    {World : Type 0} (order : MapOrder) (r : Option String × Progress World)
    → r.1.attempts ≤ 4
    → (output_or_error order r).1.attempts ≤ 4
unfolding output_or_error
output_or_error_bounds order (none, p) h = h
output_or_error_bounds order (some e, p) h = h

module _ {World : Type 0} (via_api : SyncInput → World → (SyncResponseData × Option String) × World)
    (retrier : Retrier World) where
  sync_attempt-attempts :
      (attempt : ℕ) (p : Progress World)
      → (sync_attempt via_api attempt p).progress.attempts ≡ suc p.attempts
  unfolding sync_attempt
  sync_attempt-attempts attempt p = turn_of_attempts attempt _ _

  sync_attempt-retry :
      (attempt : ℕ) (p : Progress World)
      → (sync_attempt via_api attempt p).retry ≡ true
      → attempt < 4
  unfolding sync_attempt
  sync_attempt-retry attempt p h = turn_of_retry attempt _ _ h

  one_more :
      (left attempt : ℕ) (p : Progress World)
      → (r : Option String × Progress World) → r.1 ≡ (sync_attempt via_api attempt p).progress
      → r.1.attempts ≤ p.attempts + suc left
  one_more left attempt p r h =
      let e = ap (λ q. q.attempts) h ∙ sync_attempt-attempts attempt p in omega arith

  -- Where another attempt is made, it is not the fourth.
  not_last :
      (attempt : ℕ) (p : Progress World)
      → (sync_attempt via_api attempt p).retry ≡ true
      → attempt + 0 ≡ 4
      → ⊥
  not_last attempt p again h = let below = sync_attempt-retry attempt p again in omega arith

  on_success :
      (left attempt : ℕ) (p : Progress World)
      → (sync_attempt via_api attempt p).error ≡ none
      → (retrier.run attempt (sync_attempt via_api) p).1.attempts ≤ p.attempts + suc left
  on_success left attempt p h =
      one_more left attempt p (retrier.run attempt (sync_attempt via_api) p)
        (ap (λ r. r.1) (retrier.run_success attempt (sync_attempt via_api) p h))

  on_stop :
      (left attempt : ℕ) (p : Progress World)
      → (sync_attempt via_api attempt p).retry ≡ false
      → (retrier.run attempt (sync_attempt via_api) p).1.attempts ≤ p.attempts + suc left
  on_stop left attempt p h =
      one_more left attempt p (retrier.run attempt (sync_attempt via_api) p)
        (ap (λ r. r.1) (retrier.run_stop attempt (sync_attempt via_api) p h))

  on_again :
      (left attempt : ℕ) (p : Progress World) (e : String)
      → attempt < 4
      → (sync_attempt via_api attempt p).retry ≡ true
      → (sync_attempt via_api attempt p).error ≡ some e
      → (retrier.run
          (suc attempt)
          (sync_attempt via_api)
          (sync_attempt via_api attempt p).progress).1.attempts
        ≤ (sync_attempt via_api attempt p).progress.attempts + suc left
      → (retrier.run attempt (sync_attempt via_api) p).1.attempts ≤ p.attempts + suc (suc left)
  on_again left attempt p e below again h rest =
      let same : (retrier.run attempt (sync_attempt via_api) p).1.attempts
          ≡ (retrier.run (suc attempt) (sync_attempt via_api)
              (sync_attempt via_api attempt p).progress).1.attempts =
        ap (λ r. r.1.attempts)
          (retrier.run_again attempt (sync_attempt via_api) p e (omega arith) again h) in
      let more = sync_attempt-attempts attempt p in omega arith

  -- From one attempt on, by the number that is left to the fourth.
  run_attempts :
      (left attempt : ℕ) (p : Progress World)
      → attempt + left ≡ 4
      → (retrier.run attempt (sync_attempt via_api) p).1.attempts ≤ p.attempts + suc left
  run_attempts zero attempt p h = elim (Bool-cases (sync_attempt via_api attempt p).retry) [
    | inl again ↦ absurd (not_last attempt p again h)
    | inr stop ↦ on_stop zero attempt p stop
  ]
  run_attempts (suc left) attempt p h =
      let rest =
        run_attempts left (suc attempt) (sync_attempt via_api attempt p).progress (omega arith) in
      elim (Option-cases (sync_attempt via_api attempt p).error) [
        | inl done ↦ on_success (suc left) attempt p done
        | inr (e, failed) ↦ elim (Bool-cases (sync_attempt via_api attempt p).retry) [
          | inl again ↦
              on_again left attempt p e (sync_attempt-retry attempt p again) again failed rest
          | inr stop ↦ on_stop (suc left) attempt p stop
        ]
      ]

  -- A synchronisation calls syncItemsViaAPI four times at most.
  pub sync_items_attempts_bounds :
      (input : SyncInput) (nothing : SyncResponseData) (world : World)
      → (sync_items_attempts via_api retrier input nothing world).1.attempts ≤ 4
  unfolding sync_items_attempts
  sync_items_attempts_bounds input nothing world = run_attempts 3 1 _ refl

  -- What syncItems returns, on each path: with a session that is not valid and with a delay that cannot be
  -- read it calls nothing, and otherwise syncItemsViaAPI four times at most.
  pub sync_items_bounds :
      (order : MapOrder) (session_valid : Bool) (delay_error : Option String)
      → (input : SyncInput) (nothing : SyncResponseData) (world : World)
      → (sync_items via_api retrier order session_valid delay_error input nothing world).1.attempts
        ≤ 4
  unfolding sync_items
  sync_items_bounds order false delay_error input nothing world = omega arith
  sync_items_bounds order true (some e) input nothing world = omega arith
  sync_items_bounds order true none input nothing world =
      output_or_error_bounds order (sync_items_attempts via_api retrier input nothing world)
        (sync_items_attempts_bounds input nothing world)
