-- ===== src/Cache/Retry/Laws.antt =====
-- How often a synchronisation is tried, how long it waits, and when it succeeds.
use mathlib.Core.List.{append_assoc, append-nil}
use gosn_v.Prelude.{
  ℕ, zero, suc, ◌≤◌, ◌≡◌, refl, ◌∙◌, sym, ◌⊎◌, inl, inr, String, true, false, Option, none, some,
  List, [], ◌∷◌, ◌++◌, length, arith, All, Bool-cases, Sum-cases,
}
use gosn_v.Cache.Errors.{
  SyncError, SyncErrorType, Error, plain, classified, classify_sync_error, handle_sync_error,
}
use gosn_v.Cache.Retry.{
  RateLimitBackoff, no_backoff, enforce_rate_limit_backoff, as_sync_error, back_off, Tried,
  Synchronise, after_attempt, sync_attempts, sync_with_retry, PushInput, Pushed, push_attempts,
  push_with_retries,
}

module _ {SyncOutput World : Type 0} (sync : Synchronise SyncOutput World) where
  -- What a result of SyncWithRetry amounts to, with `left` retries left.
  abbrev pub Bounded : ℕ → Tried SyncOutput World → Type 0
  Bounded left r =
      (length r.delays ≤ left)
      × ((e : SyncError) → r.error ≡ some e → (e.retryable ≡ false) ⊎ (length r.delays ≡ left))

  after_attempt-Bounded :
      (left : ℕ) (retry : RateLimitBackoff → World → Tried SyncOutput World)
      → ((b : RateLimitBackoff) (w : World) → Bounded left (retry b w))
      → (b : RateLimitBackoff) (attempt : SyncOutput × Option Error × World)
      → Bounded (suc left) (after_attempt sync (some retry) b attempt)
  unfolding after_attempt
  after_attempt-Bounded left retry h b (out, none, w) = (omega arith, λ e no. absurd (cc))
  after_attempt-Bounded left retry h b (out, some e, w) =
      elim (Bool-cases (as_sync_error e).retryable) [
        | inr final ↦
            simp final
              (omega arith, λ k same. inl (let s : as_sync_error e ≡ k = cc in rw (← s) final))
        | inl again ↦
            let next = back_off (as_sync_error e) b in
            let later = h next.0 w in
            simp again (
              omega (arith, later.0),
              λ k same. elim (later.1 k same) [
                | inl final ↦ inl final
                | inr all ↦ inr (omega (arith, all))
              ],
            )
      ]

  sync_attempts-Bounded :
      (left : ℕ) (b : RateLimitBackoff) (w : World) → Bounded left (sync_attempts sync left b w)
  unfolding sync_attempts after_attempt
  sync_attempts-Bounded zero b w = last (sync w)
    where
      last :
          (attempt : SyncOutput × Option Error × World)
          → Bounded 0 (after_attempt sync none b attempt)
      last (out, none, w) = (omega arith, λ e no. absurd (cc))
      last (out, some e, w) = (omega arith, λ k same. inr refl)
  sync_attempts-Bounded (suc left) b w =
      after_attempt-Bounded left (sync_attempts sync left) (λ b w. sync_attempts-Bounded left b w) b
        (sync w)

  -- SyncWithRetry waits as often as it may retry, at most, so that it synchronises once more often;
  -- and where it returns an error, that may not be retried, or else every retry has been made.
  pub sync_with_retry-Bounded :
      (max_retries : ℕ) (w : World) → Bounded max_retries (sync_with_retry sync max_retries w)
  unfolding sync_with_retry
  sync_with_retry-Bounded max_retries w = sync_attempts-Bounded max_retries no_backoff w

  -- A run of attempts that fail, each with an error that may be retried, until one succeeds.
  pub data Succeeds : World → ℕ → SyncOutput → World → Type 0 where
    at_once :
        {w after : World} {out : SyncOutput} → sync w ≡ (out, none, after) → Succeeds w 0 out after
    later :
        {w next after : World} {failed out : SyncOutput} {e : Error} {n : ℕ}
        → sync w ≡ (failed, some e, next)
        → (as_sync_error e).retryable ≡ true
        → Succeeds next n out after
        → Succeeds w (suc n) out after

  -- What SyncWithRetry returns of a success.
  abbrev pub IsSuccess : SyncOutput → World → Tried SyncOutput World → Type 0
  IsSuccess out after r = (r.out ≡ out) × (r.error ≡ none) × (r.world ≡ after)

  sync_attempts-Succeeds :
      (left n : ℕ) (b : RateLimitBackoff) (w after : World) (out : SyncOutput)
      → Succeeds w n out after
      → n ≤ left
      → IsSuccess out after (sync_attempts sync left b w)
  unfolding sync_attempts after_attempt
  sync_attempts-Succeeds zero n b w after out (at_once e) h = simp e (refl, refl, refl)
  sync_attempts-Succeeds (suc left) n b w after out (at_once e) h = simp e (refl, refl, refl)
  sync_attempts-Succeeds zero n b w after out (later e again s) h = absurd (omega arith)
  sync_attempts-Succeeds (suc left) (suc n) b w after out (later {next} {e = error} e again s) h =
      simp (e, again)
        (sync_attempts-Succeeds left n (back_off (as_sync_error error) b).0 next after out s
          (omega arith))

  -- Where fewer attempts than are made fail, each with an error that may be retried, and the next one
  -- succeeds, SyncWithRetry returns the output of that one and no error.
  pub sync_with_retry-Succeeds :
      (max_retries n : ℕ) (w after : World) (out : SyncOutput)
      → Succeeds w n out after
      → n ≤ max_retries
      → IsSuccess out after (sync_with_retry sync max_retries w)
  unfolding sync_with_retry
  sync_with_retry-Succeeds max_retries n w after out s h =
      sync_attempts-Succeeds max_retries n no_backoff w after out s h

-- The state of the rate limit that only enforceRateLimitBackoff changes.
abbrev IsBackoff : RateLimitBackoff → Type 0
IsBackoff b = ((b.attempts ≡ 0) × (b.base_delay_ms ≡ 0)) ⊎ (b.max_delay_ms ≡ 5000)

enforce_rate_limit_backoff-IsBackoff :
    (b : RateLimitBackoff)
    → IsBackoff b
    → IsBackoff (enforce_rate_limit_backoff b).0 × ((enforce_rate_limit_backoff b).1 ≤ 5000)
unfolding enforce_rate_limit_backoff
enforce_rate_limit_backoff-IsBackoff b h = ground arith

classify_sync_error_backoff : (err : String) → (classify_sync_error err).backoff_ms ≤ 5000
unfolding classify_sync_error
classify_sync_error_backoff err = ground arith

back_off-IsBackoff :
    (e : SyncError) (b : RateLimitBackoff)
    → IsBackoff b
    → e.backoff_ms ≤ 5000
    → IsBackoff (back_off e b).0 × ((back_off e b).1 ≤ 5000)
unfolding back_off
back_off-IsBackoff e b h k = by_type e.type
  where
    by_type :
        (t : SyncErrorType)
        → let r = elim t as (λ t. RateLimitBackoff × ℕ) [
          | SyncErrorType.rate_limit ↦ enforce_rate_limit_backoff b
          | _ ↦ (b, e.backoff_ms)
        ] in
          IsBackoff r.0 × (r.1 ≤ 5000)
    by_type SyncErrorType.rate_limit = enforce_rate_limit_backoff-IsBackoff b h
    by_type SyncErrorType.unknown = (h, k)
    by_type SyncErrorType.validation = (h, k)
    by_type SyncErrorType.authentication = (h, k)
    by_type SyncErrorType.items_key = (h, k)
    by_type SyncErrorType.conflict = (h, k)
    by_type SyncErrorType.network = (h, k)

abbrev pub IsShort : ℕ → Type 0
IsShort ms = ms ≤ 5000

module _ {SyncOutput World : Type 0} (sync : Synchronise SyncOutput World)
    (short : (w : World) (e : SyncError)
      → (sync w).1 ≡ some (classified e)
      → IsShort e.backoff_ms) where
  as_sync_error-IsShort :
      (w : World) (e : Error) → (sync w).1 ≡ some e → IsShort (as_sync_error e).backoff_ms
  unfolding as_sync_error
  as_sync_error-IsShort w (plain err) h = classify_sync_error_backoff err
  as_sync_error-IsShort w (classified e) h = short w e h

  after_attempt-IsShort :
      (retry : RateLimitBackoff → World → Tried SyncOutput World)
      → ((b : RateLimitBackoff) (w : World) → IsBackoff b → All IsShort (retry b w).delays)
      → (b : RateLimitBackoff) (attempt : SyncOutput × Option Error × World) → IsBackoff b
      → ((e : Error) → attempt.1 ≡ some e → IsShort (as_sync_error e).backoff_ms)
      → All IsShort (after_attempt sync (some retry) b attempt).delays
  unfolding after_attempt
  after_attempt-IsShort retry h b (out, none, w) k l = tt
  after_attempt-IsShort retry h b (out, some e, w) k l =
      let next = back_off-IsBackoff (as_sync_error e) b k (l e refl) in
      elim (Bool-cases (as_sync_error e).retryable) [
        | inr final ↦ simp final tt
        | inl again ↦ simp again (next.1, h (back_off (as_sync_error e) b).0 w next.0)
      ]

  sync_attempts-IsShort :
      (left : ℕ) (b : RateLimitBackoff) (w : World)
      → IsBackoff b
      → All IsShort (sync_attempts sync left b w).delays
  unfolding sync_attempts after_attempt
  sync_attempts-IsShort zero b w k = ends (sync w)
    where
      ends :
          (attempt : SyncOutput × Option Error × World)
          → All IsShort (after_attempt sync none b attempt).delays
      ends (out, none, w) = tt
      ends (out, some e, w) = tt
  sync_attempts-IsShort (suc left) b w k =
      after_attempt-IsShort (sync_attempts sync left) (λ b w k. sync_attempts-IsShort left b w k) b
        (sync w) k (as_sync_error-IsShort w)

  -- Where the errors that a synchronisation classifies itself ask for five seconds at most, no delay of
  -- SyncWithRetry is longer than five seconds, however often it retries.
  pub sync_with_retry-IsShort :
      (max_retries : ℕ) (w : World) → All IsShort (sync_with_retry sync max_retries w).delays
  unfolding sync_with_retry
  sync_with_retry-IsShort max_retries w =
      sync_attempts-IsShort max_retries no_backoff w (inl (refl, refl))

abbrev pub repeated : ℕ → PushInput → List PushInput
repeated zero input = []
repeated (suc n) input = input ∷ repeated n input

module _ {SyncOutput : Type 0} (items_sync : List PushInput → PushInput → SyncOutput ⊎ String)
    (cache_db_path : String) where
  -- What a result of the loop amounts to, where `calls` were made before.
  abbrev pub IsPush : ℕ → PushInput → List PushInput → Pushed SyncOutput → Type 0
  IsPush left input calls r = (n : ℕ) × (n ≤ left) × (r.calls ≡ calls ++ repeated n input)

  push_attempts-IsPush :
      (left attempt : ℕ) (input : PushInput) (calls : List PushInput) (error : Option String)
      → IsPush left input calls
          (push_attempts items_sync cache_db_path left attempt input calls error)
  unfolding push_attempts
  push_attempts-IsPush zero attempt input calls error = (0, omega arith, sym (append-nil calls))
  push_attempts-IsPush (suc left) attempt input calls error =
      elim (Sum-cases (items_sync calls input)) [
        | inl (out, k) ↦ rw (push_attempts, k) (1, omega arith, refl)
        | inr (e, k) ↦
            let rest =
              push_attempts-IsPush left (suc attempt) input (calls ++ input ∷ []) (some e) in
            elim (Bool-cases (handle_sync_error cache_db_path e).should_retry) [
              | inr final ↦ rw (push_attempts, k, final) (1, omega arith, refl)
              | inl again ↦
                  rw (push_attempts, k, again)
                    (
                      suc rest.0,
                      omega (arith, rest.1),
                      rest.2 ∙ append_assoc calls (input ∷ []) (repeated rest.0 input),
                    )
            ]
      ]

  -- Sync calls items.Sync three times at most, and each time with the same items and the same token,
  -- also after it has dropped the token of the database as an invalid one.
  pub push_with_retries-IsPush :
      (input : PushInput) → IsPush 3 input [] (push_with_retries items_sync cache_db_path input)
  unfolding push_with_retries
  push_with_retries-IsPush input = push_attempts-IsPush 3 0 input [] none

  -- What the loop returns without an error is an answer of items.Sync to the one input.
  push_attempts_answer :
      (left attempt : ℕ) (input : PushInput) (calls : List PushInput) (error : Option String)
      (out : SyncOutput)
      → (push_attempts items_sync cache_db_path left attempt input calls error).out ≡ some out
      → (earlier : List PushInput) × (items_sync earlier input ≡ inl out)
  unfolding push_attempts
  push_attempts_answer zero attempt input calls error out h = absurd (cc h)
  push_attempts_answer (suc left) attempt input calls error out h =
      elim (Sum-cases (items_sync calls input)) [
        | inl (found, k) ↦
            let same : ◌≡◌ {A = Option SyncOutput} (some found) (some out) =
              rw (push_attempts, k) at h in
            (calls, k ∙ cc same)
        | inr (e, k) ↦ elim (Bool-cases (handle_sync_error cache_db_path e).should_retry) [
          | inr final ↦ let no = rw (push_attempts, k, final) at h in absurd (cc no)
          | inl again ↦
              push_attempts_answer left (suc attempt) input (calls ++ input ∷ []) (some e) out
                (rw (push_attempts, k, again) at h)
        ]
      ]

  pub push_with_retries_answer :
      (input : PushInput) (out : SyncOutput)
      → (push_with_retries items_sync cache_db_path input).out ≡ some out
      → (earlier : List PushInput) × (items_sync earlier input ≡ inl out)
  unfolding push_with_retries
  push_with_retries_answer input out h = push_attempts_answer 3 0 input [] none out h
