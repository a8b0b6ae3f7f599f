-- ===== src/Sync/Request/Attempts.antt =====
-- makeSyncRequest at a server that is busy for a while: when it gets through, and when the deadline passes.
use gosn_v.Prelude.{
  ℕ, zero, suc, ◌+◌, ◌*◌, ◌≤◌, ◌<◌, ◌≡◌, refl, ◌∙◌, String, true, none, some, List, [], ◌∷◌, ◌++◌,
  length, length-append, ltb, arith,
}
use gosn_v.Session.Types.{Session, HttpRequest, HttpReply, replied, Network, Decoder, transport}
use gosn_v.Sync.Request.{
  attempts, first_request, retry_request, is_busy, process_reply, make_sync_request,
  max_request_retries, request_timeout, deadline_exceeded, refuse,
}

-- A server that is busy for a while: the first replies after `sent` are 429, and the one after them
-- is 200.
pub record IsBusyFor (net : Network) (sent : List HttpRequest) (n : ℕ) (answer : String)
    : Type 0 where
  pub busy :
      (h : List HttpRequest) (r : HttpRequest)
      → length h < length sent + n
      → is_busy (net h r) ≡ true
  pub ready :
      (h : List HttpRequest) (r : HttpRequest)
      → length h ≡ length sent + n
      → net h r ≡ replied 200 (some answer)

-- The seconds slept for a number of retries, of which the first waits for `delay`.
slept_for : ℕ → ℕ → ℕ
slept_for zero delay = 0
slept_for (suc n) delay = delay + slept_for n (2 * delay)

attempts-ready :
    (net : Network) (retry : HttpRequest) (n left slept delay : ℕ) (request : HttpRequest)
    (sent : List HttpRequest) (answer : String)
    → IsBusyFor net sent n answer
    → n ≤ left
    → slept + slept_for n delay < request_timeout
    → (attempts net retry left slept delay request sent).0 ≡ replied 200 (some answer)
unfolding attempts slept_for
attempts-ready net retry zero zero slept delay request sent answer b h k =
    let early : ltb slept request_timeout ≡ true = ground arith in
    rw early (b.ready sent request (omega arith))
attempts-ready net retry zero (suc left) slept delay request sent answer b h k =
    let early : ltb slept request_timeout ≡ true = ground arith in
    rw early (rw (b.ready sent request (omega arith)) refl)
attempts-ready net retry (suc n) zero slept delay request sent answer b h k = absurd (omega arith)
attempts-ready net retry (suc n) (suc left) slept delay request sent answer b h k =
    let early : ltb slept request_timeout ≡ true = ground arith in
    let grows = length-append sent (request ∷ []) in
    let later : IsBusyFor net (sent ++ request ∷ []) n answer = record {
      busy = λ g r k. b.busy g r (omega (arith, grows, k));
      ready = λ g r k. b.ready g r (omega (arith, grows, k));
    } in
    rw early (
      rw (b.busy sent request (omega arith)) (
        attempts-ready net retry n left (slept + delay) (2 * delay) retry (sent ++ request ∷ [])
          answer later (omega arith) (omega arith)))

process_reply-ready :
    (net : Network) (decode : Decoder) (s : Session) (body : String)
    (tried : HttpReply × List HttpRequest) (answer : String)
    → tried.0 ≡ replied 200 (some answer)
    → (process_reply net decode s body tried).0
      ≡ (record { content = some answer; status = 200; error = none }, s)
unfolding process_reply
process_reply-ready net decode s body (reply, sent) answer h = rw h refl

slept_for_few : (n : ℕ) → n ≤ 4 → slept_for n 1 < request_timeout
unfolding slept_for
slept_for_few zero h = omega arith
slept_for_few (suc zero) h = omega arith
slept_for_few (suc (suc zero)) h = omega arith
slept_for_few (suc (suc (suc zero))) h = omega arith
slept_for_few (suc (suc (suc (suc zero)))) h = omega arith
slept_for_few (suc (suc (suc (suc (suc n))))) h = absurd (omega arith)

-- Where the server is busy for four requests at most and then answers with 200, makeSyncRequest returns that
-- answer and no error, and leaves the session as it was.
pub make_sync_request-IsBusyFor :
    (net : Network) (decode : Decoder) (s : Session) (body : String) (sent : List HttpRequest)
    (n : ℕ) (answer : String)
    → IsBusyFor net sent n answer
    → n ≤ 4
    → (make_sync_request net decode s body sent).0
      ≡ (record { content = some answer; status = 200; error = none }, s)
unfolding make_sync_request
make_sync_request-IsBusyFor net decode s body sent n answer b h =
    let retry = retry_request s body in
    let few = slept_for_few n h in
    process_reply-ready net decode s body
      (attempts net retry max_request_retries 0 1 (first_request s body) sent) answer
      (attempts-ready net retry n max_request_retries 0 1 (first_request s body) sent answer b
        (omega arith) (omega (arith, few)))

-- A server that replies with 429 to the next requests, whatever they are.
abbrev pub IsBusy : Network → List HttpRequest → ℕ → Type 0
IsBusy net sent n =
    (h : List HttpRequest) (r : HttpRequest) → length h < length sent + n → is_busy (net h r) ≡ true

attempts-busy :
    (net : Network) (retry : HttpRequest) (left slept delay : ℕ) (request : HttpRequest)
    (sent : List HttpRequest)
    → is_busy (net sent request) ≡ true
    → ltb slept request_timeout ≡ true
    → attempts net retry (suc left) slept delay request sent
      ≡ attempts net retry left (slept + delay) (2 * delay) retry (sent ++ request ∷ [])
unfolding attempts
attempts-busy net retry left slept delay request sent h k = rw k (rw h refl)

-- All retries take one request each, until the deadline.
attempts_late :
    (net : Network) (first retry : HttpRequest) (sent : List HttpRequest)
    → IsBusy net sent 5
    → attempts net retry max_request_retries 0 1 first sent ≡ (
      deadline_exceeded,
      ((((sent ++ first ∷ []) ++ retry ∷ []) ++ retry ∷ []) ++ retry ∷ []) ++ retry ∷ [],
    )
attempts_late net first retry sent busy =
    let s1 = sent ++ first ∷ [] in
    let s2 = s1 ++ retry ∷ [] in
    let s3 = s2 ++ retry ∷ [] in
    let s4 = s3 ++ retry ∷ [] in
    let l1 = length-append sent (first ∷ []) in
    let l2 = length-append s1 (retry ∷ []) in
    let l3 = length-append s2 (retry ∷ []) in
    let l4 = length-append s3 (retry ∷ []) in
    attempts-busy net retry 4 0 1 first sent (busy sent first (omega arith)) refl
    ∙ attempts-busy net retry 3 1 2 retry s1 (busy s1 retry (omega (arith, l1))) refl
    ∙ attempts-busy net retry 2 3 4 retry s2 (busy s2 retry (omega (arith, l1, l2))) refl
    ∙ attempts-busy net retry 1 7 8 retry s3 (busy s3 retry (omega (arith, l1, l2, l3))) refl
    ∙ attempts-busy net retry 0 15 16 retry s4 (busy s4 retry (omega (arith, l1, l2, l3, l4))) refl
    ∙ (unfold attempts in refl)

-- Where the server is busy for five requests, makeSyncRequest sends these and no more, the first one and four
-- retries, and returns that the deadline is exceeded, whatever the server would reply to a sixth.
pub make_sync_request_late :
    (net : Network) (decode : Decoder) (s : Session) (body : String) (sent : List HttpRequest)
    → IsBusy net sent 5
    → make_sync_request net decode s body sent ≡ (
      (refuse (transport "context deadline exceeded"), s),
      ((((sent ++ first_request s body ∷ []) ++ retry_request s body ∷ [])
              ++ retry_request s body ∷ [])
            ++ retry_request s body ∷ [])
          ++ retry_request s body ∷ [],
    )
unfolding make_sync_request process_reply
make_sync_request_late net decode s body sent busy =
    rw (attempts_late net (first_request s body) (retry_request s body) sent busy) refl
