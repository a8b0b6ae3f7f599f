-- ===== src/Sync/Request.antt =====
-- makeSyncRequest of items/items.go: the requests that it sends, with the retries of a busy server and
-- the refresh of the session. One context with a deadline is shared by all of them; of the time, what is slept
-- between two requests is counted in seconds, and an exchange that itself outlasts the deadline is a reply of the
-- network. The header Cookie is what the function sets by hand, to which the jar of the client may add. The
-- variable of the environment for the time-out, the mutex and the log lines are left out.
pub mod Attempts
mod Examples
use Prim.Native.String.{◌++◌ as concat}
use gosn_v.Prelude.{
  ℕ, zero, suc, ◌+◌, ◌*◌, String, Bool, true, false, not, ◌&&◌, Option, none, some, List, [], ◌∷◌,
  ◌++◌, ◌==◌, eqb, ltb, ◌⊎◌, inl, inr, if◌then◌else◌,
}
use gosn_v.Session.Types.{
  Session, HttpRequest, HttpReply, failed, replied, Network, RefreshSessionResponse, Decoder,
  RequestError, transport, unreadable_body, payload_too_large, invalid_token, refresh_failed,
  retry_failed, unexpected_status,
}
use gosn_v.Session.Refresh.{
  sync_path, is_cookie_based, auth_session, with_tokens, request_refresh_token_with_session,
}

abbrev pub max_request_retries : ℕ
max_request_retries = 5

-- The first request: with the cookie, if the session is based on cookies and has one.
unfoldable pub first_request : Session → String → HttpRequest
first_request s body =
    if is_cookie_based s.access_token && not (s.access_token_cookie == "")
    then record {
      path = sync_path;
      cookie = some s.access_token_cookie;
      authorization = concat "Bearer " s.access_token;
      body = body;
    }
    else record {
      path = sync_path;
      cookie = none;
      authorization = concat "Bearer " s.access_token;
      body = body;
    }

-- The requests after it.
abbrev pub retry_request : Session → String → HttpRequest
retry_request s body = record {
  path = sync_path;
  cookie = none;
  authorization = concat "Bearer " s.access_token;
  body = body;
}

-- The time-out of the context, in seconds.
abbrev pub request_timeout : ℕ
request_timeout = 30

abbrev pub is_busy : HttpReply → Bool
is_busy (failed e) = false
is_busy (replied status content) = eqb status 429

-- client.Do after the deadline; of the error, which names the URL too, its cause.
abbrev pub deadline_exceeded : HttpReply
deadline_exceeded = failed "context deadline exceeded"

-- The loop over the attempts, by the number of retries that are left, with the seconds slept so far and those of
-- the next delay.
unfoldable pub attempts :
    Network
    → (retry : HttpRequest) → (left slept delay : ℕ) → HttpRequest
    → List HttpRequest
    → HttpReply × List HttpRequest
attempts net retry zero slept delay request sent =
    if ltb slept request_timeout
    then (net sent request, sent ++ request ∷ [])
    else (deadline_exceeded, sent)
attempts net retry (suc left) slept delay request sent =
    let again = attempts net retry left (slept + delay) (2 * delay) retry (sent ++ request ∷ []) in
    if not (ltb slept request_timeout)
    then (deadline_exceeded, sent)
    else if is_busy (net sent request)
    then again
    else (net sent request, sent ++ request ∷ [])

-- The body, none for nil, the status and the error that makeSyncRequest returns.
pub record Returned : Type 0 where
  pub content : Option String
  pub status : ℕ
  pub error : Option RequestError

abbrev pub refuse : RequestError → Returned
refuse e = record { content = none; status = 0; error = some e }

abbrev failing : String → ℕ → RequestError → Returned
failing body status e = record { content = some body; status = status; error = some e }

-- What follows a reply that is neither 401 nor a failure to read.
abbrev conclude : ℕ → String → Returned
conclude status body =
    if eqb status 413
    then failing body status payload_too_large
    else if eqb status 498
    then failing body status invalid_token
    else if ltb 400 status
    then failing body status (unexpected_status status)
    else record { content = some body; status = status; error = none }

abbrev after_retry : HttpReply → Returned
after_retry (failed e) = refuse (retry_failed e)
after_retry (replied status none) = record {
  content = none;
  status = status;
  error = some unreadable_body;
}
after_retry (replied status (some body)) = record {
  content = some body;
  status = status;
  error = none;
}

-- The refresh after a reply of 401, and the one retry with the new token. Less than the time-out has been
-- slept where there is a reply.
abbrev pub unauthorized :
    Network
    → Session
    → (req_body body : String) → (RefreshSessionResponse ⊎ RequestError) × List HttpRequest
    → (Returned × Session) × List HttpRequest
unauthorized net s req_body body (inr e, sent) = ((failing body 401 (refresh_failed e), s), sent)
unauthorized net s req_body body (inl output, sent) =
    let s = with_tokens output s in
    let request = retry_request s req_body in
    ((after_retry (net sent request), s), sent ++ request ∷ [])

unfoldable pub process_reply :
    Network
    → Decoder
    → Session
    → String
    → HttpReply × List HttpRequest
    → (Returned × Session) × List HttpRequest
process_reply net decode s req_body (failed e, sent) = ((refuse (transport e), s), sent)
process_reply net decode s req_body (replied status none, sent) =
    ((record { content = none; status = status; error = some unreadable_body }, s), sent)
process_reply net decode s req_body (replied status (some body), sent) =
    let refreshing = request_refresh_token_with_session net decode (auth_session s) sent in
    if eqb status 401
    then unauthorized net s req_body body refreshing
    else ((conclude status body, s), sent)

unfoldable pub make_sync_request :
    Network
    → Decoder
    → Session
    → String
    → List HttpRequest
    → (Returned × Session) × List HttpRequest
unfolding first_request attempts process_reply
make_sync_request net decode s req_body sent = process_reply net decode s req_body (
    attempts net (retry_request s req_body) max_request_retries 0 1 (first_request s req_body) sent)
