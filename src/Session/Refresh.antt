-- ===== src/Session/Refresh.antt =====
-- Session.Valid and Session.Refresh of session/session.go, and RequestRefreshTokenWithSession of
-- auth/authentication.go.
use Prim.Native.String.{◌++◌ as concat}
use text.Mathlib.Text.{starts_with}
use gosn_v.Prelude.{
  String, Bool, false, not, ◌&&◌, Option, none, some, List, [], ◌∷◌, ◌++◌, ◌==◌, eqb, ◌⊎◌, inl, inr,
  if◌then◌else◌,
}
use gosn_v.Session.Types.{
  Session, HttpRequest, HttpReply, failed, replied, Network, RefreshSessionResponse, Decoder,
  RequestError, transport, unreadable_body, bad_json,
}

abbrev pub sync_path : String
sync_path = "/v1/items"

abbrev pub auth_refresh_path : String
auth_refresh_path = "/v1/sessions/refresh"

unfoldable pub valid : Session → Bool
valid s =
    if s.refresh_token == ""
    then false
    else if s.access_token == ""
    then false
    else if s.master_key == ""
    then false
    else if eqb s.access_expiration 0
    then false
    else not (eqb s.refresh_expiration 0)

-- Two parts or more between the colons, the first of them "2".
abbrev pub is_cookie_based : String → Bool
is_cookie_based token = starts_with token "2:"

-- The fields of SignInResponseDataSession that the refresh reads.
pub record AuthSession : Type 0 where
  pub access_token : String
  pub refresh_token : String
  pub refresh_token_cookie : String

abbrev pub refresh_request : AuthSession → HttpRequest
refresh_request s =
    if is_cookie_based s.access_token && not (s.refresh_token_cookie == "")
    then record {
      path = auth_refresh_path;
      cookie = some s.refresh_token_cookie;
      authorization = concat "Bearer " s.refresh_token;
      body = "{\"api\":\"20240226\"}";
    }
    else record {
      path = auth_refresh_path;
      cookie = none;
      authorization = concat "Bearer " s.access_token;
      body = "{\"api\":\"20240226\"}";
    }

-- The status of the reply is not looked at.
unfoldable pub decode_refresh : Decoder → HttpReply → RefreshSessionResponse ⊎ RequestError
decode_refresh decode (failed e) = inr (transport e)
decode_refresh decode (replied status none) = inr unreadable_body
decode_refresh decode (replied status (some body)) = elim (decode body) [
  | none ↦ inr bad_json
  | some output ↦ inl output
]

unfoldable pub request_refresh_token_with_session :
    Network
    → Decoder
    → AuthSession
    → List HttpRequest
    → (RefreshSessionResponse ⊎ RequestError) × List HttpRequest
unfolding decode_refresh
request_refresh_token_with_session net decode s sent =
    (decode_refresh decode (net sent (refresh_request s)), sent ++ refresh_request s ∷ [])

-- What both callers pass on: the cookie of the refresh token is left out.
abbrev pub auth_session : Session → AuthSession
auth_session s = record {
  access_token = s.access_token;
  refresh_token = s.refresh_token;
  refresh_token_cookie = "";
}

-- The tokens that makeSyncRequest takes over.
abbrev pub with_tokens : RefreshSessionResponse → Session → Session
with_tokens output s = record s {
  access_token = output.access_token;
  refresh_token = output.refresh_token;
  access_expiration = output.access_expiration;
  refresh_expiration = output.refresh_expiration;
}

abbrev refreshed : Session → RefreshSessionResponse ⊎ RequestError → Session × Option RequestError
refreshed s (inr e) = (s, some e)
refreshed s (inl output) = (
  record (with_tokens output s) {
    files_server_url = output.files_server_url;
    read_only_access = not (eqb output.read_only_access 0);
  },
  none,
)

-- Session.Refresh
unfoldable pub refresh :
    Network
    → Decoder
    → Session
    → List HttpRequest
    → (Session × Option RequestError) × List HttpRequest
unfolding request_refresh_token_with_session
refresh net decode s sent =
    let (output, sent) = request_refresh_token_with_session net decode (auth_session s) sent in
    (refreshed s output, sent)
