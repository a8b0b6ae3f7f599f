-- ===== src/Auth/SignIn.antt =====
-- SignIn, processConnectionFailure and CliSignIn of auth/authentication.go. The delay after a sign in is left
-- out, with the variable of the environment that asks for it.
pub mod Secrecy
pub mod Mfa
use Prim.Native.String.{◌++◌ as concat}
use gosn_v.Prelude.{
  ℕ, String, false, not, ◌&&◌, Option, none, some, List, [], ◌∷◌, ◌++◌, ◌==◌, eqb, ◌⊎◌, inl, inr,
  map, if◌then◌else◌,
}
use gosn_v.Prelude.Bytes.{Bytes, codes, includes}
use gosn_v.Session.Types.{KeyParams}
use gosn_v.Crypto.Libraries.{Primitives}
use gosn_v.Filter.Types.{lower}
use gosn_v.Auth.Types.{
  AuthRequest, AuthNetwork, Verifier, ServerError, SignInData, AuthLibraries, AuthParamsOutput,
  SignInInput, SignedIn, SignInOutput, User, AuthResult, signed, error, panicked,
}
use gosn_v.Auth.Keys.{KeyLibraries, generate_keys, generate_challenge}
use gosn_v.Auth.Params.{auth_params_path, get_auth_params}
use gosn_v.Auth.Token.{request_token, trim_space}

abbrev pub api_server : String
api_server = "https://api.standardnotes.com"

abbrev pub sign_in_path : String
sign_in_path = "/v2/login"

abbrev no_key_params : KeyParams
no_key_params = record {
  created = "";
  identifier = "";
  origination = "";
  pw_nonce = "";
  version = "";
}

abbrev no_user : User
no_user = record { uuid = ""; email = ""; protocol_version = "" }

abbrev no_session : SignedIn
no_session = record {
  master_key = "";
  key_params = no_key_params;
  access_token = "";
  refresh_token = "";
  access_expiration = 0;
  refresh_expiration = 0;
  read_only_access = false;
  password_nonce = "";
  access_token_cookie = "";
  refresh_token_cookie = "";
}

-- The output that asks for the value of a token.
abbrev token_wanted : String → SignInOutput
token_wanted name = record {
  session = no_session;
  key_params = no_key_params;
  user = no_user;
  token_name = name;
}

abbrev pub session_of : (mk : String) → SignInData → SignedIn
session_of mk data' = record {
  master_key = mk;
  key_params = data'.key_params;
  access_token = data'.access_token;
  refresh_token = data'.refresh_token;
  access_expiration = data'.access_expiration;
  refresh_expiration = data'.refresh_expiration;
  read_only_access = data'.read_only_access;
  password_nonce = data'.key_params.pw_nonce;
  access_token_cookie = data'.access_token_cookie;
  refresh_token_cookie = data'.refresh_token_cookie;
}

unfoldable pub output_of :
    (mk : String) → (SignInData × ServerError) ⊎ Bytes → AuthResult SignInOutput
output_of mk (inr e) = error e
output_of mk (inl (success, failure)) =
    if not (failure.message == "")
    then error (map lower (codes failure.message))
    else signed (record {
      session = session_of mk success;
      key_params = success.key_params;
      user = success.user;
      token_name = "";
    })

module _ (p : Primitives) (keys : KeyLibraries) (libs : AuthLibraries) (net : AuthNetwork) where
  abbrev unresolved : Bytes → (url : String) → Option Bytes → Bytes
  unresolved e url none = e
  unresolved e url (some host) =
      codes "failed to connect to "
      ++ codes url
      ++ codes " as "
      ++ host
      ++ codes " cannot be resolved"

  unfoldable pub process_connection_failure : Bytes → (url : String) → Bytes
  process_connection_failure e url =
      if includes e (codes "no such host")
      then unresolved e url (libs.hostname url)
      else if includes e (codes "StatusCode:503")
      then codes "API server returned status 503: 'Service Unavailable'"
      else if includes e (codes "EOF")
      then codes "API server returned an empty response"
      else if includes e (codes "unsupported protocol scheme")
      then (if not (url == "")
          then codes "protocol is missing from API server URL: " ++ codes url
          else codes "API server URL is undefined")
      else if includes e (codes "i/o timeout")
      then codes "failed to connect to " ++ codes url ++ codes " within 10 seconds"
      else if includes e (codes "permission denied")
      then codes "failed to connect to " ++ codes url
      else codes "unhandled exception...\n- url: " ++ codes url ++ codes "\n- error: " ++ e

  -- From the keys of the password on; none where their derivation panics.
  unfoldable pub with_keys :
      SignInInput
      → (server : String) → Verifier
      → Option (String × String)
      → List AuthRequest
      → AuthResult SignInOutput × List AuthRequest
  unfolding request_token output_of
  with_keys input server verifier none sent = (panicked, sent)
  with_keys input server verifier (some (mk, sp)) sent =
      let (answer, sent') =
        request_token libs net input.email sp input.token_name input.token_val
          (concat server sign_in_path) verifier.code_verifier sent in
      (output_of mk answer, sent')

  -- From the answer to the request for the parameters on.
  unfoldable pub with_params :
      SignInInput
      → (server : String) → AuthParamsOutput ⊎ Bytes
      → List AuthRequest
      → AuthResult SignInOutput × List AuthRequest
  unfolding with_keys process_connection_failure generate_keys
  with_params input server (inr e) sent =
      (error (process_connection_failure e (concat server auth_params_path)), sent)
  with_params input server (inl params) sent =
      if params.version == "003"
      then (error (codes "version 003 of Standard Notes is no longer supported"), sent)
      else if not (params.token_name == "")
      then (signed (token_wanted params.token_name), sent)
      else with_keys input server params.verifier
          (generate_keys p keys input.password params.identifier params.password_nonce) sent

  unfoldable pub sign_in :
      SignInInput → (read : ℕ) → List AuthRequest → AuthResult SignInOutput × List AuthRequest
  unfolding with_params get_auth_params generate_challenge
  sign_in input read sent =
      let server = if input.api_server == "" then api_server else input.api_server in
      let (params, sent') =
        get_auth_params libs net input.email input.token_name input.token_val
          (concat server auth_params_path) (generate_challenge p keys read) sent in
      with_params input server params sent'

  abbrev pub second_session :
      AuthResult SignInOutput × List AuthRequest → AuthResult SignedIn × List AuthRequest
  second_session (signed output, sent) = (signed output.session, sent)
  second_session (error e, sent) = (error e, sent)
  second_session (panicked, sent) = (panicked, sent)

  -- The second part of CliSignIn, with what is typed for the token.
  unfoldable pub after_first :
      SignInInput
      → (typed : String ⊎ Bytes) → (read : ℕ) → AuthResult SignInOutput × List AuthRequest
      → AuthResult SignedIn × List AuthRequest
  unfolding sign_in trim_space
  after_first input typed read (error e, sent) = (error e, sent)
  after_first input typed read (panicked, sent) = (panicked, sent)
  after_first input typed read (signed output, sent) =
      if not (output.session.access_token == "") && not (eqb output.session.refresh_expiration 0)
      then (signed output.session, sent)
      else if output.token_name == ""
      then (signed no_session, sent)
      else elim typed [
        | inr e ↦ (error e, sent)
        | inl token ↦
            let with_token = record input {
              token_name = output.token_name;
              token_val = trim_space token;
            } in
            second_session (sign_in with_token read sent)
      ]

  unfoldable pub cli_sign_in :
      (email password server : String)
      → (typed : String ⊎ Bytes) → (read read' : ℕ) → List AuthRequest
      → AuthResult SignedIn × List AuthRequest
  unfolding sign_in after_first
  cli_sign_in email password server typed read read' sent =
      let input : SignInInput = record {
        email = email;
        token_name = "";
        token_val = "";
        password = password;
        api_server = server;
      } in
      after_first input typed read' (sign_in input read sent)
