-- ===== src/Auth/SignIn/Mfa.antt =====
-- A sign in with a second factor.
use Prim.Native.String.{◌++◌ as concat}
use gosn_v.Prelude.{
  ℕ, ◌≡◌, refl, ap, ◌∙◌, String, true, false, some, List, [], ◌∷◌, ◌++◌, ◌==◌, inl, if◌then◌else◌,
}
use gosn_v.Crypto.Libraries.{Primitives}
use gosn_v.Auth.Types.{
  AuthRequest, AuthNetwork, AuthLibraries, AuthParamsData, SignInInput, SignInOutput, AuthResult,
  signed, SignInData, ServerError, Verifier, joined, no_params, no_error,
}
use gosn_v.Auth.Keys.{KeyLibraries, generate_keys, generate_challenge}
use gosn_v.Auth.Params.{
  auth_params_path, process_do_auth_request_response, auth_params_request, params_output,
  get_auth_params,
}
use gosn_v.Auth.Token.{token_request, token_of_reply, request_token, trim_space}
use gosn_v.Auth.SignIn.{
  with_keys, with_params, sign_in, output_of, session_of, sign_in_path, api_server, token_wanted,
  after_first, second_session, cli_sign_in,
}

abbrev server_of : SignInInput → String
server_of input = if input.api_server == "" then api_server else input.api_server

-- The address of the server, with that of Standard Notes where none is given.
abbrev pub address_of : (server path : String) → String
address_of server path =
    concat (if server == "" then "https://api.standardnotes.com" else server) path

-- The requests as the server sees them: for the parameters, without and with a token, and for the session.
abbrev pub params_wanted : (email server : String) → Verifier → AuthRequest
params_wanted email server v = record {
  url = address_of server "/v2/login-params";
  body = joined (
      "{\"api\":\"20240226\",\"email\":\"" ∷ email ∷ "\",\"code_challenge\":\"" ∷ v.code_challenge
      ∷ "\"}" ∷ []);
}

abbrev pub params_wanted_with : (email server name token : String) → Verifier → AuthRequest
params_wanted_with email server name token v = record {
  url = address_of server "/v2/login-params";
  body = joined (
      "{\"api\":\"20240226\",\"email\":\"" ∷ email ∷ "\",\"" ∷ name ∷ "\":\"" ∷ token
      ∷ "\",\"code_challenge\":\"" ∷ v.code_challenge ∷ "\"}" ∷ []);
}

abbrev pub session_wanted : (escaped server password name token : String) → Verifier → AuthRequest
session_wanted escaped server password name token v = record {
  url = address_of server "/v2/login";
  body = joined (
      joined (
        "{\"api\":\"20240226\",\"password\":\"" ∷ password ∷ "\",\"email\":\"" ∷ escaped ∷ "\","
        ∷ [])
      ∷ "\""
      ∷ name
      ∷ "\":\""
      ∷ token
      ∷ "\",\"code_verifier\":\""
      ∷ v.code_verifier
      ∷ "\"}"
      ∷ []);
}

module _ (p : Primitives) (keys : KeyLibraries) (libs : AuthLibraries) (net : AuthNetwork) where
  -- The two requests of SignIn.
  abbrev params_request : SignInInput → (read : ℕ) → AuthRequest
  params_request input read =
      auth_params_request libs input.email input.token_name input.token_val
        (concat (server_of input) auth_params_path) (generate_challenge p keys read)

  abbrev key_request : SignInInput → (sp : String) → (read : ℕ) → AuthRequest
  key_request input sp read =
      token_request libs input.email sp input.token_name input.token_val
        (concat (server_of input) sign_in_path) (generate_challenge p keys read).code_verifier

  sign_in_asks :
      (input : SignInInput) (read : ℕ) (sent : List AuthRequest) (e : ServerError)
      → process_do_auth_request_response libs (net sent (params_request input read))
        ≡ inl (no_params, e)
      → (e.mfa_key == "") ≡ false
      → sign_in p keys libs net input read sent
        ≡ (signed (token_wanted e.mfa_key), sent ++ params_request input read ∷ [])
  unfolding sign_in with_params get_auth_params params_output
  sign_in_asks input read sent e h k = rw h (rw k refl)

  sign_in_succeeds :
      (input : SignInInput) (read : ℕ) (sent : List AuthRequest) (d : AuthParamsData)
      (mk sp : String) (success : SignInData) (e : ServerError)
      → process_do_auth_request_response libs (net sent (params_request input read))
        ≡ inl (d, no_error)
      → (d.version == "003") ≡ false
      → generate_keys p keys input.password d.identifier d.password_nonce ≡ some (mk, sp)
      → token_of_reply libs
          (net (sent ++ params_request input read ∷ []) (key_request input sp read))
        ≡ inl (success, e)
      → (e.message == "") ≡ true
      → sign_in p keys libs net input read sent ≡ (
        signed (record {
          session = session_of mk success;
          key_params = success.key_params;
          user = success.user;
          token_name = "";
        }),
        (sent ++ params_request input read ∷ []) ++ key_request input sp read ∷ [],
      )
  unfolding sign_in with_params get_auth_params params_output with_keys request_token output_of
  sign_in_succeeds input read sent d mk sp success e h current derived answered accepted =
      rw h (rw (current, derived) (rw answered (rw accepted refl)))

  abbrev first_input : (email password server : String) → SignInInput
  first_input email password server = record {
    email = email;
    token_name = "";
    token_val = "";
    password = password;
    api_server = server;
  }

  -- The input of the second sign in.
  abbrev with_token : SignInInput → (token_name typed : String) → SignInInput
  with_token input token_name typed = record input {
    token_name = token_name;
    token_val = trim_space typed;
  }

  second_asked :
      (input : SignInInput) (typed : String) (read : ℕ) (name : String) (sent : List AuthRequest)
      → (name == "") ≡ false
      → after_first p keys libs net input (inl typed) read (signed (token_wanted name), sent)
        ≡ second_session p keys libs net
            (sign_in p keys libs net (with_token input name typed) read sent)
  unfolding after_first
  second_asked input typed read name sent k = rw k refl

  module _ (email password server typed : String) (read read' : ℕ) (asked : ServerError) where
    -- The inputs of the two sign ins.
    abbrev first : SignInInput
    first = first_input email password server

    abbrev second : SignInInput
    second = with_token first asked.mfa_key typed

    asked_twice :
        (answered : ServerError) (d : AuthParamsData) (mk sp : String) (success : SignInData)
        → process_do_auth_request_response libs (net [] (params_request first read))
          ≡ inl (no_params, asked)
        → (asked.mfa_key == "") ≡ false
        → process_do_auth_request_response libs
            (net (params_request first read ∷ []) (params_request second read'))
          ≡ inl (d, no_error)
        → (d.version == "003") ≡ false
        → generate_keys p keys password d.identifier d.password_nonce ≡ some (mk, sp)
        → token_of_reply libs (
            net
              (params_request first read ∷ params_request second read' ∷ [])
              (key_request second sp read'))
          ≡ inl (success, answered)
        → (answered.message == "") ≡ true
        → cli_sign_in p keys libs net email password server (inl typed) read read' [] ≡ (
          signed (session_of mk success),
          params_request first read
              ∷ params_request second read'
              ∷ key_request second sp read'
              ∷ [],
        )
    unfolding cli_sign_in
    asked_twice answered d mk sp success h k h' current derived got accepted =
        ap
          (λ (result : AuthResult SignInOutput × List AuthRequest).
            after_first p keys libs net first (inl typed) read' result)
          (sign_in_asks first read [] asked h k)
        ∙ second_asked first typed read' asked.mfa_key _ k
        ∙ ap
            (λ (result : AuthResult SignInOutput × List AuthRequest).
              second_session p keys libs net result)
            (sign_in_succeeds second read' (params_request first read ∷ []) d mk sp success answered
              h' current derived got accepted)

    -- The requests that are expected.
    abbrev first_wanted : AuthRequest
    first_wanted = params_wanted email server (generate_challenge p keys read)

    abbrev token_wanted_with : AuthRequest
    token_wanted_with =
        params_wanted_with email server asked.mfa_key (trim_space typed)
          (generate_challenge p keys read')

    abbrev login_wanted : (sp : String) → AuthRequest
    login_wanted sp =
        session_wanted (libs.path_escape email) server sp asked.mfa_key (trim_space typed)
          (generate_challenge p keys read')

    first_lem : params_request first read ≡ first_wanted
    unfolding auth_params_request
    first_lem = refl

    second_lem : (asked.mfa_key == "") ≡ false → params_request second read' ≡ token_wanted_with
    unfolding auth_params_request
    second_lem k = rw k refl

    login_lem :
        (sp : String)
        → (asked.mfa_key == "") ≡ false
        → key_request second sp read' ≡ login_wanted sp
    unfolding token_request
    login_lem sp k = rw k refl

    -- The server answers the first request for the parameters with an error that has an MFA key, the second one,
    -- which has the typed token under that key, with parameters that are not of version 003, and the request for
    -- the session, with the server password derived with those parameters, with a session and no message:
    -- CliSignIn returns that session with the master key that was derived, and has sent these three requests.
    pub cli_sign_in_mfa :
        (answered : ServerError) (d : AuthParamsData) (mk sp : String) (success : SignInData)
        → process_do_auth_request_response libs (net [] first_wanted) ≡ inl (no_params, asked)
        → (asked.mfa_key == "") ≡ false
        → process_do_auth_request_response libs (net (first_wanted ∷ []) token_wanted_with)
          ≡ inl (d, no_error)
        → (d.version == "003") ≡ false
        → generate_keys p keys password d.identifier d.password_nonce ≡ some (mk, sp)
        → token_of_reply libs (net (first_wanted ∷ token_wanted_with ∷ []) (login_wanted sp))
          ≡ inl (success, answered)
        → (answered.message == "") ≡ true
        → cli_sign_in p keys libs net email password server (inl typed) read read' [] ≡ (
          signed (record {
            master_key = mk;
            key_params = success.key_params;
            access_token = success.access_token;
            refresh_token = success.refresh_token;
            access_expiration = success.access_expiration;
            refresh_expiration = success.refresh_expiration;
            read_only_access = success.read_only_access;
            password_nonce = success.key_params.pw_nonce;
            access_token_cookie = success.access_token_cookie;
            refresh_token_cookie = success.refresh_token_cookie;
          }),
          first_wanted ∷ token_wanted_with ∷ login_wanted sp ∷ [],
        )
    cli_sign_in_mfa answered d mk sp success h k h' current derived got accepted =
        let lem = asked_twice answered d mk sp success in
        let lem' = rw (first_lem, second_lem k, login_lem sp k) at lem in
        lem' h k h' current derived got accepted
