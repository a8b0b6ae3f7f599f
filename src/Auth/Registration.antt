-- ===== src/Auth/Registration.antt =====
-- Register of auth/authentication.go, with processDoRegisterRequestResponse and
-- generateInitialKeysAndAuthParamsForUser. The 65 characters that are drawn are given.
use Prim.Native.String.{◌++◌ as concat}
use gosn_v.Prelude.{
  ℕ, String, not, ◌||◌, Option, none, some, List, [], ◌∷◌, ◌++◌, ◌==◌, eqb, ltb, ◌⊎◌, inl, inr,
  length, if◌then◌else◌,
}
use gosn_v.Prelude.Bytes.{Bytes, codes}
use gosn_v.Crypto.Libraries.{Primitives, take_text}
use gosn_v.Auth.Types.{
  AuthRequest, AuthReply, no_reply, reply, AuthNetwork, ServerError, AuthLibraries, AuthResult,
  signed, error, panicked, joined,
}
use gosn_v.Auth.Keys.{KeyLibraries, generate_keys}
use gosn_v.Auth.SignIn.{api_server}

abbrev pub auth_register_path : String
auth_register_path = "/v1/users"

abbrev pub min_password_length : ℕ
min_password_length = 8

pub record RegisterInput : Type 0 where
  pub email : String
  pub password : String
  pub api_server : String

module _ (libs : AuthLibraries) where
  -- A message of the server is taken for one thing, and none for no error.
  unfoldable pub rejected : ServerError ⊎ Bytes → AuthResult String
  rejected (inr e) = error e
  rejected (inl response) =
      if not (response.message == "")
      then error (codes "email is already registered")
      else signed ""

  abbrev registered : String ⊎ Bytes → AuthResult String
  registered (inr e) = error e
  registered (inl token) = signed token

  unfoldable pub process_do_register_request_response : AuthReply → AuthResult String
  unfolding rejected
  process_do_register_request_response (no_reply e) = error e
  process_do_register_request_response (reply status cookies (inr e)) = error e
  process_do_register_request_response (reply status cookies (inl body)) =
      if eqb status 200
      then registered (libs.register_token body)
      else if eqb status 400 || eqb status 401
      then rejected (libs.server_error body)
      else if eqb status 404
      then error (codes "email address not recognized")
      else error (codes "unhandled: " ++ libs.shown status cookies)

  module _ (p : Primitives) (keys : KeyLibraries) (net : AuthNetwork) where
    unfoldable pub generate_initial_keys :
        (email password drawn : String) → Option (String × String × String)
    unfolding generate_keys
    generate_initial_keys email password drawn =
        let nonce = take_text 32 drawn in
        elim (generate_keys p keys password email nonce) [
          | none ↦ none
          | some (mk, sp) ↦ some (nonce, mk, sp)
        ]

    unfoldable pub register_request : RegisterInput → (nonce server_password : String) → AuthRequest
    register_request input nonce server_password =
        let server = if input.api_server == "" then api_server else input.api_server in
        record {
          url = concat server auth_register_path;
          body = joined (
              "{\"email\":\"" ∷ input.email ∷ "\",\"identifier\":\"" ∷ input.email
              ∷ "\",\"password\":\"" ∷ server_password ∷ "\",\"pw_nonce\":\"" ∷ nonce
              ∷ "\",\"version\":\"004\",\"origination\":\"registration\","
              ∷ "\"created\":\"1608473387799\",\"api\":\"20240226\"}" ∷ []);
        }

    abbrev send_registration :
        RegisterInput
        → Option (String × String × String)
        → List AuthRequest
        → AuthResult String × List AuthRequest
    send_registration input none sent = (panicked, sent)
    send_registration input (some (nonce, mk, sp)) sent =
        let request = register_request input nonce sp in
        (process_do_register_request_response (net sent request), sent ++ request ∷ [])

    -- The error of the program's random source is left out.
    unfoldable pub register :
        RegisterInput → (drawn : String) → List AuthRequest → AuthResult String × List AuthRequest
    unfolding process_do_register_request_response generate_initial_keys register_request
    register input drawn sent =
        if ltb (length (codes input.password)) min_password_length
        then (error (codes "password must be at least 8 characters"), sent)
        else send_registration input (generate_initial_keys input.email input.password drawn) sent
