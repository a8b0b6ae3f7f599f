-- ===== src/Auth/Params.antt =====
-- The request for the parameters of a sign in: unmarshalAuthRequestResponse, doAuthParamsRequest and
-- getAuthParams of auth/authentication.go.
use gosn_v.Prelude.{
  ℕ, zero, suc, ◌+◌, ◌/◌, ◌%◌, String, not, ◌||◌, List, [], ◌∷◌, ◌++◌, ◌==◌, eqb, ltb, ◌⊎◌, inl,
  inr, if◌then◌else◌,
}
use gosn_v.Prelude.Bytes.{Bytes, codes}
use gosn_v.Auth.Types.{
  AuthRequest, AuthReply, no_reply, reply, AuthNetwork, Verifier, AuthParamsData, ServerError,
  AuthLibraries, no_params, no_error, AuthParamsOutput, joined,
}

-- The digits of a number; the fuel is the number itself.
digits : ℕ → ℕ → Bytes
digits zero n = (b'0' + n % 10) ∷ []
digits (suc fuel) n =
    let front = digits fuel (n / 10) in
    let last = (b'0' + n % 10) ∷ [] in if ltb n 10 then last else front ++ last

abbrev pub auth_params_path : String
auth_params_path = "/v2/login-params"

module _ (libs : AuthLibraries) where
  abbrev parsed_params : AuthParamsData ⊎ Bytes → (AuthParamsData × ServerError) ⊎ Bytes
  parsed_params (inl output) = inl (output, no_error)
  parsed_params (inr e) = inr e

  abbrev parsed_error : ServerError ⊎ Bytes → (AuthParamsData × ServerError) ⊎ Bytes
  parsed_error (inl response) = inl (no_params, response)
  parsed_error (inr e) = inr e

  unfoldable pub unmarshal_auth_request_response :
      ℕ → String → (AuthParamsData × ServerError) ⊎ Bytes
  unfolding digits
  unmarshal_auth_request_response status body =
      if eqb status 200 || eqb status 304
      then parsed_params (libs.params body)
      else if eqb status 404 || (eqb status 400 || eqb status 401)
      then parsed_error (libs.server_error body)
      else if eqb status 403
      then inr (codes "server returned 403 Forbidden response")
      else inr (codes "unhandled: " ++ digits status status)

  unfoldable pub process_do_auth_request_response :
      AuthReply → (AuthParamsData × ServerError) ⊎ Bytes
  unfolding unmarshal_auth_request_response
  process_do_auth_request_response (no_reply e) = inr e
  process_do_auth_request_response (reply status cookies (inr e)) = inr e
  process_do_auth_request_response (reply status cookies (inl body)) =
      unmarshal_auth_request_response status body

  -- The request of doAuthParamsRequest.
  unfoldable pub auth_params_request :
      (email token_name token_value url : String) → Verifier → AuthRequest
  auth_params_request email token_name token_value url verifier =
      let named = joined (
        "{\"api\":\"20240226\",\"email\":\"" ∷ email ∷ "\",\"" ∷ token_name ∷ "\":\"" ∷ token_value
        ∷ "\",\"code_challenge\":\"" ∷ verifier.code_challenge ∷ "\"}" ∷ []) in
      let plain = joined (
        "{\"api\":\"20240226\",\"email\":\"" ∷ email ∷ "\",\"code_challenge\":\""
        ∷ verifier.code_challenge ∷ "\"}" ∷ []) in
      record { url = url; body = if not (token_name == "") then named else plain }

  unfoldable pub params_output :
      Verifier → (AuthParamsData × ServerError) ⊎ Bytes → AuthParamsOutput ⊎ Bytes
  params_output verifier (inr e) = inr e
  params_output verifier (inl (output, response)) = inl (record {
    identifier = output.identifier;
    password_nonce = output.password_nonce;
    version = output.version;
    token_name = response.mfa_key;
    verifier = verifier;
  })

  unfoldable pub get_auth_params :
      AuthNetwork
      → (email token_name token_value url : String) → Verifier
      → List AuthRequest
      → (AuthParamsOutput ⊎ Bytes) × List AuthRequest
  unfolding process_do_auth_request_response auth_params_request params_output
  get_auth_params net email token_name token_value url verifier sent =
      let request = auth_params_request email token_name token_value url verifier in
      (
        params_output verifier (process_do_auth_request_response (net sent request)),
        sent ++ request ∷ [],
      )
