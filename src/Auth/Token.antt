-- ===== src/Auth/Token.antt =====
-- requestToken of auth/authentication.go, with the cookies that it takes of the headers.
use text.Mathlib.Text.{starts_with}
use Prim.Native.Char.{code}
use gosn_v.Prelude.{
  ℕ, String, Bool, not, ◌||◌, List, [], ◌∷◌, ◌++◌, ◌==◌, eqb, leb, ◌&&◌, ◌⊎◌, inl, inr,
  if◌then◌else◌,
}
use gosn_v.Prelude.Bytes.{Bytes}
use gosn_v.Auth.Types.{
  AuthRequest, AuthReply, no_reply, reply, AuthNetwork, ServerError, AuthLibraries, SignInData,
  joined,
}

-- The white space of ASCII.
abbrev is_space : ℕ → Bool
is_space c = eqb c 32 || leb 9 c && leb c 13

abbrev trim_left : String → String
trim_left String.[] = ""
trim_left (String.◌∷◌ c s) =
    let rest = trim_left s in if is_space (code c) then rest else String.◌∷◌ c s

abbrev trim_right : String → String
trim_right String.[] = ""
trim_right (String.◌∷◌ c s) =
    let rest = trim_right s in if is_space (code c) && (rest == "") then "" else String.◌∷◌ c rest

-- strings.TrimSpace, of an ASCII text
unfoldable pub trim_space : String → String
trim_space s = trim_left (trim_right s)

-- strings.Split(s, ";")[0]
abbrev before_semicolon : String → String
before_semicolon String.[] = ""
before_semicolon (String.◌∷◌ c s) =
    let rest = before_semicolon s in if eqb (code c) b';' then "" else String.◌∷◌ c rest

-- The two cookies, changed by one header.
unfoldable pub take_cookie : String × String → String → String × String
unfolding trim_space
take_cookie (access, refresh) header =
    let name_value = trim_space (before_semicolon header) in
    if name_value == ""
    then (access, refresh)
    else if starts_with name_value "access_token_"
    then (name_value, refresh)
    else if starts_with name_value "refresh_token_"
    then (access, name_value)
    else (access, refresh)

unfoldable pub take_cookies : String × String → List String → String × String
unfolding take_cookie
take_cookies found [] = found
take_cookies found (header ∷ headers) = take_cookies (take_cookie found header) headers

unfoldable pub with_cookies : List String → SignInData → SignInData
unfolding take_cookies
with_cookies [] success = success
with_cookies (header ∷ headers) success =
    let found = take_cookies ("", "") (header ∷ headers) in
    record success { access_token_cookie = found.0; refresh_token_cookie = found.1 }

module _ (libs : AuthLibraries) where
  abbrev with_failure : SignInData → ServerError ⊎ Bytes → (SignInData × ServerError) ⊎ Bytes
  with_failure success (inr e) = inr e
  with_failure success (inl failure) = inl (success, failure)

  abbrev read_token :
      List String → (body : String) → SignInData ⊎ Bytes → (SignInData × ServerError) ⊎ Bytes
  read_token cookies body (inr e) = inr e
  read_token cookies body (inl success) =
      with_failure (with_cookies cookies success) (libs.server_error body)

  -- The status of the reply is not looked at.
  unfoldable pub token_of_reply : AuthReply → (SignInData × ServerError) ⊎ Bytes
  unfolding with_cookies
  token_of_reply (no_reply e) = inr e
  token_of_reply (reply status cookies (inr e)) = inr e
  token_of_reply (reply status cookies (inl body)) = read_token cookies body (libs.sign_in body)

  -- The request of requestToken.
  unfoldable pub token_request :
      (email enc_password token_name token_value url code_verifier : String) → AuthRequest
  token_request email enc_password token_name token_value url code_verifier =
      let start = joined (
        "{\"api\":\"20240226\",\"password\":\""
        ∷ enc_password
        ∷ "\",\"email\":\""
        ∷ libs.path_escape email
        ∷ "\","
        ∷ []) in
      let named = joined (
        start ∷ "\"" ∷ token_name ∷ "\":\"" ∷ token_value ∷ "\",\"code_verifier\":\""
        ∷ code_verifier ∷ "\"}" ∷ []) in
      let plain =
        joined (start ∷ "\"code_verifier\":\"" ∷ code_verifier ∷ "\",\"ephemeral\":false}" ∷ []) in
      record { url = url; body = if not (token_name == "") then named else plain }

  unfoldable pub request_token :
      AuthNetwork
      → (email enc_password token_name token_value url code_verifier : String) → List AuthRequest
      → ((SignInData × ServerError) ⊎ Bytes) × List AuthRequest
  unfolding token_of_reply token_request
  request_token net email enc_password token_name token_value url code_verifier sent =
      let request = token_request email enc_password token_name token_value url code_verifier in
      (token_of_reply (net sent request), sent ++ request ∷ [])
