-- ===== src/Auth/SignIn/Secrecy.antt =====
-- What SignIn sends does not depend on the master key.
use Prim.Native.String.{◌++◌ as concat}
use gosn_v.Prelude.{
  ℕ, ◌≡◌, refl, ap, ◌∙◌, String, Option, none, some, List, ◌==◌, ◌⊎◌, inl, inr, Bool-cases,
  if◌then◌else◌,
}
use gosn_v.Prelude.Bytes.{Bytes}
use gosn_v.Crypto.Libraries.{Primitives}
use gosn_v.Auth.Types.{
  AuthRequest, AuthNetwork, AuthLibraries, AuthParamsOutput, SignInInput, SignInOutput, AuthResult,
  signed, error, panicked, Verifier, SignInData, ServerError,
}
use gosn_v.Auth.Keys.{KeyLibraries, generate_keys, generate_challenge}
use gosn_v.Auth.Token.{request_token}
use gosn_v.Auth.SignIn.{with_keys, with_params, sign_in, output_of, sign_in_path, api_server}
use gosn_v.Auth.Params.{get_auth_params, auth_params_path}

-- The output with another master key.
abbrev pub with_master_key : String → AuthResult SignInOutput → AuthResult SignInOutput
with_master_key mk (signed output) =
    signed (record output { session = record output.session { master_key = mk } })
with_master_key mk (error e) = error e
with_master_key mk panicked = panicked

abbrev pub server_password : Option (String × String) → Option String
server_password none = none
server_password (some (mk, sp)) = some sp

hidden_key :
    (mk mk' other : String) (answer : (SignInData × ServerError) ⊎ Bytes)
    → with_master_key other (output_of mk answer) ≡ with_master_key other (output_of mk' answer)
unfolding output_of
hidden_key mk mk' other (inr e) = refl
hidden_key mk mk' other (inl (success, failure)) = elim (Bool-cases (failure.message == "")) [
  | inl accepted ↦ rw accepted refl
  | inr refused ↦ rw refused refl
]

-- The output but for the master key, and the requests.
abbrev pub seen :
    AuthResult SignInOutput × List AuthRequest → AuthResult SignInOutput × List AuthRequest
seen (result, sent) = (with_master_key "" result, sent)

module _ (p : Primitives) (keys : KeyLibraries) (libs : AuthLibraries) (net : AuthNetwork) where
  with_keys_hides :
      (input : SignInInput) (other server : String) (verifier : Verifier)
      (k k' : Option (String × String)) (sent : List AuthRequest)
      → server_password k ≡ server_password k'
      → seen (with_keys p keys libs net input server verifier k sent)
        ≡ seen
            (with_keys p keys libs net (record input { password = other }) server verifier k' sent)
  unfolding with_keys
  with_keys_hides input other server verifier none none sent h = refl
  with_keys_hides input other server verifier none (some k') sent h = absurd (cc h)
  with_keys_hides input other server verifier (some k) none sent h = absurd (cc h)
  with_keys_hides input other server verifier (some (mk, sp)) (some (mk', sp')) sent h =
      let (answer, sent') =
        request_token libs net input.email sp' input.token_name input.token_val
          (concat server sign_in_path) verifier.code_verifier sent in
      ap
        (λ (s : String). seen (with_keys p keys libs net input server verifier (some (mk, s)) sent))
        (cc h)
      ∙ ap (λ (result : AuthResult SignInOutput). (result, sent')) (hidden_key mk mk' "" answer)

  with_params_hides :
      (input : SignInInput) (other server : String) (params : AuthParamsOutput ⊎ Bytes)
      (sent : List AuthRequest)
      → ((identifier nonce : String)
          → server_password (generate_keys p keys input.password identifier nonce)
            ≡ server_password (generate_keys p keys other identifier nonce))
      → seen (with_params p keys libs net input server params sent)
        ≡ seen (with_params p keys libs net (record input { password = other }) server params sent)
  unfolding with_params
  with_params_hides input other server (inr e) sent h = refl
  with_params_hides input other server (inl params) sent h =
      elim (Bool-cases (params.version == "003")) [
        | inl old ↦ rw old refl
        | inr current ↦ elim (Bool-cases (params.token_name == "")) [
          | inl unnamed ↦
              rw (current, unnamed)
                (with_keys_hides input other server params.verifier _ _ sent
                  (h params.identifier params.password_nonce))
          | inr named ↦ rw (current, named) refl
        ]
      ]

  -- With two passwords from which the same server password is derived, whatever the master keys: SignIn sends the
  -- same requests, and returns the same but for the master key.
  pub sign_in_hides :
      (input : SignInInput) (other : String) (read : ℕ) (sent : List AuthRequest)
      → ((identifier nonce : String)
          → server_password (generate_keys p keys input.password identifier nonce)
            ≡ server_password (generate_keys p keys other identifier nonce))
      → seen (sign_in p keys libs net input read sent)
        ≡ seen (sign_in p keys libs net (record input { password = other }) read sent)
  unfolding sign_in
  sign_in_hides input other read sent h =
      let server = if input.api_server == "" then api_server else input.api_server in
      let (params, sent') =
        get_auth_params libs net input.email input.token_name input.token_val
          (concat server auth_params_path) (generate_challenge p keys read) sent in
      with_params_hides input other server params sent' h
