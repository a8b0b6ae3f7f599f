-- ===== src/Auth/Keys.antt =====
-- generateSalt and GenerateMasterKeyAndServerPassword004 of crypto/encryption.go, and
-- generateChallengeAndVerifierForLogin of auth/authentication.go. SHA-256, Argon2id, the encodings and the
-- random source are parameters.
use gosn_v.Prelude.{ℕ, zero, suc, String, Option, none, some, [], ◌∷◌}
use gosn_v.Prelude.Bytes.{Bytes}
use gosn_v.Crypto.Libraries.{Primitives, Decoded, filled, bad_hex, overrun, take_text}
use gosn_v.Auth.Types.{Verifier, joined}

-- crypto/sha256, golang.org/x/crypto/argon2 with the parameters of the code, and the encodings of
-- encoding/base64 for URLs, with padding and without.
pub record KeyLibraries : Type 0 where
  pub sha256 : String → Bytes
  pub argon2_id : (password : String) → (salt : Bytes) → Bytes
  pub url_encode : Bytes → String
  pub raw_url_encode : String → String

-- s[n:]
abbrev pub drop_text : ℕ → String → String
drop_text zero s = s
drop_text (suc n) String.[] = ""
drop_text (suc n) (String.◌∷◌ c s) = drop_text n s

abbrev or_panic : Decoded → Option Bytes
or_panic (filled salt) = some salt
or_panic bad_hex = none
or_panic overrun = none

module _ (p : Primitives) (libs : KeyLibraries) where
  -- None for its panic.
  unfoldable pub generate_salt : (identifier nonce : String) → Option Bytes
  generate_salt identifier nonce =
      let pre_hash = libs.sha256 (joined (identifier ∷ ":" ∷ nonce ∷ [])) in
      or_panic (p.hex_decode 16 (take_text 32 (p.hex_encode pre_hash)))

  -- The master key and the server password.
  unfoldable pub generate_keys : (password identifier nonce : String) → Option (String × String)
  unfolding generate_salt
  generate_keys password identifier nonce = elim (generate_salt identifier nonce) [
    | none ↦ none
    | some salt ↦
        let derived_key_hex = p.hex_encode (libs.argon2_id password salt) in
        some (take_text 64 derived_key_hex, drop_text 64 derived_key_hex)
  ]

  unfoldable pub generate_challenge : (read : ℕ) → Verifier
  generate_challenge read =
      let verifier = libs.url_encode (p.random read 64) in
      record {
        code_verifier = verifier;
        code_challenge = libs.raw_url_encode (p.hex_encode (libs.sha256 verifier));
      }
