-- ===== src/Crypto.antt =====
-- crypto/encryption.go, and GenerateAuthData of auth/authentication.go. The libraries that encode and
-- encrypt are parameters.
pub mod Libraries
pub mod Colons
pub mod Sealed
pub mod Stream
use Prim.Native.Char.{Char, code}
use gosn_v.Prelude.{
  ℕ, zero, suc, String, Bool, true, false, Option, none, some, List, [], ◌∷◌, eqb, ◌==◌,
  if◌then◌else◌,
}
use gosn_v.Prelude.Bytes.{Bytes}
use gosn_v.Items.ContentType
use gosn_v.Session.Types.{KeyParams}
use gosn_v.Crypto.Libraries.{Primitives, Decoded, filled, bad_hex, overrun, take_text}

pub data Failure : Type 0 where
  bad_encoding not_authentic bad_json : Failure
  deleted_item no_items_key_id missing_items_key not_an_items_key : Failure

-- What a function returns: a value, an error or a panic.
pub data Outcome (A : Type 0) : Type 0 where
  done : A → Outcome A
  failed : Failure → Outcome A
  panicked : Outcome A

unfoldable pub and_then : {A B : Type 0} → Outcome A → (A → Outcome B) → Outcome B
and_then (done a) f = f a
and_then (failed e) f = failed e
and_then panicked f = panicked

-- Puts a character before the first part of a split text.
abbrev lengthen : Char → List String → List String
lengthen c [] = String.◌∷◌ c "" ∷ []
lengthen c (p ∷ ps) = String.◌∷◌ c p ∷ ps

-- strings.Split(s, ":")
unfoldable pub split_colons : String → List String
split_colons String.[] = "" ∷ []
split_colons (String.◌∷◌ c s) =
    let parts = split_colons s in if eqb (code c) b':' then "" ∷ parts else lengthen c parts

pub record SplitText : Type 0 where
  pub version : String
  pub nonce : String
  pub cipher_text : String
  pub authenticated_data : String

-- Three components pass the check of their number and are an index out of range after it.
abbrev pub components : List String → Outcome SplitText
components (v ∷ n ∷ c ∷ a ∷ more) =
    done (record { version = v; nonce = n; cipher_text = c; authenticated_data = a })
components _ = panicked

unfoldable pub split_content : String → Outcome SplitText
unfolding split_colons
split_content s = components (split_colons s)

abbrev pub key_size : ℕ
key_size = 32

abbrev pub nonce_size : ℕ
nonce_size = 24

abbrev pub from_decoded : Decoded → Outcome Bytes
from_decoded (filled bs) = done bs
from_decoded bad_hex = failed bad_encoding
from_decoded overrun = panicked

abbrev pub from_option : {A : Type 0} → Failure → Option A → Outcome A
from_option e none = failed e
from_option e (some a) = done a

module _ (p : Primitives) where
  unfoldable pub decrypt_cipher_text :
      (cipher_text raw_key nonce raw_authenticated_data : String) → Outcome String
  unfolding and_then
  decrypt_cipher_text cipher_text raw_key nonce raw_authenticated_data =
      and_then (from_option bad_encoding (p.base64_decode cipher_text)) (λ dct.
        and_then (from_decoded (p.hex_decode key_size raw_key)) (λ key.
          and_then (from_decoded (p.hex_decode nonce_size nonce))
            (λ n. from_option not_authentic (p.unseal key n dct raw_authenticated_data))))

  -- The read of the random source has a number.
  unfoldable pub generate_item_key : (read : ℕ) → (return_bytes : ℕ) → String
  generate_item_key read return_bytes = take_text return_bytes (p.hex_encode (p.random read 64))

  -- hex.EncodeToString(crypto.GenerateNonce())
  unfoldable pub generate_nonce : (read : ℕ) → String
  generate_nonce read = p.hex_encode (p.random read nonce_size)

  unfoldable pub encrypt_string :
      (plain_text key nonce authenticated_data : String) → (no_bytes : ℕ) → Outcome String
  unfolding and_then
  encrypt_string plain_text key nonce authenticated_data no_bytes =
      let encrypted = and_then (from_decoded (p.hex_decode no_bytes key)) (λ item_key.
        and_then (from_decoded (p.hex_decode nonce_size nonce))
          (λ n. done (p.base64_encode (p.seal item_key n plain_text authenticated_data)))) in
      if nonce == "" then panicked else encrypted

  unfoldable pub generate_auth_data : (ct uuid : String) → KeyParams → String
  generate_auth_data ct uuid kp =
      if ct == ContentType.items_key
      then p.marshal (some kp) uuid kp.version
      else p.marshal none uuid "004"

  -- The authentication data in base64, as the callers pass it on.
  unfoldable pub encoded_auth_data : (ct uuid : String) → KeyParams → String
  unfolding generate_auth_data
  encoded_auth_data ct uuid kp = p.base64_encode (generate_auth_data ct uuid kp)
