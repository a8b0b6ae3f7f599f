-- ===== src/Crypto/Stream.antt =====
-- Encrypt and Decrypt of crypto/encryption.go, which keep a session in the keyring. AES in cipher feedback
-- mode, the encoding and the source of randomness are parameters.
pub mod RoundTrip
use gosn_v.Prelude.{
  ℕ, zero, suc, ◌-◌, ◌%◌, String, Bool, Option, none, some, List, [], ◌∷◌, ◌++◌, ◌⊎◌, inl, inr, not,
  ◌||◌, length, take, drop, ltb, eqb, if◌then◌else◌,
}
use gosn_v.Prelude.Bytes.{Bytes}

-- crypto/aes with crypto/cipher, encoding/base64 with the alphabet for URLs, and the initial values that
-- are read of the random source.
pub record Aes : Type 0 where
  pub stream : (key iv text : Bytes) → Bytes
  pub unstream : (key iv text : Bytes) → Bytes
  pub url_encode : Bytes → Bytes
  pub url_decode : Bytes → Option Bytes
  pub iv : (read : ℕ) → Bytes

pub data StreamError : Type 0 where
  bad_base64 bad_key too_short : StreamError

abbrev pub block_size : ℕ
block_size = 16

abbrev pub max_plaintext_size : ℕ
max_plaintext_size = 10000000

abbrev pub repeat : ℕ → ℕ → Bytes
repeat b zero = []
repeat b (suc n) = b ∷ repeat b n

unfoldable pub pad_to_aes_block_size : Bytes → Bytes
pad_to_aes_block_size b = let n = block_size - length b % block_size in b ++ repeat n n

-- The sizes for which aes.NewCipher returns no error.
abbrev pub is_key_size : ℕ → Bool
is_key_size n = eqb n 16 || (eqb n 24 || eqb n 32)

module _ (aes : Aes) where
  -- None for a panic.
  unfoldable pub encrypt : (key text : Bytes) → (read : ℕ) → Option Bytes
  encrypt key text read =
      let padded = pad_to_aes_block_size key in
      if not (is_key_size (length padded))
      then none
      else if ltb max_plaintext_size (length text)
      then none
      else some (aes.url_encode (aes.iv read ++ aes.stream padded (aes.iv read) text))

  unfoldable pub decrypt_decoded : (key : Bytes) → Option Bytes → Bytes ⊎ StreamError
  decrypt_decoded key none = inr bad_base64
  decrypt_decoded key (some text) =
      let padded = pad_to_aes_block_size key in
      if not (is_key_size (length padded))
      then inr bad_key
      else if ltb (length text) block_size
      then inr too_short
      else inl (aes.unstream padded (take block_size text) (drop block_size text))

  unfoldable pub decrypt : (key : Bytes) → Bytes → Bytes ⊎ StreamError
  unfolding decrypt_decoded
  decrypt key crypto_text = decrypt_decoded key (aes.url_decode crypto_text)
