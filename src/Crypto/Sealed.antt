-- ===== src/Crypto/Sealed.antt =====
-- What is encrypted with a key and a nonce is decrypted with them.
use gosn_v.Prelude.{
  ℕ, zero, suc, ◌≡◌, refl, ap, ◌∙◌, sym, String, true, false, [], ◌∷◌, ◌==◌, length, take,
  length-take, arith,
}
use gosn_v.Prelude.Bytes.{Bytes}
use gosn_v.Crypto.Libraries.{Primitives, PrimitiveLaws, filled, is_bytes, lacks_char}
use gosn_v.Crypto.{
  done, and_then, decrypt_cipher_text, encrypt_string, generate_item_key, generate_nonce, key_size,
  nonce_size,
}

take-is_bytes : (n : ℕ) (bs : Bytes) → is_bytes bs ≡ true → is_bytes (take n bs) ≡ true
take-is_bytes zero bs h = refl
take-is_bytes (suc n) [] h = refl
take-is_bytes (suc n) (b ∷ bs) h = ground (arith, h, take-is_bytes n bs)

-- A text that is 32 bytes in hex.
pub record IsKey (p : Primitives) (key : String) : Type 0 where
  pub bytes : Bytes
  pub length_bytes : length bytes ≡ key_size
  pub in_range : is_bytes bytes ≡ true
  pub in_hex : key ≡ p.hex_encode bytes

module _ (p : Primitives) (laws : PrimitiveLaws p) where
  -- GenerateItemKey(64) returns a key of 32 bytes.
  pub generate_item_key-IsKey : (read : ℕ) → IsKey p (generate_item_key p read 64)
  unfolding generate_item_key
  generate_item_key-IsKey read =
      let bs = p.random read 64 in
      record {
        bytes = take 32 bs;
        length_bytes = omega (arith, length-take 32 bs, laws.length-random read 64);
        in_range = take-is_bytes 32 bs (laws.random_bytes read 64);
        in_hex = sym (laws.hex_encode-take 32 bs);
      }

  pub decode_key : (key : String) (k : IsKey p key) → p.hex_decode key_size key ≡ filled k.bytes
  decode_key key k =
      ap (p.hex_decode key_size) k.in_hex
      ∙ laws.hex_decode-hex_encode key_size k.bytes k.length_bytes k.in_range

  pub decode_nonce :
      (read : ℕ)
      → p.hex_decode nonce_size (generate_nonce p read) ≡ filled (p.random read nonce_size)
  unfolding generate_nonce
  decode_nonce read =
      laws.hex_decode-hex_encode nonce_size (p.random read nonce_size)
        (laws.length-random read nonce_size) (laws.random_bytes read nonce_size)

  pub generate_nonce_digits : (read : ℕ) → lacks_char b':' (generate_nonce p read) ≡ true
  unfolding generate_nonce
  generate_nonce_digits read = laws.hex_encode_digits (p.random read nonce_size)

  generate_nonce_empty : (read : ℕ) → (generate_nonce p read == "") ≡ false
  unfolding generate_nonce
  generate_nonce_empty read =
      not_empty (p.random read nonce_size) (laws.length-random read nonce_size)
    where
      not_empty : (bs : Bytes) → length bs ≡ nonce_size → (p.hex_encode bs == "") ≡ false
      not_empty [] h = absurd (omega arith)
      not_empty (b ∷ bs) h = laws.hex_encode_empty b bs

  -- The text that EncryptString makes.
  abbrev pub cipher :
      (text key : String) → IsKey p key → (read : ℕ) → (additional : String) → String
  cipher text key k read additional =
      p.base64_encode (p.seal k.bytes (p.random read nonce_size) text additional)

  pub encrypt_string-IsKey :
      (text key additional : String) (k : IsKey p key) (read : ℕ)
      → encrypt_string p text key (generate_nonce p read) additional key_size
        ≡ done (cipher text key k read additional)
  unfolding encrypt_string and_then
  encrypt_string-IsKey text key additional k read =
      rw (generate_nonce_empty read, decode_key key k, decode_nonce read) refl

  pub decrypt_cipher_text-cipher :
      (text key additional : String) (k : IsKey p key) (read : ℕ)
      → decrypt_cipher_text p
          (cipher text key k read additional)
          key
          (generate_nonce p read)
          additional
        ≡ done text
  unfolding decrypt_cipher_text and_then
  decrypt_cipher_text-cipher text key additional k read =
      rw
        (
          laws.base64_decode-base64_encode
              (p.seal k.bytes (p.random read nonce_size) text additional),
          decode_key key k,
          decode_nonce read,
          laws.unseal-seal k.bytes (p.random read nonce_size) text additional,
        )
        refl
