-- ===== src/Crypto/Libraries.antt =====
-- What crypto/encryption.go, auth/authentication.go and items/itemEncryption.go use of encoding/hex,
-- encoding/base64, encoding/json, crypto/rand and golang.org/x/crypto/chacha20poly1305, and what
-- they document of it. A sequence of bytes that
-- is a text, encoded or encrypted or neither, is a String; a key and a nonce are lists of numbers.
use Prim.Native.Char.{code}
use gosn_v.Prelude.{
  ℕ, zero, suc, ◌*◌, ◌≡◌, String, Bool, true, false, not, ◌&&◌, Option, some, ◌∷◌, length, take,
  all, ltb, eqb, ◌==◌,
}
use gosn_v.Prelude.Bytes.{Bytes}
use gosn_v.Session.Types.{KeyParams}

-- hex.Decode into a buffer: the buffer, an error, or a panic, if it is too small.
pub data Decoded : Type 0 where
  filled : Bytes → Decoded
  bad_hex overrun : Decoded

pub record Primitives : Type 0 where
  pub hex_encode : Bytes → String
  pub hex_decode : (buffer : ℕ) → String → Decoded
  pub base64_encode : String → String
  pub base64_decode : String → Option String
  -- Seal and Open of an XChaCha20-Poly1305 with a key and a nonce
  pub seal : (key nonce : Bytes) → (text additional : String) → String
  pub unseal : (key nonce : Bytes) → (sealed additional : String) → Option String
  -- json.Marshal of authentication data: of an items key with the parameters, else without
  pub marshal : (kp : Option KeyParams) → (u v : String) → String
  -- so many bytes of the source, at the read of some number
  pub random : (read amount : ℕ) → Bytes

abbrev pub is_bytes : Bytes → Bool
is_bytes bs = all (λ b. ltb b 256) bs

-- s[:n], for an ASCII text that is long enough
abbrev pub take_text : ℕ → String → String
take_text zero s = ""
take_text (suc n) String.[] = ""
take_text (suc n) (String.◌∷◌ c s) = String.◌∷◌ c (take_text n s)

-- The text has no such byte.
abbrev pub lacks_char : ℕ → String → Bool
lacks_char b String.[] = true
lacks_char b (String.◌∷◌ c s) = not (eqb (code c) b) && lacks_char b s

pub record PrimitiveLaws (p : Primitives) : Type 0 where
  pub hex_decode-hex_encode :
      (n : ℕ) (bs : Bytes)
      → length bs ≡ n
      → is_bytes bs ≡ true
      → p.hex_decode n (p.hex_encode bs) ≡ filled bs
  -- a byte is two digits
  pub hex_encode-take :
      (n : ℕ) (bs : Bytes) → p.hex_encode (take n bs) ≡ take_text (2 * n) (p.hex_encode bs)
  pub hex_encode_digits : (bs : Bytes) → lacks_char b':' (p.hex_encode bs) ≡ true
  pub hex_encode_empty : (b : ℕ) (bs : Bytes) → (p.hex_encode (b ∷ bs) == "") ≡ false
  pub base64_decode-base64_encode : (s : String) → p.base64_decode (p.base64_encode s) ≡ some s
  pub base64_encode_alphabet : (s : String) → lacks_char b':' (p.base64_encode s) ≡ true
  pub unseal-seal :
      (key nonce : Bytes) (text additional : String)
      → p.unseal key nonce (p.seal key nonce text additional) additional ≡ some text
  pub length-random : (read amount : ℕ) → length (p.random read amount) ≡ amount
  pub random_bytes : (read amount : ℕ) → is_bytes (p.random read amount) ≡ true
