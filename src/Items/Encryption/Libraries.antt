-- ===== src/Items/Encryption/Libraries.antt =====
-- An instance of the libraries for the examples: the texts that it encrypts stay as they are.
use Prim.Native.Char.{Char, char, code, IsScalar}
use Prim.Native.String.compare
use gosn_v.Prelude.{
  ℕ, zero, suc, ◌+◌, ◌-◌, ◌*◌, ◌/◌, ◌%◌, ◌<◌, ◌≡◌, refl, sym, ap, subst, String, Bool, true, false,
  some, [], ◌∷◌, length, take, ltb, eqb, eqb_iff, arith, Bool-cases, inl, inr, if◌then◌else◌,
}
use gosn_v.Prelude.Bytes.{Bytes}
use gosn_v.Crypto.Libraries.{
  Primitives, PrimitiveLaws, Decoded, filled, bad_hex, overrun, is_bytes, take_text, lacks_char,
}

abbrev digit : ℕ → Char
digit zero = "0"
digit (suc zero) = "1"
digit (suc (suc zero)) = "2"
digit (suc (suc (suc zero))) = "3"
digit (suc (suc (suc (suc zero)))) = "4"
digit (suc (suc (suc (suc (suc zero))))) = "5"
digit (suc (suc (suc (suc (suc (suc zero)))))) = "6"
digit (suc (suc (suc (suc (suc (suc (suc zero))))))) = "7"
digit (suc (suc (suc (suc (suc (suc (suc (suc zero)))))))) = "8"
digit (suc (suc (suc (suc (suc (suc (suc (suc (suc zero))))))))) = "9"
digit (suc (suc (suc (suc (suc (suc (suc (suc (suc (suc zero)))))))))) = "a"
digit (suc (suc (suc (suc (suc (suc (suc (suc (suc (suc (suc zero))))))))))) = "b"
digit (suc (suc (suc (suc (suc (suc (suc (suc (suc (suc (suc (suc zero)))))))))))) = "c"
digit (suc (suc (suc (suc (suc (suc (suc (suc (suc (suc (suc (suc (suc zero))))))))))))) = "d"
digit (suc (suc (suc (suc (suc (suc (suc (suc (suc (suc (suc (suc (suc (suc zero)))))))))))))) = "e"
digit
      (suc
        (suc (suc (suc (suc (suc (suc (suc (suc (suc (suc (suc (suc (suc (suc zero))))))))))))))) =
    "f"
digit
      (suc (
        suc
          (suc (suc (suc (suc (suc (suc (suc (suc (suc (suc (suc (suc (suc (suc n)))))))))))))))) =
    "0"

abbrev value : ℕ → ℕ
value c = if ltb c 58 then c - 48 else c - 87

value-digit : (n : ℕ) → n < 16 → value (code (digit n)) ≡ n
value-digit zero h = refl
value-digit (suc zero) h = refl
value-digit (suc (suc zero)) h = refl
value-digit (suc (suc (suc zero))) h = refl
value-digit (suc (suc (suc (suc zero)))) h = refl
value-digit (suc (suc (suc (suc (suc zero))))) h = refl
value-digit (suc (suc (suc (suc (suc (suc zero)))))) h = refl
value-digit (suc (suc (suc (suc (suc (suc (suc zero))))))) h = refl
value-digit (suc (suc (suc (suc (suc (suc (suc (suc zero)))))))) h = refl
value-digit (suc (suc (suc (suc (suc (suc (suc (suc (suc zero))))))))) h = refl
value-digit (suc (suc (suc (suc (suc (suc (suc (suc (suc (suc zero)))))))))) h = refl
value-digit (suc (suc (suc (suc (suc (suc (suc (suc (suc (suc (suc zero))))))))))) h = refl
value-digit (suc (suc (suc (suc (suc (suc (suc (suc (suc (suc (suc (suc zero)))))))))))) h = refl
value-digit (suc (suc (suc (suc (suc (suc (suc (suc (suc (suc (suc (suc (suc zero))))))))))))) h =
    refl
value-digit (suc (suc (suc (suc (suc (suc (suc (suc (suc (suc (suc (suc (suc (suc zero))))))))))))))
      h =
    refl
value-digit
      (suc (suc (suc (suc (suc (suc (suc (suc (suc (suc (suc (suc (suc (suc (suc zero)))))))))))))))
      h =
    refl
value-digit
      (suc
        (suc (suc (suc (suc (suc (suc (suc (suc (suc (suc (suc (suc (suc (suc (suc n))))))))))))))))
      h =
    absurd (omega arith)

digit_colon : (n : ℕ) → eqb (code (digit n)) b':' ≡ false
digit_colon zero = refl
digit_colon (suc zero) = refl
digit_colon (suc (suc zero)) = refl
digit_colon (suc (suc (suc zero))) = refl
digit_colon (suc (suc (suc (suc zero)))) = refl
digit_colon (suc (suc (suc (suc (suc zero))))) = refl
digit_colon (suc (suc (suc (suc (suc (suc zero)))))) = refl
digit_colon (suc (suc (suc (suc (suc (suc (suc zero))))))) = refl
digit_colon (suc (suc (suc (suc (suc (suc (suc (suc zero)))))))) = refl
digit_colon (suc (suc (suc (suc (suc (suc (suc (suc (suc zero))))))))) = refl
digit_colon (suc (suc (suc (suc (suc (suc (suc (suc (suc (suc zero)))))))))) = refl
digit_colon (suc (suc (suc (suc (suc (suc (suc (suc (suc (suc (suc zero))))))))))) = refl
digit_colon (suc (suc (suc (suc (suc (suc (suc (suc (suc (suc (suc (suc zero)))))))))))) = refl
digit_colon (suc (suc (suc (suc (suc (suc (suc (suc (suc (suc (suc (suc (suc zero))))))))))))) =
    refl
digit_colon
      (suc (suc (suc (suc (suc (suc (suc (suc (suc (suc (suc (suc (suc (suc zero)))))))))))))) =
    refl
digit_colon
      (suc
        (suc (suc (suc (suc (suc (suc (suc (suc (suc (suc (suc (suc (suc (suc zero))))))))))))))) =
    refl
digit_colon
      (suc (
        suc
          (suc (suc (suc (suc (suc (suc (suc (suc (suc (suc (suc (suc (suc (suc n)))))))))))))))) =
    refl

abbrev hex_encode : Bytes → String
hex_encode [] = ""
hex_encode (b ∷ bs) = String.◌∷◌ (digit (b / 16)) (String.◌∷◌ (digit (b % 16)) (hex_encode bs))

abbrev put_byte : ℕ → Decoded → Decoded
put_byte b (filled bs) = filled (b ∷ bs)
put_byte b bad_hex = bad_hex
put_byte b overrun = overrun

abbrev hex_decode : ℕ → String → Decoded
hex_decode zero String.[] = filled []
hex_decode (suc n) String.[] = put_byte 0 (hex_decode n "")
hex_decode n (String.◌∷◌ c String.[]) = bad_hex
hex_decode zero (String.◌∷◌ c (String.◌∷◌ d s)) = overrun
hex_decode (suc n) (String.◌∷◌ c (String.◌∷◌ d s)) =
    put_byte (16 * value (code c) + value (code d)) (hex_decode n s)

hex_decode-hex_encode :
    (n : ℕ) (bs : Bytes)
    → length bs ≡ n
    → is_bytes bs ≡ true
    → hex_decode n (hex_encode bs) ≡ filled bs
hex_decode-hex_encode zero [] h k = refl
hex_decode-hex_encode zero (b ∷ bs) h k = absurd (omega arith)
hex_decode-hex_encode (suc n) [] h k = absurd (omega arith)
hex_decode-hex_encode (suc n) (b ∷ bs) h k =
    let small : b < 256 = ground (arith, k) in
    let high = value-digit (b / 16) (omega arith) in
    let low = value-digit (b % 16) (omega arith) in
    let whole : 16 * (b / 16) + b % 16 ≡ b = omega arith in
    rw (hex_decode-hex_encode n bs (omega arith) (ground (arith, k)), high, low, whole) refl

hex_encode-take : (n : ℕ) (bs : Bytes) → hex_encode (take n bs) ≡ take_text (2 * n) (hex_encode bs)
hex_encode-take zero bs = refl
hex_encode-take (suc n) [] = let e : 2 * suc n ≡ suc (suc (2 * n)) = omega arith in rw e refl
hex_encode-take (suc n) (b ∷ bs) =
    let e : 2 * suc n ≡ suc (suc (2 * n)) = omega arith in rw (e, hex_encode-take n bs) refl

hex_encode_digits : (bs : Bytes) → lacks_char b':' (hex_encode bs) ≡ true
hex_encode_digits [] = refl
hex_encode_digits (b ∷ bs) = rw (digit_colon (b / 16), digit_colon (b % 16)) (hex_encode_digits bs)

-- A text without colons: "a" stands for what is written "aa", a colon for "ab".
abbrev pub escape : String → String
escape String.[] = ""
escape (String.◌∷◌ c s) =
    let rest = escape s in
    if eqb (code c) b':'
    then String.◌∷◌ "a" (String.◌∷◌ "b" rest)
    else if eqb (code c) b'a'
    then String.◌∷◌ "a" (String.◌∷◌ "a" rest)
    else String.◌∷◌ c rest

abbrev pub unescape : (escaped : Bool) → String → String
unescape escaped String.[] = ""
unescape false (String.◌∷◌ c s) =
    let special = unescape true s in
    let plain = String.◌∷◌ c (unescape false s) in if eqb (code c) b'a' then special else plain
unescape true (String.◌∷◌ c s) =
    let rest = unescape false s in
    if eqb (code c) b'b' then String.◌∷◌ ":" rest else String.◌∷◌ "a" rest

is_colon : (c : Char) → eqb (code c) b':' ≡ true → c ≡ ":"
is_colon (char n q) h =
    subst (λ n. (q : IsScalar n) → char n q ≡ ":") (sym ((eqb_iff n 58).0 h)) (λ q. refl) q

is_a : (c : Char) → eqb (code c) b'a' ≡ true → c ≡ "a"
is_a (char n q) h =
    subst (λ n. (q : IsScalar n) → char n q ≡ "a") (sym ((eqb_iff n 97).0 h)) (λ q. refl) q

pub unescape-escape : (s : String) → unescape false (escape s) ≡ s
unescape-escape String.[] = refl
unescape-escape (String.◌∷◌ c s) = elim (Bool-cases (eqb (code c) b':')) [
  | inl e ↦ rw (is_colon c e) (ap (String.◌∷◌ ":") (unescape-escape s))
  | inr e ↦ elim (Bool-cases (eqb (code c) b'a')) [
    | inl k ↦ rw (is_a c k) (ap (String.◌∷◌ "a") (unescape-escape s))
    | inr k ↦ rw (e, k) (rw k (ap (String.◌∷◌ c) (unescape-escape s)))
  ]
]

pub escape_alphabet : (s : String) → lacks_char b':' (escape s) ≡ true
escape_alphabet String.[] = refl
escape_alphabet (String.◌∷◌ c s) = ground (arith, escape_alphabet s)

abbrev pub sevens : ℕ → Bytes
sevens zero = []
sevens (suc n) = 7 ∷ sevens n

length-sevens : (n : ℕ) → length (sevens n) ≡ n
length-sevens zero = refl
length-sevens (suc n) = omega (arith, length-sevens n)

sevens-is_bytes : (n : ℕ) → is_bytes (sevens n) ≡ true
sevens-is_bytes zero = refl
sevens-is_bytes (suc n) = sevens-is_bytes n

abbrev pub plain_libraries : Primitives
plain_libraries = record {
  hex_encode = hex_encode;
  hex_decode = hex_decode;
  base64_encode = escape;
  base64_decode = λ s. some (unescape false s);
  seal = λ key nonce text additional. text;
  unseal = λ key nonce sealed additional. some sealed;
  marshal = λ kp u v. u;
  random = λ read amount. sevens amount;
}

pub plain_libraries-PrimitiveLaws : PrimitiveLaws plain_libraries
plain_libraries-PrimitiveLaws = record {
  hex_decode-hex_encode = hex_decode-hex_encode;
  hex_encode-take = hex_encode-take;
  hex_encode_digits = hex_encode_digits;
  hex_encode_empty = λ b bs. rw (compare.cons-nil (digit (b / 16)) _) refl;
  base64_decode-base64_encode = λ s. ap some (unescape-escape s);
  base64_encode_alphabet = escape_alphabet;
  unseal-seal = λ key nonce text additional. refl;
  length-random = λ read amount. length-sevens amount;
  random_bytes = λ read amount. sevens-is_bytes amount;
}
