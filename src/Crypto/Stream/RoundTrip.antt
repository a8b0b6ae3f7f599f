-- ===== src/Crypto/Stream/RoundTrip.antt =====
-- A text that is encrypted with a key is decrypted with it, if the key has less than 32 bytes.
use gosn_v.Prelude.{
  ℕ, zero, suc, ◌+◌, ◌-◌, ◌%◌, ◌≤◌, ◌<◌, ◌≡◌, ◌≢◌, refl, ap, sym, ◌∙◌, true, false, Option, none,
  some, [], ◌∷◌, ◌++◌, ◌⊎◌, inl, inr, length, take, drop, ltb, length-append, arith, Bool-cases,
}
use gosn_v.Prelude.Bytes.{Bytes}
use gosn_v.Crypto.Stream.{
  Aes, StreamError, bad_key, block_size, max_plaintext_size, repeat, pad_to_aes_block_size,
  is_key_size, encrypt, decrypt_decoded, decrypt,
}

pub record AesLaws (aes : Aes) : Type 0 where
  pub unstream-stream : (key iv text : Bytes) → aes.unstream key iv (aes.stream key iv text) ≡ text
  pub url_decode-url_encode : (bs : Bytes) → aes.url_decode (aes.url_encode bs) ≡ some bs
  pub length-iv : (read : ℕ) → length (aes.iv read) ≡ 16

length-repeat : (b n : ℕ) → length (repeat b n) ≡ n
length-repeat b zero = refl
length-repeat b (suc n) = ap suc (length-repeat b n)

-- The least multiple of 16 above the length of the key.
length-pad_to_aes_block_size :
    (b : Bytes) → length (pad_to_aes_block_size b) ≡ length b + (16 - length b % 16)
unfolding pad_to_aes_block_size
length-pad_to_aes_block_size b =
    length-append b _ ∙ ap (λ (n : ℕ). length b + n) (length-repeat _ _)

short_size : (n : ℕ) → n < 32 → is_key_size (n + (16 - n % 16)) ≡ true
short_size n h = ground arith

long_size : (n : ℕ) → 32 ≤ n → is_key_size (n + (16 - n % 16)) ≡ false
long_size n h = ground arith

short_key : (b : Bytes) → length b < 32 → is_key_size (length (pad_to_aes_block_size b)) ≡ true
short_key b h = rw (length-pad_to_aes_block_size b) (short_size (length b) h)

long_key : (b : Bytes) → 32 ≤ length b → is_key_size (length (pad_to_aes_block_size b)) ≡ false
long_key b h = rw (length-pad_to_aes_block_size b) (long_size (length b) h)

take-append : (n : ℕ) (bs cs : Bytes) → length bs ≡ n → take n (bs ++ cs) ≡ bs
take-append zero [] cs h = refl
take-append zero (b ∷ bs) cs h = absurd (omega arith)
take-append (suc n) [] cs h = absurd (omega arith)
take-append (suc n) (b ∷ bs) cs h = ap (λ l. b ∷ l) (take-append n bs cs (omega arith))

drop-append : (n : ℕ) (bs cs : Bytes) → length bs ≡ n → drop n (bs ++ cs) ≡ cs
drop-append zero [] cs h = refl
drop-append zero (b ∷ bs) cs h = absurd (omega arith)
drop-append (suc n) [] cs h = absurd (omega arith)
drop-append (suc n) (b ∷ bs) cs h = drop-append n bs cs (omega arith)

none_is_not_some : (s : Bytes) → ◌≢◌ {A = Option Bytes} none (some s)
none_is_not_some s h = cc h

module _ (aes : Aes) (key text : Bytes) (read : ℕ) where
  -- A key of 32 bytes or more: Encrypt panics, and Decrypt returns an error whatever it is given.
  pub long_key_fails :
      32 ≤ length key
      → (encrypt aes key text read ≡ none) × ((s t : Bytes) → decrypt aes key s ≢ inl t)
  unfolding encrypt decrypt
  long_key_fails long = (rw (long_key key long) refl, λ s t h. no_text (aes.url_decode s) t h)
    where
      no_text : (o : Option Bytes) (t : Bytes) → decrypt_decoded aes key o ≢ inl t
      no_text none t h = cc h
      no_text (some c) t h =
          let refused : decrypt_decoded aes key (some c) ≡ inr bad_key =
            rw (long_key key long) refl in
          let same : ◌≡◌ {A = Bytes ⊎ StreamError} (inr bad_key) (inl t) = sym refused ∙ h in
          cc same

  large_text : ltb max_plaintext_size (length text) ≡ true → encrypt aes key text read ≡ none
  unfolding encrypt
  large_text large = ground (arith, large)

module _ (aes : Aes) (laws : AesLaws aes) (key text : Bytes) (read : ℕ) where
  -- A text of 10 MB at most and a key of less than 32 bytes: Encrypt does not panic, and Decrypt with the same
  -- key returns the text.
  pub decrypt-encrypt :
      length key < 32
      → length text ≤ max_plaintext_size
      → (s : Bytes) × (encrypt aes key text read ≡ some s) × (decrypt aes key s ≡ inl text)
  unfolding encrypt decrypt
  decrypt-encrypt short small =
      let iv = aes.iv read in
      let padded = pad_to_aes_block_size key in
      let sealed = aes.stream padded iv text in
      let fits = short_key key short in
      let in_size : ltb max_plaintext_size (length text) ≡ false = ground arith in
      let long_enough : ltb (length (iv ++ sealed)) block_size ≡ false =
        ground (arith, length-append iv sealed, laws.length-iv read) in
      (
        aes.url_encode (iv ++ sealed),
        rw (fits, in_size) refl,
        rw (laws.url_decode-url_encode (iv ++ sealed)) (
            rw
              (
                fits,
                long_enough,
                take-append 16 iv sealed (laws.length-iv read),
                drop-append 16 iv sealed (laws.length-iv read),
              )
              (ap inl (laws.unstream-stream padded iv text))),
      )

  -- Where Encrypt does not panic, Decrypt with the same key returns the text.
  pub decrypt-encrypt_some :
      (s : Bytes) → encrypt aes key text read ≡ some s → decrypt aes key s ≡ inl text
  decrypt-encrypt_some s h = elim (Bool-cases (ltb (length key) 32)) [
    | inr long ↦
        absurd
          (none_is_not_some s (sym (long_key_fails aes key text read (ground (arith, long))).0 ∙ h))
    | inl short ↦ elim (Bool-cases (ltb max_plaintext_size (length text))) [
      | inl large ↦ absurd (none_is_not_some s (sym (large_text aes key text read large) ∙ h))
      | inr small ↦
          let (s', sealed, opened) =
            decrypt-encrypt (ground (arith, short)) (ground (arith, small)) in
          let same : s ≡ s' = cc (h, sealed) in rw same opened
    ]
  ]
