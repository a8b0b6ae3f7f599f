-- ===== src/Crypto/Colons.antt =====
-- A text is split at the colons that join its parts.
use Prim.Native.String.{◌++◌}
use Prim.Native.String.append
use Prim.Native.String.compare
use gosn_v.Prelude.{◌≡◌, refl, ap, ◌∙◌, String, true, false, [], ◌∷◌, ◌==◌, arith}
use gosn_v.Crypto.{split_colons, split_content, done}
use gosn_v.Crypto.Libraries.{lacks_char}

-- fmt.Sprintf("004:%s:%s:%s", nonce, cipherText, authData)
abbrev pub joined : (nonce cipher_text auth_data : String) → String
joined nonce cipher_text auth_data =
    "004" ++ (":" ++ (nonce ++ (":" ++ (cipher_text ++ (":" ++ auth_data)))))

cons_colon : (s : String) → ":" ++ s ≡ String.◌∷◌ ":" s
cons_colon s = append.cons ":" "" s ∙ ap (String.◌∷◌ ":") (append.nil s)

colon : (s : String) → split_colons (":" ++ s) ≡ "" ∷ split_colons s
unfolding split_colons
colon s = rw (cons_colon s) refl

pub split_part :
    (q s : String) → lacks_char b':' q ≡ true → split_colons (q ++ (":" ++ s)) ≡ q ∷ split_colons s
unfolding split_colons
split_part String.[] s h = rw (append.nil (":" ++ s)) (colon s)
split_part (String.◌∷◌ c q) s h =
    rw (append.cons c q (":" ++ s)) (ground (arith, h, split_part q s))

pub split_last : (q : String) → lacks_char b':' q ≡ true → split_colons q ≡ q ∷ []
unfolding split_colons
split_last String.[] h = refl
split_last (String.◌∷◌ c q) h = ground (arith, split_last q)

-- What encryptions join, decryptions split.
pub split_content-joined :
    (nonce cipher_text auth_data : String)
    → lacks_char b':' nonce ≡ true
    → lacks_char b':' cipher_text ≡ true
    → lacks_char b':' auth_data ≡ true
    → split_content (joined nonce cipher_text auth_data)
      ≡ done (record {
        version = "004";
        nonce = nonce;
        cipher_text = cipher_text;
        authenticated_data = auth_data;
      })
unfolding split_content
split_content-joined nonce cipher_text auth_data h k l =
    rw
      (
        split_part "004" (nonce ++ (":" ++ (cipher_text ++ (":" ++ auth_data)))) refl,
        split_part nonce (cipher_text ++ (":" ++ auth_data)) h,
        split_part cipher_text auth_data k,
        split_last auth_data l,
      )
      refl

pub joined_is_not_empty :
    (nonce cipher_text auth_data : String) → (joined nonce cipher_text auth_data == "") ≡ false
joined_is_not_empty nonce cipher_text auth_data =
    rw
      (
        append.cons "0" "04" (":" ++ (nonce ++ (":" ++ (cipher_text ++ (":" ++ auth_data))))),
        compare.cons-nil "0" _,
      )
      refl
