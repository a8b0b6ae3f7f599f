-- ===== src/Session/Loading/Laws.antt =====
-- What the encodings and the keyring document that keep a session, and the texts that they make.
use gosn_v.Prelude.{
  ℕ, ◌≡◌, refl, ap, ◌∙◌, Bool, true, false, Option, none, some, [], ◌∷◌, ◌++◌, inl, length, arith,
  if◌then◌else◌,
}
use gosn_v.Prelude.Bytes.{Bytes, codes, has_prefix, includes, lacks}
use gosn_v.Session.Types.{Session}
use gosn_v.Session.Keyring.{
  SessionJson, Keyring, minimal, make_minimal_session_string, is_unencrypted_session, is_empty,
}
use gosn_v.Crypto.Stream.{Aes, encrypt}
use gosn_v.Crypto.Stream.RoundTrip.{AesLaws}

-- What begins with a byte is not found in a text without it.
pub includes-lacks : (b : ℕ) (part s : Bytes) → lacks b s ≡ true → includes s (b ∷ part) ≡ false
unfolding includes has_prefix
includes-lacks b part [] h = refl
includes-lacks b part (c ∷ s) h = ground (arith, includes-lacks b part s)

-- What the encoding and the keyring document, of a session that has an access token.
pub record StoredLaws (aes : Aes) (json : SessionJson) : Type 0 where
  pub aes_laws : AesLaws aes
  -- base64 has neither braces nor quotes, and is empty for no bytes alone.
  pub no_brace : (bs : Bytes) → lacks b'{' (aes.url_encode bs) ≡ true
  pub no_quote : (bs : Bytes) → lacks b'"' (aes.url_encode bs) ≡ true
  pub not_empty : (b : ℕ) (bs : Bytes) → is_empty (aes.url_encode (b ∷ bs)) ≡ false

pub record KeyringLaws {World : Type 0} (keyring : Keyring World) : Type 0 where
  pub get-set :
      (text : Bytes) (w w' : World) → keyring.set text w ≡ (none, w') → keyring.get w' ≡ inl text

-- encoding/json writes the session as an object with an access token, and reads it as it was written.
pub record IsStorable (json : SessionJson) (s : Session) : Type 0 where
  pub is_object : is_unencrypted_session (make_minimal_session_string json s) ≡ true
  pub has_token :
      includes (make_minimal_session_string json s) (codes "\"access_token\":\"\"") ≡ false
  pub decoded : json.unmarshal (make_minimal_session_string json s) ≡ some (minimal s)

pub object_is_not_empty : (s : Bytes) → is_unencrypted_session s ≡ true → is_empty s ≡ false
unfolding is_unencrypted_session has_prefix
object_is_not_empty [] h = cc h
object_is_not_empty (b ∷ s) h = refl

pub no_object : (s : Bytes) → lacks b'{' s ≡ true → is_unencrypted_session s ≡ false
unfolding is_unencrypted_session has_prefix
no_object [] h = refl
no_object (b ∷ s) h = ground arith

guarded_some :
    (refused large : Bool) (x y : Bytes)
    → ◌≡◌ {A = Option Bytes} (if refused then none else if large then none else some x) (some y)
    → y ≡ x
guarded_some true large x y h = cc h
guarded_some false true x y h = cc h
guarded_some false false x y h = cc h

first_of_append : (s t : Bytes) → length s ≡ 16 → (b : ℕ) × (bs : Bytes) × (s ++ t ≡ b ∷ bs)
first_of_append [] t h = absurd (omega arith)
first_of_append (b ∷ bs) t h = (b, bs ++ t, refl)

pub encrypted_shape :
    (aes : Aes) (laws : AesLaws aes) (key text : Bytes) (read : ℕ) (raw : Bytes)
    → encrypt aes key text read ≡ some raw
    → (b : ℕ) × (bs : Bytes) × (raw ≡ aes.url_encode (b ∷ bs))
unfolding encrypt
encrypted_shape aes laws key text read raw h =
    let (b, bs, first) = first_of_append (aes.iv read) _ (laws.length-iv read) in
    (b, bs, guarded_some _ _ _ raw h ∙ ap aes.url_encode first)
