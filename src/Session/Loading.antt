-- ===== src/Session/Loading.antt =====
-- GetSession of session/session.go, where it loads a session from the keyring. What is typed and the
-- time, in nanoseconds, are given; the schemas at its end are left out.
pub mod Laws
pub mod Stored
mod Examples
use gosn_v.Prelude.{
  ℕ, ◌+◌, ◌*◌, ◌/◌, String, Bool, true, false, not, Option, none, some, List, [], ltb, ◌⊎◌, inl,
  inr, if◌then◌else◌,
}
use gosn_v.Prelude.Bytes.{Bytes, codes, includes}
use gosn_v.Session.Types.{Session, Network, Decoder, HttpRequest, RequestError}
use gosn_v.Session.Refresh.{refresh}
use gosn_v.Session.Keyring.{
  SessionJson, Keyring, SessionError, keyring_error, not_in_keyring, invalid_in_keyring,
  nothing_typed, key_not_provided, incorrect_key, not_decrypted, not_refreshed, Access, got,
  refused, panicked, parse_session_string, is_unencrypted_session, is_empty, update_session,
}
use gosn_v.Crypto.Stream.{Aes, decrypt}

unfoldable pub then_got : {A B : Type 0} → Access A → (A → Access B) → Access B
then_got (got a) f = f a
then_got (refused e) f = refused e
then_got panicked f = panicked

-- The key that is given, or else what is typed.
unfoldable pub session_key_or : (session_key : Bytes) → (typed : Option Bytes) → Access Bytes
session_key_or session_key typed =
    if not (is_empty session_key) then got session_key else elim typed [
      | none ↦ refused nothing_typed
      | some key ↦ if is_empty key then refused key_not_provided else got key
    ]

-- The access token expires within ten minutes.
unfoldable pub is_expiring : (now : ℕ) → Session → Bool
is_expiring now s = ltb ((s.access_expiration / 1000) * 1000000000) (now + 600 * 1000000000)

module _ (aes : Aes) (json : SessionJson) where
  unfoldable pub decrypted_session : Bytes → (key : Bytes) → Access Bytes
  unfolding is_unencrypted_session decrypt
  decrypted_session raw key = elim (decrypt aes key raw) [
    | inr e ↦ refused (not_decrypted e)
    | inl text ↦ if is_unencrypted_session text then got text else refused incorrect_key
  ]

  -- The text of the session, decrypted if it is encrypted.
  unfoldable pub session_content :
      (raw : Bytes) → (session_key : Bytes) → (typed : Option Bytes) → Access Bytes
  unfolding is_unencrypted_session session_key_or decrypted_session then_got
  session_content raw session_key typed =
      if is_unencrypted_session raw
      then got raw
      else then_got (session_key_or session_key typed) (λ key. decrypted_session raw key)

  -- The session that is in the keyring, before it is refreshed.
  unfoldable pub stored_session :
      Bytes ⊎ Bytes → (session_key : Bytes) → (typed : Option Bytes) → Access Session
  unfolding session_content parse_session_string then_got
  stored_session (inr e) session_key typed = refused (keyring_error e)
  stored_session (inl raw) session_key typed =
      if is_empty raw
      then refused not_in_keyring
      else if includes raw (codes "\"access_token\":\"\"")
      then refused invalid_in_keyring
      else then_got (session_content raw session_key typed) (λ text. parse_session_string json text)

  module _ {World : Type 0} (keyring : Keyring World) (net : Network) (decode : Decoder) where
    abbrev kept_session :
        Session
        → List HttpRequest
        → Access (Unit {0}) × World
        → (Access Session × World) × List HttpRequest
    kept_session s sent (got _, w) = ((got s, w), sent)
    kept_session s sent (refused e, w) = ((refused e, w), sent)
    kept_session s sent (panicked, w) = ((panicked, w), sent)

    -- The refreshed session is written to the keyring.
    abbrev after_refresh :
        (typed : Option Bytes)
        → (read : ℕ) → World
        → (Session × Option RequestError) × List HttpRequest
        → (Access Session × World) × List HttpRequest
    after_refresh typed read w ((s, some e), sent) = ((refused (not_refreshed e), w), sent)
    after_refresh typed read w ((s, none), sent) =
        kept_session s sent (update_session aes json keyring s typed read w)

    -- The session that is loaded, refreshed if it is about to expire.
    unfoldable pub refreshed_session :
        (now : ℕ)
        → (update_typed : Option Bytes) → (read : ℕ) → Access Session
        → List HttpRequest
        → World
        → (Access Session × World) × List HttpRequest
    unfolding is_expiring refresh update_session
    refreshed_session now update_typed read (got s) sent w =
        if is_expiring now s
        then after_refresh update_typed read w (refresh net decode s sent)
        else ((got s, w), sent)
    refreshed_session now update_typed read (refused e) sent w = ((refused e, w), sent)
    refreshed_session now update_typed read panicked sent w = ((panicked, w), sent)

    unfoldable pub get_session :
        (session_key : Bytes)
        → (typed update_typed : Option Bytes) → (now read : ℕ) → List HttpRequest
        → World
        → (Access Session × World) × List HttpRequest
    unfolding stored_session refreshed_session
    get_session session_key typed update_typed now read sent w =
        refreshed_session now update_typed read (stored_session (keyring.get w) session_key typed)
          sent w
