-- ===== src/Session/Loading/Stored.antt =====
-- A session in the keyring is loaded as it was written.
use gosn_v.Prelude.{
  ℕ, ◌≡◌, ◌≢◌, refl, ap, sym, ◌∙◌, true, false, Option, none, some, List, [], ◌∷◌, ◌⊎◌, inl, inr,
  Bool-cases, subst,
}
use gosn_v.Prelude.Bytes.{Bytes, codes, includes}
use gosn_v.Session.Types.{Session, Network, Decoder, HttpRequest}
use gosn_v.Session.Keyring.{
  SessionJson, Keyring, SessionError, Access, panicked, written, got, refused, minimal, restored,
  make_minimal_session_string, parse_session_string, is_unencrypted_session, is_empty, session_text,
  write_text, existing_session, add_session, replace_session, entered_key,
}
use gosn_v.Session.Loading.{
  then_got, session_key_or, is_expiring, decrypted_session, session_content, stored_session,
  refreshed_session, get_session,
}
use gosn_v.Session.Loading.Laws.{
  StoredLaws, KeyringLaws, IsStorable, includes-lacks, object_is_not_empty, no_object,
  encrypted_shape,
}
use gosn_v.Crypto.Stream.{Aes, encrypt, decrypt}
use gosn_v.Crypto.Stream.RoundTrip.{decrypt-encrypt_some}

-- A session as it comes back: the token, the URL of the files server, the items keys and the flags for the schemas
-- and for reading only are not kept, and the password nonce is that of the parameters of the keys.
abbrev pub reread : Session → Session
reread s = record {
  schema_validation = false;
  server = s.server;
  files_server_url = "";
  token = "";
  master_key = s.master_key;
  items_keys = [];
  default_items_key = record {
    uuid = "";
    items_key = "";
    version = "";
    default = false;
    created_at = "";
    updated_at = "";
    created_at_timestamp = 0;
    updated_at_timestamp = 0;
    deleted = false;
  };
  key_params = s.key_params;
  access_token = s.access_token;
  refresh_token = s.refresh_token;
  access_expiration = s.access_expiration;
  refresh_expiration = s.refresh_expiration;
  read_only_access = false;
  password_nonce = s.key_params.pw_nonce;
  access_token_cookie = s.access_token_cookie;
  refresh_token_cookie = s.refresh_token_cookie;
}

refused_is_not_got : {e : SessionError} → ◌≢◌ {A = Access (Unit {0})} (refused e) (got tt)
refused_is_not_got h = cc h

panicked_is_not_got : ◌≢◌ {A = Access (Unit {0})} panicked (got tt)
panicked_is_not_got h = cc h

Access-cases :
    {A : Type 0} (x : Access A)
    → ((a : A) × (x ≡ got a)) ⊎ (((e : SessionError) × (x ≡ refused e)) ⊎ (x ≡ panicked))
Access-cases (got a) = inl (a, refl)
Access-cases (refused e) = inr (inl (e, refl))
Access-cases panicked = inr (inr refl)

module _ (aes : Aes) (json : SessionJson) (laws : StoredLaws aes json) (s : Session)
    (storable : IsStorable json s) where
  parsed :
      (text : Bytes)
      → json.unmarshal text ≡ some (minimal s)
      → parse_session_string json text ≡ got (restored (minimal s))
  unfolding parse_session_string
  parsed text h = rw (h, parse_session_string) refl

  decrypted_object :
      (key raw text : Bytes)
      → decrypt aes key raw ≡ inl text
      → is_unencrypted_session text ≡ true
      → decrypted_session aes json raw key ≡ got text
  unfolding decrypted_session
  decrypted_object key raw text h object = rw (h, decrypted_session) (rw object refl)

  then_object :
      (text key : Bytes) (typed : Option Bytes)
      → is_unencrypted_session text ≡ true
      → json.unmarshal text ≡ some (minimal s)
      → then_got (session_content aes json text key typed) (λ t. parse_session_string json t)
        ≡ got (restored (minimal s))
  unfolding session_content then_got
  then_object text key typed object h = rw object (parsed text h)

  stored_plain :
      (key : Bytes) (typed : Option Bytes)
      → stored_session aes json (inl (make_minimal_session_string json s)) key typed
        ≡ got (restored (minimal s))
  unfolding stored_session
  stored_plain key typed =
      rw (object_is_not_empty _ storable.is_object, storable.has_token)
        (then_object (make_minimal_session_string json s) key typed storable.is_object
          storable.decoded)

  stored_encrypted :
      (key : Bytes) (typed : Option Bytes) (read : ℕ) (raw : Bytes)
      → is_empty key ≡ false
      → encrypt aes key (make_minimal_session_string json s) read ≡ some raw
      → stored_session aes json (inl raw) key typed ≡ got (restored (minimal s))
  unfolding stored_session session_content session_key_or then_got
  stored_encrypted key typed read raw keyed h =
      let (b, bs, shape) =
        encrypted_shape aes laws.aes_laws key (make_minimal_session_string json s) read raw h in
      let filled : is_empty raw ≡ false = rw shape (laws.not_empty b bs) in
      let quoteless : includes raw (codes "\"access_token\":\"\"") ≡ false =
        includes-lacks b'"' _ raw (rw shape (laws.no_quote (b ∷ bs))) in
      let braceless : is_unencrypted_session raw ≡ false =
        no_object raw (rw shape (laws.no_brace (b ∷ bs))) in
      rw
        (
          filled,
          quoteless,
          braceless,
          keyed,
          decrypted_object key raw (make_minimal_session_string json s)
              (decrypt-encrypt_some aes laws.aes_laws key (make_minimal_session_string json s) read
                raw h)
              storable.is_object,
        )
        (parsed _ storable.decoded)

  -- What AddSession writes is read back.
  stored_text :
      (key : Bytes) (typed : Option Bytes) (read : ℕ) (raw : Bytes)
      → session_text aes json key s read ≡ some raw
      → stored_session aes json (inl raw) key typed ≡ got (restored (minimal s))
  unfolding session_text
  stored_text [] typed read raw h =
      let same : make_minimal_session_string json s ≡ raw = cc h in
      subst (λ (t : Bytes). stored_session aes json (inl t) [] typed ≡ got (restored (minimal s)))
        same (stored_plain [] typed)
  stored_text (b ∷ key) typed read raw h = stored_encrypted (b ∷ key) typed read raw refl h

  module _ {World : Type 0} (keyring : Keyring World) (kept : KeyringLaws keyring) where
    unwritten :
        (result : Option Bytes × World) (w' : World)
        → written aes json keyring result ≡ (got tt, w')
        → result ≡ (none, w')
    unwritten (none, v) w' h = ap (λ (p : Access (Unit {0}) × World). (none, p.1)) h
    unwritten (some e, v) w' h =
        absurd (refused_is_not_got (ap (λ (p : Access (Unit {0}) × World). p.0) h))

    written_text :
        (text : Option Bytes) (w w' : World)
        → write_text aes json keyring text w ≡ (got tt, w')
        → (raw : Bytes) × (text ≡ some raw) × (keyring.get w' ≡ inl raw)
    unfolding write_text
    written_text none w w' h =
        absurd (panicked_is_not_got (ap (λ (p : Access (Unit {0}) × World). p.0) h))
    written_text (some raw) w w' h = (raw, refl, kept.get-set raw w w' (unwritten _ w' h))

    replaced_text :
        (existing key : Bytes) (read : ℕ) (w : World)
        → replace_session aes json keyring existing true key (got s) read w
          ≡ write_text aes json keyring (session_text aes json key s read) w
    unfolding replace_session
    replaced_text existing key read w = elim (Bool-cases (is_empty existing)) [
      | inl fresh ↦ rw fresh refl
      | inr stale ↦ rw stale refl
    ]

    added_text :
        (in_key key : Bytes) (typed : Option Bytes) (read : ℕ) (w w' : World)
        → entered_key aes json keyring in_key typed ≡ some key
        → add_session aes json keyring in_key typed true (got s) read w ≡ (got tt, w')
        → write_text aes json keyring (session_text aes json key s read) w ≡ (got tt, w')
    unfolding add_session
    added_text in_key key typed read w w' entered h =
        elim (Access-cases (existing_session aes json keyring (keyring.get w))) [
          | inl (existing, is_got) ↦
              let same : add_session aes json keyring in_key typed true (got s) read w
                  ≡ replace_session aes json keyring existing true key (got s) read w =
                rw (is_got, entered, add_session) refl in
              sym (same ∙ replaced_text existing key read w) ∙ h
          | inr (inl (e, is_refused)) ↦
              let same : add_session aes json keyring in_key typed true (got s) read w
                  ≡ (refused e, w) =
                rw (is_refused, add_session) refl in
              absurd
                (refused_is_not_got (ap (λ (p : Access (Unit {0}) × World). p.0) (sym same ∙ h)))
          | inr (inr is_panicked) ↦
              let same : add_session aes json keyring in_key typed true (got s) read w
                  ≡ (panicked, w) =
                rw (is_panicked, add_session) refl in
              absurd
                (panicked_is_not_got (ap (λ (p : Access (Unit {0}) × World). p.0) (sym same ∙ h)))
        ]

    not_refreshed :
        (net : Network) (decode : Decoder) (update_typed : Option Bytes)
        → (read now : ℕ) (sent : List HttpRequest) (w : World) → is_expiring now s ≡ false
        → refreshed_session aes json keyring net decode now update_typed read
            (got (restored (minimal s)))
            sent
            w
          ≡ ((got (restored (minimal s)), w), sent)
    unfolding refreshed_session is_expiring
    not_refreshed net decode update_typed read now sent w fresh = rw fresh refl

    -- A session that encoding/json writes as an object with an access token that is not empty, and reads as it
    -- was written, put into the keyring by AddSession without an error, in plain text or encrypted with the key that
    -- is entered, replacing the one that is there: before it is about to expire, GetSession with that key returns
    -- its server, master key, parameters of the keys, tokens, expirations and cookies, all other fields reset, with
    -- no request and no change of the keyring.
    pub get_session-add_session :
        (net : Network) (decode : Decoder) (in_key key : Bytes)
        (typed typed' update_typed : Option Bytes)
        → (read read' now : ℕ) (sent : List HttpRequest) (w w' : World)
        → entered_key aes json keyring in_key typed ≡ some key
        → add_session aes json keyring in_key typed true (got s) read w ≡ (got tt, w')
        → is_expiring now s ≡ false
        → get_session aes json keyring net decode key typed' update_typed now read' sent w'
          ≡ ((got (reread s), w'), sent)
    unfolding get_session
    get_session-add_session net decode in_key key typed typed' update_typed read read' now sent w w'
          entered h fresh =
        let (raw, text, held) =
          written_text _ w w' (added_text in_key key typed read w w' entered h) in
        rw (held, stored_text key typed' read raw text)
          (not_refreshed net decode update_typed read' now sent w' fresh)
