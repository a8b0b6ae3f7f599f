-- ===== src/Session/Keyring.antt =====
-- The session in the keyring: makeMinimalSessionString, ParseSessionString, isUnencryptedSession, AddSession,
-- UpdateSession and writeSession of session/session.go. The keyring, encoding/json and what is
-- typed at the terminal are parameters; the session of a sign in is given.
use gosn_v.Prelude.{
  ℕ, String, Bool, true, false, not, ◌&&◌, Option, none, some, [], ◌∷◌, ◌⊎◌, inl, inr,
  if◌then◌else◌,
}
use gosn_v.Prelude.Bytes.{Bytes, codes, has_prefix, includes, same}
use gosn_v.Items.Types.{SessionItemsKey}
use gosn_v.Session.Types.{Session, KeyParams, RequestError}
use gosn_v.Crypto.Stream.{Aes, StreamError, encrypt}

pub record MinimalSession : Type 0 where
  pub server : String
  pub token : String
  pub master_key : String
  pub key_params : KeyParams
  pub access_token : String
  pub refresh_token : String
  pub access_expiration : ℕ
  pub refresh_expiration : ℕ
  pub schema_validation : Bool
  pub access_token_cookie : String
  pub refresh_token_cookie : String

-- encoding/json on it: none for an error.
pub record SessionJson : Type 0 where
  pub marshal : MinimalSession → Bytes
  pub unmarshal : Bytes → Option MinimalSession

-- The entry of the program in a keyring; an error is its message.
pub record Keyring (World : Type 0) : Type 0 where
  pub get : World → Bytes ⊎ Bytes
  pub set : Bytes → World → Option Bytes × World
  pub delete : World → Option Bytes × World

pub data SessionError : Type 0 where
  keyring_error : Bytes → SessionError
  not_in_keyring invalid_in_keyring nothing_typed key_not_provided incorrect_key bad_session :
      SessionError
  not_decrypted : StreamError → SessionError
  not_refreshed : RequestError → SessionError

pub data Access (A : Type 0) : Type 0 where
  got : A → Access A
  refused : SessionError → Access A
  panicked : Access A

abbrev pub minimal : Session → MinimalSession
minimal s = record {
  server = s.server;
  token = s.token;
  master_key = s.master_key;
  key_params = s.key_params;
  access_token = s.access_token;
  refresh_token = s.refresh_token;
  access_expiration = s.access_expiration;
  refresh_expiration = s.refresh_expiration;
  schema_validation = s.schema_validation;
  access_token_cookie = s.access_token_cookie;
  refresh_token_cookie = s.refresh_token_cookie;
}

unfoldable pub make_minimal_session_string : SessionJson → Session → Bytes
make_minimal_session_string json s = json.marshal (minimal s)

abbrev no_items_key : SessionItemsKey
no_items_key = record {
  uuid = "";
  items_key = "";
  version = "";
  default = false;
  created_at = "";
  updated_at = "";
  created_at_timestamp = 0;
  updated_at_timestamp = 0;
  deleted = false;
}

-- The session that ParseSessionString makes: the token and the schema validation are not taken over.
abbrev pub restored : MinimalSession → Session
restored ms = record {
  schema_validation = false;
  server = ms.server;
  files_server_url = "";
  token = "";
  master_key = ms.master_key;
  items_keys = [];
  default_items_key = no_items_key;
  key_params = ms.key_params;
  access_token = ms.access_token;
  refresh_token = ms.refresh_token;
  access_expiration = ms.access_expiration;
  refresh_expiration = ms.refresh_expiration;
  read_only_access = false;
  password_nonce = ms.key_params.pw_nonce;
  access_token_cookie = ms.access_token_cookie;
  refresh_token_cookie = ms.refresh_token_cookie;
}

unfoldable pub parse_session_string : SessionJson → Bytes → Access Session
parse_session_string json ss = elim (json.unmarshal ss) [
  | none ↦ refused bad_session
  | some ms ↦ got (restored ms)
]

unfoldable pub is_unencrypted_session : Bytes → Bool
unfolding has_prefix
is_unencrypted_session s = has_prefix s (b'{' ∷ [])

abbrev pub is_empty : Bytes → Bool
is_empty [] = true
is_empty (b ∷ bs) = false

module _ (aes : Aes) (json : SessionJson) where
  -- What AddSession and UpdateSession write, encrypted if there is a key.
  unfoldable pub session_text : (key : Bytes) → Session → (read : ℕ) → Option Bytes
  unfolding make_minimal_session_string encrypt
  session_text key s read =
      if is_empty key
      then some (make_minimal_session_string json s)
      else encrypt aes key (make_minimal_session_string json s) read

  module _ {World : Type 0} (keyring : Keyring World) where
    abbrev pub written : Option Bytes × World → Access (Unit {0}) × World
    written (none, w) = (got tt, w)
    written (some e, w) = (refused (keyring_error e), w)

    unfoldable pub write_text : Option Bytes → World → Access (Unit {0}) × World
    write_text none w = (panicked, w)
    write_text (some text) w = written (keyring.set text w)

    -- The key that UpdateSession asks for, where a session is kept that is encrypted.
    unfoldable pub update_key : (existing : Bytes) → (typed : Option Bytes) → Option Bytes
    unfolding is_unencrypted_session
    update_key existing typed =
        if not (is_empty existing) && not (is_unencrypted_session existing) then typed else some []

    -- An error of the keyring counts, unless it says that there is no entry.
    unfoldable pub existing_session : Bytes ⊎ Bytes → Access Bytes
    existing_session (inl existing) = got existing
    existing_session (inr e) =
        if includes e (codes "secret not found in keyring")
        then got []
        else refused (keyring_error e)

    unfoldable pub update_session :
        Session → (typed : Option Bytes) → (read : ℕ) → World → Access (Unit {0}) × World
    unfolding existing_session update_key session_text write_text
    update_session s typed read w = elim (existing_session (keyring.get w)) [
      | got existing ↦ elim (update_key existing typed) [
        | none ↦ (refused nothing_typed, w)
        | some key ↦ write_text (session_text key s read) w
      ]
      | refused e ↦ (refused e, w)
      | panicked ↦ (panicked, w)
    ]

    -- The key that AddSession is given, or what is typed for a dot.
    unfoldable pub entered_key : (in_key : Bytes) → (typed : Option Bytes) → Option Bytes
    entered_key in_key typed = if same in_key (codes ".") then typed else some in_key

    unfoldable pub replace_session :
        (existing : Bytes)
        → (replace : Bool) → (key : Bytes) → (signed_in : Access Session) → (read : ℕ) → World
        → Access (Unit {0}) × World
    unfolding session_text write_text
    replace_session existing replace key signed_in read w =
        if not (is_empty existing) && not replace then (got tt, w) else elim signed_in [
          | got s ↦ write_text (session_text key s read) w
          | refused e ↦ (refused e, w)
          | panicked ↦ (panicked, w)
        ]

    -- AddSession, with what is typed for the key, the answer to the question whether a session is replaced
    -- and the session of the sign in.
    unfoldable pub add_session :
        (in_key : Bytes)
        → (typed : Option Bytes) → (replace : Bool) → (signed_in : Access Session) → (read : ℕ)
        → World
        → Access (Unit {0}) × World
    unfolding existing_session entered_key replace_session
    add_session in_key typed replace signed_in read w = elim (existing_session (keyring.get w)) [
      | got existing ↦ elim (entered_key in_key typed) [
        | none ↦ (refused nothing_typed, w)
        | some key ↦ replace_session existing replace key signed_in read w
      ]
      | refused e ↦ (refused e, w)
      | panicked ↦ (panicked, w)
    ]
