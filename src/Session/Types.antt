-- ===== src/Session/Types.antt =====
-- The data of session/session.go and auth/authentication.go that the modelled parts use, and the
-- requests over HTTP. The client, the debug flag and the schemas are left out. An expiration is a
-- number of milliseconds after 1970.
use gosn_v.Prelude.{ℕ, String, Bool, Option, List}
use gosn_v.Items.Types.{SessionItemsKey}

pub record KeyParams : Type 0 where
  pub created : String
  pub identifier : String
  pub origination : String
  pub pw_nonce : String
  pub version : String

pub record Session : Type 0 where
  pub schema_validation : Bool
  pub server : String
  pub files_server_url : String
  pub token : String
  pub master_key : String
  pub items_keys : List SessionItemsKey
  pub default_items_key : SessionItemsKey
  pub key_params : KeyParams
  pub access_token : String
  pub refresh_token : String
  pub access_expiration : ℕ
  pub refresh_expiration : ℕ
  pub read_only_access : Bool
  pub password_nonce : String
  pub access_token_cookie : String
  pub refresh_token_cookie : String

-- What goes to the server: the end of the URL, the headers that say who asks, as the code sets them (the jar of the
-- client may add cookies), and the body.
pub record HttpRequest : Type 0 where
  pub path : String
  pub cookie : Option String
  pub authorization : String
  pub body : String

-- What comes back: an error, or a status and the body, none where it cannot be read.
pub data HttpReply : Type 0 where
  failed : String → HttpReply
  replied : ℕ → Option String → HttpReply

-- The other side: its reply may depend on every request before.
abbrev pub Network : Type 0
Network = List HttpRequest → HttpRequest → HttpReply

-- RefreshSessionResponse
pub record RefreshSessionResponse : Type 0 where
  pub files_server_url : String
  pub access_token : String
  pub refresh_token : String
  pub access_expiration : ℕ
  pub refresh_expiration : ℕ
  pub read_only_access : ℕ

-- encoding/json on such a response: none for an error; a field that is missing is empty or 0.
abbrev pub Decoder : Type 0
Decoder = String → Option RefreshSessionResponse

pub data RequestError : Type 0 where
  transport : String → RequestError
  unreadable_body : RequestError
  bad_json : RequestError
  payload_too_large : RequestError
  invalid_token : RequestError
  refresh_failed : RequestError → RequestError
  retry_failed : String → RequestError
  unexpected_status : ℕ → RequestError
