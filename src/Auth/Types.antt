-- ===== src/Auth/Types.antt =====
-- The data of auth/authentication.go. The client, the debug flag and what the server says about itself are
-- left out. The text of an error is a list of bytes.
use Prim.Native.String.{◌++◌ as concat}
use gosn_v.Prelude.{ℕ, String, Bool, Option, List, [], ◌∷◌, ◌⊎◌}
use gosn_v.Prelude.Bytes.{Bytes}
use gosn_v.Session.Types.{KeyParams}

-- What goes to the server, and what comes back: the text of an error, or a status, the headers
-- Set-Cookie and the body, or the text of the error that ends the reading of it.
pub record AuthRequest : Type 0 where
  pub url : String
  pub body : String

pub data AuthReply : Type 0 where
  no_reply : Bytes → AuthReply
  reply : ℕ → List String → String ⊎ Bytes → AuthReply

abbrev pub AuthNetwork : Type 0
AuthNetwork = List AuthRequest → AuthRequest → AuthReply

-- generateLoginChallengeCodeVerifier
pub record Verifier : Type 0 where
  pub code_verifier : String
  pub code_challenge : String

-- The fields of AuthParamsOutput that the server sends.
pub record AuthParamsData : Type 0 where
  pub identifier : String
  pub password_salt : String
  pub password_cost : ℕ
  pub password_nonce : String
  pub version : String

-- The error in ErrorResponse.
pub record ServerError : Type 0 where
  pub tag : String
  pub message : String
  pub mfa_key : String

pub record User : Type 0 where
  pub uuid : String
  pub email : String
  pub protocol_version : String

-- The data of signInResponse, with the fields of the session that are read of it.
pub record SignInData : Type 0 where
  pub access_token : String
  pub refresh_token : String
  pub access_expiration : ℕ
  pub refresh_expiration : ℕ
  pub read_only_access : Bool
  pub access_token_cookie : String
  pub refresh_token_cookie : String
  pub key_params : KeyParams
  pub user : User

-- encoding/json, net/url and fmt; an error is its text. A field that is missing is empty.
pub record AuthLibraries : Type 0 where
  pub params : String → AuthParamsData ⊎ Bytes
  pub server_error : String → ServerError ⊎ Bytes
  pub sign_in : String → SignInData ⊎ Bytes
  pub register_token : String → String ⊎ Bytes
  pub path_escape : String → String
  pub hostname : String → Option Bytes
  -- fmt on a response
  pub shown : ℕ → List String → Bytes

abbrev pub no_params : AuthParamsData
no_params = record {
  identifier = "";
  password_salt = "";
  password_cost = 0;
  password_nonce = "";
  version = "";
}

abbrev pub no_error : ServerError
no_error = record { tag = ""; message = ""; mfa_key = "" }

pub record AuthParamsOutput : Type 0 where
  pub identifier : String
  pub password_nonce : String
  pub version : String
  pub token_name : String
  pub verifier : Verifier

pub record SignInInput : Type 0 where
  pub email : String
  pub token_name : String
  pub token_val : String
  pub password : String
  pub api_server : String

-- The fields of SignInResponseDataSession that SignIn sets.
pub record SignedIn : Type 0 where
  pub master_key : String
  pub key_params : KeyParams
  pub access_token : String
  pub refresh_token : String
  pub access_expiration : ℕ
  pub refresh_expiration : ℕ
  pub read_only_access : Bool
  pub password_nonce : String
  pub access_token_cookie : String
  pub refresh_token_cookie : String

pub record SignInOutput : Type 0 where
  pub session : SignedIn
  pub key_params : KeyParams
  pub user : User
  pub token_name : String

-- What a function returns: a value, the text of an error or a panic.
pub data AuthResult (A : Type 0) : Type 0 where
  signed : A → AuthResult A
  error : Bytes → AuthResult A
  panicked : AuthResult A

-- fmt.Sprintf on texts.
abbrev pub joined : List String → String
joined [] = ""
joined (s ∷ ss) = concat s (joined ss)
