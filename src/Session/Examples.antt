-- ===== src/Session/Examples.antt =====
-- Runs of the refresh of a session.
use gosn_v.Prelude.{false, []}
use gosn_v.Items.Types.{SessionItemsKey}
use gosn_v.Session.Types.{Session}

abbrev pub no_items_key : SessionItemsKey
no_items_key = record {
  uuid = "";
  items_key = "";
  version = "";
  default = false;
  created_at = "";
  updated_at = "";
  created_at_timestamp = 0;
  updated_at_timestamp = 0;
  deleted = false;
}

abbrev pub a_session : Session
a_session = record {
  schema_validation = false;
  server = "https://api.standardnotes.com";
  files_server_url = "";
  token = "";
  master_key = "00";
  items_keys = [];
  default_items_key = no_items_key;
  key_params = record {
    created = "";
    identifier = "";
    origination = "";
    pw_nonce = "";
    version = "004";
  };
  access_token = "2:abc";
  refresh_token = "2:def";
  access_expiration = 1;
  refresh_expiration = 1;
  read_only_access = false;
  password_nonce = "";
  access_token_cookie = "cookie";
  refresh_token_cookie = "cookie";
}
