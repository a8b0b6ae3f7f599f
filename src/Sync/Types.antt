-- ===== src/Sync/Types.antt =====
-- The data of items/sync.go and of the response types in items/items.go.
use gosn_v.Prelude.{ℕ, String, Option, List}
use gosn_v.Items.Types.{EncryptedItem}

pub record ConflictedItem : Type 0 where
  pub server_item : EncryptedItem
  pub unsaved_item : EncryptedItem
  pub type : String

pub record SyncOutput : Type 0 where
  pub items : List EncryptedItem
  pub saved_items : List EncryptedItem
  pub unsaved : List EncryptedItem
  pub conflicts : List ConflictedItem
  pub sync_token : String
  pub cursor : String

pub record SyncInput : Type 0 where
  pub sync_token : String
  pub cursor_token : String
  pub items : List EncryptedItem
  pub next_item : ℕ
  pub page_size : ℕ

pub record SyncResponseData : Type 0 where
  pub items : List EncryptedItem
  pub saved_items : List EncryptedItem
  pub unsaved : List EncryptedItem
  pub conflicts : List ConflictedItem
  pub sync_token : String
  pub cursor_token : String
  pub last_item_put : ℕ
  pub put_limit_used : ℕ

-- The field cursor_token of a request: left out, null or a token.
pub data Cursor : Type 0 where
  absent null : Cursor
  token : String → Cursor

-- The fields of the JSON text that buildRequestBody writes.
pub record Body : Type 0 where
  pub items : List EncryptedItem
  pub limit : ℕ
  pub sync_token : Option String
  pub cursor : Cursor

-- What makeSyncRequest returns: an error, or a status and the JSON of the body, none where it does
-- not decode.
pub data Posted : Type 0 where
  failed : String → Posted
  answered : ℕ → Option SyncResponseData → Posted

-- The other side: its answer may depend on every request before.
abbrev pub Server : Type 0
Server = List Body → Body → Posted

pub data Fault : Type 0 where
  request_failed : String → Fault
  unexpected_status : ℕ → Fault
  bad_json : Fault
  items_key_has_items_key : String → Fault
  slice_out_of_range : Fault
  out_of_fuel : Fault

-- What syncItemsViaAPI returns, and the requests sent so far.
pub record Synced : Type 0 where
  pub out : SyncResponseData
  pub fault : Option Fault
  pub sent : List Body
