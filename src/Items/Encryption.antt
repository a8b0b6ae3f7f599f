-- ===== src/Items/Encryption.antt =====
-- Encryption of items: items/itemEncryption.go. An item is what its getters return, its content as
-- the JSON that encoding/json makes of it. Reads of the random source are numbered; a function starts
-- at the number that it is given.
pub mod Decryption
pub mod RoundTrip
pub mod KeyRoundTrip
pub mod Parallel
pub mod Lists
pub mod Libraries
pub mod Examples
use gosn_v.Prelude.{
  ℕ, suc, ◌+◌, String, Bool, true, false, not, ◌||◌, Option, none, some, List, [], ◌∷◌, eqb, ◌==◌,
  if◌then◌else◌,
}
use gosn_v.Items.ContentType
use gosn_v.Items.Types.{EncryptedItem, DecryptedItem, ItemsKey, SessionItemsKey}
use gosn_v.Session.Types.{Session}
use gosn_v.Crypto.Libraries.{Primitives}
use gosn_v.Crypto.{
  Outcome, done, failed, panicked, Failure, and_then, encrypt_string, generate_item_key,
  generate_nonce, encoded_auth_data, key_size,
}
use gosn_v.Crypto.Colons.{joined}

-- What EncryptItem reads of an item.
pub record PlainItem : Type 0 where
  pub uuid : String
  pub content_type : String
  pub updated_at : String
  pub created_at : String
  pub deleted : Bool
  pub updated_at_timestamp : ℕ
  pub created_at_timestamp : ℕ
  pub content : String

-- encoding/json on the content of an items key: ItemsKeyContent, and ItemsKey on the way back.
pub record ItemsKeyJson : Type 0 where
  pub marshal : (items_key version : String) → (default : Bool) → String
  pub unmarshal : String → Option ItemsKey

-- The item that EncryptItem fills in before it encrypts.
abbrev pub unsealed : PlainItem → (items_key_id : String) → EncryptedItem
unsealed item items_key_id = record {
  uuid = item.uuid;
  items_key_id = items_key_id;
  content = "";
  content_type = item.content_type;
  enc_item_key = "";
  created_at = item.created_at;
  updated_at = item.updated_at;
  duplicate_of = none;
  auth_hash = none;
  updated_with_session = none;
  key_system_identifier = none;
  shared_vault_uuid = none;
  user_uuid = none;
  last_edited_by_uuid = none;
  created_at_timestamp = item.created_at_timestamp;
  updated_at_timestamp = item.updated_at_timestamp;
  deleted = item.deleted;
}

-- An item and an error, if there is one.
abbrev pub Sealing : Type 0
Sealing = EncryptedItem × Option Failure

-- The end of an encryption: the key of the item in `enc_item_key`.
abbrev pub with_key : EncryptedItem → (nonce auth : String) → Outcome String → Outcome Sealing
with_key e nonce auth (done key) = done (record e { enc_item_key = joined nonce key auth }, none)
with_key e nonce auth (failed f) = done (record e { enc_item_key = joined nonce "" auth }, some f)
with_key e nonce auth panicked = panicked

-- The content of the item, and what follows, if there is no error.
abbrev pub with_content :
    EncryptedItem
    → (nonce auth : String) → Outcome String
    → (EncryptedItem → Outcome Sealing)
    → Outcome Sealing
with_content e nonce auth (done content) rest =
    rest (record e { content = joined nonce content auth })
with_content e nonce auth (failed f) rest = done (e, some f)
with_content e nonce auth panicked rest = panicked

module _ (p : Primitives) where
  -- The content under a new key, and that key under `key`, each with a nonce.
  unfoldable pub seal_item :
      EncryptedItem
      → (text item_key key auth : String) → (nonce key_nonce : String) → Outcome Sealing
  seal_item e text item_key key auth nonce key_nonce =
      with_content e nonce auth (encrypt_string p text item_key nonce auth key_size)
        (λ e. with_key e key_nonce auth (encrypt_string p item_key key key_nonce auth key_size))

  -- EncryptItem, which uses two reads: one nonce serves twice.
  unfoldable pub encrypt_item : PlainItem → SessionItemsKey → Session → (read : ℕ) → Outcome Sealing
  unfolding seal_item
  encrypt_item item ik s read =
      let nonce = generate_nonce p (suc read) in
      let auth = encoded_auth_data p item.content_type item.uuid s.key_params in
      let sealing =
        seal_item (unsealed item ik.uuid) item.content (generate_item_key p read 64) ik.items_key
          auth nonce nonce in
      if ik.uuid == "" then panicked else sealing

  abbrev join_item :
      Sealing → List EncryptedItem × Option Failure → List EncryptedItem × Option Failure
  join_item (e, error) ([], none) = (e ∷ [], error)
  join_item (e, error) (es, last) = (e ∷ es, last)

  -- encryptItems: the error is that of the last item.
  unfoldable pub encrypt_items :
      Session
      → List PlainItem
      → SessionItemsKey
      → (read : ℕ) → Outcome (List EncryptedItem × Option Failure)
  unfolding encrypt_item and_then
  encrypt_items s [] ik read = done ([], none)
  encrypt_items s (item ∷ items) ik read =
      let rest = encrypt_items s items ik (read + 2) in
      and_then (encrypt_item item ik s read) (λ e. and_then rest (λ es. done (join_item e es)))

  -- DecryptedItem.Encrypt, of its fields, which uses three reads.
  unfoldable pub encrypt_decrypted_item :
      DecryptedItem → ItemsKey → Session → (read : ℕ) → Outcome Sealing
  unfolding seal_item
  encrypt_decrypted_item di ik s read =
      let item : PlainItem = record {
        uuid = di.uuid;
        content_type = di.content_type;
        updated_at = di.updated_at;
        created_at = di.created_at;
        deleted = di.deleted;
        updated_at_timestamp = di.updated_at_timestamp;
        created_at_timestamp = di.created_at_timestamp;
        content = di.content;
      } in
      let auth = encoded_auth_data p di.content_type di.uuid s.key_params in
      let sealing =
        seal_item (unsealed item ik.uuid) di.content (generate_item_key p read 32) ik.items_key auth
          (generate_nonce p (read + 1)) (generate_nonce p (read + 2)) in
      if ik.uuid == "" then panicked else sealing

  -- The item that EncryptItemsKey fills in before it encrypts.
  abbrev pub unsealed_key : SessionItemsKey → (new : Bool) → EncryptedItem
  unsealed_key ik new =
      let item : PlainItem = record {
        uuid = ik.uuid;
        content_type = ContentType.items_key;
        updated_at = if new then "" else ik.updated_at;
        created_at = ik.created_at;
        deleted = ik.deleted;
        updated_at_timestamp = if new then 0 else ik.updated_at_timestamp;
        created_at_timestamp = ik.created_at_timestamp;
        content = "";
      } in
      unsealed item ""

  unfoldable pub encrypt_items_key :
      ItemsKeyJson → SessionItemsKey → Session → (new : Bool) → (read : ℕ) → Outcome Sealing
  unfolding seal_item
  encrypt_items_key json ik s new read =
      let text = json.marshal ik.items_key ik.version ik.default in
      let auth = encoded_auth_data p ContentType.items_key ik.uuid s.key_params in
      let sealing =
        seal_item (unsealed_key ik new) text (generate_item_key p read 64) s.master_key auth
          (generate_nonce p (read + 1)) (generate_nonce p (read + 2)) in
      if eqb ik.created_at_timestamp 0
      then panicked
      else if ik.items_key == ""
      then panicked
      else if ik.uuid == ""
      then no_uuid sealing
      else sealing
    where
      no_uuid : Outcome Sealing → Outcome Sealing
      no_uuid (done (e, none)) = panicked
      no_uuid (done (e, some f)) = if e.content == "" then done (e, some f) else panicked
      no_uuid (failed f) = failed f
      no_uuid panicked = panicked
