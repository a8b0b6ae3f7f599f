-- ===== src/Items/Encryption/Decryption.antt =====
-- Decryption of items: items/itemDecryption.go, and DecryptEncryptedItemKey and DecryptContent
-- of items/items.go.
use gosn_v.Prelude.{String, Bool, not, none, some, List, [], ◌∷◌, ◌==◌, if◌then◌else◌}
use gosn_v.Items.ContentType
use gosn_v.Items.Types.{EncryptedItem, DecryptedItem, ItemsKey, SessionItemsKey}
use gosn_v.Items.References.{get_matching_item}
use gosn_v.Session.Types.{Session}
use gosn_v.Crypto.Libraries.{Primitives}
use gosn_v.Crypto.{
  Outcome, done, failed, deleted_item, no_items_key_id, missing_items_key, not_an_items_key,
  bad_json, and_then, from_option, split_content, decrypt_cipher_text,
}
use gosn_v.Items.Encryption.{ItemsKeyJson}

unfoldable pub is_encrypted_with_master_key : String → Bool
is_encrypted_with_master_key t = t == ContentType.items_key

-- The key that DecryptItem uses.
unfoldable pub decryption_key : EncryptedItem → Session → List SessionItemsKey → Outcome String
unfolding get_matching_item is_encrypted_with_master_key
decryption_key e s iks =
    let key = (get_matching_item e.items_key_id iks).items_key in
    let session_key = (get_matching_item e.items_key_id s.items_keys).items_key in
    if not (key == "")
    then done key
    else if is_encrypted_with_master_key e.content_type
    then done s.master_key
    else if e.items_key_id == ""
    then failed no_items_key_id
    else if session_key == ""
    then failed missing_items_key
    else done session_key

abbrev pub as_decrypted : EncryptedItem → String → DecryptedItem
as_decrypted e content = record {
  uuid = e.uuid;
  items_key_id = e.items_key_id;
  content = content;
  content_type = e.content_type;
  duplicate_of = elim e.duplicate_of [ none ↦ "" | some d ↦ d ];
  deleted = e.deleted;
  created_at = e.created_at;
  updated_at = e.updated_at;
  created_at_timestamp = e.created_at_timestamp;
  updated_at_timestamp = e.updated_at_timestamp;
  auth_hash = e.auth_hash;
  updated_with_session = e.updated_with_session;
  key_system_identifier = e.key_system_identifier;
  shared_vault_uuid = e.shared_vault_uuid;
  user_uuid = e.user_uuid;
  last_edited_by_uuid = e.last_edited_by_uuid;
}

-- What DecryptAndParseItemKeys sets of a key that is parsed.
abbrev pub parsed_key : EncryptedItem → ItemsKey → ItemsKey
parsed_key e f = record f {
  uuid = e.uuid;
  content_type = e.content_type;
  updated_at = e.updated_at;
  updated_at_timestamp = e.updated_at_timestamp;
  created_at_timestamp = e.created_at_timestamp;
  created_at = e.created_at;
}

module _ (p : Primitives) where
  -- DecryptEncryptedItemKey and DecryptContent
  unfoldable pub decrypt_part : String → (encryption_key : String) → Outcome String
  unfolding and_then
  decrypt_part text encryption_key = and_then (split_content text) (λ parts.
      decrypt_cipher_text p parts.cipher_text encryption_key parts.nonce parts.authenticated_data)

  unfoldable pub decrypt_item_only : EncryptedItem → String → Outcome String
  unfolding and_then decrypt_part
  decrypt_item_only e key =
      and_then (decrypt_part e.enc_item_key key) (λ item_key. decrypt_part e.content item_key)

  unfoldable pub decrypt_item :
      EncryptedItem → Session → List SessionItemsKey → Outcome DecryptedItem
  unfolding and_then decryption_key decrypt_item_only
  decrypt_item e s iks =
      let decrypted =
        and_then (decryption_key e s iks)
          (λ key. and_then (decrypt_item_only e key) (λ content. done (as_decrypted e content))) in
      if e.deleted then failed deleted_item else decrypted

  -- EncryptedItem.Decrypt
  unfoldable pub decrypt : ItemsKeyJson → EncryptedItem → String → Outcome ItemsKey
  unfolding and_then decrypt_item_only
  decrypt json e mk =
      let parsed = and_then (decrypt_item_only e mk) (λ content.
        and_then (from_option bad_json (json.unmarshal content)) (λ f. done (parsed_key e f))) in
      if not (e.content_type == ContentType.items_key) then failed not_an_items_key else parsed

  abbrev add_key : ItemsKey → List ItemsKey → List ItemsKey
  add_key f iks = if f.items_key == "" then iks else f ∷ iks

  unfoldable pub decrypt_and_parse_item_keys :
      ItemsKeyJson → String → List EncryptedItem → Outcome (List ItemsKey)
  unfolding and_then decrypt_item_only
  decrypt_and_parse_item_keys json mk [] = done []
  decrypt_and_parse_item_keys json mk (e ∷ eiks) =
      let rest = decrypt_and_parse_item_keys json mk eiks in
      let all = and_then (decrypt_item_only e mk) (λ content.
        and_then (from_option bad_json (json.unmarshal content))
          (λ f. and_then rest (λ iks. done (add_key (parsed_key e f) iks)))) in
      if not (e.content_type == ContentType.items_key) then rest else all

  -- decryptItemsSequential
  unfoldable pub decrypt_items_sequential :
      Session → List EncryptedItem → List SessionItemsKey → Outcome (List DecryptedItem)
  unfolding and_then decrypt_item
  decrypt_items_sequential s [] iks = done []
  decrypt_items_sequential s (e ∷ ei) iks =
      let rest = decrypt_items_sequential s ei iks in
      let more = and_then (decrypt_item e s iks) (λ di. and_then rest (λ o. done (di ∷ o))) in
      if e.deleted then rest else more
