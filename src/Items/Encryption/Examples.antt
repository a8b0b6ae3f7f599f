-- ===== src/Items/Encryption/Examples.antt =====
-- Runs of encryption and decryption with libraries that leave a text as it is.
use mathlib.Core.List.Permᴰ
use gosn_v.Prelude.{◌≡◌, ◌↔◌, refl, String, true, false, none, some, [], ◌∷◌, ◌==◌}
use gosn_v.Items.ContentType
use gosn_v.Items.Types.{EncryptedItem, ItemsKey, SessionItemsKey}
use gosn_v.Items.References.{get_matching_item}
use gosn_v.Session.Types.{Session}
use gosn_v.Session.Examples.{a_session}
use gosn_v.Crypto.{done}
use gosn_v.Crypto.Sealed.{IsKey}
use gosn_v.Items.Encryption.{PlainItem, ItemsKeyJson, unsealed, encrypt_item}
use gosn_v.Items.Encryption.Decryption.{as_decrypted, decrypt_item, decrypt_items_sequential}
use gosn_v.Items.Encryption.RoundTrip.{decrypt_item-encrypt_item}
use gosn_v.Items.Encryption.Parallel.{Arrival, decrypt_items}
use gosn_v.Items.Encryption.Parallel.Order.{decrypt_items_lem}
use gosn_v.Items.Encryption.Libraries.{plain_libraries, plain_libraries-PrimitiveLaws, sevens}

-- 32 bytes in hex
abbrev pub a_key : String
a_key = "0707070707070707070707070707070707070707070707070707070707070707"

pub a_key-IsKey : IsKey plain_libraries a_key
a_key-IsKey = record { bytes = sevens 32; length_bytes = refl; in_range = refl; in_hex = refl }

abbrev a_note : PlainItem
a_note = record {
  uuid = "n1";
  content_type = ContentType.note;
  updated_at = "2024-01-02T00:00:00.000Z";
  created_at = "2024-01-01T00:00:00.000Z";
  deleted = false;
  updated_at_timestamp = 2;
  created_at_timestamp = 1;
  content = "{\"title\":\"a: b\",\"text\":\"\"}";
}

abbrev pub an_items_key : SessionItemsKey
an_items_key = record {
  uuid = "k1";
  items_key = a_key;
  version = "004";
  default = true;
  created_at = "2024-01-01T00:00:00.000Z";
  updated_at = "2024-01-01T00:00:00.000Z";
  created_at_timestamp = 1;
  updated_at_timestamp = 1;
  deleted = false;
}

abbrev pub keyed : Session
keyed = record a_session { items_keys = an_items_key ∷ []; master_key = a_key }

decrypt_item-encrypt_item_example :
    (e : EncryptedItem) × (encrypt_item plain_libraries a_note an_items_key keyed 0
      ≡ done (e, none))
    × (record e { content = ""; enc_item_key = "" } ≡ unsealed a_note an_items_key.uuid)
    × ((e.enc_item_key == "") ≡ false)
    × (decrypt_item plain_libraries e keyed keyed.items_keys ≡ done (as_decrypted e a_note.content))
unfolding get_matching_item
decrypt_item-encrypt_item_example =
    decrypt_item-encrypt_item plain_libraries plain_libraries-PrimitiveLaws a_note an_items_key
      keyed keyed keyed.items_keys 0 a_key-IsKey (λ h. absurd (cc h)) (λ h. absurd (cc h)) refl refl

abbrev pub a_parsed_key : ItemsKey
a_parsed_key = record {
  uuid = "";
  content_type = "";
  created_at = "";
  updated_at = "";
  created_at_timestamp = 0;
  updated_at_timestamp = 0;
  items_key = a_key;
  version = "004";
  default = true;
  deleted = false;
}

abbrev pub a_json : ItemsKeyJson
a_json = record {
  marshal = λ items_key version default. items_key;
  unmarshal = λ s. some (record a_parsed_key { items_key = s });
}

abbrev pub in_turn : Arrival
in_turn = record { results = λ l. l; results-perm = Permᴰ.refl }

-- A note under a key of hex digits, with its nonces.
abbrev an_encrypted_item : EncryptedItem
an_encrypted_item = record {
  uuid = "n1";
  items_key_id = "k1";
  content = "004:0707:text:data";
  content_type = ContentType.note;
  enc_item_key = "004:0707:07:data";
  created_at = "";
  updated_at = "";
  duplicate_of = none;
  auth_hash = none;
  updated_with_session = none;
  key_system_identifier = none;
  shared_vault_uuid = none;
  user_uuid = none;
  last_edited_by_uuid = none;
  created_at_timestamp = 0;
  updated_at_timestamp = 0;
  deleted = false;
}

decrypt_items_lem_example :
    (decrypt_items plain_libraries keyed keyed.items_keys in_turn (an_encrypted_item ∷ [])
      ≡ done (as_decrypted an_encrypted_item "text" ∷ []))
    ↔ (decrypt_items_sequential plain_libraries keyed (an_encrypted_item ∷ []) keyed.items_keys
        ≡ done (as_decrypted an_encrypted_item "text" ∷ []))
decrypt_items_lem_example =
    decrypt_items_lem plain_libraries keyed keyed.items_keys in_turn (an_encrypted_item ∷ [])
      (as_decrypted an_encrypted_item "text" ∷ [])
