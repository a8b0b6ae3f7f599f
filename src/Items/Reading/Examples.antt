-- ===== src/Items/Reading/Examples.antt =====
-- A note and a theme that are encrypted and read again, with libraries that leave a text as it is.
use gosn_v.Prelude.{
  ◌≡◌, refl, String, true, false, none, some, List, [], ◌∷◌, map, ◌==◌, arith, if◌then◌else◌,
}
use gosn_v.Items.ContentType
use gosn_v.Items.Types.{ItemCommon, Note, Item, note, other, EncryptedItem}
use gosn_v.Items.References.{get_matching_item}
use gosn_v.Crypto.{done}
use gosn_v.Items.Encryption.Lists.{encrypt}
use gosn_v.Items.Encryption.Libraries.{plain_libraries, plain_libraries-PrimitiveLaws}
use gosn_v.Items.Encryption.Examples.{
  a_key-IsKey, an_items_key, a_parsed_key, a_json, keyed, in_turn,
}
use gosn_v.Items.Encryption.{encrypt_items_key}
use gosn_v.Items.Reading.Keys.{IsDecoded, as_sent, decrypt_and_parse_items_keys-encrypt_items_key}
use gosn_v.Items.Parsing.{
  read, Times, ContentJson, parse_sn_time, empty_note_content, empty_tag_content,
  empty_component_content, time_layout,
}
use gosn_v.Items.Reading.{decrypt_and_parse, decrypt_and_parse_items_keys}
use gosn_v.Items.Reading.Reread.{reread, IsReadable, decrypt_and_parse-encrypt}
use gosn_v.Items.Reading.RoundTrip.{IsHeld}

abbrev a_stamp : String
a_stamp = "2024-01-01T00:00:00.000Z"

-- A clock that knows one time.
abbrev pub one_time : Times
one_time = record {
  parse = λ layout s. if layout == time_layout then some 7 else none;
  format = λ t. a_stamp;
}

abbrev a_common : (uuid content_type : String) → ItemCommon
a_common uuid content_type = record {
  uuid = uuid;
  items_key_id = "k0";
  encrypted_item_key = "";
  content_type = content_type;
  duplicate_of = "n0";
  created_at = a_stamp;
  updated_at = a_stamp;
  auth_hash = none;
  updated_with_session = none;
  key_system_identifier = none;
  shared_vault_uuid = none;
  user_uuid = none;
  last_edited_by_uuid = none;
  conflict_of = none;
  created_at_timestamp = 1;
  updated_at_timestamp = 2;
  content_size = 0;
  deleted = false;
  protected = false;
  trashed = false;
  pinned = false;
  archived = false;
  starred = false;
  locked = false;
}

abbrev a_note : Note
a_note = record {
  common = a_common "n1" ContentType.note;
  content = record empty_note_content { title = "plan" };
}

abbrev two_items : List Item
two_items = note a_note ∷ other (a_common "t1" ContentType.theme) ∷ []

abbrev pub titles : ContentJson
titles = record {
  note = λ s. some (record empty_note_content { title = s });
  tag = λ s. some empty_tag_content;
  component = λ s. some empty_component_content;
  accepts = λ t s. true;
}

abbrev title_of : Item → String
title_of (note n) = n.content.title
title_of _ = ""

an_items_key-IsHeld : IsHeld plain_libraries an_items_key keyed
unfolding get_matching_item
an_items_key-IsHeld = record {
  is_key = a_key-IsKey;
  named = λ h. absurd (cc h);
  filled_in = λ h. absurd (cc h);
  matching = refl;
}

a_note-IsReadable : IsReadable one_time titles title_of (note a_note)
unfolding parse_sn_time
a_note-IsReadable = record {
  kept = refl;
  created = (7, refl, refl);
  updated = (7, refl, refl);
  typed = (refl, refl);
}

a_theme-IsReadable : IsReadable one_time titles title_of (other (a_common "t1" ContentType.theme))
unfolding parse_sn_time
a_theme-IsReadable = record {
  kept = refl;
  created = (7, refl, refl);
  updated = (7, refl, refl);
  typed = ((refl, refl, refl, refl, refl), refl);
}

decrypt_and_parse-encrypt_example :
    (es : List EncryptedItem) × (encrypt plain_libraries keyed title_of two_items an_items_key 0
      ≡ done (es, none))
    × (decrypt_and_parse one_time titles plain_libraries keyed in_turn es
        ≡ read (map (reread an_items_key title_of) two_items))
decrypt_and_parse-encrypt_example =
    decrypt_and_parse-encrypt one_time titles title_of an_items_key plain_libraries
      plain_libraries-PrimitiveLaws keyed keyed an_items_key-IsHeld two_items 0 in_turn
      (a_note-IsReadable, (a_theme-IsReadable, tt))

an_items_key-IsDecoded : IsDecoded a_json an_items_key a_parsed_key
an_items_key-IsDecoded = record {
  decoded = refl;
  same_key = refl;
  same_version = refl;
  same_default = refl;
  kept = refl;
}

decrypt_and_parse_items_keys-encrypt_items_key_example :
    (e : EncryptedItem) × (encrypt_items_key plain_libraries a_json an_items_key keyed true 0
      ≡ done (e, none))
    × (decrypt_and_parse_items_keys plain_libraries a_json keyed.master_key (e ∷ [])
        ≡ read (as_sent true an_items_key ∷ []))
decrypt_and_parse_items_keys-encrypt_items_key_example =
    decrypt_and_parse_items_keys-encrypt_items_key plain_libraries plain_libraries-PrimitiveLaws
      a_json an_items_key keyed true 0 a_parsed_key a_key-IsKey (λ h. absurd (cc h))
      (λ h. absurd (cc h)) (λ h. absurd (omega arith)) refl an_items_key-IsDecoded
