-- ===== src/Items/Reading.antt =====
-- ParseItem, Parse, DecryptAndParseItem, DecryptAndParse and DecryptAndParseItemsKeys of items/items.go,
-- with validateContentSchema of items/validation.go. The schema of a note is a parameter.
pub mod RoundTrip
pub mod Reread
pub mod Keys
pub mod Examples
use gosn_v.Prelude.{
  String, Bool, true, false, not, ◌&&◌, ◌||◌, Option, none, some, List, [], ◌∷◌, ◌==◌, any, keep,
  map, if◌then◌else◌,
}
use gosn_v.Items.ContentType
use gosn_v.Items.Types.{
  NoteContent, Item, note, tag, component, other, DecryptedItem, EncryptedItem, SessionItemsKey,
  ItemsKey,
}
use gosn_v.Session.Types.{Session}
use gosn_v.Crypto.Libraries.{Primitives}
use gosn_v.Crypto.{Outcome, done, failed, panicked}
use gosn_v.Items.Encryption.{ItemsKeyJson}
use gosn_v.Items.Encryption.Decryption.{decrypt_item, decrypt_and_parse_item_keys}
use gosn_v.Items.Encryption.Parallel.{Arrival, decrypt_items}
use gosn_v.Items.Parsing.{
  Reading, read, not_decrypted, unhandled, no_schema, invalid_content, no_keys, crashed, then_read,
  Times, ContentJson, is_one_of, parse_note, parse_tag, parse_component, parse_other, other_types,
}

abbrev pub decrypted : {A : Type 0} → Outcome A → Reading A
decrypted (done a) = read a
decrypted (failed f) = not_decrypted f
decrypted panicked = crashed

-- json.Schema.Validate on the content of a note: whether it returns no error.
abbrev pub Schema : Type 0
Schema = NoteContent → Bool

-- The check of an item that is read; only a note has a schema.
unfoldable pub validated : Session → Option Schema → Option Item → Reading (Option Item)
validated s schema (some (note n)) =
    if s.schema_validation
    then elim schema [
      | none ↦ no_schema
      | some is_valid ↦ if is_valid n.content then read (some (note n)) else invalid_content
    ]
    else read (some (note n))
validated s schema none = read none
validated s schema (some (tag t)) = read (some (tag t))
validated s schema (some (component c)) = read (some (component c))
validated s schema (some (other o)) = read (some (other o))

module _ (times : Times) (json : ContentJson) where
  -- The cases that are not an items key.
  unfoldable pub parse_as : DecryptedItem → Reading Item
  unfolding parse_note parse_tag parse_component parse_other
  parse_as di =
      if di.content_type == ContentType.note
      then parse_note times json di
      else if di.content_type == ContentType.tag
      then parse_tag times json di
      else if di.content_type == ContentType.component
      then parse_component times json di
      else if is_one_of di.content_type other_types
      then parse_other times json di
      else unhandled di.content_type di.content

  -- None is the nil that it returns with no error.
  unfoldable pub parse_item : DecryptedItem → Reading (Option Item)
  unfolding parse_as then_read
  parse_item di =
      if di.content_type == ContentType.items_key
      then read none
      else then_read (parse_as di) (λ i. read (some i))

  unfoldable pub parse : List DecryptedItem → Reading (List Item)
  unfolding parse_as then_read
  parse [] = read []
  parse (di ∷ dis) =
      let rest = parse dis in
      let more = then_read (parse_as di) (λ i. then_read rest (λ is. read (i ∷ is))) in
      if di.content_type == ContentType.items_key then rest else more

  module _ (p : Primitives) (s : Session) where
    unfoldable pub decrypt_and_parse_item : Option Schema → EncryptedItem → Reading (Option Item)
    unfolding parse_item then_read decrypt_item validated
    decrypt_and_parse_item schema ei =
        then_read (decrypted (decrypt_item p ei s []))
          (λ di. then_read (parse_item di) (λ o. validated s schema o))

    unfoldable pub decrypt_and_parse : Arrival → List EncryptedItem → Reading (List Item)
    unfolding parse then_read decrypt_items
    decrypt_and_parse arrival ei =
        then_read (decrypted (decrypt_items p s [] arrival ei)) (λ di. parse di)

abbrev pub session_items_key : ItemsKey → SessionItemsKey
session_items_key k = record {
  uuid = k.uuid;
  items_key = k.items_key;
  version = k.version;
  default = k.default;
  created_at = k.created_at;
  updated_at = k.updated_at;
  created_at_timestamp = k.created_at_timestamp;
  updated_at_timestamp = k.updated_at_timestamp;
  deleted = k.deleted;
}

-- The end of DecryptAndParseItemsKeys.
unfoldable pub session_items_keys : Outcome (List ItemsKey) → Reading (List SessionItemsKey)
session_items_keys (done []) = no_keys
session_items_keys (done (k ∷ ks)) = read (map session_items_key (k ∷ ks))
session_items_keys (failed f) = not_decrypted f
session_items_keys panicked = crashed

-- What DecryptAndParseItemsKeys makes of the items keys that it finds.
unfoldable pub parse_found_keys :
    Primitives → ItemsKeyJson → (mk : String) → List EncryptedItem → Reading (List SessionItemsKey)
unfolding session_items_keys decrypt_and_parse_item_keys
parse_found_keys p json mk [] = read []
parse_found_keys p json mk (e ∷ es) =
    if any (λ e. e.uuid == "" || e.enc_item_key == "") (e ∷ es)
    then crashed
    else session_items_keys (decrypt_and_parse_item_keys p json mk (e ∷ es))

unfoldable pub decrypt_and_parse_items_keys :
    Primitives → ItemsKeyJson → (mk : String) → List EncryptedItem → Reading (List SessionItemsKey)
unfolding parse_found_keys
decrypt_and_parse_items_keys p json mk ei =
    parse_found_keys p json mk
      (keep (λ e. (e.content_type == ContentType.items_key) && not e.deleted) ei)
