-- ===== src/Items/Parsing.antt =====
-- From decrypted items to items: populateItemCommon of items/item.go, parseSNTime of
-- items/userPreferences.go, the functions parseNote, parseTag and so on, processContentModel, ParseItem,
-- Parse, DecryptAndParseItem, DecryptAndParse and DecryptAndParseItemsKeys of items/items.go. The packages
-- time and encoding/json and the schemas are parameters.
use Prim.Native.String.{len}
use gosn_v.Prelude.{
  ℕ, String, Bool, true, false, ◌||◌, Option, none, some, List, [], ◌∷◌, ◌==◌, any, if◌then◌else◌,
}
use gosn_v.Items.ContentType
use gosn_v.Items.Types.{
  AppDataContent, ItemCommon, NoteContent, TagContent, ComponentContent, Item, note, tag, component,
  other, DecryptedItem,
}
use gosn_v.Crypto.{Failure}

-- What a function that reads items returns: a value, an error, or a panic.
pub data Reading (A : Type 0) : Type 0 where
  read : A → Reading A
  not_decrypted : Failure → Reading A
  unhandled : (content_type content : String) → Reading A
  no_schema invalid_content no_keys crashed : Reading A

unfoldable pub then_read : {A B : Type 0} → Reading A → (A → Reading B) → Reading B
then_read (read a) f = f a
then_read (not_decrypted e) f = not_decrypted e
then_read (unhandled t c) f = unhandled t c
then_read no_schema f = no_schema
then_read invalid_content f = invalid_content
then_read no_keys f = no_keys
then_read crashed f = crashed

-- time.Parse with a layout and Time.Format with common.TimeLayout, of times that are counted from the
-- zero time.
pub record Times : Type 0 where
  pub parse : (layout : String) → String → Option ℕ
  pub format : ℕ → String

-- json.Unmarshal into the content of an item of some type: what it makes of a note, a tag and a
-- component, and whether it returns no error for another type.
pub record ContentJson : Type 0 where
  pub note : String → Option NoteContent
  pub tag : String → Option TagContent
  pub component : String → Option ComponentContent
  pub accepts : (content_type : String) → String → Bool

abbrev pub time_layout : String
time_layout = "2006-01-02T15:04:05.000Z"

abbrev pub time_layout2 : String
time_layout2 = "2006-01-02T15:04:05.000000Z"

unfoldable pub parse_sn_time : Times → String → Option ℕ
parse_sn_time times s =
    if s == ""
    then some 0
    else elim (times.parse time_layout s) [ none ↦ times.parse time_layout2 s | some t ↦ some t ]

-- The fields of the item that populateItemCommon sets, for the two times that it parses; the others stay as
-- they are in a new item.
unfoldable pub populated : Times → DecryptedItem → Option ℕ → Option ℕ → Option ItemCommon
populated times di none updated_at = none
populated times di (some created_at) none = none
populated times di (some created_at) (some updated_at) = some (record {
  uuid = di.uuid;
  items_key_id = di.items_key_id;
  encrypted_item_key = "";
  content_type = di.content_type;
  duplicate_of = di.duplicate_of;
  created_at = times.format created_at;
  updated_at = times.format updated_at;
  auth_hash = di.auth_hash;
  updated_with_session = di.updated_with_session;
  key_system_identifier = di.key_system_identifier;
  shared_vault_uuid = di.shared_vault_uuid;
  user_uuid = di.user_uuid;
  last_edited_by_uuid = di.last_edited_by_uuid;
  conflict_of = none;
  created_at_timestamp = di.created_at_timestamp;
  updated_at_timestamp = di.updated_at_timestamp;
  content_size = len di.content;
  deleted = di.deleted;
  protected = false;
  trashed = false;
  pinned = false;
  archived = false;
  starred = false;
  locked = false;
})

-- None for its error.
unfoldable pub populate_item_common : Times → DecryptedItem → Option ItemCommon
unfolding populated parse_sn_time
populate_item_common times di =
    populated times di (parse_sn_time times di.created_at) (parse_sn_time times di.updated_at)

-- The dynamic types of the interface Content; a content of another type is not shown.
pub data Content : Type 0 where
  note_content : NoteContent → Content
  tag_content : TagContent → Content
  component_content : ComponentContent → Content
  other_content : Content

abbrev pub never_empty : List String
never_empty = ContentType.theme ∷ ContentType.privileges ∷ ContentType.extension ∷ []

-- The types whose empty content is not unmarshalled.
abbrev pub may_be_empty : List String
may_be_empty =
    ContentType.sf_extension ∷ ContentType.sf_mfa ∷ ContentType.smart_tag
    ∷ ContentType.file_safe_file_metadata ∷ ContentType.file_safe_integration
    ∷ ContentType.user_preferences ∷ ContentType.extension_repo ∷ ContentType.file_safe_credentials
    ∷ ContentType.file ∷ ContentType.trusted_contact ∷ ContentType.vault_listing
    ∷ ContentType.key_system_root_key ∷ ContentType.key_system_items_key ∷ []

-- The types that are parsed by a function of their own beside notes, tags and components.
abbrev pub other_types : List String
other_types = ContentType.theme ∷ ContentType.privileges ∷ ContentType.extension ∷ may_be_empty

abbrev pub is_one_of : String → List String → Bool
is_one_of t ts = any (λ s. t == s) ts

abbrev accepted : Bool → Option Content
accepted b = if b then some other_content else none

-- None for an error.
unfoldable pub process_content_model : ContentJson → (content_type input : String) → Option Content
process_content_model json t input =
    if t == ContentType.note
    then elim (json.note input) [ none ↦ none | some c ↦ some (note_content c) ]
    else if t == ContentType.tag
    then elim (json.tag input) [ none ↦ none | some c ↦ some (tag_content c) ]
    else if t == ContentType.component
    then elim (json.component input) [ none ↦ none | some c ↦ some (component_content c) ]
    else if is_one_of t never_empty
    then accepted (json.accepts t input)
    else if is_one_of t may_be_empty
    then accepted (input == "" || json.accepts t input)
    else none

-- The content of an item that is not decrypted.
abbrev no_app_data : AppDataContent
no_app_data = record { client_updated_at = ""; prefers_plain_editor = false; pinned = false }

abbrev pub empty_note_content : NoteContent
empty_note_content = record {
  title = "";
  text = "";
  item_references = [];
  app_data = no_app_data;
  preview_plain = "";
  spellcheck = false;
  preview_html = "";
  note_type = "";
  editor_identifier = "";
  trashed = none;
  hide_preview = false;
  editor_width = "";
  authorized_for_listed = false;
}

abbrev pub empty_tag_content : TagContent
empty_tag_content = record {
  title = "";
  item_references = [];
  app_data = no_app_data;
  icon_string = "";
  expanded = false;
  parent_id = "";
}

abbrev pub empty_component_content : ComponentContent
empty_component_content = record {
  identifier = "";
  legacy_url = "";
  hosted_url = "";
  local_url = "";
  url = "";
  valid_until = "";
  offline_only = false;
  name = "";
  area = "";
  active = none;
  auto_update_disabled = false;
  dissociated_item_ids = [];
  associated_item_ids = [];
  item_references = [];
  app_data = no_app_data;
  is_deprecated = false;
}

-- The end of the functions that parse an item, by the common fields, none for an error, and by the content of
-- an item that is not deleted: an error is a panic, and so is a content of another type than the one that
-- is asserted.
unfoldable pub with_content :
    Option ItemCommon
    → (is_deleted : Bool) → Option Content
    → (deleted : ItemCommon → Item) → (asserted : ItemCommon → Content → Reading Item)
    → Reading Item
with_content none is_deleted content deleted asserted = crashed
with_content (some c) true content deleted asserted = read (deleted c)
with_content (some c) false none deleted asserted = crashed
with_content (some c) false (some content) deleted asserted = asserted c content

abbrev as_note : ItemCommon → Content → Reading Item
as_note c (note_content n) = read (note (record { common = c; content = n }))
as_note c _ = crashed

abbrev as_tag : ItemCommon → Content → Reading Item
as_tag c (tag_content t) = read (tag (record { common = c; content = t }))
as_tag c _ = crashed

abbrev as_component : ItemCommon → Content → Reading Item
as_component c (component_content t) = read (component (record { common = c; content = t }))
as_component c _ = crashed

abbrev as_other : ItemCommon → Content → Reading Item
as_other c other_content = read (other c)
as_other c _ = crashed

module _ (times : Times) (json : ContentJson) (di : DecryptedItem) where
  abbrev common_of : Option ItemCommon
  common_of = populate_item_common times di

  abbrev content_of : Option Content
  content_of = process_content_model json di.content_type di.content

  unfoldable pub parse_note : Reading Item
  unfolding with_content
  parse_note =
      with_content common_of di.deleted content_of
        (λ c. note (record { common = c; content = empty_note_content })) as_note

  unfoldable pub parse_tag : Reading Item
  unfolding with_content
  parse_tag =
      with_content common_of di.deleted content_of
        (λ c. tag (record { common = c; content = empty_tag_content })) as_tag

  unfoldable pub parse_component : Reading Item
  unfolding with_content
  parse_component =
      with_content common_of di.deleted content_of
        (λ c. component (record { common = c; content = empty_component_content })) as_component

  -- parseTheme, parsePrivileges and so on, which differ in the type of the content alone.
  unfoldable pub parse_other : Reading Item
  unfolding with_content
  parse_other = with_content common_of di.deleted content_of other as_other
