-- ===== src/Items/Types.antt =====
-- The data of items/item.go, items/items.go, items/note.go, items/tag.go, items/component.go and
-- session/session.go. A Go pointer to a value is an Option; a timestamp is a number of microseconds
-- after 1970. Fields of type interface{}, which hold whatever the JSON holds, are left out, but for
-- Active of a component, which is read: it is `some` if it holds a Boolean.
use gosn_v.Prelude.{ℕ, String, Bool, Option, List}

pub record ItemReference : Type 0 where
  pub uuid : String
  pub content_type : String
  pub reference_type : String

abbrev pub ItemReferences : Type 0
ItemReferences = List ItemReference

pub record ItemCommon : Type 0 where
  pub uuid : String
  pub items_key_id : String
  pub encrypted_item_key : String
  pub content_type : String
  pub duplicate_of : String
  pub created_at : String
  pub updated_at : String
  pub auth_hash : Option String
  pub updated_with_session : Option String
  pub key_system_identifier : Option String
  pub shared_vault_uuid : Option String
  pub user_uuid : Option String
  pub last_edited_by_uuid : Option String
  pub conflict_of : Option String
  pub created_at_timestamp : ℕ
  pub updated_at_timestamp : ℕ
  pub content_size : ℕ
  pub deleted : Bool
  pub protected : Bool
  pub trashed : Bool
  pub pinned : Bool
  pub archived : Bool
  pub starred : Bool
  pub locked : Bool

-- OrgStandardNotesSNDetail, the part of the app data that has a fixed shape.
pub record AppDataContent : Type 0 where
  pub client_updated_at : String
  pub prefers_plain_editor : Bool
  pub pinned : Bool

pub record NoteContent : Type 0 where
  pub title : String
  pub text : String
  pub item_references : ItemReferences
  pub app_data : AppDataContent
  pub preview_plain : String
  pub spellcheck : Bool
  pub preview_html : String
  pub note_type : String
  pub editor_identifier : String
  pub trashed : Option Bool
  pub hide_preview : Bool
  pub editor_width : String
  pub authorized_for_listed : Bool

pub record TagContent : Type 0 where
  pub title : String
  pub item_references : ItemReferences
  pub app_data : AppDataContent
  pub icon_string : String
  pub expanded : Bool
  pub parent_id : String

pub record ComponentContent : Type 0 where
  pub identifier : String
  pub legacy_url : String
  pub hosted_url : String
  pub local_url : String
  pub url : String
  pub valid_until : String
  pub offline_only : Bool
  pub name : String
  pub area : String
  pub active : Option Bool
  pub auto_update_disabled : Bool
  pub dissociated_item_ids : List String
  pub associated_item_ids : List String
  pub item_references : ItemReferences
  pub app_data : AppDataContent
  pub is_deprecated : Bool

pub record Note : Type 0 where
  pub common : ItemCommon
  pub open common use *
  pub content : NoteContent

pub record Tag : Type 0 where
  pub common : ItemCommon
  pub open common use *
  pub content : TagContent

pub record Component : Type 0 where
  pub common : ItemCommon
  pub open common use *
  pub content : ComponentContent

-- The dynamic types of the interface Item that the code tells apart; the others show their common
-- fields alone.
pub data Item : Type 0 where
  note : Note → Item
  tag : Tag → Item
  component : Component → Item
  other : ItemCommon → Item

abbrev pub common : Item → ItemCommon
common (note n) = n.common
common (tag t) = t.common
common (component c) = c.common
common (other o) = o

pub record EncryptedItem : Type 0 where
  pub uuid : String
  pub items_key_id : String
  pub content : String
  pub content_type : String
  pub enc_item_key : String
  pub created_at : String
  pub updated_at : String
  pub duplicate_of : Option String
  pub auth_hash : Option String
  pub updated_with_session : Option String
  pub key_system_identifier : Option String
  pub shared_vault_uuid : Option String
  pub user_uuid : Option String
  pub last_edited_by_uuid : Option String
  pub created_at_timestamp : ℕ
  pub updated_at_timestamp : ℕ
  pub deleted : Bool

pub record DecryptedItem : Type 0 where
  pub uuid : String
  pub items_key_id : String
  pub content : String
  pub content_type : String
  pub duplicate_of : String
  pub deleted : Bool
  pub created_at : String
  pub updated_at : String
  pub created_at_timestamp : ℕ
  pub updated_at_timestamp : ℕ
  pub auth_hash : Option String
  pub updated_with_session : Option String
  pub key_system_identifier : Option String
  pub shared_vault_uuid : Option String
  pub user_uuid : Option String
  pub last_edited_by_uuid : Option String

pub record ItemsKey : Type 0 where
  pub uuid : String
  pub content_type : String
  pub created_at : String
  pub updated_at : String
  pub created_at_timestamp : ℕ
  pub updated_at_timestamp : ℕ
  pub items_key : String
  pub version : String
  pub default : Bool
  pub deleted : Bool

pub record SessionItemsKey : Type 0 where
  pub uuid : String
  pub items_key : String
  pub version : String
  pub default : Bool
  pub created_at : String
  pub updated_at : String
  pub created_at_timestamp : ℕ
  pub updated_at_timestamp : ℕ
  pub deleted : Bool
