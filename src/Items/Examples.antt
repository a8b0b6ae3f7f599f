-- ===== src/Items/Examples.antt =====
-- Runs of the operations on items at small inputs.
use mathlib.Core.List.Perm
use mathlib.Core.List.{Mem, Pairwise}
use gosn_v.Prelude.{ℕ, ◌≡◌, ◌≢◌, ◌↔◌, String, true, false, none, some, List, [], ◌∷◌, map}
use gosn_v.Items.Types.{ItemReference, ItemCommon, Item, tag, other, EncryptedItem}
use gosn_v.Items.Encrypted.{MapOrder, dedupe}
use gosn_v.Items.Encrypted.Dedupe.{newest, mem-dedupe}
use gosn_v.Items.References.{
  has_reference, upsert_references, has_reference-upsert_references, references, update_item_refs,
  references-update_item_refs,
}

abbrev an_encrypted_item : String → ℕ → EncryptedItem
an_encrypted_item uuid updated_at_timestamp = record {
  uuid = uuid;
  items_key_id = "k1";
  content = "004:…";
  content_type = "Note";
  enc_item_key = "004:…";
  created_at = "";
  updated_at = "";
  duplicate_of = none;
  auth_hash = none;
  updated_with_session = none;
  key_system_identifier = none;
  shared_vault_uuid = none;
  user_uuid = none;
  last_edited_by_uuid = none;
  created_at_timestamp = 1;
  updated_at_timestamp = updated_at_timestamp;
  deleted = false;
}

-- The order in which the map was filled.
abbrev in_order : MapOrder
in_order = record { values = λ l. l; values-perm = λ l. Perm.refl l }

abbrev versions : List EncryptedItem
versions =
    an_encrypted_item "n1" 1
    ∷ an_encrypted_item "n2" 4
    ∷ an_encrypted_item "n1" 3
    ∷ an_encrypted_item "n2" 2
    ∷ []

mem-dedupe_example :
    Pairwise (λ a b. a.uuid ≢ b.uuid) (dedupe in_order versions)
    × (Mem (an_encrypted_item "n1" 3) (dedupe in_order versions)
        ↔ (newest "n1" none versions ≡ some (an_encrypted_item "n1" 3)))
mem-dedupe_example = mem-dedupe in_order versions (an_encrypted_item "n1" 3)

abbrev to : String → ItemReference
to uuid = record { uuid = uuid; content_type = "Note"; reference_type = "" }

has_reference-upsert_references_example :
    has_reference "n2" (upsert_references (to "n1" ∷ []) (to "n2" ∷ to "n1" ∷ [])) ≡ true
has_reference-upsert_references_example =
    has_reference-upsert_references "n2" (to "n1" ∷ []) (to "n2" ∷ to "n1" ∷ [])

abbrev common_of : (uuid content_type : String) → ItemCommon
common_of uuid content_type = record {
  uuid = uuid;
  items_key_id = "k1";
  encrypted_item_key = "";
  content_type = content_type;
  duplicate_of = "";
  created_at = "";
  updated_at = "";
  auth_hash = none;
  updated_with_session = none;
  key_system_identifier = none;
  shared_vault_uuid = none;
  user_uuid = none;
  last_edited_by_uuid = none;
  conflict_of = none;
  created_at_timestamp = 1;
  updated_at_timestamp = 1;
  content_size = 0;
  deleted = false;
  protected = false;
  trashed = false;
  pinned = false;
  archived = false;
  starred = false;
  locked = false;
}

abbrev a_tag : Item
a_tag = tag (record {
  common = common_of "t1" "Tag";
  content = record {
    title = "books";
    item_references = to "n1" ∷ [];
    app_data = record { client_updated_at = ""; prefers_plain_editor = false; pinned = false };
    icon_string = "";
    expanded = false;
    parent_id = "";
  };
})

references-update_item_refs_example :
    map references (
      update_item_refs
        (a_tag ∷ other (common_of "x1" "SN|Theme") ∷ [])
        (other (common_of "n2" "Note") ∷ other (common_of "n1" "Note") ∷ []))
    ≡ (to "n1" ∷ to "n2" ∷ []) ∷ [] ∷ []
references-update_item_refs_example =
    references-update_item_refs (a_tag ∷ other (common_of "x1" "SN|Theme") ∷ [])
      (other (common_of "n2" "Note") ∷ other (common_of "n1" "Note") ∷ [])
