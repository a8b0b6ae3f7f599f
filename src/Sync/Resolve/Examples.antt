-- ===== src/Sync/Resolve/Examples.antt =====
-- The resolution of conflicts of items whose content is written in the open.
use Prim.Native.String.{◌++◌ as concat}
use mathlib.Core.List.Perm
use gosn_v.Prelude.{ℕ, ◌+◌, ◌≡◌, refl, String, false, Option, none, some, List, [], ◌∷◌, inl}
use gosn_v.Crypto.{split_colons}
use gosn_v.Items.ContentType
use gosn_v.Items.Types.{EncryptedItem, ItemReference, ItemReferences}
use gosn_v.Items.Encryption.Libraries.{escape, unescape}
use gosn_v.Items.Encrypted.{validate, dedupe}
use gosn_v.Sync.Types.{ConflictedItem, SyncOutput}
use gosn_v.Sync.Resolve.{ParsedItem, ItemCodec}
use gosn_v.Sync.Resolve.Output.{no_output}
use gosn_v.Sync.Whole.{Parts, sync}
use gosn_v.Sync.Whole.Lost.{sync_loses}
use gosn_v.Session.Examples.{a_session}

abbrev part : String → String → String
part s rest = concat (escape s) (concat ":" rest)

abbrev written : ItemReferences → String → String
written [] text = escape text
written (r ∷ rs) text = part r.uuid (part r.content_type (part r.reference_type (written rs text)))

abbrev add_reference :
    ItemReference → Option (ItemReferences × String) → Option (ItemReferences × String)
add_reference r none = none
add_reference r (some (rs, text)) = some (r ∷ rs, text)

abbrev read : List String → Option (ItemReferences × String)
read [] = none
read (text ∷ []) = some ([], unescape false text)
read (a ∷ b ∷ []) = none
read (a ∷ b ∷ c ∷ parts) =
    add_reference
      (record {
        uuid = unescape false a;
        content_type = unescape false b;
        reference_type = unescape false c;
      })
      (read parts)

abbrev in_the_open : EncryptedItem
in_the_open = record {
  uuid = "";
  items_key_id = "k1";
  content = "";
  content_type = ContentType.note;
  enc_item_key = "";
  created_at = "";
  updated_at = "";
  duplicate_of = none;
  auth_hash = none;
  updated_with_session = none;
  key_system_identifier = none;
  shared_vault_uuid = none;
  user_uuid = none;
  last_edited_by_uuid = none;
  created_at_timestamp = 0;
  updated_at_timestamp = 0;
  deleted = false;
}

abbrev parsed : String → Option (ItemReferences × String) → Option (ParsedItem String)
parsed uuid none = none
parsed uuid (some (rs, text)) = some (record { uuid = uuid; references = rs; rest = text })

abbrev open_codec : ItemCodec String
open_codec = record {
  decrypt_and_parse = λ e. parsed e.uuid (read (split_colons e.content));
  encrypt =
      λ di. some (record in_the_open { uuid = di.uuid; content = written di.references di.rest });
}

abbrev a_reference : String → ItemReference
a_reference uuid = record { uuid = uuid; content_type = ContentType.note; reference_type = "" }

-- A tag on a note that has a new UUID.
abbrev a_tag : (to : String) → EncryptedItem
a_tag to = record in_the_open { uuid = "t1"; content = written (a_reference to ∷ []) "a: tag" }

abbrev a_skipped_conflict : ConflictedItem
a_skipped_conflict = record {
  server_item = a_tag "n1";
  unsaved_item = a_tag "n1";
  type = "uuid_error";
}

abbrev an_answer : SyncOutput
an_answer = record {
  items = [];
  saved_items = a_tag "n1" ∷ [];
  unsaved = [];
  conflicts = a_skipped_conflict ∷ [];
  sync_token = "t";
  cursor = "";
}

abbrev gen_uuid : ℕ → String
gen_uuid n = "u"

abbrev answering : Parts String ℕ
answering = record {
  codec = λ s. open_codec;
  decrypt_and_parse_items_keys = λ master_key items. some [];
  sync_items = λ s items world. (inl an_answer, world + 1);
  gen_uuid = gen_uuid;
  order = record { values = λ l. l; values-perm = λ l. Perm.refl l };
}

sync_loses_example :
    (sync answering a_session (a_tag "n1" ∷ []) 0 0).result
    ≡ inl (record no_output { items = dedupe answering.order [] })
unfolding validate
sync_loses_example =
    sync_loses answering a_session (a_tag "n1" ∷ []) 0 0 1 an_answer a_skipped_conflict [] refl refl
      refl refl
