-- ===== src/Sync/Resolve.antt =====
-- The resolution of conflicts in items/sync.go: processSyncConflict, processUUIDConflict, processConflict,
-- processConflicts, updateEncryptedItemRefs and processSyncOutput. Decryption with parsing, and encryption, of
-- an item are an interface; new UUIDs are numbered. A Go map is a list with the latest entry in front.
pub mod References
pub mod Output
mod Examples
use gosn_v.Prelude.{
  ℕ, suc, String, Bool, true, false, not, ◌&&◌, ◌||◌, Option, none, some, List, [], ◌∷◌, ◌++◌, ◌⊎◌,
  inl, inr, map, any, ltb, ◌==◌, if◌then◌else◌,
}
use gosn_v.Items.ContentType
use gosn_v.Items.Types.{EncryptedItem, ItemReference, ItemReferences}
use gosn_v.Sync.Types.{ConflictedItem}

-- An item as it is after decryption: its UUID, its references and all else of it.
pub record ParsedItem (Rest : Type 0) : Type 0 where
  pub uuid : String
  pub references : ItemReferences
  pub rest : Rest

-- DecryptAndParseItem of a session, and Encrypt of one item with its default key; none for an error.
pub record ItemCodec (Rest : Type 0) : Type 0 where
  pub decrypt_and_parse : EncryptedItem → Option (ParsedItem Rest)
  pub encrypt : ParsedItem Rest → Option EncryptedItem

-- refReMap, and the number of UUIDs generated so far.
pub record Renamed : Type 0 where
  pub ref_re_map : List (String × String)
  pub generated : ℕ

pub data ResolveError : Type 0 where
  not_found : (uuid content_type : String) → ResolveError
  undecryptable unencryptable : ResolveError
  unhandled_conflict_type : String → ResolveError
  not_default_key : String → ResolveError
  invalid_items : (content_type uuid : String) → ResolveError

-- The first item with a UUID, as the loops look for it.
unfoldable pub find_item : String → List EncryptedItem → Option EncryptedItem
find_item uuid [] = none
find_item uuid (item ∷ items) =
    let rest = find_item uuid items in if item.uuid == uuid then some item else rest

unfoldable pub lookup : String → List (String × String) → Option String
lookup uuid [] = none
lookup uuid ((old, new) ∷ renamed) =
    let rest = lookup uuid renamed in if old == uuid then some new else rest

abbrev pub rename : List (String × String) → ItemReference → ItemReference
rename ref_map r = elim (lookup r.uuid ref_map) [ none ↦ r | some new ↦ record r { uuid = new } ]

abbrev pub is_renamed : List (String × String) → ItemReference → Bool
is_renamed ref_map r = elim (lookup r.uuid ref_map) [ none ↦ false | some new ↦ true ]

abbrev pub Resolution : Type 0
Resolution = (EncryptedItem ⊎ ResolveError) × Renamed

-- An item under a new UUID. It has no DuplicateOf: that is set on the list that Encrypt returned after
-- the item was copied out of it.
unfoldable pub duplicate :
    {Rest : Type 0} → ItemCodec Rest → (ℕ → String) → EncryptedItem → Renamed → Resolution
duplicate codec gen_uuid item renamed = elim (codec.decrypt_and_parse item) [
  | none ↦ (inr undecryptable, renamed)
  | some di ↦
      let new_uuid = gen_uuid renamed.generated in
      (
        elim (codec.encrypt (record di { uuid = new_uuid })) [
          | none ↦ inr unencryptable
          | some newi ↦ inl newi
        ],
        record {
          ref_re_map = (di.uuid, new_uuid) ∷ renamed.ref_re_map;
          generated = suc renamed.generated;
        },
      )
]

-- The item with the UUID of `instead`, under a new one; `instead` as a deleted item, if it is deleted.
unfoldable pub duplicate_found :
    {Rest : Type 0}
    → ItemCodec Rest
    → (ℕ → String)
    → (instead : EncryptedItem) → Option EncryptedItem
    → Renamed
    → Resolution
unfolding duplicate
duplicate_found codec gen_uuid instead none renamed =
    (inr (not_found instead.uuid instead.content_type), renamed)
duplicate_found codec gen_uuid instead (some item) renamed =
    if item.deleted
    then (inl (record instead { deleted = true; content = "" }), renamed)
    else duplicate codec gen_uuid item renamed

abbrev pub kept_local : EncryptedItem → Option EncryptedItem → EncryptedItem ⊎ ResolveError
kept_local server_item none = inr (not_found server_item.uuid server_item.content_type)
kept_local server_item (some item) =
    inl (record item { updated_at_timestamp = server_item.updated_at_timestamp })

module _ {Rest : Type 0} (codec : ItemCodec Rest) (gen_uuid : ℕ → String) where
  unfoldable pub process_sync_conflict : List EncryptedItem → ConflictedItem → Renamed → Resolution
  unfolding find_item duplicate_found
  process_sync_conflict items conflict renamed =
      let server = conflict.server_item in
      let unsaved = conflict.unsaved_item in
      let found = find_item server.uuid items in
      if server.content_type == ContentType.items_key
      then (inl server, renamed)
      else if server.deleted
      then (kept_local server found, renamed)
      else if ltb server.updated_at_timestamp unsaved.updated_at_timestamp
      then (inl (record unsaved { updated_at_timestamp = server.updated_at_timestamp }), renamed)
      else duplicate_found codec gen_uuid server found renamed

  unfoldable pub process_uuid_conflict : List EncryptedItem → ConflictedItem → Renamed → Resolution
  unfolding find_item duplicate_found
  process_uuid_conflict items conflict renamed =
      let unsaved = conflict.unsaved_item in
      duplicate_found codec gen_uuid unsaved (find_item unsaved.uuid items) renamed

  -- An item without a UUID is not sent again.
  abbrev pub to_sync : Resolution → (List EncryptedItem ⊎ ResolveError) × Renamed
  to_sync (inr e, renamed) = (inr e, renamed)
  to_sync (inl item, renamed) = (inl (if not (item.uuid == "") then item ∷ [] else []), renamed)

  unfoldable pub process_conflict :
      List EncryptedItem → ConflictedItem → Renamed → (List EncryptedItem ⊎ ResolveError) × Renamed
  unfolding process_sync_conflict process_uuid_conflict
  process_conflict items conflict renamed =
      let server = conflict.server_item in
      if conflict.type == "sync_conflict"
      then to_sync (process_sync_conflict items conflict renamed)
      else if conflict.type == "uuid_conflict"
      then to_sync (process_uuid_conflict items conflict renamed)
      else if (conflict.type == "content_type_error") || (conflict.type == "content_error")
      then to_sync (inl server, renamed)
      else if conflict.type == "readonly_error"
      then to_sync (inl server, renamed)
      else if (conflict.type == "uuid_error") || (conflict.type == "invalid_server_item")
      then (inl [], renamed)
      else (inr (unhandled_conflict_type conflict.type), renamed)

module _ {Rest : Type 0} (codec : ItemCodec Rest) (default_key : String) where
  -- One item of updateEncryptedItemRefs.
  unfoldable pub update_refs_of :
      List (String × String) → EncryptedItem → EncryptedItem ⊎ ResolveError
  unfolding lookup
  update_refs_of ref_map ei =
      let updated : EncryptedItem ⊎ ResolveError = elim (codec.decrypt_and_parse ei) [
        | none ↦ inr undecryptable
        | some di ↦
            let encrypted : EncryptedItem ⊎ ResolveError =
              elim (codec.encrypt (record di { references = map (rename ref_map) di.references })) [
                | none ↦ inr unencryptable
                | some e ↦ inl e
              ] in
            if not (any (is_renamed ref_map) di.references) then inl ei else encrypted
      ] in
      if ei.deleted || (ei.content_type == ContentType.items_key)
      then inl ei
      else if not (ei.items_key_id == default_key)
      then inr (not_default_key ei.uuid)
      else updated

  abbrev add_item :
      EncryptedItem ⊎ ResolveError
      → List EncryptedItem ⊎ ResolveError
      → List EncryptedItem ⊎ ResolveError
  add_item (inr e) rest = inr e
  add_item (inl i) (inl is) = inl (i ∷ is)
  add_item (inl i) (inr e) = inr e

  unfoldable pub update_encrypted_item_refs :
      List (String × String) → List EncryptedItem → List EncryptedItem ⊎ ResolveError
  unfolding update_refs_of
  update_encrypted_item_refs ref_map [] = inl []
  update_encrypted_item_refs ref_map (ei ∷ items) =
      add_item (update_refs_of ref_map ei) (update_encrypted_item_refs ref_map items)

module _ {Rest : Type 0} (codec : ItemCodec Rest) (gen_uuid : ℕ → String)
    (default_key : String) where
  -- The loop of processConflicts, with the items to send so far, and the remapping at its end.
  unfoldable pub conflicts_loop :
      List EncryptedItem
      → List EncryptedItem
      → List ConflictedItem
      → Renamed
      → List EncryptedItem ⊎ ResolveError
  unfolding process_conflict update_encrypted_item_refs
  conflicts_loop items conflicts_to_sync [] renamed =
      update_encrypted_item_refs codec default_key renamed.ref_re_map conflicts_to_sync
  conflicts_loop items conflicts_to_sync (conflict ∷ conflicts) renamed =
      let (resolved, renamed) = process_conflict codec gen_uuid items conflict renamed in
      elim resolved [
        | inr e ↦ inr e
        | inl is ↦ conflicts_loop items (conflicts_to_sync ++ is) conflicts renamed
      ]

  unfoldable pub process_conflicts :
      List EncryptedItem → List ConflictedItem → (generated : ℕ) → List EncryptedItem ⊎ ResolveError
  unfolding conflicts_loop
  process_conflicts items conflicts generated =
      conflicts_loop items [] conflicts (record { ref_re_map = []; generated = generated })
