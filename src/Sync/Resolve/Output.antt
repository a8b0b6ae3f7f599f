-- ===== src/Sync/Resolve/Output.antt =====
-- processSyncOutput of items/sync.go.
use gosn_v.Prelude.{
  ℕ, ◌≡◌, refl, ap, String, Bool, true, ◌||◌, none, some, List, [], ◌∷◌, ◌⊎◌, inl, inr, all, ◌==◌,
  arith, eq_iff, Bool-cases,
}
use gosn_v.Items.Types.{EncryptedItem}
use gosn_v.Items.Encrypted.{validate}
use gosn_v.Sync.Types.{ConflictedItem, SyncOutput}
use gosn_v.Sync.Resolve.{
  ItemCodec, Renamed, ResolveError, invalid_items, process_conflict, conflicts_loop,
  process_conflicts, update_encrypted_item_refs,
}

-- The zero value.
abbrev pub no_output : SyncOutput
no_output = record {
  items = [];
  saved_items = [];
  unsaved = [];
  conflicts = [];
  sync_token = "";
  cursor = "";
}

-- What is to be sent again and the output. The last `return` returns the zero value of the output.
abbrev pub resolved :
    SyncOutput
    → List EncryptedItem ⊎ ResolveError
    → (List EncryptedItem × SyncOutput) ⊎ ResolveError
resolved out (inr e) = inr e
resolved out (inl []) = inl ([], no_output)
resolved out (inl (i ∷ is)) = inl (i ∷ is, out)

abbrev pub unless_none :
    List ConflictedItem
    → SyncOutput
    → (List EncryptedItem × SyncOutput) ⊎ ResolveError
    → (List EncryptedItem × SyncOutput) ⊎ ResolveError
unless_none [] out rest = inl ([], out)
unless_none (c ∷ cs) out rest = rest

unfoldable pub process_sync_output :
    {Rest : Type 0}
    → ItemCodec Rest
    → (ℕ → String)
    → (default_key : String) → (input_items : List EncryptedItem) → (generated : ℕ) → SyncOutput
    → (List EncryptedItem × SyncOutput) ⊎ ResolveError
unfolding process_conflicts
process_sync_output codec gen_uuid default_key input_items generated out =
    elim (validate out.items) [
      | some (content_type, uuid) ↦ inr (invalid_items content_type uuid)
      | none ↦ unless_none out.conflicts out (
          resolved out
            (process_conflicts codec gen_uuid default_key input_items out.conflicts generated))
    ]

-- A conflict of a type that processConflict skips.
abbrev pub is_skipped : ConflictedItem → Bool
is_skipped c = (c.type == "uuid_error") || (c.type == "invalid_server_item")

module _ {Rest : Type 0} (codec : ItemCodec Rest) (gen_uuid : ℕ → String) (default_key : String)
    (input_items : List EncryptedItem) where
  process_conflict_skips :
      (c : ConflictedItem) (renamed : Renamed)
      → is_skipped c ≡ true
      → process_conflict codec gen_uuid input_items c renamed ≡ (inl [], renamed)
  unfolding process_conflict
  process_conflict_skips c renamed h = elim (Bool-cases (c.type == "uuid_error")) [
    | inl e ↦ simp ((eq_iff c.type "uuid_error").0 e) refl
    | inr e ↦
        let other : (c.type == "invalid_server_item") ≡ true = ground (arith, h, e) in
        simp ((eq_iff c.type "invalid_server_item").0 other) refl
  ]

  conflicts_loop_skips :
      (cs : List ConflictedItem) (renamed : Renamed)
      → all is_skipped cs ≡ true
      → conflicts_loop codec gen_uuid default_key input_items [] cs renamed ≡ inl []
  unfolding conflicts_loop update_encrypted_item_refs
  conflicts_loop_skips [] renamed h = refl
  conflicts_loop_skips (c ∷ cs) renamed h =
      let skipped = process_conflict_skips c renamed (ground (arith, h)) in
      let kept = ap (λ r. r.1) skipped in
      rw (conflicts_loop, skipped, kept) (conflicts_loop_skips cs renamed (ground (arith, h)))

  -- Where the answer has conflicts, all of them of types that are skipped, processSyncOutput returns no error
  -- and an empty output: the items, the saved items and the sync token of the answer are lost.
  pub process_sync_output_loses :
      (generated : ℕ) (out : SyncOutput) (c : ConflictedItem) (cs : List ConflictedItem)
      → validate out.items ≡ none
      → out.conflicts ≡ c ∷ cs
      → all is_skipped (c ∷ cs) ≡ true
      → process_sync_output codec gen_uuid default_key input_items generated out
        ≡ inl ([], no_output)
  unfolding process_sync_output process_conflicts
  process_sync_output_loses generated out c cs h k l =
      rw (process_sync_output, h, k)
        (rw
          (
            process_conflicts,
            conflicts_loop_skips (c ∷ cs) (record { ref_re_map = []; generated = generated }) l,
          )
          refl)
