-- ===== src/Sync/Whole/Lost.antt =====
-- What Sync returns where the server answers with conflicts of the types that are skipped only.
use gosn_v.Prelude.{ℕ, ◌≡◌, ap, ◌∙◌, true, none, List, [], ◌∷◌, inl, all}
use gosn_v.Items.Types.{EncryptedItem}
use gosn_v.Items.Encrypted.{validate, dedupe}
use gosn_v.Session.Types.{Session}
use gosn_v.Sync.Types.{ConflictedItem, SyncOutput}
use gosn_v.Sync.Guard.{filtered_items}
use gosn_v.Sync.Resolve.Output.{process_sync_output_loses, no_output, is_skipped}
use gosn_v.Sync.Whole.{
  Parts, process_session_items_keys_in_saved_items, after_resolution, after_exchange, sync,
}

module _ {Rest World : Type 0} (parts : Parts Rest World) where
  -- Where the answer of the server has valid items and conflicts, all of them of types that are skipped,
  -- Sync returns no error, but neither the saved items nor the sync token of the answer, nor its items:
  -- its output is that of an answer with nothing.
  pub sync_loses :
      (s : Session) (input_items : List EncryptedItem) (generated : ℕ) (world next : World)
      (out : SyncOutput) (c : ConflictedItem) (cs : List ConflictedItem)
      → parts.sync_items s (filtered_items input_items) world ≡ (inl out, next)
      → validate out.items ≡ none
      → out.conflicts ≡ c ∷ cs
      → all is_skipped (c ∷ cs) ≡ true
      → (sync parts s input_items generated world).result
        ≡ inl (record no_output { items = dedupe parts.order [] })
  unfolding sync after_exchange after_resolution
  sync_loses s input_items generated world next out c cs h valid some_conflicts skipped =
      let s' = process_session_items_keys_in_saved_items parts s out in
      let lost =
        process_sync_output_loses (parts.codec s') parts.gen_uuid s'.default_items_key.uuid
          (filtered_items input_items) generated out c cs valid some_conflicts skipped in
      ap (λ e. (after_exchange parts s (filtered_items input_items) generated e).result) h
      ∙ ap (λ r. (after_resolution parts s' next (filtered_items input_items) r).result) lost
