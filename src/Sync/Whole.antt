-- ===== src/Sync/Whole.antt =====
-- Sync of items/sync.go as a whole, and processSessionItemsKeysInSavedItems: the guard, the exchange with the
-- server, the resolution of conflicts and the second exchange.
pub mod Lost
use gosn_v.Prelude.{ℕ, String, Option, none, some, List, [], ◌∷◌, ◌++◌, ◌⊎◌, inl, inr}
use gosn_v.Items.Types.{EncryptedItem, SessionItemsKey}
use gosn_v.Items.Encrypted.{MapOrder, dedupe}
use gosn_v.Session.Types.{Session}
use gosn_v.Sync.Types.{ConflictedItem, SyncOutput}
use gosn_v.Sync.Guard.{filtered_items}
use gosn_v.Sync.Saved.{update_timestamps_on_saved_items}
use gosn_v.Sync.DefaultKey.{default_items_key}
use gosn_v.Sync.Resolve.{ItemCodec, ResolveError}
use gosn_v.Sync.Resolve.Output.{process_sync_output}

-- What Sync uses of the parts that it calls: the codec of a session, the reader of its items keys (none for
-- an error), syncItems, which changes the world, the new UUIDs and the order of a Go map.
pub record Parts (Rest World : Type 0) : Type 0 where
  pub codec : Session → ItemCodec Rest
  pub decrypt_and_parse_items_keys :
      (master_key : String) → List EncryptedItem → Option (List SessionItemsKey)
  pub sync_items : Session → List EncryptedItem → World → (SyncOutput ⊎ String) × World
  pub gen_uuid : ℕ → String
  pub order : MapOrder

pub data SyncFault : Type 0 where
  exchange_failed : String → SyncFault
  not_resolved : ResolveError → SyncFault
  unexpected_conflicts : List ConflictedItem → SyncFault

pub record Whole (World : Type 0) : Type 0 where
  pub result : SyncOutput ⊎ SyncFault
  pub session : Session
  pub world : World

abbrev pub or_items : (saved items : List EncryptedItem) → List EncryptedItem
or_items [] items = items
or_items (i ∷ is) items = i ∷ is

abbrev pub with_keys : Session → List SessionItemsKey → Option SessionItemsKey → Session
with_keys s iks none = s
with_keys s iks (some default) = record s { default_items_key = default; items_keys = iks }

module _ {Rest World : Type 0} (parts : Parts Rest World) where
  unfoldable pub process_session_items_keys_in_saved_items : Session → SyncOutput → Session
  unfolding default_items_key
  process_session_items_keys_in_saved_items s out =
      elim (parts.decrypt_and_parse_items_keys s.master_key (or_items out.saved_items out.items)) [
        | none ↦ s
        | some iks ↦ with_keys s iks (default_items_key iks)
      ]

  -- The end of Sync, with or without a second exchange.
  abbrev pub finish : Session → World → SyncOutput → Whole World
  finish s world processed = record {
    result = inl (record processed {
      items = dedupe parts.order (processed.items ++ processed.saved_items);
    });
    session = process_session_items_keys_in_saved_items s processed;
    world = world;
  }

  abbrev pub fail : Session → World → SyncFault → Whole World
  fail s world e = record { result = inr e; session = s; world = world }

  abbrev pub unless_empty : List EncryptedItem → List EncryptedItem → List EncryptedItem
  unless_empty [] updated = []
  unless_empty (i ∷ is) updated = updated

  -- The output of both exchanges, the second of which had no conflicts.
  abbrev pub joined : (cloned : List EncryptedItem) → (processed resync : SyncOutput) → SyncOutput
  joined cloned processed resync =
      let saved = dedupe parts.order (processed.saved_items ++ resync.saved_items) in
      record processed {
        conflicts = [];
        items = dedupe parts.order (processed.items ++ resync.items);
        saved_items = unless_empty saved (update_timestamps_on_saved_items cloned saved);
      }

  unfoldable pub after_resync :
      Session
      → (cloned : List EncryptedItem) → SyncOutput
      → (SyncOutput ⊎ String) × World
      → Whole World
  after_resync s cloned processed (inr e, world) = fail s world (exchange_failed e)
  after_resync s cloned processed (inl resync, world) = elim resync.conflicts [
    | [] ↦ finish s world (joined cloned processed resync)
    | c ∷ cs ↦ fail s world (unexpected_conflicts (c ∷ cs))
  ]

  unfoldable pub after_resolution :
      Session
      → World
      → (cloned : List EncryptedItem) → (List EncryptedItem × SyncOutput) ⊎ ResolveError
      → Whole World
  unfolding after_resync
  after_resolution s world cloned (inr e) = fail s world (not_resolved e)
  after_resolution s world cloned (inl ([], processed)) = finish s world processed
  after_resolution s world cloned (inl (i ∷ is, processed)) =
      after_resync s cloned processed (parts.sync_items s (i ∷ is) world)

  unfoldable pub after_exchange :
      Session
      → (items : List EncryptedItem) → (generated : ℕ) → (SyncOutput ⊎ String) × World
      → Whole World
  unfolding after_resolution process_sync_output
  after_exchange s items generated (inr e, world) = fail s world (exchange_failed e)
  after_exchange s items generated (inl out, world) =
      let s = process_session_items_keys_in_saved_items s out in
      after_resolution s world items (
        process_sync_output (parts.codec s) parts.gen_uuid s.default_items_key.uuid items generated
          out)

  unfoldable pub sync : Session → List EncryptedItem → (generated : ℕ) → World → Whole World
  unfolding after_exchange filtered_items
  sync s input_items generated world =
      let items = filtered_items input_items in
      after_exchange s items generated (parts.sync_items s items world)
