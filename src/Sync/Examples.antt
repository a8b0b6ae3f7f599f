-- ===== src/Sync/Examples.antt =====
-- Runs of the synchronisation at small inputs.
use gosn_v.Prelude.{ℕ, ◌≤◌, ◌≡◌, refl, String, Bool, true, false, none, some, List, [], ◌∷◌, arith}
use gosn_v.Items.ContentType
use gosn_v.Items.Types.{EncryptedItem, SessionItemsKey}
use gosn_v.Items.Encrypted.Dedupe.{at}
use gosn_v.Sync.Types.{ConflictedItem, SyncInput, Server, answered}
use gosn_v.Sync.Batch.{
  calculate_optimal_batch_size, calculate_optimal_batch_size_bounds, min_page_size, max_page_size,
}
use gosn_v.Sync.Paging.{nothing, keyed_items_key, sync_items_via_api}
use gosn_v.Sync.Paging.Uploads.{
  IsCalm, put_items, put_items-sync_items_via_api, sync_items_via_api-one,
}
use gosn_v.Sync.Paging.Downloads.{IsGathered, sync_items_via_api-IsGathered}
use gosn_v.Sync.Saved.{update_timestamps_on_saved_items, update_timestamps_on_saved_items_lem}
use gosn_v.Sync.DefaultKey.{default_items_key, default_items_key_lem, IsDefaultOf}

abbrev an_item :
    (uuid content_type : String) (updated_at_timestamp : ℕ) (deleted : Bool) → EncryptedItem
an_item uuid content_type updated_at_timestamp deleted = record {
  uuid = uuid;
  items_key_id = "k1";
  content = "004:…";
  content_type = content_type;
  enc_item_key = "004:…";
  created_at = "2024-01-01T00:00:00.000000Z";
  updated_at = "2024-01-01T00:00:00.000000Z";
  duplicate_of = none;
  auth_hash = none;
  updated_with_session = none;
  key_system_identifier = none;
  shared_vault_uuid = none;
  user_uuid = none;
  last_edited_by_uuid = none;
  created_at_timestamp = 1;
  updated_at_timestamp = updated_at_timestamp;
  deleted = deleted;
}

abbrev three_notes : List EncryptedItem
three_notes =
    an_item "n1" "Note" 1 false ∷ an_item "n2" "Note" 2 false ∷ an_item "n3" "Note" 3 false ∷ []

abbrev in_pages_of : ℕ → SyncInput
in_pages_of page_size = record {
  sync_token = "";
  cursor_token = "";
  items = three_notes;
  next_item = 0;
  page_size = page_size;
}

-- A server that saves what it is sent.
abbrev saving_server : Server
saving_server h b = answered 200 (some (record nothing { saved_items = b.items; sync_token = "t" }))

saving_server-IsCalm : IsCalm saving_server
saving_server-IsCalm = record {
  answer = λ h b. record nothing { saved_items = b.items; sync_token = "t" };
  answers = λ h b. refl;
  unkeyed = λ h b. unfold keyed_items_key in refl;
  no_cursor = λ h b. refl;
}

put_items-sync_items_via_api_example :
    ((sync_items_via_api saving_server 4 (in_pages_of 2) []).fault ≡ none)
    × (put_items (sync_items_via_api saving_server 4 (in_pages_of 2) []).sent ≡ three_notes)
put_items-sync_items_via_api_example =
    put_items-sync_items_via_api saving_server-IsCalm 4 (in_pages_of 2) (omega arith) refl
      (omega arith) (omega arith)

sync_items_via_api-IsGathered_example :
    IsGathered saving_server [] (sync_items_via_api saving_server 4 (in_pages_of 2) [])
sync_items_via_api-IsGathered_example =
    sync_items_via_api-IsGathered saving_server 4 (in_pages_of 2) []
      (put_items-sync_items_via_api saving_server-IsCalm 4 (in_pages_of 2) (omega arith) refl
        (omega arith) (omega arith)).0

sync_items_via_api-one_example :
    ((sync_items_via_api saving_server 4 (in_pages_of 1) []).fault ≡ none)
    × (put_items (sync_items_via_api saving_server 4 (in_pages_of 1) []).sent
        ≡ an_item "n1" "Note" 1 false ∷ [])
sync_items_via_api-one_example =
    sync_items_via_api-one saving_server-IsCalm 3 (in_pages_of 1) refl refl (omega arith)

calculate_optimal_batch_size_bounds_example :
    (min_page_size ≤ calculate_optimal_batch_size three_notes 1 150)
    × (calculate_optimal_batch_size three_notes 1 150 ≤ max_page_size)
calculate_optimal_batch_size_bounds_example =
    calculate_optimal_batch_size_bounds three_notes 1 150 (omega arith)

abbrev guarded_items : List EncryptedItem
guarded_items =
    an_item "k1" ContentType.items_key 1 true
    ∷ an_item "n1" "Note" 1 true
    ∷ an_item "p1" ContentType.user_preferences 1 true
    ∷ an_item "" ContentType.items_key 1 false
    ∷ []

update_timestamps_on_saved_items_lem_example :
    update_timestamps_on_saved_items three_notes
      (an_item "n2" "Note" 7 false ∷ an_item "new" "Note" 8 false ∷ [])
    ≡ an_item "n2" "Note" 7 false ∷ []
unfolding at
update_timestamps_on_saved_items_lem_example =
    update_timestamps_on_saved_items_lem three_notes
      (an_item "n2" "Note" 7 false ∷ an_item "new" "Note" 8 false ∷ []) (refl, (refl, (refl, tt)))

abbrev a_key : String → Bool → ℕ → SessionItemsKey
a_key uuid default updated_at_timestamp = record {
  uuid = uuid;
  items_key = "00";
  version = "004";
  default = default;
  created_at = "";
  updated_at = "";
  created_at_timestamp = 1;
  updated_at_timestamp = updated_at_timestamp;
  deleted = false;
}

default_items_key_lem_example :
    (k : SessionItemsKey) × (default_items_key (a_key "k1" false 1 ∷ a_key "k2" false 5 ∷ [])
      ≡ some k)
    × IsDefaultOf k (a_key "k1" false 1 ∷ a_key "k2" false 5 ∷ [])
default_items_key_lem_example = default_items_key_lem (a_key "k1" false 1) (a_key "k2" false 5 ∷ [])

abbrev a_conflict : (server unsaved : String) → ConflictedItem
a_conflict server unsaved = record {
  server_item = an_item server "Note" 1 false;
  unsaved_item = an_item unsaved "Note" 1 false;
  type = "sync_conflict";
}
