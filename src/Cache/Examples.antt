-- ===== src/Cache/Examples.antt =====
-- Runs of the cache with a database in memory.
use gosn_v.Prelude.{
  ℕ, zero, suc, ◌*◌, ◌≡◌, refl, String, Bool, true, false, none, some, List, [], ◌∷◌, ◌⊎◌, inr, any,
  map, take, arith, if◌then◌else◌,
}
use gosn_v.Items.ContentType
use gosn_v.Items.Types.{SessionItemsKey}
use gosn_v.Session.Examples.{no_items_key}
use gosn_v.Sync.Guard.{filtered_items}
use gosn_v.Cache.Types.{CacheItem}
use gosn_v.Cache.Convert.{cache_item_to_encrypted_item, dirty_items_to_push}
use gosn_v.Cache.Convert.Laws.{is_empty_key, dirty_items_to_push_lem}
use gosn_v.Cache.Keys.{merge_items_keys_slices, chosen_key}
use gosn_v.Cache.Keys.Merge.{find_key, newest, merge_items_keys_slices_lem}
use gosn_v.Cache.Keys.Default.{IsChosenOf, chosen_key-IsChosenOf}
use gosn_v.Cache.Store.{batch_size, save_cache_items}
use gosn_v.Cache.Store.Views.{view, put_each, unprotected, save_cache_items_lem}
use gosn_v.Cache.Errors.{plain, classify_sync_error, says}
use gosn_v.Prelude.Bytes.{has_prefix, includes}
use gosn_v.Cache.Retry.{Synchronise, sync_with_retry, as_sync_error, PushInput}
use gosn_v.Cache.Retry.Laws.{
  Bounded, sync_with_retry-Bounded, at_once, later, IsSuccess, sync_with_retry-Succeeds,
}
use gosn_v.Cache.Apply.{Sorted, Received}
use gosn_v.Cache.Memory.{memory, memory-StormLaws}

abbrev a_cache_item : (uuid content_type : String) (dirty deleted : Bool) → CacheItem
a_cache_item uuid content_type dirty deleted = record {
  uuid = uuid;
  content = "004:…";
  content_type = content_type;
  items_key_id = "k1";
  enc_item_key = "004:…";
  created_at = "";
  updated_at = "";
  duplicate_of = none;
  dirtied_date = 5;
  created_at_timestamp = 1;
  updated_at_timestamp = 1;
  deleted = deleted;
  dirty = dirty;
}

abbrev dirty_items : List CacheItem
dirty_items =
    a_cache_item "n1" ContentType.note true false
    ∷ a_cache_item "k1" ContentType.items_key true true
    ∷ a_cache_item "n2" ContentType.note true true
    ∷ []

dirty_items_to_push_lem_example : dirty_items_to_push dirty_items ≡ (
    if any is_empty_key dirty_items
    then none
    else some (filtered_items (map cache_item_to_encrypted_item dirty_items)))
dirty_items_to_push_lem_example = dirty_items_to_push_lem dirty_items

abbrev a_key_of : (uuid : String) (updated created : ℕ) → SessionItemsKey
a_key_of uuid updated created = record no_items_key {
  uuid = uuid;
  updated_at_timestamp = updated;
  created_at_timestamp = created;
}

abbrev our_keys : List SessionItemsKey
our_keys = a_key_of "k1" 1 1 ∷ a_key_of "k2" 5 2 ∷ []

abbrev their_keys : List SessionItemsKey
their_keys = a_key_of "k3" 1 3 ∷ a_key_of "k1" 2 1 ∷ []

merge_items_keys_slices_lem_example :
    find_key "k1" (merge_items_keys_slices our_keys their_keys)
    ≡ newest (find_key "k1" our_keys) (find_key "k1" their_keys)
merge_items_keys_slices_lem_example = merge_items_keys_slices_lem "k1" our_keys their_keys

chosen_key-IsChosenOf_example : IsChosenOf no_items_key (chosen_key no_items_key our_keys) our_keys
chosen_key-IsChosenOf_example =
    chosen_key-IsChosenOf no_items_key our_keys (λ h. absurd (cc h), (λ h. absurd (cc h), tt))

save_cache_items_lem_example :
    (n : ℕ) × (view memory memory-StormLaws (save_cache_items memory dirty_items true []).1
      ≡ put_each
          (take (n * batch_size) (unprotected dirty_items))
          (view memory memory-StormLaws []))
    × ((save_cache_items memory dirty_items true []).0 ≡ none
        → take (n * batch_size) (unprotected dirty_items) ≡ unprotected dirty_items)
save_cache_items_lem_example = save_cache_items_lem memory memory-StormLaws dirty_items true []

-- A network that is down for a while: the world is the number of attempts that fail.
abbrev flaky : Synchronise String ℕ
flaky zero = ("synced", none, 0)
flaky (suc n) = ("", some (plain "connection refused"), n)

sync_with_retry-Bounded_example : Bounded flaky 3 (sync_with_retry flaky 3 5)
sync_with_retry-Bounded_example = sync_with_retry-Bounded flaky 3 5

sync_with_retry-Succeeds_example : IsSuccess flaky "synced" 0 (sync_with_retry flaky 3 1)
unfolding as_sync_error classify_sync_error says includes has_prefix
sync_with_retry-Succeeds_example =
    sync_with_retry-Succeeds flaky 3 1 1 0 "synced" (later refl refl (at_once refl)) (omega arith)

abbrev an_input : PushInput
an_input = record { items = []; sync_token = "stale" }

abbrev rejecting : List PushInput → PushInput → String ⊎ String
rejecting calls input = inr "Invalid sync token"

abbrev sorted_items : Sorted
sorted_items = record { saved = a_cache_item "n1" ContentType.note false false ∷ []; removed = [] }

abbrev received_items : Received
received_items = record {
  items = a_cache_item "n3" ContentType.note false false ∷ [];
  deleted = a_cache_item "n2" ContentType.note false true ∷ [];
  items_keys = [];
}
