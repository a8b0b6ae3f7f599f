-- ===== src/Cache/Keys.antt =====
-- The items keys of a session after a synchronisation of the cache: mergeItemsKeysSlices and
-- processCachedItemsKeys of cache/cache.go, from the keys that are decrypted on.
pub mod Merge
pub mod Default
use gosn_v.Prelude.{
  ℕ, String, Bool, true, false, not, List, [], ◌∷◌, ◌++◌, ◌==◌, map, keep, ltb, if◌then◌else◌,
}
use gosn_v.Items.Types.{ItemsKey, SessionItemsKey}
use gosn_v.Session.Types.{Session}

-- The entry of the holding list for a key `s` of the session: the first of the other list with its
-- UUID, if that was updated later, or `s`.
unfoldable pub held_key : SessionItemsKey → List SessionItemsKey → SessionItemsKey
held_key s [] = s
held_key s (a ∷ another) =
    let rest = held_key s another in
    if a.uuid == s.uuid
    then (if ltb s.updated_at_timestamp a.updated_at_timestamp then a else s)
    else rest

unfoldable pub has_uuid : String → List SessionItemsKey → Bool
has_uuid u [] = false
has_uuid u (n ∷ ns) = let rest = has_uuid u ns in if u == n.uuid then true else rest

unfoldable pub merge_items_keys_slices :
    List SessionItemsKey → List SessionItemsKey → List SessionItemsKey
unfolding held_key has_uuid
merge_items_keys_slices session_list another =
    let holding_list = map (λ s. held_key s another) session_list in
    holding_list ++ keep (λ a. not (has_uuid a.uuid holding_list)) another

-- A key as processCachedItemsKeys passes it to the session.
abbrev pub synced_items_key : ItemsKey → SessionItemsKey
synced_items_key ik = record {
  uuid = ik.uuid;
  items_key = ik.items_key;
  version = "";
  default = false;
  created_at = "";
  updated_at = "";
  created_at_timestamp = ik.created_at_timestamp;
  updated_at_timestamp = ik.updated_at_timestamp;
  deleted = false;
}

-- The zero value of Go.
abbrev pub no_key : SessionItemsKey
no_key = record {
  uuid = "";
  items_key = "";
  version = "";
  default = false;
  created_at = "";
  updated_at = "";
  created_at_timestamp = 0;
  updated_at_timestamp = 0;
  deleted = false;
}

-- The loop over the merged keys: the one created last so far, and the first default.
unfoldable pub scan_keys :
    (latest : SessionItemsKey) → List SessionItemsKey → SessionItemsKey × SessionItemsKey
scan_keys latest [] = (latest, no_key)
scan_keys latest (key ∷ keys) =
    let latest = if ltb latest.created_at_timestamp key.created_at_timestamp then key else latest in
    let rest = scan_keys latest keys in if key.default then (latest, key) else rest

abbrev choose_key : (current latest found : SessionItemsKey) → SessionItemsKey
choose_key current latest found =
    if not (found.uuid == "") then found else if not (latest.uuid == "") then latest else current

-- The default key of the session after it, from the one before.
unfoldable pub chosen_key : SessionItemsKey → List SessionItemsKey → SessionItemsKey
unfolding scan_keys
chosen_key current keys = choose_key current (scan_keys no_key keys).0 (scan_keys no_key keys).1

unfoldable pub with_items_keys : List ItemsKey → Session → Session
unfolding merge_items_keys_slices chosen_key
with_items_keys iks s =
    let merged = merge_items_keys_slices s.items_keys (map synced_items_key iks) in
    record s { items_keys = merged; default_items_key = chosen_key s.default_items_key merged }
