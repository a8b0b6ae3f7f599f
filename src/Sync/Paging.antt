-- ===== src/Sync/Paging.antt =====
-- syncItemsViaAPI of items/sync.go: the requests that it sends and what it gathers. The server is an
-- argument, and so is the fuel of the recursion, which ends on its own only if the server lets it.
pub mod Uploads
pub mod Downloads
use gosn_v.Prelude.{
  ℕ, zero, suc, ◌+◌, ◌-◌, String, Bool, true, false, not, ◌&&◌, ◌||◌, Option, none, some, List, [],
  ◌∷◌, ◌++◌, ◌==◌, length, ltb, eqb, if◌then◌else◌, ◌⊎◌, inl, inr,
}
use gosn_v.Items.ContentType
use gosn_v.Items.Types.{EncryptedItem}
use gosn_v.Sync.Types.{
  SyncInput, SyncResponseData, Cursor, absent, null, token, Body, Posted, failed, answered, Server,
  Fault, request_failed, unexpected_status, bad_json, items_key_has_items_key, slice_out_of_range,
  out_of_fuel, Synced,
}
use gosn_v.Sync.Batch.{limit_of, final_item, batch}

-- A newline at the end goes.
unfoldable pub strip_line_break : String → String
strip_line_break String.[] = ""
strip_line_break (String.◌∷◌ c s) =
    let rest = String.◌∷◌ c (strip_line_break s) in if String.◌∷◌ c s == "\n" then "" else rest

abbrev token_field : String → Option String
token_field sync_token = if sync_token == "" then none else some (strip_line_break sync_token)

unfoldable pub build_request_body : SyncInput → ℕ → List EncryptedItem → Body
unfolding strip_line_break
build_request_body input limit items =
    if input.cursor_token == ""
    then record {
      items = items;
      limit = limit;
      sync_token = token_field input.sync_token;
      cursor = absent;
    }
    else if input.cursor_token == "null"
    then record {
      items = items;
      limit = limit;
      sync_token = token_field input.sync_token;
      cursor = null;
    }
    else record {
      items = items;
      limit = limit;
      sync_token = some (strip_line_break input.sync_token);
      cursor = token (strip_line_break input.cursor_token);
    }

-- The check of unmarshallSyncResponse: the UUID of an items key that names an items key.
unfoldable pub keyed_items_key : List EncryptedItem → Option String
keyed_items_key [] = none
keyed_items_key (e ∷ es) =
    let rest = keyed_items_key es in
    if (e.content_type == ContentType.items_key) && not (e.items_key_id == "")
    then some e.uuid
    else rest

abbrev pub checked : SyncResponseData → Option String → SyncResponseData ⊎ Fault
checked d none = inl d
checked d (some uuid) = inr (items_key_has_items_key uuid)

unfoldable pub receive : Posted → SyncResponseData ⊎ Fault
unfolding keyed_items_key
receive (failed e) = inr (request_failed e)
receive (answered status content) =
    if not (eqb status 200)
    then inr (unexpected_status status)
    else elim content [ none ↦ inr bad_json | some d ↦ checked d (keyed_items_key d.items) ]

abbrev pub nothing : SyncResponseData
nothing = record {
  items = [];
  saved_items = [];
  unsaved = [];
  conflicts = [];
  sync_token = "";
  cursor_token = "";
  last_item_put = 0;
  put_limit_used = 0;
}

-- Items are left to put, or the server has more to give.
unfoldable pub goes_on : SyncInput → ℕ → SyncResponseData → Bool
goes_on input final d =
    (ltb 0 final && ltb final (length input.items - 1))
    || (not (d.cursor_token == "") && not (d.cursor_token == "null"))

abbrev pub next_input : SyncInput → (limit final : ℕ) → SyncResponseData → SyncInput
next_input input limit final d = record {
  sync_token = d.sync_token;
  cursor_token = d.cursor_token;
  items = input.items;
  next_item = if ltb 0 final then final + 1 else input.next_item;
  page_size = limit;
}

-- What the calls further down gathered is added, unless they failed.
abbrev pub combine : SyncResponseData → Synced → Synced
combine out rest = elim rest.fault [
  | some e ↦ record { out = out; fault = some e; sent = rest.sent }
  | none ↦ record {
    out = record out {
      items = out.items ++ rest.out.items;
      saved_items = out.saved_items ++ rest.out.saved_items;
      unsaved = out.unsaved ++ rest.out.unsaved;
      conflicts = out.conflicts ++ rest.out.conflicts;
      sync_token = rest.out.sync_token;
      cursor_token = "";
    };
    fault = none;
    sent = rest.sent;
  }
]

module _ (server : Server) where
  unfoldable pub sync_items_via_api : ℕ → SyncInput → List Body → Synced
  unfolding limit_of final_item batch build_request_body receive goes_on
  sync_items_via_api zero input sent = record {
    out = nothing;
    fault = some out_of_fuel;
    sent = sent;
  }
  sync_items_via_api (suc fuel) input sent =
      let limit = limit_of input in
      let final = final_item input.items input.next_item limit in
      let body = build_request_body input limit (batch input.items input.next_item limit) in
      let begun = record nothing { put_limit_used = limit } in
      let answer : Synced = elim (receive (server sent body)) [
        | inr e ↦ record { out = begun; fault = some e; sent = sent ++ body ∷ [] }
        | inl d ↦
            let out = record d { last_item_put = final; put_limit_used = limit } in
            let rest =
              sync_items_via_api fuel (next_input input limit final d) (sent ++ body ∷ []) in
            if goes_on input final d
            then combine out rest
            else record { out = out; fault = none; sent = sent ++ body ∷ [] }
      ] in
      if ltb 0 (length input.items) && ltb (length input.items) input.next_item
      then record { out = begun; fault = some slice_out_of_range; sent = sent }
      else answer
