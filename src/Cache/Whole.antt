-- ===== src/Cache/Whole.antt =====
-- Sync of cache/cache.go as a whole: what it reads of the database, what it sends with items.Sync and what it
-- writes. The clock, the database and items.Sync are parameters; delays, log lines and the
-- closing of the database are left out, and so is the second test of the session, since items keys do not change
-- what it reads. An error is classified by its text, in Cache/Errors.
pub mod Stages
pub mod Calls
pub mod Writes
pub mod Synchronised
mod Examples
use gosn_v.Prelude.{
  ℕ, ◌-◌, ◌*◌, String, Bool, true, false, not, ◌&&◌, Option, none, some, List, [], ◌∷◌, ◌==◌, ltb,
  ◌⊎◌, inl, inr, if◌then◌else◌,
}
use gosn_v.Prelude.Bytes.{codes, includes}
use gosn_v.Items.Types.{EncryptedItem}
use gosn_v.Session.Types.{Session}
use gosn_v.Session.Refresh.{valid}
use gosn_v.Crypto.Libraries.{Primitives}
use gosn_v.Crypto.{Outcome, Failure, done, failed, panicked}
use gosn_v.Items.Encryption.{ItemsKeyJson}
use gosn_v.Sync.Types.{SyncOutput}
use gosn_v.Cache.Types.{CacheItem}
use gosn_v.Cache.Convert.{validate_items, retrieve_items_keys_from_cache, dirty_items_to_push}
use gosn_v.Cache.Store.Database.{Storm}
use gosn_v.Cache.Store.{StoreError}
use gosn_v.Cache.Token.{SyncToken, TokenStore, validate_and_clean_sync_token}
use gosn_v.Cache.Retry.{PushInput, Pushed, push_with_retries}
use gosn_v.Cache.Apply.{
  process_cached_items_keys, Sorted, SortError, find_failed, exited, Received, receive, sort_saved,
  write_answer,
}

-- What Sync uses of the database, beside its operations on single items; an error is its text.
pub record SyncStore (DB : Type 0) : Type 0 where
  pub storm : Storm DB
  pub tokens : TokenStore DB
  pub all : DB → List CacheItem ⊎ String
  -- db.Find("Dirty", true, &dirty)
  pub find_dirty : DB → List CacheItem ⊎ String
  pub save_token : SyncToken → DB → Option String × DB
  -- Whether storm.Open opens the file of a database that is open already.
  pub opens_again : DB → Bool

pub data Fault : Type 0 where
  invalid_session no_path : Fault
  message : String → Fault
  invalid_item : (uuid content_type : String) → Fault
  keys_not_read : Failure → Fault
  not_stored : StoreError → Fault
  token_not_dropped token_not_saved : String → Fault

-- How Sync ends: `completed` at its last line, `skipped` with no call of items.Sync, `keys_passed_over` where the
-- new items keys cannot be read, all three without an error.
pub data Ended : Type 0 where
  completed skipped keys_passed_over : Ended
  stopped : Fault → Ended
  crashed exit_called : Ended

-- The variables of Sync, with the calls of items.Sync so far.
pub record Run (DB : Type 0) : Type 0 where
  pub session : Session
  pub db : DB
  pub dirty : List CacheItem
  pub sync_token : String
  pub to_push : List EncryptedItem
  pub answer : Option SyncOutput
  pub calls : List PushInput

abbrev pub begin_run : {DB : Type 0} → Session → DB → Run DB
begin_run s db = record {
  session = s;
  db = db;
  dirty = [];
  sync_token = "";
  to_push = [];
  answer = none;
  calls = [];
}

abbrev pub push_input : {DB : Type 0} → Run DB → PushInput
push_input r = record { items = r.to_push; sync_token = r.sync_token }

abbrev pub Step : (DB : Type 0) → Type 0
Step DB = Run DB → Ended × Run DB

-- A step, and those that follow where it goes on.
unfoldable pub then_step : {DB : Type 0} → Ended × Run DB → Step DB → Ended × Run DB
then_step (completed, r) f = f r
then_step (skipped, r) f = (skipped, r)
then_step (keys_passed_over, r) f = (keys_passed_over, r)
then_step (stopped e, r) f = (stopped e, r)
then_step (crashed, r) f = (crashed, r)
then_step (exit_called, r) f = (exit_called, r)

unfoldable pub in_order : {DB : Type 0} → List (Step DB) → Step DB
unfolding then_step
in_order [] r = (completed, r)
in_order (f ∷ fs) r = then_step (f r) (λ r. in_order fs r)

-- The items that a query finds: none, where its error says so.
unfoldable pub found : List CacheItem ⊎ String → List CacheItem ⊎ Fault
found (inl items) = inl items
found (inr e) = if includes (codes e) (codes "not found") then inl [] else inr (message e)

abbrev pub min_sync_interval : ℕ
min_sync_interval = 5 * 60 * 1000000000

module _ {DB : Type 0} (store : SyncStore DB) (p : Primitives) (json : ItemsKeyJson) where
  unfoldable pub keys_taken : Outcome Session → Step DB
  keys_taken (done s) r = (completed, record r { session = s })
  keys_taken (failed e) r = (stopped (keys_not_read e), r)
  keys_taken panicked r = (crashed, r)

  unfoldable pub with_cached : List CacheItem → Step DB
  unfolding keys_taken process_cached_items_keys
  with_cached [] r = (completed, r)
  with_cached (i ∷ is) r =
      let keys = retrieve_items_keys_from_cache (i ∷ is) in
      keys_taken (process_cached_items_keys p json r.session keys) r

  unfoldable pub checked_items : List CacheItem ⊎ Fault → Step DB
  unfolding with_cached
  checked_items (inr e) r = (stopped e, r)
  checked_items (inl all) r = elim (validate_items all) [
    | some (uuid, content_type) ↦ (stopped (invalid_item uuid content_type), r)
    | none ↦ with_cached all r
  ]

  -- The items of the cache are checked, and their items keys go into the session.
  unfoldable pub take_cached_keys : Step DB
  unfolding checked_items found
  take_cached_keys r = checked_items (found (store.all r.db)) r

  unfoldable pub take_dirty : Step DB
  unfolding found
  take_dirty r = elim (found (store.find_dirty r.db)) [
    | inr e ↦ (stopped e, r)
    | inl dirty ↦ (completed, record r { dirty = dirty })
  ]

  -- The token of the database, unless the session has no default items key.
  unfoldable pub token_taken : (String ⊎ String) × DB → Step DB
  token_taken (inr e, db) r = (stopped (message e), record r { db = db })
  token_taken (inl token, db) r =
      let default = r.session.default_items_key.items_key in
      (completed, record r { db = db; sync_token = if default == "" then "" else token })

  unfoldable pub take_token : (now : ℕ) → Step DB
  unfolding token_taken validate_and_clean_sync_token
  take_token now r = token_taken (validate_and_clean_sync_token now store.tokens r.db) r

  unfoldable pub choose_items : Step DB
  choose_items r = elim (dirty_items_to_push r.dirty) [
    | none ↦ (crashed, r)
    | some items ↦ (completed, record r { to_push = items })
  ]

  unfoldable pub is_recent : (now : ℕ) → Option (List SyncToken) → Bool
  is_recent now (some (token ∷ [])) = ltb (now - token.created_at) min_sync_interval
  is_recent now _ = false

  abbrev pub is_nothing : List EncryptedItem → Bool
  is_nothing [] = true
  is_nothing (e ∷ es) = false

  unfoldable pub skip_or_go : (now : ℕ) → Step DB
  unfolding is_recent
  skip_or_go now r =
      if is_nothing r.to_push
        && (not (r.sync_token == "") && is_recent now (store.tokens.all_tokens r.db))
      then (skipped, r)
      else (completed, r)

  module _ (items_sync : Session → List PushInput → PushInput → SyncOutput ⊎ String)
      (session_after : Session → List PushInput → Session) (cache_db_path : String) where
    -- The session and the database after the calls of items.Sync.
    abbrev pub after_calls : Pushed SyncOutput → Run DB → Run DB
    after_calls pushed r = record r {
      session = session_after r.session pushed.calls;
      calls = pushed.calls;
      db =
          if pushed.drops_token && store.opens_again r.db
          then (store.tokens.drop_tokens r.db).1
          else r.db;
    }

    -- Conflicts that are left are a panic; neither an output nor an error does not occur.
    unfoldable pub answer_taken : (out : Option SyncOutput) → (error : Option String) → Step DB
    answer_taken (some out) error r = elim out.conflicts [
      | [] ↦ (completed, record r { answer = some out })
      | _ ↦ (crashed, r)
    ]
    answer_taken none (some e) r = (stopped (message e), r)
    answer_taken none none r = (crashed, r)

    unfoldable pub push_items : Step DB
    unfolding push_with_retries answer_taken
    push_items r =
        let pushed = push_with_retries (items_sync r.session) cache_db_path (push_input r) in
        answer_taken pushed.out pushed.error (after_calls pushed r)

    unfoldable pub stored : Option StoreError × DB → Step DB
    stored (none, db) r = (completed, record r { db = db })
    stored (some e, db) r = (stopped (not_stored e), record r { db = db })

    unfoldable pub sorted_stored : Received → Sorted ⊎ SortError → Step DB
    unfolding stored write_answer
    sorted_stored received (inl sorted) r =
        stored (write_answer store.storm r.dirty sorted received r.db) r
    sorted_stored received (inr (find_failed e)) r = (stopped (message e), r)
    sorted_stored received (inr exited) r = (exit_called, r)

    unfoldable pub new_keys_taken : List EncryptedItem → Step DB
    unfolding process_cached_items_keys
    new_keys_taken [] r = (completed, r)
    new_keys_taken (e ∷ es) r = elim (process_cached_items_keys p json r.session (e ∷ es)) [
      | done s ↦ (completed, record r { session = s })
      | failed e ↦ (keys_passed_over, r)
      | panicked ↦ (crashed, r)
    ]

    -- The writes of the answer, of which there is one here, and its items keys.
    unfoldable pub store_answer : Step DB
    unfolding sorted_stored sort_saved receive
    store_answer r = elim r.answer [
      | none ↦ (crashed, r)
      | some out ↦ sorted_stored (receive out.items) (sort_saved store.storm r.db out.saved_items) r
    ]

    unfoldable pub take_new_keys : Step DB
    unfolding new_keys_taken receive
    take_new_keys r = elim r.answer [
      | none ↦ (crashed, r)
      | some out ↦ new_keys_taken (receive out.items).items_keys r
    ]

    unfoldable pub token_saved : Option String × DB → Step DB
    token_saved (some e, db) r = (stopped (token_not_saved e), record r { db = db })
    token_saved (none, db) r = elim (store.all db) [
      | inl all ↦ (completed, record r { db = db })
      | inr e ↦ (stopped (message e), record r { db = db })
    ]

    unfoldable pub old_token_dropped : (later : ℕ) → SyncOutput → Option String × DB → Step DB
    unfolding token_saved
    old_token_dropped later out (dropped, db) r =
        let token : SyncToken = record { sync_token = out.sync_token; created_at = later } in
        let saved = token_saved (store.save_token token db) r in
        elim dropped [
          | none ↦ saved
          | some e ↦
              if includes (codes e) (codes "not found")
              then saved
              else (stopped (token_not_dropped e), record r { db = db })
        ]

    unfoldable pub replace_token : (later : ℕ) → Step DB
    unfolding old_token_dropped
    replace_token later r = elim r.answer [
      | none ↦ (crashed, r)
      | some out ↦ old_token_dropped later out (store.tokens.drop_tokens r.db) r
    ]

    -- From the open database on; `now` is the time at which the token is read, `later` that at which the next
    -- one is saved.
    unfoldable pub sync_open : (now later : ℕ) → Step DB
    unfolding in_order take_cached_keys take_dirty take_token choose_items skip_or_go push_items
        store_answer take_new_keys replace_token
    sync_open now later = in_order (
        take_cached_keys
        ∷ take_dirty
        ∷ take_token now
        ∷ choose_items
        ∷ skip_or_go now
        ∷ push_items
        ∷ store_answer
        ∷ take_new_keys
        ∷ replace_token later
        ∷ [])

    -- With what the opening of the database returns: an error of it or of its time-out, or none.
    unfoldable pub cache_sync :
        (opened : Option String) → (now later : ℕ) → Session → DB → Ended × Run DB
    unfolding sync_open
    cache_sync opened now later s db =
        if not (valid s)
        then (stopped invalid_session, begin_run s db)
        else if cache_db_path == ""
        then (stopped no_path, begin_run s db)
        else elim opened [
          | some e ↦ (stopped (message e), begin_run s db)
          | none ↦ sync_open now later (begin_run s db)
        ]
