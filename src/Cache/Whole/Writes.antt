-- ===== src/Cache/Whole/Writes.antt =====
-- What Sync of cache/cache.go makes of the answer, by its steps from the call of items.Sync on.
use gosn_v.Prelude.{
  ◌&&◌, ℕ, ◌≤◌, ◌≡◌, ◌≢◌, refl, ap, ◌∙◌, String, Bool, true, false, Option, none, some, List, [],
  ◌∷◌, ◌⊎◌, inl, inr, Bool-cases, Sum-cases, if◌then◌else◌,
}
use gosn_v.Prelude.Bytes.{codes, includes}
use gosn_v.Session.Types.{Session}
use gosn_v.Crypto.Libraries.{Primitives}
use gosn_v.Crypto.{Outcome, Failure, done, failed, panicked}
use gosn_v.Items.Encryption.{ItemsKeyJson}
use gosn_v.Items.Types.{EncryptedItem}
use gosn_v.Sync.Types.{SyncOutput, ConflictedItem}
use gosn_v.Cache.Store.Database.{StormLaws}
use gosn_v.Cache.Store.{StoreError}
use gosn_v.Cache.Store.Views.{View}
use gosn_v.Cache.Retry.{PushInput, push_with_retries}
use gosn_v.Cache.Retry.Laws.{repeated, push_with_retries-IsPush, push_with_retries_answer}
use gosn_v.Cache.Apply.{
  Sorted, SortError, find_failed, exited, receive, sort_saved, write_answer,
  process_cached_items_keys,
}
use gosn_v.Cache.Apply.Result.{merged_view, write_answer_lem}
use gosn_v.Cache.Whole.{
  SyncStore, Run, push_input, after_calls, answer_taken, push_items, stored, sorted_stored,
  new_keys_taken, store_answer, take_new_keys, token_saved, old_token_dropped, replace_token,
}
use gosn_v.Cache.Whole.Stages.{After, TokenLaws, held, held-drop_tokens, held-save_token}
use gosn_v.Cache.Whole.Calls.{IsChosen, IsReady, Left}

conflict_cases :
    (l : List ConflictedItem)
    → (l ≡ []) ⊎ ((c : ConflictedItem) × (cs : List ConflictedItem) × (l ≡ c ∷ cs))
conflict_cases [] = inl refl
conflict_cases (c ∷ cs) = inr (c, cs, refl)

outcome_cases :
    (o : Outcome Session)
    → ((s : Session) × (o ≡ done s)) ⊎ (((e : Failure) × (o ≡ failed e)) ⊎ (o ≡ panicked))
outcome_cases (done s) = inl (s, refl)
outcome_cases (failed e) = inr (inl (e, refl))
outcome_cases panicked = inr (inr refl)

-- The update that marks an item as clean fails only where there is no such item.
abbrev pub Steady : {DB : Type 0} → SyncStore DB → Type 0
Steady {DB} store =
    (uuid : String) (tx : DB) (e : String) → store.storm.unset_dirty uuid tx ≢ inr (e, false)

module _ {DB : Type 0} (store : SyncStore DB) (laws : StormLaws store.storm)
    (token_laws : TokenLaws store) (now : ℕ) (db : DB) (p : Primitives) (json : ItemsKeyJson)
    (items_sync : Session → List PushInput → PushInput → SyncOutput ⊎ String)
    (session_after : Session → List PushInput → Session) (cache_db_path : String) where
  abbrev seen : DB → View
  seen = held store laws token_laws

  -- What was chosen has been sent, three times at most.
  abbrev pub IsSent : Run DB → Type 0
  IsSent r =
      IsChosen store laws token_laws now db r
      × (n : ℕ) × (n ≤ 3)
      × (r.calls ≡ repeated n (push_input r))

  -- The output is the answer of items.Sync to what was chosen.
  abbrev pub IsAnswer : Run DB → SyncOutput → Type 0
  IsAnswer r out =
      (r.answer ≡ some out)
      × (s : Session) × (earlier : List PushInput) × (items_sync s earlier (push_input r) ≡ inl out)

  abbrev pub IsAnswered : Run DB → Type 0
  IsAnswered r = IsSent r × (seen r.db ≡ seen db) × (out : SyncOutput) × IsAnswer r out

  answer_taken-After :
      (out : Option SyncOutput) (error : Option String) (r : Run DB)
      → IsSent r
      → seen r.db ≡ seen db
      → ((o : SyncOutput)
          → out ≡ some o
          → (s : Session) × (earlier : List PushInput) × (items_sync s earlier (push_input r)
              ≡ inl o))
      → After IsAnswered
          (Left store laws token_laws now db)
          (answer_taken store p json items_sync session_after cache_db_path out error r)
  unfolding answer_taken
  answer_taken-After (some o) error r sent same answer = elim (conflict_cases o.conflicts) [
    | inl no_conflict ↦
        let (s, earlier, made) = answer o refl in
        rw (no_conflict, answer_taken, After) (sent, same, o, (refl, s, earlier, made))
    | inr (c, cs, conflict) ↦ rw (conflict, answer_taken, After) (inr sent)
  ]
  answer_taken-After none (some e) r sent same answer = inr sent
  answer_taken-After none none r sent same answer = inr sent

  held-dropped :
      (drops : Bool) (w : DB) → seen (if drops then (store.tokens.drop_tokens w).1 else w) ≡ seen w
  held-dropped true w = held-drop_tokens store laws token_laws w
  held-dropped false w = refl

  pub push_items-After :
      (r : Run DB)
      → IsReady store laws token_laws now db r
      → After IsAnswered
          (Left store laws token_laws now db)
          (push_items store p json items_sync session_after cache_db_path r)
  unfolding push_items
  push_items-After r ready =
      let pushed = push_with_retries (items_sync r.session) cache_db_path (push_input r) in
      let (n, few, same) =
        push_with_retries-IsPush (items_sync r.session) cache_db_path (push_input r) in
      answer_taken-After pushed.out pushed.error
        (after_calls store p json items_sync session_after cache_db_path pushed r)
        (ready.1, n, few, same)
        (held-dropped (pushed.drops_token && store.opens_again r.db) r.db ∙ ready.0.1)
        (λ o e.
          let (earlier, made) =
            push_with_retries_answer (items_sync r.session) cache_db_path (push_input r) o e in
          (r.session, earlier, made))

  -- The database holds what the answer makes of what it held before.
  abbrev pub IsWritten : Run DB → SyncOutput → Type 0
  IsWritten r out =
      (before : DB) × (seen before ≡ seen db)
      × (sorted : Sorted) × (sort_saved store.storm before out.saved_items ≡ inl sorted)
      × (seen r.db ≡ merged_view r.dirty sorted (receive out.items) (seen db))

  -- The same as far as it is known with no condition on the database.
  abbrev pub IsMerged : Run DB → SyncOutput → Type 0
  IsMerged r out =
      (before : DB) × (seen before ≡ seen db)
      × (sorted : Sorted) × (sort_saved store.storm before out.saved_items ≡ inl sorted)
      × (Steady store → seen r.db ≡ merged_view r.dirty sorted (receive out.items) (seen db))

  abbrev pub IsStored : Run DB → Type 0
  IsStored r = IsSent r × (out : SyncOutput) × IsAnswer r out × IsMerged r out

  stored-After :
      (written : Option StoreError × DB) (out : SyncOutput) (sorted : Sorted) (r : Run DB)
      → IsSent r
      → IsAnswer r out
      → seen r.db ≡ seen db
      → sort_saved store.storm r.db out.saved_items ≡ inl sorted
      → (written.0 ≡ none
          → Steady store
          → seen written.1 ≡ merged_view r.dirty sorted (receive out.items) (seen r.db))
      → After IsStored
          (Left store laws token_laws now db)
          (stored store p json items_sync session_after cache_db_path written r)
  unfolding stored
  stored-After (some e, next) out sorted r sent answer same sorts merged = inr sent
  stored-After (none, next) out sorted r sent answer same sorts merged = (
    sent,
    out,
    answer,
    (
      r.db,
      same,
      sorted,
      sorts,
      λ steady. merged refl steady ∙ ap (merged_view r.dirty sorted (receive out.items)) same,
    ),
  )

  sorted_stored-After :
      (sorted : Sorted ⊎ SortError) (out : SyncOutput) (r : Run DB)
      → IsSent r
      → IsAnswer r out
      → seen r.db ≡ seen db
      → sort_saved store.storm r.db out.saved_items ≡ sorted
      → After IsStored (Left store laws token_laws now db) (
          sorted_stored store p json items_sync session_after cache_db_path
            (receive out.items)
            sorted
            r)
  unfolding sorted_stored
  sorted_stored-After (inl sorted) out r sent answer same sorts =
      stored-After (write_answer store.storm r.dirty sorted (receive out.items) r.db) out sorted r
        sent answer same sorts
        (λ no_error steady.
          write_answer_lem store.storm laws steady r.dirty sorted (receive out.items) r.db no_error)
  sorted_stored-After (inr (find_failed e)) out r sent answer same sorts = inr sent
  sorted_stored-After (inr exited) out r sent answer same sorts = inr sent

  pub store_answer-After :
      (r : Run DB)
      → IsAnswered r
      → After IsStored
          (Left store laws token_laws now db)
          (store_answer store p json items_sync session_after cache_db_path r)
  unfolding store_answer
  store_answer-After r (sent, same, out, answer) =
      rw (answer.0, store_answer) (sorted_stored-After _ out r sent answer same refl)

  new_keys_taken-After :
      (keys : List EncryptedItem) (r : Run DB)
      → IsStored r
      → After IsStored
          (Left store laws token_laws now db)
          (new_keys_taken store p json items_sync session_after cache_db_path keys r)
  unfolding new_keys_taken
  new_keys_taken-After [] r h = h
  new_keys_taken-After (e ∷ es) r h =
      elim (outcome_cases (process_cached_items_keys p json r.session (e ∷ es))) [
        | inl (t, k) ↦ rw (k, new_keys_taken, After) h
        | inr (inl (f, k)) ↦ rw (k, new_keys_taken, After) (inr h.0)
        | inr (inr k) ↦ rw (k, new_keys_taken, After) (inr h.0)
      ]

  pub take_new_keys-After :
      (r : Run DB)
      → IsStored r
      → After IsStored
          (Left store laws token_laws now db)
          (take_new_keys store p json items_sync session_after cache_db_path r)
  unfolding take_new_keys
  take_new_keys-After r h =
      rw (h.2.0, take_new_keys) (new_keys_taken-After (receive h.1.items).items_keys r h)

  -- The token of the answer, with the time at which it is saved, is the only one of the database.
  abbrev pub IsDone : (later : ℕ) → Run DB → Type 0
  IsDone later r =
      IsSent r
      × (out : SyncOutput) × IsAnswer r out
      × IsWritten r out
      × (store.tokens.all_tokens r.db
          ≡ some (record { sync_token = out.sync_token; created_at = later } ∷ []))

  abbrev pub IsEnded : (later : ℕ) → Run DB → Type 0
  IsEnded later r =
      IsSent r
      × (out : SyncOutput) × IsAnswer r out
      × IsMerged r out
      × (store.tokens.all_tokens r.db
          ≡ some (record { sync_token = out.sync_token; created_at = later } ∷ []))

  pub IsEnded-IsDone : Steady store → (later : ℕ) (r : Run DB) → IsEnded later r → IsDone later r
  IsEnded-IsDone steady later r (sent, out, answer, (before, same, sorted, sorts, merged), token) =
      (sent, out, answer, (before, same, sorted, sorts, merged steady), token)

  token_saved-After :
      (later : ℕ) (out : SyncOutput) (saved : Option String × DB) (r : Run DB)
      → IsSent r
      → IsAnswer r out
      → IsMerged r out
      → seen saved.1 ≡ seen r.db
      → (saved.0 ≡ none
          → store.tokens.all_tokens saved.1
            ≡ some (record { sync_token = out.sync_token; created_at = later } ∷ []))
      → After
          (IsEnded later)
          (Left store laws token_laws now db)
          (token_saved store p json items_sync session_after cache_db_path saved r)
  unfolding token_saved
  token_saved-After later out (some e, next) r sent answer written same token = inr sent
  token_saved-After later out (none, next) r sent answer (before, unchanged, sorted, sorts, merged)
        same token =
      elim (Sum-cases (store.all next)) [
        | inr (e, k) ↦ rw (k, token_saved, After) (inr sent)
        | inl (all, k) ↦
            rw (k, token_saved, After)
              (
                sent,
                out,
                answer,
                (before, unchanged, sorted, sorts, λ steady. same ∙ merged steady),
                token refl,
              )
      ]

  after_drop-After :
      (later : ℕ) (out : SyncOutput) (next : DB) (r : Run DB)
      → IsSent r
      → IsAnswer r out
      → IsMerged r out
      → seen next ≡ seen r.db
      → store.tokens.all_tokens next ≡ some []
      → After (IsEnded later) (Left store laws token_laws now db) (
          token_saved store p json items_sync session_after cache_db_path
            (store.save_token (record { sync_token = out.sync_token; created_at = later }) next)
            r)
  after_drop-After later out next r sent answer written same empty =
      token_saved-After later out _ r sent answer written
        (held-save_token store laws token_laws _ next ∙ same)
        (token_laws.all_tokens-save_token _ next empty)

  old_token_dropped-After :
      (later : ℕ) (out : SyncOutput) (dropped : Option String × DB) (r : Run DB)
      → IsSent r
      → IsAnswer r out
      → IsMerged r out
      → seen dropped.1 ≡ seen r.db
      → (dropped.0 ≡ none → store.tokens.all_tokens dropped.1 ≡ some [])
      → ((e : String)
          → dropped.0 ≡ some e
          → includes (codes e) (codes "not found") ≡ true
          → store.tokens.all_tokens dropped.1 ≡ some [])
      → After (IsEnded later) (Left store laws token_laws now db) (
          old_token_dropped store p json items_sync session_after cache_db_path later out dropped r)
  unfolding old_token_dropped
  old_token_dropped-After later out (none, next) r sent answer written same empty missing =
      after_drop-After later out next r sent answer written same (empty refl)
  old_token_dropped-After later out (some e, next) r sent answer written same empty missing =
      elim (Bool-cases (includes (codes e) (codes "not found"))) [
        | inl k ↦
            rw (k, old_token_dropped)
              (after_drop-After later out next r sent answer written same (missing e refl k))
        | inr k ↦ rw (k, old_token_dropped, After) (inr sent)
      ]

  pub replace_token-After :
      (later : ℕ) (r : Run DB)
      → IsStored r
      → After
          (IsEnded later)
          (Left store laws token_laws now db)
          (replace_token store p json items_sync session_after cache_db_path later r)
  unfolding replace_token
  replace_token-After later r (sent, out, answer, written) =
      rw (answer.0, replace_token)
        (old_token_dropped-After later out (store.tokens.drop_tokens r.db) r sent answer written
          (held-drop_tokens store laws token_laws r.db) (token_laws.all_tokens-drop_tokens r.db)
          (token_laws.drop_tokens_missing r.db))
