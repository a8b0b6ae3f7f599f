-- ===== src/Cache/Whole/Synchronised.antt =====
-- Sync of cache/cache.go as a whole: what it sends, and what the database holds after it.
use gosn_v.Prelude.{ℕ, refl, String, Option, none, some, List, ◌==◌, ◌⊎◌, inl, inr, Bool-cases}
use gosn_v.Session.Types.{Session}
use gosn_v.Session.Refresh.{valid}
use gosn_v.Crypto.Libraries.{Primitives}
use gosn_v.Items.Encryption.{ItemsKeyJson}
use gosn_v.Sync.Types.{SyncOutput}
use gosn_v.Cache.Store.Database.{StormLaws}
use gosn_v.Cache.Retry.{PushInput}
use gosn_v.Cache.Whole.{
  SyncStore, Ended, completed, skipped, keys_passed_over, stopped, crashed, exit_called, Run,
  begin_run, Step, then_step, message, sync_open, cache_sync,
}
use gosn_v.Cache.Whole.Stages.{After, then_step-After, TokenLaws}
use gosn_v.Cache.Whole.Calls.{
  IsCalled, Left, IsFirst, IsQueried, IsTokened, IsReady, take_cached_keys-After, take_dirty-After,
  take_token-After, choose_items-After, skip_or_go-After,
}
use gosn_v.Cache.Whole.Writes.{
  IsAnswered, IsStored, IsEnded, push_items-After, store_answer-After, take_new_keys-After,
  replace_token-After,
}

module _ {DB : Type 0} (store : SyncStore DB) (laws : StormLaws store.storm)
    (token_laws : TokenLaws store) (p : Primitives) (json : ItemsKeyJson)
    (items_sync : Session → List PushInput → PushInput → SyncOutput ⊎ String)
    (session_after : Session → List PushInput → Session) (cache_db_path : String)
    (opened : Option String) (now later : ℕ) (s : Session) (db : DB) where
  abbrev Out : Run DB → Type 0
  Out = IsEnded store laws token_laws now db p json items_sync session_after cache_db_path later

  abbrev Else : Ended → Run DB → Type 0
  Else = Left store laws token_laws now db

  abbrev First : Run DB → Type 0
  First = IsFirst store laws token_laws now db

  abbrev Queried : Run DB → Type 0
  Queried = IsQueried store laws token_laws now db

  abbrev Tokened : Run DB → Type 0
  Tokened = IsTokened store laws token_laws now db

  abbrev Ready : Run DB → Type 0
  Ready = IsReady store laws token_laws now db

  abbrev Answered : Run DB → Type 0
  Answered = IsAnswered store laws token_laws now db p json items_sync session_after cache_db_path

  abbrev Stored : Run DB → Type 0
  Stored = IsStored store laws token_laws now db p json items_sync session_after cache_db_path

  next :
      (Q : Run DB → Type 0) (x : Ended × Run DB) (f : Step DB)
      → After Q Else x
      → ((r : Run DB) → Q r → After Out Else (f r))
      → After Out Else (then_step x f)
  next Q x f h k = then_step-After Q Out Else x f h k

  -- One step after another, each with what holds after it.
  sync_open-After :
      After Out Else
        (sync_open store p json items_sync session_after cache_db_path now later (begin_run s db))
  unfolding sync_open
  sync_open-After =
      next First _ _ (take_cached_keys-After store laws token_laws now db p json _ (refl, refl))
        (λ r h. next Queried _ _ (take_dirty-After store laws token_laws now db p json r h) (λ r h.
          next Tokened _ _ (take_token-After store laws token_laws now db p json r h) (λ r h.
            next Ready _ _ (choose_items-After store laws token_laws now db p json r h) (λ r h.
              next Ready _ _ (skip_or_go-After store laws token_laws now db p json r h) (λ r h.
                next Answered _ _
                  (push_items-After store laws token_laws now db p json items_sync session_after
                    cache_db_path r h)
                  (λ r h.
                    next Stored _ _
                      (store_answer-After store laws token_laws now db p json items_sync
                        session_after cache_db_path r h)
                      (λ r h.
                        next Stored _ _
                          (take_new_keys-After store laws token_laws now db p json items_sync
                            session_after cache_db_path r h)
                          (λ r h.
                            next Out _ _
                              (replace_token-After store laws token_laws now db p json items_sync
                                session_after cache_db_path later r h)
                              (λ r h. h)))))))))

  abbrev pub result : Ended × Run DB
  result = cache_sync store p json items_sync session_after cache_db_path opened now later s db

  cache_sync-After : After Out Else result
  unfolding cache_sync
  cache_sync-After = elim (Bool-cases (valid s)) [
    | inr invalid ↦ rw (invalid, cache_sync, After) (inl refl)
    | inl signed_in ↦ elim (Bool-cases (cache_db_path == "")) [
      | inl no_path ↦ rw (signed_in, no_path, cache_sync, After) (inl refl)
      | inr path ↦ rw (signed_in, path, cache_sync) (after_opening opened)
    ]
  ]
    where
      after_opening :
          (o : Option String)
          → After Out Else (elim o [
            | some e ↦ (stopped (message e), begin_run s db)
            | none ↦
                sync_open store p json items_sync session_after cache_db_path now later
                  (begin_run s db)
          ])
      after_opening none = sync_open-After
      after_opening (some e) = inl refl

  any_end : (x : Ended × Run DB) → After Out Else x → IsCalled store laws token_laws now db x.1
  any_end (completed, r) h = inr h.0
  any_end (skipped, r) h = inl h.0
  any_end (keys_passed_over, r) h = h
  any_end (stopped e, r) h = h
  any_end (crashed, r) h = h
  any_end (exit_called, r) h = h

  -- However Sync ends, it has sent nothing, or it has called items.Sync three times at most, each time with what it
  -- chooses to push of the dirty items of the database, and with one token: none, or the only one that the
  -- database had, not older than a day.
  pub cache_sync-IsCalled : IsCalled store laws token_laws now db result.1
  cache_sync-IsCalled = any_end result cache_sync-After
