-- ===== src/Cache/Whole/Calls.antt =====
-- What Sync of cache/cache.go sends, by its steps up to the call of items.Sync.
use gosn_v.Prelude.{
  ℕ, ◌≤◌, ◌≡◌, refl, ap, sym, ◌∙◌, String, not, ◌&&◌, some, List, [], ◌∷◌, ◌==◌, ◌⊎◌, inl, inr,
  Bool-cases, subst, Sum-cases, Option-cases,
}
use gosn_v.Session.Types.{Session}
use gosn_v.Crypto.Libraries.{Primitives}
use gosn_v.Crypto.{Outcome, done, failed, panicked}
use gosn_v.Items.Encryption.{ItemsKeyJson}
use gosn_v.Cache.Types.{CacheItem}
use gosn_v.Cache.Convert.{validate_items, dirty_items_to_push}
use gosn_v.Cache.Store.Database.{StormLaws}
use gosn_v.Cache.Token.{validate_and_clean_sync_token}
use gosn_v.Cache.Token.Freshness.{IsFresh, validate_and_clean_sync_token_lem}
use gosn_v.Cache.Retry.Laws.{repeated}
use gosn_v.Cache.Whole.{
  SyncStore, Fault, Ended, skipped, Run, found, push_input, keys_taken, with_cached, checked_items,
  take_cached_keys, take_dirty, token_taken, take_token, choose_items, is_nothing, is_recent,
  skip_or_go,
}
use gosn_v.Cache.Whole.Stages.{After, TokenLaws, held, held-validate_and_clean_sync_token}

module _ {DB : Type 0} (store : SyncStore DB) (laws : StormLaws store.storm)
    (token_laws : TokenLaws store) (now : ℕ) (db : DB) where
  -- The dirty items are those of the database, what is to push is chosen of them, and the token is that of the
  -- database, not older than a day, or empty.
  abbrev IsDirty : Run DB → Type 0
  IsDirty r = found (store.find_dirty db) ≡ inl r.dirty

  abbrev IsToken : Run DB → Type 0
  IsToken r = (r.sync_token ≡ "") ⊎ IsFresh now (store.tokens.all_tokens db) r.sync_token

  abbrev pub IsChosen : Run DB → Type 0
  IsChosen r = IsDirty r × (dirty_items_to_push r.dirty ≡ some r.to_push) × IsToken r

  -- Nothing has been sent, and the items of the database are as they were.
  abbrev pub IsUntouched : Run DB → Type 0
  IsUntouched r = (r.calls ≡ []) × (held store laws token_laws r.db ≡ held store laws token_laws db)

  -- Nothing has been sent, or what was chosen, three times at most.
  abbrev pub IsCalled : Run DB → Type 0
  IsCalled r =
      (r.calls ≡ []) ⊎ (IsChosen r × (n : ℕ) × (n ≤ 3) × (r.calls ≡ repeated n (push_input r)))

  abbrev pub Left : Ended → Run DB → Type 0
  Left skipped r = IsUntouched r
  Left _ r = IsCalled r

  abbrev pub IsFirst : Run DB → Type 0
  IsFirst r = (r.calls ≡ []) × (r.db ≡ db)

  keys_taken-After :
      (p : Primitives) (json : ItemsKeyJson) (o : Outcome Session) (r : Run DB)
      → IsFirst r
      → After IsFirst Left (keys_taken store p json o r)
  unfolding keys_taken
  keys_taken-After p json (done s) r h = h
  keys_taken-After p json (failed e) r h = inl h.0
  keys_taken-After p json panicked r h = inl h.0

  with_cached-After :
      (p : Primitives) (json : ItemsKeyJson) (all : List CacheItem) (r : Run DB)
      → IsFirst r
      → After IsFirst Left (with_cached store p json all r)
  unfolding with_cached
  with_cached-After p json [] r h = h
  with_cached-After p json (i ∷ is) r h = keys_taken-After p json _ r h

  checked_items-After :
      (p : Primitives) (json : ItemsKeyJson) (all : List CacheItem ⊎ Fault) (r : Run DB)
      → IsFirst r
      → After IsFirst Left (checked_items store p json all r)
  unfolding checked_items
  checked_items-After p json (inr e) r h = inl h.0
  checked_items-After p json (inl all) r h = elim (Option-cases (validate_items all)) [
    | inl valid ↦ rw (valid, checked_items, After) (with_cached-After p json all r h)
    | inr ((uuid, content_type), wrong) ↦ rw (wrong, checked_items, After) (inl h.0)
  ]

  pub take_cached_keys-After :
      (p : Primitives) (json : ItemsKeyJson) (r : Run DB)
      → IsFirst r
      → After IsFirst Left (take_cached_keys store p json r)
  unfolding take_cached_keys
  take_cached_keys-After p json r h = checked_items-After p json _ r h

  abbrev pub IsQueried : Run DB → Type 0
  IsQueried r = IsFirst r × IsDirty r

  pub take_dirty-After :
      (p : Primitives) (json : ItemsKeyJson) (r : Run DB)
      → IsFirst r
      → After IsQueried Left (take_dirty store p json r)
  unfolding take_dirty
  take_dirty-After p json r h = elim (Sum-cases (found (store.find_dirty r.db))) [
    | inl (dirty, k) ↦
        rw (k, take_dirty, After) (h, ap (λ (w : DB). found (store.find_dirty w)) (sym h.1) ∙ k)
    | inr (e, k) ↦ rw (k, take_dirty, After) (inl h.0)
  ]

  abbrev pub IsTokened : Run DB → Type 0
  IsTokened r = IsUntouched r × IsDirty r × IsToken r

  token_taken-After :
      (p : Primitives) (json : ItemsKeyJson) (taken : (String ⊎ String) × DB) (r : Run DB)
      → IsQueried r
      → ((t : String) → taken.0 ≡ inl t → (t ≡ "") ⊎ IsFresh now (store.tokens.all_tokens db) t)
      → held store laws token_laws taken.1 ≡ held store laws token_laws db
      → After IsTokened Left (token_taken store p json taken r)
  unfolding token_taken
  token_taken-After p json (inr e, next) r h fresh same = inl h.0.0
  token_taken-After p json (inl token, next) r h fresh same =
      elim (Bool-cases (r.session.default_items_key.items_key == "")) [
        | inl no_key ↦ rw no_key ((h.0.0, same), h.1, inl refl)
        | inr key ↦ rw key ((h.0.0, same), h.1, fresh token refl)
      ]

  pub take_token-After :
      (p : Primitives) (json : ItemsKeyJson) (r : Run DB)
      → IsQueried r
      → After IsTokened Left (take_token store p json now r)
  unfolding take_token
  take_token-After p json r h =
      token_taken-After p json (validate_and_clean_sync_token now store.tokens r.db) r h
        (λ t e.
          subst (λ (w : DB). (t ≡ "") ⊎ IsFresh now (store.tokens.all_tokens w) t) h.0.1
            (validate_and_clean_sync_token_lem now store.tokens r.db t e))
        (held-validate_and_clean_sync_token store laws token_laws now r.db
          ∙ ap (held store laws token_laws) h.0.1)

  abbrev pub IsReady : Run DB → Type 0
  IsReady r = IsUntouched r × IsChosen r

  pub choose_items-After :
      (p : Primitives) (json : ItemsKeyJson) (r : Run DB)
      → IsTokened r
      → After IsReady Left (choose_items store p json r)
  unfolding choose_items
  choose_items-After p json r (untouched, dirty, token) =
      elim (Option-cases (dirty_items_to_push r.dirty)) [
        | inl empty_key ↦ rw (empty_key, choose_items, After) (inl untouched.0)
        | inr (items, k) ↦ rw (k, choose_items, After) (untouched, (dirty, k, token))
      ]

  pub skip_or_go-After :
      (p : Primitives) (json : ItemsKeyJson) (r : Run DB)
      → IsReady r
      → After IsReady Left (skip_or_go store p json now r)
  unfolding skip_or_go
  skip_or_go-After p json r h =
      elim (Bool-cases (
        is_nothing store p json r.to_push
        && (not (r.sync_token == "")
            && is_recent store p json now (store.tokens.all_tokens r.db)))) [
              | inl recent ↦ rw recent h.0
              | inr old ↦ rw old h
            ]
