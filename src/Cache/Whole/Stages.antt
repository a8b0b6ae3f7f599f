-- ===== src/Cache/Whole/Stages.antt =====
-- What holds between the steps of Sync of cache/cache.go.
use mathlib.Core.Path.{fun_ext}
use gosn_v.Prelude.{
  ℕ, ◌-◌, ltb, ◌≡◌, refl, ap, ◌∙◌, String, true, Option, none, some, List, [], ◌∷◌, inl, inr,
  Bool-cases,
}
use gosn_v.Prelude.Bytes.{codes, includes}
use gosn_v.Cache.Store.Database.{StormLaws}
use gosn_v.Cache.Store.Views.{View, view}
use gosn_v.Cache.Token.{
  SyncToken, sync_token_max_age, after_drop, reset, usable, validate_and_clean_sync_token,
}
use gosn_v.Cache.Whole.{
  SyncStore, Ended, completed, skipped, keys_passed_over, stopped, crashed, exit_called, Run, Step,
  then_step, in_order,
}

-- One predicate for a run that goes on, one for each other end.
abbrev pub After :
    {DB : Type 0} → (Run DB → Type 0) → (Ended → Run DB → Type 0) → Ended × Run DB → Type 0
After Q E (completed, r) = Q r
After Q E (skipped, r) = E skipped r
After Q E (keys_passed_over, r) = E keys_passed_over r
After Q E (stopped e, r) = E (stopped e) r
After Q E (crashed, r) = E crashed r
After Q E (exit_called, r) = E exit_called r

pub then_step-After :
    {DB : Type 0} (Q R : Run DB → Type 0) (E : Ended → Run DB → Type 0) (x : Ended × Run DB)
    (f : Step DB)
    → After Q E x
    → ((r : Run DB) → Q r → After R E (f r))
    → After R E (then_step x f)
unfolding then_step
then_step-After Q R E (completed, r) f h k = k r h
then_step-After Q R E (skipped, r) f h k = h
then_step-After Q R E (keys_passed_over, r) f h k = h
then_step-After Q R E (stopped e, r) f h k = h
then_step-After Q R E (crashed, r) f h k = h
then_step-After Q R E (exit_called, r) f h k = h

pub in_order-After :
    {DB : Type 0} (P Q R : Run DB → Type 0) (E : Ended → Run DB → Type 0) (f : Step DB)
    (fs : List (Step DB))
    → ((r : Run DB) → P r → After Q E (f r))
    → ((r : Run DB) → Q r → After R E (in_order fs r))
    → (r : Run DB) → P r
    → After R E (in_order (f ∷ fs) r)
unfolding in_order
in_order-After P Q R E f fs h k r p = then_step-After Q R E (f r) _ (h r p) k

-- What the database documents of its tokens: they are no items, and there is none left after they are
-- dropped, or where none is found to drop.
pub record TokenLaws {DB : Type 0} (store : SyncStore DB) : Type 0 where
  pub lookup-drop_tokens :
      (u : String) (db : DB)
      → store.storm.lookup u (store.tokens.drop_tokens db).1 ≡ store.storm.lookup u db
  pub lookup-save_token :
      (u : String) (t : SyncToken) (db : DB)
      → store.storm.lookup u (store.save_token t db).1 ≡ store.storm.lookup u db
  pub all_tokens-drop_tokens :
      (db : DB)
      → (store.tokens.drop_tokens db).0 ≡ none
      → store.tokens.all_tokens (store.tokens.drop_tokens db).1 ≡ some []
  pub drop_tokens_missing :
      (db : DB) (e : String)
      → (store.tokens.drop_tokens db).0 ≡ some e
      → includes (codes e) (codes "not found") ≡ true
      → store.tokens.all_tokens (store.tokens.drop_tokens db).1 ≡ some []
  pub all_tokens-save_token :
      (t : SyncToken) (db : DB)
      → store.tokens.all_tokens db ≡ some []
      → (store.save_token t db).0 ≡ none
      → store.tokens.all_tokens (store.save_token t db).1 ≡ some (t ∷ [])

module _ {DB : Type 0} (store : SyncStore DB) (laws : StormLaws store.storm)
    (token_laws : TokenLaws store) where
  abbrev pub held : DB → View
  held = view store.storm laws

  pub held-drop_tokens : (db : DB) → held (store.tokens.drop_tokens db).1 ≡ held db
  held-drop_tokens db = fun_ext (λ u. token_laws.lookup-drop_tokens u db)

  pub held-save_token : (t : SyncToken) (db : DB) → held (store.save_token t db).1 ≡ held db
  held-save_token t db = fun_ext (λ u. token_laws.lookup-save_token u t db)

  after_drop_world : (dropped : Option String × DB) → (after_drop dropped).1 ≡ dropped.1
  unfolding after_drop
  after_drop_world (none, db) = refl
  after_drop_world (some e, db) = refl

  held-reset : (db : DB) → held (reset store.tokens db).1 ≡ held db
  unfolding reset
  held-reset db = ap held (after_drop_world (store.tokens.drop_tokens db)) ∙ held-drop_tokens db

  held-usable :
      (now : ℕ) (db : DB) (ts : Option (List SyncToken))
      → held (usable now store.tokens db ts).1 ≡ held db
  unfolding usable
  held-usable now db none = refl
  held-usable now db (some []) = refl
  held-usable now db (some (t ∷ [])) =
      elim (Bool-cases (ltb sync_token_max_age (now - t.created_at))) [
        | inl old ↦ rw old (held-reset db)
        | inr fresh ↦ rw fresh refl
      ]
  held-usable now db (some (t ∷ s ∷ ts)) = held-reset db

  pub held-validate_and_clean_sync_token :
      (now : ℕ) (db : DB) → held (validate_and_clean_sync_token now store.tokens db).1 ≡ held db
  unfolding validate_and_clean_sync_token
  held-validate_and_clean_sync_token now db = held-usable now db (store.tokens.all_tokens db)
