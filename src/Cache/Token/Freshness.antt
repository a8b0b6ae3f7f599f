-- ===== src/Cache/Token/Freshness.antt =====
-- Which tokens of cache/cache.go are used again.
use mathlib.Core.Sum.{inr-ne-inl}
use gosn_v.Prelude.{
  ℕ, ◌-◌, Bool, true, false, sym, ap, if◌then◌else◌, ◌≤◌, ◌≡◌, refl, String, Option, none, some,
  List, [], ◌∷◌, ◌⊎◌, inl, inr, ltb, arith,
}
use gosn_v.Cache.Token.{
  SyncToken, TokenStore, sync_token_max_age, after_drop, reset, usable,
  validate_and_clean_sync_token,
}

-- The only one that is stored, not older than a day.
unfoldable pub IsFresh : (now : ℕ) → Option (List SyncToken) → String → Type 0
IsFresh now stored t =
    (token : SyncToken) × (stored ≡ some (token ∷ []))
    × (now - token.created_at ≤ sync_token_max_age)
    × (t ≡ token.sync_token)

-- The token, where there is no error.
unfoldable taken : String ⊎ String → String
taken (inl t) = t
taken (inr e) = ""

module _ {World : Type 0} (now : ℕ) (store : TokenStore World) (w : World) where
  after_drop_lem :
      (dropped : Option String × World) (t : String) → (after_drop dropped).0 ≡ inl t → t ≡ ""
  unfolding after_drop taken
  after_drop_lem (none, next) t h = sym (ap taken h)
  after_drop_lem (some e, next) t h = absurd (inr-ne-inl h)

  reset_lem : (t : String) → (reset store w).0 ≡ inl t → t ≡ ""
  unfolding reset
  reset_lem t h = after_drop_lem (store.drop_tokens w) t h

  kept_or_reset :
      (token : SyncToken) (old : Bool) (t : String)
      → ltb sync_token_max_age (now - token.created_at) ≡ old
      → (if old then reset store w else (inl token.sync_token, w)).0 ≡ inl t
      → (t ≡ "") ⊎ IsFresh now (some (token ∷ [])) t
  unfolding IsFresh taken
  kept_or_reset token true t e h = inl (reset_lem t h)
  kept_or_reset token false t e h = inr (token, refl, ground arith, sym (ap taken h))

  usable_lem :
      (stored : Option (List SyncToken)) (t : String)
      → (usable now store w stored).0 ≡ inl t
      → (t ≡ "") ⊎ IsFresh now stored t
  unfolding usable taken
  usable_lem none t h = inl (sym (ap taken h))
  usable_lem (some []) t h = inl (sym (ap taken h))
  usable_lem (some (token ∷ [])) t h = kept_or_reset token _ t refl h
  usable_lem (some (token ∷ other ∷ tokens)) t h = inl (reset_lem t h)

  pub validate_and_clean_sync_token_lem :
      (t : String)
      → (validate_and_clean_sync_token now store w).0 ≡ inl t
      → (t ≡ "") ⊎ IsFresh now (store.all_tokens w) t
  unfolding validate_and_clean_sync_token
  validate_and_clean_sync_token_lem t h = usable_lem (store.all_tokens w) t h
