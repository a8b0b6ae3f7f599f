-- ===== src/Sync/DefaultKey.antt =====
-- The items key that becomes the default of the session: processSessionItemsKeysInSavedItems of
-- items/sync.go.
use mathlib.Core.List.Perm
use mathlib.Core.List.{Mem, mem-cons_self, mem-cons_of_mem}
use gosn_v.Prelude.{
  true, false, ◌≡◌, ap, ◌≤◌, refl, Option, none, some, List, [], ◌∷◌, ltb, arith, any, All,
  Option-cases, ◌⊎◌, if◌then◌else◌, Bool-cases, inl, inr,
}
use gosn_v.Items.Types.{SessionItemsKey}

unfoldable pub first_default : List SessionItemsKey → Option SessionItemsKey
first_default [] = none
first_default (ik ∷ iks) = let rest = first_default iks in if ik.default then some ik else rest

unfoldable pub latest_updated : SessionItemsKey → List SessionItemsKey → SessionItemsKey
latest_updated best [] = best
latest_updated best (ik ∷ iks) =
    latest_updated (if ltb best.updated_at_timestamp ik.updated_at_timestamp then ik else best) iks

-- The key that processSessionItemsKeysInSavedItems makes the default of the session, none where it
-- leaves the session as it is.
unfoldable pub default_items_key : List SessionItemsKey → Option SessionItemsKey
unfolding first_default latest_updated
default_items_key [] = none
default_items_key (ik ∷ iks) = elim (first_default (ik ∷ iks)) [
  | some found ↦ some found
  | none ↦ some (latest_updated ik (ik ∷ iks))
]

some_head : (i k : SessionItemsKey) → some i ≡ some k → i ≡ k
some_head i k h = cc

first_default-some :
    (iks : List SessionItemsKey) (k : SessionItemsKey)
    → first_default iks ≡ some k
    → Mem k iks × (k.default ≡ true)
unfolding first_default
first_default-some [] k h = cc
first_default-some (i ∷ is) k h = elim (Bool-cases i.default) [
  | inl e ↦ rw (← some_head i k (simp e at h)) (mem-cons_self, e)
  | inr e ↦
      let later = first_default-some is k (simp e at h) in (mem-cons_of_mem i later.0, later.1)
]

first_default-none :
    (iks : List SessionItemsKey) → first_default iks ≡ none → any (λ i. i.default) iks ≡ false
unfolding first_default
first_default-none [] h = refl
first_default-none (i ∷ is) h = elim (Bool-cases i.default) [
  | inl e ↦ let no = simp e at h in cc
  | inr e ↦ rw e (first_default-none is (simp e at h))
]

latest_updated_mem :
    (best : SessionItemsKey) (iks : List SessionItemsKey)
    → Mem (latest_updated best iks) (best ∷ iks)
unfolding latest_updated
latest_updated_mem best [] = mem-cons_self
latest_updated_mem best (i ∷ is) =
    elim (Bool-cases (ltb best.updated_at_timestamp i.updated_at_timestamp)) [
      | inl e ↦ rw e (mem-cons_of_mem best (latest_updated_mem i is))
      | inr e ↦
          rw e (
            (Perm.mem_iff (Perm.swap best i is)).0 (mem-cons_of_mem i (latest_updated_mem best is)))
    ]

abbrev NoLater : SessionItemsKey → SessionItemsKey → Type 0
NoLater k i = i.updated_at_timestamp ≤ k.updated_at_timestamp

latest_updated_max :
    (best : SessionItemsKey) (iks : List SessionItemsKey) (k : SessionItemsKey)
    → latest_updated best iks ≡ k
    → NoLater k best × All (NoLater k) iks
unfolding latest_updated
latest_updated_max best [] k h = rw (← h) (omega arith, tt)
latest_updated_max best (i ∷ is) k h =
    elim (Bool-cases (ltb best.updated_at_timestamp i.updated_at_timestamp)) [
      | inl e ↦ let m = latest_updated_max i is k (rw e at h) in (ground arith, m)
      | inr e ↦ let m = latest_updated_max best is k (rw e at h) in (m.0, (ground arith, m.1))
    ]

latest_updated_self :
    (ik : SessionItemsKey) (iks : List SessionItemsKey)
    → latest_updated ik (ik ∷ iks) ≡ latest_updated ik iks
unfolding latest_updated
latest_updated_self ik iks =
    let same : ltb ik.updated_at_timestamp ik.updated_at_timestamp ≡ false = ground arith in
    rw same refl

-- What the default items key is among the keys: one marked as the default, or, where none is, one
-- that no other was updated after.
pub IsDefaultOf : SessionItemsKey → List SessionItemsKey → Type 0
IsDefaultOf k iks =
    Mem k iks × ((k.default ≡ true) ⊎ ((any (λ i. i.default) iks ≡ false) × All (NoLater k) iks))

-- Where there are keys, the default that is chosen is one of them: one that is marked as the
-- default, or, where none is marked, one that was updated last.
pub default_items_key_lem :
    (ik : SessionItemsKey) (iks : List SessionItemsKey)
    → (k : SessionItemsKey) × (default_items_key (ik ∷ iks) ≡ some k) × IsDefaultOf k (ik ∷ iks)
unfolding default_items_key IsDefaultOf
default_items_key_lem ik iks = elim (Option-cases (first_default (ik ∷ iks))) [
  | inr (k, e) ↦
      let at_k = first_default-some (ik ∷ iks) k e in
      (k, rw (default_items_key, e) refl, (at_k.0, inl at_k.1))
  | inl e ↦
      let m = latest_updated_max ik iks (latest_updated ik iks) refl in
      (
        latest_updated ik iks,
        rw (default_items_key, e) (ap some (latest_updated_self ik iks)),
        (latest_updated_mem ik iks, inr (first_default-none (ik ∷ iks) e, (m.0, m.1))),
      )
]
