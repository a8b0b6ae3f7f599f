-- ===== src/Cache/Keys/Default.antt =====
-- The default items key after a synchronisation of the cache.
use gosn_v.Prelude.{
  ◌≡◌, ◌≢◌, subst, refl, ap, sym, ◌≤◌, ◌⊎◌, true, false, List, [], ◌∷◌, ltb, arith, All, any, inl,
  inr, Bool-cases, ◌==◌, String, eq_iff, if◌then◌else◌,
}
use mathlib.Core.Logic.Or
use mathlib.Core.List.{Mem, mem-cons, not-mem-nil, mem-cons_self, mem-cons_of_mem}
use gosn_v.Items.Types.{SessionItemsKey}
use gosn_v.Cache.Keys.{scan_keys, no_key, chosen_key}

scan_keys_found :
    (latest : SessionItemsKey) (keys : List SessionItemsKey)
    → any (λ k. k.default) keys ≡ true
    → Mem (scan_keys latest keys).1 keys × ((scan_keys latest keys).1.default ≡ true)
unfolding scan_keys
scan_keys_found latest [] h = absurd (cc)
scan_keys_found latest (k ∷ ks) h = elim (Bool-cases k.default) [
  | inl e ↦ rw (scan_keys, e) (mem-cons_self, refl)
  | inr e ↦
      let latest = if ltb latest.created_at_timestamp k.created_at_timestamp then k else latest in
      let later = scan_keys_found latest ks (simp e at h) in
      simp e (mem-cons_of_mem k later.0, later.1)
]

scan_keys_zero :
    (latest : SessionItemsKey) (keys : List SessionItemsKey)
    → any (λ k. k.default) keys ≡ false
    → (scan_keys latest keys).1 ≡ no_key
unfolding scan_keys
scan_keys_zero latest [] h = refl
scan_keys_zero latest (k ∷ ks) h = ground (
  arith,
  h,
  scan_keys_zero (if ltb latest.created_at_timestamp k.created_at_timestamp then k else latest) ks,
)

-- A key that no key of a list was created after.
abbrev pub NoneAfter : SessionItemsKey → SessionItemsKey → Type 0
NoneAfter l k = k.created_at_timestamp ≤ l.created_at_timestamp

scan_keys_latest :
    (latest : SessionItemsKey) (keys : List SessionItemsKey) (l : SessionItemsKey)
    → any (λ k. k.default) keys ≡ false
    → (scan_keys latest keys).0 ≡ l
    → ((l ≡ latest) ⊎ Mem l keys) × NoneAfter l latest × All (NoneAfter l) keys
unfolding scan_keys
scan_keys_latest latest [] l h e =
    (inl (sym e), omega (arith, ap (λ k. k.created_at_timestamp) e), tt)
scan_keys_latest latest (k ∷ ks) l h e =
    let marked : k.default ≡ false = ground (arith, h) in
    let none_marked : any (λ k. k.default) ks ≡ false = ground (arith, h) in
    elim (Bool-cases (ltb latest.created_at_timestamp k.created_at_timestamp)) [
      | inl c ↦
          let later = scan_keys_latest k ks l none_marked (simp (marked, c) at e) in
          (
            inr (elim later.0 [ inl same ↦ simp same mem-cons_self | inr m ↦ mem-cons_of_mem k m ]),
            ground (arith, later.1),
            (later.1, later.2),
          )
      | inr c ↦
          let later = scan_keys_latest latest ks l none_marked (simp (marked, c) at e) in
          (
            elim later.0 [ inl same ↦ inl same | inr m ↦ inr (mem-cons_of_mem k m) ],
            later.1,
            (ground (arith, later.1), later.2),
          )
    ]

-- What the default key of a session is among its keys, from the default `current` before: one that
-- is marked, or, where none is, one that none was created after, or `current`, where none was created
-- after 1970.
pub data IsChosenOf (current k : SessionItemsKey) (keys : List SessionItemsKey) : Type 0 where
  marked : Mem k keys → k.default ≡ true → IsChosenOf current k keys
  latest :
      any (λ k. k.default) keys ≡ false
      → Mem k keys
      → All (NoneAfter k) keys
      → IsChosenOf current k keys
  unchanged :
      any (λ k. k.default) keys ≡ false
      → k ≡ current
      → All (NoneAfter no_key) keys
      → IsChosenOf current k keys

named :
    (k : SessionItemsKey) (keys : List SessionItemsKey)
    → All (λ k. k.uuid ≢ "") keys
    → Mem k keys
    → k.uuid ≢ ""
named k [] h m = absurd (not-mem-nil m)
named k (x ∷ xs) h m =
    Or.elim (hlevel) (mem-cons.0 m) (λ e. rw (ap (λ k. k.uuid) e) h.0)
      (λ later. named k xs h.1 later)

has_name : {u : String} → u ≢ "" → (u == "") ≡ false
has_name {u} h = ground (arith, eq_iff u "", h)

-- Where every key of the session has a UUID, the default key is one that is marked as the default,
-- if there is one; or else a key that no other was created after; or else, where no key was created
-- after 1970, the default stays as it is.
pub chosen_key-IsChosenOf :
    (current : SessionItemsKey) (keys : List SessionItemsKey)
    → All (λ k. k.uuid ≢ "") keys
    → IsChosenOf current (chosen_key current keys) keys
unfolding chosen_key
chosen_key-IsChosenOf current keys h = elim (Bool-cases (any (λ k. k.default) keys)) [
  | inl e ↦
      let found = scan_keys_found no_key keys e in
      simp (has_name (named (scan_keys no_key keys).1 keys h found.0)) (marked found.0 found.1)
  | inr e ↦
      let best = scan_keys_latest no_key keys (scan_keys no_key keys).0 e refl in
      elim best.0 [
        | inl same ↦
            simp (scan_keys_zero no_key keys e, same)
              (unchanged e refl (subst (λ k. All (NoneAfter k) keys) same best.2))
        | inr m ↦
            simp (scan_keys_zero no_key keys e, has_name (named (scan_keys no_key keys).0 keys h m))
              (latest e m best.2)
      ]
]
