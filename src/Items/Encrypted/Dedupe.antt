-- ===== src/Items/Encrypted/Dedupe.antt =====
-- EncryptedItems.DeDupe keeps, for each UUID, the first of the newest items, in any order.
use mathlib.Core.List.Perm
use mathlib.Core.List.{Mem, Memᴰ, Pairwise, mem-cons_self, mem-cons_of_mem}
use mathlib.Core.HLevel.{⊥_prop, ¬_prop}
use mathlib.Core.Logic.{∥∥₁_elim}
use text.Mathlib.TextEquality.{IsScalar-prop}
use gosn_v.Prelude.{
  ap, String, true, ◌≡◌, ◌≢◌, ◌↔◌, refl, sym, ◌∙◌, Option, none, some, List, [], ◌∷◌, ◌==◌, eq_iff,
  eq_refl, ltb, arith, if◌then◌else◌, Bool-cases, inl, inr,
}
use gosn_v.Items.Types.{EncryptedItem}
use gosn_v.Items.Encrypted.{MapOrder, put_newer, fill, dedupe}

-- The newer of two items; the first, where they are equally old.
abbrev pub newer : Option EncryptedItem → EncryptedItem → Option EncryptedItem
newer none e = some e
newer (some u) e = if ltb u.updated_at_timestamp e.updated_at_timestamp then some e else some u

-- The first of the newest items with a UUID.
pub newest : String → Option EncryptedItem → List EncryptedItem → Option EncryptedItem
newest uuid best [] = best
newest uuid best (e ∷ eis) = newest uuid (if e.uuid == uuid then newer best e else best) eis

-- The value of a map at a UUID.
unfoldable pub at : String → List EncryptedItem → Option EncryptedItem
at uuid [] = none
at uuid (u ∷ us) = let rest = at uuid us in if u.uuid == uuid then some u else rest

-- No UUID stands twice.
abbrev pub IsKeyed : List EncryptedItem → Type 0
IsKeyed [] = Unit
IsKeyed (u ∷ us) = (at u.uuid us ≡ none) × IsKeyed us

at-put_newer :
    (uuid : String) (e : EncryptedItem) (us : List EncryptedItem)
    → at uuid (put_newer e us) ≡ (if e.uuid == uuid then newer (at uuid us) e else at uuid us)
unfolding at put_newer
at-put_newer uuid e [] = ground arith
at-put_newer uuid e (u ∷ us) =
    ground
      (arith, at-put_newer uuid e us, eq_iff u.uuid e.uuid, eq_iff u.uuid uuid, eq_iff e.uuid uuid)

at-fill :
    (uuid : String) (us eis : List EncryptedItem)
    → at uuid (fill us eis) ≡ newest uuid (at uuid us) eis
unfolding fill newest
at-fill uuid us [] = refl
at-fill uuid us (e ∷ eis) = at-fill uuid (put_newer e us) eis ∙ rw (at-put_newer uuid e us)

IsKeyed-put_newer :
    (e : EncryptedItem) (us : List EncryptedItem) → IsKeyed us → IsKeyed (put_newer e us)
unfolding put_newer
IsKeyed-put_newer e [] k = (unfold at in refl, tt)
IsKeyed-put_newer e (u ∷ us) k = elim (Bool-cases (u.uuid == e.uuid)) [
  | inr other ↦ rw other (
    at-put_newer u.uuid e us ∙ ground (arith, k.0, eq_iff e.uuid u.uuid, eq_iff u.uuid e.uuid),
    IsKeyed-put_newer e us k.1,
  )
  | inl same ↦ elim (Bool-cases (ltb u.updated_at_timestamp e.updated_at_timestamp)) [
    | inl older ↦ rw (same, older) (rw (← (eq_iff u.uuid e.uuid).0 same) k.0, k.1)
    | inr newer ↦ rw (same, newer) k
  ]
]

IsKeyed-fill : (us eis : List EncryptedItem) → IsKeyed us → IsKeyed (fill us eis)
unfolding fill
IsKeyed-fill us [] k = k
IsKeyed-fill us (e ∷ eis) k = IsKeyed-fill (put_newer e us) eis (IsKeyed-put_newer e us k)

EncryptedItem-set : IsSet (Option EncryptedItem)
EncryptedItem-set = hlevel IsScalar-prop

at_later :
    (x u : EncryptedItem) (us : List EncryptedItem)
    → at u.uuid us ≡ none
    → at x.uuid us ≡ some x
    → at x.uuid (u ∷ us) ≡ some x
unfolding at
at_later x u us h k = elim (Bool-cases (u.uuid == x.uuid)) [
  | inl same ↦ cc (h, k, ap (λ s. at s us) ((eq_iff u.uuid x.uuid).0 same))
  | inr other ↦ rw other k
]

at-memᴰ :
    (x : EncryptedItem) (us : List EncryptedItem) → IsKeyed us → Memᴰ x us → at x.uuid us ≡ some x
unfolding at
at-memᴰ x [] k m = elim m [ ]
at-memᴰ x (u ∷ us) k (Memᴰ.head e) = rw (← e) (rw eq_refl)
at-memᴰ x (u ∷ us) k (Memᴰ.tail m) = at_later x u us k.0 (at-memᴰ x us k.1 m)

at_head :
    (x u : EncryptedItem) (us : List EncryptedItem)
    → (u.uuid == x.uuid) ≡ true
    → at x.uuid (u ∷ us) ≡ some x
    → u ≡ x
unfolding at
at_head x u us same h = let e : some u ≡ some x = rw same at h in cc

mem-at : (x : EncryptedItem) (us : List EncryptedItem) → at x.uuid us ≡ some x → Mem x us
unfolding at
mem-at x [] h = cc
mem-at x (u ∷ us) h = elim (Bool-cases (u.uuid == x.uuid)) [
  | inl same ↦ rw (at_head x u us same h) mem-cons_self
  | inr other ↦ mem-cons_of_mem u (mem-at x us (rw other at h))
]

none_is_not_some : {x : EncryptedItem} → ◌≢◌ {A = Option EncryptedItem} none (some x)
none_is_not_some h = cc h

IsKeyed-Pairwise : (us : List EncryptedItem) → IsKeyed us → Pairwise (λ x y. x.uuid ≢ y.uuid) us
IsKeyed-Pairwise [] k = Pairwise.nil
IsKeyed-Pairwise (u ∷ us) k =
    Pairwise.cons
      (λ x m same.
        ∥∥₁_elim m ⊥_prop
          (λ d. none_is_not_some (sym k.0 ∙ ap (λ uuid. at uuid us) same ∙ at-memᴰ x us k.1 d)))
      (IsKeyed-Pairwise us k.1)

-- No UUID stands twice in what DeDupe leaves, in whatever order, and an item is left exactly if it is the first of
-- the newest with its UUID among the items that were given.
pub mem-dedupe :
    (order : MapOrder) (eis : List EncryptedItem) (x : EncryptedItem)
    → Pairwise (λ a b. a.uuid ≢ b.uuid) (dedupe order eis)
      × (Mem x (dedupe order eis) ↔ (newest x.uuid none eis ≡ some x))
unfolding dedupe at
mem-dedupe order eis x =
    let p = order.values-perm (fill [] eis) in
    let keyed = IsKeyed-fill [] eis tt in
    (
      Perm.pairwise (λ a b. ¬_prop) (λ a b n e. n (sym e)) (Perm.symm p)
          (IsKeyed-Pairwise (fill [] eis) keyed),
      (
        λ m.
            sym (at-fill x.uuid [] eis)
            ∙ ∥∥₁_elim ((Perm.mem_iff p).0 m) (EncryptedItem-set _ _)
                (at-memᴰ x (fill [] eis) keyed),
        λ e. (Perm.mem_iff p).1 (mem-at x (fill [] eis) (at-fill x.uuid [] eis ∙ e)),
      ),
    )
