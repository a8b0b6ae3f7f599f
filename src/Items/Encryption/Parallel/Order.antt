-- ===== src/Items/Encryption/Parallel/Order.antt =====
-- The order in which the workers finish does not matter.
use mathlib.Core.List.{Permᴰ, append_assoc, append-nil}
use gosn_v.Prelude.{
  ℕ, zero, suc, ◌≡◌, ◌↔◌, inl, inr, refl, sym, ap, subst, ◌∙◌, Bool, true, false, ◌&&◌, Option,
  some, List, [], ◌∷◌, ◌++◌, map, ltb, eqb, length, length-append, all, All, arith, eqb_iff,
  Bool-cases, if◌then◌else◌,
}
use gosn_v.Prelude.Perms.{all-perm}
use gosn_v.Items.Types.{EncryptedItem, DecryptedItem, SessionItemsKey}
use gosn_v.Session.Types.{Session}
use gosn_v.Crypto.Libraries.{Primitives}
use gosn_v.Crypto.{Outcome, done, failed, panicked, and_then}
use gosn_v.Items.Encryption.Decryption.{decrypt_item, decrypt_items_sequential}
use gosn_v.Items.Encryption.Parallel.{
  DecryptResult, put_at, collect, empty_slots, slot_items, non_deleted_count, Arrival, decrypt_jobs,
  decrypt_items_parallel, decrypt_items,
}

-- What stands at an index of a list that is long enough.
abbrev IsAt : ℕ → DecryptedItem → List DecryptedItem → Type 0
IsAt i d [] = ⊥
IsAt zero d (x ∷ xs) = x ≡ d
IsAt (suc i) d (x ∷ xs) = IsAt i d xs

-- A result is the item at its index.
abbrev Delivers : List DecryptedItem → DecryptResult → Type 0
Delivers o r = (d : DecryptedItem) × (r.outcome ≡ done d) × IsAt r.index d o

abbrev store : DecryptResult → List (Option DecryptedItem) → List (Option DecryptedItem)
store r slots = elim r.outcome [
  | done d ↦ put_at r.index d slots
  | failed e ↦ slots
  | panicked ↦ slots
]

equal-IsAt :
    (i : ℕ) (d e : DecryptedItem) (o : List DecryptedItem) → IsAt i d o → IsAt i e o → d ≡ e
equal-IsAt i d e [] h k = absurd h
equal-IsAt zero d e (x ∷ xs) h k = sym h ∙ k
equal-IsAt (suc i) d e (x ∷ xs) h k = equal-IsAt i d e xs h k

put_at-put_at :
    (i j : ℕ) (d e : DecryptedItem) (o : List DecryptedItem) (slots : List (Option DecryptedItem))
    → IsAt i d o
    → IsAt j e o
    → put_at i d (put_at j e slots) ≡ put_at j e (put_at i d slots)
unfolding put_at
put_at-put_at i j d e o [] h k = refl
put_at-put_at i j d e [] (x ∷ slots) h k = absurd h
put_at-put_at zero zero d e (y ∷ o) (x ∷ slots) h k = rw (sym h ∙ k) refl
put_at-put_at zero (suc j) d e (y ∷ o) (x ∷ slots) h k = refl
put_at-put_at (suc i) zero d e (y ∷ o) (x ∷ slots) h k = refl
put_at-put_at (suc i) (suc j) d e (y ∷ o) (x ∷ slots) h k =
    ap (λ l. x ∷ l) (put_at-put_at i j d e o slots h k)

-- Results that deliver the items of one list may arrive in any order.
collect-perm :
    {l m : List DecryptResult}
    → Permᴰ l m
    → (o : List DecryptedItem) (slots : List (Option DecryptedItem)) → All (Delivers o) l
    → All (Delivers o) m × (collect l slots ≡ collect m slots)
unfolding collect and_then
collect-perm Permᴰ.nil o slots h = (tt, refl)
collect-perm (Permᴰ.cons {a} {b} {l₁} {l₂} e p) o slots h =
    let (d, is_done, at) = h.0 in
    let rest = collect-perm p o (put_at a.index d slots) h.1 in
    subst (λ b. All (Delivers o) (b ∷ l₂) × (collect (a ∷ l₁) slots ≡ collect (b ∷ l₂) slots)) e
      ((h.0, rest.0), rw (collect, is_done) rest.1)
collect-perm (Permᴰ.swap {a} {b} {a'} {b'} {l} e f) o slots h =
    let (d, a_done, at_a) = h.0 in
    let (c, b_done, at_b) = h.1.0 in
    subst
      (λ x.
        All (Delivers o) (x ∷ b' ∷ l) × (collect (a ∷ b ∷ l) slots ≡ collect (x ∷ b' ∷ l) slots))
      f
      (subst
        (λ y.
          All (Delivers o) (b ∷ y ∷ l) × (collect (a ∷ b ∷ l) slots ≡ collect (b ∷ y ∷ l) slots))
        e
        (
          (h.1.0, (h.0, h.1.1)),
          rw (collect, a_done, b_done)
              (ap (collect l) (put_at-put_at b.index a.index c d o slots at_b at_a)),
        ))
collect-perm (Permᴰ.trans p q) o slots h =
    let first = collect-perm p o slots h in
    let second = collect-perm q o slots first.0 in (second.0, first.1 ∙ second.1)

-- The slots after the items of a list are in their places.
slots_of : List DecryptedItem → ℕ → List (Option DecryptedItem)
slots_of before n = map some before ++ empty_slots n

slot_items-map : (o : List DecryptedItem) → slot_items (map some o) ≡ o
slot_items-map [] = refl
slot_items-map (d ∷ o) = ap (λ l. d ∷ l) (slot_items-map o)

put_at-append :
    (before : List DecryptedItem) (d : DecryptedItem) (n : ℕ)
    → put_at (length before) d (map some before ++ empty_slots (suc n))
      ≡ map some (before ++ d ∷ []) ++ empty_slots n
unfolding put_at
put_at-append [] d n = refl
put_at-append (b ∷ before) d n = ap (λ l. some b ∷ l) (put_at-append before d n)

IsAt-append :
    (before after : List DecryptedItem) (d : DecryptedItem)
    → IsAt (length before) d (before ++ d ∷ after)
IsAt-append [] after d = refl
IsAt-append (b ∷ before) after d = IsAt-append before after d

done_injective : {A : Type 0} {a b : A} → done a ≡ done b → a ≡ b
done_injective h = cc

abbrev is_done : {A : Type 0} → Outcome A → Bool
is_done (done d) = true
is_done (failed e) = false
is_done panicked = false

done_of : {A : Type 0} (x : Outcome A) → is_done x ≡ true → (a : A) × (x ≡ done a)
done_of (done a) h = (a, refl)
done_of (failed e) h = absurd (cc)
done_of panicked h = absurd (cc)

and_left : (a b : Bool) → (a && b) ≡ true → a ≡ true
and_left a b h = ground arith

and_right : (a b : Bool) → (a && b) ≡ true → b ≡ true
and_right a b h = ground arith

if_false {ℓ} : {A : Type ℓ} {b : Bool} (x y : A) → b ≡ false → (if b then x else y) ≡ y
if_false x y h = rw h refl

and_then_done :
    {A B : Type 0} (x : Outcome A) (f : A → Outcome B) (b : B)
    → and_then x f ≡ done b
    → (a : A) × (x ≡ done a) × (f a ≡ done b)
unfolding and_then
and_then_done (done a) f b h = (a, refl, h)
and_then_done (failed e) f b h = absurd (cc)
and_then_done panicked f b h = absurd (cc)

module _ (p : Primitives) (s : Session) (iks : List SessionItemsKey) where
  -- The jobs, in their order, fill the slots from one index on.
  jobs_in_order :
      (ei : List EncryptedItem) (before o : List DecryptedItem) (index : ℕ)
      → length before ≡ index
      → decrypt_items_sequential p s ei iks ≡ done o
      → All (Delivers (before ++ o)) (decrypt_jobs p s iks index ei)
        × (collect
              (decrypt_jobs p s iks index ei)
              (map some before ++ empty_slots (non_deleted_count ei))
            ≡ done (map some (before ++ o)))
  unfolding decrypt_jobs decrypt_items_sequential collect non_deleted_count and_then
  jobs_in_order [] before o index l h =
      let e : [] ≡ o = done_injective h in
      (tt, rw (← e) (rw (append-nil before, append-nil (map some before)) refl))
  jobs_in_order (e ∷ ei) before o index l h = elim (Bool-cases e.deleted) [
    | inl gone ↦ simp gone (jobs_in_order ei before o index l (simp gone at h))
    | inr kept ↦
        let (d, this, rest) =
          and_then_done (decrypt_item p e s iks) _ o (sym (if_false _ _ kept) ∙ h) in
        let (o', others, same) = and_then_done (decrypt_items_sequential p s ei iks) _ o rest in
        let n = non_deleted_count ei in
        let grown : length (before ++ d ∷ []) ≡ suc index =
          omega (arith, length-append before (d ∷ []), l) in
        let later = jobs_in_order ei (before ++ d ∷ []) o' (suc index) grown others in
        let at : IsAt index d (before ++ d ∷ o') =
          subst (λ i. IsAt i d (before ++ d ∷ o')) l (IsAt-append before o' d) in
        let put : put_at index d (map some before ++ empty_slots (suc n))
            ≡ map some (before ++ d ∷ []) ++ empty_slots n =
          subst
            (λ i.
              put_at i d (map some before ++ empty_slots (suc n))
              ≡ map some (before ++ d ∷ []) ++ empty_slots n)
            l (put_at-append before d n) in
        let joined = append_assoc before (d ∷ []) o' in
        let jobs = decrypt_jobs p s iks index ei in
        let queued =
          record { index = index; outcome = decrypt_item p e s iks }
          ∷ decrypt_jobs p s iks (suc index) ei in
        let slots = map some before ++ empty_slots (suc n) in
        let in_place : All (Delivers (before ++ d ∷ o')) queued = (
          (d, this, at),
          subst (λ o. All (Delivers o) (decrypt_jobs p s iks (suc index) ei)) joined later.0,
        ) in
        let collected : collect queued slots ≡ done (map some (before ++ d ∷ o')) =
          ap
            (λ x.
              and_then x
                (λ d. collect (decrypt_jobs p s iks (suc index) ei) (put_at index d slots)))
            this
          ∙ ap (collect (decrypt_jobs p s iks (suc index) ei)) put
          ∙ later.1
          ∙ ap (λ o. done (map some o)) joined in
        subst
          (λ o.
            All (Delivers (before ++ o)) (decrypt_jobs p s iks index (e ∷ ei))
            × (collect (decrypt_jobs p s iks index (e ∷ ei))
                  (map some before ++ empty_slots (non_deleted_count (e ∷ ei)))
                ≡ done (map some (before ++ o))))
          (done_injective same)
          (
            subst (All (Delivers (before ++ d ∷ o'))) (sym (if_false _ _ kept)) in_place,
            ap (λ l. collect l (map some before ++ empty_slots (non_deleted_count (e ∷ ei))))
                  (if_false (jobs) _ kept)
                ∙ ap (λ n. collect queued (map some before ++ empty_slots n)) (if_false (n) _ kept)
                ∙ collected,
          )
  ]

  all_done : List DecryptResult → Bool
  all_done l = all (λ r. is_done r.outcome) l

  collect-done :
      (l : List DecryptResult) (slots filled : List (Option DecryptedItem))
      → collect l slots ≡ done filled
      → all_done l ≡ true
  unfolding collect all_done and_then
  collect-done [] slots filled h = refl
  collect-done (r ∷ l) slots filled h =
      let (d, this, rest) = and_then_done r.outcome _ filled h in
      simp this (collect-done l (put_at r.index d slots) filled rest)

  sequential-done :
      (ei : List EncryptedItem) (index : ℕ)
      → all_done (decrypt_jobs p s iks index ei) ≡ true
      → (o : List DecryptedItem) × (decrypt_items_sequential p s ei iks ≡ done o)
  unfolding decrypt_jobs decrypt_items_sequential all_done and_then
  sequential-done [] index h = ([], refl)
  sequential-done (e ∷ ei) index h = elim (Bool-cases e.deleted) [
    | inl gone ↦ simp gone (sequential-done ei index (simp gone at h))
    | inr kept ↦
        let all = sym (ap all_done (if_false (decrypt_jobs p s iks index ei) _ kept)) ∙ h in
        let (d, this) = done_of (decrypt_item p e s iks) (and_left _ _ all) in
        let (o, others) = sequential-done ei (suc index) (and_right _ _ all) in
        (
          d ∷ o,
          if_false _ _ kept
              ∙ ap
                  (λ x.
                    and_then x
                      (λ di. and_then (decrypt_items_sequential p s ei iks) (λ o. done (di ∷ o))))
                  this
              ∙ ap (λ x. and_then x (λ o. done (d ∷ o))) others,
        )
  ]

  -- For every order in which the results of the workers arrive, the parallel decryption returns the
  -- items that the sequential one returns, in their order, and returns them exactly where it does.
  pub decrypt_items_parallel_lem :
      (arrival : Arrival) (ei : List EncryptedItem) (o : List DecryptedItem)
      → (decrypt_items_parallel p s iks arrival ei (non_deleted_count ei) ≡ done o)
        ↔ (decrypt_items_sequential p s ei iks ≡ done o)
  unfolding decrypt_items_parallel and_then all_done
  decrypt_items_parallel_lem arrival ei o = (back, forth o)
    where
      forth :
          (o : List DecryptedItem)
          → decrypt_items_sequential p s ei iks ≡ done o
          → decrypt_items_parallel p s iks arrival ei (non_deleted_count ei) ≡ done o
      forth o h =
          let jobs = decrypt_jobs p s iks 0 ei in
          let ordered = jobs_in_order ei [] o 0 refl h in
          let arrived = collect-perm (arrival.results-perm jobs) o _ ordered.0 in
          rw (decrypt_items_parallel, (sym arrived.1 ∙ ordered.1)) (ap done (slot_items-map o))

      back :
          decrypt_items_parallel p s iks arrival ei (non_deleted_count ei) ≡ done o
          → decrypt_items_sequential p s ei iks ≡ done o
      back h =
          let jobs = decrypt_jobs p s iks 0 ei in
          let (filled, collected, same) =
            and_then_done (collect (arrival.results jobs) (empty_slots (non_deleted_count ei))) _ o
              h in
          let no_error = collect-done (arrival.results jobs) _ filled collected in
          let in_order =
            all-perm (λ r. is_done r.outcome) ∣ arrival.results-perm jobs ∣₁ ∙ no_error in
          let (o', h') = sequential-done ei 0 in_order in h' ∙ sym (forth o' h') ∙ h

  none_to_decrypt :
      (ei : List EncryptedItem)
      → non_deleted_count ei ≡ 0
      → decrypt_items_sequential p s ei iks ≡ done []
  unfolding non_deleted_count decrypt_items_sequential
  none_to_decrypt [] h = refl
  none_to_decrypt (e ∷ ei) h = elim (Bool-cases e.deleted) [
    | inl gone ↦ rw gone (none_to_decrypt ei (rw gone at h))
    | inr kept ↦ let no : suc (non_deleted_count ei) ≡ 0 = rw kept at h in absurd (omega arith)
  ]

  -- DecryptItems returns the items that are not deleted, decrypted one by one in their order, exactly
  -- where each of them can be decrypted, however many there are and in whatever order the results of the
  -- workers arrive.
  pub decrypt_items_lem :
      (arrival : Arrival) (ei : List EncryptedItem) (o : List DecryptedItem)
      → (decrypt_items p s iks arrival ei ≡ done o) ↔ (decrypt_items_sequential p s ei iks ≡ done o)
  unfolding decrypt_items
  decrypt_items_lem arrival ei o = elim (Bool-cases (eqb (non_deleted_count ei) 0)) [
    | inl e ↦
        let same = none_to_decrypt ei (omega (arith, (eqb_iff (non_deleted_count ei) 0).0 e)) in
        rw (e, same) (λ h. h, λ h. h)
    | inr e ↦ elim (Bool-cases (ltb (non_deleted_count ei) 50)) [
      | inl l ↦ rw (e, l) (λ h. h, λ h. h)
      | inr l ↦ rw (e, l) (decrypt_items_parallel_lem arrival ei o)
    ]
  ]
