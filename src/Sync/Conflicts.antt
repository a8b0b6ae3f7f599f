-- ===== src/Sync/Conflicts.antt =====
-- The list operations on conflicts in items/sync.go: ConflictedItems.DeDupe.
use gosn_v.Prelude.{
  String, Bool, true, false, not, ◌&&◌, ◌||◌, ◌≡◌, refl, sym, ap, ◌∙◌, List, [], ◌∷◌, ◌==◌, eq_iff,
  arith, any, keep, if◌then◌else◌, Bool-cases, inl, inr,
}
use gosn_v.Sync.Types.{ConflictedItem}

-- slices.Contains(seen, uuid)
abbrev pub contains : List String → String → Bool
contains seen uuid = any (λ s. s == uuid) seen

-- The loop of DeDupe, with the UUIDs of server items and of unsaved items that were seen.
unfoldable pub dedupe_loop :
    (seen_server_items seen_unsaved_items : List String) → List ConflictedItem → List ConflictedItem
dedupe_loop seen_server_items seen_unsaved_items [] = []
dedupe_loop seen_server_items seen_unsaved_items (ci ∷ cis) =
    let skip = dedupe_loop seen_server_items seen_unsaved_items cis in
    let server = dedupe_loop (ci.server_item.uuid ∷ seen_server_items) seen_unsaved_items cis in
    let unsaved = dedupe_loop seen_server_items (ci.unsaved_item.uuid ∷ seen_unsaved_items) cis in
    if not (ci.server_item.uuid == "")
    then (if not (contains seen_server_items ci.server_item.uuid) then ci ∷ server else skip)
    else if not (ci.unsaved_item.uuid == "")
    then (if not (contains seen_unsaved_items ci.unsaved_item.uuid) then ci ∷ unsaved else skip)
    else ci ∷ skip

unfoldable pub dedupe_conflicts : List ConflictedItem → List ConflictedItem
unfolding dedupe_loop
dedupe_conflicts cis = dedupe_loop [] [] cis

-- Two conflicts are about the same item of the server or, without one, the same unsaved item. A
-- conflict with neither is about no item.
abbrev pub same_subject : ConflictedItem → ConflictedItem → Bool
same_subject a b =
    if not (a.server_item.uuid == "")
    then a.server_item.uuid == b.server_item.uuid
    else not (a.unsaved_item.uuid == "")
      && ((b.server_item.uuid == "") && (a.unsaved_item.uuid == b.unsaved_item.uuid))

-- Each conflict, without the later ones about the same item.
unfoldable pub first_of_each : List ConflictedItem → List ConflictedItem
first_of_each [] = []
first_of_each (ci ∷ cis) = ci ∷ keep (λ d. not (same_subject ci d)) (first_of_each cis)

-- The loop has seen no conflict about the same item.
abbrev is_new : List String → List String → ConflictedItem → Bool
is_new seen_server_items seen_unsaved_items d =
    if not (d.server_item.uuid == "")
    then not (contains seen_server_items d.server_item.uuid)
    else (d.unsaved_item.uuid == "") || not (contains seen_unsaved_items d.unsaved_item.uuid)

keep-keep :
    {A : Type 0} (p q r : A → Bool)
    → ((x : A) → (p x && q x) ≡ r x)
    → (xs : List A) → keep p (keep q xs) ≡ keep r xs
keep-keep p q r h [] = refl
keep-keep p q r h (x ∷ xs) = ground (arith, h x, keep-keep p q r h xs)

-- What was seen with a UUID and what is about an item with it agree.
contains_same :
    (seen : List String) (u v : String) → (u == v) ≡ true → contains seen u ≡ contains seen v
contains_same seen u v h = ap (contains seen) ((eq_iff u v).0 h)

is_new-seen :
    (ss us : List String) (c d : ConflictedItem)
    → is_new ss us c ≡ false
    → (is_new ss us d && not (same_subject c d)) ≡ is_new ss us d
is_new-seen ss us c d h = ground (
  arith,
  h,
  contains_same ss c.server_item.uuid d.server_item.uuid,
  contains_same us c.unsaved_item.uuid d.unsaved_item.uuid,
  eq_iff c.server_item.uuid d.server_item.uuid,
  eq_iff c.unsaved_item.uuid d.unsaved_item.uuid,
)

is_new-server :
    (ss us : List String) (c d : ConflictedItem)
    → (c.server_item.uuid == "") ≡ false
    → (is_new ss us d && not (same_subject c d)) ≡ is_new (c.server_item.uuid ∷ ss) us d
is_new-server ss us c d h = elim (Bool-cases (c.server_item.uuid == d.server_item.uuid)) [
  | inl e ↦
      let same = (eq_iff c.server_item.uuid d.server_item.uuid).0 e in
      let full : (d.server_item.uuid == "") ≡ false = ap (λ s. s == "") (sym same) ∙ h in
      ground (arith, h, full, e)
  | inr e ↦ ground (arith, h, e)
]

is_new-unsaved :
    (ss us : List String) (c d : ConflictedItem)
    → (c.server_item.uuid == "") ≡ true
    → (c.unsaved_item.uuid == "") ≡ false
    → (is_new ss us d && not (same_subject c d)) ≡ is_new ss (c.unsaved_item.uuid ∷ us) d
is_new-unsaved ss us c d g h = elim (Bool-cases (c.unsaved_item.uuid == d.unsaved_item.uuid)) [
  | inl e ↦
      let same = (eq_iff c.unsaved_item.uuid d.unsaved_item.uuid).0 e in
      let full : (d.unsaved_item.uuid == "") ≡ false = ap (λ s. s == "") (sym same) ∙ h in
      ground (arith, g, h, full, e)
  | inr e ↦ ground (arith, g, h, e)
]

is_new-blank :
    (ss us : List String) (c d : ConflictedItem)
    → (c.server_item.uuid == "") ≡ true
    → (c.unsaved_item.uuid == "") ≡ true
    → (is_new ss us d && not (same_subject c d)) ≡ is_new ss us d
is_new-blank ss us c d g h = ground (arith, g, h)

dedupe_loop_lem :
    (ss us : List String) (cis : List ConflictedItem)
    → dedupe_loop ss us cis ≡ keep (is_new ss us) (first_of_each cis)
unfolding dedupe_loop first_of_each
dedupe_loop_lem ss us [] = refl
dedupe_loop_lem ss us (c ∷ cis) =
    let others = λ (d : ConflictedItem). not (same_subject c d) in
    let firsts = first_of_each cis in
    elim (Bool-cases (is_new ss us c)) [
      | inr old ↦
          let skip = dedupe_loop_lem ss us cis in
          let merge =
            keep-keep (is_new ss us) others (is_new ss us) (λ d. is_new-seen ss us c d old)
              firsts in
          ground (arith, old, skip, merge)
      | inl new ↦ elim (Bool-cases (c.server_item.uuid == "")) [
        | inr server ↦
            let rest = dedupe_loop_lem (c.server_item.uuid ∷ ss) us cis in
            let merge =
              keep-keep (is_new ss us) others (is_new (c.server_item.uuid ∷ ss) us)
                (λ d. is_new-server ss us c d server) firsts in
            ground (arith, new, server, rest, merge)
        | inl no_server ↦ elim (Bool-cases (c.unsaved_item.uuid == "")) [
          | inr unsaved ↦
              let rest = dedupe_loop_lem ss (c.unsaved_item.uuid ∷ us) cis in
              let merge =
                keep-keep (is_new ss us) others (is_new ss (c.unsaved_item.uuid ∷ us))
                  (λ d. is_new-unsaved ss us c d no_server unsaved) firsts in
              ground (arith, new, no_server, unsaved, rest, merge)
          | inl blank ↦
              let rest = dedupe_loop_lem ss us cis in
              let merge =
                keep-keep (is_new ss us) others (is_new ss us)
                  (λ d. is_new-blank ss us c d no_server blank) firsts in
              ground (arith, new, no_server, blank, rest, merge)
        ]
      ]
    ]

keep_all : {A : Type 0} (p : A → Bool) → ((x : A) → p x ≡ true) → (xs : List A) → keep p xs ≡ xs
keep_all p h [] = refl
keep_all p h (x ∷ xs) = ground (arith, h x, keep_all p h xs)

-- DeDupe keeps, in order, each conflict that no earlier one about the same item stands before; those
-- about no item all stay.
dedupe_conflicts_lem : (cis : List ConflictedItem) → dedupe_conflicts cis ≡ first_of_each cis
unfolding dedupe_conflicts
dedupe_conflicts_lem cis =
    dedupe_loop_lem [] [] cis ∙ keep_all (is_new [] []) (λ d. ground arith) (first_of_each cis)
