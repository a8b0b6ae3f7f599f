-- ===== src/Checklist/SortSlice.antt =====
-- sort.Slice of Go's package sort: an unstable sort, so any ordered rearrangement may come out.
use mathlib.Core.List.Perm
use mathlib.Core.List.{Perm}
use gosn_v.Prelude.{
  Bool, true, false, ◌||◌, ◌≡◌, List, [], ◌∷◌, arith, All, if◌then◌else◌, Bool-cases, inl, inr,
}

-- A strict weak order, which the package asks for.
pub record IsWeakOrder {A : Type 0} (less : A → A → Bool) : Type 0 where
  pub asym : (a b : A) → less a b ≡ true → less b a ≡ false
  pub split : (a b c : A) → less a c ≡ true → less a b || less b c ≡ true

-- No entry comes before one that is less.
abbrev pub IsOrdered : {A : Type 0} → (A → A → Bool) → List A → Type 0
IsOrdered less [] = Unit
IsOrdered less (x ∷ xs) = All (λ y. less y x ≡ false) xs × IsOrdered less xs

-- What the package documents of sort.Slice, at entries of type A.
pub record SortSlice (A : Type 0) : Type 0 where
  pub sort : (A → A → Bool) → List A → List A
  pub sort-perm : (less : A → A → Bool) (l : List A) → Perm (sort less l) l
  pub sort-IsOrdered :
      (less : A → A → Bool) (l : List A) → IsWeakOrder less → IsOrdered less (sort less l)

module _ {A : Type 0} (less : A → A → Bool) where
  pub insert : A → List A → List A
  insert x [] = x ∷ []
  insert x (y ∷ ys) = let later = y ∷ insert x ys in if less y x then later else x ∷ y ∷ ys

  pub insertion_sort : List A → List A
  insertion_sort [] = []
  insertion_sort (x ∷ xs) = insert x (insertion_sort xs)

  insert-perm : (x : A) (l : List A) → Perm (insert x l) (x ∷ l)
  unfolding insert
  insert-perm x [] = Perm.refl (x ∷ [])
  insert-perm x (y ∷ ys) =
      let later = Perm.trans (Perm.cons y (insert-perm x ys)) (Perm.swap x y ys) in
      ground (arith, later, Perm.refl (x ∷ y ∷ ys))

  pub insertion_sort-perm : (l : List A) → Perm (insertion_sort l) l
  unfolding insertion_sort
  insertion_sort-perm [] = Perm.refl []
  insertion_sort-perm (x ∷ xs) =
      Perm.trans (insert-perm x (insertion_sort xs)) (Perm.cons x (insertion_sort-perm xs))

  module _ (w : IsWeakOrder less) where
    insert-All :
        (z x : A) (l : List A)
        → less x z ≡ false
        → All (λ y. less y z ≡ false) l
        → All (λ y. less y z ≡ false) (insert x l)
    unfolding insert
    insert-All z x [] h t = (h, tt)
    insert-All z x (y ∷ ys) h t = ground (arith, insert-All z x ys h t.1)

    All-below :
        (x y : A) (l : List A)
        → less y x ≡ false
        → All (λ z. less z y ≡ false) l
        → All (λ z. less z x ≡ false) l
    All-below x y [] h t = tt
    All-below x y (z ∷ l) h t = (ground (arith, w.split z y x, t.0), All-below x y l h t.1)

    insert-IsOrdered : (x : A) (l : List A) → IsOrdered less l → IsOrdered less (insert x l)
    unfolding insert
    insert-IsOrdered x [] t = (tt, tt)
    insert-IsOrdered x (y ∷ ys) t = elim (Bool-cases (less y x)) [
      | inl h ↦ rw h (insert-All y x ys (w.asym y x h) t.0, insert-IsOrdered x ys t.1)
      | inr h ↦ rw h ((h, All-below x y ys h t.0), t)
    ]

    pub insertion_sort-IsOrdered : (l : List A) → IsOrdered less (insertion_sort l)
    unfolding insertion_sort
    insertion_sort-IsOrdered [] = tt
    insertion_sort-IsOrdered (x ∷ xs) =
        insert-IsOrdered x (insertion_sort xs) (insertion_sort-IsOrdered xs)

-- Insertion sort does what the package documents.
unfoldable pub by_insertion : {A : Type 0} → SortSlice A
unfolding insertion_sort insert
by_insertion = record {
  sort = insertion_sort;
  sort-perm = insertion_sort-perm;
  sort-IsOrdered = λ less l w. insertion_sort-IsOrdered less w l;
}
