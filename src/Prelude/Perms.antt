-- ===== src/Prelude/Perms.antt =====
-- What a rearrangement keeps of a list: its native length, and whether all entries pass a test.
use mathlib.Core.Logic.{∥∥₁_elim}
use mathlib.Core.List.{Perm, Permᴰ}
use native.Mathlib.Nat.{ℕ_set}
use mathlib.Core.Path.{◌≡◌, refl, ap, ◌∙◌}
use mathlib.Core.Bool.{Bool, Bool-set}
use mathlib.Core.List.{List}
use native.Mathlib.Omega.{arith}
use gosn_v.Prelude.Lists.{length, all}

module _ {A : Type 0} where
  lengthᴰ : {l m : List A} → Permᴰ l m → length l ≡ length m
  lengthᴰ Permᴰ.nil = refl
  lengthᴰ (Permᴰ.cons e p) = omega (arith, lengthᴰ p)
  lengthᴰ (Permᴰ.swap e f) = refl
  lengthᴰ (Permᴰ.trans p q) = lengthᴰ p ∙ lengthᴰ q

  pub length-perm : {l m : List A} → Perm l m → length l ≡ length m
  length-perm p = ∥∥₁_elim p (ℕ_set _ _) lengthᴰ

  module _ (f : A → Bool) where
    allᴰ : {l m : List A} → Permᴰ l m → all f l ≡ all f m
    allᴰ Permᴰ.nil = refl
    allᴰ (Permᴰ.cons e p) = cc (ap f e, allᴰ p)
    allᴰ (Permᴰ.swap {a} {b} e g) = ground (arith, ap f e, ap f g)
    allᴰ (Permᴰ.trans p q) = allᴰ p ∙ allᴰ q

    pub all-perm : {l m : List A} → Perm l m → all f l ≡ all f m
    all-perm p = ∥∥₁_elim p (Bool-set _ _) allᴰ
