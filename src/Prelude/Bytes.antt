-- ===== src/Prelude/Bytes.antt =====
-- Go strings as byte sequences, and what the program uses of the package strings on them.
use Prim.Native.Char.{code}
use Prim.Native.Nat.{ℕ, zero, suc, ◌-◌}
use Prim.Native.String.{String}
use mathlib.Core.Path.{◌≡◌, refl}
use mathlib.Core.Logic.{◌↔◌}
use mathlib.Core.Bool.{Bool, true, false, not, ◌&&◌, ◌||◌}
use mathlib.Core.Option.{Option, none, some}
use mathlib.Core.Option
use mathlib.Core.List.{List, [], ◌∷◌, ◌++◌}
use native.Mathlib.Omega.{arith}
use gosn_v.Prelude.Tests.{eqb, if◌then◌else◌}
use gosn_v.Prelude.Lists.{length, all}

abbrev pub Bytes : Type 0
Bytes = List ℕ

-- The bytes of an ASCII text.
abbrev pub codes : String → Bytes
codes String.[] = []
codes (String.◌∷◌ c s) = code c ∷ codes s

-- s == t
unfoldable pub same : Bytes → Bytes → Bool
same [] [] = true
same [] (b ∷ t) = false
same (a ∷ s) [] = false
same (a ∷ s) (b ∷ t) = eqb a b && same s t

pub same_iff : (s t : Bytes) → (same s t ≡ true) ↔ (s ≡ t)
unfolding same
same_iff [] [] = (λ _. refl, λ _. refl)
same_iff [] (b ∷ t) = ground arith
same_iff (a ∷ s) [] = ground arith
same_iff (a ∷ s) (b ∷ t) = ground (arith, same_iff s t)

pub same_refl : (s : Bytes) → same s s ≡ true
same_refl s = (same_iff s s).1 refl

-- strings.HasPrefix(s, p)
unfoldable pub has_prefix : Bytes → Bytes → Bool
has_prefix s [] = true
has_prefix [] (b ∷ p) = false
has_prefix (a ∷ s) (b ∷ p) = eqb a b && has_prefix s p

-- strings.Contains
unfoldable pub includes : Bytes → Bytes → Bool
unfolding has_prefix
includes [] part = has_prefix [] part
includes (c ∷ s) part = has_prefix (c ∷ s) part || includes s part

-- strings.Index(s, string(c)) for a byte c; none for -1
unfoldable pub index_byte : ℕ → Bytes → Option ℕ
index_byte c [] = none
index_byte c (b ∷ s) =
    let rest = Option.map suc (index_byte c s) in if eqb b c then some 0 else rest

-- Puts a byte before the first part of a split text.
abbrev pub cons_head : ℕ → List Bytes → List Bytes
cons_head c [] = (c ∷ []) ∷ []
cons_head c (p ∷ ps) = (c ∷ p) ∷ ps

-- strings.Split(s, sep) for a separator that is not empty; `skip` bytes of a separator are left.
split_from : Bytes → ℕ → Bytes → List Bytes
split_from sep skip [] = [] ∷ []
split_from sep (suc skip) (b ∷ s) = split_from sep skip s
split_from sep zero (b ∷ s) =
    let parts = split_from sep (length sep - 1) s in
    let part = cons_head b (split_from sep zero s) in
    if has_prefix (b ∷ s) sep then [] ∷ parts else part

unfoldable pub split : Bytes → Bytes → List Bytes
unfolding split_from has_prefix
split s sep = split_from sep zero s

-- strings.ReplaceAll(s, old, new) for an old text that is not empty.
replace_from : Bytes → Bytes → ℕ → Bytes → Bytes
replace_from old new skip [] = []
replace_from old new (suc skip) (b ∷ s) = replace_from old new skip s
replace_from old new zero (b ∷ s) =
    let replaced = new ++ replace_from old new (length old - 1) s in
    let kept = b ∷ replace_from old new zero s in if has_prefix (b ∷ s) old then replaced else kept

unfoldable pub replace_all : Bytes → Bytes → Bytes → Bytes
unfolding replace_from has_prefix
replace_all s old new = replace_from old new zero s

-- No byte of the text is `c`.
abbrev pub lacks : ℕ → Bytes → Bool
lacks c s = all (λ b. not (eqb b c)) s

-- A text split at one byte: what stands before the first separator is the first part.
pub split-append :
    (c : ℕ) (p s : Bytes) → lacks c p ≡ true → split (p ++ c ∷ s) (c ∷ []) ≡ p ∷ split s (c ∷ [])
unfolding split
split-append c [] s h = ground arith
split-append c (b ∷ p) s h = ground (arith, split-append c p s)

pub split_one : (c : ℕ) (p : Bytes) → lacks c p ≡ true → split p (c ∷ []) ≡ p ∷ []
unfolding split
split_one c [] h = refl
split_one c (b ∷ p) h = ground (arith, split_one c p)
