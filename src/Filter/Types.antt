-- ===== src/Filter/Types.antt =====
-- The filters of items/filter.go, what it uses of the packages strings and strconv, and what a
-- filter decides. Package regexp is an argument: a compiled pattern is its MatchString.
use gosn_v.Prelude.{
  ℕ, ◌+◌, String, Bool, true, false, not, ◌&&◌, ◌||◌, Option, none, some, List, [], ◌∷◌, map, ◌==◌,
  leb, eqb, any, if◌then◌else◌,
}
use gosn_v.Prelude.Bytes.{codes, same}
use text.Mathlib.Text.{starts_with}

abbrev pub Regex : Type 0
Regex = String → Bool

-- regexp.Compile; none for a pattern that it refuses.
abbrev pub Compiler : Type 0
Compiler = String → Option Regex

pub record Filter : Type 0 where
  pub type : String
  pub key : String
  pub comparison : String
  pub value : String
  pub compiled_re : Option Regex

pub record ItemFilters : Type 0 where
  pub match_any : Bool
  pub filters : List Filter

-- strings.ToLower on one code point. Beside A to Z, two code points have an ASCII letter as their
-- lower case; the other mappings lead from code points beyond ASCII to such, which no key holds.
abbrev pub lower : ℕ → ℕ
lower c =
    if leb b'A' c && leb c b'Z'
    then c + 32
    else if eqb c 0x130
    then b'i'
    else if eqb c 0x212a
    then b'k'
    else c

-- strings.ToLower(key) == name
unfoldable pub key_is : String → String → Bool
unfolding same
key_is key name = same (map lower (codes key)) (codes name)

-- strings.Contains(s, part)
unfoldable pub contains : String → String → Bool
contains String.[] part = part == ""
contains (String.◌∷◌ c s) part = starts_with (String.◌∷◌ c s) part || contains s part

-- The value that strconv.ParseBool returns, an error included.
unfoldable pub parse_bool : String → Bool
parse_bool value = any (λ s. value == s) ("1" ∷ "t" ∷ "T" ∷ "TRUE" ∷ "true" ∷ "True" ∷ [])

-- slices.Contains([]string{own, "Item"}, filter.Type)
abbrev pub is_for : String → Filter → Bool
is_for own f = f.type == own || f.type == "Item"

-- What a filter function for one key returns.
pub record Verdict : Type 0 where
  pub result : Bool
  pub matched_all : Bool
  pub done : Bool

-- How a round of the loop over the filters ends: by a return, or with a new `matchedAll`.
pub data Flow : Type 0 where
  return : Bool → Flow
  next : Bool → Flow

abbrev pub continue : Flow → (Bool → Bool) → Bool
continue (return result) rest = result
continue (next matched_all) rest = rest matched_all

abbrev pub of_verdict : Verdict → Flow
of_verdict v = if v.done then return v.result else next v.matched_all

abbrev pub carry : Bool → Verdict
carry matched_all = record { result = false; matched_all = matched_all; done = false }

abbrev pub finish : Bool → Verdict
finish result = record { result = result; matched_all = false; done = true }

-- The block under a test that holds or not: with any match a hit is the answer, otherwise a miss is.
abbrev pub settle : Bool → Bool → Verdict
settle match_any hit =
    if hit
    then (if match_any then finish true else carry true)
    else (if not match_any then finish false else carry false)

abbrev pub settled : Bool → Bool → Flow
settled match_any hit =
    if hit
    then (if match_any then return true else next true)
    else (if not match_any then return false else next false)

-- f.compiledRE, compiled where it is nil
abbrev pub regex_of : Compiler → Filter → Option Regex
regex_of compile f = elim f.compiled_re [ some re ↦ some re | none ↦ compile f.value ]
