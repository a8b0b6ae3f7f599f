-- ===== src/Cache/Memory.antt =====
-- A database in memory for the examples: a list, of which the first item of a UUID counts.
use mathlib.Core.Option
use gosn_v.Prelude.{
  ◌≡◌, ◌≢◌, refl, sym, ap, ◌∙◌, String, Bool, true, false, Option, none, some, List, [], ◌∷◌, ◌⊎◌,
  inl, inr, ◌==◌, eq_iff, arith, Bool-cases, Option-cases, if◌then◌else◌,
}
use gosn_v.Cache.Types.{CacheItem}
use gosn_v.Cache.Store.Database.{Storm, StormLaws, without_dirty, without_date}

abbrev Memory : Type 0
Memory = List CacheItem

abbrev pub find : String → Memory → Option CacheItem
find u [] = none
find u (i ∷ is) = let rest = find u is in if u == i.uuid then some i else rest

abbrev drop_uuid : String → Memory → Memory
drop_uuid u [] = []
drop_uuid u (i ∷ is) = let rest = drop_uuid u is in if u == i.uuid then rest else i ∷ rest

abbrev mark : (CacheItem → CacheItem) → String → Memory → Memory
mark f u [] = []
mark f u (i ∷ is) = let rest = mark f u is in (if u == i.uuid then f i else i) ∷ rest

-- A change of the items of a UUID, refused where there is none.
abbrev if_found : (String → Memory → Memory) → String → Memory → Memory ⊎ (String × Bool)
if_found change u db = elim (find u db) [
  | none ↦ inr ("not found", true)
  | some i ↦ inl (change u db)
]

if_found_missing :
    (change : String → Memory → Memory) (u : String) (db : Memory) (e : String)
    → if_found change u db ≡ inr (e, true)
    → find u db ≡ none
if_found_missing change u db e h = elim (Option-cases (find u db)) [
  | inl n ↦ n
  | inr (i, s) ↦ let no = rw (if_found, s) at h in absurd (cc)
]

if_found_changed :
    (change : String → Memory → Memory) (u : String) (db changed : Memory)
    → if_found change u db ≡ inl changed
    → change u db ≡ changed
if_found_changed change u db changed h = elim (Option-cases (find u db)) [
  | inl n ↦ let no = rw (if_found, n) at h in absurd (cc)
  | inr (i, s) ↦ let e = rw (if_found, s) at h in cc
]

if_found_certain :
    (change : String → Memory → Memory) (u : String) (db : Memory) (e : String)
    → if_found change u db ≢ inr (e, false)
if_found_certain change u db e h = elim (Option-cases (find u db)) [
  | inl n ↦ let no = rw (if_found, n) at h in absurd (cc)
  | inr (i, s) ↦ let no = rw (if_found, s) at h in absurd (cc)
]

find-drop_uuid :
    (u v : String) (db : Memory) → find u (drop_uuid v db) ≡ (if u == v then none else find u db)
find-drop_uuid u v [] = ground arith
find-drop_uuid u v (i ∷ is) =
    ground (arith, eq_iff u v, eq_iff v i.uuid, eq_iff u i.uuid, find-drop_uuid u v is)

find-mark :
    (f : CacheItem → CacheItem)
    → ((i : CacheItem) → (f i).uuid ≡ i.uuid)
    → (u v : String) (db : Memory)
    → find u (mark f v db) ≡ (if u == v then Option.map f (find u db) else find u db)
find-mark f h u v [] = ground arith
find-mark f h u v (i ∷ is) = elim (Bool-cases (v == i.uuid)) [
  | inl e ↦ ground (
    arith,
    e,
    h i,
    eq_iff u v,
    eq_iff v i.uuid,
    eq_iff u i.uuid,
    eq_iff u (f i).uuid,
    find-mark f h u v is,
  )
  | inr e ↦ ground (arith, e, eq_iff u v, eq_iff v i.uuid, eq_iff u i.uuid, find-mark f h u v is)
]

abbrev to_list : Option CacheItem → List CacheItem
to_list none = []
to_list (some i) = i ∷ []

abbrev pub memory : Storm Memory
memory = record {
  begin = λ db. inl db;
  save = λ i db. inl (i ∷ db);
  delete_struct = λ i db. if_found drop_uuid i.uuid db;
  unset_dirty = λ u db. if_found (mark without_dirty) u db;
  unset_dirtied_date = λ u db. if_found (mark without_date) u db;
  commit = λ db. inl db;
  rollback = λ db. none;
  close = λ db. none;
  find_uuid = λ u db. inl (to_list (find u db));
  lookup = find;
}

pub memory_steady :
    (u : String) (tx : Memory) (e : String) → memory.unset_dirty u tx ≢ inr (e, false)
memory_steady u tx e = if_found_certain (mark without_dirty) u tx e

abbrev left : Memory → Memory ⊎ String
left db = inl db

inl_injective : {a b : Memory} → left a ≡ left b → a ≡ b
inl_injective h = cc

pub memory-StormLaws : StormLaws memory
memory-StormLaws = record {
  lookup-begin = λ u db tx h. ap (find u) (sym (inl_injective h));
  lookup-commit = λ u tx db h. ap (find u) (sym (inl_injective h));
  lookup-save = λ u i tx saved h. ap (find u) (sym (inl_injective h));
  lookup-delete_struct = λ u i tx deleted h.
      ap (find u) (sym (if_found_changed drop_uuid i.uuid tx deleted h))
      ∙ find-drop_uuid u i.uuid tx;
  delete_struct_missing = λ i tx e h. if_found_missing drop_uuid i.uuid tx e h;
  lookup-unset_dirty = λ u v tx cleaned h.
      ap (find u) (sym (if_found_changed (mark without_dirty) v tx cleaned h))
      ∙ find-mark without_dirty (λ i. refl) u v tx;
  unset_dirty_missing = λ u tx e h. if_found_missing (mark without_dirty) u tx e h;
  lookup-unset_dirtied_date = λ u v tx cleaned h.
      ap (find u) (sym (if_found_changed (mark without_date) v tx cleaned h))
      ∙ find-mark without_date (λ i. refl) u v tx;
  unset_dirtied_date_missing = λ u tx e h. if_found_missing (mark without_date) u tx e h;
}
