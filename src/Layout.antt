-- ===== src/Layout.antt =====
-- src/parser/schema.rs: the column layout of a table at some spec versions. The layouts themselves
-- are written by build.rs from data/fec-csv-sources/, and are parameters here.
pub mod Search
pub mod Lookup
use Prim.Native.Nat.{compare, Ordering}
use Prim.Native.Nat.Ordering.{lt, eq, gt}
use hardmoney.Prelude.{
  ℕ, zero, suc, ◌+◌, ◌-◌, ◌/◌, Bool, true, false, List, [], ◌∷◌, Option, none, some, ltb, ◌==◌,
  if◌then◌else◌, any_b, find_first, get_elem?, length,
}
use mathlib.Core.Option
use hardmoney.Text.{Str}
use hardmoney.Table.{Table}
use hardmoney.Version.{SpecVersion, eq_version}

pub record FieldDef : Type 0 where
  pub name : Str
  pub column : ℕ

pub record Layout : Type 0 where
  pub table : Table
  pub versions : List SpecVersion
  pub fields : List FieldDef
  pub width : ℕ
  pub by_name : List ℕ

unfoldable pub supports : Layout → SpecVersion → Bool
unfolding eq_version
supports l version = any_b (λ v. eq_version v version) l.versions

-- `str::cmp`: the bytes of UTF-8 order as the characters do.
unfoldable pub cmp_str : Str → Str → Ordering
cmp_str [] [] = eq
cmp_str [] (y ∷ ys) = lt
cmp_str (x ∷ xs) [] = gt
cmp_str (x ∷ xs) (y ∷ ys) = elim (compare x y) [ lt ↦ lt | eq ↦ cmp_str xs ys | gt ↦ gt ]

abbrev is_gt : Ordering → Bool
is_gt gt = true
is_gt _ = false

abbrev is_eq : Ordering → Bool
is_eq eq = true
is_eq _ = false

-- The loop of `slice::binary_search_by`: it halves `size` until one position is left. Each round
-- takes one from the fuel, and `size` rounds are enough.
unfoldable pub search_loop : ℕ → (ℕ → Ordering) → ℕ → ℕ → ℕ
search_loop zero probe size base = base
search_loop (suc fuel) probe size base =
    let half = size / 2 in
    let mid = base + half in
    let rest = search_loop fuel probe (size - half) (if is_gt (probe mid) then base else mid) in
    if ltb 1 size then rest else base

-- `binary_search_by(probe).ok()` over `len` positions.
unfoldable pub binary_search : (ℕ → Ordering) → ℕ → Option ℕ
unfolding search_loop
binary_search probe zero = none
binary_search probe (suc n) =
    let base = search_loop (suc n) probe (suc n) 0 in if is_eq (probe base) then some base else none

abbrev name_order : Str → Option FieldDef → Ordering
name_order name none = lt
name_order name (some f) = cmp_str f.name name

-- `self.fields.get(usize::from(i)).map_or(Less, |f| f.name.cmp(name))`, at a position of `by_name`.
abbrev probe_entry : Layout → Str → Option ℕ → Ordering
probe_entry l name none = lt
probe_entry l name (some i) = name_order name (get_elem? l.fields i)

abbrev pub probe : Layout → Str → ℕ → Ordering
probe l name k = probe_entry l name (get_elem? l.by_name k)

abbrev entry_at : List ℕ → Option ℕ → Option ℕ
entry_at by_name none = none
entry_at by_name (some k) = get_elem? by_name k

unfoldable pub index_of : Layout → Str → Option ℕ
unfolding binary_search cmp_str
index_of l name = entry_at l.by_name (binary_search (probe l name) (length l.by_name))

abbrev field_at : List FieldDef → Option ℕ → Option FieldDef
field_at fields none = none
field_at fields (some i) = get_elem? fields i

unfoldable pub field : Layout → Str → Option FieldDef
unfolding index_of
field l name = field_at l.fields (index_of l name)

unfoldable pub token_field : Layout → Option Str
token_field l = Option.map (λ f. f.name) (find_first (λ f. f.column == 0) l.fields)

-- `Table::layout`, over the generated layouts of each table.
unfoldable pub layout : (Table → List Layout) → Table → SpecVersion → Option Layout
unfolding supports
layout layouts table version = find_first (λ l. supports l version) (layouts table)
