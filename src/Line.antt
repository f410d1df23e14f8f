-- ===== src/Line.antt =====
-- src/parser/filing.rs: `ParsedLine`, one record with the layout that it was parsed with.
pub mod Access
pub mod Cells
use hardmoney.Prelude.{
  and_then, ℕ, Bool, true, false, not, List, [], ◌∷◌, Option, none, some, get_elem?, keep_if,
  unwrap_or, is_some, map, ◌==◌, if◌then◌else◌,
}
use mathlib.Core.Option
use hardmoney.Prelude.Result.{Result, ok, err, ◌>>=◌, ok_or}
use hardmoney.Prelude.Update.{set as set_at, replicate}
use hardmoney.Text.{Str, codes, is_empty}
use hardmoney.Field.{normalize_field, normalize_form_type, is_memo_code}
use hardmoney.Table.{Table, as_str}
use hardmoney.Version.{SpecVersion}
use hardmoney.Error.{FecError, no_matching_version_bucket, unknown_field}
use hardmoney.Layout
use hardmoney.Layout.{FieldDef, Layout, index_of, token_field}

pub record ParsedLine : Type 0 where
  pub raw_form_type : Str
  pub line_no : ℕ
  pub layout : Layout
  pub values : List Str

abbrev pub first_cell : List Str → Str
first_cell cells = unwrap_or (get_elem? cells 0) []

abbrev normalized_or_blank : Option Str → Str
normalized_or_blank none = []
normalized_or_blank (some c) = normalize_field c

unfoldable pub with_layout : Layout → ℕ → List Str → ParsedLine
unfolding normalize_field normalize_form_type
with_layout l line_no cells = record {
  raw_form_type = normalize_form_type (first_cell cells);
  line_no = line_no;
  layout = l;
  values = map (λ f. normalized_or_blank (get_elem? cells (f.column))) l.fields;
}

unfoldable pub get : ParsedLine → Str → Option Str
unfolding index_of
get line field = and_then (index_of line.layout field) (get_elem? line.values)

unfoldable pub get_non_empty : ParsedLine → Str → Option Str
unfolding get
get_non_empty line field = keep_if (λ v. not (is_empty v)) (get line field)

abbrev is_some_and : (Str → Bool) → Option Str → Bool
is_some_and p none = false
is_some_and p (some v) = p v

unfoldable pub is_memo : ParsedLine → Bool
unfolding get is_memo_code
is_memo line = is_some_and is_memo_code (get line (codes "memo_code"))

-- Whether the field at a position is the dispatch token.
abbrev pub is_token : Option FieldDef → Bool
is_token none = false
is_token (some f) = f.column == 0

-- The record with a new value at position `i`; the token follows its field.
unfoldable pub set_at_index : ParsedLine → ℕ → Str → ParsedLine
set_at_index line i value = record line {
  values = set_at line.values i (normalize_field value);
  raw_form_type =
      if is_token (get_elem? line.layout.fields i)
      then normalize_form_type value
      else line.raw_form_type;
}

-- On an unknown name the record is as it was, and the error names the field.
abbrev set_found : ParsedLine → Str → Str → Option ℕ → Result FecError ParsedLine
set_found line field value none = err (unknown_field line.layout.table field)
set_found line field value (some i) = ok (set_at_index line i value)

unfoldable pub set : ParsedLine → Str → Str → Result FecError ParsedLine
unfolding set_at_index index_of
set line field value = set_found line field value (index_of line.layout field)

-- The `for` loop of `to_cells`.
unfoldable pub write_cells : List FieldDef → List Str → List Str → List Str
write_cells [] values cells = cells
write_cells (f ∷ fs) [] cells = cells
write_cells (f ∷ fs) (v ∷ vs) cells = write_cells fs vs (set_at cells f.column v)

unfoldable pub to_cells : ParsedLine → List Str
unfolding write_cells
to_cells line = write_cells line.layout.fields line.values (replicate line.layout.width [])

-- The names with the values, in layout order.
abbrev zip_values : List FieldDef → List Str → List (Str × Str)
zip_values [] vs = []
zip_values (f ∷ fs) [] = []
zip_values (f ∷ fs) (v ∷ vs) = (f.name, v) ∷ zip_values fs vs

unfoldable pub iter : ParsedLine → List (Str × Str)
iter line = zip_values line.layout.fields line.values

unfoldable pub set_pairs : ParsedLine → List (Str × Str) → Result FecError ParsedLine
unfolding set
set_pairs line [] = ok line
set_pairs line ((name, value) ∷ pairs) = do line' ← set line name value; set_pairs line' pairs

abbrev pub or_same : ParsedLine → Result FecError ParsedLine → ParsedLine
or_same line (ok line') = line'
or_same line (err e) = line

-- A blank token is filled in with the table's name; the result of that `set` is dropped.
abbrev fill_token : ParsedLine → Option Str → Table → ParsedLine
fill_token line none table = line
fill_token line (some name) table =
    if is_empty line.raw_form_type then or_same line (set line name (as_str table)) else line

module _ (layouts : Table → List Layout) where
  unfoldable pub from_cells : Table → SpecVersion → ℕ → List Str → Result FecError ParsedLine
  unfolding with_layout Layout.layout
  from_cells table version line_no cells = do
    l ←
        ok_or (Layout.layout layouts table version)
          (no_matching_version_bucket table version (some line_no))
    ok (with_layout l line_no cells)

  unfoldable pub from_pairs :
      Table → SpecVersion → ℕ → List (Str × Str) → Result FecError ParsedLine
  unfolding from_cells set_pairs token_field as_str
  from_pairs table version line_no pairs = do
    line ← from_cells table version line_no []
    filled ← set_pairs line pairs
    ok (fill_token filled (token_field filled.layout) table)
