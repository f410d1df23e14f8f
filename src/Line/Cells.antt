-- ===== src/Line/Cells.antt =====
-- Writing the values of a record to their columns, and reading them back.
use mathlib.Core.Path.{ap₂}
use hardmoney.Prelude.{
  zero, suc, ℕ, ◌<◌, List, [], ◌∷◌, some, ◌≡◌, ◌≢◌, refl, sym, ap, ◌∙◌, length, get_elem?, arith,
  All, map,
}
use hardmoney.Prelude.Update.{
  set as set_at, replicate, length-set, length-replicate, get_elem?-set_self, get_elem?-set_ne,
}
use hardmoney.Text.{Str, is_ascii_whitespace, to_ascii_uppercase}
use hardmoney.Text.Trim.{IsTrimmed}
use hardmoney.Field.{normalize_form_type}
use hardmoney.Layout.{FieldDef}
use hardmoney.Writer.{wire_cell}
use hardmoney.Writer.Cell.{normalize_field-wire_cell, wire_cell-nil}
use hardmoney.Line.{ParsedLine, with_layout, write_cells, to_cells, first_cell, normalized_or_blank}

-- No two fields share a column.
abbrev pub Distinct : List FieldDef → Type 0
Distinct [] = Unit
Distinct (f ∷ fs) = All (λ g. g.column ≢ f.column) fs × Distinct fs

-- Every column lies below the width.
abbrev pub Below : ℕ → List FieldDef → Type 0
Below w = All (λ f. f.column < w)

write_cells_untouched :
    (fs : List FieldDef) (vs cells : List Str) (c : ℕ)
    → All (λ g. g.column ≢ c) fs
    → get_elem? (write_cells fs vs cells) c ≡ get_elem? cells c
unfolding write_cells
write_cells_untouched [] vs cells c h = refl
write_cells_untouched (f ∷ fs) [] cells c h = refl
write_cells_untouched (f ∷ fs) (v ∷ vs) cells c h =
    write_cells_untouched fs vs (set_at cells f.column v) c h.1
    ∙ get_elem?-set_ne cells f.column c v h.0

-- Each field's column holds its value.
abbrev Holds : List FieldDef → List Str → List Str → Type 0
Holds [] vs cells = Unit
Holds (f ∷ fs) [] cells = ⊥
Holds (f ∷ fs) (v ∷ vs) cells = (get_elem? cells f.column ≡ some v) × Holds fs vs cells

write_cells-Holds :
    (fs : List FieldDef) (vs cells : List Str) (w : ℕ)
    → Distinct fs
    → Below w fs
    → length cells ≡ w
    → length vs ≡ length fs
    → Holds fs vs (write_cells fs vs cells)
unfolding write_cells
write_cells-Holds [] vs cells w d b l n = tt
write_cells-Holds (f ∷ fs) [] cells w d b l n = absurd (omega arith)
write_cells-Holds (f ∷ fs) (v ∷ vs) cells w d b l n = (
  write_cells_untouched fs vs (set_at cells f.column v) f.column d.0
      ∙ get_elem?-set_self cells f.column v (omega (arith, b.0)),
  write_cells-Holds fs vs (set_at cells f.column v) w d.1 b.1 (length-set cells f.column v ∙ l)
      (omega arith),
)

get_elem?-map :
    (g : Str → Str) (cells : List Str) (i : ℕ) (v : Str)
    → get_elem? cells i ≡ some v
    → get_elem? (map g cells) i ≡ some (g v)
get_elem?-map g [] i v h = cc
get_elem?-map g (c ∷ cells) zero v h = cc
get_elem?-map g (c ∷ cells) (suc i) v h = get_elem?-map g cells i v h

-- Read back through the wire form of their cells, trimmed values are as they were.
Holds-read :
    (fs : List FieldDef) (vs cells : List Str)
    → Holds fs vs cells
    → All (IsTrimmed is_ascii_whitespace) vs
    → length vs ≡ length fs
    → map (λ f. normalized_or_blank (get_elem? (map wire_cell cells) f.column)) fs ≡ vs
Holds-read [] [] cells h t n = refl
Holds-read [] (v ∷ vs) cells h t n = absurd (omega arith)
Holds-read (f ∷ fs) [] cells h t n = absurd h
Holds-read (f ∷ fs) (v ∷ vs) cells h t n =
    ap₂ ◌∷◌
      (ap normalized_or_blank (get_elem?-map wire_cell cells f.column v h.0)
        ∙ normalize_field-wire_cell v t.0)
      (Holds-read fs vs cells h.1 t.1 (omega arith))

-- What parsing and setting establish of a record: its columns are distinct and below the width,
-- its values trimmed, and its token that of the first column.
pub record IsWritable (line : ParsedLine) : Type 0 where
  pub full : length line.values ≡ length line.layout.fields
  pub distinct : Distinct line.layout.fields
  pub below : Below line.layout.width line.layout.fields
  pub trimmed : All (IsTrimmed is_ascii_whitespace) line.values
  pub first_trimmed : IsTrimmed is_ascii_whitespace (first_cell (to_cells line))
  pub token : line.raw_form_type ≡ to_ascii_uppercase (first_cell (to_cells line))

to_cells-Holds :
    (line : ParsedLine) → IsWritable line → Holds line.layout.fields line.values (to_cells line)
unfolding to_cells
to_cells-Holds line h =
    write_cells-Holds line.layout.fields line.values (replicate line.layout.width [])
      line.layout.width h.distinct h.below (length-replicate line.layout.width []) h.full

first_cell-map :
    (cells : List Str) → first_cell (map wire_cell cells) ≡ wire_cell (first_cell cells)
first_cell-map [] = sym wire_cell-nil
first_cell-map (c ∷ cells) = refl

normalize_form_type-wire_cell :
    (c : Str)
    → IsTrimmed is_ascii_whitespace c
    → normalize_form_type (wire_cell c) ≡ to_ascii_uppercase c
unfolding normalize_form_type
normalize_form_type-wire_cell c h = ap to_ascii_uppercase (normalize_field-wire_cell c h)

-- A record with one trimmed value for each field, whose columns are distinct and below the width,
-- and whose token is that of its trimmed first cell, is read back from the wire form of its cells
-- unchanged, but for the number of the line where it now stands.
pub with_layout-wire_cells :
    (line : ParsedLine) (n : ℕ)
    → IsWritable line
    → with_layout line.layout n (map wire_cell (to_cells line)) ≡ record line { line_no = n }
unfolding with_layout
with_layout-wire_cells line n h =
    ap₂
      (λ (t : Str) (vs : List Str).
        let r : ParsedLine = record {
          raw_form_type = t;
          line_no = n;
          layout = line.layout;
          values = vs;
        } in
        r)
      (ap normalize_form_type (first_cell-map (to_cells line))
        ∙ normalize_form_type-wire_cell (first_cell (to_cells line)) h.first_trimmed
        ∙ sym h.token)
      (Holds-read line.layout.fields line.values (to_cells line) (to_cells-Holds line h) h.trimmed
        h.full)
