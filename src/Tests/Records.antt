-- ===== src/Tests/Records.antt =====
-- A record of two fields.
use Prim.Native.Nat.Ordering.{lt}
use hardmoney.Table.{Table}
use hardmoney.Version.{electronic}
use hardmoney.Error.{unknown_field}
use hardmoney.Prelude.Result.{ok, err}
use hardmoney.Writer.{wire_cell}
use hardmoney.Text.Trim.{IsTrimmed}
use hardmoney.Prelude.{
  zero, suc, arith, suc, get_elem?, ◌<◌, map, ◌↔◌, ℕ, some, ◌≡◌, ◌≢◌, refl, [], ◌∷◌,
}
use hardmoney.Text.{to_ascii_uppercase, trim_by, is_ascii_whitespace, codes, Str}
use hardmoney.Field.{normalize_field}
use hardmoney.Field.Laws.{normalize_field-IsTrimmed}
use hardmoney.Layout.{index_of, cmp_str, Layout, FieldDef}
use hardmoney.Layout.Lookup.{IsIndexed, Entry, index_of_iff}
use hardmoney.Line.{with_layout, to_cells, get, set, ParsedLine}
use hardmoney.Line.Access.{TokenFollows, IsLine, get-set, set_unknown}
use hardmoney.Line.Cells.{IsWritable, with_layout-wire_cells}
use hardmoney.Writer.Cell.{normalize_field-wire_cell}

abbrev form_type : FieldDef
form_type = record { name = codes "form_type"; column = 0 }

abbrev amount : FieldDef
amount = record { name = codes "amount"; column = 2 }

abbrev sample_layout : Layout
sample_layout = record {
  table = Table.sch_b;
  versions = electronic 8 5 ∷ [];
  fields = form_type ∷ amount ∷ [];
  width = 3;
  by_name = 1 ∷ 0 ∷ [];
}

first-Entry : (e : Entry sample_layout 0) → e.def.name ≡ codes "amount"
first-Entry e = cc (e.indexed, e.listed)

second-Entry : (e : Entry sample_layout 1) → e.def.name ≡ codes "form_type"
second-Entry e = cc (e.indexed, e.listed)

sample-Entry : (k : ℕ) → k < 2 → Entry sample_layout k
sample-Entry zero h = record { at = 1; def = amount; indexed = refl; listed = refl }
sample-Entry (suc zero) h = record { at = 0; def = form_type; indexed = refl; listed = refl }
sample-Entry (suc (suc k)) h = absurd (omega arith)

names_ascend : cmp_str (codes "amount") (codes "form_type") ≡ lt
unfolding cmp_str
names_ascend = refl

sample_ascending :
    (j k : ℕ)
    → j < k
    → (e : Entry sample_layout j) (f : Entry sample_layout k) → cmp_str e.def.name f.def.name ≡ lt
sample_ascending zero (suc zero) h e f = rw (first-Entry e, second-Entry f) names_ascend
sample_ascending zero zero h e f = absurd (omega arith)
sample_ascending (suc j) (suc zero) h e f = absurd (omega arith)
sample_ascending (suc j) zero h e f = absurd (omega arith)
sample_ascending j (suc (suc k)) h e f = absurd (cc (f.indexed))

sample_complete :
    (i : ℕ) (f : FieldDef)
    → get_elem? sample_layout.fields i ≡ some f
    → (k : ℕ) × (get_elem? sample_layout.by_name k ≡ some i)
sample_complete zero f h = (1, refl)
sample_complete (suc zero) f h = (0, refl)
sample_complete (suc (suc i)) f h = absurd (cc)

sample_IsIndexed : IsIndexed sample_layout
sample_IsIndexed = record {
  entry = sample-Entry;
  ascending = sample_ascending;
  complete = sample_complete;
}

abbrev sample : ParsedLine
sample = record {
  raw_form_type = codes "SB21B";
  line_no = 4;
  layout = sample_layout;
  values = codes "SB21B" ∷ codes "12.50" ∷ [];
}

sample-IsLine : IsLine sample
sample-IsLine = record { indexed = sample_IsIndexed; full = refl }

index_example :
    (index_of sample_layout (codes "amount") ≡ some 1)
    ↔ ((f : FieldDef) × (get_elem? sample_layout.fields 1 ≡ some f) × (f.name ≡ codes "amount"))
index_example = index_of_iff sample_layout sample_IsIndexed (codes "amount") 1

abbrev changed : ParsedLine
changed = record sample { values = codes "SB21B" ∷ codes "7" ∷ [] }

sets_amount : set sample (codes "amount") (codes " 7") ≡ ok changed
unfolding set normalize_field
sets_amount = refl

set_example :
    (get changed (codes "amount") ≡ some (normalize_field (codes " 7")))
    × (codes "form_type" ≢ codes "amount"
        → get changed (codes "form_type") ≡ get sample (codes "form_type"))
    × (changed.line_no ≡ sample.line_no)
    × (changed.layout ≡ sample.layout)
    × ((j : ℕ) × (f : FieldDef) × (get_elem? sample.layout.fields j ≡ some f)
        × (f.name ≡ codes "amount")
        × TokenFollows f (codes " 7") sample.raw_form_type changed.raw_form_type)
    × IsLine changed
set_example =
    get-set sample sample-IsLine (codes "amount") (codes "form_type") (codes " 7") changed
      sets_amount

unknown_example :
    (set sample (codes "payee") (codes "A") ≡ err (unknown_field Table.sch_b (codes "payee"))) ↔ (
      (unknown_field Table.sch_b (codes "payee") ≡ unknown_field Table.sch_b (codes "payee"))
      × ((i : ℕ) (f : FieldDef)
          → get_elem? sample_layout.fields i ≡ some f
          → f.name ≢ codes "payee"))
unknown_example =
    set_unknown sample sample-IsLine (codes "payee") (codes "A")
      (unknown_field Table.sch_b (codes "payee"))

sample-IsWritable : IsWritable sample
unfolding to_cells trim_by is_ascii_whitespace to_ascii_uppercase
sample-IsWritable = record {
  full = refl;
  distinct = ((λ h. omega arith, tt), (tt, tt));
  below = (omega arith, (omega arith, tt));
  trimmed = (record { starts = refl; ends = refl }, (record { starts = refl; ends = refl }, tt));
  first_trimmed = record { starts = refl; ends = refl };
  token = refl;
}

cells_example :
    with_layout sample_layout 9 (map wire_cell (to_cells sample)) ≡ record sample { line_no = 9 }
cells_example = with_layout-wire_cells sample 9 sample-IsWritable

trimmed_example : IsTrimmed is_ascii_whitespace (normalize_field (codes " \"a \" "))
trimmed_example = normalize_field-IsTrimmed (codes " \"a \" ")

abbrev quoted : Str
quoted = codes "\"Bob\""

quoted-IsTrimmed : IsTrimmed is_ascii_whitespace quoted
unfolding is_ascii_whitespace
quoted-IsTrimmed = record { starts = refl; ends = refl }

wire_example : normalize_field (wire_cell quoted) ≡ quoted
wire_example = normalize_field-wire_cell quoted quoted-IsTrimmed
