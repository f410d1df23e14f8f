-- ===== src/Typed/Outcome.antt =====
-- src/parser/typed.rs: when a typed view can be had, and the errors otherwise.
use hardmoney.Calendar.{Calendar}
use hardmoney.Line.{ParsedLine}
use hardmoney.Text.{codes, Str}
use hardmoney.Decimal.{Decimal}
use hardmoney.Prelude.{Option-cases, ◌⊎◌, ◌≡◌, ◌≢◌, refl, none, some, inl, inr, Bool-cases}
use hardmoney.Prelude.Result.{Result, ok, err, ◌>>=◌, map_err}
use hardmoney.Table.{eq_table_iff, eq_table, Table}
use hardmoney.Typed.{TypedViewError, typed, with_line, wrong_table, missing_field, req, string_of}
use hardmoney.Typed.Views.{
  ScheduleA, ScheduleB, ScheduleE, Form3xSummary, schedule_a_from_line, schedule_b_from_line,
  schedule_e_from_line, form3x_summary_from_line,
}

abbrev pub filer_field : Str
filer_field = codes "filer_committee_id_number"

-- A record of another table is refused, then one without a filer, each with its line; all others have
-- a view, with the filer that the record names.
abbrev pub Outcome :
    {V : Type 0} → (V → Str) → Table → (ParsedLine → Result TypedViewError V) → ParsedLine → Type 0
Outcome {V} filer table from_line line =
    ((line.layout.table ≢ table)
      × (from_line line ≡ err (wrong_table table line.layout.table line.line_no)))
    ⊎ (((line.layout.table ≡ table)
          × (string_of line filer_field ≡ none)
          × (from_line line ≡ err (missing_field table filer_field (some line.line_no))))
        ⊎ ((id : Str) × (v : V) × (line.layout.table ≡ table)
            × (string_of line filer_field ≡ some id)
            × (from_line line ≡ ok v)
            × (filer v ≡ id)))

viewed-Outcome :
    {V : Type 0} (filer : V → Str) (table : Table) (build : ParsedLine → Str → V)
    → ((line : ParsedLine) (id : Str) → filer (build line id) ≡ id)
    → (line : ParsedLine)
    → Outcome filer table
        (λ line. typed table line >>= λ checked.
          map_err
            (λ e. with_line e line.line_no)
            (req table checked filer_field >>= λ id. ok (build checked id)))
        line
unfolding typed req with_line
viewed-Outcome filer table build own line = elim (Bool-cases (eq_table line.layout.table table)) [
  | inr q ↦ rw q (inl (λ same. cc (q, (eq_table_iff line.layout.table table).1 same), refl))
  | inl q ↦ elim (Option-cases (string_of line filer_field)) [
    | inl f ↦ rw (q, f) (inr (inl ((eq_table_iff line.layout.table table).0 q, refl, refl)))
    | inr (id, f) ↦
        rw (q, f)
          (inr (
            inr (
              id,
              build line id,
              (eq_table_iff line.layout.table table).0 q,
              refl,
              refl,
              own line id,
            )))
  ]
]

-- A view of Schedule A, B or E or of the Form 3X cover is refused on a record of another table, with
-- both tables and the line; on a record of its table without a filer, with that field and the line;
-- and is had from every other record, with the filer that the record names.
pub from_line-Outcome :
    (D : Decimal) (cal : Calendar) (line : ParsedLine)
    → Outcome
        (λ (v : ScheduleA D cal). v.filer_committee_id)
        Table.sch_a
        (schedule_a_from_line D cal)
        line
      × Outcome
          (λ (v : ScheduleB D cal). v.filer_committee_id)
          Table.sch_b
          (schedule_b_from_line D cal)
          line
      × Outcome
          (λ (v : ScheduleE D cal). v.filer_committee_id)
          Table.sch_e
          (schedule_e_from_line D cal)
          line
      × Outcome
          (λ (v : Form3xSummary D cal). v.filer_committee_id)
          Table.f3x
          (form3x_summary_from_line D cal)
          line
unfolding schedule_a_from_line schedule_b_from_line schedule_e_from_line form3x_summary_from_line
from_line-Outcome D cal line = (
  viewed-Outcome (λ v. v.filer_committee_id) Table.sch_a _ (λ l id. refl) line,
  viewed-Outcome (λ v. v.filer_committee_id) Table.sch_b _ (λ l id. refl) line,
  viewed-Outcome (λ v. v.filer_committee_id) Table.sch_e _ (λ l id. refl) line,
  viewed-Outcome (λ v. v.filer_committee_id) Table.f3x _ (λ l id. refl) line,
)
