-- ===== src/Filing/Consistent.antt =====
-- Which parts assemble to a filing.
use hardmoney.Prelude.{
  true, false, List, [], ◌∷◌, Option, none, some, ◌≡◌, ◌↔◌, inl, inr, refl, sym, ap, All,
  Bool-cases,
}
use hardmoney.Prelude.Result.{Result, ok, err, ◌>>=◌}
use hardmoney.Text.{is_empty}
use hardmoney.Table.{Table, eq_table_iff}
use hardmoney.Version.{SpecVersion}
use hardmoney.Form.{Regex, table_for_form_type}
use hardmoney.Error.{FecError}
use hardmoney.Layout.{supports}
use hardmoney.Header.{Header}
use hardmoney.Line.{ParsedLine}
use hardmoney.Filing.{Filing}
use hardmoney.Filing.Assemble.{is_table, check_record, check_records, assembled, from_parts}

-- The token of a record dispatches to its table, whose layout is one of the version.
abbrev pub Fits : Regex → SpecVersion → ParsedLine → Type 0
Fits R version line =
    (table_for_form_type R line.raw_form_type ≡ some line.layout.table)
    × (supports line.layout version ≡ true)

is_table_lem : (t : Table) (o : Option Table) → (is_table t o ≡ true) ↔ (o ≡ some t)
is_table_lem t none = (λ h. absurd (cc h), λ h. absurd (cc h))
is_table_lem t (some u) = (λ h. ap some ((eq_table_iff u t).0 h), λ h. (eq_table_iff u t).1 (cc h))

abbrev passed : Result FecError (Unit {0})
passed = ok tt

in_turn :
    (r s : Result FecError (Unit {0})) → ((r >>= λ u. s) ≡ passed) ↔ ((r ≡ passed) × (s ≡ passed))
in_turn (err e) s = (λ h. absurd (cc h), λ h. absurd (cc (h.0)))
in_turn (ok u) s = (λ h. (refl, h), λ h. h.1)

abbrev parsed : Filing → Result FecError Filing
parsed f = ok f

then_value :
    (r : Result FecError (Unit {0})) (g f : Filing)
    → ((r >>= λ u. parsed g) ≡ parsed f) ↔ ((f ≡ g) × (r ≡ passed))
then_value (err e) g f = (λ h. absurd (cc h), λ h. absurd (cc (h.1)))
then_value (ok u) g f = (λ h. (cc h, refl), λ h. ap parsed (sym h.0))

module _ (R : Regex) where
  check_record-Fits :
      (version : SpecVersion) (line : ParsedLine)
      → (check_record R version line ≡ passed) ↔ Fits R version line
  unfolding check_record
  check_record-Fits version line =
      let found = table_for_form_type R line.raw_form_type in
      elim (Bool-cases (is_table line.layout.table found)) [
        | inl t ↦ elim (Bool-cases (supports line.layout version)) [
          | inl s ↦ rw (t, s) (λ h. ((is_table_lem line.layout.table found).0 t, refl), λ h. refl)
          | inr s ↦ rw (t, s) (λ h. absurd (cc h), λ h. absurd (cc (h.1)))
        ]
        | inr t ↦
            rw t (
              λ h. absurd (cc h),
              λ h. absurd (cc (t, (is_table_lem line.layout.table found).1 h.0)),
            )
      ]

  check_records-Fits :
      (version : SpecVersion) (lines : List ParsedLine)
      → (check_records R version lines ≡ passed) ↔ All (Fits R version) lines
  unfolding check_records
  check_records-Fits version [] = (λ h. tt, λ h. refl)
  check_records-Fits version (line ∷ lines) =
      let both = in_turn (check_record R version line) (check_records R version lines) in
      let here = check_record-Fits version line in
      let later = check_records-Fits version lines in
      (λ h. (here.0 (both.0 h).0, later.0 (both.0 h).1), λ h. both.1 (here.1 h.0, later.1 h.1))

  -- Parts assemble to a filing exactly if the cover's token is not blank and every record, the cover
  -- included, has a token that dispatches to its own table and a layout of the header's version; the
  -- filing is then the one with these parts and the fields derived from them.
  pub from_parts-Fits :
      (header : Header) (summary : ParsedLine) (lines : List ParsedLine) (f : Filing)
      → (from_parts R header summary lines ≡ ok f) ↔ (
          (f ≡ assembled R header summary lines)
          × (is_empty summary.raw_form_type ≡ false)
          × All (Fits R header.version) (summary ∷ lines))
  unfolding from_parts
  from_parts-Fits header summary lines f =
      let checks = check_records-Fits header.version (summary ∷ lines) in
      let last =
        then_value (check_records R header.version (summary ∷ lines))
          (assembled R header summary lines) f in
      elim (Bool-cases (is_empty summary.raw_form_type)) [
        | inl q ↦ rw q (λ h. absurd (cc h), λ h. absurd (cc (h.1)))
        | inr q ↦
            rw q (λ h. ((last.0 h).0, refl, checks.0 (last.0 h).1), λ h. last.1 (h.0, checks.1 h.2))
      ]
