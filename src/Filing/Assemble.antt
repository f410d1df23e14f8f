-- ===== src/Filing/Assemble.antt =====
-- `Filing::from_parts` and `Filing::parse_header_and_summary`.
use hardmoney.Prelude.{
  ℕ, Bool, false, not, List, [], ◌∷◌, Option, none, some, unwrap_or, get_elem?, if◌then◌else◌,
}
use hardmoney.Prelude.Result.{Result, ok, err, ◌>>=◌, ok_or}
use hardmoney.Text.{Str, is_empty, ends_with_char}
use hardmoney.Field.{normalize_form_type}
use hardmoney.Table.{Table, eq_table}
use hardmoney.Version.{SpecVersion}
use hardmoney.Form.{Regex, table_for_form_type}
use hardmoney.Error.{FecError, missing_form_line, parser_missing, no_matching_version_bucket}
use hardmoney.Layout.{Layout, supports}
use hardmoney.Header.{Header, from_fields, original_filing_id}
use hardmoney.Line.{ParsedLine, from_cells}
use hardmoney.Filing.{Filing, strip_ant_suffix}

-- `table_for_form_type(..) != Some(line.table())`, negated.
abbrev pub is_table : Table → Option Table → Bool
is_table t none = false
is_table t (some u) = eq_table u t

module _ (R : Regex) where
  -- The two tests that each record of a filing must pass.
  unfoldable pub check_record : SpecVersion → ParsedLine → Result FecError (Unit {0})
  unfolding table_for_form_type eq_table supports
  check_record version line =
      if not (is_table line.layout.table (table_for_form_type R line.raw_form_type))
      then err (parser_missing line.raw_form_type version (some line.line_no))
      else if not (supports line.layout version)
      then err (no_matching_version_bucket line.layout.table version (some line.line_no))
      else ok tt

  -- The loop over the cover and the body.
  unfoldable pub check_records : SpecVersion → List ParsedLine → Result FecError (Unit {0})
  unfolding check_record
  check_records version [] = ok tt
  check_records version (line ∷ lines) = do
    u ← check_record version line
    check_records version lines

  -- The fields that are derived.
  abbrev pub assembled : Header → ParsedLine → List ParsedLine → Filing
  assembled header summary lines = record {
    header = header;
    version = header.version;
    raw_form_type = summary.raw_form_type;
    base_form_type = strip_ant_suffix summary.raw_form_type;
    is_amendment = ends_with_char b'A' summary.raw_form_type;
    amends_filing = original_filing_id header;
    summary = summary;
    lines = lines;
  }

  unfoldable pub from_parts : Header → ParsedLine → List ParsedLine → Result FecError Filing
  unfolding check_records strip_ant_suffix original_filing_id ends_with_char
  from_parts header summary lines =
      if is_empty summary.raw_form_type then err missing_form_line else do
        u ← check_records header.version (summary ∷ lines)
        ok (assembled header summary lines)

  module _ (layouts : Table → List Layout) where
    abbrev pub parse_summary : Header → List Str → ℕ → Str → Result FecError Filing
    parse_summary header summary_fields line_no raw_form_type =
        if is_empty raw_form_type then err missing_form_line else do
          table ←
              ok_or (table_for_form_type R raw_form_type)
                (parser_missing raw_form_type header.version (some line_no))
          summary ← from_cells layouts table header.version line_no summary_fields
          from_parts header summary []

    unfoldable pub parse_header_and_summary : List Str → List Str → ℕ → Result FecError Filing
    unfolding from_fields from_parts from_cells normalize_form_type table_for_form_type
    parse_header_and_summary header_fields summary_fields line_no = do
      header ← from_fields header_fields
      parse_summary header summary_fields line_no
          (normalize_form_type (unwrap_or (get_elem? summary_fields 0) []))
