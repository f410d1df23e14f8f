-- ===== src/Stream.antt =====
-- src/parser/stream.rs: the reader that yields the body lines of a filing one at a time, and
-- `Preamble`, the two lines that it reads first.
pub mod Source
pub mod Body
pub mod Reader
pub mod Open
pub mod Pending
pub mod Blocks
pub mod Progress
pub mod Total
pub mod Fused
pub mod Finite
pub mod Agree
pub mod Refines
pub mod Leading
pub mod Preambles
pub mod Csv
pub mod Whole
pub mod Ends
use hardmoney.Field.{normalize_form_type}
use hardmoney.Prelude.Result.{ok, ok_or, ◌>>=◌}
use hardmoney.Error.{parser_missing, missing_form_line, FecError}
use hardmoney.Prelude.Result.{err, Result}
use hardmoney.Form.{is_allowed_top_level_form, table_for_form_type, Regex}
use hardmoney.Filing.{Filing, strip_ant_suffix}
use hardmoney.Line.{from_cells, ParsedLine}
use hardmoney.Version.{SpecVersion}
use hardmoney.Layout.{Layout}
use hardmoney.Text.{is_empty, ends_with_char, Str}
use hardmoney.Prelude.{[], get_elem?, unwrap_or, some, if◌then◌else◌, ℕ, Option, Bool, List}
use hardmoney.Header.{from_fields as header_from_fields, original_filing_id, Header}
use hardmoney.Table.{Table}

pub record Preamble : Type 0 where
  pub header : Header
  pub version : SpecVersion
  pub raw_form_type : Str
  pub base_form_type : Str
  pub is_amendment : Bool
  pub amends_filing : Option ℕ
  pub summary : ParsedLine

abbrev preamble_of : Header → Str → ParsedLine → Preamble
preamble_of header raw_form_type summary = record {
  header = header;
  version = header.version;
  raw_form_type = raw_form_type;
  base_form_type = strip_ant_suffix raw_form_type;
  is_amendment = ends_with_char b'A' raw_form_type;
  amends_filing = original_filing_id header;
  summary = summary;
}

unfoldable pub is_allowed : Preamble → Bool
unfolding is_allowed_top_level_form
is_allowed p = is_allowed_top_level_form p.base_form_type

unfoldable pub into_filing : Preamble → List ParsedLine → Filing
into_filing p lines = record {
  header = p.header;
  version = p.version;
  raw_form_type = p.raw_form_type;
  base_form_type = p.base_form_type;
  is_amendment = p.is_amendment;
  amends_filing = p.amends_filing;
  summary = p.summary;
  lines = lines;
}

module _ (layouts : Table → List Layout) (R : Regex) where
  abbrev pub with_token : Header → List Str → ℕ → Str → Result FecError Preamble
  with_token header summary_fields line_no raw_form_type =
      if is_empty raw_form_type then err missing_form_line else do
        table ←
            ok_or (table_for_form_type R raw_form_type)
              (parser_missing raw_form_type header.version (some line_no))
        summary ← from_cells layouts table header.version line_no summary_fields
        ok (preamble_of header raw_form_type summary)

  unfoldable pub from_fields_at : List Str → List Str → ℕ → Result FecError Preamble
  unfolding header_from_fields from_cells normalize_form_type table_for_form_type strip_ant_suffix
      original_filing_id ends_with_char
  from_fields_at header_fields summary_fields line_no = do
    header ← header_from_fields header_fields
    with_token header summary_fields line_no
        (normalize_form_type (unwrap_or (get_elem? summary_fields 0) []))

  unfoldable pub from_fields : List Str → List Str → Result FecError Preamble
  unfolding from_fields_at
  from_fields header_fields summary_fields = from_fields_at header_fields summary_fields 2
