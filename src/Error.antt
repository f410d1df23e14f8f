-- ===== src/Error.antt =====
-- src/parser/error.rs: the failures of the parser (an I/O error by its message), less those that
-- wrap an error of another crate (`Csv`, `Fetch`).
use hardmoney.Prelude.{ℕ, Option, none, some}
use hardmoney.Text.{Str}
use hardmoney.Table.{Table}
use hardmoney.Version.{SpecVersion}

pub data FecError : Type 0 where
  io : Str → FecError
  deprecated_header_format : FecError
  unknown_electronic_header_version : Str → FecError
  missing_form_line : FecError
  no_matching_version_bucket : Table → SpecVersion → Option ℕ → FecError
  parser_missing : Str → SpecVersion → Option ℕ → FecError
  unterminated_text_block : ℕ → FecError
  unknown_field : Table → Str → FecError
  lines_skipped : ℕ → FecError → FecError

-- The physical line that an error is about, if it is known.
unfoldable pub line_no : FecError → Option ℕ
line_no (no_matching_version_bucket t v n) = n
line_no (parser_missing f v n) = n
line_no (unterminated_text_block n) = some n
line_no (lines_skipped k first) = line_no first
line_no _ = none
