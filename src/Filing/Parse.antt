-- ===== src/Filing/Parse.antt =====
-- `Filing::parse_with`, for both delimiters. The text is decoded already.
use hardmoney.Prelude.{
  ℕ, not, List, [], ◌∷◌, Option, keep, unwrap_or, get_elem?, ◌==◌, if◌then◌else◌,
}
use hardmoney.Prelude.Result.{Result, ok, err, ◌>>=◌}
use hardmoney.Text.{Str, codes, contains, starts_with}
use hardmoney.Table.{Table}
use hardmoney.Form.{Regex}
use hardmoney.Error.{FecError, missing_form_line, deprecated_header_format}
use hardmoney.Layout.{Layout}
use hardmoney.Filing.{Filing, ParseOptions, Lenient}
use hardmoney.Filing.Body.{
  new, between, State, is_blank, str_lines, numbered_lines, split_new_delimited,
  split_old_delimited, new_body, old_body,
}
use hardmoney.Filing.Assemble.{parse_header_and_summary}

-- `acc.finish(parsed)`, with the cover that the loop may have added text to.
abbrev pub finish : Filing → State → Lenient Filing
finish parsed st = record {
  value = record parsed { summary = st.summary; lines = st.acc.lines };
  skipped = st.acc.skipped;
  first_error = st.acc.first_error;
}

abbrev pub start : ParseOptions → Filing → State
start options parsed = record { mode = between; acc = new options; summary = parsed.summary }

-- The two leading lines, and those behind them.
abbrev pub leading : List (ℕ × Str) → Result FecError ((ℕ × Str) × (ℕ × Str) × List (ℕ × Str))
leading (header ∷ summary ∷ rest) = ok (header, summary, rest)
leading _ = err missing_form_line

module _ (layouts : Table → List Layout) (R : Regex)
    (read_record : Str → Result FecError (Option (List Str))) where
  unfoldable pub parse_new_delimited : Str → ParseOptions → Result FecError (Lenient Filing)
  unfolding numbered_lines parse_header_and_summary split_new_delimited new_body
  parse_new_delimited content options = do
    (header, summary, rest) ← leading (numbered_lines content)
    parsed ←
        parse_header_and_summary R layouts (split_new_delimited header.1)
          (split_new_delimited summary.1) 2
    end ← new_body layouts R (start options parsed) parsed.version rest
    ok (finish parsed end)

  unfoldable pub parse_old_delimited : Str → ParseOptions → Result FecError (Lenient Filing)
  unfolding numbered_lines parse_header_and_summary split_old_delimited old_body
  parse_old_delimited content options = do
    (header, summary, rest) ← leading (keep (λ l. not (is_blank l.1)) (numbered_lines content))
    header_fields ← split_old_delimited read_record header.1
    summary_fields ← split_old_delimited read_record summary.1
    parsed ← parse_header_and_summary R layouts header_fields summary_fields summary.0
    end ← old_body layouts R read_record (start options parsed) parsed.version rest
    ok (finish parsed end)

  unfoldable pub parse_with : Str → ParseOptions → Result FecError (Lenient Filing)
  unfolding parse_new_delimited parse_old_delimited str_lines contains starts_with
  parse_with content options =
      if starts_with (codes "/*") content
      then err deprecated_header_format
      else if contains (λ c. c == 0x1c) (unwrap_or (get_elem? (str_lines content) 0) [])
      then parse_new_delimited content options
      else parse_old_delimited content options
