-- ===== src/Stream/Open.antt =====
-- `FilingReader::with_options`: the header and the cover are read, and in a delimited filing the text
-- blocks behind the cover.
use hardmoney.Error.{deprecated_header_format, missing_form_line, FecError}
use hardmoney.Text.{codes, contains, starts_with, Str}
use hardmoney.Filing.{Filing, Lenient, ParseOptions}
use hardmoney.Stream.Reader.{lines_of, all_lines, records_of, FilingReader}
use hardmoney.Prelude.{
  none, ◌==◌, if◌then◌else◌, not, some, suc, Bool, ℕ, List, Option, false, true,
}
use hardmoney.Stream.Body.{new as new_body}
use hardmoney.Prelude.Result.{ok, err, Result, ◌>>=◌}
use hardmoney.Form.{Regex}
use hardmoney.Layout.{Layout}
use hardmoney.Table.{Table}
use hardmoney.Line.{ParsedLine}
use hardmoney.Stream.{from_fields_at, Preamble, from_fields}
use hardmoney.Filing.Body.{split_old_delimited, is_blank, split_new_delimited}
use hardmoney.Stream.Source.{
  lines_left, hold_first_body_line, next_line, next_non_blank_line, Reads, LineSource, new,
}

abbrev pub Opened : Type 0
Opened = Option (Result FecError FilingReader)

abbrev pub with_cover : Preamble → ParsedLine → Preamble
with_cover p summary = record p { summary = summary }

module _ (layouts : Table → List Layout) (R : Regex) (decode : Str → Str)
    (read_record : Str → Result FecError (Option (List Str))) (options : ParseOptions) where
  -- Behind the cover: the first record is held, or the body is done.
  abbrev pub with_first :
      Preamble → Option (Result FecError Bool × LineSource × ParsedLine) → Opened
  with_first p none = none
  with_first p (some (err e, src, summary)) = some (err e)
  with_first p (some (ok has_body, src, summary)) = some (
      ok (
        lines_of src (with_cover p summary)
          (record (new_body p.version options) { done = not has_body })))

  abbrev pub with_preamble : LineSource → Result FecError Preamble → Opened
  with_preamble src (err e) = some (err e)
  with_preamble src (ok p) =
      with_first p (hold_first_body_line decode (suc (lines_left src)) src p.summary)

  abbrev pub open_delimited : Str → Result FecError (Option (ℕ × Str)) × LineSource → Opened
  open_delimited header_line (err e, src) = some (err e)
  open_delimited header_line (ok none, src) = some (err missing_form_line)
  open_delimited header_line (ok (some (n, summary_raw)), src) =
      with_preamble src
        (from_fields layouts R (split_new_delimited header_line) (split_new_delimited summary_raw))

  abbrev pub csv_preamble : Str → ℕ → Str → Result FecError Preamble
  csv_preamble header_line n summary_raw = do
    header_record ← split_old_delimited read_record header_line
    summary_record ← split_old_delimited read_record summary_raw
    from_fields_at layouts R header_record summary_record n

  abbrev pub csv_reader : LineSource → Preamble → FilingReader
  csv_reader src p = records_of src p (new_body p.version options)

  abbrev pub open_summary : Str → Option (Result FecError (Option (ℕ × Str)) × LineSource) → Opened
  open_summary header_line none = none
  open_summary header_line (some (err e, src)) = some (err e)
  open_summary header_line (some (ok none, src)) = some (err missing_form_line)
  open_summary header_line (some (ok (some (n, summary_raw)), src)) =
      some (csv_preamble header_line n summary_raw >>= λ p. ok (csv_reader src p))

  abbrev pub open_header : Option (Result FecError (Option (ℕ × Str)) × LineSource) → Opened
  open_header none = none
  open_header (some (err e, src)) = some (err e)
  open_header (some (ok none, src)) = some (err missing_form_line)
  open_header (some (ok (some (n, header_line)), src)) =
      open_summary header_line (next_non_blank_line decode (suc (lines_left src)) src)

  abbrev pub unless_header_blank : Str → LineSource → Bool → Opened
  unless_header_blank header_line src true =
      open_header (next_non_blank_line decode (suc (lines_left src)) src)
  unless_header_blank header_line src false =
      open_summary header_line (next_non_blank_line decode (suc (lines_left src)) src)

  -- A header line that is blank is passed over.
  abbrev pub open_csv : Str → LineSource → Opened
  open_csv header_line src = unless_header_blank header_line src (is_blank header_line)

  abbrev pub by_delimiter : Str → LineSource → Bool → Opened
  by_delimiter header_raw src true = open_delimited header_raw (next_line decode src)
  by_delimiter header_raw src false = open_csv header_raw src

  abbrev pub on_header : Result FecError (Option (ℕ × Str)) × LineSource → Opened
  on_header (err e, src) = some (err e)
  on_header (ok none, src) = some (err missing_form_line)
  on_header (ok (some (n, header_raw)), src) =
      if starts_with (codes "/*") header_raw
      then some (err deprecated_header_format)
      else by_delimiter header_raw src (contains (λ c. c == 0x1c) header_raw)

  unfoldable pub with_options : Reads → Opened
  unfolding next_line next_non_blank_line hold_first_body_line from_fields split_old_delimited
      starts_with contains
  with_options reader = on_header (next_line decode (new reader))

  abbrev pub filing_of : Opened → Option (Result FecError (Lenient Filing))
  filing_of none = none
  filing_of (some (err e)) = some (err e)
  filing_of (some (ok r)) = all_lines layouts R decode read_record r

  -- `open_with`, of a reader.
  unfoldable pub read_filing : Reads → Option (Result FecError (Lenient Filing))
  unfolding with_options all_lines
  read_filing reader = filing_of (with_options reader)
