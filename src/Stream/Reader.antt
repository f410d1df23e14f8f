-- ===== src/Stream/Reader.antt =====
-- `FilingReader`: its `next` and `into_filing`. Each loop has one unit of fuel more than there are
-- lines left, and each round takes a line.
use hardmoney.Filing.Body.{is_blank, split_old_delimited, split_new_delimited}
use hardmoney.Stream.Body.{finish, attach_text, Item, accept, fail_with, Body}
use hardmoney.Stream.{Preamble, into_filing}
use hardmoney.Stream.Source.{
  LineKind, blank, begin_text, data_record, read_text_block, lines_left, classify, LineSource,
  next_line, next_non_blank_line,
}
use hardmoney.Filing.{Filing, Lenient}
use hardmoney.Line.{ParsedLine}
use hardmoney.Error.{FecError}
use hardmoney.Prelude.Result.{ok, err, Result}
use hardmoney.Text.{trim, Str}
use hardmoney.Form.{Regex}
use hardmoney.Layout.{Layout}
use hardmoney.Table.{Table}
use hardmoney.Prelude.{
  Bool, false, true, all_b, [], ◌∷◌, suc, ◌++◌, none, some, ℕ, List, Option, zero,
}

-- The delimiter of the filing.
pub data Source : Type 0 where
  delimited : LineSource → Source
  csv : LineSource → Source

pub record FilingReader : Type 0 where
  pub source : Source
  pub preamble : Preamble
  pub body : Body

abbrev pub source_lines : Source → LineSource
source_lines (delimited src) = src
source_lines (csv src) = src

-- What a loop gives: the item, and what it leaves.
abbrev pub Yield : Type 0
Yield = Option (Item × FilingReader)

unfoldable pub lines_read : FilingReader → ℕ
lines_read r = (source_lines r.source).line_no

-- The tables are sorted and told apart there, which no membership test sees.
unfoldable pub filter_tables : FilingReader → List Table → FilingReader
filter_tables r tables = record r { body = record r.body { filter = some tables } }

abbrev pub lines_of : LineSource → Preamble → Body → FilingReader
lines_of src p b = record { source = delimited src; preamble = p; body = b }

abbrev pub records_of : LineSource → Preamble → Body → FilingReader
records_of src p b = record { source = csv src; preamble = p; body = b }

-- An item with the body it leaves.
abbrev pub yielded : (Body → FilingReader) → Item × Body → Yield
yielded rest (item, b) = some (item, rest b)

-- A record goes on unless an item is out.
abbrev pub unless_out : (Body → Yield) → (Body → FilingReader) → Item × Body → Yield
unless_out again rest (none, b) = again b
unless_out again rest (some item, b) = some (some item, rest b)

module _ (layouts : Table → List Layout) (R : Regex) (decode : Str → Str)
    (read_record : Str → Result FecError (Option (List Str))) where
  abbrev pub unless_all_blank :
      (Body → Yield) → (Body → FilingReader) → Body → Item × Body → Bool → Yield
  unless_all_blank again rest b accepted true = again b
  unless_all_blank again rest b accepted false = unless_out again rest accepted

  -- The fields of a record: passed over when all of them are blank.
  abbrev pub on_fields : (Body → Yield) → (Body → FilingReader) → Body → ℕ → List Str → Yield
  on_fields again rest b line_no fields =
      unless_all_blank again rest b (accept layouts R b fields line_no) (all_b is_blank fields)

  abbrev pub on_block :
      (LineSource → Preamble → Body → Yield)
      → Preamble
      → Body
      → Option (Result FecError Str × LineSource)
      → Yield
  on_block again p b none = none
  on_block again p b (some (err e, src)) = yielded (lines_of src p) (fail_with b e)
  on_block again p b (some (ok text, src)) =
      let (b', summary) = attach_text b p.summary text in
      again src (record p { summary = summary }) b'

  abbrev pub on_kind :
      (LineSource → Preamble → Body → Yield)
      → Preamble
      → Body
      → ℕ × Str
      → LineSource
      → LineKind
      → Yield
  on_kind again p b l src blank = again src p b
  on_kind again p b l src begin_text =
      on_block again p b (read_text_block decode (suc (lines_left src)) src l.0 true [])
  on_kind again p b l src data_record =
      on_fields (λ c. again src p c) (lines_of src p) b l.0 (split_new_delimited l.1)

  abbrev pub on_line :
      (LineSource → Preamble → Body → Yield)
      → Preamble
      → Body
      → Result FecError (Option (ℕ × Str)) × LineSource
      → Yield
  on_line again p b (err e, src) = yielded (lines_of src p) (fail_with b e)
  on_line again p b (ok none, src) = yielded (lines_of src p) (finish b)
  on_line again p b (ok (some (n, raw)), src) = on_kind again p b (n, raw) src (classify raw)

  unfoldable pub next_delimited : ℕ → LineSource → Preamble → Body → Yield
  unfolding next_line classify read_text_block attach_text accept fail_with finish
      split_new_delimited trim
  next_delimited zero src p b = none
  next_delimited (suc fuel) src p b =
      on_line (λ s q c. next_delimited fuel s q c) p b (next_line decode src)

  abbrev pub on_csv_fields :
      (Body → Yield) → (Body → FilingReader) → Body → ℕ → Result FecError (List Str) → Yield
  on_csv_fields again rest b n (err e) = yielded rest (fail_with b e)
  on_csv_fields again rest b n (ok fields) = on_fields again rest b n fields

  abbrev pub on_csv_line :
      (LineSource → Body → Yield)
      → Preamble
      → Body
      → Option (Result FecError (Option (ℕ × Str)) × LineSource)
      → Yield
  on_csv_line again p b none = none
  on_csv_line again p b (some (err e, src)) = yielded (records_of src p) (fail_with b e)
  on_csv_line again p b (some (ok none, src)) = yielded (records_of src p) (finish b)
  on_csv_line again p b (some (ok (some (n, raw)), src)) =
      on_csv_fields (λ c. again src c) (records_of src p) b n (split_old_delimited read_record raw)

  unfoldable pub next_csv : ℕ → LineSource → Preamble → Body → Yield
  unfolding next_non_blank_line accept fail_with finish split_old_delimited trim
  next_csv zero src p b = none
  next_csv (suc fuel) src p b =
      on_csv_line (λ s c. next_csv fuel s p c) p b
        (next_non_blank_line decode (suc (lines_left src)) src)

  abbrev pub next_of : Source → Preamble → Body → Yield
  next_of (delimited src) p b = next_delimited (suc (lines_left src)) src p b
  next_of (csv src) p b = next_csv (suc (lines_left src)) src p b

  abbrev pub unless_done : FilingReader → Bool → Yield
  unless_done r true = some (none, r)
  unless_done r false = next_of r.source r.preamble r.body

  -- An error that was deferred comes first; a reader that is done gives nothing.
  abbrev pub next_after : Option FecError → FilingReader → Yield
  next_after (some e) r = some (some (err e), record r { body = record r.body { deferred = none } })
  next_after none r = unless_done r r.body.done

  unfoldable pub next : FilingReader → Yield
  unfolding next_delimited next_csv
  next r = next_after r.body.deferred r

  -- `collect` into a `Result`: up to the end, or to the first error.
  abbrev pub on_item :
      (FilingReader → List ParsedLine → Option (Result FecError (List ParsedLine × FilingReader)))
      → List ParsedLine
      → Yield
      → Option (Result FecError (List ParsedLine × FilingReader))
  on_item again out none = none
  on_item again out (some (none, r)) = some (ok (out, r))
  on_item again out (some (some (err e), r)) = some (err e)
  on_item again out (some (some (ok line), r)) = again r (out ++ (line ∷ []))

  unfoldable pub collect :
      ℕ → FilingReader → List ParsedLine → Option (Result FecError (List ParsedLine × FilingReader))
  unfolding next
  collect zero r out = none
  collect (suc fuel) r out = on_item (λ s o. collect fuel s o) out (next r)

  abbrev pub lenient_of : List ParsedLine × FilingReader → Lenient Filing
  lenient_of (lines, r) = record {
    value = into_filing r.preamble lines;
    skipped = r.body.skipped;
    first_error = r.body.first_error;
  }

  abbrev pub gathered :
      Option (Result FecError (List ParsedLine × FilingReader))
      → Option (Result FecError (Lenient Filing))
  gathered none = none
  gathered (some (err e)) = some (err e)
  gathered (some (ok end)) = some (ok (lenient_of end))

  unfoldable pub all_lines : FilingReader → Option (Result FecError (Lenient Filing))
  unfolding collect into_filing
  all_lines r = gathered (collect (suc (suc (lines_left (source_lines r.source)))) r [])
