-- ===== src/Filing/Body.antt =====
-- `BodyAccumulator` and the loops over the body lines. The CSV reader of one line is the csv
-- crate's, a parameter here: the fields of the line's record, if there is one.
use hardmoney.Prelude.{
  ℕ, suc, Bool, List, [], ◌∷◌, ◌++◌, Option, none, some, ◌==◌, all_b, unwrap_or, get_elem?,
  if◌then◌else◌,
}
use hardmoney.Prelude.Result.{Result, ok, err, ◌>>=◌}
use hardmoney.Text.{
  Str, codes, trim, trim_end, is_empty, eq_ignore_ascii_case, split, join, strip_suffix,
}
use hardmoney.Field.{normalize_form_type}
use hardmoney.Table.{Table}
use hardmoney.Version.{SpecVersion}
use hardmoney.Form.{Regex, table_for_form_type}
use hardmoney.Error.{FecError, parser_missing, no_matching_version_bucket, unterminated_text_block}
use hardmoney.Layout.{Layout}
use hardmoney.Line.{ParsedLine, from_cells, set, or_same}
use hardmoney.Filing.{
  OnUnparseableLine, fail, skip, ParseOptions, SkipReason, unknown_form_type, no_layout_for_version,
  SkippedLine,
}

pub record BodyAccumulator : Type 0 where
  pub options : ParseOptions
  pub lines : List ParsedLine
  pub skipped : List SkippedLine
  pub first_error : Option FecError

abbrev pub new : ParseOptions → BodyAccumulator
new options = record { options = options; lines = []; skipped = []; first_error = none }

abbrev pub or_first : Option FecError → FecError → Option FecError
or_first none e = some e
or_first (some first) e = some first

abbrev pub skipped_line : ℕ → Str → SkipReason → SkippedLine
skipped_line line_no raw reason = record { line_no = line_no; raw_form_type = raw; reason = reason }

unfoldable pub skip_or_fail :
    BodyAccumulator
    → OnUnparseableLine
    → FecError
    → ℕ
    → Str
    → SkipReason
    → Result FecError BodyAccumulator
skip_or_fail acc fail e line_no raw reason = err e
skip_or_fail acc skip e line_no raw reason = ok (record acc {
  first_error = or_first acc.first_error e;
  skipped = acc.skipped ++ (skipped_line line_no raw reason ∷ []);
})

-- The match on the outcome of `from_cells`.
abbrev pub push_parsed :
    BodyAccumulator → ℕ → Str → Result FecError ParsedLine → Result FecError BodyAccumulator
push_parsed acc line_no form_type (ok line) = ok (record acc { lines = acc.lines ++ (line ∷ []) })
push_parsed acc line_no form_type (err (no_matching_version_bucket t v n)) =
    skip_or_fail acc acc.options.on_missing_version (no_matching_version_bucket t v n) line_no
      form_type no_layout_for_version
push_parsed acc line_no form_type (err e) = err e

-- `self.lines.last_mut().unwrap_or(summary)`, and the `set` whose failure is dropped.
abbrev pub with_text : Str → ParsedLine → ParsedLine
with_text text line = or_same line (set line (codes "text") text)

abbrev pub on_last : (ParsedLine → ParsedLine) → List ParsedLine → List ParsedLine
on_last f [] = []
on_last f (l ∷ []) = f l ∷ []
on_last f (l ∷ m ∷ ls) = l ∷ on_last f (m ∷ ls)

abbrev pub attach_to : Str → List ParsedLine → ParsedLine → List ParsedLine × ParsedLine
attach_to text [] summary = ([], with_text text summary)
attach_to text (l ∷ ls) summary = (on_last (with_text text) (l ∷ ls), summary)

unfoldable pub attach_free_text : BodyAccumulator → ParsedLine → Str → BodyAccumulator × ParsedLine
unfolding set
attach_free_text acc summary text =
    let (lines, cover) = attach_to text acc.lines summary in (record acc { lines = lines }, cover)

-- `str::lines`: a break is `\n` or `\r\n`, and the last line need not have one.
abbrev pub line_ends : List Str → List Str
line_ends [] = []
line_ends (s ∷ []) = if is_empty s then [] else s ∷ []
line_ends (s ∷ t ∷ ts) = unwrap_or (strip_suffix 13 s) s ∷ line_ends (t ∷ ts)

unfoldable pub str_lines : Str → List Str
unfolding split strip_suffix
str_lines content = line_ends (split 10 content)

-- Numbered from 1 on; a text has fewer lines than a `u64` holds.
abbrev pub number : ℕ → List Str → List (ℕ × Str)
number n [] = []
number n (l ∷ ls) = (n, l) ∷ number (suc n) ls

unfoldable pub numbered_lines : Str → List (ℕ × Str)
unfolding str_lines
numbered_lines content = number 1 (str_lines content)

abbrev pub drop_returns : Str → Str
drop_returns s = trim_end (λ c. c == 13) s

unfoldable pub split_new_delimited : Str → List Str
unfolding trim_end split
split_new_delimited raw = split 0x1c (drop_returns raw)

abbrev pub is_blank : Str → Bool
is_blank s = is_empty (trim s)

abbrev pub is_marker : Str → Str → Bool
is_marker marker raw = eq_ignore_ascii_case (trim raw) marker

-- Where the loop stands: between records, or in the text block that opened at a line.
pub data Mode : Type 0 where
  between : Mode
  in_block : ℕ → List Str → Mode

pub record State : Type 0 where
  pub mode : Mode
  pub acc : BodyAccumulator
  pub summary : ParsedLine

-- An empty line yields no record; it is one blank field.
unfoldable pub split_old_delimited :
    (Str → Result FecError (Option (List Str))) → Str → Result FecError (List Str)
unfolding trim_end
split_old_delimited read_record raw = do
  fields ← read_record (drop_returns raw)
  ok (unwrap_or fields ([] ∷ []))

module _ (layouts : Table → List Layout) (R : Regex) where
  abbrev pub push_token :
      BodyAccumulator
      → List Str
      → SpecVersion
      → ℕ
      → Str
      → Option Table
      → Result FecError BodyAccumulator
  push_token acc fields version line_no form_type none =
      skip_or_fail acc acc.options.on_unknown_line (parser_missing form_type version (some line_no))
        line_no form_type unknown_form_type
  push_token acc fields version line_no form_type (some table) =
      push_parsed acc line_no form_type (from_cells layouts table version line_no fields)

  unfoldable pub push_body_line :
      BodyAccumulator → List Str → SpecVersion → ℕ → Result FecError BodyAccumulator
  unfolding from_cells skip_or_fail table_for_form_type normalize_form_type
  push_body_line acc fields version line_no =
      let form_type = normalize_form_type (unwrap_or (get_elem? fields 0) []) in
      if is_empty form_type
      then ok acc
      else push_token acc fields version line_no form_type (table_for_form_type R form_type)

  -- One record of the body, unless all its fields are blank.
  abbrev pub push_fields : State → SpecVersion → ℕ → List Str → Result FecError State
  push_fields st version line_no fields =
      if all_b is_blank fields
      then ok st
      else do acc ← push_body_line st.acc fields version line_no; ok (record st { acc = acc })

  abbrev pub close_block : State → List Str → State
  close_block st collected =
      let (acc, summary) = attach_free_text st.acc st.summary (join 10 collected) in
      record { mode = between; acc = acc; summary = summary }

  -- One physical line, in the loop of `parse_new_delimited`.
  abbrev pub step_in : Mode → State → SpecVersion → ℕ × Str → Result FecError State
  step_in (in_block start collected) st version (line_no, raw) =
      if is_marker (codes "[ENDTEXT]") raw
      then ok (close_block st collected)
      else ok (record st { mode = in_block start (collected ++ (drop_returns raw ∷ [])) })
  step_in between st version (line_no, raw) =
      if is_blank raw
      then ok st
      else if is_marker (codes "[BEGINTEXT]") raw
      then ok (record st { mode = in_block line_no [] })
      else push_fields st version line_no (split_new_delimited raw)

  -- The end of the input; a block that is open has no end.
  abbrev pub at_end : Mode → State → Result FecError State
  at_end between st = ok st
  at_end (in_block start collected) st = err (unterminated_text_block start)

  unfoldable pub new_body : State → SpecVersion → List (ℕ × Str) → Result FecError State
  unfolding push_body_line attach_free_text split_new_delimited trim eq_ignore_ascii_case join
  new_body st version [] = at_end st.mode st
  new_body st version (l ∷ ls) = do next ← step_in st.mode st version l; new_body next version ls

  module _ (read_record : Str → Result FecError (Option (List Str))) where
    -- The loop of `parse_old_delimited`.
    unfoldable pub old_body : State → SpecVersion → List (ℕ × Str) → Result FecError State
    unfolding push_body_line split_old_delimited trim
    old_body st version [] = ok st
    old_body st version ((line_no, raw) ∷ ls) = do
      fields ← split_old_delimited read_record raw
      next ← push_fields st version line_no fields
      old_body next version ls
