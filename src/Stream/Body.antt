-- ===== src/Stream/Body.antt =====
-- `Body`: the dispatch of a record, the options, and the one record that is held back.
use hardmoney.Filing.{
  fail, skip, no_layout_for_version, unknown_form_type, SkipReason, SkippedLine, ParseOptions,
  OnUnparseableLine,
}
use hardmoney.Field.{normalize_form_type}
use hardmoney.Form.{table_for_form_type, Regex}
use hardmoney.Layout.{Layout}
use hardmoney.Filing.Body.{skipped_line, or_first, with_text}
use hardmoney.Prelude.Result.{err, Result, ok}
use hardmoney.Text.{is_empty, Str}
use hardmoney.Version.{SpecVersion}
use hardmoney.Line.{set, from_cells, ParsedLine}
use hardmoney.Error.{no_matching_version_bucket, parser_missing, FecError}
use hardmoney.Table.{Table, eq_table}
use hardmoney.Prelude.{
  get_elem?, unwrap_or, ◌∷◌, ◌++◌, false, [], any_b, none, Bool, List, if◌then◌else◌, ℕ, some,
  Option, true,
}

abbrev pub Item : Type 0
Item = Option (Result FecError ParsedLine)

pub data Lookahead : Type 0 where
  cover : Lookahead
  held_record : ParsedLine → Lookahead
  discarded : Lookahead

pub record Body : Type 0 where
  pub version : SpecVersion
  pub options : ParseOptions
  pub filter : Option (List Table)
  pub skipped : List SkippedLine
  pub first_error : Option FecError
  pub lookahead : Lookahead
  pub deferred : Option FecError
  pub done : Bool

abbrev pub new : SpecVersion → ParseOptions → Body
new version options = record {
  version = version;
  options = options;
  filter = none;
  skipped = [];
  first_error = none;
  lookahead = cover;
  deferred = none;
  done = false;
}

-- A record that was held back goes out.
abbrev pub released : Lookahead → Item
released (held_record previous) = some (ok previous)
released cover = none
released discarded = none

-- An error goes out behind the record that was held back.
abbrev pub failed_item : Lookahead → FecError → Item × Option FecError
failed_item (held_record previous) e = (some (ok previous), some e)
failed_item cover e = (some (err e), none)
failed_item discarded e = (some (err e), none)

abbrev pub defer : Option FecError → Option FecError → Option FecError
defer old none = old
defer old (some e) = some e

unfoldable pub fail_with : Body → FecError → Item × Body
fail_with b e =
    let (item, later) = failed_item b.lookahead e in
    (item, record b { done = true; lookahead = discarded; deferred = defer b.deferred later })

unfoldable pub finish : Body → Item × Body
finish b = (released b.lookahead, record b { done = true; lookahead = discarded })

abbrev is_wanted : Option (List Table) → Table → Bool
is_wanted none table = true
is_wanted (some tables) table = any_b (λ t. eq_table t table) tables

unfoldable pub advance : Body → ParsedLine → Item × Body
unfolding eq_table
advance b line = (
  released b.lookahead,
  record b {
    lookahead = if is_wanted b.filter line.layout.table then held_record line else discarded;
  },
)

unfoldable pub skip_or_fail :
    Body → OnUnparseableLine → FecError → ℕ → Str → SkipReason → Item × Body
unfolding fail_with
skip_or_fail b fail e line_no raw reason = fail_with b e
skip_or_fail b skip e line_no raw reason = (
  none,
  record b {
    first_error = or_first b.first_error e;
    skipped = b.skipped ++ (skipped_line line_no raw reason ∷ []);
  },
)

abbrev pub attach_to : Lookahead → Str → ParsedLine → Lookahead × ParsedLine
attach_to cover text summary = (cover, with_text text summary)
attach_to (held_record line) text summary = (held_record (with_text text line), summary)
attach_to discarded text summary = (discarded, summary)

unfoldable pub attach_text : Body → ParsedLine → Str → Body × ParsedLine
unfolding set
attach_text b summary text =
    let (look, p) = attach_to b.lookahead text summary in (record b { lookahead = look }, p)

module _ (layouts : Table → List Layout) (R : Regex) where
  -- The match on the outcome of `from_cells`.
  abbrev pub accept_parsed : Body → ℕ → Str → Result FecError ParsedLine → Item × Body
  accept_parsed b line_no form_type (ok line) = advance b line
  accept_parsed b line_no form_type (err (no_matching_version_bucket t v n)) =
      skip_or_fail b b.options.on_missing_version (no_matching_version_bucket t v n) line_no
        form_type no_layout_for_version
  accept_parsed b line_no form_type (err e) = fail_with b e

  abbrev pub accept_token : Body → List Str → ℕ → Str → Option Table → Item × Body
  accept_token b fields line_no form_type none =
      skip_or_fail b b.options.on_unknown_line (parser_missing form_type b.version (some line_no))
        line_no form_type unknown_form_type
  accept_token b fields line_no form_type (some table) =
      accept_parsed b line_no form_type (from_cells layouts table b.version line_no fields)

  unfoldable pub accept : Body → List Str → ℕ → Item × Body
  unfolding advance skip_or_fail fail_with from_cells table_for_form_type normalize_form_type
  accept b fields line_no =
      let form_type = normalize_form_type (unwrap_or (get_elem? fields 0) []) in
      if is_empty form_type
      then (none, b)
      else accept_token b fields line_no form_type (table_for_form_type R form_type)
