-- ===== src/Filing.antt =====
-- src/parser/filing.rs: a filing, the options of a parse and the lines that a lenient parse skips.
pub mod Body
pub mod Assemble
pub mod Consistent
pub mod Parse
pub mod Strict
pub mod Verdict
pub mod Agree
pub mod Lenience
use hardmoney.Prelude.{
  ℕ, Bool, true, false, ◌&&◌, ◌||◌, not, List, [], ◌∷◌, Option, none, some, length, unwrap_or,
  if◌then◌else◌, ◌==◌,
}
use hardmoney.Prelude.Result.{Result, ok, err}
use hardmoney.Text.{
  Str, codes, trim, to_ascii_uppercase, is_empty, starts_with_char, ends_with_char, strip_suffix,
}
use hardmoney.Version.{SpecVersion}
use hardmoney.Error.{FecError, lines_skipped, missing_form_line}
use hardmoney.Header.{Header}
use hardmoney.Line.{ParsedLine}

pub record Filing : Type 0 where
  pub header : Header
  pub version : SpecVersion
  pub raw_form_type : Str
  pub base_form_type : Str
  pub is_amendment : Bool
  pub amends_filing : Option ℕ
  pub summary : ParsedLine
  pub lines : List ParsedLine

pub data OnUnparseableLine : Type 0 where
  fail skip : OnUnparseableLine

pub record ParseOptions : Type 0 where
  pub on_unknown_line : OnUnparseableLine
  pub on_missing_version : OnUnparseableLine

abbrev pub strict : ParseOptions
strict = record { on_unknown_line = fail; on_missing_version = fail }

abbrev pub lenient : ParseOptions
lenient = record { on_unknown_line = skip; on_missing_version = skip }

pub data SkipReason : Type 0 where
  unknown_form_type no_layout_for_version : SkipReason

pub record SkippedLine : Type 0 where
  pub line_no : ℕ
  pub raw_form_type : Str
  pub reason : SkipReason

pub record Lenient (T : Type 0) : Type 0 where
  pub value : T
  pub skipped : List SkippedLine
  pub first_error : Option FecError

-- Strict semantics: any skipped line is a failure.
abbrev pub into_strict_of :
    {T : Type 0} → T → List SkippedLine → Option FecError → Result FecError T
into_strict_of value [] first = ok value
into_strict_of value (s ∷ skipped) first =
    err (lines_skipped (length (s ∷ skipped)) (unwrap_or first missing_form_line))

unfoldable pub into_strict : {T : Type 0} → Lenient T → Result FecError T
into_strict l = into_strict_of l.value l.skipped l.first_error

-- `token.strip_suffix(['A', 'N', 'T'])`, kept if what remains looks like a form.
abbrev or_base : Str → Option Str → Str
or_base token none = token
or_base token (some base) =
    if not (is_empty base) && starts_with_char b'F' base then base else token

abbrev first_some : Option Str → Option Str → Option Str
first_some none o = o
first_some (some s) o = some s

abbrev strip_designator : Str → Option Str
strip_designator token =
    first_some (strip_suffix b'A' token)
      (first_some (strip_suffix b'N' token) (strip_suffix b'T' token))

unfoldable pub strip_ant_suffix : Str → Str
unfolding trim to_ascii_uppercase strip_suffix starts_with_char
strip_ant_suffix raw_form_type =
    let token = to_ascii_uppercase (trim raw_form_type) in or_base token (strip_designator token)
