-- ===== src/Tests/Filings.antt =====
-- A filing of three lines, the last of an unknown type.
use hardmoney.Prelude.{
  All, false, ◌&&◌, Bool, true, List, [], ◌∷◌, ◌++◌, Option, none, some, ◌≡◌, ◌↔◌, refl,
}
use hardmoney.Prelude.Result.{Result, ok, err}
use hardmoney.Text.{is_empty, Str, codes, join}
use hardmoney.Table.{Table}
use hardmoney.Version
use hardmoney.Version.{has_name_delim_header, electronic}
use hardmoney.Layout.{Layout}
use hardmoney.Form.{Regex, anchored}
use hardmoney.Field.{normalize_field}
use hardmoney.Text.{starts_with, eq_str}
use hardmoney.Error.{FecError, parser_missing, lines_skipped}
use hardmoney.Header.{Header, from_fields, to_fields}
use hardmoney.Header.RoundTrip.{IsHeader, from_fields-to_fields}
use hardmoney.Line.{ParsedLine}
use hardmoney.Filing.{Filing, Lenient, unknown_form_type, strict, lenient, into_strict}
use hardmoney.Filing.Assemble.{assembled, from_parts}
use hardmoney.Filing.Consistent.{Fits, from_parts-Fits}
use hardmoney.Filing.Parse.{parse_with}
use hardmoney.Filing.Lenience.{parse_with-strict_iff, into_strict-parse_with}

abbrev pub f99_layout : Layout
f99_layout = record {
  table = Table.f99;
  versions = electronic 8 5 ∷ [];
  fields =
      record { name = codes "form_type"; column = 0 }
      ∷ record { name = codes "text"; column = 1 }
      ∷ [];
  width = 2;
  by_name = 0 ∷ 1 ∷ [];
}

abbrev pub layouts : Table → List Layout
layouts Table.f99 = f99_layout ∷ []
layouts _ = []

-- Of the patterns, only that of Form 99 matches this text.
abbrev pub f99_only : Regex
f99_only = record {
  Compiled = Bool;
  new = λ text. some (eq_str text (anchored (codes "F99")));
  is_match = λ compiled s. compiled && starts_with (codes "F99") s;
}

-- No line of this text is comma-delimited.
abbrev pub no_csv : Str → Result FecError (Option (List Str))
no_csv raw = ok none

abbrev pub content : Str
content =
    join 0x1c (codes "HDR" ∷ codes "FEC" ∷ codes "8.5" ∷ codes "soft" ∷ codes "1" ∷ [])
    ++ (10 ∷ join 0x1c (codes "F99A" ∷ codes "Dear" ∷ []))
    ++ (10 ∷ codes "ZZ9")

abbrev pub header : Header
header = record {
  record_type = codes "HDR";
  ef_type = codes "FEC";
  fec_version_raw = codes "8.5";
  version = electronic 8 5;
  soft_name = codes "soft";
  soft_ver = codes "1";
  name_delim = none;
  report_id = [];
  report_number = [];
  comment = [];
}

abbrev pub cover : ParsedLine
cover = record {
  raw_form_type = codes "F99A";
  line_no = 2;
  layout = f99_layout;
  values = codes "F99A" ∷ codes "Dear" ∷ [];
}

abbrev unknown : FecError
unknown = parser_missing (codes "ZZ9") (electronic 8 5) (some 3)

abbrev read_leniently : Lenient Filing
read_leniently = record {
  value = record {
    header = header;
    version = electronic 8 5;
    raw_form_type = codes "F99A";
    base_form_type = codes "F99";
    is_amendment = true;
    amends_filing = none;
    summary = cover;
    lines = [];
  };
  skipped = record { line_no = 3; raw_form_type = codes "ZZ9"; reason = unknown_form_type } ∷ [];
  first_error = some unknown;
}

parses_leniently : parse_with layouts f99_only no_csv content lenient ≡ ok read_leniently
unfolding parse_with eq_str starts_with
parses_leniently = refl

fails_strictly : parse_with layouts f99_only no_csv content strict ≡ err unknown
unfolding parse_with eq_str starts_with
fails_strictly = refl

into_strict_example : into_strict read_leniently ≡ err (lines_skipped 1 unknown)
into_strict_example =
    into_strict-parse_with layouts f99_only no_csv content read_leniently unknown parses_leniently
      fails_strictly

strict_example : (parse_with layouts f99_only no_csv content strict ≡ ok read_leniently) ↔ (
    (parse_with layouts f99_only no_csv content lenient ≡ ok read_leniently)
    × (read_leniently.skipped ≡ []))
strict_example = parse_with-strict_iff layouts f99_only no_csv content read_leniently

header-IsHeader : IsHeader header
unfolding Version.from_str has_name_delim_header normalize_field
header-IsHeader = record {
  version_read = refl;
  supported = refl;
  delim = refl;
  normal = (refl, (refl, (refl, (refl, (refl, (refl, (refl, (refl, (refl, tt)))))))));
}

header_example : from_fields (to_fields header) ≡ ok header
header_example = from_fields-to_fields header header-IsHeader

parts_example : (from_parts f99_only header cover [] ≡ ok read_leniently.value) ↔ (
    (read_leniently.value ≡ assembled f99_only header cover [])
    × (is_empty cover.raw_form_type ≡ false)
    × All (Fits f99_only (electronic 8 5)) (cover ∷ []))
parts_example = from_parts-Fits f99_only header cover [] read_leniently.value
