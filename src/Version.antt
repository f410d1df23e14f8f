-- ===== src/Version.antt =====
-- src/parser/schema.rs: `SpecVersion`, its order, its text and the layout switches that it decides.
pub mod RoundTrip
use hardmoney.Prelude.{
  ℕ, ◌-◌, Bool, true, false, not, ◌&&◌, ◌||◌, List, [], ◌∷◌, ◌++◌, Option, none, some, leb, ltb,
  ◌==◌, if◌then◌else◌, all_b,
}
use hardmoney.Prelude.Result.{Result, ok, err, ◌>>=◌, ok_or}
use hardmoney.Text.{
  Str, is_empty, is_ascii_digit, all_digits, parse_digits, max_u8, trim, split, show,
}

pub record SpecVersion : Type 0 where
  pub paper : Bool
  pub major : ℕ
  pub minor : ℕ

pub data InvalidSpecVersion : Type 0 where
  invalid : Str → InvalidSpecVersion

abbrev pub electronic : ℕ → ℕ → SpecVersion
electronic major minor = record { paper = false; major = major; minor = minor }

unfoldable pub uses_fs_delimiter : SpecVersion → Bool
uses_fs_delimiter v = not v.paper && leb 6 v.major

unfoldable pub has_name_delim_header : SpecVersion → Bool
has_name_delim_header v = not v.paper && leb v.major 5

-- The derived `PartialEq`.
unfoldable pub eq_version : SpecVersion → SpecVersion → Bool
eq_version v w =
    (if v.paper then w.paper else not w.paper) && v.major == w.major && v.minor == w.minor

-- The derived `Ord`: field by field.
unfoldable pub lt_version : SpecVersion → SpecVersion → Bool
lt_version v w =
    (not v.paper && w.paper)
    || ((if v.paper then w.paper else not w.paper)
        && (ltb v.major w.major || (v.major == w.major && ltb v.minor w.minor)))

-- A part is a number: not empty, and digits only.
abbrev pub is_number : Str → Bool
is_number s = not (is_empty s) && all_digits s

-- `t.strip_prefix(['P', 'p'])`
abbrev strip_paper : Str → Bool × Str
strip_paper [] = (false, [])
strip_paper (c ∷ s) = if c == b'P' || c == b'p' then (true, s) else (false, c ∷ s)

abbrev first_digit : Str → Option ℕ
first_digit [] = none
first_digit (c ∷ s) = if leb b'0' c then some (c - b'0') else none

-- The minor component, and the build numbers behind it.
abbrev parse_minor : InvalidSpecVersion → List Str → Result InvalidSpecVersion ℕ
parse_minor e [] = ok 0
parse_minor e (m ∷ extras) =
    if not (is_number m)
    then err e
    else if not (all_b is_number extras)
    then err e
    else ok_or (first_digit m) e

abbrev parse_parts : InvalidSpecVersion → Bool → List Str → Result InvalidSpecVersion SpecVersion
parse_parts e paper [] = err e
parse_parts e paper (major_s ∷ rest) = if not (is_number major_s) then err e else do
  major ← ok_or (parse_digits max_u8 major_s) e
  minor ← parse_minor e rest
  ok (record { paper = paper; major = major; minor = minor })

-- `FromStr for SpecVersion`
unfoldable pub from_str : Str → Result InvalidSpecVersion SpecVersion
unfolding all_digits parse_digits trim split
from_str s =
    let (paper, rest) = strip_paper (trim s) in parse_parts (invalid s) paper (split b'.' rest)

-- `Display for SpecVersion`
unfoldable pub to_string : SpecVersion → Str
unfolding show
to_string v = (if v.paper then b'P' ∷ [] else []) ++ (show v.major ++ (b'.' ∷ show v.minor))
