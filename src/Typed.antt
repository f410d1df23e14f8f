-- ===== src/Typed.antt =====
-- src/parser/typed.rs: the typed views of a record, and `Typed` of src/parser/schema.rs, the access
-- to the fields of a record of one table. A generated field marker is the field's name.
pub mod Views
pub mod Laws
pub mod Outcome
use hardmoney.Decimal.{Decimal}
use hardmoney.Money.{parse_money}
use hardmoney.Calendar.{Calendar, parse_fec_date}
use hardmoney.Text.{to_ascii_uppercase, is_empty, trim, codes, eq_str, join, Str}
use hardmoney.Table.{eq_table, Table}
use hardmoney.Prelude.{
  none, not, [], true, some, and_then, keep_if, if◌then◌else◌, ℕ, ◌∷◌, false, Bool, List, Option,
}
use hardmoney.Prelude.Result.{ok_or, Result, to_option, ok, err}
use hardmoney.Line.{ParsedLine, get}

pub data TypedViewError : Type 0 where
  wrong_table : Table → Table → ℕ → TypedViewError
  missing_field : Table → Str → Option ℕ → TypedViewError

unfoldable pub with_line : TypedViewError → ℕ → TypedViewError
with_line (wrong_table expected found n) m = wrong_table expected found n
with_line (missing_field table field n) m = missing_field table field (some m)

-- `Typed::new`: the record, if it is one of the table.
unfoldable pub typed : Table → ParsedLine → Result TypedViewError ParsedLine
unfolding eq_table
typed table line =
    if not (eq_table line.layout.table table)
    then err (wrong_table table line.layout.table line.line_no)
    else ok line

-- `Typed::get` and `Typed::string`
unfoldable pub string_of : ParsedLine → Str → Option Str
unfolding get
string_of line field = keep_if (λ v. not (is_empty v)) (get line field)

unfoldable pub money_of : (D : Decimal) → ParsedLine → Str → Option D.Carrier
unfolding string_of parse_money
money_of D line field = and_then (string_of line field) (parse_money D)

unfoldable pub date_in : (cal : Calendar) → ParsedLine → Str → Option cal.Date
unfolding string_of parse_fec_date
date_in cal line field = and_then (string_of line field) (parse_fec_date cal)

unfoldable pub req : Table → ParsedLine → Str → Result TypedViewError Str
unfolding string_of
req table line field = ok_or (string_of line field) (missing_field table field none)

pub record NameFields : Type 0 where
  pub single : Str
  pub organization : Option Str
  pub prefix : Str
  pub first : Str
  pub middle : Str
  pub last : Str
  pub suffix : Str

-- The parts that are there.
abbrev pub flatten : List (Option Str) → List Str
flatten [] = []
flatten (none ∷ parts) = flatten parts
flatten (some part ∷ parts) = part ∷ flatten parts

abbrev pub or_else : Option Str → Option Str → Option Str
or_else none o = o
or_else (some s) o = some s

abbrev pub non_empty : Str → Option Str
non_empty s = if is_empty s then none else some s

unfoldable pub combined_name : ParsedLine → NameFields → Option Str
unfolding string_of join
combined_name line f = or_else (string_of line f.single) (
    or_else (and_then f.organization (string_of line)) (
      non_empty (
        join b' ' (
          flatten (
            string_of line f.prefix
            ∷ string_of line f.first
            ∷ string_of line f.middle
            ∷ string_of line f.last
            ∷ string_of line f.suffix
            ∷ [])))))

pub data EntityType : Type 0 where
  individual organization candidate candidate_committee committee pac party : EntityType
  other : Str → EntityType

-- The known codes; the first that is the text decides.
abbrev pub entity_codes : List (Str × EntityType)
entity_codes =
    (codes "IND", individual)
    ∷ (codes "ORG", organization)
    ∷ (codes "CAN", candidate)
    ∷ (codes "CCM", candidate_committee)
    ∷ (codes "COM", committee)
    ∷ (codes "PAC", pac)
    ∷ (codes "PTY", party)
    ∷ []

abbrev pub first_code : {A : Type 0} → List (Str × A) → Str → A → A
first_code [] code unknown = unknown
first_code ((known, a) ∷ more) code unknown =
    if eq_str code known then a else first_code more code unknown

unfoldable pub entity_from_code : Str → EntityType
unfolding eq_str trim to_ascii_uppercase
entity_from_code code =
    let upper = to_ascii_uppercase (trim code) in first_code entity_codes upper (other upper)

unfoldable pub entity_code : EntityType → Str
entity_code individual = codes "IND"
entity_code organization = codes "ORG"
entity_code candidate = codes "CAN"
entity_code candidate_committee = codes "CCM"
entity_code committee = codes "COM"
entity_code pac = codes "PAC"
entity_code party = codes "PTY"
entity_code (other s) = s

unfoldable pub entity_is_known : EntityType → Bool
entity_is_known (other s) = false
entity_is_known _ = true

pub data SupportOppose : Type 0 where
  support oppose : SupportOppose
  other_side : Str → SupportOppose

unfoldable pub side_from_code : Str → SupportOppose
unfolding eq_str trim to_ascii_uppercase
side_from_code code =
    let upper = to_ascii_uppercase (trim code) in
    first_code ((codes "S", support) ∷ (codes "O", oppose) ∷ []) upper (other_side upper)

unfoldable pub side_code : SupportOppose → Str
side_code support = codes "S"
side_code oppose = codes "O"
side_code (other_side s) = s

unfoldable pub side_is_known : SupportOppose → Bool
side_is_known (other_side s) = false
side_is_known _ = true
