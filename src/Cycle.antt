-- ===== src/Cycle.antt =====
-- src/cycle.rs: a two-year election cycle, checked once at the boundary. An `i64` is an integer;
-- its bounds stand where the code meets them (`saturating_add`, `parse`).
pub mod Laws
use hardmoney.Prelude.{
  ℕ, suc, ◌+◌, ◌-◌, ◌%◌, not, ◌||◌, ◌++◌, Option, none, some, ltb, ◌==◌, if◌then◌else◌,
}
use hardmoney.Prelude.Int.{ℤ, pos, negsuc, nat_abs, ltb_ℤ, ◌+ℤ◌, ◌-ℤ◌}
use hardmoney.Prelude.Result.{Result, ok, err, to_option}
use hardmoney.Text.{Str, codes, max_i64, trim, parse_i64, show, show_ℤ}

pub record Cycle : Type 0 where
  pub year : ℕ

pub data CycleError : Type 0 where
  odd : ℤ → CycleError
  out_of_range : ℤ → CycleError
  not_a_number : Str → CycleError

abbrev pub min_year : ℕ
min_year = 1976

abbrev pub max_year : ℕ
max_year = 2100

-- `u16::try_from`
abbrev to_u16 : ℤ → Option ℕ
to_u16 (pos n) = if ltb 65535 n then none else some n
to_u16 (negsuc n) = none

abbrev or_out_of_range : ℤ → Option ℕ → Result CycleError Cycle
or_out_of_range y none = err (out_of_range y)
or_out_of_range y (some n) = ok (record { year = n })

unfoldable pub new : ℤ → Result CycleError Cycle
new y =
    if ltb_ℤ y (pos min_year) || ltb_ℤ (pos max_year) y
    then err (out_of_range y)
    else if not (nat_abs y % 2 == 0)
    then err (odd y)
    else or_out_of_range y (to_u16 y)

-- `i64::saturating_add(1)`
saturating_next : ℤ → ℤ
unfolding ◌+ℤ◌
saturating_next y = if ltb_ℤ y (pos max_i64) then y +ℤ pos 1 else pos max_i64

unfoldable pub containing : ℤ → Result CycleError Cycle
unfolding new saturating_next
containing y = new (if nat_abs y % 2 == 0 then y else saturating_next y)

unfoldable pub two_digit : Cycle → ℕ
two_digit c = c.year % 100

unfoldable pub prev : Cycle → Option Cycle
unfolding new ◌-ℤ◌
prev c = to_option (new (pos c.year -ℤ pos 2))

unfoldable pub next : Cycle → Option Cycle
unfolding new ◌+ℤ◌
next c = to_option (new (pos c.year +ℤ pos 2))

-- `Display for Cycle`
unfoldable pub to_string : Cycle → Str
to_string c = show c.year

abbrev parsed : Str → Option ℤ → Result CycleError Cycle
parsed s none = err (not_a_number s)
parsed s (some y) = new y

-- `FromStr for Cycle`
unfoldable pub from_str : Str → Result CycleError Cycle
from_str s = parsed s (parse_i64 (trim s))

-- `Display for CycleError`
unfoldable pub error_text : CycleError → Str
unfolding show_ℤ
error_text (odd y) =
    codes "cycle "
    ++ show_ℤ y
    ++ codes " is not an even year (cycles are the even year of a two-year period)"
error_text (out_of_range y) =
    codes "cycle " ++ show_ℤ y ++ codes " is outside the FEC's published range (1976-2100)"
error_text (not_a_number s) = codes "cycle '" ++ s ++ codes "' is not a number"
