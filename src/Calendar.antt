-- ===== src/Calendar.antt =====
-- src/parser/typed.rs: `parse_fec_date`, over the dates of the chrono crate, a parameter. A date is
-- compared by its day, counted from the first date that the crate has.
use hardmoney.Prelude.Int.{ℤ}
use hardmoney.Prelude.{none, all_b, ◌||◌, ◌==◌, not, if◌then◌else◌, ℕ, Option}
use hardmoney.Text.{Str, is_ascii_digit, byte_len, trim}

pub record Calendar : Type 1 where
  pub Date : Type 0
  pub day : Date → ℕ
  pub year : Date → ℤ
  -- `NaiveDate::parse_from_str(.., "%Y%m%d").ok()`
  pub parse_ymd : Str → Option Date
  -- `from_ymd_opt(year, 1, 1)`, `pred_opt`, `succ_opt` and `Display`
  pub year_start : ℤ → Option Date
  pub pred : Date → Option Date
  pub succ : Date → Option Date
  pub show : Date → Str

unfoldable pub parse_fec_date : (cal : Calendar) → Str → Option cal.Date
unfolding trim byte_len is_ascii_digit
parse_fec_date cal raw =
    let trimmed = trim raw in
    if not (byte_len trimmed == 8)
      || not (all_b is_ascii_digit trimmed)
      || all_b (λ c. c == b'0') trimmed
    then none
    else cal.parse_ymd trimmed
