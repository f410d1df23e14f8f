-- ===== src/Tests/Values.antt =====
-- Cycles, pages, versions and amounts.
use hardmoney.Prelude.{◌+◌, ◌*◌, ℕ, ◌≤◌, ◌⊎◌, false, true, ◌↔◌, arith, some, none, ◌≡◌, refl}
use hardmoney.Prelude.Int.{◌≤ℤ◌, pos, negsuc}
use hardmoney.Cycle
use hardmoney.Prelude.Result.{ok, err}
use hardmoney.Text.{trim, Str, codes, all_digits}
use hardmoney.Pagination.{Pagination, bad_request, limit_text, offset_text, max_limit}
use hardmoney.Money.{money_cents}
use hardmoney.Cycle.{Cycle}
use hardmoney.Cycle.Laws
use hardmoney.Cycle.Laws.{
  new_iff, InRange, new_refuses, containing_lem, next-prev, cycle_from_str-to_string,
}
use hardmoney.Version
use hardmoney.Version.{SpecVersion, electronic}
use hardmoney.Version.RoundTrip
use hardmoney.Version.RoundTrip.{from_str-to_string, from_str-IsValid}
use hardmoney.Pagination.{validate_iff, validate_refuses, cycle_param_iff, validate, cycle_param}
use hardmoney.Money.{is_sign, unsigned_cents, magnitude}
use hardmoney.Text.{byte_len, split_once, parse_digits}
use hardmoney.Money.Reading.{money_cents_iff}
use hardmoney.Money.Spelling.{Amount, IsAmount, amount_text, amount_cents}

abbrev year_2024 : Cycle
year_2024 = record { year = 2024 }

abbrev year_2026 : Cycle
year_2026 = record { year = 2026 }

year_2024-IsValid : Cycle.Laws.IsValid year_2024
year_2024-IsValid = record { even = refl; from_min = omega arith; to_max = omega arith }

year_2026-IsValid : Cycle.Laws.IsValid year_2026
year_2026-IsValid = record { even = refl; from_min = omega arith; to_max = omega arith }

new_iff_example :
    (Cycle.new (pos 2024) ≡ ok year_2024) ↔ ((pos 2024 ≡ pos 2024) × Cycle.Laws.IsValid year_2024)
new_iff_example = new_iff (pos 2024) year_2024

new_refuses_example : (Cycle.new (pos 2101) ≡ err (Cycle.out_of_range (pos 2101))) ↔ (
    ((Cycle.out_of_range (pos 2101) ≡ Cycle.out_of_range (pos 2101)) × ¬ InRange (pos 2101))
    ⊎ ((Cycle.out_of_range (pos 2101) ≡ Cycle.odd (pos 2101))
        × InRange (pos 2101)
        × ((n : ℕ) × (pos 2101 ≡ pos (2 * n + 1)))))
new_refuses_example = new_refuses (pos 2101) (Cycle.out_of_range (pos 2101))

containing_example :
    (c : Cycle) × (Cycle.containing (pos 2023) ≡ ok c)
    × Cycle.Laws.IsValid c
    × (2023 ≤ c.year)
    × (c.year ≤ 2024)
containing_example = containing_lem 2023 (omega arith) (omega arith)

next-prev_example :
    (Cycle.next year_2024 ≡ some year_2026) ↔ (Cycle.prev year_2026 ≡ some year_2024)
next-prev_example = next-prev year_2024 year_2026 year_2024-IsValid year_2026-IsValid

cycle_text_example : Cycle.from_str (Cycle.to_string year_2024) ≡ ok year_2024
cycle_text_example = cycle_from_str-to_string year_2024 year_2024-IsValid

abbrev paper_3 : SpecVersion
paper_3 = record { paper = true; major = 3; minor = 4 }

paper_3-IsValid : Version.RoundTrip.IsValid paper_3
paper_3-IsValid = record { major_fits = omega arith; minor_digit = omega arith }

version_text_example : Version.from_str (Version.to_string paper_3) ≡ ok paper_3
version_text_example = from_str-to_string paper_3 paper_3-IsValid

reads_p3 : Version.from_str (codes " p3.47 ") ≡ ok paper_3
unfolding Version.from_str
reads_p3 = refl

version_read_example : Version.RoundTrip.IsValid paper_3
version_read_example = from_str-IsValid (codes " p3.47 ") paper_3 reads_p3

validate_iff_example :
    (validate (record { limit = none; offset = some (pos 7) })
      ≡ ok (record { limit = pos 50; offset = pos 7 }))
    ↔ ((pos 50 ≡ pos 50)
        × (pos 7 ≡ pos 7)
        × (pos 1 ≤ℤ pos 50)
        × (pos 50 ≤ℤ pos 500)
        × (pos 0 ≤ℤ pos 7))
validate_iff_example =
    validate_iff (record { limit = none; offset = some (pos 7) })
      (record { limit = pos 50; offset = pos 7 })

-- A bad limit and a bad offset: the limit is what the refusal names.
abbrev bad_page : Pagination
bad_page = record { limit = some (pos 501); offset = some (negsuc 4) }

validate_refuses_example : (validate bad_page ≡ err (bad_request limit_text)) ↔ (
    ((bad_request limit_text ≡ bad_request limit_text)
      × ((pos 501 ≤ℤ pos 0) ⊎ (pos 501 ≤ℤ pos 501)))
    ⊎ ((bad_request limit_text ≡ bad_request offset_text)
        × (pos 1 ≤ℤ pos 501)
        × (pos 501 ≤ℤ max_limit)
        × ((k : ℕ) × (some (negsuc 4) ≡ some (negsuc k)))))
validate_refuses_example = validate_refuses bad_page (bad_request limit_text)

cycle_param_example :
    (cycle_param (some (pos 2024)) ≡ ok (some (pos 2024)))
    ↔ ((pos 2024 ≡ pos 2024) × ((c : Cycle) × (pos 2024 ≡ pos c.year) × Cycle.Laws.IsValid c))
cycle_param_example = cycle_param_iff (pos 2024) (pos 2024)

-- -12.5
abbrev debit : Amount
debit = record { negative = true; plus = false; whole = codes "12"; point = true; frac = codes "5" }

-- One cent more than an `i64` holds.
abbrev too_large : Str
too_large = codes "92233720368547758.08"

too_large_refused : money_cents too_large ≡ none
unfolding money_cents trim byte_len is_sign unsigned_cents magnitude split_once all_digits
    parse_digits
too_large_refused = refl

read_example : (money_cents (codes " -12.5 ") ≡ some (negsuc 1249)) ↔ (
    (a : Amount) × IsAmount a
    × (trim (codes " -12.5 ") ≡ amount_text a)
    × (negsuc 1249 ≡ amount_cents a))
read_example = money_cents_iff (codes " -12.5 ") (negsuc 1249)
