-- ===== src/Cycle/Laws.antt =====
-- src/cycle.rs: what a cycle is, and its constructor, its text, `next` and `prev` against that.
use hardmoney.Prelude.{ap, ◌/◌, inr, inl, ◌*◌, ℕ, ◌+◌, ◌%◌, ◌≤◌, some, ◌≡◌, ◌↔◌, ◌⊎◌, refl, arith}
use hardmoney.Prelude.Int.{◌≤ℤ◌, ℤ, pos, negsuc}
use hardmoney.Prelude.Result.{ok, err}
use hardmoney.Text.{show}
use hardmoney.Text.Number.{trim-digits, show-all_digits, parse_i64-show}
use hardmoney.Cycle.{
  CycleError, Cycle, odd, out_of_range, min_year, max_year, new, containing, prev, next, to_string,
  from_str,
}

-- The invariant of the type: even, and within the published range.
pub record IsValid (c : Cycle) : Type 0 where
  pub even : c.year % 2 ≡ 0
  pub from_min : min_year ≤ c.year
  pub to_max : c.year ≤ max_year

-- Construction succeeds exactly on the even years of the range, with that year.
pub new_iff : (y : ℤ) (c : Cycle) → (new y ≡ ok c) ↔ ((y ≡ pos c.year) × IsValid c)
unfolding new
new_iff (pos n) c = (
  λ h. (
    ground arith,
    record { even = ground arith; from_min = ground arith; to_max = ground arith },
  ),
  λ h. ground arith,
)
new_iff (negsuc n) c = (λ h. ground arith, λ h. ground arith)

abbrev pub InRange : ℤ → Type 0
InRange y = (pos min_year ≤ℤ y) × (y ≤ℤ pos max_year)

new-pos-err :
    (n : ℕ) (e : CycleError)
    → new (pos n) ≡ err e
    → ((e ≡ out_of_range (pos n)) × ¬ InRange (pos n))
      ⊎ ((e ≡ odd (pos n)) × InRange (pos n) × (n % 2 ≡ 1))
unfolding new
new-pos-err n e h = ground arith

-- The constructor refuses a year as out of range exactly if it is, odd or even, and as odd exactly
-- if it is an odd year of the range; the error names the year.
pub new_refuses :
    (y : ℤ) (e : CycleError)
    → (new y ≡ err e) ↔ (
        ((e ≡ out_of_range y) × ¬ InRange y)
        ⊎ ((e ≡ odd y) × InRange y × ((n : ℕ) × (y ≡ pos (2 * n + 1)))))
unfolding new
new_refuses (pos n) e = (
  λ h. elim (new-pos-err n e h) [
    | inl out ↦ inl out
    | inr (same, range, is_odd) ↦ inr (same, range, (n / 2, ap pos (omega arith)))
  ],
  λ h. ground arith,
)
new_refuses (negsuc n) e = (λ h. ground arith, λ h. ground arith)

-- For a year from 1975 to 2100 there is a cycle that contains it: it is valid, and its year is
-- that year or the next.
pub containing_lem :
    (n : ℕ)
    → min_year ≤ n + 1
    → n ≤ max_year
    → (c : Cycle) × (containing (pos n) ≡ ok c) × IsValid c × (n ≤ c.year) × (c.year ≤ n + 1)
unfolding containing
containing_lem n h k = (
  record { year = n + n % 2 },
  ground arith,
  record { even = omega arith; from_min = omega arith; to_max = omega arith },
  omega arith,
  omega arith,
)

-- On two valid cycles (even, from 1976 to 2100) `next` leads from the first to the second exactly
-- if `prev` leads back.
pub next-prev : (c d : Cycle) → IsValid c → IsValid d → (next c ≡ some d) ↔ (prev d ≡ some c)
unfolding next prev
next-prev c d h k = (λ e. ground arith, λ e. ground arith)

-- A valid cycle (even, from 1976 to 2100) is read back from its text.
pub cycle_from_str-to_string : (c : Cycle) → IsValid c → from_str (to_string c) ≡ ok c
unfolding from_str to_string
cycle_from_str-to_string c h =
    rw (trim-digits (show c.year) (show-all_digits c.year), parse_i64-show c.year (omega arith))
      ((new_iff (pos c.year) c).1 (refl, h))
