-- ===== src/Text/Number.antt =====
-- Decimal text: what `parse` reads and `Display` writes.
use hardmoney.Prelude.{
  ℕ, all_b, not, false, zero, suc, ◌+◌, ◌-◌, ◌*◌, ◌/◌, ◌%◌, ◌≤◌, ◌<◌, true, false, [], ◌∷◌, some,
  ◌≡◌, ◌≢◌, refl, ◌∙◌, ap, arith,
}
use hardmoney.Prelude.Int.{pos}
use hardmoney.Text.Split.{Lacks}
use hardmoney.Text.Trim.{trim_by_of_kept}
use hardmoney.Text.{
  Str, is_ascii_digit, is_whitespace, digits_value, all_digits, parse_digits, show_onto, show, trim,
  parse_i64, max_i64,
}

last_digit : (n : ℕ) → n / 10 * 10 + (b'0' + n % 10 - b'0') ≡ n
last_digit n = omega arith

digit-is_ascii_digit : (d : ℕ) → d < 10 → is_ascii_digit (b'0' + d) ≡ true
unfolding is_ascii_digit
digit-is_ascii_digit d h = ground arith

show_onto-value :
    (k n : ℕ) (out : Str) → n < k → digits_value 0 (show_onto k n out) ≡ digits_value n out
unfolding show_onto digits_value
show_onto-value zero n out h = absurd (omega arith)
show_onto-value (suc k) n out h =
    ground (arith, show_onto-value k (n / 10) ((b'0' + n % 10) ∷ out), last_digit n)

show_onto-all_digits :
    (k n : ℕ) (out : Str) → all_digits out ≡ true → all_digits (show_onto k n out) ≡ true
unfolding show_onto all_digits
show_onto-all_digits zero n out h = h
show_onto-all_digits (suc k) n out h =
    ground (arith, show_onto-all_digits k (n / 10) ((b'0' + n % 10) ∷ out))

-- The digits of a number stand for it: `n + 1` rounds are enough.
pub show-value : (n : ℕ) → digits_value 0 (show n) ≡ n
unfolding show digits_value
show-value n = show_onto-value (suc n) n [] (omega arith)

pub show-all_digits : (n : ℕ) → all_digits (show n) ≡ true
unfolding show all_digits
show-all_digits n = show_onto-all_digits (suc n) n [] refl

show_onto-ne-nil : (k n : ℕ) (out : Str) → out ≢ [] → show_onto k n out ≢ []
unfolding show_onto
show_onto-ne-nil zero n out h = h
show_onto-ne-nil (suc k) n out h =
    ground (arith, show_onto-ne-nil k (n / 10) ((b'0' + n % 10) ∷ out))

pub show-ne-nil : (n : ℕ) → show n ≢ []
unfolding show
show-ne-nil n = ground (arith, show_onto-ne-nil n (n / 10) ((b'0' + n % 10) ∷ []))

pub parse_digits-value :
    (limit : ℕ) (s : Str)
    → s ≢ []
    → all_digits s ≡ true
    → digits_value 0 s ≤ limit
    → parse_digits limit s ≡ some (digits_value 0 s)
unfolding parse_digits
parse_digits-value limit [] h _ _ = absurd (h refl)
parse_digits-value limit (c ∷ s) _ d le = ground arith

-- A number within the type's range is read back from its decimal text.
pub parse_digits-show : (limit n : ℕ) → n ≤ limit → parse_digits limit (show n) ≡ some n
parse_digits-show limit n h =
    parse_digits-value limit (show n) (show-ne-nil n) (show-all_digits n)
      (omega (arith, show-value n))
    ∙ ap some (show-value n)

-- What is read is within the range.
pub parse_digits-le : (limit : ℕ) (s : Str) (n : ℕ) → parse_digits limit s ≡ some n → n ≤ limit
unfolding parse_digits
parse_digits-le limit [] n h = cc
parse_digits-le limit (c ∷ s) n h = ground arith

digit-is_whitespace : (c : ℕ) → is_ascii_digit c ≡ true → is_whitespace c ≡ false
unfolding is_ascii_digit is_whitespace
digit-is_whitespace c h = ground arith

pub all_digits-kept : (s : Str) → all_digits s ≡ true → all_b (λ c. not (is_whitespace c)) s ≡ true
unfolding all_digits
all_digits-kept [] h = refl
all_digits-kept (c ∷ s) h = ground (arith, digit-is_whitespace c, all_digits-kept s)

-- `trim` leaves digits alone.
pub trim-digits : (s : Str) → all_digits s ≡ true → trim s ≡ s
unfolding trim
trim-digits s h = trim_by_of_kept is_whitespace s (all_digits-kept s h)

-- A character that is no digit does not stand among digits.
pub all_digits-Lacks :
    (sep : ℕ) (s : Str) → is_ascii_digit sep ≡ false → all_digits s ≡ true → Lacks sep s
unfolding all_digits
all_digits-Lacks sep [] n h = tt
all_digits-Lacks sep (c ∷ s) n h =
    (unfold is_ascii_digit in ground arith, all_digits-Lacks sep s n (ground arith))

parse_i64-digits :
    (s : Str)
    → s ≢ []
    → all_digits s ≡ true
    → digits_value 0 s ≤ max_i64
    → parse_i64 s ≡ some (pos (digits_value 0 s))
unfolding parse_i64
parse_i64-digits [] h _ _ = absurd (h refl)
parse_i64-digits (c ∷ s) _ d le = unfold all_digits in ground arith

-- A number within the range of `i64` is read back from its decimal text.
pub parse_i64-show : (n : ℕ) → n ≤ max_i64 → parse_i64 (show n) ≡ some (pos n)
parse_i64-show n h =
    parse_i64-digits (show n) (show-ne-nil n) (show-all_digits n) (omega (arith, show-value n))
    ∙ ap (λ k. some (pos k)) (show-value n)
