-- ===== src/Money.antt =====
-- src/parser/typed.rs: `parse_money`, from the text of an amount to exact cents.
pub mod Spelling
pub mod Reading
use hardmoney.Prelude.{
  ◌&&◌, ℕ, ◌+◌, ◌*◌, Bool, true, false, not, ◌||◌, [], ◌∷◌, Option, none, some, leb, ltb, ◌==◌,
  if◌then◌else◌, unwrap_or,
}
use mathlib.Core.Option
use hardmoney.Prelude.Int.{ℤ, pos, sub_ℕ}
use hardmoney.Text.{
  Str, is_empty, byte_len, all_digits, trim, trim_start, starts_with_char, split_once, parse_digits,
  max_i64,
}
use hardmoney.Decimal.{Decimal}

infixl 5 ◌>>=◌
abbrev ◌>>=◌ {ℓ κ} : {A : Type ℓ} {B : Type κ} → Option A → (A → Option B) → Option B
none >>= f = none
some a >>= f = f a

-- `checked_mul` and `checked_add` on an `i64` that is not negative.
abbrev checked : ℕ → Option ℕ
checked n = if leb n max_i64 then some n else none

unfoldable pub is_sign : ℕ → Bool
is_sign c = c == b'+' || c == b'-'

-- `whole.parse()`, of digits only; nothing before the point is 0.
abbrev pub whole_cents : Str → Option ℕ
whole_cents [] = some 0
whole_cents (c ∷ s) = parse_digits max_i64 (c ∷ s)

-- By `frac.len()`: none, one digit (tenths), or two.
abbrev pub frac_cents : Str → Option ℕ
frac_cents [] = some 0
frac_cents (c ∷ []) = do n ← parse_digits max_i64 (c ∷ []); checked (n * 10)
frac_cents (c ∷ d ∷ s) = parse_digits max_i64 (c ∷ d ∷ s)

-- The magnitude of an amount whose sign is off, in cents.
unfoldable pub magnitude : Str → Str → Option ℕ
magnitude whole frac =
    if ltb 2 (byte_len frac) || not (all_digits whole) || not (all_digits frac)
    then none
    else if is_empty whole && is_empty frac
    then none
    else do
      w ← whole_cents whole
      f ← frac_cents frac
      hundreds ← checked (w * 100)
      checked (hundreds + f)

-- `checked_neg` of an `i64` that is not negative does not fail.
abbrev pub signed : Bool → ℕ → ℤ
signed negative n = if negative then sub_ℕ 0 n else pos n

unfoldable pub unsigned_cents : Str → Option ℕ
unsigned_cents unsigned =
    let (whole, frac) = unwrap_or (split_once b'.' unsigned) (unsigned, []) in magnitude whole frac

unfoldable pub money_cents : Str → Option ℤ
money_cents raw =
    let trimmed = trim raw in
    let unsigned = trim_start is_sign trimmed in
    if is_empty trimmed
    then none
    else if ltb (byte_len unsigned + 1) (byte_len trimmed)
    then none
    else Option.map (signed (starts_with_char b'-' trimmed)) (unsigned_cents unsigned)

-- `Some(Decimal::new(total_cents, 2))`
unfoldable pub parse_money : (D : Decimal) → Str → Option D.Carrier
unfolding money_cents trim is_sign trim_start byte_len starts_with_char unsigned_cents magnitude
    split_once all_digits parse_digits
parse_money D raw = Option.map (λ c. D.new c 2) (money_cents raw)
