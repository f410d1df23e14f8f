-- ===== src/Decimal.antt =====
-- The `Decimal` of the rust_decimal crate, as far as the program uses it: the operations, what the
-- crate documents of them for amounts of whole cents, and an instance that meets it.
pub mod Model
use hardmoney.Prelude.{ℕ, ◌^◌, ◌-◌, ◌≤◌, Bool, true, false, ◌≡◌, ◌↔◌}
use hardmoney.Prelude.Int.{ℤ, pos, ◌+ℤ◌, ◌-ℤ◌, ◌≤ℤ◌, nat_abs}

pub record Decimal : Type 1 where
  pub Carrier : Type 0
  pub zero : Carrier
  -- `Decimal::new(num, scale)`
  pub new : ℤ → ℕ → Carrier
  pub saturating_add : Carrier → Carrier → Carrier
  pub saturating_sub : Carrier → Carrier → Carrier
  pub abs : Carrier → Carrier
  pub is_zero : Carrier → Bool
  pub is_sign_negative : Carrier → Bool
  pub gt : Carrier → Carrier → Bool

-- A decimal holds 96 bits of digits.
abbrev pub max_cents : ℕ
max_cents = 2 ^ 96 - 1

-- `HasCents d x`: the value of `d` is `x` hundredths. A sum or a difference is exact as long as it
-- fits; zero may carry either sign.
pub record DecimalLaws (D : Decimal) : Type 1 where
  pub HasCents : D.Carrier → ℤ → Type 0
  pub zero_cents : HasCents D.zero (pos 0)
  pub new_cents : (x : ℤ) → nat_abs x ≤ max_cents → HasCents (D.new x 2) x
  pub add_cents :
      (a b : D.Carrier) (x y : ℤ)
      → HasCents a x
      → HasCents b y
      → nat_abs (x +ℤ y) ≤ max_cents
      → HasCents (D.saturating_add a b) (x +ℤ y)
  pub sub_cents :
      (a b : D.Carrier) (x y : ℤ)
      → HasCents a x
      → HasCents b y
      → nat_abs (x -ℤ y) ≤ max_cents
      → HasCents (D.saturating_sub a b) (x -ℤ y)
  pub abs_cents : (a : D.Carrier) (x : ℤ) → HasCents a x → HasCents (D.abs a) (pos (nat_abs x))
  pub is_zero_iff : (a : D.Carrier) (x : ℤ) → HasCents a x → (D.is_zero a ≡ true) ↔ (x ≡ pos 0)
  pub negative_le :
      (a : D.Carrier) (x : ℤ) → HasCents a x → D.is_sign_negative a ≡ true → x ≤ℤ pos 0
  pub positive_le :
      (a : D.Carrier) (x : ℤ) → HasCents a x → D.is_sign_negative a ≡ false → pos 0 ≤ℤ x
  pub gt_iff :
      (a b : D.Carrier) (x y : ℤ) → HasCents a x → HasCents b y → (D.gt a b ≡ false) ↔ (x ≤ℤ y)
