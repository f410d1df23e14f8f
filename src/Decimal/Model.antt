-- ===== src/Decimal/Model.antt =====
-- An instance of the decimals: whole cents, held at the bounds.
use hardmoney.Prelude.{◌-◌, ◌≤◌, ◌≡◌, refl, arith, leb, ◌==◌, if◌then◌else◌, ap}
use hardmoney.Prelude.Int.{ℤ, pos, negsuc, ◌+ℤ◌, ◌-ℤ◌, nat_abs, ltb_ℤ}
use hardmoney.Decimal.{Decimal, DecimalLaws, max_cents}

-- A magnitude past the bound is held at it.
abbrev clamp : ℤ → ℤ
clamp (pos n) = if leb n max_cents then pos n else pos max_cents
clamp (negsuc n) = if leb n (max_cents - 1) then negsuc n else negsuc (max_cents - 1)

clamp_fits : (x : ℤ) → nat_abs x ≤ max_cents → clamp x ≡ x
clamp_fits (pos n) h = ground arith
clamp_fits (negsuc n) h = ground arith

abbrev pub cents : Decimal
cents = record {
  Carrier = ℤ;
  zero = pos 0;
  new = λ x scale. clamp x;
  saturating_add = λ a b. clamp (a +ℤ b);
  saturating_sub = λ a b. clamp (a -ℤ b);
  abs = λ a. pos (nat_abs a);
  is_zero = λ a. nat_abs a == 0;
  is_sign_negative = λ a. ltb_ℤ a (pos 0);
  gt = λ a b. ltb_ℤ b a;
}

pub cents_laws : DecimalLaws cents
cents_laws = record {
  HasCents = λ a x. a ≡ x;
  zero_cents = refl;
  new_cents = λ x h. clamp_fits x h;
  add_cents = λ a b x y p q h. rw (p, q) (clamp_fits (x +ℤ y) h);
  sub_cents = λ a b x y p q h. rw (p, q) (clamp_fits (x -ℤ y) h);
  abs_cents = λ a x p. ap (λ (t : ℤ). pos (nat_abs t)) p;
  is_zero_iff = λ a x p. (λ h. ground arith, λ h. ground arith);
  negative_le = λ a x p h. ground arith;
  positive_le = λ a x p h. ground arith;
  gt_iff = λ a b x y p q. (λ h. ground arith, λ h. ground arith);
}
