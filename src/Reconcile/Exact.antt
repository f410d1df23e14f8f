-- ===== src/Reconcile/Exact.antt =====
-- src/parser/reconcile.rs: the decimal sums of a check against sums of integers.
use hardmoney.Prelude.{
  ◌^◌, inr, inl, Bool-cases, ℕ, ◌+◌, ◌*◌, ◌≤◌, Bool, true, false, List, [], ◌∷◌, Option, none, some,
  ◌≡◌, refl, sym, arith, length, keep, unwrap_or, and_then, not, if◌then◌else◌,
}
use mathlib.Core.Path.{subst}
use mathlib.Core.Option
use hardmoney.Prelude.Int.{ℤ, pos, ◌+ℤ◌, ◌-ℤ◌, nat_abs}
use hardmoney.Text.{Str, max_i64}
use hardmoney.Line.{ParsedLine, get_non_empty, is_memo}
use hardmoney.Decimal.{Decimal, DecimalLaws, max_cents}
use hardmoney.Money.{money_cents, parse_money}
use hardmoney.Money.Spelling.{money_cents_bound}
use hardmoney.Reconcile.{Column, ScheduleSum, Term, LineRule}
use hardmoney.Reconcile.Check.{
  with_flag, or_zero, counts, rule_at, sum_line, sum_lines, schedule_sum, formula_total, term_value,
  reported_amount, add_amount, add_sum,
}
use hardmoney.Reconcile.Cents.{
  +ℤ-assoc, +ℤ-zero, zero_+ℤ, -ℤ-add, +ℤ-le, -ℤ-le, text_cents, field_cents, contribution,
  line_cents, body_cents, schedule_cents, rule_cents, term_cents, formula_cents, rule_cents-le,
  term_cents-le, contribution-le, line_cents-le, kept_product,
}

module _ (D : Decimal) (laws : DecimalLaws D) where
  open laws use {HasCents, zero_cents, new_cents, add_cents, sub_cents}

  -- An accumulator that holds `x` and stays exact for what is added.
  add_amount-exact :
      (acc : D.Carrier × ℕ) (x : ℤ) (o : Option Str) (b : ℕ)
      → HasCents acc.0 x
      → nat_abs x ≤ b
      → b + max_i64 ≤ max_cents
      → HasCents (add_amount D acc (and_then o (parse_money D))).0 (x +ℤ text_cents o)
  unfolding text_cents parse_money
  add_amount-exact acc x none b h k m = subst (HasCents acc.0) (sym (+ℤ-zero x)) h
  add_amount-exact acc x (some raw) b h k m = of (money_cents raw) (money_cents_bound raw)
    where
      of :
          (c : Option ℤ)
          → ((y : ℤ) → c ≡ some y → nat_abs y ≤ max_i64)
          → HasCents (add_amount D acc (Option.map (λ y. D.new y 2) c)).0 (x +ℤ unwrap_or c (pos 0))
      of none f = subst (HasCents acc.0) (sym (+ℤ-zero x)) h
      of (some y) f =
          add_cents acc.0 (D.new y 2) x y h (new_cents y (omega (arith, f y refl)))
            (omega (arith, +ℤ-le x y b max_i64 k (f y refl)))

  add_sum-exact :
      (line : ParsedLine) (acc : D.Carrier × ℕ) (s : ScheduleSum) (x : ℤ) (b : ℕ)
      → HasCents acc.0 x
      → nat_abs x ≤ b
      → b + max_i64 ≤ max_cents
      → HasCents (add_sum D line acc s).0 (x +ℤ contribution line s)
  unfolding field_cents
  add_sum-exact line acc s x b h k m = elim (Bool-cases (counts line s)) [
    | inl q ↦ rw q (add_amount-exact acc x (get_non_empty line s.field) b h k m)
    | inr q ↦ rw q (subst (HasCents acc.0) (sym (+ℤ-zero x)) h)
  ]

  sum_line-exact :
      (line : ParsedLine) (sums : List ScheduleSum) (acc : D.Carrier × ℕ) (x : ℤ) (b : ℕ)
      → HasCents acc.0 x
      → nat_abs x ≤ b
      → b + length sums * max_i64 ≤ max_cents
      → HasCents (sum_line D line acc sums).0 (x +ℤ line_cents line sums)
  sum_line-exact line [] acc x b h k m = subst (HasCents acc.0) (sym (+ℤ-zero x)) h
  sum_line-exact line (s ∷ sums) acc x b h k m =
      subst (HasCents (sum_line D line (add_sum D line acc s) sums).0)
        (+ℤ-assoc x (contribution line s) (line_cents line sums))
        (sum_line-exact line sums (add_sum D line acc s) (x +ℤ contribution line s) (b + max_i64)
          (add_sum-exact line acc s x b h k (omega arith))
          (+ℤ-le x (contribution line s) b max_i64 k (contribution-le line s)) (omega arith))

  sum_lines-exact :
      (body : List ParsedLine) (sums : List ScheduleSum) (acc : D.Carrier × ℕ) (x : ℤ) (b : ℕ)
      → HasCents acc.0 x
      → nat_abs x ≤ b
      → b + length body * (length sums * max_i64) ≤ max_cents
      → HasCents (sum_lines D acc body sums).0 (x +ℤ body_cents body sums)
  sum_lines-exact [] sums acc x b h k m = subst (HasCents acc.0) (sym (+ℤ-zero x)) h
  sum_lines-exact (line ∷ body) sums acc x b h k m =
      subst (HasCents (sum_lines D (sum_line D line acc sums) body sums).0)
        (+ℤ-assoc x (line_cents line sums) (body_cents body sums))
        (sum_lines-exact body sums (sum_line D line acc sums) (x +ℤ line_cents line sums)
          (b + length sums * max_i64) (sum_line-exact line sums acc x b h k (omega arith))
          (+ℤ-le x (line_cents line sums) b (length sums * max_i64) k (line_cents-le line sums))
          (omega arith))

  -- A readable amount is exact, and blank or unreadable it counts as 0.
  pub reported-exact :
      (cover : ParsedLine) (field : Str)
      → HasCents (or_zero D (reported_amount D cover field).0) (field_cents cover field)
  unfolding reported_amount field_cents text_cents parse_money
  reported-exact cover field = of_text (get_non_empty cover field)
    where
      of_cents :
          (c : Option ℤ)
          → ((y : ℤ) → c ≡ some y → nat_abs y ≤ max_i64)
          → HasCents (or_zero D (Option.map (λ y. D.new y 2) c)) (unwrap_or c (pos 0))
      of_cents none f = zero_cents
      of_cents (some y) f = new_cents y (omega (arith, f y refl))

      of_text : (o : Option Str) → HasCents (or_zero D (with_flag D o).0) (text_cents o)
      of_text none = zero_cents
      of_text (some raw) = of_cents (money_cents raw) (money_cents_bound raw)

  term_value-exact :
      (cover : ParsedLine) (rules : List LineRule) (column : Column) (t : Term)
      → HasCents
          (term_value D cover rules column t)
          (rule_cents cover (rule_at rules column t.line))
  term_value-exact cover rules column t = of (rule_at rules column t.line)
    where
      of :
          (o : Option LineRule)
          → HasCents
              (or_zero D (and_then o (λ r. (reported_amount D cover r.field).0)))
              (rule_cents cover o)
      of none = zero_cents
      of (some r) = reported-exact cover r.field

  -- One round of the loop over the terms.
  add_term-exact :
      (total value : D.Carrier) (x v : ℤ) (negative : Bool) (b : ℕ)
      → HasCents total x
      → HasCents value v
      → nat_abs x ≤ b
      → nat_abs v ≤ max_i64
      → b + max_i64 ≤ max_cents
      → HasCents
          (if negative then D.saturating_sub total value else D.saturating_add total value)
          (x +ℤ (if negative then pos 0 -ℤ v else v))
  add_term-exact total value x v true b h g k l m =
      subst (HasCents (D.saturating_sub total value)) (-ℤ-add x v)
        (sub_cents total value x v h g (omega (arith, -ℤ-le x v b max_i64 k l)))
  add_term-exact total value x v false b h g k l m =
      add_cents total value x v h g (omega (arith, +ℤ-le x v b max_i64 k l))

  formula_total-exact :
      (cover : ParsedLine) (rules : List LineRule) (column : Column) (terms : List Term)
      (total : D.Carrier) (x : ℤ) (b : ℕ)
      → HasCents total x
      → nat_abs x ≤ b
      → b + length terms * max_i64 ≤ max_cents
      → HasCents
          (formula_total D cover rules column total terms)
          (x +ℤ formula_cents cover rules column terms)
  formula_total-exact cover rules column [] total x b h k m =
      subst (HasCents total) (sym (+ℤ-zero x)) h
  formula_total-exact cover rules column (t ∷ terms) total x b h k m =
      let o = rule_at rules column t.line in
      subst (HasCents (formula_total D cover rules column total (t ∷ terms)))
        (+ℤ-assoc x (term_cents cover rules column t) (formula_cents cover rules column terms))
        (formula_total-exact cover rules column terms _ (x +ℤ term_cents cover rules column t)
          (b + max_i64)
          (add_term-exact total (term_value D cover rules column t) x (rule_cents cover o)
            t.negative b h (term_value-exact cover rules column t) k (rule_cents-le cover o)
            (omega arith))
          (+ℤ-le x (term_cents cover rules column t) b max_i64 k
            (term_cents-le cover rules column t))
          (omega arith))

  pub schedule_sum-exact :
      (body : List ParsedLine) (sums : List ScheduleSum)
      → length body * length sums ≤ 2 ^ 32
      → HasCents (schedule_sum D body sums).0 (schedule_cents body sums)
  unfolding schedule_sum
  schedule_sum-exact body sums m =
      subst (HasCents (schedule_sum D body sums).0) (zero_+ℤ (schedule_cents body sums)) (
        sum_lines-exact (keep (λ l. not (is_memo l)) body) sums (D.zero, 0) (pos 0) 0 zero_cents
          (omega arith) (omega (arith, kept_product body sums m)))

  pub formula-exact :
      (cover : ParsedLine) (rules : List LineRule) (column : Column) (terms : List Term)
      → length terms ≤ 2 ^ 32
      → HasCents
          (formula_total D cover rules column D.zero terms)
          (formula_cents cover rules column terms)
  formula-exact cover rules column terms m =
      subst (HasCents (formula_total D cover rules column D.zero terms))
        (zero_+ℤ (formula_cents cover rules column terms))
        (formula_total-exact cover rules column terms D.zero (pos 0) 0 zero_cents (omega arith)
          (omega arith))
