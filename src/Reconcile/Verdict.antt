-- ===== src/Reconcile/Verdict.antt =====
-- What the verdict of a check says of the cents on the page and on the schedules.
use hardmoney.Prelude.{
  inr, inl, Bool-cases, ℕ, ◌*◌, ◌^◌, ◌≤◌, true, List, length, ◌≡◌, ◌↔◌, ap, arith,
}
use mathlib.Core.Path.{subst}
use hardmoney.Prelude.Int.{ℤ, pos, ◌-ℤ◌, ◌≤ℤ◌, nat_abs, neg_part}
use hardmoney.Text.{max_i64}
use hardmoney.Line.{ParsedLine}
use hardmoney.Decimal.{Decimal, DecimalLaws}
use hardmoney.Reconcile.{Relation, Source, schedules, formula, input, LineRule}
use hardmoney.Reconcile.Check.{
  violation_of, relation_of, check_line, violation, matches, or_zero, expected_of, reported_amount,
}
use hardmoney.Reconcile.Cents.{
  formula_cents-le, field_cents-le, schedule_cents-le, -ℤ-le, field_cents, schedule_cents,
  formula_cents,
}
use hardmoney.Reconcile.Exact.{reported-exact, schedule_sum-exact, formula-exact}

abbrev expected_from : ParsedLine → List ParsedLine → List LineRule → LineRule → Source → ℤ
expected_from cover body rules r (schedules relation sums) = schedule_cents body sums
expected_from cover body rules r (formula terms) = formula_cents cover rules r.column terms
expected_from cover body rules r input = field_cents cover r.field

-- The cents that a rule derives for its line.
abbrev pub expected_cents : ParsedLine → List ParsedLine → List LineRule → LineRule → ℤ
expected_cents cover body rules r = expected_from cover body rules r r.source

-- How many amounts a rule can add up.
abbrev pub amounts : List ParsedLine → Source → ℕ
amounts body (schedules relation sums) = length body * length sums
amounts body (formula terms) = length terms
amounts body input = 0

-- How far the reported cents are from what the relation asks.
abbrev pub violation_cents : Relation → ℤ → ℤ → ℕ
violation_cents Relation.equal reported expected = nat_abs (reported -ℤ expected)
violation_cents Relation.at_least reported expected = neg_part (reported -ℤ expected)

abbrev pub Relates : Relation → ℤ → ℤ → Type 0
Relates Relation.equal reported expected = reported ≡ expected
Relates Relation.at_least reported expected = expected ≤ℤ reported

Relates-iff :
    (relation : Relation) (x y : ℤ)
    → (pos (violation_cents relation x y) ≡ pos 0) ↔ Relates relation x y
unfolding ◌-ℤ◌
Relates-iff Relation.equal x y = (λ h. ground arith, λ h. ground arith)
Relates-iff Relation.at_least x y = (λ h. ground arith, λ h. ground arith)

negative_part : (z : ℤ) → z ≤ℤ pos 0 → nat_abs z ≡ neg_part z
negative_part z h = ground arith

positive_part : (z : ℤ) → pos 0 ≤ℤ z → 0 ≡ neg_part z
positive_part z h = ground arith

module _ (D : Decimal) (laws : DecimalLaws D) where
  open laws use {HasCents, zero_cents, sub_cents, abs_cents, is_zero_iff, negative_le, positive_le}

  violation_of-exact :
      (relation : Relation) (delta : D.Carrier) (x y : ℤ)
      → HasCents delta (x -ℤ y)
      → HasCents (violation_of D relation delta) (pos (violation_cents relation x y))
  violation_of-exact Relation.equal delta x y h = abs_cents delta (x -ℤ y) h
  violation_of-exact Relation.at_least delta x y h = elim (Bool-cases (D.is_sign_negative delta)) [
    | inl q ↦ rw q (
        subst (HasCents (D.abs delta))
          (ap pos (negative_part (x -ℤ y) (negative_le delta (x -ℤ y) h q)))
          (abs_cents delta (x -ℤ y) h))
    | inr q ↦ rw q (
        subst (HasCents D.zero) (ap pos (positive_part (x -ℤ y) (positive_le delta (x -ℤ y) h q)))
          zero_cents)
  ]

  module _ (cover : ParsedLine) (body : List ParsedLine) (rules : List LineRule) where
    expected-exact :
        (r : LineRule) (source : Source)
        → amounts body source ≤ 2 ^ 32
        → HasCents
            (expected_of D cover body rules r.column
              (or_zero D (reported_amount D cover r.field).0)
              source).0
            (expected_from cover body rules r source)
    expected-exact r (schedules relation sums) m = schedule_sum-exact D laws body sums m
    expected-exact r (formula terms) m = formula-exact D laws cover rules r.column terms m
    expected-exact r input m = reported-exact D laws cover r.field

    expected-le :
        (r : LineRule) (source : Source)
        → amounts body source ≤ 2 ^ 32
        → nat_abs (expected_from cover body rules r source) ≤ 2 ^ 32 * max_i64
    expected-le r (schedules relation sums) m = schedule_cents-le body sums m
    expected-le r (formula terms) m = omega (arith, formula_cents-le cover rules r.column terms)
    expected-le r input m = omega (arith, field_cents-le cover r.field)

    -- The violation of a check is exactly the difference in cents: no sum was cut off at the bounds.
    pub violation-check_line :
        (r : LineRule)
        → amounts body r.source ≤ 2 ^ 32
        → HasCents (violation D (check_line D cover body rules r)) (
            pos (
              violation_cents
                (relation_of r.source)
                (field_cents cover r.field)
                (expected_cents cover body rules r)))
    unfolding check_line violation
    violation-check_line r m =
        violation_of-exact (relation_of r.source) _ (field_cents cover r.field)
          (expected_cents cover body rules r)
          (sub_cents _ _ (field_cents cover r.field) (expected_cents cover body rules r)
            (reported-exact D laws cover r.field) (expected-exact r r.source m)
            (omega (
              arith,
              -ℤ-le (field_cents cover r.field) (expected_cents cover body rules r) max_i64
                  (2 ^ 32 * max_i64) (field_cents-le cover r.field) (expected-le r r.source m),
            )))

    -- With decimals that are exact on whole cents, a check of at most 2 ^ 32 amounts passes
    -- exactly if the reported cents relate as they must to those that the rule derives.
    pub matches-check_line :
        (r : LineRule)
        → amounts body r.source ≤ 2 ^ 32
        → (matches D (check_line D cover body rules r) ≡ true)
          ↔ Relates
              (relation_of r.source)
              (field_cents cover r.field)
              (expected_cents cover body rules r)
    unfolding matches
    matches-check_line r m =
        let relation = relation_of r.source in
        let x = field_cents cover r.field in
        let y = expected_cents cover body rules r in
        let zero_iff =
          is_zero_iff (violation D (check_line D cover body rules r))
            (pos (violation_cents relation x y)) (violation-check_line r m) in
        let relates_iff = Relates-iff relation x y in
        (λ h. relates_iff.0 (zero_iff.0 h), λ h. zero_iff.1 (relates_iff.1 h))
