-- ===== src/Reconcile/Chain/Sums.antt =====
-- The sums of Column B over the reports of a period, in cents.
use hardmoney.Reconcile.Exact.{reported-exact, schedule_sum-exact}
use hardmoney.Reconcile.Check.{schedule_sum}
use mathlib.Core.Path.{subst}
use hardmoney.Text.{max_i64}
use hardmoney.Calendar.{Calendar}
use hardmoney.Filing.{Filing}
use hardmoney.Decimal.{DecimalLaws, Decimal}
use hardmoney.Prelude.{arith, sym, length, List, ℕ, [], ◌∷◌, ◌+◌, ◌*◌, ◌≤◌, ◌^◌}
use hardmoney.Prelude.Int.{◌-ℤ◌, ℤ, pos, ◌+ℤ◌, nat_abs}
use hardmoney.Reconcile.{Relation, LineRule, ScheduleSum}
use hardmoney.Reconcile.Cents.{
  field_cents-le, -ℤ-le, zero_+ℤ, field_cents, +ℤ-le, +ℤ-assoc, schedule_cents-bound, +ℤ-zero,
  schedule_cents,
}
use hardmoney.Reconcile.Chain.{ReportChain}
use hardmoney.Reconcile.Chain.Checks.{sum_reports, period_reports, period_check}

-- The cents of the schedules of all reports.
abbrev pub reports_cents : List Filing → List ScheduleSum → ℤ
reports_cents [] sums = pos 0
reports_cents (r ∷ rs) sums = schedule_cents r.lines sums +ℤ reports_cents rs sums

-- How many amounts are added at most.
abbrev pub amounts : List Filing → List ScheduleSum → ℕ
amounts [] sums = 0
amounts (r ∷ rs) sums = length r.lines * length sums + amounts rs sums

module _ (D : Decimal) (laws : DecimalLaws D) where
  open laws use {HasCents, zero_cents, add_cents, sub_cents}

  sum_reports-exact :
      (cal : Calendar) (reports : List Filing) (sums : List ScheduleSum) (acc : D.Carrier × ℕ)
      (x : ℤ) (b : ℕ)
      → HasCents acc.0 x
      → nat_abs x ≤ b * max_i64
      → b + amounts reports sums ≤ 2 ^ 32
      → HasCents (sum_reports cal D acc reports sums).0 (x +ℤ reports_cents reports sums)
  sum_reports-exact cal [] sums acc x b h k m = subst (HasCents acc.0) (sym (+ℤ-zero x)) h
  sum_reports-exact cal (r ∷ rs) sums acc x b h k m =
      let t = schedule_cents r.lines sums in
      let n = length r.lines * length sums in
      let small = schedule_cents-bound r.lines sums in
      subst (HasCents (sum_reports cal D _ rs sums).0) (+ℤ-assoc x t (reports_cents rs sums)) (
        sum_reports-exact cal rs sums _ (x +ℤ t) (b + n)
          (add_cents acc.0 (schedule_sum D r.lines sums).0 x t h
            (schedule_sum-exact D laws r.lines sums (omega (arith, m)))
            (omega (arith, m, k, small, +ℤ-le x t (b * max_i64) (n * max_i64) k small)))
          (omega (arith, +ℤ-le x t (b * max_i64) (n * max_i64) k small)) (omega (arith, m)))

  reports_cents-le :
      (reports : List Filing) (sums : List ScheduleSum)
      → nat_abs (reports_cents reports sums) ≤ amounts reports sums * max_i64
  reports_cents-le [] sums = omega arith
  reports_cents-le (r ∷ rs) sums =
      let n = length r.lines * length sums in
      omega (
        arith,
        +ℤ-le (schedule_cents r.lines sums) (reports_cents rs sums) (n * max_i64)
            (amounts rs sums * max_i64) (schedule_cents-bound r.lines sums)
            (reports_cents-le rs sums),
      )

  -- When the reports of a chain's period hold at most 2 ^ 32 amounts for a rule, the Column B check
  -- of the rule expects exactly the sum, in cents, of the rule's schedules over all reports of the
  -- period, and its difference is exactly the reported cents less that sum.
  pub period_check-exact :
      (cal : Calendar) (chain : ReportChain cal) (a b : LineRule) (relation : Relation)
      (sums : List ScheduleSum)
      → amounts (period_reports cal chain) sums ≤ 2 ^ 32
      → HasCents
          (period_check cal D chain a b relation sums).expected
          (reports_cents (period_reports cal chain) sums)
        × HasCents (period_check cal D chain a b relation sums).delta (
            field_cents chain.current.summary b.field
            -ℤ reports_cents (period_reports cal chain) sums)
  unfolding period_check
  period_check-exact cal chain a b relation sums m =
      let reports = period_reports cal chain in
      let cover = chain.current.summary in
      let total =
        subst (HasCents (sum_reports cal D (D.zero, 0) reports sums).0)
          (zero_+ℤ (reports_cents reports sums))
          (sum_reports-exact cal reports sums (D.zero, 0) (pos 0) 0 zero_cents (omega arith)
            (omega (arith, m))) in
      (
        total,
        sub_cents _ _ (field_cents cover b.field) (reports_cents reports sums)
            (reported-exact D laws cover b.field) total
            (omega (
              arith,
              m,
              reports_cents-le reports sums,
              -ℤ-le (field_cents cover b.field) (reports_cents reports sums) max_i64
                  (amounts reports sums * max_i64) (field_cents-le cover b.field)
                  (reports_cents-le reports sums),
            )),
      )
