-- ===== src/Reconcile/Chain/Checks.antt =====
-- The checks of a chain: Column B over the reports of the period, the cash that is carried forward,
-- and the days that no report covers.
use mathlib.Core.List.{reverse}
use hardmoney.Line.{get}
use hardmoney.Filing.{Filing}
use hardmoney.Reconcile.Rules.{rules_for}
use hardmoney.Decimal.{Decimal}
use hardmoney.Prelude.Int.{ltb_ℤ, eq_ℤ, ℤ}
use hardmoney.Table.{Table}
use hardmoney.Calendar.{Calendar}
use hardmoney.Text.{show, codes, Str}
use hardmoney.Reconcile.{formula_text, eq_column, Source}
use hardmoney.Reconcile.Check.{or_zero, reported_amount, schedule_sum, rule_at, LineCheck}
use mathlib.Core.Option
use hardmoney.Prelude.{
  length, ltb, find_first, is_some, ◌++◌, ◌+◌, none, true, if◌then◌else◌, false, keep, ◌∷◌,
  and_then, some, Bool, [], List, Option, ℕ,
}
use hardmoney.Reconcile.{LineRule, Column, Relation, ScheduleSum, schedules, formula, input}
use hardmoney.Reconcile.Chain.{
  coverage, ReportChain, Coverage, PeriodBasis, year_to_date, cycle_to_date,
}

unfoldable pub basis_text : PeriodBasis → Str
basis_text year_to_date = codes "year to date"
basis_text cycle_to_date = codes "cycle to date"

pub record CashLines : Type 0 where
  pub beginning : Str
  pub close : Str
  pub year_start : Option Str

unfoldable pub cash_lines : Table → Option CashLines
cash_lines Table.f3x =
    some (record { beginning = codes "6(b)"; close = codes "8"; year_start = some (codes "6(a)") })
cash_lines Table.f3 =
    some (record { beginning = codes "23"; close = codes "27"; year_start = none })
cash_lines Table.f3p =
    some (record { beginning = codes "6"; close = codes "10"; year_start = none })
cash_lines _ = none

unfoldable pub field_of : List LineRule → Column → Str → Option Str
unfolding rule_at
field_of rules column line = Option.map (λ r. r.field) (rule_at rules column line)

module _ (cal : Calendar) where
  abbrev pub covers_year : (ℤ → Bool) → Option (Coverage cal) → Bool
  covers_year test none = false
  covers_year test (some c) = test (cal.year c.through)

  abbrev pub in_period : PeriodBasis → ℤ → Filing → Bool
  in_period cycle_to_date year report = true
  in_period year_to_date year report = covers_year (λ y. eq_ℤ y year) (coverage cal report)

  unfoldable pub period_reports : ReportChain cal → List Filing
  unfolding coverage
  period_reports chain =
      keep (in_period chain.basis (cal.year chain.current_coverage.from)) chain.prior
      ++ (chain.current ∷ [])

  abbrev pub prior_year_report : PeriodBasis → ℤ → List Filing → Option Filing
  prior_year_report cycle_to_date year prior = none
  prior_year_report year_to_date year prior =
      find_first (λ f. covers_year (λ y. ltb_ℤ y year) (coverage cal f)) (reverse prior)

  unfoldable pub last_report_of_prior_year : ReportChain cal → Option Filing
  unfolding coverage
  last_report_of_prior_year chain =
      prior_year_report chain.basis (cal.year chain.current_coverage.from) chain.prior

  -- The gap before a report, if the next day that is expected lies before its first day.
  abbrev pub gap_of : cal.Date → Option cal.Date → List (Coverage cal)
  gap_of expected none = []
  gap_of expected (some through) = record { from = expected; through = through } ∷ []

  abbrev pub gap_before : Option cal.Date → Coverage cal → List (Coverage cal)
  gap_before none period = []
  gap_before (some expected) period =
      if ltb (cal.day expected) (cal.day period.from)
      then gap_of expected (cal.pred period.from)
      else []

  abbrev pub gaps_at :
      (Option cal.Date → List (Coverage cal))
      → Option cal.Date
      → Option (Coverage cal)
      → List (Coverage cal)
  gaps_at rest cursor none = rest cursor
  gaps_at rest cursor (some period) = gap_before cursor period ++ rest (cal.succ period.through)

  abbrev pub gaps_from : Option cal.Date → List Filing → List (Coverage cal)
  gaps_from cursor [] = []
  gaps_from cursor (report ∷ reports) =
      gaps_at (λ next. gaps_from next reports) cursor (coverage cal report)

  abbrev pub first_day : List Filing → Option cal.Date
  first_day [] = none
  first_day (report ∷ reports) = Option.map (λ c. c.from) (coverage cal report)

  abbrev pub start_of : PeriodBasis → ℤ → List Filing → Option cal.Date
  start_of year_to_date year reports = cal.year_start year
  start_of cycle_to_date year reports = first_day reports

  unfoldable pub gaps : ReportChain cal → List (Coverage cal)
  unfolding period_reports coverage
  gaps chain =
      let reports = period_reports chain in
      gaps_from (start_of chain.basis (cal.year chain.current_coverage.from) reports) reports

  module _ (D : Decimal) where
    -- The loop over the reports of the period.
    abbrev pub sum_reports : D.Carrier × ℕ → List Filing → List ScheduleSum → D.Carrier × ℕ
    sum_reports acc [] sums = acc
    sum_reports (expected, n) (report ∷ reports) sums =
        let (total, k) = schedule_sum D report.lines sums in
        sum_reports (D.saturating_add expected total, n + k) reports sums

    -- The check of a line of Column B, over the sums of its rule in Column A.
    unfoldable pub period_check :
        ReportChain cal → LineRule → LineRule → Relation → List ScheduleSum → LineCheck D.Carrier
    unfolding period_reports schedule_sum reported_amount formula_text basis_text show
    period_check chain a b relation sums =
        let reports = period_reports chain in
        let (reported, unparseable) = reported_amount D chain.current.summary b.field in
        let (expected, lines_summed) = sum_reports (D.zero, 0) reports sums in
        record {
          line = b.line;
          field = b.field;
          column = Column.b;
          rule =
              formula_text a
              ++ codes " over "
              ++ show (length reports)
              ++ codes " report(s), "
              ++ basis_text chain.basis;
          reported = reported;
          expected = expected;
          delta = D.saturating_sub (or_zero D reported) expected;
          relation = relation;
          lines_summed = lines_summed;
          reports_summed = length reports;
          reported_unparseable = unparseable;
        }

    abbrev pub checks_with :
        ReportChain cal
        → LineRule
        → Relation
        → List ScheduleSum
        → Option LineRule
        → List (LineCheck D.Carrier)
    checks_with chain a relation sums none = []
    checks_with chain a relation sums (some b) =
        if is_some (get chain.current.summary b.field)
        then period_check chain a b relation sums ∷ []
        else []

    abbrev pub checks_of :
        ReportChain cal → List LineRule → LineRule → Source → List (LineCheck D.Carrier)
    checks_of chain rules a (schedules relation sums) =
        checks_with chain a relation sums (rule_at rules Column.b a.line)
    checks_of chain rules a (formula terms) = []
    checks_of chain rules a input = []

    -- The loop over the rules of Column A.
    abbrev pub checks_over :
        ReportChain cal → List LineRule → List LineRule → List (LineCheck D.Carrier)
    checks_over chain rules [] = []
    checks_over chain rules (a ∷ more) =
        (if eq_column a.column Column.a then checks_of chain rules a a.source else [])
        ++ checks_over chain rules more

    abbrev pub checks_under : ReportChain cal → Option (List LineRule) → List (LineCheck D.Carrier)
    checks_under chain none = []
    checks_under chain (some rules) = checks_over chain rules rules

    unfoldable pub column_b_checks : ReportChain cal → List (LineCheck D.Carrier)
    unfolding rules_for period_check rule_at get eq_column
    column_b_checks chain = checks_under chain (rules_for chain.form)

    abbrev pub when_text : Option (Coverage cal) → Str
    when_text none = []
    when_text (some c) =
        codes " (" ++ cal.show c.from ++ codes ".." ++ cal.show c.through ++ codes ")"

    unfoldable pub carried :
        ReportChain cal → CashLines → Str → Column → Filing → Str → Str → LineCheck D.Carrier
    unfolding reported_amount coverage
    carried chain cash line column previous field close_field =
        let (reported, unparseable) = reported_amount D chain.current.summary field in
        let expected = or_zero D (reported_amount D previous.summary close_field).0 in
        record {
          line = line;
          field = field;
          column = column;
          rule =
              codes "= "
              ++ cash.close
              ++ codes " of the prior report"
              ++ when_text (coverage cal previous);
          reported = reported;
          expected = expected;
          delta = D.saturating_sub (or_zero D reported) expected;
          relation = Relation.equal;
          lines_summed = 0;
          reports_summed = 1;
          reported_unparseable = unparseable;
        }

    -- The closure `carry`.
    unfoldable pub carry :
        ReportChain cal
        → List LineRule
        → CashLines
        → Str
        → Column
        → Filing
        → Option (LineCheck D.Carrier)
    unfolding field_of get carried
    carry chain rules cash line column previous = and_then (field_of rules column line) (λ field.
        and_then (get chain.current.summary field) (λ value.
          Option.map (λ close_field. carried chain cash line column previous field close_field)
            (field_of rules Column.a cash.close)))

    abbrev pub to_list : Option (LineCheck D.Carrier) → List (LineCheck D.Carrier)
    to_list none = []
    to_list (some c) = c ∷ []

    abbrev pub last_of : List Filing → Option Filing
    last_of [] = none
    last_of (f ∷ []) = some f
    last_of (f ∷ g ∷ fs) = last_of (g ∷ fs)

    abbrev pub carried_forward :
        ReportChain cal → List LineRule → CashLines → List (LineCheck D.Carrier)
    carried_forward chain rules cash =
        to_list (and_then (last_of chain.prior) (carry chain rules cash cash.beginning Column.a))
        ++ to_list (
            and_then cash.year_start (λ line.
              and_then (last_report_of_prior_year chain) (carry chain rules cash line Column.b)))

    abbrev pub carried_under :
        ReportChain cal → Option (List LineRule) → Option CashLines → List (LineCheck D.Carrier)
    carried_under chain none cash = []
    carried_under chain (some rules) none = []
    carried_under chain (some rules) (some cash) = carried_forward chain rules cash

    unfoldable pub carry_forward_checks : ReportChain cal → List (LineCheck D.Carrier)
    unfolding rules_for cash_lines carry last_report_of_prior_year
    carry_forward_checks chain = carried_under chain (rules_for chain.form) (cash_lines chain.form)
