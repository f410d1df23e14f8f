-- ===== src/Tests/Chains.antt =====
-- Three reports of one committee, given out of order.
use Prim.Native.String.{String}
use hardmoney.Reconcile.Cents.{field_cents}
use hardmoney.Reconcile.Chain.Sums.{period_check-exact, reports_cents}
use hardmoney.Reconcile.Check.{LineCheck}
use hardmoney.Reconcile.Chain.Checks.{period_check, period_reports, gaps}
use hardmoney.Table.{Table}
use hardmoney.Tests.Pages.{item}
use hardmoney.Decimal.Model.{cents, cents_laws}
use hardmoney.Reconcile.{Column, Relation, LineRule, ScheduleSum, schedules}
use hardmoney.Prelude.{List, arith}
use hardmoney.Version.{electronic}
use hardmoney.Prelude.Int.{◌-ℤ◌, ℤ, nat_abs, pos}
use hardmoney.Layout.{Layout}
use hardmoney.Text.{show, codes, digits_value, Str}
use hardmoney.Filing.{Filing}
use hardmoney.Prelude.{◌-◌, ◌+◌, ◌*◌, false, [], ◌/◌, ◌∷◌, refl, ◌≡◌, ℕ, none, some}
use hardmoney.Prelude.Result.{ok}
use hardmoney.Tests.Filings.{header}
use hardmoney.Reconcile.Chain.{year_to_date, ReportChain, new}
use hardmoney.Reconcile.Chain.InOrder.{Holds, new-InOrder}
use hardmoney.Calendar.{Calendar}

-- Days are numbered by their eight digits, which keeps their order.
abbrev pub calendar : Calendar
calendar = record {
  Date = ℕ;
  day = λ d. d;
  year = λ d. pos (d / 10000);
  parse_ymd = λ s. some (digits_value 0 s);
  year_start = λ y. some (nat_abs y * 10000 + 101);
  pred = λ d. some (d - 1);
  succ = λ d. some (d + 1);
  show = λ d. show d;
}

abbrev period_layout : Layout
period_layout = record {
  table = Table.f3x;
  versions = electronic 8 5 ∷ [];
  fields =
      record { name = codes "coverage_from_date"; column = 1 }
      ∷ record { name = codes "coverage_through_date"; column = 2 }
      ∷ record { name = codes "filer_committee_id_number"; column = 3 }
      ∷ [];
  width = 4;
  by_name = 0 ∷ 1 ∷ 2 ∷ [];
}

abbrev report : Str → Str → Str → Filing
report from through filer = record {
  header = header;
  version = electronic 8 5;
  raw_form_type = codes "F3XN";
  base_form_type = codes "F3X";
  is_amendment = false;
  amends_filing = none;
  summary = record {
    raw_form_type = codes "F3XN";
    line_no = 2;
    layout = period_layout;
    values = from ∷ through ∷ filer ∷ [];
  };
  lines = item ∷ [];
}

abbrev january : Filing
january = report (codes "20240101") (codes "20240131") (codes "C00123456")

abbrev february : Filing
february = report (codes "20240201") (codes "20240229") (codes "c00123456")

abbrev march : Filing
march = report (codes "20240301") (codes "20240331") (codes "C00123456")

abbrev chain : ReportChain calendar
chain = record {
  current = march;
  prior = january ∷ february ∷ [];
  form = Table.f3x;
  basis = year_to_date;
  current_coverage = record { from = 20240301; through = 20240331 };
}

chain_built : new calendar march (february ∷ january ∷ []) ≡ ok chain
unfolding new digits_value
chain_built = refl

new-InOrder_example : Holds calendar march (february ∷ january ∷ []) chain
new-InOrder_example = new-InOrder calendar march (february ∷ january ∷ []) chain chain_built

gaps_found :
    gaps calendar (record chain { prior = january ∷ [] })
    ≡ record { from = 20240132; through = 20240300 } ∷ []
unfolding gaps digits_value
gaps_found = refl

abbrev transfers : List ScheduleSum
transfers =
    record { table = Table.sch_a; tokens = codes "SA12" ∷ []; field = codes "contribution_amount" }
    ∷ []

abbrev line_12 : Column → String → LineRule
line_12 column field = record {
  line = codes "12";
  field = codes field;
  column = column;
  source = schedules Relation.at_least transfers;
}

abbrev on_line_12 : LineCheck ℤ
on_line_12 =
    period_check calendar cents chain (line_12 Column.a "col_a_transfers")
      (line_12 Column.b "col_b_transfers") Relation.at_least transfers

period_check-exact_example :
    (cents_laws.HasCents on_line_12.expected
      (reports_cents (period_reports calendar chain) transfers))
    × (cents_laws.HasCents on_line_12.delta (
        field_cents march.summary (codes "col_b_transfers")
        -ℤ reports_cents (period_reports calendar chain) transfers))
unfolding period_reports digits_value
period_check-exact_example =
    period_check-exact cents cents_laws calendar chain (line_12 Column.a "col_a_transfers")
      (line_12 Column.b "col_b_transfers") Relation.at_least transfers (omega arith)
