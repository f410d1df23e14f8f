-- ===== src/Reconcile/Check.antt =====
-- The check of one line and of a filing. A filing is its cover line and its body lines.
use hardmoney.Prelude.{
  ℕ, ◌+◌, Bool, true, false, not, ◌&&◌, List, [], ◌∷◌, map, Option, none, some, any_b, all_b, keep,
  find_first, is_some, unwrap_or, and_then, if◌then◌else◌,
}
use hardmoney.Prelude.Result.{Result, ok, ◌>>=◌, ok_or}
use hardmoney.Text.{Str, eq_str, eq_ignore_ascii_case}
use hardmoney.Table.{Table, eq_table}
use hardmoney.Line.{ParsedLine, get, get_non_empty, is_memo}
use hardmoney.Decimal.{Decimal}
use hardmoney.Money.{parse_money}
use hardmoney.Reconcile.{
  Column, eq_column, ScheduleSum, Term, Relation, Source, schedules, formula, input, LineRule,
  formula_text,
}
use hardmoney.Reconcile.Rules.{rules_for}

pub record LineCheck (Amount : Type 0) : Type 0 where
  pub line : Str
  pub field : Str
  pub column : Column
  pub rule : Str
  pub reported : Option Amount
  pub expected : Amount
  pub delta : Amount
  pub relation : Relation
  pub lines_summed : ℕ
  pub reports_summed : ℕ
  pub reported_unparseable : Bool

pub record Reconciliation (Amount : Type 0) : Type 0 where
  pub form : Table
  pub checks : List (LineCheck Amount)

pub data ReconcileError : Type 0 where
  unsupported_form : Table → ReconcileError

-- The rule of a label in a column.
unfoldable pub rule_at : List LineRule → Column → Str → Option LineRule
unfolding eq_column eq_str
rule_at rules column line =
    find_first (λ r. eq_column (r.column) column && eq_str (r.line) line) rules

abbrev pub relation_of : Source → Relation
relation_of (schedules relation sums) = relation
relation_of (formula terms) = Relation.equal
relation_of input = Relation.equal

-- `line.table() == s.table && s.tokens.iter().any(..)`
unfoldable pub counts : ParsedLine → ScheduleSum → Bool
unfolding eq_table eq_ignore_ascii_case
counts line s =
    eq_table line.layout.table s.table
    && any_b (λ t. eq_ignore_ascii_case t line.raw_form_type) s.tokens

abbrev pub is_ruled : Source → Bool
is_ruled input = false
is_ruled _ = true

unfoldable pub checked_rules : ParsedLine → List LineRule → List LineRule
unfolding get
checked_rules summary rules =
    keep (λ r. is_some (get summary (r.field))) (keep (λ r. is_ruled (r.source)) rules)

module _ (D : Decimal) where
  abbrev money : Option Str → Option D.Carrier
  money o = and_then o (parse_money D)

  -- The amount, and whether the field holds something that is no amount.
  abbrev pub with_flag : Option Str → Option D.Carrier × Bool
  with_flag none = (none, false)
  with_flag (some raw) = (parse_money D raw, not (is_some (parse_money D raw)))

  unfoldable pub reported_amount : ParsedLine → Str → Option D.Carrier × Bool
  unfolding parse_money get_non_empty
  reported_amount cover field = with_flag (get_non_empty cover field)

  abbrev pub or_zero : Option D.Carrier → D.Carrier
  or_zero o = unwrap_or o D.zero

  abbrev pub add_amount : D.Carrier × ℕ → Option D.Carrier → D.Carrier × ℕ
  add_amount (total, n) none = (total, n)
  add_amount (total, n) (some amount) = (D.saturating_add total amount, n + 1)

  abbrev pub add_sum : ParsedLine → D.Carrier × ℕ → ScheduleSum → D.Carrier × ℕ
  add_sum line acc s =
      if counts line s then add_amount acc (money (get_non_empty line s.field)) else acc

  -- The inner loop, over the contributions.
  abbrev pub sum_line : ParsedLine → D.Carrier × ℕ → List ScheduleSum → D.Carrier × ℕ
  sum_line line acc [] = acc
  sum_line line acc (s ∷ sums) = sum_line line (add_sum line acc s) sums

  -- The outer loop, over the lines.
  abbrev pub sum_lines : D.Carrier × ℕ → List ParsedLine → List ScheduleSum → D.Carrier × ℕ
  sum_lines acc [] sums = acc
  sum_lines acc (line ∷ body) sums = sum_lines (sum_line line acc sums) body sums

  unfoldable pub schedule_sum : List ParsedLine → List ScheduleSum → D.Carrier × ℕ
  unfolding is_memo counts get_non_empty parse_money
  schedule_sum body sums = sum_lines (D.zero, 0) (keep (λ l. not (is_memo l)) body) sums

  -- The value of a term's line, 0 if there is no such rule or no amount.
  abbrev pub term_value : ParsedLine → List LineRule → Column → Term → D.Carrier
  term_value cover rules column t =
      or_zero (and_then (rule_at rules column t.line) (λ r. (reported_amount cover r.field).0))

  abbrev pub formula_total : ParsedLine → List LineRule → Column → D.Carrier → List Term → D.Carrier
  formula_total cover rules column total [] = total
  formula_total cover rules column total (t ∷ terms) =
      let value = term_value cover rules column t in
      formula_total cover rules column
        (if t.negative then D.saturating_sub total value else D.saturating_add total value) terms

  abbrev pub expected_of :
      ParsedLine → List ParsedLine → List LineRule → Column → D.Carrier → Source → D.Carrier × ℕ
  expected_of cover body rules column reported (schedules relation sums) = schedule_sum body sums
  expected_of cover body rules column reported input = (reported, 0)
  expected_of cover body rules column reported (formula terms) =
      (formula_total cover rules column D.zero terms, 0)

  unfoldable pub check_line :
      ParsedLine → List ParsedLine → List LineRule → LineRule → LineCheck D.Carrier
  unfolding reported_amount schedule_sum rule_at formula_text
  check_line cover body rules r =
      let (reported, unparseable) = reported_amount cover r.field in
      let (expected, lines_summed) =
        expected_of cover body rules r.column (or_zero reported) r.source in
      record {
        line = r.line;
        field = r.field;
        column = r.column;
        rule = formula_text r;
        reported = reported;
        expected = expected;
        delta = D.saturating_sub (or_zero reported) expected;
        relation = relation_of r.source;
        lines_summed = lines_summed;
        reports_summed = 1;
        reported_unparseable = unparseable;
      }

  abbrev pub violation_of : Relation → D.Carrier → D.Carrier
  violation_of Relation.equal delta = D.abs delta
  violation_of Relation.at_least delta = if D.is_sign_negative delta then D.abs delta else D.zero

  unfoldable pub violation : LineCheck D.Carrier → D.Carrier
  violation c = violation_of c.relation c.delta

  unfoldable pub matches : LineCheck D.Carrier → Bool
  unfolding violation
  matches c = D.is_zero (violation c)

  unfoldable pub mismatches : Reconciliation D.Carrier → List (LineCheck D.Carrier)
  unfolding matches
  mismatches r = keep (λ c. not (matches c)) r.checks

  unfoldable pub mismatches_over : Reconciliation D.Carrier → D.Carrier → List (LineCheck D.Carrier)
  unfolding violation
  mismatches_over r tolerance = keep (λ c. D.gt (violation c) tolerance) r.checks

  unfoldable pub balances : Reconciliation D.Carrier → Bool
  unfolding matches
  balances r = all_b matches r.checks

  unfoldable pub column_checks : Reconciliation D.Carrier → Column → List (LineCheck D.Carrier)
  unfolding eq_column
  column_checks r column = keep (λ c. eq_column (c.column) column) r.checks

  unfoldable pub line_check : Reconciliation D.Carrier → Column → Str → Option (LineCheck D.Carrier)
  unfolding eq_column eq_str
  line_check r column line =
      find_first (λ c. eq_column (c.column) column && eq_str (c.line) line) r.checks

  -- `Filing::reconcile`
  unfoldable pub reconcile :
      ParsedLine → List ParsedLine → Result ReconcileError (Reconciliation D.Carrier)
  unfolding check_line rules_for checked_rules
  reconcile summary body = do
    let form = summary.layout.table
    rules ← ok_or (rules_for form) (unsupported_form form)
    ok record {
      form = form;
      checks = map (check_line summary body rules) (checked_rules summary rules);
    }
