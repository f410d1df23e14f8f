-- ===== src/Tests/Pages.antt =====
-- A Form 3X page with one transfer in, and what its check shows.
use Prim.Native.String.{String}
use hardmoney.Prelude.{
  and_split, All, all_b, arith, Bool, ℕ, true, List, [], ◌∷◌, map, ◌≡◌, ◌↔◌, refl,
}
use hardmoney.Prelude.Int.{eq_ℤ_iff, ◌+ℤ◌, eq_ℤ, ◌-ℤ◌, ℤ}
use hardmoney.Prelude.Result.{ok}
use hardmoney.Text.{codes}
use hardmoney.Table.{Table}
use hardmoney.Version.{electronic}
use hardmoney.Layout.{Layout, FieldDef}
use hardmoney.Line.{get, get_non_empty, ParsedLine}
use hardmoney.Decimal.Model.{cents, cents_laws}
use hardmoney.Reconcile.{LineRule}
use hardmoney.Reconcile.Rules.{rules_for}
use hardmoney.Reconcile.Rules.F3x.{f3x_rules}
use hardmoney.Reconcile.Check.{
  rule_at, Reconciliation, reconcile, balances, check_line, checked_rules, matches,
}
use hardmoney.Reconcile.Determined.{rules_for-in_order, in_order}
use hardmoney.Reconcile.Balance.{balances-reconcile, Holds, Passes}
use hardmoney.Reconcile.{Column, Relation, Source, schedules, formula, input}
use hardmoney.Reconcile.Rules.Notation.{rule, equals, on}
use hardmoney.Reconcile.Cents.{field_cents, formula_cents, text_cents}
use hardmoney.Reconcile.Verdict.{Relates, expected_cents, matches-check_line}
use hardmoney.Reconcile.Determined.{
  Obeys, ObeysSource, Agree, AgreeUnlessFormula, AgreeSource, formulas_determine,
}
use hardmoney.Money.{money_cents, is_sign, unsigned_cents, magnitude}
use hardmoney.Text.{
  trim, byte_len, split_once, all_digits, parse_digits, starts_with_char, trim_start,
}
use hardmoney.Prelude.Update.{set}
use hardmoney.Reconcile.Cash.{cash_identity, at_field}

abbrev field_at : ℕ → String → FieldDef
field_at column name = record { name = codes name; column = column }

abbrev page_layout : Layout
page_layout = record {
  table = Table.f3x;
  versions = electronic 8 5 ∷ [];
  fields =
      field_at 0 "form_type"
      ∷ field_at 1 "col_a_cash_on_hand_beginning_period"
      ∷ field_at 2 "col_a_transfers_from_aff_other_party_cmttees"
      ∷ field_at 3 "col_a_total_receipts_recap"
      ∷ field_at 4 "col_a_total_receipts"
      ∷ field_at 5 "col_a_subtotal"
      ∷ field_at 6 "col_a_other_disbursements"
      ∷ field_at 7 "col_a_total_disbursements_recap"
      ∷ field_at 8 "col_a_total_disbursements"
      ∷ field_at 9 "col_a_cash_on_hand_close_of_period"
      ∷ [];
  width = 10;
  by_name = 1 ∷ 9 ∷ 6 ∷ 5 ∷ 8 ∷ 7 ∷ 4 ∷ 3 ∷ 2 ∷ 0 ∷ [];
}

abbrev page : ParsedLine
page = record {
  raw_form_type = codes "F3XN";
  line_no = 2;
  layout = page_layout;
  values =
      codes "F3XN"
      ∷ codes "1000.00"
      ∷ codes "100.00"
      ∷ codes "100"
      ∷ codes "100.0"
      ∷ codes "1100"
      ∷ codes "30"
      ∷ codes "30.00"
      ∷ codes "30"
      ∷ codes "1070.00"
      ∷ [];
}

abbrev pub item_layout : Layout
item_layout = record {
  table = Table.sch_a;
  versions = electronic 8 5 ∷ [];
  fields = field_at 0 "form_type" ∷ field_at 1 "memo_code" ∷ field_at 2 "contribution_amount" ∷ [];
  width = 3;
  by_name = 2 ∷ 0 ∷ 1 ∷ [];
}

abbrev pub item : ParsedLine
item = record {
  raw_form_type = codes "SA12";
  line_no = 3;
  layout = item_layout;
  values = codes "SA12" ∷ codes "" ∷ codes "100.00" ∷ [];
}

abbrev short_layout : Layout
short_layout = record {
  table = Table.f3x;
  versions = electronic 8 5 ∷ [];
  fields = field_at 0 "form_type" ∷ field_at 1 "col_a_debts_to" ∷ [];
  width = 2;
  by_name = 1 ∷ 0 ∷ [];
}

abbrev short_page : ParsedLine
short_page = record {
  raw_form_type = codes "F3XN";
  line_no = 2;
  layout = short_layout;
  values = codes "F3XN" ∷ codes "5.00" ∷ [];
}

abbrev result : Reconciliation ℤ
result = record {
  form = Table.f3x;
  checks = map (check_line cents page (item ∷ []) f3x_rules) (checked_rules page f3x_rules);
}

reconciles : reconcile cents page (item ∷ []) ≡ ok result
unfolding reconcile
reconciles = refl

page_balances : balances cents result ≡ true
unfolding balances check_line checked_rules ◌-ℤ◌ ◌+ℤ◌
page_balances = refl

in_order_example : in_order [] f3x_rules ≡ true
in_order_example = rules_for-in_order Table.f3x f3x_rules (unfold rules_for in refl)

cash_example :
    at_field page "col_a_cash_on_hand_close_of_period"
    ≡ at_field page "col_a_cash_on_hand_beginning_period"
      +ℤ at_field page "col_a_total_receipts_recap"
      -ℤ at_field page "col_a_total_disbursements_recap"
unfolding get
cash_example =
    cash_identity cents cents_laws page (item ∷ []) result refl reconciles (omega arith)
      page_balances refl refl refl refl

balances_example :
    (balances cents result ≡ true) ↔ All (Passes (Holds page (item ∷ []) f3x_rules) page) f3x_rules
balances_example =
    balances-reconcile cents cents_laws page (item ∷ []) f3x_rules result (unfold rules_for in refl)
      reconciles (omega arith)

-- Line 12, the transfers in.
abbrev transfers : LineRule
transfers =
    rule Column.a "12" "col_a_transfers_from_aff_other_party_cmttees"
      (equals (on Table.sch_a ("SA12" ∷ []) "contribution_amount" ∷ []))

matches_example :
    (matches cents (check_line cents page (item ∷ []) f3x_rules transfers) ≡ true)
    ↔ Relates Relation.equal
        (field_cents page transfers.field)
        (expected_cents page (item ∷ []) f3x_rules transfers)
matches_example =
    matches-check_line cents cents_laws page (item ∷ []) f3x_rules transfers (omega arith)

abbrev obeys_test : ParsedLine → LineRule → Source → Bool
obeys_test cover r (formula terms) =
    eq_ℤ (field_cents cover r.field) (formula_cents cover f3x_rules r.column terms)
obeys_test cover r _ = true

Obeys-test :
    (cover : ParsedLine) (rules : List LineRule)
    → all_b (λ r. obeys_test cover r (r.source)) rules ≡ true
    → All (Obeys cover f3x_rules) rules
Obeys-test cover [] h = tt
Obeys-test cover (r ∷ rules) h =
    let (here, later) =
      and_split (obeys_test cover r r.source) (all_b (λ q. obeys_test cover q (q.source)) rules)
        h in
    (one r.source here, Obeys-test cover rules later)
  where
    one : (s : Source) → obeys_test cover r s ≡ true → ObeysSource cover f3x_rules r s
    one (formula terms) t =
        (eq_ℤ_iff (field_cents cover r.field) (formula_cents cover f3x_rules r.column terms)).0 t
    one (schedules relation sums) t = tt
    one input t = tt

-- The same short page, with its amount spelled without the point.
abbrev respelled : ParsedLine
respelled = record short_page { values = set short_page.values 1 (codes "+5") }

agree_of_test :
    (rules : List LineRule)
    → all_b (λ r. eq_ℤ (field_cents short_page (r.field)) (field_cents respelled (r.field))) rules
      ≡ true
    → All (AgreeUnlessFormula short_page respelled) rules
agree_of_test [] h = tt
agree_of_test (r ∷ rules) h =
    let (here, later) =
      and_split (eq_ℤ (field_cents short_page r.field) (field_cents respelled r.field))
        (all_b (λ q. eq_ℤ (field_cents short_page (q.field)) (field_cents respelled (q.field)))
          rules)
        h in
    (
      one r.source
          ((eq_ℤ_iff (field_cents short_page r.field) (field_cents respelled r.field)).0 here),
      agree_of_test rules later,
    )
  where
    one : (s : Source) → Agree short_page respelled r → AgreeSource short_page respelled r s
    one (formula terms) t = tt
    one (schedules relation sums) t = t
    one input t = t

page_tests :
    (all_b (λ r. obeys_test short_page r (r.source)) f3x_rules ≡ true)
    × (all_b (λ r. obeys_test respelled r (r.source)) f3x_rules ≡ true)
    × (all_b
          (λ r. eq_ℤ (field_cents short_page (r.field)) (field_cents respelled (r.field)))
          f3x_rules
        ≡ true)
unfolding field_cents get_non_empty text_cents money_cents rule_at ◌+ℤ◌ ◌-ℤ◌ trim byte_len is_sign
    unsigned_cents magnitude split_once all_digits parse_digits starts_with_char trim_start
page_tests = (refl, refl, refl)

determine_example : All (Agree short_page respelled) f3x_rules
determine_example =
    formulas_determine short_page respelled Table.f3x f3x_rules (unfold rules_for in refl)
      (Obeys-test short_page f3x_rules page_tests.0) (Obeys-test respelled f3x_rules page_tests.1)
      (agree_of_test f3x_rules page_tests.2)
