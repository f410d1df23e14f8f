-- ===== src/Reconcile/Rules/F3.antt =====
-- The rule table of Form 3: a House or Senate candidate committee (`F3_RULES`).
use hardmoney.Prelude.{List, [], ◌∷◌, ◌++◌}
use hardmoney.Table.{Table}
use hardmoney.Reconcile.{Column, LineRule}
use hardmoney.Reconcile.Rules.Notation.{rule, unruled, total, difference, equals, covers, on}

abbrev pub f3_rules_a : List LineRule
f3_rules_a =
    rule Column.a "9" "col_a_debts_to" (
      equals (
        on Table.sch_c ("SC/9" ∷ []) "loan_balance"
        ∷ on Table.sch_d ("SD9" ∷ []) "balance_at_close_this_period"
        ∷ []))
    ∷ rule Column.a "10" "col_a_debts_by" (
        equals (
          on Table.sch_c ("SC/10" ∷ []) "loan_balance"
          ∷ on Table.sch_d ("SD10" ∷ []) "balance_at_close_this_period"
          ∷ []))
    ∷ rule Column.a "11(a)(i)" "col_a_individuals_itemized"
        (equals (on Table.sch_a ("SA11AI" ∷ "SA11A1" ∷ []) "contribution_amount" ∷ []))
    ∷ rule Column.a "11(a)(ii)" "col_a_individuals_unitemized" unruled
    ∷ rule Column.a "11(a)(iii)" "col_a_individual_contribution_total"
        (total ("11(a)(i)" ∷ "11(a)(ii)" ∷ []))
    ∷ rule Column.a "11(b)" "col_a_political_party_contributions"
        (equals (on Table.sch_a ("SA11B" ∷ []) "contribution_amount" ∷ []))
    ∷ rule Column.a "11(c)" "col_a_pac_contributions"
        (equals (on Table.sch_a ("SA11C" ∷ []) "contribution_amount" ∷ []))
    ∷ rule Column.a "11(d)" "col_a_candidate_contributions"
        (covers (on Table.sch_a ("SA11D" ∷ []) "contribution_amount" ∷ []))
    ∷ rule Column.a "11(e)" "col_a_total_contributions"
        (total ("11(a)(iii)" ∷ "11(b)" ∷ "11(c)" ∷ "11(d)" ∷ []))
    ∷ rule Column.a "12" "col_a_transfers_from_authorized"
        (equals (on Table.sch_a ("SA12" ∷ []) "contribution_amount" ∷ []))
    ∷ rule Column.a "13(a)" "col_a_candidate_loans"
        (equals (on Table.sch_a ("SA13A" ∷ []) "contribution_amount" ∷ []))
    ∷ rule Column.a "13(b)" "col_a_other_loans"
        (equals (on Table.sch_a ("SA13B" ∷ []) "contribution_amount" ∷ []))
    ∷ rule Column.a "13(c)" "col_a_total_loans" (total ("13(a)" ∷ "13(b)" ∷ []))
    ∷ rule Column.a "14" "col_a_offset_to_operating_expenditures"
        (covers (on Table.sch_a ("SA14" ∷ []) "contribution_amount" ∷ []))
    ∷ rule Column.a "15" "col_a_other_receipts"
        (covers (on Table.sch_a ("SA15" ∷ []) "contribution_amount" ∷ []))
    ∷ rule Column.a "16" "col_a_total_receipts"
        (total ("11(e)" ∷ "12" ∷ "13(c)" ∷ "14" ∷ "15" ∷ []))
    ∷ rule Column.a "17" "col_a_operating_expenditures"
        (covers (on Table.sch_b ("SB17" ∷ []) "expenditure_amount" ∷ []))
    ∷ rule Column.a "18" "col_a_transfers_to_authorized"
        (equals (on Table.sch_b ("SB18" ∷ []) "expenditure_amount" ∷ []))
    ∷ rule Column.a "19(a)" "col_a_candidate_loan_repayments"
        (equals (on Table.sch_b ("SB19A" ∷ []) "expenditure_amount" ∷ []))
    ∷ rule Column.a "19(b)" "col_a_other_loan_repayments"
        (equals (on Table.sch_b ("SB19B" ∷ []) "expenditure_amount" ∷ []))
    ∷ rule Column.a "19(c)" "col_a_total_loan_repayments" (total ("19(a)" ∷ "19(b)" ∷ []))
    ∷ rule Column.a "20(a)" "col_a_refunds_to_individuals"
        (covers (on Table.sch_b ("SB20A" ∷ []) "expenditure_amount" ∷ []))
    ∷ rule Column.a "20(b)" "col_a_refunds_to_party_committees"
        (equals (on Table.sch_b ("SB20B" ∷ []) "expenditure_amount" ∷ []))
    ∷ rule Column.a "20(c)" "col_a_refunds_to_other_committees"
        (equals (on Table.sch_b ("SB20C" ∷ []) "expenditure_amount" ∷ []))
    ∷ rule Column.a "20(d)" "col_a_total_refunds" (total ("20(a)" ∷ "20(b)" ∷ "20(c)" ∷ []))
    ∷ rule Column.a "21" "col_a_other_disbursements"
        (covers (on Table.sch_b ("SB21" ∷ []) "expenditure_amount" ∷ []))
    ∷ rule Column.a "22" "col_a_total_disbursements"
        (total ("17" ∷ "18" ∷ "19(c)" ∷ "20(d)" ∷ "21" ∷ []))
    ∷ rule Column.a "6(a)" "col_a_total_contributions_no_loans" (total ("11(e)" ∷ []))
    ∷ rule Column.a "6(b)" "col_a_total_contributions_refunds" (total ("20(d)" ∷ []))
    ∷ rule Column.a "6(c)" "col_a_net_contributions" (difference ("6(a)" ∷ []) ("6(b)" ∷ []))
    ∷ rule Column.a "7(a)" "col_a_total_operating_expenditures" (total ("17" ∷ []))
    ∷ rule Column.a "7(b)" "col_a_total_offset_to_operating_expenditures" (total ("14" ∷ []))
    ∷ rule Column.a "7(c)" "col_a_net_operating_expenditures"
        (difference ("7(a)" ∷ []) ("7(b)" ∷ []))
    ∷ rule Column.a "23" "col_a_cash_on_hand_beginning_period" unruled
    ∷ rule Column.a "24" "col_a_total_receipts_period" (total ("16" ∷ []))
    ∷ rule Column.a "25" "col_a_subtotal" (total ("23" ∷ "24" ∷ []))
    ∷ rule Column.a "26" "col_a_total_disbursements_period" (total ("22" ∷ []))
    ∷ rule Column.a "27" "col_a_cash_on_hand_close" (difference ("25" ∷ []) ("26" ∷ []))
    ∷ rule Column.a "8" "col_a_cash_on_hand_close_of_period" (total ("27" ∷ []))
    ∷ []

abbrev pub f3_rules_b : List LineRule
f3_rules_b =
    rule Column.b "11(a)(i)" "col_b_individuals_itemized" unruled
    ∷ rule Column.b "11(a)(ii)" "col_b_individuals_unitemized" unruled
    ∷ rule Column.b "11(a)(iii)" "col_b_individual_contribution_total"
        (total ("11(a)(i)" ∷ "11(a)(ii)" ∷ []))
    ∷ rule Column.b "11(b)" "col_b_political_party_contributions" unruled
    ∷ rule Column.b "11(c)" "col_b_pac_contributions" unruled
    ∷ rule Column.b "11(d)" "col_b_candidate_contributions" unruled
    ∷ rule Column.b "11(e)" "col_b_total_contributions"
        (total ("11(a)(iii)" ∷ "11(b)" ∷ "11(c)" ∷ "11(d)" ∷ []))
    ∷ rule Column.b "12" "col_b_transfers_from_authorized" unruled
    ∷ rule Column.b "13(a)" "col_b_candidate_loans" unruled
    ∷ rule Column.b "13(b)" "col_b_other_loans" unruled
    ∷ rule Column.b "13(c)" "col_b_total_loans" (total ("13(a)" ∷ "13(b)" ∷ []))
    ∷ rule Column.b "14" "col_b_offset_to_operating_expenditures" unruled
    ∷ rule Column.b "15" "col_b_other_receipts" unruled
    ∷ rule Column.b "16" "col_b_total_receipts"
        (total ("11(e)" ∷ "12" ∷ "13(c)" ∷ "14" ∷ "15" ∷ []))
    ∷ rule Column.b "17" "col_b_operating_expenditures" unruled
    ∷ rule Column.b "18" "col_b_transfers_to_authorized" unruled
    ∷ rule Column.b "19(a)" "col_b_candidate_loan_repayments" unruled
    ∷ rule Column.b "19(b)" "col_b_other_loan_repayments" unruled
    ∷ rule Column.b "19(c)" "col_b_total_loan_repayments" (total ("19(a)" ∷ "19(b)" ∷ []))
    ∷ rule Column.b "20(a)" "col_b_refunds_to_individuals" unruled
    ∷ rule Column.b "20(b)" "col_b_refunds_to_party_committees" unruled
    ∷ rule Column.b "20(c)" "col_b_refunds_to_other_committees" unruled
    ∷ rule Column.b "20(d)" "col_b_total_refunds" (total ("20(a)" ∷ "20(b)" ∷ "20(c)" ∷ []))
    ∷ rule Column.b "21" "col_b_other_disbursements" unruled
    ∷ rule Column.b "22" "col_b_total_disbursements"
        (total ("17" ∷ "18" ∷ "19(c)" ∷ "20(d)" ∷ "21" ∷ []))
    ∷ rule Column.b "6(a)" "col_b_total_contributions_no_loans" (total ("11(e)" ∷ []))
    ∷ rule Column.b "6(b)" "col_b_total_contributions_refunds" (total ("20(d)" ∷ []))
    ∷ rule Column.b "6(c)" "col_b_net_contributions" (difference ("6(a)" ∷ []) ("6(b)" ∷ []))
    ∷ rule Column.b "7(a)" "col_b_total_operating_expenditures" (total ("17" ∷ []))
    ∷ rule Column.b "7(b)" "col_b_total_offset_to_operating_expenditures" (total ("14" ∷ []))
    ∷ rule Column.b "7(c)" "col_b_net_operating_expenditures"
        (difference ("7(a)" ∷ []) ("7(b)" ∷ []))
    ∷ []

abbrev pub f3_rules : List LineRule
f3_rules = f3_rules_a ++ f3_rules_b
