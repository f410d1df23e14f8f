-- ===== src/Reconcile/Rules/F3p.antt =====
-- The rule table of Form 3P: a presidential committee (`F3P_RULES`).
use hardmoney.Prelude.{List, [], ◌∷◌, ◌++◌}
use hardmoney.Table.{Table}
use hardmoney.Reconcile.{Column, LineRule}
use hardmoney.Reconcile.Rules.Notation.{rule, unruled, total, difference, equals, covers, on}

abbrev pub f3p_rules_a : List LineRule
f3p_rules_a =
    rule Column.a "11" "col_a_debts_to" (
      equals (
        on Table.sch_c ("SC/11" ∷ []) "loan_balance"
        ∷ on Table.sch_d ("SD11" ∷ []) "balance_at_close_this_period"
        ∷ []))
    ∷ rule Column.a "12" "col_a_debts_by" (
        equals (
          on Table.sch_c ("SC/12" ∷ []) "loan_balance"
          ∷ on Table.sch_d ("SD12" ∷ []) "balance_at_close_this_period"
          ∷ []))
    ∷ rule Column.a "16" "col_a_federal_funds"
        (equals (on Table.sch_a ("SA16" ∷ []) "contribution_amount" ∷ []))
    ∷ rule Column.a "17(a)(i)" "col_a_individuals_itemized"
        (equals (on Table.sch_a ("SA17A" ∷ []) "contribution_amount" ∷ []))
    ∷ rule Column.a "17(a)(ii)" "col_a_individuals_unitemized" unruled
    ∷ rule Column.a "17(a)(iii)" "col_a_individual_contribution_total"
        (total ("17(a)(i)" ∷ "17(a)(ii)" ∷ []))
    ∷ rule Column.a "17(b)" "col_a_political_party_contributions"
        (equals (on Table.sch_a ("SA17B" ∷ []) "contribution_amount" ∷ []))
    ∷ rule Column.a "17(c)" "col_a_pac_contributions"
        (equals (on Table.sch_a ("SA17C" ∷ []) "contribution_amount" ∷ []))
    ∷ rule Column.a "17(d)" "col_a_candidate_contributions"
        (covers (on Table.sch_a ("SA17D" ∷ []) "contribution_amount" ∷ []))
    ∷ rule Column.a "17(e)" "col_a_total_contributions"
        (total ("17(a)(iii)" ∷ "17(b)" ∷ "17(c)" ∷ "17(d)" ∷ []))
    ∷ rule Column.a "18" "col_a_transfers_from_aff_other_party_cmttees"
        (equals (on Table.sch_a ("SA18" ∷ []) "contribution_amount" ∷ []))
    ∷ rule Column.a "19(a)" "col_a_candidate_loans"
        (equals (on Table.sch_a ("SA19A" ∷ []) "contribution_amount" ∷ []))
    ∷ rule Column.a "19(b)" "col_a_other_loans"
        (equals (on Table.sch_a ("SA19B" ∷ []) "contribution_amount" ∷ []))
    ∷ rule Column.a "19(c)" "col_a_total_loans" (total ("19(a)" ∷ "19(b)" ∷ []))
    ∷ rule Column.a "20(a)" "col_a_offset_to_operating_expenditures"
        (covers (on Table.sch_a ("SA20A" ∷ []) "contribution_amount" ∷ []))
    ∷ rule Column.a "20(b)" "col_a_offset_to_fundraising_expenditures"
        (covers (on Table.sch_a ("SA20B" ∷ []) "contribution_amount" ∷ []))
    ∷ rule Column.a "20(c)" "col_a_offset_to_legal_expenditures"
        (covers (on Table.sch_a ("SA20C" ∷ []) "contribution_amount" ∷ []))
    ∷ rule Column.a "20(d)" "col_a_total_offsets_to_expenditures"
        (total ("20(a)" ∷ "20(b)" ∷ "20(c)" ∷ []))
    ∷ rule Column.a "21" "col_a_other_receipts"
        (covers (on Table.sch_a ("SA21" ∷ []) "contribution_amount" ∷ []))
    ∷ rule Column.a "22" "col_a_total_receipts_recap"
        (total ("16" ∷ "17(e)" ∷ "18" ∷ "19(c)" ∷ "20(d)" ∷ "21" ∷ []))
    ∷ rule Column.a "23" "col_a_operating_expenditures"
        (covers (on Table.sch_b ("SB23" ∷ []) "expenditure_amount" ∷ []))
    ∷ rule Column.a "24" "col_a_transfers_to_authorized"
        (equals (on Table.sch_b ("SB24" ∷ []) "expenditure_amount" ∷ []))
    ∷ rule Column.a "25" "col_a_fundraising_disbursements"
        (covers (on Table.sch_b ("SB25" ∷ []) "expenditure_amount" ∷ []))
    ∷ rule Column.a "26" "col_a_exempt_legal_disbursements"
        (covers (on Table.sch_b ("SB26" ∷ []) "expenditure_amount" ∷ []))
    ∷ rule Column.a "27(a)" "col_a_candidate_loan_repayments"
        (equals (on Table.sch_b ("SB27A" ∷ []) "expenditure_amount" ∷ []))
    ∷ rule Column.a "27(b)" "col_a_other_loan_repayments"
        (equals (on Table.sch_b ("SB27B" ∷ []) "expenditure_amount" ∷ []))
    ∷ rule Column.a "27(c)" "col_a_total_loan_repayments_made" (total ("27(a)" ∷ "27(b)" ∷ []))
    ∷ rule Column.a "28(a)" "col_a_refunds_to_individuals"
        (covers (on Table.sch_b ("SB28A" ∷ []) "expenditure_amount" ∷ []))
    ∷ rule Column.a "28(b)" "col_a_refunds_to_party_committees"
        (equals (on Table.sch_b ("SB28B" ∷ []) "expenditure_amount" ∷ []))
    ∷ rule Column.a "28(c)" "col_a_refunds_to_other_committees"
        (equals (on Table.sch_b ("SB28C" ∷ []) "expenditure_amount" ∷ []))
    ∷ rule Column.a "28(d)" "col_a_total_refunds" (total ("28(a)" ∷ "28(b)" ∷ "28(c)" ∷ []))
    ∷ rule Column.a "29" "col_a_other_disbursements"
        (covers (on Table.sch_b ("SB29" ∷ []) "expenditure_amount" ∷ []))
    ∷ rule Column.a "30" "col_a_total_disbursements_recap"
        (total ("23" ∷ "24" ∷ "25" ∷ "26" ∷ "27(c)" ∷ "28(d)" ∷ "29" ∷ []))
    ∷ rule Column.a "6" "col_a_cash_on_hand_beginning_period" unruled
    ∷ rule Column.a "7" "col_a_total_receipts" (total ("22" ∷ []))
    ∷ rule Column.a "8" "col_a_subtotal" (total ("6" ∷ "7" ∷ []))
    ∷ rule Column.a "9" "col_a_total_disbursements" (total ("30" ∷ []))
    ∷ rule Column.a "10" "col_a_cash_on_hand_close_of_period" (difference ("8" ∷ []) ("9" ∷ []))
    ∷ []

abbrev pub f3p_rules_b : List LineRule
f3p_rules_b =
    rule Column.b "16" "col_b_federal_funds" unruled
    ∷ rule Column.b "17(a)(i)" "col_b_individuals_itemized" unruled
    ∷ rule Column.b "17(a)(ii)" "col_b_individuals_unitemized" unruled
    ∷ rule Column.b "17(a)(iii)" "col_b_individual_contribution_total"
        (total ("17(a)(i)" ∷ "17(a)(ii)" ∷ []))
    ∷ rule Column.b "17(b)" "col_b_political_party_contributions" unruled
    ∷ rule Column.b "17(c)" "col_b_pac_contributions" unruled
    ∷ rule Column.b "17(d)" "col_b_candidate_contributions" unruled
    ∷ rule Column.b "17(e)" "col_b_total_contributions"
        (total ("17(a)(iii)" ∷ "17(b)" ∷ "17(c)" ∷ "17(d)" ∷ []))
    ∷ rule Column.b "18" "col_b_transfers_from_aff_other_party_cmttees" unruled
    ∷ rule Column.b "19(a)" "col_b_candidate_loans" unruled
    ∷ rule Column.b "19(b)" "col_b_other_loans" unruled
    ∷ rule Column.b "19(c)" "col_b_total_loans" (total ("19(a)" ∷ "19(b)" ∷ []))
    ∷ rule Column.b "20(a)" "col_b_offset_to_operating_expenditures" unruled
    ∷ rule Column.b "20(b)" "col_b_offset_to_fundraising_expenditures" unruled
    ∷ rule Column.b "20(c)" "col_b_offset_to_legal_expenditures" unruled
    ∷ rule Column.b "20(d)" "col_b_total_offsets_to_expenditures"
        (total ("20(a)" ∷ "20(b)" ∷ "20(c)" ∷ []))
    ∷ rule Column.b "21" "col_b_other_receipts" unruled
    ∷ rule Column.b "22" "col_b_total_receipts"
        (total ("16" ∷ "17(e)" ∷ "18" ∷ "19(c)" ∷ "20(d)" ∷ "21" ∷ []))
    ∷ rule Column.b "23" "col_b_operating_expenditures" unruled
    ∷ rule Column.b "24" "col_b_transfers_to_authorized" unruled
    ∷ rule Column.b "25" "col_b_fundraising_disbursements" unruled
    ∷ rule Column.b "26" "col_b_exempt_legal_disbursements" unruled
    ∷ rule Column.b "27(a)" "col_b_candidate_loan_repayments" unruled
    ∷ rule Column.b "27(b)" "col_b_other_loan_repayments" unruled
    ∷ rule Column.b "27(c)" "col_b_total_loan_repayments_made" (total ("27(a)" ∷ "27(b)" ∷ []))
    ∷ rule Column.b "28(a)" "col_b_refunds_to_individuals" unruled
    ∷ rule Column.b "28(b)" "col_b_refunds_to_party_committees" unruled
    ∷ rule Column.b "28(c)" "col_b_refunds_to_other_committees" unruled
    ∷ rule Column.b "28(d)" "col_b_total_refunds" (total ("28(a)" ∷ "28(b)" ∷ "28(c)" ∷ []))
    ∷ rule Column.b "29" "col_b_other_disbursements" unruled
    ∷ rule Column.b "30" "col_b_total_disbursements"
        (total ("23" ∷ "24" ∷ "25" ∷ "26" ∷ "27(c)" ∷ "28(d)" ∷ "29" ∷ []))
    ∷ []

abbrev pub f3p_rules : List LineRule
f3p_rules = f3p_rules_a ++ f3p_rules_b
