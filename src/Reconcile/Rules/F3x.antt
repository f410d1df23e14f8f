-- ===== src/Reconcile/Rules/F3x.antt =====
-- The rule table of Form 3X: a PAC or party committee (`F3X_RULES`).
use hardmoney.Prelude.{List, [], ◌∷◌, ◌++◌}
use hardmoney.Table.{Table}
use hardmoney.Reconcile.{Column, LineRule}
use hardmoney.Reconcile.Rules.Notation.{rule, unruled, total, difference, equals, covers, on}

abbrev pub f3x_rules_a : List LineRule
f3x_rules_a =
    rule Column.a "9" "col_a_debts_to" (
      equals (
        on Table.sch_c ("SC/9" ∷ []) "loan_balance"
        ∷ on Table.sch_d ("SD9" ∷ []) "balance_at_close_this_period"
        ∷ []))
    ∷ rule Column.a "10" "col_a_debts_by" (
        equals (
          on Table.sch_c ("SC/10" ∷ []) "loan_balance"
          ∷ on Table.sch_d ("SD10" ∷ []) "balance_at_close_this_period"
          ∷ []))
    ∷ rule Column.a "11(a)(i)" "col_a_individuals_itemized"
        (equals (on Table.sch_a ("SA11AI" ∷ "SA11A1" ∷ []) "contribution_amount" ∷ []))
    ∷ rule Column.a "11(a)(ii)" "col_a_individuals_unitemized" unruled
    ∷ rule Column.a "11(a)(iii)" "col_a_individual_contribution_total"
        (total ("11(a)(i)" ∷ "11(a)(ii)" ∷ []))
    ∷ rule Column.a "11(b)" "col_a_political_party_contributions"
        (equals (on Table.sch_a ("SA11B" ∷ []) "contribution_amount" ∷ []))
    ∷ rule Column.a "11(c)" "col_a_pac_contributions"
        (equals (on Table.sch_a ("SA11C" ∷ []) "contribution_amount" ∷ []))
    ∷ rule Column.a "11(d)" "col_a_total_contributions"
        (total ("11(a)(iii)" ∷ "11(b)" ∷ "11(c)" ∷ []))
    ∷ rule Column.a "12" "col_a_transfers_from_aff_other_party_cmttees"
        (equals (on Table.sch_a ("SA12" ∷ []) "contribution_amount" ∷ []))
    ∷ rule Column.a "13" "col_a_total_loans"
        (equals (on Table.sch_a ("SA13" ∷ []) "contribution_amount" ∷ []))
    ∷ rule Column.a "14" "col_a_total_loan_repayments_received"
        (equals (on Table.sch_a ("SA14" ∷ []) "contribution_amount" ∷ []))
    ∷ rule Column.a "15" "col_a_offsets_to_expenditures"
        (covers (on Table.sch_a ("SA15" ∷ []) "contribution_amount" ∷ []))
    ∷ rule Column.a "16" "col_a_refunds_of_federal_contributions"
        (equals (on Table.sch_a ("SA16" ∷ []) "contribution_amount" ∷ []))
    ∷ rule Column.a "17" "col_a_other_federal_receipts"
        (covers (on Table.sch_a ("SA17" ∷ []) "contribution_amount" ∷ []))
    ∷ rule Column.a "18(a)" "col_a_transfers_from_nonfederal_h3"
        (equals (on Table.h3 ("H3" ∷ []) "transferred_amount" ∷ []))
    ∷ rule Column.a "18(b)" "col_a_levin_funds"
        (equals (on Table.h5 ("H5" ∷ []) "total_amount_transferred" ∷ []))
    ∷ rule Column.a "18(c)" "col_a_total_nonfederal_transfers" (total ("18(a)" ∷ "18(b)" ∷ []))
    ∷ rule Column.a "19" "col_a_total_receipts_recap"
        (total ("11(d)" ∷ "12" ∷ "13" ∷ "14" ∷ "15" ∷ "16" ∷ "17" ∷ "18(c)" ∷ []))
    ∷ rule Column.a "20" "col_a_total_federal_receipts" (difference ("19" ∷ []) ("18(c)" ∷ []))
    ∷ rule Column.a "21(a)(i)" "col_a_shared_operating_expenditures_federal"
        (equals (on Table.h4 ("H4" ∷ []) "federal_share" ∷ []))
    ∷ rule Column.a "21(a)(ii)" "col_a_shared_operating_expenditures_nonfederal"
        (equals (on Table.h4 ("H4" ∷ []) "nonfederal_share" ∷ []))
    ∷ rule Column.a "21(b)" "col_a_other_federal_operating_expenditures"
        (covers (on Table.sch_b ("SB21B" ∷ []) "expenditure_amount" ∷ []))
    ∷ rule Column.a "21(c)" "col_a_total_operating_expenditures"
        (total ("21(a)(i)" ∷ "21(a)(ii)" ∷ "21(b)" ∷ []))
    ∷ rule Column.a "22" "col_a_transfers_to_affiliated"
        (equals (on Table.sch_b ("SB22" ∷ []) "expenditure_amount" ∷ []))
    ∷ rule Column.a "23" "col_a_contributions_to_candidates"
        (equals (on Table.sch_b ("SB23" ∷ []) "expenditure_amount" ∷ []))
    ∷ rule Column.a "24" "col_a_independent_expenditures"
        (covers (on Table.sch_e ("SE" ∷ []) "expenditure_amount" ∷ []))
    ∷ rule Column.a "25" "col_a_coordinated_expenditures_by_party_committees"
        (equals (on Table.sch_f ("SF" ∷ []) "expenditure_amount" ∷ []))
    ∷ rule Column.a "26" "col_a_total_loan_repayments_made"
        (equals (on Table.sch_b ("SB26" ∷ []) "expenditure_amount" ∷ []))
    ∷ rule Column.a "27" "col_a_loans_made"
        (equals (on Table.sch_b ("SB27" ∷ []) "expenditure_amount" ∷ []))
    ∷ rule Column.a "28(a)" "col_a_refunds_to_individuals"
        (covers (on Table.sch_b ("SB28A" ∷ []) "expenditure_amount" ∷ []))
    ∷ rule Column.a "28(b)" "col_a_refunds_to_party_committees"
        (equals (on Table.sch_b ("SB28B" ∷ []) "expenditure_amount" ∷ []))
    ∷ rule Column.a "28(c)" "col_a_refunds_to_other_committees"
        (equals (on Table.sch_b ("SB28C" ∷ []) "expenditure_amount" ∷ []))
    ∷ rule Column.a "28(d)" "col_a_total_refunds" (total ("28(a)" ∷ "28(b)" ∷ "28(c)" ∷ []))
    ∷ rule Column.a "29" "col_a_other_disbursements"
        (covers (on Table.sch_b ("SB29" ∷ []) "expenditure_amount" ∷ []))
    ∷ rule Column.a "30(a)(i)" "col_a_federal_election_activity_federal_share"
        (equals (on Table.h6 ("H6" ∷ []) "federal_share" ∷ []))
    ∷ rule Column.a "30(a)(ii)" "col_a_federal_election_activity_levin_share"
        (equals (on Table.h6 ("H6" ∷ []) "levin_share" ∷ []))
    ∷ rule Column.a "30(b)" "col_a_federal_election_activity_all_federal"
        (covers (on Table.sch_b ("SB30B" ∷ []) "expenditure_amount" ∷ []))
    ∷ rule Column.a "30(c)" "col_a_federal_election_activity_total"
        (total ("30(a)(i)" ∷ "30(a)(ii)" ∷ "30(b)" ∷ []))
    ∷ rule Column.a "31" "col_a_total_disbursements_recap"
        (total ("21(c)" ∷ "22" ∷ "23" ∷ "24" ∷ "25" ∷ "26" ∷ "27" ∷ "28(d)" ∷ "29" ∷ "30(c)" ∷ []))
    ∷ rule Column.a "32" "col_a_total_federal_disbursements"
        (difference ("31" ∷ []) ("21(a)(ii)" ∷ "30(a)(ii)" ∷ []))
    ∷ rule Column.a "33" "col_a_total_contributions_recap" (total ("11(d)" ∷ []))
    ∷ rule Column.a "34" "col_a_total_contributions_refunds" (total ("28(d)" ∷ []))
    ∷ rule Column.a "35" "col_a_net_contributions" (difference ("33" ∷ []) ("34" ∷ []))
    ∷ rule Column.a "36" "col_a_total_federal_operating_expenditures"
        (total ("21(a)(i)" ∷ "21(b)" ∷ []))
    ∷ rule Column.a "37" "col_a_total_offsets_to_expenditures" (total ("15" ∷ []))
    ∷ rule Column.a "38" "col_a_net_operating_expenditures" (difference ("36" ∷ []) ("37" ∷ []))
    ∷ rule Column.a "6(b)" "col_a_cash_on_hand_beginning_period" unruled
    ∷ rule Column.a "6(c)" "col_a_total_receipts" (total ("19" ∷ []))
    ∷ rule Column.a "6(d)" "col_a_subtotal" (total ("6(b)" ∷ "6(c)" ∷ []))
    ∷ rule Column.a "7" "col_a_total_disbursements" (total ("31" ∷ []))
    ∷ rule Column.a "8" "col_a_cash_on_hand_close_of_period" (difference ("6(d)" ∷ []) ("7" ∷ []))
    ∷ []

abbrev pub f3x_rules_b : List LineRule
f3x_rules_b =
    rule Column.b "11(a)(i)" "col_b_individuals_itemized" unruled
    ∷ rule Column.b "11(a)(ii)" "col_b_individuals_unitemized" unruled
    ∷ rule Column.b "11(a)(iii)" "col_b_individual_contribution_total"
        (total ("11(a)(i)" ∷ "11(a)(ii)" ∷ []))
    ∷ rule Column.b "11(b)" "col_b_political_party_contributions" unruled
    ∷ rule Column.b "11(c)" "col_b_pac_contributions" unruled
    ∷ rule Column.b "11(d)" "col_b_total_contributions"
        (total ("11(a)(iii)" ∷ "11(b)" ∷ "11(c)" ∷ []))
    ∷ rule Column.b "12" "col_b_transfers_from_aff_other_party_cmttees" unruled
    ∷ rule Column.b "13" "col_b_total_loans" unruled
    ∷ rule Column.b "14" "col_b_total_loan_repayments_received" unruled
    ∷ rule Column.b "15" "col_b_offsets_to_expenditures" unruled
    ∷ rule Column.b "16" "col_b_refunds_of_federal_contributions" unruled
    ∷ rule Column.b "17" "col_b_other_federal_receipts" unruled
    ∷ rule Column.b "18(a)" "col_b_transfers_from_nonfederal_h3" unruled
    ∷ rule Column.b "18(b)" "col_b_levin_funds" unruled
    ∷ rule Column.b "18(c)" "col_b_total_nonfederal_transfers" (total ("18(a)" ∷ "18(b)" ∷ []))
    ∷ rule Column.b "19" "col_b_total_receipts_recap"
        (total ("11(d)" ∷ "12" ∷ "13" ∷ "14" ∷ "15" ∷ "16" ∷ "17" ∷ "18(c)" ∷ []))
    ∷ rule Column.b "20" "col_b_total_federal_receipts" (difference ("19" ∷ []) ("18(c)" ∷ []))
    ∷ rule Column.b "21(a)(i)" "col_b_shared_operating_expenditures_federal" unruled
    ∷ rule Column.b "21(a)(ii)" "col_b_shared_operating_expenditures_nonfederal" unruled
    ∷ rule Column.b "21(b)" "col_b_other_federal_operating_expenditures" unruled
    ∷ rule Column.b "21(c)" "col_b_total_operating_expenditures"
        (total ("21(a)(i)" ∷ "21(a)(ii)" ∷ "21(b)" ∷ []))
    ∷ rule Column.b "22" "col_b_transfers_to_affiliated" unruled
    ∷ rule Column.b "23" "col_b_contributions_to_candidates" unruled
    ∷ rule Column.b "24" "col_b_independent_expenditures" unruled
    ∷ rule Column.b "25" "col_b_coordinated_expenditures_by_party_committees" unruled
    ∷ rule Column.b "26" "col_b_total_loan_repayments_made" unruled
    ∷ rule Column.b "27" "col_b_loans_made" unruled
    ∷ rule Column.b "28(a)" "col_b_refunds_to_individuals" unruled
    ∷ rule Column.b "28(b)" "col_b_refunds_to_party_committees" unruled
    ∷ rule Column.b "28(c)" "col_b_refunds_to_other_committees" unruled
    ∷ rule Column.b "28(d)" "col_b_total_refunds" (total ("28(a)" ∷ "28(b)" ∷ "28(c)" ∷ []))
    ∷ rule Column.b "29" "col_b_other_disbursements" unruled
    ∷ rule Column.b "30(a)(i)" "col_b_federal_election_activity_federal_share" unruled
    ∷ rule Column.b "30(a)(ii)" "col_b_federal_election_activity_levin_share" unruled
    ∷ rule Column.b "30(b)" "col_b_federal_election_activity_all_federal" unruled
    ∷ rule Column.b "30(c)" "col_b_federal_election_activity_total"
        (total ("30(a)(i)" ∷ "30(a)(ii)" ∷ "30(b)" ∷ []))
    ∷ rule Column.b "31" "col_b_total_disbursements_recap"
        (total ("21(c)" ∷ "22" ∷ "23" ∷ "24" ∷ "25" ∷ "26" ∷ "27" ∷ "28(d)" ∷ "29" ∷ "30(c)" ∷ []))
    ∷ rule Column.b "32" "col_b_total_federal_disbursements"
        (difference ("31" ∷ []) ("21(a)(ii)" ∷ "30(a)(ii)" ∷ []))
    ∷ rule Column.b "33" "col_b_total_contributions_recap" (total ("11(d)" ∷ []))
    ∷ rule Column.b "34" "col_b_total_contributions_refunds" (total ("28(d)" ∷ []))
    ∷ rule Column.b "35" "col_b_net_contributions" (difference ("33" ∷ []) ("34" ∷ []))
    ∷ rule Column.b "36" "col_b_total_federal_operating_expenditures"
        (total ("21(a)(i)" ∷ "21(b)" ∷ []))
    ∷ rule Column.b "37" "col_b_total_offsets_to_expenditures" (total ("15" ∷ []))
    ∷ rule Column.b "38" "col_b_net_operating_expenditures" (difference ("36" ∷ []) ("37" ∷ []))
    ∷ rule Column.b "6(a)" "col_b_cash_on_hand_jan_1" unruled
    ∷ rule Column.b "6(c)" "col_b_total_receipts" (total ("19" ∷ []))
    ∷ rule Column.b "6(d)" "col_b_subtotal" (total ("6(a)" ∷ "6(c)" ∷ []))
    ∷ rule Column.b "7" "col_b_total_disbursements" (total ("31" ∷ []))
    ∷ rule Column.b "8" "col_b_cash_on_hand_close_of_period" (difference ("6(d)" ∷ []) ("7" ∷ []))
    ∷ []

abbrev pub f3x_rules : List LineRule
f3x_rules = f3x_rules_a ++ f3x_rules_b
