-- ===== src/Typed/Views.antt =====
-- The views of Schedules A, B and E and of the Form 3X cover. `from_typed` reads the fields, and
-- `from_line` first tests the table and puts the line into the error.

use hardmoney.Line.{ParsedLine}
use hardmoney.Prelude.{none, some, Option}
use hardmoney.Text.{codes, Str}
use hardmoney.Typed.{
  side_from_code, entity_from_code, TypedViewError, combined_name, money_of, date_in, SupportOppose,
  EntityType, string_of, with_line, req, typed,
}
use hardmoney.Calendar.{Calendar}
use hardmoney.Decimal.{Decimal}
use hardmoney.Prelude.Result.{ok, map_err, Result, ◌>>=◌}
use hardmoney.Table.{Table}
use mathlib.Core.Option

-- `ScheduleA`
pub record ScheduleA (D : Decimal) (cal : Calendar) : Type 0 where
  pub filer_committee_id : Str
  pub transaction_id : Option Str
  pub entity_type : Option EntityType
  pub contributor_name : Option Str
  pub contributor_city : Option Str
  pub contributor_state : Option Str
  pub contributor_zip_code : Option Str
  pub contributor_employer : Option Str
  pub contributor_occupation : Option Str
  pub contribution_date : Option cal.Date
  pub contribution_amount : Option D.Carrier
  pub contribution_aggregate : Option D.Carrier
  pub contribution_purpose_descrip : Option Str
  pub memo_code : Option Str
  pub memo_text : Option Str

-- `ScheduleB`
pub record ScheduleB (D : Decimal) (cal : Calendar) : Type 0 where
  pub filer_committee_id : Str
  pub transaction_id : Option Str
  pub entity_type : Option EntityType
  pub payee_name : Option Str
  pub payee_city : Option Str
  pub payee_state : Option Str
  pub payee_zip_code : Option Str
  pub expenditure_date : Option cal.Date
  pub expenditure_amount : Option D.Carrier
  pub expenditure_purpose_descrip : Option Str
  pub category_code : Option Str
  pub memo_code : Option Str
  pub memo_text : Option Str

-- `ScheduleE`
pub record ScheduleE (D : Decimal) (cal : Calendar) : Type 0 where
  pub filer_committee_id : Str
  pub transaction_id : Option Str
  pub payee_name : Option Str
  pub support_oppose : Option SupportOppose
  pub candidate_id_number : Option Str
  pub candidate_name : Option Str
  pub candidate_office : Option Str
  pub candidate_state : Option Str
  pub candidate_district : Option Str
  pub dissemination_date : Option cal.Date
  pub disbursement_date : Option cal.Date
  pub expenditure_amount : Option D.Carrier
  pub expenditure_purpose_descrip : Option Str
  pub memo_code : Option Str
  pub memo_text : Option Str

-- `Form3XSummary`
pub record Form3xSummary (D : Decimal) (cal : Calendar) : Type 0 where
  pub filer_committee_id : Str
  pub committee_name : Option Str
  pub report_code : Option Str
  pub coverage_from_date : Option cal.Date
  pub coverage_through_date : Option cal.Date
  pub date_signed : Option cal.Date
  pub cash_on_hand_beginning_period : Option D.Carrier
  pub cash_on_hand_close_of_period : Option D.Carrier
  pub total_receipts : Option D.Carrier
  pub total_disbursements : Option D.Carrier
  pub debts_owed_to_committee : Option D.Carrier
  pub debts_owed_by_committee : Option D.Carrier
  pub cycle_total_receipts : Option D.Carrier
  pub cycle_total_disbursements : Option D.Carrier

module _ (D : Decimal) (cal : Calendar) where
  unfoldable pub schedule_a_from_typed : ParsedLine → Result TypedViewError (ScheduleA D cal)
  unfolding req string_of date_in money_of combined_name entity_from_code side_from_code
  schedule_a_from_typed line = do
    filer_committee_id ← req Table.sch_a line (codes "filer_committee_id_number")
    ok (record {
      filer_committee_id = filer_committee_id;
      transaction_id = string_of line (codes "transaction_id");
      entity_type = Option.map entity_from_code (string_of line (codes "entity_type"));
      contributor_name = combined_name line (record {
        single = codes "contributor_name";
        organization = some (codes "contributor_organization_name");
        prefix = codes "contributor_prefix";
        first = codes "contributor_first_name";
        middle = codes "contributor_middle_name";
        last = codes "contributor_last_name";
        suffix = codes "contributor_suffix";
      });
      contributor_city = string_of line (codes "contributor_city");
      contributor_state = string_of line (codes "contributor_state");
      contributor_zip_code = string_of line (codes "contributor_zip_code");
      contributor_employer = string_of line (codes "contributor_employer");
      contributor_occupation = string_of line (codes "contributor_occupation");
      contribution_date = date_in cal line (codes "contribution_date");
      contribution_amount = money_of D line (codes "contribution_amount");
      contribution_aggregate = money_of D line (codes "contribution_aggregate");
      contribution_purpose_descrip = string_of line (codes "contribution_purpose_descrip");
      memo_code = string_of line (codes "memo_code");
      memo_text = string_of line (codes "memo_text");
    })

  unfoldable pub schedule_a_from_line : ParsedLine → Result TypedViewError (ScheduleA D cal)
  unfolding schedule_a_from_typed typed with_line
  schedule_a_from_line line = do
    checked ← typed Table.sch_a line
    map_err (λ e. with_line e line.line_no) (schedule_a_from_typed checked)

  unfoldable pub schedule_b_from_typed : ParsedLine → Result TypedViewError (ScheduleB D cal)
  unfolding req string_of date_in money_of combined_name entity_from_code side_from_code
  schedule_b_from_typed line = do
    filer_committee_id ← req Table.sch_b line (codes "filer_committee_id_number")
    ok (record {
      filer_committee_id = filer_committee_id;
      transaction_id = string_of line (codes "transaction_id");
      entity_type = Option.map entity_from_code (string_of line (codes "entity_type"));
      payee_name = combined_name line (record {
        single = codes "payee_name";
        organization = some (codes "payee_organization_name");
        prefix = codes "payee_prefix";
        first = codes "payee_first_name";
        middle = codes "payee_middle_name";
        last = codes "payee_last_name";
        suffix = codes "payee_suffix";
      });
      payee_city = string_of line (codes "payee_city");
      payee_state = string_of line (codes "payee_state");
      payee_zip_code = string_of line (codes "payee_zip_code");
      expenditure_date = date_in cal line (codes "expenditure_date");
      expenditure_amount = money_of D line (codes "expenditure_amount");
      expenditure_purpose_descrip = string_of line (codes "expenditure_purpose_descrip");
      category_code = string_of line (codes "category_code");
      memo_code = string_of line (codes "memo_code");
      memo_text = string_of line (codes "memo_text");
    })

  unfoldable pub schedule_b_from_line : ParsedLine → Result TypedViewError (ScheduleB D cal)
  unfolding schedule_b_from_typed typed with_line
  schedule_b_from_line line = do
    checked ← typed Table.sch_b line
    map_err (λ e. with_line e line.line_no) (schedule_b_from_typed checked)

  unfoldable pub schedule_e_from_typed : ParsedLine → Result TypedViewError (ScheduleE D cal)
  unfolding req string_of date_in money_of combined_name entity_from_code side_from_code
  schedule_e_from_typed line = do
    filer_committee_id ← req Table.sch_e line (codes "filer_committee_id_number")
    ok (record {
      filer_committee_id = filer_committee_id;
      transaction_id = string_of line (codes "transaction_id");
      payee_name = combined_name line (record {
        single = codes "payee_name";
        organization = some (codes "payee_organization_name");
        prefix = codes "payee_prefix";
        first = codes "payee_first_name";
        middle = codes "payee_middle_name";
        last = codes "payee_last_name";
        suffix = codes "payee_suffix";
      });
      support_oppose = Option.map side_from_code (string_of line (codes "support_oppose_code"));
      candidate_id_number = string_of line (codes "candidate_id_number");
      candidate_name = combined_name line (record {
        single = codes "candidate_name";
        organization = none;
        prefix = codes "candidate_prefix";
        first = codes "candidate_first_name";
        middle = codes "candidate_middle_name";
        last = codes "candidate_last_name";
        suffix = codes "candidate_suffix";
      });
      candidate_office = string_of line (codes "candidate_office");
      candidate_state = string_of line (codes "candidate_state");
      candidate_district = string_of line (codes "candidate_district");
      dissemination_date = date_in cal line (codes "dissemination_date");
      disbursement_date = date_in cal line (codes "disbursement_date");
      expenditure_amount = money_of D line (codes "expenditure_amount");
      expenditure_purpose_descrip = string_of line (codes "expenditure_purpose_descrip");
      memo_code = string_of line (codes "memo_code");
      memo_text = string_of line (codes "memo_text");
    })

  unfoldable pub schedule_e_from_line : ParsedLine → Result TypedViewError (ScheduleE D cal)
  unfolding schedule_e_from_typed typed with_line
  schedule_e_from_line line = do
    checked ← typed Table.sch_e line
    map_err (λ e. with_line e line.line_no) (schedule_e_from_typed checked)

  unfoldable pub form3x_summary_from_typed :
      ParsedLine → Result TypedViewError (Form3xSummary D cal)
  unfolding req string_of date_in money_of combined_name entity_from_code side_from_code
  form3x_summary_from_typed line = do
    filer_committee_id ← req Table.f3x line (codes "filer_committee_id_number")
    ok (record {
      filer_committee_id = filer_committee_id;
      committee_name = string_of line (codes "committee_name");
      report_code = string_of line (codes "report_code");
      coverage_from_date = date_in cal line (codes "coverage_from_date");
      coverage_through_date = date_in cal line (codes "coverage_through_date");
      date_signed = date_in cal line (codes "date_signed");
      cash_on_hand_beginning_period = money_of D line (codes "col_a_cash_on_hand_beginning_period");
      cash_on_hand_close_of_period = money_of D line (codes "col_a_cash_on_hand_close_of_period");
      total_receipts = money_of D line (codes "col_a_total_receipts");
      total_disbursements = money_of D line (codes "col_a_total_disbursements");
      debts_owed_to_committee = money_of D line (codes "col_a_debts_to");
      debts_owed_by_committee = money_of D line (codes "col_a_debts_by");
      cycle_total_receipts = money_of D line (codes "col_b_total_receipts");
      cycle_total_disbursements = money_of D line (codes "col_b_total_disbursements");
    })

  unfoldable pub form3x_summary_from_line : ParsedLine → Result TypedViewError (Form3xSummary D cal)
  unfolding form3x_summary_from_typed typed with_line
  form3x_summary_from_line line = do
    checked ← typed Table.f3x line
    map_err (λ e. with_line e line.line_no) (form3x_summary_from_typed checked)
