-- ===== src/Tests/Forms.antt =====
-- The dispatch of tokens, with each text compiled to its reading.
use hardmoney.Prelude.{false, true, some, none, ◌≡◌, ◌≢◌, refl}
use hardmoney.Text.{codes, to_ascii_uppercase}
use hardmoney.Table.{Table, hdr}
use hardmoney.Form.{anchored, table_for_form_type}
use hardmoney.Form.Engine.{by_reading, by_reading_laws}
use hardmoney.Form.Laws.{
  dispatch, table_for_form_type-dispatch, table_for_form_type-to_ascii_uppercase,
}
use mathlib.Core.Option
use hardmoney.Form.Syntax.{read, is_match_of}
use hardmoney.Form.Pattern.{fold, matches}
use hardmoney.Form.Reach.{token, table_for_form_type-token}

dispatch_example : table_for_form_type by_reading (codes " sa11ai") ≡ dispatch (codes " sa11ai")
dispatch_example = table_for_form_type-dispatch by_reading by_reading_laws (codes " sa11ai")

upper_example :
    table_for_form_type by_reading (to_ascii_uppercase (codes "f3xa"))
    ≡ table_for_form_type by_reading (codes "f3xa")
upper_example = table_for_form_type-to_ascii_uppercase by_reading by_reading_laws (codes "f3xa")

token_example :
    ((t : Table) → t ≢ hdr → table_for_form_type by_reading (token t) ≡ some t)
    × (table_for_form_type by_reading (token hdr) ≡ none)
    × (table_for_form_type by_reading (codes "") ≡ none)
token_example = table_for_form_type-token by_reading by_reading_laws

-- How short texts read: without `(?i)` and `^` the case counts and a match may begin anywhere;
-- `+` is not read.
syntax_tests :
    (Option.map (λ re. is_match_of re (codes "1SA")) (read (codes "(?:SA)")) ≡ some true)
    × (Option.map (λ re. is_match_of re (codes "sa1")) (read (codes "^(?:SA)")) ≡ some false)
    × (Option.map (λ re. is_match_of re (codes "sa1")) (read (anchored (codes "SA"))) ≡ some true)
    × (Option.map (λ re. is_match_of re (codes "1SA")) (read (anchored (codes "SA"))) ≡ some false)
    × (read (anchored (codes "SA+")) ≡ none)
unfolding read is_match_of matches fold anchored
syntax_tests = (refl, refl, refl, refl, refl)
