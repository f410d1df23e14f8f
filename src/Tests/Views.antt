-- ===== src/Tests/Views.antt =====
-- A Schedule A record with the name of a person.
use hardmoney.Version.{electronic}
use hardmoney.Layout.{Layout}
use hardmoney.Line.{ParsedLine}
use hardmoney.Text.{trim, to_ascii_uppercase, is_empty, Str, join, codes}
use hardmoney.Prelude.{◌⊎◌, and_then, All, [], false, ◌∷◌, refl, ◌≡◌, none, some}
use hardmoney.Table.{Table}
use hardmoney.Tests.Chains.{calendar}
use hardmoney.Decimal.Model.{cents}
use hardmoney.Typed.{
  entity_from_code, entity_code, entity_is_known, EntityType, NameFields, combined_name, string_of,
}
use hardmoney.Typed.Laws.{entity_code-entity_from_code, combined_name-filled, name_parts}
use hardmoney.Typed.Outcome.{Outcome, from_line-Outcome}
use hardmoney.Typed.Views.{
  ScheduleA, ScheduleB, ScheduleE, Form3xSummary, schedule_a_from_line, schedule_b_from_line,
  schedule_e_from_line, form3x_summary_from_line,
}

abbrev name_layout : Layout
name_layout = record {
  table = Table.sch_a;
  versions = electronic 8 5 ∷ [];
  fields =
      record { name = codes "contributor_first_name"; column = 2 }
      ∷ record { name = codes "contributor_last_name"; column = 1 }
      ∷ record { name = codes "filer_committee_id_number"; column = 0 }
      ∷ [];
  width = 3;
  by_name = 0 ∷ 1 ∷ 2 ∷ [];
}

abbrev person : ParsedLine
person = record {
  raw_form_type = codes "SA11AI";
  line_no = 3;
  layout = name_layout;
  values = codes "Ada" ∷ codes "Byron" ∷ codes "C00123456" ∷ [];
}

abbrev contributor : NameFields
contributor = record {
  single = codes "contributor_name";
  organization = some (codes "contributor_organization_name");
  prefix = codes "contributor_prefix";
  first = codes "contributor_first_name";
  middle = codes "contributor_middle_name";
  last = codes "contributor_last_name";
  suffix = codes "contributor_suffix";
}

named : combined_name person contributor ≡ some (codes "Ada Byron")
unfolding combined_name string_of join
named = refl

combined_name-filled_example :
    ((n : Str) × (combined_name person contributor ≡ some n) × (is_empty n ≡ false))
    ⊎ ((combined_name person contributor ≡ none)
        × All (λ g. string_of person g ≡ none) (name_parts contributor)
        × (and_then contributor.organization (string_of person) ≡ none))
combined_name-filled_example = combined_name-filled person contributor

entity_example :
    (entity_code (entity_from_code (codes " ind ")) ≡ to_ascii_uppercase (trim (codes " ind ")))
    × (entity_from_code (entity_code EntityType.pac) ≡ EntityType.pac)
unfolding entity_is_known
entity_example = entity_code-entity_from_code (codes " ind ") EntityType.pac refl

from_line-Outcome_example :
    Outcome
      (λ (v : ScheduleA cents calendar). v.filer_committee_id)
      Table.sch_a
      (schedule_a_from_line cents calendar)
      person
    × Outcome
        (λ (v : ScheduleB cents calendar). v.filer_committee_id)
        Table.sch_b
        (schedule_b_from_line cents calendar)
        person
    × Outcome
        (λ (v : ScheduleE cents calendar). v.filer_committee_id)
        Table.sch_e
        (schedule_e_from_line cents calendar)
        person
    × Outcome
        (λ (v : Form3xSummary cents calendar). v.filer_committee_id)
        Table.f3x
        (form3x_summary_from_line cents calendar)
        person
from_line-Outcome_example = from_line-Outcome cents calendar person
