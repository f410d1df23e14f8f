-- ===== src/Reconcile/Rules.antt =====
-- The rule tables of the forms, and what a table must be for its formulas to determine the page.
pub mod Notation
pub mod F3x
pub mod F3
pub mod F3p
use hardmoney.Prelude.{List, Option, none, some}
use hardmoney.Table.{Table}
use hardmoney.Reconcile.{LineRule}
use hardmoney.Reconcile.Rules.F3x.{f3x_rules}
use hardmoney.Reconcile.Rules.F3.{f3_rules}
use hardmoney.Reconcile.Rules.F3p.{f3p_rules}

unfoldable pub rules_for : Table → Option (List LineRule)
rules_for Table.f3x = some f3x_rules
rules_for Table.f3 = some f3_rules
rules_for Table.f3p = some f3p_rules
rules_for _ = none
