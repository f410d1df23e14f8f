-- ===== src/Reconcile.antt =====
-- src/parser/reconcile.rs: the lines of a cover page, the rule that each must follow, and the
-- check of a filing against them.
pub mod Rules
pub mod Check
pub mod Cents
pub mod Exact
pub mod Verdict
pub mod Determined
pub mod Balance
pub mod Cash
pub mod Chain
use hardmoney.Prelude.{
  ℕ, zero, suc, Bool, true, false, List, [], ◌∷◌, ◌++◌, map, ◌≡◌, refl, if◌then◌else◌,
}
use Prim.Native.String.{String}
use hardmoney.Text.{Str, codes}
use hardmoney.Table.{Table, as_str}

-- This period, and the year or the cycle to date.
pub data Column : Type 0 where
  a b : Column

unfoldable pub eq_column : Column → Column → Bool
eq_column a a = true
eq_column b b = true
eq_column _ _ = false

-- One contribution of the schedules to a cover line: `field` over the lines of `table` that carry
-- one of the tokens.
pub record ScheduleSum : Type 0 where
  pub table : Table
  pub tokens : List Str
  pub field : Str

pub record Term : Type 0 where
  pub line : Str
  pub negative : Bool

pub data Relation : Type 0 where
  equal at_least : Relation

pub data Source : Type 0 where
  schedules : Relation → List ScheduleSum → Source
  formula : List Term → Source
  input : Source

pub record LineRule : Type 0 where
  pub line : Str
  pub field : Str
  pub column : Column
  pub source : Source

-- `[..].join(sep)`
abbrev join_str : Str → List Str → Str
join_str sep [] = []
join_str sep (s ∷ []) = s
join_str sep (s ∷ t ∷ ts) = s ++ sep ++ join_str sep (t ∷ ts)

abbrev sign_text : Bool → ℕ → Str
sign_text true i = codes " - "
sign_text false zero = codes " "
sign_text false (suc i) = codes " + "

-- The loop over the terms, from the term at place `i` on.
abbrev terms_text : ℕ → List Term → Str
terms_text i [] = []
terms_text i (t ∷ ts) = sign_text t.negative i ++ t.line ++ terms_text (suc i) ts

abbrev relation_text : Relation → Str
relation_text equal = codes "="
relation_text at_least = codes ">="

abbrev sum_text : ScheduleSum → Str
sum_text s = as_str s.table ++ codes "." ++ s.field ++ codes " on " ++ join_str (codes "/") s.tokens

abbrev source_text : Source → Str
source_text (formula terms) = codes "=" ++ terms_text 0 terms
source_text input = codes "(input)"
source_text (schedules relation sums) =
    relation_text relation ++ codes " sum of " ++ join_str (codes " + ") (map sum_text sums)

-- The rule as the FEC writes it.
unfoldable pub formula_text : LineRule → Str
unfolding as_str
formula_text r = source_text r.source
