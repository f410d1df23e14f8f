-- ===== src/Form.antt =====
-- src/parser/form.rs: from the form-type token of a record to its table. The regular expressions
-- are compiled and matched by the regex crate, a parameter here.
pub mod Pattern
pub mod Syntax
pub mod Engine
pub mod Laws
pub mod Reach
use hardmoney.Prelude.{Bool, List, [], ◌∷◌, ◌++◌, Option, none, some, any_b, find_first}
use mathlib.Core.Option
use hardmoney.Text.{Str, codes, trim, to_ascii_uppercase, eq_str}
use hardmoney.Table.{
  Table, f1, f10, f105, f13, f132, f133, f1m, f1s, f2, f24, f2s, f3, f3l, f3p, f3p31, f3ps, f3pz1,
  f3pz2, f3s, f3x, f3z, f3z1, f3z2, f4, f5, f56, f57, f6, f65, f7, f76, f8, f82, f83, f9, f91, f92,
  f93, f94, f99, h1, h2, h3, h4, h5, h6, sch_a, sch_a3l, sch_b, sch_c, sch_c1, sch_c2, sch_d, sch_e,
  sch_f, sch_i, sch_l, text,
}

-- What the program calls of the regex crate.
pub record Regex : Type 1 where
  pub Compiled : Type 0
  pub new : Str → Option Compiled
  pub is_match : Compiled → Str → Bool

unfoldable pub allowed_top_level_forms : List Str
allowed_top_level_forms =
    codes "F3"
    ∷ codes "F3X"
    ∷ codes "F3P"
    ∷ codes "F9"
    ∷ codes "F5"
    ∷ codes "F24"
    ∷ codes "F6"
    ∷ codes "F7"
    ∷ codes "F4"
    ∷ codes "F3L"
    ∷ codes "F13"
    ∷ codes "F99"
    ∷ codes "F1"
    ∷ codes "F1M"
    ∷ codes "F2"
    ∷ codes "F8"
    ∷ codes "F10"
    ∷ []

unfoldable pub is_allowed_top_level_form : Str → Bool
unfolding allowed_top_level_forms to_ascii_uppercase trim eq_str
is_allowed_top_level_form base_form =
    any_b (λ form. eq_str form (to_ascii_uppercase (trim base_form))) allowed_top_level_forms

unfoldable pub dispatch_order : List (Str × Table)
dispatch_order =
    (codes "SA3L", sch_a3l)
    ∷ (codes "SA", sch_a)
    ∷ (codes "SB", sch_b)
    ∷ (codes "SC1", sch_c1)
    ∷ (codes "SC2", sch_c2)
    ∷ (codes "SC", sch_c)
    ∷ (codes "SD", sch_d)
    ∷ (codes "SE", sch_e)
    ∷ (codes "SF", sch_f)
    ∷ (codes "SI", sch_i)
    ∷ (codes "F3X[ANT]", f3x)
    ∷ (codes "F3P31", f3p31)
    ∷ (codes "F3PZ1", f3pz1)
    ∷ (codes "F3PZ2", f3pz2)
    ∷ (codes "F3P[ANT]", f3p)
    ∷ (codes "F3S", f3s)
    ∷ (codes "F3Z1", f3z1)
    ∷ (codes "F3Z2", f3z2)
    ∷ (codes "F3ZT?$", f3z)
    ∷ (codes "F3[ANT]$", f3)
    ∷ (codes "F91", f91)
    ∷ (codes "F92", f92)
    ∷ (codes "F93", f93)
    ∷ (codes "F94", f94)
    ∷ (codes "F99", f99)
    ∷ (codes "F9", f9)
    ∷ (codes "F6[AN]*$", f6)
    ∷ (codes "F65", f65)
    ∷ (codes "F57", f57)
    ∷ (codes "F56", f56)
    ∷ (codes "F5", f5)
    ∷ (codes "TEXT", text)
    ∷ (codes "F24", f24)
    ∷ (codes "H1", h1)
    ∷ (codes "H2", h2)
    ∷ (codes "H3", h3)
    ∷ (codes "H4", h4)
    ∷ (codes "H5", h5)
    ∷ (codes "H6", h6)
    ∷ (codes "SL", sch_l)
    ∷ (codes "F3PS", f3ps)
    ∷ (codes "F76$", f76)
    ∷ (codes "F7[AN]$", f7)
    ∷ (codes "F4[ANT]", f4)
    ∷ (codes "F3L[AN]", f3l)
    ∷ (codes "F13[AN]$", f13)
    ∷ (codes "F132", f132)
    ∷ (codes "F133", f133)
    ∷ (codes "F1S", f1s)
    ∷ (codes "F1M[AN]?$", f1m)
    ∷ (codes "F1[AN]$", f1)
    ∷ (codes "F2S$", f2s)
    ∷ (codes "F2[AN]?$", f2)
    ∷ (codes "F8II$|F82$", f82)
    ∷ (codes "F8III$|F83$", f83)
    ∷ (codes "F8[AN]?$", f8)
    ∷ (codes "F105$", f105)
    ∷ (codes "F10[AN]?$", f10)
    ∷ []

-- Case-insensitive, and anchored at the start.
unfoldable pub anchored : Str → Str
anchored pattern = codes "(?i)^(?:" ++ (pattern ++ codes ")")

module _ (R : Regex) where
  abbrev pub CompiledDispatch : Type 0
  CompiledDispatch = R.Compiled × Table

  abbrev keep_compiled : Option R.Compiled → Table → List CompiledDispatch → List CompiledDispatch
  keep_compiled none table rest = rest
  keep_compiled (some regex) table rest = (regex, table) ∷ rest

  -- A pattern that fails to compile is skipped.
  unfoldable pub compile : List (Str × Table) → List CompiledDispatch
  unfolding anchored
  compile [] = []
  compile ((pattern, table) ∷ rest) = keep_compiled (R.new (anchored pattern)) table (compile rest)

  unfoldable pub table_for_form_type : Str → Option Table
  unfolding compile dispatch_order
  table_for_form_type form_type =
      Option.map (λ d. d.1)
        (find_first (λ d. R.is_match d.0 (trim form_type)) (compile dispatch_order))
