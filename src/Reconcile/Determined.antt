-- ===== src/Reconcile/Determined.antt =====
-- src/parser/reconcile.rs: the formulas of a rule table, each in terms of the lines above it.
use mathlib.Core.Path.{subst, ap₂}
use hardmoney.Prelude.{
  and_split, Bool, true, ◌&&◌, List, [], ◌∷◌, ◌++◌, Option, none, some, ◌≡◌, refl, sym, ap, ◌∙◌,
  arith, All, all_b, find_first, is_some, if◌then◌else◌, Bool-cases, Option-cases, inl, inr,
}
use hardmoney.Prelude.Int.{pos, ◌+ℤ◌, ◌-ℤ◌}
use hardmoney.Table.{Table}
use hardmoney.Line.{ParsedLine}
use hardmoney.Reconcile.{Column, Term, Source, schedules, formula, input, LineRule}
use hardmoney.Reconcile.Check.{rule_at}
use hardmoney.Reconcile.Rules.{rules_for}
use hardmoney.Reconcile.Rules.F3x.{f3x_rules}
use hardmoney.Reconcile.Rules.F3.{f3_rules}
use hardmoney.Reconcile.Rules.F3p.{f3p_rules}
use hardmoney.Reconcile.Cents.{rule_cents, field_cents, formula_cents, term_cents}

-- Every term of the source names a rule of the list, in the column.
abbrev pub known : List LineRule → Column → Source → Bool
known rules column (formula terms) = all_b (λ t. is_some (rule_at rules column (t.line))) terms
known rules column _ = true

-- Each rule of `rest` draws on `above` and on the rules before it.
abbrev pub in_order : List LineRule → List LineRule → Bool
in_order above [] = true
in_order above (r ∷ rest) = known above r.column r.source && in_order (above ++ (r ∷ [])) rest

f3x_in_order : in_order [] f3x_rules ≡ true
unfolding rule_at
f3x_in_order = refl

f3_in_order : in_order [] f3_rules ≡ true
unfolding rule_at
f3_in_order = refl

f3p_in_order : in_order [] f3p_rules ≡ true
unfolding rule_at
f3p_in_order = refl

abbrev option_in_order : Option (List LineRule) → Bool
option_in_order none = true
option_in_order (some rules) = in_order [] rules

tables_in_order : (form : Table) → option_in_order (rules_for form) ≡ true
unfolding rules_for
tables_in_order Table.f3x = f3x_in_order
tables_in_order Table.f3 = f3_in_order
tables_in_order Table.f3p = f3p_in_order
tables_in_order _ = refl

-- In the table of every form each term of a formula names a line above it, in the same column.
pub rules_for-in_order :
    (form : Table) (rules : List LineRule) → rules_for form ≡ some rules → in_order [] rules ≡ true
rules_for-in_order form rules h = ap option_in_order (sym h) ∙ tables_in_order form

append_snoc :
    (xs : List LineRule) (x : LineRule) (ys : List LineRule)
    → xs ++ (x ∷ ys) ≡ (xs ++ (x ∷ [])) ++ ys
append_snoc [] x ys = refl
append_snoc (y ∷ xs) x ys = ap (λ (zs : List LineRule). y ∷ zs) (append_snoc xs x ys)

module _ {ℓ} {A : Type ℓ} where
  some_injective : (a b : A) → some a ≡ some b → a ≡ b
  some_injective a b h = cc

  find_first-append :
      (p : A → Bool) (xs ys : List A) (a : A)
      → find_first p xs ≡ some a
      → find_first p (xs ++ ys) ≡ some a
  find_first-append p [] ys a h = cc
  find_first-append p (x ∷ xs) ys a h = ground (arith, find_first-append p xs ys a)

  find_first-All :
      (P : A → Type 0) (p : A → Bool) (xs : List A) (a : A)
      → All P xs
      → find_first p xs ≡ some a
      → P a
  find_first-All P p [] a h e = cc
  find_first-All P p (x ∷ xs) a h e = elim (Bool-cases (p x)) [
    | inl q ↦ subst P (some_injective x a (rw q at e)) h.0
    | inr q ↦ find_first-All P p xs a h.1 (rw q at e)
  ]

  All-snoc : (P : A → Type 0) (xs : List A) (a : A) → All P xs → P a → All P (xs ++ (a ∷ []))
  All-snoc P [] a h k = (k, tt)
  All-snoc P (x ∷ xs) a h k = (h.0, All-snoc P xs a h.1 k)

-- The page of a cover obeys a rule: a formula's line holds what its terms add up to.
abbrev pub ObeysSource : ParsedLine → List LineRule → LineRule → Source → Type 0
ObeysSource cover rules r (formula terms) =
    field_cents cover r.field ≡ formula_cents cover rules r.column terms
ObeysSource cover rules r _ = Unit

abbrev pub Obeys : ParsedLine → List LineRule → LineRule → Type 0
Obeys cover rules r = ObeysSource cover rules r r.source

abbrev pub Agree : ParsedLine → ParsedLine → LineRule → Type 0
Agree c d r = field_cents c r.field ≡ field_cents d r.field

-- Two covers agree on a line that is no formula.
abbrev pub AgreeSource : ParsedLine → ParsedLine → LineRule → Source → Type 0
AgreeSource c d r (formula terms) = Unit
AgreeSource c d r _ = Agree c d r

abbrev pub AgreeUnlessFormula : ParsedLine → ParsedLine → LineRule → Type 0
AgreeUnlessFormula c d r = AgreeSource c d r r.source

module _ (c d : ParsedLine) where
  term_cents-Agree :
      (above rest : List LineRule) (column : Column) (t : Term)
      → All (Agree c d) above
      → is_some (rule_at above column t.line) ≡ true
      → term_cents c (above ++ rest) column t ≡ term_cents d (above ++ rest) column t
  unfolding rule_at
  term_cents-Agree above rest column t h k = elim (Option-cases (rule_at above column t.line)) [
    | inl q ↦ absurd (cc (q, k))
    | inr (r, q) ↦
        let found = find_first-append _ above rest r q in
        ap (λ v. if t.negative then pos 0 -ℤ v else v)
          (ap (rule_cents c) found
            ∙ find_first-All (Agree c d) _ above r h q
            ∙ ap (rule_cents d) (sym found))
  ]

  formula_cents-Agree :
      (above rest : List LineRule) (column : Column) (terms : List Term)
      → All (Agree c d) above
      → all_b (λ t. is_some (rule_at above column (t.line))) terms ≡ true
      → formula_cents c (above ++ rest) column terms ≡ formula_cents d (above ++ rest) column terms
  formula_cents-Agree above rest column [] h k = refl
  formula_cents-Agree above rest column (t ∷ terms) h k =
      let (here, later) =
        and_split (is_some (rule_at above column t.line))
          (all_b (λ u. is_some (rule_at above column (u.line))) terms) k in
      ap₂ ◌+ℤ◌ (term_cents-Agree above rest column t h here)
        (formula_cents-Agree above rest column terms h later)

  rule-Agree :
      (above rest : List LineRule) (r : LineRule) (source : Source)
      → All (Agree c d) above
      → known above r.column source ≡ true
      → ObeysSource c (above ++ rest) r source
      → ObeysSource d (above ++ rest) r source
      → AgreeSource c d r source
      → Agree c d r
  rule-Agree above rest r (formula terms) h k oc od a =
      oc ∙ formula_cents-Agree above rest r.column terms h k ∙ sym od
  rule-Agree above rest r (schedules relation sums) h k oc od a = a
  rule-Agree above rest r input h k oc od a = a

  determined_from :
      (above rest whole : List LineRule)
      → whole ≡ above ++ rest
      → in_order above rest ≡ true
      → All (Agree c d) above
      → All (Obeys c whole) rest
      → All (Obeys d whole) rest
      → All (AgreeUnlessFormula c d) rest
      → All (Agree c d) rest
  determined_from above [] whole e o h oc od a = tt
  determined_from above (r ∷ rest) whole e o h oc od a =
      let (here, later) =
        and_split (known above r.column r.source) (in_order (above ++ (r ∷ [])) rest) o in
      let agree =
        rule-Agree above (r ∷ rest) r r.source h here (subst (λ rules. Obeys c rules r) e oc.0)
          (subst (λ rules. Obeys d rules r) e od.0) a.0 in
      (
        agree,
        determined_from (above ++ (r ∷ [])) rest whole (e ∙ append_snoc above r rest) later
            (All-snoc (Agree c d) above r h agree) oc.1 od.1 a.1,
      )

  -- Two covers that obey all formulas of a form's table and agree on its other lines agree on every
  -- line: the formulas are not circular and leave no total free.
  pub formulas_determine :
      (form : Table) (rules : List LineRule)
      → rules_for form ≡ some rules
      → All (Obeys c rules) rules
      → All (Obeys d rules) rules
      → All (AgreeUnlessFormula c d) rules
      → All (Agree c d) rules
  formulas_determine form rules h oc od a =
      determined_from [] rules rules refl (rules_for-in_order form rules h) tt oc od a
