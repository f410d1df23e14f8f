-- ===== src/Reconcile/Balance.antt =====
-- When a filing balances.
use hardmoney.Prelude.{
  inr, and_split, inl, Bool-cases, ℕ, zero, suc, ◌*◌, ◌^◌, ◌≤◌, Bool, true, ◌&&◌, List, [], ◌∷◌,
  map, keep, length, Option, none, some, ◌≡◌, ◌↔◌, refl, sym, ap, ◌∙◌, arith, leb, All, all_b,
  is_some,
}
use hardmoney.Prelude.Result.{Result, ok, err}
use hardmoney.Table.{Table}
use hardmoney.Line.{ParsedLine, get}
use hardmoney.Decimal.{Decimal, DecimalLaws}
use hardmoney.Reconcile.{Source, schedules, formula, input, LineRule}
use hardmoney.Reconcile.Rules.{rules_for}
use hardmoney.Reconcile.Check.{
  LineCheck, Reconciliation, ReconcileError, relation_of, is_ruled, checked_rules, check_line,
  matches, balances, reconcile,
}
use hardmoney.Reconcile.Cents.{field_cents}
use hardmoney.Reconcile.Verdict.{amounts, expected_cents, Relates, matches-check_line}

-- No rule of a table adds up more than sixteen terms or schedules.
abbrev few : Source → Bool
few (schedules relation sums) = leb (length sums) 16
few (formula terms) = leb (length terms) 16
few input = true

abbrev option_few : Option (List LineRule) → Bool
option_few none = true
option_few (some rules) = all_b (λ r. few (r.source)) rules

tables_few : (form : Table) → option_few (rules_for form) ≡ true
unfolding rules_for
tables_few Table.f3x = refl
tables_few Table.f3 = refl
tables_few Table.f3p = refl
tables_few _ = refl

mul_le_16 : (n k : ℕ) → n ≤ 2 ^ 28 → k ≤ 16 → n * k ≤ n * 16
mul_le_16 zero k h l = omega arith
mul_le_16 (suc n) k h l = omega (arith, mul_le_16 n k (omega arith) l)

amounts-le :
    (body : List ParsedLine) (source : Source)
    → length body ≤ 2 ^ 28
    → few source ≡ true
    → amounts body source ≤ 2 ^ 32
amounts-le body (schedules relation sums) h f =
    let small : length sums ≤ 16 = ground arith in
    omega (arith, mul_le_16 (length body) (length sums) h small)
amounts-le body (formula terms) h f = ground arith
amounts-le body input h f = omega arith

-- The check of a rule that is made passes.
abbrev pub Passes : (LineRule → Type 0) → ParsedLine → LineRule → Type 0
Passes P cover r = is_ruled r.source ≡ true → is_some (get cover r.field) ≡ true → P r

and_join : (a b : Bool) → a ≡ true → b ≡ true → (a && b) ≡ true
and_join a b h k = ground arith

module _ {ℓ} {A B : Type ℓ} where
  all_b-kept :
      (p : B → Bool) (f : A → B) (q s : A → Bool) (xs : List A)
      → (all_b p (map f (keep q (keep s xs))) ≡ true)
        ↔ All (λ x. s x ≡ true → q x ≡ true → p (f x) ≡ true) xs
  all_b-kept p f q s [] = (λ _. tt, λ _. refl)
  all_b-kept p f q s (x ∷ xs) = elim (Bool-cases (s x)) [
    | inl ruled ↦ elim (Bool-cases (q x)) [
      | inl present ↦
          rw (ruled, present)
            (
              λ h.
                  let (here, later) =
                    and_split (p (f x)) (all_b p (map f (keep q (keep s xs)))) h in
                  (λ _ _. here, (all_b-kept p f q s xs).0 later),
              λ h.
                  and_join (p (f x)) (all_b p (map f (keep q (keep s xs)))) (h.0 refl refl)
                    ((all_b-kept p f q s xs).1 h.1),
            )
      | inr absent ↦
          rw (ruled, absent)
            (
              λ h. (λ _ k. absurd (cc k), (all_b-kept p f q s xs).0 h),
              λ h. (all_b-kept p f q s xs).1 h.1,
            )
    ]
    | inr unruled ↦ rw unruled (
      λ h. (λ k _. absurd (cc k), (all_b-kept p f q s xs).0 h),
      λ h. (all_b-kept p f q s xs).1 h.1,
    )
  ]

All-iff :
    (P Q : LineRule → Type 0) (good : LineRule → Bool) (xs : List LineRule)
    → all_b good xs ≡ true
    → ((x : LineRule) → good x ≡ true → P x ↔ Q x)
    → All P xs ↔ All Q xs
All-iff P Q good [] h f = (λ _. tt, λ _. tt)
All-iff P Q good (x ∷ xs) h f =
    let (here, later) = and_split (good x) (all_b good xs) h in
    let rest = All-iff P Q good xs later f in
    (λ a. ((f x here).0 a.0, rest.0 a.1), λ a. ((f x here).1 a.0, rest.1 a.1))

abbrev checks_of : {A : Type 0} → Result ReconcileError (Reconciliation A) → List (LineCheck A)
checks_of (ok r) = r.checks
checks_of (err e) = []

checks-reconcile :
    (D : Decimal) (cover : ParsedLine) (body : List ParsedLine) (rules : List LineRule)
    (result : Reconciliation D.Carrier)
    → rules_for cover.layout.table ≡ some rules
    → reconcile D cover body ≡ ok result
    → result.checks ≡ map (check_line D cover body rules) (checked_rules cover rules)
unfolding reconcile
checks-reconcile D cover body rules result table h = sym (ap checks_of (rw table at h))

balances-checks :
    (D : Decimal) (cover : ParsedLine) (body : List ParsedLine) (rules : List LineRule)
    (result : Reconciliation D.Carrier)
    → rules_for cover.layout.table ≡ some rules
    → reconcile D cover body ≡ ok result
    → (balances D result ≡ true)
      ↔ All (Passes (λ r. matches D (check_line D cover body rules r) ≡ true) cover) rules
unfolding balances checked_rules
balances-checks D cover body rules result table h =
    rw (checks-reconcile D cover body rules result table h) (
      all_b-kept (matches D) (check_line D cover body rules) (λ r. is_some (get cover (r.field)))
        (λ r. is_ruled (r.source)) rules)

-- The line of a rule holds what it must.
abbrev pub Holds : ParsedLine → List ParsedLine → List LineRule → LineRule → Type 0
Holds cover body rules r =
    Relates (relation_of r.source) (field_cents cover r.field) (expected_cents cover body rules r)

-- With decimals that are exact on whole cents, a filing whose body has at most 2 ^ 28 lines
-- balances exactly if, for each rule of its form that is no input and whose field its cover has,
-- the reported cents relate as they must to those that the rule derives.
pub balances-reconcile :
    (D : Decimal) (laws : DecimalLaws D) (cover : ParsedLine) (body : List ParsedLine)
    (rules : List LineRule) (result : Reconciliation D.Carrier)
    → rules_for cover.layout.table ≡ some rules
    → reconcile D cover body ≡ ok result
    → length body ≤ 2 ^ 28
    → (balances D result ≡ true) ↔ All (Passes (Holds cover body rules) cover) rules
balances-reconcile D laws cover body rules result table h small =
    let pointwise =
      All-iff
        (λ r.
          is_ruled r.source ≡ true
          → is_some (get cover r.field) ≡ true
          → matches D (check_line D cover body rules r) ≡ true)
        (Passes (Holds cover body rules) cover) (λ r. few (r.source)) rules
        (ap option_few (sym table) ∙ tables_few cover.layout.table)
        (λ r f.
          let verdict =
            matches-check_line D laws cover body rules r (amounts-le body r.source small f) in
          (λ g a b. verdict.0 (g a b), λ g a b. verdict.1 (g a b))) in
    let checks = balances-checks D cover body rules result table h in
    (λ b. pointwise.0 (checks.0 b), λ a. checks.1 (pointwise.1 a))
