-- ===== src/Reconcile/Cents.antt =====
-- The sums of a check in whole cents, as integers, and how large they can be.
use hardmoney.Prelude.{
  suc, ◌^◌, inr, inl, Bool-cases, ℕ, zero, suc, ◌+◌, ◌*◌, ◌≤◌, Bool, List, [], ◌∷◌, Option, none,
  some, ◌≡◌, refl, arith, length, keep, unwrap_or, and_then, not, if◌then◌else◌,
}
use hardmoney.Prelude.Int.{ℤ, pos, ◌+ℤ◌, ◌-ℤ◌, nat_abs, int_laws, eq_of_parts}
use hardmoney.Text.{Str, max_i64}
use hardmoney.Line.{ParsedLine, get_non_empty, is_memo}
use hardmoney.Money.{money_cents}
use hardmoney.Money.Spelling.{money_cents_bound}
use hardmoney.Reconcile.{Column, ScheduleSum, Term, LineRule}
use hardmoney.Reconcile.Check.{counts, rule_at}

pub +ℤ-assoc : (a b c : ℤ) → (a +ℤ b) +ℤ c ≡ a +ℤ (b +ℤ c)
+ℤ-assoc a b c = eq_of_parts ((a +ℤ b) +ℤ c) (a +ℤ (b +ℤ c)) (grind int_laws)

pub +ℤ-zero : (a : ℤ) → a +ℤ pos 0 ≡ a
+ℤ-zero a = eq_of_parts (a +ℤ pos 0) a (grind int_laws)

pub zero_+ℤ : (a : ℤ) → pos 0 +ℤ a ≡ a
zero_+ℤ a = eq_of_parts (pos 0 +ℤ a) a (grind int_laws)

pub length-keep : (p : ParsedLine → Bool) (xs : List ParsedLine) → length (keep p xs) ≤ length xs
length-keep p [] = omega arith
length-keep p (x ∷ xs) = ground (arith, length-keep p xs)

pub mul_scale : (k l : ℕ) → k * (l * max_i64) ≡ k * l * max_i64
mul_scale zero l = omega arith
mul_scale (suc k) l = omega (arith, mul_scale k l)

pub mul_le : (k n l : ℕ) → k ≤ n → k * l ≤ n * l
mul_le zero n l h = omega arith
mul_le (suc k) zero l h = omega arith
mul_le (suc k) (suc n) l h = omega (arith, mul_le k n l (omega arith))

pub -ℤ-add : (a b : ℤ) → a -ℤ b ≡ a +ℤ (pos 0 -ℤ b)
-ℤ-add a b = eq_of_parts (a -ℤ b) (a +ℤ (pos 0 -ℤ b)) (grind int_laws)

pub +ℤ-le : (a b : ℤ) (m n : ℕ) → nat_abs a ≤ m → nat_abs b ≤ n → nat_abs (a +ℤ b) ≤ m + n
unfolding ◌+ℤ◌
+ℤ-le a b m n h k = ground arith

pub -ℤ-le : (a b : ℤ) (m n : ℕ) → nat_abs a ≤ m → nat_abs b ≤ n → nat_abs (a -ℤ b) ≤ m + n
unfolding ◌-ℤ◌
-ℤ-le a b m n h k = ground arith

-- The cents of a field; blank and unreadable fields count as 0.
unfoldable pub text_cents : Option Str → ℤ
text_cents o = unwrap_or (and_then o money_cents) (pos 0)

unfoldable pub field_cents : ParsedLine → Str → ℤ
field_cents line field = text_cents (get_non_empty line field)

-- What a line contributes to one sum, to all sums of a rule, and what a body does.
abbrev pub contribution : ParsedLine → ScheduleSum → ℤ
contribution line s = if counts line s then field_cents line s.field else pos 0

abbrev pub line_cents : ParsedLine → List ScheduleSum → ℤ
line_cents line [] = pos 0
line_cents line (s ∷ sums) = contribution line s +ℤ line_cents line sums

abbrev pub body_cents : List ParsedLine → List ScheduleSum → ℤ
body_cents [] sums = pos 0
body_cents (line ∷ body) sums = line_cents line sums +ℤ body_cents body sums

abbrev pub schedule_cents : List ParsedLine → List ScheduleSum → ℤ
schedule_cents body sums = body_cents (keep (λ l. not (is_memo l)) body) sums

abbrev pub rule_cents : ParsedLine → Option LineRule → ℤ
rule_cents cover none = pos 0
rule_cents cover (some r) = field_cents cover r.field

abbrev pub term_cents : ParsedLine → List LineRule → Column → Term → ℤ
term_cents cover rules column t =
    let value = rule_cents cover (rule_at rules column t.line) in
    if t.negative then pos 0 -ℤ value else value

abbrev pub formula_cents : ParsedLine → List LineRule → Column → List Term → ℤ
formula_cents cover rules column [] = pos 0
formula_cents cover rules column (t ∷ terms) =
    term_cents cover rules column t +ℤ formula_cents cover rules column terms

pub text_cents-le : (o : Option Str) → nat_abs (text_cents o) ≤ max_i64
unfolding text_cents
text_cents-le none = omega arith
text_cents-le (some raw) = of (money_cents raw) (money_cents_bound raw)
  where
    of :
        (c : Option ℤ)
        → ((x : ℤ) → c ≡ some x → nat_abs x ≤ max_i64)
        → nat_abs (unwrap_or c (pos 0)) ≤ max_i64
    of none h = omega arith
    of (some x) h = h x refl

pub field_cents-le : (line : ParsedLine) (field : Str) → nat_abs (field_cents line field) ≤ max_i64
unfolding field_cents
field_cents-le line field = text_cents-le (get_non_empty line field)

pub rule_cents-le :
    (cover : ParsedLine) (o : Option LineRule) → nat_abs (rule_cents cover o) ≤ max_i64
rule_cents-le cover none = omega arith
rule_cents-le cover (some r) = field_cents-le cover r.field

pub term_cents-le :
    (cover : ParsedLine) (rules : List LineRule) (column : Column) (t : Term)
    → nat_abs (term_cents cover rules column t) ≤ max_i64
term_cents-le cover rules column t =
    let v = rule_cents cover (rule_at rules column t.line) in
    let small = rule_cents-le cover (rule_at rules column t.line) in
    elim (Bool-cases t.negative) [
      | inl q ↦ rw q (omega (arith, -ℤ-le (pos 0) v 0 max_i64 (omega arith) small))
      | inr q ↦ rw q small
    ]

pub contribution-le :
    (line : ParsedLine) (s : ScheduleSum) → nat_abs (contribution line s) ≤ max_i64
contribution-le line s = ground (arith, field_cents-le line s.field)

pub line_cents-le :
    (line : ParsedLine) (sums : List ScheduleSum)
    → nat_abs (line_cents line sums) ≤ length sums * max_i64
line_cents-le line [] = omega arith
line_cents-le line (s ∷ sums) = omega (
  arith,
  +ℤ-le (contribution line s) (line_cents line sums) max_i64 (length sums * max_i64)
      (contribution-le line s) (line_cents-le line sums),
)

pub body_cents-le :
    (body : List ParsedLine) (sums : List ScheduleSum)
    → nat_abs (body_cents body sums) ≤ length body * (length sums * max_i64)
body_cents-le [] sums = omega arith
body_cents-le (line ∷ body) sums = omega (
  arith,
  +ℤ-le (line_cents line sums) (body_cents body sums) (length sums * max_i64)
      (length body * (length sums * max_i64)) (line_cents-le line sums) (body_cents-le body sums),
)

-- No more amounts than lines, times the contributions of the rule.
pub schedule_cents-bound :
    (body : List ParsedLine) (sums : List ScheduleSum)
    → nat_abs (schedule_cents body sums) ≤ length body * length sums * max_i64
schedule_cents-bound body sums =
    let kept = keep (λ l. not (is_memo l)) body in
    omega (
      arith,
      body_cents-le kept sums,
      mul_scale (length kept) (length sums),
      mul_le (length kept) (length body) (length sums) (length-keep (λ l. not (is_memo l)) body),
    )

-- The number of amounts that are added, with memos and without.
pub kept_product :
    (body : List ParsedLine) (sums : List ScheduleSum)
    → length body * length sums ≤ 2 ^ 32
    → length (keep (λ l. not (is_memo l)) body) * (length sums * max_i64) ≤ 2 ^ 32 * max_i64
kept_product body sums m =
    let kept = keep (λ l. not (is_memo l)) body in
    omega (
      arith,
      mul_scale (length kept) (length sums),
      mul_le (length kept) (length body) (length sums) (length-keep (λ l. not (is_memo l)) body),
    )

pub schedule_cents-le :
    (body : List ParsedLine) (sums : List ScheduleSum)
    → length body * length sums ≤ 2 ^ 32
    → nat_abs (schedule_cents body sums) ≤ 2 ^ 32 * max_i64
schedule_cents-le body sums m =
    omega (arith, body_cents-le (keep (λ l. not (is_memo l)) body) sums, kept_product body sums m)

pub formula_cents-le :
    (cover : ParsedLine) (rules : List LineRule) (column : Column) (terms : List Term)
    → nat_abs (formula_cents cover rules column terms) ≤ length terms * max_i64
formula_cents-le cover rules column [] = omega arith
formula_cents-le cover rules column (t ∷ terms) = omega (
  arith,
  +ℤ-le (term_cents cover rules column t) (formula_cents cover rules column terms) max_i64
      (length terms * max_i64) (term_cents-le cover rules column t)
      (formula_cents-le cover rules column terms),
)
