-- ===== src/Reconcile/Cash.antt =====
-- The cash of a Form 3X report that balances.
use mathlib.Core.Path.{subst}
use hardmoney.Prelude.{
  zero, suc, ℕ, ◌^◌, ◌≤◌, true, List, [], ◌∷◌, length, get_elem?, some, is_some, All, ◌≡◌, refl, ap,
  ◌∙◌,
}
use Prim.Native.String.{String}
use hardmoney.Prelude.Int.{eq_of_parts, ℤ, pos, ◌+ℤ◌, ◌-ℤ◌, int_laws}
use hardmoney.Prelude.Result.{ok}
use hardmoney.Text.{codes}
use hardmoney.Table.{Table}
use hardmoney.Line.{ParsedLine, get}
use hardmoney.Decimal.{Decimal, DecimalLaws}
use hardmoney.Reconcile.{LineRule}
use hardmoney.Reconcile.Rules.{rules_for}
use hardmoney.Reconcile.Rules.F3x.{f3x_rules}
use hardmoney.Reconcile.Check.{Reconciliation, balances, reconcile, rule_at}
use hardmoney.Reconcile.Cents.{field_cents}
use hardmoney.Reconcile.Balance.{Holds, Passes, balances-reconcile}

All_get :
    (P : LineRule → Type 0) (xs : List LineRule) (i : ℕ) (x : LineRule)
    → All P xs
    → get_elem? xs i ≡ some x
    → P x
All_get P [] i x h e = cc
All_get P (y ∷ xs) zero x h e = subst P (cc) h.0
All_get P (y ∷ xs) (suc i) x h e = All_get P xs i x h.1 e

-- The cents of a cover field and its presence, by the field's name.
abbrev pub at_field : ParsedLine → String → ℤ
at_field cover name = field_cents cover (codes name)

abbrev pub Present : ParsedLine → String → Type 0
Present cover name = is_some (get cover (codes name)) ≡ true

identity :
    (receipts recap subtotal beginning disbursements paid close : ℤ)
    → receipts ≡ recap +ℤ pos 0
    → subtotal ≡ beginning +ℤ (receipts +ℤ pos 0)
    → disbursements ≡ paid +ℤ pos 0
    → close ≡ subtotal +ℤ ((pos 0 -ℤ disbursements) +ℤ pos 0)
    → close ≡ beginning +ℤ recap -ℤ paid
identity receipts recap subtotal beginning disbursements paid close a b c d =
    d ∙ rw (b, a, c) (eq_of_parts _ (beginning +ℤ recap -ℤ paid) (grind int_laws))

-- With decimals that are exact on whole cents: in a Form 3X filing that balances, has at most 2 ^
-- 28 body lines and whose cover has lines 6(c), 6(d), 7 and 8, the cents of cash on hand at close
-- are those at the beginning, plus those of all receipts (line 19), less those of all
-- disbursements (line 31).
pub cash_identity :
    (D : Decimal) (laws : DecimalLaws D) (cover : ParsedLine) (body : List ParsedLine)
    (result : Reconciliation D.Carrier)
    → cover.layout.table ≡ Table.f3x
    → reconcile D cover body ≡ ok result
    → length body ≤ 2 ^ 28
    → balances D result ≡ true
    → Present cover "col_a_total_receipts"
    → Present cover "col_a_subtotal"
    → Present cover "col_a_total_disbursements"
    → Present cover "col_a_cash_on_hand_close_of_period"
    → at_field cover "col_a_cash_on_hand_close_of_period"
      ≡ at_field cover "col_a_cash_on_hand_beginning_period"
        +ℤ at_field cover "col_a_total_receipts_recap"
        -ℤ at_field cover "col_a_total_disbursements_recap"
unfolding rules_for rule_at
cash_identity D laws cover body result form h small b receipts subtotal disbursements close =
    let rules =
      (balances-reconcile D laws cover body f3x_rules result (ap rules_for form) h small).0 b in
    let P = Passes (Holds cover body f3x_rules) cover in
    let line_6c : at_field cover "col_a_total_receipts"
        ≡ at_field cover "col_a_total_receipts_recap" +ℤ pos 0 =
      All_get P f3x_rules 47 _ rules refl refl receipts in
    let line_6d : at_field cover "col_a_subtotal"
        ≡ at_field cover "col_a_cash_on_hand_beginning_period"
          +ℤ (at_field cover "col_a_total_receipts" +ℤ pos 0) =
      All_get P f3x_rules 48 _ rules refl refl subtotal in
    let line_7 : at_field cover "col_a_total_disbursements"
        ≡ at_field cover "col_a_total_disbursements_recap" +ℤ pos 0 =
      All_get P f3x_rules 49 _ rules refl refl disbursements in
    let line_8 : at_field cover "col_a_cash_on_hand_close_of_period"
        ≡ at_field cover "col_a_subtotal"
          +ℤ ((pos 0 -ℤ at_field cover "col_a_total_disbursements") +ℤ pos 0) =
      All_get P f3x_rules 50 _ rules refl refl close in
    identity _ _ _ _ _ _ _ line_6c line_6d line_7 line_8
