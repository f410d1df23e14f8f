-- ===== src/Money/Spelling.antt =====
-- src/parser/typed.rs: the amounts, how one is spelled, and `parse_money` on the spelling.
use hardmoney.Prelude.{
  ℕ, ◌+◌, ◌-◌, ◌*◌, ◌≤◌, Bool, true, false, not, ◌&&◌, [], ◌∷◌, ◌++◌, Option, none, some, ◌≡◌, ◌≢◌,
  ◌⊎◌, inl, inr, refl, sym, ap, ◌∙◌, arith, all_b, all_b-append, ltb,
}
use mathlib.Core.Option
use hardmoney.Prelude.Int.{ℤ, nat_abs}
use hardmoney.Text.{
  Str, starts_with_char, is_ascii_digit, is_whitespace, byte_len, digits_value, all_digits,
  parse_digits, trim, trim_start, split_once, onto_front, max_i64,
}
use hardmoney.Text.Split.{Lacks}
use hardmoney.Text.Trim.{trim_by_of_kept}
use hardmoney.Text.Number.{parse_digits-value, all_digits-kept, all_digits-Lacks}
use hardmoney.Money.{
  is_empty, is_sign, whole_cents, frac_cents, magnitude, signed, unsigned_cents, money_cents,
}

-- The digits behind the point, in cents.
abbrev pub frac_value : Str → ℕ
frac_value [] = 0
frac_value (c ∷ []) = (c - b'0') * 10
frac_value (c ∷ d ∷ s) = (c - b'0') * 10 + (d - b'0')

-- At most two.
abbrev pub short : Str → Bool
short [] = true
short (c ∷ []) = true
short (c ∷ d ∷ []) = true
short (c ∷ d ∷ e ∷ s) = false

-- An amount: its sign, the digits before the point and, if there is a point, those behind it.
pub record Amount : Type 0 where
  pub negative : Bool
  pub plus : Bool
  pub whole : Str
  pub point : Bool
  pub frac : Str

pub record IsAmount (a : Amount) : Type 0 where
  pub whole_digits : all_digits a.whole ≡ true
  pub frac_digits : all_digits a.frac ≡ true
  pub two_decimals : short a.frac ≡ true
  pub no_frac : a.point ≡ false → a.frac ≡ []
  pub not_blank : (a.whole ≢ []) ⊎ (a.frac ≢ [])
  pub fits : digits_value 0 a.whole * 100 + frac_value a.frac ≤ max_i64

abbrev pub sign_text : Bool → Bool → Str
sign_text true plus = b'-' ∷ []
sign_text false true = b'+' ∷ []
sign_text false false = []

abbrev pub body_text : Str → Bool → Str → Str
body_text whole true frac = whole ++ (b'.' ∷ frac)
body_text whole false frac = whole

abbrev pub amount_text : Amount → Str
amount_text a = sign_text a.negative a.plus ++ body_text a.whole a.point a.frac

abbrev pub amount_cents : Amount → ℤ
amount_cents a = signed a.negative (digits_value 0 a.whole * 100 + frac_value a.frac)

whole_cents-value :
    (s : Str)
    → all_digits s ≡ true
    → digits_value 0 s ≤ max_i64
    → whole_cents s ≡ some (digits_value 0 s)
whole_cents-value [] d h = unfold digits_value in refl
whole_cents-value (c ∷ s) d h = parse_digits-value max_i64 (c ∷ s) (cc) d h

frac_cents-value :
    (s : Str) → all_digits s ≡ true → short s ≡ true → frac_cents s ≡ some (frac_value s)
unfolding parse_digits
frac_cents-value [] d h = refl
frac_cents-value (c ∷ []) d h = ground arith
frac_cents-value (c ∷ d ∷ []) e h = ground arith
frac_cents-value (c ∷ d ∷ e ∷ s) _ h = cc

short-byte_len : (s : Str) → all_digits s ≡ true → short s ≡ true → ltb 2 (byte_len s) ≡ false
unfolding byte_len all_digits
short-byte_len [] d h = refl
short-byte_len (c ∷ []) d h = ground arith
short-byte_len (c ∷ d ∷ []) e h = ground arith
short-byte_len (c ∷ d ∷ e ∷ s) _ h = cc

not_blank_and : (s t : Str) → (s ≢ []) ⊎ (t ≢ []) → (is_empty s && is_empty t) ≡ false
not_blank_and [] [] (inl h) = absurd (h refl)
not_blank_and [] [] (inr h) = absurd (h refl)
not_blank_and [] (c ∷ t) h = refl
not_blank_and (c ∷ s) t h = refl

magnitude-value :
    (whole frac : Str)
    → all_digits whole ≡ true
    → all_digits frac ≡ true
    → short frac ≡ true
    → (whole ≢ []) ⊎ (frac ≢ [])
    → digits_value 0 whole * 100 + frac_value frac ≤ max_i64
    → magnitude whole frac ≡ some (digits_value 0 whole * 100 + frac_value frac)
unfolding magnitude
magnitude-value whole frac w f s b fits =
    rw
      (
        short-byte_len frac f s,
        w,
        f,
        not_blank_and whole frac b,
        whole_cents-value whole w (omega arith),
        frac_cents-value frac f s,
      )
      (ground arith)

pub magnitude-le : (whole frac : Str) (n : ℕ) → magnitude whole frac ≡ some n → n ≤ max_i64
unfolding magnitude
magnitude-le whole frac n h = ground arith

unsigned_cents-le : (s : Str) (n : ℕ) → unsigned_cents s ≡ some n → n ≤ max_i64
unfolding unsigned_cents
unsigned_cents-le s n h = magnitude-le _ _ n h

signed-le :
    (negative : Bool) (o : Option ℕ) (c : ℤ)
    → Option.map (signed negative) o ≡ some c
    → (n : ℕ) × (o ≡ some n) × (nat_abs c ≡ n)
signed-le negative none c h = cc
signed-le negative (some n) c h = (n, refl, ground arith)

-- What is read, from any text, is within the range of an `i64` on both sides.
pub money_cents_bound : (raw : Str) (c : ℤ) → money_cents raw ≡ some c → nat_abs c ≤ max_i64
unfolding money_cents
money_cents_bound raw c h = ground (
  arith,
  signed-le (starts_with_char b'-' (trim raw)) (unsigned_cents (trim_start is_sign (trim raw))) c,
  unsigned_cents-le (trim_start is_sign (trim raw)) (nat_abs c),
)

money_cents_of :
    (t body : Str) (negative : Bool) (n : ℕ)
    → trim t ≡ t
    → is_empty t ≡ false
    → trim_start is_sign t ≡ body
    → ltb (byte_len body + 1) (byte_len t) ≡ false
    → starts_with_char b'-' t ≡ negative
    → unsigned_cents body ≡ some n
    → money_cents t ≡ some (signed negative n)
unfolding money_cents
money_cents_of t body negative n e full b one s u = rw (e, full, b, one, s, u) refl

abbrev Kept : Str → Type 0
Kept s = all_b (λ c. not (is_whitespace c)) s ≡ true

sign_text-Kept : (negative plus : Bool) → Kept (sign_text negative plus)
unfolding is_whitespace
sign_text-Kept true plus = refl
sign_text-Kept false true = refl
sign_text-Kept false false = refl

trim_start-sign_text :
    (negative plus : Bool) (c : ℕ) (r : Str)
    → is_sign c ≡ false
    → trim_start is_sign (sign_text negative plus ++ (c ∷ r)) ≡ c ∷ r
unfolding is_sign trim_start
trim_start-sign_text true plus c r h = ground arith
trim_start-sign_text false true c r h = ground arith
trim_start-sign_text false false c r h = ground arith

one_sign :
    (negative plus : Bool) (s : Str)
    → ltb (byte_len s + 1) (byte_len (sign_text negative plus ++ s)) ≡ false
unfolding byte_len
one_sign true plus s = ground arith
one_sign false true s = ground arith
one_sign false false s = ground arith

starts_with_char-sign_text :
    (negative plus : Bool) (c : ℕ) (r : Str)
    → is_sign c ≡ false
    → starts_with_char b'-' (sign_text negative plus ++ (c ∷ r)) ≡ negative
unfolding starts_with_char is_sign
starts_with_char-sign_text true plus c r h = refl
starts_with_char-sign_text false true c r h = refl
starts_with_char-sign_text false false c r h = ground arith

not_blank-sign_text :
    (negative plus : Bool) (c : ℕ) (r : Str) → is_empty (sign_text negative plus ++ (c ∷ r)) ≡ false
not_blank-sign_text true plus c r = refl
not_blank-sign_text false true c r = refl
not_blank-sign_text false false c r = refl

money_cents-signed :
    (negative plus : Bool) (c : ℕ) (r : Str) (n : ℕ)
    → is_sign c ≡ false
    → Kept (c ∷ r)
    → unsigned_cents (c ∷ r) ≡ some n
    → money_cents (sign_text negative plus ++ (c ∷ r)) ≡ some (signed negative n)
money_cents-signed negative plus c r n h k u =
    money_cents_of _ (c ∷ r) negative n
      (unfold trim in
        trim_by_of_kept is_whitespace _
          (all_b-append _ (sign_text negative plus) (c ∷ r) (sign_text-Kept negative plus) k))
      (not_blank-sign_text negative plus c r) (trim_start-sign_text negative plus c r h)
      (one_sign negative plus (c ∷ r)) (starts_with_char-sign_text negative plus c r h) u

-- Past the sign an amount begins with a digit or the point.
body_starts :
    (whole : Str) (point : Bool) (frac : Str)
    → all_digits whole ≡ true
    → (point ≡ false → frac ≡ [])
    → (whole ≢ []) ⊎ (frac ≢ [])
    → (c : ℕ) × (r : Str) × (body_text whole point frac ≡ c ∷ r) × (is_sign c ≡ false)
unfolding all_digits is_sign is_ascii_digit
body_starts [] true frac d n b = (b'.', frac, refl, refl)
body_starts [] false frac d n (inl b) = absurd (b refl)
body_starts [] false frac d n (inr b) = absurd (b (n refl))
body_starts (c ∷ s) true frac d n b = (c, s ++ (b'.' ∷ frac), refl, ground arith)
body_starts (c ∷ s) false frac d n b = (c, s, refl, ground arith)

body_text-Kept :
    (whole : Str) (point : Bool) (frac : Str)
    → all_digits whole ≡ true
    → all_digits frac ≡ true
    → Kept (body_text whole point frac)
body_text-Kept whole true frac d e =
    all_b-append _ whole (b'.' ∷ frac) (all_digits-kept whole d)
      (unfold is_whitespace in all_digits-kept frac e)
body_text-Kept whole false frac d e = all_digits-kept whole d

split_once-point :
    (whole frac : Str)
    → Lacks b'.' whole
    → split_once b'.' (whole ++ (b'.' ∷ frac)) ≡ some (whole, frac)
unfolding split_once
split_once-point [] frac h = refl
split_once-point (c ∷ s) frac h = rw h.0 (ap (onto_front c) (split_once-point s frac h.1))

split_once-none : (whole : Str) → Lacks b'.' whole → split_once b'.' whole ≡ none
unfolding split_once
split_once-none [] h = refl
split_once-none (c ∷ s) h = rw h.0 (ap (onto_front c) (split_once-none s h.1))

all_digits-Lacks_point : (s : Str) → all_digits s ≡ true → Lacks b'.' s
all_digits-Lacks_point s d = all_digits-Lacks b'.' s (unfold is_ascii_digit in refl) d

unsigned_cents-body_text :
    (whole : Str) (point : Bool) (frac : Str)
    → all_digits whole ≡ true
    → (point ≡ false → frac ≡ [])
    → unsigned_cents (body_text whole point frac) ≡ magnitude whole frac
unfolding unsigned_cents
unsigned_cents-body_text whole true frac d n =
    rw (split_once-point whole frac (all_digits-Lacks_point whole d)) refl
unsigned_cents-body_text whole false frac d n =
    rw (split_once-none whole (all_digits-Lacks_point whole d))
      (ap (magnitude whole) (sym (n refl)))

pub money_cents-amount_text :
    (a : Amount) → IsAmount a → money_cents (amount_text a) ≡ some (amount_cents a)
money_cents-amount_text a h =
    let (c, r, e, unsigned) =
      body_starts a.whole a.point a.frac h.whole_digits h.no_frac h.not_blank in
    rw e (
      money_cents-signed a.negative a.plus c r _ unsigned
        (rw e at (body_text-Kept a.whole a.point a.frac h.whole_digits h.frac_digits))
        (rw e at (unsigned_cents-body_text a.whole a.point a.frac h.whole_digits h.no_frac)
          ∙ magnitude-value a.whole a.frac h.whole_digits h.frac_digits h.two_decimals h.not_blank
              h.fits))
