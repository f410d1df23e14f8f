-- ===== src/Money/Reading.antt =====
-- src/parser/typed.rs: `parse_money`, from a text that it reads back to the spelling of an amount.
use hardmoney.Prelude.{
  sym, ◌∙◌, ◌↔◌, Option-cases, ap, ◌==◌, ◌&&◌, unwrap_or, ◌*◌, inr, Option, Bool-cases, ◌≢◌, Bool,
  inl, ◌+◌, ◌<◌, ltb, ◌⊎◌, ◌≡◌, refl, ℕ, [], ◌∷◌, ◌++◌, some, none, true, false, arith,
}
use hardmoney.Prelude.Int.{ℤ}
use hardmoney.Text.{
  Str, starts_with_char, is_whitespace, byte_len, digits_value, all_digits, parse_digits, trim,
  trim_start, split_once, onto_front,
}
use hardmoney.Text.Trim.{trim_by_idem}
use hardmoney.Money.{
  is_empty, is_sign, whole_cents, frac_cents, magnitude, signed, unsigned_cents, money_cents,
}
use hardmoney.Money.Spelling.{
  frac_value, short, Amount, IsAmount, sign_text, body_text, amount_text, amount_cents,
  money_cents-amount_text, magnitude-le,
}

-- Trimming leaves a text alone or takes at least a byte off.
trim_start-shorter :
    (s : Str) → (trim_start is_sign s ≡ s) ⊎ (byte_len (trim_start is_sign s) < byte_len s)
unfolding trim_start byte_len
trim_start-shorter [] = inl refl
trim_start-shorter (c ∷ s) = ground (arith, trim_start-shorter s)

no_more_signs :
    (c : ℕ) (s : Str)
    → is_sign c ≡ true
    → ltb (byte_len (trim_start is_sign (c ∷ s)) + 1) (byte_len (c ∷ s)) ≡ false
    → trim_start is_sign s ≡ s
unfolding trim_start byte_len
no_more_signs c s e h = ground (arith, trim_start-shorter s)

sign-cases :
    (c : ℕ)
    → (is_sign c ≡ true × (c ≡ b'-'))
      ⊎ (is_sign c ≡ true × (c ≡ b'+'))
      ⊎ (is_sign c ≡ false × ((c == b'-') ≡ false))
unfolding is_sign
sign-cases c = ground arith

-- With at most one sign trimmed, a text is its sign and the rest.
one_sign-sign_text :
    (t : Str)
    → ltb (byte_len (trim_start is_sign t) + 1) (byte_len t) ≡ false
    → (plus : Bool) × (t ≡ sign_text (starts_with_char b'-' t) plus ++ trim_start is_sign t)
unfolding trim_start starts_with_char
one_sign-sign_text [] h = (false, refl)
one_sign-sign_text (c ∷ s) h = elim (sign-cases c) [
  | inl (e, q) ↦ (false, rw (e, no_more_signs c s e h, q) refl)
  | inr (inl (e, q)) ↦ (true, rw (e, no_more_signs c s e h, q) refl)
  | inr (inr (e, q)) ↦ (false, rw (e, q) refl)
]

onto_front-some :
    (c : ℕ) (o : Option (Str × Str)) (a b : Str)
    → onto_front c o ≡ some (a, b)
    → (d : Str) × (o ≡ some (d, b)) × (a ≡ c ∷ d)
onto_front-some c none a b h = cc
onto_front-some c (some (d, e)) a b h = (d, cc, cc)

split_once-some : (s a b : Str) → split_once b'.' s ≡ some (a, b) → s ≡ a ++ (b'.' ∷ b)
unfolding split_once
split_once-some [] a b h = cc
split_once-some (c ∷ s) a b h = elim (Bool-cases (c == b'.')) [
  | inl e ↦
      let nil : a ≡ [] = ground arith in
      let rest : s ≡ b = ground arith in let q : c ≡ b'.' = ground arith in rw (nil, q, rest) refl
  | inr e ↦
      let (d, inner, same) = onto_front-some c (split_once b'.' s) a b (rw e at h) in
      rw same (ap (λ r. c ∷ r) (split_once-some s d b inner))
]

whole_cents-digits_value : (s : Str) (n : ℕ) → whole_cents s ≡ some n → n ≡ digits_value 0 s
unfolding parse_digits digits_value
whole_cents-digits_value [] n h = cc
whole_cents-digits_value (c ∷ s) n h = ground arith

short-of_byte_len : (s : Str) → ltb 2 (byte_len s) ≡ false → short s ≡ true
unfolding byte_len
short-of_byte_len [] h = refl
short-of_byte_len (c ∷ []) h = refl
short-of_byte_len (c ∷ d ∷ []) h = refl
short-of_byte_len (c ∷ d ∷ e ∷ s) h = ground arith

frac_cents-frac_value :
    (s : Str) (n : ℕ) → short s ≡ true → frac_cents s ≡ some n → n ≡ frac_value s
unfolding parse_digits digits_value
frac_cents-frac_value [] n h e = cc
frac_cents-frac_value (c ∷ []) n h e = ground arith
frac_cents-frac_value (c ∷ d ∷ []) n h e = ground arith
frac_cents-frac_value (c ∷ d ∷ e ∷ s) n h _ = cc

module _ (whole frac : Str) (n : ℕ) (h : magnitude whole frac ≡ some n) where
  guards :
      (ltb 2 (byte_len frac) ≡ false)
      × (all_digits whole ≡ true)
      × (all_digits frac ≡ true)
      × ((is_empty whole && is_empty frac) ≡ false)
  unfolding magnitude
  guards = (ground arith, ground arith, ground arith, ground arith)

  parts : (w f : ℕ) × (whole_cents whole ≡ some w) × (frac_cents frac ≡ some f) × (n ≡ w * 100 + f)
  unfolding magnitude
  parts = (
    unwrap_or (whole_cents whole) 0,
    unwrap_or (frac_cents frac) 0,
    ground arith,
    ground arith,
    ground arith,
  )

not_blank_of : (s t : Str) → (is_empty s && is_empty t) ≡ false → (s ≢ []) ⊎ (t ≢ [])
not_blank_of [] [] h = cc
not_blank_of [] (c ∷ t) h = inr (λ e. cc)
not_blank_of (c ∷ s) t h = inl (λ e. cc)

-- The digits of an amount behind its sign, and whether a point divides them.
split_body :
    (u : Str) (n : ℕ)
    → unsigned_cents u ≡ some n
    → (whole : Str) × (point : Bool) × (frac : Str) × (u ≡ body_text whole point frac)
      × (point ≡ false → frac ≡ [])
      × (magnitude whole frac ≡ some n)
unfolding unsigned_cents
split_body u n h = elim (Option-cases (split_once b'.' u)) [
  | inl e ↦ (u, false, [], refl, λ q. refl, rw e at h)
  | inr ((whole, frac), e) ↦ (whole, true, frac, split_once-some u whole frac e, λ q. cc, rw e at h)
]

-- What is read, with its parts: the sign, the digits and the value.
amount_of :
    (t : Str) (n : ℕ)
    → ltb (byte_len (trim_start is_sign t) + 1) (byte_len t) ≡ false
    → unsigned_cents (trim_start is_sign t) ≡ some n
    → (a : Amount) × IsAmount a
      × (t ≡ amount_text a)
      × (amount_cents a ≡ signed (starts_with_char b'-' t) n)
amount_of t n one h =
    let (plus, text) = one_sign-sign_text t one in
    let (whole, point, frac, body, no_frac, m) = split_body (trim_start is_sign t) n h in
    let (short_frac, whole_digits, frac_digits, some_digits) = guards whole frac n m in
    let (w, f, we, fe, sum) = parts whole frac n m in
    let two = short-of_byte_len frac short_frac in
    let value : digits_value 0 whole * 100 + frac_value frac ≡ n =
      omega
        (arith, sum, whole_cents-digits_value whole w we, frac_cents-frac_value frac f two fe) in
    (
      record {
        negative = starts_with_char b'-' t;
        plus = plus;
        whole = whole;
        point = point;
        frac = frac;
      },
      record {
        whole_digits = whole_digits;
        frac_digits = frac_digits;
        two_decimals = two;
        no_frac = no_frac;
        not_blank = not_blank_of whole frac some_digits;
        fits = omega (arith, value, magnitude-le whole frac n m);
      },
      text ∙ ap (λ r. sign_text (starts_with_char b'-' t) plus ++ r) body,
      ap (signed (starts_with_char b'-' t)) value,
    )

money_cents-trim : (raw : Str) → money_cents (trim raw) ≡ money_cents raw
unfolding money_cents trim
money_cents-trim raw = rw (trim_by_idem is_whitespace raw) refl

money_cents-parts :
    (raw : Str) (c : ℤ)
    → money_cents raw ≡ some c
    → (ltb (byte_len (trim_start is_sign (trim raw)) + 1) (byte_len (trim raw)) ≡ false)
      × ((n : ℕ) × (unsigned_cents (trim_start is_sign (trim raw)) ≡ some n)
          × (c ≡ signed (starts_with_char b'-' (trim raw)) n))
unfolding money_cents
money_cents-parts raw c h = (
  ground arith,
  (unwrap_or (unsigned_cents (trim_start is_sign (trim raw))) 0, ground arith, ground arith),
)

-- A text is read, and as some cents, exactly if without the blanks around it it spells an amount
-- of those cents: at most one sign, at least one digit, at most two decimals, and no more cents
-- than an `i64` holds. Any other text is refused.
pub money_cents_iff :
    (raw : Str) (c : ℤ)
    → (money_cents raw ≡ some c)
      ↔ ((a : Amount) × IsAmount a × (trim raw ≡ amount_text a) × (c ≡ amount_cents a))
money_cents_iff raw c = (spelled, λ h. read h.0 h.1 h.2 h.3)
  where
    spelled :
        money_cents raw ≡ some c
        → (a : Amount) × IsAmount a × (trim raw ≡ amount_text a) × (c ≡ amount_cents a)
    spelled h =
        let (one, (n, u, same)) = money_cents-parts raw c h in
        let (a, v, text, cents) = amount_of (trim raw) n one u in (a, v, text, same ∙ sym cents)

    read :
        (a : Amount)
        → IsAmount a
        → trim raw ≡ amount_text a
        → c ≡ amount_cents a
        → money_cents raw ≡ some c
    read a v text same =
        sym (money_cents-trim raw)
        ∙ ap money_cents text
        ∙ money_cents-amount_text a v
        ∙ ap some (sym same)
