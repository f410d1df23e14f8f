-- ===== src/Version/RoundTrip.antt =====
-- src/parser/schema.rs: the text of a version, written and read.
use hardmoney.Prelude.{
  if◌then◌else◌, ℕ, List, Bool, Option, not, all_b, all_b-append, ◌≤◌, true, false, [], ◌∷◌, ◌++◌,
  some, none, ◌≡◌, ◌≢◌, refl, ◌∙◌, ap, arith, Bool-cases, inl, inr,
}
use hardmoney.Prelude.Result.{ok, ok_or}
use hardmoney.Text.{Str, all_digits, trim, split, join, show, is_whitespace, is_ascii_digit, max_u8}
use hardmoney.Text.Trim.{trim_by_of_kept}
use hardmoney.Text.Split.{Lacks, split-join}
use hardmoney.Text.Number.{
  parse_digits-le, show-all_digits, show-ne-nil, all_digits-kept, all_digits-Lacks,
  parse_digits-show,
}
use hardmoney.Version.{
  SpecVersion, InvalidSpecVersion, invalid, from_str, to_string, is_number, parse_parts,
  parse_minor, first_digit, strip_paper,
}

-- The fields fit their bytes, and the minor component is the one digit that is significant.
pub record IsValid (v : SpecVersion) : Type 0 where
  pub major_fits : v.major ≤ 255
  pub minor_digit : v.minor ≤ 9

first_digit-le : (s : Str) (d : ℕ) → is_number s ≡ true → first_digit s ≡ some d → d ≤ 9
unfolding all_digits
first_digit-le [] d n h = cc
first_digit-le (c ∷ s) d n h = ground arith

ok_or-eq-ok {ℓ} :
    {A : Type ℓ} (o : Option A) (e : InvalidSpecVersion) (a : A) → ok_or o e ≡ ok a → o ≡ some a
ok_or-eq-ok none e a h = cc
ok_or-eq-ok (some b) e a h = cc

parse_minor-le :
    (e : InvalidSpecVersion) (parts : List Str) (m : ℕ) → parse_minor e parts ≡ ok m → m ≤ 9
parse_minor-le e [] m h = ground arith
parse_minor-le e (s ∷ extras) m h =
    ground (arith, ok_or-eq-ok (first_digit s) e m, first_digit-le s m)

parse_parts-IsValid :
    (e : InvalidSpecVersion) (paper : Bool) (parts : List Str) (v : SpecVersion)
    → parse_parts e paper parts ≡ ok v
    → IsValid v
parse_parts-IsValid e paper [] v h = absurd (cc)
parse_parts-IsValid e paper (s ∷ rest) v h = record {
  major_fits = grind (arith, ok_or-eq-ok, parse_digits-le);
  minor_digit = grind (arith, parse_minor-le);
}

-- A version that is read from a text has a major number of one byte and a minor number of one
-- digit.
pub from_str-IsValid : (s : Str) (v : SpecVersion) → from_str s ≡ ok v → IsValid v
unfolding from_str
from_str-IsValid s v h =
    let (paper, rest) = strip_paper (trim s) in
    parse_parts-IsValid (invalid s) paper (split b'.' rest) v h

dot_not_digit : is_ascii_digit b'.' ≡ false
unfolding is_ascii_digit
dot_not_digit = refl

digits_lack_dot : (n : ℕ) → Lacks b'.' (show n)
digits_lack_dot n = all_digits-Lacks b'.' (show n) dot_not_digit (show-all_digits n)

numbers : SpecVersion → Str
numbers v = show v.major ++ (b'.' ∷ show v.minor)

split-numbers : (v : SpecVersion) → split b'.' (numbers v) ≡ show v.major ∷ show v.minor ∷ []
unfolding numbers
split-numbers v =
    unfold join in
    split-join b'.' (show v.major) (show v.minor ∷ [])
      (digits_lack_dot v.major, (digits_lack_dot v.minor, tt))

is_number_of_digits : (s : Str) → s ≢ [] → all_digits s ≡ true → is_number s ≡ true
is_number_of_digits [] h _ = absurd (h refl)
is_number_of_digits (c ∷ s) _ d = d

is_number-show : (n : ℕ) → is_number (show n) ≡ true
is_number-show n = is_number_of_digits (show n) (show-ne-nil n) (show-all_digits n)

first_digit-show : (n : ℕ) → n ≤ 9 → first_digit (show n) ≡ some n
unfolding show
first_digit-show n h = ground arith

parse_parts-show :
    (e : InvalidSpecVersion) (v : SpecVersion)
    → IsValid v
    → parse_parts e v.paper (show v.major ∷ show v.minor ∷ []) ≡ ok v
parse_parts-show e v h = rw (
  is_number-show v.major,
  is_number-show v.minor,
  parse_digits-show max_u8 v.major h.major_fits,
  first_digit-show v.minor h.minor_digit,
)

kept_numbers : (v : SpecVersion) → all_b (λ c. not (is_whitespace c)) (numbers v) ≡ true
unfolding numbers
kept_numbers v =
    all_b-append _ (show v.major) (b'.' ∷ show v.minor)
      (all_digits-kept (show v.major) (show-all_digits v.major))
      (unfold is_whitespace in all_digits-kept (show v.minor) (show-all_digits v.minor))

strip_paper_of_digits :
    (s rest : Str) → s ≢ [] → all_digits s ≡ true → strip_paper (s ++ rest) ≡ (false, s ++ rest)
unfolding all_digits
strip_paper_of_digits [] rest h _ = absurd (h refl)
strip_paper_of_digits (c ∷ s) rest _ d = ground arith

strip_paper-to_string : (v : SpecVersion) → strip_paper (to_string v) ≡ (v.paper, numbers v)
unfolding numbers to_string
strip_paper-to_string v = elim (Bool-cases v.paper) [
  | inl p ↦ rw (p, to_string) refl
  | inr e ↦
      rw (e, to_string)
        (strip_paper_of_digits (show v.major) _ (show-ne-nil v.major) (show-all_digits v.major))
]

kept_paper :
    (paper : Bool) → all_b (λ c. not (is_whitespace c)) (if paper then b'P' ∷ [] else []) ≡ true
unfolding is_whitespace
kept_paper true = refl
kept_paper false = refl

trim-to_string : (v : SpecVersion) → trim (to_string v) ≡ to_string v
unfolding trim to_string numbers
trim-to_string v = trim_by_of_kept is_whitespace _ (
    all_b-append _ (if v.paper then b'P' ∷ [] else []) (numbers v) (kept_paper v.paper)
      (kept_numbers v))

from_str_steps :
    (s : Str) (paper : Bool) (rest : Str) (parts : List Str)
    → strip_paper (trim s) ≡ (paper, rest)
    → split b'.' rest ≡ parts
    → from_str s ≡ parse_parts (invalid s) paper parts
unfolding from_str
from_str_steps s paper rest parts e f =
    ap (λ (t : Bool × Str). parse_parts (invalid s) t.0 (split b'.' t.1)) e
    ∙ ap (parse_parts (invalid s) paper) f

-- A version, paper or electronic, with a major number of one byte and a minor number of one digit
-- is read back from its text.
pub from_str-to_string : (v : SpecVersion) → IsValid v → from_str (to_string v) ≡ ok v
from_str-to_string v h =
    from_str_steps (to_string v) v.paper (numbers v) (show v.major ∷ show v.minor ∷ [])
      (ap strip_paper (trim-to_string v) ∙ strip_paper-to_string v) (split-numbers v)
    ∙ parse_parts-show (invalid (to_string v)) v h
