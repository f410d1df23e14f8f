-- ===== src/Text.antt =====
-- Rust text: a `&str` is the list of its characters (code points), with the operations of `str`
-- and `char` that the program calls. The laws stand in the modules below.
pub mod Trim
pub mod Split
pub mod Number
use Prim.Native.Char.{code}
use Prim.Native.String.{String}
use hardmoney.Prelude.{
  ℕ, zero, suc, ◌+◌, ◌-◌, ◌*◌, ◌/◌, ◌%◌, ◌^◌, Bool, true, false, not, ◌&&◌, ◌||◌, List, [], ◌∷◌,
  ◌++◌, map, Option, none, some, ltb, leb, ◌==◌, if◌then◌else◌,
}
use mathlib.Core.Option
use hardmoney.Prelude.Int.{ℤ, pos, negsuc, sub_ℕ}

abbrev pub Str : Type 0
Str = List ℕ

-- The characters of a literal.
abbrev pub codes : String → Str
codes String.[] = []
codes (String.◌∷◌ c s) = code c ∷ codes s

-- `char::is_ascii_whitespace`: space, tab, line feed, form feed, carriage return.
unfoldable pub is_ascii_whitespace : ℕ → Bool
is_ascii_whitespace c = c == 32 || c == 9 || c == 10 || c == 12 || c == 13

-- `char::is_whitespace`: the Unicode property White_Space.
unfoldable pub is_whitespace : ℕ → Bool
is_whitespace c =
    (leb 9 c && leb c 13)
    || c == 32
    || c == 0x85
    || c == 0xa0
    || c == 0x1680
    || (leb 0x2000 c && leb c 0x200a)
    || c == 0x2028
    || c == 0x2029
    || c == 0x202f
    || c == 0x205f
    || c == 0x3000

unfoldable pub is_ascii_digit : ℕ → Bool
is_ascii_digit c = leb b'0' c && leb c b'9'

unfoldable pub upper : ℕ → ℕ
upper c = if leb b'a' c && leb c b'z' then c - 32 else c

unfoldable pub to_ascii_uppercase : Str → Str
unfolding upper
to_ascii_uppercase = map upper

unfoldable pub eq_str : Str → Str → Bool
eq_str [] [] = true
eq_str (x ∷ xs) (y ∷ ys) = x == y && eq_str xs ys
eq_str _ _ = false

unfoldable pub eq_ignore_ascii_case : Str → Str → Bool
unfolding eq_str to_ascii_uppercase
eq_ignore_ascii_case s t = eq_str (to_ascii_uppercase s) (to_ascii_uppercase t)

-- `str::len`: the bytes of the UTF-8 encoding.
unfoldable pub byte_len : Str → ℕ
byte_len [] = 0
byte_len (c ∷ s) =
    (if ltb c 0x80 then 1 else if ltb c 0x800 then 2 else if ltb c 0x10000 then 3 else 4)
    + byte_len s

abbrev pub is_empty : Str → Bool
is_empty [] = true
is_empty (c ∷ s) = false

-- `str::contains` of a set of characters.
unfoldable pub contains : (ℕ → Bool) → Str → Bool
contains p [] = false
contains p (c ∷ s) = p c || contains p s

unfoldable pub trim_start : (ℕ → Bool) → Str → Str
trim_start p [] = []
trim_start p (c ∷ s) = if p c then trim_start p s else c ∷ s

-- One character in front of a text whose end is trimmed.
abbrev pub trim_onto : (ℕ → Bool) → ℕ → Str → Str
trim_onto p c [] = if p c then [] else c ∷ []
trim_onto p c (d ∷ t) = c ∷ d ∷ t

unfoldable pub trim_end : (ℕ → Bool) → Str → Str
trim_end p [] = []
trim_end p (c ∷ s) = trim_onto p c (trim_end p s)

-- `str::trim_matches`.
unfoldable pub trim_by : (ℕ → Bool) → Str → Str
unfolding trim_start trim_end
trim_by p s = trim_end p (trim_start p s)

-- `str::trim`.
unfoldable pub trim : Str → Str
unfolding trim_by is_whitespace
trim = trim_by is_whitespace

-- `strip_prefix` and `strip_suffix` of one character.
unfoldable pub strip_prefix : ℕ → Str → Option Str
strip_prefix q [] = none
strip_prefix q (c ∷ s) = if c == q then some s else none

abbrev pub keep_front : ℕ → Option Str → Option Str
keep_front c none = none
keep_front c (some s) = some (c ∷ s)

unfoldable pub strip_suffix : ℕ → Str → Option Str
strip_suffix q [] = none
strip_suffix q (c ∷ []) = if c == q then some [] else none
strip_suffix q (c ∷ d ∷ s) = keep_front c (strip_suffix q (d ∷ s))

-- `starts_with` of a text, and `starts_with` and `ends_with` of one character.
unfoldable pub starts_with : Str → Str → Bool
starts_with [] s = true
starts_with (p ∷ ps) [] = false
starts_with (p ∷ ps) (c ∷ s) = c == p && starts_with ps s

unfoldable pub starts_with_char : ℕ → Str → Bool
starts_with_char q [] = false
starts_with_char q (c ∷ s) = c == q

unfoldable pub ends_with_char : ℕ → Str → Bool
ends_with_char q [] = false
ends_with_char q (c ∷ []) = c == q
ends_with_char q (c ∷ d ∷ s) = ends_with_char q (d ∷ s)

-- A character in front of the first part.
abbrev pub onto_first : ℕ → List Str → List Str
onto_first c [] = (c ∷ []) ∷ []
onto_first c (p ∷ ps) = (c ∷ p) ∷ ps

-- `str::split` at a character: always one part at least.
unfoldable pub split : ℕ → Str → List Str
split sep [] = [] ∷ []
split sep (c ∷ s) = if c == sep then [] ∷ split sep s else onto_first c (split sep s)

-- The parts with a separator between them.
unfoldable pub join : ℕ → List Str → Str
join sep [] = []
join sep (p ∷ []) = p
join sep (p ∷ q ∷ ps) = p ++ (sep ∷ join sep (q ∷ ps))

-- The text before the first separator and the text behind it.
abbrev pub onto_front : ℕ → Option (Str × Str) → Option (Str × Str)
onto_front c none = none
onto_front c (some (a, b)) = some (c ∷ a, b)

unfoldable pub split_once : ℕ → Str → Option (Str × Str)
split_once sep [] = none
split_once sep (c ∷ s) = if c == sep then some ([], s) else onto_front c (split_once sep s)

-- The value of decimal digits behind `n`.
unfoldable pub digits_value : ℕ → Str → ℕ
digits_value n [] = n
digits_value n (c ∷ s) = digits_value (n * 10 + (c - b'0')) s

unfoldable pub all_digits : Str → Bool
unfolding is_ascii_digit
all_digits [] = true
all_digits (c ∷ s) = is_ascii_digit c && all_digits s

-- Digits alone, read by `parse` at a type whose largest value is `limit`.
unfoldable pub parse_digits : ℕ → Str → Option ℕ
unfolding all_digits digits_value
parse_digits limit [] = none
parse_digits limit (c ∷ s) =
    if all_digits (c ∷ s) && leb (digits_value 0 (c ∷ s)) limit
    then some (digits_value 0 (c ∷ s))
    else none

-- `parse` at an unsigned type: one leading `+` is allowed.
unfoldable pub parse_unsigned : ℕ → Str → Option ℕ
unfolding parse_digits
parse_unsigned limit [] = none
parse_unsigned limit (c ∷ s) =
    if c == b'+' then parse_digits limit s else parse_digits limit (c ∷ s)

abbrev pub max_u8 : ℕ
max_u8 = 255

abbrev pub max_u32 : ℕ
max_u32 = 2 ^ 32 - 1

abbrev pub max_i64 : ℕ
max_i64 = 2 ^ 63 - 1

abbrev pub max_u64 : ℕ
max_u64 = 2 ^ 64 - 1

-- The decimal digits of `n` in front of `out`; each round divides by ten.
unfoldable pub show_onto : ℕ → ℕ → Str → Str
show_onto zero n out = out
show_onto (suc k) n out =
    let rest = show_onto k (n / 10) ((b'0' + n % 10) ∷ out) in
    if ltb n 10 then (b'0' + n) ∷ out else rest

-- `Display` of an unsigned number; `n + 1` rounds are enough (`show-value`).
unfoldable pub show : ℕ → Str
unfolding show_onto
show n = show_onto (suc n) n []

-- `parse` at `i64`: one leading sign is allowed, and the range reaches one further down.
unfoldable pub parse_i64 : Str → Option ℤ
unfolding parse_digits
parse_i64 [] = none
parse_i64 (c ∷ s) =
    if c == b'-'
    then Option.map (sub_ℕ 0) (parse_digits (max_i64 + 1) s)
    else Option.map pos (if c == b'+' then parse_digits max_i64 s else parse_digits max_i64 (c ∷ s))

-- `Display` of a signed number.
unfoldable pub show_ℤ : ℤ → Str
unfolding show
show_ℤ (pos n) = show n
show_ℤ (negsuc n) = b'-' ∷ show (suc n)
