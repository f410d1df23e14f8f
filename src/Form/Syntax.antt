-- ===== src/Form/Syntax.antt =====
-- The regex crate's documented syntax, as far as the dispatch table writes it, read from its text:
-- `(?i)`, `^`, and one group of alternatives made of ASCII letters and digits, classes of them,
-- the suffixes `?` and `*`, and `$`. Any other text is not read, and nothing is said of it.
use hardmoney.Prelude.{
  ℕ, Bool, true, false, ◌&&◌, ◌||◌, List, [], ◌∷◌, ◌++◌, Option, none, some, ◌==◌, leb, length,
  if◌then◌else◌,
}
use mathlib.Core.Option
use hardmoney.Text.{Str, codes}
use hardmoney.Form.Pattern.{Piece, one, opt, many, finish, Pattern, fold, matches}

pub record Regexp : Type 0 where
  pub fold_case : Bool
  pub at_start : Bool
  pub alternatives : Pattern

-- A group being read: the alternatives before, the pieces of this one, and the character or class
-- that a suffix would still bind to.
pub record Group : Type 0 where
  pub before : Pattern
  pub pieces : List Piece
  pub last : Option Str

pub data Reading : Type 0 where
  outside : Group → Reading
  in_brackets : Group → Str → Reading
  closed : Pattern → Reading
  refused : Reading

abbrev is_alphanumeric : ℕ → Bool
is_alphanumeric c =
    (leb b'0' c && leb c b'9') || (leb b'A' c && leb c b'Z') || (leb b'a' c && leb c b'z')

abbrev with_last : List Piece → Option Str → List Piece
with_last ps none = ps
with_last ps (some cs) = ps ++ one cs ∷ []

abbrev all_pieces : Group → List Piece
all_pieces g = with_last g.pieces g.last

abbrev all_alternatives : Group → Pattern
all_alternatives g = g.before ++ all_pieces g ∷ []

abbrev suffixed : Group → Option Str → (Str → Piece) → Reading
suffixed g none suffix = refused
suffixed g (some cs) suffix =
    outside (record g { pieces = g.pieces ++ suffix cs ∷ []; last = none })

abbrev close_class : Group → Str → Reading
close_class g [] = refused
close_class g (d ∷ ds) = outside (record g { last = some (d ∷ ds) })

abbrev read_outside : Group → ℕ → Reading
read_outside g c =
    if c == b')'
    then closed (all_alternatives g)
    else if c == b'|'
    then outside (record { before = all_alternatives g; pieces = []; last = none })
    else if c == b'['
    then in_brackets (record g { pieces = all_pieces g; last = none }) []
    else if c == b'?'
    then suffixed g g.last opt
    else if c == b'*'
    then suffixed g g.last many
    else if c == b'$'
    then outside (record g { pieces = all_pieces g ++ finish ∷ []; last = none })
    else if is_alphanumeric c
    then outside (record g { pieces = all_pieces g; last = some (c ∷ []) })
    else refused

abbrev read_class : Group → Str → ℕ → Reading
read_class g cs c =
    if c == b']'
    then close_class g cs
    else if is_alphanumeric c
    then in_brackets g (cs ++ c ∷ [])
    else refused

abbrev read_char : Reading → ℕ → Reading
read_char (outside g) c = read_outside g c
read_char (in_brackets g cs) c = read_class g cs c
read_char (closed p) c = refused
read_char refused c = refused

unfoldable read_group : Reading → Str → Reading
read_group r [] = r
read_group r (c ∷ s) = read_group (read_char r c) s

abbrev finished : Reading → Option Pattern
finished (closed p) = some p
finished r = none

-- The text behind a prefix.
unfoldable after : Str → Str → Option Str
after [] s = some s
after (c ∷ p) [] = none
after (c ∷ p) (d ∷ s) = if c == d then after p s else none

-- The group `(?:...)` up to the end of the text.
abbrev group : Option Str → Option Pattern
group none = none
group (some s) =
    finished (read_group (outside (record { before = []; pieces = []; last = none })) s)

abbrev read_rest : Bool → Bool → Str → Option Regexp
read_rest fold_case at_start s =
    Option.map (λ p. record { fold_case = fold_case; at_start = at_start; alternatives = p })
      (group (after (codes "(?:") s))

abbrev read_anchor : Bool → Str → Option Str → Option Regexp
read_anchor fold_case s none = read_rest fold_case false s
read_anchor fold_case s (some rest) = read_rest fold_case true rest

abbrev read_flag : Str → Option Str → Option Regexp
read_flag s none = read_anchor false s (after (codes "^") s)
read_flag s (some rest) = read_anchor true rest (after (codes "^") rest)

-- Longer texts are not read: the crate limits the size of what it compiles.
abbrev max_text : ℕ
max_text = 64

unfoldable pub read : Str → Option Regexp
unfolding read_group after
read text = if leb (length text) max_text then read_flag text (after (codes "(?i)") text) else none

-- A match begins at the start of the text, or anywhere in it.
abbrev search : (Str → Bool) → Str → Bool
search k [] = k []
search k (c ∷ s) = k (c ∷ s) || search k s

abbrev same_char : ℕ → ℕ
same_char c = c

abbrev folding : Bool → ℕ → ℕ
folding true = fold
folding false = same_char

abbrev from_start : Bool → (Str → Bool) → Str → Bool
from_start true k = k
from_start false k = search k

-- Whether a regular expression matches a text.
unfoldable pub is_match_of : Regexp → Str → Bool
is_match_of re = from_start re.at_start (matches (folding re.fold_case) re.alternatives)
