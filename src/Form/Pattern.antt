-- ===== src/Form/Pattern.antt =====
-- Regular expressions as data: a character or a class, `?`, `*`, `$` and `|`, and what they match;
-- and the forms of src/parser/form.rs, in the order of its table, written in this way.
use hardmoney.Prelude.{ℕ, Bool, true, false, ◌&&◌, ◌||◌, List, [], ◌∷◌, ◌==◌, if◌then◌else◌, any_b}
use hardmoney.Text.{Str, codes, upper}
use hardmoney.Table.{
  Table, f1, f10, f105, f13, f132, f133, f1m, f1s, f2, f24, f2s, f3, f3l, f3p, f3p31, f3ps, f3pz1,
  f3pz2, f3s, f3x, f3z, f3z1, f3z2, f4, f5, f56, f57, f6, f65, f7, f76, f8, f82, f83, f9, f91, f92,
  f93, f94, f99, h1, h2, h3, h4, h5, h6, sch_a, sch_a3l, sch_b, sch_c, sch_c1, sch_c2, sch_d, sch_e,
  sch_f, sch_i, sch_l, text,
}

pub data Piece : Type 0 where
  one : Str → Piece
  opt : Str → Piece
  many : Str → Piece
  finish : Piece

-- Simple case folding, as far as it reaches ASCII letters: also the long s and the Kelvin sign.
unfoldable pub fold : ℕ → ℕ
unfolding upper
fold c = if c == 0x17f then b'S' else if c == 0x212a then b'K' else upper c

-- A class holds the characters that `key`, the case folding or none, does not tell from its own.
abbrev pub in_class : (ℕ → ℕ) → Str → ℕ → Bool
in_class key cs c = any_b (λ d. key d == key c) cs

-- `many_then key cs k s`: some characters of the class, then `k`.
abbrev pub many_then : (ℕ → ℕ) → Str → (Str → Bool) → Str → Bool
many_then key cs k [] = k []
many_then key cs k (c ∷ s) = k (c ∷ s) || (in_class key cs c && many_then key cs k s)

abbrev pub one_then : (ℕ → ℕ) → Str → (Str → Bool) → Str → Bool
one_then key cs k [] = false
one_then key cs k (c ∷ s) = in_class key cs c && k s

abbrev pub at_end : Str → Bool
at_end [] = true
at_end (c ∷ s) = false

-- The pieces match a prefix of the text.
unfoldable pub matches_pieces : (ℕ → ℕ) → List Piece → Str → Bool
matches_pieces key [] s = true
matches_pieces key (one cs ∷ ps) s = one_then key cs (matches_pieces key ps) s
matches_pieces key (opt cs ∷ ps) s =
    one_then key cs (matches_pieces key ps) s || matches_pieces key ps s
matches_pieces key (many cs ∷ ps) s = many_then key cs (matches_pieces key ps) s
matches_pieces key (finish ∷ ps) s = at_end s && matches_pieces key ps s

abbrev pub Pattern : Type 0
Pattern = List (List Piece)

-- One of the alternatives matches.
unfoldable pub matches : (ℕ → ℕ) → Pattern → Str → Bool
unfolding matches_pieces
matches key p s = any_b (λ ps. matches_pieces key ps s) p

abbrev pub literal : Str → List Piece → List Piece
literal [] rest = rest
literal (c ∷ s) rest = one (c ∷ []) ∷ literal s rest

-- What a token of each table looks like, case aside; written by hand, not from the texts of
-- `dispatch_order`.
unfoldable pub patterns : List (Pattern × Table)
patterns =
    (literal (codes "SA3L") [] ∷ [], sch_a3l)
    ∷ (literal (codes "SA") [] ∷ [], sch_a)
    ∷ (literal (codes "SB") [] ∷ [], sch_b)
    ∷ (literal (codes "SC1") [] ∷ [], sch_c1)
    ∷ (literal (codes "SC2") [] ∷ [], sch_c2)
    ∷ (literal (codes "SC") [] ∷ [], sch_c)
    ∷ (literal (codes "SD") [] ∷ [], sch_d)
    ∷ (literal (codes "SE") [] ∷ [], sch_e)
    ∷ (literal (codes "SF") [] ∷ [], sch_f)
    ∷ (literal (codes "SI") [] ∷ [], sch_i)
    ∷ (literal (codes "F3X") (one (codes "ANT") ∷ []) ∷ [], f3x)
    ∷ (literal (codes "F3P31") [] ∷ [], f3p31)
    ∷ (literal (codes "F3PZ1") [] ∷ [], f3pz1)
    ∷ (literal (codes "F3PZ2") [] ∷ [], f3pz2)
    ∷ (literal (codes "F3P") (one (codes "ANT") ∷ []) ∷ [], f3p)
    ∷ (literal (codes "F3S") [] ∷ [], f3s)
    ∷ (literal (codes "F3Z1") [] ∷ [], f3z1)
    ∷ (literal (codes "F3Z2") [] ∷ [], f3z2)
    ∷ (literal (codes "F3Z") (opt (codes "T") ∷ finish ∷ []) ∷ [], f3z)
    ∷ (literal (codes "F3") (one (codes "ANT") ∷ finish ∷ []) ∷ [], f3)
    ∷ (literal (codes "F91") [] ∷ [], f91)
    ∷ (literal (codes "F92") [] ∷ [], f92)
    ∷ (literal (codes "F93") [] ∷ [], f93)
    ∷ (literal (codes "F94") [] ∷ [], f94)
    ∷ (literal (codes "F99") [] ∷ [], f99)
    ∷ (literal (codes "F9") [] ∷ [], f9)
    ∷ (literal (codes "F6") (many (codes "AN") ∷ finish ∷ []) ∷ [], f6)
    ∷ (literal (codes "F65") [] ∷ [], f65)
    ∷ (literal (codes "F57") [] ∷ [], f57)
    ∷ (literal (codes "F56") [] ∷ [], f56)
    ∷ (literal (codes "F5") [] ∷ [], f5)
    ∷ (literal (codes "TEXT") [] ∷ [], text)
    ∷ (literal (codes "F24") [] ∷ [], f24)
    ∷ (literal (codes "H1") [] ∷ [], h1)
    ∷ (literal (codes "H2") [] ∷ [], h2)
    ∷ (literal (codes "H3") [] ∷ [], h3)
    ∷ (literal (codes "H4") [] ∷ [], h4)
    ∷ (literal (codes "H5") [] ∷ [], h5)
    ∷ (literal (codes "H6") [] ∷ [], h6)
    ∷ (literal (codes "SL") [] ∷ [], sch_l)
    ∷ (literal (codes "F3PS") [] ∷ [], f3ps)
    ∷ (literal (codes "F76") (finish ∷ []) ∷ [], f76)
    ∷ (literal (codes "F7") (one (codes "AN") ∷ finish ∷ []) ∷ [], f7)
    ∷ (literal (codes "F4") (one (codes "ANT") ∷ []) ∷ [], f4)
    ∷ (literal (codes "F3L") (one (codes "AN") ∷ []) ∷ [], f3l)
    ∷ (literal (codes "F13") (one (codes "AN") ∷ finish ∷ []) ∷ [], f13)
    ∷ (literal (codes "F132") [] ∷ [], f132)
    ∷ (literal (codes "F133") [] ∷ [], f133)
    ∷ (literal (codes "F1S") [] ∷ [], f1s)
    ∷ (literal (codes "F1M") (opt (codes "AN") ∷ finish ∷ []) ∷ [], f1m)
    ∷ (literal (codes "F1") (one (codes "AN") ∷ finish ∷ []) ∷ [], f1)
    ∷ (literal (codes "F2S") (finish ∷ []) ∷ [], f2s)
    ∷ (literal (codes "F2") (opt (codes "AN") ∷ finish ∷ []) ∷ [], f2)
    ∷ (literal (codes "F8II") (finish ∷ []) ∷ literal (codes "F82") (finish ∷ []) ∷ [], f82)
    ∷ (literal (codes "F8III") (finish ∷ []) ∷ literal (codes "F83") (finish ∷ []) ∷ [], f83)
    ∷ (literal (codes "F8") (opt (codes "AN") ∷ finish ∷ []) ∷ [], f8)
    ∷ (literal (codes "F105") (finish ∷ []) ∷ [], f105)
    ∷ (literal (codes "F10") (opt (codes "AN") ∷ finish ∷ []) ∷ [], f10)
    ∷ []
