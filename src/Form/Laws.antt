-- ===== src/Form/Laws.antt =====
-- src/parser/form.rs: the compiled dispatch table against the forms of `Form.Pattern`, and the case
-- of a token.
use hardmoney.Prelude.{
  true, ◌==◌, ℕ, Bool, List, [], ◌∷◌, map, Option, none, some, ◌≡◌, refl, sym, ◌∙◌, ap, arith,
  find_first, any_b, if◌then◌else◌,
}
use mathlib.Core.Option
use hardmoney.Text.{
  trim_start, trim_onto, trim_end, Str, trim, to_ascii_uppercase, upper, is_whitespace,
}
use hardmoney.Table.{Table}
use hardmoney.Form.Pattern.{
  Piece, one, opt, many, finish, fold, in_class, one_then, many_then, at_end, matches_pieces,
  Pattern, patterns, matches,
}
use hardmoney.Form.Syntax.{Regexp, read, is_match_of}
use hardmoney.Form.Engine.{RegexLaws}
use hardmoney.Form.{Regex, anchored, dispatch_order, compile, table_for_form_type}

-- The table of the first pattern that matches a token, whatever its case.
unfoldable pub first_match : List (Pattern × Table) → Str → Option Table
first_match [] s = none
first_match ((p, t) ∷ ps) s = if matches fold p s then some t else first_match ps s

unfoldable pub dispatch : Str → Option Table
dispatch s = first_match patterns (trim s)

-- The compiled texts of a dispatch table, as the syntax reads them.
unfoldable readings : List (Str × Table) → List (Option Regexp × Table)
readings [] = []
readings ((text, t) ∷ es) = (read (anchored text), t) ∷ readings es

-- Case-insensitive and anchored at the start.
abbrev expected : List (Pattern × Table) → List (Option Regexp × Table)
expected [] = []
expected ((p, t) ∷ ps) =
    (some (record { fold_case = true; at_start = true; alternatives = p }), t) ∷ expected ps

readings-dispatch_order : readings dispatch_order ≡ expected patterns
unfolding readings read anchored dispatch_order patterns
readings-dispatch_order = refl

module _ (R : Regex) (laws : RegexLaws R) where
  find-first_match :
      (es : List (Str × Table)) (ps : List (Pattern × Table)) (s : Str)
      → readings es ≡ expected ps
      → Option.map (λ d. d.1) (find_first (λ d. R.is_match d.0 s) (compile R es)) ≡ first_match ps s
  unfolding compile first_match readings is_match_of
  find-first_match [] [] s h = refl
  find-first_match [] (p ∷ ps) s h = cc
  find-first_match (e ∷ es) [] s h = cc
  find-first_match ((text, t) ∷ es) ((p, u) ∷ ps) s h =
      let re : Regexp = record { fold_case = true; at_start = true; alternatives = p } in
      let same : read (anchored text) ≡ some re = cc in
      let table : t ≡ u = cc in
      let rest : readings es ≡ expected ps = cc in
      let r = laws (anchored text) re same in
      rw (r.compiles, table) (ground (arith, r.matches_as s, find-first_match es ps s rest))

  -- If the regex crate compiles every text that its documented syntax reads, and matches as the
  -- syntax says, then a token goes to the table of the first pattern that matches it from its
  -- start without regard to case.
  pub table_for_form_type-dispatch : (s : Str) → table_for_form_type R s ≡ dispatch s
  unfolding table_for_form_type dispatch
  table_for_form_type-dispatch s =
      find-first_match dispatch_order patterns (trim s) readings-dispatch_order

fold-upper : (c : ℕ) → fold (upper c) ≡ fold c
unfolding fold
fold-upper c = ground arith

is_whitespace-upper : (c : ℕ) → is_whitespace (upper c) ≡ is_whitespace c
unfolding is_whitespace upper
is_whitespace-upper c = ground arith

any_b-fold : (cs : Str) (c d : ℕ) → fold c ≡ fold d → in_class fold cs c ≡ in_class fold cs d
any_b-fold cs c d e = ap (λ n. any_b (λ x. fold x == n) cs) e

one_then-upper :
    (cs : Str) (k : Str → Bool) (s : Str)
    → ((t : Str) → k (map upper t) ≡ k t)
    → one_then fold cs k (map upper s) ≡ one_then fold cs k s
one_then-upper cs k [] h = refl
one_then-upper cs k (c ∷ s) h = rw (any_b-fold cs (upper c) c (fold-upper c), h s) refl

many_then-upper :
    (cs : Str) (k : Str → Bool) (s : Str)
    → ((t : Str) → k (map upper t) ≡ k t)
    → many_then fold cs k (map upper s) ≡ many_then fold cs k s
many_then-upper cs k [] h = h []
many_then-upper cs k (c ∷ s) h =
    rw (any_b-fold cs (upper c) c (fold-upper c), many_then-upper cs k s h, h (c ∷ s)) refl

at_end-upper : (s : Str) → at_end (map upper s) ≡ at_end s
at_end-upper [] = refl
at_end-upper (c ∷ s) = refl

matches_pieces-upper :
    (ps : List Piece) (s : Str) → matches_pieces fold ps (map upper s) ≡ matches_pieces fold ps s
unfolding matches_pieces
matches_pieces-upper [] s = refl
matches_pieces-upper (one cs ∷ ps) s = one_then-upper cs _ s (matches_pieces-upper ps)
matches_pieces-upper (opt cs ∷ ps) s =
    rw (one_then-upper cs _ s (matches_pieces-upper ps), matches_pieces-upper ps s) refl
matches_pieces-upper (many cs ∷ ps) s = many_then-upper cs _ s (matches_pieces-upper ps)
matches_pieces-upper (finish ∷ ps) s = rw (at_end-upper s, matches_pieces-upper ps s) refl

matches-upper : (p : Pattern) (s : Str) → matches fold p (map upper s) ≡ matches fold p s
unfolding matches
matches-upper [] s = refl
matches-upper (ps ∷ p) s = rw (matches_pieces-upper ps s, matches-upper p s) refl

first_match-upper :
    (ps : List (Pattern × Table)) (s : Str) → first_match ps (map upper s) ≡ first_match ps s
unfolding first_match
first_match-upper [] s = refl
first_match-upper ((p, t) ∷ ps) s = rw (matches-upper p s, first_match-upper ps s) refl

trim_start-upper :
    (s : Str) → trim_start is_whitespace (map upper s) ≡ map upper (trim_start is_whitespace s)
unfolding trim_start
trim_start-upper [] = refl
trim_start-upper (c ∷ s) = ground (arith, is_whitespace-upper c, trim_start-upper s)

trim_onto-upper :
    (c : ℕ) (s : Str)
    → trim_onto is_whitespace (upper c) (map upper s) ≡ map upper (trim_onto is_whitespace c s)
trim_onto-upper c [] = ground (arith, is_whitespace-upper c)
trim_onto-upper c (d ∷ s) = refl

trim_end-upper :
    (s : Str) → trim_end is_whitespace (map upper s) ≡ map upper (trim_end is_whitespace s)
unfolding trim_end
trim_end-upper [] = refl
trim_end-upper (c ∷ s) =
    ap (trim_onto is_whitespace (upper c)) (trim_end-upper s)
    ∙ trim_onto-upper c (trim_end is_whitespace s)

trim-upper : (s : Str) → trim (map upper s) ≡ map upper (trim s)
unfolding trim
trim-upper s =
    ap (trim_end is_whitespace) (trim_start-upper s) ∙ trim_end-upper (trim_start is_whitespace s)

-- The case of a token does not matter.
pub dispatch-to_ascii_uppercase : (s : Str) → dispatch (to_ascii_uppercase s) ≡ dispatch s
unfolding dispatch to_ascii_uppercase
dispatch-to_ascii_uppercase s =
    ap (first_match patterns) (trim-upper s) ∙ first_match-upper patterns (trim s)

-- If the regex crate compiles every text that its documented syntax reads, and matches as the
-- syntax says, then the case of a token does not decide its table.
pub table_for_form_type-to_ascii_uppercase :
    (R : Regex)
    → RegexLaws R
    → (s : Str) → table_for_form_type R (to_ascii_uppercase s) ≡ table_for_form_type R s
table_for_form_type-to_ascii_uppercase R h s =
    table_for_form_type-dispatch R h (to_ascii_uppercase s)
    ∙ dispatch-to_ascii_uppercase s
    ∙ sym (table_for_form_type-dispatch R h s)
