-- ===== src/Text/Split.antt =====
-- `split` and `join` of a text, one after the other.
use hardmoney.Prelude.{ℕ, false, List, [], ◌∷◌, ◌++◌, ◌≡◌, refl, ◌∙◌, ap, arith, All, ◌==◌}
use mathlib.Core.List.{append-nil}
use hardmoney.Text.{Str, split, onto_first, join}

module _ (sep : ℕ) where
  -- The separator is nowhere in the text.
  abbrev pub Lacks : Str → Type 0
  Lacks [] = Unit
  Lacks (c ∷ s) = ((c == sep) ≡ false) × Lacks s

  -- A text in front of the first part.
  abbrev heads : Str → List Str → List Str
  heads s [] = s ∷ []
  heads s (p ∷ ps) = (s ++ p) ∷ ps

  onto_first-heads :
      (c : ℕ) (s : Str) (ps : List Str) → onto_first c (heads s ps) ≡ heads (c ∷ s) ps
  onto_first-heads c s [] = refl
  onto_first-heads c s (p ∷ ps) = refl

  onto_first-heads-nil : (c : ℕ) (ps : List Str) → heads [] (onto_first c ps) ≡ onto_first c ps
  onto_first-heads-nil c [] = refl
  onto_first-heads-nil c (p ∷ ps) = refl

  heads-nil : (s : Str) → split sep s ≡ heads [] (split sep s)
  unfolding split
  heads-nil [] = refl
  heads-nil (c ∷ s) = ground (arith, onto_first-heads-nil c (split sep s))

  split-append : (s rest : Str) → Lacks s → split sep (s ++ rest) ≡ heads s (split sep rest)
  unfolding split
  split-append [] rest h = heads-nil rest
  split-append (c ∷ s) rest h =
      rw h.0 (ap (onto_first c) (split-append s rest h.1) ∙ onto_first-heads c s (split sep rest))

  split-Lacks : (s : Str) → Lacks s → split sep s ≡ s ∷ []
  unfolding split
  split-Lacks [] h = refl
  split-Lacks (c ∷ s) h = rw h.0 (ap (onto_first c) (split-Lacks s h.1))

  split_at_sep : (s : Str) → split sep (sep ∷ s) ≡ [] ∷ split sep s
  unfolding split
  split_at_sep s = ground arith

  -- Splitting a join gives the parts back, if none holds the separator.
  pub split-join :
      (p : Str) (ps : List Str) → All Lacks (p ∷ ps) → split sep (join sep (p ∷ ps)) ≡ p ∷ ps
  unfolding join
  split-join p [] h = split-Lacks p h.0
  split-join p (q ∷ ps) h =
      split-append p (sep ∷ join sep (q ∷ ps)) h.0
      ∙ ap (heads p) (split_at_sep (join sep (q ∷ ps)))
      ∙ rw (split-join q ps h.1) (rw append-nil)
