-- ===== src/Text/Trim.antt =====
-- Trimming, and the texts whose two ends are clean.
use hardmoney.Prelude.{all_b, ℕ, Bool, true, false, not, [], ◌∷◌, ◌++◌, ◌≡◌, refl, ◌∙◌, ap, arith}
use hardmoney.Text.{Str, trim_start, trim_onto, trim_end, trim_by}

module _ (p : ℕ → Bool) where
  abbrev pub starts_clean : Str → Bool
  starts_clean [] = true
  starts_clean (c ∷ s) = not (p c)

  abbrev pub ends_clean : Str → Bool
  ends_clean [] = true
  ends_clean (c ∷ []) = not (p c)
  ends_clean (c ∷ d ∷ s) = ends_clean (d ∷ s)

  -- Neither end holds a character that is trimmed.
  pub record IsTrimmed (s : Str) : Type 0 where
    pub starts : starts_clean s ≡ true
    pub ends : ends_clean s ≡ true

  trim_start-starts_clean : (s : Str) → starts_clean (trim_start p s) ≡ true
  unfolding trim_start
  trim_start-starts_clean [] = refl
  trim_start-starts_clean (c ∷ s) = ground (arith, trim_start-starts_clean s)

  trim_start_of_clean : (s : Str) → starts_clean s ≡ true → trim_start p s ≡ s
  unfolding trim_start
  trim_start_of_clean [] h = refl
  trim_start_of_clean (c ∷ s) h = ground arith

  trim_onto-ends_clean :
      (c : ℕ) (s : Str) → ends_clean s ≡ true → ends_clean (trim_onto p c s) ≡ true
  trim_onto-ends_clean c [] h = ground arith
  trim_onto-ends_clean c (d ∷ s) h = h

  trim_end-ends_clean : (s : Str) → ends_clean (trim_end p s) ≡ true
  unfolding trim_end
  trim_end-ends_clean [] = refl
  trim_end-ends_clean (c ∷ s) = trim_onto-ends_clean c (trim_end p s) (trim_end-ends_clean s)

  trim_onto-starts_clean : (c : ℕ) (s : Str) → p c ≡ false → starts_clean (trim_onto p c s) ≡ true
  trim_onto-starts_clean c [] h = ground arith
  trim_onto-starts_clean c (d ∷ s) h = ground arith

  trim_end-starts_clean : (s : Str) → starts_clean s ≡ true → starts_clean (trim_end p s) ≡ true
  unfolding trim_end
  trim_end-starts_clean [] h = refl
  trim_end-starts_clean (c ∷ s) h = trim_onto-starts_clean c (trim_end p s) (ground arith)

  trim_end_of_clean : (s : Str) → ends_clean s ≡ true → trim_end p s ≡ s
  unfolding trim_end
  trim_end_of_clean [] h = refl
  trim_end_of_clean (c ∷ []) h = ground arith
  trim_end_of_clean (c ∷ d ∷ s) h = ap (trim_onto p c) (trim_end_of_clean (d ∷ s) h)

  pub trim_by-IsTrimmed : (s : Str) → IsTrimmed (trim_by p s)
  unfolding trim_by
  trim_by-IsTrimmed s = record {
    starts = trim_end-starts_clean (trim_start p s) (trim_start-starts_clean s);
    ends = trim_end-ends_clean (trim_start p s);
  }

  pub trim_by_of_trimmed : (s : Str) → IsTrimmed s → trim_by p s ≡ s
  unfolding trim_by
  trim_by_of_trimmed s h =
      ap (trim_end p) (trim_start_of_clean s h.starts) ∙ trim_end_of_clean s h.ends

  pub trim_by_idem : (s : Str) → trim_by p (trim_by p s) ≡ trim_by p s
  trim_by_idem s = trim_by_of_trimmed (trim_by p s) (trim_by-IsTrimmed s)

  ends_clean-snoc : (s : Str) (c : ℕ) → p c ≡ false → ends_clean (s ++ c ∷ []) ≡ true
  ends_clean-snoc [] c h = ground arith
  ends_clean-snoc (a ∷ []) c h = ground arith
  ends_clean-snoc (a ∷ b ∷ s) c h = ends_clean-snoc (b ∷ s) c h

  -- A text between two characters that are not trimmed is trimmed.
  pub IsTrimmed-between : (q : ℕ) (s : Str) → p q ≡ false → IsTrimmed (q ∷ (s ++ q ∷ []))
  IsTrimmed-between q s h = record { starts = ground arith; ends = ends_clean-snoc (q ∷ s) q h }

  all_kept-ends_clean : (s : Str) → all_b (λ c. not (p c)) s ≡ true → ends_clean s ≡ true
  all_kept-ends_clean [] h = refl
  all_kept-ends_clean (c ∷ []) h = ground arith
  all_kept-ends_clean (c ∷ d ∷ s) h = all_kept-ends_clean (d ∷ s) (ground arith)

  all_kept-starts_clean : (s : Str) → all_b (λ c. not (p c)) s ≡ true → starts_clean s ≡ true
  all_kept-starts_clean [] h = refl
  all_kept-starts_clean (c ∷ s) h = ground arith

  -- A text with nothing to trim anywhere is trimmed.
  pub trim_by_of_kept : (s : Str) → all_b (λ c. not (p c)) s ≡ true → trim_by p s ≡ s
  trim_by_of_kept s h =
      trim_by_of_trimmed s
        (record { starts = all_kept-starts_clean s h; ends = all_kept-ends_clean s h })
