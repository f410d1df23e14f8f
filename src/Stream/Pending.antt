-- ===== src/Stream/Pending.antt =====
-- The lines that a source will give, as a list, and how `next_line` takes the first of them.
use hardmoney.Error.{FecError}
use hardmoney.Prelude.Result.{err, ok, Result}
use hardmoney.Text.{Str}
use hardmoney.Prelude.{arith, refl, inl, inr, ◌⊎◌, none, suc, some, [], ◌∷◌, ℕ, Option, ◌≡◌, List}
use hardmoney.Stream.Source.{Reads, LineSource, next_line, text_of, lines_left}

-- A line, with its number, or the failure of the read.
abbrev pub Lines : Type 0
Lines = List (Result FecError (ℕ × Str))

module _ (decode : Str → Str) where
  unfoldable pub decoded : ℕ → Reads → Lines
  unfolding text_of
  decoded n [] = []
  decoded n (err e ∷ rest) = err e ∷ decoded n rest
  decoded n (ok bytes ∷ rest) = ok (suc n, text_of decode (suc n) bytes) ∷ decoded (suc n) rest

  abbrev onto_held : Option (ℕ × Str) → Lines → Lines
  onto_held none ls = ls
  onto_held (some l) ls = ok l ∷ ls

  unfoldable pub pending : LineSource → Lines
  unfolding decoded
  pending src = onto_held src.held (decoded src.line_no src.reader)

  abbrev pub present : Result FecError (ℕ × Str) → Result FecError (Option (ℕ × Str))
  present (err e) = err e
  present (ok l) = ok (some l)

  -- Either nothing is left, or the first line comes and the rest stays.
  abbrev pub Gives : LineSource → Type 0
  Gives src =
      ((pending src ≡ [])
        × (lines_left src ≡ 0)
        × (rest : LineSource) × (next_line decode src ≡ (ok none, rest))
        × (lines_left rest ≡ 0))
      ⊎ ((l : Result FecError (ℕ × Str)) × (rest : LineSource) × (next_line decode src
            ≡ (present l, rest))
          × (pending src ≡ l ∷ pending rest)
          × (lines_left src ≡ suc (lines_left rest))
          × (rest.held ≡ none))

  abbrev source_of : Option (ℕ × Str) → Reads → ℕ → LineSource
  source_of held reader n = record { reader = reader; line_no = n; held = held }

  fields-Gives :
      (held : Option (ℕ × Str)) (reader : Reads) (n : ℕ) → Gives (source_of held reader n)
  unfolding next_line pending decoded
  fields-Gives (some l) r n = inr (ok l, source_of none r n, refl, refl, omega arith, refl)
  fields-Gives none [] n = inl (refl, refl, source_of none [] n, refl, refl)
  fields-Gives none (err e ∷ r) n = inr (err e, source_of none r n, refl, refl, omega arith, refl)
  fields-Gives none (ok bytes ∷ r) n = inr (
    ok (suc n, text_of decode (suc n) bytes),
    source_of none r (suc n),
    refl,
    refl,
    omega arith,
    refl,
  )

  pub source-Gives : (src : LineSource) → Gives src
  source-Gives src = fields-Gives src.held src.reader src.line_no
