-- ===== src/Stream/Ends.antt =====
-- The loops of a source, and the fuel they take.
use hardmoney.Filing.Body.{with_text, is_blank, is_marker}
use hardmoney.Stream.Pending.{source-Gives}
use hardmoney.Error.{unterminated_text_block, FecError}
use hardmoney.Prelude.Result.{err, ok, Result}
use hardmoney.Line.{ParsedLine}
use hardmoney.Text.{codes, Str}
use hardmoney.Prelude.{
  [], true, false, Bool-cases, inr, none, inl, suc, arith, some, Bool, ◌≤◌, ◌<◌, ◌≡◌, Option, ℕ,
  zero, refl,
}
use hardmoney.Stream.Source.{
  cover_block, classify-cases, next_non_blank_line, hold_first_body_line, read_text_block,
  LineSource, lines_left,
}

-- A loop returns, with a source that has no more than so many lines left.
abbrev pub Within {ℓ} : {A : Type ℓ} → ℕ → Option (A × LineSource) → Type ℓ
Within {A = A} n o = (a : A) × (src : LineSource) × (o ≡ some (a, src)) × (lines_left src ≤ n)

Within-less {ℓ} :
    {A : Type ℓ} (m n : ℕ) (o : Option (A × LineSource)) → m ≤ n → Within m o → Within n o
Within-less m n o h (a, src, e, w) = (a, src, e, omega (arith, h, w))

module _ (decode : Str → Str) where
  pub read_text_block-Within :
      (fuel : ℕ) (src : LineSource) (start : ℕ) (first : Bool) (text : Str)
      → lines_left src < fuel
      → Within (lines_left src) (read_text_block decode fuel src start first text)
  unfolding read_text_block
  read_text_block-Within zero src start first text h = absurd (omega arith)
  read_text_block-Within (suc fuel) src start first text h = elim (source-Gives decode src) [
    | inl (p, z, rest, e, k) ↦ rw e (err (unterminated_text_block start), rest, refl, omega arith)
    | inr (err f, rest, e, p, k, u) ↦ rw e (err f, rest, refl, omega arith)
    | inr (ok (n, raw), rest, e, p, k, u) ↦ elim (Bool-cases (is_marker (codes "[ENDTEXT]") raw)) [
      | inl q ↦ rw (e, q) (ok text, rest, refl, omega arith)
      | inr q ↦
          rw (e, q)
            (Within-less (lines_left rest) (lines_left src) _ (omega arith)
              (read_text_block-Within fuel rest start false _ (omega arith)))
    ]
  ]

  -- As above, and a line that comes leaves one less.
  pub next_non_blank_line-Within :
      (fuel : ℕ) (src : LineSource)
      → lines_left src < fuel
      → (a : Result FecError (Option (ℕ × Str))) × (rest : LineSource) × (next_non_blank_line decode
            fuel src
          ≡ some (a, rest))
        × (lines_left rest ≤ lines_left src)
        × ((l : ℕ × Str) → a ≡ ok (some l) → lines_left rest < lines_left src)
  unfolding next_non_blank_line
  next_non_blank_line-Within zero src h = absurd (omega arith)
  next_non_blank_line-Within (suc fuel) src h = elim (source-Gives decode src) [
    | inl (p, z, rest, e, k) ↦ rw e (ok none, rest, refl, omega arith, λ l q. absurd (cc q))
    | inr (err f, rest, e, p, k, u) ↦ rw e (err f, rest, refl, omega arith, λ l q. absurd (cc q))
    | inr (ok (n, raw), rest, e, p, k, u) ↦ elim (Bool-cases (is_blank raw)) [
      | inl q ↦
          let (a, last, g, w, s) = next_non_blank_line-Within fuel rest (omega arith) in
          rw (e, q) (a, last, g, omega (arith, w), λ l r. omega (arith, s l r))
      | inr q ↦ rw (e, q) (ok (some (n, raw)), rest, refl, omega arith, λ l r. omega arith)
    ]
  ]

  -- A text block, and what follows it.
  cover_block-Returns :
      (n : ℕ)
      (again : LineSource → ParsedLine → Option (Result FecError Bool × LineSource × ParsedLine))
      (summary : ParsedLine) (o : Option (Result FecError Str × LineSource))
      → ((src : LineSource) (p : ParsedLine)
          → lines_left src ≤ n
          → (a : Result FecError Bool × LineSource × ParsedLine) × (again src p ≡ some a))
      → Within n o
      → (a : Result FecError Bool × LineSource × ParsedLine) × (cover_block decode again summary o
          ≡ some a)
  cover_block-Returns n again summary o h (err f, last, g, w) = rw g (_, refl)
  cover_block-Returns n again summary o h (ok text, last, g, w) =
      rw g (h last (with_text text summary) w)

  pub hold_first_body_line-Returns :
      (fuel : ℕ) (src : LineSource) (summary : ParsedLine)
      → lines_left src < fuel
      → (a : Result FecError Bool × LineSource × ParsedLine) × (hold_first_body_line decode fuel src
            summary
          ≡ some a)
  unfolding hold_first_body_line
  hold_first_body_line-Returns zero src summary h = absurd (omega arith)
  hold_first_body_line-Returns (suc fuel) src summary h = elim (source-Gives decode src) [
    | inl (p, z, rest, e, k) ↦ rw e (_, refl)
    | inr (err f, rest, e, p, k, u) ↦ rw e (_, refl)
    | inr (ok (n, raw), rest, e, p, k, u) ↦ elim (classify-cases raw) [
      | inl (c, q) ↦ rw (e, c) (hold_first_body_line-Returns fuel rest summary (omega arith))
      | inr (inl (c, q, m)) ↦
          rw (e, c)
            (cover_block-Returns (lines_left rest) _ summary _
              (λ last p w. hold_first_body_line-Returns fuel last p (omega (arith, w)))
              (read_text_block-Within (suc (lines_left rest)) rest n true [] (omega arith)))
      | inr (inr (c, q, m)) ↦ rw (e, c) (_, refl)
    ]
  ]
