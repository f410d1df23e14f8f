-- ===== src/Writer/Cell.antt =====
-- Reading back one written cell.
use hardmoney.Prelude.{
  ℕ, true, false, [], ◌∷◌, ◌++◌, none, some, ◌≡◌, refl, ◌∙◌, ap, arith, Bool-cases, inl, inr,
}
use hardmoney.Text.{Str, is_ascii_whitespace, ends_with_char, strip_suffix, keep_front}
use hardmoney.Text.Trim.{IsTrimmed, IsTrimmed-between, trim_by_of_trimmed}
use hardmoney.Field.{quote, unquoted, inner_or, normalize_field}
use hardmoney.Field.Laws.{normalize_field_of_trimmed}
use hardmoney.Writer.{is_wrapped, wire_cell}

strip_suffix-snoc : (q : ℕ) (s : Str) → strip_suffix q (s ++ q ∷ []) ≡ some s
unfolding strip_suffix
strip_suffix-snoc q [] = ground arith
strip_suffix-snoc q (a ∷ []) = ground arith
strip_suffix-snoc q (a ∷ b ∷ s) = ap (keep_front a) (strip_suffix-snoc q (b ∷ s))

unquoted_quoted : (s : Str) → unquoted (quote ∷ (s ++ quote ∷ [])) ≡ some s
unfolding unquoted
unquoted_quoted s = strip_suffix-snoc quote s

-- What is not recognised as quoted has no pair of quotes to strip.
strip_suffix-ends :
    (q c : ℕ) (s : Str) → ends_with_char q (c ∷ s) ≡ false → strip_suffix q (c ∷ s) ≡ none
unfolding strip_suffix ends_with_char
strip_suffix-ends q c [] h = ground arith
strip_suffix-ends q c (d ∷ s) h = ap (keep_front c) (strip_suffix-ends q d s h)

unquoted_bare : (s : Str) → is_wrapped s ≡ false → unquoted s ≡ none
unfolding unquoted is_wrapped
unquoted_bare [] h = refl
unquoted_bare (c ∷ []) h = ground arith
unquoted_bare (c ∷ d ∷ s) h = ground (arith, strip_suffix-ends quote d s)

quote_kept : is_ascii_whitespace quote ≡ false
unfolding is_ascii_whitespace
quote_kept = refl

wire_cell-wrapped : (v : Str) → is_wrapped v ≡ true → wire_cell v ≡ quote ∷ (v ++ quote ∷ [])
unfolding wire_cell
wire_cell-wrapped v h = rw h

wire_cell-bare : (v : Str) → is_wrapped v ≡ false → wire_cell v ≡ v
unfolding wire_cell
wire_cell-bare v h = rw h

-- A trimmed value, whatever quotes it holds, is read back from its wire form.
pub normalize_field-wire_cell :
    (v : Str) → IsTrimmed is_ascii_whitespace v → normalize_field (wire_cell v) ≡ v
normalize_field-wire_cell v h = elim (Bool-cases (is_wrapped v)) [
  | inl quoted ↦
      ap normalize_field (wire_cell-wrapped v quoted)
      ∙ normalize_field_of_trimmed _ (IsTrimmed-between is_ascii_whitespace quote v quote_kept)
      ∙ ap (inner_or _) (unquoted_quoted v)
      ∙ trim_by_of_trimmed is_ascii_whitespace v h
  | inr bare ↦
      ap normalize_field (wire_cell-bare v bare)
      ∙ normalize_field_of_trimmed v h
      ∙ ap (inner_or v) (unquoted_bare v bare)
]

-- An empty cell stays empty on the wire.
pub wire_cell-nil : wire_cell [] ≡ []
unfolding wire_cell is_wrapped
wire_cell-nil = refl
