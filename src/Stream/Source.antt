-- ===== src/Stream/Source.antt =====
-- `LineSource`: the physical lines of the input, counted, with one line that may be held back.
-- A reader is what its reads will give: each the bytes up to a newline, that included, or a failure.
-- The decoding of a line's bytes is the encoding crate's, a parameter.
use hardmoney.Prelude.{
  inr, inl, Bool-cases, ◌⊎◌, ◌≡◌, refl, zero, ◌∷◌, ◌++◌, [], true, length, false, ◌+◌, suc, some,
  ◌==◌, is_some, if◌then◌else◌, Option, Bool, unwrap_or, ℕ, none, List,
}
use hardmoney.Filing.Body.{drop_returns, is_blank, with_text, is_marker}
use hardmoney.Error.{unterminated_text_block, FecError}
use hardmoney.Prelude.Result.{ok, err, Result}
use hardmoney.Line.{ParsedLine, set}
use hardmoney.Text.{starts_with, codes, trim_end, strip_suffix, eq_ignore_ascii_case, trim, Str}

abbrev pub Reads : Type 0
Reads = List (Result FecError Str)

pub record LineSource : Type 0 where
  pub reader : Reads
  pub line_no : ℕ
  pub held : Option (ℕ × Str)

abbrev pub new : Reads → LineSource
new reader = record { reader = reader; line_no = 0; held = none }

abbrev behind_three : Str → Str
behind_three (a ∷ b ∷ c ∷ rest) = rest
behind_three bytes = []

unfoldable strip_byte_order_mark : Str → Str
unfolding starts_with
strip_byte_order_mark bytes =
    if starts_with (0xef ∷ 0xbb ∷ 0xbf ∷ []) bytes then behind_three bytes else bytes

abbrev pub strip_terminator : Str → Str
strip_terminator bytes =
    let line = unwrap_or (strip_suffix 10 bytes) bytes in unwrap_or (strip_suffix 13 line) line

pub data LineKind : Type 0 where
  blank begin_text data_record : LineKind

unfoldable pub classify : Str → LineKind
unfolding trim eq_ignore_ascii_case
classify raw =
    if is_blank raw
    then blank
    else if is_marker (codes "[BEGINTEXT]") raw
    then begin_text
    else data_record

-- The kinds of a line, by its tests.
pub classify-cases :
    (raw : Str)
    → ((classify raw ≡ blank) × (is_blank raw ≡ true))
      ⊎ (((classify raw ≡ begin_text)
            × (is_blank raw ≡ false)
            × (is_marker (codes "[BEGINTEXT]") raw ≡ true))
          ⊎ ((classify raw ≡ data_record)
              × (is_blank raw ≡ false)
              × (is_marker (codes "[BEGINTEXT]") raw ≡ false)))
unfolding classify
classify-cases raw = elim (Bool-cases (is_blank raw)) [
  | inl q ↦ rw q (inl (refl, refl))
  | inr q ↦ elim (Bool-cases (is_marker (codes "[BEGINTEXT]") raw)) [
    | inl m ↦ rw (q, m) (inr (inl (refl, refl, refl)))
    | inr m ↦ rw (q, m) (inr (inr (refl, refl, refl)))
  ]
]

-- How many lines a source has left, a held one included.
abbrev pub lines_left : LineSource → ℕ
lines_left src = (if is_some src.held then 1 else 0) + length src.reader

module _ (decode : Str → Str) where
  -- The text of a line. Only the first may begin with the byte order mark.
  unfoldable pub text_of : ℕ → Str → Str
  unfolding strip_byte_order_mark strip_suffix
  text_of n bytes =
      let line = strip_terminator bytes in
      decode (if n == 1 then strip_byte_order_mark line else line)

  -- Numbered without a bound; an input has fewer lines than a `u64` holds.
  abbrev pub read_line : Reads → ℕ → Result FecError (Option (ℕ × Str)) × LineSource
  read_line [] n = (ok none, record { reader = []; line_no = n; held = none })
  read_line (err e ∷ rest) n = (err e, record { reader = rest; line_no = n; held = none })
  read_line (ok bytes ∷ rest) n = (
    ok (some (suc n, text_of (suc n) bytes)),
    record { reader = rest; line_no = suc n; held = none },
  )

  abbrev pub take_held :
      Option (ℕ × Str) → LineSource → Result FecError (Option (ℕ × Str)) × LineSource
  take_held none src = read_line src.reader src.line_no
  take_held (some l) src = (ok (some l), record src { held = none })

  unfoldable pub next_line : LineSource → Result FecError (Option (ℕ × Str)) × LineSource
  unfolding text_of
  next_line src = take_held src.held src

  abbrev pub unless_blank :
      (LineSource → Option (Result FecError (Option (ℕ × Str)) × LineSource))
      → ℕ × Str
      → LineSource
      → Bool
      → Option (Result FecError (Option (ℕ × Str)) × LineSource)
  unless_blank again l src true = again src
  unless_blank again l src false = some (ok (some l), src)

  -- What a line does in the loop of `next_non_blank_line`.
  abbrev pub if_non_blank :
      (LineSource → Option (Result FecError (Option (ℕ × Str)) × LineSource))
      → Result FecError (Option (ℕ × Str)) × LineSource
      → Option (Result FecError (Option (ℕ × Str)) × LineSource)
  if_non_blank again (err e, src) = some (err e, src)
  if_non_blank again (ok none, src) = some (ok none, src)
  if_non_blank again (ok (some (n, raw)), src) = unless_blank again (n, raw) src (is_blank raw)

  unfoldable pub next_non_blank_line :
      ℕ → LineSource → Option (Result FecError (Option (ℕ × Str)) × LineSource)
  unfolding next_line trim
  next_non_blank_line zero src = none
  next_non_blank_line (suc fuel) src =
      if_non_blank (λ s. next_non_blank_line fuel s) (next_line src)

  abbrev pub unless_end :
      (LineSource → Bool → Str → Option (Result FecError Str × LineSource))
      → Bool
      → Str
      → Str
      → LineSource
      → Bool
      → Option (Result FecError Str × LineSource)
  unless_end again first text raw src true = some (ok text, src)
  unless_end again first text raw src false =
      again src false (text ++ (if first then [] else 10 ∷ []) ++ drop_returns raw)

  -- One line of a text block: its end, or one more line of the text.
  abbrev pub on_block_line :
      (LineSource → Bool → Str → Option (Result FecError Str × LineSource))
      → ℕ
      → Bool
      → Str
      → Result FecError (Option (ℕ × Str)) × LineSource
      → Option (Result FecError Str × LineSource)
  on_block_line again start first text (err e, src) = some (err e, src)
  on_block_line again start first text (ok none, src) =
      some (err (unterminated_text_block start), src)
  on_block_line again start first text (ok (some (n, raw)), src) =
      unless_end again first text raw src (is_marker (codes "[ENDTEXT]") raw)

  unfoldable pub read_text_block :
      ℕ → LineSource → ℕ → Bool → Str → Option (Result FecError Str × LineSource)
  unfolding next_line trim eq_ignore_ascii_case trim_end
  read_text_block zero src start first text = none
  read_text_block (suc fuel) src start first text =
      on_block_line (λ s f t. read_text_block fuel s start f t) start first text (next_line src)

  -- A block before the first record: its text is the cover's.
  abbrev pub cover_block :
      (LineSource → ParsedLine → Option (Result FecError Bool × LineSource × ParsedLine))
      → ParsedLine
      → Option (Result FecError Str × LineSource)
      → Option (Result FecError Bool × LineSource × ParsedLine)
  cover_block again summary none = none
  cover_block again summary (some (err e, src)) = some (err e, src, summary)
  cover_block again summary (some (ok text, src)) = again src (with_text text summary)

  abbrev pub first_of_kind :
      (LineSource → ParsedLine → Option (Result FecError Bool × LineSource × ParsedLine))
      → ParsedLine
      → ℕ × Str
      → LineSource
      → LineKind
      → Option (Result FecError Bool × LineSource × ParsedLine)
  first_of_kind again summary l src blank = again src summary
  first_of_kind again summary l src begin_text =
      cover_block again summary (read_text_block (suc (lines_left src)) src l.0 true [])
  first_of_kind again summary l src data_record =
      some (ok true, record src { held = some l }, summary)

  abbrev pub on_first_line :
      (LineSource → ParsedLine → Option (Result FecError Bool × LineSource × ParsedLine))
      → ParsedLine
      → Result FecError (Option (ℕ × Str)) × LineSource
      → Option (Result FecError Bool × LineSource × ParsedLine)
  on_first_line again summary (err e, src) = some (err e, src, summary)
  on_first_line again summary (ok none, src) = some (ok false, src, summary)
  on_first_line again summary (ok (some (n, raw)), src) =
      first_of_kind again summary (n, raw) src (classify raw)

  unfoldable pub hold_first_body_line :
      ℕ → LineSource → ParsedLine → Option (Result FecError Bool × LineSource × ParsedLine)
  unfolding next_line classify read_text_block set
  hold_first_body_line zero src summary = none
  hold_first_body_line (suc fuel) src summary =
      on_first_line (λ s p. hold_first_body_line fuel s p) summary (next_line src)
