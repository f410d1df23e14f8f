-- ===== src/Stream/Progress.antt =====
-- What one call of `next` comes to: an item and a smaller input, or the end.
use hardmoney.Filing.{fail, skip, SkipReason, OnUnparseableLine}
use hardmoney.Stream.Reader.{Source, yielded, Yield, FilingReader, source_lines}
use hardmoney.Error.{no_matching_version_bucket, FecError}
use hardmoney.Text.{is_empty, Str}
use hardmoney.Prelude.{
  Bool-cases, [], get_elem?, unwrap_or, Option, arith, List, ◌<◌, ◌≤◌, ◌⊎◌, ℕ, ◌≡◌, refl, true,
  false, none, some, inl, inr,
}
use hardmoney.Form.{table_for_form_type, Regex}
use hardmoney.Line.{from_cells, ParsedLine}
use hardmoney.Field.{normalize_form_type}
use hardmoney.Prelude.Result.{Result, ok, err}
use hardmoney.Layout.{Layout}
use hardmoney.Table.{Table}
use hardmoney.Stream.{Preamble}
use hardmoney.Stream.Source.{lines_left}
use hardmoney.Stream.Body.{
  accept_parsed, accept_token, accept, advance, skip_or_fail, fail_with, Body, Item, Lookahead,
  cover, held_record, discarded, finish,
}

abbrev pub reader_of : Source → Preamble → Body → FilingReader
reader_of s p b = record { source = s; preamble = p; body = b }

-- Nothing more will come.
abbrev pub IsExhausted : Body → Type 0
IsExhausted b = (b.done ≡ true) × (b.deferred ≡ none)

-- Records may still come.
abbrev pub IsLive : Body → Type 0
IsLive b = (b.done ≡ false) × (b.deferred ≡ none)

-- The end and an error leave nothing; a record leaves a body that is done, or fewer lines.
abbrev pub Progress : ℕ → Item → FilingReader → Type 0
Progress n none r = IsExhausted r.body
Progress n (some (err e)) r = IsExhausted r.body
Progress n (some (ok line)) r =
    (r.body.done ≡ true) ⊎ ((lines_left (source_lines r.source) < n) × IsLive r.body)

abbrev pub Progresses : ℕ → Yield → Type 0
Progresses n y = (item : Item) × (r : FilingReader) × (y ≡ some (item, r)) × Progress n item r

pub progress_less : (m n : ℕ) (y : Yield) → m ≤ n → Progresses m y → Progresses n y
progress_less m n y h (none, r, e, p) = (none, r, e, p)
progress_less m n y h (some (err f), r, e, p) = (some (err f), r, e, p)
progress_less m n y h (some (ok line), r, e, inl p) = (some (ok line), r, e, inl p)
progress_less m n y h (some (ok line), r, e, inr (p, q)) =
    (some (ok line), r, e, inr (omega (arith, h, p), q))

Lookahead-cases :
    (l : Lookahead)
    → ((item : ParsedLine) × (l ≡ held_record item)) ⊎ ((l ≡ cover) ⊎ (l ≡ discarded))
Lookahead-cases (held_record line) = inl (line, refl)
Lookahead-cases cover = inr (inl refl)
Lookahead-cases discarded = inr (inr refl)

pub fail_with-Progresses :
    (n : ℕ) (s : Source) (p : Preamble) (b : Body) (e : FecError)
    → IsLive b
    → Progresses n (yielded (reader_of s p) (fail_with b e))
unfolding fail_with
fail_with-Progresses n s p b e (d, f) = elim (Lookahead-cases b.lookahead) [
  | inl (line, q) ↦ rw q (_, _, refl, inl refl)
  | inr (inl q) ↦ rw q (_, _, refl, (refl, f))
  | inr (inr q) ↦ rw q (_, _, refl, (refl, f))
]

pub finish-Progresses :
    (n : ℕ) (s : Source) (p : Preamble) (b : Body)
    → IsLive b
    → Progresses n (yielded (reader_of s p) (finish b))
unfolding finish
finish-Progresses n s p b (d, f) = elim (Lookahead-cases b.lookahead) [
  | inl (line, q) ↦ rw q (_, _, refl, inl refl)
  | inr (inl q) ↦ rw q (_, _, refl, (refl, f))
  | inr (inr q) ↦ rw q (_, _, refl, (refl, f))
]

-- A record that is accepted: nothing is out and the body lives, or an item is.
abbrev pub Accepted : ℕ → Source → Preamble → Item × Body → Type 0
Accepted n s p (none, b) = IsLive b
Accepted n s p (some item, b) = Progress n (some item) (reader_of s p b)

module _ (n : ℕ) (s : Source) (p : Preamble) (small : lines_left (source_lines s) < n) where
  advance-Accepted : (b : Body) (line : ParsedLine) → IsLive b → Accepted n s p (advance b line)
  unfolding advance
  advance-Accepted b line live = elim (Lookahead-cases b.lookahead) [
    | inl (line, q) ↦ rw q (inr (small, live))
    | inr (inl q) ↦ rw q live
    | inr (inr q) ↦ rw q live
  ]

  fail_with-Accepted : (b : Body) (e : FecError) → IsLive b → Accepted n s p (fail_with b e)
  unfolding fail_with
  fail_with-Accepted b e (d, f) = elim (Lookahead-cases b.lookahead) [
    | inl (line, q) ↦ rw q (inl refl)
    | inr (inl q) ↦ rw q (refl, f)
    | inr (inr q) ↦ rw q (refl, f)
  ]

  skip_or_fail-Accepted :
      (b : Body) (policy : OnUnparseableLine) (e : FecError) (k : ℕ) (raw : Str)
      (reason : SkipReason)
      → IsLive b
      → Accepted n s p (skip_or_fail b policy e k raw reason)
  unfolding skip_or_fail
  skip_or_fail-Accepted b fail e k raw reason live = fail_with-Accepted b e live
  skip_or_fail-Accepted b skip e k raw reason live = live

  module _ (layouts : Table → List Layout) (R : Regex) where
    accept_parsed-Accepted :
        (b : Body) (k : ℕ) (form_type : Str) (r : Result FecError ParsedLine)
        → IsLive b
        → Accepted n s p (accept_parsed layouts R b k form_type r)
    accept_parsed-Accepted b k form_type (ok line) live = advance-Accepted b line live
    accept_parsed-Accepted b k form_type (err (no_matching_version_bucket t v i)) live =
        skip_or_fail-Accepted b _ _ k form_type _ live
    accept_parsed-Accepted b k form_type (err e) live = fail_with-Accepted b e live

    accept_token-Accepted :
        (b : Body) (fields : List Str) (k : ℕ) (form_type : Str) (t : Option Table)
        → IsLive b
        → Accepted n s p (accept_token layouts R b fields k form_type t)
    accept_token-Accepted b fields k form_type none live =
        skip_or_fail-Accepted b _ _ k form_type _ live
    accept_token-Accepted b fields k form_type (some t) live =
        accept_parsed-Accepted b k form_type (from_cells layouts t b.version k fields) live

    pub accept-Accepted :
        (b : Body) (fields : List Str) (k : ℕ)
        → IsLive b
        → Accepted n s p (accept layouts R b fields k)
    unfolding accept
    accept-Accepted b fields k live =
        let form_type = normalize_form_type (unwrap_or (get_elem? fields 0) []) in
        elim (Bool-cases (is_empty form_type)) [
          | inl q ↦ rw q live
          | inr q ↦
              rw q
                (accept_token-Accepted b fields k form_type (table_for_form_type R form_type) live)
        ]
