-- ===== src/Stream/Agree.antt =====
-- The reader, from the first body line to the end, against the loop over the lines of a whole
-- filing: the record that is held back is the last line so far.
use hardmoney.Field.{normalize_form_type}
use hardmoney.Text.{is_empty, Str}
use hardmoney.Error.{parser_missing, no_matching_version_bucket, FecError}
use hardmoney.Form.{table_for_form_type, Regex}
use hardmoney.Stream.Progress.{IsLive}
use hardmoney.Filing.{
  fail, skip, unknown_form_type, no_layout_for_version, SkipReason, OnUnparseableLine,
}
use hardmoney.Line.{from_cells, ParsedLine}
use hardmoney.Layout.{Layout}
use hardmoney.Table.{Table}
use mathlib.Core.List.{append-nil}
use hardmoney.Prelude.{
  Bool-cases, get_elem?, unwrap_or, Option, ap, [], ◌⊎◌, ◌∷◌, ◌++◌, List, refl, none, some, inl,
  inr, ◌≡◌, ℕ,
}
use hardmoney.Prelude.Result.{err, Result, ok}
use hardmoney.Filing.Body.{
  BodyAccumulator, is_blank, is_marker, drop_returns, split_new_delimited, State, between, step_in,
  new_body, on_last, push_body_line, push_token, push_parsed, or_first, skipped_line, with_text,
}
use hardmoney.Filing.Body as Eager
use hardmoney.Stream.Body.{
  accept_token, fail_with, accept_parsed, accept, skip_or_fail, advance, Body, Item, Lookahead,
  cover, held_record, discarded,
}

abbrev pub held_lines : Lookahead → List ParsedLine
held_lines (held_record line) = line ∷ []
held_lines cover = []
held_lines discarded = []

-- What the whole-filing loop has collected when these lines are out.
abbrev pub collector : List ParsedLine → Body → BodyAccumulator
collector out b = record {
  options = b.options;
  lines = out ++ held_lines b.lookahead;
  skipped = b.skipped;
  first_error = b.first_error;
}

abbrev pub state_of : List ParsedLine → Body → ParsedLine → State
state_of out b summary = record { mode = between; acc = collector out b; summary = summary }

-- No filter; and before the first record, nothing is out.
abbrev pub Ready : List ParsedLine → Body → Type 0
Ready out b =
    IsLive b
    × (b.filter ≡ none)
    × (((line : ParsedLine) × (b.lookahead ≡ held_record line))
        ⊎ ((b.lookahead ≡ cover) × (out ≡ [])))

-- An item and the body behind it, against the step of the whole-filing loop.
abbrev pub ItemAgrees :
    List ParsedLine → Body → Item × Body → Result FecError BodyAccumulator → Type 0
ItemAgrees out b o eager =
    ((c : Body) × (o ≡ (none, c))
      × Ready out c
      × (c.version ≡ b.version)
      × (eager ≡ ok (collector out c)))
    ⊎ (((line : ParsedLine) × (c : Body) × (o ≡ (some (ok line), c))
          × Ready (out ++ (line ∷ [])) c
          × (c.version ≡ b.version)
          × (eager ≡ ok (collector (out ++ (line ∷ [])) c)))
        ⊎ ((e : FecError) × (o ≡ fail_with b e) × (eager ≡ err e)))

advance-ItemAgrees :
    (out : List ParsedLine) (b : Body) (line : ParsedLine)
    → Ready out b
    → ItemAgrees out b
        (advance b line)
        (ok (record (collector out b) { lines = (collector out b).lines ++ (line ∷ []) }))
unfolding advance
advance-ItemAgrees out b line (live, f, inl (previous, h)) =
    rw (h, f) (inr (inl (previous, _, refl, (live, refl, inl (line, refl)), refl, refl)))
advance-ItemAgrees out b line (live, f, inr (h, o)) =
    rw (h, f)
      (inl (
        _,
        refl,
        (live, refl, inl (line, refl)),
        refl,
        ap (λ (ls : List ParsedLine). ok (record (collector out b) { lines = ls ++ (line ∷ []) }))
            (append-nil out),
      ))

skip_or_fail-ItemAgrees :
    (out : List ParsedLine) (b : Body) (policy : OnUnparseableLine) (e : FecError) (n : ℕ)
    (raw : Str) (reason : SkipReason)
    → Ready out b
    → ItemAgrees out b
        (skip_or_fail b policy e n raw reason)
        (Eager.skip_or_fail (collector out b) policy e n raw reason)
unfolding skip_or_fail Eager.skip_or_fail
skip_or_fail-ItemAgrees out b fail e n raw reason ready = inr (inr (e, refl, refl))
skip_or_fail-ItemAgrees out b skip e n raw reason ready = inl (_, refl, ready, refl, refl)

module _ (layouts : Table → List Layout) (R : Regex) where
  parsed-ItemAgrees :
      (out : List ParsedLine) (b : Body) (n : ℕ) (form_type : Str) (r : Result FecError ParsedLine)
      → Ready out b
      → ItemAgrees out b
          (accept_parsed layouts R b n form_type r)
          (push_parsed (collector out b) n form_type r)
  parsed-ItemAgrees out b n form_type (ok line) ready = advance-ItemAgrees out b line ready
  parsed-ItemAgrees out b n form_type (err (no_matching_version_bucket t v i)) ready =
      skip_or_fail-ItemAgrees out b b.options.on_missing_version (no_matching_version_bucket t v i)
        n form_type no_layout_for_version ready
  parsed-ItemAgrees out b n form_type (err e) ready = inr (inr (e, refl, refl))

  token-ItemAgrees :
      (out : List ParsedLine) (b : Body) (fields : List Str) (n : ℕ) (form_type : Str)
      (t : Option Table)
      → Ready out b
      → ItemAgrees out b
          (accept_token layouts R b fields n form_type t)
          (push_token layouts R (collector out b) fields b.version n form_type t)
  token-ItemAgrees out b fields n form_type none ready =
      skip_or_fail-ItemAgrees out b b.options.on_unknown_line
        (parser_missing form_type b.version (some n)) n form_type unknown_form_type ready
  token-ItemAgrees out b fields n form_type (some t) ready =
      parsed-ItemAgrees out b n form_type (from_cells layouts t b.version n fields) ready

  pub accept-ItemAgrees :
      (out : List ParsedLine) (b : Body) (fields : List Str) (n : ℕ)
      → Ready out b
      → ItemAgrees out b
          (accept layouts R b fields n)
          (push_body_line layouts R (collector out b) fields b.version n)
  unfolding accept push_body_line
  accept-ItemAgrees out b fields n ready =
      let form_type = normalize_form_type (unwrap_or (get_elem? fields 0) []) in
      elim (Bool-cases (is_empty form_type)) [
        | inl q ↦ rw q (inl (b, refl, ready, refl, refl))
        | inr q ↦
            rw q (token-ItemAgrees out b fields n form_type (table_for_form_type R form_type) ready)
      ]
