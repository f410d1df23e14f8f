-- ===== src/Filing/Strict.antt =====
-- src/parser/filing.rs: the steps of a strict and of a lenient parse, line by line.
use hardmoney.Prelude.{
  get_elem?, ℕ, List, [], ◌∷◌, ◌++◌, Option, none, some, ◌≡◌, ◌≢◌, ◌⊎◌, inl, inr, refl, Bool-cases,
}
use hardmoney.Prelude.Result.{Result, ok, err}
use hardmoney.Text.{Str}
use hardmoney.Table.{Table}
use hardmoney.Version.{SpecVersion}
use hardmoney.Form.{Regex, table_for_form_type}
use hardmoney.Error.{parser_missing, FecError, no_matching_version_bucket}
use hardmoney.Layout.{Layout}
use hardmoney.Line.{ParsedLine, from_cells}
use hardmoney.Filing.{
  is_empty, unknown_form_type, unwrap_or, no_layout_for_version, ParseOptions, strict, lenient,
  SkippedLine, SkipReason, fail, skip,
}
use hardmoney.Field.{normalize_form_type}
use hardmoney.Filing.Body.{
  or_first, skipped_line, BodyAccumulator, push_parsed, push_token, push_body_line, skip_or_fail,
}

abbrev pub with_options : ParseOptions → BodyAccumulator → BodyAccumulator
with_options o acc = record acc { options = o }

-- Nothing was skipped.
pub record IsClean (acc : BodyAccumulator) : Type 0 where
  pub no_skips : acc.skipped ≡ []
  pub no_error : acc.first_error ≡ none

-- Lines were skipped, the first of them for this error.
pub record Skipped (e : FecError) (acc : BodyAccumulator) : Type 0 where
  pub first : acc.first_error ≡ some e
  pub some_skips : acc.skipped ≢ []

-- What a step of both parses can come to: both go on cleanly, both fail alike, or the strict one
-- fails where the lenient one skips.
abbrev pub Outcome : Result FecError BodyAccumulator → Result FecError BodyAccumulator → Type 0
Outcome r s =
    ((acc : BodyAccumulator) × (r ≡ ok (with_options strict acc))
      × (s ≡ ok (with_options lenient acc))
      × IsClean acc)
    ⊎ (((e : FecError) × (r ≡ err e) × (s ≡ err e))
        ⊎ ((e : FecError) × (acc : BodyAccumulator) × (r ≡ err e)
            × (s ≡ ok (with_options lenient acc))
            × Skipped e acc))

append-ne-nil : (xs : List SkippedLine) (x : SkippedLine) → xs ++ (x ∷ []) ≢ []
append-ne-nil [] x h = cc
append-ne-nil (y ∷ xs) x h = cc

-- The collector behind a skipped line.
abbrev skipping : BodyAccumulator → FecError → ℕ → Str → SkipReason → BodyAccumulator
skipping acc e n raw reason = record acc {
  first_error = or_first acc.first_error e;
  skipped = acc.skipped ++ (skipped_line n raw reason ∷ []);
}

skip_or_fail-Outcome :
    (acc : BodyAccumulator) (e : FecError) (n : ℕ) (raw : Str) (reason : SkipReason)
    → IsClean acc
    → Outcome
        (skip_or_fail (with_options strict acc) fail e n raw reason)
        (skip_or_fail (with_options lenient acc) skip e n raw reason)
unfolding skip_or_fail
skip_or_fail-Outcome acc e n raw reason c = inr (
    inr (
      e,
      skipping acc e n raw reason,
      refl,
      refl,
      record { first = rw (c.no_error) refl; some_skips = append-ne-nil acc.skipped _ },
    ))

push_parsed-Outcome :
    (acc : BodyAccumulator) (n : ℕ) (form_type : Str) (r : Result FecError ParsedLine)
    → IsClean acc
    → Outcome
        (push_parsed (with_options strict acc) n form_type r)
        (push_parsed (with_options lenient acc) n form_type r)
push_parsed-Outcome acc n form_type (ok line) c = inl (
  record acc { lines = acc.lines ++ (line ∷ []) },
  refl,
  refl,
  record { no_skips = c.no_skips; no_error = c.no_error },
)
push_parsed-Outcome acc n form_type (err (no_matching_version_bucket t v k)) c =
    skip_or_fail-Outcome acc _ n form_type _ c
push_parsed-Outcome acc n form_type (err e) c = inr (inl (e, refl, refl))

-- Once a line was skipped, a lenient step keeps the first error.
abbrev pub StaysSkipped : FecError → Result FecError BodyAccumulator → Type 0
StaysSkipped e r =
    (acc' : BodyAccumulator)
    → r ≡ ok acc'
    → (acc : BodyAccumulator) × (acc' ≡ with_options lenient acc) × Skipped e acc

skip_or_fail-StaysSkipped :
    (acc : BodyAccumulator) (e d : FecError) (n : ℕ) (raw : Str) (reason : SkipReason)
    → Skipped e acc
    → StaysSkipped e (skip_or_fail (with_options lenient acc) skip d n raw reason)
unfolding skip_or_fail
skip_or_fail-StaysSkipped acc e d n raw reason s acc' h = (
  skipping acc d n raw reason,
  cc,
  record {
    first = rw (s.first) refl;
    some_skips = append-ne-nil acc.skipped (skipped_line n raw reason);
  },
)

push_parsed-StaysSkipped :
    (acc : BodyAccumulator) (e : FecError) (n : ℕ) (form_type : Str)
    (r : Result FecError ParsedLine)
    → Skipped e acc
    → StaysSkipped e (push_parsed (with_options lenient acc) n form_type r)
push_parsed-StaysSkipped acc e n form_type (ok line) s acc' h = (
  record acc { lines = acc.lines ++ (line ∷ []) },
  cc,
  record { first = s.first; some_skips = s.some_skips },
)
push_parsed-StaysSkipped acc e n form_type (err (no_matching_version_bucket t v k)) s acc' h =
    skip_or_fail-StaysSkipped acc e (no_matching_version_bucket t v k) n form_type
      no_layout_for_version s acc' h
push_parsed-StaysSkipped acc e n form_type (err d) s acc' h = cc

module _ (layouts : Table → List Layout) (R : Regex) where
  push_token-Outcome :
      (acc : BodyAccumulator) (fields : List Str) (version : SpecVersion) (n : ℕ) (form_type : Str)
      (t : Option Table)
      → IsClean acc
      → Outcome
          (push_token layouts R (with_options strict acc) fields version n form_type t)
          (push_token layouts R (with_options lenient acc) fields version n form_type t)
  push_token-Outcome acc fields version n form_type none c =
      skip_or_fail-Outcome acc _ n form_type _ c
  push_token-Outcome acc fields version n form_type (some t) c =
      push_parsed-Outcome acc n form_type (from_cells layouts t version n fields) c

  pub push_body_line-Outcome :
      (acc : BodyAccumulator) (fields : List Str) (version : SpecVersion) (n : ℕ)
      → IsClean acc
      → Outcome
          (push_body_line layouts R (with_options strict acc) fields version n)
          (push_body_line layouts R (with_options lenient acc) fields version n)
  unfolding push_body_line
  push_body_line-Outcome acc fields version n c =
      let form_type = normalize_form_type (unwrap_or (get_elem? fields 0) []) in
      elim (Bool-cases (is_empty form_type)) [
        | inl q ↦ rw q (inl (acc, refl, refl, c))
        | inr q ↦
            rw q (
              push_token-Outcome acc fields version n form_type (table_for_form_type R form_type) c)
      ]

  push_token-StaysSkipped :
      (acc : BodyAccumulator) (e : FecError) (fields : List Str) (version : SpecVersion) (n : ℕ)
      (form_type : Str) (t : Option Table)
      → Skipped e acc
      → StaysSkipped e
          (push_token layouts R (with_options lenient acc) fields version n form_type t)
  push_token-StaysSkipped acc e fields version n form_type none s =
      skip_or_fail-StaysSkipped acc e (parser_missing form_type version (some n)) n form_type
        unknown_form_type s
  push_token-StaysSkipped acc e fields version n form_type (some t) s =
      push_parsed-StaysSkipped acc e n form_type (from_cells layouts t version n fields) s

  pub push_body_line-StaysSkipped :
      (acc : BodyAccumulator) (e : FecError) (fields : List Str) (version : SpecVersion) (n : ℕ)
      → Skipped e acc
      → StaysSkipped e (push_body_line layouts R (with_options lenient acc) fields version n)
  unfolding push_body_line
  push_body_line-StaysSkipped acc e fields version n s =
      let form_type = normalize_form_type (unwrap_or (get_elem? fields 0) []) in
      elim (Bool-cases (is_empty form_type)) [
        | inl q ↦ rw q (λ acc' h. (acc, cc, s))
        | inr q ↦ rw q (
            push_token-StaysSkipped acc e fields version n form_type
              (table_for_form_type R form_type) s)
      ]
