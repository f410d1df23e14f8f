-- ===== src/Filing/Lenience.antt =====
-- What a lenient parse that succeeds says of the strict one.
use mathlib.Core.Path.{subst}
use hardmoney.Error.{deprecated_header_format, lines_skipped}
use hardmoney.Prelude.{
  get_elem?, ◌==◌, length, ℕ, List, [], ◌∷◌, Option, some, keep, not, ◌≡◌, ◌≢◌, ◌⊎◌, ◌↔◌, inl, inr,
  refl, sym, ap, ◌∙◌, Bool-cases,
}
use hardmoney.Prelude.Result.{Result, ok, err, ◌>>=◌, bind_succeeded}
use hardmoney.Text.{contains, starts_with, Str, codes}
use hardmoney.Table.{Table}
use hardmoney.Form.{Regex}
use hardmoney.Error.{FecError}
use hardmoney.Layout.{Layout}
use hardmoney.Filing.{
  unwrap_or, into_strict_of, ParseOptions, SkippedLine, Filing, Lenient, strict, lenient,
  into_strict,
}
use hardmoney.Filing.Body.{
  str_lines, State, is_blank, numbered_lines, split_new_delimited, split_old_delimited, new_body,
  old_body,
}
use hardmoney.Filing.Verdict.{loose, Verdict}
use hardmoney.Filing.Agree.{new_body-Verdict, old_body-Verdict}
use hardmoney.Filing.Assemble.{parse_header_and_summary}
use hardmoney.Filing.Parse.{
  finish, start, leading, parse_new_delimited, parse_old_delimited, parse_with,
}

-- Both parses give one filing without skips, or the strict one fails, and if the lenient one
-- succeeds it has skipped lines, the first for the strict one's error.
abbrev pub Lenience : Result FecError (Lenient Filing) → Result FecError (Lenient Filing) → Type 0
Lenience r s =
    ((l : Lenient Filing) × (r ≡ ok l) × (s ≡ ok l) × (l.skipped ≡ []))
    ⊎ ((e : FecError) × (r ≡ err e)
        × ((l : Lenient Filing) → s ≡ ok l → (l.first_error ≡ some e) × (l.skipped ≢ [])))

failed_alike : (e : FecError) → Lenience (err e) (err e)
failed_alike e = inr (e, refl, λ l h. cc h)

abbrev parsed_as : Lenient Filing → Result FecError (Lenient Filing)
parsed_as l = ok l

parsed_as_injective : (m l : Lenient Filing) → parsed_as m ≡ parsed_as l → m ≡ l
parsed_as_injective m l h = cc

kept :
    (e : FecError) (m l : Lenient Filing)
    → parsed_as m ≡ parsed_as l
    → m.first_error ≡ some e
    → m.skipped ≢ []
    → (l.first_error ≡ some e) × (l.skipped ≢ [])
kept e m l h f k =
    subst (λ (x : Lenient Filing). (x.first_error ≡ some e) × (x.skipped ≢ []))
      (parsed_as_injective m l h) (f, k)

finished-Lenience :
    (parsed : Filing) (r s : Result FecError State)
    → Verdict r s
    → Lenience (r >>= λ end. ok (finish parsed end)) (s >>= λ end. ok (finish parsed end))
finished-Lenience parsed r s (inl (st, p, q, c)) =
    inl (finish parsed st, rw p refl, rw q refl, c.no_skips)
finished-Lenience parsed r s (inr (e, p, q)) = inr (
  e,
  ap (λ (x : Result FecError State). x >>= λ end. ok (finish parsed end)) p,
  λ l h.
      let (end, first, rest) = bind_succeeded s (λ end. ok (finish parsed end)) l h in
      let (st, same, k) = q end first in
      kept e (finish parsed (loose st)) l
        (ap (λ (x : State). parsed_as (finish parsed x)) (sym same) ∙ rest) k.first k.some_skips,
)

module _ (layouts : Table → List Layout) (R : Regex)
    (read_record : Str → Result FecError (Option (List Str))) where
  parse_new_delimited-Lenience :
      (content : Str)
      → Lenience
          (parse_new_delimited layouts R read_record content strict)
          (parse_new_delimited layouts R read_record content lenient)
  unfolding parse_new_delimited
  parse_new_delimited-Lenience content = of_lines (leading (numbered_lines content))
    where
      of_parsed :
          (r : Result FecError Filing) (rest : List (ℕ × Str))
          → Lenience
              (r >>= λ parsed.
                new_body layouts R (start strict parsed) parsed.version rest >>= λ end.
                ok (finish parsed end))
              (r >>= λ parsed.
                new_body layouts R (start lenient parsed) parsed.version rest >>= λ end.
                ok (finish parsed end))
      of_parsed (err e) rest = failed_alike e
      of_parsed (ok parsed) rest = finished-Lenience parsed _ _ (
          new_body-Verdict layouts R rest (start lenient parsed) parsed.version
            (record { no_skips = refl; no_error = refl }))

      of_lines :
          (o : Result FecError ((ℕ × Str) × (ℕ × Str) × List (ℕ × Str)))
          → Lenience
              (o >>= λ t.
                parse_header_and_summary R layouts
                  (split_new_delimited t.0.1)
                  (split_new_delimited t.1.1)
                  2
                >>= λ parsed. new_body layouts R (start strict parsed) parsed.version t.2 >>= λ end.
                    ok (finish parsed end))
              (o >>= λ t.
                parse_header_and_summary R layouts
                  (split_new_delimited t.0.1)
                  (split_new_delimited t.1.1)
                  2
                >>= λ parsed.
                    new_body layouts R (start lenient parsed) parsed.version t.2 >>= λ end.
                    ok (finish parsed end))
      of_lines (err e) = failed_alike e
      of_lines (ok (header, summary, rest)) =
          of_parsed
            (parse_header_and_summary R layouts (split_new_delimited header.1)
              (split_new_delimited summary.1) 2)
            rest

  abbrev old_rest : ParseOptions → List (ℕ × Str) → Filing → Result FecError (Lenient Filing)
  old_rest options rest parsed =
      old_body layouts R read_record (start options parsed) parsed.version rest >>= λ end.
      ok (finish parsed end)

  parse_old_delimited-Lenience :
      (content : Str)
      → Lenience
          (parse_old_delimited layouts R read_record content strict)
          (parse_old_delimited layouts R read_record content lenient)
  unfolding parse_old_delimited
  parse_old_delimited-Lenience content =
      of_lines (leading (keep (λ l. not (is_blank l.1)) (numbered_lines content)))
    where
      of_parsed :
          (r : Result FecError Filing) (rest : List (ℕ × Str))
          → Lenience (r >>= old_rest strict rest) (r >>= old_rest lenient rest)
      of_parsed (err e) rest = failed_alike e
      of_parsed (ok parsed) rest = finished-Lenience parsed _ _ (
          old_body-Verdict layouts R read_record rest (start lenient parsed) parsed.version
            (record { no_skips = refl; no_error = refl }))

      of_summary :
          (r : Result FecError (List Str)) (h : List Str) (n : ℕ) (rest : List (ℕ × Str))
          → Lenience
              (r >>= λ s. parse_header_and_summary R layouts h s n >>= old_rest strict rest)
              (r >>= λ s. parse_header_and_summary R layouts h s n >>= old_rest lenient rest)
      of_summary (err e) h n rest = failed_alike e
      of_summary (ok s) h n rest = of_parsed (parse_header_and_summary R layouts h s n) rest

      of_header :
          (r : Result FecError (List Str)) (summary : ℕ × Str) (rest : List (ℕ × Str))
          → Lenience
              (r >>= λ h. split_old_delimited read_record summary.1 >>= λ s.
                parse_header_and_summary R layouts h s summary.0 >>= old_rest strict rest)
              (r >>= λ h. split_old_delimited read_record summary.1 >>= λ s.
                parse_header_and_summary R layouts h s summary.0 >>= old_rest lenient rest)
      of_header (err e) summary rest = failed_alike e
      of_header (ok h) summary rest =
          of_summary (split_old_delimited read_record summary.1) h summary.0 rest

      of_lines :
          (o : Result FecError ((ℕ × Str) × (ℕ × Str) × List (ℕ × Str)))
          → Lenience
              (o >>= λ t. split_old_delimited read_record t.0.1 >>= λ h.
                split_old_delimited read_record t.1.1 >>= λ s.
                parse_header_and_summary R layouts h s t.1.0 >>= old_rest strict t.2)
              (o >>= λ t. split_old_delimited read_record t.0.1 >>= λ h.
                split_old_delimited read_record t.1.1 >>= λ s.
                parse_header_and_summary R layouts h s t.1.0 >>= old_rest lenient t.2)
      of_lines (err e) = failed_alike e
      of_lines (ok (header, summary, rest)) =
          of_header (split_old_delimited read_record header.1) summary rest

  parse_with-Lenience :
      (content : Str)
      → Lenience
          (parse_with layouts R read_record content strict)
          (parse_with layouts R read_record content lenient)
  unfolding parse_with
  parse_with-Lenience content = elim (Bool-cases (starts_with (codes "/*") content)) [
    | inl q ↦ rw q (failed_alike deprecated_header_format)
    | inr q ↦
        elim (Bool-cases
          (contains (λ c. c == 0x1c) (unwrap_or (get_elem? (str_lines content) 0) []))) [
            | inl d ↦ rw (q, d) (parse_new_delimited-Lenience content)
            | inr d ↦ rw (q, d) (parse_old_delimited-Lenience content)
          ]
  ]

  strict_of_Lenience :
      (r s : Result FecError (Lenient Filing)) (l : Lenient Filing)
      → Lenience r s
      → (r ≡ ok l) ↔ ((s ≡ ok l) × (l.skipped ≡ []))
  strict_of_Lenience r s l (inl (m, p, q, k)) = (
    λ h. (
      q ∙ sym p ∙ h,
      subst (λ (x : Lenient Filing). x.skipped ≡ []) (parsed_as_injective m l (sym p ∙ h)) k,
    ),
    λ h. p ∙ sym q ∙ h.0,
  )
  strict_of_Lenience r s l (inr (e, p, q)) =
      (λ h. absurd (cc (p, h)), λ h. absurd ((q l h.0).1 h.1))

  -- For any text, a strict parse gives a filing exactly if the lenient parse gives the same one and
  -- skips no line.
  pub parse_with-strict_iff :
      (content : Str) (l : Lenient Filing)
      → (parse_with layouts R read_record content strict ≡ ok l)
        ↔ ((parse_with layouts R read_record content lenient ≡ ok l) × (l.skipped ≡ []))
  parse_with-strict_iff content l = strict_of_Lenience _ _ l (parse_with-Lenience content)

  into_strict-skips :
      (l : Lenient Filing) (e : FecError)
      → l.first_error ≡ some e
      → l.skipped ≢ []
      → into_strict l ≡ err (lines_skipped (length l.skipped) e)
  unfolding into_strict
  into_strict-skips l e f k = rw f (of l.skipped k)
    where
      of :
          (s : List SkippedLine)
          → s ≢ []
          → into_strict_of l.value s (some e) ≡ err (lines_skipped (length s) e)
      of [] h = absurd (h refl)
      of (x ∷ s) h = refl

  -- If the strict parse of a text fails where the lenient one succeeds, then taking the lenient
  -- result strictly reports the strict parse's own error as the first, and how many lines it skipped.
  pub into_strict-parse_with :
      (content : Str) (l : Lenient Filing) (e : FecError)
      → parse_with layouts R read_record content lenient ≡ ok l
      → parse_with layouts R read_record content strict ≡ err e
      → into_strict l ≡ err (lines_skipped (length l.skipped) e)
  into_strict-parse_with content l e h f = of (parse_with-Lenience content)
    where
      of :
          Lenience
            (parse_with layouts R read_record content strict)
            (parse_with layouts R read_record content lenient)
          → into_strict l ≡ err (lines_skipped (length l.skipped) e)
      of (inl (m, p, q, k)) = absurd (cc (p, f))
      of (inr (d, p, q)) = into_strict-skips l e ((q l h).0 ∙ cc (p, f)) (q l h).1
