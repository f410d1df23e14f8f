-- ===== src/Stream/Finite.antt =====
-- Opening a reader and reading it to the end.
use hardmoney.Prelude.Result.{◌>>=◌, ok, err, Result}
use hardmoney.Filing.Body.{is_blank}
use hardmoney.Prelude.{
  ◌==◌, [], Bool-cases, arith, ◌⊎◌, Bool, Option, List, refl, suc, true, false, none, some, inl,
  inr, ◌≡◌, ℕ,
}
use hardmoney.Stream.Ends.{hold_first_body_line-Returns, next_non_blank_line-Within}
use hardmoney.Line.{ParsedLine}
use hardmoney.Stream.Reader.{source_lines, all_lines, gathered, FilingReader}
use hardmoney.Stream.Open.{
  csv_reader, with_options, with_first, unless_header_blank, on_header, by_delimiter, with_preamble,
  open_header, Opened, open_summary, read_filing, open_delimited,
}
use hardmoney.Filing.{Filing, Lenient, ParseOptions}
use hardmoney.Error.{FecError}
use hardmoney.Text.{contains, codes, starts_with, Str}
use hardmoney.Form.{Regex}
use hardmoney.Layout.{Layout}
use hardmoney.Table.{Table}
use hardmoney.Stream.{Preamble}
use hardmoney.Stream.Source.{next_non_blank_line, LineSource, lines_left, Reads, new, next_line}
use hardmoney.Stream.Fused.{collect-Returns, Suffices, IsSound, Returns}

module _ (layouts : Table → List Layout) (R : Regex) (decode : Str → Str)
    (read_record : Str → Result FecError (Option (List Str))) (options : ParseOptions) where
  -- A reader is opened, or refused; what is opened is sound.
  abbrev pub Opens : Opened → Type 0
  Opens o =
      ((e : FecError) × (o ≡ some (err e)))
      ⊎ ((r : FilingReader) × (o ≡ some (ok r)) × IsSound r.body)

  with_first-Opens :
      (p : Preamble) (o : Option (Result FecError Bool × LineSource × ParsedLine))
      → Returns layouts R decode read_record o
      → Opens (with_first layouts R decode read_record options p o)
  with_first-Opens p o ((err e, src, s), g) = rw g (inl (e, refl))
  with_first-Opens p o ((ok true, src, s), g) = rw g (inr (_, refl, inr (refl, refl)))
  with_first-Opens p o ((ok false, src, s), g) = rw g (inr (_, refl, inl refl))

  with_preamble-Opens :
      (src : LineSource) (r : Result FecError Preamble)
      → Opens (with_preamble layouts R decode read_record options src r)
  with_preamble-Opens src (err e) = inl (e, refl)
  with_preamble-Opens src (ok p) =
      with_first-Opens p _
        (hold_first_body_line-Returns decode (suc (lines_left src)) src p.summary (omega arith))

  open_delimited-Opens :
      (header : Str) (r : Result FecError (Option (ℕ × Str)) × LineSource)
      → Opens (open_delimited layouts R decode read_record options header r)
  open_delimited-Opens header (err e, src) = inl (e, refl)
  open_delimited-Opens header (ok none, src) = inl (_, refl)
  open_delimited-Opens header (ok (some l), src) = with_preamble-Opens src _

  csv-Opens :
      (src : LineSource) (r : Result FecError Preamble)
      → Opens (some (r >>= λ p. ok (csv_reader layouts R decode read_record options src p)))
  csv-Opens src (err e) = inl (e, refl)
  csv-Opens src (ok p) = inr (_, refl, inr (refl, refl))

  non_blank-Returns :
      (src : LineSource)
      → Returns layouts R decode read_record (next_non_blank_line decode (suc (lines_left src)) src)
  non_blank-Returns src =
      let (a, rest, g, w, s) = next_non_blank_line-Within decode _ src (omega arith) in
      ((a, rest), g)

  open_summary-Opens :
      (header : Str) (o : Option (Result FecError (Option (ℕ × Str)) × LineSource))
      → Returns layouts R decode read_record o
      → Opens (open_summary layouts R decode read_record options header o)
  open_summary-Opens header o ((err e, src), g) = rw g (inl (e, refl))
  open_summary-Opens header o ((ok none, src), g) = rw g (inl (_, refl))
  open_summary-Opens header o ((ok (some (n, raw)), src), g) = rw g (csv-Opens src _)

  open_header-Opens :
      (o : Option (Result FecError (Option (ℕ × Str)) × LineSource))
      → Returns layouts R decode read_record o
      → Opens (open_header layouts R decode read_record options o)
  open_header-Opens o ((err e, src), g) = rw g (inl (e, refl))
  open_header-Opens o ((ok none, src), g) = rw g (inl (_, refl))
  open_header-Opens o ((ok (some (n, raw)), src), g) =
      rw g (open_summary-Opens raw _ (non_blank-Returns src))

  unless_header_blank-Opens :
      (header : Str) (src : LineSource) (b : Bool)
      → Opens (unless_header_blank layouts R decode read_record options header src b)
  unless_header_blank-Opens header src true = open_header-Opens _ (non_blank-Returns src)
  unless_header_blank-Opens header src false = open_summary-Opens header _ (non_blank-Returns src)

  by_delimiter-Opens :
      (header : Str) (src : LineSource) (b : Bool)
      → Opens (by_delimiter layouts R decode read_record options header src b)
  by_delimiter-Opens header src true = open_delimited-Opens header (next_line decode src)
  by_delimiter-Opens header src false = unless_header_blank-Opens header src (is_blank header)

  on_header-Opens :
      (r : Result FecError (Option (ℕ × Str)) × LineSource)
      → Opens (on_header layouts R decode read_record options r)
  on_header-Opens (err e, src) = inl (e, refl)
  on_header-Opens (ok none, src) = inl (_, refl)
  on_header-Opens (ok (some (n, raw)), src) = elim (Bool-cases (starts_with (codes "/*") raw)) [
    | inl q ↦ rw q (inl (_, refl))
    | inr q ↦ rw q (by_delimiter-Opens raw src (contains (λ c. c == 0x1c) raw))
  ]

  pub with_options-Opens :
      (reader : Reads) → Opens (with_options layouts R decode read_record options reader)
  unfolding with_options
  with_options-Opens reader = on_header-Opens (next_line decode (new reader))

  enough :
      (r : FilingReader)
      → IsSound r.body
      → Suffices layouts R decode read_record (suc (suc (lines_left (source_lines r.source)))) r
  enough r (inl d) = inl (d, omega arith)
  enough r (inr live) = inr (live, omega arith)

  gathered-Returns :
      (o : Option (Result FecError (List ParsedLine × FilingReader)))
      → Returns layouts R decode read_record o
      → Returns layouts R decode read_record (gathered layouts R decode read_record o)
  gathered-Returns o (err e, g) = rw g (_, refl)
  gathered-Returns o (ok end, g) = rw g (_, refl)

  -- Reading a filing record by record always comes to a filing or to an error: whatever the reads
  -- give, failures included, and whatever the options, no loop of the reader runs out of its fuel.
  pub read_filing-Returns :
      (reader : Reads)
      → (result : Result FecError (Lenient Filing)) × (read_filing layouts R decode read_record
            options reader
          ≡ some result)
  unfolding read_filing all_lines
  read_filing-Returns reader = elim (with_options-Opens reader) [
    | inl (e, g) ↦ rw g (_, refl)
    | inr (r, g, sound) ↦
        rw g (
          gathered-Returns _ (collect-Returns layouts R decode read_record _ r [] (enough r sound)))
  ]
