-- ===== src/Stream/Whole.antt =====
-- Reading a filing record by record, and parsing it whole.
use hardmoney.Stream.Blocks.{gives-cons, gives-nil, given}
use hardmoney.Filing.Assemble.{parse_header_and_summary}
use hardmoney.Stream.Pending.{pending}
use hardmoney.Form.{Regex}
use hardmoney.Layout.{Layout}
use hardmoney.Error.{deprecated_header_format, FecError}
use hardmoney.Table.{Table}
use hardmoney.Prelude.{
  Option-cases, Bool, Bool-cases, if◌then◌else◌, ◌∙◌, sym, ap, arith, Option, List, refl, suc, some,
  inl, inr, ◌≡◌, ℕ, get_elem?, unwrap_or, ◌==◌, [], ◌∷◌,
}
use hardmoney.Prelude.Result.{err, ok, Result, ◌>>=◌}
use hardmoney.Text.{strip_suffix, Str, codes, contains, starts_with, split}
use hardmoney.Filing.{Filing, Lenient, ParseOptions}
use hardmoney.Filing.Body.{
  line_ends, is_blank, old_body, new_body, split_old_delimited, split_new_delimited, str_lines,
  number, numbered_lines,
}
use hardmoney.Filing.Parse.{parse_with, leading, start, parse_new_delimited, parse_old_delimited}
use hardmoney.Filing.Parse as Parse
use hardmoney.Stream.{Preamble, into_filing, from_fields, from_fields_at}
use hardmoney.Stream.Source.{LineSource, lines_left, next_line, next_non_blank_line, Reads, new}
use hardmoney.Stream.Body.{Body}
use hardmoney.Stream.Body as Body
use hardmoney.Stream.Reader.{records_of, all_lines}
use hardmoney.Stream.Open.{
  open_delimited, with_preamble, filing_of, open_summary, open_header, open_csv, with_options,
  read_filing, csv_preamble, csv_reader,
}
use hardmoney.Stream.Preambles.{IsListed, from_fields_at-Agrees}
use hardmoney.Stream.Leading.{hold_first_body_line-Agrees, new-Ready}
use hardmoney.Stream.Csv.{non_blank, next_non_blank_line-NonBlank, next_csv-Agrees}
use hardmoney.Stream.Refines.{collect-Ready}

abbrev Read : Type 0
Read = Result FecError (Lenient Filing)

first_line : List Str → Str
first_line parts = unwrap_or (get_elem? (line_ends parts) 0) []

split_cons : (q : ℕ) (s : Str) → (p : Str) × (ps : List Str) × (split q s ≡ p ∷ ps)
unfolding split
split_cons q [] = ([], [], refl)
split_cons q (c ∷ s) = elim (Bool-cases (c == q)) [
  | inl e ↦ rw e ([], split q s, refl)
  | inr e ↦ let (p, ps, h) = split_cons q s in rw (e, h) (c ∷ p, ps, refl)
]

-- A return that is taken off the end is not one of the two first characters.
without_return-starts_with :
    (c d : ℕ) (p : Str)
    → starts_with (codes "/*") (c ∷ d ∷ p)
      ≡ starts_with (codes "/*") (unwrap_or (strip_suffix 13 (c ∷ d ∷ p)) (c ∷ d ∷ p))
unfolding starts_with strip_suffix
without_return-starts_with c d [] = ground arith
without_return-starts_with c d (x ∷ p) = elim (Option-cases (strip_suffix 13 (x ∷ p))) [
  | inl h ↦ rw h refl
  | inr (r, h) ↦ rw h refl
]

two_on-starts_with :
    (c d : ℕ) (p : Str) (ps : List Str)
    → starts_with (codes "/*") (c ∷ d ∷ p)
      ≡ starts_with (codes "/*") (first_line ((c ∷ d ∷ p) ∷ ps))
unfolding first_line
two_on-starts_with c d p [] = refl
two_on-starts_with c d p (t ∷ ts) = without_return-starts_with c d p

-- The first line of a text begins with two characters that are no line break if the text does.
split-starts_with :
    (content : Str)
    → starts_with (codes "/*") content ≡ starts_with (codes "/*") (first_line (split 10 content))
unfolding starts_with split first_line strip_suffix
split-starts_with [] = refl
split-starts_with (c ∷ []) = ground arith
split-starts_with (c ∷ d ∷ s) = elim (Bool-cases (c == 10)) [
  | inl e ↦ elim (Bool-cases (d == 10)) [
    | inl f ↦ rw (e, f) (ground arith)
    | inr f ↦ let (p, ps, h) = split_cons 10 s in rw (e, f, h) (ground arith)
  ]
  | inr e ↦ elim (Bool-cases (d == 10)) [
    | inl f ↦ let (p, ps, h) = split_cons 10 s in rw (e, f, h) (ground arith)
    | inr f ↦ let (p, ps, h) = split_cons 10 s in rw (e, f, h) (two_on-starts_with c d p ps)
  ]
]

first_line-starts_with :
    (content : Str)
    → starts_with (codes "/*") content
      ≡ starts_with (codes "/*") (unwrap_or (get_elem? (str_lines content) 0) [])
unfolding str_lines first_line
first_line-starts_with content = split-starts_with content

module _ (layouts : Table → List Layout) (R : Regex) (decode : Str → Str)
    (read_record : Str → Result FecError (Option (List Str))) (options : ParseOptions)
    (listed : IsListed layouts) where
  -- The loop of a delimited filing, behind its two leading lines.
  behind_cover : List (ℕ × Str) → Result FecError Filing → Read
  behind_cover ls r = do
    parsed ← r
    end ← new_body layouts R (start options parsed) parsed.version ls
    ok (Parse.finish parsed end)

  preamble-Agrees :
      (src : LineSource) (r : Result FecError Preamble) (ls : List (ℕ × Str))
      → pending decode src ≡ given ls
      → filing_of layouts R decode read_record options
          (with_preamble layouts R decode read_record options src r)
        ≡ some (behind_cover ls (r >>= λ p. ok (into_filing p [])))
  unfolding into_filing behind_cover
  preamble-Agrees src (err e) ls h = refl
  preamble-Agrees src (ok p) ls h =
      hold_first_body_line-Agrees layouts R decode read_record options (suc (lines_left src)) src p
        ls (omega arith) h

  delimited-Agrees :
      (src : LineSource) (header : ℕ × Str) (ls : List (ℕ × Str))
      → pending decode src ≡ given ls
      → filing_of layouts R decode read_record options
          (open_delimited layouts R decode read_record options header.1 (next_line decode src))
        ≡ some (
            leading (header ∷ ls) >>= λ (l : (ℕ × Str) × (ℕ × Str) × List (ℕ × Str)).
            behind_cover l.2 (
              parse_header_and_summary R layouts
                (split_new_delimited l.0.1)
                (split_new_delimited l.1.1)
                2))
  unfolding from_fields
  delimited-Agrees src header [] h = let (rest, e) = gives-nil decode src h in rw e refl
  delimited-Agrees src header (summary ∷ ls) h =
      let (rest, e, w, l) = gives-cons decode src summary ls h in
      rw e (
        preamble-Agrees rest _ ls w
        ∙ ap (λ x. some (behind_cover ls x))
            (sym (
              from_fields_at-Agrees layouts R listed (split_new_delimited header.1)
                (split_new_delimited summary.1) 2)))

  -- The records behind the two leading ones.
  csv_behind : List (ℕ × Str) → Result FecError Filing → Read
  csv_behind ls r = do
    parsed ← r
    end ← old_body layouts R read_record (start options parsed) parsed.version ls
    ok (Parse.finish parsed end)

  csv_leading : (ℕ × Str) × (ℕ × Str) × List (ℕ × Str) → Read
  csv_leading (header, summary, ls) = do
    header_fields ← split_old_delimited read_record header.1
    summary_fields ← split_old_delimited read_record summary.1
    csv_behind ls (parse_header_and_summary R layouts header_fields summary_fields summary.0)

  csv_reader-Agrees :
      (src : LineSource) (r : Result FecError Preamble) (ls : List (ℕ × Str))
      → pending decode src ≡ given ls
      → filing_of layouts R decode read_record options
          (some (r >>= λ p. ok (csv_reader layouts R decode read_record options src p)))
        ≡ some (csv_behind (non_blank ls) (r >>= λ p. ok (into_filing p [])))
  unfolding into_filing csv_behind all_lines
  csv_reader-Agrees src (err e) ls h = refl
  csv_reader-Agrees src (ok p) ls h =
      collect-Ready layouts R decode read_record (suc (lines_left src))
        (records_of src p (Body.new p.version options)) [] (new-Ready p.version options)
      ∙ next_csv-Agrees layouts R decode read_record (suc (lines_left src)) (suc (lines_left src))
          (suc (lines_left src)) src [] p (Body.new p.version options) p.version ls (omega arith)
          (omega arith) (omega arith) h (new-Ready p.version options) refl

  csv_fields-Agrees :
      (a b : Result FecError (List Str)) (n : ℕ) (ls : List (ℕ × Str))
      → csv_behind ls
          ((a >>= λ x. b >>= λ y. from_fields_at layouts R x y n) >>= λ p. ok (into_filing p []))
        ≡ (a >>= λ x. b >>= λ y. csv_behind ls (parse_header_and_summary R layouts x y n))
  unfolding csv_behind
  csv_fields-Agrees (err e) b n ls = refl
  csv_fields-Agrees (ok x) (err e) n ls = refl
  csv_fields-Agrees (ok x) (ok y) n ls =
      ap (csv_behind ls) (sym (from_fields_at-Agrees layouts R listed x y n))

  summary-Agrees :
      (src : LineSource) (header : ℕ × Str) (ls : List (ℕ × Str))
      → pending decode src ≡ given ls
      → filing_of layouts R decode read_record options (
          open_summary layouts R decode read_record options header.1
            (next_non_blank_line decode (suc (lines_left src)) src))
        ≡ some (leading (header ∷ non_blank ls) >>= csv_leading)
  unfolding csv_leading
  summary-Agrees src header ls h =
      elim (next_non_blank_line-NonBlank decode (suc (lines_left src)) src ls (omega arith) h) [
        | inl (rest, e, m) ↦ rw (e, m) refl
        | inr ((n, raw), rest, ms, e, w, m, l) ↦
            rw (e, m)
              (csv_reader-Agrees rest
                  (csv_preamble layouts R decode read_record options header.1 n raw) ms w
                ∙ ap some (
                    csv_fields-Agrees (split_old_delimited read_record header.1)
                      (split_old_delimited read_record raw) n (non_blank ms)))
      ]

  header-Agrees :
      (src : LineSource) (ls : List (ℕ × Str))
      → pending decode src ≡ given ls
      → filing_of layouts R decode read_record options (
          open_header layouts R decode read_record options
            (next_non_blank_line decode (suc (lines_left src)) src))
        ≡ some (leading (non_blank ls) >>= csv_leading)
  header-Agrees src ls h =
      elim (next_non_blank_line-NonBlank decode (suc (lines_left src)) src ls (omega arith) h) [
        | inl (rest, e, m) ↦ rw (e, m) refl
        | inr ((n, raw), rest, ms, e, w, m, l) ↦ rw (e, m) (summary-Agrees rest (n, raw) ms w)
      ]

  csv-Agrees :
      (src : LineSource) (header : ℕ × Str) (ls : List (ℕ × Str))
      → pending decode src ≡ given ls
      → filing_of layouts R decode read_record options
          (open_csv layouts R decode read_record options header.1 src)
        ≡ some (leading (non_blank (header ∷ ls)) >>= csv_leading)
  csv-Agrees src header ls h = elim (Bool-cases (is_blank header.1)) [
    | inl q ↦ rw q (header-Agrees src ls h)
    | inr q ↦ rw q (summary-Agrees src header ls h)
  ]

  -- The whole-filing parser, over the lines of the text.
  delimited_lines : List (ℕ × Str) → Read
  delimited_lines ls = leading ls >>= λ (l : (ℕ × Str) × (ℕ × Str) × List (ℕ × Str)).
      behind_cover l.2 (
        parse_header_and_summary R layouts (split_new_delimited l.0.1) (split_new_delimited l.1.1)
          2)

  parse_lines : Bool → Str → List (ℕ × Str) → Read
  parse_lines deprecated first ls =
      if deprecated
      then err deprecated_header_format
      else if contains (λ c. c == 0x1c) first
      then delimited_lines ls
      else (leading (non_blank ls) >>= csv_leading)

  parse_with-lines :
      (content : Str)
      → parse_with layouts R read_record content options
        ≡ parse_lines
            (starts_with (codes "/*") content)
            (unwrap_or (get_elem? (str_lines content) 0) [])
            (numbered_lines content)
  unfolding parse_with parse_new_delimited parse_old_delimited parse_lines delimited_lines
      csv_leading behind_cover csv_behind
  parse_with-lines content = refl

  abbrev first_of : List (ℕ × Str) → Str
  first_of [] = []
  first_of (l ∷ ls) = l.1

  lines-Agrees :
      (reader : Reads) (ls : List (ℕ × Str))
      → pending decode (new reader) ≡ given ls
      → read_filing layouts R decode read_record options reader
        ≡ some (parse_lines (starts_with (codes "/*") (first_of ls)) (first_of ls) ls)
  unfolding read_filing with_options parse_lines delimited_lines
  lines-Agrees reader [] h = let (rest, e) = gives-nil decode (new reader) h in rw e refl
  lines-Agrees reader ((n, raw) ∷ ls) h =
      let (rest, e, w, l) = gives-cons decode (new reader) (n, raw) ls h in
      elim (Bool-cases (starts_with (codes "/*") raw)) [
        | inl q ↦ rw (e, q) refl
        | inr q ↦ elim (Bool-cases (contains (λ c. c == 0x1c) raw)) [
          | inl d ↦ rw (e, q, d) (delimited-Agrees rest (n, raw) ls w)
          | inr d ↦ rw (e, q, d) (csv-Agrees rest (n, raw) ls w)
        ]
      ]

  first_of-number : (n : ℕ) (ls : List Str) → first_of (number n ls) ≡ unwrap_or (get_elem? ls 0) []
  first_of-number n [] = refl
  first_of-number n (l ∷ ls) = refl

  first_of-numbered :
      (content : Str)
      → first_of (numbered_lines content) ≡ unwrap_or (get_elem? (str_lines content) 0) []
  unfolding numbered_lines
  first_of-numbered content = first_of-number 1 (str_lines content)

  -- When the layouts listed for each table are the table's own, and the lines that the reads decode
  -- to are the lines of a text, reading the filing record by record gives what parsing the text
  -- whole does: the same filing and the same skipped lines, or the same error, for either delimiter
  -- and any options.
  pub read_filing-parse_with :
      (reader : Reads) (content : Str)
      → pending decode (new reader) ≡ given (numbered_lines content)
      → read_filing layouts R decode read_record options reader
        ≡ some (parse_with layouts R read_record content options)
  read_filing-parse_with reader content h =
      lines-Agrees reader (numbered_lines content) h
      ∙ ap some (
          ap (λ f. parse_lines (starts_with (codes "/*") f) f (numbered_lines content))
            (first_of-numbered content)
          ∙ ap
              (λ d.
                parse_lines d (unwrap_or (get_elem? (str_lines content) 0) [])
                  (numbered_lines content))
              (sym (first_line-starts_with content))
          ∙ sym (parse_with-lines content))
