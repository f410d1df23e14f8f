-- ===== src/Stream/Csv.antt =====
-- A comma-delimited filing, record by record, against the loop over its lines that are not blank.
use hardmoney.Stream.Progress.{reader_of}
use hardmoney.Version.{SpecVersion}
use hardmoney.Line.{ParsedLine}
use hardmoney.Stream.Blocks.{gives-cons, gives-nil, given}
use hardmoney.Error.{FecError}
use hardmoney.Form.{Regex}
use hardmoney.Stream.Pending.{pending}
use hardmoney.Layout.{Layout}
use hardmoney.Table.{Table}
use hardmoney.Text.{Str}
use hardmoney.Prelude.{
  ap, Bool-cases, ◌++◌, ◌∷◌, ◌⊎◌, [], arith, ◌∙◌, ◌<◌, Option, List, refl, suc, zero, none, some,
  inl, inr, ◌≡◌, ℕ, keep, not,
}
use hardmoney.Prelude.Result.{err, ok, Result, ◌>>=◌}
use hardmoney.Filing.Body.{is_blank, old_body, split_old_delimited, push_fields}
use hardmoney.Stream.{Preamble}
use hardmoney.Stream.Source.{LineSource, lines_left, next_non_blank_line}
use hardmoney.Stream.Body.{Body}
use hardmoney.Stream.Reader.{collect, gathered, Yield, csv, next_csv, on_csv_fields}
use hardmoney.Stream.Agree.{Ready, state_of}
use hardmoney.Stream.Refines.{
  fields-Agrees, fail_with-Agrees, collect-Ready, finish-Agrees, gathered_from, eager_end,
}

abbrev pub non_blank : List (ℕ × Str) → List (ℕ × Str)
non_blank ls = keep (λ l. not (is_blank l.1)) ls

module _ (decode : Str → Str) where
  -- The next line that is not blank, if there is one.
  abbrev pub NonBlank :
      LineSource
      → List (ℕ × Str)
      → Option (Result FecError (Option (ℕ × Str)) × LineSource)
      → Type 0
  NonBlank src ls o =
      ((rest : LineSource) × (o ≡ some (ok none, rest)) × (non_blank ls ≡ []))
      ⊎ ((l : ℕ × Str) × (rest : LineSource) × (ms : List (ℕ × Str)) × (o
            ≡ some (ok (some l), rest))
          × (pending decode rest ≡ given ms)
          × (non_blank ls ≡ l ∷ non_blank ms)
          × (lines_left rest < lines_left src))

  nearer :
      (s t : LineSource) (ls : List (ℕ × Str))
      (o : Option (Result FecError (Option (ℕ × Str)) × LineSource))
      → lines_left t ≡ suc (lines_left s)
      → NonBlank s ls o
      → NonBlank t ls o
  nearer s t ls o h (inl (rest, e, n)) = inl (rest, e, n)
  nearer s t ls o h (inr (l, rest, ks, e, p, n, w)) =
      inr (l, rest, ks, e, p, n, omega (arith, h, w))

  pub next_non_blank_line-NonBlank :
      (fuel : ℕ) (src : LineSource) (ls : List (ℕ × Str))
      → lines_left src < fuel
      → pending decode src ≡ given ls
      → NonBlank src ls (next_non_blank_line decode fuel src)
  unfolding next_non_blank_line
  next_non_blank_line-NonBlank zero src ls h p = absurd (omega arith)
  next_non_blank_line-NonBlank (suc fuel) src [] h p =
      let (rest, e) = gives-nil decode src p in rw e (inl (rest, refl, refl))
  next_non_blank_line-NonBlank (suc fuel) src ((n, raw) ∷ ls) h p =
      let (rest, e, q, k) = gives-cons decode src (n, raw) ls p in
      elim (Bool-cases (is_blank raw)) [
        | inl b ↦
            rw (e, b)
              (nearer rest src ls _ k
                (next_non_blank_line-NonBlank fuel rest ls (omega (arith, h, k)) q))
        | inr b ↦ rw (e, b) (inr ((n, raw), rest, ls, refl, q, refl, omega (arith, k)))
      ]

module _ (layouts : Table → List Layout) (R : Regex) (decode : Str → Str)
    (read_record : Str → Result FecError (Option (List Str))) where
  record-Agrees :
      (k : ℕ) (out : List ParsedLine) (rest : LineSource) (p : Preamble) (b : Body)
      (version : SpecVersion) (again : Body → Yield) (n : ℕ) (r : Result FecError (List Str))
      (ls : List (ℕ × Str))
      → 0 < k
      → Ready out b
      → b.version ≡ version
      → ((c : Body)
          → Ready out c
          → c.version ≡ version
          → gathered_from layouts R decode read_record k out (again c)
            ≡ eager_end p (old_body layouts R read_record (state_of out c p.summary) version ls))
      → ((line : ParsedLine) (c : Body)
          → Ready (out ++ (line ∷ [])) c
          → c.version ≡ version
          → gathered layouts R decode read_record (
              collect layouts R decode read_record k
                (reader_of (csv rest) p c)
                (out ++ (line ∷ [])))
            ≡ eager_end p (
                old_body layouts R read_record
                  (state_of (out ++ (line ∷ [])) c p.summary)
                  version
                  ls))
      → gathered_from layouts R decode read_record k out
          (on_csv_fields layouts R decode read_record again (reader_of (csv rest) p) b n r)
        ≡ eager_end p (
            r >>= λ fields.
            push_fields layouts R (state_of out b p.summary) version n fields >>= λ st.
            old_body layouts R read_record st version ls)
  record-Agrees k out rest p b version again n (err e) ls pos ready v h g =
      fail_with-Agrees layouts R decode read_record k out (csv rest) p b e pos ready
  record-Agrees k out rest p b version again n (ok fields) ls pos ready v h g =
      fields-Agrees layouts R decode read_record k out (csv rest) p b again n fields
        (λ st. old_body layouts R read_record st version ls) pos ready (λ c r u. h c r (u ∙ v))
        (λ line c r u. g line c r (u ∙ v))
      ∙ ap
          (λ x. eager_end p (
            push_fields layouts R (state_of out b p.summary) x n fields >>= λ st.
            old_body layouts R read_record st version ls))
          v

  pub next_csv-Agrees :
      (n fuel k : ℕ) (src : LineSource) (out : List ParsedLine) (p : Preamble) (b : Body)
      (version : SpecVersion) (ls : List (ℕ × Str))
      → lines_left src < n
      → lines_left src < fuel
      → lines_left src < k
      → pending decode src ≡ given ls
      → Ready out b
      → b.version ≡ version
      → gathered_from layouts R decode read_record k out
          (next_csv layouts R decode read_record fuel src p b)
        ≡ eager_end p
            (old_body layouts R read_record (state_of out b p.summary) version (non_blank ls))
  unfolding next_csv old_body
  next_csv-Agrees zero fuel k src out p b version ls h f i q ready v = absurd (omega (arith, h))
  next_csv-Agrees (suc n) zero k src out p b version ls h f i q ready v = absurd (omega (arith, f))
  next_csv-Agrees (suc n) (suc fuel) zero src out p b version ls h f i q ready v =
      absurd (omega (arith, i))
  next_csv-Agrees (suc n) (suc fuel) (suc k) src out p b version ls h f i q ready v =
      elim (next_non_blank_line-NonBlank decode (suc (lines_left src)) src ls (omega arith) q) [
        | inl (rest, e, m) ↦
            rw (e, m)
              (finish-Agrees layouts R decode read_record (suc k) out (csv rest) p b (omega arith)
                ready)
        | inr ((num, raw), rest, ms, e, w, m, l) ↦
            rw (e, m)
              (record-Agrees (suc k) out rest p b version
                (λ c. next_csv layouts R decode read_record fuel rest p c) num
                (split_old_delimited read_record raw) (non_blank ms) (omega arith) ready v
                (λ c r u.
                  next_csv-Agrees n fuel (suc k) rest out p c version ms (omega (arith, h, l))
                    (omega (arith, f, l)) (omega (arith, i, l)) w r u)
                (λ line c r u.
                  collect-Ready layouts R decode read_record k (reader_of (csv rest) p c) _ r
                  ∙ next_csv-Agrees n (suc (lines_left rest)) k rest _ p c version ms
                      (omega (arith, h, l)) (omega arith) (omega (arith, i, l)) w r u))
      ]
