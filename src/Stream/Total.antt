-- ===== src/Stream/Total.antt =====
-- What a call of `next` comes to, with I/O errors among the reads.
use hardmoney.Filing.Body.{split_new_delimited, split_old_delimited}
use hardmoney.Stream.Ends.{read_text_block-Within, next_non_blank_line-Within, Within}
use hardmoney.Error.{FecError}
use hardmoney.Prelude.Result.{err, ok, Result}
use hardmoney.Form.{Regex}
use hardmoney.Text.{Str}
use hardmoney.Layout.{Layout}
use hardmoney.Line.{ParsedLine}
use hardmoney.Table.{Table}
use hardmoney.Prelude.{
  [], all_b, Bool-cases, ◌≤◌, arith, Option, List, zero, refl, suc, true, none, some, inl, inr, ◌≡◌,
  ◌<◌, ℕ,
}
use hardmoney.Stream.{Preamble}
use hardmoney.Stream.Source.{classify-cases, LineSource, lines_left}
use hardmoney.Stream.Body.{attach_text, Body, Item}
use hardmoney.Stream.Reader.{
  on_block, unless_out, on_csv_line, on_csv_fields, on_fields, source_lines, Yield, next_csv,
  next_delimited, Source, delimited, csv,
}
use hardmoney.Stream.Pending.{source-Gives}
use hardmoney.Filing.Body.{is_blank, split_old_delimited}
use hardmoney.Stream.Progress.{
  accept-Accepted, finish-Progresses, progress_less, fail_with-Progresses, Progresses, Accepted,
  IsLive, reader_of,
}

attach_text-IsLive :
    (b : Body) (summary : ParsedLine) (text : Str)
    → IsLive b
    → IsLive ((attach_text b summary text).0)
unfolding attach_text
attach_text-IsLive b summary text live = live

module _ (layouts : Table → List Layout) (R : Regex) (decode : Str → Str)
    (read_record : Str → Result FecError (Option (List Str))) where
  unless_out-Progresses :
      (n : ℕ) (s : Source) (p : Preamble) (again : Body → Yield) (out : Item × Body)
      → Accepted n s p out
      → ((c : Body) → IsLive c → Progresses n (again c))
      → Progresses n (unless_out again (reader_of s p) out)
  unless_out-Progresses n s p again (none, b) live h = h b live
  unless_out-Progresses n s p again (some item, b) prog h = (some item, _, refl, prog)

  on_fields-Progresses :
      (n : ℕ) (s : Source) (p : Preamble) (again : Body → Yield) (b : Body) (k : ℕ)
      (fields : List Str)
      → lines_left (source_lines s) < n
      → IsLive b
      → ((c : Body) → IsLive c → Progresses n (again c))
      → Progresses n (on_fields layouts R decode read_record again (reader_of s p) b k fields)
  on_fields-Progresses n s p again b k fields small live h =
      elim (Bool-cases (all_b is_blank fields)) [
        | inl q ↦ rw q (h b live)
        | inr q ↦ rw q (
            unless_out-Progresses n s p again _
              (accept-Accepted n s p small layouts R b fields k live) h)
      ]

  on_block-Progresses :
      (m n : ℕ) (again : LineSource → Preamble → Body → Yield) (p : Preamble) (b : Body)
      (o : Option (Result FecError Str × LineSource))
      → IsLive b
      → Within m o
      → ((src : LineSource) (q : Preamble) (c : Body)
          → lines_left src ≤ m
          → IsLive c
          → Progresses n (again src q c))
      → Progresses n (on_block layouts R decode read_record again p b o)
  on_block-Progresses m n again p b o live (err e, src, g, w) h =
      rw g (fail_with-Progresses n (delimited src) p b e live)
  on_block-Progresses m n again p b o live (ok text, src, g, w) h = rw g (
      h src (record p { summary = (attach_text b p.summary text).1 })
        ((attach_text b p.summary text).0) w (attach_text-IsLive b p.summary text live))

  pub next_delimited-Progresses :
      (fuel : ℕ) (src : LineSource) (p : Preamble) (b : Body)
      → lines_left src < fuel
      → IsLive b
      → Progresses (lines_left src) (next_delimited layouts R decode read_record fuel src p b)
  unfolding next_delimited
  next_delimited-Progresses zero src p b h live = absurd (omega arith)
  next_delimited-Progresses (suc fuel) src p b h live = elim (source-Gives decode src) [
    | inl (q, z, rest, e, k) ↦ rw e (finish-Progresses (lines_left src) (delimited rest) p b live)
    | inr (err f, rest, e, q, k, u) ↦
        rw e (fail_with-Progresses (lines_left src) (delimited rest) p b f live)
    | inr (ok (n, raw), rest, e, q, k, u) ↦ elim (classify-cases raw) [
      | inl (c, t) ↦
          rw (e, c)
            (progress_less (lines_left rest) (lines_left src) _ (omega arith)
              (next_delimited-Progresses fuel rest p b (omega arith) live))
      | inr (inl (c, t, m)) ↦
          rw (e, c)
            (on_block-Progresses (lines_left rest) (lines_left src)
              (λ s x y. next_delimited layouts R decode read_record fuel s x y) p b _ live
              (read_text_block-Within decode (suc (lines_left rest)) rest n true [] (omega arith))
              (λ last x y w l.
                progress_less (lines_left last) (lines_left src) _ (omega (arith, w))
                  (next_delimited-Progresses fuel last x y (omega (arith, w)) l)))
      | inr (inr (c, t, m)) ↦
          rw (e, c)
            (on_fields-Progresses (lines_left src) (delimited rest) p
              (λ y. next_delimited layouts R decode read_record fuel rest p y) b n
              (split_new_delimited raw) (omega arith) live
              (λ y l.
                progress_less (lines_left rest) (lines_left src) _ (omega arith)
                  (next_delimited-Progresses fuel rest p y (omega arith) l)))
    ]
  ]

  on_csv_fields-Progresses :
      (n : ℕ) (rest : LineSource) (p : Preamble) (again : Body → Yield) (b : Body) (k : ℕ)
      (r : Result FecError (List Str))
      → lines_left rest < n
      → IsLive b
      → ((c : Body) → IsLive c → Progresses n (again c))
      → Progresses n
          (on_csv_fields layouts R decode read_record again (reader_of (csv rest) p) b k r)
  on_csv_fields-Progresses n rest p again b k (err e) small live h =
      fail_with-Progresses n (csv rest) p b e live
  on_csv_fields-Progresses n rest p again b k (ok fields) small live h =
      on_fields-Progresses n (csv rest) p again b k fields small live h

  -- A line that comes leaves fewer lines.
  abbrev Shorter : ℕ → Result FecError (Option (ℕ × Str)) → LineSource → Type 0
  Shorter n a rest = (l : ℕ × Str) → a ≡ ok (some l) → lines_left rest < n

  on_csv_line-Progresses :
      (n : ℕ) (again : LineSource → Body → Yield) (p : Preamble) (b : Body)
      (a : Result FecError (Option (ℕ × Str))) (rest : LineSource)
      → IsLive b
      → Shorter n a rest
      → ((c : Body) → lines_left rest < n → IsLive c → Progresses n (again rest c))
      → Progresses n (on_csv_line layouts R decode read_record again p b (some (a, rest)))
  on_csv_line-Progresses n again p b (err e) rest live s h =
      fail_with-Progresses n (csv rest) p b e live
  on_csv_line-Progresses n again p b (ok none) rest live s h =
      finish-Progresses n (csv rest) p b live
  on_csv_line-Progresses n again p b (ok (some (k, raw))) rest live s h =
      on_csv_fields-Progresses n rest p (λ c. again rest c) b k
        (split_old_delimited read_record raw) (s (k, raw) refl) live
        (λ c l. h c (s (k, raw) refl) l)

  pub next_csv-Progresses :
      (fuel : ℕ) (src : LineSource) (p : Preamble) (b : Body)
      → lines_left src < fuel
      → IsLive b
      → Progresses (lines_left src) (next_csv layouts R decode read_record fuel src p b)
  unfolding next_csv
  next_csv-Progresses zero src p b h live = absurd (omega arith)
  next_csv-Progresses (suc fuel) src p b h live =
      let (a, rest, g, w, s) =
        next_non_blank_line-Within decode (suc (lines_left src)) src (omega arith) in
      rw g (
        on_csv_line-Progresses (lines_left src)
          (λ t c. next_csv layouts R decode read_record fuel t p c) p b a rest live s
          (λ c m l.
            progress_less (lines_left rest) (lines_left src) _ (omega (arith, m))
              (next_csv-Progresses fuel rest p c (omega (arith, m)) l)))
