-- ===== src/Stream/Fused.antt =====
-- The reader as an iterator, call by call.
use hardmoney.Prelude.{ap, suc}
use hardmoney.Line.{ParsedLine}
use hardmoney.Error.{FecError}
use hardmoney.Text.{Str}
use hardmoney.Form.{Regex}
use hardmoney.Layout.{Layout}
use hardmoney.Table.{Table}
use hardmoney.Prelude.Result.{Result, ok, err}
use hardmoney.Prelude.{
  arith, Option-cases, ◌≤◌, Option, List, ◌⊎◌, zero, refl, suc, true, false, none, some, inl, inr,
  ◌≡◌, ℕ,
}
use hardmoney.Stream.{Preamble}
use hardmoney.Stream.Source.{lines_left}
use hardmoney.Stream.Body.{Body, Item}
use hardmoney.Stream.Reader.{
  unless_done, next_after, next, collect, on_item, next_of, source_lines, FilingReader, Yield,
  Source, delimited, csv,
}
use hardmoney.Stream.Total.{next_delimited-Progresses, next_csv-Progresses}
use hardmoney.Stream.Progress.{IsExhausted, Progresses, IsLive}

-- An error is deferred only by a body that is done.
abbrev pub IsSound : Body → Type 0
IsSound b = (b.done ≡ true) ⊎ IsLive b

-- The end, or an error.
abbrev pub IsLast : Item → Type 0
IsLast none = Unit {0}
IsLast (some (err e)) = Unit {0}
IsLast (some (ok line)) = ⊥

module _ (layouts : Table → List Layout) (R : Regex) (decode : Str → Str)
    (read_record : Str → Result FecError (Option (List Str))) where
  next_of-Progresses :
      (s : Source) (p : Preamble) (b : Body)
      → IsLive b
      → Progresses (lines_left (source_lines s)) (next_of layouts R decode read_record s p b)
  next_of-Progresses (delimited src) p b live =
      next_delimited-Progresses layouts R decode read_record _ src p b (omega arith) live
  next_of-Progresses (csv src) p b live =
      next_csv-Progresses layouts R decode read_record _ src p b (omega arith) live

  next_after-live :
      (o : Option FecError) (r : FilingReader)
      → o ≡ none
      → r.body.done ≡ false
      → next_after layouts R decode read_record o r
        ≡ next_of layouts R decode read_record r.source r.preamble r.body
  next_after-live none r f d = ap (unless_done layouts R decode read_record r) d
  next_after-live (some e) r f d = absurd (cc f)

  pub next-live :
      (r : FilingReader)
      → IsLive r.body
      → next layouts R decode read_record r
        ≡ next_of layouts R decode read_record r.source r.preamble r.body
  unfolding next
  next-live r (d, f) = next_after-live r.body.deferred r f d

  pub next-Progresses :
      (r : FilingReader)
      → IsLive r.body
      → Progresses (lines_left (source_lines r.source)) (next layouts R decode read_record r)
  next-Progresses r live =
      rw (next-live r live) (next_of-Progresses r.source r.preamble r.body live)

  pub next-exhausted :
      (r : FilingReader) → IsExhausted r.body → next layouts R decode read_record r ≡ some (none, r)
  unfolding next
  next-exhausted r (d, f) = rw (f, d) refl

  pub next-deferred :
      (r : FilingReader) (e : FecError)
      → r.body.deferred ≡ some e
      → next layouts R decode read_record r
        ≡ some (some (err e), record r { body = record r.body { deferred = none } })
  unfolding next
  next-deferred r e f = rw f refl

  -- A record and a sound reader, or the last item and a reader that gives the end for good.
  abbrev pub Fused : Yield → Type 0
  Fused y =
      ((line : ParsedLine) × (r : FilingReader) × (y ≡ some (some (ok line), r)) × IsSound r.body)
      ⊎ ((item : Item) × (r : FilingReader) × (y ≡ some (item, r))
          × IsLast item
          × IsSound r.body
          × (next layouts R decode read_record r ≡ some (none, r)))

  progress-Fused : (n : ℕ) (y : Yield) → Progresses n y → Fused y
  progress-Fused n y (none, r, e, p) = inr (none, r, e, tt, inl p.0, next-exhausted r p)
  progress-Fused n y (some (err f), r, e, p) =
      inr (some (err f), r, e, tt, inl p.0, next-exhausted r p)
  progress-Fused n y (some (ok line), r, e, inl d) = inl (line, r, e, inl d)
  progress-Fused n y (some (ok line), r, e, inr p) = inl (line, r, e, inr p.1)

  -- A call of `next` on a reader whose body defers an error only once it is done always returns, and
  -- leaves such a reader; when it gives the end or an error, the call after it gives the end and
  -- leaves the reader as it is.
  pub next-Fused : (r : FilingReader) → IsSound r.body → Fused (next layouts R decode read_record r)
  next-Fused r (inr live) = progress-Fused _ _ (next-Progresses r live)
  next-Fused r (inl d) = elim (Option-cases r.body.deferred) [
    | inl f ↦ inr (none, r, next-exhausted r (d, f), tt, inl d, next-exhausted r (d, f))
    | inr (e, f) ↦ inr (some (err e), _, next-deferred r e f, tt, inl d, next-exhausted _ (d, refl))
  ]

  -- Enough fuel for `collect` from a reader.
  abbrev pub Suffices : ℕ → FilingReader → Type 0
  Suffices n r =
      ((r.body.done ≡ true) × (1 ≤ n))
      ⊎ (IsLive r.body × (suc (suc (lines_left (source_lines r.source))) ≤ n))

  abbrev pub Returns {ℓ} : {A : Type ℓ} → Option A → Type ℓ
  Returns {A = A} o = (a : A) × (o ≡ some a)

  on_item-Returns :
      (fuel m : ℕ)
      (again : FilingReader
        → List ParsedLine
        → Option (Result FecError (List ParsedLine × FilingReader)))
      (out : List ParsedLine) (y : Yield)
      → suc m ≤ fuel
      → Progresses m y
      → ((r : FilingReader) (o : List ParsedLine) → Suffices fuel r → Returns (again r o))
      → Returns (on_item layouts R decode read_record again out y)
  on_item-Returns fuel m again out y h (none, r, e, p) k = rw e (_, refl)
  on_item-Returns fuel m again out y h (some (err f), r, e, p) k = rw e (_, refl)
  on_item-Returns fuel m again out y h (some (ok line), r, e, inl d) k =
      rw e (k r _ (inl (d, omega (arith, h))))
  on_item-Returns fuel m again out y h (some (ok line), r, e, inr (s, live)) k =
      rw e (k r _ (inr (live, omega (arith, h, s))))

  pub collect-Returns :
      (fuel : ℕ) (r : FilingReader) (out : List ParsedLine)
      → Suffices fuel r
      → Returns (collect layouts R decode read_record fuel r out)
  unfolding collect
  collect-Returns zero r out (inl (d, h)) = absurd (omega (arith, h))
  collect-Returns zero r out (inr (d, h)) = absurd (omega (arith, h))
  collect-Returns (suc fuel) r out (inl (d, h)) = elim (Option-cases r.body.deferred) [
    | inl f ↦ rw (next-exhausted r (d, f)) (_, refl)
    | inr (e, f) ↦ rw (next-deferred r e f) (_, refl)
  ]
  collect-Returns (suc fuel) r out (inr (live, h)) =
      on_item-Returns fuel (lines_left (source_lines r.source)) _ out _ (omega (arith, h))
        (next-Progresses r live) (λ s o k. collect-Returns fuel s o k)
