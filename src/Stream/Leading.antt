-- ===== src/Stream/Leading.antt =====
-- What a reader does between the cover and the first record, against the loop of a whole filing.
use hardmoney.Version.{SpecVersion}
use hardmoney.Error.{FecError}
use hardmoney.Form.{Regex}
use hardmoney.Layout.{Layout}
use hardmoney.Stream.Blocks.{BlockAgrees, read_text_block-Agrees, gives-held, gives-nil, given}
use hardmoney.Text.{Str}
use hardmoney.Line.{ParsedLine}
use hardmoney.Table.{Table}
use hardmoney.Stream.Pending.{pending}
use hardmoney.Filing.{Filing, Lenient, ParseOptions}
use hardmoney.Prelude.{
  ◌∙◌, [], ◌∷◌, ap, arith, Bool, Option, ◌∷◌, List, refl, suc, zero, true, none, some, inl, inr,
  ◌≡◌, ◌≤◌, ◌<◌, ℕ,
}
use hardmoney.Prelude.Result.{ok, Result}
use hardmoney.Filing.Body.{
  attach_free_text, is_blank, is_marker, State, between, in_block, new_body, with_text,
}
use hardmoney.Filing.Body as Eager
use hardmoney.Stream.{Preamble, into_filing}
use hardmoney.Stream.Source.{
  cover_block, classify-cases, hold_first_body_line, LineSource, lines_left,
}
use hardmoney.Stream.Body.{Body, cover}
use hardmoney.Stream.Body as Body
use hardmoney.Stream.Reader.{collect, all_lines, lines_of}
use hardmoney.Stream.Open.{with_first, filing_of}
use hardmoney.Stream.Agree.{Ready}
use hardmoney.Stream.Pending.{Lines}
use hardmoney.Stream.Refines.{next_delimited-Agrees, collect-Ready, eager_end}

abbrev cover_state : ParseOptions → ParsedLine → State
cover_state options summary = record { mode = between; acc = Eager.new options; summary = summary }

held_back :
    (decode : Str → Str) (src : LineSource) (l : ℕ × Str) (ls : List (ℕ × Str))
    → src.held ≡ none
    → pending decode src ≡ given ls
    → (pending decode (record src { held = some l }) ≡ given (l ∷ ls))
      × (lines_left (record src { held = some l }) ≡ suc (lines_left src))
unfolding pending
held_back decode src l ls h p = (ap (λ (t : Lines). ok l ∷ t) (rw h at p), rw h (omega arith))

pub new-Ready :
    (version : SpecVersion) (options : ParseOptions) → Ready [] (Body.new version options)
new-Ready version options = ((refl, refl), refl, inr (refl, refl))

module _ (layouts : Table → List Layout) (R : Regex) (decode : Str → Str)
    (read_record : Str → Result FecError (Option (List Str))) (options : ParseOptions) where
  -- The rest of a read, from the reader that `hold_first_body_line` leaves.
  abbrev pub read_on :
      Preamble
      → Option (Result FecError Bool × LineSource × ParsedLine)
      → Option (Result FecError (Lenient Filing))
  read_on p o =
      filing_of layouts R decode read_record options
        (with_first layouts R decode read_record options p o)

  read_all-held :
      (src : LineSource) (p : Preamble) (ls : List (ℕ × Str))
      → pending decode src ≡ given ls
      → all_lines layouts R decode read_record (lines_of src p (Body.new p.version options))
        ≡ eager_end p (new_body layouts R (cover_state options p.summary) p.version ls)
  unfolding all_lines
  read_all-held src p ls h =
      collect-Ready layouts R decode read_record (suc (lines_left src))
        (lines_of src p (Body.new p.version options)) [] (new-Ready p.version options)
      ∙ next_delimited-Agrees layouts R decode read_record (suc (lines_left src))
          (suc (lines_left src)) (suc (lines_left src)) src [] p (Body.new p.version options)
          p.version ls (omega arith) (omega arith) (omega arith) h (new-Ready p.version options)
          refl

  read_all-done :
      (src : LineSource) (p : Preamble)
      → all_lines layouts R decode read_record
          (lines_of src p (record (Body.new p.version options) { done = true }))
        ≡ eager_end p (ok (cover_state options p.summary))
  unfolding all_lines collect into_filing
  read_all-done src p = refl

  cover_block-Agrees :
      (m : ℕ) (p : Preamble) (eager : Result FecError State)
      (again : LineSource → ParsedLine → Option (Result FecError Bool × LineSource × ParsedLine))
      (o : Option (Result FecError Str × LineSource))
      → BlockAgrees layouts R decode m (cover_state options p.summary) p.version eager o
      → ((src : LineSource) (q : Preamble) (ls : List (ℕ × Str))
          → lines_left src ≤ m
          → pending decode src ≡ given ls
          → read_on q (again src q.summary)
            ≡ eager_end q (new_body layouts R (cover_state options q.summary) q.version ls))
      → read_on p (cover_block decode again p.summary o) ≡ eager_end p eager
  unfolding attach_free_text
  cover_block-Agrees m p eager again o (inl (e, rest, g, q)) h = rw (g, q) refl
  cover_block-Agrees m p eager again o (inr (text, rest, ls, g, w, l, q)) h =
      rw (g, q) (h rest (record p { summary = with_text text p.summary }) ls l w)

  -- The blocks before the first record go to the cover in both.
  pub hold_first_body_line-Agrees :
      (fuel : ℕ) (src : LineSource) (p : Preamble) (ls : List (ℕ × Str))
      → lines_left src < fuel
      → pending decode src ≡ given ls
      → read_on p (hold_first_body_line decode fuel src p.summary)
        ≡ eager_end p (new_body layouts R (cover_state options p.summary) p.version ls)
  unfolding hold_first_body_line new_body
  hold_first_body_line-Agrees zero src p ls f h = absurd (omega arith)
  hold_first_body_line-Agrees (suc fuel) src p [] f h =
      let (rest, e) = gives-nil decode src h in rw e (read_all-done rest p)
  hold_first_body_line-Agrees (suc fuel) src p ((n, raw) ∷ ls) f h =
      let (rest, e, w, l, u) = gives-held decode src (n, raw) ls h in
      elim (classify-cases raw) [
        | inl (c, t) ↦
            rw (e, c, t) (hold_first_body_line-Agrees fuel rest p ls (omega (arith, f, l)) w)
        | inr (inl (c, t, m)) ↦
            rw (e, c, t, m)
              (cover_block-Agrees (lines_left rest) p _
                (λ s q. hold_first_body_line decode fuel s q) _
                (read_text_block-Agrees layouts R decode (suc (lines_left rest)) rest n true [] []
                  ls (cover_state options p.summary) p.version (omega arith) w refl refl)
                (λ s q ms a g. hold_first_body_line-Agrees fuel s q ms (omega (arith, f, l, a)) g))
        | inr (inr (c, t, m)) ↦
            let (g, k) = held_back decode rest (n, raw) ls u w in
            rw (e, c) (read_all-held (record rest { held = some (n, raw) }) p ((n, raw) ∷ ls) g)
      ]
