-- ===== src/Stream/Refines.antt =====
-- Collecting the items of a reader, against the loop over the lines of a whole filing.
use hardmoney.Version.{SpecVersion}
use hardmoney.Stream.Pending.{pending}
use hardmoney.Filing.{Filing, Lenient}
use hardmoney.Stream.Blocks.{
  read_text_block-Agrees, gives-cons, gives-nil, given, BlockAgrees, attached,
}
use hardmoney.Stream.Fused.{next-live, next-exhausted}
use hardmoney.Stream.Progress.{reader_of}
use hardmoney.Form.{Regex}
use hardmoney.Layout.{Layout}
use hardmoney.Error.{FecError}
use hardmoney.Line.{ParsedLine}
use hardmoney.Text.{Str}
use hardmoney.Table.{Table}
use hardmoney.Prelude.{
  all_b, Bool-cases, ◌∙◌, arith, ap, [], ◌∷◌, ◌++◌, Option, List, refl, suc, zero, true, some, inl,
  inr, ◌≡◌, ◌≤◌, ◌<◌, ℕ,
}
use hardmoney.Prelude.Result.{err, ok, Result, ◌>>=◌}
use hardmoney.Filing.Body.{
  attach_free_text, BodyAccumulator, is_blank, is_marker, split_new_delimited, split_old_delimited,
  State, between, in_block, new_body, old_body, on_last, push_fields, with_text, push_body_line,
}
use hardmoney.Filing.Body as Eager
use hardmoney.Stream.{Preamble, into_filing}
use hardmoney.Stream.Source.{classify-cases, LineSource, lines_left}
use hardmoney.Stream.Body.{fail_with, attach_text, Body, Item, discarded, finish}
use hardmoney.Stream.Reader.{
  next_delimited, on_block, next_of, on_fields, FilingReader, unless_out, Source, on_item, gathered,
  yielded, Yield, collect, delimited,
}
use hardmoney.Stream.Agree.{accept-ItemAgrees, ItemAgrees, Ready, state_of, collector}

on_last-snoc :
    (f : ParsedLine → ParsedLine) (ls : List ParsedLine) (l : ParsedLine)
    → on_last f (ls ++ (l ∷ [])) ≡ ls ++ (f l ∷ [])
on_last-snoc f [] l = refl
on_last-snoc f (x ∷ []) l = refl
on_last-snoc f (x ∷ y ∷ ls) l = ap (λ t. x ∷ t) (on_last-snoc f (y ∷ ls) l)

attach-snoc :
    (text : Str) (ls : List ParsedLine) (l summary : ParsedLine)
    → Eager.attach_to text (ls ++ (l ∷ [])) summary ≡ (ls ++ (with_text text l ∷ []), summary)
attach-snoc text [] l summary = refl
attach-snoc text (x ∷ ls) l summary =
    ap (λ (t : List ParsedLine). (t, summary)) (on_last-snoc (with_text text) (x ∷ ls) l)

-- A text block goes to the same record in both.
attach_text-Agrees :
    (out : List ParsedLine) (b : Body) (summary : ParsedLine) (text : Str)
    → Ready out b
    → (c : Body) × (p : ParsedLine) × (attach_text b summary text ≡ (c, p))
      × Ready out c
      × (c.version ≡ b.version)
      × (attached (state_of out b summary) text ≡ state_of out c p)
unfolding attach_text attach_free_text
attach_text-Agrees out b summary text (live, f, inl (line, h)) =
    rw (h, attach-snoc text out line summary) (_, _, refl, (live, f, inl (_, refl)), refl, refl)
attach_text-Agrees out b summary text (live, f, inr (h, o)) =
    rw (h, o) (_, _, refl, (live, f, inr (refl, refl)), refl, refl)

-- How the whole-filing loop ends, as the result of a read.
abbrev pub lenient_end : Preamble → State → Lenient Filing
lenient_end p st = record {
  value = into_filing (record p { summary = st.summary }) st.acc.lines;
  skipped = st.acc.skipped;
  first_error = st.acc.first_error;
}

abbrev pub eager_end : Preamble → Result FecError State → Option (Result FecError (Lenient Filing))
eager_end p r = some (r >>= λ st. ok (lenient_end p st))

module _ (layouts : Table → List Layout) (R : Regex) (decode : Str → Str)
    (read_record : Str → Result FecError (Option (List Str))) where
  -- The read goes on from what a call of `next` gives.
  abbrev pub gathered_from : ℕ → List ParsedLine → Yield → Option (Result FecError (Lenient Filing))
  gathered_from k out y = gathered layouts R decode read_record (
      on_item layouts R decode read_record (λ s o. collect layouts R decode read_record k s o) out
        y)

  pub fail_with-Agrees :
      (k : ℕ) (out : List ParsedLine) (s : Source) (p : Preamble) (b : Body) (e : FecError)
      → 0 < k
      → Ready out b
      → gathered_from k out (yielded (reader_of s p) (fail_with b e)) ≡ some (err e)
  unfolding fail_with collect
  fail_with-Agrees zero out s p b e h ready = absurd (omega (arith, h))
  fail_with-Agrees (suc k) out s p b e h (live, f, inl (line, g)) = rw g refl
  fail_with-Agrees (suc k) out s p b e h (live, f, inr (g, o)) = rw g refl

  pub finish-Agrees :
      (k : ℕ) (out : List ParsedLine) (s : Source) (p : Preamble) (b : Body)
      → 0 < k
      → Ready out b
      → gathered_from k out (yielded (reader_of s p) (finish b))
        ≡ eager_end p (ok (state_of out b p.summary))
  unfolding finish collect into_filing
  finish-Agrees zero out s p b h ready = absurd (omega (arith, h))
  finish-Agrees (suc k) out s p b h ((d, w), f, inl (line, g)) =
      rw
        (
          g,
          next-exhausted layouts R decode read_record
              (reader_of s p (record b { done = true; lookahead = discarded })) (refl, w),
        )
        refl
  finish-Agrees (suc k) out s p b h (live, f, inr (g, o)) = rw (g, o) refl

  unless_out-fail_with :
      (out : List ParsedLine) (s : Source) (p : Preamble) (b : Body) (e : FecError)
      (again : Body → Yield)
      → Ready out b
      → unless_out again (reader_of s p) (fail_with b e) ≡ yielded (reader_of s p) (fail_with b e)
  unfolding fail_with
  unless_out-fail_with out s p b e again (live, f, inl (line, g)) = rw g refl
  unless_out-fail_with out s p b e again (live, f, inr (g, o)) = rw g refl

  -- A record, by how its acceptance agrees with the whole-filing loop.
  item-Agrees :
      (k : ℕ) (out : List ParsedLine) (s : Source) (p : Preamble) (b : Body) (o : Item × Body)
      (again : Body → Yield) (eager : Result FecError BodyAccumulator)
      (later : State → Result FecError State)
      → 0 < k
      → Ready out b
      → ItemAgrees out b o eager
      → ((c : Body)
          → Ready out c
          → c.version ≡ b.version
          → gathered_from k out (again c) ≡ eager_end p (later (state_of out c p.summary)))
      → ((line : ParsedLine) (c : Body)
          → Ready (out ++ (line ∷ [])) c
          → c.version ≡ b.version
          → gathered layouts R decode read_record
              (collect layouts R decode read_record k (reader_of s p c) (out ++ (line ∷ [])))
            ≡ eager_end p (later (state_of (out ++ (line ∷ [])) c p.summary)))
      → gathered_from k out (unless_out again (reader_of s p) o)
        ≡ eager_end p
            ((eager >>= λ acc. ok (record (state_of out b p.summary) { acc = acc })) >>= later)
  item-Agrees k out s p b o again eager later pos ready (inl (c, e, r, v, q)) h g =
      rw (e, q) (h c r v)
  item-Agrees k out s p b o again eager later pos ready (inr (inl (line, c, e, r, v, q))) h g =
      rw (e, q) (g line c r v)
  item-Agrees k out s p b o again eager later pos ready (inr (inr (f, e, q))) h g =
      rw (e, q)
        (ap (gathered_from k out) (unless_out-fail_with out s p b f again ready)
          ∙ fail_with-Agrees k out s p b f pos ready)

  -- One record, in both.
  pub fields-Agrees :
      (k : ℕ) (out : List ParsedLine) (s : Source) (p : Preamble) (b : Body) (again : Body → Yield)
      (n : ℕ) (fields : List Str) (later : State → Result FecError State)
      → 0 < k
      → Ready out b
      → ((c : Body)
          → Ready out c
          → c.version ≡ b.version
          → gathered_from k out (again c) ≡ eager_end p (later (state_of out c p.summary)))
      → ((line : ParsedLine) (c : Body)
          → Ready (out ++ (line ∷ [])) c
          → c.version ≡ b.version
          → gathered layouts R decode read_record
              (collect layouts R decode read_record k (reader_of s p c) (out ++ (line ∷ [])))
            ≡ eager_end p (later (state_of (out ++ (line ∷ [])) c p.summary)))
      → gathered_from k out
          (on_fields layouts R decode read_record again (reader_of s p) b n fields)
        ≡ eager_end p
            (push_fields layouts R (state_of out b p.summary) b.version n fields >>= later)
  fields-Agrees k out s p b again n fields later pos ready h g =
      elim (Bool-cases (all_b is_blank fields)) [
        | inl q ↦ rw q (h b ready refl)
        | inr q ↦ rw q (
            item-Agrees k out s p b _ again
              (push_body_line layouts R (collector out b) fields b.version n) later pos ready
              (accept-ItemAgrees layouts R out b fields n ready) h g)
      ]

  -- A call of `next` on a reader that is ready, unfolded.
  pub collect-Ready :
      (k : ℕ) (r : FilingReader) (out : List ParsedLine)
      → Ready out r.body
      → gathered layouts R decode read_record (collect layouts R decode read_record (suc k) r out)
        ≡ gathered_from k out (next_of layouts R decode read_record r.source r.preamble r.body)
  unfolding collect
  collect-Ready k r out (live, f, look) =
      ap (gathered_from k out) (next-live layouts R decode read_record r live)

  block-Agrees :
      (m k : ℕ) (out : List ParsedLine) (p : Preamble) (b : Body) (version : SpecVersion)
      (again : LineSource → Preamble → Body → Yield) (eager : Result FecError State)
      (o : Option (Result FecError Str × LineSource))
      → 0 < k
      → Ready out b
      → b.version ≡ version
      → BlockAgrees layouts R decode m (state_of out b p.summary) version eager o
      → ((src : LineSource) (q : Preamble) (c : Body) (ls : List (ℕ × Str))
          → lines_left src ≤ m
          → pending decode src ≡ given ls
          → Ready out c
          → c.version ≡ version
          → gathered_from k out (again src q c)
            ≡ eager_end q (new_body layouts R (state_of out c q.summary) version ls))
      → gathered_from k out (on_block layouts R decode read_record again p b o) ≡ eager_end p eager
  block-Agrees m k out p b version again eager o pos ready u (inl (e, rest, g, q)) h =
      rw (g, q) (fail_with-Agrees k out (delimited rest) p b e pos ready)
  block-Agrees m k out p b version again eager o pos ready u (inr (text, rest, ls, g, w, l, q)) h =
      let (c, summary, e, r, v, same) = attach_text-Agrees out b p.summary text ready in
      rw (g, q, e, same) (h rest (record p { summary = summary }) c ls l w r (v ∙ u))

  pub next_delimited-Agrees :
      (n fuel k : ℕ) (src : LineSource) (out : List ParsedLine) (p : Preamble) (b : Body)
      (version : SpecVersion) (ls : List (ℕ × Str))
      → lines_left src < n
      → lines_left src < fuel
      → lines_left src < k
      → pending decode src ≡ given ls
      → Ready out b
      → b.version ≡ version
      → gathered_from k out (next_delimited layouts R decode read_record fuel src p b)
        ≡ eager_end p (new_body layouts R (state_of out b p.summary) version ls)
  unfolding next_delimited new_body
  next_delimited-Agrees zero fuel k src out p b version ls h f i q ready v =
      absurd (omega (arith, h))
  next_delimited-Agrees (suc n) zero k src out p b version ls h f i q ready v =
      absurd (omega (arith, f))
  next_delimited-Agrees (suc n) (suc fuel) zero src out p b version ls h f i q ready v =
      absurd (omega (arith, i))
  next_delimited-Agrees (suc n) (suc fuel) (suc k) src out p b version [] h f i q ready v =
      let (rest, e) = gives-nil decode src q in
      rw e (finish-Agrees (suc k) out (delimited rest) p b (omega arith) ready)
  next_delimited-Agrees (suc n) (suc fuel) (suc k) src out p b version ((num, raw) ∷ ls) h f i q
        ready v =
      let (rest, e, w, l) = gives-cons decode src (num, raw) ls q in
      elim (classify-cases raw) [
        | inl (c, t) ↦
            rw (e, c, t)
              (next_delimited-Agrees n fuel (suc k) rest out p b version ls (omega (arith, h, l))
                (omega (arith, f, l)) (omega (arith, i, l)) w ready v)
        | inr (inl (c, t, m)) ↦
            rw (e, c, t, m)
              (block-Agrees (lines_left rest) (suc k) out p b version
                (λ s x y. next_delimited layouts R decode read_record fuel s x y) _ _ (omega arith)
                ready v
                (read_text_block-Agrees layouts R decode (suc (lines_left rest)) rest num true [] []
                  ls (state_of out b p.summary) version (omega arith) w refl refl)
                (λ s x y ms a g r u.
                  next_delimited-Agrees n fuel (suc k) s out x y version ms (omega (arith, h, l, a))
                    (omega (arith, f, l, a)) (omega (arith, i, l, a)) g r u))
        | inr (inr (c, t, m)) ↦
            rw (e, c, t, m)
              (fields-Agrees (suc k) out (delimited rest) p b
                  (λ y. next_delimited layouts R decode read_record fuel rest p y) num
                  (split_new_delimited raw) (λ st. new_body layouts R st version ls) (omega arith)
                  ready
                  (λ y r u.
                    next_delimited-Agrees n fuel (suc k) rest out p y version ls
                      (omega (arith, h, l)) (omega (arith, f, l)) (omega (arith, i, l)) w r (u ∙ v))
                  (λ line y r u.
                    collect-Ready k (reader_of (delimited rest) p y) _ r
                    ∙ next_delimited-Agrees n (suc (lines_left rest)) k rest _ p y version ls
                        (omega (arith, h, l)) (omega arith) (omega (arith, i, l)) w r (u ∙ v))
                ∙ ap
                    (λ x. eager_end p (
                      push_fields layouts R (state_of out b p.summary) x num
                        (split_new_delimited raw)
                      >>= λ st. new_body layouts R st version ls))
                    v)
      ]
