-- ===== src/Stream/Blocks.antt =====
-- A text block, read line by line, against the loop over the lines of a whole filing.
use mathlib.Core.List.{append_assoc}
use hardmoney.Error.{unterminated_text_block, FecError}
use hardmoney.Version.{SpecVersion}
use hardmoney.Form.{Regex}
use hardmoney.Layout.{Layout}
use hardmoney.Table.{Table}
use hardmoney.Text.{codes, Str, join}
use hardmoney.Prelude.{
  sym, ◌⊎◌, Option, ap, Bool-cases, ◌∙◌, arith, if◌then◌else◌, ◌∷◌, [], Bool, ◌++◌, List, refl, suc,
  zero, true, false, none, some, inl, inr, ◌≡◌, ◌≤◌, ◌<◌, ℕ, map,
}
use hardmoney.Prelude.Result.{err, Result, ok}
use hardmoney.Filing.Body.{
  between, attach_free_text, in_block, is_marker, drop_returns, State, new_body,
}
use hardmoney.Stream.Source.{read_text_block, LineSource, lines_left, next_line}
use hardmoney.Stream.Pending.{source-Gives, pending, Lines}

abbrev pub given : List (ℕ × Str) → Lines
given ls = map ok ls

module _ (decode : Str → Str) where
  pub gives-nil :
      (src : LineSource)
      → pending decode src ≡ []
      → (rest : LineSource) × (next_line decode src ≡ (ok none, rest))
  gives-nil src h = elim (source-Gives decode src) [
    | inl (p, z, rest, e, k) ↦ (rest, e)
    | inr (l, rest, e, p, k, u) ↦ absurd (cc (h, p))
  ]

  -- Also, the source holds nothing then.
  pub gives-held :
      (src : LineSource) (l : ℕ × Str) (ls : List (ℕ × Str))
      → pending decode src ≡ given (l ∷ ls)
      → (rest : LineSource) × (next_line decode src ≡ (ok (some l), rest))
        × (pending decode rest ≡ given ls)
        × (lines_left src ≡ suc (lines_left rest))
        × (rest.held ≡ none)
  gives-held src l ls h = elim (source-Gives decode src) [
    | inl (p, z, rest, e, k) ↦ absurd (cc (h, p))
    | inr (err f, rest, e, p, k, u) ↦ absurd (cc (h, p))
    | inr (ok m, rest, e, p, k, u) ↦
        (rest, e ∙ ap (λ (x : ℕ × Str). (ok (some x), rest)) (cc (h, p)), cc (h, p), k, u)
  ]

  pub gives-cons :
      (src : LineSource) (l : ℕ × Str) (ls : List (ℕ × Str))
      → pending decode src ≡ given (l ∷ ls)
      → (rest : LineSource) × (next_line decode src ≡ (ok (some l), rest))
        × (pending decode rest ≡ given ls)
        × (lines_left src ≡ suc (lines_left rest))
  gives-cons src l ls h = let (rest, e, p, k, u) = gives-held src l ls h in (rest, e, p, k)

abbrev pub is_nil {ℓ} : {A : Type ℓ} → List A → Bool
is_nil [] = true
is_nil (x ∷ xs) = false

join-snoc :
    (c : ℕ) (xs : List Str) (x : Str)
    → join c (xs ++ (x ∷ [])) ≡ join c xs ++ (if is_nil xs then [] else c ∷ []) ++ x
unfolding join
join-snoc c [] x = refl
join-snoc c (y ∷ []) x = sym (append_assoc y (c ∷ []) x)
join-snoc c (y ∷ z ∷ xs) x =
    ap (λ t. y ++ (c ∷ t)) (join-snoc c (z ∷ xs) x)
    ∙ sym (append_assoc y (c ∷ join c (z ∷ xs) ++ (c ∷ [])) x)
    ∙ ap (λ t. t ++ x) (sym (append_assoc y (c ∷ join c (z ∷ xs)) (c ∷ [])))

is_nil-snoc {ℓ} : {A : Type ℓ} (xs : List A) (x : A) → is_nil (xs ++ (x ∷ [])) ≡ false
is_nil-snoc [] x = refl
is_nil-snoc (y ∷ xs) x = refl

-- The state behind a block with this text.
abbrev pub attached : State → Str → State
attached st text =
    let (acc, summary) = attach_free_text st.acc st.summary text in
    record { mode = between; acc = acc; summary = summary }

abbrev pub opened : State → ℕ → List Str → State
opened st start collected = record st { mode = in_block start collected }

module _ (layouts : Table → List Layout) (R : Regex) (decode : Str → Str) where
  -- The block has no end in either, or both go on behind it with its text.
  abbrev pub BlockAgrees :
      ℕ
      → State
      → SpecVersion
      → Result FecError State
      → Option (Result FecError Str × LineSource)
      → Type 0
  BlockAgrees n st version eager o =
      ((e : FecError) × (rest : LineSource) × (o ≡ some (err e, rest)) × (eager ≡ err e))
      ⊎ ((text : Str) × (rest : LineSource) × (ls : List (ℕ × Str)) × (o ≡ some (ok text, rest))
          × (pending decode rest ≡ given ls)
          × (lines_left rest ≤ n)
          × (eager ≡ new_body layouts R (attached st text) version ls))

  agrees_less :
      (m n : ℕ) (st : State) (version : SpecVersion) (eager : Result FecError State)
      (o : Option (Result FecError Str × LineSource))
      → m ≤ n
      → BlockAgrees m st version eager o
      → BlockAgrees n st version eager o
  agrees_less m n st version eager o h (inl a) = inl a
  agrees_less m n st version eager o h (inr (text, rest, ls, e, p, w, q)) =
      inr (text, rest, ls, e, p, omega (arith, h, w), q)

  pub read_text_block-Agrees :
      (fuel : ℕ) (src : LineSource) (start : ℕ) (first : Bool) (text : Str) (collected : List Str)
      (ls : List (ℕ × Str)) (st : State) (version : SpecVersion)
      → lines_left src < fuel
      → pending decode src ≡ given ls
      → first ≡ is_nil collected
      → text ≡ join 10 collected
      → BlockAgrees
          (lines_left src)
          st
          version
          (new_body layouts R (opened st start collected) version ls)
          (read_text_block decode fuel src start first text)
  unfolding read_text_block new_body
  read_text_block-Agrees zero src start first text collected ls st version h p f t =
      absurd (omega arith)
  read_text_block-Agrees (suc fuel) src start first text collected [] st version h p f t =
      let (rest, e) = gives-nil decode src p in
      rw e (inl (unterminated_text_block start, rest, refl, refl))
  read_text_block-Agrees (suc fuel) src start first text collected ((n, raw) ∷ ls) st version h p f
        t =
      let (rest, e, q, k) = gives-cons decode src (n, raw) ls p in
      elim (Bool-cases (is_marker (codes "[ENDTEXT]") raw)) [
        | inl m ↦ rw (e, m, t) (inr (join 10 collected, rest, ls, refl, q, omega arith, refl))
        | inr m ↦
            rw (e, m)
              (agrees_less (lines_left rest) (lines_left src) st version _ _ (omega arith) (
                read_text_block-Agrees fuel rest start false _
                  (collected ++ (drop_returns raw ∷ [])) ls st version (omega arith) q
                  (sym (is_nil-snoc collected (drop_returns raw)))
                  (rw (f, t) (sym (join-snoc 10 collected (drop_returns raw))))))
      ]
