-- ===== src/Filing/Agree.antt =====
-- The two kinds of parse, from the first body line to the last.
use hardmoney.Prelude.{ℕ, List, [], ◌∷◌, ◌++◌, Option, inl, inr, refl, sym, Bool-cases, all_b}
use hardmoney.Prelude.Result.{Result, ok, err, ◌>>=◌}
use hardmoney.Text.{Str, codes}
use hardmoney.Table.{Table}
use hardmoney.Version.{SpecVersion}
use hardmoney.Form.{Regex}
use hardmoney.Error.{FecError}
use hardmoney.Layout.{Layout}
use hardmoney.Filing.Body.{
  split_old_delimited, drop_returns, Mode, between, in_block, State, is_blank, is_marker,
  push_fields, close_block, attach_free_text, step_in, at_end, new_body, old_body,
  split_new_delimited,
}
use hardmoney.Filing.Strict.{IsClean, Skipped, push_body_line-Outcome, push_body_line-StaysSkipped}
use hardmoney.Filing.Verdict.{
  tight, loose, Verdict, Stays, ok_injective, bind_Verdict, bind_Stays, acc_Verdict, acc_Stays,
}

module _ (layouts : Table → List Layout) (R : Regex) where
  push_fields-Verdict :
      (st : State) (version : SpecVersion) (n : ℕ) (fields : List Str)
      → IsClean st.acc
      → Verdict
          (push_fields layouts R (tight st) version n fields)
          (push_fields layouts R (loose st) version n fields)
  push_fields-Verdict st version n fields c = elim (Bool-cases (all_b is_blank fields)) [
    | inl q ↦ rw q (inl (st, refl, refl, c))
    | inr q ↦ rw q (acc_Verdict st _ _ (push_body_line-Outcome layouts R st.acc fields version n c))
  ]

  push_fields-Stays :
      (st : State) (e : FecError) (version : SpecVersion) (n : ℕ) (fields : List Str)
      → Skipped e st.acc
      → Stays e (push_fields layouts R (loose st) version n fields)
  push_fields-Stays st e version n fields k = elim (Bool-cases (all_b is_blank fields)) [
    | inl q ↦ rw q (λ end h. (st, ok_injective end (loose st) (sym h), k))
    | inr q ↦
        rw q (acc_Stays st e _ (push_body_line-StaysSkipped layouts R st.acc e fields version n k))
  ]

  step_in-Verdict :
      (mode : Mode) (st : State) (version : SpecVersion) (l : ℕ × Str)
      → IsClean st.acc
      → Verdict
          (step_in layouts R mode (tight st) version l)
          (step_in layouts R mode (loose st) version l)
  unfolding attach_free_text
  step_in-Verdict (in_block start collected) st version (n, raw) c =
      elim (Bool-cases (is_marker (codes "[ENDTEXT]") raw)) [
        | inl q ↦ rw q (
            inl (
              close_block layouts R st collected,
              refl,
              refl,
              record { no_skips = c.no_skips; no_error = c.no_error },
            ))
        | inr q ↦ rw q (
            inl (
              record st { mode = in_block start (collected ++ (drop_returns raw ∷ [])) },
              refl,
              refl,
              c,
            ))
      ]
  step_in-Verdict between st version (n, raw) c = elim (Bool-cases (is_blank raw)) [
    | inl q ↦ rw q (inl (st, refl, refl, c))
    | inr q ↦ elim (Bool-cases (is_marker (codes "[BEGINTEXT]") raw)) [
      | inl b ↦ rw (q, b) (inl (record st { mode = in_block n [] }, refl, refl, c))
      | inr b ↦ rw (q, b) (push_fields-Verdict st version n (split_new_delimited raw) c)
    ]
  ]

  step_in-Stays :
      (mode : Mode) (st : State) (e : FecError) (version : SpecVersion) (l : ℕ × Str)
      → Skipped e st.acc
      → Stays e (step_in layouts R mode (loose st) version l)
  unfolding attach_free_text
  step_in-Stays (in_block start collected) st e version (n, raw) k =
      elim (Bool-cases (is_marker (codes "[ENDTEXT]") raw)) [
        | inl q ↦ rw q (λ end h. (
          close_block layouts R st collected,
          ok_injective end _ (sym h),
          record { first = k.first; some_skips = k.some_skips },
        ))
        | inr q ↦ rw q (λ end h. (
          record st { mode = in_block start (collected ++ (drop_returns raw ∷ [])) },
          ok_injective end _ (sym h),
          k,
        ))
      ]
  step_in-Stays between st e version (n, raw) k = elim (Bool-cases (is_blank raw)) [
    | inl q ↦ rw q (λ end h. (st, ok_injective end (loose st) (sym h), k))
    | inr q ↦ elim (Bool-cases (is_marker (codes "[BEGINTEXT]") raw)) [
      | inl b ↦
          rw (q, b) (λ end h. (record st { mode = in_block n [] }, ok_injective end _ (sym h), k))
      | inr b ↦ rw (q, b) (push_fields-Stays st e version n (split_new_delimited raw) k)
    ]
  ]

  at_end-Verdict :
      (mode : Mode) (st : State)
      → IsClean st.acc
      → Verdict (at_end layouts R mode (tight st)) (at_end layouts R mode (loose st))
  at_end-Verdict between st c = inl (st, refl, refl, c)
  at_end-Verdict (in_block start collected) st c = inr (_, refl, λ end h. cc h)

  at_end-Stays :
      (mode : Mode) (st : State) (e : FecError)
      → Skipped e st.acc
      → Stays e (at_end layouts R mode (loose st))
  at_end-Stays between st e k end h = (st, ok_injective end (loose st) (sym h), k)
  at_end-Stays (in_block start collected) st e k end h = cc h

  new_body-Stays :
      (ls : List (ℕ × Str)) (st : State) (e : FecError) (version : SpecVersion)
      → Skipped e st.acc
      → Stays e (new_body layouts R (loose st) version ls)
  unfolding new_body
  new_body-Stays [] st e version k = at_end-Stays st.mode st e k
  new_body-Stays (l ∷ ls) st e version k =
      bind_Stays e _ (λ next. new_body layouts R next version ls)
        (step_in-Stays st.mode st e version l k) (λ next s. new_body-Stays ls next e version s)

  pub new_body-Verdict :
      (ls : List (ℕ × Str)) (st : State) (version : SpecVersion)
      → IsClean st.acc
      → Verdict
          (new_body layouts R (tight st) version ls)
          (new_body layouts R (loose st) version ls)
  unfolding new_body
  new_body-Verdict [] st version c = at_end-Verdict st.mode st c
  new_body-Verdict (l ∷ ls) st version c =
      bind_Verdict _ _ (λ next. new_body layouts R next version ls)
        (step_in-Verdict st.mode st version l c) (λ next d. new_body-Verdict ls next version d)
        (λ e next k. new_body-Stays ls next e version k)

  module _ (read_record : Str → Result FecError (Option (List Str))) where
    old_body-Stays :
        (ls : List (ℕ × Str)) (st : State) (e : FecError) (version : SpecVersion)
        → Skipped e st.acc
        → Stays e (old_body layouts R read_record (loose st) version ls)
    unfolding old_body
    old_body-Stays [] st e version k = λ end h. (st, ok_injective end (loose st) (sym h), k)
    old_body-Stays ((n, raw) ∷ ls) st e version k =
        of (split_old_delimited read_record raw) (λ next s. old_body-Stays ls next e version s)
      where
        of :
            (r : Result FecError (List Str))
            → ((next : State)
                → Skipped e next.acc
                → Stays e (old_body layouts R read_record (loose next) version ls))
            → Stays e (
                r >>= λ fields. push_fields layouts R (loose st) version n fields >>= λ next.
                old_body layouts R read_record next version ls)
        of (err d) rest = λ end h. cc h
        of (ok fields) rest =
            bind_Stays e (push_fields layouts R (loose st) version n fields)
              (λ next. old_body layouts R read_record next version ls)
              (push_fields-Stays st e version n fields k) rest

    pub old_body-Verdict :
        (ls : List (ℕ × Str)) (st : State) (version : SpecVersion)
        → IsClean st.acc
        → Verdict
            (old_body layouts R read_record (tight st) version ls)
            (old_body layouts R read_record (loose st) version ls)
    unfolding old_body
    old_body-Verdict [] st version c = inl (st, refl, refl, c)
    old_body-Verdict ((n, raw) ∷ ls) st version c =
        of (split_old_delimited read_record raw) (λ next d. old_body-Verdict ls next version d)
          (λ e next s. old_body-Stays ls next e version s)
      where
        of :
            (r : Result FecError (List Str))
            → ((next : State)
                → IsClean next.acc
                → Verdict
                    (old_body layouts R read_record (tight next) version ls)
                    (old_body layouts R read_record (loose next) version ls))
            → ((e : FecError) (next : State)
                → Skipped e next.acc
                → Stays e (old_body layouts R read_record (loose next) version ls))
            → Verdict
                (r >>= λ fields. push_fields layouts R (tight st) version n fields >>= λ next.
                  old_body layouts R read_record next version ls)
                (r >>= λ fields. push_fields layouts R (loose st) version n fields >>= λ next.
                  old_body layouts R read_record next version ls)
        of (err d) clean stays = inr (d, refl, λ end h. cc h)
        of (ok fields) clean stays =
            bind_Verdict (push_fields layouts R (tight st) version n fields)
              (push_fields layouts R (loose st) version n fields)
              (λ next. old_body layouts R read_record next version ls)
              (push_fields-Verdict st version n fields c) clean stays
