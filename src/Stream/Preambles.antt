-- ===== src/Stream/Preambles.antt =====
-- The two leading lines, read by the reader and by the whole-filing parser.
use mathlib.Core.Path.{subst}
use hardmoney.Filing.{Filing}
use hardmoney.Error.{FecError}
use hardmoney.Filing.Assemble.{assembled, from_parts, parse_summary, parse_header_and_summary}
use hardmoney.Field.{normalize_form_type}
use hardmoney.Text.{is_empty, Str}
use hardmoney.Form.{table_for_form_type, Regex}
use hardmoney.Layout.{Layout}
use hardmoney.Table.{Table}
use hardmoney.Prelude.{
  sym, ap, ◌∙◌, Option-cases, ◌∷◌, Bool-cases, Bool, [], List, refl, false, some, inl, inr, ◌≡◌, ℕ,
  find_first, find_first-some, All,
}
use hardmoney.Prelude.Result.{err, Result, ok, ◌>>=◌}
use hardmoney.Stream.{Preamble, into_filing, from_fields_at, with_token}
use hardmoney.Filing.Consistent.{from_parts-Fits}
use hardmoney.Layout as Layouts
use hardmoney.Header.{Header, from_fields}
use hardmoney.Line.{from_cells, with_layout, first_cell}

bound_twice :
    (r : Result FecError Header) (f : Header → Result FecError Filing)
    (g : Header → Result FecError Preamble) (k : Preamble → Result FecError Filing)
    → ((h : Header) → f h ≡ g h >>= k)
    → (r >>= f) ≡ ((r >>= g) >>= k)
bound_twice (err e) f g k h = refl
bound_twice (ok x) f g k h = h x

some_injective {ℓ} : {A : Type ℓ} (x y : A) → some x ≡ some y → x ≡ y
some_injective x y h = cc h

-- Every layout that is listed for a table is the table's.
abbrev pub IsListed : (Table → List Layout) → Type 0
IsListed layouts = (t : Table) → All (λ l. l.table ≡ t) (layouts t)

found-All {ℓ κ} :
    {A : Type ℓ} (P : A → Type κ) (p : A → Bool) (xs : List A) (a : A)
    → All P xs
    → find_first p xs ≡ some a
    → P a
found-All P p [] a h f = absurd (cc f)
found-All P p (x ∷ xs) a h f = elim (Bool-cases (p x)) [
  | inl q ↦ subst (λ y. P y) (some_injective x a (rw q at f)) (h.0)
  | inr q ↦ found-All P p xs a h.1 (rw q at f)
]

module _ (layouts : Table → List Layout) (R : Regex) (listed : IsListed layouts) where
  -- The cover with the layout that is found passes the tests of `from_parts`.
  laid-Agrees :
      (header : Header) (n : ℕ) (cells : List Str) (t : Table) (l : Layout)
      → is_empty (normalize_form_type (first_cell cells)) ≡ false
      → table_for_form_type R (normalize_form_type (first_cell cells)) ≡ some t
      → Layouts.layout layouts t header.version ≡ some l
      → from_parts R header (with_layout l n cells) []
        ≡ ok (assembled R header (with_layout l n cells) [])
  unfolding with_layout Layouts.layout
  laid-Agrees header n cells t l q d f =
      (from_parts-Fits R header (with_layout l n cells) []
          (assembled R header (with_layout l n cells) [])).1
        (
          refl,
          q,
          (
            (
              d
                  ∙ ap some (
                      sym (
                        found-All (λ x. x.table ≡ t) (λ x. Layouts.supports x header.version)
                          (layouts t) l (listed t) f)),
              find_first-some (λ x. Layouts.supports x header.version) (layouts t) l f,
            ),
            tt,
          ),
        )

  cover-Agrees :
      (header : Header) (n : ℕ) (cells : List Str)
      → parse_summary R layouts header cells n (normalize_form_type (first_cell cells)) ≡ (
          with_token layouts R header cells n (normalize_form_type (first_cell cells)) >>= λ p.
          ok (into_filing p []))
  unfolding from_cells into_filing
  cover-Agrees header n cells =
      let raw = normalize_form_type (first_cell cells) in
      elim (Bool-cases (is_empty raw)) [
        | inl q ↦ rw q refl
        | inr q ↦ elim (Option-cases (table_for_form_type R raw)) [
          | inl d ↦ rw (q, d) refl
          | inr (t, d) ↦ elim (Option-cases (Layouts.layout layouts t header.version)) [
            | inl f ↦ rw (q, d, f) refl
            | inr (l, f) ↦ rw (q, d, f) (laid-Agrees header n cells t l q d f)
          ]
        ]
      ]

  pub from_fields_at-Agrees :
      (header_fields summary_fields : List Str) (n : ℕ)
      → parse_header_and_summary R layouts header_fields summary_fields n
        ≡ (from_fields_at layouts R header_fields summary_fields n >>= λ p. ok (into_filing p []))
  unfolding parse_header_and_summary from_fields_at
  from_fields_at-Agrees header_fields summary_fields n =
      bound_twice (from_fields header_fields) _ _ _ (λ header. cover-Agrees header n summary_fields)
