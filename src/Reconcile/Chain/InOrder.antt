-- ===== src/Reconcile/Chain/InOrder.antt =====
-- What a chain that is built holds.
use mathlib.Core.Path.{subst}
use hardmoney.Text.{codes, eq_ignore_ascii_case, Str}
use hardmoney.Filing.{Filing}
use hardmoney.Table.{eq_table_iff, eq_table, Table}
use hardmoney.Calendar.{Calendar}
use hardmoney.Prelude.{
  ◌∙◌, sym, arith, ap, leb, Option-cases, Bool-cases, ◌<◌, find_first, All, Bool, List, ◌≡◌, refl,
  ℕ, [], ◌∷◌, true, false, none, some, inl, inr, map, ◌++◌, suc,
}
use hardmoney.Prelude.Result.{bind_succeeded, ok, Result}
use hardmoney.Reconcile.Chain.{
  sort_by_coverage, for_form, unless_overlap, period_of, date_of, Coverage, Entry, ReportChain,
  ChainError, new, gather, admit, coverage, filer_id, overlaps,
}
use hardmoney.Reconcile.Chain.Sorting.{
  Pairwise-sort_by_coverage, sort_by_coverage-Perm, All-sort_by_coverage, IsPeriod, Disjoint,
  Pairwise, Before,
}
use mathlib.Core.List.{Perm, append-nil}
use mathlib.Core.List.Perm

list_same {ℓ κ} : {E : Type κ} {A : Type ℓ} (a b : A) → ◌≡◌ {A = Result E A} (ok a) (ok b) → a ≡ b
list_same a b h = cc h

some_same {ℓ} : {A : Type ℓ} (a b : A) → some a ≡ some b → a ≡ b
some_same a b h = cc h

module _ (cal : Calendar) where
  -- A report that may come before the current one.
  abbrev pub Belongs : Filing → Coverage cal → Filing → Type 0
  Belongs current period report =
      (report.summary.layout.table ≡ current.summary.layout.table)
      × (eq_ignore_ascii_case (filer_id report) (filer_id current) ≡ true)
      × (c : Coverage cal) × (coverage cal report ≡ some c)
      × (cal.day c.through < cal.day period.from)

  -- The first report ends before the second begins.
  abbrev pub Precedes : Filing → Filing → Type 0
  Precedes f g =
      (c : Coverage cal) × (d : Coverage cal) × (coverage cal f ≡ some c)
      × (coverage cal g ≡ some d)
      × (cal.day c.through < cal.day d.from)

  -- Each report ends before all those behind it begin.
  abbrev pub InOrder : List Filing → Type 0
  InOrder [] = Unit
  InOrder (f ∷ fs) = All (Precedes f) fs × InOrder fs

  -- An entry as `admit` makes it.
  abbrev Sound : Table → Str → Coverage cal → Entry cal → Type 0
  Sound form filer current e =
      (e.report.summary.layout.table ≡ form)
      × (eq_ignore_ascii_case (filer_id e.report) filer ≡ true)
      × (coverage cal e.report ≡ some e.period)
      × IsPeriod cal e.period
      × (cal.day e.period.through < cal.day current.from)

  period_of-IsPeriod :
      (a b : cal.Date) (c : Coverage cal) → period_of cal a b ≡ some c → IsPeriod cal c
  period_of-IsPeriod a b c h = elim (Bool-cases (leb (cal.day a) (cal.day b))) [
    | inl q ↦
        subst (λ x. IsPeriod cal x) (some_same (record { from = a; through = b }) c (rw q at h))
          (ground arith)
    | inr q ↦ absurd (cc (rw q at h))
  ]

  coverage-IsPeriod : (f : Filing) (c : Coverage cal) → coverage cal f ≡ some c → IsPeriod cal c
  unfolding coverage
  coverage-IsPeriod f c h = elim (Option-cases (date_of cal f (codes "coverage_from_date"))) [
    | inl n ↦ absurd (cc (rw n at h))
    | inr (a, p) ↦ elim (Option-cases (date_of cal f (codes "coverage_through_date"))) [
      | inl n ↦ absurd (cc (rw (p, n) at h))
      | inr (b, q) ↦ period_of-IsPeriod a b c (rw (p, q) at h)
    ]
  ]

  find_first-none :
      (p : Entry cal → Bool) (xs : List (Entry cal))
      → find_first p xs ≡ none
      → All (λ x. p x ≡ false) xs
  find_first-none p [] h = tt
  find_first-none p (x ∷ xs) h = elim (Bool-cases (p x)) [
    | inl q ↦ absurd (cc (rw q at h))
    | inr q ↦ (q, find_first-none p xs (rw q at h))
  ]

  module _ (form : Table) (filer : Str) (current : Coverage cal) where
    abbrev Admitted : Filing → List (Entry cal) → Entry cal → Type 0
    Admitted report sorted e =
        (e.report ≡ report) × Sound form filer current e × All (λ x. Disjoint cal x e) sorted

    made : ℕ → Filing → Coverage cal → Entry cal
    made index report period = record { index = index; period = period; report = report }

    ok_same :
        (a b : Entry cal) (r : Result (ChainError cal) (Entry cal)) → r ≡ ok a → r ≡ ok b → a ≡ b
    ok_same a b r h k = cc (h, k)

    unless_overlap-Admitted :
        (index : ℕ) (report : Filing) (sorted : List (Entry cal)) (c : Coverage cal) (e : Entry cal)
        → eq_table report.summary.layout.table form ≡ true
        → eq_ignore_ascii_case (filer_id report) filer ≡ true
        → coverage cal report ≡ some c
        → leb (cal.day current.from) (cal.day c.through) ≡ false
        → unless_overlap cal form filer current index report c
            (find_first (λ other. overlaps cal other.period c) sorted)
          ≡ ok e
        → Admitted report sorted e
    unfolding made
    unless_overlap-Admitted index report sorted c e t f s l h =
        elim (Option-cases (find_first (λ other. overlaps cal other.period c) sorted)) [
          | inr (other, q) ↦ absurd (cc (rw q at h))
          | inl q ↦
              subst (λ x. Admitted report sorted x)
                (ok_same (made index report c) e _ refl (rw q at h))
                (
                  refl,
                  (
                    (eq_table_iff report.summary.layout.table form).0 t,
                    f,
                    s,
                    coverage-IsPeriod report c s,
                    ground arith,
                  ),
                  find_first-none (λ other. overlaps cal other.period c) sorted q,
                )
        ]

    admit-Admitted :
        (index : ℕ) (report : Filing) (sorted : List (Entry cal)) (e : Entry cal)
        → admit cal form filer current index report sorted ≡ ok e
        → Admitted report sorted e
    unfolding admit
    admit-Admitted index report sorted e h =
        elim (Bool-cases (eq_table report.summary.layout.table form)) [
          | inr t ↦ absurd (cc (rw t at h))
          | inl t ↦ elim (Bool-cases (eq_ignore_ascii_case (filer_id report) filer)) [
            | inr f ↦ absurd (cc (rw (t, f) at h))
            | inl f ↦ elim (Option-cases (coverage cal report)) [
              | inl n ↦ absurd (cc (rw (t, f, n) at h))
              | inr (c, s) ↦ elim (Bool-cases (leb (cal.day current.from) (cal.day c.through))) [
                | inl l ↦ absurd (cc (rw (t, f, s, l) at h))
                | inr l ↦
                    unless_overlap-Admitted index report sorted c e t f s l (rw (t, f, s, l) at h)
              ]
            ]
          ]
        ]

    All-snoc :
        (P : Entry cal → Type 0) (xs : List (Entry cal)) (e : Entry cal)
        → All P xs
        → P e
        → All P (xs ++ (e ∷ []))
    All-snoc P [] e h p = (p, tt)
    All-snoc P (x ∷ xs) e h p = (h.0, All-snoc P xs e h.1 p)

    Pairwise-snoc :
        (xs : List (Entry cal)) (e : Entry cal)
        → Pairwise cal (Disjoint cal) xs
        → All (λ x. Disjoint cal x e) xs
        → Pairwise cal (Disjoint cal) (xs ++ (e ∷ []))
    Pairwise-snoc [] e h p = (tt, tt)
    Pairwise-snoc (x ∷ xs) e h p =
        (All-snoc (Disjoint cal x) xs e h.0 p.0, Pairwise-snoc xs e h.1 p.1)

    map-snoc :
        (xs : List (Entry cal)) (e : Entry cal) (rest : List Filing)
        → map (λ x. x.report) (xs ++ (e ∷ [])) ++ rest ≡ map (λ x. x.report) xs ++ (e.report ∷ rest)
    map-snoc [] e rest = refl
    map-snoc (x ∷ xs) e rest = ap (λ t. x.report ∷ t) (map-snoc xs e rest)

    -- The entries that the loop ends with.
    gather-Sound :
        (index : ℕ) (reports : List Filing) (sorted out : List (Entry cal))
        → All (Sound form filer current) sorted
        → Pairwise cal (Disjoint cal) sorted
        → gather cal form filer current index reports sorted ≡ ok out
        → All (Sound form filer current) out
          × Pairwise cal (Disjoint cal) out
          × (map (λ x. x.report) out ≡ map (λ x. x.report) sorted ++ reports)
    unfolding gather
    gather-Sound index [] sorted out a d h =
        let same = list_same sorted out h in
        (
          subst (All (Sound form filer current)) same a,
          subst (Pairwise cal (Disjoint cal)) same d,
          ap (map (λ x. x.report)) (sym same) ∙ sym (append-nil (map (λ x. x.report) sorted)),
        )
    gather-Sound index (report ∷ reports) sorted out a d h =
        let (e, first, rest) =
          bind_succeeded (admit cal form filer current index report sorted)
            (λ x. gather cal form filer current (suc index) reports (sorted ++ (x ∷ []))) out h in
        let (same, sound, apart) = admit-Admitted index report sorted e first in
        let (s, p, m) =
          gather-Sound (suc index) reports (sorted ++ (e ∷ [])) out
            (All-snoc (Sound form filer current) sorted e a sound) (Pairwise-snoc sorted e d apart)
            rest in
        (
          s,
          p,
          m
              ∙ map-snoc sorted e reports
              ∙ ap (λ r. map (λ x. x.report) sorted ++ (r ∷ reports)) same,
        )

  module _ (current : Filing) (period : Coverage cal) where
    abbrev Fit : Entry cal → Type 0
    Fit e = Sound current.summary.layout.table (filer_id current) period e

    All-Belongs :
        (es : List (Entry cal)) → All Fit es → All (Belongs current period) (map (λ e. e.report) es)
    All-Belongs [] h = tt
    All-Belongs (e ∷ es) ((t, f, c, p, b), h) = ((t, f, e.period, c, b), All-Belongs es h)

    All-Precedes :
        (e : Entry cal) (es : List (Entry cal))
        → Fit e
        → All Fit es
        → All (Before cal e) es
        → All (Precedes e.report) (map (λ x. x.report) es)
    All-Precedes e [] s h b = tt
    All-Precedes e (x ∷ es) s h b =
        ((e.period, x.period, s.2, h.0.2, b.0), All-Precedes e es s h.1 b.1)

    Pairwise-InOrder :
        (es : List (Entry cal))
        → All Fit es
        → Pairwise cal (Before cal) es
        → InOrder (map (λ x. x.report) es)
    Pairwise-InOrder [] h b = tt
    Pairwise-InOrder (e ∷ es) h b = (All-Precedes e es h.0 h.1 b.0, Pairwise-InOrder es h.1 b.1)

    All-IsPeriod : (es : List (Entry cal)) → All Fit es → All (λ e. IsPeriod cal e.period) es
    All-IsPeriod [] h = tt
    All-IsPeriod (e ∷ es) ((t, f, c, p, b), h) = (p, All-IsPeriod es h)

    -- What the reports of the loop's entries are, once sorted.
    abbrev Good : List Filing → List Filing → Type 0
    Good prior reports = Perm reports prior × All (Belongs current period) reports × InOrder reports

    sorted-Good :
        (prior : List Filing) (es : List (Entry cal))
        → gather cal current.summary.layout.table (filer_id current) period 0 prior [] ≡ ok es
        → Good prior (map (λ e. e.report) (sort_by_coverage cal es))
    sorted-Good prior es h =
        let (s, p, m) =
          gather-Sound current.summary.layout.table (filer_id current) period 0 prior [] es tt tt
            h in
        let fit = All-sort_by_coverage cal Fit es s in
        (
          subst (Perm (map (λ e. e.report) (sort_by_coverage cal es))) m
              (Perm.map (λ e. e.report) (sort_by_coverage-Perm cal es)),
          All-Belongs (sort_by_coverage cal es) fit,
          Pairwise-InOrder (sort_by_coverage cal es) fit
              (Pairwise-sort_by_coverage cal es (All-IsPeriod es s) p),
        )

  abbrev pub Holds : Filing → List Filing → ReportChain cal → Type 0
  Holds current prior chain =
      (chain.current ≡ current)
      × (coverage cal current ≡ some chain.current_coverage)
      × Perm chain.prior prior
      × All (Belongs current chain.current_coverage) chain.prior
      × InOrder chain.prior

  -- A chain that is built holds the current report and, in some order, exactly the prior reports
  -- that were given. Each of them is on the form of the current one, has the same filer up to case
  -- and a usable period that ends before the current report's begins, and each ends before all those
  -- behind it begin.
  pub new-InOrder :
      (current : Filing) (prior : List Filing) (chain : ReportChain cal)
      → new cal current prior ≡ ok chain
      → Holds current prior chain
  unfolding new
  new-InOrder current prior chain h = elim (Option-cases (for_form current.summary.layout.table)) [
    | inl n ↦ absurd (cc (rw n at h))
    | inr (basis, f) ↦ elim (Option-cases (coverage cal current)) [
      | inl n ↦ absurd (cc (rw (f, n) at h))
      | inr (period, c) ↦
          let (es, g, last) =
            bind_succeeded
              (gather cal current.summary.layout.table (filer_id current) period 0 prior []) _ chain
              (rw (f, c) at h) in
          let good = sorted-Good current period prior es g in
          subst (Holds current prior) (list_same _ chain last) (refl, c, good.0, good.1, good.2)
    ]
  ]
