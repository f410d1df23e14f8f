-- ===== src/Reconcile/Chain/Sorting.antt =====
-- Sorting reports whose periods do not overlap.
use hardmoney.Calendar.{Calendar}
use hardmoney.Prelude.{
  [], ◌∷◌, inr, inl, Bool-cases, arith, ◌∷◌, All, true, false, List, ◌<◌, ◌≤◌, ◌≡◌,
}
use hardmoney.Reconcile.Chain.{Coverage, Entry, overlaps, le_coverage, insert, sort_by_coverage}
use mathlib.Core.List.{Perm}
use mathlib.Core.List.Perm

module _ (cal : Calendar) where
  -- The period begins before it ends.
  abbrev pub IsPeriod : Coverage cal → Type 0
  IsPeriod c = cal.day c.from ≤ cal.day c.through

  abbrev pub Before : Entry cal → Entry cal → Type 0
  Before e f = cal.day e.period.through < cal.day f.period.from

  abbrev pub Disjoint : Entry cal → Entry cal → Type 0
  Disjoint e f = overlaps cal e.period f.period ≡ false

  -- Each entry stands in the relation to all those behind it.
  abbrev pub Pairwise : (Entry cal → Entry cal → Type 0) → List (Entry cal) → Type 0
  Pairwise Rel [] = Unit
  Pairwise Rel (e ∷ es) = All (Rel e) es × Pairwise Rel es

  Before-le :
      (e f : Entry cal)
      → IsPeriod e.period
      → IsPeriod f.period
      → Disjoint e f
      → le_coverage cal e.period f.period ≡ true
      → Before e f
  unfolding overlaps le_coverage
  Before-le e f p q d l = ground arith

  Before-not_le :
      (e f : Entry cal)
      → IsPeriod e.period
      → IsPeriod f.period
      → Disjoint e f
      → le_coverage cal e.period f.period ≡ false
      → Before f e
  unfolding overlaps le_coverage
  Before-not_le e f p q d l = ground arith

  module _ (P : Entry cal → Type 0) where
    All-insert : (e : Entry cal) (xs : List (Entry cal)) → P e → All P xs → All P (insert cal e xs)
    unfolding insert
    All-insert e [] p q = (p, tt)
    All-insert e (x ∷ xs) p q = elim (Bool-cases (le_coverage cal e.period x.period)) [
      | inl b ↦ rw b (p, q)
      | inr b ↦ rw b (q.0, All-insert e xs p q.1)
    ]

    pub All-sort_by_coverage : (xs : List (Entry cal)) → All P xs → All P (sort_by_coverage cal xs)
    unfolding sort_by_coverage
    All-sort_by_coverage [] q = tt
    All-sort_by_coverage (x ∷ xs) q =
        All-insert x (sort_by_coverage cal xs) q.0 (All-sort_by_coverage xs q.1)

  Before-All :
      (e x : Entry cal) (xs : List (Entry cal))
      → Before e x
      → IsPeriod x.period
      → All (Before x) xs
      → All (Before e) xs
  Before-All e x [] b p h = tt
  Before-All e x (y ∷ ys) b p h = (omega (arith, b, p, h.0), Before-All e x ys b p h.1)

  Pairwise-insert :
      (e : Entry cal) (xs : List (Entry cal))
      → IsPeriod e.period
      → All (λ x. IsPeriod x.period) xs
      → All (Disjoint e) xs
      → Pairwise Before xs
      → Pairwise Before (insert cal e xs)
  unfolding insert
  Pairwise-insert e [] p q d s = (tt, tt)
  Pairwise-insert e (x ∷ xs) p q d s = elim (Bool-cases (le_coverage cal e.period x.period)) [
    | inl b ↦
        rw b (let here = Before-le e x p q.0 d.0 b in ((here, Before-All e x xs here q.0 s.0), s))
    | inr b ↦ rw b (
      All-insert (Before x) e xs (Before-not_le e x p q.0 d.0 b) s.0,
      Pairwise-insert e xs p q.1 d.1 s.1,
    )
  ]

  pub Pairwise-sort_by_coverage :
      (xs : List (Entry cal))
      → All (λ x. IsPeriod x.period) xs
      → Pairwise Disjoint xs
      → Pairwise Before (sort_by_coverage cal xs)
  unfolding sort_by_coverage
  Pairwise-sort_by_coverage [] q d = tt
  Pairwise-sort_by_coverage (x ∷ xs) q d =
      Pairwise-insert x (sort_by_coverage cal xs) q.0
        (All-sort_by_coverage (λ y. IsPeriod y.period) xs q.1)
        (All-sort_by_coverage (Disjoint x) xs d.0) (Pairwise-sort_by_coverage xs q.1 d.1)

  insert-Perm : (e : Entry cal) (xs : List (Entry cal)) → Perm (insert cal e xs) (e ∷ xs)
  unfolding insert
  insert-Perm e [] = Perm.rfl
  insert-Perm e (x ∷ xs) = elim (Bool-cases (le_coverage cal e.period x.period)) [
    | inl b ↦ rw b Perm.rfl
    | inr b ↦ rw b (Perm.trans (Perm.cons x (insert-Perm e xs)) (Perm.swap e x xs))
  ]

  pub sort_by_coverage-Perm : (xs : List (Entry cal)) → Perm (sort_by_coverage cal xs) xs
  unfolding sort_by_coverage
  sort_by_coverage-Perm [] = Perm.rfl
  sort_by_coverage-Perm (x ∷ xs) =
      Perm.trans (insert-Perm x (sort_by_coverage cal xs)) (Perm.cons x (sort_by_coverage-Perm xs))
