-- ===== src/Layout/Search.antt =====
-- The binary search of the standard library, over a probe that compares a position.
use Prim.Native.Nat.{Ordering}
use Prim.Native.Nat.Ordering.{lt, eq, gt}
use native.Mathlib.Decide.{dec_lt}
use hardmoney.Prelude.{
  ◌⊎◌, inl, inr, ap, ◌∙◌, ℕ, zero, suc, ◌+◌, ◌-◌, ◌/◌, ◌≤◌, ◌<◌, true, false, ◌≡◌, ◌≢◌, refl, none,
  some, arith,
}
use hardmoney.Layout.{search_loop, binary_search, is_gt}

-- The positions below `k` come before it and those above it behind it.
pub record IsPivot (probe : ℕ → Ordering) (len k : ℕ) : Type 0 where
  pub inside : k < len
  pub here : probe k ≡ eq
  pub before : (i : ℕ) → i < k → probe i ≡ lt
  pub behind : (i : ℕ) → k < i → i < len → probe i ≡ gt

module _ (probe : ℕ → Ordering) (len k : ℕ) (p : IsPivot probe len k) where
  -- One look at `mid` tells on which side of it the pivot lies.
  pivot_step :
      (mid : ℕ)
      → mid < len
      → ((is_gt (probe mid) ≡ true) × (k < mid)) ⊎ ((is_gt (probe mid) ≡ false) × (mid ≤ k))
  pivot_step mid h = elim (dec_lt mid k) [
    | yes below ↦ inr (rw (p.before mid below) refl, omega arith)
    | no a ↦ elim (dec_lt k mid) [
      | yes above ↦ inl (rw (p.behind mid above h) refl, above)
      | no b ↦
          let same : mid ≡ k = omega arith in
          inr (ap (λ n. is_gt (probe n)) same ∙ ap is_gt p.here, omega arith)
    ]
  ]

  search_loop-pivot :
      (fuel size base : ℕ)
      → size ≤ fuel
      → base ≤ k
      → k < base + size
      → base + size ≤ len
      → search_loop fuel probe size base ≡ k
  unfolding search_loop
  search_loop-pivot zero size base f lo hi top = omega arith
  search_loop-pivot (suc fuel) size base f lo hi top = elim (dec_lt 1 size) [
    | no one ↦ ground arith
    | yes more ↦ elim (pivot_step (base + size / 2) (omega arith)) [
      | inl (g, above) ↦ rw g (ground (arith, search_loop-pivot fuel (size - size / 2) base))
      | inr (g, below) ↦
          rw g (ground (arith, search_loop-pivot fuel (size - size / 2) (base + size / 2)))
    ]
  ]

-- Where the positions are in order the search finds the pivot, whatever their number.
pub binary_search-pivot :
    (probe : ℕ → Ordering) (len k : ℕ) → IsPivot probe len k → binary_search probe len ≡ some k
unfolding binary_search
binary_search-pivot probe zero k p = absurd (omega (arith, p.inside))
binary_search-pivot probe (suc n) k p =
    rw
      (
        search_loop-pivot probe (suc n) k p (suc n) (suc n) 0 (omega arith) (omega arith)
            (omega (arith, p.inside)) (omega arith),
        p.here,
      )
      refl

search_loop-lt :
    (probe : ℕ → Ordering) (fuel size base len : ℕ)
    → base < len
    → base + size ≤ len
    → search_loop fuel probe size base < len
unfolding search_loop
search_loop-lt probe zero size base len h top = h
search_loop-lt probe (suc fuel) size base len h top = ground (
  arith,
  search_loop-lt probe fuel (size - size / 2) base len,
  search_loop-lt probe fuel (size - size / 2) (base + size / 2) len,
)

-- Where no position compares equal the search finds none.
pub binary_search-none :
    (probe : ℕ → Ordering) (len : ℕ)
    → ((i : ℕ) → i < len → probe i ≢ eq)
    → binary_search probe len ≡ none
unfolding binary_search
binary_search-none probe zero h = refl
binary_search-none probe (suc n) h =
    let b = search_loop (suc n) probe (suc n) 0 in
    ground (arith, h b (search_loop-lt probe (suc n) (suc n) 0 (suc n) (omega arith) (omega arith)))

-- What is found compares equal.
pub binary_search-eq :
    (probe : ℕ → Ordering) (len b : ℕ) → binary_search probe len ≡ some b → probe b ≡ eq
unfolding binary_search
binary_search-eq probe zero b h = cc
binary_search-eq probe (suc n) b h = ground arith
