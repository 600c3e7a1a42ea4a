-- ===== src/Queue/Bounded/Build.antt =====
-- The trees that build_tree builds, and the constructor.
use meldtools.Common.{
  ℕ, zero, suc, ◌+◌, ◌*◌, ◌≡◌, refl, arith, ◌^◌, ◌≤◌, ◌<◌, sym, some, true, leb, lt→ltb,
}
use meldtools.Queue.Bounded.Bins.{
  IsCounted, IsNumbered, count, AllEmpty, IsValid, bins, count-AllEmpty,
}
use meldtools.Queue.Bounded.{build_tree, BoundedPqueue, new}
use meldtools.Queue.Bounded.Powers.{max_range, next_power2_lem, upper_log2-pow}

module _ {ℓ} (A : Type ℓ) where
  pub build_tree-IsNumbered : (h i : ℕ) → IsNumbered h i (build_tree {A = A} h i)
  unfolding build_tree
  build_tree-IsNumbered zero i = (refl, refl)
  build_tree-IsNumbered (suc h) i =
      (build_tree-IsNumbered h (2 * i), build_tree-IsNumbered h (2 * i + 1))

  pub count-build_tree : (h i : ℕ) → count (build_tree {A = A} h i) ≡ 0
  unfolding build_tree count
  count-build_tree zero i = refl
  count-build_tree (suc h) i =
      omega (arith, count-build_tree h (2 * i), count-build_tree h (2 * i + 1))

  pub build_tree-IsCounted : (h i : ℕ) → IsCounted (build_tree {A = A} h i)
  unfolding build_tree
  build_tree-IsCounted zero i = tt
  build_tree-IsCounted (suc h) i = (
    omega (arith, count-build_tree h (2 * i)),
    build_tree-IsCounted h (2 * i),
    build_tree-IsCounted h (2 * i + 1),
  )

  -- For a range from 1 to 2 ^ 63 the constructor returns a queue in order, with the range it was
  -- given, whose bins are all empty.
  pub new_lem :
      (range : ℕ)
      → 0 < range
      → range ≤ max_range
      → (q : BoundedPqueue A) × (new range ≡ some q)
        × IsValid q
        × (q.range ≡ range)
        × AllEmpty (bins q.root)
  unfolding new
  new_lem range nonzero m =
      let (h, e, (le, small, _)) = next_power2_lem range m in
      (
        record { root = build_tree h 0; leaves = 2 ^ h; total = 0; range = range },
        rw (lt→ltb 0 range nonzero, e, holds le, upper_log2-pow h small),
        (
          h,
          refl,
          build_tree-IsNumbered h 0,
          build_tree-IsCounted h 0,
          sym (count-build_tree h 0),
          omega (arith, count-build_tree h 0),
          le,
        ),
        refl,
        count-AllEmpty (build_tree h 0) (count-build_tree h 0),
      )
    where
      holds : {a b : ℕ} → a ≤ b → leb a b ≡ true
      holds h = ground arith
