-- ===== src/Db/Trie/Tuples/Leaves.antt =====
-- predicates/db/trie.cpp: the list of the leaves of a trie, and the tuples that it holds
use meldtools.Common.{
  ℕ, ◌≤◌, ◌+◌, ◌≡◌, refl, true, false, List, [], ◌∷◌, ◌++◌, if◌then◌else◌, arith, Bool-cases, ap,
  inl, inr,
}
use meldtools.Db.Trie.{Keys}
use meldtools.Db.Trie.Paths.{path_eq}

module _ (K : Keys) where
  open K use {Key, same}

  pub path_eq_refl : (p : List Key) → path_eq K p p ≡ true
  unfolding path_eq
  path_eq_refl [] = refl
  path_eq_refl (k ∷ p) = rw (K.same_refl k) (path_eq_refl p)

  pub path_eq_sound : (p q : List Key) → path_eq K p q ≡ true → p ≡ q
  unfolding path_eq
  path_eq_sound [] [] h = refl
  path_eq_sound [] (q ∷ r) h = absurd (ground arith)
  path_eq_sound (k ∷ p) [] h = absurd (ground arith)
  path_eq_sound (k ∷ p) (q ∷ r) h = elim (Bool-cases (same k q)) [
    | inl b ↦ rw (K.same_eq k q b, path_eq_sound p r (ground (arith, b))) refl
    | inr b ↦ absurd (ground (arith, b))
  ]

  pub path_eq_swap : (p q : List Key) → path_eq K p q ≡ true → path_eq K q p ≡ true
  path_eq_swap p q b = rw (path_eq_sound p q b) (path_eq_refl q)

  pub not_swap : (p q : List Key) → path_eq K p q ≡ false → path_eq K q p ≡ false
  not_swap p q b = elim (Bool-cases (path_eq K q p)) [
    | inl c ↦ absurd (ground (arith, b, path_eq_swap q p c))
    | inr c ↦ c
  ]

  -- How often a path is in a list.
  unfoldable pub times : List Key → List (List Key) → ℕ
  times r [] = 0
  times r (p ∷ ps) = (if path_eq K p r then 1 else 0) + times r ps

  pub times-append :
      (r p : List Key) (ps : List (List Key))
      → times r (ps ++ p ∷ []) ≡ times r ps + (if path_eq K p r then 1 else 0)
  unfolding times
  times-append r p [] = omega arith
  times-append r p (q ∷ ps) = omega (arith, times-append r p ps)

  -- The sum of the references over a list of leaves.
  unfoldable pub sum_of : (List Key → ℕ) → List (List Key) → ℕ
  sum_of f [] = 0
  sum_of f (p ∷ ps) = f p + sum_of f ps

  -- One path has other references, and it is not in the list.
  pub sum_of-absent :
      (p : List Key) (v : ℕ) (f g : List Key → ℕ) (ps : List (List Key))
      → ((r : List Key) → g r ≡ (if path_eq K p r then v else f r))
      → times p ps ≡ 0
      → sum_of g ps ≡ sum_of f ps
  unfolding sum_of times
  sum_of-absent p v f g [] e h = refl
  sum_of-absent p v f g (q ∷ ps) e h = elim (Bool-cases (path_eq K p q)) [
    | inl b ↦ absurd (ground (arith, h, path_eq_refl p, path_eq_sound p q b, path_eq_swap p q b))
    | inr b ↦ ground (arith, b, e q, sum_of-absent p v f g ps e)
  ]

  pub sum_of-present :
      (p : List Key) (v : ℕ) (f g : List Key → ℕ) (ps : List (List Key))
      → ((r : List Key) → g r ≡ (if path_eq K p r then v else f r))
      → times p ps ≡ 1
      → sum_of g ps + f p ≡ sum_of f ps + v
  unfolding sum_of times
  sum_of-present p v f g [] e h = absurd (omega arith)
  sum_of-present p v f g (q ∷ ps) e h = elim (Bool-cases (path_eq K p q)) [
    | inl b ↦
        ground (
          arith,
          b,
          e q,
          ap f (path_eq_sound p q b),
          path_eq_swap p q b,
          sum_of-absent p v f g ps e,
        )
    | inr b ↦ ground (arith, b, e q, not_swap p q b, sum_of-present p v f g ps e)
  ]

  pub sum_of-append :
      (f : List Key → ℕ) (p : List Key) (ps : List (List Key))
      → sum_of f (ps ++ p ∷ []) ≡ sum_of f ps + f p
  unfolding sum_of
  sum_of-append f p [] = omega arith
  sum_of-append f p (q ∷ ps) = omega (arith, sum_of-append f p ps)

  pub sum_of_le :
      (f : List Key → ℕ) (p : List Key) (ps : List (List Key)) → 1 ≤ times p ps → f p ≤ sum_of f ps
  unfolding sum_of times
  sum_of_le f p [] h = absurd (omega arith)
  sum_of_le f p (q ∷ ps) h = elim (Bool-cases (path_eq K q p)) [
    | inl b ↦ rw (path_eq_sound q p b) (omega arith)
    | inr b ↦ ground (arith, b, sum_of_le f p ps)
  ]
