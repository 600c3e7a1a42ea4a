-- ===== src/Queue/Bounded/Take.antt =====
-- pop, top and top_list, which find the first bin that holds something.
use mathlib.Core.Option
use meldtools.Queue.Bounded.{
  Tree, leaf, node, pop_leaf, sub64, BoundedPqueue, pop, take_leaf, top, top_leaf, top_list,
}
use meldtools.Common.{
  ℕ, zero, suc, ◌+◌, ◌-◌, ◌*◌, ◌≤◌, ◌<◌, ◌≡◌, refl, ap, ◌∙◌, inl, inr, Option, none, some, List, [],
  ◌∷◌, ◌++◌, arith, ltb, ltb→lt, Bool-cases, u64_mod, Option-cases, length,
}
use meldtools.Queue.Bounded.Bins.{
  AllEmpty, IsCounted, IsNumbered, bins, count, count-AllEmpty, IsValid,
}

sub64-small : (a b : ℕ) → b ≤ a → a < u64_mod → sub64 a b ≡ a - b
sub64-small a b h k = omega arith

module _ {ℓ} {A : Type ℓ} where
  -- The head of the first bin that holds something, and the row without it.
  unfoldable pub pop_first : List (List A) → Option (A × List (List A))
  pop_first [] = none
  pop_first ([] ∷ bs) = Option.map (λ r. (r.0, [] ∷ r.1)) (pop_first bs)
  pop_first ((x ∷ xs) ∷ bs) = some (x, xs ∷ bs)

  pop_first-left :
      (bs cs : List (List A)) {x : A} {ds : List (List A)}
      → pop_first bs ≡ some (x, ds)
      → pop_first (bs ++ cs) ≡ some (x, ds ++ cs)
  unfolding pop_first
  pop_first-left [] cs h = absurd (ground arith)
  pop_first-left ([] ∷ bs) cs h = elim (Option-cases (pop_first bs)) [
    | inl e ↦ absurd (ground arith)
    | inr ((y, ds'), e) ↦ ground (arith, pop_first-left bs cs e)
  ]
  pop_first-left ((x ∷ xs) ∷ bs) cs h = ground arith

  pop_first-right :
      (bs cs : List (List A)) {x : A} {ds : List (List A)}
      → AllEmpty bs
      → pop_first cs ≡ some (x, ds)
      → pop_first (bs ++ cs) ≡ some (x, bs ++ ds)
  unfolding pop_first
  pop_first-right [] cs e h = h
  pop_first-right ([] ∷ bs) cs e h =
      ap (Option.map (λ r. (r.0, [] ∷ r.1))) (pop_first-right bs cs e h)
  pop_first-right ((x ∷ xs) ∷ bs) cs e h = absurd e

  pub pop_leaf-pop_first :
      (h i : ℕ) (t : Tree A)
      → IsNumbered h i t
      → IsCounted t
      → count t < u64_mod
      → 0 < count t
      → (x : A) × (u : Tree A) × (pop_leaf t ≡ some (x, u))
        × (pop_first (bins t) ≡ some (x, bins u))
        × IsNumbered h i u
        × IsCounted u
        × (suc (count u) ≡ count t)
  unfolding pop_leaf pop_first bins count
  pop_leaf-pop_first h i (leaf p []) n c m k = absurd (omega arith)
  pop_leaf-pop_first h i (leaf p (x ∷ bin)) n c m k = (x, leaf p bin, refl, refl, n, tt, refl)
  pop_leaf-pop_first zero i (node c l r) n ct m k = absurd n
  pop_leaf-pop_first (suc h) i (node c l r) (n, w) (e, cl, cr) m k = elim (Bool-cases (ltb 0 c)) [
    | inl b ↦
        let (x, u, e', f, n', c', s) =
          pop_leaf-pop_first h (2 * i) l n cl (omega arith) (omega (arith, ltb→lt 0 c b)) in
        (
          x,
          node (sub64 c 1) u r,
          ground (arith, e'),
          pop_first-left (bins l) (bins r) f,
          (n', w),
          (sub64-small c 1 (ltb→lt 0 c b) (omega arith) ∙ omega arith, c', cr),
          omega arith,
        )
    | inr b ↦
        let none_left : count l ≡ 0 = ground arith in
        let (x, u, e', f, n', c', s) =
          pop_leaf-pop_first h (2 * i + 1) r w cr (omega arith) (omega arith) in
        (
          x,
          node c l u,
          ground (arith, e'),
          pop_first-right (bins l) (bins r) (count-AllEmpty l none_left) f,
          (n, n'),
          (e, cl, c'),
          omega arith,
        )
  ]

  -- The first bin that holds something, and the row with that bin emptied.
  unfoldable pub take_first : List (List A) → Option (List A × List (List A))
  take_first [] = none
  take_first ([] ∷ bs) = Option.map (λ r. (r.0, [] ∷ r.1)) (take_first bs)
  take_first ((x ∷ xs) ∷ bs) = some (x ∷ xs, [] ∷ bs)

  take_first-left :
      (bs cs : List (List A)) {xs : List A} {ds : List (List A)}
      → take_first bs ≡ some (xs, ds)
      → take_first (bs ++ cs) ≡ some (xs, ds ++ cs)
  unfolding take_first
  take_first-left [] cs h = absurd (ground arith)
  take_first-left ([] ∷ bs) cs h = elim (Option-cases (take_first bs)) [
    | inl e ↦ absurd (ground arith)
    | inr ((y, ds'), e) ↦ ground (arith, take_first-left bs cs e)
  ]
  take_first-left ((x ∷ xs) ∷ bs) cs h = ground arith

  take_first-right :
      (bs cs : List (List A)) {xs : List A} {ds : List (List A)}
      → AllEmpty bs
      → take_first cs ≡ some (xs, ds)
      → take_first (bs ++ cs) ≡ some (xs, bs ++ ds)
  unfolding take_first
  take_first-right [] cs e h = h
  take_first-right ([] ∷ bs) cs e h =
      ap (Option.map (λ r. (r.0, [] ∷ r.1))) (take_first-right bs cs e h)
  take_first-right ((x ∷ xs) ∷ bs) cs e h = absurd e

  pub take_leaf-take_first :
      (h i : ℕ) (t : Tree A)
      → IsNumbered h i t
      → IsCounted t
      → count t < u64_mod
      → 0 < count t
      → (xs : List A) × (u : Tree A) × (take_leaf 0 t ≡ some (xs, u))
        × (take_first (bins t) ≡ some (xs, bins u))
        × IsNumbered h i u
        × IsCounted u
        × (count u + length xs ≡ count t)
  unfolding take_leaf take_first bins count
  take_leaf-take_first h i (leaf p []) n c m k = absurd (omega arith)
  take_leaf-take_first h i (leaf p (x ∷ bin)) n c m k =
      (x ∷ bin, leaf p [], refl, refl, n, tt, omega arith)
  take_leaf-take_first zero i (node c l r) n ct m k = absurd n
  take_leaf-take_first (suc h) i (node c l r) (n, w) (e, cl, cr) m k = elim (Bool-cases (ltb 0 c)) [
    | inl b ↦
        let (xs, u, e', f, n', c', s) =
          take_leaf-take_first h (2 * i) l n cl (omega arith) (omega (arith, ltb→lt 0 c b)) in
        (
          xs,
          node (sub64 c (length xs)) u r,
          ground (arith, e'),
          take_first-left (bins l) (bins r) f,
          (n', w),
          (sub64-small c (length xs) (omega arith) (omega arith) ∙ omega arith, c', cr),
          omega arith,
        )
    | inr b ↦
        let none_left : count l ≡ 0 = ground arith in
        let (xs, u, e', f, n', c', s) =
          take_leaf-take_first h (2 * i + 1) r w cr (omega arith) (omega arith) in
        (
          xs,
          node c l u,
          ground (arith, e'),
          take_first-right (bins l) (bins r) (count-AllEmpty l none_left) f,
          (n, n'),
          (e, cl, c'),
          omega arith,
        )
  ]

  top_leaf-pop_leaf : (t : Tree A) → top_leaf t ≡ Option.map (λ r. r.0) (pop_leaf t)
  unfolding top_leaf pop_leaf
  top_leaf-pop_leaf (leaf p []) = refl
  top_leaf-pop_leaf (leaf p (x ∷ bin)) = refl
  top_leaf-pop_leaf (node c l r) = ground (arith, top_leaf-pop_leaf l, top_leaf-pop_leaf r)

  -- From a queue in order that is not empty, pop takes the head of the first bin that holds
  -- something, keeps the order and moves nothing else; top would have returned the same element.
  pub pop_lem :
      (q : BoundedPqueue A)
      → IsValid q
      → 0 < q.total
      → (x : A) × (q' : BoundedPqueue A) × (pop q ≡ some (x, q'))
        × (top q ≡ some x)
        × (pop_first (bins q.root) ≡ some (x, bins q'.root))
        × IsValid q'
        × (suc q'.total ≡ q.total)
  unfolding pop top
  pop_lem q (h, e, n, c, t, m, r) l =
      let (x, u, e', f, n', c', s) = pop_leaf-pop_first h 0 q.root n c m (omega arith) in
      let left = sub64-small q.total 1 l (omega arith) in
      (
        x,
        record q { root = u; total = sub64 q.total 1 },
        ground (arith, e'),
        rw (top_leaf-pop_leaf q.root, e'),
        f,
        (h, e, n', c', left ∙ omega arith, omega arith, r),
        omega (arith, left),
      )

  -- From a queue in order that is not empty, top_list moves the whole of the first bin that holds
  -- something to the empty list it is given, keeps the order and moves nothing else.
  pub top_list_lem :
      (q : BoundedPqueue A)
      → IsValid q
      → 0 < q.total
      → (xs : List A) × (q' : BoundedPqueue A) × (top_list q [] ≡ some (xs, q'))
        × (take_first (bins q.root) ≡ some (xs, bins q'.root))
        × IsValid q'
        × (q'.total + length xs ≡ q.total)
  unfolding top_list
  top_list_lem q (h, e, n, c, t, m, r) l =
      let (xs, u, e', f, n', c', s) = take_leaf-take_first h 0 q.root n c m (omega arith) in
      let left = sub64-small q.total (length xs) (omega arith) (omega arith) in
      (
        xs,
        record q { root = u; total = sub64 q.total (length xs) },
        ground (arith, e'),
        f,
        (h, e, n', c', left ∙ omega arith, omega arith, r),
        omega (arith, left),
      )
