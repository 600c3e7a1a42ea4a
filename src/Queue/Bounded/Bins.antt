-- ===== src/Queue/Bounded/Bins.antt =====
-- A tree of counters, seen as its row of bins.
use meldtools.Common.{
  ℕ, zero, suc, ◌+◌, ◌-◌, ◌*◌, ◌^◌, ◌≤◌, ◌<◌, ◌≡◌, refl, ap, ◌∙◌, List, [], ◌∷◌, ◌++◌, arith,
  length, length-append, u64_mod,
}
use meldtools.Queue.Bounded.{BoundedPqueue, Tree, leaf, node}
use meldtools.Queue.Bounded.Powers.{pow_twice}

module _ {ℓ} {A : Type ℓ} where
  unfoldable pub bins : Tree A → List (List A)
  bins (leaf p bin) = bin ∷ []
  bins (node c l r) = bins l ++ bins r

  unfoldable pub labels : Tree A → List ℕ
  labels (leaf p bin) = p ∷ []
  labels (node c l r) = labels l ++ labels r

  -- How many elements the bins of a tree hold.
  unfoldable pub count : Tree A → ℕ
  count (leaf p bin) = length bin
  count (node c l r) = count l + count r

  -- Each counter is the number of elements on its left.
  abbrev pub IsCounted : Tree A → Type 0
  IsCounted (leaf p bin) = Unit {0}
  IsCounted (node c l r) = (c ≡ count l) × IsCounted l × IsCounted r

  -- The leaves carry the numbers from `i * 2 ^ h` on, as build_tree gives them out.
  abbrev pub IsNumbered : ℕ → ℕ → Tree A → Type 0
  IsNumbered h i (leaf p bin) = (h ≡ 0) × (p ≡ i)
  IsNumbered zero i (node c l r) = ⊥
  IsNumbered (suc h) i (node c l r) = IsNumbered h (2 * i) l × IsNumbered h (2 * i + 1) r

  -- All bins of a row are empty.
  abbrev pub AllEmpty : List (List A) → Type 0
  AllEmpty [] = Unit {0}
  AllEmpty ([] ∷ bs) = AllEmpty bs
  AllEmpty ((x ∷ xs) ∷ bs) = ⊥

  -- A row with elements added to the end of one bin.
  unfoldable pub append_at : ℕ → List A → List (List A) → List (List A)
  append_at i xs [] = []
  append_at zero xs (b ∷ bs) = (b ++ xs) ∷ bs
  append_at (suc i) xs (b ∷ bs) = b ∷ append_at i xs bs

  pub AllEmpty-append : (bs cs : List (List A)) → AllEmpty bs → AllEmpty cs → AllEmpty (bs ++ cs)
  AllEmpty-append [] cs h k = k
  AllEmpty-append ([] ∷ bs) cs h k = AllEmpty-append bs cs h k
  AllEmpty-append ((x ∷ xs) ∷ bs) cs h k = absurd h

  pub count-AllEmpty : (t : Tree A) → count t ≡ 0 → AllEmpty (bins t)
  unfolding count bins
  count-AllEmpty (leaf p []) h = tt
  count-AllEmpty (leaf p (x ∷ bin)) h = absurd (omega arith)
  count-AllEmpty (node c l r) h =
      AllEmpty-append (bins l) (bins r) (count-AllEmpty l (omega arith))
        (count-AllEmpty r (omega arith))

  pub length-bins : (h i : ℕ) (t : Tree A) → IsNumbered h i t → length (bins t) ≡ 2 ^ h
  unfolding bins
  length-bins h i (leaf p bin) (e, k) = rw e
  length-bins zero i (node c l r) n = absurd n
  length-bins (suc h) i (node c l r) (n, k) = omega (
    arith,
    length-append (bins l) (bins r),
    length-bins h (2 * i) l n,
    length-bins h (2 * i + 1) r k,
    pow_twice h,
  )

  pub append_at-left :
      (i : ℕ) (xs : List A) (bs cs : List (List A))
      → i < length bs
      → append_at i xs (bs ++ cs) ≡ append_at i xs bs ++ cs
  unfolding append_at
  append_at-left i xs [] cs h = absurd (omega arith)
  append_at-left zero xs (b ∷ bs) cs h = refl
  append_at-left (suc i) xs (b ∷ bs) cs h = ap (◌∷◌ b) (append_at-left i xs bs cs (omega arith))

  pub append_at-right :
      (i : ℕ) (xs : List A) (bs cs : List (List A))
      → length bs ≤ i
      → append_at i xs (bs ++ cs) ≡ bs ++ append_at (i - length bs) xs cs
  unfolding append_at
  append_at-right i xs [] cs h = ap (λ k. append_at k xs cs) (omega arith)
  append_at-right zero xs (b ∷ bs) cs h = absurd (omega arith)
  append_at-right (suc i) xs (b ∷ bs) cs h =
      ap (◌∷◌ b)
        (append_at-right i xs bs cs (omega arith) ∙ ap (λ k. bs ++ append_at k xs cs) (omega arith))

  -- A queue in order: the tree is complete, its leaves numbered from left to right, each counter is
  -- what stands on its left, and the total is what the bins hold.
  abbrev pub IsValid : BoundedPqueue A → Type 0
  IsValid q =
      (h : ℕ) × (q.leaves ≡ 2 ^ h)
      × IsNumbered h 0 q.root
      × IsCounted q.root
      × (q.total ≡ count q.root)
      × (count q.root < u64_mod)
      × (q.range ≤ q.leaves)
