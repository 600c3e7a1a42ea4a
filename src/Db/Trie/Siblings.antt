-- ===== src/Db/Trie/Siblings.antt =====
-- predicates/db/trie.cpp: chains of siblings
use meldtools.Common.{
  ℕ, ◌+◌, ◌≤◌, ◌≡◌, refl, true, false, none, some, if◌then◌else◌, arith, Bool-cases, subst, sym,
  inl, inr, ◌==◌,
}
use meldtools.Db.Trie.{Keys, Node, Chain, nil, child}
use meldtools.Db.Trie.Ops.{find, replace, unlink, chain_length}

module _ (K : Keys) (L : Type 0) where
  open K use {Key, same}

  unfoldable pub join : Chain K L → Chain K L → Chain K L
  join nil d = d
  join (child k n c) d = child k n (join c d)

  -- The sum of a weight of the keys.
  unfoldable pub weigh : (Key → ℕ) → Chain K L → ℕ
  weigh w nil = 0
  weigh w (child k n c) = w k + weigh w c

  abbrev pub is : Key → Key → ℕ
  is q k = if same k q then 1 else 0

  -- How many of the children have the key.
  abbrev pub occ : Key → Chain K L → ℕ
  occ q c = weigh (is q) c

  pub same_swap : (k q : Key) → same q k ≡ true → same k q ≡ true
  same_swap k q b = rw (K.same_eq q k b) (K.same_refl k)

  pub same_sym : (k q : Key) → same k q ≡ false → same q k ≡ false
  same_sym k q h = elim (Bool-cases (same q k)) [
    | inl b ↦ absurd (ground (arith, h, same_swap k q b))
    | inr b ↦ b
  ]

  pub weigh-join : (w : Key → ℕ) (c d : Chain K L) → weigh w (join c d) ≡ weigh w c + weigh w d
  unfolding join weigh
  weigh-join w nil d = omega arith
  weigh-join w (child k n c) d = omega (arith, weigh-join w c d)

  pub find-absent : (q : Key) (c : Chain K L) → occ q c ≡ 0 → find K L q c ≡ none
  unfolding find weigh
  find-absent q nil h = refl
  find-absent q (child k n c) h = elim (Bool-cases (same k q)) [
    | inl b ↦ absurd (ground (arith, b))
    | inr b ↦ rw b (find-absent q c (ground (arith, b)))
  ]

  pub occ-absent : (q : Key) (c : Chain K L) → find K L q c ≡ none → occ q c ≡ 0
  unfolding find weigh
  occ-absent q nil h = refl
  occ-absent q (child k n c) h = elim (Bool-cases (same k q)) [
    | inl b ↦ absurd (ground (arith, b))
    | inr b ↦ ground (arith, b, occ-absent q c)
  ]

  pub occ-present : (q : Key) (c : Chain K L) (m : Node K L) → find K L q c ≡ some m → 1 ≤ occ q c
  unfolding find weigh
  occ-present q nil m h = absurd (ground arith)
  occ-present q (child k n c) m h = elim (Bool-cases (same k q)) [
    | inl b ↦ ground (arith, b)
    | inr b ↦ ground (arith, b, occ-present q c m)
  ]

  pub find-join :
      (q : Key) (c d : Chain K L)
      → find K L q (join c d) ≡ (if occ q c == 0 then find K L q d else find K L q c)
  unfolding find weigh join
  find-join q nil d = refl
  find-join q (child k n c) d = elim (Bool-cases (same k q)) [
    | inl b ↦ ground (arith, b)
    | inr b ↦ ground (arith, b, find-join q c d)
  ]

  pub find-replace :
      (k q : Key) (m : Node K L) (c : Chain K L) (o : Node K L)
      → find K L k c ≡ some o
      → find K L q (replace K L k m c) ≡ (if same k q then some m else find K L q c)
  unfolding find replace
  find-replace k q m nil o h = absurd (ground arith)
  find-replace k q m (child x n c) o h = elim (Bool-cases (same x k)) [
    | inl b ↦
        rw (b, K.same_eq x k b)
          (elim (Bool-cases (same k q)) [ inl s ↦ rw s refl | inr s ↦ rw s refl ])
    | inr b ↦
        let rest =
          find-replace k q m c o (subst (λ t. (if t then some n else find K L k c) ≡ some o) b h) in
        rw b (elim (Bool-cases (same x q)) [
          | inl s ↦ rw (s, sym (K.same_eq x q s), same_sym x k b) refl
          | inr s ↦ rw s rest
        ])
  ]

  pub weigh-replace :
      (w : Key → ℕ) (k : Key) (m : Node K L) (c : Chain K L)
      → weigh w (replace K L k m c) ≡ weigh w c
  unfolding weigh replace
  weigh-replace w k m nil = refl
  weigh-replace w k m (child x n c) = ground (arith, weigh-replace w k m c)

  pub weigh-unlink :
      (w : Key → ℕ) (k : Key) (c : Chain K L) (o : Node K L)
      → find K L k c ≡ some o
      → weigh w (unlink K L k c) + w k ≡ weigh w c
  unfolding find weigh unlink
  weigh-unlink w k nil o h = absurd (ground arith)
  weigh-unlink w k (child x n c) o h = elim (Bool-cases (same x k)) [
    | inl b ↦ rw (b, K.same_eq x k b) (omega arith)
    | inr b ↦ rw b (
        omega (
          arith,
          weigh-unlink w k c o (subst (λ t. (if t then some n else find K L k c) ≡ some o) b h),
        ))
  ]

  pub find-unlink :
      (k q : Key) (c : Chain K L) (o : Node K L)
      → find K L k c ≡ some o
      → occ k c ≤ 1
      → find K L q (unlink K L k c) ≡ (if same k q then none else find K L q c)
  unfolding find weigh unlink
  find-unlink k q nil o h once = absurd (ground arith)
  find-unlink k q (child x n c) o h once = elim (Bool-cases (same x k)) [
    | inl b ↦
        let gone : occ k c ≡ 0 = ground (arith, b) in
        rw (b, K.same_eq x k b)
          (elim (Bool-cases (same k q)) [
            | inl s ↦ rw s (find-absent q c (rw (sym (K.same_eq k q s)) gone))
            | inr s ↦ rw s refl
          ])
    | inr b ↦
        let rest =
          find-unlink k q c o (subst (λ t. (if t then some n else find K L k c) ≡ some o) b h)
            (ground (arith, b)) in
        rw b (elim (Bool-cases (same x q)) [
          | inl s ↦ rw (s, sym (K.same_eq x q s), same_sym x k b) refl
          | inr s ↦ rw s rest
        ])
  ]

  pub chain_length_lem : (c : Chain K L) → chain_length K L c ≡ weigh (λ k. 1) c
  unfolding weigh chain_length
  chain_length_lem nil = refl
  chain_length_lem (child k n c) = omega (arith, chain_length_lem c)

  pub two_keys :
      (k q : Key) (c : Chain K L) → same k q ≡ false → occ k c + occ q c ≤ weigh (λ x. 1) c
  unfolding weigh
  two_keys k q nil h = omega arith
  two_keys k q (child x n c) h = elim (Bool-cases (same x k)) [
    | inl b ↦ rw (K.same_eq x k b, K.same_refl k, h) (omega (arith, two_keys k q c h))
    | inr b ↦ rw b (ground (arith, two_keys k q c h))
  ]
