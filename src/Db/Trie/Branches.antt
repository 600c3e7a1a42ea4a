-- ===== src/Db/Trie/Branches.antt =====
-- predicates/db/trie.cpp: a node one of whose children changes
use meldtools.Common.{
  ◌≤◌, ◌≡◌, refl, false, Option, none, some, List, [], ◌∷◌, if◌then◌else◌, arith, Bool-cases, ◌∙◌,
  sym, ap, inl, inr, subst, ◌>>=◌,
}
use mathlib.Core.Option.{some-injective}
use meldtools.Db.Trie.{Keys, Node, leaf, listed, hashed}
use meldtools.Db.Trie.Ops.{match, lookup, set_child}
use meldtools.Db.Trie.Children.{IsTidy, children, has_child}
use meldtools.Db.Trie.OldChild.{set_child_lem}
use meldtools.Db.Trie.Paths.{IsNode, at_branch, Updated, path_eq}

module _ (K : Keys) (L : Type 0) where
  open K use {Key, same, Shape, final, step}

  pub lookup-inner : (n : Node K L) → IsTidy K L n → lookup K L [] n ≡ none
  unfolding IsTidy lookup
  lookup-inner (leaf l) t = absurd t
  lookup-inner (listed c) t = refl
  lookup-inner (hashed bs total) t = refl

  pub Updated-child :
      (k : Key) (p : List Key) (v : Option L) (n new : Node K L) (o : Option (Node K L))
      → IsTidy K L n
      → IsTidy K L new
      → ((q : Key) → match K L q new ≡ (if same k q then o else match K L q n))
      → ((r : List Key)
          → (o >>= λ m. lookup K L r m)
            ≡ (if path_eq K p r then v else (match K L k n >>= λ m. lookup K L r m)))
      → Updated K L (k ∷ p) v n new
  unfolding lookup path_eq
  Updated-child k p v n new o t u e below [] = lookup-inner new u ∙ sym (lookup-inner n t)
  Updated-child k p v n new o t u e below (q ∷ r) = elim (Bool-cases (same k q)) [
    | inl b ↦ rw (e q, b, sym (K.same_eq k q b)) (below r)
    | inr b ↦ rw (e q, b) refl
  ]

  -- The children of a node of a shape, as `at_branch` has them.
  pub record IsBranch (s : Shape) (n : Node K L) : Type 0 where
    pub inner : final s ≡ false
    pub tidy : IsTidy K L n
    pub stepped :
        (k : Key) (m : Node K L) → match K L k n ≡ some m → (t : Shape) × (step s k ≡ some t)
    pub kids :
        (k : Key) (m : Node K L)
        → match K L k n ≡ some m
        → (t : Shape) → step s k ≡ some t
        → IsNode K L t m

  -- A branch with one child replaced or added is a node.
  pub branch-IsNode :
      (s : Shape) (k : Key) (n new : Node K L) (o : Option (Node K L)) (t : Shape)
      → IsBranch s n
      → step s k ≡ some t
      → ((m : Node K L) → o ≡ some m → IsNode K L t m)
      → IsTidy K L new
      → 1 ≤ children K L new
      → ((q : Key) → match K L q new ≡ (if same k q then o else match K L q n))
      → IsNode K L s new
  branch-IsNode s k n new o t b g w tidy size e =
      at_branch b.inner tidy size
        (λ q x h. elim (Bool-cases (same k q)) [
          | inl c ↦ (t, subst (λ x. step s x ≡ some t) (K.same_eq k q c) g)
          | inr c ↦ b.stepped q x (ground (arith, c, e q))
        ])
        (λ q x h u f. elim (Bool-cases (same k q)) [
          | inl c ↦
              subst (λ y. IsNode K L y x)
                (some-injective t u (sym g ∙ ap (step s) (K.same_eq k q c) ∙ f))
                (w x (ground (arith, c, e q)))
          | inr c ↦ b.kids q x (ground (arith, c, e q)) u f
        ])

  known :
      (k : Key) (r : List Key) (n m : Node K L)
      → match K L k n ≡ some m
      → lookup K L r m ≡ (match K L k n >>= λ o. lookup K L r o)
  known k r n m e = rw e refl

  pub lookup-match :
      (k : Key) (p : List Key) (n : Node K L) (o : Option (Node K L))
      → match K L k n ≡ o
      → lookup K L (k ∷ p) n ≡ (o >>= λ m. lookup K L p m)
  unfolding lookup
  lookup-match k p n o e = rw e refl

  pub replaced :
      (s t : Shape) (k : Key) (p : List Key) (n m new : Node K L) (v : Option L)
      → IsBranch s n
      → match K L k n ≡ some m
      → step s k ≡ some t
      → IsNode K L t new
      → Updated K L p v m new
      → IsNode K L s (set_child K L k new n) × Updated K L (k ∷ p) v n (set_child K L k new n)
  replaced s t k p n m new v b e g w u =
      let (tidy, size, read) = set_child_lem K L k new n m b.tidy e in
      (
        branch-IsNode s k n (set_child K L k new n) (some new) t b g
            (λ x e. subst (IsNode K L t) (some-injective new x e) w) tidy
            (omega (arith, size, has_child K L k n m e)) read,
        Updated-child k p v n (set_child K L k new n) (some new) b.tidy tidy read
            (λ r. u r ∙ ap (λ (x : Option L). if path_eq K p r then v else x) (known k r n m e)),
      )
