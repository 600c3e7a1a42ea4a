-- ===== src/Db/Trie/Paths.antt =====
-- predicates/db/trie.cpp: what a trie is, and the paths that fit it
use meldtools.Common.{
  ◌≤◌, ◌≡◌, refl, Bool, true, false, ◌&&◌, Option, none, some, List, [], ◌∷◌, if◌then◌else◌, arith,
  Bool-cases, ◌∙◌, sym, ap, inl, inr, subst, ◌⊎◌,
}
use mathlib.Core.Option.{some-injective}
use meldtools.Db.Trie.{Keys, Node, leaf, listed, nil, child}
use meldtools.Db.Trie.Ops.{match, scan_start, find, lookup, new_path}
use meldtools.Db.Trie.Siblings.{weigh}
use meldtools.Db.Trie.Children.{IsTidy, children}

module _ (K : Keys) where
  open K use {Key, same, Shape, final, step}

  -- The path takes the stack of types down to its end.
  pub data IsPath : Shape → List Key → Type 0 where
    at_end : {s : Shape} → final s ≡ true → IsPath s []
    along :
        {s t : Shape} {k : Key} {p : List Key}
        → final s ≡ false
        → step s k ≡ some t
        → IsPath t p
        → IsPath s (k ∷ p)

  unfoldable pub path_eq : List Key → List Key → Bool
  path_eq [] [] = true
  path_eq [] (q ∷ r) = false
  path_eq (k ∷ p) [] = false
  path_eq (k ∷ p) (q ∷ r) = same k q && path_eq p r

module _ (K : Keys) (L : Type 0) where
  open K use {Key, same, Shape, final, step}

  -- A node where the types that remain are a shape: a leaf where none remain, and otherwise a node
  -- with a child at least, whose children are nodes for what remains below them.
  pub data IsNode : Shape → Node K L → Type 0 where
    at_leaf : {s : Shape} {l : L} → final s ≡ true → IsNode s (leaf l)
    at_branch :
        {s : Shape} {n : Node K L}
        → final s ≡ false
        → IsTidy K L n
        → 1 ≤ children K L n
        → ((k : Key) (m : Node K L) → match K L k n ≡ some m → (t : Shape) × (step s k ≡ some t))
        → ((k : Key) (m : Node K L)
            → match K L k n ≡ some m
            → (t : Shape) → step s k ≡ some t
            → IsNode t m)
        → IsNode s n

  unfoldable pub IsRoot : Shape → Node K L → Type 0
  IsRoot s n = IsNode s n ⊎ (n ≡ listed nil)

  -- The tree holds `v` for the path, and what it held for all others.
  abbrev pub Updated : List Key → Option L → Node K L → Node K L → Type 0
  Updated p v n new =
      (r : List Key) → lookup K L r new ≡ (if path_eq K p r then v else lookup K L r n)

  pub lookup-new_path :
      (p : List Key) (l : L) (r : List Key)
      → lookup K L r (new_path K L p l) ≡ (if path_eq K p r then some l else none)
  unfolding new_path lookup path_eq match scan_start find
  lookup-new_path [] l [] = refl
  lookup-new_path [] l (q ∷ r) = refl
  lookup-new_path (k ∷ p) l [] = refl
  lookup-new_path (k ∷ p) l (q ∷ r) = elim (Bool-cases (same k q)) [
    | inl b ↦ rw b (lookup-new_path p l r)
    | inr b ↦ rw b refl
  ]

  only :
      (k q : Key) (n m : Node K L)
      → match K L q (listed (child k n nil)) ≡ some m
      → (k ≡ q) × (n ≡ m)
  unfolding match scan_start find
  only k q n m h = elim (Bool-cases (same k q)) [
    | inl b ↦ (K.same_eq k q b, some-injective n m (ground (arith, b)))
    | inr b ↦ absurd (ground (arith, b))
  ]

  pub new_path-IsNode :
      (s : Shape) (p : List Key) (l : L) → IsPath K s p → IsNode s (new_path K L p l)
  unfolding new_path IsTidy children weigh match scan_start find
  new_path-IsNode s [] l (at_end f) = at_leaf f
  new_path-IsNode s (k ∷ p) l (along {t = t} f e w) =
      at_branch f (λ q. ground arith) (ground arith)
        (λ q m h. let (a, b) = only k q (new_path K L p l) m h in (t, rw (sym a) e))
        (λ q m h u g.
          let (a, b) = only k q (new_path K L p l) m h in
          subst (λ x. IsNode x m) (some-injective t u (sym e ∙ ap (step s) a ∙ g))
            (subst (IsNode t) b (new_path-IsNode t p l w)))
