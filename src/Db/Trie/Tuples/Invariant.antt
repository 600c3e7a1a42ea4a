-- ===== src/Db/Trie/Tuples/Invariant.antt =====
-- predicates/db/trie.cpp: when a trie of tuples is in order, and that basic_invariants holds then
use meldtools.Common.{
  ℕ, ◌≤◌, ◌<◌, ◌≡◌, refl, Bool, true, false, Option, none, some, List, [], ◌∷◌, arith, ◌∙◌, ap, inl,
  inr, ◌==◌,
}
use meldtools.Db.Trie.{Keys, Node, leaf, listed, hashed, Chain, nil, child}
use meldtools.Db.Trie.Ops.{lookup, match, scan_start, find}
use meldtools.Db.Trie.Siblings.{weigh}
use meldtools.Db.Trie.Table.{all}
use meldtools.Db.Trie.Children.{IsTidy, children, find-all}
use meldtools.Db.Trie.Branches.{lookup-match}
use meldtools.Db.Trie.Paths.{IsNode, at_leaf, at_branch, IsRoot}
use meldtools.Db.Trie.Tuples.{
  SimpleTuple, TupleTrie, short_min, basic_invariants, childless, leafless,
}
use meldtools.Db.Trie.Tuples.Leaves.{times, sum_of, sum_of_le, path_eq_refl}

module _ (K : Keys) (L : Type 0) where
  open K use {Key, same, Shape, step}

  -- A child of a chain that is not empty.
  first_child :
      (c : Chain K L)
      → 1 ≤ weigh K L (λ k. 1) c
      → (k : Key) × (m : Node K L) × (find K L k c ≡ some m)
  unfolding weigh find
  first_child nil h = absurd (omega arith)
  first_child (child k n c) h = (k, n, rw (K.same_refl k) refl)

  some_child :
      (n : Node K L)
      → IsTidy K L n
      → 1 ≤ children K L n
      → (k : Key) × (m : Node K L) × (match K L k n ≡ some m)
  unfolding IsTidy children match scan_start
  some_child (leaf l) t h = absurd t
  some_child (listed c) t h = first_child c h
  some_child (hashed bs total) t h =
      let (k, m, e) = first_child (all K L bs) h in (k, m, find-all K L bs k t.placed ∙ e)

  pub some_path :
      (s : Shape) (n : Node K L)
      → IsNode K L s n
      → (p : List Key) × (l : L) × (lookup K L p n ≡ some l)
  unfolding lookup
  some_path s (leaf l) (at_leaf f) = ([], l, refl)
  some_path s n (at_branch f t size stepped kids) =
      let (k, m, e) = some_child n t size in
      let (u, g) = stepped k m e in
      let (p, l, h) = some_path u m (kids k m e u g) in
      (k ∷ p, l, lookup-match K L k p n (some m) e ∙ h)

module _ (K : Keys) (D : Type 0) (path : D → List K.Key) where
  open K use {Key, same, Shape, step}

  unfoldable pub is_some : Option (SimpleTuple D) → ℕ
  is_some none = 0
  is_some (some l) = 1

  unfoldable pub references : Option (SimpleTuple D) → ℕ
  references none = 0
  references (some l) = l.count

  -- How many references the trie holds of the tuple with a path.
  unfoldable pub count_of : Node K (SimpleTuple D) → List Key → ℕ
  count_of n r = references (lookup K (SimpleTuple D) r n)

  -- Every leaf is linked once. It has references, and it is at the path of its tuple. The number of
  -- references is that of all leaves, and fits into a short.
  pub record IsTrie (s : Shape) (t : TupleTrie K D path) : Type 0 where
    pub rooted : IsRoot K (SimpleTuple D) s t.root
    pub linked : (r : List Key) → times K r t.leaves ≡ is_some (lookup K (SimpleTuple D) r t.root)
    pub referred :
        (r : List Key) (l : SimpleTuple D)
        → lookup K (SimpleTuple D) r t.root ≡ some l
        → 1 ≤ l.count
    pub own_path :
        (r : List Key) (l : SimpleTuple D)
        → lookup K (SimpleTuple D) r t.root ≡ some l
        → path l.data_of ≡ r
    pub summed : t.number_of_references ≡ sum_of K (count_of t.root) t.leaves
    pub small : t.number_of_references < short_min

  basic_true :
      (t : TupleTrie K D path) (b : Bool)
      → (t.number_of_references == 0) ≡ b
      → childless K D path t.root ≡ b
      → leafless K D path t.leaves ≡ b
      → basic_invariants K D path t ≡ true
  unfolding basic_invariants
  basic_true t true e f g = rw (e, f, g) refl
  basic_true t false e f g = rw (e, f, g) refl

  no_leaves : (ps : List (List Key)) → ((r : List Key) → times K r ps ≡ 0) → ps ≡ []
  unfolding times
  no_leaves [] h = refl
  no_leaves (p ∷ ps) h = absurd (ground (arith, h p, path_eq_refl K p))

  some_leaves :
      (p : List Key) (ps : List (List Key)) → times K p ps ≡ 1 → leafless K D path ps ≡ false
  unfolding times leafless
  some_leaves p [] h = absurd (omega arith)
  some_leaves p (q ∷ ps) h = refl

  pub node-childless :
      (s : Shape) (n : Node K (SimpleTuple D))
      → IsNode K (SimpleTuple D) s n
      → childless K D path n ≡ false
  unfolding childless children weigh
  node-childless s (leaf l) w = refl
  node-childless s (listed nil) (at_branch f t size a b) = absurd (omega arith)
  node-childless s (listed (child k n c)) w = refl
  node-childless s (hashed bs total) w = refl

  pub linked_once :
      (s : Shape) (t : TupleTrie K D path) (p : List Key) (l : SimpleTuple D)
      → IsTrie s t
      → lookup K (SimpleTuple D) p t.root ≡ some l
      → times K p t.leaves ≡ 1
  unfolding is_some
  linked_once s t p l v e = v.linked p ∙ ap is_some e

  pub count_of_found :
      (n : Node K (SimpleTuple D)) (p : List Key) (o : Option (SimpleTuple D))
      → lookup K (SimpleTuple D) p n ≡ o
      → count_of n p ≡ references o
  unfolding count_of
  count_of_found n p o e = ap references e

  pub held :
      (s : Shape) (t : TupleTrie K D path) (p : List Key) (l : SimpleTuple D)
      → IsTrie s t
      → lookup K (SimpleTuple D) p t.root ≡ some l
      → l.count ≤ t.number_of_references
  unfolding references
  held s t p l v e = omega (
    arith,
    v.summed,
    sum_of_le K (count_of t.root) p t.leaves,
    linked_once s t p l v e,
    count_of_found t.root p (some l) e,
  )

  pub lookup-empty : (r : List Key) → lookup K (SimpleTuple D) r (listed nil) ≡ none
  unfolding lookup match scan_start find
  lookup-empty [] = refl
  lookup-empty (k ∷ r) = refl

  unlinked :
      (s : Shape) (t : TupleTrie K D path) (r : List Key)
      → IsTrie s t
      → t.root ≡ listed nil
      → times K r t.leaves ≡ 0
  unfolding is_some
  unlinked s t r v e =
      v.linked r ∙ ap (λ n. is_some (lookup K (SimpleTuple D) r n)) e ∙ ap is_some (lookup-empty r)

  -- The assertions of basic_invariants hold.
  pub basic_invariants_lem :
      (s : Shape) (t : TupleTrie K D path) → IsTrie s t → basic_invariants K D path t ≡ true
  unfolding IsRoot childless leafless sum_of
  basic_invariants_lem s t v = elim v.rooted [
    | inl w ↦
        let (p, l, e) = some_path K (SimpleTuple D) s t.root w in
        basic_true t false (ground (arith, held s t p l v e, v.referred p l e))
          (node-childless s t.root w) (some_leaves p t.leaves (linked_once s t p l v e))
    | inr e ↦
        let empty = no_leaves t.leaves (λ r. unlinked s t r v e) in
        basic_true t true (ground (arith, v.summed, ap (sum_of K (count_of t.root)) empty))
          (ap (childless K D path) e) (ap (leafless K D path) empty)
  ]
