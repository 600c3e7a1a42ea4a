-- ===== src/Db/Trie/Tuples/Unlink.antt =====
-- predicates/db/trie.cpp: inner_delete_by_leaf
use meldtools.Common.{
  ℕ, ◌+◌, ◌≡◌, refl, Option, none, some, List, [], ◌∷◌, if◌then◌else◌, arith, Bool-cases, ◌∙◌, sym,
  ap, inl, inr,
}
use meldtools.Db.Trie.{Keys, Node, listed, nil}
use meldtools.Db.Trie.Ops.{lookup, delete_path}
use meldtools.Db.Trie.Paths.{path_eq, IsPath, IsNode, IsRoot, Updated}
use meldtools.Db.Trie.Deletion.{IsDeleted, delete_path-IsDeleted}
use meldtools.Db.Trie.Tuples.{SimpleTuple, TupleTrie, remove_leaf, after_path}
use meldtools.Db.Trie.Tuples.Leaves.{
  path_eq_refl, path_eq_sound, path_eq_swap, not_swap, times, sum_of, sum_of-present,
}
use meldtools.Db.Trie.Tuples.Invariant.{
  IsTrie, is_some, references, count_of, count_of_found, linked_once, lookup-empty,
}
use meldtools.Db.Trie.Tuples.Change.{count_of-Updated}

module _ (K : Keys) where
  open K use {Key, same}

  times-remove_leaf :
      (p r : List Key) (ps : List (List Key))
      → times K p ps ≡ 1
      → times K r (remove_leaf K p ps) ≡ (if path_eq K p r then 0 else times K r ps)
  unfolding times remove_leaf
  times-remove_leaf p r [] h = absurd (omega arith)
  times-remove_leaf p r (q ∷ ps) h = elim (Bool-cases (path_eq K p q)) [
    | inl b ↦
        let once : times K p ps ≡ 0 = ground (arith, h, path_eq_swap K p q b) in
        rw (b, sym (path_eq_sound K p q b))
          (elim (Bool-cases (path_eq K p r)) [
            | inl c ↦ rw (c, sym (path_eq_sound K p r c)) once
            | inr c ↦ rw c (omega arith)
          ])
    | inr b ↦
        let other = not_swap K p q b in
        let rest = times-remove_leaf p r ps (ground (arith, h, other)) in
        rw b (elim (Bool-cases (path_eq K p r)) [
          | inl c ↦ ground (arith, c, rest, other, ap (path_eq K q) (path_eq_sound K p r c))
          | inr c ↦ ground (arith, c, rest)
        ])
  ]

  sum_of-remove_leaf :
      (g : List Key → ℕ) (p : List Key) (ps : List (List Key))
      → times K p ps ≡ 1
      → sum_of K g (remove_leaf K p ps) + g p ≡ sum_of K g ps
  unfolding times remove_leaf sum_of
  sum_of-remove_leaf g p [] h = absurd (omega arith)
  sum_of-remove_leaf g p (q ∷ ps) h = elim (Bool-cases (path_eq K p q)) [
    | inl b ↦ rw (b, path_eq_sound K p q b) (omega arith)
    | inr b ↦
        let rest = sum_of-remove_leaf g p ps (ground (arith, h, not_swap K p q b)) in
        rw b (omega (arith, rest))
  ]

module _ (K : Keys) (D : Type 0) (path : D → List K.Key) where
  open K use {Key, same, Shape, step}

  after_deleted :
      (s : Shape) (p : List Key) (n : Node K (SimpleTuple D)) (o : Option (Node K (SimpleTuple D)))
      → IsDeleted K (SimpleTuple D) s p n o
      → (root : Node K (SimpleTuple D)) × (after_path K D path o ≡ root)
        × IsRoot K (SimpleTuple D) s root
        × Updated K (SimpleTuple D) p none n root
  unfolding IsDeleted after_path IsRoot
  after_deleted s p n none others = (
    listed nil,
    refl,
    inr refl,
    λ r. elim (Bool-cases (path_eq K p r)) [
      | inl b ↦ rw b (lookup-empty K D path r)
      | inr b ↦ rw b (lookup-empty K D path r ∙ sym (others r b))
    ],
  )
  after_deleted s p n (some root) (w, u) = (root, refl, inl w, u)

  -- What is left of the root when a path is deleted.
  pub after_path_lem :
      (s : Shape) (p : List Key) (n : Node K (SimpleTuple D)) (l : SimpleTuple D)
      → IsPath K s p
      → IsNode K (SimpleTuple D) s n
      → lookup K (SimpleTuple D) p n ≡ some l
      → (root : Node K (SimpleTuple D)) × (after_path K D path (delete_path K (SimpleTuple D) p n)
          ≡ root)
        × IsRoot K (SimpleTuple D) s root
        × Updated K (SimpleTuple D) p none n root
  after_path_lem s p n l w v e =
      after_deleted s p n (delete_path K (SimpleTuple D) p n)
        (delete_path-IsDeleted K (SimpleTuple D) s p n l w v e)

  -- The leaf of a path is gone.
  pub unlink-IsTrie :
      (s : Shape) (p : List Key) (l : SimpleTuple D) (t : TupleTrie K D path)
      (root : Node K (SimpleTuple D)) (number : ℕ)
      → IsTrie K D path s t
      → lookup K (SimpleTuple D) p t.root ≡ some l
      → IsRoot K (SimpleTuple D) s root
      → Updated K (SimpleTuple D) p none t.root root
      → number + l.count ≡ t.number_of_references
      → IsTrie K D path s
          (record { root = root; number_of_references = number; leaves = remove_leaf K p t.leaves })
  unfolding is_some references
  unlink-IsTrie s p l t root number v e w u sum =
      let once = linked_once K D path s t p l v e in
      record {
        rooted = w;
        linked = λ r. elim (Bool-cases (path_eq K p r)) [
          | inl b ↦ rw (times-remove_leaf K p r t.leaves once, u r, b) refl
          | inr b ↦ rw (times-remove_leaf K p r t.leaves once, u r, b) (v.linked r)
        ];
        referred = λ r x h. elim (Bool-cases (path_eq K p r)) [
          | inl b ↦ absurd (ground (arith, b, u r, h))
          | inr b ↦ v.referred r x (ground (arith, b, u r, h))
        ];
        own_path = λ r x h. elim (Bool-cases (path_eq K p r)) [
          | inl b ↦ absurd (ground (arith, b, u r, h))
          | inr b ↦ v.own_path r x (ground (arith, b, u r, h))
        ];
        summed = ground (
          arith,
          sum,
          v.summed,
          path_eq_refl K p,
          count_of_found K D path t.root p (some l) e,
          count_of-Updated K D path p none t.root root u p,
          sum_of-remove_leaf K (count_of K D path root) p t.leaves once,
          sum_of-present K p 0 (count_of K D path t.root) (count_of K D path root) t.leaves
              (count_of-Updated K D path p none t.root root u) once,
        );
        small = omega (arith, sum, v.small);
      }
