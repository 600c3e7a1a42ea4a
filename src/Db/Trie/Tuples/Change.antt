-- ===== src/Db/Trie/Tuples/Change.antt =====
-- predicates/db/trie.cpp: a trie of tuples in which one leaf changes
use meldtools.Common.{
  ℕ, ◌≤◌, ◌<◌, ◌+◌, ◌≡◌, refl, Option, none, some, List, [], ◌∷◌, ◌++◌, if◌then◌else◌, arith,
  Bool-cases, ◌∙◌, sym, ap, subst, inl, inr,
}
use mathlib.Core.Option.{some-injective}
use meldtools.Db.Trie.{Keys, Node}
use meldtools.Db.Trie.Ops.{lookup}
use meldtools.Db.Trie.Paths.{path_eq, IsNode, IsRoot, Updated}
use meldtools.Db.Trie.Tuples.{SimpleTuple, TupleTrie, short_min}
use meldtools.Db.Trie.Tuples.Leaves.{
  times, sum_of, path_eq_refl, path_eq_sound, sum_of-present, sum_of-absent, sum_of-append,
  times-append,
}
use meldtools.Db.Trie.Tuples.Invariant.{
  IsTrie, is_some, references, count_of, linked_once, count_of_found,
}

module _ (K : Keys) (D : Type 0) (path : D → List K.Key) where
  open K use {Key, same, Shape, step}

  pub count_of-Updated :
      (p : List Key) (o : Option (SimpleTuple D)) (n new : Node K (SimpleTuple D))
      → Updated K (SimpleTuple D) p o n new
      → (r : List Key)
      → count_of K D path new r
        ≡ (if path_eq K p r then references K D path o else count_of K D path n r)
  unfolding count_of
  count_of-Updated p o n new u r = elim (Bool-cases (path_eq K p r)) [
    | inl b ↦ rw (u r, b) refl
    | inr b ↦ rw (u r, b) refl
  ]

  -- The leaf of a path is `x` now.
  pub put-IsTrie :
      (s : Shape) (p : List Key) (x : SimpleTuple D) (t new : TupleTrie K D path)
      → IsTrie K D path s t
      → IsNode K (SimpleTuple D) s new.root
      → Updated K (SimpleTuple D) p (some x) t.root new.root
      → path x.data_of ≡ p
      → 1 ≤ x.count
      → ((r : List Key) → times K r new.leaves ≡ (if path_eq K p r then 1 else times K r t.leaves))
      → new.number_of_references ≡ sum_of K (count_of K D path new.root) new.leaves
      → new.number_of_references < short_min
      → IsTrie K D path s new
  unfolding IsRoot is_some
  put-IsTrie s p x t new v w u own pos linked summed small = record {
    rooted = inl w;
    linked = λ r. elim (Bool-cases (path_eq K p r)) [
      | inl b ↦ rw (linked r, u r, b) refl
      | inr b ↦ rw (linked r, u r, b) (v.linked r)
    ];
    referred = λ r l e. elim (Bool-cases (path_eq K p r)) [
      | inl b ↦
          let same_leaf = some-injective x l (ground (arith, b, u r, e)) in
          subst (λ (y : SimpleTuple D). 1 ≤ y.count) same_leaf pos
      | inr b ↦ v.referred r l (ground (arith, b, u r, e))
    ];
    own_path = λ r l e. elim (Bool-cases (path_eq K p r)) [
      | inl b ↦
          let same_leaf = some-injective x l (ground (arith, b, u r, e)) in
          subst (λ (y : SimpleTuple D). path y.data_of ≡ r) same_leaf (own ∙ path_eq_sound K p r b)
      | inr b ↦ v.own_path r l (ground (arith, b, u r, e))
    ];
    summed = summed;
    small = small;
  }

  -- A leaf that is there gets another count.
  pub recount-IsTrie :
      (s : Shape) (p : List Key) (l x : SimpleTuple D) (t : TupleTrie K D path)
      (root : Node K (SimpleTuple D)) (number : ℕ)
      → IsTrie K D path s t
      → lookup K (SimpleTuple D) p t.root ≡ some l
      → IsNode K (SimpleTuple D) s root
      → Updated K (SimpleTuple D) p (some x) t.root root
      → x.data_of ≡ l.data_of
      → 1 ≤ x.count
      → number + l.count ≡ t.number_of_references + x.count
      → number < short_min
      → IsTrie K D path s (record { root = root; number_of_references = number; leaves = t.leaves })
  unfolding references
  recount-IsTrie s p l x t root number v e w u own pos sum small =
      let once = linked_once K D path s t p l v e in
      put-IsTrie s p x t (record { root = root; number_of_references = number; leaves = t.leaves })
        v w u (ap path own ∙ v.own_path p l e) pos
        (λ r. elim (Bool-cases (path_eq K p r)) [
          | inl b ↦ rw b (ap (λ q. times K q t.leaves) (sym (path_eq_sound K p r b)) ∙ once)
          | inr b ↦ rw b refl
        ])
        (omega (
          arith,
          v.summed,
          sum,
          count_of_found K D path t.root p (some l) e,
          sum_of-present K p x.count (count_of K D path t.root) (count_of K D path root) t.leaves
              (count_of-Updated p (some x) t.root root u) once,
        ))
        small

  -- A leaf is added at the end.
  pub append-IsTrie :
      (s : Shape) (p : List Key) (x : SimpleTuple D) (t : TupleTrie K D path)
      (root : Node K (SimpleTuple D)) (number : ℕ)
      → IsTrie K D path s t
      → lookup K (SimpleTuple D) p t.root ≡ none
      → IsNode K (SimpleTuple D) s root
      → Updated K (SimpleTuple D) p (some x) t.root root
      → path x.data_of ≡ p
      → 1 ≤ x.count
      → number ≡ t.number_of_references + x.count
      → number < short_min
      → IsTrie K D path s
          (record { root = root; number_of_references = number; leaves = t.leaves ++ p ∷ [] })
  unfolding references is_some
  append-IsTrie s p x t root number v e w u own pos sum small =
      let absent : times K p t.leaves ≡ 0 = v.linked p ∙ ap (is_some K D path) e in
      put-IsTrie s p x t
        (record { root = root; number_of_references = number; leaves = t.leaves ++ p ∷ [] }) v w u
        own pos
        (λ r. elim (Bool-cases (path_eq K p r)) [
          | inl b ↦ ground (
            arith,
            b,
            times-append K r p t.leaves,
            absent,
            ap (λ q. times K q t.leaves) (path_eq_sound K p r b),
          )
          | inr b ↦ ground (arith, b, times-append K r p t.leaves)
        ])
        (ground (
          arith,
          v.summed,
          sum,
          path_eq_refl K p,
          sum_of-append K (count_of K D path root) p t.leaves,
          count_of-Updated p (some x) t.root root u p,
          sum_of-absent K p x.count (count_of K D path t.root) (count_of K D path root) t.leaves
              (count_of-Updated p (some x) t.root root u) absent,
        ))
        small
