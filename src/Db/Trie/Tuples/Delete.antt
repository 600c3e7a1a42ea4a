-- ===== src/Db/Trie/Tuples/Delete.antt =====
-- predicates/db/trie.cpp: delete_tuple
use meldtools.Common.{
  ℕ, ◌≤◌, ◌<◌, ◌-◌, ◌≡◌, ◌⊎◌, refl, true, ◌&&◌, Option, none, some, List, [], arith, Bool-cases, ap,
  inl, inr, ◌==◌, ◌>>=◌, ltb, u16_mod,
}
use meldtools.Db.Trie.{Keys, Node}
use meldtools.Db.Trie.Ops.{lookup, Outcome, missing, found, added, check_insert}
use meldtools.Db.Trie.Paths.{path_eq, IsPath, IsNode, Updated}
use meldtools.Db.Trie.Insertion.{IsInserted, check_insert-IsInserted}
use meldtools.Db.Trie.Tuples.{
  SimpleTuple, TupleTrie, short_min, is_negative, opposite, sub_int, add_count, delete_tuple,
  end_delete, after_loss, to_delete, end_removal,
}
use meldtools.Db.Trie.Tuples.Leaves.{path_eq_refl, path_eq_sound}
use meldtools.Db.Trie.Tuples.Invariant.{
  IsTrie, references, count_of, count_of_found, basic_invariants_lem, held,
}
use meldtools.Db.Trie.Tuples.Commit.{IsFewer, loss_keeps, commit_delete_lem}

opposite_lem : (many : ℕ) → 1 ≤ many → many < short_min → opposite many ≡ u16_mod - many
unfolding opposite
opposite_lem many pos small = omega arith

module _ (K : Keys) (D : Type 0) (path : D → List K.Key) where
  open K use {Key, same, Shape, step}

  absent-IsFewer :
      (s : Shape) (p : List Key) (many : ℕ) (t : TupleTrie K D path)
      → IsTrie K D path s t
      → lookup K (SimpleTuple D) p t.root ≡ none
      → IsFewer K D path s p many t t
  unfolding references
  absent-IsFewer s p many t v e = record {
    trie = v;
    counts = λ r. elim (Bool-cases (path_eq K p r)) [
      | inl b ↦ ground (
        arith,
        b,
        count_of_found K D path t.root p none e,
        ap (count_of K D path t.root) (path_eq_sound K p r b),
      )
      | inr b ↦ rw b refl
    ];
    no_more = omega arith;
  }

  found-IsFewer :
      (s : Shape) (d : D) (many : ℕ) (t : TupleTrie K D path) (l x : SimpleTuple D)
      (root : Node K (SimpleTuple D))
      → IsTrie K D path s t
      → IsPath K s (path d)
      → lookup K (SimpleTuple D) (path d) t.root ≡ some l
      → IsNode K (SimpleTuple D) s root
      → Updated K (SimpleTuple D) (path d) (some x) t.root root
      → x.data_of ≡ l.data_of
      → x.count ≡ l.count - many
      → many ≤ l.count
      → (new : TupleTrie K D path) × ((end_delete K D path d many t (some (found root))
            >>= end_removal K D path (path d) many)
          ≡ some new)
        × IsFewer K D path s (path d) many t new
  unfolding end_delete end_removal after_loss to_delete
  found-IsFewer s d many t l x root v f e w u own left fits =
      let here : lookup K (SimpleTuple D) (path d) root ≡ some x =
        rw (u (path d), path_eq_refl K (path d)) refl in
      elim (Bool-cases (x.count == 0)) [
        | inl b ↦
            rw (here, b)
              (commit_delete_lem K D path s (path d) many t l x root v f e w u (ground arith)
                (ground arith))
        | inr b ↦
            rw (here, b)
              (
                record {
                  root = root;
                  number_of_references = sub_int t.number_of_references many;
                  leaves = t.leaves;
                },
                refl,
                loss_keeps K D path s (path d) many t l x root v e w u own left (ground arith),
              )
      ]

  ignored :
      (d : D) (many : ℕ) (t : TupleTrie K D path)
      → (end_delete K D path d many t (some missing) >>= end_removal K D path (path d) many)
        ≡ some t
  unfolding end_delete end_removal
  ignored d many t = refl

  enough_there :
      (t : TupleTrie K D path) (many : ℕ) (l : SimpleTuple D) (p : List Key)
      → lookup K (SimpleTuple D) p t.root ≡ some l
      → 1 ≤ many
      → (many ≤ count_of K D path t.root p) ⊎ (count_of K D path t.root p ≡ 0)
      → 1 ≤ l.count
      → many ≤ l.count
  unfolding references
  enough_there t many l p e pos h there =
      ground (arith, count_of_found K D path t.root p (some l) e)

  kept_data : (many : ℕ) (l : SimpleTuple D) → (add_count K D path many l).data_of ≡ l.data_of
  unfolding add_count
  kept_data many l = refl

  less_count :
      (many : ℕ) (l : SimpleTuple D)
      → 1 ≤ many
      → many < short_min
      → many ≤ l.count
      → l.count < short_min
      → (add_count K D path (opposite many) l).count ≡ l.count - many
  unfolding add_count
  less_count many l pos small h below = rw (opposite_lem many pos small) (omega arith)

  end_delete_lem :
      (s : Shape) (d : D) (many : ℕ) (t : TupleTrie K D path) (fresh : SimpleTuple D)
      (o : Option (Outcome K (SimpleTuple D)))
      → IsTrie K D path s t
      → IsPath K s (path d)
      → 1 ≤ many
      → many < short_min
      → (many ≤ count_of K D path t.root (path d)) ⊎ (count_of K D path t.root (path d) ≡ 0)
      → IsInserted K
          (SimpleTuple D)
          true
          fresh
          (add_count K D path (opposite many))
          s
          (path d)
          t.root
          o
      → (new : TupleTrie K D path) × ((end_delete K D path d many t o
            >>= end_removal K D path (path d) many)
          ≡ some new)
        × IsFewer K D path s (path d) many t new
  unfolding IsInserted
  end_delete_lem s d many t fresh none v f pos small h i = absurd i
  end_delete_lem s d many t fresh (some missing) v f pos small h (z, e) =
      (t, ignored d many t, absent-IsFewer s (path d) many t v e)
  end_delete_lem s d many t fresh (some (found root)) v f pos small h (l, e, w, u) =
      let enough = enough_there t many l (path d) e pos h (v.referred (path d) l e) in
      found-IsFewer s d many t l (add_count K D path (opposite many) l) root v f e w u
        (kept_data (opposite many) l)
        (less_count many l pos small enough
          (omega (arith, held K D path s t (path d) l v e, v.small)))
        enough
  end_delete_lem s d many t fresh (some (added root)) v f pos small h (z, e, w, u) =
      absurd (ground arith)

  -- delete_tuple, with commit_delete where it asks for it, does not fail on a trie in order. The tuple
  -- has to be absent, or have so many references: it has as many fewer, all others have what they
  -- had, and the trie is in order. A tuple without fields has to be there.
  pub remove_tuple_lem :
      (s : Shape) (d : D) (many : ℕ) (t : TupleTrie K D path)
      → IsTrie K D path s t
      → IsPath K s (path d)
      → 1 ≤ many
      → many < short_min
      → (path d ≡ [] → 1 ≤ count_of K D path t.root (path d))
      → (many ≤ count_of K D path t.root (path d)) ⊎ (count_of K D path t.root (path d) ≡ 0)
      → (new : TupleTrie K D path) × ((delete_tuple K D path d many t
            >>= end_removal K D path (path d) many)
          ≡ some new)
        × IsFewer K D path s (path d) many t new
  unfolding delete_tuple references
  remove_tuple_lem s d many t v f pos small inner h =
      let legal : (ltb 0 many && ltb many short_min) ≡ true = ground arith in
      let minus : is_negative (opposite many) ≡ true =
        ground (arith, opposite_lem many pos small) in
      rw (legal, basic_invariants_lem K D path s t v, minus)
        (end_delete_lem s d many t (record { data_of = d; count = opposite many })
          (check_insert K (SimpleTuple D) true (record { data_of = d; count = opposite many })
            (add_count K D path (opposite many)) (path d) t.root)
          v f pos small h
          (check_insert-IsInserted K (SimpleTuple D) true
            (record { data_of = d; count = opposite many }) (add_count K D path (opposite many)) s
            (path d) t.root f v.rooted
            (λ e gone.
              absurd (ground (arith, inner e, count_of_found K D path t.root (path d) none gone)))))
