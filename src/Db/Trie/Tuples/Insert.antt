-- ===== src/Db/Trie/Tuples/Insert.antt =====
-- predicates/db/trie.cpp: insert_tuple
use meldtools.Common.{
  ℕ, ◌≤◌, ◌<◌, ◌+◌, ◌%◌, ◌≡◌, refl, true, false, ◌&&◌, Option, none, some, List, [], ◌∷◌, ◌++◌,
  if◌then◌else◌, arith, Bool-cases, sym, ap, inl, inr, ◌==◌, ltb, u16_mod,
}
use meldtools.Db.Trie.{Keys, Node}
use meldtools.Db.Trie.Ops.{lookup, Outcome, missing, found, added, check_insert}
use meldtools.Db.Trie.Paths.{path_eq, IsPath, Updated}
use meldtools.Db.Trie.Insertion.{IsInserted, check_insert-IsInserted}
use meldtools.Db.Trie.Tuples.{
  SimpleTuple, TupleTrie, short_min, int_min, is_negative, add_int, to_int, add_count, insert_tuple,
  end_insert,
}
use meldtools.Db.Trie.Tuples.Leaves.{path_eq_sound}
use meldtools.Db.Trie.Tuples.Invariant.{
  IsTrie, references, count_of, count_of_found, basic_invariants_lem, node-childless, held,
}
use meldtools.Db.Trie.Tuples.Change.{recount-IsTrie, append-IsTrie, count_of-Updated}

pub add_int_lem :
    (number many : ℕ) → number + many < short_min → add_int number many ≡ number + many
unfolding add_int to_int
add_int_lem number many h = ground arith

module _ (K : Keys) (D : Type 0) (path : D → List K.Key) where
  open K use {Key, same, Shape, step}

  -- The trie `new` holds `many` more references of a tuple than `t`.
  pub record IsMore (s : Shape) (p : List Key) (many : ℕ) (t new : TupleTrie K D path)
      : Type 0 where
    pub trie : IsTrie K D path s new
    pub counts :
        (r : List Key)
        → count_of K D path new.root r ≡ (
            if path_eq K p r then count_of K D path t.root r + many else count_of K D path t.root r)
    pub number : new.number_of_references ≡ t.number_of_references + many

  counts_of_known :
      (p : List Key) (many : ℕ) (o : Option (SimpleTuple D)) (x : SimpleTuple D)
      (n new : Node K (SimpleTuple D))
      → lookup K (SimpleTuple D) p n ≡ o
      → Updated K (SimpleTuple D) p (some x) n new
      → x.count ≡ references K D path o + many
      → (r : List Key)
      → count_of K D path new r
        ≡ (if path_eq K p r then count_of K D path n r + many else count_of K D path n r)
  unfolding references
  counts_of_known p many o x n new e u h r = elim (Bool-cases (path_eq K p r)) [
    | inl b ↦ ground (
      arith,
      b,
      h,
      count_of-Updated K D path p (some x) n new u r,
      count_of_found K D path n p o e,
      ap (count_of K D path n) (path_eq_sound K p r b),
    )
    | inr b ↦ ground (arith, b, count_of-Updated K D path p (some x) n new u r)
  ]

  end_insert_lem :
      (s : Shape) (d : D) (many : ℕ) (t : TupleTrie K D path)
      (o : Option (Outcome K (SimpleTuple D)))
      → IsTrie K D path s t
      → 1 ≤ many
      → t.number_of_references + many < short_min
      → IsInserted K
          (SimpleTuple D)
          (is_negative many)
          (record { data_of = d; count = many })
          (add_count K D path many)
          s
          (path d)
          t.root
          o
      → (new : TupleTrie K D path) × (end_insert K D path d
            (t.number_of_references + many)
            t.leaves
            o
          ≡ some (count_of K D path t.root (path d) == 0, new))
        × IsMore s (path d) many t new
  unfolding IsInserted end_insert add_count references
  end_insert_lem s d many t none v pos small i = absurd i
  end_insert_lem s d many t (some missing) v pos small (h, e) = absurd (ground arith)
  end_insert_lem s d many t (some (found root)) v pos small (l, e, w, u) =
      let p = path d in
      let before : count_of K D path t.root p ≡ l.count =
        count_of_found K D path t.root p (some l) e in
      let fits : l.count ≤ t.number_of_references = held K D path s t p l v e in
      let old : (count_of K D path t.root p == 0) ≡ false =
        ground (arith, before, v.referred p l e) in
      let sum = t.number_of_references + many in
      let positive : (ltb 0 sum && ltb sum int_min) ≡ true = ground arith in
      let exact : (l.count + many) % u16_mod ≡ l.count + many = omega (arith, fits) in
      let new : TupleTrie K D path = record {
        root = root;
        number_of_references = t.number_of_references + many;
        leaves = t.leaves;
      } in
      let trie : IsTrie K D path s new =
        recount-IsTrie K D path s p l (add_count K D path many l) t root
          (t.number_of_references + many) v e w u refl (omega (arith, exact)) (omega (arith, exact))
          small in
      (
        new,
        rw
            (
              node-childless K D path s root w,
              positive,
              basic_invariants_lem K D path s new trie,
              old,
            )
            refl,
        record {
          trie = trie;
          counts =
              counts_of_known p many (some l) (add_count K D path many l) t.root root e u exact;
          number = refl;
        },
      )
  end_insert_lem s d many t (some (added root)) v pos small (z, e, w, u) =
      let p = path d in
      let x : SimpleTuple D = record { data_of = d; count = many } in
      let before : count_of K D path t.root p ≡ 0 = count_of_found K D path t.root p none e in
      let fresh : (count_of K D path t.root p == 0) ≡ true = ground (arith, before) in
      let new : TupleTrie K D path = record {
        root = root;
        number_of_references = t.number_of_references + many;
        leaves = t.leaves ++ p ∷ [];
      } in
      let trie : IsTrie K D path s new =
        append-IsTrie K D path s p x t root (t.number_of_references + many) v e w u refl pos refl
          small in
      (
        new,
        rw (basic_invariants_lem K D path s new trie) (ap (λ b. some (b, new)) (sym fresh)),
        record {
          trie = trie;
          counts = counts_of_known p many none x t.root root e u (omega arith);
          number = refl;
        },
      )

  -- insert_tuple does not fail on a trie in order, for a positive number of references that leaves the
  -- sum below 2 ^ 15: the tuple has as many more, all others have what they had, the trie is in order,
  -- and the result tells whether the tuple was not there.
  pub insert_tuple_lem :
      (s : Shape) (d : D) (many : ℕ) (t : TupleTrie K D path)
      → IsTrie K D path s t
      → IsPath K s (path d)
      → 1 ≤ many
      → t.number_of_references + many < short_min
      → (new : TupleTrie K D path) × (insert_tuple K D path d many t
          ≡ some (count_of K D path t.root (path d) == 0, new))
        × IsMore s (path d) many t new
  unfolding insert_tuple
  insert_tuple_lem s d many t v w pos small = rw (add_int_lem t.number_of_references many small) (
      end_insert_lem s d many t
        (check_insert K (SimpleTuple D) (is_negative many) (record { data_of = d; count = many })
          (add_count K D path many) (path d) t.root)
        v pos small
        (check_insert-IsInserted K (SimpleTuple D) (is_negative many)
          (record { data_of = d; count = many }) (add_count K D path many) s (path d) t.root w
          v.rooted (λ e h. ground arith)))
