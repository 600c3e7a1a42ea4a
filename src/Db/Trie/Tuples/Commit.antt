-- ===== src/Db/Trie/Tuples/Commit.antt =====
-- predicates/db/trie.cpp: commit_delete
use meldtools.Common.{
  ℕ, ◌≤◌, ◌<◌, ◌-◌, ◌≡◌, refl, true, none, some, List, if◌then◌else◌, arith, Bool-cases, ap, inl,
  inr, ltb,
}
use meldtools.Db.Trie.{Keys, Node}
use meldtools.Db.Trie.Ops.{lookup}
use meldtools.Db.Trie.Paths.{path_eq, IsPath, IsNode, Updated}
use meldtools.Db.Trie.Tuples.{
  SimpleTuple, TupleTrie, short_min, int_min, sub_int, to_int, to_delete, commit_delete,
  inner_delete_by_leaf, remove_leaf,
}
use meldtools.Db.Trie.Tuples.Leaves.{path_eq_refl, path_eq_sound}
use meldtools.Db.Trie.Tuples.Invariant.{
  IsTrie, references, count_of, count_of_found, basic_invariants_lem, held,
}
use meldtools.Db.Trie.Tuples.Change.{recount-IsTrie, count_of-Updated}
use meldtools.Db.Trie.Tuples.Unlink.{after_path_lem, unlink-IsTrie}

sub_int_lem :
    (number many : ℕ) → many ≤ number → number < short_min → sub_int number many ≡ number - many
unfolding sub_int to_int
sub_int_lem number many h small = ground arith

module _ (K : Keys) (D : Type 0) (path : D → List K.Key) where
  open K use {Key, same, Shape, step}

  -- The trie `new` holds `many` fewer references of a tuple than `t`.
  pub record IsFewer (s : Shape) (p : List Key) (many : ℕ) (t new : TupleTrie K D path)
      : Type 0 where
    pub trie : IsTrie K D path s new
    pub counts :
        (r : List Key)
        → count_of K D path new.root r ≡ (
            if path_eq K p r then count_of K D path t.root r - many else count_of K D path t.root r)
    pub no_more : new.number_of_references ≤ t.number_of_references

  -- The leaf keeps some references.
  pub loss_keeps :
      (s : Shape) (p : List Key) (many : ℕ) (t : TupleTrie K D path) (l x : SimpleTuple D)
      (root : Node K (SimpleTuple D))
      → IsTrie K D path s t
      → lookup K (SimpleTuple D) p t.root ≡ some l
      → IsNode K (SimpleTuple D) s root
      → Updated K (SimpleTuple D) p (some x) t.root root
      → x.data_of ≡ l.data_of
      → x.count ≡ l.count - many
      → many < l.count
      → IsFewer s p many t (record {
        root = root;
        number_of_references = sub_int t.number_of_references many;
        leaves = t.leaves;
      })
  unfolding references
  loss_keeps s p many t l x root v e w u own left less =
      let fits = held K D path s t p l v e in
      let number = sub_int_lem t.number_of_references many (omega (arith, fits)) v.small in
      record {
        trie =
            recount-IsTrie K D path s p l x t root (sub_int t.number_of_references many) v e w u own
              (omega (arith, left)) (omega (arith, left, number, fits))
              (omega (arith, number, v.small));
        counts = λ r. elim (Bool-cases (path_eq K p r)) [
          | inl b ↦ ground (
            arith,
            b,
            left,
            count_of-Updated K D path p (some x) t.root root u r,
            count_of_found K D path t.root p (some l) e,
            ap (count_of K D path t.root) (path_eq_sound K p r b),
          )
          | inr b ↦ ground (arith, b, count_of-Updated K D path p (some x) t.root root u r)
        ];
        no_more = omega (arith, number);
      }

  -- The leaf lost all, and the deletion is committed.
  pub commit_delete_lem :
      (s : Shape) (p : List Key) (many : ℕ) (t : TupleTrie K D path) (l x : SimpleTuple D)
      (root : Node K (SimpleTuple D))
      → IsTrie K D path s t
      → IsPath K s p
      → lookup K (SimpleTuple D) p t.root ≡ some l
      → IsNode K (SimpleTuple D) s root
      → Updated K (SimpleTuple D) p (some x) t.root root
      → x.count ≡ 0
      → many ≡ l.count
      → (new : TupleTrie K D path) × (commit_delete K D path p many (record {
        root = root;
        number_of_references = t.number_of_references;
        leaves = t.leaves;
      })
          ≡ some new)
        × IsFewer s p many t new
  unfolding commit_delete inner_delete_by_leaf to_delete references
  commit_delete_lem s p many t l x root v f e w u zero_left all =
      let fits = held K D path s t p l v e in
      let number = sub_int_lem t.number_of_references many (omega (arith, fits)) v.small in
      let here : lookup K (SimpleTuple D) p root ≡ some x = rw (u p, path_eq_refl K p) refl in
      let (last, left, rooted, gone) = after_path_lem K D path s p root x f w here in
      let u' : Updated K (SimpleTuple D) p none t.root last = λ r.
        elim (Bool-cases (path_eq K p r)) [
          | inl b ↦ rw (gone r, b) refl
          | inr b ↦ rw (gone r, b, u r, b) refl
        ] in
      let new : TupleTrie K D path = record {
        root = last;
        number_of_references = sub_int t.number_of_references many;
        leaves = remove_leaf K p t.leaves;
      } in
      let trie : IsTrie K D path s new =
        unlink-IsTrie K D path s p l t last (sub_int t.number_of_references many) v e rooted u'
          (omega (arith, number, fits)) in
      let small : ltb (sub_int t.number_of_references many) int_min ≡ true =
        ground (arith, number, v.small) in
      (
        new,
        rw (here, zero_left, left, small, basic_invariants_lem K D path s new trie) refl,
        record {
          trie = trie;
          counts = λ r. elim (Bool-cases (path_eq K p r)) [
            | inl b ↦ ground (
              arith,
              b,
              all,
              count_of-Updated K D path p none t.root last u' r,
              count_of_found K D path t.root p (some l) e,
              ap (count_of K D path t.root) (path_eq_sound K p r b),
            )
            | inr b ↦ ground (arith, b, count_of-Updated K D path p none t.root last u' r)
          ];
          no_more = omega (arith, number);
        },
      )
