-- ===== src/Db/Trie/Tuples.antt =====
-- predicates/db/trie.cpp and tuple.hpp: tuple_trie. A leaf is known by its path, which stands for its
-- pointer to its node, and the list of the leaves from first_leaf to last_leaf is one of paths. A
-- reference count is a 16-bit word, a negative one at least 2 ^ 15, and the number of references of a
-- trie a 32-bit word.
pub mod Leaves
pub mod Invariant
pub mod Change
pub mod Insert
pub mod Unlink
pub mod Commit
pub mod Delete
pub mod Run
use meldtools.Common.{
  ℕ, ◌≤◌, ◌+◌, ◌-◌, ◌%◌, ◌≡◌, refl, Bool, true, false, ◌&&◌, not, Option, none, some, List, [], ◌∷◌,
  ◌++◌, if◌then◌else◌, ◌>>=◌, ◌>>◌, guard, ltb, leb, ◌==◌, u16_mod, u32_mod,
}
use meldtools.Db.Trie.{Keys, Node, leaf, listed, hashed, Chain, nil, child}
use meldtools.Db.Trie.Ops.{lookup, delete_path, check_insert, Outcome, missing, found, added}
use meldtools.Db.Trie.Paths.{path_eq}

-- The least 16-bit word that is negative, and the least 32-bit one.
abbrev pub short_min : ℕ
short_min = 32768

abbrev pub int_min : ℕ
int_min = 2147483648

abbrev pub is_negative : ℕ → Bool
is_negative many = leb short_min many

-- -many, and `many` as an int.
unfoldable pub opposite : ℕ → ℕ
opposite many = (u16_mod - many) % u16_mod

unfoldable pub to_int : ℕ → ℕ
to_int many = if is_negative many then many + (u32_mod - u16_mod) else many

unfoldable pub add_int : ℕ → ℕ → ℕ
add_int number many = (number + to_int many) % u32_mod

unfoldable pub sub_int : ℕ → ℕ → ℕ
sub_int number many = (number + (u32_mod - to_int many)) % u32_mod

pub record SimpleTuple (D : Type 0) : Type 0 where
  pub data_of : D
  pub count : ℕ

module _ (K : Keys) where
  unfoldable pub remove_leaf : List K.Key → List (List K.Key) → List (List K.Key)
  remove_leaf p [] = []
  remove_leaf p (q ∷ ps) = if path_eq K p q then ps else q ∷ remove_leaf p ps

-- `data` is the tuple, and `path` the keys that check_insert takes from it.
module _ (K : Keys) (D : Type 0) (path : D → List K.Key) where
  unfoldable pub add_count : ℕ → SimpleTuple D → SimpleTuple D
  add_count many l = record { data_of = l.data_of; count = (l.count + many) % u16_mod }

  unfoldable pub to_delete : SimpleTuple D → Bool
  to_delete l = l.count == 0

  pub record TupleTrie : Type 0 where
    pub root : Node K (SimpleTuple D)
    pub number_of_references : ℕ
    pub leaves : List (List K.Key)

  unfoldable pub empty_trie : TupleTrie
  empty_trie = record { root = listed nil; number_of_references = 0; leaves = [] }

  -- Whether the child of the root is NULL, and whether first_leaf is.
  unfoldable pub childless : Node K (SimpleTuple D) → Bool
  childless (leaf l) = false
  childless (listed nil) = true
  childless (listed (child k n c)) = false
  childless (hashed bs total) = false

  unfoldable pub leafless : List (List K.Key) → Bool
  leafless [] = true
  leafless (p ∷ ps) = false

  abbrev pub bool_eq : Bool → Bool → Bool
  bool_eq true b = b
  bool_eq false b = not b

  unfoldable pub basic_invariants : TupleTrie → Bool
  basic_invariants t =
      bool_eq (t.number_of_references == 0) (childless t.root)
      && bool_eq (childless t.root) (leafless t.leaves)

  -- The end of insert_tuple. Where check_insert returns NULL, `found` is not set.
  unfoldable pub end_insert :
      D → ℕ → List (List K.Key) → Option (Outcome K (SimpleTuple D)) → Option (Bool × TupleTrie)
  end_insert d number leaves none = none
  end_insert d number leaves (some missing) = none
  end_insert d number leaves (some (found new)) =
      let t : TupleTrie = record { root = new; number_of_references = number; leaves = leaves } in
      guard (not (childless new))
      >> guard (ltb 0 number && ltb number int_min)
      >> guard (basic_invariants t)
      >> some (false, t)
  end_insert d number leaves (some (added new)) =
      let t : TupleTrie = record {
        root = new;
        number_of_references = number;
        leaves = leaves ++ path d ∷ [];
      } in
      guard (basic_invariants t) >> some (true, t)

  unfoldable pub insert_tuple : D → ℕ → TupleTrie → Option (Bool × TupleTrie)
  insert_tuple d many t = end_insert d (add_int t.number_of_references many) t.leaves (
      check_insert K (SimpleTuple D) (is_negative many) (record { data_of = d; count = many })
        (add_count many) (path d) t.root)

  -- delete_tuple after the leaf has lost its references. The result tells whether the caller has to
  -- commit the deletion.
  unfoldable pub after_loss : ℕ → TupleTrie → Node K (SimpleTuple D) → Bool → Bool × TupleTrie
  after_loss many t new true = (
    true,
    record { root = new; number_of_references = t.number_of_references; leaves = t.leaves },
  )
  after_loss many t new false = (
    false,
    record {
      root = new;
      number_of_references = sub_int t.number_of_references many;
      leaves = t.leaves;
    },
  )

  unfoldable pub end_delete :
      D → ℕ → TupleTrie → Option (Outcome K (SimpleTuple D)) → Option (Bool × TupleTrie)
  end_delete d many t none = none
  end_delete d many t (some missing) = some (false, t)
  end_delete d many t (some (found new)) =
      lookup K (SimpleTuple D) (path d) new >>= λ l. some (after_loss many t new (to_delete l))
  end_delete d many t (some (added new)) = none

  unfoldable pub delete_tuple : D → ℕ → TupleTrie → Option (Bool × TupleTrie)
  delete_tuple d many t =
      guard (ltb 0 many && ltb many short_min)
      >> guard (basic_invariants t)
      >> end_delete d many t (
          check_insert K (SimpleTuple D) (is_negative (opposite many))
            (record { data_of = d; count = opposite many }) (add_count (opposite many)) (path d)
            t.root)

  unfoldable pub after_path : Option (Node K (SimpleTuple D)) → Node K (SimpleTuple D)
  after_path none = listed nil
  after_path (some n) = n

  -- inner_delete_by_leaf with a count of 0, of the leaf `l` at the end of the path.
  unfoldable pub inner_delete_by_leaf : List K.Key → SimpleTuple D → TupleTrie → TupleTrie
  inner_delete_by_leaf p l t = if not (to_delete l) then t else record {
    root = after_path (delete_path K (SimpleTuple D) p t.root);
    number_of_references = t.number_of_references;
    leaves = remove_leaf K p t.leaves;
  }

  unfoldable pub commit_delete : List K.Key → ℕ → TupleTrie → Option TupleTrie
  commit_delete p many t = lookup K (SimpleTuple D) p t.root >>= λ l.
      let number = sub_int t.number_of_references many in
      let new : TupleTrie =
        inner_delete_by_leaf p l
          (record { root = t.root; number_of_references = number; leaves = t.leaves }) in
      guard (ltb number int_min) >> guard (basic_invariants new) >> some new

  -- A deletion that its caller commits where it has to.
  unfoldable pub end_removal : List K.Key → ℕ → Bool × TupleTrie → Option TupleTrie
  end_removal p many (true, t) = commit_delete p many t
  end_removal p many (false, t) = some t

  -- agg_configuration::add_to_set, of predicates/db/agg_configuration.cpp, on its trie. `size` is the
  -- number of references.
  unfoldable pub end_add : ℕ → ℕ → Bool × TupleTrie → Option TupleTrie
  end_add start_size many (is_new, t) =
      guard (t.number_of_references == add_int start_size many) >> some t

  unfoldable pub add_to_set : D → ℕ → TupleTrie → Option TupleTrie
  add_to_set d many t =
      if ltb 0 many && ltb many short_min
      then insert_tuple d many t >>= end_add t.number_of_references many
      else delete_tuple d (opposite many) t >>= end_removal (path d) (opposite many)
