-- ===== src/Db/Trie/Tests.antt =====
-- Runs of the trie at fixed inputs, with natural numbers for the floats and the identity for the hash.
use meldtools.Common.{
  ℕ, ◌≤◌, ◌≡◌, refl, true, false, Option, none, some, List, [], ◌∷◌, if◌then◌else◌, arith, ◌∙◌, sym,
  ap, inl, ◌==◌, ◌>>=◌, map,
}
use meldtools.Db.Trie.{Keys, Node, leaf, listed, nil, child}
use meldtools.Db.Trie.Ops.{
  check_insert, delete_path, lookup, new_path, make_room, match, insert_path, on_match, insert_new,
  add_new, insert, below, count, scan_start, find, rounds, set_child, replace, delete_found,
  unlink_child, drop_child, drop_listed, unlink,
}
use meldtools.Db.Trie.Siblings.{weigh}
use meldtools.Db.Trie.Children.{IsTidy, match-make_room}
use meldtools.Db.Trie.Paths.{IsNode, IsPath, IsRoot, path_eq, new_path-IsNode, lookup-new_path}
use meldtools.Db.Trie.Insertion.{IsInserted, check_insert-IsInserted}
use meldtools.Db.Trie.Deletion.{IsDeleted, delete_path-IsDeleted}
use meldtools.Db.Trie.Fields.{
  same_word, float_word, node_word, Words, FieldType, field_int, field_list_int, Word, int_word,
  list_word, word_keys, Field, int_field, int_list, tuple_path, field_path, list_path, field_type,
}
use meldtools.Db.Trie.Fields.Fit.{tuple_path-IsPath}
use meldtools.Db.Trie.Tuples.{
  SimpleTuple, TupleTrie, empty_trie, basic_invariants, insert_tuple, delete_tuple, add_to_set,
  end_removal, add_count, opposite, end_insert, end_delete, end_add, to_delete, childless, leafless,
  remove_leaf, after_loss, after_path, inner_delete_by_leaf, commit_delete, add_int, sub_int,
  to_int,
}
use meldtools.Db.Trie.Tuples.Leaves.{path_eq_refl}
use meldtools.Db.Trie.Tuples.Invariant.{
  IsTrie, count_of, references, count_of_found, lookup-empty, basic_invariants_lem,
}
use meldtools.Db.Trie.Tuples.Insert.{IsMore, insert_tuple_lem}
use meldtools.Db.Trie.Tuples.Commit.{IsFewer}
use meldtools.Db.Trie.Tuples.Delete.{remove_tuple_lem}
use meldtools.Db.Trie.Tuples.Change.{append-IsTrie}
use meldtools.Db.Trie.Tuples.Run.{
  change, add_all, add_all_lem, changes, IsLegal, finished, adding, removing, empty_trie-IsTrie,
}

number_refl : (a : ℕ) → (a == a) ≡ true
number_refl a = ground arith

number_sound : (a b : ℕ) → (a == b) ≡ true → a ≡ b
number_sound a b h = ground arith

abbrev words : Words
words = record {
  Float = ℕ;
  float_eq = λ a b. a == b;
  float_refl = number_refl;
  float_sound = number_sound;
  hash_int = λ a. a;
  hash_float = λ a. a;
  hash_node = λ a. a;
  hash_uint = λ a. a;
}

abbrev W : Keys
W = word_keys words

abbrev Row : Type 0
Row = List (Field words)

abbrev pair : ℕ → List ℕ → Row
pair a xs = int_field a ∷ int_list xs ∷ []

abbrev types : List FieldType
types = field_int ∷ field_list_int ∷ []

abbrev path_of : Row → List (Word words)
path_of = tuple_path words

abbrev one : Row
one = pair 1 (7 ∷ [])

abbrev two : Row
two = pair 1 []

path_of-one : path_of one ≡ int_word 1 ∷ list_word 1 ∷ int_word 7 ∷ list_word 0 ∷ []
unfolding tuple_path field_path list_path
path_of-one = refl

-- Insert both, the first twice, and delete one reference of each.
abbrev calls : List (Row × ℕ)
calls = (one, 1) ∷ (two, 1) ∷ (one, 1) ∷ (one, 65535) ∷ (two, 65535) ∷ []

after : List (Row × ℕ) → Option (ℕ × List (List (Word words)))
after cs = elim (add_all W Row path_of cs (empty_trie W Row path_of)) [
  | none ↦ none
  | some t ↦ some (t.number_of_references, t.leaves)
]

after_calls : after calls ≡ some (1, path_of one ∷ [])
unfolding after add_all add_to_set empty_trie insert_tuple delete_tuple end_insert end_delete
    end_removal end_add check_insert insert_path on_match insert_new add_new insert below match
    count scan_start find rounds new_path make_room set_child replace add_count to_delete childless
    leafless basic_invariants remove_leaf after_loss after_path inner_delete_by_leaf commit_delete
    delete_path delete_found unlink_child drop_child drop_listed unlink lookup path_eq tuple_path
    field_path list_path same_word add_int sub_int to_int opposite
after_calls = refl

abbrev leaf_one : SimpleTuple Row
leaf_one = record { data_of = one; count = 2 }

abbrev leaf_two : SimpleTuple Row
leaf_two = record { data_of = two; count = 3 }

abbrev root_one : Node W (SimpleTuple Row)
root_one = new_path W (SimpleTuple Row) (path_of one) leaf_one

fits : (xs : List ℕ) (a : ℕ) → IsPath W types (path_of (pair a xs))
unfolding field_type
fits xs a = tuple_path-IsPath words (pair a xs)

root_one-IsNode : IsNode W (SimpleTuple Row) types root_one
root_one-IsNode = new_path-IsNode W (SimpleTuple Row) types (path_of one) leaf_one (fits (7 ∷ []) 1)

root_one-IsRoot : IsRoot W (SimpleTuple Row) types root_one
unfolding IsRoot
root_one-IsRoot = inl root_one-IsNode

lookup-one : lookup W (SimpleTuple Row) (path_of one) root_one ≡ some leaf_one
lookup-one =
    rw
      (
        lookup-new_path W (SimpleTuple Row) (path_of one) leaf_one (path_of one),
        path_eq_refl W (path_of one),
      )
      refl

-- A trie with two references of one tuple.
abbrev trie_one : TupleTrie W Row path_of
trie_one = record { root = root_one; number_of_references = 2; leaves = path_of one ∷ [] }

trie_one-IsTrie : IsTrie W Row path_of types trie_one
unfolding empty_trie
trie_one-IsTrie =
    append-IsTrie W Row path_of types (path_of one) leaf_one (empty_trie W Row path_of) root_one 2
      (empty_trie-IsTrie W Row path_of types) (lookup-empty W Row path_of (path_of one))
      root_one-IsNode
      (λ r.
        lookup-new_path W (SimpleTuple Row) (path_of one) leaf_one r
        ∙ ap
            (λ (x : Option (SimpleTuple Row)).
              if path_eq W (path_of one) r then some leaf_one else x)
            (sym (lookup-empty W Row path_of r)))
      refl (omega arith) refl (omega arith)

count_one : count_of W Row path_of root_one (path_of one) ≡ 2
unfolding references
count_one = count_of_found W Row path_of root_one (path_of one) (some leaf_one) lookup-one

some_fields : (xs : List ℕ) (a : ℕ) → path_of (pair a xs) ≡ [] → ⊥
unfolding tuple_path field_path
some_fields xs a e = ground arith

check_insert-IsInserted_example :
    IsInserted W
      (SimpleTuple Row)
      false
      leaf_two
      (add_count W Row path_of 3)
      types
      (path_of two)
      root_one
      (check_insert W
        (SimpleTuple Row)
        false
        leaf_two
        (add_count W Row path_of 3)
        (path_of two)
        root_one)
check_insert-IsInserted_example =
    check_insert-IsInserted W (SimpleTuple Row) false leaf_two (add_count W Row path_of 3) types
      (path_of two) root_one (fits [] 1) root_one-IsRoot (λ e h. refl)

delete_path-IsDeleted_example :
    IsDeleted W
      (SimpleTuple Row)
      types
      (path_of one)
      root_one
      (delete_path W (SimpleTuple Row) (path_of one) root_one)
delete_path-IsDeleted_example =
    delete_path-IsDeleted W (SimpleTuple Row) types (path_of one) root_one leaf_one
      (fits (7 ∷ []) 1) root_one-IsNode lookup-one

insert_tuple_lem_example :
    (new : TupleTrie W Row path_of) × (insert_tuple W Row path_of two 3 trie_one
      ≡ some (count_of W Row path_of root_one (path_of two) == 0, new))
    × IsMore W Row path_of types (path_of two) 3 trie_one new
insert_tuple_lem_example =
    insert_tuple_lem W Row path_of types two 3 trie_one trie_one-IsTrie (fits [] 1) (omega arith)
      (omega arith)

remove_tuple_lem_example :
    (new : TupleTrie W Row path_of) × ((delete_tuple W Row path_of one 2 trie_one
        >>= end_removal W Row path_of (path_of one) 2)
      ≡ some new)
    × IsFewer W Row path_of types (path_of one) 2 trie_one new
remove_tuple_lem_example =
    remove_tuple_lem W Row path_of types one 2 trie_one trie_one-IsTrie (fits (7 ∷ []) 1)
      (omega arith) (omega arith) (λ e. absurd (some_fields (7 ∷ []) 1 e))
      (inl (omega (arith, count_one)))

basic_invariants_lem_example : basic_invariants W Row path_of trie_one ≡ true
basic_invariants_lem_example = basic_invariants_lem W Row path_of types trie_one trie_one-IsTrie

abbrev counts_none : List (Word words) → ℕ
counts_none = λ r. 0

enough : opposite 65535 ≤ change W Row path_of one 2 counts_none (path_of one)
unfolding opposite change
enough = rw (path_eq_refl W (path_of one)) (omega arith)

calls-IsLegal : IsLegal W Row path_of types ((one, 2) ∷ (one, 65535) ∷ []) counts_none 0
calls-IsLegal = adding (fits (7 ∷ []) 1) (omega arith) (omega arith) (
    removing (fits (7 ∷ []) 1) (omega arith) (omega arith) (λ e. absurd (some_fields (7 ∷ []) 1 e))
      (inl enough) finished)

no_references : (empty_trie W Row path_of).number_of_references ≤ 0
unfolding empty_trie
no_references = omega arith

no_counts :
    (r : List (Word words))
    → count_of W Row path_of (empty_trie W Row path_of).root r ≡ counts_none r
unfolding empty_trie references
no_counts r = count_of_found W Row path_of (listed nil) r none (lookup-empty W Row path_of r)

add_all_lem_example :
    (new : TupleTrie W Row path_of) × (add_all W Row path_of
        ((one, 2) ∷ (one, 65535) ∷ [])
        (empty_trie W Row path_of)
      ≡ some new)
    × IsTrie W Row path_of types new
    × ((r : List (Word words))
        → count_of W Row path_of new.root r
          ≡ changes W Row path_of ((one, 2) ∷ (one, 65535) ∷ []) counts_none r)
add_all_lem_example =
    add_all_lem W Row path_of types ((one, 2) ∷ (one, 65535) ∷ []) counts_none 0
      (empty_trie W Row path_of) (empty_trie-IsTrie W Row path_of types) no_references no_counts
      calls-IsLegal

tuple_path-IsPath_example : IsPath W (map (field_type words) one) (path_of one)
tuple_path-IsPath_example = tuple_path-IsPath words one

abbrev siblings : Node W ℕ
siblings = listed (child (int_word 5) (leaf 0) (child (int_word 69) (leaf 1) nil))

siblings-IsTidy : IsTidy W ℕ siblings
unfolding IsTidy weigh same_word
siblings-IsTidy (int_word a) = ground arith
siblings-IsTidy (float_word a) = omega arith
siblings-IsTidy (node_word a) = omega arith
siblings-IsTidy (list_word a) = omega arith

match-make_room_example :
    match W ℕ (int_word 69) (make_room W ℕ 9 siblings) ≡ match W ℕ (int_word 69) siblings
match-make_room_example = match-make_room W ℕ 9 siblings (int_word 69) siblings-IsTidy
