-- ===== src/Db/Trie/Fields/Fit.antt =====
-- predicates/db/trie.cpp: the paths of tuples fit their types
use meldtools.Common.{ℕ, ◌≡◌, refl, some, List, [], ◌∷◌, map}
use meldtools.Db.Trie.Paths.{IsPath, at_end, along}
use meldtools.Db.Trie.Fields.{
  Words, FieldType, field_int, field_float, field_node, field_list_int, field_list_float,
  field_list_node, Word, int_word, float_word, node_word, list_word, next_list, next_types,
  typs_empty, word_keys, Field, int_field, float_field, node_field, int_list, float_list, node_list,
  field_type, word_of, push_rest, list_path, field_path, tuple_path,
}

module _ (W : Words) where
  -- The path of a tuple is what the rounds of check_insert take from the stack of values: the word of
  -- the field on top, and then the path of what the round leaves on the stack.
  pub tuple_path-push_rest :
      (v : Field W) (vals : List (Field W))
      → tuple_path W (v ∷ vals) ≡ word_of W v ∷ tuple_path W (push_rest W v vals)
  unfolding tuple_path field_path list_path word_of push_rest
  tuple_path-push_rest (int_field a) vals = refl
  tuple_path-push_rest (float_field a) vals = refl
  tuple_path-push_rest (node_field a) vals = refl
  tuple_path-push_rest (int_list []) vals = refl
  tuple_path-push_rest (int_list (x ∷ xs)) vals = refl
  tuple_path-push_rest (float_list []) vals = refl
  tuple_path-push_rest (float_list (x ∷ xs)) vals = refl
  tuple_path-push_rest (node_list []) vals = refl
  tuple_path-push_rest (node_list (x ∷ xs)) vals = refl

  list_path-IsPath :
      {A : Type 0} (item whole : FieldType) (word : A → Word W)
      → ((ts : List FieldType) (n : ℕ)
          → next_types W (whole ∷ ts) (list_word n) ≡ next_list W item whole ts n)
      → ((ts : List FieldType) (a : A) → next_types W (item ∷ ts) (word a) ≡ some ts)
      → (xs : List A) (ts : List FieldType) (rest : List (Word W)) → IsPath (word_keys W) ts rest
      → IsPath (word_keys W) (whole ∷ ts) (list_path W (map word xs) rest)
  unfolding list_path typs_empty next_list
  list_path-IsPath item whole word steps reads [] ts rest w = along refl (steps ts 0) w
  list_path-IsPath item whole word steps reads (x ∷ xs) ts rest w = along refl (steps ts 1) (
      along refl (reads (whole ∷ ts) x) (list_path-IsPath item whole word steps reads xs ts rest w))

  field_path-IsPath :
      (v : Field W) (ts : List FieldType) (rest : List (Word W))
      → IsPath (word_keys W) ts rest
      → IsPath (word_keys W) (field_type W v ∷ ts) (field_path W v rest)
  unfolding field_path field_type typs_empty next_types
  field_path-IsPath (int_field a) ts rest w = along refl refl w
  field_path-IsPath (float_field a) ts rest w = along refl refl w
  field_path-IsPath (node_field a) ts rest w = along refl refl w
  field_path-IsPath (int_list xs) ts rest w =
      list_path-IsPath field_int field_list_int int_word (λ ts n. refl) (λ ts a. refl) xs ts rest w
  field_path-IsPath (float_list xs) ts rest w =
      list_path-IsPath field_float field_list_float float_word (λ ts n. refl) (λ ts a. refl) xs ts
        rest w
  field_path-IsPath (node_list xs) ts rest w =
      list_path-IsPath field_node field_list_node node_word (λ ts n. refl) (λ ts a. refl) xs ts rest
        w

  -- The path of a tuple takes the stack of the types of its fields down to the empty stack: the stacks
  -- of values and of types run out together, and not before the path ends.
  pub tuple_path-IsPath :
      (vals : List (Field W)) → IsPath (word_keys W) (map (field_type W) vals) (tuple_path W vals)
  unfolding tuple_path typs_empty
  tuple_path-IsPath [] = at_end refl
  tuple_path-IsPath (v ∷ vals) =
      field_path-IsPath v (map (field_type W) vals) (tuple_path W vals) (tuple_path-IsPath vals)
