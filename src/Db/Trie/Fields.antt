-- ===== src/Db/Trie/Fields.antt =====
-- predicates/db/trie.cpp: the switches on the type of a field. A field of type FIELD_STRING, whose
-- 64-bit pointer `match` compares with the 32 bits of `node_field`, is not modelled. A list is its
-- elements, and int_val and node_val are the numbers of their words.
pub mod Fit
pub mod Distinct
use meldtools.Common.{
  ℕ, zero, suc, ◌≡◌, refl, Bool, true, false, Option, none, some, List, [], ◌∷◌, ◌++◌, arith, ◌==◌,
  ap, ◌∙◌, Bool-cases, map,
}
use mathlib.Core.Option.{some-injective}
use meldtools.Db.Trie.{Keys}
use meldtools.Db.Trie.Paths.{IsPath, at_end, along}

-- std::tr1::hash of a word of each type, and the values that a float_val can have up to its `==`: the
-- two zeros are one value, and there is no NaN, which `==` does not hold equal to itself.
pub record Words : Type 1 where
  pub Float : Type 0
  pub float_eq : Float → Float → Bool
  pub float_refl : (a : Float) → float_eq a a ≡ true
  pub float_sound : (a b : Float) → float_eq a b ≡ true → a ≡ b
  pub hash_int : ℕ → ℕ
  pub hash_float : Float → ℕ
  pub hash_node : ℕ → ℕ
  pub hash_uint : ℕ → ℕ

pub data FieldType : Type 0 where
  field_int : FieldType
  field_float : FieldType
  field_node : FieldType
  field_list_int : FieldType
  field_list_float : FieldType
  field_list_node : FieldType

module _ (W : Words) where
  open W use {Float}

  -- The word of a trie_node. That of a list is 0 at its end, and 1 where it goes on.
  pub data Word : Type 0 where
    int_word : ℕ → Word
    float_word : Float → Word
    node_word : ℕ → Word
    list_word : ℕ → Word

  -- The comparison in `match`.
  unfoldable pub same_word : Word → Word → Bool
  same_word (int_word a) (int_word b) = a == b
  same_word (float_word a) (float_word b) = W.float_eq a b
  same_word (node_word a) (node_word b) = a == b
  same_word (list_word a) (list_word b) = a == b
  same_word a b = false

  -- get_int, get_float, get_node and get_uint hash the word.
  unfoldable pub hash_word : Word → ℕ
  hash_word (int_word a) = W.hash_int a
  hash_word (float_word a) = W.hash_float a
  hash_word (node_word a) = W.hash_node a
  hash_word (list_word a) = W.hash_uint a

  -- The stack of types after a round of check_insert.
  unfoldable pub next_list : FieldType → FieldType → List FieldType → ℕ → Option (List FieldType)
  next_list item whole ts zero = some ts
  next_list item whole ts (suc zero) = some (item ∷ whole ∷ ts)
  next_list item whole ts (suc (suc n)) = none

  unfoldable pub next_types : List FieldType → Word → Option (List FieldType)
  next_types (field_int ∷ ts) (int_word a) = some ts
  next_types (field_float ∷ ts) (float_word a) = some ts
  next_types (field_node ∷ ts) (node_word a) = some ts
  next_types (field_list_int ∷ ts) (list_word a) = next_list field_int field_list_int ts a
  next_types (field_list_float ∷ ts) (list_word a) = next_list field_float field_list_float ts a
  next_types (field_list_node ∷ ts) (list_word a) = next_list field_node field_list_node ts a
  next_types ts k = none

  unfoldable pub typs_empty : List FieldType → Bool
  typs_empty [] = true
  typs_empty (t ∷ ts) = false

  pub same_word_refl : (a : Word) → same_word a a ≡ true
  unfolding same_word
  same_word_refl (int_word a) = ground arith
  same_word_refl (float_word a) = W.float_refl a
  same_word_refl (node_word a) = ground arith
  same_word_refl (list_word a) = ground arith

  pub same_word_eq : (a b : Word) → same_word a b ≡ true → a ≡ b
  unfolding same_word
  same_word_eq (int_word a) (int_word b) h = ap int_word (ground arith)
  same_word_eq (float_word a) (float_word b) h = ap float_word (W.float_sound a b h)
  same_word_eq (node_word a) (node_word b) h = ap node_word (ground arith)
  same_word_eq (list_word a) (list_word b) h = ap list_word (ground arith)
  same_word_eq a b h = absurd (ground arith)

  abbrev pub word_keys : Keys
  word_keys = record {
    Key = Word;
    same = same_word;
    same_refl = same_word_refl;
    same_eq = same_word_eq;
    hash = hash_word;
    Shape = List FieldType;
    final = typs_empty;
    step = next_types;
  }

  pub data Field : Type 0 where
    int_field : ℕ → Field
    float_field : Float → Field
    node_field : ℕ → Field
    int_list : List ℕ → Field
    float_list : List Float → Field
    node_list : List ℕ → Field

  unfoldable pub field_type : Field → FieldType
  field_type (int_field a) = field_int
  field_type (float_field a) = field_float
  field_type (node_field a) = field_node
  field_type (int_list xs) = field_list_int
  field_type (float_list xs) = field_list_float
  field_type (node_list xs) = field_list_node

  -- INSERT_LIST and MATCH_LIST: the word of the field, and the stack of values after it.
  unfoldable pub word_of : Field → Word
  word_of (int_field a) = int_word a
  word_of (float_field a) = float_word a
  word_of (node_field a) = node_word a
  word_of (int_list []) = list_word 0
  word_of (int_list (a ∷ xs)) = list_word 1
  word_of (float_list []) = list_word 0
  word_of (float_list (a ∷ xs)) = list_word 1
  word_of (node_list []) = list_word 0
  word_of (node_list (a ∷ xs)) = list_word 1

  unfoldable pub push_rest : Field → List Field → List Field
  push_rest (int_list (a ∷ xs)) vals = int_field a ∷ int_list xs ∷ vals
  push_rest (float_list (a ∷ xs)) vals = float_field a ∷ float_list xs ∷ vals
  push_rest (node_list (a ∷ xs)) vals = node_field a ∷ node_list xs ∷ vals
  push_rest v vals = vals

  -- The words of a list, before those of the fields below it.
  unfoldable pub list_path : List Word → List Word → List Word
  list_path [] rest = list_word 0 ∷ rest
  list_path (k ∷ ks) rest = list_word 1 ∷ k ∷ list_path ks rest

  unfoldable pub field_path : Field → List Word → List Word
  field_path (int_field a) rest = int_word a ∷ rest
  field_path (float_field a) rest = float_word a ∷ rest
  field_path (node_field a) rest = node_word a ∷ rest
  field_path (int_list xs) rest = list_path (map int_word xs) rest
  field_path (float_list xs) rest = list_path (map float_word xs) rest
  field_path (node_list xs) rest = list_path (map node_word xs) rest

  -- The words of all rounds, for a tuple with the fields on the stack.
  unfoldable pub tuple_path : List Field → List Word
  tuple_path [] = []
  tuple_path (v ∷ vals) = field_path v (tuple_path vals)
