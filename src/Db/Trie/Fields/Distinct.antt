-- ===== src/Db/Trie/Fields/Distinct.antt =====
-- predicates/db/trie.cpp: different tuples have different paths
use meldtools.Common.{◌≡◌, refl, List, [], ◌∷◌, arith, ap, map}
use meldtools.Db.Trie.Fields.{
  Words, Word, int_word, float_word, node_word, Field, int_field, float_field, node_field, int_list,
  float_list, node_list, field_type, list_path, field_path, tuple_path,
}

module _ (W : Words) where
  list_path-injective :
      (ks ls rest other : List (Word W))
      → list_path W ks rest ≡ list_path W ls other
      → (ks ≡ ls) × (rest ≡ other)
  unfolding list_path
  list_path-injective [] [] rest other e = (refl, ground arith)
  list_path-injective [] (l ∷ ls) rest other e = absurd (ground arith)
  list_path-injective (k ∷ ks) [] rest other e = absurd (ground arith)
  list_path-injective (k ∷ ks) (l ∷ ls) rest other e =
      let (a, b) = list_path-injective ks ls rest other (ground arith) in (ground (arith, a), b)

  map-injective :
      {A : Type 0} (word : A → Word W)
      → ((a b : A) → word a ≡ word b → a ≡ b)
      → (xs ys : List A) → map word xs ≡ map word ys
      → xs ≡ ys
  map-injective word inj [] [] e = refl
  map-injective word inj [] (y ∷ ys) e = absurd (ground arith)
  map-injective word inj (x ∷ xs) [] e = absurd (ground arith)
  map-injective word inj (x ∷ xs) (y ∷ ys) e =
      let head = inj x y (ground arith) in
      let tail = map-injective word inj xs ys (ground arith) in ground (arith, head, tail)

  field_path-injective :
      (v u : Field W) (rest other : List (Word W))
      → field_type W v ≡ field_type W u
      → field_path W v rest ≡ field_path W u other
      → (v ≡ u) × (rest ≡ other)
  unfolding field_path field_type
  field_path-injective (int_field a) (int_field b) rest other t e = (ground arith, ground arith)
  field_path-injective (float_field a) (float_field b) rest other t e = (ground arith, ground arith)
  field_path-injective (node_field a) (node_field b) rest other t e = (ground arith, ground arith)
  field_path-injective (int_list xs) (int_list ys) rest other t e =
      let (a, b) = list_path-injective (map int_word xs) (map int_word ys) rest other e in
      (ap int_list (map-injective int_word (λ a b h. ground arith) xs ys a), b)
  field_path-injective (float_list xs) (float_list ys) rest other t e =
      let (a, b) = list_path-injective (map float_word xs) (map float_word ys) rest other e in
      (ap float_list (map-injective float_word (λ a b h. ground arith) xs ys a), b)
  field_path-injective (node_list xs) (node_list ys) rest other t e =
      let (a, b) = list_path-injective (map node_word xs) (map node_word ys) rest other e in
      (ap node_list (map-injective node_word (λ a b h. ground arith) xs ys a), b)
  field_path-injective v u rest other t e = absurd (ground arith)

  -- Tuples with the same types of fields and the same path have the same fields.
  pub tuple_path-injective :
      (vals others : List (Field W))
      → map (field_type W) vals ≡ map (field_type W) others
      → tuple_path W vals ≡ tuple_path W others
      → vals ≡ others
  unfolding tuple_path
  tuple_path-injective [] [] t e = refl
  tuple_path-injective [] (u ∷ us) t e = absurd (ground arith)
  tuple_path-injective (v ∷ vs) [] t e = absurd (ground arith)
  tuple_path-injective (v ∷ vs) (u ∷ us) t e =
      let (a, b) = field_path-injective v u (tuple_path W vs) (tuple_path W us) (ground arith) e in
      let rest = tuple_path-injective vs us (ground arith) b in ground (arith, a, rest)
