-- ===== src/Db/Aggregates/Output.antt =====
-- predicates/db/agg_configuration.cpp: generate
use meldtools.Common.{
  ℕ, ◌+◌, ◌≡◌, refl, Bool, true, ◌&&◌, Option, none, some, List, [], ◌∷◌, ◌++◌, if◌then◌else◌, ◌==◌,
  Bool-cases, inl, inr, arith, ap, ◌↔◌, subst, length, length-append, false,
}
use meldtools.Db.Trie.Tuples.{SimpleTuple}
use meldtools.Db.Trie.Fields.{
  Words, Field, int_field, float_field, node_field, int_list, float_list, node_list,
}
use meldtools.Db.Aggregates.{push_generated, list_equal, field_equal, tuple_equal, negative_one}

module _ {T : Type 0} (eq : T → T → Bool) where
  -- What a change of the generated tuple pushes: the old one is taken back, the new one given.
  abbrev pub weight : Option T → ℕ
  weight none = 0
  weight (some t) = 1

  unfoldable pub change : Option T → Option T → ℕ
  change (some c) (some g) = if eq c g then 0 else 2
  change old new = weight old + weight new

  unfoldable pub changes : Option T → List (Option T) → ℕ
  changes corresponds [] = 0
  changes corresponds (generated ∷ rest) = change corresponds generated + changes generated rest

  -- All that `generate` pushes when it generates one tuple or none after the other.
  unfoldable pub push_all : Option T → List (Option T) → List (SimpleTuple T)
  push_all corresponds [] = []
  push_all corresponds (generated ∷ rest) =
      push_generated eq corresponds generated ++ push_all generated rest

  unfoldable pub last_of : Option T → List (Option T) → Option T
  last_of corresponds [] = corresponds
  last_of corresponds (generated ∷ rest) = last_of generated rest

  unfoldable pub held_of : T → Option T → ℕ
  held_of x none = 0
  held_of x (some t) = if eq t x then 1 else 0

  -- How often a tuple was pushed with a count.
  unfoldable pub pushed : ℕ → T → List (SimpleTuple T) → ℕ
  pushed count x [] = 0
  pushed count x (s ∷ rest) =
      (if s.count == count && eq s.data_of x then 1 else 0) + pushed count x rest

  pushed-append :
      (count : ℕ) (x : T) (a b : List (SimpleTuple T))
      → pushed count x (a ++ b) ≡ pushed count x a + pushed count x b
  unfolding pushed
  pushed-append count x [] b = omega arith
  pushed-append count x (s ∷ a) b = omega (arith, pushed-append count x a b)

  push_generated_lem :
      ((a b : T) → eq a b ≡ true → a ≡ b)
      → (x : T) (old new : Option T)
      → held_of x old + pushed 1 x (push_generated eq old new)
        ≡ held_of x new + pushed negative_one x (push_generated eq old new)
  unfolding held_of pushed push_generated
  push_generated_lem sound x none none = refl
  push_generated_lem sound x none (some g) = omega arith
  push_generated_lem sound x (some c) none = omega arith
  push_generated_lem sound x (some c) (some g) = elim (Bool-cases (eq c g)) [
    | inl b ↦ rw (b, sound c g b) refl
    | inr b ↦ rw b (omega arith)
  ]

  -- What was pushed with count 1, less what was pushed with count -1, is the last generated tuple: of
  -- any tuple there are as many at the start and pushed as there are at the end and taken back.
  pub push_all_lem :
      ((a b : T) → eq a b ≡ true → a ≡ b)
      → (x : T) (corresponds : Option T) (generated : List (Option T))
      → held_of x corresponds + pushed 1 x (push_all corresponds generated)
        ≡ held_of x (last_of corresponds generated)
          + pushed negative_one x (push_all corresponds generated)
  unfolding push_all last_of pushed
  push_all_lem sound x c [] = refl
  push_all_lem sound x c (g ∷ rest) = omega (
    arith,
    push_generated_lem sound x c g,
    push_all_lem sound x g rest,
    pushed-append 1 x (push_generated eq c g) (push_all g rest),
    pushed-append negative_one x (push_generated eq c g) (push_all g rest),
  )

  push_generated-length : (old new : Option T) → length (push_generated eq old new) ≡ change old new
  unfolding change push_generated
  push_generated-length none none = refl
  push_generated-length none (some g) = refl
  push_generated-length (some c) none = refl
  push_generated-length (some c) (some g) = elim (Bool-cases (eq c g)) [
    | inl b ↦ rw b refl
    | inr b ↦ rw b refl
  ]

  push_all-length :
      (corresponds : Option T) (generated : List (Option T))
      → length (push_all corresponds generated) ≡ changes corresponds generated
  unfolding push_all changes
  push_all-length c [] = refl
  push_all-length c (g ∷ rest) = omega (
    arith,
    push_generated-length c g,
    push_all-length g rest,
    length-append (push_generated eq c g) (push_all g rest),
  )

bool_ext : (a b : Bool) → (a ≡ true → b ≡ true) → (b ≡ true → a ≡ true) → a ≡ b
bool_ext true true f g = refl
bool_ext true false f g = absurd (ground (arith, f refl))
bool_ext false true f g = absurd (ground (arith, g refl))
bool_ext false false f g = refl

list_equal_sound :
    {A : Type 0} (eq : A → A → Bool)
    → ((a b : A) → eq a b ≡ true → a ≡ b)
    → (xs ys : List A) → list_equal eq xs ys ≡ true
    → xs ≡ ys
unfolding list_equal
list_equal_sound eq sound [] [] e = refl
list_equal_sound eq sound [] (y ∷ ys) e = absurd (ground arith)
list_equal_sound eq sound (x ∷ xs) [] e = absurd (ground arith)
list_equal_sound eq sound (x ∷ xs) (y ∷ ys) e =
    rw (sound x y (ground arith), list_equal_sound eq sound xs ys (ground arith)) refl

module _ (W : Words) where
  number_sound : (a b : ℕ) → (a == b) ≡ true → a ≡ b
  number_sound a b e = ground arith

  field_equal_sound : (a b : Field W) → field_equal W a b ≡ true → a ≡ b
  unfolding field_equal
  field_equal_sound (int_field a) (int_field b) e = ap int_field (number_sound a b e)
  field_equal_sound (float_field a) (float_field b) e = ap float_field (W.float_sound a b e)
  field_equal_sound (node_field a) (node_field b) e = ap node_field (number_sound a b e)
  field_equal_sound (int_list xs) (int_list ys) e =
      ap int_list (list_equal_sound (λ a b. a == b) number_sound xs ys e)
  field_equal_sound (float_list xs) (float_list ys) e =
      ap float_list (list_equal_sound W.float_eq W.float_sound xs ys e)
  field_equal_sound (node_list xs) (node_list ys) e =
      ap node_list (list_equal_sound (λ a b. a == b) number_sound xs ys e)
  field_equal_sound a b e = absurd (ground arith)

  tuple_equal_sound : (a b : List (Field W)) → tuple_equal W a b ≡ true → a ≡ b
  unfolding tuple_equal
  tuple_equal_sound a b e = list_equal_sound (field_equal W) field_equal_sound a b e

  list_equal_refl :
      {A : Type 0} (eq : A → A → Bool)
      → ((a : A) → eq a a ≡ true)
      → (xs : List A) → list_equal eq xs xs ≡ true
  unfolding list_equal
  list_equal_refl eq same [] = refl
  list_equal_refl eq same (x ∷ xs) = rw (same x, list_equal_refl eq same xs) refl

  field_equal_refl : (a : Field W) → field_equal W a a ≡ true
  unfolding field_equal
  field_equal_refl (int_field a) = ground arith
  field_equal_refl (float_field a) = W.float_refl a
  field_equal_refl (node_field a) = ground arith
  field_equal_refl (int_list xs) = list_equal_refl (λ a b. a == b) (λ a. ground arith) xs
  field_equal_refl (float_list xs) = list_equal_refl W.float_eq W.float_refl xs
  field_equal_refl (node_list xs) = list_equal_refl (λ a b. a == b) (λ a. ground arith) xs

  -- The comparison of tuples tells which tuples are the same.
  pub tuple_equal_iff : (a b : List (Field W)) → (tuple_equal W a b ≡ true) ↔ (a ≡ b)
  unfolding tuple_equal
  tuple_equal_iff a b = (
    tuple_equal_sound a b,
    λ e.
        subst (λ x. list_equal (field_equal W) a x ≡ true) e
          (list_equal_refl (field_equal W) field_equal_refl a),
  )

  any_test :
      (same : List (Field W) → List (Field W) → Bool)
      → ((a b : List (Field W)) → (same a b ≡ true) ↔ (a ≡ b))
      → tuple_equal W ≡ same
  any_test same decides = λ i a b.
      bool_ext (tuple_equal W a b) (same a b) (λ e. (decides a b).1 ((tuple_equal_iff a b).0 e))
        (λ e. (tuple_equal_iff a b).1 ((decides a b).0 e)) i

  -- By any test that tells which tuples are the same, in any sequence of results that generate
  -- compares and pushes, of any tuple there are as many at the start and pushed with count 1 as there
  -- are at the end and pushed with count -1, so that what was pushed in all is the last result; and
  -- one push takes back the old tuple and one gives the new one where they differ, and only there.
  pub generate_lem :
      (same : List (Field W) → List (Field W) → Bool)
      → ((a b : List (Field W)) → (same a b ≡ true) ↔ (a ≡ b))
      → (x : List (Field W)) (corresponds : Option (List (Field W)))
        (generated : List (Option (List (Field W))))
      → (held_of same x corresponds
            + pushed same 1 x (push_all (tuple_equal W) corresponds generated)
          ≡ held_of same x (last_of same corresponds generated)
            + pushed same negative_one x (push_all (tuple_equal W) corresponds generated))
        × (length (push_all (tuple_equal W) corresponds generated)
            ≡ changes same corresponds generated)
  generate_lem same decides x corresponds generated = rw (any_test same decides) (
    push_all_lem same (λ a b. (decides a b).0) x corresponds generated,
    push_all-length same corresponds generated,
  )
