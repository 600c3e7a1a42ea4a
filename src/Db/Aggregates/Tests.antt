-- ===== src/Db/Aggregates/Tests.antt =====
-- Runs of the aggregates at fixed inputs, with natural numbers for the floats.
use meldtools.Common.{
  ℕ, ◌+◌, ◌≡◌, refl, true, Option, length, none, some, List, [], ◌∷◌, ◌==◌, ltb, arith,
}
use meldtools.External.Lists.{int_ltb}
use meldtools.Db.Trie.Fields.{Words, Field, int_field}
use meldtools.Db.Trie.Tuples.{SimpleTuple}
use meldtools.Db.Aggregates.{
  FloatOps, get_int, as_int, generate_best, generate_max_int, generate_sum_int, do_generate,
  generate_typ, agg_max_int, agg_sum_int, tuple_equal, negative_one, pick_loop, take_better,
  sum_loop, add_times, add_int_val, rounds_of, generate_first,
}
use meldtools.Db.Aggregates.Best.{IsOrder, IsFrom, NoneBetter, Readable, generate_best_lem}
use meldtools.Db.Aggregates.Output.{
  changes, tuple_equal_iff, generate_lem, held_of, pushed, push_all, last_of,
}

number_refl : (a : ℕ) → (a == a) ≡ true
number_refl a = ground arith

number_sound : (a b : ℕ) → (a == b) ≡ true → a ≡ b
number_sound a b h = ground arith

abbrev words : Words
words = record {
  Float = ℕ;
  float_eq = λ a b. a == b;
  float_refl = number_refl;
  float_sound = number_sound;
  hash_int = λ a. a;
  hash_float = λ a. a;
  hash_node = λ a. a;
  hash_uint = λ a. a;
}

abbrev floats : FloatOps words
floats = record { zero_float = 0; lt = ltb; add = λ a b. a + b }

abbrev collected : ℕ → ℕ → SimpleTuple (List (Field words))
collected a count = record { data_of = int_field a ∷ []; count = count }

-- -1 and 3, the latter twice.
abbrev lower : SimpleTuple (List (Field words))
lower = collected 4294967295 1

abbrev upper : SimpleTuple (List (Field words))
upper = collected 3 2

generated_max :
    do_generate words floats agg_max_int 0 (lower ∷ upper ∷ []) ≡ some (some (int_field 3 ∷ []))
unfolding do_generate generate_typ generate_max_int generate_best pick_loop take_better get_int
    as_int
generated_max = refl

generated_sum :
    do_generate words floats agg_sum_int 0 (lower ∷ upper ∷ []) ≡ some (some (int_field 5 ∷ []))
unfolding do_generate generate_typ generate_sum_int generate_first sum_loop add_times rounds_of
    add_int_val get_int as_int
generated_sum = refl

int_ltb-IsOrder : IsOrder (get_int words floats 0) int_ltb
int_ltb-IsOrder = record { irreflexive = λ v. ground arith; passes = λ m v x h k. ground arith }

reads : Readable (get_int words floats 0) int_ltb (lower ∷ upper ∷ [])
unfolding get_int as_int
reads = ((4294967295, refl), ((3, refl), tt))

generate_best_lem_example :
    (u : List (Field words)) × (w : ℕ) × (generate_best
        (get_int words floats 0)
        int_ltb
        (lower ∷ upper ∷ [])
      ≡ some u)
    × (get_int words floats 0 u ≡ some w)
    × NoneBetter (get_int words floats 0) int_ltb w (lower ∷ upper ∷ [])
    × IsFrom (get_int words floats 0) int_ltb u (lower ∷ upper ∷ [])
generate_best_lem_example =
    generate_best_lem (get_int words floats 0) int_ltb lower (upper ∷ []) int_ltb-IsOrder reads

abbrev results : List (Option (List (Field words)))
results = some lower.data_of ∷ some upper.data_of ∷ none ∷ []

generate_lem_example :
    (held_of (tuple_equal words) upper.data_of none
        + pushed (tuple_equal words) 1 upper.data_of (push_all (tuple_equal words) none results)
      ≡ held_of (tuple_equal words) upper.data_of (last_of (tuple_equal words) none results)
        + pushed
            (tuple_equal words)
            negative_one
            upper.data_of
            (push_all (tuple_equal words) none results))
    × (length (push_all (tuple_equal words) none results)
        ≡ changes (tuple_equal words) none results)
generate_lem_example =
    generate_lem words (tuple_equal words) (tuple_equal_iff words) upper.data_of none results
