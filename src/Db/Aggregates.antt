-- ===== src/Db/Aggregates.antt =====
-- predicates/db/agg_configuration.cpp: what an aggregate makes of the tuples that it has collected,
-- which are those of its trie from `begin` to `end`. `none` is a failed assertion or a field of another
-- type. The sums of lists are left out.
pub mod Best
pub mod Sum
pub mod Output
mod Tests
use meldtools.Common.{
  ℕ, zero, suc, ◌+◌, ◌%◌, Bool, true, false, ◌&&◌, not, Option, none, some, List, [], ◌∷◌, ◌==◌,
  if◌then◌else◌, ◌>>=◌, u16_mod, u32_mod, get_elem?, set, ◌-◌,
}
use meldtools.External.Lists.{int_ltb}
use meldtools.Db.Trie.Fields.{
  Words, Field, int_field, float_field, node_field, int_list, float_list, node_list,
}
use meldtools.Db.Trie.Tuples.{SimpleTuple, is_negative}

-- The floats, with `<` and `+`.
pub record FloatOps (W : Words) : Type 0 where
  pub zero_float : W.Float
  pub lt : W.Float → W.Float → Bool
  pub add : W.Float → W.Float → W.Float

pub data AggregateType : Type 0 where
  agg_first : AggregateType
  agg_max_int : AggregateType
  agg_min_int : AggregateType
  agg_sum_int : AggregateType
  agg_max_float : AggregateType
  agg_min_float : AggregateType
  agg_sum_float : AggregateType

unfoldable pub take_better : {T V : Type 0} → (V → V → Bool) → V → T → V → T → V × T
take_better better best tpl v other = if better best v then (v, other) else (best, tpl)

-- The loop of generate_max_int, and of the three like it.
unfoldable pub pick_loop :
    {T V : Type 0} → (T → Option V) → (V → V → Bool) → V × T → List (SimpleTuple T) → Option T
pick_loop read better (best, tpl) [] = some tpl
pick_loop read better (best, tpl) (s ∷ rest) =
    read s.data_of >>= λ v. pick_loop read better (take_better better best tpl v s.data_of) rest

unfoldable pub generate_best :
    {T V : Type 0} → (T → Option V) → (V → V → Bool) → List (SimpleTuple T) → Option T
generate_best read better [] = none
generate_best read better (s ∷ rest) =
    read s.data_of >>= λ v. pick_loop read better (v, s.data_of) rest

-- The loops of generate_sum_int and generate_sum_float. A negative count makes no rounds.
unfoldable pub rounds_of : ℕ → ℕ
rounds_of count = if is_negative count then 0 else count

unfoldable pub add_times : {V : Type 0} → (V → V → V) → ℕ → V → V → V
add_times add zero v sum_val = sum_val
add_times add (suc n) v sum_val = add_times add n v (add sum_val v)

unfoldable pub sum_loop :
    {T V : Type 0} → (T → Option V) → (V → V → V) → V → List (SimpleTuple T) → Option V
sum_loop read add sum_val [] = some sum_val
sum_loop read add sum_val (s ∷ rest) =
    read s.data_of >>= λ v. sum_loop read add (add_times add (rounds_of s.count) v sum_val) rest

unfoldable pub generate_first : {T : Type 0} → List (SimpleTuple T) → Option T
generate_first [] = none
generate_first (s ∷ rest) = some s.data_of

module _ (W : Words) (F : FloatOps W) where
  abbrev pub Tuple : Type 0
  Tuple = List (Field W)

  unfoldable pub as_int : Field W → Option ℕ
  as_int (int_field a) = some a
  as_int f = none

  unfoldable pub as_float : Field W → Option W.Float
  as_float (float_field a) = some a
  as_float f = none

  unfoldable pub get_int : ℕ → Tuple → Option ℕ
  get_int field tpl = get_elem? tpl field >>= as_int

  unfoldable pub get_float : ℕ → Tuple → Option W.Float
  get_float field tpl = get_elem? tpl field >>= as_float

  unfoldable pub generate_max_int : ℕ → List (SimpleTuple Tuple) → Option Tuple
  generate_max_int field vals = generate_best (get_int field) int_ltb vals

  unfoldable pub generate_min_int : ℕ → List (SimpleTuple Tuple) → Option Tuple
  generate_min_int field vals = generate_best (get_int field) (λ m v. int_ltb v m) vals

  unfoldable pub generate_max_float : ℕ → List (SimpleTuple Tuple) → Option Tuple
  generate_max_float field vals = generate_best (get_float field) F.lt vals

  unfoldable pub generate_min_float : ℕ → List (SimpleTuple Tuple) → Option Tuple
  generate_min_float field vals = generate_best (get_float field) (λ m v. F.lt v m) vals

  unfoldable pub add_int_val : ℕ → ℕ → ℕ
  add_int_val a b = (a + b) % u32_mod

  unfoldable pub generate_sum_int : ℕ → List (SimpleTuple Tuple) → Option Tuple
  generate_sum_int field vals = generate_first vals >>= λ ret.
      sum_loop (get_int field) add_int_val 0 vals >>= λ sum_val.
      some (set ret field (int_field sum_val))

  unfoldable pub generate_sum_float : ℕ → List (SimpleTuple Tuple) → Option Tuple
  generate_sum_float field vals = generate_first vals >>= λ ret.
      sum_loop (get_float field) F.add F.zero_float vals >>= λ sum_val.
      some (set ret field (float_field sum_val))

  unfoldable pub generate_typ : AggregateType → ℕ → List (SimpleTuple Tuple) → Option Tuple
  generate_typ agg_first field vals = generate_first vals
  generate_typ agg_max_int field vals = generate_max_int field vals
  generate_typ agg_min_int field vals = generate_min_int field vals
  generate_typ agg_sum_int field vals = generate_sum_int field vals
  generate_typ agg_max_float field vals = generate_max_float field vals
  generate_typ agg_min_float field vals = generate_min_float field vals
  generate_typ agg_sum_float field vals = generate_sum_float field vals

  -- Without tuples the result is NULL.
  unfoldable pub do_generate : AggregateType → ℕ → List (SimpleTuple Tuple) → Option (Option Tuple)
  do_generate typ field [] = some none
  do_generate typ field (s ∷ rest) = generate_typ typ field (s ∷ rest) >>= λ tpl. some (some tpl)

-- tuple::field_equal and operator== of predicates/vm/tuple.cpp, of tuples of one predicate.
unfoldable pub list_equal : {A : Type 0} → (A → A → Bool) → List A → List A → Bool
list_equal eq [] [] = true
list_equal eq [] (y ∷ ys) = false
list_equal eq (x ∷ xs) [] = false
list_equal eq (x ∷ xs) (y ∷ ys) = eq x y && list_equal eq xs ys

module _ (W : Words) where
  unfoldable pub field_equal : Field W → Field W → Bool
  field_equal (int_field a) (int_field b) = a == b
  field_equal (float_field a) (float_field b) = W.float_eq a b
  field_equal (node_field a) (node_field b) = a == b
  field_equal (int_list xs) (int_list ys) = list_equal (λ a b. a == b) xs ys
  field_equal (float_list xs) (float_list ys) = list_equal W.float_eq xs ys
  field_equal (node_list xs) (node_list ys) = list_equal (λ a b. a == b) xs ys
  field_equal a b = false

  unfoldable pub tuple_equal : List (Field W) → List (Field W) → Bool
  tuple_equal a b = list_equal field_equal a b

-- A count of -1, as a word.
abbrev pub negative_one : ℕ
negative_one = 65535

-- create_new and remove_new
abbrev pub create_new : {T : Type 0} → T → SimpleTuple T
create_new tpl = record { data_of = tpl; count = 1 }

abbrev pub remove_new : {T : Type 0} → T → SimpleTuple T
remove_new tpl = record { data_of = tpl; count = negative_one }

-- What `generate` pushes on `cont`, where `corresponds` is the tuple of the last time and `eq` the
-- comparison of tuples.
unfoldable pub push_generated :
    {T : Type 0} → (T → T → Bool) → Option T → Option T → List (SimpleTuple T)
push_generated eq none none = []
push_generated eq none (some generated) = create_new generated ∷ []
push_generated eq (some corresponds) none = remove_new corresponds ∷ []
push_generated eq (some corresponds) (some generated) =
    if eq corresponds generated then [] else remove_new corresponds ∷ create_new generated ∷ []
