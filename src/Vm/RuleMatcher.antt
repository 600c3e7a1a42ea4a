-- ===== src/Vm/RuleMatcher.antt =====
-- predicates/vm/rule_matcher.{hpp,cpp}: which rules may be derivable, counted from the tuples that
-- are present. A `short` (ref_count) is its bit pattern below 2^16 and a `size_t` is below 2^64.
-- `none` is a failed assertion or an access outside a vector.
pub mod Step
pub mod Availability
pub mod Consistency
pub mod Events
pub mod History
mod Tests
use meldtools.Common.{
  ℕ, suc, ◌+◌, ◌-◌, ◌%◌, Bool, Option, some, List, [], ◌∷◌, leb, ◌==◌, ◌&&◌, if◌then◌else◌, length,
  get_elem?, set, replicate, guard, ◌>>=◌, ◌>>◌, u16_mod, u64_mod,
}
use meldtools.Common.OrdSet.{insert, erase}

-- What the program file says of one rule: the predicates of its body, and its persistence flag.
pub record Rule : Type 0 where
  pub predicates : List ℕ
  pub is_persistent : Bool

pub record Program : Type 0 where
  pub rules : List Rule
  pub num_predicates : ℕ

-- How often a rule body names the predicate.
pub occurrences : ℕ → List ℕ → ℕ
occurrences p [] = 0
occurrences p (q ∷ qs) = if p == q then suc (occurrences p qs) else occurrences p qs

-- `push_back(i)`, once for each occurrence.
push_each : List ℕ → ℕ → ℕ → List ℕ → List ℕ
push_each [] p i rest = rest
push_each (q ∷ qs) p i rest = if p == q then i ∷ push_each qs p i rest else push_each qs p i rest

-- `affected_rules` of predicate `p` after the program is read, from rule `i` on.
affected_from : ℕ → List Rule → ℕ → List ℕ
affected_from i [] p = []
affected_from i (r ∷ rs) p = push_each r.predicates p i (affected_from (suc i) rs p)

pub affected_rules : Program → ℕ → List ℕ
unfolding affected_from push_each
affected_rules prog p = affected_from 0 prog.rules p

pub record RuleMatcherObj : Type 0 where
  pub total_have : ℕ
  pub total_needed : ℕ
  pub ignore : Bool

pub record RuleMatcher : Type 0 where
  pub rules : List RuleMatcherObj
  pub predicate_count : List ℕ
  pub active_rules : List ℕ
  pub dropped_rules : List ℕ

pub new_objs : List Rule → List RuleMatcherObj
new_objs [] = []
new_objs (r ∷ rs) =
    record { total_have = 0; total_needed = length r.predicates; ignore = r.is_persistent }
    ∷ new_objs rs

-- The constructor.
pub new : Program → RuleMatcher
unfolding new_objs
new prog = record {
  rules = new_objs prog.rules;
  predicate_count = replicate prog.num_predicates 0;
  active_rules = [];
  dropped_rules = [];
}

-- `total_have++` and the test behind it.
gain : RuleMatcher → ℕ → RuleMatcherObj → RuleMatcher
gain m rule obj =
    let have = (obj.total_have + 1) % u64_mod in
    let rules = set m.rules rule (record obj { total_have = have }) in
    if have == obj.total_needed
    then record m {
      rules = rules;
      active_rules = insert rule m.active_rules;
      dropped_rules = erase rule m.dropped_rules;
    }
    else record m { rules = rules }

-- The test, and `total_have--` behind it.
lose : RuleMatcher → ℕ → RuleMatcherObj → RuleMatcher
lose m rule obj =
    let have = (obj.total_have + u64_mod - 1) % u64_mod in
    let rules = set m.rules rule (record obj { total_have = have }) in
    if obj.total_have == obj.total_needed
    then record m {
      rules = rules;
      active_rules = erase rule m.active_rules;
      dropped_rules = insert rule m.dropped_rules;
    }
    else record m { rules = rules }

-- One round of the loop of `register_predicate_availability`.
pub available_step : RuleMatcher → ℕ → Option RuleMatcher
unfolding gain
available_step m rule = do
  obj ← get_elem? m.rules rule
  some (if obj.ignore then m else gain m rule obj)

-- One round of the loop of `register_predicate_unavailability`.
pub unavailable_step : RuleMatcher → ℕ → Option RuleMatcher
unfolding lose
unavailable_step m rule = do
  obj ← get_elem? m.rules rule
  some (if obj.ignore then m else lose m rule obj)

pub register_predicate_availability : RuleMatcher → List ℕ → Option RuleMatcher
register_predicate_availability m [] = some m
register_predicate_availability m (rule ∷ rest) =
    available_step m rule >>= λ m'. register_predicate_availability m' rest

pub register_predicate_unavailability : RuleMatcher → List ℕ → Option RuleMatcher
register_predicate_unavailability m [] = some m
register_predicate_unavailability m (rule ∷ rest) =
    unavailable_step m rule >>= λ m'. register_predicate_unavailability m' rest

set_count : RuleMatcher → ℕ → ℕ → RuleMatcher
set_count m id n = record m { predicate_count = set m.predicate_count id n }

-- The flag of the result: there were no tuples of the predicate.
pub register_tuple : Program → RuleMatcher → ℕ → ℕ → Bool → Option (RuleMatcher × Bool)
unfolding set_count
register_tuple prog m id count is_new = do
  have ← get_elem? m.predicate_count id
  let more = (have + count) % u16_mod
  let fresh = is_new && have == 0
  m' ← if fresh then register_predicate_availability m (affected_rules prog id) else some m
  some (set_count m' id more, fresh)

-- `>=` on two `short`s: the order of the patterns with the sign bit turned.
short_leb : ℕ → ℕ → Bool
short_leb a b = leb ((a + 32768) % u16_mod) ((b + 32768) % u16_mod)

-- The flag of the result: there are no tuples of the predicate any more.
pub deregister_tuple : Program → RuleMatcher → ℕ → ℕ → Option (RuleMatcher × Bool)
unfolding set_count short_leb
deregister_tuple prog m id count = do
  have ← get_elem? m.predicate_count id
  guard (short_leb count have)
  let last = have == count
  m' ← if last then register_predicate_unavailability m (affected_rules prog id) else some m
  some (set_count m' id ((have + u16_mod - count) % u16_mod), last)

pub clear_dropped_rules : RuleMatcher → RuleMatcher
clear_dropped_rules m = record m { dropped_rules = [] }
