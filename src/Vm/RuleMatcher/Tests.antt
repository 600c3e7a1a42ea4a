-- ===== src/Vm/RuleMatcher/Tests.antt =====
-- The rule matcher on a small program: rule 0 joins predicates 0 and 1, rule 1 reads 1 twice, and
-- rule 2 is persistent.
use mathlib.Core.Option
use meldtools.Common.{zero, suc, ◌≡◌, refl, inl, true, false, some, List, [], ◌∷◌, arith, subst}
use meldtools.Vm.RuleMatcher.History.{
  Activates, Event, arrive, deregister_tuple-negative, handle, leave, new-IsConsistent, run,
  run-new,
}
use meldtools.Vm.RuleMatcher.Events.{
  IsConsistent, IsNarrow, Settled, register_tuple-consistent, deregister_tuple-consistent,
}
use meldtools.Vm.RuleMatcher.{
  Program, Rule, RuleMatcher, affected_rules, available_step, deregister_tuple, new, new_objs,
  register_predicate_availability, register_predicate_unavailability, register_tuple,
  unavailable_step,
}
use meldtools.Vm.RuleMatcher.Consistency.{body}
use meldtools.Common.OrdSet.{erase, insert}

abbrev joins : Rule
joins = record { predicates = 0 ∷ 1 ∷ []; is_persistent = false }

abbrev doubles : Rule
doubles = record { predicates = 1 ∷ 1 ∷ []; is_persistent = false }

abbrev persists : Rule
persists = record { predicates = 0 ∷ []; is_persistent = true }

abbrev sample : Program
sample = record { rules = joins ∷ doubles ∷ persists ∷ []; num_predicates = 2 }

abbrev arrivals : List Event
arrivals = arrive 0 1 true ∷ arrive 1 2 true ∷ arrive 1 1 false ∷ []

abbrev departures : List Event
departures = leave 1 1 ∷ leave 0 1 ∷ []

affected : affected_rules sample 1 ≡ 0 ∷ 1 ∷ 1 ∷ []
unfolding affected_rules
affected = refl

-- After the arrivals rules 0 and 1 are active; without predicate 0 rule 0 is dropped.
abbrev full : RuleMatcher
full = record {
  rules =
      record { total_have = 2; total_needed = 2; ignore = false }
      ∷ record { total_have = 2; total_needed = 2; ignore = false }
      ∷ record { total_have = 0; total_needed = 1; ignore = true }
      ∷ [];
  predicate_count = 1 ∷ 3 ∷ [];
  active_rules = 0 ∷ 1 ∷ [];
  dropped_rules = [];
}

run-arrivals : run sample (new sample) arrivals ≡ some full
unfolding run handle register_tuple register_predicate_availability available_step affected_rules
    new insert erase
run-arrivals = refl

run-departures :
    Option.map (λ (m : RuleMatcher). m.dropped_rules) (run sample full departures) ≡ some (0 ∷ [])
unfolding run handle deregister_tuple register_predicate_unavailability unavailable_step
    affected_rules insert erase
run-departures = refl

sample-IsNarrow : IsNarrow sample
unfolding body
sample-IsNarrow zero = omega arith
sample-IsNarrow (suc zero) = omega arith
sample-IsNarrow (suc (suc zero)) = omega arith
sample-IsNarrow (suc (suc (suc r))) = omega arith

abbrev empty : RuleMatcher
empty = record {
  rules =
      record { total_have = 0; total_needed = 2; ignore = false }
      ∷ record { total_have = 0; total_needed = 2; ignore = false }
      ∷ record { total_have = 0; total_needed = 1; ignore = true }
      ∷ [];
  predicate_count = 0 ∷ 0 ∷ [];
  active_rules = [];
  dropped_rules = [];
}

empty-IsConsistent : IsConsistent sample empty
unfolding new new_objs
empty-IsConsistent = new-IsConsistent sample sample-IsNarrow

run-new_example : Activates sample arrivals (run sample (new sample) arrivals)
run-new_example = run-new sample arrivals sample-IsNarrow (ground arith)

register_tuple-consistent_example :
    Settled sample empty 1 2 true (register_tuple sample empty 1 2 true)
register_tuple-consistent_example =
    register_tuple-consistent sample empty 1 empty-IsConsistent (omega arith) 2 true (omega arith)
      (omega arith) (inl refl)

-- Two tuples of predicate 1.
abbrev doubled : RuleMatcher
doubled = record {
  rules =
      record { total_have = 1; total_needed = 2; ignore = false }
      ∷ record { total_have = 2; total_needed = 2; ignore = false }
      ∷ record { total_have = 0; total_needed = 1; ignore = true }
      ∷ [];
  predicate_count = 0 ∷ 2 ∷ [];
  active_rules = 1 ∷ [];
  dropped_rules = [];
}

doubled-IsConsistent : IsConsistent sample doubled
unfolding register_tuple register_predicate_availability available_step affected_rules insert erase
doubled-IsConsistent =
    let s =
      register_tuple-consistent sample empty 1 empty-IsConsistent (omega arith) 2 true (omega arith)
        (omega arith) (inl refl) in
    let e : s.after ≡ doubled = cc (s.ended) in subst (IsConsistent sample) e s.consistent

deregister_tuple-consistent_example :
    Settled sample doubled 1 0 true (deregister_tuple sample doubled 1 2)
deregister_tuple-consistent_example =
    deregister_tuple-consistent sample doubled 1 doubled-IsConsistent (omega arith) 2 (omega arith)
      (omega arith) (omega arith)

deregister_tuple-negative_example :
    deregister_tuple sample full 1 65535
    ≡ some (record full { predicate_count = 1 ∷ 4 ∷ [] }, false)
deregister_tuple-negative_example =
    deregister_tuple-negative sample full 1 3 1 refl (omega arith) (omega arith) (omega arith)
