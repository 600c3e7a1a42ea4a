-- ===== src/Vm/RuleMatcher/History.antt =====
-- Whole histories of a rule matcher, from its constructor on.
use mathlib.Core.Option
use meldtools.Common.{
  ℕ, zero, suc, ◌+◌, ◌-◌, ◌≤◌, ◌<◌, ◌≡◌, refl, ◌⊎◌, Bool, true, ◌&&◌, not, Option, some, List, [],
  ◌∷◌, arith, ltb, ◌==◌, length, get_elem?, set, get_or, ◌>>=◌, ap, ◌∙◌, false, replicate,
  length-replicate, get_or-replicate, u16_mod,
}
use meldtools.Vm.RuleMatcher.Events.{
  IsConsistent, IsNarrow, deregister_tuple-consistent, register_tuple-consistent,
}
use meldtools.Vm.RuleMatcher.{
  Program, Rule, RuleMatcher, deregister_tuple, new_objs, register_tuple, RuleMatcherObj, new,
}
use meldtools.Vm.RuleMatcher.Consistency.{all_present, body, present, present_bound}
use meldtools.Vm.RuleMatcher.Step.{statics, statics_found}
use meldtools.Common.OrdSet.{member}

-- The matcher's clients (vm/state.cpp, vm/exec.cpp) add and remove tuples of a predicate.
pub data Event : Type 0 where
  arrive : ℕ → ℕ → Bool → Event
  leave : ℕ → ℕ → Event

unfoldable pub handle : Program → RuleMatcher → Event → Option RuleMatcher
handle prog m (arrive id count is_new) =
    Option.map (λ r. r.0) (register_tuple prog m id count is_new)
handle prog m (leave id count) = Option.map (λ r. r.0) (deregister_tuple prog m id count)

unfoldable pub run : Program → RuleMatcher → List Event → Option RuleMatcher
run prog m [] = some m
run prog m (e ∷ es) = handle prog m e >>= λ m'. run prog m' es

-- The numbers of tuples, kept by themselves.
abbrev pub tally : List ℕ → Event → List ℕ
tally counts (arrive id count is_new) = set counts id (get_or counts id 0 + count)
tally counts (leave id count) = set counts id (get_or counts id 0 - count)

abbrev pub tally_all : List ℕ → List Event → List ℕ
tally_all counts [] = counts
tally_all counts (e ∷ es) = tally_all (tally counts e) es

-- Counts stay below the range of a `short`, what leaves was there, and the first tuples of a
-- predicate are announced as new.
abbrev pub IsAllowed : Program → List ℕ → Event → Type 0
IsAllowed prog counts (arrive id count is_new) =
    (id < prog.num_predicates)
    × (0 < count)
    × (get_or counts id 0 + count < 32768)
    × ((is_new ≡ true) ⊎ (0 < get_or counts id 0))
IsAllowed prog counts (leave id count) =
    (id < prog.num_predicates)
    × (0 < count)
    × (count ≤ get_or counts id 0)
    × (get_or counts id 0 < 32768)

abbrev pub AllAllowed : Program → List ℕ → List Event → Type 0
AllAllowed prog counts [] = Unit {0}
AllAllowed prog counts (e ∷ es) = IsAllowed prog counts e × AllAllowed prog (tally counts e) es

-- A rule may be derived: its body is not empty, each predicate of it has a tuple, and the rule is
-- not a persistent one, which the matcher leaves alone.
pub may_derive : List ℕ → Rule → Bool
may_derive counts x =
    not x.is_persistent && ltb 0 (length x.predicates) && all_present counts x.predicates

present-length : (counts qs : List ℕ) → (present counts qs == length qs) ≡ all_present counts qs
unfolding present all_present
present-length counts [] = refl
present-length counts (q ∷ qs) = ground (arith, present-length counts qs, present_bound counts qs)

rule_row :
    (rs : List Rule) (r : ℕ) (x : Rule)
    → get_elem? rs r ≡ some x
    → (get_elem? (statics (new_objs rs)) r ≡ some (length x.predicates, x.is_persistent))
      × (body rs r ≡ x.predicates)
unfolding statics new_objs body
rule_row [] r x e = absurd (ground arith)
rule_row (y ∷ rs) zero x e = ground arith
rule_row (y ∷ rs) (suc r) x e = rule_row rs r x e

-- Of a consistent matcher, the active rules are those that may be derived from the tuples.
pub active_rules-may_derive :
    (prog : Program) (m : RuleMatcher) (r : ℕ) (x : Rule)
    → IsConsistent prog m
    → get_elem? prog.rules r ≡ some x
    → member r m.active_rules ≡ may_derive m.predicate_count x
unfolding may_derive
active_rules-may_derive prog m r x c e =
    let (row, names) = rule_row prog.rules r x e in
    let (o, found, needed, ignored) =
      statics_found m.rules r (length x.predicates) x.is_persistent (rw c.program row) in
    ground (arith, c.tracks.rows r o found, present-length m.predicate_count x.predicates, names)

new_objs-row :
    (rs : List Rule) (r : ℕ) (o : RuleMatcherObj)
    → get_elem? (new_objs rs) r ≡ some o
    → (o.total_have ≡ 0) × (o.total_needed ≡ length (body rs r))
unfolding new_objs body
new_objs-row [] r o e = absurd (ground arith)
new_objs-row (x ∷ rs) zero o e = ground arith
new_objs-row (x ∷ rs) (suc r) o e = new_objs-row rs r o e

present-replicate : (n : ℕ) (qs : List ℕ) → present (replicate n 0) qs ≡ 0
unfolding present
present-replicate n [] = refl
present-replicate n (q ∷ qs) =
    ground (arith, present-replicate n qs, get_or-replicate {A = ℕ} n q 0 0 refl)

pub new-IsConsistent : (prog : Program) → IsNarrow prog → IsConsistent prog (new prog)
unfolding new member
new-IsConsistent prog narrow = record {
  width = length-replicate prog.num_predicates 0;
  program = refl;
  tracks = record {
    rows = λ r o e. ground (
      arith,
      narrow r,
      new_objs-row prog.rules r o e,
      present-replicate prog.num_predicates (body prog.rules r),
    );
    active_ascends = tt;
    dropped_ascends = tt;
  };
}

handle-IsConsistent :
    (prog : Program) (m : RuleMatcher) (e : Event)
    → IsConsistent prog m
    → IsAllowed prog m.predicate_count e
    → (m' : RuleMatcher) × (handle prog m e ≡ some m')
      × IsConsistent prog m'
      × (m'.predicate_count ≡ tally m.predicate_count e)
unfolding handle
handle-IsConsistent prog m (arrive id count is_new) c (inside, some_more, fits, fresh) =
    let s =
      register_tuple-consistent prog m id c inside count is_new some_more (omega arith) fresh in
    (s.after, rw s.ended, s.consistent, s.counted)
handle-IsConsistent prog m (leave id count) c (inside, some_fewer, counted, positive) =
    let s = deregister_tuple-consistent prog m id c inside count some_fewer counted positive in
    (s.after, rw s.ended, s.consistent, s.counted)

run-IsConsistent :
    (prog : Program) (es : List Event) (m : RuleMatcher)
    → IsConsistent prog m
    → AllAllowed prog m.predicate_count es
    → (m' : RuleMatcher) × (run prog m es ≡ some m')
      × IsConsistent prog m'
      × (m'.predicate_count ≡ tally_all m.predicate_count es)
unfolding run
run-IsConsistent prog [] m c a = (m, refl, c, refl)
run-IsConsistent prog (e ∷ es) m c (now, later) =
    let (m₁, ended, c₁, counted) = handle-IsConsistent prog m e c now in
    let (m', ended', c', counted') = run-IsConsistent prog es m₁ c₁ (rw counted later) in
    (m', rw ended ended', c', counted' ∙ ap (λ k. tally_all k es) counted)

-- The rules that a matcher calls active after the history `es` of its program, by definition.
pub record Activates (prog : Program) (es : List Event) (r : Option RuleMatcher) : Type 0 where
  pub after : RuleMatcher
  pub ended : r ≡ some after
  pub activated :
      (i : ℕ) (x : Rule)
      → get_elem? prog.rules i ≡ some x
      → member i after.active_rules ≡ may_derive (tally_all (replicate prog.num_predicates 0) es) x

-- After any allowed history from the constructor on, no assertion has failed, no access was outside
-- a vector, and the active rules are those that may be derived from the tuples that are left.
pub run-new :
    (prog : Program) (es : List Event)
    → IsNarrow prog
    → AllAllowed prog (replicate prog.num_predicates 0) es
    → Activates prog es (run prog (new prog) es)
unfolding new
run-new prog es narrow allowed =
    let (m', ended, c, counted) =
      run-IsConsistent prog es (new prog) (new-IsConsistent prog narrow) allowed in
    record {
      after = m';
      ended = ended;
      activated = λ i x e. rw (← counted) (active_rules-may_derive prog m' i x c e);
    }

-- A count that is negative, -k, passes the assertion and is added: the matcher then has k tuples
-- more, reports that some are left, and deactivates no rule.
pub deregister_tuple-negative :
    (prog : Program) (m : RuleMatcher) (id have k : ℕ)
    → get_elem? m.predicate_count id ≡ some have
    → have < 32768
    → 0 < k
    → k ≤ 32768
    → deregister_tuple prog m id (u16_mod - k)
      ≡ some (record m { predicate_count = set m.predicate_count id (have + k) }, false)
unfolding deregister_tuple
deregister_tuple-negative prog m id have k e h p q = ground arith
