-- ===== src/Vm/RuleMatcher/Step.antt =====
-- One round of the two loops of the rule matcher, against the number of predicates that each rule has.
use meldtools.Common.{
  ℕ, zero, suc, ap, List, [], ◌∷◌, set, ◌+◌, ◌-◌, ◌%◌, ◌≤◌, ◌<◌, ◌≡◌, refl, Bool, false, some, not,
  ltb, ◌==◌, ◌&&◌, if◌then◌else◌, get_elem?, get_elem?-set, u64_mod, arith,
}
use meldtools.Common.OrdSet.{
  IsAscending, member, member-insert, member-erase, insert-IsAscending, erase-IsAscending,
}
use meldtools.Vm.RuleMatcher.{RuleMatcherObj, RuleMatcher, available_step, unavailable_step}
use mathlib.Core.Option

-- A row of the table with `k` predicates present, whose rule is active as `a` and dropped as `d` say.
pub record RowIsValid (k : ℕ) (o : RuleMatcherObj) (a d : Bool) : Type 0 where
  pub bounded : k ≤ o.total_needed
  pub narrow : o.total_needed < u64_mod
  pub counted : o.ignore ≡ false → o.total_have ≡ k
  pub activated : a ≡ (not o.ignore && ltb 0 k && k == o.total_needed)
  pub disjoint : (a && d) ≡ false

-- Rule `r` has `h r` of the predicates of its body.
pub record Tracks (h : ℕ → ℕ) (m : RuleMatcher) : Type 0 where
  pub rows :
      (r : ℕ) (o : RuleMatcherObj)
      → get_elem? m.rules r ≡ some o
      → RowIsValid (h r) o (member r m.active_rules) (member r m.dropped_rules)
  pub active_ascends : IsAscending m.active_rules
  pub dropped_ascends : IsAscending m.dropped_rules

abbrev pub raise : ℕ → (ℕ → ℕ) → ℕ → ℕ
raise rule h r = if rule == r then suc (h r) else h r

abbrev pub lower : ℕ → (ℕ → ℕ) → ℕ → ℕ
lower rule h r = if rule == r then h r - 1 else h r

module _ (h : ℕ → ℕ) (m m' : RuleMatcher) (rule : ℕ) (o : RuleMatcherObj) (t : Tracks h m)
    (found : get_elem? m.rules rule ≡ some o) where
  module _ (room : suc (h rule) ≤ o.total_needed) (e : available_step m rule ≡ some m') where
    available_step-row :
        (r : ℕ) (o' : RuleMatcherObj)
        → get_elem? m'.rules r ≡ some o'
        → RowIsValid (raise rule h r) o' (member r m'.active_rules) (member r m'.dropped_rules)
    unfolding available_step
    available_step-row r o' e' = ground (
      arith,
      get_elem?-set m.rules rule r (record o { total_have = (o.total_have + 1) % u64_mod }) found,
      member-insert rule r m.active_rules,
      member-erase rule r m.dropped_rules t.dropped_ascends,
      t.rows rule o found,
      t.rows r o',
    )

    pub available_step-Tracks : Tracks (raise rule h) m'
    unfolding available_step
    available_step-Tracks = record {
      rows = available_step-row;
      active_ascends =
          ground (arith, insert-IsAscending rule m.active_rules t.active_ascends, t.active_ascends);
      dropped_ascends =
          ground
            (arith, erase-IsAscending rule m.dropped_rules t.dropped_ascends, t.dropped_ascends);
    }

  module _ (room : 0 < h rule) (e : unavailable_step m rule ≡ some m') where
    unavailable_step-row :
        (r : ℕ) (o' : RuleMatcherObj)
        → get_elem? m'.rules r ≡ some o'
        → RowIsValid (lower rule h r) o' (member r m'.active_rules) (member r m'.dropped_rules)
    unfolding unavailable_step
    unavailable_step-row r o' e' =
        let have = (o.total_have + u64_mod - 1) % u64_mod in
        ground (
          arith,
          get_elem?-set m.rules rule r (record o { total_have = have }) found,
          member-insert rule r m.dropped_rules,
          member-erase rule r m.active_rules t.active_ascends,
          t.rows rule o found,
          t.rows r o',
        )

    pub unavailable_step-Tracks : Tracks (lower rule h) m'
    unfolding unavailable_step
    unavailable_step-Tracks = record {
      rows = unavailable_step-row;
      active_ascends =
          ground (arith, erase-IsAscending rule m.active_rules t.active_ascends, t.active_ascends);
      dropped_ascends =
          ground
            (arith, insert-IsAscending rule m.dropped_rules t.dropped_ascends, t.dropped_ascends);
    }

-- What the program file says of each rule.
unfoldable pub statics : List RuleMatcherObj → List (ℕ × Bool)
statics [] = []
statics (o ∷ os) = (o.total_needed, o.ignore) ∷ statics os

pub get_elem?-statics :
    (os : List RuleMatcherObj) (r : ℕ)
    → get_elem? (statics os) r
      ≡ Option.map (λ (o : RuleMatcherObj). (o.total_needed, o.ignore)) (get_elem? os r)
unfolding statics
get_elem?-statics [] r = refl
get_elem?-statics (o ∷ os) zero = refl
get_elem?-statics (o ∷ os) (suc r) = get_elem?-statics os r

-- A row of the table, from what the program file says of it.
pub statics_found :
    (os : List RuleMatcherObj) (r n : ℕ) (i : Bool)
    → get_elem? (statics os) r ≡ some (n, i)
    → (o : RuleMatcherObj) × (get_elem? os r ≡ some o) × (o.total_needed ≡ n) × (o.ignore ≡ i)
unfolding statics
statics_found [] r n i e = absurd (ground arith)
statics_found (o ∷ os) zero n i e = (o, refl, ground arith, ground arith)
statics_found (o ∷ os) (suc r) n i e = statics_found os r n i e

statics-set :
    (os : List RuleMatcherObj) (r have : ℕ) (o : RuleMatcherObj)
    → get_elem? os r ≡ some o
    → statics (set os r (record o { total_have = have })) ≡ statics os
unfolding statics
statics-set [] r have o e = refl
statics-set (x ∷ os) zero have o e = ground arith
statics-set (x ∷ os) (suc r) have o e =
    ap (◌∷◌ (x.total_needed, x.ignore)) (statics-set os r have o e)

-- The loops leave that alone, and the counts of tuples.
pub record SameProgram (m m' : RuleMatcher) : Type 0 where
  pub counts : m'.predicate_count ≡ m.predicate_count
  pub statics_kept : statics m'.rules ≡ statics m.rules

module _ (m m' : RuleMatcher) (rule : ℕ) (o : RuleMatcherObj)
    (found : get_elem? m.rules rule ≡ some o) where
  pub available_step-SameProgram : available_step m rule ≡ some m' → SameProgram m m'
  unfolding available_step
  available_step-SameProgram e =
      ground (arith, statics-set m.rules rule ((o.total_have + 1) % u64_mod) o found)

  pub unavailable_step-SameProgram : unavailable_step m rule ≡ some m' → SameProgram m m'
  unfolding unavailable_step
  unavailable_step-SameProgram e =
      ground (arith, statics-set m.rules rule ((o.total_have + u64_mod - 1) % u64_mod) o found)
