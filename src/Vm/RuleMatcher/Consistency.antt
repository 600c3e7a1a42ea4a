-- ===== src/Vm/RuleMatcher/Consistency.antt =====
-- The table of the rule matcher against the counts of tuples.
use meldtools.Common.{
  ℕ, zero, suc, ◌+◌, ◌≤◌, ◌<◌, ◌≡◌, refl, Bool, true, ◌&&◌, not, ◌==◌, if◌then◌else◌, List, [], ◌∷◌,
  length, get_or, set, arith, get_or-set,
}
use meldtools.Vm.RuleMatcher.{Rule, Program, occurrences, push_each, affected_from, affected_rules}

-- The body of rule `r`.
unfoldable pub body : List Rule → ℕ → List ℕ
body [] r = []
body (x ∷ xs) zero = x.predicates
body (x ∷ xs) (suc r) = body xs r

-- How many predicates of a body have a tuple.
unfoldable pub present : List ℕ → List ℕ → ℕ
present counts [] = 0
present counts (q ∷ qs) =
    if get_or counts q 0 == 0 then present counts qs else suc (present counts qs)

occurrences-push_each :
    (qs : List ℕ) (p i r : ℕ) (rest : List ℕ)
    → occurrences r (push_each qs p i rest)
      ≡ (if r == i then occurrences p qs else 0) + occurrences r rest
unfolding occurrences push_each
occurrences-push_each [] p i r rest = ground arith
occurrences-push_each (q ∷ qs) p i r rest = ground (arith, occurrences-push_each qs p i r rest)

occurrences-affected_from_below :
    (rs : List Rule) (i p r : ℕ) → r < i → occurrences r (affected_from i rs p) ≡ 0
unfolding affected_from occurrences
occurrences-affected_from_below [] i p r h = refl
occurrences-affected_from_below (x ∷ xs) i p r h = ground (
  arith,
  occurrences-push_each x.predicates p i r (affected_from (suc i) xs p),
  occurrences-affected_from_below xs (suc i) p r,
)

occurrences-affected_from :
    (rs : List Rule) (i p r : ℕ)
    → occurrences (i + r) (affected_from i rs p) ≡ occurrences p (body rs r)
unfolding affected_from body
occurrences-affected_from [] i p r = unfold occurrences in refl
occurrences-affected_from (x ∷ xs) i p zero = ground (
  arith,
  occurrences-push_each x.predicates p i (i + 0) (affected_from (suc i) xs p),
  occurrences-affected_from_below xs (suc i) p (i + 0),
)
occurrences-affected_from (x ∷ xs) i p (suc r) =
    let next : suc i + r ≡ i + suc r = omega arith in
    ground (
      arith,
      occurrences-push_each x.predicates p i (i + suc r) (affected_from (suc i) xs p),
      next,
      occurrences-affected_from xs (suc i) p r,
    )

-- The program lists a rule under a predicate once for each time that its body names it.
pub occurrences-affected_rules :
    (prog : Program) (p r : ℕ)
    → occurrences r (affected_rules prog p) ≡ occurrences p (body prog.rules r)
unfolding affected_rules
occurrences-affected_rules prog p r =
    let next : 0 + r ≡ r = omega arith in rw next at (occurrences-affected_from prog.rules 0 p r)

module _ (counts : List ℕ) (p v : ℕ) (inside : p < length counts) where
  pub present-set_gain :
      (qs : List ℕ)
      → get_or counts p 0 ≡ 0
      → 0 < v
      → present (set counts p v) qs ≡ present counts qs + occurrences p qs
  unfolding present occurrences
  present-set_gain [] none_yet h = refl
  present-set_gain (q ∷ qs) none_yet h =
      ground (arith, get_or-set counts p q v 0 inside, present-set_gain qs none_yet h)

  pub present-set_loss :
      (qs : List ℕ)
      → 0 < get_or counts p 0
      → v ≡ 0
      → present (set counts p v) qs + occurrences p qs ≡ present counts qs
  unfolding present occurrences
  present-set_loss [] had h = refl
  present-set_loss (q ∷ qs) had h =
      ground (arith, get_or-set counts p q v 0 inside, present-set_loss qs had h)

  pub present-set_same :
      (qs : List ℕ)
      → 0 < get_or counts p 0
      → 0 < v
      → present (set counts p v) qs ≡ present counts qs
  unfolding present
  present-set_same [] had h = refl
  present-set_same (q ∷ qs) had h =
      ground (arith, get_or-set counts p q v 0 inside, present-set_same qs had h)

pub present-le :
    (counts : List ℕ) (p : ℕ) (qs : List ℕ)
    → get_or counts p 0 ≡ 0
    → present counts qs + occurrences p qs ≤ length qs
unfolding present occurrences
present-le counts p [] h = omega arith
present-le counts p (q ∷ qs) h = ground (arith, present-le counts p qs h)

pub occurrences-le-present :
    (counts : List ℕ) (p : ℕ) (qs : List ℕ)
    → 0 < get_or counts p 0
    → occurrences p qs ≤ present counts qs
unfolding present occurrences
occurrences-le-present counts p [] h = omega arith
occurrences-le-present counts p (q ∷ qs) h = ground (arith, occurrences-le-present counts p qs h)

-- All the predicates of the body have a tuple.
unfoldable pub all_present : List ℕ → List ℕ → Bool
all_present counts [] = true
all_present counts (q ∷ qs) = not (get_or counts q 0 == 0) && all_present counts qs

pub present_bound : (counts qs : List ℕ) → present counts qs ≤ length qs
unfolding present
present_bound counts [] = omega arith
present_bound counts (q ∷ qs) = ground (arith, present_bound counts qs)
