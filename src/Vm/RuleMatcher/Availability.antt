-- ===== src/Vm/RuleMatcher/Availability.antt =====
-- The loops over the affected rules of one predicate.
use meldtools.Common.{
  ℕ, suc, ◌+◌, ◌-◌, ◌≤◌, ◌<◌, ◌≡◌, refl, some, if◌then◌else◌, List, [], ◌∷◌, ◌∙◌, Bool, get_elem?,
  arith,
}
use meldtools.Vm.RuleMatcher.{
  RuleMatcherObj, RuleMatcher, occurrences, gain, lose, available_step, unavailable_step,
  register_predicate_availability, register_predicate_unavailability,
}
use meldtools.Vm.RuleMatcher.Step.{
  Tracks, SameProgram, statics, statics_found, raise, lower, available_step-Tracks,
  unavailable_step-Tracks, available_step-SameProgram, unavailable_step-SameProgram,
}

pub Tracks-ext : {h k : ℕ → ℕ} {m : RuleMatcher} → ((r : ℕ) → h r ≡ k r) → Tracks h m → Tracks k m
Tracks-ext {m} e t = record {
  rows = λ r o f. ground (arith, e r, t.rows r o f);
  active_ascends = t.active_ascends;
  dropped_ascends = t.dropped_ascends;
}

SameProgram-trans : {m n o : RuleMatcher} → SameProgram m n → SameProgram n o → SameProgram m o
SameProgram-trans s t = record {
  counts = t.counts ∙ s.counts;
  statics_kept = t.statics_kept ∙ s.statics_kept;
}

-- Each rule of the list is in the table.
abbrev pub AllKnown : List ℕ → List (ℕ × Bool) → Type 0
AllKnown rules ss =
    (r : ℕ) → 0 < occurrences r rules → (n : ℕ) × (i : Bool) × (get_elem? ss r ≡ some (n, i))

-- Each rule has room for as many predicates more as it is listed.
abbrev pub HasRoom : (ℕ → ℕ) → List ℕ → List (ℕ × Bool) → Type 0
HasRoom h rules ss =
    (r n : ℕ) (i : Bool) → get_elem? ss r ≡ some (n, i) → h r + occurrences r rules ≤ n

-- Each rule has at least as many predicates as it is listed.
abbrev pub HasListed : (ℕ → ℕ) → List ℕ → List (ℕ × Bool) → Type 0
HasListed h rules ss =
    (r n : ℕ) (i : Bool) → get_elem? ss r ≡ some (n, i) → occurrences r rules ≤ h r

occurrences-head : (rule : ℕ) (rules : List ℕ) → 0 < occurrences rule (rule ∷ rules)
unfolding occurrences
occurrences-head rule rules = ground arith

AllKnown-tail :
    (rule : ℕ) (rules : List ℕ) (ss : List (ℕ × Bool))
    → AllKnown (rule ∷ rules) ss
    → AllKnown rules ss
unfolding occurrences
AllKnown-tail rule rules ss known r h = known r (ground arith)

HasRoom-tail :
    (h : ℕ → ℕ) (rule : ℕ) (rules : List ℕ) (ss : List (ℕ × Bool))
    → HasRoom h (rule ∷ rules) ss
    → HasRoom (raise rule h) rules ss
unfolding occurrences
HasRoom-tail h rule rules ss room r n i e = ground (arith, room r n i e)

HasListed-tail :
    (h : ℕ → ℕ) (rule : ℕ) (rules : List ℕ) (ss : List (ℕ × Bool))
    → HasListed h (rule ∷ rules) ss
    → HasListed (lower rule h) rules ss
unfolding occurrences
HasListed-tail h rule rules ss listed r n i e = ground (arith, listed r n i e)

available_step-total :
    (m : RuleMatcher) (rule : ℕ) (o : RuleMatcherObj)
    → get_elem? m.rules rule ≡ some o
    → (m' : RuleMatcher) × (available_step m rule ≡ some m')
unfolding available_step
available_step-total m rule o found = (if o.ignore then m else gain m rule o, rw found)

unavailable_step-total :
    (m : RuleMatcher) (rule : ℕ) (o : RuleMatcherObj)
    → get_elem? m.rules rule ≡ some o
    → (m' : RuleMatcher) × (unavailable_step m rule ≡ some m')
unfolding unavailable_step
unavailable_step-total m rule o found = (if o.ignore then m else lose m rule o, rw found)

pub available_loop :
    (rules : List ℕ) (h : ℕ → ℕ) (m : RuleMatcher)
    → Tracks h m
    → AllKnown rules (statics m.rules)
    → HasRoom h rules (statics m.rules)
    → (m' : RuleMatcher) × (register_predicate_availability m rules ≡ some m')
      × Tracks (λ r. h r + occurrences r rules) m'
      × SameProgram m m'
unfolding register_predicate_availability occurrences
available_loop [] h m t known room =
    (m, refl, Tracks-ext (λ r. omega arith) t, record { counts = refl; statics_kept = refl })
available_loop (rule ∷ rules) h m t known room =
    let (n, i, entry) = known rule (occurrences-head rule rules) in
    let (o, found, needed, _) = statics_found m.rules rule n i entry in
    let (m₁, e) = available_step-total m rule o found in
    let fits : suc (h rule) ≤ o.total_needed =
      ground (arith, room rule n i entry, occurrences-head rule rules) in
    let t₁ = available_step-Tracks h m m₁ rule o t found fits e in
    let s₁ = available_step-SameProgram m m₁ rule o found e in
    let kept = s₁.statics_kept in
    let (m', e', t', s') =
      available_loop rules (raise rule h) m₁ t₁
        (rw kept (AllKnown-tail rule rules (statics m.rules) known))
        (rw kept (HasRoom-tail h rule rules (statics m.rules) room)) in
    (m', rw e e', Tracks-ext (λ r. ground arith) t', SameProgram-trans s₁ s')

pub unavailable_loop :
    (rules : List ℕ) (h : ℕ → ℕ) (m : RuleMatcher)
    → Tracks h m
    → AllKnown rules (statics m.rules)
    → HasListed h rules (statics m.rules)
    → (m' : RuleMatcher) × (register_predicate_unavailability m rules ≡ some m')
      × Tracks (λ r. h r - occurrences r rules) m'
      × SameProgram m m'
unfolding register_predicate_unavailability occurrences
unavailable_loop [] h m t known listed =
    (m, refl, Tracks-ext (λ r. omega arith) t, record { counts = refl; statics_kept = refl })
unavailable_loop (rule ∷ rules) h m t known listed =
    let (n, i, entry) = known rule (occurrences-head rule rules) in
    let (o, found, needed, _) = statics_found m.rules rule n i entry in
    let (m₁, e) = unavailable_step-total m rule o found in
    let some_left : 0 < h rule =
      ground (arith, listed rule n i entry, occurrences-head rule rules) in
    let t₁ = unavailable_step-Tracks h m m₁ rule o t found some_left e in
    let s₁ = unavailable_step-SameProgram m m₁ rule o found e in
    let kept = s₁.statics_kept in
    let (m', e', t', s') =
      unavailable_loop rules (lower rule h) m₁ t₁
        (rw kept (AllKnown-tail rule rules (statics m.rules) known))
        (rw kept (HasListed-tail h rule rules (statics m.rules) listed)) in
    (m', rw e e', Tracks-ext (λ r. ground arith) t', SameProgram-trans s₁ s')
