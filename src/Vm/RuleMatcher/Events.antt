-- ===== src/Vm/RuleMatcher/Events.antt =====
-- Tuples come and go: `register_tuple` and `deregister_tuple` on a consistent matcher.
use meldtools.Common.{
  ℕ, zero, suc, ◌<◌, ◌≡◌, refl, Bool, some, List, [], ◌∷◌, length, get_elem?, get_or, arith,
  u64_mod, ◌+◌, ◌∙◌, ◌⊎◌, true, Option, ◌==◌, set, length-set, get_elem?_total, get_or-get_elem?,
  u16_mod, ◌%◌, sym, inl, inr, Bool-cases, ◌-◌, ◌≤◌, false, ◌&&◌,
}
use meldtools.Vm.RuleMatcher.{
  Rule, Program, RuleMatcher, occurrences, affected_rules, new_objs, register_tuple, set_count,
  register_predicate_availability, register_predicate_unavailability, deregister_tuple, short_leb,
}
use meldtools.Vm.RuleMatcher.Step.{Tracks, statics, SameProgram}
use meldtools.Vm.RuleMatcher.Availability.{
  AllKnown, HasRoom, HasListed, Tracks-ext, available_loop, unavailable_loop,
}
use meldtools.Vm.RuleMatcher.Consistency.{
  body, present, occurrences-affected_rules, present-le, occurrences-le-present, present-set_gain,
  present-set_loss, present-set_same,
}

-- No rule names more predicates than a `size_t` counts.
abbrev pub IsNarrow : Program → Type 0
IsNarrow prog = (r : ℕ) → length (body prog.rules r) < u64_mod

pub record IsConsistent (prog : Program) (m : RuleMatcher) : Type 0 where
  pub width : length m.predicate_count ≡ prog.num_predicates
  pub program : statics m.rules ≡ statics (new_objs prog.rules)
  pub tracks : Tracks (λ r. present m.predicate_count (body prog.rules r)) m

statics-new_objs :
    (rs : List Rule) (r n : ℕ) (i : Bool)
    → get_elem? (statics (new_objs rs)) r ≡ some (n, i)
    → n ≡ length (body rs r)
unfolding statics new_objs body
statics-new_objs [] r n i e = absurd (ground arith)
statics-new_objs (x ∷ rs) zero n i e = ground arith
statics-new_objs (x ∷ rs) (suc r) n i e = statics-new_objs rs r n i e

statics-new_objs_known :
    (rs : List Rule) (r p : ℕ)
    → 0 < occurrences p (body rs r)
    → (n : ℕ) × (i : Bool) × (get_elem? (statics (new_objs rs)) r ≡ some (n, i))
unfolding statics new_objs body occurrences
statics-new_objs_known [] r p h = absurd (omega arith)
statics-new_objs_known (x ∷ rs) zero p h = (length x.predicates, x.is_persistent, refl)
statics-new_objs_known (x ∷ rs) (suc r) p h = statics-new_objs_known rs r p h

module _ (prog : Program) (m : RuleMatcher) (id : ℕ) (c : IsConsistent prog m) where
  affected-AllKnown : AllKnown (affected_rules prog id) (statics m.rules)
  affected-AllKnown =
      rw c.program λ r h.
        statics-new_objs_known prog.rules r id (rw (occurrences-affected_rules prog id r) at h)

  affected-HasRoom :
      get_or m.predicate_count id 0 ≡ 0
      → HasRoom
          (λ r. present m.predicate_count (body prog.rules r))
          (affected_rules prog id)
          (statics m.rules)
  affected-HasRoom none_yet = rw c.program λ r n i e. ground (
    arith,
    statics-new_objs prog.rules r n i e,
    occurrences-affected_rules prog id r,
    present-le m.predicate_count id (body prog.rules r) none_yet,
  )

  affected-HasListed :
      0 < get_or m.predicate_count id 0
      → HasListed
          (λ r. present m.predicate_count (body prog.rules r))
          (affected_rules prog id)
          (statics m.rules)
  affected-HasListed had r n i e = ground (
    arith,
    occurrences-affected_rules prog id r,
    occurrences-le-present m.predicate_count id (body prog.rules r) had,
  )

  settle :
      (m' : RuleMatcher) (n : ℕ) (h : ℕ → ℕ)
      → SameProgram m m'
      → Tracks h m'
      → ((r : ℕ) → h r ≡ present (set m.predicate_count id n) (body prog.rules r))
      → IsConsistent prog (set_count m' id n)
  unfolding set_count
  settle m' n h same t e =
      let t' = Tracks-ext e t in
      record {
        width = rw same.counts (length-set m.predicate_count id n ∙ c.width);
        program = same.statics_kept ∙ c.program;
        tracks = rw same.counts (record {
          rows = t'.rows;
          active_ascends = t'.active_ascends;
          dropped_ascends = t'.dropped_ascends;
        });
      }

-- What an event did: it ended, the matcher is consistent, the predicate has `n` tuples, the counts
-- of the others are as before, and the flag of the result is `flag`.
pub record Settled (prog : Program) (m : RuleMatcher) (id n : ℕ) (flag : Bool)
    (r : Option (RuleMatcher × Bool)) : Type 0 where
  pub after : RuleMatcher
  pub ended : r ≡ some (after, flag)
  pub consistent : IsConsistent prog after
  pub counted : after.predicate_count ≡ set m.predicate_count id n

module _ (prog : Program) (m : RuleMatcher) (id : ℕ) (c : IsConsistent prog m)
    (inside : id < prog.num_predicates) where
  first_tuples :
      (n : ℕ)
      → get_or m.predicate_count id 0 ≡ 0
      → 0 < n
      → (m' : RuleMatcher) × (register_predicate_availability m (affected_rules prog id) ≡ some m')
        × IsConsistent prog (set_count m' id n)
        × (m'.predicate_count ≡ m.predicate_count)
  first_tuples n none_yet some_more =
      let (m', e, t, s) =
        available_loop (affected_rules prog id) _ m c.tracks (affected-AllKnown prog m id c)
          (affected-HasRoom prog m id c none_yet) in
      let agree : (r : ℕ)
          → present m.predicate_count (body prog.rules r) + occurrences r (affected_rules prog id)
            ≡ present (set m.predicate_count id n) (body prog.rules r) =
        λ r. ground (
          arith,
          occurrences-affected_rules prog id r,
          present-set_gain m.predicate_count id n (omega (arith, c.width)) (body prog.rules r)
              none_yet some_more,
        ) in
      (m', e, settle prog m id c m' n _ s t agree, s.counts)

  last_tuples :
      0 < get_or m.predicate_count id 0
      → (m' : RuleMatcher) × (register_predicate_unavailability m (affected_rules prog id)
          ≡ some m')
        × IsConsistent prog (set_count m' id 0)
        × (m'.predicate_count ≡ m.predicate_count)
  last_tuples had =
      let (m', e, t, s) =
        unavailable_loop (affected_rules prog id) _ m c.tracks (affected-AllKnown prog m id c)
          (affected-HasListed prog m id c had) in
      let agree : (r : ℕ)
          → present m.predicate_count (body prog.rules r) - occurrences r (affected_rules prog id)
            ≡ present (set m.predicate_count id 0) (body prog.rules r) =
        λ r. ground (
          arith,
          occurrences-affected_rules prog id r,
          present-set_loss m.predicate_count id 0 (omega (arith, c.width)) (body prog.rules r) had
              refl,
        ) in
      (m', e, settle prog m id c m' 0 _ s t agree, s.counts)

  other_tuples :
      (n : ℕ) → 0 < get_or m.predicate_count id 0 → 0 < n → IsConsistent prog (set_count m id n)
  other_tuples n had left =
      settle prog m id c m n _ (record { counts = refl; statics_kept = refl }) c.tracks
        λ r. sym (
          present-set_same m.predicate_count id n (omega (arith, c.width)) (body prog.rules r) had
            left)

  -- Tuples of a predicate that has some already, or that are new, are counted, and the matcher
  -- stays consistent: no access is outside a vector.
  pub register_tuple-consistent :
      (count : ℕ) (is_new : Bool)
      → 0 < count
      → get_or m.predicate_count id 0 + count < u16_mod
      → (is_new ≡ true) ⊎ (0 < get_or m.predicate_count id 0)
      → Settled prog m id
          (get_or m.predicate_count id 0 + count)
          (get_or m.predicate_count id 0 == 0)
          (register_tuple prog m id count is_new)
  unfolding register_tuple set_count
  register_tuple-consistent count is_new some_more fits fresh =
      let within : id < length m.predicate_count = omega (arith, c.width) in
      let (have, e) = get_elem?_total m.predicate_count id within in
      let at = get_or-get_elem? m.predicate_count id 0 e in
      elim (Bool-cases (have == 0)) [
        | inl z ↦
            let none_yet : get_or m.predicate_count id 0 ≡ 0 = ground arith in
            let now : is_new ≡ true = ground arith in
            let (m', loop, done, same) = first_tuples (have + count) none_yet (omega arith) in
            let word : (have + count) % u16_mod ≡ have + count = omega arith in
            rw (at, z)
              (record {
                after = set_count m' id (have + count);
                ended = rw (e, now, z, loop, word);
                consistent = done;
                counted = rw same;
              })
        | inr z ↦
            let had : 0 < get_or m.predicate_count id 0 = ground arith in
            let word : (have + count) % u16_mod ≡ have + count = omega arith in
            let stays : (is_new && have == 0) ≡ false = ground arith in
            rw (at, z)
              (record {
                after = set_count m id (have + count);
                ended = rw (e, stays, word);
                consistent = other_tuples (have + count) had (omega arith);
                counted = refl;
              })
      ]

  -- Removing tuples that are counted uncounts them, and the matcher stays consistent: the assertion
  -- holds and no access is outside a vector. The flag says that none are left.
  pub deregister_tuple-consistent :
      (count : ℕ)
      → 0 < count
      → count ≤ get_or m.predicate_count id 0
      → get_or m.predicate_count id 0 < 32768
      → Settled prog m id
          (get_or m.predicate_count id 0 - count)
          (get_or m.predicate_count id 0 == count)
          (deregister_tuple prog m id count)
  unfolding deregister_tuple
  deregister_tuple-consistent count some_fewer counted positive =
      let within : id < length m.predicate_count = omega (arith, c.width) in
      let (have, e) = get_elem?_total m.predicate_count id within in
      let at = get_or-get_elem? m.predicate_count id 0 e in
      let had : 0 < get_or m.predicate_count id 0 = omega arith in
      let word : (have + u16_mod - count) % u16_mod ≡ have - count = omega arith in
      let asserted : short_leb count have ≡ true = ground arith in
      elim (Bool-cases (have == count)) [
        | inl z ↦
            let (m', loop, done, same) = last_tuples had in
            let none_left : have - count ≡ 0 = ground arith in
            rw (at, z, none_left)
              (record {
                after = set_count m' id 0;
                ended = rw (e, asserted, z, loop, word, none_left);
                consistent = done;
                counted = rw same;
              })
        | inr z ↦
            rw (at, z)
              (record {
                after = set_count m id (have - count);
                ended = rw (e, asserted, z, word);
                consistent = other_tuples (have - count) had (ground arith);
                counted = refl;
              })
      ]
