-- ===== src/Sched/Tokenizer/Collective.antt =====
-- The messages of the end of an iteration: a tree of machines, one level for each stage.
use meldtools.Queue.Bounded.{upper_log2}
use meldtools.Queue.Bounded.Powers.{upper_log2_total, pow_lt, pow_twice}
use meldtools.Common.{
  ℕ, zero, suc, ◌+◌, ◌-◌, ◌^◌, ◌≤◌, ◌<◌, ◌≡◌, refl, ap, ◌∙◌, inl, inr, true, false, some, [], ◌∷◌,
  arith, ltb, Bool-cases, List, ◌++◌, if◌then◌else◌,
}
use meldtools.Sched.Tokenizer.{
  Action, collective_stage, collective_stages, int_power, find_source, find_source_collective,
  receive_end_iteration, send_end_iteration,
}

-- The most machines whose ranks and powers an `int` holds.
abbrev pub max_world : ℕ
max_world = 1073741824

pub power_le : (j k : ℕ) → j ≤ k → 2 ^ j ≤ 2 ^ k
power_le j k l = elim (Bool-cases (ltb j k)) [
  | inl b ↦ omega (arith, pow_lt j k (ground arith))
  | inr b ↦ let e : j ≡ k = ground arith in omega (arith, ap (λ i. 2 ^ i) e)
]

pub small_power : (k : ℕ) → 2 ^ k < max_world → k < 30
small_power k small = elim (Bool-cases (ltb k 30)) [
  | inl b ↦ ground arith
  | inr b ↦ absurd (omega (arith, power_le 30 k (ground arith)))
]

pub int_power_lem : (k : ℕ) → k < 31 → int_power k ≡ some (2 ^ k)
unfolding int_power
int_power_lem k h = ground arith

module _ (world_size rank : ℕ) where
  find_later :
      (left s source : ℕ)
      → ltb rank (2 ^ s) ≡ false
      → ltb rank (2 ^ suc s) ≡ false
      → suc s < 31
      → find_source world_size rank left (suc (suc s)) ≡ some source
      → find_source world_size rank (suc left) (suc s) ≡ some source
  unfolding find_source
  find_later left s source above l fits e =
      let back : suc s - 1 ≡ s = omega arith in
      let ahead : suc s + 1 ≡ suc (suc s) = omega arith in
      rw (back, ahead, int_power_lem s (omega arith), above, int_power_lem (suc s) fits, l) e

  -- From a stage on, the highest power of two in the rank names the source.
  find_source_total :
      (left s : ℕ)
      → 2 ^ s ≤ rank
      → rank < max_world
      → rank < 2 ^ (s + left)
      → (k : ℕ) × (k < s + left)
        × (2 ^ k ≤ rank)
        × (rank < 2 ^ suc k)
        × (find_source world_size rank left (suc s) ≡ some (rank - 2 ^ k))
  unfolding find_source
  find_source_total zero s a m b =
      let e : s + 0 ≡ s = omega arith in absurd (omega (arith, ap (λ k. 2 ^ k) e))
  find_source_total (suc left) s a m b =
      let fits = small_power s (omega arith) in
      let above : ltb rank (2 ^ s) ≡ false = ground arith in
      let back : suc s - 1 ≡ s = omega arith in
      elim (Bool-cases (ltb rank (2 ^ suc s))) [
        | inl l ↦ (
          s,
          omega arith,
          a,
          ground arith,
          rw (back, int_power_lem s (omega arith), above, int_power_lem (suc s) (omega arith), l)
              refl,
        )
        | inr l ↦
            let e : s + suc left ≡ suc s + left = omega arith in
            let more =
              find_source_total left (suc s) (ground arith) m (omega (arith, ap (λ k. 2 ^ k) e)) in
            (
              more.0,
              omega (arith, more.1),
              more.2,
              more.3,
              find_later left s (rank - 2 ^ more.0) above l (omega arith) more.4,
            )
      ]

  -- The stage of a machine that is not the leader.
  stage_total :
      0 < rank
      → rank < world_size
      → world_size ≤ max_world
      → (last : ℕ) × (k : ℕ) × (upper_log2 world_size ≡ some last)
        × (k < last)
        × (2 ^ k ≤ rank)
        × (rank < 2 ^ suc k)
        × (find_source_collective world_size rank ≡ some (rank - 2 ^ k))
  unfolding find_source_collective
  stage_total a b m =
      let last = upper_log2_total world_size (omega arith) (omega arith) in
      let e : 0 + last.0 ≡ last.0 = omega arith in
      let found =
        find_source_total last.0 0 (omega arith) (omega arith)
          (omega (arith, last.2, ap (λ k. 2 ^ k) e)) in
      (last.0, found.0, last.1, omega (arith, found.1), found.2, found.3, rw last.1 found.4)

  -- Every machine but the leader has a source in the tree of the end of an iteration.
  pub find_source_collective_total :
      0 < rank
      → rank < world_size
      → world_size ≤ max_world
      → (source : ℕ) × (find_source_collective world_size rank ≡ some source)
  find_source_collective_total a b m = let t = stage_total a b m in (_, t.6)

module _ (world_size : ℕ) where
  -- What a machine does in a stage whose power is above its rank.
  abbrev told : ℕ → ℕ → List Action
  told rank stage =
      if ltb (rank + 2 ^ stage) world_size
      then send_end_iteration (suc stage) (rank + 2 ^ stage) ∷ []
      else []

  told_next :
      (rank left stage : ℕ) (later : List Action)
      → rank < 2 ^ stage
      → stage < 31
      → collective_stages world_size rank left (suc (suc stage)) ≡ some later
      → collective_stages world_size rank (suc left) (suc stage) ≡ some (told rank stage ++ later)
  unfolding collective_stages collective_stage
  told_next rank left stage later below fits e =
      let back : suc stage - 1 ≡ stage = omega arith in
      let ahead : suc stage + 1 ≡ suc (suc stage) = omega arith in
      let low : ltb rank (2 ^ stage) ≡ true = ground arith in
      rw (back, ahead, int_power_lem stage fits, low, e) refl

  -- The stages from one on whose power is above the rank.
  pub later_stages :
      (rank left stage : ℕ)
      → rank < 2 ^ stage
      → stage + left ≤ 31
      → (actions : List Action) × (collective_stages world_size rank left (suc stage)
          ≡ some actions)
  unfolding collective_stages
  later_stages rank zero stage below fits = ([], refl)
  later_stages rank (suc left) stage below fits =
      let more =
        later_stages rank left (suc stage) (omega (arith, pow_twice stage)) (omega arith) in
      (told rank stage ++ more.0, told_next rank left stage more.0 below (omega arith) more.1)

  pub leader_stages_total :
      (last : ℕ)
      → upper_log2 world_size ≡ some last
      → 0 < world_size
      → world_size ≤ max_world
      → (actions : List Action) × (collective_stages world_size 0 (last + 1 - 1) 1 ≡ some actions)
  leader_stages_total last e a m =
      let found = upper_log2_total world_size a (omega arith) in
      let same : last ≡ found.0 = cc (e, found.1) in
      let whole : last + 1 - 1 ≡ last = omega arith in
      rw whole (later_stages 0 last 0 (omega arith) (omega (arith, same, found.3 30 m)))

  receives :
      (rank k : ℕ)
      → 2 ^ k ≤ rank
      → rank < 2 ^ suc k
      → k < 30
      → collective_stage world_size rank (suc k) ≡ some (receive_end_iteration (rank - 2 ^ k) ∷ [])
  unfolding collective_stage
  receives rank k a b small =
      let back : suc k - 1 ≡ k = omega arith in
      let above : ltb rank (2 ^ k) ≡ false = ground arith in
      let below : ltb rank (2 ^ suc k) ≡ true = ground arith in
      rw (back, int_power_lem k (omega arith), above, int_power_lem (suc k) (omega arith), below)
        refl

  sends :
      (rank k : ℕ)
      → rank < 2 ^ k
      → rank + 2 ^ k < world_size
      → k < 30
      → collective_stage world_size rank (suc k)
        ≡ some (send_end_iteration (suc k) (rank + 2 ^ k) ∷ [])
  unfolding collective_stage
  sends rank k a b small =
      let back : suc k - 1 ≡ k = omega arith in
      let low : ltb rank (2 ^ k) ≡ true = ground arith in
      let inside : ltb (rank + 2 ^ k) world_size ≡ true = ground arith in
      rw (back, int_power_lem k (omega arith), low, inside) refl

  rests :
      (rank j : ℕ)
      → 2 ^ suc j ≤ rank
      → suc j < 30
      → collective_stage world_size rank (suc j) ≡ some []
  unfolding collective_stage
  rests rank j a small =
      let back : suc j - 1 ≡ j = omega arith in
      let above : ltb rank (2 ^ j) ≡ false = ground (arith, power_le j (suc j) (omega arith)) in
      let above' : ltb rank (2 ^ suc j) ≡ false = ground arith in
      rw (back, int_power_lem j (omega arith), above, int_power_lem (suc j) (omega arith), above')
        refl

  -- Of at most 2 ^ 30 machines, every one but the leader has a stage of the collective end, not
  -- beyond the last: there it waits for the machine that find_source_collective names, which sends it
  -- the number of this stage there, and in the stages before it does nothing.
  pub collective_stage_lem :
      (rank : ℕ)
      → 0 < rank
      → rank < world_size
      → world_size ≤ max_world
      → (last : ℕ) × (k : ℕ) × (source : ℕ) × (upper_log2 world_size ≡ some last)
        × (k < last)
        × (find_source_collective world_size rank ≡ some source)
        × (collective_stage world_size rank (suc k) ≡ some (receive_end_iteration source ∷ []))
        × (collective_stage world_size source (suc k) ≡ some (send_end_iteration (suc k) rank ∷ []))
        × ((j : ℕ) → j < k → collective_stage world_size rank (suc j) ≡ some [])
  collective_stage_lem rank a b m =
      let t = stage_total world_size rank a b m in
      let k = t.1 in
      let small = small_power k (omega (arith, t.4)) in
      let whole : rank - 2 ^ k + 2 ^ k ≡ rank = omega (arith, t.4) in
      let low : rank - 2 ^ k < 2 ^ k = omega (arith, t.4, t.5, pow_twice k) in
      (
        t.0,
        k,
        rank - 2 ^ k,
        t.2,
        t.3,
        t.6,
        receives rank k t.4 t.5 small,
        sends (rank - 2 ^ k) k low (omega (arith, whole)) small
            ∙ ap (λ i. some (send_end_iteration (suc k) i ∷ [])) whole,
        λ j l. rests rank j (omega (arith, t.4, power_le (suc j) k (omega arith))) (omega arith),
      )
