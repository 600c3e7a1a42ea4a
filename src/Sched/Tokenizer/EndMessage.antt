-- ===== src/Sched/Tokenizer/EndMessage.antt =====
-- What a machine does with the message of the end: try_fetch_end_iteration and what follows.
use meldtools.Queue.Bounded.{upper_log2}
use meldtools.Queue.Bounded.Powers.{upper_log2_total, pow_positive}
use meldtools.Common.{
  ℕ, suc, ◌+◌, ◌-◌, ◌^◌, ◌≤◌, ◌<◌, ◌≡◌, refl, true, false, some, arith, none, ◌==◌, List, ◌++◌,
}
use meldtools.Sched.Tokenizer.{
  Action, Port, busy_loop_token, do_collective_end_iteration, try_fetch_end_iteration,
  try_fetch_token_as_idler, collective_stages, find_source_collective,
}
use meldtools.Sched.Tokenizer.Collective.{
  find_source_collective_total, later_stages, max_world, small_power,
}

module _ (world_size rank : ℕ) (q : Port) where
  goes_on :
      (stage last : ℕ) (actions : List Action)
      → q.ending ≡ some stage
      → upper_log2 world_size ≡ some last
      → collective_stages world_size rank (last + 1 - (stage + 1)) (stage + 1) ≡ some actions
      → do_collective_end_iteration world_size rank (stage + 1) (record q { ending = none })
        ≡ some (record q { ending = none; actions = q.actions ++ actions })
  unfolding do_collective_end_iteration
  goes_on stage last actions e u c = rw (u, c) refl

  takes_end :
      (stage source : ℕ) (q' : Port)
      → (rank == 0) ≡ false
      → q.self.has_global_tok ≡ false
      → q.incoming ≡ none
      → q.ending ≡ some stage
      → find_source_collective world_size rank ≡ some source
      → do_collective_end_iteration world_size rank (stage + 1) (record q { ending = none })
        ≡ some q'
      → busy_loop_token world_size rank true q ≡ some (false, q')
  unfolding busy_loop_token try_fetch_token_as_idler try_fetch_end_iteration
  takes_end stage source q' other given empty ending found e =
      rw (other, given, empty, found, ending, e) refl

  -- Of at most 2 ^ 30 machines, one that is idle and has neither the token nor one on its link, and
  -- finds the message of the end with the number of its stage, takes it, does the later stages of the
  -- collective end, and ends its loop.
  pub busy_loop_token-end :
      (k : ℕ)
      → 2 ^ k ≤ rank
      → rank < 2 ^ suc k
      → rank < world_size
      → world_size ≤ max_world
      → q.self.has_global_tok ≡ false
      → q.incoming ≡ none
      → q.ending ≡ some (suc k)
      → (last : ℕ) × (actions : List Action) × (upper_log2 world_size ≡ some last)
        × (collective_stages world_size rank (last - suc k) (suc (suc k)) ≡ some actions)
        × (busy_loop_token world_size rank true q
            ≡ some (false, record q { ending = none; actions = q.actions ++ actions }))
  busy_loop_token-end k a b inside m given empty ending =
      let found = upper_log2_total world_size (omega arith) (omega arith) in
      let last = found.0 in
      let positive : 0 < rank = omega (arith, a, pow_positive k) in
      let source = find_source_collective_total world_size rank positive inside m in
      let acts =
        later_stages world_size rank (last - suc k) (suc k) b
          (omega (arith, found.3 30 m, small_power k (omega arith))) in
      let left : last + 1 - (suc k + 1) ≡ last - suc k = omega arith in
      let ahead : suc k + 1 ≡ suc (suc k) = omega arith in
      let other : (rank == 0) ≡ false = ground arith in
      let acts' : collective_stages world_size rank (last + 1 - (suc k + 1)) (suc k + 1)
          ≡ some acts.0 =
        rw (left, ahead) acts.1 in
      (
        last,
        acts.0,
        found.1,
        acts.1,
        takes_end (suc k) source.0 _ other given empty ending source.1
            (goes_on (suc k) last acts.0 ending found.1 acts'),
      )
