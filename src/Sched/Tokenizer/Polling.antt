-- ===== src/Sched/Tokenizer/Polling.antt =====
-- What busy_loop_token does at each machine, with or without a token, before the end.
use meldtools.Common.Int.{pos}
use meldtools.Queue.Bounded.{upper_log2}
use meldtools.Common.{
  ℕ, ◌+◌, ◌≡◌, refl, true, false, none, some, ltb, ◌==◌, ◌-◌, Bool, ◌&&◌, if◌then◌else◌, ◌++◌, List,
}
use meldtools.Sched.Tokenizer.{
  Action, Port, Token, busy_loop_token, find_source_collective, try_fetch_end_iteration,
  try_fetch_token_as_idler, try_fetch_token_as_worker, add_count, do_collective_end_iteration,
  is_zero, paint, send_token_as_idler, send_token_as_leader, try_fetch_token_as_leader,
  collective_stages, fetched,
}

module _ (world_size rank : ℕ) (q : Port) where
  pub worker_waits :
      q.self.has_global_tok ≡ false
      → q.incoming ≡ none
      → busy_loop_token world_size rank false q ≡ some (true, q)
  unfolding busy_loop_token try_fetch_token_as_worker
  worker_waits h l = simp (h, l)

  pub worker_fetches :
      (g : Token)
      → q.self.has_global_tok ≡ false
      → q.incoming ≡ some g
      → busy_loop_token world_size rank false q
        ≡ some (
          true,
          record q {
            incoming = none;
            self = record q.self { global_tok = g; has_global_tok = true };
          },
        )
  unfolding busy_loop_token try_fetch_token_as_worker
  worker_fetches g h l = rw (h, l) refl

  pub worker_holds :
      q.self.has_global_tok ≡ true → busy_loop_token world_size rank false q ≡ some (true, q)
  unfolding busy_loop_token
  worker_holds h = rw h refl

  pub idler_waits :
      (s : ℕ)
      → (rank == 0) ≡ false
      → find_source_collective world_size rank ≡ some s
      → q.self.has_global_tok ≡ false
      → q.incoming ≡ none
      → q.ending ≡ none
      → busy_loop_token world_size rank true q ≡ some (true, q)
  unfolding busy_loop_token try_fetch_token_as_idler try_fetch_end_iteration
  idler_waits s k found h l e = simp (k, h, l, found, e)

  abbrev pub blackened : Token
  blackened = paint false (add_count q.self.tok.count q.self.global_tok)

  pub idler_holds :
      (rank == 0) ≡ false
      → q.self.has_global_tok ≡ true
      → busy_loop_token world_size rank true q
        ≡ some (
          true,
          record q {
            self = record q.self { global_tok = blackened; has_global_tok = false };
            outgoing = some blackened;
          },
        )
  unfolding busy_loop_token send_token_as_idler
  idler_holds k h = simp (k, h)

  abbrev pub carried : Token → Token
  carried g =
      if q.self.tok.white
      then add_count q.self.tok.count g
      else paint false (add_count q.self.tok.count g)

  pub idler_passes :
      (g : Token)
      → (rank == 0) ≡ false
      → q.self.has_global_tok ≡ false
      → q.incoming ≡ some g
      → busy_loop_token world_size rank true q
        ≡ some (
          true,
          record q {
            incoming = none;
            outgoing = some (carried g);
            self = record {
              tok = paint true q.self.tok;
              has_global_tok = false;
              global_tok = carried g;
            };
          },
        )
  unfolding busy_loop_token try_fetch_token_as_idler
  idler_passes g k h l = simp (k, h, l)

module _ (world_size : ℕ) (q : Port) where
  pub leader_waits :
      q.self.has_global_tok ≡ false
      → q.incoming ≡ none
      → busy_loop_token world_size 0 true q ≡ some (true, q)
  unfolding busy_loop_token try_fetch_token_as_leader
  leader_waits h l = simp (h, l)

  abbrev pub fresh : Token
  fresh = record { white = true; count = pos 0 }

  -- A new round begins.
  abbrev pub sent_out : Port
  sent_out = record q {
    self = record { tok = paint true q.self.tok; global_tok = fresh; has_global_tok = false };
    outgoing = some fresh;
  }

  pub leader_sends :
      ltb 1 world_size ≡ true
      → q.self.has_global_tok ≡ true
      → busy_loop_token world_size 0 true q ≡ some (true, sent_out)
  unfolding busy_loop_token send_token_as_leader
  leader_sends w h = simp (w, h)

  -- What the leader asks of the token that has come round.
  abbrev pub test : Token → Bool
  test g = let t = add_count q.self.tok.count g in t.white && is_zero t && q.self.tok.white

  pub leader_resends :
      (g : Token)
      → q.self.has_global_tok ≡ false
      → q.incoming ≡ some g
      → test g ≡ false
      → busy_loop_token world_size 0 true q ≡ some (true, record sent_out { incoming = none })
  unfolding busy_loop_token try_fetch_token_as_leader send_token_as_leader
  leader_resends g h l t = simp (h, l, t)

  -- The end of the iteration is found.
  abbrev pub ended : Token → List Action → Port
  ended g done = record q {
    self = fetched world_size 0 g q.self;
    incoming = none;
    actions = q.actions ++ done;
  }

  pub leader_ends :
      (g : Token) (last : ℕ) (done : List Action)
      → upper_log2 world_size ≡ some last
      → collective_stages world_size 0 (last + 1 - 1) 1 ≡ some done
      → q.self.has_global_tok ≡ false
      → q.incoming ≡ some g
      → test g ≡ true
      → busy_loop_token world_size 0 true q ≡ some (false, ended g done)
  unfolding busy_loop_token try_fetch_token_as_leader do_collective_end_iteration
  leader_ends g last done u c h l t = simp (h, l, t, u, c)
