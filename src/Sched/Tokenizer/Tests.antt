-- ===== src/Sched/Tokenizer/Tests.antt =====
-- An iteration of two machines: the leader sends one message and both finish.
use meldtools.Common.Int.{◌+ℤ◌, ◌-ℤ◌}
use meldtools.Queue.Bounded.{upper_log2}
use meldtools.Sched.Tokenizer.Ring.{
  CountsFit, IsSmall, Reached, started, stepped, transmit, receive, finish, poll_token, start, Ring,
  poll, polled, port,
}
use meldtools.Common.{
  ℕ, zero, ◌≤◌, ◌+◌, ◌-◌, ◌≡◌, refl, ◌⊎◌, Bool, true, false, Option, none, List, some, arith, suc,
  ◌<◌, [], ◌∷◌,
}
use meldtools.Sched.Tokenizer.Safety.{IsOver}
use meldtools.Sched.Tokenizer.{
  Action, Port, Token, collective_stages, init, add_count, busy_loop_token, find_source,
  find_source_collective, int_power, left_remote_id, messages_received, messages_transmitted,
  received, send_token_as_leader, try_fetch_token_as_idler, try_fetch_token_as_leader,
  collective_stage, receive_end_iteration, send_end_iteration,
}
use meldtools.Sched.Tokenizer.Ending.{busy_loop_token_lem}
use meldtools.Sched.Tokenizer.Sums.{sum, update}
use meldtools.Sched.Tokenizer.Rounds.{Polls}
use meldtools.Sched.Tokenizer.Liveness.{spread, busy_loop_token-ends}
use meldtools.Sched.Tokenizer.Collective.{collective_stage_lem}
use meldtools.Sched.Tokenizer.EndMessage.{busy_loop_token-end}

abbrev both_work : Ring
both_work = start (λ _. true)

abbrev sent_one : Ring
sent_one = record both_work {
  tokenizers = update 0 (messages_transmitted 1 (both_work.tokenizers 0)) both_work.tokenizers;
  inbox = update 1 (both_work.inbox 1 + 1) both_work.inbox;
}

abbrev got_one : Ring
got_one = record sent_one {
  tokenizers = update 1 (messages_received 1 (sent_one.tokenizers 1)) sent_one.tokenizers;
  inbox = update 1 (sent_one.inbox 1 - 1) sent_one.inbox;
  active = update 1 true sent_one.active;
}

abbrev one_rests : Ring
one_rests = record got_one { active = update 0 false got_one.active }

abbrev both_rest : Ring
both_rest = record one_rests { active = update 1 false one_rests.active }

below_two : (P : ℕ → Type 0) → P 0 → P 1 → (p : ℕ) → p ≤ 1 → P p
below_two P a b zero le = a
below_two P a b (suc zero) le = b
below_two P a b (suc (suc p)) le = absurd (omega arith)

-- The counts of two machines fit, where those of both do and the links have tokens with small ones.
both_fit :
    (r : Ring)
    → IsSmall (r.tokenizers 0).tok.count
    → IsSmall (r.tokenizers 1).tok.count
    → IsSmall (r.tokenizers 0).global_tok.count
    → IsSmall (r.tokenizers 1).global_tok.count
    → ((t : Token) → r.link 0 ≡ some t → IsSmall t.count)
    → ((t : Token) → r.link 1 ≡ some t → IsSmall t.count)
    → CountsFit 1 r
both_fit r a b c d e f = record {
  counts = below_two (λ p. IsSmall (r.tokenizers p).tok.count) a b;
  held = below_two (λ p. IsSmall (r.tokenizers p).global_tok.count) c d;
  passed = below_two (λ p. (t : Token) → r.link p ≡ some t → IsSmall t.count) e f;
}

rest-Reached : Reached 1 both_rest
unfolding messages_transmitted messages_received add_count received ◌+ℤ◌ ◌-ℤ◌
rest-Reached =
    stepped
      (stepped
        (stepped
          (stepped (started (λ _. true)) (transmit both_work 0 1 1 (omega arith) (omega arith) refl)
            (both_fit sent_one (omega arith) (omega arith) (omega arith) (omega arith) (λ t e. cc)
              (λ t e. cc)))
          (receive sent_one 1 1 (omega arith) (ground arith) (omega arith))
          (both_fit got_one (omega arith) (omega arith) (omega arith) (omega arith) (λ t e. cc)
            (λ t e. cc)))
        (finish got_one 0 (omega arith))
        (both_fit one_rests (omega arith) (omega arith) (omega arith) (omega arith) (λ t e. cc)
          (λ t e. cc)))
      (finish one_rests 1 (omega arith))
      (both_fit both_rest (omega arith) (omega arith) (omega arith) (omega arith) (λ t e. cc)
        (λ t e. cc))

-- A turn of a machine, if it goes on.
abbrev after : Option (Bool × Port) → Port → Port
after (some (true, q)) p = q
after _ p = p

abbrev one_turn : Ring → ℕ → Ring
one_turn r p = polled 1 r p (after (poll 1 r p) (port r p))

abbrev first_round : Ring
first_round = one_turn (one_turn both_rest 0) 1

abbrev second_round : Ring
second_round = one_turn (one_turn first_round 0) 1

second-Reached : Reached 1 second_round
unfolding busy_loop_token send_token_as_leader try_fetch_token_as_idler try_fetch_token_as_leader
    left_remote_id add_count messages_transmitted messages_received received ◌+ℤ◌ ◌-ℤ◌
second-Reached =
    stepped
      (stepped
        (stepped
          (stepped rest-Reached (poll_token both_rest 0 _ (omega arith) refl) (
            both_fit (one_turn both_rest 0) (omega arith) (omega arith) (omega arith) (omega arith)
              (λ t e. cc) (λ t e. ground arith)))
          (poll_token (one_turn both_rest 0) 1 _ (omega arith) refl)
          (both_fit first_round (omega arith) (omega arith) (omega arith) (omega arith)
            (λ t e. ground arith) (λ t e. cc)))
        (poll_token first_round 0 _ (omega arith) refl)
        (both_fit (one_turn first_round 0) (omega arith) (omega arith) (omega arith) (omega arith)
          (λ t e. cc) (λ t e. ground arith)))
      (poll_token (one_turn first_round 0) 1 _ (omega arith) refl)
      (both_fit second_round (omega arith) (omega arith) (omega arith) (omega arith)
        (λ t e. ground arith) (λ t e. cc))

busy_loop_token_lem_example :
    ((q : Port) × (poll 1 second_round 0 ≡ some (true, q)))
    ⊎ ((q : Port) × (poll 1 second_round 0 ≡ some (false, q)) × IsOver 1 second_round)
busy_loop_token_lem_example =
    busy_loop_token_lem 1 (omega arith) (omega arith) second_round 0 second-Reached (omega arith)

both_rest-IsOver : IsOver 1 both_rest
both_rest-IsOver i l = ground arith

few : spread 1 (omega arith) (omega arith) both_rest < 1073741824
unfolding messages_transmitted messages_received add_count received ◌+ℤ◌ ◌-ℤ◌ sum
few = omega arith

busy_loop_token-ends_example :
    (r' : Ring) × Polls 1 both_rest r' × ((q : Port) × (poll 1 r' 0 ≡ some (false, q)))
busy_loop_token-ends_example =
    busy_loop_token-ends 1 (omega arith) (omega arith) both_rest rest-Reached few both_rest-IsOver

leaders_share : find_source_collective 6 5 ≡ some 1
unfolding find_source_collective find_source int_power upper_log2
leaders_share = refl

collective_stage_lem_example :
    (last : ℕ) × (k : ℕ) × (source : ℕ) × (upper_log2 6 ≡ some last)
    × (k < last)
    × (find_source_collective 6 5 ≡ some source)
    × (collective_stage 6 5 (suc k) ≡ some (receive_end_iteration source ∷ []))
    × (collective_stage 6 source (suc k) ≡ some (send_end_iteration (suc k) 5 ∷ []))
    × ((j : ℕ) → j < k → collective_stage 6 5 (suc j) ≡ some [])
collective_stage_lem_example = collective_stage_lem 6 5 (omega arith) (omega arith) (omega arith)

abbrev told_to_end : Port
told_to_end = record {
  self = init 5;
  incoming = none;
  outgoing = none;
  ending = some 3;
  actions = [];
}

busy_loop_token-end_example :
    (last : ℕ) × (actions : List Action) × (upper_log2 6 ≡ some last)
    × (collective_stages 6 5 (last - 3) 4 ≡ some actions)
    × (busy_loop_token 6 5 true told_to_end
        ≡ some (false, record told_to_end { ending = none; actions = actions }))
busy_loop_token-end_example =
    busy_loop_token-end 6 5 told_to_end 2 (omega arith) (omega arith) (omega arith) (omega arith)
      refl refl refl
