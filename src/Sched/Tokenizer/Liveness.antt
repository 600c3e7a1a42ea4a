-- ===== src/Sched/Tokenizer/Liveness.antt =====
-- Once an iteration is over, the tokenizers find it.
use meldtools.Sched.Tokenizer.Collective.{max_world}
use meldtools.Common.Int.{neg_part, pos_part}
use meldtools.Sched.Tokenizer.Sums.{sum}
use meldtools.Common.{ℕ, zero, suc, ◌+◌, ◌≤◌, ◌<◌, ◌≡◌, refl, inl, inr, false, not, some, arith}
use meldtools.Sched.Tokenizer.Rounds.{
  Found, IsRound, Polls, Polls-append, IsClean-Found, Found-later, none_yet, one_more, restart,
  sent-IsRound, to_leader,
}
use meldtools.Sched.Tokenizer.Promises.{IsBalanced}
use meldtools.Sched.Tokenizer.Place.{IsLocated, holding, waiting}
use meldtools.Sched.Tokenizer.Safety.{IsOver, left-leader, left-other}
use meldtools.Sched.Tokenizer.{Port, Token, Tokenizer, busy_loop_token}
use meldtools.Sched.Tokenizer.Ring.{Reached, Ring, polled, port}
use meldtools.Sched.Tokenizer.Ending.{Reached-IsSound}
use meldtools.Sched.Tokenizer.Polling.{blackened, fresh, idler_holds, leader_sends, sent_out}

module _ (n : ℕ) (several : 0 < n) (room : suc n ≤ max_world) where
  IsRound-Found : (r : Ring) (t : ℕ) (g : Token) → IsRound n r t g → Found n several room r
  IsRound-Found r t g round =
      let a = to_leader n several room r t g round in
      elim (restart n several room a.0 a.1 a.3) [
        | inl found ↦ Found-later n several room a.2 found
        | inr (r1, g1, polls1, round1, clean1) ↦
            let b = to_leader n several room r1 n g1 round1 in
            let on_way = Polls-append n a.2 (Polls-append n polls1 b.2) in
            elim (restart n several room b.0 b.1 b.3) [
              | inl found ↦ Found-later n several room on_way found
              | inr (r2, g2, polls2, round2, clean2) ↦
                  let c = to_leader n several room r2 n g2 round2 in
                  let clean = c.5 (clean2 (b.4 (λ i l m. absurd (omega arith)))) in
                  Found-later n several room (Polls-append n on_way (Polls-append n polls2 c.2))
                    (IsClean-Found n several room c.0 c.1 c.3 clean)
            ]
      ]

  IsLocated-Found :
      (r : Ring) → IsBalanced n r → IsOver n r → IsLocated n r → Found n several room r
  IsLocated-Found r balanced over (waiting t g l here links holders promise) =
      IsRound-Found r t g (balanced, over, l, here, links, holders)
  IsLocated-Found r balanced over (holding zero le links here others promise) =
      let q = sent_out (suc n) (port r 0) in
      let rests = (over 0 le).0 in
      Found-later n several room
        (one_more 0 q none_yet le (rw rests (leader_sends (suc n) (port r 0) (ground arith) here)))
        (IsRound-Found (polled n r 0 q) n (fresh (suc n) (port r 0)) (
          sent-IsRound n several room r 0 n q.self (fresh (suc n) (port r 0)) (r.link 0) balanced
            over (left-leader n) (omega arith) (links 0 le) refl refl (λ i m d. links i m) others))
  IsLocated-Found r balanced over (holding (suc t) le links here others promise) =
      let b = blackened (suc n) (suc t) (port r (suc t)) in
      let x : Tokenizer = record (r.tokenizers (suc t)) {
        global_tok = b;
        has_global_tok = false;
      } in
      let q : Port = record (port r (suc t)) { self = x; outgoing = some b } in
      let rests = (over (suc t) le).0 in
      Found-later n several room
        (one_more (suc t) q none_yet le
          (rw rests (idler_holds (suc n) (suc t) (port r (suc t)) (ground arith) here)))
        (IsRound-Found (polled n r (suc t) q) t b (
          sent-IsRound n several room r (suc t) t x b (r.link (suc t)) balanced over
            (left-other (suc n) t) (omega arith) (links (suc t) le) refl refl (λ i m d. links i m)
            others))

  -- What the counts of the machines add up to, whatever their signs.
  abbrev pub spread : Ring → ℕ
  spread r =
      sum (λ p. pos_part (r.tokenizers p).tok.count + neg_part (r.tokenizers p).tok.count) (suc n)

  -- With several machines and at most 2 ^ 30, from any ring that an iteration reaches with counts below
  -- 2 ^ 30, up and down, whose sizes add up to less than 2 ^ 30 over the machines, and in which no
  -- machine works and no message is on its way, turns of busy_loop_token alone lead to one in which the leader's turn
  -- finds the end.
  pub busy_loop_token-ends :
      (r : Ring)
      → Reached n r
      → spread r < 1073741824
      → IsOver n r
      → (r' : Ring) × Polls n r r'
        × ((q : Port) × (busy_loop_token (suc n) 0 (not (r'.active 0)) (port r' 0)
              ≡ some (false, q)))
  busy_loop_token-ends r reached small over =
      let sound = Reached-IsSound n several room reached in IsLocated-Found r sound.0 over sound.1
