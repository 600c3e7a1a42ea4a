-- ===== src/Sched/Tokenizer/Ending.antt =====
-- The end of an iteration is found only when it is over, in every order of the machines' steps.
use meldtools.Sched.Tokenizer.Promises.{IsPromise, IsBalanced}
use meldtools.Sched.Tokenizer.Place.{IsLocated, holding, waiting, fetching, relocated}
use meldtools.Sched.Tokenizer.Polling.{
  fresh, ended, test, leader_resends, carried, idler_passes, leader_ends, sent_out, worker_fetches,
}
use meldtools.Sched.Tokenizer.Passing.{
  held-IsPromise, fresh-IsPromise, passed-IsPromise, counted-IsBalanced,
}
use meldtools.Sched.Tokenizer.Safety.{IsTurn, left-leader, left-other, test-IsOver, IsOver, IsSound}
use meldtools.Sched.Tokenizer.Turns.{sent, waits, holds}
use meldtools.Queue.Bounded.Powers.{upper_log2_total}
use meldtools.Sched.Tokenizer.Collective.{leader_stages_total, max_world}
use meldtools.Common.{
  ℕ, zero, suc, ◌≤◌, ◌<◌, ◌≡◌, refl, subst, ◌≢◌, inl, inr, true, false, Option, none, some, arith,
  ◌==◌, Bool-cases, ◌⊎◌, Bool, not,
}
use meldtools.Sched.Tokenizer.Ring.{
  Ring, port, Reached, Step, finish, poll_token, polled, receive, start, started, stepped, transmit,
}
use meldtools.Sched.Tokenizer.{
  Token, Tokenizer, add_count, paint, Port, busy_loop_token, messages_received,
  messages_transmitted,
}
use meldtools.Sched.Tokenizer.Sums.{update, sum, update-kept}
use meldtools.Sched.Tokenizer.Messages.{
  finishing-IsPromise, receiving-IsBalanced, receiving-IsPromise, sending-IsBalanced,
  sending-IsPromise,
}

module _ (n : ℕ) (several : 0 < n) (room : suc n ≤ max_world) (r : Ring)
    (balanced : IsBalanced n r) where
  module _ (g : Token) (holders : (i : ℕ) → i ≤ n → (r.tokenizers i).has_global_tok ≡ false) where
    -- The token waits for an idle machine.
    idle_fetches :
        (t : ℕ)
        → t ≤ n
        → r.active t ≡ false
        → r.link t ≡ some g
        → ((i : ℕ) → i ≤ n → i ≢ t → r.link i ≡ none)
        → IsPromise n r t g
        → IsTurn n r t
    unfolding add_count
    idle_fetches zero le rests here links promise =
        let p = port r 0 in
        let last = upper_log2_total (suc n) (omega arith) (omega arith) in
        let acts = leader_stages_total (suc n) last.0 last.1 (omega arith) room in
        elim (Bool-cases (test (suc n) p g)) [
          | inl passes ↦ inr (
            ended (suc n) p g acts.0,
            rw rests
                (leader_ends (suc n) p g last.0 acts.0 last.1 acts.1 (holders 0 le) here passes),
            test-IsOver n r g balanced promise rests passes,
          )
          | inr fails ↦
              let f = fresh (suc n) p in
              let x = (sent_out (suc n) p).self in
              inl (
                record (sent_out (suc n) p) { incoming = none },
                rw rests (leader_resends (suc n) p g (holders 0 le) here fails),
                sent n several room r balanced 0 n x f none (left-leader n) (omega arith) refl refl
                    refl links (λ i m d. holders i m)
                    (fresh-IsPromise n r 0 x (update n (some f) (update 0 none r.link)) refl f
                      refl),
              )
        ]
    idle_fetches (suc t) le rests here links promise =
        let p = port r (suc t) in
        let g' = carried (suc n) (suc t) p g in
        let x : Tokenizer = record {
          tok = paint true (r.tokenizers (suc t)).tok;
          has_global_tok = false;
          global_tok = g';
        } in
        inl (
          record p { incoming = none; outgoing = some g'; self = x },
          rw rests (idler_passes (suc n) (suc t) p g (ground arith) (holders (suc t) le) here),
          sent n several room r balanced (suc t) t x g' none (left-other (suc n) t) (omega arith)
              refl refl refl links (λ i m d. holders i m)
              (passed-IsPromise n r t x (update t (some g') (update (suc t) none r.link)) g g' refl
                rests
                (elim (Bool-cases (r.tokenizers (suc t)).tok.white) [
                  | inl w ↦ rw w refl
                  | inr w ↦ rw w refl
                ])
                (λ black. elim (Bool-cases (r.tokenizers (suc t)).tok.white) [
                  | inl w ↦ rw w black
                  | inr w ↦ rw w refl
                ])
                (λ w. rw w refl) promise),
        )

    fetches :
        (t : ℕ)
        → t ≤ n
        → r.link t ≡ some g
        → ((i : ℕ) → i ≤ n → i ≢ t → r.link i ≡ none)
        → IsPromise n r t g
        → IsTurn n r t
    fetches t le here links promise = elim (Bool-cases (r.active t)) [
      | inr rests ↦ idle_fetches t le rests here links promise
      | inl works ↦
          let x : Tokenizer = record (r.tokenizers t) { global_tok = g; has_global_tok = true } in
          let links' : ℕ → Option Token = update t none r.link in
          inl (
            record (port r t) { incoming = none; self = x },
            rw works (worker_fetches (suc n) t (port r t) g (holders t le) here),
            (
              counted-IsBalanced n r t x links' refl balanced,
              fetching n r t x g le refl refl links holders
                  (held-IsPromise n r t x links' refl t g refl promise),
            ),
          )
    ]

  -- Every turn of every machine.
  turns : (p : ℕ) → p ≤ n → IsLocated n r → IsTurn n r p
  turns p le (holding t l links here others promise) = elim (Bool-cases (p == t)) [
    | inl b ↦
        let same : t ≡ p = ground arith in
        subst (IsTurn n r) same (
          holds n several room r balanced t l links here others
            (holding t l links here others promise))
    | inr b ↦
        waits n several room r balanced p le (links p le) (others p le (ground arith))
          (holding t l links here others promise)
  ]
  turns p le (waiting t g l here links holders promise) = elim (Bool-cases (p == t)) [
    | inl b ↦
        let same : t ≡ p = ground arith in
        subst (IsTurn n r) same (fetches g holders t l here links promise)
    | inr b ↦
        waits n several room r balanced p le (links p le (ground arith)) (holders p le)
          (waiting t g l here links holders promise)
  ]

pub sum-nothing : (m : ℕ) → sum (λ i. 0) m ≡ 0
unfolding sum
sum-nothing zero = refl
sum-nothing (suc m) = omega (arith, sum-nothing m)

start-IsSound : (n : ℕ) (working : ℕ → Bool) → IsSound n (start working)
start-IsSound n working = (
  omega (arith, sum-nothing (suc n)),
  holding 0 (omega arith) (λ i l. refl) refl (λ i l d. ground arith) (λ l. absurd (omega arith)),
)

module _ (n : ℕ) (several : 0 < n) (room : suc n ≤ max_world) where
  Step-IsSound : {r r' : Ring} → Step n r r' → IsSound n r → IsSound n r'
  unfolding messages_transmitted messages_received
  Step-IsSound (transmit r p q k hp hq works) (balanced, located) =
      let x = messages_transmitted k (r.tokenizers p) in
      (
        sending-IsBalanced n r p q k hp hq balanced,
        relocated n r _ (λ i. update-kept (λ y. y.has_global_tok) r.tokenizers p i x refl)
            (λ i. update-kept (λ y. y.global_tok) r.tokenizers p i x refl) (λ i. refl)
            (λ t g l. sending-IsPromise n r p q k t g hp l works) located,
      )
  Step-IsSound (receive r p k hp hk positive) (balanced, located) =
      let x = messages_received k (r.tokenizers p) in
      (
        receiving-IsBalanced n r p k hp hk balanced,
        relocated n r _ (λ i. update-kept (λ y. y.has_global_tok) r.tokenizers p i x refl)
            (λ i. update-kept (λ y. y.global_tok) r.tokenizers p i x refl) (λ i. refl)
            (λ t g l. receiving-IsPromise n r p k t g hp l hk positive balanced) located,
      )
  Step-IsSound (finish r p hp) (balanced, located) = (
    balanced,
    relocated n r _ (λ i. refl) (λ i. refl) (λ i. refl) (λ t g l. finishing-IsPromise n r p t g)
        located,
  )
  Step-IsSound (poll_token r p q hp e) (balanced, located) =
      elim (turns n several room r balanced p hp located) [
        | inl (q', e', sound) ↦
            let same : q' ≡ q = cc in subst (λ x. IsSound n (polled n r p x)) same sound
        | inr (q', e', over) ↦ absurd cc
      ]

  pub Reached-IsSound : {r : Ring} → Reached n r → IsSound n r
  Reached-IsSound (started working) = start-IsSound n working
  Reached-IsSound (stepped before_it step fit) = Step-IsSound step (Reached-IsSound before_it)

  -- With several machines and at most 2 ^ 30, from the start of an iteration on and after any sequence
  -- of sends, receipts, ends of work and turns of the tokenizers that keeps every count below 2 ^ 30,
  -- up and down, and in which the leader has not found the end yet, every turn of busy_loop_token returns, so
  -- that none of its assertions fails, and where it says that the iteration has ended no machine
  -- works and no message is on its way.
  pub busy_loop_token_lem :
      (r : Ring) (p : ℕ)
      → Reached n r
      → p ≤ n
      → ((q : Port) × (busy_loop_token (suc n) p (not (r.active p)) (port r p) ≡ some (true, q)))
        ⊎ ((q : Port) × (busy_loop_token (suc n) p (not (r.active p)) (port r p) ≡ some (false, q))
            × IsOver n r)
  busy_loop_token_lem r p reached le =
      let sound = Reached-IsSound reached in
      elim (turns n several room r sound.0 p le sound.1) [
        | inl (q, e, goes_on) ↦ inl (q, e)
        | inr (q, e, over) ↦ inr (q, e, over)
      ]
