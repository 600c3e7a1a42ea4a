-- ===== src/Sched/Tokenizer/Turns.antt =====
-- Each turn of a machine, by where the token is.
use meldtools.Sched.Tokenizer.Promises.{IsPromise, IsBalanced}
use meldtools.Sched.Tokenizer.Place.{IsLocated, arriving}
use meldtools.Sched.Tokenizer.Polling.{
  fresh, blackened, idler_holds, idler_waits, leader_sends, leader_waits, sent_out, worker_holds,
  worker_waits,
}
use meldtools.Sched.Tokenizer.Passing.{with_tokenizer, fresh-IsPromise, counted-IsBalanced}
use meldtools.Sched.Tokenizer.Safety.{IsTurn, IsSound, stays, left-leader, left-other}
use meldtools.Common.{
  ℕ, zero, suc, ◌≤◌, ◌<◌, ◌≡◌, refl, sym, subst, ◌≢◌, inl, inr, true, false, Option, none, some,
  arith, Bool-cases,
}
use meldtools.Sched.Tokenizer.Ring.{Ring, port}
use meldtools.Sched.Tokenizer.{Token, Tokenizer, left_remote_id}
use meldtools.Sched.Tokenizer.Sums.{update}
use meldtools.Sched.Tokenizer.Collective.{max_world, find_source_collective_total}

module _ (n : ℕ) (several : 0 < n) (room : suc n ≤ max_world) (r : Ring)
    (balanced : IsBalanced n r) where
  -- What a machine sends arrives at the machine to its left.
  pub sent :
      (p t : ℕ) (x : Tokenizer) (g : Token) (l : Option Token)
      → left_remote_id (suc n) p ≡ t
      → t ≤ n
      → l ≡ none
      → x.has_global_tok ≡ false
      → x.tok.count ≡ (r.tokenizers p).tok.count
      → ((i : ℕ) → i ≤ n → i ≢ p → r.link i ≡ none)
      → ((i : ℕ) → i ≤ n → i ≢ p → (r.tokenizers i).has_global_tok ≡ false)
      → IsPromise n (with_tokenizer n r p x (update t (some g) (update p l r.link))) t g
      → IsSound n
          (with_tokenizer n r p x (update (left_remote_id (suc n) p) (some g) (update p l r.link)))
  sent p t x g l e le empty given same links holders promise =
      subst (λ k. IsSound n (with_tokenizer n r p x (update k (some g) (update p l r.link))))
        (sym e)
        (
          counted-IsBalanced n r p x (update t (some g) (update p l r.link)) same balanced,
          arriving n r p x t g l le empty given links holders promise,
        )

  idle_waits :
      (p : ℕ)
      → p ≤ n
      → r.active p ≡ false
      → r.link p ≡ none
      → (r.tokenizers p).has_global_tok ≡ false
      → IsLocated n r
      → IsTurn n r p
  idle_waits zero le rests l h located =
      inl (port r 0, rw rests (leader_waits (suc n) (port r 0) h l), stays n r balanced 0 located)
  idle_waits (suc t) le rests l h located =
      let found = find_source_collective_total (suc n) (suc t) (omega arith) (omega arith) room in
      inl (
        port r (suc t),
        rw rests
            (idler_waits (suc n) (suc t) (port r (suc t)) found.0 (ground arith) found.1 h l refl),
        stays n r balanced (suc t) located,
      )

  -- A machine without the token and with none on its link.
  pub waits :
      (p : ℕ)
      → p ≤ n
      → r.link p ≡ none
      → (r.tokenizers p).has_global_tok ≡ false
      → IsLocated n r
      → IsTurn n r p
  waits p le l h located = elim (Bool-cases (r.active p)) [
    | inl works ↦
        inl
          (port r p, rw works (worker_waits (suc n) p (port r p) h l), stays n r balanced p located)
    | inr rests ↦ idle_waits p le rests l h located
  ]

  -- The machine that holds the token, when it is idle.
  idle_holds :
      (t : ℕ)
      → t ≤ n
      → r.active t ≡ false
      → ((i : ℕ) → i ≤ n → r.link i ≡ none)
      → (r.tokenizers t).has_global_tok ≡ true
      → ((i : ℕ) → i ≤ n → i ≢ t → (r.tokenizers i).has_global_tok ≡ false)
      → IsTurn n r t
  idle_holds zero le rests links here others =
      let q = sent_out (suc n) (port r 0) in
      inl (
        q,
        rw rests (leader_sends (suc n) (port r 0) (ground arith) here),
        sent 0 n q.self (fresh (suc n) (port r 0)) (r.link 0) (left-leader n) (omega arith)
            (links 0 le) refl refl (λ i m d. links i m) others
            (fresh-IsPromise n r 0 q.self
              (update n (some (fresh (suc n) (port r 0))) (update 0 (r.link 0) r.link)) refl _
              refl),
      )
  idle_holds (suc t) le rests links here others =
      let b = blackened (suc n) (suc t) (port r (suc t)) in
      let x : Tokenizer = record (r.tokenizers (suc t)) {
        global_tok = b;
        has_global_tok = false;
      } in
      inl (
        record (port r (suc t)) { self = x; outgoing = some b },
        rw rests (idler_holds (suc n) (suc t) (port r (suc t)) (ground arith) here),
        sent (suc t) t x b (r.link (suc t)) (left-other (suc n) t) (omega arith) (links (suc t) le)
            refl refl (λ i m d. links i m) others (inr (inr (inr refl))),
      )

  pub holds :
      (t : ℕ)
      → t ≤ n
      → ((i : ℕ) → i ≤ n → r.link i ≡ none)
      → (r.tokenizers t).has_global_tok ≡ true
      → ((i : ℕ) → i ≤ n → i ≢ t → (r.tokenizers i).has_global_tok ≡ false)
      → IsLocated n r
      → IsTurn n r t
  holds t le links here others located = elim (Bool-cases (r.active t)) [
    | inl works ↦
        inl (
          port r t,
          rw works (worker_holds (suc n) t (port r t) here),
          stays n r balanced t located,
        )
    | inr rests ↦ idle_holds t le rests links here others
  ]
