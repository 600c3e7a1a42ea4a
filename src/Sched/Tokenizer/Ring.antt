-- ===== src/Sched/Tokenizer/Ring.antt =====
-- The machines of an iteration in a ring: each with its tokenizer, whether it is at work, the
-- messages on their way to it, and the token that waits on its link from the right.
use meldtools.Common.Int.{ℤ, neg_part, pos_part}
use meldtools.Common.{
  ℕ, suc, ◌+◌, ◌-◌, ◌≤◌, ◌<◌, ◌≡◌, Bool, true, false, not, Option, none, some, [],
}
use meldtools.Sched.Tokenizer.{
  Port, Token, Tokenizer, busy_loop_token, init, left_remote_id, messages_received,
  messages_transmitted,
}
use meldtools.Sched.Tokenizer.Sums.{update}

pub record Ring : Type 0 where
  pub tokenizers : ℕ → Tokenizer
  pub active : ℕ → Bool
  pub inbox : ℕ → ℕ
  pub link : ℕ → Option Token

-- Machines with ranks up to n, before the first message.
abbrev pub start : (ℕ → Bool) → Ring
start working = record { tokenizers = init; active = working; inbox = λ _. 0; link = λ _. none }

-- A count of less than 2 ^ 30, up or down.
abbrev pub IsSmall : ℤ → Type 0
IsSmall c = (pos_part c < 1073741824) × (neg_part c < 1073741824)

-- What the tokenizer of a machine finds, up to the turn in which the leader finds the end and sends
-- the first message of it.
abbrev pub port : Ring → ℕ → Port
port r p = record {
  self = r.tokenizers p;
  incoming = r.link p;
  outgoing = none;
  ending = none;
  actions = [];
}

-- The token that a machine sends goes to the link of the machine to its left.
abbrev pub delivered : ℕ → Option Token → (ℕ → Option Token) → ℕ → Option Token
delivered q (some t) links = update q (some t) links
delivered q none links = links

module _ (n : ℕ) where
  abbrev pub polled : Ring → ℕ → Port → Ring
  polled r p q = record r {
    tokenizers = update p q.self r.tokenizers;
    link = delivered (left_remote_id (suc n) p) q.outgoing (update p q.incoming r.link);
  }

  abbrev pub poll : Ring → ℕ → Option (Bool × Port)
  poll r p = busy_loop_token (suc n) p (not (r.active p)) (port r p)

  -- Machines send messages only while they work, and a message puts its receiver to work.
  pub data Step : Ring → Ring → Type 0 where
    transmit :
        (r : Ring) (p q k : ℕ)
        → p ≤ n
        → q ≤ n
        → r.active p ≡ true
        → Step r (record r {
          tokenizers = update p (messages_transmitted k (r.tokenizers p)) r.tokenizers;
          inbox = update q (r.inbox q + k) r.inbox;
        })
    receive :
        (r : Ring) (p k : ℕ)
        → p ≤ n
        → k ≤ r.inbox p
        → 0 < k
        → Step r (record r {
          tokenizers = update p (messages_received k (r.tokenizers p)) r.tokenizers;
          inbox = update p (r.inbox p - k) r.inbox;
          active = update p true r.active;
        })
    finish : (r : Ring) (p : ℕ) → p ≤ n → Step r (record r { active = update p false r.active })
    poll_token :
        (r : Ring) (p : ℕ) (q : Port) → p ≤ n → poll r p ≡ some (true, q) → Step r (polled r p q)

  -- A ring of which every count, and the sum of every two of them, is an `int`.
  pub record CountsFit (r : Ring) : Type 0 where
    pub counts : (p : ℕ) → p ≤ n → IsSmall (r.tokenizers p).tok.count
    pub held : (p : ℕ) → p ≤ n → IsSmall (r.tokenizers p).global_tok.count
    pub passed : (p : ℕ) → p ≤ n → (t : Token) → r.link p ≡ some t → IsSmall t.count

  -- Through rings whose counts fit, until the leader finds the end; only then is the first message
  -- of the end sent.
  pub data Reached : Ring → Type 0 where
    started : (working : ℕ → Bool) → Reached (start working)
    stepped : {r r' : Ring} → Reached r → Step r r' → CountsFit r' → Reached r'
