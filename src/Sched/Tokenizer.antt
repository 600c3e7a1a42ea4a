-- ===== src/Sched/Tokenizer.antt =====
-- predicates/sched/mpi/token.hpp and tokenizer.cpp: the token that goes round the machines to find
-- out that an iteration has ended. The router is its ports: the token that waits from the machine to
-- the right, the one sent to the left, and the messages of the end of an iteration. A failed
-- assertion, and a power that an `int` does not hold, are `none`. Counts are whole numbers, an `int`
-- in the code: Ring follows them in its range.
use meldtools.Common.Int.{ℤ, pos, ◌+ℤ◌, ◌-ℤ◌, pos_part, neg_part}
use meldtools.Queue.Bounded.{upper_log2}
pub mod Ring
pub mod Sums
pub mod Promises
pub mod Messages
pub mod Collective
pub mod EndMessage
pub mod Polling
pub mod Passing
pub mod Place
pub mod Safety
pub mod Turns
pub mod Ending
pub mod Rounds
pub mod Liveness
mod Tests
use meldtools.Common.{
  ℕ, zero, suc, ◌+◌, ◌-◌, ◌^◌, Bool, true, false, ◌&&◌, ◌||◌, not, Option, none, some, List, [],
  ◌∷◌, ◌++◌, ltb, ◌==◌, if◌then◌else◌, ◌>>=◌, ◌>>◌, guard,
}

-- `token`; white is true.
pub record Token : Type 0 where
  pub white : Bool
  pub count : ℤ

unfoldable pub add_count : ℤ → Token → Token
add_count plus t = record t { count = t.count +ℤ plus }

unfoldable pub received : ℕ → Token → Token
received total t = record t { count = t.count -ℤ pos total }

abbrev pub is_zero : Token → Bool
is_zero t = pos_part t.count == 0 && neg_part t.count == 0

abbrev pub paint : Bool → Token → Token
paint colour t = record t { white = colour }

pub record Tokenizer : Type 0 where
  pub tok : Token
  pub has_global_tok : Bool
  pub global_tok : Token

-- What do_collective_end_iteration sends and waits for.
pub data Action : Type 0 where
  send_end_iteration : ℕ → ℕ → Action
  receive_end_iteration : ℕ → Action

pub record Port : Type 0 where
  pub self : Tokenizer
  pub incoming : Option Token
  pub outgoing : Option Token
  pub ending : Option ℕ
  pub actions : List Action

abbrev new_token : Token
new_token = record { white = false; count = pos 0 }

-- The constructor and `init`, by rank.
abbrev pub init : ℕ → Tokenizer
init rank = record {
  tok = paint true new_token;
  has_global_tok = rank == 0;
  global_tok = paint (rank == 0) new_token;
}

unfoldable pub messages_received : ℕ → Tokenizer → Tokenizer
unfolding received
messages_received total z = record z { tok = paint false (received total z.tok) }

unfoldable pub messages_transmitted : ℕ → Tokenizer → Tokenizer
unfolding add_count
messages_transmitted total z = record z { tok = add_count (pos total) z.tok }

unfoldable pub token_terminate_iteration : ℕ → Tokenizer → Option Tokenizer
token_terminate_iteration rank z = do
  guard (not (rank == 0) || is_zero z.global_tok && z.global_tok.white && z.has_global_tok)
  guard z.tok.white
  some (record z { tok = record z.tok { count = pos 0 } })

-- `left_remote_id`
unfoldable pub left_remote_id : ℕ → ℕ → ℕ
left_remote_id world_size rank = if rank == 0 then world_size - 1 else rank - 1

-- `power<remote_id>(2, exp)`: an `int` holds the powers below the 31st, and beyond them the
-- multiplication overflows.
unfoldable pub int_power : ℕ → Option ℕ
int_power exp = if ltb exp 31 then some (2 ^ exp) else none

module _ (world_size rank : ℕ) where
  abbrev pub is_leader : Bool
  is_leader = rank == 0

  -- A round of do_collective_end_iteration.
  unfoldable pub collective_stage : ℕ → Option (List Action)
  unfolding int_power
  collective_stage stage = do
    half ← int_power (stage - 1)
    if ltb rank half
        then some (
            if ltb (rank + half) world_size
            then send_end_iteration stage (rank + half) ∷ []
            else [])
        else int_power stage >>= λ whole.
            some (if ltb rank whole then receive_end_iteration (rank - half) ∷ [] else [])

  unfoldable pub collective_stages : ℕ → ℕ → Option (List Action)
  unfolding collective_stage
  collective_stages zero stage = some []
  collective_stages (suc left) stage =
      collective_stage stage >>= λ a. collective_stages left (stage + 1) >>= λ as'. some (a ++ as')

  unfoldable pub do_collective_end_iteration : ℕ → Port → Option Port
  unfolding collective_stages
  do_collective_end_iteration stage p = do
    last ← upper_log2 world_size
    done ← collective_stages (last + 1 - stage) stage
    some (record p { actions = p.actions ++ done })

  unfoldable pub try_fetch_token_as_worker : Port → Option Port
  try_fetch_token_as_worker p = do
    guard (not p.self.has_global_tok)
    elim p.incoming [
      | some t ↦ some (record p {
        incoming = none;
        self = record p.self { global_tok = t; has_global_tok = true };
      })
      | none ↦ some p
    ]

  unfoldable pub send_token_as_leader : Port → Option Port
  send_token_as_leader p = do
    guard is_leader
    guard p.self.has_global_tok
    let fresh : Token = record { white = true; count = pos 0 }
    some (record p {
      self = record { tok = paint true p.self.tok; global_tok = fresh; has_global_tok = false };
      outgoing = some fresh;
    })

  -- The token with the count of the machine that fetches it.
  abbrev pub fetched : Token → Tokenizer → Tokenizer
  fetched t z = record z { has_global_tok = true; global_tok = add_count z.tok.count t }

  unfoldable pub try_fetch_token_as_leader : Port → Option (Bool × Port)
  unfolding add_count send_token_as_leader do_collective_end_iteration
  try_fetch_token_as_leader p = do
    guard is_leader
    guard (not p.self.has_global_tok)
    elim p.incoming [
      | none ↦ some (false, p)
      | some t ↦
          let z = fetched t p.self in
          let q : Port = record p { incoming = none; self = z } in
          if z.global_tok.white && is_zero z.global_tok && z.tok.white
          then (do_collective_end_iteration 1 q >>= λ q'. some (true, q'))
          else (send_token_as_leader q >>= λ q'. some (false, q'))
    ]

  unfoldable pub send_token_as_idler : Port → Option Port
  unfolding add_count
  send_token_as_idler p = do
    guard (not is_leader)
    guard p.self.has_global_tok
    let t = paint false (add_count p.self.tok.count p.self.global_tok)
    some (record p {
      self = record p.self { global_tok = t; has_global_tok = false };
      outgoing = some t;
    })

  unfoldable pub try_fetch_token_as_idler : Port → Option (Bool × Port)
  unfolding add_count
  try_fetch_token_as_idler p = do
    guard (not is_leader)
    guard (not p.self.has_global_tok)
    elim p.incoming [
      | none ↦ some (false, p)
      | some t ↦
          let counted = add_count p.self.tok.count t in
          let passed = if p.self.tok.white then counted else paint false counted in
          some (
            true,
            record p {
              incoming = none;
              outgoing = some passed;
              self = record {
                tok = paint true p.self.tok;
                has_global_tok = false;
                global_tok = passed;
              };
            },
          )
    ]

  -- Where the message of the end comes from.
  unfoldable pub find_source : ℕ → ℕ → Option ℕ
  unfolding int_power
  find_source zero stage = none
  find_source (suc left) stage =
      let later = find_source left (stage + 1) in
      int_power (stage - 1) >>= λ half.
      if ltb rank half
      then none
      else int_power stage >>= λ whole. if ltb rank whole then some (rank - half) else later

  unfoldable pub find_source_collective : Option ℕ
  unfolding find_source
  find_source_collective = do last ← upper_log2 world_size; find_source last 1

  unfoldable pub try_fetch_end_iteration : Port → Option (Bool × Port)
  unfolding do_collective_end_iteration find_source_collective
  try_fetch_end_iteration p = do
    source ← find_source_collective
    elim p.ending [
      | none ↦ some (false, p)
      | some stage ↦ do_collective_end_iteration (stage + 1) (record p { ending = none }) >>= λ q.
          some (true, q)
    ]

  abbrev turned : Option (Bool × Port) → Option (Bool × Port)
  turned m = m >>= λ r. some (not r.0, r.1)

  -- `use_mpi` of the router is that there are several machines.
  unfoldable pub busy_loop_token : Bool → Port → Option (Bool × Port)
  unfolding try_fetch_token_as_worker send_token_as_leader try_fetch_token_as_leader
      send_token_as_idler try_fetch_token_as_idler try_fetch_end_iteration
  busy_loop_token turned_inactive p =
      if turned_inactive
      then if is_leader
        then if p.self.has_global_tok && not (ltb 1 world_size)
          then some (false, p)
          else if p.self.has_global_tok
          then (send_token_as_leader p >>= λ q. some (true, q))
          else turned (try_fetch_token_as_leader p)
        else if p.self.has_global_tok
        then (send_token_as_idler p >>= λ q. some (true, q))
        else (try_fetch_token_as_idler p >>= λ r.
            if r.0 then some (true, r.1) else turned (try_fetch_end_iteration r.1))
      else if p.self.has_global_tok
      then some (true, p)
      else try_fetch_token_as_worker p >>= λ q. some (true, q)
