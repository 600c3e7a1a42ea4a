-- ===== src/Sched/Tokenizer/Rounds.antt =====
-- Once an iteration is over, three rounds of the token find its end.
use meldtools.Common.Int.{ℤ, pos, negsuc, ◌+ℤ◌, +ℤ_parts, pos_part, neg_part}
use meldtools.Queue.Bounded.Powers.{upper_log2_total}
use meldtools.Sched.Tokenizer.Collective.{leader_stages_total, max_world}
use meldtools.Sched.Tokenizer.Promises.{IsBalanced, IsQuiet}
use meldtools.Common.{
  ℕ, suc, ◌≤◌, ◌<◌, ◌≡◌, refl, sym, subst, ◌≢◌, inl, inr, true, false, Option, none, some, arith,
  ◌==◌, Bool-cases, zero, ◌∙◌, ◌⊎◌,
}
use meldtools.Sched.Tokenizer.Safety.{IsOver, left-other, left-leader}
use meldtools.Sched.Tokenizer.{Port, Token, Tokenizer, add_count, left_remote_id, paint}
use meldtools.Sched.Tokenizer.Ring.{Ring, poll, polled, port}
use meldtools.Sched.Tokenizer.Place.{arrived}
use meldtools.Sched.Tokenizer.Polling.{
  carried, idler_passes, ended, fresh, leader_ends, leader_resends, sent_out, test,
}
use meldtools.Sched.Tokenizer.Passing.{
  counted-IsBalanced, passed-IsQuiet, with_tokenizer, fresh-IsQuiet,
}
use meldtools.Sched.Tokenizer.Sums.{update, sum, sum-same}
use meldtools.Sched.Tokenizer.Ending.{sum-nothing}

-- Turns of tokenizers only.
pub data Polls (n : ℕ) (r : Ring) : Ring → Type 0 where
  none_yet : Polls n r r
  one_more :
      {s : Ring} (p : ℕ) (q : Port)
      → Polls n r s
      → p ≤ n
      → poll n s p ≡ some (true, q)
      → Polls n r (polled n s p q)

pub Polls-append : (n : ℕ) {r s u : Ring} → Polls n r s → Polls n s u → Polls n r u
Polls-append n a none_yet = a
Polls-append n a (one_more p q b le e) = one_more p q (Polls-append n a b) le e

-- The iteration is over, and the token waits for the machine t.
abbrev pub IsRound : ℕ → Ring → ℕ → Token → Type 0
IsRound n r t g =
    IsBalanced n r
    × IsOver n r
    × (t ≤ n)
    × (r.link t ≡ some g)
    × ((i : ℕ) → i ≤ n → i ≢ t → r.link i ≡ none)
    × ((i : ℕ) → i ≤ n → (r.tokenizers i).has_global_tok ≡ false)

abbrev IsWhite : Ring → ℕ → Type 0
IsWhite r i = (r.tokenizers i).tok.white ≡ true

-- The machines that the token has passed are white.
abbrev pub IsPassed : ℕ → Ring → ℕ → Type 0
IsPassed n r t = (i : ℕ) → t < i → i ≤ n → IsWhite r i

-- A round that will find the end.
abbrev pub IsClean : ℕ → Ring → ℕ → Token → Type 0
IsClean n r t g = (g.white ≡ true) × ((i : ℕ) → i ≤ n → IsWhite r i) × IsQuiet n r t g

-- A round has gone on from r and t to t'.
abbrev pub Descent : ℕ → Ring → ℕ → Token → ℕ → Type 0
Descent n r t g t' =
    (r' : Ring) × (g' : Token) × Polls n r r'
    × IsRound n r' t' g'
    × (IsPassed n r t → IsPassed n r' t')
    × (IsClean n r t g → IsClean n r' t' g')

whitened :
    (z : ℕ → Tokenizer) (p i : ℕ) (x : Tokenizer)
    → x.tok.white ≡ true
    → (i ≢ p → (z i).tok.white ≡ true)
    → (update p x z i).tok.white ≡ true
whitened z p i x w others = elim (Bool-cases (i == p)) [
  | inl b ↦ rw b w
  | inr b ↦ rw b (others (ground arith))
]

module _ (n : ℕ) (several : 0 < n) (room : suc n ≤ max_world) where
  -- What a machine sends begins or continues a round.
  pub sent-IsRound :
      (r : Ring) (p t : ℕ) (x : Tokenizer) (g : Token) (l : Option Token)
      → IsBalanced n r
      → IsOver n r
      → left_remote_id (suc n) p ≡ t
      → t ≤ n
      → l ≡ none
      → x.has_global_tok ≡ false
      → x.tok.count ≡ (r.tokenizers p).tok.count
      → ((i : ℕ) → i ≤ n → i ≢ p → r.link i ≡ none)
      → ((i : ℕ) → i ≤ n → i ≢ p → (r.tokenizers i).has_global_tok ≡ false)
      → IsRound n
          (with_tokenizer n r p x (update (left_remote_id (suc n) p) (some g) (update p l r.link)))
          t
          g
  sent-IsRound r p t x g l balanced over e le empty given same links holders =
      let a = arrived n r p x t g l empty given links holders in
      subst (λ k. IsRound n (with_tokenizer n r p x (update k (some g) (update p l r.link))) t g)
        (sym e)
        (
          counted-IsBalanced n r p x (update t (some g) (update p l r.link)) same balanced,
          over,
          le,
          a.0,
          a.1,
          a.2,
        )

  -- One machine passes the token on.
  descend : (r : Ring) (t : ℕ) (g : Token) → IsRound n r (suc t) g → Descent n r (suc t) g t
  unfolding add_count
  descend r t g (balanced, over, le, here, links, holders) =
      let p = port r (suc t) in
      let g' = carried (suc n) (suc t) p g in
      let x : Tokenizer = record {
        tok = paint true (r.tokenizers (suc t)).tok;
        has_global_tok = false;
        global_tok = g';
      } in
      let q : Port = record p { incoming = none; outgoing = some g'; self = x } in
      let rests = (over (suc t) le).0 in
      (
        polled n r (suc t) q,
        g',
        one_more (suc t) q none_yet le
            (rw rests (idler_passes (suc n) (suc t) p g (ground arith) (holders (suc t) le) here)),
        sent-IsRound r (suc t) t x g' none balanced over (left-other (suc n) t) (omega arith) refl
            refl refl links (λ i m d. holders i m),
        (λ passed i l m. whitened r.tokenizers (suc t) i x refl (λ d. passed i (omega arith) m)),
        λ clean. (
          (let w = clean.1 (suc t) le in rw w clean.0),
          (λ i l. whitened r.tokenizers (suc t) i x refl (λ d. clean.1 i l)),
          passed-IsQuiet n r t x r.link g g' refl rests
              (elim (Bool-cases (r.tokenizers (suc t)).tok.white) [
                | inl w ↦ rw w refl
                | inr w ↦ rw w refl
              ])
              clean.2,
        ),
      )

  -- All machines up to the leader.
  pub to_leader : (r : Ring) (t : ℕ) (g : Token) → IsRound n r t g → Descent n r t g 0
  to_leader r zero g round = (r, g, none_yet, round, (λ h. h), λ h. h)
  to_leader r (suc t) g round =
      let a = descend r t g round in
      let b = to_leader a.0 t a.1 a.3 in
      (b.0, b.1, Polls-append n a.2 b.2, b.3, (λ h. b.4 (a.4 h)), λ h. b.5 (a.5 h))

  abbrev pub Found : Ring → Type 0
  Found r = (r' : Ring) × Polls n r r' × ((q : Port) × (poll n r' 0 ≡ some (false, q)))

  -- The leader finds the end, or begins another round, which is clean if the others are white.
  abbrev pub Restart : Ring → Type 0
  Restart r =
      Found r
      ⊎ ((r' : Ring) × (g' : Token) × Polls n r r'
          × IsRound n r' n g'
          × (IsPassed n r 0 → IsClean n r' n g'))

  pub Found-later : {r s : Ring} → Polls n r s → Found s → Found r
  Found-later polls (r', more, end) = (r', Polls-append n polls more, end)

  pub restart : (r : Ring) (g : Token) → IsRound n r 0 g → Restart r
  restart r g (balanced, over, le, here, links, holders) =
      let p = port r 0 in
      let rests = (over 0 le).0 in
      let last = upper_log2_total (suc n) (omega arith) (omega arith) in
      let acts = leader_stages_total (suc n) last.0 last.1 (omega arith) room in
      elim (Bool-cases (test (suc n) p g)) [
        | inl passes ↦ inl (
          r,
          none_yet,
          (
            ended (suc n) p g acts.0,
            rw rests
                (leader_ends (suc n) p g last.0 acts.0 last.1 acts.1 (holders 0 le) here passes),
          ),
        )
        | inr fails ↦
            let f = fresh (suc n) p in
            let x = (sent_out (suc n) p).self in
            let q : Port = record (sent_out (suc n) p) { incoming = none } in
            let white : (i : ℕ)
                → (i ≢ 0 → IsWhite r i)
                → (update 0 x r.tokenizers i).tok.white ≡ true =
              λ i h. whitened r.tokenizers 0 i x refl h in
            inr (
              polled n r 0 q,
              f,
              one_more 0 q none_yet le
                  (rw rests (leader_resends (suc n) p g (holders 0 le) here fails)),
              sent-IsRound r 0 n x f none balanced over (left-leader n) (omega arith) refl refl refl
                  links (λ i m d. holders i m),
              λ passed. (
                refl,
                (λ i l. white i (λ d. passed i (ground arith) l)),
                fresh-IsQuiet n r 0 x r.link refl f refl,
              ),
            )
      ]

  no_messages : (r : Ring) → IsOver n r → sum r.inbox (suc n) ≡ 0
  no_messages r over =
      sum-same r.inbox (λ i. 0) (suc n) (λ i l. (over i (omega arith)).1) ∙ sum-nothing (suc n)

  no_count : (z : ℤ) → pos_part z ≡ neg_part z → (pos_part z ≡ 0) × (neg_part z ≡ 0)
  no_count (pos k) h = (h, refl)
  no_count (negsuc k) h = absurd (omega arith)

  -- A clean round that has reached the leader passes its test.
  clean_passes :
      (r : Ring) (g : Token) → IsRound n r 0 g → IsClean n r 0 g → test (suc n) (port r 0) g ≡ true
  unfolding add_count sum
  clean_passes r g (balanced, over, le, here, links, holders) (white, whites, (idle, sums)) =
      let c = (r.tokenizers 0).tok.count in
      let level : pos_part (g.count +ℤ c) ≡ neg_part (g.count +ℤ c) =
        omega (arith, no_messages r over, balanced, sums, +ℤ_parts g.count c) in
      let none_left = no_count (g.count +ℤ c) level in
      rw (white, none_left.0, none_left.1, whites 0 le) refl

  pub IsClean-Found : (r : Ring) (g : Token) → IsRound n r 0 g → IsClean n r 0 g → Found r
  IsClean-Found r g round clean =
      let last = upper_log2_total (suc n) (omega arith) (omega arith) in
      let acts = leader_stages_total (suc n) last.0 last.1 (omega arith) room in
      let rests = (round.1 0 (omega arith)).0 in
      (
        r,
        none_yet,
        (
          ended (suc n) (port r 0) g acts.0,
          rw rests (
              leader_ends (suc n) (port r 0) g last.0 acts.0 last.1 acts.1 (round.5 0 (omega arith))
                round.3 (clean_passes r g round clean)),
        ),
      )
