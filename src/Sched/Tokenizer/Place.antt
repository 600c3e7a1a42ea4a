-- ===== src/Sched/Tokenizer/Place.antt =====
-- Where the token is: with one machine, or on one link.
use meldtools.Sched.Tokenizer.Promises.{IsPromise}
use meldtools.Sched.Tokenizer.Passing.{with_tokenizer}
use meldtools.Common.{
  ℕ, ◌≤◌, ◌<◌, ◌≡◌, refl, sym, ap, ◌∙◌, subst, ◌≢◌, inl, inr, true, false, Option, none, some,
  arith, ◌==◌, Bool-cases,
}
use meldtools.Sched.Tokenizer.Ring.{Ring}
use meldtools.Sched.Tokenizer.{Token, Tokenizer}
use meldtools.Sched.Tokenizer.Sums.{update, update-other, update-same}

-- A token that the leader holds promises nothing: it starts a new round.
pub data IsLocated (n : ℕ) (r : Ring) : Type 0 where
  holding :
      (t : ℕ)
      → t ≤ n
      → ((i : ℕ) → i ≤ n → r.link i ≡ none)
      → (r.tokenizers t).has_global_tok ≡ true
      → ((i : ℕ) → i ≤ n → i ≢ t → (r.tokenizers i).has_global_tok ≡ false)
      → (0 < t → IsPromise n r t (r.tokenizers t).global_tok)
      → IsLocated n r
  waiting :
      (t : ℕ) (g : Token)
      → t ≤ n
      → r.link t ≡ some g
      → ((i : ℕ) → i ≤ n → i ≢ t → r.link i ≡ none)
      → ((i : ℕ) → i ≤ n → (r.tokenizers i).has_global_tok ≡ false)
      → IsPromise n r t g
      → IsLocated n r

-- Two rings with the same tokens in the same places.
pub relocated :
    (n : ℕ) (r r' : Ring)
    → ((i : ℕ) → (r'.tokenizers i).has_global_tok ≡ (r.tokenizers i).has_global_tok)
    → ((i : ℕ) → (r'.tokenizers i).global_tok ≡ (r.tokenizers i).global_tok)
    → ((i : ℕ) → r'.link i ≡ r.link i)
    → ((t : ℕ) (g : Token) → t ≤ n → IsPromise n r t g → IsPromise n r' t g)
    → IsLocated n r
    → IsLocated n r'
relocated n r r' has tokens links keeps (holding t l no_links here others promise) =
    holding t l (λ i m. links i ∙ no_links i m) (has t ∙ here) (λ i m d. has i ∙ others i m d)
      (λ m. subst (IsPromise n r' t) (sym (tokens t)) (keeps t _ l (promise m)))
relocated n r r' has tokens links keeps (waiting t g l here others no_holder promise) =
    waiting t g l (links t ∙ here) (λ i m d. links i ∙ others i m d) (λ i m. has i ∙ no_holder i m)
      (keeps t g l promise)

module _ (n : ℕ) (r : Ring) (p : ℕ) (x : Tokenizer) where
  -- The machine p, at which alone a token was, has sent one to the machine t.
  pub arrived :
      (t : ℕ) (g : Token) (l : Option Token)
      → l ≡ none
      → x.has_global_tok ≡ false
      → ((i : ℕ) → i ≤ n → i ≢ p → r.link i ≡ none)
      → ((i : ℕ) → i ≤ n → i ≢ p → (r.tokenizers i).has_global_tok ≡ false)
      → (update t (some g) (update p l r.link) t ≡ some g)
        × ((i : ℕ) → i ≤ n → i ≢ t → update t (some g) (update p l r.link) i ≡ none)
        × ((i : ℕ) → i ≤ n → (update p x r.tokenizers i).has_global_tok ≡ false)
  arrived t g l empty given links holders = (
    update-same t (some g) (update p l r.link),
    (λ i m d. update-other t i (some g) (update p l r.link) d ∙ (elim (Bool-cases (i == p)) [
      | inl b ↦ rw b empty
      | inr b ↦ rw b (links i m (ground arith))
    ])),
    λ i m. elim (Bool-cases (i == p)) [
      | inl b ↦ rw b given
      | inr b ↦ rw b (holders i m (ground arith))
    ],
  )

  pub arriving :
      (t : ℕ) (g : Token) (l : Option Token)
      → t ≤ n
      → l ≡ none
      → x.has_global_tok ≡ false
      → ((i : ℕ) → i ≤ n → i ≢ p → r.link i ≡ none)
      → ((i : ℕ) → i ≤ n → i ≢ p → (r.tokenizers i).has_global_tok ≡ false)
      → IsPromise n (with_tokenizer n r p x (update t (some g) (update p l r.link))) t g
      → IsLocated n (with_tokenizer n r p x (update t (some g) (update p l r.link)))
  arriving t g l le empty given links holders promise =
      let a = arrived t g l empty given links holders in waiting t g le a.0 a.1 a.2 promise

  -- The machine p has fetched the only token.
  pub fetching :
      (g : Token)
      → p ≤ n
      → x.has_global_tok ≡ true
      → x.global_tok ≡ g
      → ((i : ℕ) → i ≤ n → i ≢ p → r.link i ≡ none)
      → ((i : ℕ) → i ≤ n → (r.tokenizers i).has_global_tok ≡ false)
      → IsPromise n (with_tokenizer n r p x (update p none r.link)) p g
      → IsLocated n (with_tokenizer n r p x (update p none r.link))
  fetching g le taken_it same links holders promise =
      holding p le
        (λ i m. elim (Bool-cases (i == p)) [
          | inl b ↦ rw b refl
          | inr b ↦ rw b (links i m (ground arith))
        ])
        (ap (λ y. y.has_global_tok) (update-same p x r.tokenizers) ∙ taken_it)
        (λ i m d. ap (λ y. y.has_global_tok) (update-other p i x r.tokenizers d) ∙ holders i m)
        (λ m.
          subst (IsPromise n (with_tokenizer n r p x (update p none r.link)) p)
            (sym (ap (λ y. y.global_tok) (update-same p x r.tokenizers) ∙ same)) promise)
