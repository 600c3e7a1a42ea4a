-- ===== src/Queue/Bounded/Splice.antt =====
-- splice, which moves the bins of a simple queue into a bounded one.
use meldtools.Queue.Bounded.{BoundedPqueue, add64, push_queue, splice_loop, SimplePqueue, splice}
use meldtools.Common.{
  ℕ, zero, suc, ◌+◌, ◌≤◌, ◌<◌, ◌≡◌, refl, sym, ap, ◌∙◌, some, List, [], ◌∷◌, append-nil, arith,
  length, u64_mod, ◌++◌, length-append, append_assoc, ◌-◌,
}
use meldtools.Queue.Bounded.Bins.{IsValid, append_at, bins, append_at-right, length-bins}
use meldtools.Queue.Bounded.Push.{add_lem, add64-small}

gone : (n m : ℕ) → m ≡ n → n - m ≡ 0
gone n m e = omega arith

module _ {ℓ} {A : Type ℓ} where
  -- Each of the first bins of a row with its counterpart behind it.
  unfoldable pub zip_append : ℕ → List (List A) → List (List A) → List (List A)
  zip_append zero extra row = row
  zip_append (suc left) (xs ∷ extra) (b ∷ row) = (b ++ xs) ∷ zip_append left extra row
  zip_append (suc left) [] row = row
  zip_append (suc left) (xs ∷ extra) [] = []

  -- The bins of one row with those of a second behind them, from bin `i` on and `left` of them.
  add_rows : ℕ → ℕ → List (List A) → List (List A) → List (List A)
  add_rows zero i extra row = row
  add_rows (suc left) i [] row = row
  add_rows (suc left) i (xs ∷ extra) row = add_rows left (suc i) extra (append_at i xs row)

  -- How many elements a row holds.
  unfoldable pub held : List (List A) → ℕ
  held [] = 0
  held (b ∷ bs) = length b + held bs

  append_at-nil : (i : ℕ) (row : List (List A)) → append_at i [] row ≡ row
  unfolding append_at
  append_at-nil i [] = refl
  append_at-nil zero (b ∷ row) = ap (λ c. c ∷ row) (append-nil b)
  append_at-nil (suc i) (b ∷ row) = ap (◌∷◌ b) (append_at-nil i row)

  splice_loop_lem :
      (left i : ℕ) (extra : List (List A)) (q : BoundedPqueue A)
      → IsValid q
      → left ≤ length extra
      → i + left ≤ q.leaves
      → q.total + held extra < u64_mod
      → (q' : BoundedPqueue A) × (splice_loop left i extra q ≡ some q')
        × IsValid q'
        × (bins q'.root ≡ add_rows left i extra (bins q.root))
  unfolding splice_loop add_rows held push_queue
  splice_loop_lem zero i extra q v l b room = (q, refl, v, refl)
  splice_loop_lem (suc left) i [] q v l b room = absurd (omega arith)
  splice_loop_lem (suc left) i ([] ∷ extra) q v l b room =
      let (q', e, v', f) =
        splice_loop_lem left (suc i) extra q v (omega arith) (omega arith) (omega arith) in
      (q', e, v', f ∙ ap (add_rows left (suc i) extra) (sym (append_at-nil i (bins q.root))))
  splice_loop_lem (suc left) i ((x ∷ xs) ∷ extra) q v l b room =
      let (u, e, v', f) = add_lem q (x ∷ xs) i v (omega arith) (omega arith) in
      let (q', e', w, g) =
        splice_loop_lem left (suc i) extra
          (record q { root = u; total = add64 q.total (length (x ∷ xs)) }) v' (omega arith)
          (omega arith) (omega (arith, add64-small q.total (length (x ∷ xs)) (omega arith))) in
      (q', ground (arith, e, e'), w, g ∙ ap (add_rows left (suc i) extra) f)

  add_rows-zip_append :
      (left i : ℕ) (extra pre row : List (List A))
      → length pre ≡ i
      → left ≤ length row
      → add_rows left i extra (pre ++ row) ≡ pre ++ zip_append left extra row
  unfolding add_rows zip_append append_at
  add_rows-zip_append zero i extra pre row e l = refl
  add_rows-zip_append (suc left) i [] pre row e l = refl
  add_rows-zip_append (suc left) i (xs ∷ extra) pre [] e l = absurd (omega arith)
  add_rows-zip_append (suc left) i (xs ∷ extra) pre (b ∷ row) e l =
      ap (add_rows left (suc i) extra) (
        append_at-right i xs pre (b ∷ row) (omega arith)
        ∙ ap (λ k. pre ++ append_at k xs (b ∷ row)) (gone i (length pre) e)
        ∙ sym (append_assoc pre ((b ++ xs) ∷ []) row))
      ∙ add_rows-zip_append left (suc i) extra (pre ++ (b ++ xs) ∷ []) row
          (omega (arith, length-append pre ((b ++ xs) ∷ []))) (omega arith)
      ∙ append_assoc pre ((b ++ xs) ∷ []) (zip_append left extra row)

  -- A simple queue that is not empty, with at least as many priorities as the range of a bounded
  -- queue in order, is spliced into it in order, if the total stays below 2 ^ 64: the elements of
  -- each priority below the range go behind those that the bounded queue has at it.
  pub splice_lem :
      (q : BoundedPqueue A) (other : SimplePqueue A)
      → IsValid q
      → 0 < other.total
      → q.range ≤ length other.queues
      → q.total + held other.queues < u64_mod
      → (q' : BoundedPqueue A) × (splice q other ≡ some q')
        × IsValid q'
        × (bins q'.root ≡ zip_append q.range other.queues (bins q.root))
  unfolding splice
  splice_lem q other v l enough room =
      let (q', e, v', f) =
        splice_loop_lem q.range 0 other.queues q v enough (omega (arith, v.6)) room in
      (
        q',
        ground (arith, e),
        v',
        f
            ∙ add_rows-zip_append q.range 0 other.queues [] (bins q.root) refl
                (omega (arith, length-bins (v.0) 0 q.root v.2)),
      )
