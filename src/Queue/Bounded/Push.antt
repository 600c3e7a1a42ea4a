-- ===== src/Queue/Bounded/Push.antt =====
-- Elements added to a leaf, for push and push_queue.
use meldtools.Queue.Bounded.{Tree, leaf, node, add64, add_to_leaf, BoundedPqueue, push}
use meldtools.Queue.Bounded.Powers.{pow_twice}
use meldtools.Common.{
  ℕ, zero, suc, ◌+◌, ◌-◌, ◌*◌, ◌^◌, ◌≤◌, ◌<◌, ◌≡◌, none, some, List, arith, length, u64_mod, inl,
  inr, ◌++◌, ltb, Bool-cases, length-append, sym, ap, ◌∙◌, false, [], ◌∷◌, ltb→lt, lt→ltb,
}
use meldtools.Queue.Bounded.Bins.{
  IsCounted, IsNumbered, append_at, bins, count, append_at-left, append_at-right, length-bins,
  IsValid,
}

base_left : (h i : ℕ) → (2 * i) * 2 ^ h ≡ i * 2 ^ suc h
base_left h i = grind (arith, pow_twice h)

base_right : (h i : ℕ) → (2 * i + 1) * 2 ^ h ≡ i * 2 ^ suc h + 2 ^ h
base_right h i = grind (arith, pow_twice h)

pub add64-small : (a b : ℕ) → a + b < u64_mod → add64 a b ≡ a + b
add64-small a b h = omega arith

lone : (h i prio : ℕ) → h ≡ 0 → prio < i * 2 ^ h + 2 ^ h → prio - i * 2 ^ h ≡ 0
lone h i prio e lt = omega (arith, ap (λ k. 2 ^ k) e)

not_below : (a b : ℕ) → ltb a b ≡ false → b ≤ a
not_below a b h = ground arith

module _ {ℓ} {A : Type ℓ} where
  add_to_leaf-left :
      (h i prio : ℕ) (xs : List A) (t : Tree A)
      → IsNumbered h i t
      → prio < i * 2 ^ h
      → add_to_leaf prio xs t ≡ none
  unfolding add_to_leaf
  add_to_leaf-left h i prio xs (leaf p bin) (e, k) b = ground arith
  add_to_leaf-left zero i prio xs (node c l r) n b = absurd n
  add_to_leaf-left (suc h) i prio xs (node c l r) (n, k) b = rw (
    add_to_leaf-left h (2 * i) prio xs l n (omega (arith, base_left h i)),
    add_to_leaf-left h (2 * i + 1) prio xs r k (omega (arith, base_right h i)),
  )

  add_to_leaf-right :
      (h i prio : ℕ) (xs : List A) (t : Tree A)
      → IsNumbered h i t
      → i * 2 ^ h + 2 ^ h ≤ prio
      → add_to_leaf prio xs t ≡ none
  unfolding add_to_leaf
  add_to_leaf-right h i prio xs (leaf p bin) (e, k) b = ground arith
  add_to_leaf-right zero i prio xs (node c l r) n b = absurd n
  add_to_leaf-right (suc h) i prio xs (node c l r) (n, k) b = rw (
    add_to_leaf-right h (2 * i) prio xs l n (omega (arith, base_left h i, pow_twice h)),
    add_to_leaf-right h (2 * i + 1) prio xs r k (omega (arith, base_right h i, pow_twice h)),
  )

  abbrev pub Added : ℕ → ℕ → ℕ → List A → Tree A → Tree A → Type ℓ
  Added h i prio xs t u =
      IsNumbered h i u
      × IsCounted u
      × (count u ≡ count t + length xs)
      × (bins u ≡ append_at (prio - i * 2 ^ h) xs (bins t))

  pub add_to_leaf-Added :
      (h i prio : ℕ) (xs : List A) (t : Tree A)
      → IsNumbered h i t
      → IsCounted t
      → i * 2 ^ h ≤ prio
      → prio < i * 2 ^ h + 2 ^ h
      → count t + length xs < u64_mod
      → (u : Tree A) × (add_to_leaf prio xs t ≡ some u) × Added h i prio xs t u
  unfolding add_to_leaf count bins append_at
  add_to_leaf-Added h i prio xs (leaf p bin) (e, k) c ge lt m = (
    leaf p (bin ++ xs),
    ground arith,
    (
      (e, k),
      tt,
      length-append bin xs,
      ap (λ m. append_at m xs (bin ∷ [])) (sym (lone h i prio e lt)),
    ),
  )
  add_to_leaf-Added zero i prio xs (node c l r) n ct ge lt m = absurd n
  add_to_leaf-Added (suc h) i prio xs (node c l r) (n, k) (e, cl, cr) ge lt m =
      elim (Bool-cases (ltb prio (i * 2 ^ suc h + 2 ^ h))) [
        | inl b ↦
            let below = ltb→lt prio (i * 2 ^ suc h + 2 ^ h) b in
            let u =
              add_to_leaf-Added h (2 * i) prio xs l n cl (omega (arith, base_left h i))
                (omega (arith, base_left h i, below)) (omega arith) in
            (
              node (add64 c (length xs)) (u.0) r,
              rw u.1,
              (
                (u.2.0, k),
                (add64-small c (length xs) (omega arith) ∙ omega (arith, u.2.2), u.2.1, cr),
                omega (arith, u.2.2),
                ap (λ bs. bs ++ bins r) (u.2.3)
                    ∙ ap (λ m. append_at (prio - m) xs (bins l) ++ bins r) (base_left h i)
                    ∙ sym (
                        append_at-left (prio - i * 2 ^ suc h) xs (bins l) (bins r)
                          (omega (arith, below, length-bins h (2 * i) l n))),
              ),
            )
        | inr b ↦
            let above = not_below prio (i * 2 ^ suc h + 2 ^ h) b in
            let u =
              add_to_leaf-Added h (2 * i + 1) prio xs r k cr (omega (arith, base_right h i, above))
                (omega (arith, base_right h i, pow_twice h)) (omega arith) in
            (
              node c l (u.0),
              rw (
                add_to_leaf-right h (2 * i) prio xs l n (omega (arith, base_left h i, above)),
                u.1,
              ),
              (
                (n, u.2.0),
                (e, cl, u.2.1),
                omega (arith, u.2.2),
                ap (λ bs. bins l ++ bs) (u.2.3)
                    ∙ ap (λ m. bins l ++ append_at m xs (bins r))
                        (omega (arith, base_right h i, length-bins h (2 * i) l n))
                    ∙ sym (
                        append_at-right (prio - i * 2 ^ suc h) xs (bins l) (bins r)
                          (omega (arith, above, length-bins h (2 * i) l n))),
              ),
            )
      ]

module _ {ℓ} {A : Type ℓ} where
  -- What push and push_queue have in common.
  pub add_lem :
      (q : BoundedPqueue A) (xs : List A) (prio : ℕ)
      → IsValid q
      → prio < q.leaves
      → q.total + length xs < u64_mod
      → (root : Tree A) × (add_to_leaf prio xs q.root ≡ some root)
        × IsValid (record q { root = root; total = add64 q.total (length xs) })
        × (bins root ≡ append_at prio xs (bins q.root))
  add_lem q xs prio (h, e, n, c, t, m, r) l room =
      let u = add_to_leaf-Added h 0 prio xs q.root n c (omega arith) (omega arith) (omega arith) in
      (
        u.0,
        u.1,
        (
          h,
          e,
          u.2.0,
          u.2.1,
          add64-small q.total (length xs) room ∙ omega (arith, u.2.2),
          omega (arith, u.2.2),
          r,
        ),
        u.2.3 ∙ ap (λ k. append_at k xs (bins q.root)) (omega arith),
      )

  -- In a queue in order with less than 2 ^ 64 - 1 elements, pushing at a priority below the number
  -- of leaves keeps the order and puts the element behind those of its priority, moving no other.
  pub push_lem :
      (q : BoundedPqueue A) (item : A) (prio : ℕ)
      → IsValid q
      → prio < q.leaves
      → q.total + 1 < u64_mod
      → (q' : BoundedPqueue A) × (push q item prio ≡ some q')
        × IsValid q'
        × (bins q'.root ≡ append_at prio (item ∷ []) (bins q.root))
  unfolding push
  push_lem q item prio v l room =
      let (u, e, v', b) = add_lem q (item ∷ []) prio v l room in
      (record q { root = u; total = add64 q.total 1 }, rw (lt→ltb prio q.leaves l, e), v', b)
