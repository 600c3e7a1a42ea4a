-- ===== src/Db/Aggregates/Best.antt =====
-- predicates/db/agg_configuration.cpp: generate_max_int, generate_min_int, generate_max_float and
-- generate_min_float
use meldtools.Common.{
  ◌≡◌, ◌⊎◌, refl, Bool, true, false, Option, some, List, [], ◌∷◌, All, Bool-cases, inl, inr, subst,
  sym, ◌∙◌,
}
use mathlib.Core.Option.{some-injective}
use meldtools.Db.Trie.Tuples.{SimpleTuple}
use meldtools.Db.Aggregates.{take_better, pick_loop, generate_best}

module _ {T V : Type 0} (read : T → Option V) (better : V → V → Bool) where
  -- The comparison is a strict order in which values that are not comparable are equivalent.
  pub record IsOrder : Type 0 where
    pub irreflexive : (v : V) → better v v ≡ false
    pub passes : (m v x : V) → better m v ≡ true → better m x ≡ false → better v x ≡ false

  -- The tuple is one of those collected.
  unfoldable pub IsFrom : T → List (SimpleTuple T) → Type 0
  IsFrom t [] = ⊥
  IsFrom t (s ∷ rest) = (t ≡ s.data_of) ⊎ IsFrom t rest

  abbrev pub Readable : List (SimpleTuple T) → Type 0
  Readable vals = All (λ s. (x : V) × (read s.data_of ≡ some x)) vals

  abbrev pub NoneBetter : V → List (SimpleTuple T) → Type 0
  NoneBetter v vals = All (λ s. (x : V) → read s.data_of ≡ some x → better v x ≡ false) vals

  later :
      (u t : T) (s : SimpleTuple T) (rest : List (SimpleTuple T))
      → (u ≡ t) ⊎ IsFrom u rest
      → (u ≡ t) ⊎ IsFrom u (s ∷ rest)
  unfolding IsFrom
  later u t s rest (inl e) = inl e
  later u t s rest (inr from) = inr (inr from)

  pick_loop_lem :
      (v : V) (t : T) (rest : List (SimpleTuple T))
      → IsOrder
      → read t ≡ some v
      → Readable rest
      → (u : T) × (w : V) × (pick_loop read better (v, t) rest ≡ some u)
        × (read u ≡ some w)
        × ((x : V) → better v x ≡ false → better w x ≡ false)
        × NoneBetter w rest
        × ((u ≡ t) ⊎ IsFrom u rest)
  unfolding pick_loop IsFrom take_better
  pick_loop_lem v t [] o e all = (t, v, refl, e, λ x h. h, tt, inl refl)
  pick_loop_lem v t (s ∷ rest) o e ((x, h), all) = elim (Bool-cases (better v x)) [
    | inl b ↦
        let (u, w, run, r, keep, least, from) = pick_loop_lem x s.data_of rest o h all in
        (
          u,
          w,
          rw (h, b) run,
          r,
          λ y k. keep y (o.passes v x y b k),
          (
            λ y k.
                subst (λ z. better w z ≡ false) (some-injective x y (sym h ∙ k))
                  (keep x (o.irreflexive x)),
            least,
          ),
          inr from,
        )
    | inr b ↦
        let (u, w, run, r, keep, least, from) = pick_loop_lem v t rest o e all in
        (
          u,
          w,
          rw (h, b) run,
          r,
          keep,
          (
            λ y k. subst (λ z. better w z ≡ false) (some-injective x y (sym h ∙ k)) (keep x b),
            least,
          ),
          later u t s rest from,
        )
  ]

  -- Of tuples that all have the field, the loop takes one of them, and no other has a better value, for
  -- a comparison that is a strict order.
  pub generate_best_lem :
      (s : SimpleTuple T) (rest : List (SimpleTuple T))
      → IsOrder
      → Readable (s ∷ rest)
      → (u : T) × (w : V) × (generate_best read better (s ∷ rest) ≡ some u)
        × (read u ≡ some w)
        × NoneBetter w (s ∷ rest)
        × IsFrom u (s ∷ rest)
  unfolding generate_best IsFrom
  generate_best_lem s rest o ((x, h), all) =
      let (u, w, run, r, keep, least, from) = pick_loop_lem x s.data_of rest o h all in
      (
        u,
        w,
        rw h run,
        r,
        (
          λ y k.
              subst (λ z. better w z ≡ false) (some-injective x y (sym h ∙ k))
                (keep x (o.irreflexive x)),
          least,
        ),
        from,
      )
