-- ===== src/Db/Trie/Tuples/Run.antt =====
-- predicates/db/agg_configuration.cpp: add_to_set, on a trie that starts out empty
use meldtools.Common.{
  ℕ, ◌≤◌, ◌<◌, ◌+◌, ◌-◌, ◌≡◌, ◌⊎◌, refl, true, false, ◌&&◌, Option, some, List, [], ◌∷◌,
  if◌then◌else◌, arith, sym, ap, subst, inr, ◌==◌, ◌>>=◌, ltb, u16_mod,
}
use meldtools.Db.Trie.{Keys}
use meldtools.Db.Trie.Paths.{path_eq, IsPath, IsRoot}
use meldtools.Db.Trie.Tuples.{
  TupleTrie, short_min, is_negative, opposite, add_int, add_to_set, end_add, empty_trie,
}
use meldtools.Db.Trie.Tuples.Leaves.{times, sum_of}
use meldtools.Db.Trie.Tuples.Invariant.{IsTrie, is_some, count_of, lookup-empty}
use meldtools.Db.Trie.Tuples.Insert.{IsMore, insert_tuple_lem, add_int_lem}
use meldtools.Db.Trie.Tuples.Commit.{IsFewer}
use meldtools.Db.Trie.Tuples.Delete.{remove_tuple_lem}

opposite_range :
    (many : ℕ)
    → short_min < many
    → many < u16_mod
    → (1 ≤ opposite many) × (opposite many < short_min)
unfolding opposite
opposite_range many low high = (omega arith, omega arith)

module _ (K : Keys) (D : Type 0) (path : D → List K.Key) where
  open K use {Key, Shape}

  unfoldable pub add_all : List (D × ℕ) → TupleTrie K D path → Option (TupleTrie K D path)
  add_all [] t = some t
  add_all ((d, many) ∷ calls) t = add_to_set K D path d many t >>= λ new. add_all calls new

  -- A map from paths to numbers of references, and what a call does to it.
  unfoldable pub change : D → ℕ → (List Key → ℕ) → List Key → ℕ
  change d many f r =
      if path_eq K (path d) r
      then if is_negative many then f r - opposite many else f r + many
      else f r

  unfoldable pub changes : List (D × ℕ) → (List Key → ℕ) → List Key → ℕ
  changes [] f = f
  changes ((d, many) ∷ calls) f = changes calls (change d many f)

  -- The calls have tuples of the predicate. One that deletes has a tuple that is absent or has so many
  -- references, and all that add together have fewer than 2 ^ 15, `n` of them before.
  pub data IsLegal : Shape → List (D × ℕ) → (List Key → ℕ) → ℕ → Type 0 where
    finished : {s : Shape} {f : List Key → ℕ} {n : ℕ} → IsLegal s [] f n
    adding :
        {s : Shape} {d : D} {many : ℕ} {calls : List (D × ℕ)} {f : List Key → ℕ} {n : ℕ}
        → IsPath K s (path d)
        → 1 ≤ many
        → n + many < short_min
        → IsLegal s calls (change d many f) (n + many)
        → IsLegal s ((d, many) ∷ calls) f n
    removing :
        {s : Shape} {d : D} {many : ℕ} {calls : List (D × ℕ)} {f : List Key → ℕ} {n : ℕ}
        → IsPath K s (path d)
        → short_min < many
        → many < u16_mod
        → (path d ≡ [] → 1 ≤ f (path d))
        → (opposite many ≤ f (path d)) ⊎ (f (path d) ≡ 0)
        → IsLegal s calls (change d many f) n
        → IsLegal s ((d, many) ∷ calls) f n

  add_to_set-add :
      (s : Shape) (d : D) (many : ℕ) (t : TupleTrie K D path)
      → IsTrie K D path s t
      → IsPath K s (path d)
      → 1 ≤ many
      → t.number_of_references + many < short_min
      → (new : TupleTrie K D path) × (add_to_set K D path d many t ≡ some new)
        × IsMore K D path s (path d) many t new
  unfolding add_to_set end_add
  add_to_set-add s d many t v w pos small =
      let positive : (ltb 0 many && ltb many short_min) ≡ true = ground arith in
      let (new, e, m) = insert_tuple_lem K D path s d many t v w pos small in
      let grown : (new.number_of_references == add_int t.number_of_references many) ≡ true =
        ground (arith, m.number, add_int_lem t.number_of_references many small) in
      (new, rw (positive, e, grown) refl, m)

  add_to_set-remove :
      (s : Shape) (d : D) (many : ℕ) (t : TupleTrie K D path)
      → IsTrie K D path s t
      → IsPath K s (path d)
      → short_min < many
      → many < u16_mod
      → (path d ≡ [] → 1 ≤ count_of K D path t.root (path d))
      → (opposite many ≤ count_of K D path t.root (path d))
        ⊎ (count_of K D path t.root (path d) ≡ 0)
      → (new : TupleTrie K D path) × (add_to_set K D path d many t ≡ some new)
        × IsFewer K D path s (path d) (opposite many) t new
  unfolding add_to_set
  add_to_set-remove s d many t v w low high inner h =
      let negative : (ltb 0 many && ltb many short_min) ≡ false = ground arith in
      let (pos, small) = opposite_range many low high in
      let (new, e, m) = remove_tuple_lem K D path s d (opposite many) t v w pos small inner h in
      (new, rw (negative, e) refl, m)

  added_same :
      (d : D) (many : ℕ) (f : List Key → ℕ) (r : List Key) (c k : ℕ)
      → c ≡ (if path_eq K (path d) r then k + many else k)
      → k ≡ f r
      → many < short_min
      → c ≡ change d many f r
  unfolding change
  added_same d many f r c k e h small = ground (arith, e, h)

  removed_same :
      (d : D) (many : ℕ) (f : List Key → ℕ) (r : List Key) (c k : ℕ)
      → c ≡ (if path_eq K (path d) r then k - opposite many else k)
      → k ≡ f r
      → short_min < many
      → c ≡ change d many f r
  unfolding change
  removed_same d many f r c k e h low = ground (arith, e, h)

  -- add_to_set implements the map: from a trie in order that holds what the map says, every legal
  -- sequence of calls runs to its end, and leaves a trie in order that holds what the map says then.
  pub add_all_lem :
      (s : Shape) (calls : List (D × ℕ)) (f : List Key → ℕ) (n : ℕ) (t : TupleTrie K D path)
      → IsTrie K D path s t
      → t.number_of_references ≤ n
      → ((r : List Key) → count_of K D path t.root r ≡ f r)
      → IsLegal s calls f n
      → (new : TupleTrie K D path) × (add_all calls t ≡ some new)
        × IsTrie K D path s new
        × ((r : List Key) → count_of K D path new.root r ≡ changes calls f r)
  unfolding add_all changes
  add_all_lem s [] f n t v small same finished = (t, refl, v, same)
  add_all_lem s ((d, many) ∷ calls) f n t v small same (adding w pos fits rest) =
      let (mid, e, m) = add_to_set-add s d many t v w pos (omega arith) in
      let (new, h, u, all) =
        add_all_lem s calls (change d many f) (n + many) mid m.trie (omega (arith, m.number))
          (λ r.
            added_same d many f r (count_of K D path mid.root r) (count_of K D path t.root r)
              (m.counts r) (same r) (omega arith))
          rest in
      (new, rw (e, h) refl, u, all)
  add_all_lem s ((d, many) ∷ calls) f n t v small same (removing w low high inner there rest) =
      let (mid, e, m) =
        add_to_set-remove s d many t v w low high
          (λ h. subst (λ x. 1 ≤ x) (sym (same (path d))) (inner h))
          (subst (λ x. (opposite many ≤ x) ⊎ (x ≡ 0)) (sym (same (path d))) there) in
      let (new, h, u, all) =
        add_all_lem s calls (change d many f) n mid m.trie (omega (arith, m.no_more))
          (λ r.
            removed_same d many f r (count_of K D path mid.root r) (count_of K D path t.root r)
              (m.counts r) (same r) low)
          rest in
      (new, rw (e, h) refl, u, all)

  -- A new trie is in order.
  pub empty_trie-IsTrie : (s : Shape) → IsTrie K D path s (empty_trie K D path)
  unfolding empty_trie IsRoot times is_some sum_of
  empty_trie-IsTrie s = record {
    rooted = inr refl;
    linked = λ r. sym (ap (is_some K D path) (lookup-empty K D path r));
    referred = λ r l e. absurd (ground (arith, lookup-empty K D path r));
    own_path = λ r l e. absurd (ground (arith, lookup-empty K D path r));
    summed = refl;
    small = omega arith;
  }
