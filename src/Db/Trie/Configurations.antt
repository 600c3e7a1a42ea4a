-- ===== src/Db/Trie/Configurations.antt =====
-- predicates/db/trie.cpp and trie.hpp: agg_trie::find_configuration. A leaf holds its configuration,
-- which is NULL at first; add_count of such a leaf does nothing. The path is that of the fields before
-- the aggregated one.
use meldtools.Common.{
  ℕ, ◌+◌, ◌%◌, ◌≡◌, refl, false, Option, none, some, List, [], ◌∷◌, ◌++◌, ◌>>=◌, u32_mod,
  Bool-cases, inl, inr, sym, arith,
}
use meldtools.Db.Trie.{Keys, Node}
use meldtools.Db.Trie.Ops.{lookup, Outcome, missing, found, added, check_insert}
use meldtools.Db.Trie.Paths.{IsPath, IsRoot, Updated, path_eq}
use meldtools.Db.Trie.Tuples.Leaves.{path_eq_sound}
use meldtools.Db.Trie.Insertion.{IsInserted, check_insert-IsInserted}

module _ (K : Keys) (C : Type 0) where
  open K use {Key, Shape}

  pub record AggTrie : Type 0 where
    pub root : Node K (Option C)
    pub number_of_references : ℕ
    pub leaves : List (List Key)

  -- What check_insert leaves of the trie.
  unfoldable pub end_find : List Key → AggTrie → Option (Outcome K (Option C)) → Option AggTrie
  end_find p t none = none
  end_find p t (some missing) = none
  end_find p t (some (found new)) =
      some (record { root = new; number_of_references = t.number_of_references; leaves = t.leaves })
  end_find p t (some (added new)) = some (record {
    root = new;
    number_of_references = (t.number_of_references + 1) % u32_mod;
    leaves = t.leaves ++ p ∷ [];
  })

  unfoldable pub find_configuration : List Key → AggTrie → Option AggTrie
  find_configuration p t = end_find p t (check_insert K (Option C) false none (λ l. l) p t.root)

  -- The configuration of a path, none where there is no leaf or it is NULL.
  unfoldable pub configuration : List Key → AggTrie → Option C
  configuration p t = lookup K (Option C) p t.root >>= λ l. l

  same_found :
      (p : List Key) (root new : Node K (Option C)) (l : Option C)
      → lookup K (Option C) p root ≡ some l
      → Updated K (Option C) p (some l) root new
      → (r : List Key)
      → (lookup K (Option C) r new >>= λ x. x) ≡ (lookup K (Option C) r root >>= λ x. x)
  same_found p root new l e u r = elim (Bool-cases (path_eq K p r)) [
    | inl b ↦ rw (u r, b, sym (path_eq_sound K p r b), e) refl
    | inr b ↦ rw (u r, b) refl
  ]

  same_added :
      (p : List Key) (root new : Node K (Option C))
      → lookup K (Option C) p root ≡ none
      → Updated K (Option C) p (some none) root new
      → (r : List Key)
      → (lookup K (Option C) r new >>= λ x. x) ≡ (lookup K (Option C) r root >>= λ x. x)
  same_added p root new e u r = elim (Bool-cases (path_eq K p r)) [
    | inl b ↦ rw (u r, b, sym (path_eq_sound K p r b), e) refl
    | inr b ↦ rw (u r, b) refl
  ]

  end_find_lem :
      (s : Shape) (p : List Key) (t : AggTrie) (o : Option (Outcome K (Option C)))
      → IsInserted K (Option C) false none (λ l. l) s p t.root o
      → (new : AggTrie) × (end_find p t o ≡ some new)
        × IsRoot K (Option C) s new.root
        × ((r : List Key) → configuration r new ≡ configuration r t)
  unfolding IsInserted end_find IsRoot configuration
  end_find_lem s p t none i = absurd i
  end_find_lem s p t (some missing) (z, e) = absurd (ground arith)
  end_find_lem s p t (some (found new)) (l, e, w, u) =
      (_, refl, inl w, λ r. same_found p t.root new l e u r)
  end_find_lem s p t (some (added new)) (z, e, w, u) =
      (_, refl, inl w, λ r. same_added p t.root new e u r)

  -- find_configuration does not fail on a trie and a path that fits its types. What it leaves is a trie,
  -- or still one without tuples, and no configuration of any path changes.
  find_configuration_lem :
      (s : Shape) (p : List Key) (t : AggTrie)
      → IsPath K s p
      → IsRoot K (Option C) s t.root
      → (new : AggTrie) × (find_configuration p t ≡ some new)
        × IsRoot K (Option C) s new.root
        × ((r : List Key) → configuration r new ≡ configuration r t)
  unfolding find_configuration
  find_configuration_lem s p t w v =
      end_find_lem s p t (check_insert K (Option C) false none (λ l. l) p t.root)
        (check_insert-IsInserted K (Option C) false none (λ l. l) s p t.root w v (λ e h. refl))
