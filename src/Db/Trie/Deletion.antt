-- ===== src/Db/Trie/Deletion.antt =====
-- predicates/db/trie.cpp: delete_path
use meldtools.Common.{
  ◌≡◌, refl, false, Option, none, some, List, [], ◌∷◌, arith, Bool-cases, sym, inl, inr, ◌>>=◌,
}
use meldtools.Db.Trie.{Keys, Node, leaf, listed, hashed}
use meldtools.Db.Trie.Ops.{
  find, scan_start, match, lookup, delete_path, delete_found, unlink_child, drop_child,
}
use meldtools.Db.Trie.Children.{IsTidy}
use meldtools.Db.Trie.OldChild.{IsDropped, drop_child-IsDropped}
use meldtools.Db.Trie.Branches.{IsBranch, branch-IsNode, replaced, Updated-child, lookup-inner}
use meldtools.Db.Trie.Paths.{IsPath, at_end, along, IsNode, at_leaf, at_branch, Updated, path_eq}

module _ (K : Keys) (L : Type 0) where
  open K use {Key, same, Shape, final, step}

  -- What is left of a node after the deletion of a path: nothing where the trie held nothing else.
  unfoldable pub IsDeleted : Shape → List Key → Node K L → Option (Node K L) → Type 0
  IsDeleted s p n none = (r : List Key) → path_eq K p r ≡ false → lookup K L r n ≡ none
  IsDeleted s p n (some new) = IsNode K L s new × Updated K L p none n new

  last_dropped :
      (k : Key) (p : List Key) (n m : Node K L)
      → IsTidy K L n
      → match K L k n ≡ some m
      → ((r : List Key) → path_eq K p r ≡ false → lookup K L r m ≡ none)
      → ((q : Key) → same k q ≡ false → match K L q n ≡ none)
      → (r : List Key) → path_eq K (k ∷ p) r ≡ false
      → lookup K L r n ≡ none
  unfolding path_eq lookup
  last_dropped k p n m t e others d [] h = lookup-inner K L n t
  last_dropped k p n m t e others d (q ∷ r) h = elim (Bool-cases (same k q)) [
    | inl c ↦ rw (sym (K.same_eq k q c), e) (others r (ground (arith, c)))
    | inr c ↦ rw (d q c) refl
  ]

  dropped :
      (s t : Shape) (k : Key) (p : List Key) (n m : Node K L) (o : Option (Node K L))
      → IsBranch K L s n
      → match K L k n ≡ some m
      → step s k ≡ some t
      → ((r : List Key) → path_eq K p r ≡ false → lookup K L r m ≡ none)
      → IsDropped K L k n o
      → IsDeleted s (k ∷ p) n o
  unfolding IsDropped IsDeleted path_eq lookup
  dropped s t k p n m none b e g others d = last_dropped k p n m b.tidy e others d
  dropped s t k p n m (some new) b e g others (tidy, size, read) = (
    branch-IsNode K L s k n new none t b g (λ x h. absurd (ground arith)) tidy size read,
    Updated-child K L k p none n new none b.tidy tidy read (λ r.
        rw e (elim (Bool-cases (path_eq K p r)) [
          | inl c ↦ rw c refl
          | inr c ↦ rw (c, others r c) refl
        ])),
  )

  unlinked :
      (s t : Shape) (k : Key) (p : List Key) (n m : Node K L) (o : Option (Node K L))
      → IsBranch K L s n
      → match K L k n ≡ some m
      → step s k ≡ some t
      → IsDeleted t p m o
      → IsDeleted s (k ∷ p) n (unlink_child K L k n o)
  unfolding IsDeleted unlink_child
  unlinked s t k p n m none b e g d =
      dropped s t k p n m (drop_child K L k n) b e g d (drop_child-IsDropped K L k n m b.tidy e)
  unlinked s t k p n m (some new) b e g (w, u) = replaced K L s t k p n m new none b e g w u

  at_found :
      (s t : Shape) (k : Key) (p : List Key) (n : Node K L) (o : Option (Node K L)) (l : L)
      → IsBranch K L s n
      → match K L k n ≡ o
      → step s k ≡ some t
      → (o >>= λ m. lookup K L p m) ≡ some l
      → ((m : Node K L)
          → IsNode K L t m
          → lookup K L p m ≡ some l
          → IsDeleted t p m (delete_path K L p m))
      → IsDeleted s (k ∷ p) n (delete_found K L k n o (λ m. delete_path K L p m))
  unfolding delete_found
  at_found s t k p n none l b e g h ih = absurd (ground arith)
  at_found s t k p n (some m) l b e g h ih =
      unlinked s t k p n m (delete_path K L p m) b e g (ih m (b.kids k m e t g) h)

  only_leaf : (x : L) (r : List Key) → path_eq K [] r ≡ false → lookup K L r (leaf x) ≡ none
  unfolding path_eq lookup match scan_start find
  only_leaf x [] h = absurd (ground arith)
  only_leaf x (q ∷ r) h = refl

  -- delete_path takes the tuple out of the trie and no other. No node stays without a leaf below it.
  pub delete_path-IsDeleted :
      (s : Shape) (p : List Key) (n : Node K L) (l : L)
      → IsPath K s p
      → IsNode K L s n
      → lookup K L p n ≡ some l
      → IsDeleted s p n (delete_path K L p n)
  unfolding IsDeleted delete_path lookup path_eq match scan_start find
  delete_path-IsDeleted s [] (leaf x) l (at_end f) w e = only_leaf x
  delete_path-IsDeleted s [] (listed c) l (at_end f) w e = absurd (ground arith)
  delete_path-IsDeleted s [] (hashed bs total) l (at_end f) w e = absurd (ground arith)
  delete_path-IsDeleted s (k ∷ p) n l (along z g v) (at_leaf f) e = absurd (ground arith)
  delete_path-IsDeleted s (k ∷ p) n l (along {t = t} z g v) (at_branch y i size a b) e =
      at_found s t k p n (match K L k n) l (record { inner = y; tidy = i; stepped = a; kids = b })
        refl g e (λ m w h. delete_path-IsDeleted t p m l v w h)
