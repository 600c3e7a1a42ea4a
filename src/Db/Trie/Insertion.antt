-- ===== src/Db/Trie/Insertion.antt =====
-- predicates/db/trie.cpp: check_insert
use meldtools.Common.{
  ◌+◌, ◌≡◌, refl, Bool, true, false, Option, none, some, List, [], ◌∷◌, if◌then◌else◌, arith,
  Bool-cases, ◌∙◌, sym, ap, inl, inr, subst, ◌>>=◌, ◌⊎◌,
}
use mathlib.Core.Option.{some-injective}
use meldtools.Db.Trie.{Keys, Node, leaf, listed, hashed, nil}
use meldtools.Db.Trie.Ops.{
  find, scan_start, match, lookup, new_path, Outcome, missing, found, added, below, insert,
  insert_new, insert_path, check_insert, on_match, make_room, count, add_new,
}
use meldtools.Db.Trie.Siblings.{weigh}
use meldtools.Db.Trie.Children.{IsTidy, make_room-IsTidy, match-make_room}
use meldtools.Db.Trie.NewChild.{insert_lem}
use meldtools.Db.Trie.Branches.{IsBranch, branch-IsNode, lookup-match, replaced, Updated-child}
use meldtools.Db.Trie.Paths.{
  IsPath, at_end, along, IsNode, at_leaf, at_branch, IsRoot, Updated, lookup-new_path,
  new_path-IsNode, path_eq,
}

module _ (K : Keys) (L : Type 0) where
  open K use {Key, same, Shape, final, step}

  -- What the loop of check_insert promises. It never fails.
  unfoldable pub IsInserted :
      Bool → L → (L → L) → Shape → List Key → Node K L → Option (Outcome K L) → Type 0
  IsInserted negative fresh add s p n none = ⊥
  IsInserted negative fresh add s p n (some missing) = (negative ≡ true) × (lookup K L p n ≡ none)
  IsInserted negative fresh add s p n (some (found new)) =
      (l : L) × (lookup K L p n ≡ some l) × IsNode K L s new × Updated K L p (some (add l)) n new
  IsInserted negative fresh add s p n (some (added new)) =
      (negative ≡ false)
      × (lookup K L p n ≡ none)
      × IsNode K L s new
      × Updated K L p (some fresh) n new

  module _ (negative : Bool) (fresh : L) (add : L → L) where
    below-IsInserted :
        (s t : Shape) (k : Key) (p : List Key) (n m : Node K L) (o : Option (Outcome K L))
        → IsBranch K L s n
        → match K L k n ≡ some m
        → step s k ≡ some t
        → IsInserted negative fresh add t p m o
        → IsInserted negative fresh add s (k ∷ p) n (o >>= λ x. some (below K L k n x))
    unfolding IsInserted below
    below-IsInserted s t k p n m none b e g i = absurd i
    below-IsInserted s t k p n m (some missing) b e g (h, i) =
        (h, lookup-match K L k p n (some m) e ∙ i)
    below-IsInserted s t k p n m (some (found new)) b e g (l, h, w, u) =
        let (w', u') = replaced K L s t k p n m new (some (add l)) b e g w u in
        (l, lookup-match K L k p n (some m) e ∙ h, w', u')
    below-IsInserted s t k p n m (some (added new)) b e g (z, h, w, u) =
        let (w', u') = replaced K L s t k p n m new (some fresh) b e g w u in
        (z, lookup-match K L k p n (some m) e ∙ h, w', u')

    inserted :
        (s t : Shape) (k : Key) (p : List Key) (n : Node K L)
        → IsBranch K L s n
        → match K L k n ≡ none
        → step s k ≡ some t
        → IsPath K t p
        → negative ≡ false
        → IsInserted negative fresh add s (k ∷ p) n (
            add_new K L (insert K L k (new_path K L p fresh) (make_room K L (count K L k n + 1) n)))
    unfolding IsInserted add_new
    inserted s t k p n b e g w z =
        let room = make_room K L (count K L k n + 1) n in
        let same_match = λ (q : Key). match-make_room K L (count K L k n + 1) n q b.tidy in
        let (new, h, tidy, size, read) =
          insert_lem K L k (new_path K L p fresh) room
            (make_room-IsTidy K L (count K L k n + 1) n b.tidy) (same_match k ∙ e) in
        let read' : (q : Key)
            → match K L q new ≡ (if same k q then some (new_path K L p fresh) else match K L q n) =
          λ q.
            read q ∙ ap (λ x. if same k q then some (new_path K L p fresh) else x) (same_match q) in
        rw h (
          z,
          lookup-match K L k p n none e,
          branch-IsNode K L s k n new (some (new_path K L p fresh)) t b g
              (λ m h.
                subst (IsNode K L t) (some-injective (new_path K L p fresh) m h)
                  (new_path-IsNode K L t p fresh w))
              tidy size read',
          Updated-child K L k p (some fresh) n new (some (new_path K L p fresh)) b.tidy tidy read'
              (λ r. rw e (lookup-new_path K L p fresh r)),
        )

    insert_path-inner :
        (k : Key) (p : List Key) (n : Node K L)
        → IsTidy K L n
        → insert_path K L negative fresh add (k ∷ p) n
          ≡ on_match K L negative fresh add k p n
              (match K L k n)
              (λ m. insert_path K L negative fresh add p m)
    unfolding insert_path IsTidy
    insert_path-inner k p (leaf l) t = absurd t
    insert_path-inner k p (listed c) t = refl
    insert_path-inner k p (hashed bs total) t = refl

    insert_new-add :
        (k : Key) (p : List Key) (n : Node K L)
        → negative ≡ false
        → insert_new K L negative fresh add k p n
          ≡ add_new K L (insert K L k (new_path K L p fresh) (make_room K L (count K L k n + 1) n))
    unfolding insert_new
    insert_new-add k p n z = rw z refl

    insert_new-missing :
        (k : Key) (p : List Key) (n : Node K L)
        → negative ≡ true
        → insert_new K L negative fresh add k p n ≡ some missing
    unfolding insert_new
    insert_new-missing k p n z = rw z refl

    at_match :
        (s t : Shape) (k : Key) (p : List Key) (n : Node K L) (o : Option (Node K L))
        → IsBranch K L s n
        → match K L k n ≡ o
        → step s k ≡ some t
        → IsPath K t p
        → ((m : Node K L)
            → IsNode K L t m
            → IsInserted negative fresh add t p m (insert_path K L negative fresh add p m))
        → IsInserted negative fresh add s
            (k ∷ p)
            n
            (on_match K L negative fresh add k p n o (λ m. insert_path K L negative fresh add p m))
    unfolding on_match IsInserted
    at_match s t k p n none b e g w ih = elim (Bool-cases negative) [
      | inl z ↦
          subst (IsInserted negative fresh add s (k ∷ p) n) (sym (insert_new-missing k p n z))
            (z, lookup-match K L k p n none e)
      | inr z ↦
          subst (IsInserted negative fresh add s (k ∷ p) n) (sym (insert_new-add k p n z))
            (inserted s t k p n b e g w z)
    ]
    at_match s t k p n (some m) b e g w ih =
        below-IsInserted s t k p n m (insert_path K L negative fresh add p m) b e g
          (ih m (b.kids k m e t g))

    only_leaf : (v l : L) → Updated K L [] (some v) (leaf l) (leaf v)
    unfolding lookup path_eq match scan_start find
    only_leaf v l [] = refl
    only_leaf v l (q ∷ r) = refl

    pub insert_path-IsInserted :
        (s : Shape) (p : List Key) (n : Node K L)
        → IsPath K s p
        → IsNode K L s n
        → IsInserted negative fresh add s p n (insert_path K L negative fresh add p n)
    unfolding IsInserted insert_path lookup path_eq
    insert_path-IsInserted s [] (leaf l) (at_end f) w = (l, refl, at_leaf f, only_leaf (add l) l)
    insert_path-IsInserted s [] (listed c) (at_end f) (at_branch z t size a b) =
        absurd (ground arith)
    insert_path-IsInserted s [] (hashed bs total) (at_end f) (at_branch z t size a b) =
        absurd (ground arith)
    insert_path-IsInserted s (k ∷ p) (leaf l) (along z g v) (at_leaf f) = absurd (ground arith)
    insert_path-IsInserted s (k ∷ p) n (along {t = t} z g v) (at_branch y i size a b) =
        rw (insert_path-inner k p n i) (
          at_match s t k p n (match K L k n) (record { inner = y; tidy = i; stepped = a; kids = b })
            refl g v (λ m w. insert_path-IsInserted t p m v w))

    empty-IsBranch : (s : Shape) → final s ≡ false → IsBranch K L s (listed nil)
    unfolding IsTidy match scan_start find weigh
    empty-IsBranch s z = record {
      inner = z;
      tidy = λ q. omega arith;
      stepped = λ k m e. absurd (ground arith);
      kids = λ k m e. absurd (ground arith);
    }

    first_leaf : (v : L) → Updated K L [] (some v) (listed nil) (leaf v)
    unfolding lookup path_eq match scan_start find
    first_leaf v [] = refl
    first_leaf v (q ∷ r) = refl

    ended-IsRoot :
        (s : Shape) (n : Node K L)
        → final s ≡ true
        → IsRoot K L s n
        → ((l : L) × (n ≡ leaf l)) ⊎ (n ≡ listed nil)
    unfolding IsRoot
    ended-IsRoot s n f (inl (at_leaf {l = l} e)) = inl (l, refl)
    ended-IsRoot s n f (inl (at_branch z t size a b)) = absurd (ground arith)
    ended-IsRoot s n f (inr e) = inr e

    -- check_insert never fails. Where the trie has the tuple, its leaf gets the references. Where it
    -- has not, a negative number of references changes nothing, and otherwise the tuple is added. All
    -- other tuples stay as they were, and the tree is a trie again. A tuple without fields that is not
    -- there has to come with a number that is not negative.
    pub check_insert-IsInserted :
        (s : Shape) (p : List Key) (n : Node K L)
        → IsPath K s p
        → IsRoot K L s n
        → (p ≡ [] → lookup K L p n ≡ none → negative ≡ false)
        → IsInserted negative fresh add s p n (check_insert K L negative fresh add p n)
    unfolding check_insert IsInserted IsRoot lookup insert_path on_match
    check_insert-IsInserted s [] n (at_end f) w z = elim (ended-IsRoot s n f w) [
      | inl (l, e) ↦ rw e (l, refl, at_leaf f, only_leaf (add l) l)
      | inr e ↦ rw e (z refl (ap (λ m. lookup K L [] m) e), refl, at_leaf f, first_leaf fresh)
    ]
    check_insert-IsInserted s (k ∷ p) n w (inl v) z = insert_path-IsInserted s (k ∷ p) n w v
    check_insert-IsInserted s (k ∷ p) n (along {t = t} f g v) (inr e) z = rw e (
        at_match s t k p (listed nil) (match K L k (listed nil)) (empty-IsBranch s f) refl g v
          (λ m w. insert_path-IsInserted t p m v w))
