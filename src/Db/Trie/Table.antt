-- ===== src/Db/Trie/Table.antt =====
-- predicates/db/trie.cpp: trie_hash
use Prim.Native.Nat.{bit_and, bit_and-bitwise, min}
use meldtools.Common.{
  ℕ, zero, suc, ◌+◌, ◌-◌, ◌/◌, ◌≤◌, ◌<◌, ◌≡◌, refl, if◌then◌else◌, arith, Bool-cases, sym, ap, inl,
  inr, ◌==◌, subst,
}
use meldtools.Db.Trie.{Keys, Chain, nil, Buckets, last, bucket}
use meldtools.Db.Trie.Ops.{find, nth, put, blank, num_buckets, hash_item, get}
use meldtools.Db.Trie.Siblings.{join, weigh, occ, is, weigh-join, find-join, find-absent}

digits_le : (n a b : ℕ) → Prim.Native.Nat.digits (λ b. zero) min n a b ≤ b
digits_le zero a b = omega arith
digits_le (suc n) zero b = omega arith
digits_le (suc n) (suc a) b = omega (arith, digits_le n (suc a / 2) (b / 2))

bit_and_le : (a b : ℕ) → bit_and a b ≤ b
bit_and_le a b = subst (λ x. x ≤ b) (sym (bit_and-bitwise a b)) (digits_le a a b)

module _ (K : Keys) (L : Type 0) where
  open K use {Key, same, hash}

  -- All chains, one after the other.
  unfoldable pub all : Buckets K L → Chain K L
  all last = nil
  all (bucket c bs) = join K L c (all bs)

  -- Where there are buckets, the bucket of a hash is one of them.
  pub hash_item_lem :
      (item : ℕ) (bs : Buckets K L)
      → 1 ≤ num_buckets K L bs
      → hash_item K L item bs < num_buckets K L bs
  unfolding hash_item
  hash_item_lem item bs h = omega (arith, bit_and_le item (num_buckets K L bs - 1))

  pub num_buckets-put :
      (i : ℕ) (c : Chain K L) (bs : Buckets K L)
      → num_buckets K L (put K L i c bs) ≡ num_buckets K L bs
  unfolding num_buckets put
  num_buckets-put i c last = refl
  num_buckets-put zero c (bucket d bs) = refl
  num_buckets-put (suc i) c (bucket d bs) = ap suc (num_buckets-put i c bs)

  pub nth-put :
      (i j : ℕ) (c : Chain K L) (bs : Buckets K L)
      → i < num_buckets K L bs
      → nth K L j (put K L i c bs) ≡ (if i == j then c else nth K L j bs)
  unfolding num_buckets put nth
  nth-put i j c last h = absurd (omega arith)
  nth-put zero zero c (bucket d bs) h = refl
  nth-put zero (suc j) c (bucket d bs) h = ground arith
  nth-put (suc i) zero c (bucket d bs) h = ground arith
  nth-put (suc i) (suc j) c (bucket d bs) h = ground (arith, nth-put i j c bs)

  pub weigh-put :
      (w : Key → ℕ) (i : ℕ) (c : Chain K L) (bs : Buckets K L)
      → i < num_buckets K L bs
      → weigh K L w (all (put K L i c bs)) + weigh K L w (nth K L i bs)
        ≡ weigh K L w c + weigh K L w (all bs)
  unfolding num_buckets put nth all
  weigh-put w i c last h = absurd (omega arith)
  weigh-put w zero c (bucket d bs) h =
      omega (arith, weigh-join K L w c (all bs), weigh-join K L w d (all bs))
  weigh-put w (suc i) c (bucket d bs) h = omega (
    arith,
    weigh-join K L w d (all (put K L i c bs)),
    weigh-join K L w d (all bs),
    weigh-put w i c bs,
  )

  pub weigh-nth :
      (w : Key → ℕ) (i : ℕ) (bs : Buckets K L) → weigh K L w (nth K L i bs) ≤ weigh K L w (all bs)
  unfolding nth all weigh
  weigh-nth w i last = omega arith
  weigh-nth w zero (bucket c bs) = omega (arith, weigh-join K L w c (all bs))
  weigh-nth w (suc i) (bucket c bs) = omega (arith, weigh-join K L w c (all bs), weigh-nth w i bs)

  pub num_buckets-blank : (n : ℕ) → num_buckets K L (blank K L n) ≡ n
  unfolding num_buckets blank
  num_buckets-blank zero = refl
  num_buckets-blank (suc n) = ap suc (num_buckets-blank n)

  pub weigh-blank : (w : Key → ℕ) (n : ℕ) → weigh K L w (all (blank K L n)) ≡ 0
  unfolding all weigh blank join
  weigh-blank w zero = refl
  weigh-blank w (suc n) = weigh-blank w n

  pub nth-blank : (n i : ℕ) → nth K L i (blank K L n) ≡ nil
  unfolding nth blank
  nth-blank zero i = refl
  nth-blank (suc n) zero = refl
  nth-blank (suc n) (suc i) = nth-blank n i

  -- Where all children with a key are in one bucket, the search can go there.
  pub find-nth :
      (q : Key) (i : ℕ) (bs : Buckets K L)
      → occ K L q (nth K L i bs) ≡ occ K L q (all bs)
      → find K L q (nth K L i bs) ≡ find K L q (all bs)
  unfolding nth all
  find-nth q i last h = refl
  find-nth q zero (bucket c bs) h =
      let none_after : occ K L q (all bs) ≡ 0 =
        omega (arith, weigh-join K L (is K L q) c (all bs)) in
      elim (Bool-cases (occ K L q c == 0)) [
        | inl b ↦
            ground
              (arith, find-join K L q c (all bs), find-absent K L q c, find-absent K L q (all bs))
        | inr b ↦ ground (arith, find-join K L q c (all bs))
      ]
  find-nth q (suc i) (bucket c bs) h = ground (
    arith,
    find-join K L q c (all bs),
    weigh-join K L (is K L q) c (all bs),
    weigh-nth (is K L q) i bs,
    find-nth q i bs,
  )

  -- Every child is in the bucket of its key.
  abbrev pub IsPlaced : Buckets K L → Type 0
  IsPlaced bs = (q : Key) → occ K L q (get K L q bs) ≡ occ K L q (all bs)
