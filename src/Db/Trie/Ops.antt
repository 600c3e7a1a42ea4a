-- ===== src/Db/Trie/Ops.antt =====
-- predicates/db/trie.cpp: the operations of trie_node and trie_hash, the insertion of a path and the
-- deletion of one. The keys that check_insert pops from its two stacks, one in each round, are a path.
use meldtools.Common.{
  ℕ, zero, suc, ◌+◌, ◌-◌, ◌*◌, Bool, Option, none, some, List, [], ◌∷◌, ltb, ◌==◌, if◌then◌else◌,
  ◌>>=◌,
}
use Prim.Native.Nat.{bit_and}
use meldtools.Db.Trie.{
  Keys, Node, leaf, listed, hashed, Chain, nil, child, Buckets, last, bucket, list_threshold,
  base_buckets, max_nodes_per_bucket,
}

module _ (K : Keys) (L : Type 0) where
  open K use {Key, same, hash}

  -- The loop of `match`: the node that it finds, and the rounds that it takes.
  unfoldable pub find : Key → Chain K L → Option (Node K L)
  find k nil = none
  find k (child q n c) = if same q k then some n else find k c

  unfoldable pub rounds : Key → Chain K L → ℕ
  rounds k nil = 0
  rounds k (child q n c) = suc (if same q k then 0 else rounds k c)

  -- A write through the pointer to the child that was found, and the unlinking of that child.
  unfoldable pub replace : Key → Node K L → Chain K L → Chain K L
  replace k m nil = nil
  replace k m (child q n c) = if same q k then child q m c else child q n (replace k m c)

  unfoldable pub unlink : Key → Chain K L → Chain K L
  unlink k nil = nil
  unlink k (child q n c) = if same q k then c else child q n (unlink k c)

  -- The array of buckets.
  unfoldable pub num_buckets : Buckets K L → ℕ
  num_buckets last = 0
  num_buckets (bucket c bs) = suc (num_buckets bs)

  unfoldable pub nth : ℕ → Buckets K L → Chain K L
  nth i last = nil
  nth zero (bucket c bs) = c
  nth (suc i) (bucket c bs) = nth i bs

  unfoldable pub put : ℕ → Chain K L → Buckets K L → Buckets K L
  put i d last = last
  put zero d (bucket c bs) = bucket d bs
  put (suc i) d (bucket c bs) = bucket c (put i d bs)

  unfoldable pub blank : ℕ → Buckets K L
  blank zero = last
  blank (suc n) = bucket nil (blank n)

  unfoldable pub hash_item : ℕ → Buckets K L → ℕ
  hash_item item bs = bit_and item (num_buckets bs - 1)

  unfoldable pub get : Key → Buckets K L → Chain K L
  get k bs = nth (hash_item (hash k) bs) bs

  unfoldable pub insert_hash : Key → Node K L → Buckets K L → Buckets K L
  insert_hash k n bs = put (hash_item (hash k) bs) (child k n (get k bs)) bs

  -- The loop of convert_hash, and the inner loop of expand.
  unfoldable pub fill : Chain K L → Buckets K L → Buckets K L
  fill nil bs = bs
  fill (child k n c) bs = fill c (insert_hash k n bs)

  unfoldable pub refill : Buckets K L → Buckets K L → Buckets K L
  refill last new = new
  refill (bucket c bs) new = refill bs (fill c new)

  unfoldable pub expand : Buckets K L → Buckets K L
  expand bs = refill bs (blank (num_buckets bs * 2))

  unfoldable pub chain_length : Chain K L → ℕ
  chain_length nil = 0
  chain_length (child k n c) = suc (chain_length c)

  unfoldable pub convert_hash : Chain K L → Node K L
  convert_hash c = hashed (fill c (blank base_buckets)) (chain_length c)

  -- Where `match` starts.
  unfoldable pub scan_start : Key → Node K L → Chain K L
  scan_start k (leaf l) = nil
  scan_start k (listed c) = c
  scan_start k (hashed bs total) = get k bs

  unfoldable pub match : Key → Node K L → Option (Node K L)
  match k n = find k (scan_start k n)

  unfoldable pub count : Key → Node K L → ℕ
  count k n = rounds k (scan_start k n)

  -- trie_node::insert, of a child that is built already.
  unfoldable pub insert : Key → Node K L → Node K L → Option (Node K L)
  insert k m (leaf l) = none
  insert k m (listed c) = some (listed (child k m c))
  insert k m (hashed bs total) = some (hashed (insert_hash k m bs) (total + 1))

  -- What check_insert does before it inserts, where `seen` is the count plus one.
  unfoldable pub make_room : ℕ → Node K L → Node K L
  make_room seen (leaf l) = leaf l
  make_room seen (listed c) = if ltb list_threshold seen then convert_hash c else listed c
  make_room seen (hashed bs total) =
      if ltb max_nodes_per_bucket seen then hashed (expand bs) total else hashed bs total

  -- The nodes for the keys that the stacks still hold, down to the new leaf.
  unfoldable pub new_path : List Key → L → Node K L
  new_path [] l = leaf l
  new_path (k ∷ p) l = listed (child k (new_path p l) nil)

  unfoldable pub set_child : Key → Node K L → Node K L → Node K L
  set_child k m (leaf l) = leaf l
  set_child k m (listed c) = listed (replace k m c)
  set_child k m (hashed bs total) =
      hashed (put (hash_item (hash k) bs) (replace k m (get k bs)) bs) total

  -- What check_insert returns, with the node that it leaves: NULL, or the leaf with `found`.
  pub data Outcome : Type 0 where
    missing : Outcome
    found : Node K L → Outcome
    added : Node K L → Outcome

  unfoldable pub below : Key → Node K L → Outcome → Outcome
  below k n missing = missing
  below k n (found m) = found (set_child k m n)
  below k n (added m) = added (set_child k m n)

  unfoldable pub add_new : Option (Node K L) → Option Outcome
  add_new none = none
  add_new (some n) = some (added n)

  -- Where `negative` says that many < 0, `fresh` is what create_leaf returns and `add` is add_count.
  module _ (negative : Bool) (fresh : L) (add : L → L) where
    unfoldable pub insert_new : Key → List Key → Node K L → Option Outcome
    insert_new k p n =
        if negative
        then some missing
        else add_new (insert k (new_path p fresh) (make_room (count k n + 1) n))

    unfoldable pub on_match :
        Key → List Key → Node K L → Option (Node K L) → (Node K L → Option Outcome) → Option Outcome
    on_match k p n none rest = insert_new k p n
    on_match k p n (some m) rest = rest m >>= λ o. some (below k n o)

    -- The loop of check_insert.
    unfoldable pub insert_path : List Key → Node K L → Option Outcome
    insert_path [] (leaf l) = some (found (leaf (add l)))
    insert_path [] (listed c) = none
    insert_path [] (hashed bs total) = none
    insert_path (k ∷ p) (leaf l) = none
    insert_path (k ∷ p) (listed c) =
        on_match k p (listed c) (match k (listed c)) (λ m. insert_path p m)
    insert_path (k ∷ p) (hashed bs total) =
        on_match k p (hashed bs total) (match k (hashed bs total)) (λ m. insert_path p m)

    unfoldable pub check_insert : List Key → Node K L → Option Outcome
    check_insert [] (leaf l) = some (found (leaf (add l)))
    check_insert [] (listed c) = some (added (leaf fresh))
    check_insert [] (hashed bs total) = some (added (leaf fresh))
    check_insert (k ∷ p) n = insert_path (k ∷ p) n

  -- What delete_path leaves of a node that loses a child, `none` where that was the last one.
  unfoldable pub drop_listed : Chain K L → Option (Node K L)
  drop_listed nil = none
  drop_listed (child k n c) = some (listed (child k n c))

  unfoldable pub drop_child : Key → Node K L → Option (Node K L)
  drop_child k (leaf l) = some (leaf l)
  drop_child k (listed c) = drop_listed (unlink k c)
  drop_child k (hashed bs total) =
      if total - 1 == 0
      then none
      else some (hashed (put (hash_item (hash k) bs) (unlink k (get k bs)) bs) (total - 1))

  unfoldable pub unlink_child : Key → Node K L → Option (Node K L) → Option (Node K L)
  unlink_child k n none = drop_child k n
  unlink_child k n (some m) = some (set_child k m n)

  unfoldable pub delete_found :
      Key → Node K L → Option (Node K L) → (Node K L → Option (Node K L)) → Option (Node K L)
  delete_found k n none rest = some n
  delete_found k n (some m) rest = unlink_child k n (rest m)

  -- The node at the end of the path lost its leaf: what is left of the nodes from here down to it.
  unfoldable pub delete_path : List Key → Node K L → Option (Node K L)
  delete_path [] n = none
  delete_path (k ∷ p) n = delete_found k n (match k n) (λ m. delete_path p m)

  -- The leaf that a path leads to.
  unfoldable pub lookup : List Key → Node K L → Option L
  lookup [] (leaf l) = some l
  lookup [] (listed c) = none
  lookup [] (hashed bs total) = none
  lookup (k ∷ p) n = match k n >>= λ m. lookup p m
