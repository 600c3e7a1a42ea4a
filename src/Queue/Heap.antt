-- ===== src/Queue/Heap.antt =====
-- predicates/queue/heap_implementation.hpp, intrusive.hpp and safe_complex_pqueue.hpp: a binary heap
-- of objects that carry their own priority, their place in the heap and a flag for being in it.
-- Objects are numbers, and a field of all objects is a function of them. `none` is a failed
-- assertion or an access outside the vector.
pub mod Exchange
pub mod Up
pub mod Down
pub mod Queued
pub mod Insert
pub mod Fill
pub mod Pop
pub mod Remove
mod Tests
use meldtools.Common.{
  ℕ, zero, suc, ◌+◌, ◌-◌, ◌*◌, ◌/◌, Bool, true, false, ◌&&◌, Option, none, some, List, ltb, ◌==◌,
  if◌then◌else◌, get_elem?, set, ◌>>=◌, ◌≡◌, not, [], ◌∷◌, ◌++◌, length, take, ◌>>◌, guard,
}
use Prim.Native.Nat.{min}

-- The places in the tree.
abbrev pub left_child : ℕ → ℕ
left_child parent = 2 * parent + 1

abbrev pub right_child : ℕ → ℕ
right_child parent = 2 * parent + 2

abbrev pub parent : ℕ → ℕ
parent child = (child - 1) / 2

-- The vector, and the places that the objects carry.
pub record Slots : Type 0 where
  pub heap : List ℕ
  pub pos : ℕ → ℕ

-- `HEAP_SET_INDEX`
unfoldable pub set_index : ℕ → ℕ → Slots → Slots
set_index index obj s = record {
  heap = set s.heap index obj;
  pos = λ q. if q == obj then index else s.pos q;
}

-- The loops, where `cmp a b` is HEAP_COMPARE of the priorities of two objects. On fuel: `none` is
-- also that the fuel ran out. The flag that heapifyup returns has no reader.
module _ (cmp : ℕ → ℕ → Bool) where
  unfoldable pub heapifyup : ℕ → ℕ → Slots → Option Slots
  heapifyup zero index s = none
  heapifyup (suc fuel) index s = elim (ltb 0 index) [
    | false ↦ some s
    | true ↦ get_elem? s.heap (parent index) >>= λ above. get_elem? s.heap index >>= λ below.
        elim (cmp above below) [
          | true ↦ some s
          | false ↦
              heapifyup fuel (parent index)
                (set_index index above (set_index (parent index) below s))
        ]
  ]

  -- Whether the object at `index` stands before both children, or before the left one where there is
  -- no right one.
  abbrev pub settled : ℕ → ℕ → Option ℕ → Bool
  settled me left none = cmp me left
  settled me left (some right) = cmp me left && cmp me right

  -- `smaller`
  abbrev pub smaller : ℕ → ℕ → Option ℕ → ℕ
  smaller index left none = left_child index
  smaller index left (some right) = if cmp right left then right_child index else left_child index

  unfoldable pub heapifydown : ℕ → ℕ → Slots → Option Slots
  heapifydown zero index s = none
  heapifydown (suc fuel) index s = elim (get_elem? s.heap (left_child index)) [
    | none ↦ some s
    | some left ↦ get_elem? s.heap index >>= λ me.
        let right = get_elem? s.heap (right_child index) in
        let next = smaller index left right in
        elim (settled me left right) [
          | true ↦ some s
          | false ↦ get_elem? s.heap next >>= λ child.
              heapifydown fuel next (set_index next me (set_index index child s))
        ]
  ]

-- `heap.pop_back()`
abbrev pub pop_back : Slots → Slots
pop_back s = record s { heap = take (length s.heap - 1) s.heap }

-- Where the last object goes to the place of the removed one.
unfoldable pub refill : (ℕ → ℕ → Bool) → ℕ → ℕ → Slots → Option Slots
refill cmp index tmp s =
    let fuel = length s.heap + 1 in
    let moved = set_index index tmp s in
    if index == 0 then heapifydown cmp fuel index moved else do
      above ← get_elem? moved.heap (parent index)
      if cmp tmp above then heapifyup cmp fuel index moved else heapifydown cmp fuel index moved

-- `heap_type`
pub data HeapType : Type 0 where
  int_asc int_desc float_asc float_desc : HeapType

-- What the code takes of `double`: the value of a 32-bit integer, and `<=`, which is a total order of
-- the values that are not NaN.
pub record Doubles : Type 1 where
  pub Double : Type 0
  pub of_int : ℕ → Double
  pub le : Double → Double → Bool
  pub le_total : (a b : Double) → le a b ≡ false → le b a ≡ true
  pub le_trans : (a b c : Double) → le a b ≡ true → le b c ≡ true → le a c ≡ true

module _ (D : Doubles) where
  open D use {Double, of_int, le}

  -- `heap_priority`, with both readings of the union.
  pub record HeapPriority : Type 0 where
    pub int_priority : ℕ
    pub float_priority : Double

  abbrev pub get_priority : HeapType → HeapPriority → Double
  get_priority int_asc p = of_int p.int_priority
  get_priority int_desc p = of_int p.int_priority
  get_priority float_asc p = p.float_priority
  get_priority float_desc p = p.float_priority

  -- `HEAP_COMPARE`
  abbrev pub compare_priorities : HeapType → Double → Double → Bool
  compare_priorities int_asc a b = le a b
  compare_priorities float_asc a b = le a b
  compare_priorities int_desc a b = le b a
  compare_priorities float_desc a b = le b a

  -- `intrusive_safe_complex_pqueue`, and the fields of the objects.
  pub record ComplexPqueue : Type 0 where
    pub typ : HeapType
    pub slots : Slots
    pub priority : ℕ → HeapPriority
    pub in_queue : ℕ → Bool

  abbrev pub before : HeapType → (ℕ → HeapPriority) → ℕ → ℕ → Bool
  before typ priority a b =
      compare_priorities typ (get_priority typ (priority a)) (get_priority typ (priority b))

  unfoldable pub insert : ComplexPqueue → ℕ → HeapPriority → Option ComplexPqueue
  insert q node prio = do
    guard (not (q.in_queue node))
    let priority : ℕ → HeapPriority = λ o. if o == node then prio else q.priority o
    let size = length q.slots.heap
    let pushed : Slots = record {
      heap = q.slots.heap ++ node ∷ [];
      pos = λ o. if o == node then size else q.slots.pos o;
    }
    slots ← heapifyup (before q.typ priority) (size + 1) size pushed
    some (record q {
      slots = slots;
      priority = priority;
      in_queue = λ o. if o == node then true else q.in_queue o;
    })

  -- The object, or NULL.
  unfoldable pub pop : ComplexPqueue → Option (Option ℕ × ComplexPqueue)
  pop q = if length q.slots.heap == 0 then some (none, q) else do
    min ← get_elem? q.slots.heap 0
    last ← get_elem? q.slots.heap (length q.slots.heap - 1)
    slots ←
        heapifydown (before q.typ q.priority) (length q.slots.heap + 1) 0
          (pop_back (set_index 0 last q.slots))
    guard (q.in_queue min)
    some (
      some min,
      record q { slots = slots; in_queue = λ o. if o == min then false else q.in_queue o },
    )

  unfoldable pub remove : ComplexPqueue → ℕ → Option ComplexPqueue
  unfolding refill
  remove q obj = do
    let index = q.slots.pos obj
    tmp ← get_elem? q.slots.heap (length q.slots.heap - 1)
    let rest = pop_back q.slots
    let stays = not (length rest.heap == 0) && not (index == length rest.heap)
    slots ← if stays then refill (before q.typ q.priority) index tmp rest else some rest
    some (record q { slots = slots; in_queue = λ o. if o == obj then false else q.in_queue o })

  unfoldable pub move_node : ComplexPqueue → ℕ → HeapPriority → Option ComplexPqueue
  move_node q node new_prio = do removed ← remove q node; insert removed node new_prio
