-- ===== src/Runtime/List.antt =====
-- predicates/runtime/list.hpp: lists, and the stacks and vectors that lists are built from. The
-- cells of a list are never changed once they are shared, so a list pointer is the list itself;
-- reference counts are left out. A value of `int_val` or `node_val` is its 32-bit pattern.
pub mod Serial
pub mod Pack
pub mod RoundTrip
mod Tests
use mathlib.Core.List.{reverse, reverse-cons, reverse-reverse}
use meldtools.Common.{
  ℕ, ◌-◌, ◌≡◌, refl, sym, ap, ◌∙◌, ◌↔◌, Bool, true, false, ◌&&◌, List, [], ◌∷◌, ◌++◌, append_assoc,
  append-nil, arith, ◌==◌, if◌then◌else◌,
}

-- `cons<T>::equal`
unfoldable pub equal : List ℕ → List ℕ → Bool
equal [] [] = true
equal [] (y ∷ ys) = false
equal (x ∷ xs) [] = false
equal (x ∷ xs) (y ∷ ys) = x == y && equal xs ys

-- `cons<T>::get`
unfoldable pub get : List ℕ → ℕ → ℕ → ℕ
get [] pos def = def
get (x ∷ xs) pos def = let rest = get xs (pos - 1) def in if pos == 0 then x else rest

-- `cons<T>::copy`: `cur` is the last cell of the copy so far.
copy_loop : List ℕ → List ℕ → List ℕ
copy_loop init [] = init
copy_loop init (x ∷ xs) = copy_loop (init ++ x ∷ []) xs

unfoldable pub copy : List ℕ → List ℕ
unfolding copy_loop
copy [] = []
copy (x ∷ xs) = copy_loop (x ∷ []) xs

-- `stl_list`: `push_back` of each element.
stl_loop : List ℕ → List ℕ → List ℕ
stl_loop out [] = out
stl_loop out (x ∷ xs) = stl_loop (out ++ x ∷ []) xs

unfoldable pub stl_list : List ℕ → List ℕ
unfolding stl_loop
stl_list ls = stl_loop [] ls

-- A stack, with its top first, is emptied into a list from the list's end on.
list_from : List ℕ → List ℕ → List ℕ
list_from ptr [] = ptr
list_from ptr (top ∷ stk) = list_from (top ∷ ptr) stk

unfoldable pub from_stack_to_list : List ℕ → List ℕ
unfolding list_from
from_stack_to_list stk = list_from [] stk

-- Onto a second stack first.
turn : List ℕ → List ℕ → List ℕ
turn stk2 [] = stk2
turn stk2 (top ∷ stk) = turn (top ∷ stk2) stk

unfoldable pub from_stack_to_reverse_list : List ℕ → List ℕ
unfolding turn
from_stack_to_reverse_list stk = from_stack_to_list (turn [] stk)

vector_from : List ℕ → List ℕ → List ℕ
vector_from ptr [] = ptr
vector_from ptr (x ∷ vec) = vector_from (x ∷ ptr) vec

unfoldable pub from_vector_to_reverse_list : List ℕ → List ℕ
unfolding vector_from
from_vector_to_reverse_list vec = vector_from [] vec

-- Two lists are equal for the virtual machine exactly when they are the same list.
pub equal_iff : (xs ys : List ℕ) → (equal xs ys ≡ true) ↔ (xs ≡ ys)
unfolding equal
equal_iff [] [] = (λ _. refl, λ _. refl)
equal_iff [] (y ∷ ys) = (λ e. cc, λ e. cc)
equal_iff (x ∷ xs) [] = (λ e. cc, λ e. cc)
equal_iff (x ∷ xs) (y ∷ ys) = ground (arith, equal_iff xs ys)

copy_loop_lem : (init xs : List ℕ) → copy_loop init xs ≡ init ++ xs
unfolding copy_loop
copy_loop_lem init [] = sym (append-nil init)
copy_loop_lem init (x ∷ xs) = copy_loop_lem (init ++ x ∷ []) xs ∙ append_assoc init (x ∷ []) xs

stl_loop_lem : (out xs : List ℕ) → stl_loop out xs ≡ out ++ xs
unfolding stl_loop
stl_loop_lem out [] = sym (append-nil out)
stl_loop_lem out (x ∷ xs) = stl_loop_lem (out ++ x ∷ []) xs ∙ append_assoc out (x ∷ []) xs

pub copy_lem : (ls : List ℕ) → copy ls ≡ ls
unfolding copy
copy_lem [] = refl
copy_lem (x ∷ xs) = copy_loop_lem (x ∷ []) xs

pub stl_list_lem : (ls : List ℕ) → stl_list ls ≡ ls
unfolding stl_list
stl_list_lem ls = stl_loop_lem [] ls

list_from_lem : (ptr stk : List ℕ) → list_from ptr stk ≡ reverse stk ++ ptr
unfolding list_from
list_from_lem ptr [] = refl
list_from_lem ptr (x ∷ stk) =
    list_from_lem (x ∷ ptr) stk
    ∙ sym (rw (reverse-cons x stk) (append_assoc (reverse stk) (x ∷ []) ptr))

pub from_stack_to_list_lem : (stk : List ℕ) → from_stack_to_list stk ≡ reverse stk
unfolding from_stack_to_list
from_stack_to_list_lem stk = list_from_lem [] stk ∙ append-nil (reverse stk)

vector_from_lem : (ptr vec : List ℕ) → vector_from ptr vec ≡ reverse vec ++ ptr
unfolding vector_from
vector_from_lem ptr [] = refl
vector_from_lem ptr (x ∷ vec) =
    vector_from_lem (x ∷ ptr) vec
    ∙ sym (rw (reverse-cons x vec) (append_assoc (reverse vec) (x ∷ []) ptr))

pub from_vector_to_reverse_list_lem : (vec : List ℕ) → from_vector_to_reverse_list vec ≡ reverse vec
unfolding from_vector_to_reverse_list
from_vector_to_reverse_list_lem vec = vector_from_lem [] vec ∙ append-nil (reverse vec)

turn_lem : (out stk : List ℕ) → turn out stk ≡ reverse stk ++ out
unfolding turn
turn_lem out [] = refl
turn_lem out (x ∷ stk) =
    turn_lem (x ∷ out) stk ∙ sym (rw (reverse-cons x stk) (append_assoc (reverse stk) (x ∷ []) out))

pub from_stack_to_reverse_list_lem : (stk : List ℕ) → from_stack_to_reverse_list stk ≡ stk
unfolding from_stack_to_reverse_list
from_stack_to_reverse_list_lem stk =
    from_stack_to_list_lem (turn [] stk)
    ∙ ap reverse (turn_lem [] stk ∙ append-nil (reverse stk))
    ∙ reverse-reverse stk
