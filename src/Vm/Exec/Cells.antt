-- ===== src/Vm/Exec/Cells.antt =====
-- What the instructions on lists, `not`, `float` and `nil` do with their encoded operands.
use meldtools.Vm.Exec.Operate.{>>=-cong, append3, reading, storing}
use meldtools.Vm.Instr.Operands.{list, non_list, writable}
use meldtools.Vm.Instr.Encoding.{encode, cons, head, tail, Arg, IsArg, IsInstruction, mark}
use meldtools.Vm.Exec.{◌>>=◌, Floats, Run, State}
use meldtools.Common.{ℕ, ◌≡◌, ap, ◌∙◌, List, ◌∷◌, ◌++◌, append_assoc}
use meldtools.Vm.Exec.Get.{float_list_op, float_op, int_list_op, int_op, node_list_op, node_op}
use meldtools.Vm.Instr.RoundTrip.{mark-mod}
use meldtools.Vm.Exec.Set.{
  store_float, store_float_list, store_int, store_int_list, store_node, store_node_list,
}
use meldtools.Vm.Exec.Stores.{stored}
use meldtools.Vm.Exec.Operands.{value}
use meldtools.Vm.Exec.Arithmetic.{ListType, get_list_type, list_float, list_int, list_node}
use meldtools.Vm.Exec.Ops.{
  cell_of, do_cons, do_head, do_tail, execute_cons, execute_head, execute_tail, implement_cons,
  implement_head, implement_tail,
}

module _ (F : Floats) where
  -- The instructions by the type of their lists, on what their operands stand for.
  abbrev pub consed : ListType → Arg → Arg → Arg → State F → Run (State F)
  consed list_int a b c s = value F int_op a s >>= λ x.
      value F int_list_op b s >>= λ xs. stored F store_int_list c (x ∷ xs) s
  consed list_float a b c s = value F float_op a s >>= λ x.
      value F float_list_op b s >>= λ xs. stored F store_float_list c (x ∷ xs) s
  consed list_node a b c s = value F node_op a s >>= λ x.
      value F node_list_op b s >>= λ xs. stored F store_node_list c (x ∷ xs) s

  abbrev pub headed : ListType → Arg → Arg → State F → Run (State F)
  headed list_int a b s =
      value F int_list_op a s >>= λ l. cell_of l >>= λ c. stored F store_int b c.0 s
  headed list_float a b s =
      value F float_list_op a s >>= λ l. cell_of l >>= λ c. stored F store_float b c.0 s
  headed list_node a b s =
      value F node_list_op a s >>= λ l. cell_of l >>= λ c. stored F store_node b c.0 s

  abbrev pub tailed : ListType → Arg → Arg → State F → Run (State F)
  tailed list_int a b s =
      value F int_list_op a s >>= λ l. cell_of l >>= λ c. stored F store_int_list b c.1 s
  tailed list_float a b s =
      value F float_list_op a s >>= λ l. cell_of l >>= λ c. stored F store_float_list b c.1 s
  tailed list_node a b s =
      value F node_list_op a s >>= λ l. cell_of l >>= λ c. stored F store_node_list b c.1 s

  do_cons-Arg :
      (l : ListType) (t : ℕ) (a b c : Arg) (rest : List ℕ) (s : State F)
      → IsArg non_list a
      → IsArg list b
      → IsArg writable c
      → do_cons F l
          (0x04 ∷ t ∷ mark a ∷ mark b ∷ mark c ∷ (a.payload ++ (b.payload ++ (c.payload ++ rest))))
          s
        ≡ consed l a b c s
  unfolding do_cons implement_cons
  do_cons-Arg list_int t a b c rest s ha hb hc =
      rw (mark-mod a non_list ha, mark-mod b list hb, mark-mod c writable hc)
        (reading F int_op non_list a _ s _ _ ha (λ x.
          reading F int_list_op list b _ s _ _ hb
            (λ xs. storing F store_int_list writable c rest (x ∷ xs) s hc)))
  do_cons-Arg list_float t a b c rest s ha hb hc =
      rw (mark-mod a non_list ha, mark-mod b list hb, mark-mod c writable hc)
        (reading F float_op non_list a _ s _ _ ha (λ x.
          reading F float_list_op list b _ s _ _ hb
            (λ xs. storing F store_float_list writable c rest (x ∷ xs) s hc)))
  do_cons-Arg list_node t a b c rest s ha hb hc =
      rw (mark-mod a non_list ha, mark-mod b list hb, mark-mod c writable hc)
        (reading F node_op non_list a _ s _ _ ha (λ x.
          reading F node_list_op list b _ s _ _ hb
            (λ xs. storing F store_node_list writable c rest (x ∷ xs) s hc)))

  do_head-Arg :
      (l : ListType) (t : ℕ) (a b : Arg) (rest : List ℕ) (s : State F)
      → IsArg list a
      → IsArg writable b
      → do_head F l (0x05 ∷ t ∷ mark a ∷ mark b ∷ (a.payload ++ (b.payload ++ rest))) s
        ≡ headed l a b s
  unfolding do_head implement_head
  do_head-Arg list_int t a b rest s ha hb =
      rw (mark-mod a list ha, mark-mod b writable hb)
        (reading F int_list_op list a _ s _ _ ha
          (λ l. >>=-cong (cell_of l) (λ c. storing F store_int writable b rest c.0 s hb)))
  do_head-Arg list_float t a b rest s ha hb =
      rw (mark-mod a list ha, mark-mod b writable hb)
        (reading F float_list_op list a _ s _ _ ha
          (λ l. >>=-cong (cell_of l) (λ c. storing F store_float writable b rest c.0 s hb)))
  do_head-Arg list_node t a b rest s ha hb =
      rw (mark-mod a list ha, mark-mod b writable hb)
        (reading F node_list_op list a _ s _ _ ha
          (λ l. >>=-cong (cell_of l) (λ c. storing F store_node writable b rest c.0 s hb)))

  do_tail-Arg :
      (l : ListType) (t : ℕ) (a b : Arg) (rest : List ℕ) (s : State F)
      → IsArg list a
      → IsArg writable b
      → do_tail F l (0x06 ∷ t ∷ mark a ∷ mark b ∷ (a.payload ++ (b.payload ++ rest))) s
        ≡ tailed l a b s
  unfolding do_tail implement_tail
  do_tail-Arg list_int t a b rest s ha hb =
      rw (mark-mod a list ha, mark-mod b writable hb)
        (reading F int_list_op list a _ s _ _ ha
          (λ l. >>=-cong (cell_of l) (λ c. storing F store_int_list writable b rest c.1 s hb)))
  do_tail-Arg list_float t a b rest s ha hb =
      rw (mark-mod a list ha, mark-mod b writable hb)
        (reading F float_list_op list a _ s _ _ ha
          (λ l. >>=-cong (cell_of l) (λ c. storing F store_float_list writable b rest c.1 s hb)))
  do_tail-Arg list_node t a b rest s ha hb =
      rw (mark-mod a list ha, mark-mod b writable hb)
        (reading F node_list_op list a _ s _ _ ha
          (λ l. >>=-cong (cell_of l) (λ c. storing F store_node_list writable b rest c.1 s hb)))

  -- On a well-formed cons instruction, execute_cons reads the head and the tail in the state before
  -- it, with the types that the byte of the instruction names, and stores the list of both.
  pub execute_cons-encode :
      (t : ℕ) (a b c : Arg) (rest : List ℕ) (s : State F)
      → IsInstruction (cons t a b c)
      → execute_cons F (encode (cons t a b c) ++ rest) s ≡ consed (get_list_type t) a b c s
  unfolding execute_cons
  execute_cons-encode t a b c rest s (ha, hb, hc) =
      ap (λ l. execute_cons F (0x04 ∷ t ∷ mark a ∷ mark b ∷ mark c ∷ l) s)
        (append3 a.payload b.payload c.payload rest)
      ∙ do_cons-Arg (get_list_type t) t a b c rest s ha hb hc

  -- On a well-formed head instruction, execute_head stores the first element of the list, and has
  -- no defined behaviour at the empty list.
  pub execute_head-encode :
      (t : ℕ) (a b : Arg) (rest : List ℕ) (s : State F)
      → IsInstruction (head t a b)
      → execute_head F (encode (head t a b) ++ rest) s ≡ headed (get_list_type t) a b s
  unfolding execute_head
  execute_head-encode t a b rest s (ha, hb) =
      ap (λ l. execute_head F (0x05 ∷ t ∷ mark a ∷ mark b ∷ l) s)
        (append_assoc a.payload b.payload rest)
      ∙ do_head-Arg (get_list_type t) t a b rest s ha hb

  -- On a well-formed tail instruction, execute_tail stores the list without its first element, and
  -- has no defined behaviour at the empty list.
  pub execute_tail-encode :
      (t : ℕ) (a b : Arg) (rest : List ℕ) (s : State F)
      → IsInstruction (tail t a b)
      → execute_tail F (encode (tail t a b) ++ rest) s ≡ tailed (get_list_type t) a b s
  unfolding execute_tail
  execute_tail-encode t a b rest s (ha, hb) =
      ap (λ l. execute_tail F (0x06 ∷ t ∷ mark a ∷ mark b ∷ l) s)
        (append_assoc a.payload b.payload rest)
      ∙ do_tail-Arg (get_list_type t) t a b rest s ha hb
