-- ===== src/Vm/Exec/Operate.antt =====
-- What the operations of exec.cpp do with the bytes of an encoded instruction.
use meldtools.Vm.Exec.Operands.{value, get_op-Arg}
use meldtools.Vm.Instr.Encoding.{op, encode, Arg, IsArg, IsInstruction, mark}
use meldtools.Vm.Exec.{◌>>=◌, Floats, Run, State, done, failed, thrown}
use meldtools.Common.{ℕ, ◌%◌, ◌≡◌, refl, Option, none, some, List, ◌++◌, append_assoc, ap, ◌∙◌, ◌∷◌}
use meldtools.Vm.Instr.Operands.{ArgType, anything, writable}
use meldtools.Vm.Exec.Get.{Element, OpType, get_op}
use meldtools.Vm.Exec.Set.{StoreType, Stored, set_op}
use meldtools.Vm.Instr.RoundTrip.{mark-mod}
use meldtools.Vm.Exec.Stores.{set_op-Arg, stored}
use meldtools.Vm.Exec.Arithmetic.{InstrOp, instr_op}
use meldtools.Vm.Exec.Ops.{Operation, do_operation, execute_op, implement_operation, operation}

pub >>=-cong {ℓ κ} :
    {A : Type ℓ} {B : Type κ} (m : Run A) {f g : A → Run B}
    → ((a : A) → f a ≡ g a)
    → (m >>= f) ≡ (m >>= g)
>>=-cong (done a) e = e a
>>=-cong thrown e = refl
>>=-cong failed e = refl

pub then_read {ℓ κ} :
    {A : Type ℓ} {B : Type κ} (m : Run A) (rest : List ℕ) (f : A × List ℕ → Run B) (g : A → Run B)
    → ((a : A) → f (a, rest) ≡ g a)
    → ((m >>= λ a. done (a, rest)) >>= f) ≡ (m >>= g)
then_read (done a) rest f g e = e a
then_read thrown rest f g e = refl
then_read failed rest f g e = refl

pub append3 {ℓ} :
    {A : Type ℓ} (as' bs cs ds : List A) → (as' ++ bs ++ cs) ++ ds ≡ as' ++ (bs ++ (cs ++ ds))
append3 as' bs cs ds = append_assoc (as' ++ bs) cs ds ∙ append_assoc as' bs (cs ++ ds)

module _ (F : Floats) where
  -- An operand is read, and the rest of an instruction goes on behind it.
  pub reading :
      {B : Type 0} (T : OpType) (t : ArgType) (a : Arg) (rest : List ℕ) (s : State F)
      (f : Element F T × List ℕ → Run B) (g : Element F T → Run B)
      → IsArg t a
      → ((x : Element F T) → f (x, rest) ≡ g x)
      → (get_op F T (mark a) (a.payload ++ rest) s >>= f) ≡ (value F T a s >>= g)
  reading T t a rest s f g h e =
      rw (get_op-Arg F T a.kind a.payload rest s h.0 h.2) (then_read (value F T a s) rest f g e)

  pub storing :
      (T : StoreType) (t : ArgType) (a : Arg) (rest : List ℕ) (v : Stored F T) (s : State F)
      → IsArg t a
      → set_op F T (a.payload ++ rest) (mark a) v s ≡ stored F T a v s
  storing T t a rest v s h = set_op-Arg F T a.kind a.payload rest v s h.0 h.2

  -- An operation by its number: both operands are read, the operation is done, and the result stored.
  abbrev pub operated : Option InstrOp → Arg → Arg → Arg → State F → Run (State F)
  operated none a b c s = thrown
  operated (some which) a b c s =
      let o = operation F which in
      value F o.from a s >>= λ x. value F o.from b s >>= λ y. o.run x y >>= λ v. stored F o.to c v s

  implement_operation-Arg :
      (o : Operation F) (a b c : Arg) (rest : List ℕ) (s : State F)
      → IsArg anything a
      → IsArg anything b
      → IsArg writable c
      → implement_operation F o
          (mark a)
          (mark b)
          (mark c)
          (a.payload ++ (b.payload ++ (c.payload ++ rest)))
          s
        ≡ (value F o.from a s >>= λ x.
            value F o.from b s >>= λ y. o.run x y >>= λ v. stored F o.to c v s)
  unfolding implement_operation
  implement_operation-Arg o a b c rest s ha hb hc =
      reading o.from anything a (b.payload ++ (c.payload ++ rest)) s _ _ ha (λ x.
        reading o.from anything b (c.payload ++ rest) s _ _ hb
          (λ y. >>=-cong (o.run x y) (λ v. storing o.to writable c rest v s hc)))

  do_operation-Arg :
      (o : Option InstrOp) (a b c : Arg) (rest : List ℕ) (s : State F)
      → IsArg anything a
      → IsArg anything b
      → IsArg writable c
      → do_operation F o
          (mark a)
          (mark b)
          (mark c)
          (a.payload ++ (b.payload ++ (c.payload ++ rest)))
          s
        ≡ operated o a b c s
  unfolding do_operation
  do_operation-Arg none a b c rest s ha hb hc = refl
  do_operation-Arg (some which) a b c rest s ha hb hc =
      implement_operation-Arg (operation F which) a b c rest s ha hb hc

  -- On a well-formed operation instruction, execute_op reads both operands in the state before it,
  -- does the operation of the number on them, and stores the result at the destination; a number
  -- that no operation has throws.
  pub execute_op-encode :
      (a b c : Arg) (o : ℕ) (rest : List ℕ) (s : State F)
      → IsInstruction (op a b c o)
      → execute_op F (encode (op a b c o) ++ rest) s ≡ operated (instr_op (o % 32)) a b c s
  unfolding execute_op
  execute_op-encode a b c o rest s (ha, hb, hc) =
      ap (λ l. execute_op F (0xc0 ∷ mark a ∷ mark b ∷ mark c ∷ o ∷ l) s)
        (append3 a.payload b.payload c.payload rest)
      ∙ rw (mark-mod a anything ha, mark-mod b anything hb, mark-mod c writable hc)
          (do_operation-Arg (instr_op (o % 32)) a b c rest s ha hb hc)
