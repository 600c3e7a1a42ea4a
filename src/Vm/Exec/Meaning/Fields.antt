-- ===== src/Vm/Exec/Meaning/Fields.antt =====
-- do_matches compares the fields of a tuple with what the operands mean.
use meldtools.Common.{ℕ, ◌≡◌, refl, ◌∙◌, List, [], ◌∷◌, ◌++◌, length, get_elem?}
use meldtools.Vm.Exec.{Floats, Run, State, TupleField, done, or_failed}
use meldtools.Vm.Exec.Matches.{
  FieldType, Tuple, all_matched, do_matches, do_matches-encode, match_field, matched, same_field,
  type_float, type_int, type_list_float, type_list_int, type_list_node, type_node, type_string,
}
use meldtools.Vm.Exec.Meaning.{agrees, agrees_at, all_meant, is_meant}
use meldtools.Vm.Exec.Meaning.Operands.{field_at-named, pcounter_float-double, pcounter_int-number}
use meldtools.Vm.Exec.Operate.{>>=-cong}
use meldtools.Vm.Instr.Encoding.{AllIndexed, Arg, IsArg, encode_indexed, encode_last}
use meldtools.Vm.Instr.Operands.{anything, Operand, operand_size, reg, field, host, int, float}

module _ (F : Floats) where
  same_field-agrees :
      (typ : FieldType) (a b : Run (TupleField F)) → same_field F typ a b ≡ agrees F typ a b
  same_field-agrees type_int a b = refl
  same_field-agrees type_float a b = refl
  same_field-agrees type_node a b = refl
  same_field-agrees type_list_int a b = refl
  same_field-agrees type_list_float a b = refl
  same_field-agrees type_list_node a b = refl
  same_field-agrees type_string a b = refl

  match_field-agrees :
      (t : Tuple F) (num : ℕ) (other : Run (TupleField F))
      → match_field F t num other ≡ agrees_at F t num other
  match_field-agrees t num other =
      >>=-cong (or_failed (get_elem? t.types num)) (λ typ. same_field-agrees typ _ other)

  matched-is_meant :
      (t : Tuple F) (num : ℕ) (k : Operand) (p : List ℕ) (s : State F)
      → length p ≡ operand_size k
      → matched F t (num, record { kind = k; payload = p }) s
        ≡ is_meant F t (num, record { kind = k; payload = p }) s
  matched-is_meant t num (reg n) p s h = match_field-agrees t num (done (s.regs n))
  matched-is_meant t num field p s h = rw (field_at-named F p s h) (match_field-agrees t num _)
  matched-is_meant t num host p s h = refl
  matched-is_meant t num int p s h = rw (pcounter_int-number F p h) refl
  matched-is_meant t num float p s h = rw (pcounter_float-double F p h) refl
  matched-is_meant t num k p s h = refl

  each_meant :
      (t : Tuple F) (ms : List (ℕ × Arg)) (num : ℕ) (a : Arg) (s : State F)
      → AllIndexed ms
      → IsArg anything a
      → all_matched F t (ms ++ (num, a) ∷ []) s ≡ all_meant F t (ms ++ (num, a) ∷ []) s
  each_meant t [] num a s hs h = rw (matched-is_meant t num a.kind a.payload s h.2) refl
  each_meant t ((g, b) ∷ ms) num a s (h', hs) h =
      rw (matched-is_meant t g b.kind b.payload s h'.2, each_meant t ms num a s hs h) refl

  -- Of well-formed matches of an iteration, whatever bytes follow them, do_matches compares in order
  -- each field with what its operand means, in the type that the predicate has for the field or the
  -- operand gives, and is true if all are the same; the first that is not, throws or has no defined
  -- behaviour decides.
  pub do_matches-meant :
      (t : Tuple F) (ms : List (ℕ × Arg)) (num : ℕ) (a : Arg) (rest : List ℕ) (s : State F)
      → AllIndexed ms
      → IsArg anything a
      → do_matches F (encode_indexed ms ++ (encode_last (num, a) ++ rest)) t s
        ≡ all_meant F t (ms ++ (num, a) ∷ []) s
  do_matches-meant t ms num a rest s hs h =
      do_matches-encode F t ms num a rest s hs h ∙ each_meant t ms num a s hs h
