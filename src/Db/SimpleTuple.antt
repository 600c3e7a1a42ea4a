-- ===== src/Db/SimpleTuple.antt =====
-- predicates/db/tuple.cpp and tuple.hpp: a tuple with its number of references, a `short`, in a
-- buffer. Failure is that of Vm/Tuple.
mod RoundTrip
mod Tests
use meldtools.Common.{ℕ, ◌+◌, Bool, false, List}
use meldtools.Runtime.List.Serial.{pack_bytes, unpack_bytes, word_bytes, word_of}
use meldtools.Vm.Exec.{◌>>=◌, Run, done, or_failed}
use meldtools.Vm.Tuple.{Predicate, Tuple, get_storage_size}
use meldtools.Vm.Tuple

-- `simple_tuple`; the number is its 16-bit pattern.
pub record SimpleTuple : Type 0 where
  pub data_tuple : Tuple
  pub count : ℕ
  pub to_delete : Bool
  pub generated_this_run : Bool
  pub is_final_aggregate : Bool

-- The constructor.
abbrev pub new_simple : Tuple → ℕ → SimpleTuple
new_simple t n = record {
  data_tuple = t;
  count = n;
  to_delete = false;
  generated_this_run = false;
  is_final_aggregate = false;
}

unfoldable pub storage_size : SimpleTuple → Run ℕ
storage_size s = get_storage_size s.data_tuple >>= λ n. done (2 + n)

unfoldable pub pack : SimpleTuple → List ℕ → ℕ → Run (List ℕ × ℕ)
pack s buf pos =
    or_failed (pack_bytes (word_bytes 2 s.count) buf pos) >>= λ p. Tuple.pack s.data_tuple p.0 p.1

unfoldable pub unpack : List Predicate → List ℕ → ℕ → Run (SimpleTuple × ℕ)
unpack prog buf pos = or_failed (unpack_bytes 2 buf pos) >>= λ r.
    Tuple.unpack prog buf r.1 >>= λ q. done (new_simple q.0 (word_of r.0), q.1)
