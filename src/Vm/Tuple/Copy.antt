-- ===== src/Vm/Tuple/Copy.antt =====
-- What `copy` and `copy_except` copy.
use meldtools.Vm.Tuple.{Tuple}
