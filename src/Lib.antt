-- ===== src/Lib.antt =====
-- Verification library of meldtools: the virtual machine that runs compiled Meld programs on the
-- nodes of a graph, with its run time, its queues and its store of tuples.
--
-- The program: predicates/vm reads a file of byte code (program.cpp), steps through it (exec.cpp,
-- instr.cpp) for one node at a time (state.cpp), and asks the rule matcher (rule_matcher.cpp)
-- which rules have a tuple for each predicate of their body. Lists and strings are in
-- predicates/runtime, functions that programs call in predicates/external, tuples of a node in
-- predicates/db, and the tuples that wait for a node in the queues of predicates/queue, which the
-- schedulers of predicates/sched and predicates/thread fill and empty. predicates/linker.cpp
-- joins files of byte code and rewrites the numbers of predicates and rules in it.
--
-- The files, and the code that they model:
-- - Vm/RuleMatcher: predicates/vm/rule_matcher.cpp and .hpp as compiled with USE_RULE_COUNTING,
--   class by record, each member function by the function of its name, and the loop of
--   program::program that links rules and predicates (`affected_rules`). The sets active_rules
--   and dropped_rules are ascending lists without duplicates (Common/OrdSet). A predicate's count
--   is a ref_count, 16 bits.
-- - Vm/Instr: predicates/vm/instr.cpp and .hpp: `arg_size` in its eight instances, `advance` as
--   `instr_size`, the loops over matches and arguments, and the readers and writers of fields
--   that the linker uses. Code is a list of bytes from the instruction on, words are
--   little-endian. predicates/docs/vm_format.tex gives other sizes and codes in places, where
--   the models follow the code.
-- - Runtime/List: the template struct cons of predicates/runtime/list.hpp, with elements of any
--   number of bytes in pack and unpack, and those of predicates/utils/serialization.hpp. A list
--   is its elements: cells never change, and their reference counts are left out.
-- - Vm/Tuple: predicates/vm/tuple.cpp: copy, copy_except, get_storage_size, pack, load and unpack,
--   and get_predicate of program.cpp. A float is its 64-bit pattern, a position
--   is not negative, and an `int` does not hold the size of a buffer from 2 ^ 31 on. type_error is `thrown`, a
--   failed assertion and a null pointer are `failed`. Bytes has the values of a type and their
--   bytes, Buffer and Bounds what is written where, Ends the empty list at the end of a buffer.
-- - Db/SimpleTuple: simple_tuple of predicates/db/tuple.cpp and tuple.hpp, a tuple with its number
--   of references, in a buffer.
-- - External/Lists: the functions of predicates/external/lists.cpp, but str2intlist. An integer
--   is its 32-bit pattern, compared by sign.
-- - Queue/Bounded: predicates/queue/bounded_pqueue.hpp, and next_power2 and upper_log2 of
--   predicates/utils/utils.hpp. The tree nodes are an inductive tree, whose nesting stands for
--   the parent pointers; a bin is a list.
-- - Queue/Heap: predicates/queue/heap_implementation.hpp and safe_complex_pqueue.hpp. Objects are
--   numbers, the vector is a list of them, and the fields that they carry (priority, place, flag)
--   are functions of them. The type double is a parameter, with `<=` as a total order.
-- - Vm/Exec: the operands and operations of predicates/vm/exec.cpp on the registers, the
--   stack, the constants and the tuples of state.hpp. Get and Set are the instances of
--   get_op_function and set_op_function, Arithmetic the numbers of the operations and
--   `int_val`, Ops the instructions op, not, float, move-nil, test-nil, cons, head and tail.
--   Operands and Stores say what an operand of Vm/Instr/Encoding means as a source and as a
--   destination; Operate, Cells and Unary use that for the instructions. Matches is do_match
--   and do_matches. Meaning and the modules under it say what operands, operations and matches
--   mean without the functions of the code. The type double is a parameter; reading a member of the union that was
--   not written last, a null pointer and a division without a result are `failed`, the
--   exception is `thrown`.
-- - Sched/Tokenizer: predicates/sched/mpi/token.hpp and tokenizer.cpp, the token that goes
--   round the machines to find the end of an iteration. The functions of the tokenizer have
--   the ports of the router as their input and output. An `int` holds the ranks and powers of up to
--   2 ^ 30 machines; a count is a whole number, and Ring follows it while it is below 2 ^ 30, up
--   and down. Ring goes on until the leader finds the end, so its machines have no message of
--   the end; what one does with it is in EndMessage. Ring is the
--   system: the tokenizers, which machines work, the messages on their way and the token on a
--   link. A step is a send of a machine that works, a receipt, which puts the receiver to
--   work, the end of a machine's work, or a turn of its tokenizer, in any order. Promises
--   states the invariant of the algorithm; Messages and Passing keep it, Polling computes
--   busy_loop_token, Place says where the token is, Turns and Ending put them together, and
--   Rounds and Liveness follow the token once all is over. Collective is the tree of messages
--   that tells the machines of the end.
-- - Process/Partition: router.cpp, remote.hpp and remote.cpp of predicates/process: which
--   machine, and which of its threads, owns a node. Numbers wrap at the width of their type; the
--   code is the one that is compiled with MPI and without USE_SIM.
-- - Db/Trie: predicates/db/trie.cpp and trie.hpp, the trie that keeps the tuples of a predicate
--   with their reference counts, and add_to_set of db/agg_configuration.cpp. A node is a leaf or
--   has its children in a list or a hash table; the recursion stands for the parent pointers, and
--   the keys that a tuple's stack of values yields are its path. Ops has the operations on nodes,
--   for any record Keys of words, comparison, hash and types; Fields is the instance for the
--   fields of tuples, strings left out, where std::tr1::hash and the floats, without NaN and with
--   one zero, are parameters. Tuples is tuple_trie, whose leaves from first_leaf on are a list of
--   paths. Siblings, Table, Rehash, Children, NewChild and OldChild are about the children of one
--   node, Branches, Insertion and Deletion about paths, and the modules under Tuples about the
--   trie. Words wrap at 16 and 32 bits.
-- - Db/Aggregates: the generators of predicates/db/agg_configuration.cpp, and what generate hands
--   on, with the comparison of predicates/vm/tuple.cpp. The tuples are a list, which the
--   code takes from the trie's iterator. The four loops for a largest or least value are
--   one, for any comparison. Db/Trie/Configurations has the trie of these configurations.
-- - Common: tests and conditionals, lists indexed by native numbers, fallible steps, the order of
--   signed words, and finite sets.
--
-- Failure: a failed assertion and an access outside a vector or a buffer are `none`, and in
-- Vm/Instr a result of its own, which tells a read outside the code from an unknown instruction.
--
-- Fuel: the loop of the matches of `iter` ends at the latest when the code runs out, so the
-- fuel is the length of the code plus one, here and in do_matches. The loops of next_power2
-- and upper_log2 double a 64-bit number, at most 63 times for values up to 2 ^ 63, and have
-- 64 rounds. The loops of the heap have the size of the heap plus one. All other loops are
-- structural recursion.
--
-- The library functions sort of <algorithm> and the set of <set> are modelled by what their use
-- promises: `sort` as an insertion sort by the comparison that the code hands over, the set as
-- its sorted elements.
--
-- Not modelled: the interpreter's loop, its moves, calls, sends and iterations and its
-- reference counts (exec.cpp, state.cpp, copy_runtime of tuple.cpp), the reader of programs but for
-- one loop, of the trie the iterator, the search by a pattern, the deletion of branches and strings
-- as fields, of the aggregates the sums of lists and the deletion of configurations, the rest of the
-- database (db), the linked and concurrent queues, the schedulers and threads, the messages of MPI
-- and their buffers, the allocators, the linker's own text handling, printing, statistics and the
-- web client.
pub mod Common
pub mod Db
pub mod External
pub mod Process
pub mod Queue
pub mod Runtime
pub mod Sched
pub mod Vm
