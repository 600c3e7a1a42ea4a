-- ===== src/Queue/Bounded/Tests.antt =====
-- Bounded queues at concrete inputs.
use meldtools.Queue.Bounded.{BoundedPqueue, SimplePqueue, leaf, new, node, pop, push, splice, top}
use meldtools.Common.{ℕ, suc, ◌≡◌, refl, some, [], ◌∷◌, arith}
use meldtools.Queue.Bounded.Bins.{AllEmpty, IsValid, append_at, bins, count}
use meldtools.Queue.Bounded.Splice.{held, splice_lem, zip_append}
use meldtools.Queue.Bounded.Build.{new_lem}
use meldtools.Queue.Bounded.Take.{pop_first, pop_lem}
use meldtools.Queue.Bounded.Push.{push_lem}

-- Two bins, with an element at priority 1.
abbrev two_bins : BoundedPqueue ℕ
two_bins = record { root = node 0 (leaf 0 []) (leaf 1 (7 ∷ [])); leaves = 2; total = 1; range = 2 }

two_bins-IsValid : IsValid two_bins
unfolding count
two_bins-IsValid =
    (1, refl, ((refl, refl), (refl, refl)), (refl, tt, tt), refl, omega arith, omega arith)

new_lem_example :
    (q : BoundedPqueue ℕ) × (new 5 ≡ some q) × IsValid q × (q.range ≡ 5) × AllEmpty (bins q.root)
new_lem_example = new_lem ℕ 5 (omega arith) (omega arith)

push_lem_example :
    (q' : BoundedPqueue ℕ) × (push two_bins 8 0 ≡ some q')
    × IsValid q'
    × (bins q'.root ≡ append_at 0 (8 ∷ []) (bins two_bins.root))
push_lem_example = push_lem two_bins 8 0 two_bins-IsValid (omega arith) (omega arith)

pop_lem_example :
    (x : ℕ) × (q' : BoundedPqueue ℕ) × (pop two_bins ≡ some (x, q'))
    × (top two_bins ≡ some x)
    × (pop_first (bins two_bins.root) ≡ some (x, bins q'.root))
    × IsValid q'
    × (suc q'.total ≡ two_bins.total)
pop_lem_example = pop_lem two_bins two_bins-IsValid (omega arith)

abbrev two_queues : SimplePqueue ℕ
two_queues = record { queues = (3 ∷ 4 ∷ []) ∷ (5 ∷ []) ∷ []; total = 3 }

splice_lem_example :
    (q' : BoundedPqueue ℕ) × (splice two_bins two_queues ≡ some q')
    × IsValid q'
    × (bins q'.root ≡ zip_append 2 two_queues.queues (bins two_bins.root))
unfolding held
splice_lem_example =
    splice_lem two_bins two_queues two_bins-IsValid (omega arith) (omega arith) (omega arith)
