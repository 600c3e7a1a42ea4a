-- ===== src/External/Lists/Tests.antt =====
-- The list functions on small lists; 4294967295 is -1.
use meldtools.Common.{ℕ, ◌≡◌, refl, List, [], ◌∷◌}
use mathlib.Core.List.{Perm}
use meldtools.External.Lists.{
  cmp_ints, intlistlength, intlistremoveduplicates, intlistsort, nodelistcount, nodelistreverse,
}
use meldtools.Runtime.List.{from_stack_to_list, from_vector_to_reverse_list}
use meldtools.External.Lists.Basic.{intlistlength_lem, nodelistcount_lem, nodelistreverse_lem}
use meldtools.External.Lists.Sorting.{intlistsort_correct, IsAscending}

abbrev mixed : List ℕ
mixed = 3 ∷ 4294967295 ∷ 3 ∷ 0 ∷ []

sorted_mixed : intlistsort mixed ≡ 4294967295 ∷ 0 ∷ 3 ∷ 3 ∷ []
unfolding intlistsort from_vector_to_reverse_list cmp_ints
sorted_mixed = refl

deduplicated : intlistremoveduplicates mixed ≡ 3 ∷ 4294967295 ∷ 0 ∷ []
unfolding intlistremoveduplicates from_stack_to_list
deduplicated = refl

intlistsort_correct_example : IsAscending (intlistsort mixed) × Perm (intlistsort mixed) mixed
intlistsort_correct_example = intlistsort_correct mixed

nodelistreverse_lem_example : nodelistreverse mixed ≡ 0 ∷ 3 ∷ 4294967295 ∷ 3 ∷ []
nodelistreverse_lem_example = nodelistreverse_lem mixed

nodelistcount_lem_example : nodelistcount mixed 3 ≡ 2
nodelistcount_lem_example = nodelistcount_lem mixed 3

intlistlength_lem_example : intlistlength mixed ≡ 4
intlistlength_lem_example = intlistlength_lem mixed
