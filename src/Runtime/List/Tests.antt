-- ===== src/Runtime/List/Tests.antt =====
-- Lists in a buffer.
use meldtools.Common.{ℕ, ◌≡◌, refl, some, List, [], ◌∷◌, ◌++◌, replicate}
use meldtools.Runtime.List.Pack.{pack}
use meldtools.Runtime.List.Serial.{pack_bytes, word_bytes}

abbrev values : List ℕ
values = 258 ∷ 7 ∷ []

abbrev dirty : List ℕ
dirty = replicate 12 9

pack-values :
    pack 4 values (5 ∷ dirty ++ 6 ∷ []) 1
    ≡ some (5 ∷ 2 ∷ 0 ∷ 0 ∷ 0 ∷ 2 ∷ 1 ∷ 0 ∷ 0 ∷ 7 ∷ 0 ∷ 0 ∷ 0 ∷ 6 ∷ [], 13)
unfolding pack pack_bytes word_bytes
pack-values = refl
