-- ===== src/Chunks/Tests.antt =====
-- The theorems on the bitmap of a message of twelve chunks.
use swift_net.Base.{ℕ, ◌/◌, ◌≡◌, refl, some, List, [], ◌∷◌, take, arith}
use swift_net.Chunks.{return_lost_chunk_indexes}
use swift_net.Chunks.Lost.{lost, return_lost_chunk_indexes_lem}

-- Chunks 0 to 7, 9 and 11 have arrived.
abbrev bitmap : List ℕ
bitmap = 0xff ∷ 0x0a ∷ []

return_lost_chunk_indexes_run : return_lost_chunk_indexes bitmap 12 100 ≡ some (8 ∷ 10 ∷ [])
unfolding return_lost_chunk_indexes
return_lost_chunk_indexes_run = refl

return_lost_chunk_indexes_example :
    return_lost_chunk_indexes bitmap 12 7 ≡ some (take (7 / 4) (lost bitmap 0 12))
return_lost_chunk_indexes_example =
    return_lost_chunk_indexes_lem bitmap 12 7 (omega arith) (omega arith)
