-- ===== src/PacketBuffer/Tests.antt =====
-- Two pieces appended to a new buffer of six bytes, which then grows.
use swift_net.Base.{
  ℕ, zero, suc, length, ap, ◌≤◌, ◌≡◌, refl, some, List, [], ◌∷◌, take, replicate, length-replicate,
  arith,
}
use swift_net.PacketBuffer.{PacketBuffer, create_packet_buffer}
use swift_net.PacketBuffer.Appended.{appended, append_all, concat, append_all_lem}

abbrev zeros : ℕ → List ℕ
zeros n = replicate n 0

abbrev two_pieces : List (List ℕ)
two_pieces = (1 ∷ 2 ∷ []) ∷ (3 ∷ []) ∷ []

-- A realloc that fills what it adds with zeros.
abbrev grow : List ℕ → ℕ → List ℕ
grow memory zero = []
grow [] (suc n) = 0 ∷ grow [] n
grow (x ∷ memory) (suc n) = x ∷ grow memory n

keeps_prefix :
    (memory : List ℕ) (n k : ℕ) → k ≤ n → k ≤ length memory → take k (grow memory n) ≡ take k memory
keeps_prefix memory n zero le inside = refl
keeps_prefix memory zero (suc k) le inside = absurd (omega arith)
keeps_prefix [] (suc n) (suc k) le inside = absurd (omega arith)
keeps_prefix (x ∷ memory) (suc n) (suc k) le inside =
    ap (λ r. x ∷ r) (keeps_prefix memory n k (omega arith) (omega arith))

short_enough : length (concat two_pieces) ≤ 6
unfolding concat
short_enough = omega arith

append_all_lem_example :
    (buffer : PacketBuffer) × (append_all two_pieces (create_packet_buffer zeros 6) ≡ some buffer)
    × (appended buffer ≡ concat two_pieces)
append_all_lem_example =
    append_all_lem zeros 6 two_pieces (λ n. length-replicate n 0) (omega arith)
      (omega arith, (omega arith, omega arith)) short_enough

abbrev full : PacketBuffer
full = record { memory = replicate 60 5; packet_data_start = 58; packet_append_pointer = 60 }
