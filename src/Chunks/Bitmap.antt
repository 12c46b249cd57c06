-- ===== src/Chunks/Bitmap.antt =====
-- The bitmap as a set of indexes.
use swift_net.Base.{
  ℕ, ◌/◌, ◌%◌, ◌^◌, ◌<◌, ◌≡◌, ◌≢◌, max, ap, bit_or, Bool, ◌||◌, some, List, length, get_or, set,
  ◌==◌, arith, ℕ_discrete, get_elem?-eq-get_or, get_or-set_self, get_or-set_ne, length-set,
}
use swift_net.Base.Bits.{
  test_bit, test_bit-le, bit_and-pow_test, pow-lt-pow, test_bit-bit_or, test_bit-pow_self,
  test_bit-pow_ne,
}
use swift_net.Chunks.{chunk_already_received, chunk_received}

-- Chunk `index` is marked.
abbrev pub received : List ℕ → ℕ → Bool
received chunks index = test_bit (get_or chunks (index / 8) 0) (index % 8) == 1

pub chunk_already_received_lem :
    (chunks : List ℕ) (index : ℕ)
    → index / 8 < length chunks
    → chunk_already_received chunks index ≡ some (received chunks index)
unfolding chunk_already_received
chunk_already_received_lem chunks index lt =
    rw (get_elem?-eq-get_or chunks (index / 8) 0 lt)
      (ap some (bit_and-pow_test (get_or chunks (index / 8) 0) (index % 8)))

-- Marking a chunk inside the bitmap marks that chunk and no other.
pub chunk_received_lem :
    (chunks : List ℕ) (index : ℕ)
    → index / 8 < length chunks
    → (chunks' : List ℕ) × (chunk_received chunks index ≡ some chunks')
      × (length chunks' ≡ length chunks)
      × ((j : ℕ) → received chunks' j ≡ (j == index) || received chunks j)
unfolding chunk_received
chunk_received_lem chunks index lt = (
  marked,
  rw (get_elem?-eq-get_or chunks (index / 8) 0 lt),
  length-set chunks (index / 8) _,
  λ j. elim (ℕ_discrete (index / 8) (j / 8)) [
    | no n ↦ rw (get_or-set_ne chunks (index / 8) (j / 8) (bit_or old mask) 0 n) (ground arith)
    | yes p ↦
        rw
          (
            ← p,
            get_or-set_self chunks (index / 8) (bit_or old mask) 0 lt,
            test_bit-bit_or old mask (j % 8),
            small,
          )
          (same_byte j p)
  ],
)
  where
    old : ℕ
    old = get_or chunks (index / 8) 0

    mask : ℕ
    mask = 2 ^ (index % 8) % 2 ^ 8

    marked : List ℕ
    marked = set chunks (index / 8) (bit_or old mask)

    small : mask ≡ 2 ^ (index % 8)
    small = omega (arith, pow-lt-pow (index % 8) 8 (omega arith))

    same_byte :
        (j : ℕ)
        → index / 8 ≡ j / 8
        → (max (test_bit old (j % 8)) (test_bit (2 ^ (index % 8)) (j % 8)) == 1)
          ≡ ((j == index) || (test_bit old (j % 8) == 1))
    same_byte j p = elim (ℕ_discrete (index % 8) (j % 8)) [
      | yes q ↦
          let e : j ≡ index = omega arith in
          rw (← q, test_bit-pow_self (index % 8), e) (ground (arith, test_bit-le old (index % 8)))
      | no n ↦
          let e : j ≢ index = omega arith in
          rw (test_bit-pow_ne (index % 8) (j % 8) n) (ground (arith, test_bit-le old (j % 8)))
    ]
