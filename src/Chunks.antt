-- ===== src/Chunks.antt =====
-- The bitmap of received chunks in src/process_packets.c: `chunk_already_received`,
-- `chunk_received` and `return_lost_chunk_indexes`. The bitmap is the list of its bytes; `none` is
-- an access outside of it.
pub mod Bitmap
pub mod Lost
mod Tests
use mathlib.Core.Option
use swift_net.Base.{
  ℕ, zero, suc, ◌+◌, ◌-◌, ◌*◌, ◌/◌, ◌%◌, ◌^◌, bit_and, bit_or, Bool, true, false, not, Option, none,
  some, List, [], ◌∷◌, ◌++◌, length, get_elem?, set, ltb, ◌==◌, if◌then◌else◌,
}

unfoldable pub chunk_already_received : List ℕ → ℕ → Option Bool
chunk_already_received chunks_received index =
    Option.map (λ byte. not (bit_and byte (2 ^ (index % 8)) == 0))
      (get_elem? chunks_received (index / 8))

unfoldable pub chunk_received : List ℕ → ℕ → Option (List ℕ)
chunk_received chunks_received index =
    Option.map (λ byte. set chunks_received (index / 8) (bit_or byte (2 ^ (index % 8) % 2 ^ 8)))
      (get_elem? chunks_received (index / 8))

-- Either loop over the bits of one byte, from `bit` on. `buffer` holds the indexes written so far,
-- so its length is `offset`; the result says whether the loop left by `goto exit`.
scan_bits : ℕ → ℕ → Option ℕ → ℕ → ℕ → List ℕ → Option (Bool × List ℕ)
scan_bits zero bit cell base buffer_size buffer = some (false, buffer)
scan_bits (suc left) bit cell base buffer_size buffer =
    if ltb buffer_size (length buffer * 4 + 4) then some (true, buffer) else elim cell [
      | none ↦ none
      | some byte ↦
          scan_bits left (bit + 1) (some byte) base buffer_size
            (if bit_and byte (2 ^ bit) == 0 then buffer ++ ((base + bit) ∷ []) else buffer)
    ]

-- The code from the label `loop` on, for `rounds` bytes at most.
scan_bytes : ℕ → List ℕ → ℕ → ℕ → ℕ → List ℕ → Option (List ℕ)
unfolding scan_bits
scan_bytes zero chunks_received chunk_amount buffer_size byte buffer = none
scan_bytes (suc rounds) chunks_received chunk_amount buffer_size byte buffer =
    let cell = get_elem? chunks_received byte in
    if ltb ((byte * 8 + 8) % 2 ^ 32) chunk_amount
    then elim cell [
      | none ↦ none
      | some value ↦
          let next = scan_bytes rounds chunks_received chunk_amount buffer_size (byte + 1) buffer in
          if value == 0xff
          then next
          else elim (scan_bits 8 0 (some value) (byte * 8) buffer_size buffer) [
            | none ↦ none
            | some (left_early, buffer') ↦ elim left_early [
              | true ↦ some buffer'
              | false ↦
                  scan_bytes rounds chunks_received chunk_amount buffer_size (byte + 1) buffer'
            ]
          ]
    ]
    else Option.map (λ r. r.1)
        (scan_bits ((chunk_amount + 2 ^ 32 - byte * 8) % 2 ^ 32) 0 cell (byte * 8) buffer_size
          buffer)

-- `return_lost_chunk_indexes`: what it leaves in `buffer`, whose length it returns.
unfoldable pub return_lost_chunk_indexes : List ℕ → ℕ → ℕ → Option (List ℕ)
unfolding scan_bytes
return_lost_chunk_indexes chunks_received chunk_amount buffer_size =
    scan_bytes (chunk_amount / 8 + 1) chunks_received chunk_amount buffer_size 0 []
