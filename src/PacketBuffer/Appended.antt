-- ===== src/PacketBuffer/Appended.antt =====
-- The data of a packet buffer: what has been appended to it.
use swift_net.Base.{
  ℕ, ◌+◌, ◌-◌, ◌%◌, ◌^◌, ◌≤◌, ◌<◌, ◌≡◌, refl, sym, ap₂, ◌∙◌, false, true, Option, none, some, List,
  [], ◌∷◌, ◌++◌, append_assoc, append-nil, length, length-append, take, leb, le→leb, ◌==◌, ==_false,
  arith,
}
use swift_net.Base.Buffer.{
  drop-take, memcpy, read, read-add, take-append_le, take_all, length-memcpy,
}
use swift_net.Base.Copy.{before-memcpy, at-memcpy}
use swift_net.PacketBuffer.{
  PacketBuffer, create_packet_buffer, copy_into, append_to_buffer, resize_packet_buffer,
}

-- The data from the start to the append pointer.
abbrev pub appended : PacketBuffer → List ℕ
appended buffer =
    read buffer.memory buffer.packet_data_start
      (buffer.packet_append_pointer - buffer.packet_data_start)

-- Appending bytes that fit puts them behind the data.
pub append_to_buffer_lem :
    (buffer : PacketBuffer) (bytes : List ℕ)
    → 0 < length bytes
    → buffer.packet_data_start ≤ buffer.packet_append_pointer
    → buffer.packet_append_pointer + length bytes ≤ length buffer.memory
    → (buffer' : PacketBuffer) × (append_to_buffer bytes buffer ≡ some buffer')
      × (appended buffer' ≡ appended buffer ++ bytes)
      × (buffer'.packet_append_pointer ≡ buffer.packet_append_pointer + length bytes)
      × (length buffer'.memory ≡ length buffer.memory)
      × (buffer'.packet_data_start ≡ buffer.packet_data_start)
unfolding append_to_buffer copy_into read
append_to_buffer_lem buffer bytes pos order inside =
    let from = buffer.packet_data_start in
    let at = buffer.packet_append_pointer in
    let some_bytes : (length bytes == 0) ≡ false = ==_false _ _ (omega arith) in
    let fits : leb (at + length bytes) (length buffer.memory) ≡ true = le→leb _ _ inside in
    let copied : copy_into buffer.memory at bytes ≡ some (memcpy buffer.memory at bytes) =
      rw fits in
    let span : at + length bytes - from ≡ (at - from) + length bytes = omega arith in
    let back : from + (at - from) ≡ at = omega arith in
    (
      record buffer {
        memory = memcpy buffer.memory at bytes;
        packet_append_pointer = at + length bytes;
      },
      rw (append_to_buffer, some_bytes, copied),
      rw (span, read-add (memcpy buffer.memory at bytes) from (at - from) (length bytes), back)
          (ap₂ (λ a b. a ++ b)
            (before-memcpy buffer.memory bytes at from (at - from) (omega arith) (omega arith))
            (rw (at-memcpy buffer.memory bytes at (omega arith)) (
              take-append_le bytes _ (length bytes) (omega arith)
              ∙ take_all (length bytes) bytes (omega arith)))),
      refl,
      length-memcpy buffer.memory bytes at inside,
      refl,
    )

pub append_all : List (List ℕ) → PacketBuffer → Option PacketBuffer
append_all [] buffer = some buffer
append_all (bytes ∷ pieces) buffer = elim (append_to_buffer bytes buffer) [
  | none ↦ none
  | some buffer' ↦ append_all pieces buffer'
]

unfoldable pub concat : List (List ℕ) → List ℕ
concat [] = []
concat (bytes ∷ pieces) = bytes ++ concat pieces

abbrev pub AreNonEmpty : List (List ℕ) → Type 0
AreNonEmpty [] = 0 ≤ 0
AreNonEmpty (bytes ∷ pieces) = (0 < length bytes) × AreNonEmpty pieces

append_all_from :
    (pieces : List (List ℕ)) (buffer : PacketBuffer)
    → AreNonEmpty pieces
    → buffer.packet_data_start ≤ buffer.packet_append_pointer
    → buffer.packet_append_pointer + length (concat pieces) ≤ length buffer.memory
    → (buffer' : PacketBuffer) × (append_all pieces buffer ≡ some buffer')
      × (appended buffer' ≡ appended buffer ++ concat pieces)
unfolding append_all concat
append_all_from [] buffer pos order inside = (buffer, refl, sym (append-nil (appended buffer)))
append_all_from (bytes ∷ pieces) buffer pos order inside =
    let total = length-append bytes (concat pieces) in
    let (next, done, grown, moved, width, kept) =
      append_to_buffer_lem buffer bytes pos.0 order (omega (arith, inside, total)) in
    let (buffer', rest, all) =
      append_all_from pieces next pos.1 (omega (arith, moved, kept, order))
        (omega (arith, moved, width, inside, total)) in
    (
      buffer',
      rw (append_all, done) rest,
      all ∙ rw grown (append_assoc (appended buffer) bytes (concat pieces)),
    )

-- Pieces, none of them empty, that together are no longer than the size that the buffer was created
-- with are all appended, and the data of the buffer is then the pieces one behind the other; for a
-- size below 2^32 - 58 and a malloc that gives as many bytes as asked.
pub append_all_lem :
    (malloc : ℕ → List ℕ) (buffer_size : ℕ) (pieces : List (List ℕ))
    → ((n : ℕ) → length (malloc n) ≡ n)
    → buffer_size + 58 < 2 ^ 32
    → AreNonEmpty pieces
    → length (concat pieces) ≤ buffer_size
    → (buffer' : PacketBuffer) × (append_all pieces (create_packet_buffer malloc buffer_size)
        ≡ some buffer')
      × (appended buffer' ≡ concat pieces)
unfolding create_packet_buffer read
append_all_lem malloc buffer_size pieces gives small pos fits =
    append_all_from pieces (create_packet_buffer malloc buffer_size) pos (omega arith)
      (omega (arith, gives ((buffer_size + 44 + 14) % 2 ^ 32)))

-- Growing a buffer, or shrinking it to no less than its data, keeps the data, where realloc keeps
-- the bytes that both the old and the new memory have room for, and the new size is below 2^32 - 58.
pub resize_packet_buffer_lem :
    (realloc : List ℕ → ℕ → List ℕ) (new_buffer_size : ℕ) (buffer : PacketBuffer)
    → ((memory : List ℕ) (n k : ℕ)
        → k ≤ n
        → k ≤ length memory
        → take k (realloc memory n) ≡ take k memory)
    → new_buffer_size + 58 < 2 ^ 32
    → buffer.packet_data_start ≡ 58
    → 58 ≤ buffer.packet_append_pointer
    → buffer.packet_append_pointer ≤ length buffer.memory
    → buffer.packet_append_pointer ≤ new_buffer_size + 58
    → appended (resize_packet_buffer realloc new_buffer_size buffer) ≡ appended buffer
unfolding resize_packet_buffer read
resize_packet_buffer_lem realloc new_buffer_size buffer keeps small start order inside fits =
    let at = buffer.packet_append_pointer in
    let size : (new_buffer_size + 58) % 2 ^ 32 ≡ new_buffer_size + 58 = omega arith in
    let offset : 58 + (at - 58) % 2 ^ 32 - 58 ≡ at - 58 = omega (arith, fits, small) in
    rw (
      size,
      start,
      offset,
      ← drop-take 58 at (realloc buffer.memory (new_buffer_size + 58)),
      ← drop-take 58 at buffer.memory,
      keeps buffer.memory (new_buffer_size + 58) at fits inside,
    )
