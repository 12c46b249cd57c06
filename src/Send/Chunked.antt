-- ===== src/Send/Chunked.antt =====
-- The loop of `swiftnet_send_packet` against the list of the packet's chunks.
use swift_net.Base.{
  ℕ, zero, suc, ◌+◌, ◌-◌, ◌*◌, ◌/◌, ◌%◌, ◌^◌, ◌≤◌, ◌<◌, ◌≡◌, ◌∙◌, none, some, List, [], ◌∷◌, ◌++◌,
  length, take, drop, leb, if◌then◌else◌, arith,
}
use native.Mathlib.Nat.{div-mul-le_self, lt-div-mul-add, suc-mul, zero-mul}
use swift_net.Base.Buffer.{take-add, drop-drop, take_all}
use swift_net.Packet.{packet_header_size, htons}
use swift_net.Send.{offsetof_ip_len, chunk_data_size, chunk_amount_of}
use swift_net.Send.Frame.{frame}

-- Chunk `i` of the data: `size` bytes from `i * size` on, fewer at the end.
unfoldable pub chunk : ℕ → List ℕ → ℕ → List ℕ
chunk size bytes i = take size (drop (i * size) bytes)

-- The data of `n` chunks from `i` on, put together.
unfoldable pub joined : ℕ → List ℕ → ℕ → ℕ → List ℕ
unfolding chunk
joined size bytes zero i = []
joined size bytes (suc n) i = chunk size bytes i ++ joined size bytes n (i + 1)

module _ (packet_length mtu : ℕ) (room : packet_header_size < mtu) (wire : mtu < 2 ^ 16)
    (some_data : 0 < packet_length) (no_wrap : packet_length + 2 ^ 16 ≤ 2 ^ 32) where
  pub size_lem : chunk_data_size mtu ≡ mtu - packet_header_size
  unfolding chunk_data_size
  size_lem = omega arith

  -- The chunks hold all of the data, and the last one is not empty.
  pub chunk_amount_of_lem :
      (packet_length ≤ chunk_amount_of packet_length mtu * chunk_data_size mtu)
      × (chunk_amount_of packet_length mtu * chunk_data_size mtu
          < packet_length + chunk_data_size mtu)
  unfolding chunk_amount_of
  chunk_amount_of_lem =
      let size = mtu - packet_header_size in
      let top = packet_length + size - 1 in
      let e : (packet_length + size + 2 ^ 32 - 1) % 2 ^ 32 ≡ top = omega arith in
      let below = div-mul-le_self top size in
      let above : top < top / size * size + size = lt-div-mul-add (omega arith) in
      rw (size_lem, e) (omega arith, omega arith)

-- The data of consecutive chunks is a stretch of the bytes.
joined_lem :
    (size : ℕ) (bytes : List ℕ) (n i : ℕ)
    → joined size bytes n i ≡ take (n * size) (drop (i * size) bytes)
unfolding joined chunk
joined_lem size bytes zero i = let e : 0 * size ≡ 0 = zero-mul size in rw e
joined_lem size bytes (suc n) i =
    let e : suc n * size ≡ size + n * size = suc-mul n size ∙ omega arith in
    let next : (i + 1) * size ≡ i * size + size = grind arith in
    rw (
      e,
      take-add size (n * size) (drop (i * size) bytes),
      drop-drop (i * size) size bytes,
      ← next,
      joined_lem size bytes n (i + 1),
    )

-- Enough chunks hold all of the bytes.
pub joined_all :
    (size n : ℕ) (bytes : List ℕ) → length bytes ≤ n * size → joined size bytes n 0 ≡ bytes
joined_all size n bytes le =
    let start : 0 * size ≡ 0 = zero-mul size in
    joined_lem size bytes n 0 ∙ rw start (take_all (n * size) bytes le)

-- The frames of `n` chunks from `i` on: only the last chunk of the packet has its own length
-- written into the IP header, which otherwise has that of `prepend_buffer`.
unfoldable pub frames : (List ℕ → ℕ) → ℕ → List ℕ → ℕ → List ℕ → ℕ → ℕ → List (List ℕ)
frames crc32 prepend_size prepend_buffer size bytes zero i = []
frames crc32 prepend_size prepend_buffer size bytes (suc n) i =
    let ip_len =
      if leb (length bytes) (i * size + size)
      then some
          (prepend_size + offsetof_ip_len, htons (length bytes - i * size + packet_header_size))
      else none in
    frame crc32 prepend_size prepend_buffer i ip_len (chunk size bytes i)
    ∷ frames crc32 prepend_size prepend_buffer size bytes n (i + 1)

-- The frame of chunk `i` when it is sent again: `handle_lost_packets` writes the length of the last
-- chunk at `ip_len` from the start of the frame, not from the start of the IP header.
unfoldable pub resent : (List ℕ → ℕ) → ℕ → List ℕ → ℕ → List ℕ → ℕ → List ℕ
resent crc32 prepend_size prepend_buffer size bytes i =
    let ip_len =
      if leb (length bytes) (i * size + size)
      then some (offsetof_ip_len, htons (length bytes - i * size + packet_header_size))
      else none in
    frame crc32 prepend_size prepend_buffer i ip_len (chunk size bytes i)

-- Every index is that of a chunk of the packet.
abbrev pub AreChunks : ℕ → ℕ → List ℕ → Type 0
AreChunks size packet_length [] = 0 ≤ packet_length
AreChunks size packet_length (i ∷ chunks) =
    (i * size < packet_length) × AreChunks size packet_length chunks
