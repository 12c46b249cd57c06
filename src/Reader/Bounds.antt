-- ===== src/Reader/Bounds.antt =====
-- What the reads of a packet may touch.
use swift_net.Base.{
  ℕ, ◌+◌, ◌-◌, ◌%◌, ◌^◌, ◌≤◌, ◌<◌, ◌≡◌, refl, inl, inr, false, none, some, List, [], ◌∷◌, ltb,
  le→ltb, ltb-false, arith, Bool-cases,
}
use swift_net.Reader.{PacketData, read_packet}

-- A run of reads of the given sizes: the stretches granted, as offset and size, and the end.
pub read_packets : List ℕ → PacketData → List (ℕ × ℕ) × PacketData
read_packets [] packet_data = ([], packet_data)
read_packets (data_size ∷ sizes) packet_data =
    let (pointer, after) = read_packet data_size packet_data in
    let (granted, end) = read_packets sizes after in
    elim pointer [ none ↦ (granted, end) | some p ↦ ((p, data_size) ∷ granted, end) ]

-- The stretches follow one another from `from` on and end before `to`.
abbrev pub AreConsecutive : ℕ → ℕ → List (ℕ × ℕ) → Type 0
AreConsecutive from to [] = from ≤ to
AreConsecutive from to ((p, size) ∷ rest) = (p ≡ from) × AreConsecutive (p + size) to rest

-- No size is so large that its sum with an offset in the packet leaves 32 bits.
abbrev pub AreSmall : ℕ → List ℕ → Type 0
AreSmall data_length [] = 0 ≤ data_length
AreSmall data_length (size ∷ sizes) = (data_length + size < 2 ^ 32) × AreSmall data_length sizes

-- Reads whose sizes do not wrap around are given stretches of the packet's data, one behind the
-- other without gaps, none of them past its end, whichever of them are refused.
pub read_packets-AreConsecutive :
    (sizes : List ℕ) (packet_data : PacketData)
    → packet_data.current_pointer ≤ packet_data.data_length
    → AreSmall packet_data.data_length sizes
    → AreConsecutive packet_data.current_pointer packet_data.data_length
        (read_packets sizes packet_data).0
unfolding read_packets read_packet
read_packets-AreConsecutive [] packet_data le small = le
read_packets-AreConsecutive (size ∷ sizes) packet_data le small =
    let here = packet_data.current_pointer in
    let no_wrap : (here % 2 ^ 32 + size) % 2 ^ 32 ≡ here + size = omega (arith, small.0) in
    elim (Bool-cases (ltb packet_data.data_length (here + size))) [
      | inl refused ↦
          let done : read_packet size packet_data ≡ (none, packet_data) = rw (no_wrap, refused) in
          rw (read_packets, done, done) (read_packets-AreConsecutive sizes packet_data le small.1)
      | inr granted ↦
          let after = record packet_data { current_pointer = here + size } in
          let done : read_packet size packet_data ≡ (some here, after) = rw (no_wrap, granted) in
          rw (read_packets, done, done)
            (refl, read_packets-AreConsecutive sizes after (ltb-false _ _ granted) small.1)
    ]

-- A size that wraps around is granted: it moves the pointer to 2 ^ 32, past the end of the data.
pub read_packet-wraps :
    (packet_data : PacketData)
    → 0 < packet_data.current_pointer
    → packet_data.current_pointer ≤ packet_data.data_length
    → packet_data.data_length < 2 ^ 32
    → let read = read_packet (2 ^ 32 - packet_data.current_pointer) packet_data in
      (read.0 ≡ some packet_data.current_pointer) × (read.1.current_pointer ≡ 2 ^ 32)
unfolding read_packet
read_packet-wraps packet_data pos le small =
    let here = packet_data.current_pointer in
    let wraps : (here % 2 ^ 32 + (2 ^ 32 - here)) % 2 ^ 32 ≡ 0 = omega arith in
    let passes : ltb packet_data.data_length 0 ≡ false = le→ltb _ _ (omega arith) in
    rw (wraps, passes) (refl, omega arith)
