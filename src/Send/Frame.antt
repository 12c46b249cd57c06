-- ===== src/Send/Frame.antt =====
-- What `send_chunk` puts on the wire and what it leaves in the buffer.
use swift_net.Base.{
  ℕ, ◌+◌, ◌-◌, ◌≤◌, ◌≡◌, refl, sym, ap₂, ◌∙◌, Option, none, some, List, ◌++◌, length, length-take,
  length-drop, take, drop, take-append-drop, arith,
}
use swift_net.Base.Buffer.{
  memcpy, read, little_endian, length-little_endian, memcpy-append_le, length-memcpy, memcpy-over,
  memcpy-within, read-whole, read-within, read-exactly, drop-drop,
}
use swift_net.Packet.{sizeof_ip, sizeof_packet_info, packet_header_size}
use swift_net.Send.{
  offsetof_chunk_index, offsetof_checksum, handle_checksum, write_ip_len, write_headers, send_chunk,
}

-- The headers with the length that a branch writes into them.
unfoldable pub with_length : Option (ℕ × ℕ) → List ℕ → List ℕ
with_length none h = h
with_length (some (place, value)) h = memcpy h place (little_endian 2 value)

-- The headers of chunk `i`, all but its checksum: the bytes that were constructed, with the index
-- and the length of the chunk.
unfoldable pub headers : ℕ → List ℕ → ℕ → Option (ℕ × ℕ) → List ℕ
unfolding with_length
headers prepend_size prepend_buffer i ip_len =
    let indexed =
      memcpy prepend_buffer (sizeof_ip + prepend_size + offsetof_chunk_index) (little_endian 4 i) in
    let reset = memcpy indexed (sizeof_ip + prepend_size + offsetof_checksum) (little_endian 4 0) in
    with_length ip_len reset

-- The frame of chunk `i` with the given data, a function of its headers and its data alone.
unfoldable pub frame : (List ℕ → ℕ) → ℕ → List ℕ → ℕ → Option (ℕ × ℕ) → List ℕ → List ℕ
unfolding headers
frame crc32 prepend_size prepend_buffer i ip_len payload =
    let bytes = headers prepend_size prepend_buffer i ip_len ++ payload in
    memcpy bytes (prepend_size + sizeof_ip + offsetof_checksum)
      (little_endian 4 (crc32 (drop (prepend_size + sizeof_ip) bytes)))

-- The length is written inside the headers.
abbrev pub IsWithin : ℕ → Option (ℕ × ℕ) → Type 0
IsWithin room none = 0 ≤ room
IsWithin room (some (place, value)) = place + 2 ≤ room

length-patch :
    (h : List ℕ) (k width n : ℕ)
    → k + width ≤ length h
    → length (memcpy h k (little_endian width n)) ≡ length h
length-patch h k width n le =
    length-memcpy h (little_endian width n) k (rw (length-little_endian width n) le)

patch-within :
    (pre h post : List ℕ) (k width n : ℕ)
    → k + width ≤ length h
    → memcpy (pre ++ (h ++ post)) (length pre + k) (little_endian width n)
      ≡ pre ++ (memcpy h k (little_endian width n) ++ post)
patch-within pre h post k width n le =
    memcpy-within pre h post (little_endian width n) k (rw (length-little_endian width n) le)

write_ip_len-within :
    (pre h post : List ℕ) (ip_len : Option (ℕ × ℕ))
    → IsWithin (length h) ip_len
    → (write_ip_len (length pre) ip_len (pre ++ (h ++ post))
        ≡ pre ++ (with_length ip_len h ++ post))
      × (length (with_length ip_len h) ≡ length h)
unfolding write_ip_len with_length
write_ip_len-within pre h post none within = (refl, refl)
write_ip_len-within pre h post (some (place, value)) within =
    (patch-within pre h post place 2 value within, length-patch h place 2 value within)

module _ (prepend_size : ℕ) (prepend_buffer : List ℕ)
    (built : length prepend_buffer ≡ prepend_size + packet_header_size) (i : ℕ)
    (ip_len : Option (ℕ × ℕ)) (within : IsWithin (prepend_size + packet_header_size) ip_len)
    (pre hd post : List ℕ) (e : length hd ≡ prepend_size + packet_header_size) where
  write_headers_lem :
      (write_headers prepend_size prepend_buffer (length pre) i ip_len (pre ++ (hd ++ post))
        ≡ pre ++ (headers prepend_size prepend_buffer i ip_len ++ post))
      × (length (headers prepend_size prepend_buffer i ip_len) ≡ prepend_size + packet_header_size)
  unfolding write_headers headers
  write_headers_lem =
      let indexed =
        memcpy prepend_buffer (sizeof_ip + prepend_size + offsetof_chunk_index)
          (little_endian 4 i) in
      let reset =
        memcpy indexed (sizeof_ip + prepend_size + offsetof_checksum) (little_endian 4 0) in
      let room : sizeof_ip + prepend_size + offsetof_chunk_index + 4 ≤ length prepend_buffer =
        omega (arith, built) in
      let length_indexed =
        length-patch prepend_buffer (sizeof_ip + prepend_size + offsetof_chunk_index) 4 i room in
      let room' : sizeof_ip + prepend_size + offsetof_checksum + 4 ≤ length indexed =
        omega (arith, built, length_indexed) in
      let length_reset =
        length-patch indexed (sizeof_ip + prepend_size + offsetof_checksum) 4 0 room'
        ∙ length_indexed
        ∙ built in
      let patched = write_ip_len-within pre reset post ip_len (rw length_reset within) in
      (
        rw
            (
              memcpy-over pre hd post prepend_buffer (built ∙ sym e),
              patch-within pre prepend_buffer post (sizeof_ip + prepend_size + offsetof_chunk_index)
                  4 i room,
              patch-within pre indexed post (sizeof_ip + prepend_size + offsetof_checksum) 4 0
                  room',
            )
            patched.0,
        patched.1 ∙ length_reset,
      )

module _ (crc32 : List ℕ → ℕ) (prepend_size : ℕ) where
  -- The checksum stands inside the headers, and covers the packet's own headers and its data.
  handle_checksum_lem :
      (pre h post : List ℕ) (size : ℕ)
      → length h ≡ prepend_size + packet_header_size
      → handle_checksum crc32
          (pre ++ (h ++ post))
          (length pre + (prepend_size + sizeof_ip))
          (size + sizeof_packet_info)
        ≡ pre
          ++ (memcpy h
                (prepend_size + sizeof_ip + offsetof_checksum)
                (little_endian 4 (crc32 (drop (prepend_size + sizeof_ip) (h ++ take size post))))
              ++ post)
  unfolding handle_checksum
  handle_checksum_lem pre h post size e =
      let place : length pre + (prepend_size + sizeof_ip) + offsetof_checksum
          ≡ length pre + (prepend_size + sizeof_ip + offsetof_checksum) =
        omega arith in
      let span : size + sizeof_packet_info ≡ length h - (prepend_size + sizeof_ip) + size =
        omega (arith, e) in
      rw (place, span, read-within pre h post (prepend_size + sizeof_ip) size (omega (arith, e)))
        (patch-within pre h post (prepend_size + sizeof_ip + offsetof_checksum) 4 _
          (omega (arith, e)))

module _ (crc32 : List ℕ → ℕ) (prepend_size : ℕ) (prepend_buffer : List ℕ)
    (built : length prepend_buffer ≡ prepend_size + packet_header_size) (i : ℕ)
    (ip_len : Option (ℕ × ℕ)) (within : IsWithin (prepend_size + packet_header_size) ip_len) where
  -- A chunk of `size` bytes more than its headers leaves as its frame, whatever stood in front of
  -- it in the buffer, and the buffer is the same afterwards.
  pub send_chunk_lem :
      (pre hd post : List ℕ) (size : ℕ)
      → length hd ≡ prepend_size + packet_header_size
      → send_chunk crc32 prepend_size prepend_buffer
          (length pre)
          i
          ip_len
          (size + (prepend_size + packet_header_size))
          (pre ++ (hd ++ post))
        ≡ (frame crc32 prepend_size prepend_buffer i ip_len (take size post), pre ++ (hd ++ post))
  unfolding send_chunk frame
  send_chunk_lem pre hd post size e =
      let h = headers prepend_size prepend_buffer i ip_len in
      let written =
        write_headers_lem prepend_size prepend_buffer built i ip_len within pre hd post e in
      let span : size + (prepend_size + packet_header_size) - prepend_size - sizeof_ip
          ≡ size + sizeof_packet_info =
        omega arith in
      let checksum =
        little_endian 4 (crc32 (drop (prepend_size + sizeof_ip) (h ++ take size post))) in
      let width =
        length-little_endian 4 (crc32 (drop (prepend_size + sizeof_ip) (h ++ take size post))) in
      let inside : prepend_size + sizeof_ip + offsetof_checksum + length checksum ≤ length h =
        omega (arith, width, written.1) in
      let summed = memcpy h (prepend_size + sizeof_ip + offsetof_checksum) checksum in
      let length_summed : length summed ≡ prepend_size + packet_header_size =
        length-memcpy h checksum (prepend_size + sizeof_ip + offsetof_checksum) inside
        ∙ written.1 in
      let rest : size + (prepend_size + packet_header_size) - length summed ≡ size =
        omega (arith, length_summed) in
      let enough : length summed ≤ size + (prepend_size + packet_header_size) =
        omega (arith, length_summed) in
      rw (written.0, span, handle_checksum_lem crc32 prepend_size pre h post size written.1)
        (ap₂ (λ a b. (a, b))
          (rw rest at
              (read-whole pre summed post (size + (prepend_size + packet_header_size)) enough)
            ∙ sym (memcpy-append_le h (take size post) checksum _ inside))
          (rw (read-exactly pre hd post (prepend_size + packet_header_size) e)
            (memcpy-over pre summed post hd (e ∙ sym length_summed))))

  -- The same at a place of a buffer with room for the headers.
  pub send_chunk_at :
      (location size : ℕ) (buffer : List ℕ)
      → location + (prepend_size + packet_header_size) ≤ length buffer
      → send_chunk crc32 prepend_size prepend_buffer location i ip_len
          (size + (prepend_size + packet_header_size))
          buffer
        ≡ (
          frame crc32 prepend_size prepend_buffer i ip_len
              (read buffer (location + (prepend_size + packet_header_size)) size),
          buffer,
        )
  unfolding read
  send_chunk_at location size buffer room =
      let width = prepend_size + packet_header_size in
      let pre = take location buffer in
      let hd = take width (drop location buffer) in
      let post = drop width (drop location buffer) in
      let length_pre : length pre ≡ location = omega (arith, length-take location buffer) in
      let length_hd : length hd ≡ width =
        omega (arith, length-take width (drop location buffer), length-drop location buffer) in
      let split : pre ++ (hd ++ post) ≡ buffer =
        rw (take-append-drop width (drop location buffer)) (take-append-drop location buffer) in
      rw (← drop-drop location width buffer)
        (rw (length_pre, split) at (send_chunk_lem pre hd post size length_hd))
