-- ===== src/Send/Loop.antt =====
-- The loops of `swiftnet_send_packet` and `handle_lost_packets` over the chunks of a packet.
use swift_net.Base.{
  ℕ, zero, suc, ◌+◌, ◌-◌, ◌*◌, ◌%◌, ◌^◌, ◌≤◌, ◌<◌, min, ◌≡◌, refl, ◌∙◌, true, false, Option, none,
  some, List, [], ◌∷◌, length, length-take, length-drop, drop, leb, le→leb, leb-false, lt→leb,
  arith, Bool-cases, inl, inr, map, leb→le, le→leb,
}
use native.Mathlib.Nat.{suc-mul, zero-mul}
use swift_net.Base.Buffer.{read, read-read}
use swift_net.Packet.{packet_header_size, htons}
use swift_net.Send.{
  offsetof_ip_len, chunk_data_size, chunk_amount_of, send_chunk, send_chunks, resend_chunk,
  resend_chunks,
}
use swift_net.Send.Frame.{frame, send_chunk_at, IsWithin}
use swift_net.Send.Chunked.{frames, resent, AreChunks, chunk, chunk_amount_of_lem, size_lem}

module _ (crc32 : List ℕ → ℕ) (prepend_size mtu packet_length packet_data_start : ℕ)
    (prepend_buffer : List ℕ) (buffer : List ℕ) (room : packet_header_size < mtu)
    (wire : mtu + prepend_size < 2 ^ 16) (some_data : 0 < packet_length)
    (no_wrap : packet_length + 2 ^ 16 ≤ 2 ^ 32)
    (built : length prepend_buffer ≡ prepend_size + packet_header_size)
    (front : prepend_size + packet_header_size ≤ packet_data_start)
    (inside : packet_data_start + packet_length ≤ length buffer) where
  abbrev size : ℕ
  size = chunk_data_size mtu

  abbrev bytes : List ℕ
  bytes = read buffer packet_data_start packet_length

  size_small : size < 2 ^ 16
  size_small = omega (arith, size_lem packet_length mtu room (omega arith) some_data no_wrap)

  length-bytes : length bytes ≡ packet_length
  unfolding read
  length-bytes = omega (
    arith,
    length-take packet_length (drop packet_data_start buffer),
    length-drop packet_data_start buffer,
  )

  -- Any `n` bytes of the packet from chunk `i` on leave in one frame.
  sent :
      (i n : ℕ) (ip_len : Option (ℕ × ℕ))
      → i * size < packet_length
      → IsWithin (prepend_size + packet_header_size) ip_len
      → send_chunk crc32 prepend_size prepend_buffer
          (packet_data_start + i * size - prepend_size - packet_header_size)
          i
          ip_len
          (n + (prepend_size + packet_header_size))
          buffer
        ≡ (
          frame crc32 prepend_size prepend_buffer i ip_len
              (read buffer (packet_data_start + i * size) n),
          buffer,
        )
  sent i n ip_len lt within =
      let location = packet_data_start + i * size - prepend_size - packet_header_size in
      let e : location + (prepend_size + packet_header_size) ≡ packet_data_start + i * size =
        omega arith in
      rw e at (
        send_chunk_at crc32 prepend_size prepend_buffer built i ip_len within location n buffer
          (omega (arith, e)))

  send_chunks_from :
      (fuel n i : ℕ)
      → n < fuel
      → packet_length ≤ i * size + suc n * size
      → i * size + suc n * size < packet_length + size
      → send_chunks crc32 prepend_size mtu packet_length packet_data_start prepend_buffer fuel i
          buffer
        ≡ some (frames crc32 prepend_size prepend_buffer size bytes (suc n) i, buffer)
  unfolding send_chunks frames chunk
  send_chunks_from zero n i lt lo hi = absurd (omega arith)
  send_chunks_from (suc fuel) zero i lt lo hi =
      let one : suc 0 * size ≡ size = suc-mul 0 size ∙ rw (zero-mul size) (omega arith) in
      let start : i * size < packet_length = omega (arith, one, hi) in
      let offset : i * size % 2 ^ 32 ≡ i * size = omega arith in
      let next : (i * size + size) % 2 ^ 32 ≡ i * size + size = omega (arith, size_small) in
      let last : leb packet_length (i * size + size) ≡ true = le→leb _ _ (omega (arith, one, lo)) in
      let left = packet_length - i * size in
      let to_send : (packet_length + 2 ^ 32 - i * size + packet_header_size + prepend_size) % 2 ^ 16
          ≡ left + (prepend_size + packet_header_size) =
        omega (arith, one, lo, size_lem packet_length mtu room (omega arith) some_data no_wrap) in
      let ip_len : left + (prepend_size + packet_header_size) - prepend_size
          ≡ left + packet_header_size =
        omega arith in
      let whole : min size left ≡ left = omega (arith, one, lo) in
      let payload =
        rw whole at (read-read buffer packet_data_start packet_length (i * size) size) in
      rw (
        offset,
        next,
        length-bytes,
        last,
        to_send,
        ip_len,
        sent i left (some (prepend_size + offsetof_ip_len, htons (left + packet_header_size))) start
            (omega arith),
        payload,
      )
  send_chunks_from (suc fuel) (suc n) i lt lo hi =
      let more : suc (suc n) * size ≡ size + suc n * size = suc-mul (suc n) size ∙ omega arith in
      let more' : suc n * size ≡ size + n * size = suc-mul n size ∙ omega arith in
      let tail_pos : i * size + size < packet_length = omega (arith, more, more', hi) in
      let offset : i * size % 2 ^ 32 ≡ i * size = omega arith in
      let next : (i * size + size) % 2 ^ 32 ≡ i * size + size = omega (arith, size_small) in
      let not_last : leb packet_length (i * size + size) ≡ false = lt→leb _ _ tail_pos in
      let not_last' : leb (length bytes) (i * size + size) ≡ false = rw length-bytes not_last in
      let to_send : (prepend_size + mtu) % 2 ^ 16 ≡ size + (prepend_size + packet_header_size) =
        omega (arith, size_lem packet_length mtu room (omega arith) some_data no_wrap) in
      let whole : min size (packet_length - i * size) ≡ size = omega arith in
      let payload =
        rw whole at (read-read buffer packet_data_start packet_length (i * size) size) in
      let step : (i + 1) * size ≡ i * size + size = grind arith in
      let rest =
        send_chunks_from fuel n (i + 1) (omega arith) (omega (arith, step, more, more', lo))
          (omega (arith, step, more, more', hi)) in
      let now = sent i size none (omega arith) (omega arith) in
      rw (offset, next, not_last, not_last', to_send, now, rest, offset, to_send, now, payload)

  sends_all :
      (fuel n : ℕ)
      → n ≤ fuel
      → packet_length ≤ n * size
      → n * size < packet_length + size
      → send_chunks crc32 prepend_size mtu packet_length packet_data_start prepend_buffer fuel 0
          buffer
        ≡ some (frames crc32 prepend_size prepend_buffer size bytes n 0, buffer)
  sends_all fuel zero le lo hi = absurd (omega (arith, zero-mul size))
  sends_all fuel (suc n) le lo hi =
      send_chunks_from fuel n 0 (omega arith) (omega (arith, zero-mul size))
        (omega (arith, zero-mul size))

  -- `swiftnet_send_packet` cuts a long packet into `chunk_amount` chunks and sends each of them
  -- once, in order, in the frame that its headers and its data give; the loop ends, and the
  -- buffer that it writes headers into is afterwards as the caller left it. This is for mtu above
  -- 44 and, with the link header, below 2^16, a length from 1 to 2^32 - 2^16, headers built in full
  -- and a buffer with room for them in front of the data, which it holds.
  pub send_chunks_lem :
      (fuel : ℕ)
      → chunk_amount_of packet_length mtu ≤ fuel
      → send_chunks crc32 prepend_size mtu packet_length packet_data_start prepend_buffer fuel 0
          buffer
        ≡ some (
          frames crc32 prepend_size prepend_buffer
              (chunk_data_size mtu)
              (read buffer packet_data_start packet_length)
              (chunk_amount_of packet_length mtu)
              0,
          buffer,
        )
  send_chunks_lem fuel le =
      let bounds = chunk_amount_of_lem packet_length mtu room (omega arith) some_data no_wrap in
      sends_all fuel (chunk_amount_of packet_length mtu) le bounds.0 bounds.1

  -- A lost chunk of the packet leaves in its own frame.
  pub resend_chunk_lem :
      (i : ℕ)
      → i * size < packet_length
      → resend_chunk crc32 prepend_size mtu packet_length packet_data_start prepend_buffer i buffer
        ≡ some (resent crc32 prepend_size prepend_buffer size bytes i, buffer)
  unfolding resend_chunk resent chunk
  resend_chunk_lem i lt =
      let offset : i * size % 2 ^ 32 ≡ i * size = omega arith in
      let next : (i * size + size) % 2 ^ 32 ≡ i * size + size = omega (arith, size_small) in
      let part = read-read buffer packet_data_start packet_length (i * size) size in
      let of_size = size_lem packet_length mtu room (omega arith) some_data no_wrap in
      let front : leb (prepend_size + packet_header_size) (packet_data_start + i * size) ≡ true =
        le→leb _ _ (omega arith) in
      elim (Bool-cases (leb packet_length (i * size + size))) [
        | inl last ↦
            let le : packet_length ≤ i * size + size = leb→le _ _ last in
            let last' : leb (length bytes) (i * size + size) ≡ true = rw length-bytes last in
            let left = packet_length - i * size in
            let to_complete : (packet_length + 2 ^ 32 - i * size) % 2 ^ 16 ≡ left =
              omega (arith, of_size) in
            let to_send : left + packet_header_size + prepend_size
                ≡ left + (prepend_size + packet_header_size) =
              omega arith in
            let whole : min size left ≡ left = omega arith in
            let payload = rw whole at part in
            let now =
              sent i left (some (offsetof_ip_len, htons (left + packet_header_size))) lt
                (omega arith) in
            let inside : leb (packet_data_start + i * size + left) (length buffer) ≡ true =
              le→leb _ _ (omega arith) in
            rw (
              offset, next, last, last', length-bytes, to_complete, front, inside, to_send, now,
              payload,
            )
        | inr not_last ↦
            let not_last' : leb (length bytes) (i * size + size) ≡ false =
              rw length-bytes not_last in
            let gt = leb-false packet_length (i * size + size) not_last in
            let to_send : mtu + prepend_size ≡ size + (prepend_size + packet_header_size) =
              omega (arith, of_size) in
            let whole : min size (packet_length - i * size) ≡ size = omega (arith, gt) in
            let payload = rw whole at part in
            let inside : leb (packet_data_start + i * size + size) (length buffer) ≡ true =
              le→leb _ _ (omega (arith, gt)) in
            rw (
              offset,
              next,
              not_last,
              front,
              inside,
              not_last',
              to_send,
              sent i size none lt (omega arith),
              payload,
            )
      ]

  -- `handle_lost_packets` sends the lost chunks again in the order of the list, each in its own
  -- frame, reads and writes nothing outside of the buffer, and leaves it as it was, whatever chunks of the packet are lost, under the same
  -- conditions.
  pub resend_chunks_lem :
      (lost_chunks : List ℕ)
      → AreChunks (chunk_data_size mtu) packet_length lost_chunks
      → resend_chunks crc32 prepend_size mtu packet_length packet_data_start prepend_buffer
          lost_chunks buffer
        ≡ some (
          map
              (resent crc32 prepend_size prepend_buffer
                (chunk_data_size mtu)
                (read buffer packet_data_start packet_length))
              lost_chunks,
          buffer,
        )
  unfolding resend_chunks
  resend_chunks_lem [] all = refl
  resend_chunks_lem (i ∷ lost_chunks) all =
      rw (resend_chunks, resend_chunk_lem i all.0, resend_chunks_lem lost_chunks all.1)
