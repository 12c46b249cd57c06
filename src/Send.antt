-- ===== src/Send.antt =====
-- How src/send_packet.c cuts a packet into chunks (`swiftnet_send_packet`) and sends lost ones again
-- (`handle_lost_packets`), on the pcap backend. A chunk is sent out of the caller's buffer: its
-- headers are written over the bytes in front of its data, which are put back afterwards.
--
-- The instructions behind `crc32`, and the header bytes that `HANDLE_PACKET_CONSTRUCTION` copies
-- from the structs, are parameters. The result of a loop is the frames given to `pcap_inject`, in
-- order, and the buffer.
pub mod Frame
pub mod Chunked
pub mod Loop
mod Tests
use swift_net.Base.{
  ℕ, zero, suc, ◌+◌, ◌-◌, ◌*◌, ◌/◌, ◌%◌, ◌^◌, Option, none, some, List, [], ◌∷◌, length, ◌&&◌, leb,
  if◌then◌else◌,
}
use swift_net.Base.Buffer.{memcpy, read, little_endian}
use swift_net.Packet.{sizeof_ip, sizeof_packet_info, packet_header_size, htons}

-- Offsets of fields: `ip_len` in `struct ip`, `chunk_index` and `checksum` in `SwiftNetPacketInfo`.
abbrev pub offsetof_ip_len : ℕ
offsetof_ip_len = 2

abbrev pub offsetof_chunk_index : ℕ
offsetof_chunk_index = 8

abbrev pub offsetof_checksum : ℕ
offsetof_checksum = 12

-- `mtu - PACKET_HEADER_SIZE` in the unsigned arithmetic of the expressions around it.
unfoldable pub chunk_data_size : ℕ → ℕ
chunk_data_size mtu = (mtu + 2 ^ 32 - packet_header_size) % 2 ^ 32

-- `chunk_amount`
unfoldable pub chunk_amount_of : ℕ → ℕ → ℕ
unfolding chunk_data_size
chunk_amount_of packet_length mtu =
    (packet_length + chunk_data_size mtu + 2 ^ 32 - 1) % 2 ^ 32 / chunk_data_size mtu

-- The length of the packet, where a branch writes one, at its place behind `location`.
unfoldable pub write_ip_len : ℕ → Option (ℕ × ℕ) → List ℕ → List ℕ
write_ip_len location none buffer = buffer
write_ip_len location (some (place, value)) buffer =
    memcpy buffer (location + place) (little_endian 2 value)

-- The headers of chunk `i`, written over the buffer at `location`.
unfoldable pub write_headers : ℕ → List ℕ → ℕ → ℕ → Option (ℕ × ℕ) → List ℕ → List ℕ
unfolding write_ip_len
write_headers prepend_size prepend_buffer location i ip_len buffer =
    let headed = memcpy buffer location prepend_buffer in
    let indexed =
      memcpy headed (location + (sizeof_ip + prepend_size + offsetof_chunk_index))
        (little_endian 4 i) in
    let reset =
      memcpy indexed (location + (sizeof_ip + prepend_size + offsetof_checksum))
        (little_endian 4 0) in
    write_ip_len location ip_len reset

module _ (crc32 : List ℕ → ℕ) where
  -- `HANDLE_CHECKSUM (buffer + at) size`
  unfoldable pub handle_checksum : List ℕ → ℕ → ℕ → List ℕ
  handle_checksum buffer at size =
      memcpy buffer (at + offsetof_checksum) (little_endian 4 (crc32 (read buffer at size)))

  -- What both branches of either loop do at a chunk: save the bytes in front of it, write its
  -- headers there, send `bytes_to_send` bytes and put the saved bytes back. `ip_len`, where there
  -- is one, is the place and the value of the length that the branch writes into the headers.
  pub send_chunk : ℕ → List ℕ → ℕ → ℕ → Option (ℕ × ℕ) → ℕ → List ℕ → List ℕ × List ℕ
  unfolding handle_checksum write_headers
  send_chunk prepend_size prepend_buffer location i ip_len bytes_to_send buffer =
      let temp_data_buffer = read buffer location (prepend_size + packet_header_size) in
      let patched = write_headers prepend_size prepend_buffer location i ip_len buffer in
      let sent =
        handle_checksum patched (location + (prepend_size + sizeof_ip))
          (bytes_to_send - prepend_size - sizeof_ip) in
      (read sent location bytes_to_send, memcpy sent location temp_data_buffer)

  module _ (prepend_size mtu packet_length packet_data_start : ℕ) (prepend_buffer : List ℕ) where
    -- The loop of `swiftnet_send_packet` from chunk `i` on, for `fuel` chunks at most.
    pub send_chunks : ℕ → ℕ → List ℕ → Option (List (List ℕ) × List ℕ)
    send_chunks zero i buffer = none
    send_chunks (suc fuel) i buffer =
        let current_offset = i * chunk_data_size mtu % 2 ^ 32 in
        let location = packet_data_start + current_offset - prepend_size - packet_header_size in
        let last = leb packet_length ((current_offset + chunk_data_size mtu) % 2 ^ 32) in
        let bytes_to_send =
          (packet_length + 2 ^ 32 - current_offset + packet_header_size + prepend_size) % 2 ^ 16 in
        let last_chunk =
          send_chunk prepend_size prepend_buffer location i
            (some (prepend_size + offsetof_ip_len, htons (bytes_to_send - prepend_size)))
            bytes_to_send buffer in
        let chunk =
          send_chunk prepend_size prepend_buffer location i none ((prepend_size + mtu) % 2 ^ 16)
            buffer in
        let rest = send_chunks fuel (i + 1) chunk.1 in
        if last
        then some (last_chunk.0 ∷ [], last_chunk.1)
        else elim rest [ none ↦ none | some (frames, buffer') ↦ some (chunk.0 ∷ frames, buffer') ]

    -- The body of the loop of `handle_lost_packets` over `lost_chunks`; `none` where the headers and
    -- the data of the chunk are not within the buffer.
    pub resend_chunk : ℕ → List ℕ → Option (List ℕ × List ℕ)
    resend_chunk lost_chunk_index buffer =
        let current_offset = lost_chunk_index * chunk_data_size mtu % 2 ^ 32 in
        let location = packet_data_start + current_offset - prepend_size - packet_header_size in
        let last = leb packet_length ((current_offset + chunk_data_size mtu) % 2 ^ 32) in
        let bytes_to_complete = (packet_length + 2 ^ 32 - current_offset) % 2 ^ 16 in
        let data_size = if last then bytes_to_complete else chunk_data_size mtu in
        let inside =
          leb (prepend_size + packet_header_size) (packet_data_start + current_offset)
          && leb (packet_data_start + current_offset + data_size) (length buffer) in
        if inside
        then some (
            if last
            then send_chunk prepend_size prepend_buffer location lost_chunk_index
                (some (offsetof_ip_len, htons (bytes_to_complete + packet_header_size)))
                (bytes_to_complete + packet_header_size + prepend_size) buffer
            else send_chunk prepend_size prepend_buffer location lost_chunk_index none
                (mtu + prepend_size) buffer)
        else none

    -- The loop over `lost_chunks`, for a list that does not change meanwhile.
    pub resend_chunks : List ℕ → List ℕ → Option (List (List ℕ) × List ℕ)
    resend_chunks [] buffer = some ([], buffer)
    resend_chunks (lost_chunk_index ∷ lost_chunks) buffer =
        elim (resend_chunk lost_chunk_index buffer) [
          | none ↦ none
          | some (frame, buffer') ↦ elim (resend_chunks lost_chunks buffer') [
            | none ↦ none
            | some (frames, buffer'') ↦ some (frame ∷ frames, buffer'')
          ]
        ]
