-- ===== src/Transfer/Frames.antt =====
-- The frames of a message as packets.
use swift_net.Base.{
  ℕ, ◌+◌, ◌≡◌, refl, ap, ◌∙◌, Option, none, some, List, [], ◌++◌, length, append_assoc, append-nil,
  arith,
}
use swift_net.Base.Buffer.{memcpy, little_endian, memcpy-append_add}
use swift_net.Packet.{Packet, PacketInfo, Ip, sizeof_ip, bytes_of_packet_info, frame_of}
use swift_net.Send.{offsetof_ip_len, offsetof_chunk_index, offsetof_checksum}
use swift_net.Send.Frame.{frame, headers, with_length}
use swift_net.Transfer.{bytes_of_ip}
use swift_net.Transfer.Headers.{memcpy-headers, drop-headers, length-bytes_of_ip}

-- The IP header with the length that a branch writes into it.
abbrev pub lengthened : Option ℕ → Ip → Ip
lengthened none ip = ip
lengthened (some value) ip = record ip { ip_len = value }

abbrev pub place_of : ℕ → Option ℕ → Option (ℕ × ℕ)
place_of prepend_size none = none
place_of prepend_size (some value) = some (prepend_size + offsetof_ip_len, value)

-- The packet of a chunk: its index, its checksum over the rest of it, and its data.
abbrev pub chunk_packet : (List ℕ → ℕ) → Ip → PacketInfo → ℕ → Option ℕ → List ℕ → Packet
chunk_packet crc32 ip info i value payload =
    let cleared = record info { chunk_index = i; checksum = 0 } in
    record {
      ip_header = lengthened value ip;
      packet_info = record cleared { checksum = crc32 (bytes_of_packet_info cleared ++ payload) };
      payload = payload;
    }

memcpy-chunk_index :
    (info : PacketInfo) (i : ℕ)
    → memcpy (bytes_of_packet_info info) 8 (little_endian 4 i)
      ≡ bytes_of_packet_info (record info { chunk_index = i })
unfolding memcpy bytes_of_packet_info little_endian
memcpy-chunk_index info i = refl

pub memcpy-checksum :
    (info : PacketInfo) (payload : List ℕ) (c : ℕ)
    → memcpy (bytes_of_packet_info info ++ payload) 12 (little_endian 4 c)
      ≡ bytes_of_packet_info (record info { checksum = c }) ++ payload
unfolding memcpy bytes_of_packet_info little_endian
memcpy-checksum info payload c = refl

memcpy-ip_len :
    (ip : Ip) (rest : List ℕ) (value : ℕ)
    → memcpy (bytes_of_ip ip ++ rest) 2 (little_endian 2 value)
      ≡ bytes_of_ip (record ip { ip_len = value }) ++ rest
unfolding memcpy bytes_of_ip little_endian
memcpy-ip_len ip rest value = refl

module _ (link : List ℕ) (ip : Ip) (info : PacketInfo) where
  abbrev pub construction : List ℕ
  construction =
      frame_of link (bytes_of_ip ip) (record { ip_header = ip; packet_info = info; payload = [] })

  with_length-place_of :
      (value : Option ℕ) (rest : List ℕ)
      → with_length (place_of (length link) value) (link ++ (bytes_of_ip ip ++ rest))
        ≡ link ++ (bytes_of_ip (lengthened value ip) ++ rest)
  unfolding with_length
  with_length-place_of none rest = refl
  with_length-place_of (some value) rest =
      memcpy-append_add link (bytes_of_ip ip ++ rest) (little_endian 2 value) 2
      ∙ ap (λ r. link ++ r) (memcpy-ip_len ip rest value)

  headers_lem :
      (i : ℕ) (value : Option ℕ)
      → headers (length link) construction i (place_of (length link) value)
        ≡ link
          ++ (bytes_of_ip (lengthened value ip)
              ++ bytes_of_packet_info (record info { chunk_index = i; checksum = 0 }))
  unfolding headers frame_of
  headers_lem i value =
      let ip_bytes = bytes_of_ip ip in
      let indexed_info = record info { chunk_index = i } in
      let at_index : sizeof_ip + length link + offsetof_chunk_index
          ≡ length link + (sizeof_ip + 8) =
        omega arith in
      let at_checksum : sizeof_ip + length link + offsetof_checksum
          ≡ length link + (sizeof_ip + 12) =
        omega arith in
      let reset : memcpy (bytes_of_packet_info indexed_info) 12 (little_endian 4 0)
          ≡ bytes_of_packet_info (record info { chunk_index = i; checksum = 0 }) =
        (let done = memcpy-checksum indexed_info [] 0 in
          rw
            (
              append-nil (bytes_of_packet_info indexed_info),
              append-nil (bytes_of_packet_info (record info { chunk_index = i; checksum = 0 })),
            )
            at done) in
      rw
        (
          append-nil (bytes_of_packet_info info),
          at_index,
          memcpy-headers link ip_bytes (bytes_of_packet_info info) (little_endian 4 i) 8
              (length-bytes_of_ip ip),
          memcpy-chunk_index info i,
          at_checksum,
          memcpy-headers link ip_bytes (bytes_of_packet_info indexed_info) (little_endian 4 0) 12
              (length-bytes_of_ip ip),
          reset,
        )
        (with_length-place_of value
          (bytes_of_packet_info (record info { chunk_index = i; checksum = 0 })))

  -- The frame of a chunk is the frame of its packet.
  pub frame_lem :
      (crc32 : List ℕ → ℕ) (i : ℕ) (value : Option ℕ) (payload : List ℕ)
      → let packet = chunk_packet crc32 ip info i value payload in
        frame crc32 (length link) construction i (place_of (length link) value) payload
        ≡ frame_of link (bytes_of_ip packet.ip_header) packet
  unfolding frame frame_of
  frame_lem crc32 i value payload =
      let cleared = record info { chunk_index = i; checksum = 0 } in
      let ip_bytes = bytes_of_ip (lengthened value ip) in
      let whole : (link ++ (ip_bytes ++ bytes_of_packet_info cleared)) ++ payload
          ≡ link ++ (ip_bytes ++ (bytes_of_packet_info cleared ++ payload)) =
        simp append_assoc in
      let at_checksum : length link + sizeof_ip + offsetof_checksum
          ≡ length link + (sizeof_ip + 12) =
        omega arith in
      let checksum = crc32 (bytes_of_packet_info cleared ++ payload) in
      rw
        (
          headers_lem i value,
          whole,
          at_checksum,
          drop-headers link ip_bytes (bytes_of_packet_info cleared ++ payload) 0
              (length-bytes_of_ip (lengthened value ip)),
          memcpy-headers link ip_bytes (bytes_of_packet_info cleared ++ payload)
              (little_endian 4 checksum) 12 (length-bytes_of_ip (lengthened value ip)),
          memcpy-checksum cleared payload checksum,
        )
        refl
