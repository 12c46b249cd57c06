-- ===== src/Transfer/Headers.antt =====
-- The headers of a frame, written and read back.
use swift_net.Base.{
  ℕ, ◌+◌, ◌-◌, ◌^◌, ◌<◌, ◌≡◌, refl, ap, ◌∙◌, List, ◌++◌, take, drop, length, length-append,
  append_assoc, append-nil, arith,
}
use native.Mathlib.Nat.{add-zero}
use swift_net.Base.Buffer.{
  memcpy, read, little_endian, memcpy-append_add, drop-append_add, take-append_add,
}
use swift_net.Packet.{
  Packet, PacketInfo, Ip, sizeof_ip, sizeof_packet_info, packet_header_size, bytes_of_packet_info,
  frame_of,
}
use swift_net.Routing.Handshake.{from_bytes-little_endian}
use swift_net.Transfer.{bytes_of_ip, ip_of, packet_info_of, packet_of}

-- Every field fits into its width.
pub record IsPacked (info : PacketInfo) : Type 0 where
  pub packet_length : info.packet_length < 2 ^ 32
  pub chunk_amount : info.chunk_amount < 2 ^ 32
  pub chunk_index : info.chunk_index < 2 ^ 32
  pub checksum : info.checksum < 2 ^ 32
  pub destination_port : info.port_info.destination_port < 2 ^ 16
  pub source_port : info.port_info.source_port < 2 ^ 16
  pub maximum_transmission_unit : info.maximum_transmission_unit < 2 ^ 16
  pub packet_type : info.packet_type < 2 ^ 8

pub record IsPackedIp (ip : Ip) : Type 0 where
  pub ip_len : ip.ip_len < 2 ^ 16
  pub ip_id : ip.ip_id < 2 ^ 16
  pub ip_sum : ip.ip_sum < 2 ^ 16
  pub ip_src : ip.ip_src < 2 ^ 32
  pub ip_dst : ip.ip_dst < 2 ^ 32

pub packet_info_of-bytes :
    (info : PacketInfo) → IsPacked info → packet_info_of (bytes_of_packet_info info) ≡ info
unfolding packet_info_of bytes_of_packet_info little_endian read
packet_info_of-bytes info p = λ i. record {
  packet_length = from_bytes-little_endian 4 info.packet_length (omega (arith, p.packet_length)) i;
  chunk_amount = from_bytes-little_endian 4 info.chunk_amount (omega (arith, p.chunk_amount)) i;
  chunk_index = from_bytes-little_endian 4 info.chunk_index (omega (arith, p.chunk_index)) i;
  checksum = from_bytes-little_endian 4 info.checksum (omega (arith, p.checksum)) i;
  port_info = record {
    destination_port =
        from_bytes-little_endian 2 info.port_info.destination_port
          (omega (arith, p.destination_port)) i;
    source_port =
        from_bytes-little_endian 2 info.port_info.source_port (omega (arith, p.source_port)) i;
  };
  maximum_transmission_unit =
      from_bytes-little_endian 2 info.maximum_transmission_unit
        (omega (arith, p.maximum_transmission_unit)) i;
  packet_type = from_bytes-little_endian 1 info.packet_type (omega (arith, p.packet_type)) i;
}

pub ip_of-bytes : (ip : Ip) → IsPackedIp ip → ip_of (bytes_of_ip ip) ≡ ip
unfolding ip_of bytes_of_ip little_endian read
ip_of-bytes ip p = λ i. record {
  ip_len = from_bytes-little_endian 2 ip.ip_len (omega (arith, p.ip_len)) i;
  ip_id = from_bytes-little_endian 2 ip.ip_id (omega (arith, p.ip_id)) i;
  ip_sum = from_bytes-little_endian 2 ip.ip_sum (omega (arith, p.ip_sum)) i;
  ip_src = from_bytes-little_endian 4 ip.ip_src (omega (arith, p.ip_src)) i;
  ip_dst = from_bytes-little_endian 4 ip.ip_dst (omega (arith, p.ip_dst)) i;
}

pub length-bytes_of_ip : (ip : Ip) → length (bytes_of_ip ip) ≡ sizeof_ip
unfolding bytes_of_ip little_endian
length-bytes_of_ip ip = refl

pub length-bytes_of_packet_info :
    (info : PacketInfo) → length (bytes_of_packet_info info) ≡ sizeof_packet_info
unfolding bytes_of_packet_info little_endian
length-bytes_of_packet_info info = refl

-- Bytes `k` behind the link header and the IP header.
pub memcpy-headers :
    (link ip rest bytes : List ℕ) (k : ℕ)
    → length ip ≡ sizeof_ip
    → memcpy (link ++ (ip ++ rest)) (length link + (sizeof_ip + k)) bytes
      ≡ link ++ (ip ++ memcpy rest k bytes)
memcpy-headers link ip rest bytes k e = rw (← e) (
    memcpy-append_add link (ip ++ rest) bytes (length ip + k)
    ∙ ap (λ r. link ++ r) (memcpy-append_add ip rest bytes k))

pub drop-headers :
    (link ip rest : List ℕ) (k : ℕ)
    → length ip ≡ sizeof_ip
    → drop (length link + (sizeof_ip + k)) (link ++ (ip ++ rest)) ≡ drop k rest
drop-headers link ip rest k e =
    rw (← e) (drop-append_add link (ip ++ rest) (length ip + k) ∙ drop-append_add ip rest k)

drop-bytes_of_packet_info :
    (info : PacketInfo) (rest : List ℕ) → drop 24 (bytes_of_packet_info info ++ rest) ≡ rest
unfolding bytes_of_packet_info little_endian
drop-bytes_of_packet_info info rest = refl

take_front : (h post : List ℕ) (n : ℕ) → length h ≡ n → take n (h ++ post) ≡ h
take_front h post n e =
    rw (← e)
      (let whole = take-append_add h post 0 in rw (add-zero (length h), append-nil h) at whole)

module _ (link : List ℕ) (packet : Packet) (rest : List ℕ) where
  abbrev pub frame_bytes : List ℕ
  frame_bytes = frame_of link (bytes_of_ip packet.ip_header) packet

  frame_split :
      frame_bytes ++ rest
      ≡ link
        ++ (bytes_of_ip packet.ip_header
            ++ (bytes_of_packet_info packet.packet_info ++ (packet.payload ++ rest)))
  unfolding frame_of
  frame_split = simp append_assoc

  pub length-frame_of :
      length frame_bytes ≡ length link + packet_header_size + length packet.payload
  unfolding frame_of
  length-frame_of = omega (
    arith,
    length-append link (
        bytes_of_ip packet.ip_header
        ++ (bytes_of_packet_info packet.packet_info ++ packet.payload)),
    length-append (bytes_of_ip packet.ip_header)
        (bytes_of_packet_info packet.packet_info ++ packet.payload),
    length-append (bytes_of_packet_info packet.packet_info) packet.payload,
    length-bytes_of_ip packet.ip_header,
    length-bytes_of_packet_info packet.packet_info,
  )

  -- A node that holds a frame, whatever was in its block before, is read as the packet of the frame.
  pub packet_of-frame_of :
      (sender_address : ℕ)
      → IsPacked packet.packet_info
      → IsPackedIp packet.ip_header
      → packet_of (length link) (record {
        data_read = length frame_bytes;
        packet_buffer = frame_bytes ++ rest;
        sender_address = sender_address;
      })
        ≡ packet
  unfolding packet_of read
  packet_of-frame_of sender_address packed packed_ip =
      let ip = bytes_of_ip packet.ip_header in
      let info = bytes_of_packet_info packet.packet_info in
      let whole = info ++ (packet.payload ++ rest) in
      let at_ip : take 20 (drop (length link) (frame_bytes ++ rest)) ≡ ip = rw frame_split (
        let start = drop-append_add link (ip ++ whole) 0 in
        ap (take 20) (rw (add-zero (length link)) at start)
        ∙ take_front ip whole 20 (length-bytes_of_ip packet.ip_header)) in
      let at_info : take 24 (drop (length link + 20) (frame_bytes ++ rest)) ≡ info =
        rw frame_split (
          ap (take 24) (drop-headers link ip whole 0 (length-bytes_of_ip packet.ip_header))
          ∙ take_front info (packet.payload ++ rest) 24
              (length-bytes_of_packet_info packet.packet_info)) in
      let behind : drop 24 whole ≡ packet.payload ++ rest =
        drop-bytes_of_packet_info packet.packet_info (packet.payload ++ rest) in
      let left : length frame_bytes - (length link + 44) ≡ length packet.payload =
        omega (arith, length-frame_of) in
      let at_payload : take (length frame_bytes - (length link + 44))
            (drop (length link + 44) (frame_bytes ++ rest))
          ≡ packet.payload =
        rw (left, frame_split)
          (ap (take (length packet.payload))
              (drop-headers link ip whole 24 (length-bytes_of_ip packet.ip_header) ∙ behind)
            ∙ take_front packet.payload rest (length packet.payload) refl) in
      λ i. record {
        ip_header = (ap ip_of at_ip ∙ ip_of-bytes packet.ip_header packed_ip) i;
        packet_info =
            (ap packet_info_of at_info ∙ packet_info_of-bytes packet.packet_info packed) i;
        payload = at_payload i;
      }
