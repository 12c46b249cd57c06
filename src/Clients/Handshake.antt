-- ===== src/Clients/Handshake.antt =====
-- The whole handshake of a client with its server.
use mathlib.Core.List.{append-nil}
use swift_net.Base.{
  ℕ, ◌+◌, ◌-◌, ◌%◌, ◌^◌, ◌≡◌, refl, sym, ap, ◌∙◌, Bool, some, List, [], ◌++◌, length, length-append,
  drop, arith,
}
use swift_net.Base.Buffer.{memcpy, read, little_endian, memcpy-start, take_all}
use swift_net.Control.{process_packet, on_packet, on_request_information}
use swift_net.Control.Peers.{Host, Peer}
use swift_net.Packet.{
  Packet, PacketInfo, PortInfo, sizeof_ip, packet_header_size, construct_packet_info,
  construct_ip_header, frame_of, bytes_of_packet_info, htons,
}
use swift_net.Packet.PacketType.{request_information}
use swift_net.Send.{handle_checksum, offsetof_checksum}
use swift_net.Transfer.{
  packet_construction, packet_of, captured, bytes_of_ip, link_header, checksum_of,
}
use swift_net.Transfer.Arrivals.{is_for_me_unsummed}
use swift_net.Transfer.Carried.{IsOnLink}
use swift_net.Transfer.Frames.{memcpy-checksum}
use swift_net.Transfer.Headers.{
  IsPacked, IsPackedIp, packet_of-frame_of, memcpy-headers, drop-headers, length-bytes_of_ip,
}
use swift_net.Clients.{request_server_info_buffer}

-- HANDLE_CHECKSUM of what is behind a link header and an IP header.
handle_checksum-headers :
    (crc32 : List ℕ → ℕ) (link ip rest : List ℕ)
    → length ip ≡ sizeof_ip
    → handle_checksum crc32 (link ++ (ip ++ rest)) (length link + sizeof_ip) (length rest)
      ≡ link ++ (ip ++ memcpy rest 12 (little_endian 4 (crc32 rest)))
unfolding handle_checksum read
handle_checksum-headers crc32 link ip rest of_ip =
    let at_checksum : length link + sizeof_ip + offsetof_checksum ≡ length link + (sizeof_ip + 12) =
      omega arith in
    let at_info : length link + sizeof_ip ≡ length link + (sizeof_ip + 0) = omega arith in
    rw
      (
        at_checksum,
        at_info,
        drop-headers link ip rest 0 of_ip,
        take_all (length rest) rest (omega arith),
        memcpy-headers link ip rest (little_endian 4 (crc32 rest)) 12 of_ip,
      )
      refl

module _ (crc32 : List ℕ → ℕ) (client server : Host) (addr_type : ℕ) (eth_hdr : List ℕ)
    (port_info : PortInfo) (server_addr random : ℕ) where
  abbrev asked_info : PacketInfo
  asked_info =
      construct_packet_info client.maximum_transmission_unit 0 request_information 1 0 port_info

  -- The packet in which a client asks.
  abbrev pub asked : Packet
  asked = record {
    ip_header =
        construct_ip_header client.private_ip_address server_addr packet_header_size
          (random % 2 ^ 16);
    packet_info = record asked_info { checksum = crc32 (bytes_of_packet_info asked_info) };
    payload = [];
  }

  abbrev link : List ℕ
  link = link_header addr_type eth_hdr

  -- Its frame.
  request_server_info_buffer_lem :
      length link ≡ client.prepend_size
      → request_server_info_buffer crc32 client addr_type eth_hdr server_addr port_info random
        ≡ frame_of link (bytes_of_ip asked.ip_header) asked
  unfolding request_server_info_buffer packet_construction frame_of construct_packet_info
  request_server_info_buffer_lem linked =
      let ip_bytes = bytes_of_ip asked.ip_header in
      let info_bytes = bytes_of_packet_info asked_info in
      let size : length (link ++ (ip_bytes ++ info_bytes)) - client.prepend_size - sizeof_ip
          ≡ length info_bytes =
        omega (
          arith,
          linked,
          length-append link (ip_bytes ++ info_bytes),
          length-append ip_bytes info_bytes,
          length-bytes_of_ip asked.ip_header,
        ) in
      let checksum = memcpy-checksum asked_info [] (crc32 info_bytes) in
      rw
        (
          append-nil info_bytes,
          size,
          ← linked,
          handle_checksum-headers crc32 link ip_bytes info_bytes
              (length-bytes_of_ip asked.ip_header),
        )
        (ap (λ l. link ++ (ip_bytes ++ l)) checksum)

module _ (crc32 : List ℕ → ℕ) (client server : Host) (addr_type : ℕ) (eth_hdr : List ℕ)
    (port_info : PortInfo) (server_addr random : ℕ)
    (on_link : IsOnLink crc32 client server addr_type eth_hdr port_info server_addr 0) where
  asked-IsPacked :
      IsPacked
        (asked crc32 client server addr_type eth_hdr port_info server_addr random).packet_info
  unfolding construct_packet_info
  asked-IsPacked = record {
    packet_length = omega arith;
    chunk_amount = omega arith;
    chunk_index = omega arith;
    checksum = on_link.checksums _;
    destination_port = on_link.destination_port;
    source_port = on_link.source_port;
    maximum_transmission_unit = on_link.sender_mtu;
    packet_type = omega arith;
  }

  asked-IsPackedIp :
      IsPackedIp
        (asked crc32 client server addr_type eth_hdr port_info server_addr random).ip_header
  unfolding construct_ip_header htons
  asked-IsPackedIp = record {
    ip_len = omega arith;
    ip_id = omega arith;
    ip_sum = omega arith;
    ip_src = on_link.from;
    ip_dst = on_link.to;
  }

  -- The server takes it out of the frame.
  pub packet_of-asked :
      (old_bytes : List ℕ) (sender_address : ℕ)
      → packet_of server.prepend_size (
          captured old_bytes sender_address (
            request_server_info_buffer crc32 client addr_type eth_hdr server_addr port_info random))
        ≡ asked crc32 client server addr_type eth_hdr port_info server_addr random
  packet_of-asked old_bytes sender_address =
      let packet = asked crc32 client server addr_type eth_hdr port_info server_addr random in
      let link = link_header addr_type eth_hdr in
      let framed = frame_of link (bytes_of_ip packet.ip_header) packet in
      ap (λ f. packet_of server.prepend_size (captured old_bytes sender_address f))
        (request_server_info_buffer_lem crc32 client server addr_type eth_hdr port_info server_addr
          random on_link.linked)
      ∙ ap (λ n. packet_of n (captured old_bytes sender_address framed))
          (on_link.same_link ∙ sym on_link.linked)
      ∙ ap
          (λ b. packet_of (length link) (record {
            data_read = length framed;
            packet_buffer = b;
            sender_address = sender_address;
          }))
          (memcpy-start old_bytes framed (length framed) refl)
      ∙ packet_of-frame_of link packet (drop (length framed) old_bytes) sender_address
          asked-IsPacked asked-IsPackedIp

  -- And answers it.
  pub process_packet-asked :
      (malloc : ℕ → List ℕ) (ratio_above : ℕ → ℕ → Bool) (random' data_read : ℕ) (peer : Peer)
      → let packet = asked crc32 client server addr_type eth_hdr port_info server_addr random in
        process_packet (checksum_of crc32) malloc ratio_above server random' data_read packet peer
        ≡ some (on_request_information (checksum_of crc32) server packet random' peer)
  unfolding process_packet on_packet construct_packet_info construct_ip_header htons
  process_packet-asked malloc ratio_above random' data_read peer =
      let packet = asked crc32 client server addr_type eth_hdr port_info server_addr random in
      rw (is_for_me_unsummed (checksum_of crc32) server data_read packet on_link.port refl) refl
