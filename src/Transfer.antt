-- ===== src/Transfer.antt =====
-- A message on its way: the whole of `swiftnet_send_packet` (src/send_packet.c, pcap backend), and
-- how `swiftnet_process_packets` (src/process_packets.c) takes the headers out of a frame.
--
-- The result of a send is what it has done up to the call of `handle_lost_packets`, which Retransmit
-- has. `none` is a loop over the chunks that does not end. A buffer of headers is used only for the
-- two kinds of link that HANDLE_PACKET_CONSTRUCTION knows.
pub mod Headers
pub mod Frames
pub mod Arrivals
pub mod Carried
pub mod Delivered
pub mod Written
pub mod Single
mod Accepted
pub mod Unnoticed
mod Tests
use swift_net.Base.{
  ℕ, ◌+◌, ◌-◌, ◌%◌, ◌^◌, Bool, false, Option, none, some, List, [], ◌∷◌, ◌++◌, length, ltb, ◌==◌,
  if◌then◌else◌,
}
use swift_net.Base.Buffer.{memcpy, read, little_endian}
use swift_net.Control.{process_packet}
use swift_net.Control.Peers.{Host, PacketSending, Peer}
use swift_net.Packet.{
  Packet, PacketInfo, PortInfo, Ip, sizeof_ip, sizeof_packet_info, packet_header_size, min_of,
  htons, construct_packet_info, construct_ip_header, bytes_of_packet_info, frame_of,
}
use swift_net.Packet.PacketType.{message, request, response}
use swift_net.PacketBuffer.{PacketBuffer, sizeof_ether_header}
use swift_net.Retransmit.{new_packet_sending}
pub use swift_net.Routing.{captured}
use swift_net.Routing.{Queued, from_bytes, dlt_null, dlt_en10mb}
use swift_net.Send.{chunk_amount_of, handle_checksum, send_chunks}

-- `PROT_NUMBER`
abbrev pub prot_number : ℕ
prot_number = 253

-- The memory of a `struct ip` that `construct_ip_header` has filled.
unfoldable pub bytes_of_ip : Ip → List ℕ
unfolding little_endian
bytes_of_ip ip =
    0x45
    ∷ 0
    ∷ (little_endian 2 ip.ip_len
        ++ (little_endian 2 ip.ip_id
            ++ (0
                ∷ 0
                ∷ 64
                ∷ prot_number
                ∷ (little_endian 2 ip.ip_sum
                    ++ (little_endian 4 ip.ip_src ++ little_endian 4 ip.ip_dst)))))

-- The link header that HANDLE_PACKET_CONSTRUCTION writes: `PF_INET`, or the Ethernet header; for any
-- other link it writes nothing at all.
unfoldable pub link_header : ℕ → List ℕ → List ℕ
link_header addr_type eth_hdr =
    if addr_type == dlt_null
    then little_endian 4 2
    else if addr_type == dlt_en10mb
    then eth_hdr
    else []

-- What a send has done.
pub record Sent : Type 0 where
  pub packet_id : ℕ
  -- The id under which `requests_sent` has the request, where there is one.
  pub request_listed : Option ℕ
  -- The new entry of `packets_sending`.
  pub packet_sending : Option PacketSending
  pub frames : List (List ℕ)
  pub memory : List ℕ

-- `packet_id`, and `packet_type`.
unfoldable pub packet_id_of : Bool → ℕ → ℕ → ℕ
packet_id_of is_response request_packet_id random =
    if is_response then request_packet_id else random % 2 ^ 16

unfoldable pub packet_type_of : Bool → Bool → ℕ
packet_type_of is_response has_request =
    if is_response then response else if has_request then request else message

module _ (addr_type : ℕ) (eth_hdr : List ℕ) where
  -- HANDLE_PACKET_CONSTRUCTION of the two headers.
  unfoldable pub packet_construction : Ip → PacketInfo → List ℕ
  unfolding link_header bytes_of_ip frame_of
  packet_construction ip_header packet_info =
      frame_of (link_header addr_type eth_hdr) (bytes_of_ip ip_header)
        (record { ip_header = ip_header; packet_info = packet_info; payload = [] })

module _ (host : Host) where
  -- The IP header of a message in one frame, which is `final_packet_size` long.
  unfoldable pub short_ip : ℕ → ℕ → ℕ → Ip
  unfolding construct_ip_header
  short_ip target_addr packet_id packet_length =
      let final_packet_size = (host.prepend_size + packet_header_size + packet_length) % 2 ^ 16 in
      construct_ip_header host.private_ip_address target_addr
        ((final_packet_size + 2 ^ 16 - host.prepend_size) % 2 ^ 16) packet_id

  -- The IP header of the chunks; the last one gets its own length.
  unfoldable pub long_ip : ℕ → ℕ → ℕ → Ip
  unfolding construct_ip_header
  long_ip target_addr packet_id mtu =
      record (construct_ip_header host.private_ip_address target_addr mtu packet_id) {
        ip_len = htons ((mtu + host.prepend_size) % 2 ^ 16);
      }

module _ (crc32 : List ℕ → ℕ) (host : Host) (addr_type : ℕ) (eth_hdr : List ℕ) where
  -- The branch for a message in one frame: the headers are written in front of the data, and stay.
  unfoldable pub short_memory : Ip → PacketInfo → ℕ → PacketBuffer → List ℕ
  short_memory ip_header packet_info packet_length packet =
      let linked =
        memcpy packet.memory (if addr_type == dlt_null then sizeof_ether_header - 4 else 0)
          (link_header addr_type eth_hdr) in
      let with_ip = memcpy linked sizeof_ether_header (bytes_of_ip ip_header) in
      let with_info =
        memcpy with_ip (sizeof_ether_header + sizeof_ip) (bytes_of_packet_info packet_info) in
      let moved =
        memcpy with_info (packet_header_size + sizeof_ether_header)
          (read with_info packet.packet_data_start packet_length) in
      handle_checksum crc32 moved (packet.packet_data_start - sizeof_packet_info)
        (packet_length + sizeof_packet_info)

  unfoldable pub send_short : ℕ → PacketInfo → ℕ → ℕ → PacketBuffer → List (List ℕ) × List ℕ
  send_short target_addr packet_info packet_id packet_length packet =
      let final_packet_size = (host.prepend_size + packet_header_size + packet_length) % 2 ^ 16 in
      let memory =
        short_memory (short_ip host target_addr packet_id packet_length) packet_info packet_length
          packet in
      if addr_type == dlt_null
      then (read memory (sizeof_ether_header - 4) final_packet_size ∷ [], memory)
      else if addr_type == dlt_en10mb
      then (read memory 0 final_packet_size ∷ [], memory)
      else ([], packet.memory)

  -- `swiftnet_send_packet`; `random` is what `rand` gives.
  unfoldable pub send_packet :
      ℕ → PortInfo → ℕ → Bool → Bool → ℕ → ℕ → ℕ → PacketBuffer → Option Sent
  unfolding packet_id_of packet_type_of packet_construction long_ip construct_packet_info
  send_packet target_maximum_transmission_unit port_info target_addr has_request is_response
        request_packet_id random packet_length packet =
      let mtu = min_of target_maximum_transmission_unit host.maximum_transmission_unit in
      let packet_id = packet_id_of is_response request_packet_id random in
      let chunk_amount = chunk_amount_of packet_length mtu in
      let info : ℕ → PacketInfo = λ amount.
        construct_packet_info host.maximum_transmission_unit packet_length
          (packet_type_of is_response has_request) amount 0 port_info in
      let listed : Option ℕ = if has_request then some packet_id else none in
      if ltb mtu packet_length
      then elim (send_chunks crc32 host.prepend_size mtu packet_length packet.packet_data_start
          (packet_construction addr_type eth_hdr (long_ip host target_addr packet_id mtu)
            (info chunk_amount))
          chunk_amount 0 packet.memory) [
            | none ↦ none
            | some (frames, memory) ↦ some (record {
              packet_id = packet_id;
              request_listed = listed;
              packet_sending = some (new_packet_sending packet_id);
              frames = frames;
              memory = memory;
            })
          ]
      else let sent = send_short target_addr (info 1) packet_id packet_length packet in
        some (record {
          packet_id = packet_id;
          request_listed = listed;
          packet_sending = none;
          frames = sent.0;
          memory = sent.1;
        })

  -- `swiftnet_client_send_packet`
  unfoldable pub client_send_packet : ℕ → PortInfo → ℕ → ℕ → ℕ → PacketBuffer → Option Sent
  client_send_packet maximum_transmission_unit port_info server_addr random bytes_to_send packet =
      send_packet maximum_transmission_unit port_info server_addr false false 0 random bytes_to_send
        packet

-- `swiftnet_server_send_packet`, to the client that `SwiftNetClientAddrData` describes.
unfoldable pub server_send_packet :
    (List ℕ → ℕ) → Host → ℕ → List ℕ → ℕ → ℕ → ℕ → List ℕ → ℕ → ℕ → PacketBuffer → Option Sent
server_send_packet crc32 server addr_type eth_header maximum_transmission_unit port sender_address
      mac_address random bytes_to_send packet =
    send_packet crc32 server addr_type (memcpy eth_header 0 mac_address) maximum_transmission_unit
      (record { destination_port = port; source_port = server.source_port }) sender_address false
      false 0 random bytes_to_send packet

-- `memcpy (&ip_header, …)`
unfoldable pub ip_of : List ℕ → Ip
unfolding from_bytes
ip_of bytes = record {
  ip_len = from_bytes (read bytes 2 2);
  ip_id = from_bytes (read bytes 4 2);
  ip_sum = from_bytes (read bytes 10 2);
  ip_src = from_bytes (read bytes 12 4);
  ip_dst = from_bytes (read bytes 16 4);
}

-- `memcpy (&packet_info, …)`
unfoldable pub packet_info_of : List ℕ → PacketInfo
unfolding from_bytes
packet_info_of bytes = record {
  packet_length = from_bytes (read bytes 0 4);
  chunk_amount = from_bytes (read bytes 4 4);
  chunk_index = from_bytes (read bytes 8 4);
  checksum = from_bytes (read bytes 12 4);
  port_info = record {
    destination_port = from_bytes (read bytes 16 2);
    source_port = from_bytes (read bytes 18 2);
  };
  maximum_transmission_unit = from_bytes (read bytes 20 2);
  packet_type = from_bytes (read bytes 22 1);
}

-- What `swiftnet_process_packets` takes out of a node of its queue.
unfoldable pub packet_of : ℕ → Queued → Packet
unfolding ip_of packet_info_of
packet_of prepend_size node = record {
  ip_header = ip_of (read node.packet_buffer prepend_size sizeof_ip);
  packet_info =
      packet_info_of (read node.packet_buffer (prepend_size + sizeof_ip) sizeof_packet_info);
  payload =
      read node.packet_buffer (prepend_size + packet_header_size)
        (node.data_read - (prepend_size + packet_header_size));
}

-- `packet_corrupted` and `HANDLE_CHECKSUM` take `crc32` of the packet info and what is behind it.
abbrev pub checksum_of : (List ℕ → ℕ) → PacketInfo → List ℕ → ℕ
checksum_of crc32 packet_info payload = crc32 (bytes_of_packet_info packet_info ++ payload)

-- The loop of `swiftnet_process_packets` over nodes that are all of one source port and packet id, on
-- what the tables have under these; `process_frames` of Processing is the loop over any nodes.
unfoldable pub process_nodes :
    (List ℕ → ℕ) → (ℕ → List ℕ) → (ℕ → ℕ → Bool) → Host → ℕ → List Queued → Peer → Option Peer
process_nodes crc32 malloc ratio_above host random [] peer = some peer
process_nodes crc32 malloc ratio_above host random (node ∷ nodes) peer =
    elim (process_packet (checksum_of crc32) malloc ratio_above host random node.data_read
      (packet_of host.prepend_size node) peer) [
        | none ↦ none
        | some after ↦ process_nodes crc32 malloc ratio_above host random nodes after
      ]
