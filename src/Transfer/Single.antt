-- ===== src/Transfer/Single.antt =====
-- A message that `swiftnet_send_packet` sends in one frame.
use swift_net.Base.{
  ℕ, ◌+◌, ◌%◌, ◌^◌, ◌<◌, ◌≤◌, ◌≡◌, ◌⊎◌, refl, sym, ap, ◌∙◌, inl, inr, Bool, true, false, List, [],
  ◌∷◌, length, drop, ◌==◌, arith, ==_iff, ==_false,
}
use swift_net.Base.Buffer.{read, length-little_endian, memcpy-start, length-read}
use swift_net.Control.Peers.{Host}
use swift_net.Packet.{
  Packet, PacketInfo, PortInfo, packet_header_size, htons, construct_packet_info,
  construct_ip_header, frame_of,
}
use swift_net.PacketBuffer.{PacketBuffer, sizeof_ether_header}
use swift_net.Receive.Delivery.{info}
use swift_net.Routing.{dlt_null, dlt_en10mb}
use swift_net.Transfer.{
  bytes_of_ip, link_header, packet_type_of, short_ip, short_memory, send_short, captured, packet_of,
}
use swift_net.Transfer.Arrivals.{IsCarried}
use swift_net.Transfer.Carried.{IsOnLink, htons-lt, type-lt}
use swift_net.Transfer.Headers.{IsPacked, IsPackedIp, packet_of-frame_of}
use swift_net.Transfer.Written.{single_packet, written_frame}

-- The two kinds of link that the code has frames for.
abbrev pub IsKnownLink : ℕ → List ℕ → Type 0
IsKnownLink addr_type eth_hdr =
    (addr_type ≡ dlt_null) ⊎ ((addr_type ≡ dlt_en10mb) × (length eth_hdr ≡ 14))

-- A buffer as `create_packet_buffer` lays it out.
abbrev pub buffer_of : List ℕ → ℕ → PacketBuffer
buffer_of memory packet_append_pointer = record {
  memory = memory;
  packet_data_start = packet_header_size + sizeof_ether_header;
  packet_append_pointer = packet_append_pointer;
}

length-link_null :
    (addr_type : ℕ) (eth_hdr : List ℕ)
    → addr_type ≡ dlt_null
    → length (link_header addr_type eth_hdr) ≡ 4
unfolding link_header
length-link_null addr_type eth_hdr null =
    let is_null : (addr_type == dlt_null) ≡ true = (==_iff _ _).1 null in
    rw is_null (length-little_endian 4 2)

length-link_ethernet :
    (addr_type : ℕ) (eth_hdr : List ℕ)
    → addr_type ≡ dlt_en10mb
    → length eth_hdr ≡ 14
    → length (link_header addr_type eth_hdr) ≡ 14
unfolding link_header
length-link_ethernet addr_type eth_hdr ethernet fourteen =
    let not_null : (addr_type == dlt_null) ≡ false = ==_false _ _ (omega (arith, ethernet)) in
    let is_ethernet : (addr_type == dlt_en10mb) ≡ true = (==_iff _ _).1 ethernet in
    rw (not_null, is_ethernet) fourteen

module _ (crc32 : List ℕ → ℕ) (host : Host) (addr_type : ℕ) (eth_hdr : List ℕ) (target_addr : ℕ)
    (header : PacketInfo) (packet_id n : ℕ) (memory : List ℕ) (pointer : ℕ)
    (linked : length (link_header addr_type eth_hdr) ≡ host.prepend_size)
    (room : 58 + n ≤ length memory)
    (small : host.prepend_size + packet_header_size + n < 2 ^ 16) where
  abbrev pub sent_packet : Packet
  sent_packet =
      single_packet crc32 (short_ip host target_addr packet_id n) header (read memory 58 n)

  pub send_short_lem :
      IsKnownLink addr_type eth_hdr
      → (send_short crc32 host addr_type eth_hdr target_addr header packet_id n
          (buffer_of memory pointer)).0
        ≡ frame_of (link_header addr_type eth_hdr) (bytes_of_ip sent_packet.ip_header) sent_packet
          ∷ []
  unfolding send_short short_memory
  send_short_lem (inl null) =
      let is_null : (addr_type == dlt_null) ≡ true = (==_iff _ _).1 null in
      let four : length (link_header addr_type eth_hdr) ≡ 4 =
        length-link_null addr_type eth_hdr null in
      let exact : (host.prepend_size + packet_header_size + n) % 2 ^ 16 ≡ 4 + 44 + n =
        omega (arith, four, linked, small) in
      rw (is_null, exact)
        (ap (λ f. f ∷ [])
          (written_frame crc32 (short_ip host target_addr packet_id n) header memory
            (link_header addr_type eth_hdr) 10 4 n refl four room))
  send_short_lem (inr (ethernet, fourteen)) =
      let not_null : (addr_type == dlt_null) ≡ false = ==_false _ _ (omega (arith, ethernet)) in
      let is_ethernet : (addr_type == dlt_en10mb) ≡ true = (==_iff _ _).1 ethernet in
      let whole : length (link_header addr_type eth_hdr) ≡ 14 =
        length-link_ethernet addr_type eth_hdr ethernet fourteen in
      let exact : (host.prepend_size + packet_header_size + n) % 2 ^ 16 ≡ 14 + 44 + n =
        omega (arith, whole, linked, small) in
      rw (not_null, is_ethernet, exact)
        (ap (λ f. f ∷ [])
          (written_frame crc32 (short_ip host target_addr packet_id n) header memory
            (link_header addr_type eth_hdr) 0 14 n refl whole room))

  -- The receiver takes it out of the frame.
  pub packet_of-sent_packet :
      (receiver : Host) (port_info : PortInfo) (has_request is_response : Bool) (old_bytes : List ℕ)
      (sender_address : ℕ)
      → header
        ≡ construct_packet_info host.maximum_transmission_unit n
            (packet_type_of is_response has_request)
            1
            0
            port_info
      → IsOnLink crc32 host receiver addr_type eth_hdr port_info target_addr n
      → packet_of receiver.prepend_size (
          captured old_bytes sender_address (
            frame_of
              (link_header addr_type eth_hdr)
              (bytes_of_ip sent_packet.ip_header)
              sent_packet))
        ≡ sent_packet
  unfolding short_ip construct_ip_header construct_packet_info htons
  packet_of-sent_packet receiver port_info has_request is_response old_bytes sender_address built
        on_link =
      let packet = sent_packet in
      let link = link_header addr_type eth_hdr in
      let framed = frame_of link (bytes_of_ip packet.ip_header) packet in
      let packed : IsPacked packet.packet_info = record {
        packet_length = omega (arith, ap (λ h. h.packet_length) built, on_link.no_wrap);
        chunk_amount = omega (arith, ap (λ h. h.chunk_amount) built);
        chunk_index = omega (arith, ap (λ h. h.chunk_index) built);
        checksum = on_link.checksums _;
        destination_port =
            omega (arith, ap (λ h. h.port_info.destination_port) built, on_link.destination_port);
        source_port = omega (arith, ap (λ h. h.port_info.source_port) built, on_link.source_port);
        maximum_transmission_unit =
            omega (arith, ap (λ h. h.maximum_transmission_unit) built, on_link.sender_mtu);
        packet_type = omega (arith, ap (λ h. h.packet_type) built, type-lt is_response has_request);
      } in
      let packed_ip : IsPackedIp packet.ip_header = record {
        ip_len = htons-lt _;
        ip_id = htons-lt _;
        ip_sum = htons-lt 0;
        ip_src = on_link.from;
        ip_dst = on_link.to;
      } in
      ap (λ n. packet_of n (captured old_bytes sender_address framed))
        (on_link.same_link ∙ sym on_link.linked)
      ∙ ap
          (λ b. packet_of (length link) (record {
            data_read = length framed;
            packet_buffer = b;
            sender_address = sender_address;
          }))
          (memcpy-start old_bytes framed (length framed) refl)
      ∙ packet_of-frame_of link packet (drop (length framed) old_bytes) sender_address packed
          packed_ip

  -- The receiver's node has the packet.
  pub sent_packet-IsCarried :
      (receiver : Host) (port_info : PortInfo) (has_request is_response : Bool) (old_bytes : List ℕ)
      (sender_address : ℕ)
      → header
        ≡ construct_packet_info host.maximum_transmission_unit n
            (packet_type_of is_response has_request)
            1
            0
            port_info
      → IsOnLink crc32 host receiver addr_type eth_hdr port_info target_addr n
      → IsCarried receiver has_request is_response
          (captured old_bytes sender_address (
            frame_of
              (link_header addr_type eth_hdr)
              (bytes_of_ip sent_packet.ip_header)
              sent_packet))
          (info (length (read memory 58 n)) 1 header 0)
          (read memory 58 n)
  unfolding short_ip construct_ip_header construct_packet_info htons
  sent_packet-IsCarried receiver port_info has_request is_response old_bytes sender_address built
        on_link =
      let packet = sent_packet in
      let sized : header.packet_length ≡ length (read memory 58 n) =
        ap (λ h. h.packet_length) built ∙ sym (length-read memory 58 n room) in
      let one : header.chunk_amount ≡ 1 = ap (λ h. h.chunk_amount) built in
      let first : header.chunk_index ≡ 0 = ap (λ h. h.chunk_index) built in
      record {
        packet = packet;
        taken =
            packet_of-sent_packet receiver port_info has_request is_response old_bytes
              sender_address built on_link;
        for_host = record {
          port = ap (λ h. h.port_info.destination_port) built ∙ on_link.port;
          unsummed = refl;
          with_data = ap (λ h. h.packet_type) built;
        };
        header = λ i. record packet.packet_info {
          packet_length = sized i;
          chunk_amount = one i;
          chunk_index = first i;
        };
        behind = refl;
      }
