-- ===== src/Routing/Handshake.antt =====
-- A client learns the mtu of its server: the answer to REQUEST_INFORMATION, as a frame, at
-- `handle_client_init`.
use native.Mathlib.Nat.{pow-suc}
use swift_net.Base.{
  ℕ, zero, suc, ◌+◌, ◌/◌, ◌%◌, ◌^◌, ◌<◌, ◌≡◌, refl, ap, ◌∙◌, true, false, List, [], ◌∷◌, ◌++◌, take,
  length, length-append, arith, ◌==◌, inl, inr, Bool-cases, ==_refl, ==_iff,
}
use swift_net.Base.Buffer.{read, little_endian, drop-append_add}
use swift_net.Control.{answer, server_information, on_request_information}
use swift_net.Control.Peers.{Host, Peer}
use swift_net.Packet.{
  Packet, PacketInfo, sizeof_ip, packet_header_size, sizeof_server_information,
  bytes_of_packet_info, frame_of, construct_packet_info,
}
use swift_net.Packet.PacketType.{request_information}
use swift_net.Routing.{
  Client, from_bytes, packet_prepend_size, handle_client_init, finalize_initialization,
}

-- A number of `width` bytes is read back.
pub from_bytes-little_endian :
    (width n : ℕ) → n < 256 ^ width → from_bytes (little_endian width n) ≡ n
unfolding from_bytes little_endian
from_bytes-little_endian zero n lt = omega arith
from_bytes-little_endian (suc width) n lt =
    let rest = from_bytes-little_endian width (n / 256) (omega (arith, pow-suc 256 width)) in
    omega (arith, rest)

-- Behind a link header and an IP header.
read-headers :
    (link ip rest : List ℕ) (k n : ℕ)
    → read (link ++ (ip ++ rest)) (length link + (length ip + k)) n ≡ read rest k n
unfolding read
read-headers link ip rest k n =
    ap (take n) (drop-append_add link (ip ++ rest) (length ip + k) ∙ drop-append_add ip rest k)

module _ (addr_type : ℕ) (frame : List ℕ) (client : Client) (mtu : ℕ) where
  abbrev info : ℕ
  info = packet_prepend_size addr_type + sizeof_ip

  accepted :
      client.closing ≡ false
      → length frame
        ≡ packet_header_size + sizeof_server_information + packet_prepend_size addr_type
      → from_bytes (read frame (info + 16) 2) ≡ client.port_info.source_port
      → from_bytes (read frame (info + 18) 2) ≡ client.port_info.destination_port
      → from_bytes (read frame (info + 22) 1) ≡ request_information
      → from_bytes (read frame (packet_prepend_size addr_type + packet_header_size) 2) ≡ mtu
      → ((handle_client_init addr_type frame client).initialized ≡ true)
        × ((handle_client_init addr_type frame client).maximum_transmission_unit ≡ mtu)
  unfolding handle_client_init finalize_initialization
  accepted open_still size mine theirs type value =
      let sized = (==_iff _ _).1 size in
      let same1 = ==_refl client.port_info.source_port in
      let same2 = ==_refl client.port_info.destination_port in
      elim (Bool-cases (addr_type == 0)) [
        | inl null ↦
            simp
              (
                handle_client_init, open_still, sized, null, finalize_initialization, mine, theirs,
                type, value, same1, same2,
              )
              (refl, refl)
        | inr ethernet ↦
            simp
              (
                handle_client_init, open_still, sized, ethernet, finalize_initialization, mine,
                theirs, type, value, same1, same2,
              )
              (refl, refl)
      ]

-- A client that is not closing, and has asked its server for information, is initialized by the frame
-- of the server's answer, and has learned the server's mtu. For ports and an mtu below 2^16, and the
-- lengths of the link header and of the IP header that the client expects.
pub handle_client_init-answer :
    (checksum_of : PacketInfo → List ℕ → ℕ) (host : Host) (asked : Packet) (random : ℕ)
    (peer : Peer) (addr_type : ℕ) (link_header ip_bytes : List ℕ) (client : Client)
    → client.closing ≡ false
    → asked.packet_info.port_info.source_port ≡ client.port_info.source_port
    → host.source_port ≡ client.port_info.destination_port
    → client.port_info.source_port < 2 ^ 16
    → client.port_info.destination_port < 2 ^ 16
    → host.maximum_transmission_unit < 2 ^ 16
    → length link_header ≡ packet_prepend_size addr_type
    → length ip_bytes ≡ sizeof_ip
    → (sent : Packet) × ((on_request_information checksum_of host asked random peer).answers
        ≡ peer.answers ++ (sent ∷ []))
      × ((handle_client_init addr_type (frame_of link_header ip_bytes sent) client).initialized
          ≡ true)
      × ((handle_client_init addr_type
            (frame_of link_header ip_bytes sent)
            client).maximum_transmission_unit
          ≡ host.maximum_transmission_unit)
unfolding on_request_information answer frame_of bytes_of_packet_info little_endian read
    construct_packet_info
handle_client_init-answer checksum_of host asked random peer addr_type link_header ip_bytes client
      open_still mine theirs port1 port2 mtu link_size ip_size =
    let sent =
      answer checksum_of host asked packet_header_size (random % 2 ^ 16) sizeof_server_information
        request_information
        (record {
          destination_port = asked.packet_info.port_info.source_port;
          source_port = host.source_port;
        })
        (server_information host) in
    let rest = bytes_of_packet_info sent.packet_info ++ sent.payload in
    let frame = frame_of link_header ip_bytes sent in
    let prepend = packet_prepend_size addr_type in
    let of_rest : length rest ≡ 28 = refl in
    let field_at : (k n : ℕ) → read frame (prepend + sizeof_ip + k) n ≡ read rest k n = λ k n.
      ap (λ at. read frame at n) (omega (arith, link_size, ip_size))
      ∙ read-headers link_header ip_bytes rest k n in
    let done =
      accepted addr_type frame client host.maximum_transmission_unit open_still
        (omega (
          arith,
          of_rest,
          link_size,
          ip_size,
          length-append link_header (ip_bytes ++ rest),
          length-append ip_bytes rest,
        ))
        (ap from_bytes (field_at 16 2)
          ∙ from_bytes-little_endian 2 asked.packet_info.port_info.source_port (rw mine port1)
          ∙ mine)
        (ap from_bytes (field_at 18 2)
          ∙ from_bytes-little_endian 2 host.source_port (rw theirs port2)
          ∙ theirs)
        (ap from_bytes (field_at 22 1)
          ∙ from_bytes-little_endian 1 request_information (omega arith))
        (ap (λ at. from_bytes (read frame at 2)) (omega arith)
          ∙ ap from_bytes (field_at 24 2)
          ∙ from_bytes-little_endian 2 host.maximum_transmission_unit mtu) in
    (sent, refl, done.0, done.1)
