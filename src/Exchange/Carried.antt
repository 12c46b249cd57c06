-- ===== src/Exchange/Carried.antt =====
-- A message in one frame that the receiver hands on.
use swift_net.Base.{
  ℕ, ◌+◌, ◌-◌, ◌%◌, ◌^◌, ◌<◌, ◌≤◌, ◌≡◌, refl, ap, ◌∙◌, Bool, none, some, List, [], ◌∷◌, length, leb,
  if◌then◌else◌, arith, le→leb,
}
use swift_net.Base.Buffer.{read}
use swift_net.Control.Peers.{Host, Peer}
use swift_net.Packet.{
  PortInfo, packet_header_size, min_of, htons, construct_ip_header, construct_packet_info,
}
use swift_net.Receive.Delivery.{idle}
use swift_net.Send.{chunk_data_size}
use swift_net.Transfer.{
  Sent, packet_id_of, packet_type_of, short_ip, send_packet, captured, packet_of, process_nodes,
}
use swift_net.Transfer.Carried.{IsOnLink}
use swift_net.Transfer.Single.{IsKnownLink, buffer_of, packet_of-sent_packet}
use swift_net.Transfer.Unnoticed.{single_header, one_frame-delivered, send_packet-one_frame}

-- A message and its headers that fit into the mtu are no longer than the data of a chunk.
within_chunk :
    {A : Type 0} (n mtu : ℕ) (a b : A)
    → packet_header_size + n ≤ mtu
    → mtu < 2 ^ 16
    → (if leb n (chunk_data_size mtu) then a else b) ≡ a
unfolding chunk_data_size
within_chunk n mtu a b fits small =
    let below : n ≤ (mtu + 2 ^ 32 - packet_header_size) % 2 ^ 32 = omega (arith, fits, small) in
    rw (le→leb n _ below) refl

min_of-lt : (a b : ℕ) → b < 2 ^ 16 → min_of a b < 2 ^ 16
min_of-lt a b below = ground arith

-- A message in one frame, from its send to the receiver that hands it on.
pub carried_message :
    (crc32 : List ℕ → ℕ) (sender receiver : Host) (addr_type : ℕ) (eth_hdr : List ℕ)
    (port_info : PortInfo) (target_addr : ℕ) (has_request is_response : Bool)
    (request_packet_id random n : ℕ) (memory : List ℕ) (malloc : ℕ → List ℕ)
    (ratio_above : ℕ → ℕ → Bool) (old_bytes : List ℕ) (sender_address : ℕ)
    → IsOnLink crc32 sender receiver addr_type eth_hdr port_info target_addr n
    → IsKnownLink addr_type eth_hdr
    → ((k : ℕ) → length (malloc k) ≡ k)
    → 58 + n ≤ length memory
    → sender.prepend_size + packet_header_size + n < 2 ^ 16
    → packet_header_size + n
      ≤ min_of receiver.maximum_transmission_unit sender.maximum_transmission_unit
    → let id = packet_id_of is_response request_packet_id random in
      let at = captured old_bytes sender_address in
      (sent : Sent) × (frame : List ℕ) × (after : Peer) × (send_packet crc32 sender addr_type
          eth_hdr receiver.maximum_transmission_unit port_info target_addr has_request is_response
          request_packet_id random n
          (buffer_of memory (58 + n))
        ≡ some sent)
      × (sent.frames ≡ frame ∷ [])
      × (sent.request_listed ≡ (if has_request then some id else none))
      × (process_nodes crc32 malloc ratio_above receiver 0
            (at frame ∷ [])
            (record { conversation = idle is_response; packet_sending = none; answers = [] })
          ≡ some after)
      × (after.conversation.delivered ≡ read memory 58 n ∷ [])
      × let packet = packet_of receiver.prepend_size (at frame) in
        (packet.packet_info.packet_type ≡ packet_type_of is_response has_request)
        × (packet.packet_info.port_info ≡ port_info)
        × (packet.packet_info.maximum_transmission_unit ≡ sender.maximum_transmission_unit)
        × (packet.ip_header.ip_id ≡ htons id)
unfolding construct_packet_info short_ip construct_ip_header
carried_message crc32 sender receiver addr_type eth_hdr port_info target_addr has_request
      is_response request_packet_id random n memory malloc ratio_above old_bytes sender_address
      on_link known gives room small fits =
    let id = packet_id_of is_response request_packet_id random in
    let mtu = min_of receiver.maximum_transmission_unit sender.maximum_transmission_unit in
    let (kept, made) =
      send_packet-one_frame crc32 sender addr_type eth_hdr receiver.maximum_transmission_unit
        port_info target_addr has_request is_response request_packet_id random n memory (58 + n)
        on_link.linked room small known (omega (arith, fits)) in
    let (after, processed, delivered) =
      one_frame-delivered crc32 sender addr_type eth_hdr target_addr port_info has_request
        is_response id n memory (58 + n) on_link.linked room small receiver malloc ratio_above 0
        old_bytes sender_address none [] on_link gives in
    let header =
      single_header crc32 sender addr_type eth_hdr target_addr port_info has_request is_response id
        n memory (58 + n) on_link.linked room small in
    let taken =
      packet_of-sent_packet crc32 sender addr_type eth_hdr target_addr header id n memory (58 + n)
        on_link.linked room small receiver port_info has_request is_response old_bytes
        sender_address refl on_link in
    (
      _,
      _,
      after,
      made,
      refl,
      refl,
      processed,
      delivered
          ∙ within_chunk n mtu (read memory 58 n ∷ []) [] fits (min_of-lt _ _ on_link.sender_mtu),
      (
        ap (λ p. p.packet_info.packet_type) taken,
        ap (λ p. p.packet_info.port_info) taken,
        ap (λ p. p.packet_info.maximum_transmission_unit) taken,
        ap (λ p. p.ip_header.ip_id) taken,
      ),
    )
