-- ===== src/Transfer/Delivered.antt =====
-- A message in chunks, from `swiftnet_send_packet` to the receiver's `swiftnet_process_packets`.
use mathlib.Core.Path.{subst}
use swift_net.Base.{
  ℕ, ◌+◌, ◌*◌, ◌%◌, ◌^◌, ◌<◌, ◌≤◌, ◌≡◌, ◌≢◌, ◌⊎◌, refl, sym, ap, ◌∙◌, Bool, true, Option, none,
  some, List, [], ◌∷◌, map, length, get_or, if◌then◌else◌, arith, lt→ltb,
}
use swift_net.Base.Buffer.{read, length-read}
use swift_net.Control.Peers.{Host, Peer, PacketSending}
use swift_net.Packet.{Packet, PortInfo, packet_header_size, min_of}
use swift_net.PacketBuffer.{PacketBuffer}
use swift_net.Receive.Delivery.{arrived, idle}
use swift_net.Receive.Once.{AreBelow, whole_lem, fits, several, packets_of}
use swift_net.Retransmit.{new_packet_sending}
use swift_net.Send.{chunk_data_size, chunk_amount_of}
use swift_net.Send.Chunked.{frames, chunk_amount_of_lem, size_lem}
use swift_net.Send.Loop.{send_chunks_lem}
use swift_net.Transfer.{
  Sent, packet_construction, packet_id_of, long_ip, send_packet, captured, process_nodes,
}
use swift_net.Transfer.Arrivals.{process_nodes_lem}
use swift_net.Transfer.Carried.{
  IsOnLink, header, length-packet_construction, packet_type_of-response, min_of_comm,
  nodes-AreCarried,
}

-- A message that is longer than the mtu, and no multiple of the data of a chunk, is sent in frames.
-- Whatever of these come to the receiver behind the first of them, in whatever order and however
-- often, the receiver faults at none, hands on nothing but the bytes of the message, and those at
-- most once; it has handed them on as soon as every frame has come. The sender has the buffer as it
-- was, and an entry to send lost chunks from. This is for hosts on one link that IsOnLink describes, a
-- receiver of which the sender knows the mtu, an mtu above 44 that fits into 16 bits with the link
-- header, a response only if it is waited for, room for the headers in front of the data, and a malloc
-- that gives as many bytes as asked.
pub send_packet-delivered :
    (crc32 : List ℕ → ℕ) (sender receiver : Host) (addr_type : ℕ) (eth_hdr : List ℕ)
    (port_info : PortInfo) (target_addr : ℕ) (has_request is_response : Bool)
    (request_packet_id random packet_length : ℕ) (packet : PacketBuffer) (malloc : ℕ → List ℕ)
    (ratio_above : ℕ → ℕ → Bool) (random' : ℕ) (old_bytes : List ℕ) (sender_address : ℕ)
    (packet_sending : Option PacketSending) (answers : List Packet) (js : List ℕ)
    → IsOnLink crc32 sender receiver addr_type eth_hdr port_info target_addr packet_length
    → ((n : ℕ) → length (malloc n) ≡ n)
    → sender.prepend_size + packet_header_size ≤ packet.packet_data_start
    → packet.packet_data_start + packet_length ≤ length packet.memory
    → let mtu = min_of receiver.maximum_transmission_unit sender.maximum_transmission_unit in
      let bytes = read packet.memory packet.packet_data_start packet_length in
      packet_header_size < mtu
      → mtu + sender.prepend_size < 2 ^ 16
      → mtu < packet_length
      → packet_length % chunk_data_size mtu ≢ 0
      → AreBelow (chunk_amount_of packet_length mtu) js
      → (sent : Sent) × (send_packet crc32 sender addr_type eth_hdr
            receiver.maximum_transmission_unit port_info target_addr has_request is_response
            request_packet_id random packet_length packet
          ≡ some sent)
        × (sent.memory ≡ packet.memory)
        × (sent.packet_sending ≡ some (new_packet_sending sent.packet_id))
        × (after : Peer) × (process_nodes crc32 malloc ratio_above receiver random'
              (map (λ j. captured old_bytes sender_address (get_or sent.frames j [])) (0 ∷ js))
              (record {
                conversation = idle is_response;
                packet_sending = packet_sending;
                answers = answers;
              })
            ≡ some after)
        × ((after.conversation.delivered ≡ []) ⊎ (after.conversation.delivered ≡ bytes ∷ []))
        × (((k : ℕ) → k < chunk_amount_of packet_length mtu → arrived k (0 ∷ js) ≡ true)
            → after.conversation.delivered ≡ bytes ∷ [])
unfolding send_packet
send_packet-delivered crc32 sender receiver addr_type eth_hdr port_info target_addr has_request
      is_response request_packet_id random packet_length packet malloc ratio_above random' old_bytes
      sender_address packet_sending answers js on_link gives front inside room wire long ragged
      below =
    let m = min_of receiver.maximum_transmission_unit sender.maximum_transmission_unit in
    let bytes = read packet.memory packet.packet_data_start packet_length in
    let whole : length bytes ≡ packet_length =
      length-read packet.memory packet.packet_data_start packet_length inside in
    let of_size = size_lem packet_length m room (omega arith) (omega arith) on_link.no_wrap in
    let bounds =
      chunk_amount_of_lem packet_length m room (omega arith) (omega arith) on_link.no_wrap in
    let packet_id = packet_id_of is_response request_packet_id random in
    let head =
      header crc32 sender receiver addr_type eth_hdr port_info target_addr has_request is_response
        packet_id packet_length in
    let pb = packet_construction addr_type eth_hdr (long_ip sender target_addr packet_id m) head in
    let sent_frames' =
      frames crc32 sender.prepend_size pb (chunk_data_size m) bytes
        (chunk_amount_of packet_length m) 0 in
    let loop =
      send_chunks_lem crc32 sender.prepend_size m packet_length packet.packet_data_start pb
        packet.memory room wire (omega arith) on_link.no_wrap
        (length-packet_construction addr_type eth_hdr (long_ip sender target_addr packet_id m) head
          sender.prepend_size on_link.linked)
        front inside (chunk_amount_of packet_length m) (omega arith) in
    let size_pos : 0 < chunk_data_size m = omega (arith, of_size, room) in
    let size_short : chunk_data_size m < 2 ^ 16 = omega (arith, of_size, wire) in
    let size_long : chunk_data_size m < length bytes = omega (arith, of_size, long, whole) in
    let covers : length bytes ≤ chunk_amount_of packet_length m * chunk_data_size m =
      omega (arith, whole, bounds.0) in
    let tight : chunk_amount_of packet_length m * chunk_data_size m
        < length bytes + chunk_data_size m =
      omega (arith, whole, bounds.1) in
    let no_wrap : length bytes + 2 ^ 16 ≤ 2 ^ 32 = omega (arith, whole, on_link.no_wrap) in
    let most =
      several (chunk_data_size m) (chunk_amount_of packet_length m) bytes size_pos size_short covers
        tight no_wrap size_long malloc gives is_response head in
    let few =
      fits (chunk_data_size m) (chunk_amount_of packet_length m) bytes size_pos size_short covers
        tight no_wrap size_long malloc gives is_response head in
    let (conversation, received, delivered, complete) =
      whole_lem (chunk_data_size m) (chunk_amount_of packet_length m) bytes size_pos size_short
        covers tight no_wrap size_long malloc gives is_response head
        (λ e. ragged (ap (λ n. n % chunk_data_size m) (sym whole) ∙ e)) ratio_above
        receiver.maximum_transmission_unit
        (ap chunk_data_size
          (min_of_comm sender.maximum_transmission_unit receiver.maximum_transmission_unit))
        (packet_type_of-response is_response has_request) js below in
    let carried =
      nodes-AreCarried crc32 sender receiver addr_type eth_hdr port_info target_addr has_request
        is_response packet_id packet_length on_link old_bytes sender_address bytes whole
        (omega (arith, few, no_wrap)) (0 ∷ js) (omega (arith, most), below) in
    let (after, done, same) =
      process_nodes_lem crc32 malloc ratio_above receiver random' has_request is_response
        (map (λ j. captured old_bytes sender_address (get_or sent_frames' j [])) (0 ∷ js))
        (packets_of (chunk_data_size m) (chunk_amount_of packet_length m) head bytes (0 ∷ js))
        (record {
          conversation = idle is_response;
          packet_sending = packet_sending;
          answers = answers;
        })
        conversation carried received in
    (
      record {
        packet_id = packet_id;
        request_listed = if has_request then some packet_id else none;
        packet_sending = some (new_packet_sending packet_id);
        frames = sent_frames';
        memory = packet.memory;
      },
      rw (send_packet, lt→ltb m packet_length long, loop) refl,
      refl,
      refl,
      after,
      done,
      subst (λ c. (c.delivered ≡ []) ⊎ (c.delivered ≡ bytes ∷ [])) (sym same) delivered,
      λ every. ap (λ c. c.delivered) same ∙ complete every,
    )
