-- ===== src/Transfer/Unnoticed.antt =====
-- What becomes of a message in one frame.
use swift_net.Base.{
  ℕ, ◌+◌, ◌^◌, ◌<◌, ◌≤◌, ◌≡◌, refl, ap, ◌∙◌, Bool, Option, none, some, List, [], ◌∷◌, length, leb,
  if◌then◌else◌, le→ltb, arith,
}
use swift_net.Base.Buffer.{read, length-read}
use swift_net.Control.Peers.{Host, Peer, PacketSending}
use swift_net.Packet.{
  Packet, PacketInfo, PortInfo, packet_header_size, min_of, construct_packet_info, frame_of,
}
use swift_net.Receive.Alone.{receive_data-alone}
use swift_net.Receive.Delivery.{idle, info}
use swift_net.Receive.Once.{receive_all}
use swift_net.Routing.{Queued, Inbox, insert_node, handle_packets}
use swift_net.Send.{chunk_data_size}
use swift_net.Transfer.{
  Sent, bytes_of_ip, link_header, packet_type_of, packet_id_of, send_short, send_packet, captured,
  process_nodes,
}
use swift_net.Transfer.Arrivals.{process_nodes_lem}
use swift_net.Transfer.Accepted.{HasIpType, handle_packets-over, handle_packets-captured}
use swift_net.Transfer.Headers.{length-frame_of}
use swift_net.Transfer.Carried.{IsOnLink, packet_type_of-response, min_of_comm}
use swift_net.Transfer.Single.{
  IsKnownLink, buffer_of, sent_packet, send_short_lem, sent_packet-IsCarried,
}

module _ (crc32 : List ℕ → ℕ) (sender : Host) (addr_type : ℕ) (eth_hdr : List ℕ) (target_addr : ℕ)
    (port_info : PortInfo) (has_request is_response : Bool) (packet_id packet_length : ℕ)
    (memory : List ℕ) (pointer : ℕ)
    (linked : length (link_header addr_type eth_hdr) ≡ sender.prepend_size)
    (room : 58 + packet_length ≤ length memory)
    (small : sender.prepend_size + packet_header_size + packet_length < 2 ^ 16) where
  abbrev pub single_header : PacketInfo
  single_header =
      construct_packet_info sender.maximum_transmission_unit packet_length
        (packet_type_of is_response has_request) 1 0 port_info

  -- The packet of a message in one frame, and its frame.
  abbrev pub one_packet : Packet
  one_packet =
      sent_packet crc32 sender addr_type eth_hdr target_addr single_header packet_id packet_length
        memory pointer linked room small

  abbrev pub one_frame : List ℕ
  one_frame = frame_of (link_header addr_type eth_hdr) (bytes_of_ip one_packet.ip_header) one_packet

  length-one_frame : length one_frame ≡ sender.prepend_size + packet_header_size + packet_length
  length-one_frame = omega (
    arith,
    linked,
    length-frame_of (link_header addr_type eth_hdr) one_packet [],
    length-read memory 58 packet_length room,
  )

  -- The frame at the receiver.
  pub one_frame-delivered :
      (receiver : Host) (malloc : ℕ → List ℕ) (ratio_above : ℕ → ℕ → Bool) (random' : ℕ)
      (old_bytes : List ℕ) (sender_address : ℕ) (packet_sending : Option PacketSending)
      (answers : List Packet)
      → IsOnLink crc32 sender receiver addr_type eth_hdr port_info target_addr packet_length
      → ((n : ℕ) → length (malloc n) ≡ n)
      → let mtu = min_of receiver.maximum_transmission_unit sender.maximum_transmission_unit in
        (after : Peer) × (process_nodes crc32 malloc ratio_above receiver random'
            (captured old_bytes sender_address one_frame ∷ [])
            (record {
              conversation = idle is_response;
              packet_sending = packet_sending;
              answers = answers;
            })
          ≡ some after)
        × (after.conversation.delivered ≡ (
            if leb packet_length (chunk_data_size mtu)
            then read memory 58 packet_length ∷ []
            else []))
  unfolding receive_all construct_packet_info
  one_frame-delivered receiver malloc ratio_above random' old_bytes sender_address packet_sending
        answers on_link gives =
      let payload = read memory 58 packet_length in
      let (conversation, received, delivered) =
        receive_data-alone malloc ratio_above receiver.maximum_transmission_unit is_response
          single_header payload gives (packet_type_of-response is_response has_request) in
      let carried =
        sent_packet-IsCarried crc32 sender addr_type eth_hdr target_addr single_header packet_id
          packet_length memory pointer linked room small receiver port_info has_request is_response
          old_bytes sender_address refl on_link in
      let (after, done, same) =
        process_nodes_lem crc32 malloc ratio_above receiver random' has_request is_response
          (captured old_bytes sender_address one_frame ∷ [])
          ((info (length payload) 1 single_header 0, payload) ∷ [])
          (record {
            conversation = idle is_response;
            packet_sending = packet_sending;
            answers = answers;
          })
          conversation (carried, tt) (rw (receive_all, received) refl) in
      (
        after,
        done,
        ap (λ c. c.delivered) same
            ∙ delivered
            ∙ ap
                (λ q.
                  if leb q (
                    chunk_data_size
                      (min_of sender.maximum_transmission_unit receiver.maximum_transmission_unit))
                  then payload ∷ []
                  else [])
                (length-read memory 58 packet_length room)
            ∙ ap (λ m. if leb packet_length (chunk_data_size m) then payload ∷ [] else [])
                (min_of_comm sender.maximum_transmission_unit receiver.maximum_transmission_unit),
      )

-- What a send does with a message no longer than the mtu.
pub send_packet-one_frame :
    (crc32 : List ℕ → ℕ) (sender : Host) (addr_type : ℕ) (eth_hdr : List ℕ)
    (target_maximum_transmission_unit : ℕ) (port_info : PortInfo) (target_addr : ℕ)
    (has_request is_response : Bool) (request_packet_id random packet_length : ℕ) (memory : List ℕ)
    (pointer : ℕ) (linked : length (link_header addr_type eth_hdr) ≡ sender.prepend_size)
    (room : 58 + packet_length ≤ length memory)
    (small : sender.prepend_size + packet_header_size + packet_length < 2 ^ 16)
    → IsKnownLink addr_type eth_hdr
    → packet_length ≤ min_of target_maximum_transmission_unit sender.maximum_transmission_unit
    → let packet_id = packet_id_of is_response request_packet_id random in
      (memory' : List ℕ) × (send_packet crc32 sender addr_type eth_hdr
          target_maximum_transmission_unit port_info target_addr has_request is_response
          request_packet_id random packet_length
          (buffer_of memory pointer)
        ≡ some (record {
          packet_id = packet_id;
          request_listed = if has_request then some packet_id else none;
          packet_sending = none;
          frames =
              one_frame crc32 sender addr_type eth_hdr target_addr port_info has_request is_response
                packet_id packet_length memory pointer linked room small
              ∷ [];
          memory = memory';
        }))
unfolding send_packet construct_packet_info
send_packet-one_frame crc32 sender addr_type eth_hdr target_mtu port_info target_addr has_request
      is_response request_packet_id random packet_length memory pointer linked room small known
      short =
    let packet_id = packet_id_of is_response request_packet_id random in
    let header =
      single_header crc32 sender addr_type eth_hdr target_addr port_info has_request is_response
        packet_id packet_length memory pointer linked room small in
    let result =
      send_short crc32 sender addr_type eth_hdr target_addr header packet_id packet_length
        (buffer_of memory pointer) in
    let sent : List (List ℕ) → Sent = λ (frames : List (List ℕ)). record {
      packet_id = packet_id;
      request_listed = if has_request then some packet_id else none;
      packet_sending = none;
      frames = frames;
      memory = result.1;
    } in
    (
      result.1,
      rw
          (
            send_packet,
            le→ltb (min_of target_mtu sender.maximum_transmission_unit) packet_length short,
          )
          (ap (λ fs. some (sent fs))
            (send_short_lem crc32 sender addr_type eth_hdr target_addr header packet_id
              packet_length memory pointer linked room small known)),
    )

-- A message no longer than the mtu is sent in one frame, and nothing is kept to send it again. A frame
-- that is longer than the block of the receiver's capture thread is copied over the end of that block; any
-- other is queued, and its processing faults nowhere, and hands the message on if it is no longer than the
-- data of a chunk; a longer one it takes for the first chunk of several, and does not hand on. This is for
-- hosts on one link that IsOnLink describes, a link of either known kind, an Ethernet header of the type of
-- IP packets, a receiver of which the sender knows the mtu, a frame below 2^16 bytes, a buffer as
-- create_packet_buffer lays it out, a response only if it is waited for, and a malloc that gives as many
-- bytes as asked.
pub send_packet-single :
    (crc32 : List ℕ → ℕ) (sender receiver : Host) (addr_type : ℕ) (eth_hdr : List ℕ)
    (port_info : PortInfo) (target_addr : ℕ) (has_request is_response : Bool)
    (request_packet_id random packet_length : ℕ) (memory : List ℕ) (pointer : ℕ)
    (malloc : ℕ → List ℕ) (ratio_above : ℕ → ℕ → Bool) (random' : ℕ) (block : List ℕ)
    (inbox : Inbox) (packet_sending : Option PacketSending) (answers : List Packet)
    → IsOnLink crc32 sender receiver addr_type eth_hdr port_info target_addr packet_length
    → IsKnownLink addr_type eth_hdr
    → HasIpType addr_type eth_hdr
    → ((n : ℕ) → length (malloc n) ≡ n)
    → 58 + packet_length ≤ length memory
    → sender.prepend_size + packet_header_size + packet_length < 2 ^ 16
    → let mtu = min_of receiver.maximum_transmission_unit sender.maximum_transmission_unit in
      let frame_size = sender.prepend_size + packet_header_size + packet_length in
      packet_length ≤ mtu
      → (sent : Sent) × (frame : List ℕ) × (send_packet crc32 sender addr_type eth_hdr
            receiver.maximum_transmission_unit port_info target_addr has_request is_response
            request_packet_id random packet_length
            (buffer_of memory pointer)
          ≡ some sent)
        × (sent.packet_sending ≡ none)
        × (sent.frames ≡ frame ∷ [])
        × (length frame ≡ frame_size)
        × (length block < frame_size → handle_packets addr_type frame block inbox ≡ none)
        × (frame_size ≤ length block
            → (node : Queued) × (after : Peer) × (handle_packets addr_type frame block inbox
                ≡ some (insert_node node inbox))
              × (process_nodes crc32 malloc ratio_above receiver random' (node ∷ []) (record {
                conversation = idle is_response;
                packet_sending = packet_sending;
                answers = answers;
              })
                  ≡ some after)
              × (after.conversation.delivered ≡ (
                  if leb packet_length (chunk_data_size mtu)
                  then read memory 58 packet_length ∷ []
                  else [])))
send_packet-single crc32 sender receiver addr_type eth_hdr port_info target_addr has_request
      is_response request_packet_id random packet_length memory pointer malloc ratio_above random'
      block inbox packet_sending answers on_link known has_type gives room small short =
    let packet_id = packet_id_of is_response request_packet_id random in
    let (memory', done) =
      send_packet-one_frame crc32 sender addr_type eth_hdr receiver.maximum_transmission_unit
        port_info target_addr has_request is_response request_packet_id random packet_length memory
        pointer on_link.linked room small known short in
    let packet =
      one_packet crc32 sender addr_type eth_hdr target_addr port_info has_request is_response
        packet_id packet_length memory pointer on_link.linked room small in
    let sized =
      length-one_frame crc32 sender addr_type eth_hdr target_addr port_info has_request is_response
        packet_id packet_length memory pointer on_link.linked room small in
    (
      _,
      _,
      done,
      refl,
      refl,
      sized,
      λ over. handle_packets-over addr_type eth_hdr packet block inbox (omega (arith, sized, over)),
      λ fits.
          let (sender_address, queued) =
            handle_packets-captured addr_type eth_hdr packet block inbox known has_type
              (omega (arith, sized, fits)) in
          let (after, processed, delivered) =
            one_frame-delivered crc32 sender addr_type eth_hdr target_addr port_info has_request
              is_response packet_id packet_length memory pointer on_link.linked room small receiver
              malloc ratio_above random' block sender_address packet_sending answers on_link
              gives in
          (_, after, queued, processed, delivered),
    )
