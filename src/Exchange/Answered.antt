-- ===== src/Exchange/Answered.antt =====
-- A request of one frame, and its response.
use swift_net.Base.{
  ℕ, ◌+◌, ◌%◌, ◌^◌, ◌<◌, ◌≤◌, ◌≡◌, sym, ap, ◌∙◌, Bool, true, false, none, some, List, [], ◌∷◌, ◌++◌,
  length, arith, ==_iff,
}
use swift_net.Base.Buffer.{read}
use swift_net.Clients.Created.{quiet, AreInTime}
use swift_net.Control.Peers.{Host, Peer}
use swift_net.Packet.{Packet, PortInfo, packet_header_size, min_of, htons}
use swift_net.Receive.Delivery.{idle}
use swift_net.Requests.{Requests}
use swift_net.Requests.Outcome.{answered}
use swift_net.Transfer.{
  Sent, packet_id_of, packet_type_of, send_packet, captured, packet_of, process_nodes,
}
use swift_net.Transfer.Carried.{IsOnLink, min_of_comm}
use swift_net.Transfer.Single.{IsKnownLink, buffer_of}
use swift_net.Exchange.{
  Waiting, metadata_of, requested, packet_length_of, client_make_request, server_make_response,
}
use swift_net.Exchange.Carried.{carried_message}
use swift_net.Exchange.Waited.{requested-answered}

htons-twice : (x : ℕ) → htons (htons (x % 2 ^ 16)) ≡ x % 2 ^ 16
unfolding htons
htons-twice x = omega arith

packet_length_of-buffer_of :
    (memory : List ℕ) (n : ℕ) → n < 2 ^ 32 → packet_length_of (buffer_of memory (58 + n)) ≡ n
packet_length_of-buffer_of memory n below = omega (arith, below)

client_make_request-sent :
    (crc32 : List ℕ → ℕ) (client : Host) (addr_type : ℕ) (eth_hdr : List ℕ) (mtu : ℕ)
    (port_info : PortInfo) (server_addr random n : ℕ) (memory : List ℕ) (waiting : Waiting)
    (requests : Requests) (sent : Sent)
    → n < 2 ^ 32
    → send_packet crc32 client addr_type eth_hdr mtu port_info server_addr true false 0 random n
        (buffer_of memory (58 + n))
      ≡ some sent
    → client_make_request crc32 client addr_type eth_hdr random mtu port_info server_addr
        (buffer_of memory (58 + n))
        waiting
        requests
      ≡ requested (some sent) waiting requests
unfolding client_make_request
client_make_request-sent crc32 client addr_type eth_hdr mtu port_info server_addr random n memory
      waiting requests sent below made =
    ap
      (λ k.
        requested
          (send_packet crc32 client addr_type eth_hdr mtu port_info server_addr true false 0 random
            k (buffer_of memory (58 + n)))
          waiting requests)
      (packet_length_of-buffer_of memory n below)
    ∙ ap (λ s. requested s waiting requests) made

within : {a b : ℕ} → a ≡ b → (n : ℕ) → packet_header_size + n ≤ a → packet_header_size + n ≤ b
within same n fits = omega (arith, same, fits)

-- A response by the metadata of a request goes to where they say that it came from.
server_make_response-sent :
    (crc32 : List ℕ → ℕ) (server : Host) (addr_type : ℕ) (eth_hdr : List ℕ) (random m : ℕ)
    (memory : List ℕ) (packet : Packet) (port_info : PortInfo) (mtu id : ℕ)
    → m < 2 ^ 32
    → packet.packet_info.port_info ≡ port_info
    → packet.packet_info.maximum_transmission_unit ≡ mtu
    → packet.ip_header.ip_id ≡ id
    → server_make_response crc32 server addr_type eth_hdr random
        (metadata_of packet)
        (buffer_of memory (58 + m))
      ≡ send_packet crc32 server addr_type eth_hdr mtu
          (record { destination_port = port_info.source_port; source_port = server.source_port })
          0
          false
          true
          id
          random
          m
          (buffer_of memory (58 + m))
unfolding server_make_response metadata_of
server_make_response-sent crc32 server addr_type eth_hdr random m memory packet port_info mtu id
      below ports by_mtu by_id =
    λ i.
      send_packet crc32 server addr_type eth_hdr (by_mtu i)
        (record { destination_port = (ports i).source_port; source_port = server.source_port }) 0
        false true (by_id i) random (packet_length_of-buffer_of memory m below i)
        (buffer_of memory (58 + m))

-- A client makes a request in one frame. Its server hands the bytes on, with metadata that expect a
-- response; the response by that metadata is sent in one frame, which the client takes for the response
-- to the packet id that its request is listed under, and whose bytes it hands over; and when
-- this response has come, the next look within the time limit ends the request with these bytes, which is
-- then neither listed nor kept. This is for hosts on one link in both
-- directions that IsOnLink describes, with the response sent to the address 0 that the metadata have, a
-- link of either known kind, a client that knows the mtu of its server, messages that fit into the mtu
-- and into 2^16 bytes with their headers, buffers as create_packet_buffer lays them out, a malloc that
-- gives as many bytes as asked, no other request under the packet id, and looks within the time limit before that with no response.
pub client_make_request-answered :
    (crc32 : List ℕ → ℕ) (client server : Host) (addr_type : ℕ) (eth_client eth_server : List ℕ)
    (port_info : PortInfo) (server_addr random random' n m : ℕ) (memory memory' : List ℕ)
    (malloc : ℕ → List ℕ) (ratio_above : ℕ → ℕ → Bool) (old_bytes : List ℕ) (sender_address : ℕ)
    (start timeout_ms : ℕ) (ends : List ℕ) (end : ℕ) (rounds : List (ℕ × List (List ℕ)))
    (request_sent : ℕ) (requests : Requests)
    → IsOnLink crc32 client server addr_type eth_client port_info server_addr n
    → IsOnLink crc32 server client addr_type eth_server
        (record { destination_port = port_info.source_port; source_port = server.source_port })
        0
        m
    → requests.listed ≡ []
    → IsKnownLink addr_type eth_client
    → IsKnownLink addr_type eth_server
    → ((k : ℕ) → length (malloc k) ≡ k)
    → 58 + n ≤ length memory
    → 58 + m ≤ length memory'
    → client.prepend_size + packet_header_size + n < 2 ^ 16
    → server.prepend_size + packet_header_size + m < 2 ^ 16
    → let mtu = min_of server.maximum_transmission_unit client.maximum_transmission_unit in
      packet_header_size + n ≤ mtu
      → packet_header_size + m ≤ mtu
      → AreInTime start timeout_ms (ends ++ (end ∷ []))
      → let response = read memory' 58 m in
        let at = captured old_bytes sender_address in
        (sent : Sent) × (frame : List ℕ) × (at_server : Peer) × (answer : Sent)
        × (answer_frame : List ℕ) × (at_client : Peer) × (after : Requests) × (client_make_request
              crc32 client addr_type eth_client random server.maximum_transmission_unit port_info
              server_addr
              (buffer_of memory (58 + n))
              (record {
                request_sent = request_sent;
                start = start;
                timeout_ms = timeout_ms;
                rounds = quiet ends ++ ((end, response ∷ []) ∷ rounds);
              })
              requests
            ≡ some (sent, some (answered response), after))
        × (after.listed ≡ [])
        × (after.freed request_sent ≡ true)
        × (sent.frames ≡ frame ∷ [])
        × (process_nodes crc32 malloc ratio_above server 0
              (at frame ∷ [])
              (record { conversation = idle false; packet_sending = none; answers = [] })
            ≡ some at_server)
        × (at_server.conversation.delivered ≡ read memory 58 n ∷ [])
        × let metadata = metadata_of (packet_of server.prepend_size (at frame)) in
          (metadata.expecting_response ≡ true)
          × (server_make_response crc32 server addr_type eth_server random' metadata
                (buffer_of memory' (58 + m))
              ≡ some answer)
          × (answer.frames ≡ answer_frame ∷ [])
          × (sent.request_listed
              ≡ some (packet_of client.prepend_size (at answer_frame)).ip_header.ip_id)
          × (process_nodes crc32 malloc ratio_above client 0
                (at answer_frame ∷ [])
                (record { conversation = idle true; packet_sending = none; answers = [] })
              ≡ some at_client)
          × (at_client.conversation.delivered ≡ response ∷ [])
unfolding metadata_of packet_type_of packet_id_of
client_make_request-answered crc32 client server addr_type eth_client eth_server port_info
      server_addr random random' n m memory memory' malloc ratio_above old_bytes sender_address
      start timeout_ms ends end rounds request_sent requests there back unlisted known_client
      known_server gives room room' small small' fits fits' in_time =
    let id = random % 2 ^ 16 in
    let (sent, frame, at_server, made, framed, listed, processed, delivered, typed) =
      carried_message crc32 client server addr_type eth_client port_info server_addr true false 0
        random n memory malloc ratio_above old_bytes sender_address there known_client gives room
        small fits in
    let (answer, answer_frame, at_client, made', framed', _, processed', delivered', typed') =
      carried_message crc32 server client addr_type eth_server
        (record { destination_port = port_info.source_port; source_port = server.source_port }) 0
        false true (htons id) random' m memory' malloc ratio_above old_bytes sender_address back
        known_server gives room' small'
        (within (min_of_comm server.maximum_transmission_unit client.maximum_transmission_unit) m
          fits') in
    let (after, answered_by, unlisted', freed) =
      requested-answered start timeout_ms request_sent end (read memory' 58 m) rounds ends sent
        requests in_time unlisted in
    (
      sent,
      frame,
      at_server,
      answer,
      answer_frame,
      at_client,
      after,
      client_make_request-sent crc32 client addr_type eth_client server.maximum_transmission_unit
            port_info server_addr random n memory _ requests sent (omega (arith, there.no_wrap))
            made
          ∙ answered_by,
      unlisted',
      freed,
      framed,
      processed,
      delivered,
      (
        (==_iff _ _).1 typed.0,
        server_make_response-sent crc32 server addr_type eth_server random' m memory'
              (packet_of server.prepend_size (captured old_bytes sender_address frame)) port_info
              client.maximum_transmission_unit (htons id) (omega (arith, back.no_wrap)) typed.1
              typed.2 typed.3
            ∙ made',
        framed',
        listed ∙ ap some (sym (typed'.3 ∙ htons-twice random)),
        processed',
        delivered',
      ),
    )
