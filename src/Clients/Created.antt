-- ===== src/Clients/Created.antt =====
-- A client that is answered is created.
use swift_net.Base.{
  ℕ, ◌^◌, ◌<◌, ◌≡◌, refl, sym, ap, ◌∙◌, Bool, true, false, some, List, [], ◌∷◌, ◌++◌, map, length,
  Bool-cases, inl, inr,
}
use swift_net.Control.{process_packet, on_request_information}
use swift_net.Control.Peers.{Host, Peer}
use swift_net.Packet.{Packet, PortInfo, sizeof_ip, frame_of, construct_packet_info}
use swift_net.Requests.{expired}
use swift_net.Routing.{Client, packet_prepend_size, handle_client_init}
use swift_net.Routing.Handshake.{handle_client_init-answer}
use swift_net.Transfer.{captured, process_nodes, checksum_of}
use swift_net.Transfer.Carried.{IsOnLink}
use swift_net.Clients.{
  construct_client_connection, request_server_info_buffer, request_server_information,
  swiftnet_create_client,
}
use swift_net.Clients.Handshake.{asked, packet_of-asked, process_packet-asked}

-- Rounds in which no frame comes.
abbrev pub quiet : List ℕ → List (ℕ × List (List ℕ))
quiet ends = map (λ end. (end, [])) ends

-- Readings of the clock within the time limit.
abbrev pub AreInTime : ℕ → ℕ → List ℕ → Type 0
AreInTime start timeout_ms [] = Unit
AreInTime start timeout_ms (end ∷ ends) =
    (expired start timeout_ms end ≡ false) × AreInTime start timeout_ms ends

module _ (addr_type start timeout_ms : ℕ) where
  request_server_information-quiet :
      (ends : List ℕ) (end : ℕ) (frame : List ℕ) (rounds : List (ℕ × List (List ℕ)))
      (connection : Client)
      → AreInTime start timeout_ms ends
      → connection.initialized ≡ false
      → (handle_client_init addr_type frame connection).initialized ≡ true
      → request_server_information addr_type start timeout_ms
          (quiet ends ++ ((end, frame ∷ []) ∷ rounds))
          connection
        ≡ some (handle_client_init addr_type frame connection, length ends)
  unfolding request_server_information
  request_server_information-quiet [] end frame rounds connection in_time new init =
      elim (Bool-cases (expired start timeout_ms end)) [
        | inl late ↦ rw (request_server_information, late) refl
        | inr early ↦ rw (request_server_information, early, init) refl
      ]
  request_server_information-quiet (now ∷ ends) end frame rounds connection in_time new init =
      simp
        (
          request_server_information,
          in_time.0,
          new,
          request_server_information-quiet ends end frame rounds connection in_time.1 new init,
        )
        refl

-- A client asks its server for information in a frame. The server takes it for a request, and answers
-- it; and once the capture thread has handled the frame of the answer, the client is created, and knows
-- the mtu of the server. It has then sent a request for each round before. For hosts on one link that
-- IsOnLink describes, an mtu of the server below 2^16, the lengths of the link header and of the IP
-- header that the client expects, and rounds within the time limit before the answer in which nothing
-- else comes for the client.
pub swiftnet_create_client-answered :
    (crc32 : List ℕ → ℕ) (client server : Host) (addr_type : ℕ) (eth_hdr : List ℕ)
    (port_info : PortInfo) (server_addr random random' : ℕ) (malloc : ℕ → List ℕ)
    (ratio_above : ℕ → ℕ → Bool) (old_bytes : List ℕ) (sender_address : ℕ) (peer : Peer)
    (link ip_bytes : List ℕ) (start timeout_ms : ℕ) (ends : List ℕ) (end : ℕ)
    (rounds : List (ℕ × List (List ℕ)))
    → IsOnLink crc32 client server addr_type eth_hdr port_info server_addr 0
    → server.maximum_transmission_unit < 2 ^ 16
    → length link ≡ packet_prepend_size addr_type
    → length ip_bytes ≡ sizeof_ip
    → AreInTime start timeout_ms ends
    → (after : Peer) × (sent : Packet) × (new_connection : Client) × (process_nodes crc32 malloc
          ratio_above server random'
          (captured old_bytes sender_address (
              request_server_info_buffer crc32 client addr_type eth_hdr server_addr port_info
                random)
            ∷ [])
          peer
        ≡ some after)
      × (after.answers ≡ peer.answers ++ (sent ∷ []))
      × (swiftnet_create_client addr_type start timeout_ms
            (quiet ends ++ ((end, frame_of link ip_bytes sent ∷ []) ∷ rounds))
            port_info
          ≡ some (some new_connection, length ends))
      × (new_connection.maximum_transmission_unit ≡ server.maximum_transmission_unit)
unfolding process_nodes swiftnet_create_client construct_client_connection construct_packet_info
swiftnet_create_client-answered crc32 client server addr_type eth_hdr port_info server_addr random
      random' malloc ratio_above old_bytes sender_address peer link ip_bytes start timeout_ms ends
      end rounds on_link mtu link_size ip_size in_time =
    let packet = asked crc32 client server addr_type eth_hdr port_info server_addr random in
    let (sent, answers, initialized, learned) =
      handle_client_init-answer (checksum_of crc32) server packet random' peer addr_type link
        ip_bytes (construct_client_connection port_info) refl refl (sym on_link.port)
        on_link.source_port on_link.destination_port mtu link_size ip_size in
    let created =
      request_server_information-quiet addr_type start timeout_ms ends end
        (frame_of link ip_bytes sent) rounds (construct_client_connection port_info) in_time refl
        initialized in
    let node =
      captured old_bytes sender_address
        (request_server_info_buffer crc32 client addr_type eth_hdr server_addr port_info random) in
    let answered =
      ap
        (λ p.
          process_packet (checksum_of crc32) malloc ratio_above server random' node.data_read p
            peer)
        (packet_of-asked crc32 client server addr_type eth_hdr port_info server_addr random on_link
          old_bytes sender_address)
      ∙ process_packet-asked crc32 client server addr_type eth_hdr port_info server_addr random
          on_link malloc ratio_above random' node.data_read peer in
    (
      on_request_information (checksum_of crc32) server packet random' peer,
      sent,
      handle_client_init addr_type (frame_of link ip_bytes sent)
          (construct_client_connection port_info),
      rw (process_nodes, answered) refl,
      answers,
      rw (swiftnet_create_client, created, initialized) refl,
      learned,
    )
