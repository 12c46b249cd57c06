-- ===== src/Transfer/Arrivals.antt =====
-- Frames with data at `swiftnet_process_packets`.
use mathlib.Core.Option.{some-injective}
use swift_net.Base.{
  ℕ, ◌≡◌, refl, ap, ◌∙◌, inl, inr, Bool, true, false, some, List, [], ◌∷◌, ◌++◌, map, length, drop,
  ◌==◌, arith, Option-cases, some_of_none, ==_iff,
}
use swift_net.Control.{process_packet, is_for_me, on_packet, on_data, signal_delay_change}
use swift_net.Control.Peers.{Host, Peer}
use swift_net.Packet.{Packet, PacketInfo}
use swift_net.Receive.{Conversation, receive_data}
use swift_net.Receive.Once.{receive_all, receive_data-checksum}
use swift_net.Routing.{Queued}
use swift_net.Transfer.{packet_of, packet_type_of, checksum_of, process_nodes}

-- A packet with data for the host, from a sender that leaves the IP checksum to nobody.
pub record IsForHost (host : Host) (has_request is_response : Bool) (packet : Packet) : Type 0 where
  pub port : packet.packet_info.port_info.destination_port ≡ host.source_port
  pub unsummed : packet.ip_header.ip_sum ≡ 0
  pub with_data : packet.packet_info.packet_type ≡ packet_type_of is_response has_request

module _ (host : Host) (has_request is_response : Bool) where
  -- What a node carries of a message.
  pub record IsCarried (node : Queued) (info : PacketInfo) (payload : List ℕ) : Type 0 where
    pub packet : Packet
    pub taken : packet_of host.prepend_size node ≡ packet
    pub for_host : IsForHost host has_request is_response packet
    pub header : packet.packet_info ≡ record info { checksum = packet.packet_info.checksum }
    pub behind : packet.payload ≡ payload

  abbrev pub AreCarried : List Queued → List (PacketInfo × List ℕ) → Type 0
  AreCarried [] [] = Unit
  AreCarried (node ∷ nodes) ((info, payload) ∷ packets) =
      IsCarried node info payload × AreCarried nodes packets
  AreCarried _ _ = ⊥

-- A packet without an IP checksum is looked at by its port only.
pub is_for_me_unsummed :
    (checksum_of : PacketInfo → List ℕ → ℕ) (host : Host) (data_read : ℕ) (packet : Packet)
    → packet.packet_info.port_info.destination_port ≡ host.source_port
    → packet.ip_header.ip_sum ≡ 0
    → is_for_me checksum_of host data_read packet ≡ true
unfolding is_for_me
is_for_me_unsummed checksum_of host data_read packet at_port no_sum =
    let port : (packet.packet_info.port_info.destination_port == host.source_port) ≡ true =
      (==_iff _ _).1 at_port in
    let unsummed : (packet.ip_header.ip_sum == 0) ≡ true = (==_iff _ _).1 no_sum in
    rw (port, unsummed) (ground arith)

module _ (crc32 : List ℕ → ℕ) (malloc : ℕ → List ℕ) (ratio_above : ℕ → ℕ → Bool) (host : Host)
    (random : ℕ) (has_request is_response : Bool) where
  is_for_me_lem :
      (data_read : ℕ) (packet : Packet)
      → IsForHost host has_request is_response packet
      → is_for_me (checksum_of crc32) host data_read packet ≡ true
  is_for_me_lem data_read packet for_host =
      is_for_me_unsummed (checksum_of crc32) host data_read packet for_host.port for_host.unsummed

  on_packet_lem :
      (packet : Packet) (peer : Peer)
      → IsForHost host has_request is_response packet
      → on_packet (checksum_of crc32) host packet malloc ratio_above random peer
        ≡ on_data (checksum_of crc32) host packet malloc ratio_above peer
  unfolding on_packet packet_type_of
  on_packet_lem packet peer for_host =
      elim is_response
          as (λ r.
            packet.packet_info.packet_type ≡ packet_type_of r has_request
            → on_packet (checksum_of crc32) host packet malloc ratio_above random peer
              ≡ on_data (checksum_of crc32) host packet malloc ratio_above peer) [
                | true ↦ λ e. simp (on_packet, e) refl
                | false ↦
                    elim has_request
                      as (λ h.
                        packet.packet_info.packet_type ≡ packet_type_of false h
                        → on_packet (checksum_of crc32) host packet malloc ratio_above random peer
                          ≡ on_data (checksum_of crc32) host packet malloc ratio_above peer) [
                            | true ↦ λ e. simp (on_packet, e) refl
                            | false ↦ λ e. simp (on_packet, e) refl
                          ]
              ]
        for_host.with_data

  -- A frame with data that comes to the receiver changes its conversation as `receive_data` does.
  process_packet_lem :
      (data_read : ℕ) (packet : Packet) (peer : Peer) (after : Conversation)
      → IsForHost host has_request is_response packet
      → receive_data malloc ratio_above host.maximum_transmission_unit packet.packet_info
          packet.payload peer.conversation
        ≡ some after
      → (peer' : Peer) × (process_packet
            (checksum_of crc32)
            malloc
            ratio_above
            host
            random
            data_read
            packet
            peer
          ≡ some peer')
        × (peer'.conversation ≡ after)
  unfolding process_packet on_data
  process_packet_lem data_read packet peer after for_host received = (
    record peer {
      conversation = after;
      answers =
          peer.answers
          ++ map (signal_delay_change (checksum_of crc32) host packet)
              (drop (length peer.conversation.delay_changes) after.delay_changes);
    },
    rw (is_for_me_lem data_read packet for_host, on_packet_lem packet peer for_host)
        (rw (on_data, received) refl),
    refl,
  )

  carried_lem :
      (node : Queued) (info : PacketInfo) (payload : List ℕ) (peer : Peer) (after : Conversation)
      → IsCarried host has_request is_response node info payload
      → receive_data malloc ratio_above host.maximum_transmission_unit info payload
          peer.conversation
        ≡ some after
      → (peer' : Peer) × (process_packet
            (checksum_of crc32)
            malloc
            ratio_above
            host
            random
            node.data_read
            (packet_of host.prepend_size node)
            peer
          ≡ some peer')
        × (peer'.conversation ≡ after)
  carried_lem node info payload peer after carried received =
      let same : receive_data malloc ratio_above host.maximum_transmission_unit
            carried.packet.packet_info carried.packet.payload peer.conversation
          ≡ some after =
        ap
          (λ h.
            receive_data malloc ratio_above host.maximum_transmission_unit h carried.packet.payload
              peer.conversation)
          carried.header
        ∙ ap
            (λ b.
              receive_data malloc ratio_above host.maximum_transmission_unit
                (record info { checksum = carried.packet.packet_info.checksum }) b
                peer.conversation)
            carried.behind
        ∙ receive_data-checksum malloc ratio_above host.maximum_transmission_unit
            carried.packet.packet_info.checksum info payload peer.conversation
        ∙ received in
      let (peer', done, conversation) =
        process_packet_lem node.data_read carried.packet peer after carried.for_host same in
      (
        peer',
        ap
              (λ p.
                process_packet (checksum_of crc32) malloc ratio_above host random node.data_read p
                  peer)
              carried.taken
            ∙ done,
        conversation,
      )

  -- Frames that carry the packets of a message do to the conversation what the packets do.
  pub process_nodes_lem :
      (nodes : List Queued) (packets : List (PacketInfo × List ℕ)) (peer : Peer)
      (after : Conversation)
      → AreCarried host has_request is_response nodes packets
      → receive_all malloc ratio_above host.maximum_transmission_unit packets peer.conversation
        ≡ some after
      → (peer' : Peer) × (process_nodes crc32 malloc ratio_above host random nodes peer
          ≡ some peer')
        × (peer'.conversation ≡ after)
  unfolding process_nodes receive_all
  process_nodes_lem [] [] peer after carried received =
      (peer, refl, some-injective peer.conversation after received)
  process_nodes_lem [] (_ ∷ _) peer after carried received = elim carried [ ]
  process_nodes_lem (_ ∷ _) [] peer after carried received = elim carried [ ]
  process_nodes_lem (node ∷ nodes) ((info, payload) ∷ packets) peer after carried received =
      elim (Option-cases (
        receive_data malloc ratio_above host.maximum_transmission_unit info payload
          peer.conversation)) [
            | inl fault ↦ some_of_none after (rw (fault, receive_all) at received)
            | inr (next, done) ↦
                let (peer', now, conversation) =
                  carried_lem node info payload peer next carried.0 done in
                let rest = rw (done, receive_all) at received in
                let (peer'', later, conversation') =
                  process_nodes_lem nodes packets peer' after carried.1 (
                    ap
                      (λ c. receive_all malloc ratio_above host.maximum_transmission_unit packets c)
                      conversation
                    ∙ rest) in
                (peer'', rw (now, process_nodes) later, conversation')
          ]
