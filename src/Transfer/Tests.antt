-- ===== src/Transfer/Tests.antt =====
-- A message between two hosts on one link, with an mtu of 60 bytes.
use swift_net.Base.{
  ℕ, ◌%◌, ◌<◌, ◌≡◌, ◌≢◌, ◌≤◌, ◌⊎◌, refl, inl, true, false, none, some, List, [], ◌∷◌, map, length,
  get_or, leb, if◌then◌else◌, replicate, length-replicate, arith,
}
use swift_net.Base.Buffer.{read, little_endian}
use swift_net.Control.Peers.{Host, Peer}
use swift_net.Packet.{PortInfo}
use swift_net.Receive.Delivery.{arrived, idle}
use swift_net.Retransmit.{new_packet_sending}
use swift_net.Routing.{Queued, Inbox, insert_node, handle_packets}
use swift_net.Send.{chunk_data_size, chunk_amount_of}
use swift_net.Transfer.{Sent, link_header, send_packet, captured, process_nodes}
use swift_net.Transfer.Carried.{IsOnLink}
use swift_net.Transfer.Delivered.{send_packet-delivered}
use swift_net.Transfer.Single.{buffer_of}
use swift_net.Transfer.Unnoticed.{send_packet-single}

abbrev host : ℕ → ℕ → Host
host address port = record {
  maximum_transmission_unit = 60;
  private_ip_address = address;
  source_port = port;
  prepend_size = 4;
}

abbrev client : Host
client = host 0x0200000a 4000

abbrev server : Host
server = host 0x0100000a 8080

abbrev ports : PortInfo
ports = record { destination_port = 8080; source_port = 4000 }

-- A checksum for the purpose.
abbrev sum_of : List ℕ → ℕ
sum_of bytes = length bytes % 256

on_link :
    (packet_length : ℕ)
    → packet_length < 1000
    → IsOnLink sum_of client server 0 [] ports 0x0100000a packet_length
unfolding link_header little_endian
on_link packet_length small = record {
  linked = refl;
  same_link = refl;
  checksums = λ bytes. omega arith;
  destination_port = omega arith;
  source_port = omega arith;
  port = refl;
  sender_mtu = omega arith;
  from = omega arith;
  to = omega arith;
  no_wrap = omega arith;
}

abbrev memory : List ℕ
memory = replicate 140 1

abbrev zeros : ℕ → List ℕ
zeros n = replicate n 0

ragged : 70 % chunk_data_size 60 ≢ 0
unfolding chunk_data_size
ragged = omega arith

several : (2 < chunk_amount_of 70 60) × (1 < chunk_amount_of 70 60) × (0 < chunk_amount_of 70 60)
unfolding chunk_amount_of chunk_data_size
several = (omega arith, omega arith, omega arith)

send_packet-delivered_example :
    (sent : Sent) × (send_packet sum_of client 0 [] 60 ports 0x0100000a false false 0 77 70
        (buffer_of memory 128)
      ≡ some sent)
    × (sent.memory ≡ memory)
    × (sent.packet_sending ≡ some (new_packet_sending sent.packet_id))
    × (after : Peer) × (process_nodes sum_of zeros
          (λ a b. true)
          server
          0
          (map (λ j. captured [] 9 (get_or sent.frames j [])) (0 ∷ 2 ∷ 1 ∷ []))
          (record { conversation = idle false; packet_sending = none; answers = [] })
        ≡ some after)
    × ((after.conversation.delivered ≡ [])
        ⊎ (after.conversation.delivered ≡ read memory 58 70 ∷ []))
    × (((k : ℕ) → k < chunk_amount_of 70 60 → arrived k (0 ∷ 2 ∷ 1 ∷ []) ≡ true)
        → after.conversation.delivered ≡ read memory 58 70 ∷ [])
send_packet-delivered_example =
    send_packet-delivered sum_of client server 0 [] ports 0x0100000a false false 0 77 70
      (buffer_of memory 128) zeros (λ a b. true) 0 [] 9 none [] (2 ∷ 1 ∷ [])
      (on_link 70 (omega arith)) (λ n. length-replicate n 0) (omega arith) (omega arith)
      (omega arith) (omega arith) (omega arith) ragged (several.0, (several.1, omega arith))

abbrev inbox : Inbox
inbox = record { packet_queue = []; processing_packets = false; signalled = false }

-- 25 bytes fit into the mtu but not into a chunk, and their frame fits into a block.
send_packet-single_example :
    (sent : Sent) × (frame : List ℕ) × (send_packet sum_of client 0 [] 60 ports 0x0100000a false
        false 0 77 25
        (buffer_of memory 83)
      ≡ some sent)
    × (sent.packet_sending ≡ none)
    × (sent.frames ≡ frame ∷ [])
    × (length frame ≡ 73)
    × (length (zeros 74) < 73 → handle_packets 0 frame (zeros 74) inbox ≡ none)
    × (73 ≤ length (zeros 74)
        → (node : Queued) × (after : Peer) × (handle_packets 0 frame (zeros 74) inbox
            ≡ some (insert_node node inbox))
          × (process_nodes sum_of zeros
                (λ a b. true)
                server
                0
                (node ∷ [])
                (record { conversation = idle false; packet_sending = none; answers = [] })
              ≡ some after)
          × (after.conversation.delivered
              ≡ (if leb 25 (chunk_data_size 60) then read memory 58 25 ∷ [] else [])))
send_packet-single_example =
    send_packet-single sum_of client server 0 [] ports 0x0100000a false false 0 77 25 memory 83
      zeros (λ a b. true) 0 (zeros 74) inbox none [] (on_link 25 (omega arith)) (inl refl)
      (λ e. absurd (omega (arith, e))) (λ n. length-replicate n 0) (omega arith) (omega arith)
      (omega arith)
