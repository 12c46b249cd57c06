-- ===== src/Clients/Tests.antt =====
-- A client that is answered in the third round.
use swift_net.Base.{
  ℕ, ◌%◌, ◌≡◌, refl, none, some, false, List, [], ◌∷◌, ◌++◌, length, replicate, leb, arith,
}
use swift_net.Base.Buffer.{little_endian}
use swift_net.Control.Peers.{Host, Peer}
use swift_net.Packet.{Packet, PortInfo, frame_of}
use swift_net.Receive.Delivery.{idle}
use swift_net.Requests.{expired}
use swift_net.Routing.{Client, packet_prepend_size}
use swift_net.Transfer.{link_header, captured, process_nodes}
use swift_net.Transfer.Carried.{IsOnLink}
use swift_net.Clients.{request_server_info_buffer, swiftnet_create_client}
use swift_net.Clients.Created.{AreInTime, quiet, swiftnet_create_client-answered}

abbrev host : ℕ → ℕ → Host
host address port = record {
  maximum_transmission_unit = 1500;
  private_ip_address = address;
  source_port = port;
  prepend_size = 4;
}

abbrev client : Host
client = host 0x0200000a 4000

abbrev server : Host
server = host 0x0100000a 8080

abbrev ports : PortInfo
ports = record { destination_port = 8080; source_port = 4000 }

abbrev sum_of : List ℕ → ℕ
sum_of bytes = length bytes % 256

on_link : IsOnLink sum_of client server 0 [] ports 0x0100000a 0
unfolding link_header little_endian
on_link = record {
  linked = refl;
  same_link = refl;
  checksums = λ bytes. omega arith;
  destination_port = omega arith;
  source_port = omega arith;
  port = refl;
  sender_mtu = omega arith;
  from = omega arith;
  to = omega arith;
  no_wrap = omega arith;
}

abbrev peer : Peer
peer = record { conversation = idle false; packet_sending = none; answers = [] }

abbrev zeros : ℕ → List ℕ
zeros n = replicate n 0

in_time : AreInTime 1000 500 (1000 ∷ 1250 ∷ [])
unfolding expired
in_time = (refl, (refl, tt))

swiftnet_create_client-answered_example :
    (after : Peer) × (sent : Packet) × (new_connection : Client) × (process_nodes sum_of zeros leb
        server 3
        (captured (zeros 100) 0 (request_server_info_buffer sum_of client 0 [] 0x0100000a ports 77)
          ∷ [])
        peer
      ≡ some after)
    × (after.answers ≡ sent ∷ [])
    × (swiftnet_create_client 0 1000 500
          (quiet (1000 ∷ 1250 ∷ [])
            ++ ((1500, frame_of (2 ∷ 0 ∷ 0 ∷ 0 ∷ []) (zeros 20) sent ∷ []) ∷ []))
          ports
        ≡ some (some new_connection, 2))
    × (new_connection.maximum_transmission_unit ≡ 1500)
unfolding packet_prepend_size
swiftnet_create_client-answered_example =
    swiftnet_create_client-answered sum_of client server 0 [] ports 0x0100000a 77 3 zeros leb
      (zeros 100) 0 peer (2 ∷ 0 ∷ 0 ∷ 0 ∷ []) (zeros 20) 1000 500 (1000 ∷ 1250 ∷ []) 1500 [] on_link
      (omega arith) refl refl in_time
