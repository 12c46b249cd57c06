-- ===== src/Exchange/Tests.antt =====
-- A request of ten bytes and a response of five, with an mtu of 60 bytes.
use swift_net.Base.{
  ℕ, ◌%◌, ◌≡◌, refl, inl, true, false, none, some, List, [], ◌∷◌, ◌++◌, length, replicate,
  length-replicate, arith,
}
use swift_net.Base.Buffer.{read, little_endian}
use swift_net.Clients.Created.{quiet, AreInTime}
use swift_net.Control.Peers.{Host, Peer}
use swift_net.Packet.{PortInfo}
use swift_net.Receive.Delivery.{idle}
use swift_net.Requests.{Requests, expired}
use swift_net.Requests.Outcome.{answered}
use swift_net.Transfer.{Sent, link_header, captured, packet_of, process_nodes}
use swift_net.Transfer.Carried.{IsOnLink}
use swift_net.Transfer.Single.{buffer_of}
use swift_net.Exchange.{metadata_of, client_make_request, server_make_response}
use swift_net.Exchange.Answered.{client_make_request-answered}

abbrev host : ℕ → ℕ → Host
host address port = record {
  maximum_transmission_unit = 60;
  private_ip_address = address;
  source_port = port;
  prepend_size = 4;
}

abbrev client : Host
client = host 0x0200000a 4000

abbrev server : Host
server = host 0x0100000a 8080

abbrev ports : PortInfo
ports = record { destination_port = 8080; source_port = 4000 }

abbrev back_ports : PortInfo
back_ports = record { destination_port = 4000; source_port = 8080 }

-- A checksum for the purpose.
abbrev sum_of : List ℕ → ℕ
sum_of bytes = length bytes % 256

abbrev zeros : ℕ → List ℕ
zeros n = replicate n 0

there : IsOnLink sum_of client server 0 [] ports 0x0100000a 10
unfolding link_header little_endian
there = record {
  linked = refl;
  same_link = refl;
  checksums = λ bytes. omega arith;
  destination_port = omega arith;
  source_port = omega arith;
  port = refl;
  sender_mtu = omega arith;
  from = omega arith;
  to = omega arith;
  no_wrap = omega arith;
}

back : IsOnLink sum_of server client 0 [] back_ports 0 5
unfolding link_header little_endian
back = record {
  linked = refl;
  same_link = refl;
  checksums = λ bytes. omega arith;
  destination_port = omega arith;
  source_port = omega arith;
  port = refl;
  sender_mtu = omega arith;
  from = omega arith;
  to = omega arith;
  no_wrap = omega arith;
}

abbrev no_requests : Requests
no_requests = record { listed = []; packet_data = λ r. none; freed = λ r. true }

in_time : AreInTime 100 50 (105 ∷ 110 ∷ [])
unfolding expired
in_time = (refl, (refl, tt))

client_make_request-answered_example :
    let response = read (replicate 80 2) 58 5 in
    let at = captured [] 9 in
    (sent : Sent) × (frame : List ℕ) × (at_server : Peer) × (answer : Sent) × (answer_frame : List
      ℕ)
    × (at_client : Peer) × (after : Requests) × (client_make_request sum_of client 0 [] 77 60 ports
          0x0100000a
          (buffer_of (replicate 80 1) 68)
          (record {
            request_sent = 1;
            start = 100;
            timeout_ms = 50;
            rounds = quiet (105 ∷ []) ++ ((110, response ∷ []) ∷ []);
          })
          no_requests
        ≡ some (sent, some (answered response), after))
    × (after.listed ≡ [])
    × (after.freed 1 ≡ true)
    × (sent.frames ≡ frame ∷ [])
    × (process_nodes sum_of zeros
          (λ a b. true)
          server
          0
          (at frame ∷ [])
          (record { conversation = idle false; packet_sending = none; answers = [] })
        ≡ some at_server)
    × (at_server.conversation.delivered ≡ read (replicate 80 1) 58 10 ∷ [])
    × let metadata = metadata_of (packet_of 4 (at frame)) in
      (metadata.expecting_response ≡ true)
      × (server_make_response sum_of server 0 [] 0 metadata (buffer_of (replicate 80 2) 63)
          ≡ some answer)
      × (answer.frames ≡ answer_frame ∷ [])
      × (sent.request_listed ≡ some (packet_of 4 (at answer_frame)).ip_header.ip_id)
      × (process_nodes sum_of zeros
            (λ a b. true)
            client
            0
            (at answer_frame ∷ [])
            (record { conversation = idle true; packet_sending = none; answers = [] })
          ≡ some at_client)
      × (at_client.conversation.delivered ≡ response ∷ [])
client_make_request-answered_example =
    client_make_request-answered sum_of client server 0 [] [] ports 0x0100000a 77 0 10 5
      (replicate 80 1) (replicate 80 2) zeros (λ a b. true) [] 9 100 50 (105 ∷ []) 110 [] 1
      no_requests there back refl (inl refl) (inl refl) (λ k. length-replicate k 0) (omega arith)
      (omega arith) (omega arith) (omega arith) (omega arith) (omega arith) in_time
