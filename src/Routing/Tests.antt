-- ===== src/Routing/Tests.antt =====
-- A listener on Ethernet with a client at port 4000 and a server at port 8080.
use swift_net.Base.{
  ℕ, ◌≡◌, ◌⊎◌, refl, true, false, if◌then◌else◌, ◌==◌, none, some, List, [], ◌∷◌, ◌++◌, replicate,
  arith,
}
use swift_net.Base.Buffer.{read}
use swift_net.Control.Peers.{Host, Peer}
use swift_net.Packet.{Packet, PacketInfo}
use swift_net.Receive.Delivery.{idle}
use swift_net.Routing.{
  Client, Inbox, Listener, field, from_bytes, packet_prepend_size, pcap_packet_handle,
}
use swift_net.Routing.Delivered.{pcap_packet_handle_lem}

abbrev empty_inbox : Inbox
empty_inbox = record { packet_queue = []; processing_packets = true; signalled = false }

abbrev new_client : Client
new_client = record {
  closing = false;
  initialized = false;
  port_info = record { destination_port = 8080; source_port = 4000 };
  maximum_transmission_unit = 0;
  ether_dhost = replicate 6 255;
  inbox = empty_inbox;
}

abbrev listener : Listener
listener = record {
  addr_type = 1;
  client_connections = λ port. if port == 4000 then some new_client else none;
  servers = λ port. if port == 8080 then some empty_inbox else none;
}

-- A frame for port 8080, which is 0x1f90.
abbrev frame : List ℕ
frame = replicate 12 0 ++ (8 ∷ 0 ∷ (replicate 36 0 ++ (0x90 ∷ 0x1f ∷ replicate 20 0)))

pcap_packet_handle_lem_example :
    (listener' : Listener) × (pcap_packet_handle (replicate 1514 0) frame listener ≡ some listener')
    × (listener'.client_connections 4000 ≡ listener.client_connections 4000)
    × (listener'.servers 4000 ≡ listener.servers 4000)
    × ((listener.client_connections 8080 ≡ none) ⊎ (listener'.servers 8080 ≡ listener.servers 8080))
unfolding field packet_prepend_size from_bytes read
pcap_packet_handle_lem_example =
    pcap_packet_handle_lem (replicate 1514 0) frame 8080 4000 listener (omega arith) refl
      (omega arith)

abbrev server_host : Host
server_host = record {
  maximum_transmission_unit = 1500;
  private_ip_address = 0x0100000a;
  source_port = 8080;
  prepend_size = 14;
}

abbrev asked : Packet
asked = record {
  ip_header = record {
    ip_len = 0;
    ip_id = 7;
    ip_sum = 0;
    ip_src = 0x0200000a;
    ip_dst = 0x0100000a;
  };
  packet_info = record {
    packet_length = 0;
    chunk_amount = 1;
    chunk_index = 0;
    checksum = 0;
    port_info = record { destination_port = 8080; source_port = 4000 };
    maximum_transmission_unit = 1500;
    packet_type = 2;
  };
  payload = [];
}

abbrev no_checksum : PacketInfo → List ℕ → ℕ
no_checksum packet_info bytes = 0

abbrev nobody : Peer
nobody = record { conversation = idle false; packet_sending = none; answers = [] }
