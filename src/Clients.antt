-- ===== src/Clients.antt =====
-- How a client comes to be: swiftnet_create_client and request_server_information of
-- src/initialize_client_connection.c. The client goes on asking its server for information until the
-- capture thread has initialized it, or the time limit is over.
pub mod Handshake
pub mod Created
mod Tests
use mathlib.Core.List.{foldl}
use swift_net.Base.{
  ℕ, zero, suc, ◌+◌, ◌-◌, ◌%◌, ◌^◌, Bool, true, false, ◌||◌, Option, none, some, List, [], ◌∷◌,
  length, if◌then◌else◌, replicate,
}
use swift_net.Control.Peers.{Host}
use swift_net.Packet.{
  PortInfo, sizeof_ip, packet_header_size, construct_packet_info, construct_ip_header,
}
use swift_net.Packet.PacketType.{request_information}
use swift_net.Requests.{expired}
use swift_net.Routing.{Client, handle_client_init}
use swift_net.Send.{handle_checksum}
use swift_net.Transfer.{packet_construction}

-- `construct_client_connection`, as far as frames change a client.
unfoldable pub construct_client_connection : PortInfo → Client
construct_client_connection port_info = record {
  closing = false;
  initialized = false;
  port_info = port_info;
  maximum_transmission_unit = 0;
  ether_dhost = replicate 6 0xff;
  inbox = record { packet_queue = []; processing_packets = true; signalled = false };
}

-- `request_server_info_buffer`; `random` is what `rand` gives.
unfoldable pub request_server_info_buffer :
    (List ℕ → ℕ) → Host → ℕ → List ℕ → ℕ → PortInfo → ℕ → List ℕ
unfolding handle_checksum packet_construction construct_ip_header construct_packet_info
request_server_info_buffer crc32 host addr_type eth_header server_addr port_info random =
    let buffer =
      packet_construction addr_type eth_header
        (construct_ip_header host.private_ip_address server_addr packet_header_size
          (random % 2 ^ 16))
        (construct_packet_info host.maximum_transmission_unit 0 request_information 1 0
          port_info) in
    handle_checksum crc32 buffer (host.prepend_size + sizeof_ip)
      (length buffer - host.prepend_size - sizeof_ip)

module _ (addr_type start timeout_ms : ℕ) where
  -- `request_server_information`. A round is a reading of the clock, in front of which the capture
  -- thread has handled frames for the client; the result is the client as it is at the exit, and how
  -- many requests were sent. `none`: still waiting behind the last round.
  unfoldable pub request_server_information :
      List (ℕ × List (List ℕ)) → Client → Option (Client × ℕ)
  unfolding expired
  request_server_information [] connection = none
  request_server_information ((end, frames) ∷ rounds) connection =
      let handled = foldl (λ c frame. handle_client_init addr_type frame c) connection frames in
      let rest = request_server_information rounds handled in
      if expired start timeout_ms end || handled.initialized
      then some (handled, 0)
      else elim rest [ none ↦ none | some (last, requests) ↦ some (last, suc requests) ]

  -- `swiftnet_create_client`, from the request on: a client that has not been initialized is freed.
  unfoldable pub swiftnet_create_client :
      List (ℕ × List (List ℕ)) → PortInfo → Option (Option Client × ℕ)
  unfolding request_server_information construct_client_connection
  swiftnet_create_client rounds port_info =
      elim (request_server_information rounds (construct_client_connection port_info)) [
        | none ↦ none
        | some (new_connection, requests) ↦
            some (if new_connection.initialized then some new_connection else none, requests)
      ]
