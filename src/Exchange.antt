-- ===== src/Exchange.antt =====
-- Requests and their responses: the functions of src/make_request.c and src/make_response.c, which send
-- by `swiftnet_send_packet`, and the metadata that src/process_packets.c gives with a message.
pub mod Answered
mod Carried
mod Tests
mod Waited
use swift_net.Base.{
  ℕ, ◌+◌, ◌-◌, ◌%◌, ◌^◌, Bool, true, false, Option, none, some, List, [], ◌∷◌, ◌==◌,
}
use swift_net.Control.Peers.{Host}
use swift_net.Packet.{Packet, PortInfo}
use swift_net.Packet.PacketType.{request}
use swift_net.PacketBuffer.{PacketBuffer}
use swift_net.Requests.{Outcome, Requests, send_request, handle_request_response, check_response}
use swift_net.Transfer.{Sent, send_packet}

-- `SwiftNetClientAddrData`, but the link's address.
pub record ClientAddrData : Type 0 where
  pub sender_address : ℕ
  pub maximum_transmission_unit : ℕ
  pub port : ℕ

-- `SwiftNetPacketServerMetadata`; that of a client has no `sender`.
pub record Metadata : Type 0 where
  pub port_info : PortInfo
  pub sender : ClientAddrData
  pub data_length : ℕ
  pub packet_id : ℕ
  pub expecting_response : Bool

-- The `sender` of a packet. Its address is not among the fields that are set, so it is 0.
abbrev sender_of : Packet → ClientAddrData
sender_of packet = record {
  sender_address = 0;
  maximum_transmission_unit = packet.packet_info.maximum_transmission_unit;
  port = packet.packet_info.port_info.source_port;
}

-- The metadata of a message, by its first packet.
unfoldable pub metadata_of : Packet → Metadata
metadata_of packet = record {
  port_info = packet.packet_info.port_info;
  sender = sender_of packet;
  data_length = packet.packet_info.packet_length;
  packet_id = packet.ip_header.ip_id;
  expecting_response = packet.packet_info.packet_type == request;
}

-- `packet_append_pointer - packet_data_start`
abbrev pub packet_length_of : PacketBuffer → ℕ
packet_length_of packet =
    (packet.packet_append_pointer + 2 ^ 32 - packet.packet_data_start) % 2 ^ 32

-- The responses under the packet id of a request that come between two looks at it.
unfoldable pub handle_responses : List (List ℕ) → Requests → Option Requests
handle_responses [] requests = some requests
handle_responses (response ∷ responses) requests =
    elim (handle_request_response response requests) [
      | none ↦ none
      | some requests' ↦ handle_responses responses requests'
    ]

-- The loop from `check_response` on, for the readings of the clock that it makes, each with the
-- responses that have come before it.
unfoldable pub await_response :
    ℕ → ℕ → ℕ → List (ℕ × List (List ℕ)) → Requests → Option (Option Outcome × Requests)
unfolding handle_responses check_response
await_response start timeout_ms request_sent [] requests = some (none, requests)
await_response start timeout_ms request_sent ((end, responses) ∷ rounds) requests =
    elim (handle_responses responses requests) [
      | none ↦ none
      | some requests' ↦
          let (outcome, after) = check_response start timeout_ms end request_sent requests' in
          elim outcome [
            | some o ↦ some (some o, after)
            | none ↦ await_response start timeout_ms request_sent rounds after
          ]
    ]

-- What a request is made of besides its message: its place, the clock at its start, its time limit, and
-- the rounds of its loop.
pub record Waiting : Type 0 where
  pub request_sent : ℕ
  pub start : ℕ
  pub timeout_ms : ℕ
  pub rounds : List (ℕ × List (List ℕ))

-- A send that lists the request, and the loop.
unfoldable pub requested :
    Option Sent → Waiting → Requests → Option (Sent × Option Outcome × Requests)
unfolding await_response send_request
requested none waiting requests = none
requested (some sent) waiting requests =
    elim (await_response waiting.start waiting.timeout_ms waiting.request_sent waiting.rounds
      (send_request waiting.request_sent requests)) [
        | none ↦ none
        | some (outcome, after) ↦ some (sent, outcome, after)
      ]

module _ (crc32 : List ℕ → ℕ) (host : Host) (addr_type : ℕ) (eth_header : List ℕ) (random : ℕ) where
  -- `swiftnet_client_make_request`
  unfoldable pub client_make_request :
      ℕ
      → PortInfo
      → ℕ
      → PacketBuffer
      → Waiting
      → Requests
      → Option (Sent × Option Outcome × Requests)
  client_make_request maximum_transmission_unit port_info server_addr packet waiting requests =
      requested
        (send_packet crc32 host addr_type eth_header maximum_transmission_unit port_info server_addr
          true false 0 random (packet_length_of packet) packet)
        waiting requests

  -- `swiftnet_server_make_request`
  unfoldable pub server_make_request :
      ClientAddrData → PacketBuffer → Waiting → Requests → Option (Sent × Option Outcome × Requests)
  server_make_request addr_data packet waiting requests =
      requested
        (send_packet crc32 host addr_type eth_header addr_data.maximum_transmission_unit
          (record { destination_port = addr_data.port; source_port = host.source_port })
          addr_data.sender_address true false 0 random (packet_length_of packet) packet)
        waiting requests

  -- `swiftnet_client_make_response`
  unfoldable pub client_make_response : ℕ → PortInfo → ℕ → Metadata → PacketBuffer → Option Sent
  client_make_response maximum_transmission_unit port_info server_addr metadata buffer =
      send_packet crc32 host addr_type eth_header maximum_transmission_unit port_info server_addr
        false true metadata.packet_id random (packet_length_of buffer) buffer

  -- `swiftnet_server_make_response`
  unfoldable pub server_make_response : Metadata → PacketBuffer → Option Sent
  server_make_response metadata buffer =
      send_packet crc32 host addr_type eth_header metadata.sender.maximum_transmission_unit
        (record {
          destination_port = metadata.port_info.source_port;
          source_port = host.source_port;
        })
        metadata.sender.sender_address false true metadata.packet_id random
        (packet_length_of buffer) buffer
