-- ===== src/Control.antt =====
-- The step of src/process_packets.c at one packet: the checks of `swiftnet_process_packets`, its
-- `switch` over the packet type, and `signal_delay_change`. `none` is an access outside of a buffer
-- or through a null pointer.
--
-- The step is on what the tables have under the source port and the packet id of the packet; Processing
-- looks these up and stores them. A packet is given by its headers and the bytes behind them;
-- `data_read` is the length that the network gave.
-- `checksum_of` is `crc32` over the memory of a `SwiftNetPacketInfo` and the bytes behind it.
pub mod Peers
pub mod Words
use mathlib.Core.Option
use swift_net.Base.{
  ℕ, ◌+◌, ◌-◌, ◌*◌, ◌/◌, ◌%◌, ◌^◌, Bool, true, false, ◌&&◌, not, Option, none, some, List, [], ◌∷◌,
  ◌++◌, map, length, drop, ltb, leb, ◌==◌, if◌then◌else◌,
}
use swift_net.Base.Buffer.{memcpy, read, little_endian}
use swift_net.Chunks.{return_lost_chunk_indexes}
use swift_net.Packet.{
  Packet, PacketInfo, PortInfo, sizeof_ip, sizeof_packet_info, packet_header_size,
  sizeof_server_information, min_of, htons, construct_packet_info, construct_ip_header,
}
use swift_net.Packet.PacketType.{
  request_information, send_lost_packets_request, send_lost_packets_response,
  successfully_received_packet, packet_delay_update,
}
use swift_net.Receive.{Conversation, PendingMessage, receive_data}
use swift_net.Control.Peers.{
  Host, PacketSending, Peer, Updated, no_update, updated_lost_chunks, successfully_received,
}
use swift_net.Control.Words.{bytes_of_words}

-- The memory of a `SwiftNetServerInformation`, its padding taken as 0.
abbrev pub server_information : Host → List ℕ
server_information host = little_endian 2 host.maximum_transmission_unit ++ (0 ∷ 0 ∷ [])

-- `htonl` on a little-endian machine.
unfoldable pub htonl : ℕ → ℕ
htonl x = x % 256 * 2 ^ 24 + x / 256 % 256 * 2 ^ 16 + x / 2 ^ 16 % 256 * 2 ^ 8 + x / 2 ^ 24 % 256

-- `is_private_ip`
unfoldable pub is_private_ip : ℕ → Bool
unfolding htonl
is_private_ip ip = htonl ip / 2 ^ 24 % 256 == 127

-- `SwiftNetPacketDelayUpdateStatus`: `true` is `LOWER_DELAY`.
abbrev pub delay_status : Bool → ℕ
delay_status true = 0
delay_status false = 1

module _ (host : Host) (packet : Packet) where
  -- `lost_chunks`, which is allocated where it is still a null pointer.
  abbrev pub lost_chunks_buffer : (ℕ → List ℕ) → PacketSending → List ℕ
  lost_chunks_buffer malloc target = elim target.lost_chunks [
    | none ↦ malloc (host.maximum_transmission_unit - packet_header_size)
    | some bytes ↦ bytes
  ]

  -- What `case SEND_LOST_PACKETS_RESPONSE` does to the entry of `packets_sending`; the list has to
  -- fit into the buffer, and into the packet.
  unfoldable pub store_lost_chunks : (ℕ → List ℕ) → PacketSending → Option PacketSending
  store_lost_chunks malloc target =
      let size = packet.packet_info.packet_length in
      let buffer = lost_chunks_buffer malloc target in
      if leb size (length buffer) && leb size (length packet.payload)
      then some (record target {
        lost_chunks = some (memcpy buffer 0 (read packet.payload 0 size));
        lost_chunks_size = size / 4;
        updated = updated_lost_chunks;
      })
      else none

  -- `case SEND_LOST_PACKETS_RESPONSE`
  pub on_lost_packets_response : (ℕ → List ℕ) → Peer → Option Peer
  on_lost_packets_response malloc peer = elim peer.packet_sending [
    | none ↦ some peer
    | some target ↦ elim (store_lost_chunks malloc target) [
      | none ↦ none
      | some stored ↦ some (record peer { packet_sending = some stored })
    ]
  ]

  -- `case SUCCESSFULLY_RECEIVED_PACKET`
  pub on_successfully_received : Peer → Peer
  on_successfully_received peer = elim peer.packet_sending [
    | none ↦ peer
    | some target ↦ record peer {
      packet_sending = some (record target { updated = successfully_received });
    }
  ]

  -- `case PACKET_DELAY_UPDATE`, which follows the pointer without a test.
  pub on_packet_delay_update : Peer → Option Peer
  on_packet_delay_update peer = elim peer.packet_sending [
    | none ↦ none
    | some target ↦ elim packet.payload [
      | [] ↦ none
      | status ∷ _ ↦
          let current_delay =
            if status == 1
            then target.current_send_delay / 6 * 7 % 2 ^ 32
            else target.current_send_delay / 6 * 5 in
          some (record peer {
            packet_sending = some (record target { current_send_delay = current_delay });
          })
    ]
  ]

module _ (checksum_of : PacketInfo → List ℕ → ℕ) where
  -- `HANDLE_CHECKSUM` of an answer.
  abbrev pub with_checksum : Packet → Packet
  with_checksum packet = record packet {
    packet_info = record packet.packet_info {
      checksum = checksum_of packet.packet_info packet.payload;
    };
  }

  -- The checks in front of the `switch`: the port, and the checksum where it is looked at. The
  -- packet is looked at with its checksum set to 0.
  unfoldable pub is_for_me : Host → ℕ → Packet → Bool
  unfolding is_private_ip
  is_for_me host data_read packet =
      let cleared = record packet.packet_info { checksum = 0 } in
      let data_size = data_read - sizeof_ip - host.prepend_size in
      if not (packet.packet_info.port_info.destination_port == host.source_port)
      then false
      else if ltb (sizeof_ip + host.prepend_size) data_read
          && not (packet.ip_header.ip_src == packet.ip_header.ip_dst)
          && not (is_private_ip packet.ip_header.ip_src)
          && is_private_ip packet.ip_header.ip_dst
      then not (
          not (packet.ip_header.ip_sum == 0)
          && not (
              checksum_of cleared (read packet.payload 0 (data_size - sizeof_packet_info))
              == packet.packet_info.checksum))
      else true

  module _ (host : Host) (packet : Packet) where
    -- The ports of an answer.
    abbrev answer_ports : PortInfo
    answer_ports = record {
      destination_port = packet.packet_info.port_info.source_port;
      source_port = packet.packet_info.port_info.destination_port;
    }

    -- An answer to the sender of the packet.
    unfoldable pub answer : ℕ → ℕ → ℕ → ℕ → PortInfo → List ℕ → Packet
    unfolding construct_ip_header construct_packet_info
    answer packet_size packet_id packet_length packet_type ports payload = with_checksum record {
      ip_header =
          construct_ip_header host.private_ip_address packet.ip_header.ip_src packet_size packet_id;
      packet_info =
          construct_packet_info host.maximum_transmission_unit packet_length packet_type 1 0 ports;
      payload = payload;
    }

    -- `case REQUEST_INFORMATION`; `random` is what `rand` gives.
    unfoldable pub on_request_information : ℕ → Peer → Peer
    unfolding answer
    on_request_information random peer = record peer {
      answers =
          peer.answers
          ++ (answer packet_header_size (random % 2 ^ 16) sizeof_server_information
                request_information (record answer_ports { source_port = host.source_port })
                (server_information host)
              ∷ []);
    }

    -- `signal_delay_change`
    pub signal_delay_change : Bool → Packet
    unfolding answer
    signal_delay_change status =
        answer (packet_header_size + 1) packet.ip_header.ip_id 1 packet_delay_update
          (record answer_ports { source_port = host.source_port }) (delay_status status ∷ [])

    -- The answer to `SEND_LOST_PACKETS_REQUEST` for a message that is pending.
    unfoldable pub lost_packets_answer : List ℕ → Packet
    unfolding answer bytes_of_words
    lost_packets_answer lost =
        answer ((packet_header_size + length lost * 4) % 2 ^ 16) packet.ip_header.ip_id
          (length lost * 4) send_lost_packets_response answer_ports (bytes_of_words lost)

    -- The answer to `SEND_LOST_PACKETS_REQUEST` for a message that is completed.
    pub received_answer : Packet
    unfolding answer
    received_answer =
        answer packet_header_size packet.ip_header.ip_id 0 successfully_received_packet answer_ports
          []

    -- The list sent for a pending message.
    unfoldable pub send_lost_packets : PendingMessage → Peer → List ℕ → Peer
    send_lost_packets message peer lost = record peer {
      conversation = record peer.conversation {
        pending_message = some (record message { sending_lost_packets = true });
      };
      answers = peer.answers ++ (lost_packets_answer lost ∷ []);
    }

    -- `case SEND_LOST_PACKETS_REQUEST`
    unfoldable pub on_lost_packets_request : Peer → Option Peer
    unfolding send_lost_packets
    on_lost_packets_request peer =
        let case_mtu =
          min_of packet.packet_info.maximum_transmission_unit host.maximum_transmission_unit in
        elim peer.conversation.pending_message [
          | none ↦ some (
              if peer.conversation.completed
              then record peer { answers = peer.answers ++ (received_answer ∷ []) }
              else peer)
          | some message ↦ Option.map (send_lost_packets message peer) (
              return_lost_chunk_indexes message.chunks_received message.chunk_amount
                ((case_mtu + 2 ^ 32 - packet_header_size) % 2 ^ 32))
        ]

    -- The code behind the `switch`: `receive_data`, with the delay changes that it asks for sent.
    unfoldable pub on_data : (ℕ → List ℕ) → (ℕ → ℕ → Bool) → Peer → Option Peer
    on_data malloc ratio_above peer =
        let before = length peer.conversation.delay_changes in
        elim (receive_data malloc ratio_above host.maximum_transmission_unit packet.packet_info
          packet.payload peer.conversation) [
            | none ↦ none
            | some conversation ↦ some (record peer {
              conversation = conversation;
              answers =
                  peer.answers ++ map signal_delay_change (drop before conversation.delay_changes);
            })
          ]

    -- The `switch`.
    unfoldable pub on_packet : (ℕ → List ℕ) → (ℕ → ℕ → Bool) → ℕ → Peer → Option Peer
    on_packet malloc ratio_above random peer =
        let packet_type = packet.packet_info.packet_type in
        if packet_type == request_information
        then some (on_request_information random peer)
        else if packet_type == send_lost_packets_request
        then on_lost_packets_request peer
        else if packet_type == send_lost_packets_response
        then on_lost_packets_response host packet malloc peer
        else if packet_type == successfully_received_packet
        then some (on_successfully_received host packet peer)
        else if packet_type == packet_delay_update
        then on_packet_delay_update host packet peer
        else on_data malloc ratio_above peer

  -- From `process_packet` to `next_packet`.
  unfoldable pub process_packet :
      (ℕ → List ℕ) → (ℕ → ℕ → Bool) → Host → ℕ → ℕ → Packet → Peer → Option Peer
  unfolding is_for_me
  process_packet malloc ratio_above host random data_read packet peer =
      if is_for_me host data_read packet
      then on_packet host packet malloc ratio_above random peer
      else some peer
