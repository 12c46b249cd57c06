-- ===== src/Control/Peers.antt =====
-- What src/process_packets.c reads of the host that it runs on, the entry of `packets_sending` that
-- control packets change (`SwiftNetPacketSending` of src/swift_net.h), and the state that one packet
-- id and one sender have at a host.
use swift_net.Base.{ℕ, Option, List}
use swift_net.Packet.{Packet}
use swift_net.Receive.{Conversation}

-- The globals `maximum_transmission_unit` and `private_ip_address`, and what a connection passes to
-- `swiftnet_process_packets`.
pub record Host : Type 0 where
  pub maximum_transmission_unit : ℕ
  pub private_ip_address : ℕ
  pub source_port : ℕ
  pub prepend_size : ℕ

-- `SwiftNetPacketSendingUpdated`
pub data Updated : Type 0 where
  no_update : Updated
  updated_lost_chunks : Updated
  successfully_received : Updated

-- `SwiftNetPacketSending`; `lost_chunks` is the bytes of the buffer, `none` for a null pointer.
pub record PacketSending : Type 0 where
  pub lost_chunks : Option (List ℕ)
  pub lost_chunks_size : ℕ
  pub updated : Updated
  pub current_send_delay : ℕ
  pub packet_id : ℕ

-- Under one packet id: what is received from one sender, the entry of `packets_sending`, and the
-- packets that the host has sent in answer.
pub record Peer : Type 0 where
  pub conversation : Conversation
  pub packet_sending : Option PacketSending
  pub answers : List Packet
