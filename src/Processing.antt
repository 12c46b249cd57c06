-- ===== src/Processing.antt =====
-- The thread that processes packets: swiftnet_process_packets of src/process_packets.c, the loop of
-- Handoff around the step of Control, which is on what the tables have under the source port and the
-- packet id of each frame; Tables has them as hash maps. The capture thread passes nodes on
-- to it (insert_node and unlock_processing_thread of src/handle_packets.c).
pub mod Ordered
pub mod Keyed
mod Tests
use swift_net.Base.{ℕ, Bool, ◌&&◌, Option, none, some, List, [], ◌∷◌, ◌==◌, if◌then◌else◌}
use swift_net.Queue.{Ptr}
use swift_net.Control.{process_packet}
use swift_net.Control.Peers.{Host, Peer, PacketSending}
use swift_net.Packet.{Packet}
use swift_net.Receive.{Conversation}
use swift_net.Routing.{Queued}
use swift_net.Transfer.{packet_of, checksum_of}
use swift_net.Handoff.{System, thread_step, pass, pass_step}

-- What a host has: the messages by the source port and the packet id, the requests that wait and the
-- entries of `packets_sending` by the packet id alone, and all answers in order. Whether a request waits
-- stands in `requests_sent`, not in `conversations`.
pub record Peers : Type 0 where
  pub conversations : ℕ → ℕ → Conversation
  pub requests_sent : ℕ → Bool
  pub packets_sending : ℕ → Option PacketSending
  pub answers : List Packet

module _ (source_port packet_id : ℕ) where
  -- What the tables have under a key, and the tables with that changed.
  unfoldable pub peer_at : Peers → Peer
  peer_at peers = record {
    conversation = record (peers.conversations source_port packet_id) {
      request_sent = peers.requests_sent packet_id;
    };
    packet_sending = peers.packets_sending packet_id;
    answers = peers.answers;
  }

  unfoldable pub with_peer : Peer → Peers → Peers
  with_peer peer peers = record {
    conversations = λ port id.
        if port == source_port && id == packet_id
        then peer.conversation
        else peers.conversations port id;
    requests_sent =
        λ id. if id == packet_id then peer.conversation.request_sent else peers.requests_sent id;
    packets_sending =
        λ id. if id == packet_id then peer.packet_sending else peers.packets_sending id;
    answers = peer.answers;
  }

module _ (crc32 : List ℕ → ℕ) (malloc : ℕ → List ℕ) (ratio_above : ℕ → ℕ → Bool) (host : Host)
    (random : ℕ) where
  -- The step at a frame, on what is under a key.
  unfoldable pub process_at : ℕ → ℕ → Queued → Peers → Option Peers
  unfolding peer_at with_peer
  process_at source_port packet_id node peers =
      elim (process_packet (checksum_of crc32) malloc ratio_above host random node.data_read
        (packet_of host.prepend_size node) (peer_at source_port packet_id peers)) [
          | none ↦ none
          | some after ↦ some (with_peer source_port packet_id after peers)
        ]

  -- The step at a frame, on what is under its own port and id.
  unfoldable pub process_frame : Queued → Peers → Option Peers
  unfolding process_at
  process_frame node peers =
      let packet = packet_of host.prepend_size node in
      process_at packet.packet_info.port_info.source_port packet.ip_header.ip_id node peers

  -- The loop over the frames of a queue.
  unfoldable pub process_frames : List Queued → Peers → Option Peers
  unfolding process_frame
  process_frames [] peers = some peers
  process_frames (node ∷ nodes) peers = elim (process_frame node peers) [
    | none ↦ none
    | some after ↦ process_frames nodes after
  ]

  -- From `idle_stage = 0` to `next_packet`. Once a packet has made a fault there is nothing any more.
  unfoldable pub process_node : Queued → Option Peers → Option (Option Peers)
  unfolding process_frame
  process_node node none = some none
  process_node node (some peers) = some (process_frame node peers)

  -- A step of the loop of `swiftnet_process_packets`.
  unfoldable pub swiftnet_process_packets :
      System Queued (Option Peers) → Option (System Queued (Option Peers))
  swiftnet_process_packets s = thread_step process_node s

-- `insert_node` of `swiftnet_handle_packets`; `unlock_processing_thread` is `pass_step`.
unfoldable pub insert_frame :
    Ptr → Queued → System Queued (Option Peers) → Option (System Queued (Option Peers))
insert_frame node frame s = pass node frame s
