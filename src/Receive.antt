-- ===== src/Receive.antt =====
-- What src/process_packets.c does with a packet that carries data. The tables of pending messages
-- and of completed packets are keyed by the packet id and the port of the sender; the model is of
-- one key: what the tables hold under it, and what has been handed to the user or the requester.
-- `none` is an access outside of a buffer, or to bytes that the packet has not brought.
pub mod Marks
pub mod Place
pub mod Message
pub mod Delivery
pub mod Once
pub mod Multiple
pub mod Alone
mod Tests
use swift_net.Base.{
  ℕ, ◌+◌, ◌-◌, ◌*◌, ◌/◌, ◌%◌, ◌^◌, Bool, true, false, ◌&&◌, not, Option, none, some, List, [], ◌∷◌,
  ◌++◌, length, replicate, ltb, leb, ◌==◌, if◌then◌else◌,
}
use swift_net.Base.Buffer.{memcpy, read}
use swift_net.Chunks.{chunk_already_received, chunk_received}
use swift_net.Packet.{PacketInfo, min_of}
use swift_net.Packet.PacketType.{response}
use swift_net.Send.{chunk_data_size}

-- `SwiftNetPendingMessage`, its two buffers in place of pointers to them. Of its packet info only
-- the chunk amount is read again.
pub record PendingMessage : Type 0 where
  pub chunk_amount : ℕ
  pub chunks_received : List ℕ
  pub packet_data : List ℕ
  pub chunks_received_number : ℕ
  pub last_index_checked : ℕ
  pub last_chunks_received_number : ℕ
  pub sending_lost_packets : Bool

-- Under one key: whether `packets_completed_history` has it, its pending message, whether
-- `requests_sent` has its packet id, the messages handed on, and the delay changes signalled to the
-- sender (`true` for LOWER_DELAY).
pub record Conversation : Type 0 where
  pub completed : Bool
  pub pending_message : Option PendingMessage
  pub request_sent : Bool
  pub delivered : List (List ℕ)
  pub delay_changes : List Bool

-- `memcpy (buffer + at) packet_data size`
pub copy_from_packet : List ℕ → ℕ → List ℕ → ℕ → Option (List ℕ)
copy_from_packet buffer at packet_data size =
    if leb size (length packet_data) && leb (at + size) (length buffer)
    then some (memcpy buffer at (read packet_data 0 size))
    else none

-- `create_new_pending_message`; `malloc` gives the bytes that happen to be there.
pub create_new_pending_message : (ℕ → List ℕ) → PacketInfo → PendingMessage
create_new_pending_message malloc packet_info = record {
  chunk_amount = packet_info.chunk_amount;
  chunks_received = replicate ((packet_info.chunk_amount + 7) % 2 ^ 32 / 8) 0;
  packet_data = malloc packet_info.packet_length;
  chunks_received_number = 0;
  last_index_checked = 0;
  last_chunks_received_number = 0;
  sending_lost_packets = false;
}

-- The bytes of a chunk and its mark in a pending message.
pub store_chunk : ℕ → ℕ → List ℕ → ℕ → PendingMessage → Option PendingMessage
store_chunk at index packet_data size message =
    elim (copy_from_packet message.packet_data at packet_data size) [
      | none ↦ none
      | some stored ↦ elim (chunk_received message.chunks_received index) [
        | none ↦ none
        | some marked ↦ some (record message {
          packet_data = stored;
          chunks_received = marked;
          chunks_received_number = (message.chunks_received_number + 1) % 2 ^ 32;
        })
      ]
    ]

-- The rate limiting at a chunk that does not complete its message. The quotient of floats that is
-- compared with 0.95 is a parameter.
pub check_rate : (ℕ → ℕ → Bool) → ℕ → PendingMessage → PendingMessage × List Bool
check_rate ratio_above index message =
    let new_packets = (index + 2 ^ 32 - message.last_index_checked) % 2 ^ 32 in
    let new_packets_validated =
      (message.chunks_received_number + 2 ^ 32 - message.last_chunks_received_number) % 2 ^ 32 in
    if not message.sending_lost_packets && ltb 50 new_packets
    then (
      record message {
        last_chunks_received_number = message.chunks_received_number;
        last_index_checked = index;
      },
      ratio_above new_packets_validated new_packets ∷ [],
    )
    else (message, [])

-- `handle_request_response` for a response, which is dropped where no request waits for it;
-- `pass_callback_execution` for any other packet.
pub hand_on : PacketInfo → List ℕ → Conversation → Conversation
hand_on packet_info message conversation =
    if packet_info.packet_type == response
    then if conversation.request_sent
      then record conversation {
        request_sent = false;
        pending_message = none;
        delivered = conversation.delivered ++ (message ∷ []);
      }
      else conversation
    else record conversation { delivered = conversation.delivered ++ (message ∷ []) }

-- The first chunk of a message to arrive: its bytes go to the start.
pub receive_first : (ℕ → List ℕ) → ℕ → PacketInfo → List ℕ → Conversation → Option Conversation
receive_first malloc size packet_info packet_data conversation =
    elim (store_chunk 0 packet_info.chunk_index packet_data size
      (create_new_pending_message malloc packet_info)) [
        | none ↦ none
        | some message ↦ some (record conversation { pending_message = some message })
      ]

-- A later chunk.
pub receive_next :
    (ℕ → ℕ → Bool) → ℕ → PacketInfo → List ℕ → PendingMessage → Conversation → Option Conversation
receive_next ratio_above size packet_info packet_data message conversation =
    let index = packet_info.chunk_index in
    let bytes_to_write =
      if leb packet_info.chunk_amount ((index + 1) % 2 ^ 32)
      then packet_info.packet_length % size
      else size in
    let at = size * index % 2 ^ 32 in
    let rated = check_rate ratio_above index message in
    elim (chunk_already_received message.chunks_received index) [
      | none ↦ none
      | some true ↦ some conversation
      | some false ↦
          if (message.chunks_received_number + 1) % 2 ^ 32 == packet_info.chunk_amount
          then elim (store_chunk at index packet_data bytes_to_write message) [
            | none ↦ none
            | some message' ↦ some (
                hand_on packet_info (read message'.packet_data 0 packet_info.packet_length)
                  (record conversation { completed = true; pending_message = some message' }))
          ]
          else elim (store_chunk at index packet_data bytes_to_write rated.0) [
            | none ↦ none
            | some message' ↦ some (record conversation {
              pending_message = some message';
              delay_changes = conversation.delay_changes ++ rated.1;
            })
          ]
    ]

-- The code from `check_packet_already_completed` on.
pub receive_data :
    (ℕ → List ℕ) → (ℕ → ℕ → Bool) → ℕ → PacketInfo → List ℕ → Conversation → Option Conversation
receive_data malloc ratio_above maximum_transmission_unit packet_info packet_data conversation =
    let size =
      chunk_data_size (min_of packet_info.maximum_transmission_unit maximum_transmission_unit) in
    if conversation.completed then some conversation else elim conversation.pending_message [
      | some message ↦ receive_next ratio_above size packet_info packet_data message conversation
      | none ↦
          if ltb size packet_info.packet_length
          then receive_first malloc size packet_info packet_data conversation
          else some (
              hand_on packet_info (read packet_data 0 packet_info.packet_length)
                (record conversation { completed = true }))
    ]
