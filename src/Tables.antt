-- ===== src/Tables.antt =====
-- The tables of a connection in src/process_packets.c and src/send_packet.c, on the hash map of
-- Hashmap: pending messages and completed packets are keyed by the port of the sender and the packet
-- id, packets that are being sent by their id. Every function runs under the lock of its table. A
-- value is the address of an entry.
pub mod Keyed
mod Tests
use swift_net.Base.{ℕ, Bool, Option, List, ◌++◌}
use swift_net.Base.Buffer.{little_endian}
use swift_net.Hashmap.{HashMap, create, get, insert, remove, is_some}

pub record Tables : Type 0 where
  pub pending_messages : HashMap ℕ
  pub packets_completed : HashMap ℕ
  pub packets_sending : HashMap ℕ

-- The bytes of a `PendingMessagesKey`, and of a `PacketCompletedKey`.
abbrev pub key_bytes : ℕ → ℕ → List ℕ
key_bytes source_port packet_id = little_endian 2 source_port ++ little_endian 2 packet_id

-- As a connection is set up.
abbrev pub created : ℕ → Tables
created memory_usage = record {
  pending_messages = create memory_usage;
  packets_completed = create memory_usage;
  packets_sending = create memory_usage;
}

module _ (seed : ℕ) where
  -- `get_pending_message`
  unfoldable pub get_pending_message : ℕ → ℕ → Tables → Option ℕ
  get_pending_message packet_id source_port tables =
      get seed (key_bytes source_port packet_id) tables.pending_messages

  -- `check_packet_already_completed`
  unfoldable pub check_packet_already_completed : ℕ → ℕ → Tables → Bool
  check_packet_already_completed packet_id source_port tables =
      is_some (get seed (key_bytes source_port packet_id) tables.packets_completed)

  -- `get_packet_sending`
  unfoldable pub get_packet_sending : ℕ → Tables → Option ℕ
  get_packet_sending target_id tables = get seed (little_endian 2 target_id) tables.packets_sending

  -- The insertion of `create_new_pending_message`.
  unfoldable pub insert_pending_message : ℕ → ℕ → ℕ → Tables → Tables
  insert_pending_message packet_id source_port pending_message tables = record tables {
    pending_messages =
        insert seed (key_bytes source_port packet_id) pending_message tables.pending_messages;
  }

  -- The removal by `handle_request_response`, and by the callback thread.
  unfoldable pub remove_pending_message : ℕ → ℕ → Tables → Tables
  remove_pending_message packet_id source_port tables = record tables {
    pending_messages = remove seed (key_bytes source_port packet_id) tables.pending_messages;
  }

  -- `packet_completed`
  unfoldable pub packet_completed : ℕ → ℕ → ℕ → Tables → Tables
  packet_completed packet_id source_port new_packet_completed tables = record tables {
    packets_completed =
        insert seed (key_bytes source_port packet_id) new_packet_completed tables.packets_completed;
  }

  -- The removal by `cleanup_packets_completed`, of a message that its round before has marked.
  unfoldable pub remove_packet_completed : ℕ → ℕ → Tables → Tables
  remove_packet_completed packet_id source_port tables = record tables {
    packets_completed = remove seed (key_bytes source_port packet_id) tables.packets_completed;
  }

  -- The insertion of `swiftnet_send_packet`.
  unfoldable pub insert_packet_sending : ℕ → ℕ → Tables → Tables
  insert_packet_sending packet_id new_packet_sending tables = record tables {
    packets_sending =
        insert seed (little_endian 2 packet_id) new_packet_sending tables.packets_sending;
  }

  -- The removal by `handle_lost_packets`, once the packet has been received.
  unfoldable pub remove_packet_sending : ℕ → Tables → Tables
  remove_packet_sending packet_id tables = record tables {
    packets_sending = remove seed (little_endian 2 packet_id) tables.packets_sending;
  }
