-- ===== src/Callback.antt =====
-- The thread that hands packets to the user: execute_packet_callback of
-- src/execute_packet_callback.c, the loop of Handoff around what it does with a node; and
-- pass_callback_execution of src/process_packets.c, which passes nodes on to it.
pub mod Ordered
mod Tests
use mathlib.Core.Option
use swift_net.Base.{
  ℕ, ◌≡◌, Bool, true, false, Option, none, some, List, [], ◌∷◌, ◌++◌, ◌==◌, if◌then◌else◌,
}
use swift_net.Base.Buffer.{little_endian}
use swift_net.Queue.{Ptr, null, Memory}
use swift_net.Hashmap.{HashMap, remove}
use swift_net.Handoff.{System, initial, thread_step, pass, Reach}

-- `PendingMessagesKey`, as it is read out of a pending message.
pub record PendingMessagesKey : Type 0 where
  pub source_port : ℕ
  pub packet_id : ℕ

-- `SwiftNetPacketCallbackQueueNode`, but its link; for the pending message, what is read of it.
pub record Callback : Type 0 where
  pub packet_data : Ptr
  pub pending_message : Option PendingMessagesKey
  pub packet_id : ℕ

-- What becomes of a packet: the user's handler gets it, or it is destroyed as there is no handler.
pub data Fate : Type 0 where
  called : (packet_handler packet_data user_data : Ptr) → Fate
  destroyed : (packet_data : Ptr) → Fate

-- What the thread uses of the connection, with what became of the packets so far.
pub record Connection : Type 0 where
  pub packet_handler : Ptr
  pub user_data : Ptr
  pub pending_messages : HashMap Ptr
  pub outcomes : List Fate

-- The bytes of a `PendingMessagesKey`
abbrev pub bytes_of_key : PendingMessagesKey → List ℕ
bytes_of_key key = little_endian 2 key.source_port ++ little_endian 2 key.packet_id

-- What is at `execute_callback`
abbrev pub outcome_of : Ptr → Connection → Fate
outcome_of packet_data connection =
    if connection.packet_handler == null
    then destroyed packet_data
    else called connection.packet_handler packet_data connection.user_data

module _ (seed : ℕ) where
  -- `remove_pending_message_from_hashmap`
  pub remove_pending_message_from_hashmap : PendingMessagesKey → HashMap Ptr → HashMap Ptr
  remove_pending_message_from_hashmap key pending_messages =
      remove seed (bytes_of_key key) pending_messages

  -- The `if (current_node->pending_message != NULL)`
  abbrev pub forget : Option PendingMessagesKey → HashMap Ptr → HashMap Ptr
  forget none pending_messages = pending_messages
  forget (some key) pending_messages = remove_pending_message_from_hashmap key pending_messages

  -- From the load of the handler to `next`, in one step: the handler and its argument are taken as
  -- they are at the same moment.
  unfoldable pub execute_callback : Callback → Connection → Option Connection
  execute_callback node connection =
      if node.packet_data == null
      then some connection
      else some (record connection {
        pending_messages = forget node.pending_message connection.pending_messages;
        outcomes = connection.outcomes ++ (outcome_of node.packet_data connection ∷ []);
      })

  -- A step of the loop of `execute_packet_callback`.
  unfoldable pub execute_packet_callback :
      System Callback Connection → Option (System Callback Connection)
  execute_packet_callback s = thread_step execute_callback s

-- `pass_callback_execution`, up to the test of `executing_packets`.
unfoldable pub pass_callback_execution :
    Ptr
    → Ptr
    → Option PendingMessagesKey
    → ℕ
    → System Callback Connection
    → Option (System Callback Connection)
pass_callback_execution node packet_data pending_message packet_id s =
    pass node
      (record {
        packet_data = packet_data;
        pending_message = pending_message;
        packet_id = packet_id;
      })
      s

-- What the threads that are not modelled here change: the two stores of
-- `swiftnet_client_set_message_handler` and `swiftnet_server_set_message_handler`, and the pending
-- messages.
pub data Other (connection : Connection) : Connection → Type 0 where
  set_packet_handler :
      (new_handler : Ptr) → Other connection (record connection { packet_handler = new_handler })
  set_user_data : (user_arg : Ptr) → Other connection (record connection { user_data = user_arg })
  set_pending_messages :
      (pending_messages : HashMap Ptr)
      → Other connection (record connection { pending_messages = pending_messages })
