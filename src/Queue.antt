-- ===== src/Queue.antt =====
-- The two queues that hand packets from thread to thread: `SwiftNetPacketQueue` (insert_queue_node
-- of src/handle_packets.c, wait_for_next_packet of src/process_packets.c) and
-- `SwiftNetPacketCallbackQueue` (insert_callback_queue_node of src/process_packets.c,
-- wait_for_next_packet_callback of src/execute_packet_callback.c). They differ in what a node
-- carries, which is a parameter here. Every function runs under the queue's lock, so it is one step.
pub mod Links
pub mod Fifo
mod Tests
use swift_net.Base.{ℕ, Option, none, some, Bool, true, false, ◌==◌, if◌then◌else◌, List}

abbrev pub Ptr : Type 0
Ptr = ℕ

abbrev pub null : Ptr
null = 0

-- `SwiftNetPacketQueueNode`, `SwiftNetPacketCallbackQueueNode`
pub record Node (P : Type 0) : Type 0 where
  pub payload : P
  pub next : Ptr

-- `SwiftNetPacketQueue`, `SwiftNetPacketCallbackQueue`
pub record Queue : Type 0 where
  pub first_node : Ptr
  pub last_node : Ptr

abbrev pub Memory : Type 0 → Type 0
Memory P = Ptr → Option (Node P)

abbrev pub empty : Queue
empty = record { first_node = null; last_node = null }

module _ {P : Type 0} where
  abbrev pub write : Memory P → Ptr → Node P → Memory P
  write memory p node q = if q == p then some node else memory q

  -- A null pointer is not followed; a pointer to no node is a fault, `none`.
  unfoldable pub link_last : Ptr → Queue → Memory P → Option (Memory P)
  link_last new_node queue memory =
      if queue.last_node == null then some memory else elim (memory queue.last_node) [
        | none ↦ none
        | some node ↦ some (write memory queue.last_node (record node { next = new_node }))
      ]

  -- `insert_queue_node`
  unfoldable pub insert_queue_node : Ptr → Queue → Memory P → Option (Queue × Memory P)
  unfolding link_last
  insert_queue_node new_node queue memory =
      if new_node == null then some (queue, memory) else elim (link_last new_node queue memory) [
        | none ↦ none
        | some memory' ↦ some (
          record {
            first_node = if queue.first_node == null then new_node else queue.first_node;
            last_node = new_node;
          },
          memory',
        )
      ]

  -- `insert_callback_queue_node`, the same statements on the other queue.
  pub insert_callback_queue_node : Ptr → Queue → Memory P → Option (Queue × Memory P)
  unfolding insert_queue_node
  insert_callback_queue_node new_node packet_queue memory =
      insert_queue_node new_node packet_queue memory

  -- `construct_node`: the node that the allocator gives is written with no successor.
  unfoldable pub construct_node : Ptr → P → Memory P → Memory P
  construct_node node payload memory = write memory node (record { payload = payload; next = null })

  -- `wait_for_next_packet`
  unfoldable pub wait_for_next_packet : Queue → Memory P → Option (Ptr × Queue)
  wait_for_next_packet queue memory =
      if queue.first_node == null then some (null, queue) else elim (memory queue.first_node) [
        | none ↦ none
        | some node_to_process ↦
            if node_to_process.next == null
            then some (queue.first_node, empty)
            else some (queue.first_node, record queue { first_node = node_to_process.next })
      ]

  -- `wait_for_next_packet_callback`, the same statements on the other queue.
  pub wait_for_next_packet_callback : Queue → Memory P → Option (Ptr × Queue)
  unfolding wait_for_next_packet
  wait_for_next_packet_callback packet_queue memory = wait_for_next_packet packet_queue memory
