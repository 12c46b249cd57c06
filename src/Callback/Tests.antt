-- ===== src/Callback/Tests.antt =====
-- One packet is handed to the user; then the thread goes to sleep.
use swift_net.Base.{◌≡◌, refl, none, some, false, List, [], ◌∷◌, ◌++◌, map, arith}
use swift_net.Queue.{
  Ptr, Memory, write, empty, link_last, insert_queue_node, construct_node, wait_for_next_packet,
}
use swift_net.Queue.Links.{Holds, empty-Absent}
use swift_net.Hashmap.{create}
use swift_net.Handoff.{
  System, initial, Reach, start, later, on_pass, on_thread, on_passed, pass, pass_step, thread_step,
  took, check_packet, idling, asleep, inserted, ready, joining, run,
}
use swift_net.Handoff.Order.{InHand}
use swift_net.Handoff.Missed.{idling-Reach, asleep-Reach}
use swift_net.Callback.{
  Callback, Connection, called, execute_callback, execute_packet_callback, pass_callback_execution,
  Other,
}
use swift_net.Callback.Ordered.{
  packets_of, packet_data_of, reached-execute_packet_callback, pass_callback_execution-wakes,
  execute_packet_callback-misses,
}

abbrev no_nodes : Memory Callback
no_nodes p = none

abbrev connection : Connection
connection = record {
  packet_handler = 7;
  user_data = 8;
  pending_messages = create 1;
  outcomes = [];
}

abbrev packet : Callback
packet = record { packet_data = 9; pending_message = none; packet_id = 1 }

abbrev one_packet : System Callback Connection
one_packet = record (initial no_nodes connection) {
  queue = record { first_node = 3; last_node = 3 };
  memory = write no_nodes 3 (record { payload = packet; next = 0 });
  passing = inserted;
}

abbrev taken : System Callback Connection
taken = record one_packet { queue = empty; pc = took 3; passing = ready }

abbrev handled : System Callback Connection
handled = record taken {
  pc = check_packet;
  work = record connection { outcomes = called 7 9 8 ∷ [] };
}

abbrev sleeping : System Callback Connection
sleeping = record handled { executing = false; pc = asleep; idle_stage = 255 }

abbrev Reached : List (Ptr × Callback) → System Callback Connection → Type 0
Reached = Reach (execute_callback 11) Other no_nodes connection

one_packet-Reach : Reached ((3, packet) ∷ []) one_packet
unfolding pass insert_queue_node construct_node link_last
one_packet-Reach = later start (
    on_pass 3 packet refl
      (record {
        some_node = omega arith;
        unqueued = empty-Absent no_nodes 3;
        untaken = λ e. ground arith;
      })
      refl)

taken-Reach : Reached ((3, packet) ∷ []) taken
unfolding pass_step thread_step wait_for_next_packet
taken-Reach = later (later one_packet-Reach on_passed) (on_thread refl)

handled-Reach : Reached ((3, packet) ∷ []) handled
unfolding thread_step execute_callback
handled-Reach = later taken-Reach (on_thread refl)

idling-Reached : Reached ((3, packet) ∷ []) (record handled { pc = idling; idle_stage = 255 })
idling-Reached =
    idling-Reach (execute_callback 11) Other 255 handled handled-Reach (omega arith) refl
      (refl, refl)

reached-execute_packet_callback_example :
    ((t : System Callback Connection) × (execute_packet_callback 11 taken ≡ some t))
    × (hand : List (Ptr × Callback)) × (queued : List (Ptr × Callback)) × InHand
        (took 3)
        taken.memory
        queued
        hand
    × Holds taken.memory empty queued
    × (9 ∷ [] ≡ packets_of (hand ++ queued))
reached-execute_packet_callback_example =
    reached-execute_packet_callback 11 no_nodes connection ((3, packet) ∷ []) taken refl taken-Reach

-- The node that has been given back is used again.
pass_callback_execution-wakes_example :
    (t : System Callback Connection) × (u : System Callback Connection) × (pass_callback_execution 3
        10 none 2 sleeping
      ≡ some t)
    × (run (execute_callback 11) 264 (pass_step (pass_step t)) ≡ some u)
    × (u.pc ≡ asleep)
    × Holds u.memory u.queue []
    × (map packet_data_of u.work.outcomes ≡ 9 ∷ 10 ∷ [])
pass_callback_execution-wakes_example =
    pass_callback_execution-wakes 11 no_nodes connection ((3, packet) ∷ []) sleeping 3 10 none 2 264
      refl
      (asleep-Reach (execute_callback 11) Other (record handled { pc = idling; idle_stage = 255 })
        idling-Reached refl)
      refl refl
      (record {
        some_node = omega arith;
        unqueued = empty-Absent sleeping.memory 3;
        untaken = λ e. ground arith;
      })
      (omega arith)

execute_packet_callback-misses_example :
    ((t : System Callback Connection) × Reached ((3, packet) ∷ (4, packet) ∷ []) t
      × (t.work.outcomes ≡ called 7 9 8 ∷ [])
      × (t.passing ≡ ready)
      × (t.pc ≡ asleep)
      × (run (execute_callback 11) 1000 t ≡ some t)
      × ((queued : List (Ptr × Callback)) × Holds t.memory t.queue (queued ++ ((4, packet) ∷ []))))
    × ((t : System Callback Connection) × Reached ((3, packet) ∷ []) t
        × (t.closer ≡ joining)
        × (t.pc ≡ asleep)
        × (run (execute_callback 11) 1000 t ≡ some t))
execute_packet_callback-misses_example =
    execute_packet_callback-misses 11 no_nodes connection ((3, packet) ∷ [])
      (record handled { pc = idling; idle_stage = 255 }) 4 packet 1000 refl idling-Reached refl refl
      refl
      (record {
        some_node = omega arith;
        unqueued = empty-Absent handled.memory 4;
        untaken = λ e. ground arith;
      })
