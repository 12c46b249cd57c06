-- ===== src/Processing/Tests.antt =====
-- A frame is captured, and in the hand of the processing thread.
use mathlib.Core.Option
use swift_net.Base.{
  ℕ, ◌%◌, ◌≡◌, refl, none, some, Option, List, [], ◌∷◌, ◌++◌, length, replicate, false, leb, arith,
}
use swift_net.Queue.{
  Ptr, Memory, write, empty, link_last, insert_queue_node, construct_node, wait_for_next_packet,
}
use swift_net.Queue.Links.{Holds, empty-Absent}
use swift_net.Control.Peers.{Host, Peer}
use swift_net.Receive.Delivery.{idle}
use swift_net.Routing.{Queued}
use swift_net.Transfer.{captured}
use swift_net.Handoff.{
  System, initial, Reach, start, later, on_pass, on_passed, on_thread, took, inserted, ready, pass,
  pass_step, thread_step,
}
use swift_net.Handoff.Order.{InHand}
use swift_net.Processing.{Peers, process_frames, process_node, swiftnet_process_packets}
use swift_net.Processing.Ordered.{Unshared, frames_of, reached-swiftnet_process_packets}

abbrev server : Host
server = record {
  maximum_transmission_unit = 60;
  private_ip_address = 0x0100000a;
  source_port = 8080;
  prepend_size = 4;
}

abbrev peer : Peer
peer = record { conversation = idle false; packet_sending = none; answers = [] }

abbrev sum_of : List ℕ → ℕ
sum_of bytes = length bytes % 256

abbrev zeros : ℕ → List ℕ
zeros n = replicate n 0

abbrev peers : Peers
peers = record {
  conversations = λ port id. peer.conversation;
  requests_sent = λ id. false;
  packets_sending = λ id. none;
  answers = [];
}

abbrev no_nodes : Memory Queued
no_nodes p = none

abbrev frame : Queued
frame = captured (zeros 100) 0 (replicate 40 1 ++ (0x90 ∷ 0x1f ∷ replicate 18 1))

abbrev Reached : List (Ptr × Queued) → System Queued (Option Peers) → Type 0
Reached = Reach (process_node sum_of zeros leb server 7) Unshared no_nodes (some peers)

abbrev one_frame : System Queued (Option Peers)
one_frame = record (initial no_nodes (some peers)) {
  queue = record { first_node = 3; last_node = 3 };
  memory = write no_nodes 3 (record { payload = frame; next = 0 });
  passing = inserted;
}

one_frame-Reach : Reached ((3, frame) ∷ []) one_frame
unfolding pass insert_queue_node construct_node link_last
one_frame-Reach = later start (
    on_pass 3 frame refl
      (record {
        some_node = omega arith;
        unqueued = empty-Absent no_nodes 3;
        untaken = λ e. ground arith;
      })
      refl)

abbrev taken : System Queued (Option Peers)
taken = record one_frame { queue = empty; pc = took 3; passing = ready }

taken-Reach : Reached ((3, frame) ∷ []) taken
unfolding pass_step thread_step wait_for_next_packet
taken-Reach = later (later one_frame-Reach on_passed) (on_thread refl)

reached-swiftnet_process_packets_example :
    ((t : System Queued (Option Peers)) × (swiftnet_process_packets sum_of zeros leb server 7 taken
        ≡ some t))
    × (done : List (Ptr × Queued)) × (hand : List (Ptr × Queued)) × (queued : List (Ptr × Queued))
    × ((3, frame) ∷ [] ≡ done ++ (hand ++ queued))
    × InHand (took 3) taken.memory queued hand
    × Holds taken.memory empty queued
    × (some peers ≡ process_frames sum_of zeros leb server 7 (frames_of done) peers)
reached-swiftnet_process_packets_example =
    reached-swiftnet_process_packets sum_of zeros leb server 7 no_nodes peers ((3, frame) ∷ [])
      taken taken-Reach
