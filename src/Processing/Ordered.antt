-- ===== src/Processing/Ordered.antt =====
-- Frames are processed in the order in which they were captured.
use mathlib.Core.List.{map-append}
use swift_net.Base.{
  ℕ, ◌+◌, ◌*◌, ◌≡◌, ◌≤◌, refl, sym, ap, ◌∙◌, Bool, false, Option, some, Option-cases, inl, inr,
  List, [], ◌∷◌, ◌++◌, map, length,
}
use swift_net.Queue.{Ptr, Memory}
use swift_net.Queue.Links.{Holds}
use swift_net.Control.Peers.{Host}
use swift_net.Routing.{Queued}
use swift_net.Handoff.{System, Reach, IsFresh, asleep, pass_step, run}
use swift_net.Handoff.Order.{Inv, InHand, thread_step-Inv}
use swift_net.Handoff.Passed.{Reach-Inv}
use swift_net.Handoff.Woken.{woken}
use swift_net.Processing.{
  Peers, process_frame, process_frames, process_node, swiftnet_process_packets, insert_frame,
}

abbrev pub frames_of : List (Ptr × Queued) → List Queued
frames_of nodes = map (λ x. x.1) nodes

-- No other thread changes the tables.
abbrev pub Unshared : Option Peers → Option Peers → Type 0
Unshared peers after = ⊥

module _ (crc32 : List ℕ → ℕ) (malloc : ℕ → List ℕ) (ratio_above : ℕ → ℕ → Bool) (host : Host)
    (random : ℕ) where
  process_frames-append :
      (nodes : List Queued) (node : Queued) (peers : Peers)
      → process_node crc32 malloc ratio_above host random node
          (process_frames crc32 malloc ratio_above host random nodes peers)
        ≡ some (process_frames crc32 malloc ratio_above host random (nodes ++ (node ∷ [])) peers)
  unfolding process_frames process_node
  process_frames-append [] node peers =
      elim (Option-cases (process_frame crc32 malloc ratio_above host random node peers)) [
        | inl fault ↦ rw (process_frames, fault) refl
        | inr (after, e) ↦ rw (process_frames, e) refl
      ]
  process_frames-append (first ∷ nodes) node peers =
      elim (Option-cases (process_frame crc32 malloc ratio_above host random first peers)) [
        | inl fault ↦ rw (process_frames, fault) refl
        | inr (after, e) ↦ rw (process_frames, e) (process_frames-append nodes node after)
      ]

  -- The tables are as the frames make them that the loop is done with.
  abbrev IsProcessed : Peers → List (Ptr × Queued) → Option Peers → Type 0
  IsProcessed peers done work =
      work ≡ process_frames crc32 malloc ratio_above host random (frames_of done) peers

  process_node-IsProcessed :
      (peers : Peers) (done : List (Ptr × Queued)) (p : Ptr) (node : Queued) (work : Option Peers)
      → IsProcessed peers done work
      → (after : Option Peers) × (process_node crc32 malloc ratio_above host random node work
          ≡ some after)
        × IsProcessed peers (done ++ ((p, node) ∷ [])) after
  process_node-IsProcessed peers done p node work h = (
    process_frames crc32 malloc ratio_above host random (frames_of done ++ (node ∷ [])) peers,
    ap (process_node crc32 malloc ratio_above host random node) h
        ∙ process_frames-append (frames_of done) node peers,
    ap (λ l. process_frames crc32 malloc ratio_above host random l peers)
        (sym (map-append (λ x. x.1) done ((p, node) ∷ []))),
  )

  Reach-IsProcessed :
      {memory : Memory Queued} {peers : Peers} {passed : List (Ptr × Queued)}
      {s : System Queued (Option Peers)}
      → Reach
          (process_node crc32 malloc ratio_above host random)
          Unshared
          memory
          (some peers)
          passed
          s
      → Inv (IsProcessed peers) passed s
  unfolding process_frames
  Reach-IsProcessed {memory} {peers} {passed} {s} r =
      Reach-Inv (process_node crc32 malloc ratio_above host random) Unshared (IsProcessed peers)
        (process_node-IsProcessed peers) (λ done work after o. absurd o) memory (some peers) passed
        s refl r

  -- Whatever the threads do, the queue and the loop around it make no fault; the frames captured are
  -- those that have been processed, then the one in the processing thread's hand, then those in its
  -- queue, and what the tables have is what processing the first of these, one after the other, makes of
  -- it. For nodes that nobody holds when they are allocated, and tables that no other thread changes.
  pub reached-swiftnet_process_packets :
      (memory : Memory Queued) (peers : Peers) (captured : List (Ptr × Queued))
      (s : System Queued (Option Peers))
      → Reach
          (process_node crc32 malloc ratio_above host random)
          Unshared
          memory
          (some peers)
          captured
          s
      → ((t : System Queued (Option Peers)) × (swiftnet_process_packets crc32 malloc ratio_above
              host random s
            ≡ some t))
        × (done : List (Ptr × Queued)) × (hand : List (Ptr × Queued)) × (queued : List
            (Ptr × Queued))
        × (captured ≡ done ++ (hand ++ queued))
        × InHand s.pc s.memory queued hand
        × Holds s.memory s.queue queued
        × (s.work ≡ process_frames crc32 malloc ratio_above host random (frames_of done) peers)
  unfolding swiftnet_process_packets
  reached-swiftnet_process_packets memory peers captured s r =
      let inv = Reach-IsProcessed r in
      let (t, stepped, _) =
        thread_step-Inv (process_node crc32 malloc ratio_above host random) (IsProcessed peers)
          (process_node-IsProcessed peers) captured s.pc s inv in
      ((t, stepped), inv.done, inv.hand, inv.queued, inv.split, inv.in_hand, inv.holds, inv.sound)

  -- A frame that is captured while the processing thread sleeps wakes it: if the other threads then
  -- take no further steps, the thread processes every frame captured so far, one after the other, and
  -- sleeps again with nothing queued, within two steps for each and 262 more. For a connection that
  -- is not closing, a node that nobody holds, and tables that no other thread changes.
  pub insert_frame-wakes :
      (memory : Memory Queued) (peers : Peers) (captured : List (Ptr × Queued))
      (s : System Queued (Option Peers)) (node : Ptr) (frame : Queued) (fuel : ℕ)
      → Reach
          (process_node crc32 malloc ratio_above host random)
          Unshared
          memory
          (some peers)
          captured
          s
      → s.pc ≡ asleep
      → s.closing ≡ false
      → IsFresh node s
      → 2 * length captured + 262 ≤ fuel
      → (t : System Queued (Option Peers)) × (u : System Queued (Option Peers)) × (insert_frame node
            frame s
          ≡ some t)
        × (run (process_node crc32 malloc ratio_above host random) fuel (pass_step (pass_step t))
            ≡ some u)
        × (u.pc ≡ asleep)
        × Holds u.memory u.queue []
        × (u.work
            ≡ process_frames crc32 malloc ratio_above host random
                (frames_of captured ++ (frame ∷ []))
                peers)
  unfolding insert_frame
  insert_frame-wakes memory peers captured s node frame fuel r sleeps open_ fresh enough =
      let (t, gone, settles) =
        woken (process_node crc32 malloc ratio_above host random) (IsProcessed peers)
          (process_node-IsProcessed peers) captured s node frame fuel (Reach-IsProcessed r) fresh
          sleeps open_ enough in
      (
        t,
        settles.last,
        gone,
        settles.ran,
        settles.sleeps,
        settles.drained,
        settles.sound
            ∙ ap (λ l. process_frames crc32 malloc ratio_above host random l peers)
                (map-append (λ x. x.1) captured ((node, frame) ∷ [])),
      )
