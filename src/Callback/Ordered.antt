-- ===== src/Callback/Ordered.antt =====
-- The user gets the packets in the order in which they were passed on, and each of them once.
use mathlib.Core.List.{append-nil, append_assoc, map-append}
use swift_net.Base.{
  ℕ, ◌+◌, ◌*◌, ◌≡◌, ◌≤◌, refl, sym, ap, ap₂, ◌∙◌, true, false, Bool-cases, inl, inr, Option, some,
  List, [], ◌∷◌, ◌++◌, ◌==◌, if◌then◌else◌, map, length,
}
use swift_net.Queue.{Ptr, null, Memory}
use swift_net.Queue.Links.{Holds}
use swift_net.Handoff.{
  System, Reach, IsFresh, idling, asleep, ready, joining, unclosed, pass_step, run,
}
use swift_net.Handoff.Order.{Inv, InHand, thread_step-Inv}
use swift_net.Handoff.Passed.{Reach-Inv}
use swift_net.Handoff.Woken.{woken}
use swift_net.Handoff.Missed.{missed-pass, missed-close}
use swift_net.Callback.{
  PendingMessagesKey, Callback, Fate, called, destroyed, Connection, outcome_of, forget,
  execute_callback, execute_packet_callback, pass_callback_execution, Other, set_packet_handler,
  set_user_data, set_pending_messages,
}

-- The packets of the nodes that carry one.
abbrev pub packets_of : List (Ptr × Callback) → List Ptr
packets_of [] = []
packets_of (x ∷ xs) =
    (if x.1.packet_data == null then [] else (x.1.packet_data ∷ [])) ++ packets_of xs

abbrev pub packet_data_of : Fate → Ptr
packet_data_of (called packet_handler packet_data user_data) = packet_data
packet_data_of (destroyed packet_data) = packet_data

packets_of-append :
    (xs ys : List (Ptr × Callback)) → packets_of (xs ++ ys) ≡ packets_of xs ++ packets_of ys
packets_of-append [] ys = refl
packets_of-append (x ∷ xs) ys =
    ap (λ l. (if x.1.packet_data == null then [] else (x.1.packet_data ∷ [])) ++ l)
      (packets_of-append xs ys)
    ∙ sym (
        append_assoc (if x.1.packet_data == null then [] else (x.1.packet_data ∷ []))
          (packets_of xs) (packets_of ys))

packets_of-nothing :
    (done : List (Ptr × Callback)) (p : Ptr) (payload : Callback)
    → (payload.packet_data == null) ≡ true
    → packets_of (done ++ ((p, payload) ∷ [])) ≡ packets_of done
packets_of-nothing done p payload e =
    rw (packets_of-append done ((p, payload) ∷ []), e) (append-nil (packets_of done))

packets_of-packet :
    (done : List (Ptr × Callback)) (p : Ptr) (payload : Callback)
    → (payload.packet_data == null) ≡ false
    → packets_of (done ++ ((p, payload) ∷ [])) ≡ packets_of done ++ (payload.packet_data ∷ [])
packets_of-packet done p payload e = rw (packets_of-append done ((p, payload) ∷ []), e) refl

packet_data_of-outcome_of :
    (packet_data : Ptr) (connection : Connection)
    → packet_data_of (outcome_of packet_data connection) ≡ packet_data
packet_data_of-outcome_of packet_data connection =
    elim (Bool-cases (connection.packet_handler == null)) [
      | inl absent ↦ rw absent refl
      | inr present ↦ rw present refl
    ]

-- Every packet of a node that the loop is done with has had its outcome.
abbrev pub HasOutcomes : List (Ptr × Callback) → Connection → Type 0
HasOutcomes done connection = map packet_data_of connection.outcomes ≡ packets_of done

module _ (seed : ℕ) where
  execute_callback-HasOutcomes :
      (done : List (Ptr × Callback)) (p : Ptr) (payload : Callback) (connection : Connection)
      → HasOutcomes done connection
      → (after : Connection) × (execute_callback seed payload connection ≡ some after)
        × HasOutcomes (done ++ ((p, payload) ∷ [])) after
  unfolding execute_callback
  execute_callback-HasOutcomes done p payload connection h =
      elim (Bool-cases (payload.packet_data == null)) [
        | inl nothing ↦
            (connection, rw nothing refl, h ∙ sym (packets_of-nothing done p payload nothing))
        | inr packet ↦ (
          record connection {
            pending_messages = forget seed payload.pending_message connection.pending_messages;
            outcomes = connection.outcomes ++ (outcome_of payload.packet_data connection ∷ []);
          },
          rw packet refl,
          map-append packet_data_of connection.outcomes
                (outcome_of payload.packet_data connection ∷ [])
              ∙ ap₂ (λ l x. l ++ (x ∷ [])) h
                  (packet_data_of-outcome_of payload.packet_data connection)
              ∙ sym (packets_of-packet done p payload packet),
        )
      ]

  Other-HasOutcomes :
      (done : List (Ptr × Callback)) (connection after : Connection)
      → Other connection after
      → HasOutcomes done connection
      → HasOutcomes done after
  Other-HasOutcomes done connection after (set_packet_handler new_handler) h = h
  Other-HasOutcomes done connection after (set_user_data user_arg) h = h
  Other-HasOutcomes done connection after (set_pending_messages pending_messages) h = h

  Reach-outcomes :
      {memory : Memory Callback} {connection : Connection} {passed : List (Ptr × Callback)}
      {s : System Callback Connection}
      → connection.outcomes ≡ []
      → Reach (execute_callback seed) Other memory connection passed s
      → Inv HasOutcomes passed s
  Reach-outcomes {memory} {connection} {passed} {s} none_yet r =
      Reach-Inv (execute_callback seed) Other HasOutcomes execute_callback-HasOutcomes
        Other-HasOutcomes memory connection passed s (ap (map packet_data_of) none_yet) r

  -- Whatever the threads do, the callback thread faults nowhere, and the packets passed on to it are
  -- those that the user's handler got, or that were destroyed as there was no handler, then the one
  -- in its hand, then those in its queue, in the order in which they were passed on. For nodes that
  -- nobody holds when they are allocated.
  pub reached-execute_packet_callback :
      (memory : Memory Callback) (connection : Connection) (passed : List (Ptr × Callback))
      (s : System Callback Connection)
      → connection.outcomes ≡ []
      → Reach (execute_callback seed) Other memory connection passed s
      → ((t : System Callback Connection) × (execute_packet_callback seed s ≡ some t))
        × (hand : List (Ptr × Callback)) × (queued : List (Ptr × Callback)) × InHand s.pc s.memory
            queued hand
        × Holds s.memory s.queue queued
        × (packets_of passed ≡ map packet_data_of s.work.outcomes ++ packets_of (hand ++ queued))
  unfolding execute_packet_callback
  reached-execute_packet_callback memory connection passed s none_yet r =
      let inv = Reach-outcomes none_yet r in
      let (t, stepped, _) =
        thread_step-Inv (execute_callback seed) HasOutcomes execute_callback-HasOutcomes passed s.pc
          s inv in
      (
        (t, stepped),
        inv.hand,
        inv.queued,
        inv.in_hand,
        inv.holds,
        ap packets_of inv.split
            ∙ packets_of-append inv.done (inv.hand ++ inv.queued)
            ∙ ap (λ l. l ++ packets_of (inv.hand ++ inv.queued)) (sym inv.sound),
      )

  -- A packet that is passed on while the callback thread sleeps wakes it: if the other threads then
  -- take no further steps, the thread is done with every packet passed on so far, each once and in
  -- order, and sleeps again with nothing queued, within two steps for each and 262 more. For a
  -- connection that is not closing, and a node that nobody holds.
  pub pass_callback_execution-wakes :
      (memory : Memory Callback) (connection : Connection) (passed : List (Ptr × Callback))
      (s : System Callback Connection) (node packet_data : Ptr)
      (pending_message : Option PendingMessagesKey) (packet_id fuel : ℕ)
      → connection.outcomes ≡ []
      → Reach (execute_callback seed) Other memory connection passed s
      → s.pc ≡ asleep
      → s.closing ≡ false
      → IsFresh node s
      → 2 * length passed + 262 ≤ fuel
      → (t : System Callback Connection) × (u : System Callback Connection)
        × (pass_callback_execution node packet_data pending_message packet_id s ≡ some t)
        × (run (execute_callback seed) fuel (pass_step (pass_step t)) ≡ some u)
        × (u.pc ≡ asleep)
        × Holds u.memory u.queue []
        × (map packet_data_of u.work.outcomes
            ≡ packets_of passed ++ (if packet_data == null then [] else (packet_data ∷ [])))
  unfolding pass_callback_execution
  pass_callback_execution-wakes memory connection passed s node packet_data pending_message
        packet_id fuel none_yet r sleeps open_ fresh enough =
      let payload : Callback = record {
        packet_data = packet_data;
        pending_message = pending_message;
        packet_id = packet_id;
      } in
      let (t, gone, settles) =
        woken (execute_callback seed) HasOutcomes execute_callback-HasOutcomes passed s node payload
          fuel (Reach-outcomes none_yet r) fresh sleeps open_ enough in
      (
        t,
        settles.last,
        gone,
        settles.ran,
        settles.sleeps,
        settles.drained,
        settles.sound
            ∙ packets_of-append passed ((node, payload) ∷ [])
            ∙ ap (λ l. packets_of passed ++ l)
                (append-nil (if packet_data == null then [] else (packet_data ∷ []))),
      )

  -- A signal that comes while the callback thread is about to sleep, between the last look at its
  -- queue and the wait, is lost. So whenever the thread is there, a packet can be passed on that it
  -- sleeps over, with no signal on its way; and if the connection is closed there, it can be joined
  -- asleep. For a packet and a closing that no other thread is about to signal, and a node that
  -- nobody holds.
  pub execute_packet_callback-misses :
      (memory : Memory Callback) (connection : Connection) (passed : List (Ptr × Callback))
      (s : System Callback Connection) (node : Ptr) (payload : Callback) (n : ℕ)
      → connection.outcomes ≡ []
      → Reach (execute_callback seed) Other memory connection passed s
      → s.pc ≡ idling
      → s.passing ≡ ready
      → s.closer ≡ unclosed
      → IsFresh node s
      → ((t : System Callback Connection) × Reach
            (execute_callback seed)
            Other
            memory
            connection
            (passed ++ ((node, payload) ∷ []))
            t
          × (t.work.outcomes ≡ s.work.outcomes)
          × (t.passing ≡ ready)
          × (t.pc ≡ asleep)
          × (run (execute_callback seed) n t ≡ some t)
          × ((queued : List (Ptr × Callback)) × Holds t.memory t.queue
                (queued ++ ((node, payload) ∷ []))))
        × ((t : System Callback Connection) × Reach
              (execute_callback seed)
              Other
              memory
              connection
              passed
              t
            × (t.closer ≡ joining)
            × (t.pc ≡ asleep)
            × (run (execute_callback seed) n t ≡ some t))
  execute_packet_callback-misses memory connection passed s node payload n none_yet r idle at_start
        here fresh =
      let (t, reached, same, passing, sleeps, stays, queued, holds) =
        missed-pass (execute_callback seed) Other HasOutcomes s node payload r
          (Reach-outcomes none_yet r) idle at_start fresh in
      let (u, reached', joins, sleeps', stays') =
        missed-close (execute_callback seed) Other s r idle here in
      (
        (t, reached, ap (λ w. w.outcomes) same, passing, sleeps, stays n, (queued, holds)),
        (u, reached', joins, sleeps', stays' n),
      )
