-- ===== src/Handoff.antt =====
-- How a thread hands nodes to another one through a queue. The loop around
-- wait_for_next_packet_callback in src/execute_packet_callback.c and that around wait_for_next_packet
-- in src/process_packets.c are the same statements, and so are pass_callback_execution of
-- src/process_packets.c and insert_node of src/handle_packets.c, which pass a node on, and the two
-- signals of close_threads of src/cleanup_connection.c. What is done with a node is a parameter. A
-- step is what lies between two accesses of what the threads share.
pub mod Order
pub mod Passed
pub mod Alone
pub mod Woken
pub mod Missed
use mathlib.Core.Option
use swift_net.Base.{
  ℕ, zero, suc, ◌+◌, ◌%◌, ◌≡◌, ◌≢◌, Bool, true, false, Option, none, some, List, [], ◌∷◌, ◌++◌,
  ◌==◌, if◌then◌else◌,
}
use swift_net.Queue.{
  Ptr, null, Queue, Memory, empty, insert_queue_node, construct_node, wait_for_next_packet,
}
use swift_net.Queue.Links.{Absent, Holds}

-- Where the loop stands.
pub data Pc : Type 0 where
  check_packet : Pc
  took : (node : Ptr) → Pc  -- behind the `if (current_node == NULL)`
  idling : Pc  -- at `case 255`, in front of the store of `false`
  locking : Pc  -- in front of the lock, which the wait on the condition gives back
  asleep : Pc  -- in `pthread_cond_wait`
  awake : Pc  -- in front of the store of `true`
  returned : Pc

-- Where a thread that passes nodes on stands.
pub data Passing : Type 0 where
  ready : Passing
  inserted : Passing  -- in front of the test of `executing_packets`
  signalling : Passing

-- Where `close_threads` stands.
pub data Closing : Type 0 where
  unclosed : Closing
  unsignalled : Closing  -- `closing` is stored
  joining : Closing  -- in front of `pthread_join`

pub record System (P W : Type 0) : Type 0 where
  pub queue : Queue
  pub memory : Memory P
  pub closing : Bool
  pub executing : Bool  -- `executing_packets`, `processing_packets`
  pub pc : Pc
  pub idle_stage : ℕ  -- uint8_t
  pub passing : Passing
  pub closer : Closing
  pub work : W

-- `pthread_cond_signal`: who does not wait misses it.
abbrev pub signal : Pc → Pc
signal asleep = awake
signal pc = pc

module _ {P W : Type 0} where
  -- The queue and the flags as a client or a server is set up.
  abbrev pub initial : Memory P → W → System P W
  initial memory work = record {
    queue = empty;
    memory = memory;
    closing = false;
    executing = true;
    pc = check_packet;
    idle_stage = 0;
    passing = ready;
    closer = unclosed;
    work = work;
  }

  -- The `switch (idle_stage)`; the sleeps of its other cases change nothing.
  abbrev pub idle : System P W → System P W
  idle s =
      if s.idle_stage == 255
      then record s { pc = idling }
      else record s { idle_stage = (s.idle_stage + 1) % 256 }

  abbrev pub check : System P W → Option (System P W)
  check s =
      if s.closing
      then some (record s { pc = returned })
      else elim (wait_for_next_packet s.queue s.memory) [
        | none ↦ none
        | some (node, queue') ↦
            if node == null
            then some (idle s)
            else some (record s { queue = queue'; pc = took node; idle_stage = 0 })
      ]

  module _ (serve : P → W → Option W) where
    abbrev pub serve_node : Ptr → System P W → Option (System P W)
    serve_node p s = elim (s.memory p) [
      | none ↦ none
      | some node ↦
          Option.map (λ work'. record s { work = work'; pc = check_packet })
            (serve node.payload s.work)
    ]

    abbrev step_at : Pc → System P W → Option (System P W)
    step_at check_packet s = check s
    step_at (took node) s = serve_node node s
    step_at idling s = some (record s { executing = false; pc = locking })
    step_at locking s = some (record s { pc = asleep })
    step_at asleep s = some s
    step_at awake s = some (record s { executing = true; idle_stage = 0; pc = check_packet })
    step_at returned s = some s

    -- A step of the loop. Asleep it does nothing: it waits for a signal.
    unfoldable pub thread_step : System P W → Option (System P W)
    thread_step s = step_at s.pc s

    -- The loop as long as no other thread takes a step.
    unfoldable pub run : ℕ → System P W → Option (System P W)
    run zero s = some s
    run (suc n) s = elim (thread_step s) [ none ↦ none | some s' ↦ run n s' ]

  -- The node is written and inserted.
  unfoldable pub pass : Ptr → P → System P W → Option (System P W)
  pass p payload s = elim (insert_queue_node p s.queue (construct_node p payload s.memory)) [
    | none ↦ none
    | some (queue', memory') ↦
        some (record s { queue = queue'; memory = memory'; passing = inserted })
  ]

  abbrev pub pass_at : Passing → System P W → System P W
  pass_at ready s = s
  pass_at inserted s = record s { passing = if s.executing then ready else signalling }
  pass_at signalling s = record s { pc = signal s.pc; passing = ready }

  -- The statements behind the insertion.
  unfoldable pub pass_step : System P W → System P W
  pass_step s = pass_at s.passing s

  abbrev pub close_at : Closing → System P W → System P W
  close_at unclosed s = record s { closing = true; closer = unsignalled }
  close_at unsignalled s = record s { pc = signal s.pc; closer = joining }
  close_at joining s = s

  -- `close_threads`, up to the join of the thread.
  unfoldable pub close_step : System P W → System P W
  close_step s = close_at s.closer s

  -- The allocator gives a node that nobody holds.
  pub record IsFresh (p : Ptr) (s : System P W) : Type 0 where
    pub some_node : p ≢ null
    pub unqueued : (xs : List (Ptr × P)) → Holds s.memory s.queue xs → Absent p xs
    pub untaken : s.pc ≢ took p

  module _ (serve : P → W → Option W) (Other : W → W → Type 0) where
    -- A step of one thread, with the nodes that it passes on. `Other` is what the threads that are
    -- not modelled do.
    pub data Step (s : System P W) : List (Ptr × P) → System P W → Type 0 where
      on_thread : {t : System P W} → thread_step serve s ≡ some t → Step s [] t
      on_pass :
          {t : System P W} (p : Ptr) (payload : P)
          → s.passing ≡ ready
          → IsFresh p s
          → pass p payload s ≡ some t
          → Step s ((p, payload) ∷ []) t
      on_passed : Step s [] (pass_step s)
      on_close : Step s [] (close_step s)
      on_spurious : s.pc ≡ asleep → Step s [] (record s { pc = awake })
      on_other : {work' : W} → Other s.work work' → Step s [] (record s { work = work' })

    -- The states that a client or server gets into, with the nodes passed on so far.
    pub data Reach (memory : Memory P) (work : W) : List (Ptr × P) → System P W → Type 0 where
      start : Reach memory work [] (initial memory work)
      later :
          {s t : System P W} {passed more : List (Ptr × P)}
          → Reach memory work passed s
          → Step s more t
          → Reach memory work (passed ++ more) t
