-- ===== src/Handoff/Order.antt =====
-- What holds between two steps of a hand-over: the nodes passed on are those that the loop is done
-- with, the one in its hand, and those in the queue, in this order.
use mathlib.Core.Path.{subst}
use mathlib.Core.List.{append_assoc}
use swift_net.Base.{
  ◌≡◌, ◌≢◌, ◌≤◌, refl, sym, ap, ◌∙◌, Bool, true, false, some, List, [], ◌∷◌, ◌++◌, Option, arith,
  ◌+◌, ◌<◌, ==_false, ℕ_discrete, ◌%◌, Bool-cases, inl, inr,
}
use swift_net.Queue.{Ptr, null, Queue, Memory, wait_for_next_packet}
use swift_net.Queue.Links.{Absent, Holds, first_node-Holds}
use swift_net.Queue.Fifo.{wait_empty, wait_first}
use swift_net.Handoff.{
  Pc, check_packet, took, idling, locking, asleep, awake, returned, System, idle, check, serve_node,
  thread_step,
}

-- `executing_packets` is stored behind the sleep and in front of it only.
abbrev pub is_executing : Pc → Bool
is_executing locking = false
is_executing asleep = false
is_executing awake = false
is_executing pc = true

module _ {P : Type 0} where
  -- The node in the hand of the loop, which is not in the queue any more.
  abbrev pub InHand : Pc → Memory P → List (Ptr × P) → List (Ptr × P) → Type 0
  InHand (took p) memory queued hand =
      (payload : P) × (next : Ptr) × (hand ≡ (p, payload) ∷ [])
      × (p ≢ null)
      × Absent p queued
      × (memory p ≡ some (record { payload = payload; next = next }))
  InHand pc memory queued hand = hand ≡ []

module _ {P W : Type 0} where
  -- `J` relates the nodes that the loop is done with to what was made of them.
  pub record Inv (J : List (Ptr × P) → W → Type 0) (passed : List (Ptr × P)) (s : System P W)
      : Type 0 where
    pub done : List (Ptr × P)
    pub hand : List (Ptr × P)
    pub queued : List (Ptr × P)
    pub split : passed ≡ done ++ (hand ++ queued)
    pub holds : Holds s.memory s.queue queued
    pub in_hand : InHand s.pc s.memory queued hand
    pub running : s.executing ≡ is_executing s.pc
    pub stage : s.idle_stage ≤ 255
    pub sound : J done s.work

module _ {P W : Type 0} where
  pub check-took :
      (s : System P W) (p : Ptr) (queue' : Queue)
      → s.closing ≡ false
      → p ≢ null
      → wait_for_next_packet s.queue s.memory ≡ some (p, queue')
      → check s ≡ some (record s { queue = queue'; pc = took p; idle_stage = 0 })
  check-took s p queue' open_ pos waited = ground arith

  pub check-idle :
      (s : System P W)
      → s.closing ≡ false
      → wait_for_next_packet s.queue s.memory ≡ some (null, s.queue)
      → check s ≡ some (idle s)
  check-idle s open_ waited = ground arith

  check-closing : (s : System P W) → s.closing ≡ true → check s ≡ some (record s { pc = returned })
  check-closing s closed = ground arith

  pub serve_node-served :
      (serve : P → W → Option W) (s : System P W) (p next : Ptr) (payload : P) (work' : W)
      → s.memory p ≡ some (record { payload = payload; next = next })
      → serve payload s.work ≡ some work'
      → serve_node serve p s ≡ some (record s { work = work'; pc = check_packet })
  serve_node-served serve s p next payload work' found served = rw (serve_node, found, served) refl

  pub idle-last : (s : System P W) → s.idle_stage ≡ 255 → idle s ≡ record s { pc = idling }
  idle-last s e = ground arith

  pub idle-next :
      (s : System P W) → s.idle_stage < 255 → idle s ≡ record s { idle_stage = s.idle_stage + 1 }
  idle-next s h =
      let exact : (s.idle_stage + 1) % 256 ≡ s.idle_stage + 1 = omega arith in
      rw (==_false s.idle_stage 255 (omega arith)) (ap (λ n. record s { idle_stage = n }) exact)

  -- A state that differs in nothing but where the loop stands, without a node in its hand.
  pub moved-Inv :
      (J : List (Ptr × P) → W → Type 0) (passed : List (Ptr × P)) (s t : System P W)
      → (inv : Inv J passed s) → inv.hand ≡ []
      → InHand t.pc t.memory inv.queued []
      → t.executing ≡ is_executing t.pc
      → t.idle_stage ≤ 255
      → t.queue ≡ s.queue
      → t.memory ≡ s.memory
      → t.work ≡ s.work
      → Inv J passed t
  moved-Inv J passed s t inv empty_hand in_hand running stage queue memory work = record {
    done = inv.done;
    hand = [];
    queued = inv.queued;
    split = inv.split ∙ ap (λ hand. inv.done ++ (hand ++ inv.queued)) empty_hand;
    holds = rw (memory, queue) inv.holds;
    in_hand = in_hand;
    running = running;
    stage = stage;
    sound = rw work inv.sound;
  }

module _ {P W : Type 0} (serve : P → W → Option W) (J : List (Ptr × P) → W → Type 0)
    (serves : (done : List (Ptr × P)) (p : Ptr) (payload : P) (work : W)
      → J done work
      → (work' : W) × (serve payload work ≡ some work')
        × J (done ++ ((p, payload) ∷ [])) work') where
  take-Inv :
      (done : List (Ptr × P)) (x : Ptr × P) (xs : List (Ptr × P)) (s : System P W)
      → Holds s.memory s.queue (x ∷ xs)
      → s.executing ≡ true
      → J done s.work
      → s.closing ≡ false
      → (t : System P W) × (check s ≡ some t) × Inv J (done ++ (x ∷ xs)) t
  take-Inv done x xs s holds running sound open_ =
      let (queue', waited, h') = wait_first s.memory s.queue x xs holds in
      let (pos, away, next, found) = first_node-Holds s.memory s.queue x xs holds in
      (
        record s { queue = queue'; pc = took x.0; idle_stage = 0 },
        check-took s x.0 queue' open_ pos waited,
        record {
          done = done;
          hand = x ∷ [];
          queued = xs;
          split = refl;
          holds = h';
          in_hand = (x.1, next, refl, pos, away, found);
          running = running;
          stage = omega arith;
          sound = sound;
        },
      )

  serve_node-Inv :
      (done xs : List (Ptr × P)) (p next : Ptr) (payload : P) (s : System P W)
      → Holds s.memory s.queue xs
      → s.executing ≡ true
      → s.idle_stage ≤ 255
      → s.memory p ≡ some (record { payload = payload; next = next })
      → J done s.work
      → (t : System P W) × (serve_node serve p s ≡ some t)
        × Inv J (done ++ (((p, payload) ∷ []) ++ xs)) t
  serve_node-Inv done xs p next payload s holds running stage found sound =
      let (work', served, sound') = serves done p payload s.work sound in
      (
        record s { work = work'; pc = check_packet },
        serve_node-served serve s p next payload work' found served,
        record {
          done = done ++ ((p, payload) ∷ []);
          hand = [];
          queued = xs;
          split = sym (append_assoc done ((p, payload) ∷ []) xs);
          holds = holds;
          in_hand = refl;
          running = running;
          stage = stage;
          sound = sound';
        },
      )

  idle-Inv :
      (passed : List (Ptr × P)) (s : System P W)
      (inv : Inv J passed (record s { pc = check_packet }))
      → inv.hand ≡ []
      → Inv J passed (idle (record s { pc = check_packet }))
  idle-Inv passed s inv empty_hand = elim (ℕ_discrete s.idle_stage 255) [
    | yes last ↦ rw (idle-last (record s { pc = check_packet }) last) (
        moved-Inv J passed (record s { pc = check_packet }) (record s { pc = idling }) inv
          empty_hand refl inv.running inv.stage refl refl refl)
    | no more ↦
        let stage = inv.stage in
        let less : s.idle_stage < 255 = omega arith in
        rw (idle-next (record s { pc = check_packet }) less) (
          moved-Inv J passed (record s { pc = check_packet })
            (record s { pc = check_packet; idle_stage = s.idle_stage + 1 }) inv empty_hand refl
            inv.running (omega arith) refl refl refl)
  ]

  check-Inv :
      (passed : List (Ptr × P)) (s : System P W)
      (inv : Inv J passed (record s { pc = check_packet }))
      → s.closing ≡ false
      → inv.hand ≡ []
      → (queued : List (Ptr × P)) → inv.queued ≡ queued
      → (t : System P W) × (check (record s { pc = check_packet }) ≡ some t) × Inv J passed t
  check-Inv passed s inv open_ empty_hand [] e = (
    idle (record s { pc = check_packet }),
    check-idle (record s { pc = check_packet }) open_
        (wait_empty s.memory s.queue (subst (λ q. Holds s.memory s.queue q) e inv.holds)),
    idle-Inv passed s inv empty_hand,
  )
  check-Inv passed s inv open_ empty_hand (x ∷ xs) e =
      let (t, stepped, inv') =
        take-Inv inv.done x xs (record s { pc = check_packet })
          (subst (λ q. Holds s.memory s.queue q) e inv.holds) inv.running inv.sound open_ in
      (t, stepped, rw (inv.split, empty_hand, e) inv')

  -- Every step of the loop goes well and keeps it.
  pub thread_step-Inv :
      (passed : List (Ptr × P)) (pc : Pc) (s : System P W)
      → Inv J passed (record s { pc = pc })
      → (t : System P W) × (thread_step serve (record s { pc = pc }) ≡ some t) × Inv J passed t
  unfolding thread_step
  thread_step-Inv passed check_packet s inv = elim (Bool-cases s.closing) [
    | inl closed ↦ (
      record s { pc = returned },
      check-closing (record s { pc = check_packet }) closed,
      moved-Inv J passed (record s { pc = check_packet }) (record s { pc = returned }) inv
          inv.in_hand refl inv.running inv.stage refl refl refl,
    )
    | inr open_ ↦ check-Inv passed s inv open_ inv.in_hand inv.queued refl
  ]
  thread_step-Inv passed (took p) s inv =
      let (payload, next, hand, pos, away, found) = inv.in_hand in
      let (t, stepped, inv') =
        serve_node-Inv inv.done inv.queued p next payload (record s { pc = took p }) inv.holds
          inv.running inv.stage found inv.sound in
      (t, stepped, rw (inv.split, hand) inv')
  thread_step-Inv passed idling s inv = (
    record s { executing = false; pc = locking },
    refl,
    moved-Inv J passed (record s { pc = idling }) (record s { executing = false; pc = locking }) inv
        inv.in_hand refl refl inv.stage refl refl refl,
  )
  thread_step-Inv passed locking s inv = (
    record s { pc = asleep },
    refl,
    moved-Inv J passed (record s { pc = locking }) (record s { pc = asleep }) inv inv.in_hand refl
        inv.running inv.stage refl refl refl,
  )
  thread_step-Inv passed asleep s inv = (record s { pc = asleep }, refl, inv)
  thread_step-Inv passed awake s inv = (
    record s { executing = true; idle_stage = 0; pc = check_packet },
    refl,
    moved-Inv J passed (record s { pc = awake })
        (record s { executing = true; idle_stage = 0; pc = check_packet }) inv inv.in_hand refl refl
        (omega arith) refl refl refl,
  )
  thread_step-Inv passed returned s inv = (record s { pc = returned }, refl, inv)
