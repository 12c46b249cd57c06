-- ===== src/Handoff/Passed.antt =====
-- The steps of the other threads keep the order of the nodes, and so do all the steps together.
use mathlib.Core.Path.{subst}
use mathlib.Core.List.{append-nil, append_assoc}
use swift_net.Base.{
  ◌≡◌, ◌≢◌, refl, sym, ap, ◌∙◌, Bool, true, some, List, [], ◌∷◌, ◌++◌, Option, arith, subst_some,
}
use swift_net.Queue.{Ptr, Queue, Memory, insert_queue_node, construct_node}
use swift_net.Queue.Links.{Absent-append, Holds}
use swift_net.Queue.Fifo.{insert-construct, insert_elsewhere}
use swift_net.Handoff.{
  Pc, check_packet, took, idling, locking, asleep, awake, returned, Passing, ready, inserted,
  signalling, Closing, unclosed, unsignalled, joining, System, pass, pass_step, close_step, pass_at,
  close_at, signal, IsFresh, Step, Reach, on_thread, on_pass, on_passed, on_close, on_spurious,
  on_other, start, later,
}
use swift_net.Handoff.Order.{InHand, Inv, moved-Inv, thread_step-Inv}

module _ {P W : Type 0} (J : List (Ptr × P) → W → Type 0) where
  InHand-pass :
      (pc : Pc) (memory memory' : Memory P) (queue queue' : Queue) (p : Ptr) (payload : P)
      (queued hand : List (Ptr × P))
      → Holds memory queue queued
      → pc ≢ took p
      → insert_queue_node p queue (construct_node p payload memory) ≡ some (queue', memory')
      → InHand pc memory queued hand
      → InHand pc memory' (queued ++ ((p, payload) ∷ [])) hand
  InHand-pass check_packet memory memory' queue queue' p payload queued hand holds other e h = h
  InHand-pass (took r) memory memory' queue queue' p payload queued hand holds other e h =
      let (kept, next, held, pos, away, found) = h in
      let apart : r ≢ p = λ q. other (ap took q) in
      let same : memory' r ≡ memory r =
        insert_elsewhere memory memory' queue queue' p r payload queued pos away apart holds e in
      (kept, next, held, pos, Absent-append r p payload queued away apart, same ∙ found)
  InHand-pass idling memory memory' queue queue' p payload queued hand holds other e h = h
  InHand-pass locking memory memory' queue queue' p payload queued hand holds other e h = h
  InHand-pass asleep memory memory' queue queue' p payload queued hand holds other e h = h
  InHand-pass awake memory memory' queue queue' p payload queued hand holds other e h = h
  InHand-pass returned memory memory' queue queue' p payload queued hand holds other e h = h

  -- So does an insertion, which goes well too.
  pub pass-Inv :
      (passed : List (Ptr × P)) (s : System P W) (p : Ptr) (payload : P)
      → (inv : Inv J passed s) → IsFresh p s
      → (t : System P W) × (pass p payload s ≡ some t)
        × (t.work ≡ s.work)
        × (t.pc ≡ s.pc)
        × (t.closing ≡ s.closing)
        × (t.executing ≡ s.executing)
        × (t.passing ≡ inserted)
        × (after : Inv J (passed ++ ((p, payload) ∷ [])) t) × (after.queued
            ≡ inv.queued ++ ((p, payload) ∷ []))
  unfolding pass
  pass-Inv passed s p payload inv fresh =
      let (queue', memory', linked, holds') =
        insert-construct s.memory s.queue inv.queued p payload fresh.some_node
          (fresh.unqueued inv.queued inv.holds) inv.holds in
      (
        record s { queue = queue'; memory = memory'; passing = inserted },
        rw (pass, linked) refl,
        refl,
        refl,
        refl,
        refl,
        refl,
        record {
          done = inv.done;
          hand = inv.hand;
          queued = inv.queued ++ ((p, payload) ∷ []);
          split =
              ap (λ nodes. nodes ++ ((p, payload) ∷ [])) inv.split
              ∙ append_assoc inv.done (inv.hand ++ inv.queued) ((p, payload) ∷ [])
              ∙ ap (λ nodes. inv.done ++ nodes)
                  (append_assoc inv.hand inv.queued ((p, payload) ∷ []));
          holds = holds';
          in_hand =
              InHand-pass s.pc s.memory memory' s.queue queue' p payload inv.queued inv.hand
                inv.holds fresh.untaken linked inv.in_hand;
          running = inv.running;
          stage = inv.stage;
          sound = inv.sound;
        },
        refl,
      )

  signal-Inv :
      (passed : List (Ptr × P)) (pc : Pc) (s : System P W)
      → Inv J passed (record s { pc = pc })
      → Inv J passed (record s { pc = signal pc })
  signal-Inv passed check_packet s inv = inv
  signal-Inv passed (took p) s inv = inv
  signal-Inv passed idling s inv = inv
  signal-Inv passed locking s inv = inv
  signal-Inv passed asleep s inv =
      moved-Inv J passed (record s { pc = asleep }) (record s { pc = awake }) inv inv.in_hand refl
        inv.running inv.stage refl refl refl
  signal-Inv passed awake s inv = inv
  signal-Inv passed returned s inv = inv

  -- What the invariant does not speak of.
  flags-Inv :
      (passed : List (Ptr × P)) (s : System P W) (closing : Bool) (passing : Passing)
      (closer : Closing)
      → Inv J passed s
      → Inv J passed (record s { closing = closing; passing = passing; closer = closer })
  flags-Inv passed s closing passing closer inv = record {
    done = inv.done;
    hand = inv.hand;
    queued = inv.queued;
    split = inv.split;
    holds = inv.holds;
    in_hand = inv.in_hand;
    running = inv.running;
    stage = inv.stage;
    sound = inv.sound;
  }

  pub pass_at-Inv :
      (passed : List (Ptr × P)) (passing : Passing) (s : System P W)
      → Inv J passed s
      → Inv J passed (pass_at passing s)
  pass_at-Inv passed ready s inv = inv
  pass_at-Inv passed inserted s inv = flags-Inv passed s s.closing _ s.closer inv
  pass_at-Inv passed signalling s inv =
      flags-Inv passed (record s { pc = signal s.pc }) s.closing ready s.closer
        (signal-Inv passed s.pc s inv)

  pub close_at-Inv :
      (passed : List (Ptr × P)) (closer : Closing) (s : System P W)
      → Inv J passed s
      → Inv J passed (close_at closer s)
  close_at-Inv passed unclosed s inv = flags-Inv passed s true s.passing unsignalled inv
  close_at-Inv passed unsignalled s inv =
      flags-Inv passed (record s { pc = signal s.pc }) s.closing s.passing joining
        (signal-Inv passed s.pc s inv)
  close_at-Inv passed joining s inv = inv

module _ {P W : Type 0} (serve : P → W → Option W) (Other : W → W → Type 0)
    (J : List (Ptr × P) → W → Type 0)
    (serves : (done : List (Ptr × P)) (p : Ptr) (payload : P) (work : W)
      → J done work
      → (work' : W) × (serve payload work ≡ some work') × J (done ++ ((p, payload) ∷ [])) work')
    (others : (done : List (Ptr × P)) (work work' : W)
      → Other work work'
      → J done work
      → J done work') where
  Step-Inv :
      (passed more : List (Ptr × P)) (s t : System P W)
      → Inv J passed s
      → Step serve Other s more t
      → Inv J (passed ++ more) t
  unfolding pass_step close_step
  Step-Inv passed more s t inv (on_thread e) =
      let (u, stepped, inv') = thread_step-Inv serve J serves passed s.pc s inv in
      subst_some (λ v. Inv J (passed ++ []) v) u t (sym stepped ∙ e) (rw (append-nil passed) inv')
  Step-Inv passed more s t inv (on_pass p payload at_start fresh e) =
      let (u, gone, _, _, _, _, _, inv', _) = pass-Inv J passed s p payload inv fresh in
      subst_some (λ v. Inv J (passed ++ ((p, payload) ∷ [])) v) u t (sym gone ∙ e) inv'
  Step-Inv passed more s t inv on_passed =
      rw (append-nil passed) (pass_at-Inv J passed s.passing s inv)
  Step-Inv passed more s t inv on_close =
      rw (append-nil passed) (close_at-Inv J passed s.closer s inv)
  Step-Inv passed more s t inv (on_spurious e) = rw (append-nil passed) (
      subst (λ pc. Inv J passed (record s { pc = pc })) (ap signal e)
        (signal-Inv J passed s.pc s inv))
  Step-Inv passed more s t inv (on_other {work'} o) = record {
    done = inv.done;
    hand = inv.hand;
    queued = inv.queued;
    split = append-nil passed ∙ inv.split;
    holds = inv.holds;
    in_hand = inv.in_hand;
    running = inv.running;
    stage = inv.stage;
    sound = others inv.done s.work work' o inv.sound;
  }

  -- It holds in every state that is reached.
  pub Reach-Inv :
      (memory : Memory P) (work : W) (passed : List (Ptr × P)) (s : System P W)
      → J [] work
      → Reach serve Other memory work passed s
      → Inv J passed s
  Reach-Inv memory work passed s sound start = record {
    done = [];
    hand = [];
    queued = [];
    split = refl;
    holds = (refl, refl);
    in_hand = refl;
    running = refl;
    stage = omega arith;
    sound = sound;
  }
  Reach-Inv memory work _ s sound (later {s = before} {passed = earlier} {more} r step) =
      Step-Inv earlier more before s (Reach-Inv memory work earlier before sound r) step
