-- ===== src/Handoff/Alone.antt =====
-- What the loop does as long as no other thread takes a step: it serves what is queued, and then
-- goes to sleep.
use mathlib.Core.Path.{subst}
use mathlib.Core.List.{append-nil, append_assoc}
use swift_net.Base.{
  ℕ, zero, suc, ◌+◌, ◌-◌, ◌*◌, ◌≡◌, ◌≤◌, refl, ap, ◌∙◌, true, false, Option, some, List, [], ◌∷◌,
  ◌++◌, length, arith,
}
use swift_net.Queue.{Ptr}
use swift_net.Queue.Links.{Holds, first_node-Holds}
use swift_net.Queue.Fifo.{wait_empty, wait_first}
use swift_net.Handoff.{
  Pc, check_packet, took, idling, locking, asleep, awake, returned, System, thread_step, run,
}
use swift_net.Handoff.Order.{Inv, check-took, check-idle, idle-last, idle-next, serve_node-served}

-- Behind the sleep, and before the queue is found empty for the last time.
abbrev pub IsBusy : Pc → Type 0
IsBusy check_packet = Unit
IsBusy (took p) = Unit
IsBusy awake = Unit
IsBusy pc = ⊥

module _ {P W : Type 0} (serve : P → W → Option W) where
  run-suc :
      (n : ℕ) (s t : System P W)
      → thread_step serve s ≡ some t
      → run serve (suc n) s ≡ run serve n t
  unfolding run
  run-suc n s t e = rw (run, e) refl

  pub run-asleep :
      (n : ℕ) (s : System P W)
      → run serve n (record s { pc = asleep }) ≡ some (record s { pc = asleep })
  unfolding run thread_step
  run-asleep zero s = refl
  run-asleep (suc n) s = run-asleep n s

-- The loop sleeps, with nothing queued, and is done with all the nodes.
pub record Settles {P W : Type 0} (serve : P → W → Option W) (J : List (Ptr × P) → W → Type 0)
    (passed : List (Ptr × P)) (fuel : ℕ) (s : System P W) : Type 0 where
  pub last : System P W
  pub ran : run serve fuel s ≡ some last
  pub sleeps : last.pc ≡ asleep
  pub drained : Holds last.memory last.queue []
  pub sound : J passed last.work

module _ {P W : Type 0} (serve : P → W → Option W) (J : List (Ptr × P) → W → Type 0)
    (serves : (done : List (Ptr × P)) (p : Ptr) (payload : P) (work : W)
      → J done work
      → (work' : W) × (serve payload work ≡ some work')
        × J (done ++ ((p, payload) ∷ [])) work') where
  step-Settles :
      (passed : List (Ptr × P)) (n : ℕ) (s t : System P W)
      → thread_step serve s ≡ some t
      → Settles serve J passed n t
      → Settles serve J passed (suc n) s
  step-Settles passed n s t e h = record {
    last = h.last;
    ran = run-suc serve n s t e ∙ h.ran;
    sleeps = h.sleeps;
    drained = h.drained;
    sound = h.sound;
  }

  idling-Settles :
      (passed : List (Ptr × P)) (m : ℕ) (s : System P W)
      → Holds s.memory s.queue []
      → J passed s.work
      → Settles serve J passed (suc (suc m)) (record s { pc = idling })
  unfolding run thread_step
  idling-Settles passed m s holds sound = record {
    last = record s { executing = false; pc = asleep };
    ran = run-asleep serve m (record s { executing = false });
    sleeps = refl;
    drained = holds;
    sound = sound;
  }

  idle-Settles :
      (passed : List (Ptr × P)) (k fuel : ℕ) (s : System P W)
      → s.idle_stage + k ≡ 255
      → k + 3 ≤ fuel
      → s.closing ≡ false
      → Holds s.memory s.queue []
      → J passed s.work
      → Settles serve J passed fuel (record s { pc = check_packet })
  unfolding thread_step
  idle-Settles passed k zero s e enough open_ holds sound = absurd (omega arith)
  idle-Settles passed zero (suc zero) s e enough open_ holds sound = absurd (omega arith)
  idle-Settles passed zero (suc (suc zero)) s e enough open_ holds sound = absurd (omega arith)
  idle-Settles passed zero (suc (suc (suc m))) s e enough open_ holds sound =
      step-Settles passed (suc (suc m)) (record s { pc = check_packet }) (record s { pc = idling })
        (check-idle (record s { pc = check_packet }) open_ (wait_empty s.memory s.queue holds)
          ∙ ap some (idle-last (record s { pc = check_packet }) (omega arith)))
        (idling-Settles passed m s holds sound)
  idle-Settles passed (suc k) (suc fuel) s e enough open_ holds sound =
      step-Settles passed fuel (record s { pc = check_packet })
        (record s { pc = check_packet; idle_stage = s.idle_stage + 1 })
        (check-idle (record s { pc = check_packet }) open_ (wait_empty s.memory s.queue holds)
          ∙ ap some (idle-next (record s { pc = check_packet }) (omega arith)))
        (idle-Settles passed k fuel (record s { idle_stage = s.idle_stage + 1 }) (omega arith)
          (omega arith) open_ holds sound)

  -- The queue is served, and then found empty often enough.
  queue-Settles :
      (xs done : List (Ptr × P)) (fuel : ℕ) (s : System P W)
      → 2 * length xs + 258 ≤ fuel
      → s.idle_stage ≤ 255
      → s.closing ≡ false
      → Holds s.memory s.queue xs
      → J done s.work
      → Settles serve J (done ++ xs) fuel (record s { pc = check_packet })
  unfolding thread_step
  queue-Settles [] done fuel s enough stage open_ holds sound =
      rw (append-nil done) (
        idle-Settles done (255 - s.idle_stage) fuel s (omega arith) (omega arith) open_ holds sound)
  queue-Settles (x ∷ xs) done zero s enough stage open_ holds sound = absurd (omega arith)
  queue-Settles (x ∷ xs) done (suc zero) s enough stage open_ holds sound = absurd (omega arith)
  queue-Settles (x ∷ xs) done (suc (suc n)) s enough stage open_ holds sound =
      let (queue', waited, h') = wait_first s.memory s.queue x xs holds in
      let (pos, away, next, found) = first_node-Holds s.memory s.queue x xs holds in
      let (work', served, sound') = serves done x.0 x.1 s.work sound in
      let taken : System P W = record s { queue = queue'; pc = took x.0; idle_stage = 0 } in
      step-Settles (done ++ (x ∷ xs)) (suc n) (record s { pc = check_packet }) taken
        (check-took (record s { pc = check_packet }) x.0 queue' open_ pos waited)
        (step-Settles (done ++ (x ∷ xs)) n taken (record taken { work = work'; pc = check_packet })
          (serve_node-served serve taken x.0 next x.1 work' found served)
          (subst (λ l. Settles serve J l n (record taken { work = work'; pc = check_packet }))
            (append_assoc done (x ∷ []) xs)
            (queue-Settles xs (done ++ (x ∷ [])) n (record taken { work = work' }) (omega arith)
              (omega arith) open_ h' sound')))

  -- A busy loop is done with every node that was passed on, and sleeps, if no other thread takes a
  -- step: two steps for each queued node, and at most 260 more.
  pub busy-Settles :
      (passed : List (Ptr × P)) (fuel : ℕ) (pc : Pc) (s : System P W)
      → (inv : Inv J passed (record s { pc = pc })) → IsBusy pc
      → s.closing ≡ false
      → 2 * length inv.queued + 260 ≤ fuel
      → Settles serve J passed fuel (record s { pc = pc })
  unfolding thread_step
  busy-Settles passed fuel check_packet s inv busy open_ enough =
      rw (inv.split, inv.in_hand)
        (queue-Settles inv.queued inv.done fuel s (omega arith) inv.stage open_ inv.holds inv.sound)
  busy-Settles passed zero pc s inv busy open_ enough = absurd (omega arith)
  busy-Settles passed (suc n) (took p) s inv busy open_ enough =
      let (payload, next, hand, pos, away, found) = inv.in_hand in
      let (work', served, sound') = serves inv.done p payload s.work inv.sound in
      rw (inv.split, hand)
        (step-Settles (inv.done ++ (((p, payload) ∷ []) ++ inv.queued)) n (record s { pc = took p })
          (record s { work = work'; pc = check_packet })
          (serve_node-served serve (record s { pc = took p }) p next payload work' found served)
          (subst (λ l. Settles serve J l n (record s { work = work'; pc = check_packet }))
            (append_assoc inv.done ((p, payload) ∷ []) inv.queued)
            (queue-Settles inv.queued (inv.done ++ ((p, payload) ∷ [])) n
              (record s { work = work' }) (omega arith) inv.stage open_ inv.holds sound')))
  busy-Settles passed (suc n) awake s inv busy open_ enough =
      rw (inv.split, inv.in_hand)
        (step-Settles (inv.done ++ inv.queued) n (record s { pc = awake })
          (record s { executing = true; idle_stage = 0; pc = check_packet }) refl
          (queue-Settles inv.queued inv.done n (record s { executing = true; idle_stage = 0 })
            (omega arith) (omega arith) open_ inv.holds inv.sound))
  busy-Settles passed fuel idling s inv busy open_ enough = absurd busy
  busy-Settles passed fuel locking s inv busy open_ enough = absurd busy
  busy-Settles passed fuel asleep s inv busy open_ enough = absurd busy
  busy-Settles passed fuel returned s inv busy open_ enough = absurd busy
