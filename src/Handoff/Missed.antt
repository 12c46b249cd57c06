-- ===== src/Handoff/Missed.antt =====
-- A signal that comes before the loop waits for it is lost.
use mathlib.Core.Path.{subst}
use mathlib.Core.List.{append-nil}
use swift_net.Base.{
  ℕ, zero, suc, ◌+◌, arith, ◌≡◌, refl, sym, ap, ◌∙◌, true, false, Option, some, List, [], ◌∷◌, ◌++◌,
}
use swift_net.Queue.{Ptr, Memory}
use swift_net.Queue.Links.{Holds}
use swift_net.Queue.Fifo.{wait_empty}
use swift_net.Handoff.{
  check_packet, idling, asleep, ready, inserted, joining, unclosed, System, pass_step, close_step,
  thread_step, run, IsFresh, Reach, later, on_thread, on_pass, on_passed, on_close,
}
use swift_net.Handoff.Order.{Inv, is_executing, check-idle, idle-last, idle-next}
use swift_net.Handoff.Passed.{pass-Inv}
use swift_net.Handoff.Alone.{run-asleep}

module _ {P W : Type 0} where
  pass_step-ready :
      (s : System P W)
      → s.executing ≡ true
      → s.passing ≡ inserted
      → pass_step s ≡ record s { passing = ready }
  unfolding pass_step
  pass_step-ready s running gone =
      subst (λ u. pass_step u ≡ record u { passing = ready })
        (λ i. record s { executing = sym running i; passing = sym gone i }) refl

  close_step-joining :
      (s : System P W)
      → s.pc ≡ idling
      → s.closer ≡ unclosed
      → close_step (close_step s) ≡ record s { closing = true; closer = joining }
  unfolding close_step
  close_step-joining s idle here =
      subst (λ u. close_step (close_step u) ≡ record u { closing = true; closer = joining })
        (λ i. record s { pc = sym idle i; closer = sym here i }) refl

module _ {P W : Type 0} (serve : P → W → Option W) (Other : W → W → Type 0) where
  -- Two steps of the loop that is about to sleep.
  pub asleep-Reach :
      {memory : Memory P} {work : W} {passed : List (Ptr × P)} (s : System P W)
      → Reach serve Other memory work passed s
      → s.pc ≡ idling
      → Reach serve Other memory work passed (record s { executing = false; pc = asleep })
  unfolding thread_step
  asleep-Reach {memory} {work} {passed} s r e =
      let here : Reach serve Other memory work passed (record s { pc = idling }) =
        subst (λ u. Reach serve Other memory work passed u) (λ i. record s { pc = e i }) r in
      subst (λ l. Reach serve Other memory work l (record s { executing = false; pc = asleep }))
        (append-nil (passed ++ []) ∙ append-nil passed)
        (later (later here (on_thread refl)) (on_thread refl))

  -- A loop that finds its queue empty gets there.
  pub idling-Reach :
      {memory : Memory P} {work : W} {passed : List (Ptr × P)} (k : ℕ) (s : System P W)
      → Reach serve Other memory work passed (record s { pc = check_packet })
      → s.idle_stage + k ≡ 255
      → s.closing ≡ false
      → Holds s.memory s.queue []
      → Reach serve Other memory work passed (record s { pc = idling; idle_stage = 255 })
  unfolding thread_step
  idling-Reach {memory} {work} {passed} zero s r e open_ holds =
      let last : s.idle_stage ≡ 255 = omega arith in
      subst (λ l. Reach serve Other memory work l (record s { pc = idling; idle_stage = 255 }))
        (append-nil passed)
        (later
          (subst
            (λ i.
              Reach serve Other memory work passed (record s { pc = check_packet; idle_stage = i }))
            last r)
          (on_thread (
            check-idle (record s { pc = check_packet; idle_stage = 255 }) open_
              (wait_empty s.memory s.queue holds)
            ∙ ap some (idle-last (record s { pc = check_packet; idle_stage = 255 }) refl))))
  idling-Reach {memory} {work} {passed} (suc k) s r e open_ holds =
      idling-Reach k (record s { idle_stage = s.idle_stage + 1 })
        (subst
          (λ l.
            Reach serve Other memory work l
              (record s { pc = check_packet; idle_stage = s.idle_stage + 1 }))
          (append-nil passed)
          (later r (
            on_thread (
              check-idle (record s { pc = check_packet }) open_ (wait_empty s.memory s.queue holds)
              ∙ ap some (idle-next (record s { pc = check_packet }) (omega arith))))))
        (omega arith) open_ holds

  -- A node that is inserted, and tested for, right before `executing_packets` is cleared: the loop
  -- sleeps with the node in its queue, and no signal is on its way.
  pub missed-pass :
      {memory : Memory P} {work : W} {passed : List (Ptr × P)} (J : List (Ptr × P) → W → Type 0)
      (s : System P W) (p : Ptr) (payload : P)
      → Reach serve Other memory work passed s
      → (inv : Inv J passed s) → s.pc ≡ idling
      → s.passing ≡ ready
      → IsFresh p s
      → (t : System P W) × Reach serve Other memory work (passed ++ ((p, payload) ∷ [])) t
        × (t.work ≡ s.work)
        × (t.passing ≡ ready)
        × (t.pc ≡ asleep)
        × ((n : ℕ) → run serve n t ≡ some t)
        × (queued : List (Ptr × P)) × Holds t.memory t.queue (queued ++ ((p, payload) ∷ []))
  missed-pass {memory} {work} {passed} J s p payload r inv idle at_start fresh =
      let more : List (Ptr × P) = passed ++ ((p, payload) ∷ []) in
      let (t, gone, same, pc, closing, executing, passing, inv', behind) =
        pass-Inv J passed s p payload inv fresh in
      let running : t.executing ≡ true = inv'.running ∙ ap is_executing (pc ∙ idle) in
      let inserted-Reach : Reach serve Other memory work more t =
        later r (on_pass p payload at_start fresh gone) in
      let ready-Reach : Reach serve Other memory work more (record t { passing = ready }) =
        subst (λ u. Reach serve Other memory work more u) (pass_step-ready t running passing)
          (subst (λ l. Reach serve Other memory work l (pass_step t)) (append-nil more)
            (later inserted-Reach on_passed)) in
      (
        record t { passing = ready; executing = false; pc = asleep },
        asleep-Reach (record t { passing = ready }) ready-Reach (pc ∙ idle),
        same,
        refl,
        refl,
        (λ n. run-asleep serve n (record t { passing = ready; executing = false })),
        inv.queued,
        subst (λ l. Holds t.memory t.queue l) behind inv'.holds,
      )

  -- The same of the signal of `close_threads`, which then joins a thread that sleeps.
  pub missed-close :
      {memory : Memory P} {work : W} {passed : List (Ptr × P)} (s : System P W)
      → Reach serve Other memory work passed s
      → s.pc ≡ idling
      → s.closer ≡ unclosed
      → (t : System P W) × Reach serve Other memory work passed t
        × (t.closer ≡ joining)
        × (t.pc ≡ asleep)
        × ((n : ℕ) → run serve n t ≡ some t)
  missed-close {memory} {work} {passed} s r idle here =
      let closed : Reach serve Other memory work passed
          (record s { closing = true; closer = joining }) =
        subst (λ u. Reach serve Other memory work passed u) (close_step-joining s idle here)
          (subst (λ l. Reach serve Other memory work l (close_step (close_step s)))
            (append-nil (passed ++ []) ∙ append-nil passed) (later (later r on_close) on_close)) in
      (
        record s { closing = true; closer = joining; executing = false; pc = asleep },
        asleep-Reach (record s { closing = true; closer = joining }) closed idle,
        refl,
        refl,
        (λ n.
            run-asleep serve n (record s { closing = true; closer = joining; executing = false })),
      )
