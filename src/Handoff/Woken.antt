-- ===== src/Handoff/Woken.antt =====
-- A node that is passed on while the loop sleeps wakes it up.
use mathlib.Core.Path.{subst}
use swift_net.Base.{
  ℕ, ◌+◌, ◌*◌, ◌≡◌, ◌≤◌, refl, sym, ap, ◌∙◌, false, Option, some, List, [], ◌∷◌, ◌++◌, length,
  length-append, arith,
}
use swift_net.Queue.{Ptr}
use swift_net.Handoff.{asleep, awake, ready, inserted, System, pass, pass_step, IsFresh}
use swift_net.Handoff.Order.{Inv, is_executing}
use swift_net.Handoff.Passed.{pass-Inv, pass_at-Inv}
use swift_net.Handoff.Alone.{Settles, busy-Settles}

module _ {P W : Type 0} where
  pass_step-awake :
      (s : System P W)
      → s.pc ≡ asleep
      → s.executing ≡ false
      → s.passing ≡ inserted
      → pass_step (pass_step s) ≡ record s { pc = awake; passing = ready }
  unfolding pass_step
  pass_step-awake s sleeps idle gone =
      subst (λ u. pass_step (pass_step u) ≡ record u { pc = awake; passing = ready })
        (λ i. record s { pc = sym sleeps i; executing = sym idle i; passing = sym gone i }) refl

  few_queued :
      (J : List (Ptr × P) → W → Type 0) (passed : List (Ptr × P)) (s : System P W)
      → (inv : Inv J passed s) → length inv.queued ≤ length passed
  few_queued J passed s inv =
      let all : length passed ≡ length (inv.done ++ (inv.hand ++ inv.queued)) =
        ap length inv.split in
      omega
        (arith, length-append inv.done (inv.hand ++ inv.queued), length-append inv.hand inv.queued)

module _ {P W : Type 0} (serve : P → W → Option W) (J : List (Ptr × P) → W → Type 0)
    (serves : (done : List (Ptr × P)) (p : Ptr) (payload : P) (work : W)
      → J done work
      → (work' : W) × (serve payload work ≡ some work')
        × J (done ++ ((p, payload) ∷ [])) work') where
  pub woken :
      (passed : List (Ptr × P)) (s : System P W) (p : Ptr) (payload : P) (fuel : ℕ)
      → Inv J passed s
      → IsFresh p s
      → s.pc ≡ asleep
      → s.closing ≡ false
      → 2 * length passed + 262 ≤ fuel
      → (t : System P W) × (pass p payload s ≡ some t)
        × Settles serve J (passed ++ ((p, payload) ∷ [])) fuel (pass_step (pass_step t))
  unfolding pass_step
  woken passed s p payload fuel inv fresh sleeps open_ enough =
      let more : List (Ptr × P) = passed ++ ((p, payload) ∷ []) in
      let (t, gone, work, pc, closing, executing, passing, inv', _) =
        pass-Inv J passed s p payload inv fresh in
      let idle : t.executing ≡ false = inv'.running ∙ ap is_executing (pc ∙ sleeps) in
      let roused : Inv J more (record t { pc = awake; passing = ready }) =
        subst (λ u. Inv J more u) (pass_step-awake t (pc ∙ sleeps) idle passing)
          (pass_at-Inv J more (pass_step t).passing (pass_step t)
            (pass_at-Inv J more t.passing t inv')) in
      (
        t,
        gone,
        subst (λ u. Settles serve J more fuel u)
            (sym (pass_step-awake t (pc ∙ sleeps) idle passing))
            (busy-Settles serve J serves more fuel awake (record t { passing = ready }) roused tt
              (closing ∙ open_)
              (omega
                (arith, few_queued J more _ roused, length-append passed ((p, payload) ∷ [])))),
      )
