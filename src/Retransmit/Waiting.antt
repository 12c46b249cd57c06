-- ===== src/Retransmit/Waiting.antt =====
-- The sender's loop while no answer comes.
use native.Mathlib.Nat.{zero-add, add-zero, suc-add, zero-mul}
use swift_net.Base.{
  ℕ, zero, suc, ◌+◌, ◌*◌, ◌≡◌, refl, ◌∙◌, Option, none, some, List, arith, ◌<◌, lt→ltb, subst_some,
  some_of_none, Option-cases, inl, inr,
}
use swift_net.Control.Peers.{no_update}
use swift_net.Retransmit.{Sender, requesting, polling, poll, step_from, step}

-- The sender about to ask, having asked `n` times.
abbrev pub asking : Sender → ℕ → Sender
asking sender n = record sender { phase = requesting; requests = n }

module _ (crc32 : List ℕ → ℕ) (prepend_size mtu packet_length packet_data_start : ℕ)
    (prepend_buffer : List ℕ) where
  -- `n` steps of the loop.
  pub steps : ℕ → Sender → Option Sender
  steps zero sender = some sender
  steps (suc n) sender =
      elim (step crc32 prepend_size mtu packet_length packet_data_start prepend_buffer sender) [
        | none ↦ none
        | some sender' ↦ steps n sender'
      ]

  steps-add :
      (m n : ℕ) (sender sender' : Sender)
      → steps m sender ≡ some sender'
      → steps (m + n) sender ≡ steps n sender'
  unfolding steps
  steps-add zero n sender sender' e =
      rw (zero-add n) (subst_some (λ s. steps n sender ≡ steps n s) sender sender' e refl)
  steps-add (suc m) n sender sender' e =
      rw (suc-add m n)
        (elim (Option-cases
          (step crc32 prepend_size mtu packet_length packet_data_start prepend_buffer sender)) [
            | inl fault ↦ some_of_none sender' (rw (steps, fault) at e)
            | inr (next, done) ↦
                rw (steps, done) (steps-add m n next sender' (rw (steps, done) at e))
          ])

  module _ (sender : Sender) (unanswered : sender.packet_sending.updated ≡ no_update) where
    looked :
        (t : ℕ)
        → t < 255
        → step crc32 prepend_size mtu packet_length packet_data_start prepend_buffer
            (record sender { phase = polling t })
          ≡ some (record sender { phase = polling (t + 1) })
    unfolding step step_from poll
    looked t lt = simp (lt→ltb t 255 lt, unanswered) refl

    gave_up :
        step crc32 prepend_size mtu packet_length packet_data_start prepend_buffer
          (record sender { phase = polling 255 })
        ≡ some (record sender { phase = requesting })
    unfolding step step_from poll
    gave_up = refl

    polls :
        (k t : ℕ)
        → k + t ≡ 255
        → steps (suc k) (record sender { phase = polling t })
          ≡ some (record sender { phase = requesting })
    unfolding steps
    polls zero t e = let at_end : t ≡ 255 = omega (arith, e) in rw at_end (rw (steps, gave_up) refl)
    polls (suc k) t e = rw (steps, looked t (omega (arith, e))) (polls k (t + 1) (omega (arith, e)))

    asked :
        steps 1 (record sender { phase = requesting })
        ≡ some (record sender { phase = polling 0; requests = sender.requests + 1 })
    unfolding steps step step_from
    asked = refl

  module _ (sender : Sender) (unanswered : sender.packet_sending.updated ≡ no_update) where
    once : (n : ℕ) → steps 257 (asking sender n) ≡ some (asking sender (n + 1))
    once n =
        steps-add 1 256 (asking sender n)
          (record (asking sender n) { phase = polling 0; requests = n + 1 })
          (asked (asking sender n) unanswered)
        ∙ polls (record sender { requests = n + 1 }) unanswered 255 0 refl

    -- While its entry does not change, a sender asks for the list of lost chunks again every 257
    -- steps, for ever: it sends no chunk again and does not return.
    pub steps-asking :
        (rounds n : ℕ) → steps (rounds * 257) (asking sender n) ≡ some (asking sender (n + rounds))
    unfolding steps
    steps-asking zero n = rw (zero-mul 257, add-zero n) refl
    steps-asking (suc rounds) n =
        let count : suc rounds * 257 ≡ 257 + rounds * 257 = omega arith in
        let moved : n + suc rounds ≡ n + 1 + rounds = omega arith in
        rw (count, moved)
          (steps-add 257 (rounds * 257) (asking sender n) (asking sender (n + 1)) (once n)
            ∙ steps-asking rounds (n + 1))
