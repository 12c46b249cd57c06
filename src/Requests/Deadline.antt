-- ===== src/Requests/Deadline.antt =====
-- The time limit of a request.
use swift_net.Base.{
  ℕ, ◌+◌, ◌*◌, ◌%◌, ◌^◌, ◌≤◌, ◌<◌, ◌≡◌, refl, true, Option, none, some, List, [], ◌∷◌, map, ltb,
  if◌then◌else◌, arith, lt→ltb,
}
use swift_net.Requests.{expired, Outcome, timed_out, answered, wait_response}

-- The loop against a clock that does not wrap around.
unfoldable pub first_outcome : ℕ → List (ℕ × Option (List ℕ)) → Option Outcome
first_outcome deadline [] = none
first_outcome deadline ((now, packet_data) ∷ readings) =
    let rest = first_outcome deadline readings in
    if ltb deadline now
    then some timed_out
    else elim packet_data [ some response ↦ some (answered response) | none ↦ rest ]

-- The readings of the clock, of an era of 2^32 milliseconds that began at `era`, in 32 bits.
abbrev pub in_32_bits : List (ℕ × Option (List ℕ)) → List (ℕ × Option (List ℕ))
in_32_bits readings = map (λ r. (r.0 % 2 ^ 32, r.1)) readings

-- Every reading lies in the era.
abbrev pub AreWithin : ℕ → List (ℕ × Option (List ℕ)) → Type 0
AreWithin era [] = era ≤ era
AreWithin era ((now, packet_data) ∷ readings) =
    (era * 2 ^ 32 ≤ now) × (now < era * 2 ^ 32 + 2 ^ 32) × AreWithin era readings

same_test :
    (era start timeout_ms now : ℕ)
    → era * 2 ^ 32 ≤ start
    → start + timeout_ms < era * 2 ^ 32 + 2 ^ 32
    → era * 2 ^ 32 ≤ now
    → now < era * 2 ^ 32 + 2 ^ 32
    → ltb ((start % 2 ^ 32 + timeout_ms) % 2 ^ 32) (now % 2 ^ 32) ≡ ltb (start + timeout_ms) now
same_test era start timeout_ms now begun ends from to = ground arith

-- While neither the clock nor the deadline leaves an era of 2^32 milliseconds, the loop gives what a
-- loop on a clock that does not wrap around would give: the first response that is read no later
-- than the deadline, or a time-out at the first reading past it.
pub wait_response-first_outcome :
    (era start timeout_ms : ℕ) (readings : List (ℕ × Option (List ℕ)))
    → era * 2 ^ 32 ≤ start
    → start + timeout_ms < era * 2 ^ 32 + 2 ^ 32
    → AreWithin era readings
    → wait_response (start % 2 ^ 32) timeout_ms (in_32_bits readings)
      ≡ first_outcome (start + timeout_ms) readings
unfolding wait_response first_outcome expired
wait_response-first_outcome era start timeout_ms [] begun ends within = refl
wait_response-first_outcome era start timeout_ms ((now, some response) ∷ readings) begun ends
      within =
    rw (same_test era start timeout_ms now begun ends within.0 within.1) refl
wait_response-first_outcome era start timeout_ms ((now, none) ∷ readings) begun ends within =
    rw
      (
        same_test era start timeout_ms now begun ends within.0 within.1,
        wait_response-first_outcome era start timeout_ms readings begun ends within.2,
      )
      refl

-- Where the time limit takes the deadline past the end of the era of the start, the request times out
-- at the first reading of the clock, whether it has been answered or not. This is for a time limit below
-- 2^32 and a first reading that is still in the era of the start and not before it.
pub wait_response-wraps :
    (start timeout_ms now : ℕ) (packet_data : Option (List ℕ))
    (readings : List (ℕ × Option (List ℕ)))
    → now < 2 ^ 32
    → start ≤ now
    → timeout_ms < 2 ^ 32
    → 2 ^ 32 ≤ start + timeout_ms
    → wait_response start timeout_ms ((now, packet_data) ∷ readings) ≡ some timed_out
unfolding wait_response expired
wait_response-wraps start timeout_ms now packet_data readings in_era later short past =
    let late : ltb ((start + timeout_ms) % 2 ^ 32) now ≡ true = lt→ltb _ _ (omega arith) in
    rw late refl
