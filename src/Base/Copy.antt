-- ===== src/Base/Copy.antt =====
-- A buffer around the bytes that `memcpy` writes.
use native.Mathlib.Nat.{add-zero}
use Prim.Native.Nat.{ℕ, ◌+◌, ◌-◌, ◌≤◌, min}
use mathlib.Core.Path.{◌≡◌, ◌∙◌}
use mathlib.Core.List.{[], List, ◌++◌, append_assoc}
use native.Mathlib.Omega.{arith}
use swift_net.Base.Lists.{
  length, take, drop, length-append, length-take, length-drop, take-append-drop,
}
use swift_net.Base.Buffer.{
  memcpy, drop-append_add, drop-append_le, take-append_le, drop-take, take-take,
}

-- What `memcpy` leaves in front of the bytes that it writes,
pub before-memcpy :
    (h bytes : List ℕ) (k p n : ℕ)
    → k ≤ length h
    → p + n ≤ k
    → take n (drop p (memcpy h k bytes)) ≡ take n (drop p h)
unfolding memcpy
before-memcpy h bytes k p n le in_front =
    let rest = bytes ++ drop (k + length bytes) h in
    let width : length (take k h) ≡ k = length-take k h ∙ omega arith in
    let room : n ≤ length (drop p (take k h)) = omega (arith, width, length-drop p (take k h)) in
    let short : min n (k - p) ≡ n = omega arith in
    rw (
      drop-append_le (take k h) rest p (omega (arith, width)),
      take-append_le (drop p (take k h)) rest n room,
      drop-take p k h,
      take-take n (k - p) (drop p h),
      short,
    )

-- behind them,
pub after-memcpy :
    (h bytes : List ℕ) (k q : ℕ)
    → k ≤ length h
    → drop (k + length bytes + q) (memcpy h k bytes) ≡ drop q (drop (k + length bytes) h)
unfolding memcpy
after-memcpy h bytes k q le =
    let width : length (take k h ++ bytes) ≡ k + length bytes =
      length-append (take k h) bytes ∙ rw (length-take k h) (omega arith) in
    rw (← append_assoc (take k h) bytes (drop (k + length bytes) h))
      (rw width at (drop-append_add (take k h ++ bytes) (drop (k + length bytes) h) q))

-- and at their place.
pub at-memcpy :
    (h bytes : List ℕ) (k : ℕ)
    → k ≤ length h
    → drop k (memcpy h k bytes) ≡ bytes ++ drop (k + length bytes) h
unfolding memcpy
at-memcpy h bytes k le =
    let width : length (take k h) ≡ k = length-take k h ∙ omega arith in
    rw (width, add-zero k) at (drop-append_add (take k h) (bytes ++ drop (k + length bytes) h) 0)

-- Copying nothing changes nothing.
pub memcpy-nil : (h : List ℕ) (k : ℕ) → memcpy h k [] ≡ h
unfolding memcpy
memcpy-nil h k = rw (add-zero k) (take-append-drop k h)
