-- ===== src/Allocator/Locks.antt =====
-- `free_stack_lock` on the word of locks.
use native.Mathlib.Nat.{one-le-pow}
use swift_net.Base.{ℕ, ◌^◌, ◌≤◌, ◌<◌, ◌≡◌, refl, ◌∙◌, some, bit_and, arith, lt→ltb}
use swift_net.Base.Bits.{bit_not, test_bit, test_bit-bit_and, test_bit_high}
use swift_net.Allocator.{Allocator, free_stack_lock}

-- Giving up the lock of one stack below the 32nd takes away the locks of all stacks from the 32nd on,
-- whoever holds them.
pub free_stack_lock-high :
    (index i : ℕ) (allocator : Allocator)
    → index < 32
    → 32 ≤ i
    → (released : Allocator) × (free_stack_lock index allocator ≡ some released)
      × (test_bit released.occupied i ≡ 0)
unfolding free_stack_lock bit_not
free_stack_lock-high index i allocator low high =
    let mask = bit_not 32 (2 ^ index) in
    (
      record allocator { occupied = bit_and allocator.occupied mask },
      rw (free_stack_lock, lt→ltb index 32 low) refl,
      test_bit-bit_and allocator.occupied mask i
          ∙ omega (arith, test_bit_high 32 mask i (omega (arith, one-le-pow index 2)) high),
    )
