-- ===== src/Allocator/Tests.antt =====
-- An allocator of blocks of eight bytes, two to a stack.
use swift_net.Base.{ℕ, ◌+◌, ◌*◌, ◌≤◌, ◌≡◌, refl, inl, some, [], ◌∷◌, ◌++◌, length, arith}
use swift_net.Base.Bits.{test_bit, bit_not}
use swift_net.Allocator.{
  Allocator, allocator_create, allocator_allocate, allocator_free, free_stack_lock,
  find_free_pointer_stack, find_free_stack, valid_size, pop_pointer,
}
use swift_net.Hashmap.Loop.{count_trailing_zeros}
use swift_net.Allocator.Areas.{AreApart}
use swift_net.Allocator.Find.{idle}
use swift_net.Allocator.Locks.{free_stack_lock-high}
use swift_net.Allocator.Stacks.{occurrences, available}
use swift_net.Allocator.Use.{
  Reach, created, allocated, reached-occurrences, reached-allocator_allocate,
  reached-allocator_free,
}

abbrev memory : ℕ → ℕ
memory n = 4096 + n * 16

memory-AreApart : AreApart memory 8 2
memory-AreApart = record {
  some_size = omega arith;
  no_wrap = omega arith;
  apart = λ m n lt. inl (omega arith);
}

-- One block is held.
abbrev used : Allocator
used =
    idle 8 2 (record { pointers = 4096 ∷ 4104 ∷ []; data_start = 4096; size = 1; index = 0 } ∷ [])

allocate_run : allocator_allocate memory 2 (allocator_create memory 8 2) ≡ some (4104, used)
unfolding allocator_allocate allocator_create find_free_pointer_stack find_free_stack
    count_trailing_zeros bit_not valid_size pop_pointer free_stack_lock
allocate_run = refl

used-Reach : Reach memory 8 2 used (4104 ∷ [])
used-Reach = allocated created (omega arith) allocate_run

reached-occurrences_example : occurrences 4104 ((4104 ∷ []) ++ available used.stacks) ≤ 1
reached-occurrences_example =
    reached-occurrences memory 8 2 used (4104 ∷ []) memory-AreApart used-Reach 4104

reached-allocator_allocate_example :
    (p : ℕ) × (allocator' : Allocator) × (allocator_allocate memory 2 used ≡ some (p, allocator'))
reached-allocator_allocate_example =
    reached-allocator_allocate memory 8 2 used (4104 ∷ []) used-Reach (omega arith)

reached-allocator_free_example :
    (allocator' : Allocator) × (allocator_free memory 1 4104 used ≡ some allocator')
    × (length allocator'.stacks ≡ length used.stacks)
reached-allocator_free_example = reached-allocator_free memory 8 2 used [] [] 4104 used-Reach

free_stack_lock-high_example :
    (released : Allocator) × (free_stack_lock 3 used ≡ some released)
    × (test_bit released.occupied 40 ≡ 0)
free_stack_lock-high_example = free_stack_lock-high 3 40 used (omega arith) (omega arith)
