-- ===== src/Allocator.antt =====
-- src/internal/datatype_allocator.c: blocks of one size, handed out from stacks of free pointers.
--
-- The model is of calls one after the other; `occupied` keeps its locks all the same, and its
-- compare-and-swap its test. Addresses are numbers. `malloc n` is the address of the memory that the
-- n-th stack is given. `none` is what C leaves undefined: a shift by 32 or more, or an access
-- outside of an array.
pub mod Find
pub mod Stacks
pub mod Calls
pub mod Areas
pub mod Use
pub mod Locks
mod Tests
use swift_net.Base.{
  ℕ, zero, suc, ◌+◌, ◌-◌, ◌*◌, ◌%◌, ◌^◌, bit_and, bit_or, Bool, true, false, ◌&&◌, Option, none,
  some, List, [], ◌∷◌, ◌++◌, length, get_elem?, set, ltb, leb, ◌==◌,
}
use swift_net.Base.Bits.{bit_not}
use swift_net.Hashmap.Loop.{count_trailing_zeros}

-- `SwiftNetMemoryAllocatorStack`; the first `size` of `pointers` are free.
pub record Stack : Type 0 where
  pub pointers : List ℕ
  pub data_start : ℕ
  pub size : ℕ
  pub index : ℕ

-- `SwiftNetMemoryAllocator`; `stacks_allocated` is the length of `stacks`.
pub record Allocator : Type 0 where
  pub occupied : ℕ
  pub stacks : List Stack
  pub item_size : ℕ
  pub chunk_item_amount : ℕ

-- `free_stack_lock`
unfoldable pub free_stack_lock : ℕ → Allocator → Option Allocator
unfolding bit_not
free_stack_lock index allocator = elim (ltb index 32) [
  | false ↦ none
  | true ↦
      some (record allocator { occupied = bit_and allocator.occupied (bit_not 32 (2 ^ index)) })
]

-- What a stack is looked for.
pub data Purpose : Type 0 where
  for_freeing : Purpose
  for_allocation : Purpose

-- `valid_size`
unfoldable pub valid_size : Purpose → ℕ → ℕ → Bool
valid_size for_freeing chunk_item_amount stack_size = ltb stack_size chunk_item_amount
valid_size for_allocation chunk_item_amount stack_size =
    leb stack_size chunk_item_amount && ltb 0 stack_size

-- `find_free_pointer_stack` from `find_free_stack` on: the place of a stack that is locked now, if
-- there is one.
unfoldable pub find_free_stack : ℕ → Purpose → ℕ → ℕ → Allocator → Option (Option ℕ × Allocator)
find_free_stack zero purpose bitmap invalid_bitmap allocator = none
find_free_stack (suc rounds) purpose bitmap invalid_bitmap allocator =
    let taken = bit_or bitmap invalid_bitmap in
    elim (taken == 2 ^ 64 - 1) [
      | true ↦ some (none, allocator)
      | false ↦
          let first_free = count_trailing_zeros 64 (bit_not 64 taken) in
          elim (get_elem? allocator.stacks first_free) [
            | none ↦ some (none, allocator)
            | some stack ↦ elim (bitmap == allocator.occupied) [
              | false ↦ find_free_stack rounds purpose allocator.occupied invalid_bitmap allocator
              | true ↦
                  let locked = record allocator { occupied = bit_or bitmap (2 ^ first_free) } in
                  elim (valid_size purpose allocator.chunk_item_amount stack.size) [
                    | true ↦ some (some first_free, locked)
                    | false ↦ elim (free_stack_lock stack.index locked) [
                      | none ↦ none
                      | some released ↦
                          find_free_stack rounds purpose bitmap
                            (bit_or invalid_bitmap (2 ^ first_free)) released
                    ]
                  ]
            ]
          ]
    ]

unfoldable pub find_free_pointer_stack : Purpose → Allocator → Option (Option ℕ × Allocator)
find_free_pointer_stack purpose allocator =
    find_free_stack 65 purpose allocator.occupied 0 allocator

-- The pointers to `count` items from the `i`-th on.
unfoldable pub pointers_from : ℕ → ℕ → ℕ → ℕ → List ℕ
pointers_from memory item_size i zero = []
pointers_from memory item_size i (suc count) =
    (memory + i * item_size % 2 ^ 32) ∷ pointers_from memory item_size (i + 1) count

abbrev new_stack : ℕ → ℕ → ℕ → ℕ → Stack
new_stack memory item_size chunk_item_amount index = record {
  pointers = pointers_from memory item_size 0 chunk_item_amount;
  data_start = memory;
  size = chunk_item_amount;
  index = index;
}

module _ (malloc : ℕ → ℕ) where
  -- `allocator_create`
  unfoldable pub allocator_create : ℕ → ℕ → Allocator
  unfolding pointers_from
  allocator_create item_size chunk_item_amount = record {
    occupied = 0;
    stacks = new_stack (malloc 0) item_size chunk_item_amount 0 ∷ [];
    item_size = item_size;
    chunk_item_amount = chunk_item_amount;
  }

  -- `create_new_stack`; the array of stacks has 64 places.
  unfoldable pub create_new_stack : Allocator → Option Allocator
  unfolding pointers_from
  create_new_stack allocator =
      let count = length allocator.stacks in
      elim (ltb count 64) [
        | false ↦ none
        | true ↦ some (record allocator {
          stacks =
              allocator.stacks
              ++ (new_stack (malloc count) allocator.item_size allocator.chunk_item_amount count
                  ∷ []);
        })
      ]

  -- `allocator_allocate` behind the search: a pointer off the `k`-th stack, whose lock is given up.
  unfoldable pub pop_pointer : ℕ → Allocator → Option (ℕ × Allocator)
  pop_pointer k allocator = elim (get_elem? allocator.stacks k) [
    | none ↦ none
    | some stack ↦ elim (get_elem? stack.pointers (stack.size - 1)) [
      | none ↦ none
      | some item ↦
          let popped = record stack { size = stack.size - 1 } in
          elim (free_stack_lock stack.index
            (record allocator { stacks = set allocator.stacks k popped })) [
              | none ↦ none
              | some released ↦ some (item, released)
            ]
    ]
  ]

  -- `allocator_allocate`, calling itself `rounds` times at most.
  unfoldable pub allocator_allocate : ℕ → Allocator → Option (ℕ × Allocator)
  allocator_allocate zero allocator = none
  allocator_allocate (suc rounds) allocator =
      elim (find_free_pointer_stack for_allocation allocator) [
        | none ↦ none
        | some (some k, locked) ↦ pop_pointer k locked
        | some (none, unlocked) ↦ elim (create_new_stack unlocked) [
          | none ↦ none
          | some grown ↦ allocator_allocate rounds grown
        ]
      ]

  -- `allocator_free` behind the search.
  unfoldable pub push_pointer : ℕ → ℕ → Allocator → Option Allocator
  push_pointer memory_location k allocator = elim (get_elem? allocator.stacks k) [
    | none ↦ none
    | some stack ↦ elim (ltb stack.size (length stack.pointers)) [
      | false ↦ none
      | true ↦
          let pushed = record stack {
            size = stack.size + 1;
            pointers = set stack.pointers stack.size memory_location;
          } in
          free_stack_lock stack.index (record allocator { stacks = set allocator.stacks k pushed })
    ]
  ]

  -- `allocator_free`, calling itself `rounds` times at most.
  unfoldable pub allocator_free : ℕ → ℕ → Allocator → Option Allocator
  allocator_free zero memory_location allocator = none
  allocator_free (suc rounds) memory_location allocator =
      elim (find_free_pointer_stack for_freeing allocator) [
        | none ↦ none
        | some (some k, locked) ↦ push_pointer memory_location k locked
        | some (none, unlocked) ↦ elim (create_new_stack unlocked) [
          | none ↦ none
          | some grown ↦ allocator_free rounds memory_location grown
        ]
      ]
