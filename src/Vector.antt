-- ===== src/Vector.antt =====
-- src/internal/datatype_vector.c: a growable array of pointers.
-- `data` has a word for every slot that the allocation has, in use or not; a write behind it is `none`.
pub mod Pushed
pub mod Removed
mod Tests
use swift_net.Base.{
  ℕ, ◌+◌, ◌*◌, ◌-◌, ◌%◌, ◌^◌, Option, none, some, List, length, get_elem?, set, ltb, ◌==◌,
  if◌then◌else◌,
}

-- `SwiftNetVector`
pub record Vector : Type 0 where
  pub data_ptr : List ℕ
  pub size : ℕ
  pub capacity : ℕ

-- `vector_create`, for what malloc gives for a number of slots.
unfoldable pub vector_create : (ℕ → List ℕ) → ℕ → Vector
vector_create malloc starting_amount = record {
  data_ptr = malloc starting_amount;
  size = 0;
  capacity = starting_amount;
}

-- The branch of `vector_push` for a vector that is full.
unfoldable pub grow : (List ℕ → ℕ → List ℕ) → Vector → Vector
grow realloc vector =
    let new_capacity = vector.capacity * 2 % 2 ^ 32 in
    if vector.size == vector.capacity
    then record vector { capacity = new_capacity; data_ptr = realloc vector.data_ptr new_capacity }
    else vector

-- `vector_push`
unfoldable pub vector_push : (List ℕ → ℕ → List ℕ) → ℕ → Vector → Option Vector
unfolding grow
vector_push realloc pointer vector =
    let grown = grow realloc vector in
    if ltb vector.size (length grown.data_ptr)
    then some (record grown {
      data_ptr = set grown.data_ptr vector.size pointer;
      size = (vector.size + 1) % 2 ^ 32;
    })
    else none

-- `vector_get`
unfoldable pub vector_get : ℕ → Vector → Option ℕ
vector_get index vector = get_elem? vector.data_ptr index

-- `vector_remove`: the last pointer takes the place of the one that goes.
unfoldable pub vector_remove : ℕ → Vector → Option Vector
vector_remove index vector =
    let last = (vector.size + 2 ^ 32 - 1) % 2 ^ 32 in
    if ltb index last
    then elim (get_elem? vector.data_ptr last) [
      | none ↦ none
      | some pointer ↦
          if ltb index (length vector.data_ptr)
          then some (record vector { data_ptr = set vector.data_ptr index pointer; size = last })
          else none
    ]
    else some (record vector { size = last })
