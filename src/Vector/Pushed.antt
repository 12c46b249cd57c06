-- ===== src/Vector/Pushed.antt =====
-- A vector as the list of the pointers that were pushed.
use swift_net.Base.{
  ℕ, zero, suc, ◌+◌, ◌*◌, ◌%◌, ◌^◌, ◌<◌, ◌≤◌, ◌≡◌, refl, ap, ◌∙◌, inl, inr, some, List, [], ◌∷◌,
  ◌++◌, length, set, take, ◌==◌, arith, Bool-cases, lt→ltb, length-set,
}
use swift_net.Vector.{Vector, grow, vector_push}

take-set :
    (n : ℕ) (xs : List ℕ) (x : ℕ)
    → n < length xs
    → take (suc n) (set xs n x) ≡ take n xs ++ (x ∷ [])
take-set n [] x lt = absurd (omega arith)
take-set zero (y ∷ xs) x lt = refl
take-set (suc n) (y ∷ xs) x lt = ap (◌∷◌ y) (take-set n xs x (omega arith))

-- The pointers in a vector.
abbrev pub pointers : Vector → List ℕ
pointers vector = take vector.size vector.data_ptr

-- There is room for the capacity, and something to double.
pub data IsRoomy (vector : Vector) : Type 0 where
  roomy :
      length vector.data_ptr ≡ vector.capacity
      → vector.size ≤ vector.capacity
      → 0 < vector.capacity
      → IsRoomy vector

-- What realloc does: it gives what is asked for, and keeps what both memories have room for.
pub data IsRealloc (realloc : List ℕ → ℕ → List ℕ) : Type 0 where
  reallocates :
      ((memory : List ℕ) (n : ℕ) → length (realloc memory n) ≡ n)
      → ((memory : List ℕ) (n k : ℕ)
          → k ≤ n
          → k ≤ length memory
          → take k (realloc memory n) ≡ take k memory)
      → IsRealloc realloc

push_into :
    (data_ptr : List ℕ) (size capacity pointer : ℕ)
    → length data_ptr ≡ capacity
    → size < capacity
    → capacity < 2 ^ 32
    → let pushed : Vector = record {
      data_ptr = set data_ptr size pointer;
      size = (size + 1) % 2 ^ 32;
      capacity = capacity;
    } in
      IsRoomy pushed × (pointers pushed ≡ take size data_ptr ++ (pointer ∷ []))
push_into data_ptr size capacity pointer width room small =
    let no_wrap : (size + 1) % 2 ^ 32 ≡ suc size = omega arith in
    (
      roomy (length-set data_ptr size pointer ∙ width) (omega arith) (omega arith),
      rw no_wrap (take-set size data_ptr pointer (omega (arith, width, room))),
    )

-- vector_push puts a pointer behind those of the vector, and leaves it with room for its capacity,
-- whether it was full or not; for a capacity from 1 to 2^31 - 1, and a realloc that gives what it is
-- asked for and keeps what was there.
pub vector_push_lem :
    (realloc : List ℕ → ℕ → List ℕ) (pointer : ℕ) (vector : Vector)
    → IsRealloc realloc
    → IsRoomy vector
    → vector.capacity < 2 ^ 31
    → (vector' : Vector) × (vector_push realloc pointer vector ≡ some vector')
      × IsRoomy vector'
      × (pointers vector' ≡ pointers vector ++ (pointer ∷ []))
unfolding vector_push grow
vector_push_lem realloc pointer vector (reallocates gives keeps) (roomy width fits some_room)
      small =
    elim (Bool-cases (vector.size == vector.capacity)) [
      | inl full ↦
          let new_capacity = vector.capacity * 2 % 2 ^ 32 in
          let at : vector.size ≡ vector.capacity = ground (arith, full) in
          let pushed =
            push_into (realloc vector.data_ptr new_capacity) vector.size new_capacity pointer
              (gives vector.data_ptr new_capacity) (omega (arith, at, small, some_room))
              (omega arith) in
          (
            record {
              data_ptr = set (realloc vector.data_ptr new_capacity) vector.size pointer;
              size = (vector.size + 1) % 2 ^ 32;
              capacity = new_capacity;
            },
            rw
                (
                  full,
                  gives vector.data_ptr new_capacity,
                  lt→ltb vector.size new_capacity (omega (arith, at, small, some_room)),
                )
                refl,
            pushed.0,
            pushed.1
                ∙ rw
                    (keeps vector.data_ptr new_capacity vector.size (omega (arith, at, small))
                      (omega (arith, at, width)))
                    refl,
          )
      | inr room ↦
          let below : vector.size < vector.capacity = ground (arith, room, fits) in
          let pushed =
            push_into vector.data_ptr vector.size vector.capacity pointer width below
              (omega arith) in
          (
            record {
              data_ptr = set vector.data_ptr vector.size pointer;
              size = (vector.size + 1) % 2 ^ 32;
              capacity = vector.capacity;
            },
            rw (room, lt→ltb vector.size (length vector.data_ptr) (omega (arith, width, below)))
                refl,
            pushed.0,
            pushed.1,
          )
    ]
