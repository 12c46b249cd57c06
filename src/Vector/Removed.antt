-- ===== src/Vector/Removed.antt =====
-- The removal of a pointer from a vector.
use swift_net.Base.{
  ℕ, ◌+◌, ◌-◌, ◌%◌, ◌^◌, ◌<◌, ◌≤◌, ◌≡◌, refl, sym, ap, inl, inr, some, length, get_or, set, ltb,
  ◌==◌, if◌then◌else◌, arith, Bool-cases, lt→ltb, ==_refl, ==_ne, ℕ_discrete, get_elem?-set_self,
  get_elem?-set_ne, get_elem?-eq-get_or,
}
use swift_net.Vector.{Vector, vector_remove, vector_get}

-- vector_remove with the index of a pointer takes one pointer away: at the index there is the last
-- one then, and every other pointer before the last is where it was. For a vector with room for its
-- size, below 2^32.
pub vector_remove_lem :
    (index i : ℕ) (vector : Vector)
    → index < vector.size
    → vector.size ≤ length vector.data_ptr
    → vector.size < 2 ^ 32
    → i + 1 < vector.size
    → (vector' : Vector) × (vector_remove index vector ≡ some vector')
      × (vector'.size + 1 ≡ vector.size)
      × (vector_get i vector' ≡ vector_get (if i == index then vector.size - 1 else i) vector)
unfolding vector_remove vector_get
vector_remove_lem index i vector inside room small before =
    let last : (vector.size + 2 ^ 32 - 1) % 2 ^ 32 ≡ vector.size - 1 = omega arith in
    let pointer = get_or vector.data_ptr (vector.size - 1) 0 in
    let at_last =
      get_elem?-eq-get_or vector.data_ptr (vector.size - 1) 0 (omega (arith, room, inside)) in
    elim (Bool-cases (ltb index (vector.size - 1))) [
      | inr is_last ↦ (
        record vector { size = vector.size - 1 },
        rw (last, is_last) refl,
        omega (arith, inside),
        rw (==_ne i index (λ e. ground (arith, is_last, before, e))) refl,
      )
      | inl inner ↦ (
        record vector { data_ptr = set vector.data_ptr index pointer; size = vector.size - 1 },
        rw
            (
              last,
              inner,
              at_last,
              lt→ltb index (length vector.data_ptr) (omega (arith, inside, room)),
            )
            (ap
              (λ s. some (record vector { data_ptr = set vector.data_ptr index pointer; size = s }))
              last),
        omega (arith, inside),
        elim (ℕ_discrete i index) [
          | yes e ↦
              rw
                (
                  e,
                  ==_refl index,
                  get_elem?-set_self vector.data_ptr index pointer (omega (arith, inside, room)),
                )
                (sym at_last)
          | no ne ↦
              rw
                (
                  ==_ne i index ne,
                  get_elem?-set_ne vector.data_ptr index i pointer (λ e. ne (sym e)),
                )
                refl
        ],
      )
    ]
