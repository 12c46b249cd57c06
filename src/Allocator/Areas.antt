-- ===== src/Allocator/Areas.antt =====
-- The blocks of the stacks do not overlap.
use native.Mathlib.Nat.{suc-mul, zero-mul, zero-add}
use swift_net.Base.{
  ℕ, zero, suc, ◌+◌, ◌*◌, ◌%◌, ◌^◌, ◌≤◌, ◌<◌, ◌≡◌, ◌⊎◌, List, [], ◌++◌, arith, inl, inr, ℕ_discrete,
  ==_false,
}
use swift_net.Allocator.{pointers_from}
use swift_net.Allocator.Stacks.{occurrences, occurrences-append}
use swift_net.Allocator.Calls.{blocks_of}

-- The areas that `malloc` has given do not overlap, and their sizes do not wrap around.
pub record AreApart (malloc : ℕ → ℕ) (item_size chunk_item_amount : ℕ) : Type 0 where
  pub some_size : 0 < item_size
  pub no_wrap : chunk_item_amount * item_size < 2 ^ 32
  pub apart :
      (m n : ℕ)
      → m < n
      → (malloc m + chunk_item_amount * item_size ≤ malloc n)
        ⊎ (malloc n + chunk_item_amount * item_size ≤ malloc m)

-- `x` lies in the `n` bytes at `start`.
abbrev IsWithin : ℕ → ℕ → ℕ → Type 0
IsWithin start n x = (start ≤ x) × (x < start + n)

pointers-IsWithin :
    (memory item_size i count x : ℕ)
    → 0 < item_size
    → (i + count) * item_size < 2 ^ 32
    → 0 < occurrences x (pointers_from memory item_size i count)
    → IsWithin (memory + i * item_size) (count * item_size) x
unfolding pointers_from occurrences
pointers-IsWithin memory item_size i zero x pos wrap some_x = absurd (omega arith)
pointers-IsWithin memory item_size i (suc count) x pos wrap some_x =
    let e : (i + suc count) * item_size ≡ i * item_size + suc count * item_size = grind arith in
    let s = suc-mul count item_size in
    let e' : (i + 1 + count) * item_size ≡ i * item_size + suc count * item_size = grind arith in
    let one : (i + 1) * item_size ≡ i * item_size + item_size = grind arith in
    elim (ℕ_discrete x (memory + i * item_size)) [
      | yes here ↦ (omega arith, omega (arith, here, s, pos))
      | no other ↦
          let exact : i * item_size % 2 ^ 32 ≡ i * item_size = omega (arith, wrap, e, s) in
          let skip = ==_false x (memory + i * item_size) other in
          let rest =
            pointers-IsWithin memory item_size (i + 1) count x pos (omega (arith, wrap, e, e'))
              (omega (arith, rw (exact, skip) at some_x)) in
          (omega (arith, rest.0, one), omega (arith, rest.1, one, s))
    ]

pointers-once :
    (memory item_size i count x : ℕ)
    → 0 < item_size
    → (i + count) * item_size < 2 ^ 32
    → occurrences x (pointers_from memory item_size i count) ≤ 1
unfolding pointers_from occurrences
pointers-once memory item_size i zero x pos wrap = omega arith
pointers-once memory item_size i (suc count) x pos wrap =
    let e : (i + suc count) * item_size ≡ i * item_size + suc count * item_size = grind arith in
    let s = suc-mul count item_size in
    let e' : (i + 1 + count) * item_size ≡ i * item_size + suc count * item_size = grind arith in
    let one : (i + 1) * item_size ≡ i * item_size + item_size = grind arith in
    let exact : i * item_size % 2 ^ 32 ≡ i * item_size = omega (arith, wrap, e, s) in
    let rest_wrap : (i + 1 + count) * item_size < 2 ^ 32 = omega (arith, wrap, e, e') in
    let rest = pointers-once memory item_size (i + 1) count x pos rest_wrap in
    elim (ℕ_discrete x (memory + i * item_size)) [
      | no other ↦ rw (exact, ==_false x (memory + i * item_size) other) (omega (arith, rest))
      | yes here ↦
          elim (ℕ_discrete (occurrences x (pointers_from memory item_size (i + 1) count)) 0) [
            | yes none_more ↦ ground (arith, none_more)
            | no more ↦
                let within =
                  pointers-IsWithin memory item_size (i + 1) count x pos rest_wrap
                    (omega (arith, more)) in
                absurd (omega (arith, within.0, one, here, pos))
          ]
    ]

module _ (malloc : ℕ → ℕ) (item_size chunk_item_amount : ℕ) where
  -- The blocks of the first `n` stacks.
  unfoldable pub all_blocks : ℕ → List ℕ
  all_blocks zero = []
  all_blocks (suc n) = all_blocks n ++ blocks_of malloc item_size chunk_item_amount n

  module _ (areas : AreApart malloc item_size chunk_item_amount) where
    block-IsWithin :
        (n x : ℕ)
        → 0 < occurrences x (blocks_of malloc item_size chunk_item_amount n)
        → IsWithin (malloc n) (chunk_item_amount * item_size) x
    block-IsWithin n x some_x =
        let none : 0 * item_size ≡ 0 = zero-mul item_size in
        let wrap : (0 + chunk_item_amount) * item_size < 2 ^ 32 =
          rw (zero-add chunk_item_amount) areas.no_wrap in
        let within =
          pointers-IsWithin (malloc n) item_size 0 chunk_item_amount x areas.some_size wrap
            some_x in
        (omega (arith, within.0, none), omega (arith, within.1, none))

    -- Every block belongs to the area of one stack.
    all_blocks-area :
        (n x : ℕ)
        → 0 < occurrences x (all_blocks n)
        → (m : ℕ) × (m < n) × IsWithin (malloc m) (chunk_item_amount * item_size) x
    unfolding all_blocks occurrences
    all_blocks-area zero x some_x = absurd (omega arith)
    all_blocks-area (suc n) x some_x =
        let new = blocks_of malloc item_size chunk_item_amount n in
        elim (ℕ_discrete (occurrences x new) 0) [
          | no here ↦ (n, omega arith, block-IsWithin n x (omega (arith, here)))
          | yes none ↦
              let (m, lt, within) =
                all_blocks-area n x
                  (omega (arith, none, some_x, occurrences-append x (all_blocks n) new)) in
              (m, omega arith, within)
        ]

    pub all_blocks-once : (n x : ℕ) → occurrences x (all_blocks n) ≤ 1
    unfolding all_blocks occurrences
    all_blocks-once zero x = omega arith
    all_blocks-once (suc n) x =
        let new = blocks_of malloc item_size chunk_item_amount n in
        let split = occurrences-append x (all_blocks n) new in
        let wrap : (0 + chunk_item_amount) * item_size < 2 ^ 32 =
          rw (zero-add chunk_item_amount) areas.no_wrap in
        let new_once =
          pointers-once (malloc n) item_size 0 chunk_item_amount x areas.some_size wrap in
        elim (ℕ_discrete (occurrences x new) 0) [
          | yes none ↦ omega (arith, split, none, all_blocks-once n x)
          | no here ↦ elim (ℕ_discrete (occurrences x (all_blocks n)) 0) [
            | yes none ↦ omega (arith, split, none, new_once)
            | no there ↦
                let (m, lt, old) = all_blocks-area n x (omega (arith, there)) in
                let within = block-IsWithin n x (omega (arith, here)) in
                elim (areas.apart m n lt) [
                  | inl before ↦ absurd (omega (arith, before, old.1, within.0))
                  | inr behind ↦ absurd (omega (arith, behind, within.1, old.0))
                ]
          ]
        ]
