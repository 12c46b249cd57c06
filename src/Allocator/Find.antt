-- ===== src/Allocator/Find.antt =====
-- The search for a stack, where no stack is locked.
use native.Mathlib.Nat.{pow-suc, one-le-pow}
use native.Mathlib.Numerals.{add-one}
use swift_net.Base.{
  ℕ, zero, suc, ◌+◌, ◌-◌, ◌/◌, ◌%◌, ◌^◌, ◌≤◌, ◌<◌, ◌≡◌, refl, bit_and, bit_or, true, false, Option,
  none, some, List, [], ◌∷◌, ◌++◌, length, get_elem?, ◌==◌, inl, inr, Bool-cases, arith, ==_false,
  lt→ltb, append_assoc, length-append,
}
use swift_net.Base.Bits.{
  bit_not, zero-bit_or, zero-bit_and, bit_or_halves, bit_and_halves, pow-lt-pow,
}
use swift_net.Hashmap.Loop.{count_trailing_zeros}
use swift_net.Allocator.{
  Stack, Allocator, Purpose, valid_size, free_stack_lock, find_free_stack, find_free_pointer_stack,
}

-- The lowest clear bit of `2 ^ k - 1`.
lowest_clear : (w k : ℕ) → k < w → count_trailing_zeros w (2 ^ w - 2 ^ k) ≡ k
unfolding count_trailing_zeros
lowest_clear zero k lt = absurd (omega arith)
lowest_clear (suc w) zero lt =
    let odd : ((2 ^ suc w - 1) % 2 == 1) ≡ true = ground (arith, pow-suc 2 w, one-le-pow w 2) in
    rw odd refl
lowest_clear (suc w) (suc k) lt =
    let less = pow-lt-pow k w (omega arith) in
    let even : ((2 ^ suc w - 2 ^ suc k) % 2 == 1) ≡ false =
      ground (arith, pow-suc 2 w, pow-suc 2 k) in
    let half : (2 ^ suc w - 2 ^ suc k) / 2 ≡ 2 ^ w - 2 ^ k =
      omega (arith, pow-suc 2 w, pow-suc 2 k) in
    rw (even, half, lowest_clear w k (omega arith)) (omega arith)

next_mask : (k : ℕ) → bit_or (2 ^ k - 1) (2 ^ k) ≡ 2 ^ suc k - 1
next_mask zero = refl
next_mask (suc k) =
    let h1 : (2 ^ suc k - 1) / 2 ≡ 2 ^ k - 1 = omega (arith, pow-suc 2 k, one-le-pow k 2) in
    let h2 : 2 ^ suc k / 2 ≡ 2 ^ k = omega (arith, pow-suc 2 k) in
    let halves = rw (h1, h2, next_mask k) at (bit_or_halves (2 ^ suc k - 1) (2 ^ suc k)) in
    omega (arith, halves, pow-suc 2 k, pow-suc 2 (suc k), one-le-pow k 2)

-- Giving up the only lock.
released_lock : (w k : ℕ) → k < w → bit_and (2 ^ k) (bit_not w (2 ^ k)) ≡ 0
unfolding bit_not
released_lock zero k lt = absurd (omega arith)
released_lock (suc w) zero lt = omega (
  arith,
  bit_and_halves 1 (2 ^ suc w - 1 - 1),
  zero-bit_and ((2 ^ suc w - 1 - 1) / 2),
  pow-suc 2 w,
  one-le-pow w 2,
)
released_lock (suc w) (suc k) lt =
    let h1 : 2 ^ suc k / 2 ≡ 2 ^ k = omega (arith, pow-suc 2 k) in
    let h2 : (2 ^ suc w - 1 - 2 ^ suc k) / 2 ≡ 2 ^ w - 1 - 2 ^ k =
      omega (arith, pow-suc 2 w, pow-suc 2 k) in
    let halves =
      rw (h1, h2, released_lock w k (omega arith)) at
        (bit_and_halves (2 ^ suc k) (2 ^ suc w - 1 - 2 ^ suc k)) in
    omega (arith, halves, pow-suc 2 k)

get_elem?-end {ℓ} : {A : Type ℓ} (pre : List A) → get_elem? (pre ++ []) (length pre) ≡ none
get_elem?-end [] = refl
get_elem?-end (x ∷ pre) = get_elem?-end pre

pub get_elem?-at {ℓ} :
    {A : Type ℓ} (pre post : List A) (x : A) → get_elem? (pre ++ (x ∷ post)) (length pre) ≡ some x
get_elem?-at [] post x = refl
get_elem?-at (y ∷ pre) post x = get_elem?-at pre post x

-- The index of every stack is its place.
abbrev pub AreIndexed : ℕ → List Stack → Type 0
AreIndexed k [] = k ≤ k
AreIndexed k (stack ∷ stacks) = (stack.index ≡ k) × AreIndexed (k + 1) stacks

-- The first stack that serves.
unfoldable pub first_valid : Purpose → ℕ → ℕ → List Stack → Option ℕ
first_valid purpose chunk_item_amount k [] = none
first_valid purpose chunk_item_amount k (stack ∷ stacks) =
    elim (valid_size purpose chunk_item_amount stack.size) [
      | true ↦ some k
      | false ↦ first_valid purpose chunk_item_amount (k + 1) stacks
    ]

module _ (item_size chunk_item_amount : ℕ) where
  -- An allocator that no call is at work on.
  abbrev pub idle : List Stack → Allocator
  idle stacks = record {
    occupied = 0;
    stacks = stacks;
    item_size = item_size;
    chunk_item_amount = chunk_item_amount;
  }

  abbrev pub search_result : Option ℕ → List Stack → Option ℕ × Allocator
  search_result none stacks = (none, idle stacks)
  search_result (some k) stacks = (some k, record (idle stacks) { occupied = 2 ^ k })

  module _ (k : ℕ) (le : k ≤ 32) where
    small : 2 ^ k < 2 ^ 64
    small = pow-lt-pow k 64 (omega (arith, le))

    not_full : (bit_or 0 (2 ^ k - 1) == 2 ^ 64 - 1) ≡ false
    not_full = rw (zero-bit_or (2 ^ k - 1)) (==_false _ _ (omega (arith, small, one-le-pow k 2)))

    first_clear : count_trailing_zeros 64 (bit_not 64 (bit_or 0 (2 ^ k - 1))) ≡ k
    unfolding bit_not
    first_clear =
        let clear : 2 ^ 64 - 1 - (2 ^ k - 1) ≡ 2 ^ 64 - 2 ^ k = omega (arith, one-le-pow k 2) in
        rw (zero-bit_or (2 ^ k - 1), clear) (lowest_clear 64 k (omega (arith, le)))

    next_invalid :
        bit_or (2 ^ k - 1) (2 ^ count_trailing_zeros 64 (bit_not 64 (bit_or 0 (2 ^ k - 1))))
        ≡ 2 ^ (k + 1) - 1
    next_invalid = rw (first_clear, add-one) (next_mask k)

  -- Giving up the lock of stack `k`, the only one.
  pub unlocked :
      (stacks : List Stack) (k index : ℕ)
      → k < 32
      → index ≡ k
      → free_stack_lock index (record (idle stacks) { occupied = 2 ^ k }) ≡ some (idle stacks)
  unfolding free_stack_lock
  unlocked stacks k index lt e =
      rw (free_stack_lock, e, lt→ltb k 32 lt, e, released_lock 32 k lt) refl

  passed_over :
      (stacks : List Stack) (k index : ℕ)
      → k < 32
      → index ≡ k
      → free_stack_lock index (record (idle stacks) {
        occupied = bit_or 0 (2 ^ count_trailing_zeros 64 (bit_not 64 (bit_or 0 (2 ^ k - 1))));
      })
        ≡ some (idle stacks)
  passed_over stacks k index lt e =
      rw (first_clear k (omega (arith, lt)), zero-bit_or (2 ^ k)) (unlocked stacks k index lt e)

  -- The search ends at the first stack that serves, and locks it.
  find_lem :
      (purpose : Purpose) (rest pre : List Stack) (rounds : ℕ)
      → AreIndexed (length pre) rest
      → length pre + length rest ≤ 32
      → length rest < rounds
      → find_free_stack rounds purpose 0 (2 ^ length pre - 1) (idle (pre ++ rest))
        ≡ some
            (search_result (first_valid purpose chunk_item_amount (length pre) rest) (pre ++ rest))
  unfolding find_free_stack first_valid
  find_lem purpose rest pre zero indexed le lt = absurd (omega arith)
  find_lem purpose [] pre (suc rounds) indexed le lt =
      let here : length pre ≤ 32 = omega arith in
      rw
        (
          find_free_stack,
          not_full (length pre) here,
          first_clear (length pre) here,
          get_elem?-end pre,
        )
        refl
  find_lem purpose (stack ∷ rest) pre (suc rounds) indexed le lt =
      let here : length pre ≤ 32 = omega arith in
      let k = length pre in
      let clear = first_clear k here in
      let found = get_elem?-at pre rest stack in
      elim (Bool-cases (valid_size purpose chunk_item_amount stack.size)) [
        | inl valid ↦
            rw
              (
                find_free_stack,
                not_full k here,
                clear,
                found,
                valid,
                clear,
                zero-bit_or (2 ^ k),
                first_valid,
              )
              refl
        | inr other ↦
            let longer : length (pre ++ (stack ∷ [])) ≡ length pre + 1 =
              length-append pre (stack ∷ []) in
            let rest_lem =
              rw (longer, append_assoc pre (stack ∷ []) rest) at
                (find_lem purpose rest (pre ++ (stack ∷ [])) rounds (rw longer indexed.1)
                  (rw longer (omega arith)) (omega arith)) in
            rw
              (
                find_free_stack,
                not_full k here,
                clear,
                found,
                other,
                passed_over (pre ++ (stack ∷ rest)) k stack.index (omega arith) indexed.0,
                next_invalid k here,
                first_valid,
              )
              rest_lem
      ]

  pub find_free_pointer_stack_lem :
      (purpose : Purpose) (stacks : List Stack)
      → AreIndexed 0 stacks
      → length stacks ≤ 32
      → find_free_pointer_stack purpose (idle stacks)
        ≡ some (search_result (first_valid purpose chunk_item_amount 0 stacks) stacks)
  unfolding find_free_pointer_stack
  find_free_pointer_stack_lem purpose stacks indexed le =
      find_lem purpose stacks [] 65 indexed (omega (arith, le)) (omega arith)
