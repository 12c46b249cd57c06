-- ===== src/Hashmap/Loop.antt =====
-- LOOP_HASHMAP of src/internal/internal.h, and the bitset that it reads.
use mathlib.Core.Option
use native.Mathlib.Nat.{pow-suc}
use native.Mathlib.Numerals.{add-one}
use swift_net.Base.{
  ℕ, zero, suc, ◌+◌, ◌-◌, ◌*◌, ◌/◌, ◌%◌, ◌^◌, ◌<◌, ◌≡◌, refl, ◌∙◌, Option, none, some, List, [],
  ◌∷◌, ◌++◌, if◌then◌else◌, ◌==◌, arith, bit_or, Bool-cases, inl, inr, lt→leb, ℕ_discrete,
  replicate, set, get_or,
}
use swift_net.Hashmap.{
  HashMap, Chain, create, zeroed, insert, insert_item, occupy, remove, vacate, shl32, get_key,
}
use swift_net.Base.Bits.{
  zero-bit_and, zero-bit_or, bit_not, pow-lt-pow, test_bit, test_bit-bit_or, test_bit-pow_self,
  test_bit-pow_ne, eq_of_test_bit, bit_or-lt,
}

-- `__builtin_ctzl`, for a word of at most `width` bits that is not zero.
unfoldable pub count_trailing_zeros : ℕ → ℕ → ℕ
count_trailing_zeros zero x = 0
count_trailing_zeros (suc width) x =
    if x % 2 == 1 then 0 else count_trailing_zeros width (x / 2) + 1

-- The inner loop over one word of the bitset, given as `inverted`: the slots whose items the body
-- is run on, in order. `none` means that the rounds have run out.
unfoldable pub loop_word : ℕ → ℕ → ℕ → Option (List ℕ)
unfolding count_trailing_zeros
loop_word zero i inverted = none
loop_word (suc rounds) i inverted =
    let bit_index = count_trailing_zeros 32 inverted in
    let rest = loop_word rounds i (bit_or inverted (2 ^ bit_index)) in
    if inverted == 2 ^ 32 - 1
    then some []
    else Option.map (λ slots. (i * 32 + bit_index) ∷ slots) rest

-- The outer loop over the words.
unfoldable pub loop_hashmap : ℕ → ℕ → List ℕ → Option (List ℕ)
unfolding loop_word
loop_hashmap rounds i [] = some []
loop_hashmap rounds i (current_index ∷ words) =
    let rest = loop_hashmap rounds (i + 1) words in
    if current_index == 0 then rest else elim (loop_word rounds i (bit_not 32 current_index)) [
      | none ↦ none
      | some slots ↦ Option.map (λ others. slots ++ others) rest
    ]

-- The lowest set digit is found, and lies within the width.
pub count_trailing_zeros_lem :
    (w x : ℕ)
    → 0 < x
    → x < 2 ^ w
    → (test_bit x (count_trailing_zeros w x) ≡ 1) × (count_trailing_zeros w x < w)
unfolding count_trailing_zeros test_bit
count_trailing_zeros_lem zero x pos lt = absurd (omega arith)
count_trailing_zeros_lem (suc w) x pos lt = elim (Bool-cases (x % 2 == 1)) [
  | inl e ↦ rw e (ground arith, omega arith)
  | inr e ↦
      let half : (test_bit (x / 2) (count_trailing_zeros w (x / 2)) ≡ 1)
          × (count_trailing_zeros w (x / 2) < w) =
        count_trailing_zeros_lem w (x / 2) (ground arith) (omega (arith, pow-suc 2 w)) in
      rw (e, add-one) (half.0, omega arith)
]

-- Setting a digit that is set changes nothing.
pub bit_or-set : (w x k : ℕ) → x < 2 ^ w → k < w → test_bit x k ≡ 1 → bit_or x (2 ^ k) ≡ x
bit_or-set w x k lt kw e =
    eq_of_test_bit w (bit_or x (2 ^ k)) x (bit_or-lt w x (2 ^ k) lt (pow-lt-pow k w kw)) lt λ i _.
      test_bit-bit_or x (2 ^ k) i ∙ elim (ℕ_discrete k i) [
        | yes p ↦ rw (← p) (omega (arith, test_bit-pow_self k))
        | no n ↦ omega (arith, test_bit-pow_ne k i n)
      ]

-- The loop sets in `inverted` the digit that is set already, so it does not get on: over a word in
-- which some slot is free it ends only where all are, whatever the rounds.
loop_word_stuck :
    (rounds i inverted : ℕ)
    → 0 < inverted
    → inverted < 2 ^ 32 - 1
    → loop_word rounds i inverted ≡ none
unfolding loop_word
loop_word_stuck zero i inverted pos lt = refl
loop_word_stuck (suc rounds) i inverted pos lt =
    let low = count_trailing_zeros_lem 32 inverted pos (omega arith) in
    let same =
      bit_or-set 32 inverted (count_trailing_zeros 32 inverted) (omega arith) low.1 low.0 in
    rw (same, loop_word_stuck rounds i inverted pos lt) (ground arith)

-- The first word that is not zero, if it has a free slot too, is never left: the walk over the map
-- does not end, however many rounds it is given.
pub loop_hashmap_stuck :
    (rounds i n word : ℕ) (words : List ℕ)
    → 0 < word
    → word < 2 ^ 32 - 1
    → loop_hashmap rounds i (replicate n 0 ++ (word ∷ words)) ≡ none
unfolding loop_hashmap bit_not
loop_hashmap_stuck rounds i zero word words pos lt =
    rw (loop_word_stuck rounds i (2 ^ 32 - 1 - word) (omega arith) (omega arith)) (ground arith)
loop_hashmap_stuck rounds i (suc n) word words pos lt =
    loop_hashmap_stuck rounds (i + 1) n word words pos lt

shl32_zero : (k : ℕ) → shl32 0 k ≡ 0
shl32_zero k = omega arith

abbrev pub IsZero : List ℕ → Type 0
IsZero [] = Unit
IsZero (word ∷ words) = (word ≡ 0) × IsZero words

loop_hashmap_zero :
    (rounds i : ℕ) (words : List ℕ) → IsZero words → loop_hashmap rounds i words ≡ some []
unfolding loop_hashmap
loop_hashmap_zero rounds i [] h = refl
loop_hashmap_zero rounds i (word ∷ words) h = rw h.0 (loop_hashmap_zero rounds (i + 1) words h.1)

IsZero-replicate : (n : ℕ) → IsZero (replicate n 0)
IsZero-replicate zero = tt
IsZero-replicate (suc n) = (refl, IsZero-replicate n)

IsZero-set : (words : List ℕ) (i word : ℕ) → word ≡ 0 → IsZero words → IsZero (set words i word)
IsZero-set [] i word e h = h
IsZero-set (w ∷ words) zero word e h = (e, h.1)
IsZero-set (w ∷ words) (suc i) word e h = (h.0, IsZero-set words i word e h.1)

IsZero-get_or : (words : List ℕ) (i : ℕ) → IsZero words → get_or words i 0 ≡ 0
IsZero-get_or [] i h = refl
IsZero-get_or (w ∷ words) zero h = h.0
IsZero-get_or (w ∷ words) (suc i) h = IsZero-get_or words i h.1

module _ {ℓ} {V : Type ℓ} (seed : ℕ) where
  -- A map that has been created, filled and emptied, and has not been grown.
  pub data NeverGrown : HashMap V → Type ℓ where
    created : (memory_usage : ℕ) → NeverGrown (create memory_usage)
    inserted :
        {m : HashMap V} (key : List ℕ) (value : V)
        → NeverGrown m
        → (m.size + 1) % 2 ^ 32 < m.capacity
        → NeverGrown (insert seed key value m)
    removed : {m : HashMap V} (key : List ℕ) → NeverGrown m → NeverGrown (remove seed key m)

  occupy-IsZero :
      (m : HashMap V) (key : List ℕ) (value : V)
      → (m.size + 1) % 2 ^ 32 < m.capacity
      → IsZero m.item_occupation
      → IsZero (insert seed key value m).item_occupation
  unfolding insert insert_item occupy
  occupy-IsZero m key value light h =
      let slot = get_key seed key m.capacity in
      rw (lt→leb _ _ light) (
        IsZero-set m.item_occupation (slot / 32) _
          (rw (IsZero-get_or m.item_occupation (slot / 32) h)
            (zero-bit_or _ ∙ shl32_zero (slot % 32)))
          h)

  vacate-IsZero :
      (key : ℕ) (slot : Chain V) (words : List ℕ) → IsZero words → IsZero (vacate key slot words)
  unfolding vacate
  vacate-IsZero key [] words h = h
  vacate-IsZero key (item ∷ []) words h =
      IsZero-set words (key / 32) _ (rw (IsZero-get_or words (key / 32) h) (zero-bit_and _)) h
  vacate-IsZero key (item ∷ other ∷ rest) words h = h

  remove-IsZero :
      (m : HashMap V) (key : List ℕ)
      → IsZero m.item_occupation
      → IsZero (remove seed key m).item_occupation
  unfolding remove
  remove-IsZero m key h =
      vacate-IsZero (get_key seed key m.capacity) (get_or m.items (get_key seed key m.capacity) [])
        m.item_occupation h

  NeverGrown-IsZero : {m : HashMap V} → NeverGrown m → IsZero m.item_occupation
  unfolding create zeroed
  NeverGrown-IsZero (created memory_usage) = IsZero-replicate ((0x40 * memory_usage + 31) / 32)
  NeverGrown-IsZero (inserted {m} key value r light) =
      occupy-IsZero m key value light (NeverGrown-IsZero r)
  NeverGrown-IsZero (removed {m} key r) = remove-IsZero m key (NeverGrown-IsZero r)

  -- Until a map first grows, the walk over it runs its body on no item at all, whatever has been
  -- inserted: insertion shifts a zero into the bitset.
  pub loop_hashmap-NeverGrown :
      {m : HashMap V} (rounds : ℕ)
      → NeverGrown m
      → loop_hashmap rounds 0 m.item_occupation ≡ some []
  loop_hashmap-NeverGrown {m} rounds r =
      loop_hashmap_zero rounds 0 m.item_occupation (NeverGrown-IsZero r)
