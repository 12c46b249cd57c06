-- ===== src/Chunks/Lost.antt =====
-- `return_lost_chunk_indexes` against the list of the chunks that are not marked.
use mathlib.Core.Option
use swift_net.Base.{
  ℕ, zero, suc, ◌+◌, ◌-◌, ◌*◌, ◌/◌, ◌%◌, ◌^◌, ◌<◌, ◌≤◌, ◌≡◌, refl, sym, ap, ap₂, ◌∙◌, inl, inr,
  bit_and, Bool, true, false, not, Option, none, some, List, [], ◌∷◌, ◌++◌, append-nil,
  append_assoc, length, length-append, take, get_or, get_elem?, ◌==◌, ltb, if◌then◌else◌, arith,
  get_elem?-eq-get_or, Bool-cases, ℕ_discrete,
}
use native.Mathlib.Nat.{zero-add, add-zero, suc-add}
use swift_net.Base.Bits.{test_bit, bit_and-pow_test}
use swift_net.Chunks.{scan_bits, scan_bytes, return_lost_chunk_indexes}
use swift_net.Chunks.Bitmap.{received}

received_bit :
    (chunks : List ℕ) (byte bit value : ℕ)
    → bit < 8
    → get_or chunks byte 0 ≡ value
    → received chunks (byte * 8 + bit) ≡ not (bit_and value (2 ^ bit) == 0)
received_bit chunks byte bit value lt e =
    let d : (byte * 8 + bit) / 8 ≡ byte = omega arith in
    let m : (byte * 8 + bit) % 8 ≡ bit = omega arith in
    rw (d, m, e) (sym (bit_and-pow_test value bit))

-- The chunks among `count` from `index` on that are not marked, in order.
unfoldable pub lost : List ℕ → ℕ → ℕ → List ℕ
lost chunks index zero = []
lost chunks index (suc count) =
    (if received chunks index then [] else index ∷ []) ++ lost chunks (index + 1) count

lost-add :
    (chunks : List ℕ) (index m n : ℕ)
    → lost chunks index (m + n) ≡ lost chunks index m ++ lost chunks (index + m) n
unfolding lost
lost-add chunks index zero n = rw (zero-add n, add-zero index)
lost-add chunks index (suc m) n =
    rw (suc-add m n, lost-add chunks (index + 1) m n)
      (sym (append_assoc (if received chunks index then [] else index ∷ []) _ _)
        ∙ ap
            (λ i.
              ((if received chunks index then [] else index ∷ []) ++ lost chunks (index + 1) m)
              ++ lost chunks i n)
            (omega arith))

take-append_full {ℓ} :
    {A : Type ℓ} (n : ℕ) (xs ys : List A) → length xs ≡ n → take n (xs ++ ys) ≡ xs
take-append_full zero [] ys e = refl
take-append_full (suc n) [] ys e = absurd (omega arith)
take-append_full zero (x ∷ xs) ys e = absurd (omega arith)
take-append_full (suc n) (x ∷ xs) ys e = ap (λ r. x ∷ r) (take-append_full n xs ys (omega arith))

take_short {ℓ} : {A : Type ℓ} (n : ℕ) (xs : List A) → length xs ≤ n → take n xs ≡ xs
take_short zero [] h = refl
take_short (suc n) [] h = refl
take_short zero (x ∷ xs) h = absurd (omega arith)
take_short (suc n) (x ∷ xs) h = ap (λ r. x ∷ r) (take_short n xs (omega arith))

module _ (chunks : List ℕ) (buffer_size : ℕ) where
  -- What a loop over bits leaves, of the indexes `found` that it should add to `buffer`.
  data Scanned (buffer found : List ℕ) (r : Option (Bool × List ℕ)) : Type 0 where
    stopped :
        (buffer' : List ℕ)
        → r ≡ some (true, buffer')
        → length buffer' ≡ buffer_size / 4
        → ((others : List ℕ) → take (buffer_size / 4) (buffer ++ (found ++ others)) ≡ buffer')
        → Scanned buffer found r
    passed :
        r ≡ some (false, buffer ++ found)
        → length (buffer ++ found) ≤ buffer_size / 4
        → Scanned buffer found r

  Scanned-append :
      (buffer a found : List ℕ) {r : Option (Bool × List ℕ)}
      → Scanned (buffer ++ a) found r
      → Scanned buffer (a ++ found) r
  Scanned-append buffer a found (stopped buffer' e full all) = stopped buffer' e full λ others.
      ap (take (buffer_size / 4)) (
        ap (λ t. buffer ++ t) (append_assoc a found others)
        ∙ sym (append_assoc buffer a (found ++ others)))
      ∙ all others
  Scanned-append buffer a found (passed e short) =
      passed (rw (← append_assoc buffer a found) e) (rw (← append_assoc buffer a found) short)

  scan_bits_lem :
      (left bit byte value : ℕ) (buffer : List ℕ)
      → bit + left ≤ 8
      → get_or chunks byte 0 ≡ value
      → length buffer ≤ buffer_size / 4
      → Scanned buffer
          (lost chunks (byte * 8 + bit) left)
          (scan_bits left bit (some value) (byte * 8) buffer_size buffer)
  unfolding scan_bits lost
  scan_bits_lem zero bit byte value buffer fits e small =
      passed (rw (append-nil buffer)) (rw (append-nil buffer) small)
  scan_bits_lem (suc left) bit byte value buffer fits e small =
      elim (Bool-cases (ltb buffer_size (length buffer * 4 + 4))) [
        | inl full ↦
            let exact : length buffer ≡ buffer_size / 4 = ground arith in
            rw full (
              stopped buffer refl exact
                (λ others. take-append_full (buffer_size / 4) buffer _ exact))
        | inr room ↦
            rw (room, appended)
              (Scanned-append buffer mine _ (
                rw next (
                  scan_bits_lem left (bit + 1) byte value (buffer ++ mine) (omega arith) e
                    (rw (length-append buffer mine) (ground arith)))))
      ]
    where
      mine : List ℕ
      mine = if received chunks (byte * 8 + bit) then [] else (byte * 8 + bit) ∷ []

      next : byte * 8 + bit + 1 ≡ byte * 8 + (bit + 1)
      next = omega arith

      appended :
          (if bit_and value (2 ^ bit) == 0 then buffer ++ ((byte * 8 + bit) ∷ []) else buffer)
          ≡ buffer ++ mine
      appended =
          rw (received_bit chunks byte bit value (omega arith) e)
            (elim (Bool-cases (bit_and value (2 ^ bit) == 0)) [
              | inl q ↦ rw q
              | inr q ↦ rw q (sym (append-nil buffer))
            ])

module _ (chunks : List ℕ) (buffer_size : ℕ) (buffer found : List ℕ) where
  full_byte :
      {r : Option (Bool × List ℕ)} (others : List ℕ) (next : List ℕ → Option (List ℕ))
      → Scanned chunks buffer_size buffer found r
      → (length (buffer ++ found) ≤ buffer_size / 4
          → next (buffer ++ found) ≡ some (take (buffer_size / 4) ((buffer ++ found) ++ others)))
      → elim r [
        | none ↦ none
        | some (left_early, buffer') ↦ elim left_early [
          | true ↦ some buffer'
          | false ↦ next buffer'
        ]
      ]
        ≡ some (take (buffer_size / 4) (buffer ++ (found ++ others)))
  full_byte others next (stopped buffer' e full all) go = rw (e, all others)
  full_byte others next (passed e short) go = rw (e, ← append_assoc buffer found others) (go short)

  last_byte :
      {r : Option (Bool × List ℕ)}
      → Scanned chunks buffer_size buffer found r
      → Option.map (λ r. r.1) r ≡ some (take (buffer_size / 4) (buffer ++ found))
  last_byte (stopped buffer' e full all) =
      rw e
        (ap some (sym (all []) ∙ ap (λ t. take (buffer_size / 4) (buffer ++ t)) (append-nil found)))
  last_byte (passed e short) =
      rw e (ap some (sym (take_short (buffer_size / 4) (buffer ++ found) short)))

-- A byte of ones has no lost chunk.
test_bit-ones : (bit : ℕ) → bit < 8 → test_bit 255 bit ≡ 1
unfolding test_bit
test_bit-ones zero h = refl
test_bit-ones (suc zero) h = refl
test_bit-ones (suc (suc zero)) h = refl
test_bit-ones (suc (suc (suc zero))) h = refl
test_bit-ones (suc (suc (suc (suc zero)))) h = refl
test_bit-ones (suc (suc (suc (suc (suc zero))))) h = refl
test_bit-ones (suc (suc (suc (suc (suc (suc zero)))))) h = refl
test_bit-ones (suc (suc (suc (suc (suc (suc (suc zero))))))) h = refl
test_bit-ones (suc (suc (suc (suc (suc (suc (suc (suc bit)))))))) h = absurd (omega arith)

lost_ones :
    (chunks : List ℕ) (byte bit left : ℕ)
    → bit + left ≤ 8
    → get_or chunks byte 0 ≡ 255
    → lost chunks (byte * 8 + bit) left ≡ []
unfolding lost
lost_ones chunks byte bit zero fits e = refl
lost_ones chunks byte bit (suc left) fits e =
    let d : (byte * 8 + bit) / 8 ≡ byte = omega arith in
    let m : (byte * 8 + bit) % 8 ≡ bit = omega arith in
    let n : byte * 8 + bit + 1 ≡ byte * 8 + (bit + 1) = omega arith in
    rw (d, m, e, test_bit-ones bit (omega arith), n)
      (lost_ones chunks byte (bit + 1) left (omega arith) e)

module _ (chunks : List ℕ) (chunk_amount buffer_size : ℕ)
    (covered : chunk_amount ≤ length chunks * 8) (no_wrap : chunk_amount + 8 < 2 ^ 32) where
  -- What is still to be found from byte `byte` on.
  abbrev rest : ℕ → List ℕ
  rest byte = lost chunks (byte * 8) (chunk_amount - byte * 8)

  rest_step :
      (byte : ℕ)
      → byte * 8 + 8 < chunk_amount
      → rest byte ≡ lost chunks (byte * 8 + 0) 8 ++ rest (byte + 1)
  rest_step byte lt =
      ap (lost chunks (byte * 8)) (omega arith)
      ∙ lost-add chunks (byte * 8) 8 (chunk_amount - (byte + 1) * 8)
      ∙ ap₂ ◌++◌ (ap (λ i. lost chunks i 8) (omega arith))
          (ap (λ i. lost chunks i (chunk_amount - (byte + 1) * 8)) (omega arith))

  whole :
      (rounds byte : ℕ) (buffer : List ℕ)
      → byte * 8 + 8 < chunk_amount
      → length buffer ≤ buffer_size / 4
      → scan_bytes rounds chunks chunk_amount buffer_size (byte + 1) buffer
        ≡ some (take (buffer_size / 4) (buffer ++ rest (byte + 1)))
      → ((buffer' : List ℕ)
          → length buffer' ≤ buffer_size / 4
          → scan_bytes rounds chunks chunk_amount buffer_size (byte + 1) buffer'
            ≡ some (take (buffer_size / 4) (buffer' ++ rest (byte + 1))))
      → (let next = scan_bytes rounds chunks chunk_amount buffer_size (byte + 1) buffer in
          let value = get_or chunks byte 0 in
          if value == 255
          then next
          else elim (scan_bits 8 0 (some value) (byte * 8) buffer_size buffer) [
            | none ↦ none
            | some (left_early, buffer') ↦ elim left_early [
              | true ↦ some buffer'
              | false ↦ scan_bytes rounds chunks chunk_amount buffer_size (byte + 1) buffer'
            ]
          ])
        ≡ some
            (take (buffer_size / 4) (buffer ++ (lost chunks (byte * 8 + 0) 8 ++ rest (byte + 1))))
  whole rounds byte buffer lt small skip go =
      let value = get_or chunks byte 0 in
      elim (Bool-cases (value == 255)) [
        | inl ones ↦ rw (ones, lost_ones chunks byte 0 8 (omega arith) (ground arith)) skip
        | inr mixed ↦ rw mixed (
            full_byte chunks buffer_size buffer (lost chunks (byte * 8 + 0) 8) (rest (byte + 1))
              (λ buffer'. scan_bytes rounds chunks chunk_amount buffer_size (byte + 1) buffer')
              (scan_bits_lem chunks buffer_size 8 0 byte value buffer (omega arith) refl small)
              (λ fits. go (buffer ++ lost chunks (byte * 8 + 0) 8) fits))
      ]

  partial :
      (byte : ℕ) (buffer : List ℕ)
      → chunk_amount ≤ byte * 8 + 8
      → length buffer ≤ buffer_size / 4
      → Option.map
          (λ r. r.1)
          (scan_bits
            (chunk_amount - byte * 8)
            0
            (get_elem? chunks byte)
            (byte * 8)
            buffer_size
            buffer)
        ≡ some (take (buffer_size / 4) (buffer ++ rest byte))
  unfolding scan_bits lost
  partial byte buffer small fits = elim (ℕ_discrete (chunk_amount - byte * 8) 0) [
    | yes p ↦ rw (p, append-nil buffer) (ap some (sym (take_short (buffer_size / 4) buffer fits)))
    | no n ↦
        let here : byte * 8 + 0 ≡ byte * 8 = omega arith in
        rw (get_elem?-eq-get_or chunks byte 0 (omega arith)) (
          last_byte chunks buffer_size buffer (rest byte) (
            rw here at (
              scan_bits_lem chunks buffer_size (chunk_amount - byte * 8) 0 byte
                (get_or chunks byte 0) buffer (omega arith) refl fits)))
  ]

  scan_bytes_lem :
      (rounds byte : ℕ) (buffer : List ℕ)
      → byte * 8 ≤ chunk_amount
      → chunk_amount / 8 < byte + rounds
      → length buffer ≤ buffer_size / 4
      → scan_bytes rounds chunks chunk_amount buffer_size byte buffer
        ≡ some (take (buffer_size / 4) (buffer ++ rest byte))
  unfolding scan_bytes
  scan_bytes_lem zero byte buffer start fuel small = absurd (omega arith)
  scan_bytes_lem (suc rounds) byte buffer start fuel small =
      elim (Bool-cases (ltb ((byte * 8 + 8) % 2 ^ 32) chunk_amount)) [
        | inl more ↦
            let lt : byte * 8 + 8 < chunk_amount = ground arith in
            let cell = get_elem?-eq-get_or chunks byte 0 (omega arith) in
            rw (more, cell, rest_step byte lt)
              (whole rounds byte buffer lt small
                (scan_bytes_lem rounds (byte + 1) buffer (omega arith) (omega arith) small)
                (λ buffer' fits.
                  scan_bytes_lem rounds (byte + 1) buffer' (omega arith) (omega arith) fits))
        | inr last ↦
            let start8 : chunk_amount ≤ byte * 8 + 8 = ground arith in
            let left : (chunk_amount + 2 ^ 32 - byte * 8) % 2 ^ 32 ≡ chunk_amount - byte * 8 =
              omega arith in
            rw (last, left) (partial byte buffer start8 small)
      ]

-- `return_lost_chunk_indexes` reads no byte outside of the bitmap, ends, and leaves in the buffer
-- exactly the chunks that are not marked, in order, as many of them as fit; for a bitmap that covers
-- the chunks and fewer than 2^32 - 8 of them.
pub return_lost_chunk_indexes_lem :
    (chunks : List ℕ) (chunk_amount buffer_size : ℕ)
    → chunk_amount ≤ length chunks * 8
    → chunk_amount + 8 < 2 ^ 32
    → return_lost_chunk_indexes chunks chunk_amount buffer_size
      ≡ some (take (buffer_size / 4) (lost chunks 0 chunk_amount))
unfolding return_lost_chunk_indexes
return_lost_chunk_indexes_lem chunks chunk_amount buffer_size covered no_wrap =
    let all : chunk_amount - 0 * 8 ≡ chunk_amount = omega arith in
    rw all at (
      scan_bytes_lem chunks chunk_amount buffer_size covered no_wrap (chunk_amount / 8 + 1) 0 []
        (omega arith) (omega arith) (omega arith))
