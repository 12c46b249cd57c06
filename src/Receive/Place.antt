-- ===== src/Receive/Place.antt =====
-- Chunks of a buffer before and after one of them is written.
use swift_net.Base.{
  ℕ, zero, suc, ◌+◌, ◌-◌, ◌*◌, ◌≤◌, ◌<◌, min, ◌≡◌, ◌≢◌, refl, ap, ap₂, ◌∙◌, List, [], ◌∷◌, ◌++◌,
  append-nil, length, length-take, length-drop, take, drop, arith, dec_lt,
}
use swift_net.Base.Copy.{before-memcpy, after-memcpy, at-memcpy}
use swift_net.Base.Buffer.{memcpy, take-append_le, take_all, drop-drop}
use swift_net.Send.Chunked.{chunk, joined}

drop_all : (n : ℕ) (xs : List ℕ) → length xs ≤ n → drop n xs ≡ []
drop_all zero [] le = refl
drop_all zero (x ∷ xs) le = absurd (omega arith)
drop_all (suc n) [] le = refl
drop_all (suc n) (x ∷ xs) le = drop_all n xs (omega arith)

module _ (size : ℕ) where
  abbrev pub start : ℕ → ℕ
  start i = i * size

  later : (i j : ℕ) → i < j → start i + size ≤ start j
  later i j lt = grind arith

  pub length-chunk :
      (bytes : List ℕ) (j : ℕ) → length (chunk size bytes j) ≡ min size (length bytes - start j)
  unfolding chunk
  length-chunk bytes j =
      length-take size (drop (start j) bytes) ∙ ap (min size) (length-drop (start j) bytes)

  pub chunk-memcpy_self :
      (stored bytes : List ℕ) (j : ℕ)
      → length stored ≡ length bytes
      → start j < length bytes
      → chunk size (memcpy stored (start j) (chunk size bytes j)) j ≡ chunk size bytes j
  unfolding chunk
  chunk-memcpy_self stored bytes j same lt =
      let b = chunk size bytes j in
      let width = length-chunk bytes j in
      let rest = drop (start j + length b) stored in
      let here = at-memcpy stored b (start j) (omega (arith, same)) in
      rw here (elim (dec_lt (length bytes - start j) size) [
        | no full ↦
            take-append_le b rest size (omega (arith, width))
            ∙ take_all size b (omega (arith, width))
        | yes short ↦
            let nothing : rest ≡ [] = drop_all _ stored (omega (arith, width, same)) in
            rw (nothing, append-nil b) (take_all size b (omega (arith, width)))
      ])

  pub chunk-memcpy_ne :
      (stored bytes : List ℕ) (i j : ℕ)
      → start j ≤ length stored
      → i ≢ j
      → chunk size (memcpy stored (start j) (chunk size bytes j)) i ≡ chunk size stored i
  unfolding chunk
  chunk-memcpy_ne stored bytes i j inside ne =
      let b = chunk size bytes j in
      let width = length-chunk bytes j in
      elim (dec_lt i j) [
        | yes lt ↦ before-memcpy stored b (start j) (start i) size inside (later i j lt)
        | no ge ↦
            let lt : j < i = omega (arith, ne, ge) in
            let gap = later j i lt in
            let q = start i - (start j + length b) in
            let e : start j + length b + q ≡ start i = omega (arith, gap, width) in
            let moved = after-memcpy stored b (start j) q inside in
            let moved' = rw (drop-drop (start j + length b) q stored, e) at moved in
            ap (take size) moved'
      ]

  pub joined-eq :
      (xs ys : List ℕ) (n i : ℕ)
      → ((k : ℕ) → k < i + n → chunk size xs k ≡ chunk size ys k)
      → joined size xs n i ≡ joined size ys n i
  unfolding joined
  joined-eq xs ys zero i same = refl
  joined-eq xs ys (suc n) i same =
      ap₂ (λ a b. a ++ b) (same i (omega arith))
        (joined-eq xs ys n (i + 1) (λ k lt. same k (omega arith)))
