-- ===== src/Retransmit/Listed.antt =====
-- The list of lost chunks as the sender reads it, and what it leaves out.
use mathlib.Core.Bool.{true≢false}
use swift_net.Base.{
  ℕ, zero, suc, ◌+◌, ◌^◌, ◌≤◌, ◌<◌, ◌≡◌, refl, sym, true, false, inl, inr, List, [], ◌∷◌, ◌++◌,
  take, ◌==◌, if◌then◌else◌, arith, Bool-cases, ℕ_discrete, ==_refl, ==_false,
}
use swift_net.Chunks.Bitmap.{received}
use swift_net.Chunks.Lost.{lost}
use swift_net.Control.Words.{AreWords, no_words, more_words}
use swift_net.Receive.Delivery.{arrived}
use swift_net.Receive.Once.{AreBelow}

-- The chunks among `count` from `index` on that are marked.
unfoldable pub found : List ℕ → ℕ → ℕ → List ℕ
found chunks index zero = []
found chunks index (suc count) =
    (if received chunks index then index ∷ [] else []) ++ found chunks (index + 1) count

pub found-received :
    (chunks : List ℕ) (index count k : ℕ)
    → arrived k (found chunks index count) ≡ true
    → received chunks k ≡ true
unfolding found arrived
found-received chunks index zero k among = absurd (true≢false (sym among))
found-received chunks index (suc count) k among = elim (Bool-cases (received chunks index)) [
  | inr missed ↦ found-received chunks (index + 1) count k (rw missed at among)
  | inl here ↦ elim (Bool-cases (k == index)) [
    | inl same ↦ let e : k ≡ index = ground arith in rw e here
    | inr other ↦ found-received chunks (index + 1) count k (rw (here, other) at among)
  ]
]

pub received-found :
    (chunks : List ℕ) (index count k : ℕ)
    → index ≤ k
    → k < index + count
    → received chunks k ≡ true
    → arrived k (found chunks index count) ≡ true
unfolding found arrived
received-found chunks index zero k le lt e = absurd (omega arith)
received-found chunks index (suc count) k le lt e = elim (ℕ_discrete k index) [
  | yes same ↦
      let here : received chunks index ≡ true = rw same at e in rw (here, same, ==_refl index) refl
  | no other ↦ elim (Bool-cases (received chunks index)) [
    | inl here ↦
        rw (here, ==_false k index other)
          (received-found chunks (index + 1) count k (omega arith) (omega arith) e)
    | inr missed ↦
        rw missed (received-found chunks (index + 1) count k (omega arith) (omega arith) e)
  ]
]

pub missed-lost :
    (chunks : List ℕ) (index count k : ℕ)
    → index ≤ k
    → k < index + count
    → received chunks k ≡ false
    → arrived k (lost chunks index count) ≡ true
unfolding lost arrived
missed-lost chunks index zero k le lt e = absurd (omega arith)
missed-lost chunks index (suc count) k le lt e = elim (ℕ_discrete k index) [
  | yes same ↦
      let missed : received chunks index ≡ false = rw same at e in
      rw (missed, same, ==_refl index) refl
  | no other ↦ elim (Bool-cases (received chunks index)) [
    | inl here ↦ rw here (missed-lost chunks (index + 1) count k (omega arith) (omega arith) e)
    | inr missed ↦
        rw (missed, ==_false k index other)
          (missed-lost chunks (index + 1) count k (omega arith) (omega arith) e)
  ]
]

pub lost-AreBelow :
    (chunks : List ℕ) (index count amount : ℕ)
    → index + count ≤ amount
    → AreBelow amount (lost chunks index count)
unfolding lost
lost-AreBelow chunks index zero amount le = omega arith
lost-AreBelow chunks index (suc count) amount le =
    let rest = lost-AreBelow chunks (index + 1) count amount (omega arith) in
    elim (Bool-cases (received chunks index)) [
      | inl here ↦ rw here rest
      | inr missed ↦ rw missed (omega arith, rest)
    ]

pub take-AreBelow : (amount n : ℕ) (js : List ℕ) → AreBelow amount js → AreBelow amount (take n js)
take-AreBelow amount zero js below = omega arith
take-AreBelow amount (suc n) [] below = below
take-AreBelow amount (suc n) (j ∷ js) below = (below.0, take-AreBelow amount n js below.1)

pub below-AreWords : (amount : ℕ) (js : List ℕ) → amount ≤ 2 ^ 32 → AreBelow amount js → AreWords js
below-AreWords amount [] small below = no_words
below-AreWords amount (j ∷ js) small below =
    more_words (omega (arith, below.0)) (below-AreWords amount js small below.1)
