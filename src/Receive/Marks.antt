-- ===== src/Receive/Marks.antt =====
-- How many chunks are lost before and after one of them is marked.
use swift_net.Base.{
  ℕ, zero, suc, ◌+◌, ◌≤◌, ◌<◌, ◌≡◌, ◌≢◌, refl, sym, ap, ◌∙◌, inl, inr, true, false, ◌||◌, List,
  length, replicate, get_or-replicate, ◌==◌, arith, Bool-cases, ℕ_discrete, ==_refl, ◌/◌, ◌%◌,
}
use swift_net.Base.Bits.{test_bit-zero}
use swift_net.Chunks.Bitmap.{received}
use swift_net.Chunks.Lost.{lost}

lost_found :
    (c : List ℕ) (s n : ℕ)
    → received c s ≡ true
    → length (lost c s (suc n)) ≡ length (lost c (s + 1) n)
unfolding lost
lost_found c s n e = rw e

lost_missed :
    (c : List ℕ) (s n : ℕ)
    → received c s ≡ false
    → length (lost c s (suc n)) ≡ suc (length (lost c (s + 1) n))
unfolding lost
lost_missed c s n e = rw e

-- Nothing is received yet.
pub received-fresh : (width k : ℕ) → received (replicate width 0) k ≡ false
received-fresh width k = rw (get_or-replicate {A = ℕ} width (k / 8) 0, test_bit-zero (k % 8)) refl

pub lost-fresh : (width s n : ℕ) → length (lost (replicate width 0) s n) ≡ n
unfolding lost
lost-fresh width s zero = refl
lost-fresh width s (suc n) =
    lost_missed (replicate width 0) s n (received-fresh width s)
    ∙ ap suc (lost-fresh width (s + 1) n)

-- Nothing is lost any more.
pub lost_none :
    (c : List ℕ) (n s k : ℕ) → length (lost c s n) ≡ 0 → s ≤ k → k < s + n → received c k ≡ true
lost_none c zero s k e le lt = absurd (omega arith)
lost_none c (suc n) s k e le lt = elim (Bool-cases (received c s)) [
  | inr missed ↦ absurd (omega (arith, e, lost_missed c s n missed))
  | inl found ↦ elim (ℕ_discrete s k) [
    | yes here ↦ rw (← here) found
    | no other ↦
        lost_none c n (s + 1) k (sym (lost_found c s n found) ∙ e) (omega arith) (omega arith)
  ]
]

module _ (c c' : List ℕ) (j : ℕ) (marked : (k : ℕ) → received c' k ≡ (k == j) || received c k)
    (missed : received c j ≡ false) where
  pub marked_ne : (k : ℕ) → k ≢ j → received c' k ≡ received c k
  marked_ne k ne = rw (marked k) (ground arith)

  pub marked_self : received c' j ≡ true
  marked_self = rw (marked j, ==_refl j)

  lost_past : (n s : ℕ) → j < s → length (lost c' s n) ≡ length (lost c s n)
  unfolding lost
  lost_past zero s lt = refl
  lost_past (suc n) s lt = elim (Bool-cases (received c s)) [
    | inl found ↦
        lost_found c' s n (marked_ne s (omega arith) ∙ found)
        ∙ lost_past n (s + 1) (omega arith)
        ∙ sym (lost_found c s n found)
    | inr gone ↦
        lost_missed c' s n (marked_ne s (omega arith) ∙ gone)
        ∙ ap suc (lost_past n (s + 1) (omega arith))
        ∙ sym (lost_missed c s n gone)
  ]

  -- One chunk fewer is lost.
  pub lost_marked : (n s : ℕ) → s ≤ j → j < s + n → length (lost c s n) ≡ suc (length (lost c' s n))
  lost_marked zero s le lt = absurd (omega arith)
  lost_marked (suc n) s le lt = elim (ℕ_discrete s j) [
    | yes here ↦
        lost_missed c s n (rw here missed)
        ∙ ap suc (sym (lost_past n (s + 1) (omega arith)))
        ∙ ap suc (sym (lost_found c' s n (rw here marked_self)))
    | no other ↦
        let rest = lost_marked n (s + 1) (omega arith) (omega arith) in
        elim (Bool-cases (received c s)) [
          | inl found ↦
              lost_found c s n found
              ∙ rest
              ∙ ap suc (sym (lost_found c' s n (marked_ne s other ∙ found)))
          | inr gone ↦
              lost_missed c s n gone
              ∙ ap suc rest
              ∙ ap suc (sym (lost_missed c' s n (marked_ne s other ∙ gone)))
        ]
  ]

-- Where every chunk is received, none is lost.
pub lost_all :
    (c : List ℕ) (n s : ℕ) → ((k : ℕ) → k < s + n → received c k ≡ true) → length (lost c s n) ≡ 0
unfolding lost
lost_all c zero s all = refl
lost_all c (suc n) s all =
    lost_found c s n (all s (omega arith)) ∙ lost_all c n (s + 1) (λ k lt. all k (omega arith))
