-- ===== src/Allocator/Stacks.antt =====
-- The blocks on the stacks, and what one push, one pop and one new stack do to them.
use mathlib.Core.Path.{subst}
use native.Mathlib.Nat.{add-zero, zero-mul, suc-mul}
use swift_net.Base.{
  ℕ, zero, suc, ◌+◌, ◌*◌, ◌≤◌, ◌<◌, ◌≡◌, refl, sym, ap, true, false, Option, none, some, List, [],
  ◌∷◌, ◌++◌, append_assoc, length, length-append, length-take, take, get_or, set, ◌==◌,
  if◌then◌else◌, arith, inl, inr, Bool-cases,
}
use swift_net.Allocator.{Stack, Purpose, for_freeing, for_allocation, valid_size}
use swift_net.Allocator.Find.{AreIndexed, first_valid}

-- How often a list has an address.
unfoldable pub occurrences : ℕ → List ℕ → ℕ
occurrences x [] = 0
occurrences x (y ∷ ys) = (if x == y then 1 else 0) + occurrences x ys

pub occurrences-append :
    (x : ℕ) (ys zs : List ℕ) → occurrences x (ys ++ zs) ≡ occurrences x ys + occurrences x zs
unfolding occurrences
occurrences-append x [] zs = omega arith
occurrences-append x (y ∷ ys) zs = omega (arith, occurrences-append x ys zs)

pub take_one_more :
    (x n : ℕ) (ys : List ℕ)
    → n < length ys
    → occurrences x (take (suc n) ys)
      ≡ occurrences x (take n ys) + occurrences x (get_or ys n 0 ∷ [])
unfolding occurrences
take_one_more x n [] lt = absurd (omega arith)
take_one_more x zero (y ∷ ys) lt = omega arith
take_one_more x (suc n) (y ∷ ys) lt = omega (arith, take_one_more x n ys (omega arith))

pub take-set :
    (x n v : ℕ) (ys : List ℕ)
    → n < length ys
    → occurrences x (take (suc n) (set ys n v)) ≡ occurrences x (take n ys) + occurrences x (v ∷ [])
unfolding occurrences
take-set x n v [] lt = absurd (omega arith)
take-set x zero v (y ∷ ys) lt = omega arith
take-set x (suc n) v (y ∷ ys) lt = omega (arith, take-set x n v ys (omega arith))

-- The free blocks of all stacks.
unfoldable pub available : List Stack → List ℕ
available [] = []
available (stack ∷ stacks) = take stack.size stack.pointers ++ available stacks

pub available-append :
    (pre post : List Stack) → available (pre ++ post) ≡ available pre ++ available post
unfolding available
available-append [] post = refl
available-append (stack ∷ pre) post =
    rw (available-append pre post) (sym (append_assoc (take stack.size stack.pointers) _ _))

module _ (chunk_item_amount : ℕ) where
  pub record IsStack (k : ℕ) (stack : Stack) : Type 0 where
    pub at_place : stack.index ≡ k
    pub width : length stack.pointers ≡ chunk_item_amount
    pub within : stack.size ≤ chunk_item_amount

  abbrev pub AreStacks : ℕ → List Stack → Type 0
  AreStacks k [] = k ≤ k
  AreStacks k (stack ∷ stacks) = IsStack k stack × AreStacks (k + 1) stacks

  pub indexed : (k : ℕ) (stacks : List Stack) → AreStacks k stacks → AreIndexed k stacks
  indexed k [] all = all
  indexed k (stack ∷ stacks) all = (all.0.at_place, indexed (k + 1) stacks all.1)

  pub stack_at :
      (k : ℕ) (pre post : List Stack) (stack : Stack)
      → AreStacks k (pre ++ (stack ∷ post))
      → IsStack (k + length pre) stack
  stack_at k [] post stack all = rw (add-zero k) all.0
  stack_at k (s ∷ pre) post stack all =
      let e : k + suc (length pre) ≡ k + 1 + length pre = omega arith in
      rw e (stack_at (k + 1) pre post stack all.1)

  pub replaced :
      (k : ℕ) (pre post : List Stack) (stack stack' : Stack)
      → AreStacks k (pre ++ (stack ∷ post))
      → IsStack (k + length pre) stack'
      → AreStacks k (pre ++ (stack' ∷ post))
  replaced k [] post stack stack' all good = (rw (add-zero k) at good, all.1)
  replaced k (s ∷ pre) post stack stack' all good =
      let e : k + suc (length pre) ≡ k + 1 + length pre = omega arith in
      (all.0, replaced (k + 1) pre post stack stack' all.1 (rw e at good))

  pub appended :
      (k : ℕ) (stacks : List Stack) (stack : Stack)
      → AreStacks k stacks
      → IsStack (k + length stacks) stack
      → AreStacks k (stacks ++ (stack ∷ []))
  appended k [] stack all good = (rw (add-zero k) at good, omega arith)
  appended k (s ∷ stacks) stack all good =
      let e : k + suc (length stacks) ≡ k + 1 + length stacks = omega arith in
      (all.0, appended (k + 1) stacks stack all.1 (rw e at good))

  -- No stack serves.
  abbrev pub AllFail : Purpose → List Stack → Type 0
  AllFail purpose [] = 0 ≤ 0
  AllFail purpose (stack ∷ stacks) =
      (valid_size purpose chunk_item_amount stack.size ≡ false) × AllFail purpose stacks

  -- What a search finds.
  pub data Searched (purpose : Purpose) (k : ℕ) (stacks : List Stack) : Option ℕ → Type 0 where
    nowhere : AllFail purpose stacks → Searched purpose k stacks none
    at_stack :
        (pre post : List Stack) (stack : Stack)
        → stacks ≡ pre ++ (stack ∷ post)
        → valid_size purpose chunk_item_amount stack.size ≡ true
        → Searched purpose k stacks (some (k + length pre))

  further :
      (purpose : Purpose) (k : ℕ) (stack : Stack) (stacks : List Stack) (r : Option ℕ)
      → valid_size purpose chunk_item_amount stack.size ≡ false
      → Searched purpose (k + 1) stacks r
      → Searched purpose k (stack ∷ stacks) r
  further purpose k stack stacks _ fails (nowhere all) = nowhere (fails, all)
  further purpose k stack stacks _ fails (at_stack pre post found e valid) =
      let place : k + 1 + length pre ≡ k + length (stack ∷ pre) = omega arith in
      rw place (at_stack (stack ∷ pre) post found (ap (λ ss. stack ∷ ss) e) valid)

  pub searched :
      (purpose : Purpose) (k : ℕ) (stacks : List Stack)
      → Searched purpose k stacks (first_valid purpose chunk_item_amount k stacks)
  unfolding first_valid
  searched purpose k [] = nowhere (omega arith)
  searched purpose k (stack ∷ stacks) =
      elim (Bool-cases (valid_size purpose chunk_item_amount stack.size)) [
        | inl valid ↦
            let place : k ≡ k + length {A = Stack} [] = sym (add-zero k) in
            rw (first_valid, valid)
              (subst (λ i. Searched purpose k (stack ∷ stacks) (some i)) (sym place)
                (at_stack [] stacks stack refl valid))
        | inr fails ↦
            rw (first_valid, fails)
              (further purpose k stack stacks (first_valid purpose chunk_item_amount (k + 1) stacks)
                fails (searched purpose (k + 1) stacks))
      ]

  -- Where none serves for an allocation, no block is free; where none serves for freeing, all are.
  pub none_free :
      (k : ℕ) (stacks : List Stack)
      → AreStacks k stacks
      → AllFail for_allocation stacks
      → available stacks ≡ []
  unfolding available valid_size
  none_free k [] all fail = refl
  none_free k (stack ∷ stacks) all fail =
      let empty : stack.size ≡ 0 = ground (arith, all.0.within, fail.0) in
      rw (empty, none_free (k + 1) stacks all.1 fail.1) refl

  pub all_free :
      (k : ℕ) (stacks : List Stack)
      → AreStacks k stacks
      → AllFail for_freeing stacks
      → length (available stacks) ≡ length stacks * chunk_item_amount
  unfolding available valid_size
  all_free k [] all fail = sym (zero-mul chunk_item_amount)
  all_free k (stack ∷ stacks) all fail =
      let full : stack.size ≡ chunk_item_amount = ground (arith, all.0.within, fail.0) in
      omega (
        arith,
        full,
        all.0.width,
        suc-mul (length stacks) chunk_item_amount,
        length-append (take stack.size stack.pointers) (available stacks),
        length-take stack.size stack.pointers,
        all_free (k + 1) stacks all.1 fail.1,
      )
