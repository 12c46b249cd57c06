-- ===== src/Allocator/Use.antt =====
-- An allocator in use: what its callers hold.
use native.Mathlib.Nat.{zero-mul, suc-mul}
use swift_net.Base.{
  ℕ, suc, ◌+◌, ◌*◌, ◌≤◌, ◌<◌, ◌≡◌, refl, sym, ap, ◌∙◌, some, List, [], ◌∷◌, ◌++◌, length,
  length-append, arith, subst_some, ℕ_discrete,
}
use swift_net.Allocator.{
  Stack, Allocator, allocator_create, allocator_allocate, allocator_free, create_new_stack,
}
use swift_net.Allocator.Find.{idle}
use swift_net.Allocator.Stacks.{occurrences, occurrences-append, available, AreStacks}
use swift_net.Allocator.Areas.{AreApart, all_blocks, all_blocks-once}
use swift_net.Allocator.Calls.{
  blocks_of, length-pointers_from, IsLess, grow_lem, allocate_found, allocate_grown, free_found,
}

module _ (malloc : ℕ → ℕ) (item_size chunk_item_amount : ℕ) where
  -- The allocator and the blocks that were handed out and not given back. A call is made where no
  -- more than the blocks of 32 stacks are asked for, and a block is given back by its holder.
  pub data Reach : Allocator → List ℕ → Type 0 where
    created : Reach (allocator_create malloc item_size chunk_item_amount) []
    allocated :
        {allocator allocator' : Allocator} {held : List ℕ} {p : ℕ}
        → Reach allocator held
        → length held < 32 * chunk_item_amount
        → allocator_allocate malloc 2 allocator ≡ some (p, allocator')
        → Reach allocator' (p ∷ held)
    freed :
        {allocator allocator' : Allocator} (pre post : List ℕ) (p : ℕ)
        → Reach allocator (pre ++ (p ∷ post))
        → allocator_free malloc 2 p allocator ≡ some allocator'
        → Reach allocator' (pre ++ post)

  -- The blocks held and the free ones are together those of the stacks.
  record AreCounted (stacks : List Stack) (held : List ℕ) : Type 0 where
    few : length stacks ≤ 32
    blocks :
        (x : ℕ)
        → occurrences x held + occurrences x (available stacks)
          ≡ occurrences x (all_blocks malloc item_size chunk_item_amount (length stacks))
    count : length held + length (available stacks) ≡ length stacks * chunk_item_amount

  record IsSound (allocator : Allocator) (held : List ℕ) : Type 0 where
    stacks : List Stack
    unlocked : allocator ≡ idle item_size chunk_item_amount stacks
    good : AreStacks chunk_item_amount 0 stacks
    counted : AreCounted stacks held

  grown-AreCounted :
      (stacks stacks' : List Stack) (held : List ℕ)
      → length stacks < 32
      → available stacks'
        ≡ available stacks ++ blocks_of malloc item_size chunk_item_amount (length stacks)
      → length stacks' ≡ length stacks + 1
      → AreCounted stacks held
      → AreCounted stacks' held
  unfolding all_blocks
  grown-AreCounted stacks stacks' held few blocks' more counted =
      let count' : length stacks' ≡ suc (length stacks) = omega (arith, more) in
      let added = blocks_of malloc item_size chunk_item_amount (length stacks) in
      record {
        few = omega (arith, more, few);
        blocks = λ x. rw count' (
            omega (
              arith,
              counted.blocks x,
              ap (occurrences x) blocks',
              occurrences-append x (available stacks) added,
              occurrences-append x (all_blocks malloc item_size chunk_item_amount (length stacks))
                  added,
            ));
        count = rw count' (
            omega (
              arith,
              counted.count,
              ap length blocks',
              length-append (available stacks) added,
              length-pointers_from malloc item_size chunk_item_amount (malloc (length stacks)) 0
                  chunk_item_amount,
              suc-mul (length stacks) chunk_item_amount,
            ));
      }

  create-IsSound : IsSound (allocator_create malloc item_size chunk_item_amount) []
  unfolding allocator_create create_new_stack all_blocks available occurrences
  create-IsSound =
      let (stacks', grown, good, blocks, more) =
        grow_lem malloc item_size chunk_item_amount [] (omega arith) (omega arith) in
      subst_some (λ allocator. IsSound allocator []) (idle item_size chunk_item_amount stacks')
        (allocator_create malloc item_size chunk_item_amount) (sym grown)
        (record {
          stacks = stacks';
          unlocked = refl;
          good = good;
          counted = grown-AreCounted [] stacks' [] (omega arith) blocks more (record {
            few = omega arith;
            blocks = λ x. refl;
            count = sym (zero-mul chunk_item_amount);
          });
        })

  allocated-IsSound :
      (p : ℕ) (held : List ℕ) (stacks stacks' : List Stack)
      → AreStacks chunk_item_amount 0 stacks'
      → IsLess malloc item_size chunk_item_amount p stacks stacks'
      → AreCounted stacks held
      → IsSound (idle item_size chunk_item_amount stacks') (p ∷ held)
  unfolding occurrences
  allocated-IsSound p held stacks stacks' good less counted = record {
    stacks = stacks';
    unlocked = refl;
    good = good;
    counted = record {
      few = omega (arith, less.many, counted.few);
      blocks = λ x. rw less.many (omega (arith, counted.blocks x, less.blocks x));
      count = rw less.many (omega (arith, counted.count, less.count));
    };
  }

  -- A call of `allocator_allocate` that its callers may make.
  allocate_lem :
      (allocator : Allocator) (held : List ℕ)
      → IsSound allocator held
      → length held < 32 * chunk_item_amount
      → (p : ℕ) × (allocator' : Allocator) × (allocator_allocate malloc 2 allocator
          ≡ some (p, allocator'))
        × IsSound allocator' (p ∷ held)
  allocate_lem allocator held sound less_held =
      let stacks = sound.stacks in
      let counted = sound.counted in
      rw sound.unlocked (elim (ℕ_discrete (length (available stacks)) 0) [
        | no some_free ↦
            let (p, stacks', done, good, less) =
              allocate_found malloc item_size chunk_item_amount stacks counted.few sound.good 1
                (omega (arith, some_free)) in
            (
              p,
              idle item_size chunk_item_amount stacks',
              done,
              allocated-IsSound p held stacks stacks' good less counted,
            )
        | yes none_free ↦
            let below : length stacks < 32 =
              few_stacks (length stacks) (omega (arith, counted.count, none_free, less_held)) in
            let empty : available stacks ≡ [] = length_zero (available stacks) none_free in
            let (grown, made, good, blocks, more) =
              grow_lem malloc item_size chunk_item_amount stacks (omega (arith, below))
                sound.good in
            let counted' = grown-AreCounted stacks grown held below blocks more counted in
            let (p, stacks', done, good', less) =
              allocate_found malloc item_size chunk_item_amount grown counted'.few good 0 (
                omega (
                  arith,
                  less_held,
                  ap length blocks,
                  length-append (available stacks)
                      (blocks_of malloc item_size chunk_item_amount (length stacks)),
                  length-pointers_from malloc item_size chunk_item_amount (malloc (length stacks)) 0
                      chunk_item_amount,
                )) in
            (
              p,
              idle item_size chunk_item_amount stacks',
              allocate_grown malloc item_size chunk_item_amount stacks counted.few sound.good grown
                    empty made
                  ∙ done,
              allocated-IsSound p held grown stacks' good' less counted',
            )
      ])
    where
      few_stacks : (n : ℕ) → n * chunk_item_amount < 32 * chunk_item_amount → n < 32
      few_stacks n lt = grind arith

      length_zero : (xs : List ℕ) → length xs ≡ 0 → xs ≡ []
      length_zero [] e = refl
      length_zero (x ∷ xs) e = absurd (omega (arith, e))

  -- A call of `allocator_free` for a block that is held.
  free_lem :
      (allocator : Allocator) (pre post : List ℕ) (p : ℕ)
      → IsSound allocator (pre ++ (p ∷ post))
      → (allocator' : Allocator) × (allocator_free malloc 2 p allocator ≡ some allocator')
        × IsSound allocator' (pre ++ post)
  unfolding occurrences
  free_lem allocator pre post p sound =
      let stacks = sound.stacks in
      let counted = sound.counted in
      let held = length-append pre (p ∷ post) in
      let (stacks', done, good, less) =
        free_found malloc item_size chunk_item_amount stacks counted.few sound.good 1 p
          (omega (arith, counted.count, held)) in
      (
        idle item_size chunk_item_amount stacks',
        rw sound.unlocked done,
        record {
          stacks = stacks';
          unlocked = refl;
          good = good;
          counted = record {
            few = omega (arith, less.many, counted.few);
            blocks = λ x. rw (sym less.many) (
                omega (
                  arith,
                  counted.blocks x,
                  less.blocks x,
                  occurrences-append x pre (p ∷ post),
                  occurrences-append x pre post,
                ));
            count =
                rw (sym less.many)
                  (omega (arith, counted.count, less.count, held, length-append pre post));
          };
        },
      )

  reached-IsSound :
      {allocator : Allocator} {held : List ℕ} → Reach allocator held → IsSound allocator held
  reached-IsSound created = create-IsSound
  reached-IsSound (allocated {allocator} {allocator'} {held} {p} reach few e) =
      let (p', after, e', sound) = allocate_lem allocator held (reached-IsSound reach) few in
      subst_some (λ r. IsSound r.1 (r.0 ∷ held)) (p', after) (p, allocator') (sym e' ∙ e) sound
  reached-IsSound (freed {allocator} {allocator'} pre post p reach e) =
      let (after, e', sound) = free_lem allocator pre post p (reached-IsSound reach) in
      subst_some (λ a. IsSound a (pre ++ post)) after allocator' (sym e' ∙ e) sound

-- However blocks are allocated and freed, each by its holder, no address is held twice, nor held and
-- on a stack at once. This is for an allocator that is asked for a block only while fewer than those of
-- 32 stacks are held, and where the areas that `malloc` gives do not overlap and their sizes do not wrap
-- around.
pub reached-occurrences :
    (malloc : ℕ → ℕ) (item_size chunk_item_amount : ℕ) (allocator : Allocator) (held : List ℕ)
    → AreApart malloc item_size chunk_item_amount
    → Reach malloc item_size chunk_item_amount allocator held
    → (x : ℕ) → occurrences x (held ++ available allocator.stacks) ≤ 1
reached-occurrences malloc item_size chunk_item_amount allocator held apart reach x =
    let sound = reached-IsSound malloc item_size chunk_item_amount reach in
    rw sound.unlocked (
      omega (
        arith,
        occurrences-append x held (available sound.stacks),
        sound.counted.blocks x,
        all_blocks-once malloc item_size chunk_item_amount apart (length sound.stacks) x,
      ))

-- As long as fewer than the blocks of 32 stacks are held, `allocator_allocate` hands one out, calling
-- itself once at most.
pub reached-allocator_allocate :
    (malloc : ℕ → ℕ) (item_size chunk_item_amount : ℕ) (allocator : Allocator) (held : List ℕ)
    → Reach malloc item_size chunk_item_amount allocator held
    → length held < 32 * chunk_item_amount
    → (p : ℕ) × (allocator' : Allocator) × (allocator_allocate malloc 2 allocator
        ≡ some (p, allocator'))
reached-allocator_allocate malloc item_size chunk_item_amount allocator held reach few =
    let (p, after, e, _) =
      allocate_lem malloc item_size chunk_item_amount allocator held
        (reached-IsSound malloc item_size chunk_item_amount reach) few in
    (p, after, e)

-- `allocator_free` takes every block that is held, and makes no new stack for it. This is for an
-- allocator that has been asked for a block only while fewer than those of 32 stacks were held.
pub reached-allocator_free :
    (malloc : ℕ → ℕ) (item_size chunk_item_amount : ℕ) (allocator : Allocator) (pre post : List ℕ)
    (p : ℕ)
    → Reach malloc item_size chunk_item_amount allocator (pre ++ (p ∷ post))
    → (allocator' : Allocator) × (allocator_free malloc 1 p allocator ≡ some allocator')
      × (length allocator'.stacks ≡ length allocator.stacks)
reached-allocator_free malloc item_size chunk_item_amount allocator pre post p reach =
    let sound = reached-IsSound malloc item_size chunk_item_amount reach in
    let (stacks', done, good, less) =
      free_found malloc item_size chunk_item_amount sound.stacks sound.counted.few sound.good 0 p
        (omega (arith, sound.counted.count, length-append pre (p ∷ post))) in
    (
      idle item_size chunk_item_amount stacks',
      rw sound.unlocked done,
      sym less.many ∙ sym (ap (λ a. length a.stacks) sound.unlocked),
    )
