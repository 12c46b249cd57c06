-- ===== src/Allocator/Calls.antt =====
-- What `allocator_allocate`, `allocator_free` and `create_new_stack` do to an allocator that no other
-- call is at work on.
use mathlib.Core.Path.{subst}
use native.Mathlib.Nat.{zero-add}
use native.Mathlib.Numerals.{add-one}
use swift_net.Base.{
  ℕ, zero, suc, ◌+◌, ◌-◌, ◌*◌, ◌^◌, ◌≤◌, ◌<◌, ◌≡◌, refl, sym, ap, ◌∙◌, true, Option, some, List, [],
  ◌∷◌, ◌++◌, append-nil, length, length-append, length-set, length-take, take, get_or,
  get_elem?-eq-get_or, set, lt→ltb, arith, min,
}
use swift_net.Base.Buffer.{take_all}
use swift_net.Allocator.{
  Stack, Purpose, for_freeing, for_allocation, valid_size, find_free_pointer_stack, pointers_from,
  create_new_stack, pop_pointer, push_pointer, allocator_allocate, allocator_free,
}
use swift_net.Allocator.Find.{
  first_valid, idle, search_result, unlocked, get_elem?-at, find_free_pointer_stack_lem,
}
use swift_net.Allocator.Stacks.{
  occurrences, occurrences-append, take_one_more, take-set, available, available-append, AreStacks,
  indexed, stack_at, replaced, appended, Searched, nowhere, at_stack, searched, none_free, all_free,
}

set-at {ℓ} :
    {A : Type ℓ} (pre post : List A) (x y : A)
    → set (pre ++ (x ∷ post)) (length pre) y ≡ pre ++ (y ∷ post)
set-at [] post x y = refl
set-at (z ∷ pre) post x y = ap (λ r. z ∷ r) (set-at pre post x y)

-- The free blocks of two lists of stacks are the same but for those of one stack.
available_one :
    (x : ℕ) (pre post : List Stack) (stack : Stack)
    → occurrences x (available (pre ++ (stack ∷ post)))
      ≡ occurrences x (available pre)
        + (occurrences x (take stack.size stack.pointers) + occurrences x (available post))
unfolding available
available_one x pre post stack =
    ap (occurrences x) (available-append pre (stack ∷ post))
    ∙ occurrences-append x (available pre) _
    ∙ ap (λ n. occurrences x (available pre) + n)
        (occurrences-append x (take stack.size stack.pointers) (available post))

length_one :
    (pre post : List Stack) (stack : Stack)
    → length (available (pre ++ (stack ∷ post)))
      ≡ length (available pre) + (min stack.size (length stack.pointers) + length (available post))
unfolding available
length_one pre post stack = omega (
  arith,
  ap length (available-append pre (stack ∷ post)),
  length-append (available pre) (take stack.size stack.pointers ++ available post),
  length-append (take stack.size stack.pointers) (available post),
  length-take stack.size stack.pointers,
)

module _ (malloc : ℕ → ℕ) (item_size chunk_item_amount : ℕ) where
  -- `stacks'` has the free blocks of `stacks` less the block `p`.
  pub record IsLess (p : ℕ) (stacks stacks' : List Stack) : Type 0 where
    pub blocks :
        (x : ℕ)
        → occurrences x (available stacks)
          ≡ occurrences x (available stacks') + occurrences x (p ∷ [])
    pub count : length (available stacks) ≡ suc (length (available stacks'))
    pub many : length stacks' ≡ length stacks

  pop_lem :
      (pre post : List Stack) (stack : Stack)
      → length pre < 32
      → AreStacks chunk_item_amount 0 (pre ++ (stack ∷ post))
      → valid_size for_allocation chunk_item_amount stack.size ≡ true
      → (p : ℕ) × (stacks' : List Stack) × (pop_pointer malloc
            (length pre)
            (record (idle item_size chunk_item_amount (pre ++ (stack ∷ post))) {
              occupied = 2 ^ length pre;
            })
          ≡ some (p, idle item_size chunk_item_amount stacks'))
        × AreStacks chunk_item_amount 0 stacks'
        × IsLess p (pre ++ (stack ∷ post)) stacks'
  unfolding pop_pointer valid_size
  pop_lem pre post stack lt all valid =
      let good = stack_at chunk_item_amount 0 pre post stack all in
      let popped : Stack = record stack { size = stack.size - 1 } in
      let item = get_or stack.pointers (stack.size - 1) 0 in
      let some_left : 0 < stack.size = ground (arith, valid) in
      let inside : stack.size - 1 < length stack.pointers =
        omega (arith, good.width, good.within, some_left) in
      let placed : stack.index ≡ length pre = good.at_place ∙ zero-add (length pre) in
      let whole : suc (stack.size - 1) ≡ stack.size = omega (arith, some_left) in
      (
        item,
        pre ++ (popped ∷ post),
        rw
            (
              pop_pointer,
              get_elem?-at pre post stack,
              get_elem?-eq-get_or stack.pointers (stack.size - 1) 0 inside,
              set-at pre post stack popped,
              unlocked item_size chunk_item_amount (pre ++ (popped ∷ post)) (length pre) stack.index
                  lt placed,
            )
            refl,
        replaced chunk_item_amount 0 pre post stack popped all (record {
          at_place = good.at_place;
          width = good.width;
          within = omega (arith, good.within);
        }),
        record {
          blocks = λ x. omega (
            arith,
            available_one x pre post stack,
            available_one x pre post popped,
            rw whole at (take_one_more x (stack.size - 1) stack.pointers inside),
          );
          count =
              omega
                (arith, length_one pre post stack, length_one pre post popped, inside, some_left);
          many = omega (arith, length-append pre (popped ∷ post), length-append pre (stack ∷ post));
        },
      )

  push_lem :
      (p : ℕ) (pre post : List Stack) (stack : Stack)
      → length pre < 32
      → AreStacks chunk_item_amount 0 (pre ++ (stack ∷ post))
      → valid_size for_freeing chunk_item_amount stack.size ≡ true
      → (stacks' : List Stack) × (push_pointer malloc p
            (length pre)
            (record (idle item_size chunk_item_amount (pre ++ (stack ∷ post))) {
              occupied = 2 ^ length pre;
            })
          ≡ some (idle item_size chunk_item_amount stacks'))
        × AreStacks chunk_item_amount 0 stacks'
        × IsLess p stacks' (pre ++ (stack ∷ post))
  unfolding push_pointer valid_size
  push_lem p pre post stack lt all valid =
      let good = stack_at chunk_item_amount 0 pre post stack all in
      let pushed : Stack = record stack {
        size = stack.size + 1;
        pointers = set stack.pointers stack.size p;
      } in
      let room : stack.size < chunk_item_amount = ground (arith, valid) in
      let inside : stack.size < length stack.pointers = omega (arith, good.width, room) in
      let placed : stack.index ≡ length pre = good.at_place ∙ zero-add (length pre) in
      let kept = length-set stack.pointers stack.size p in
      (
        pre ++ (pushed ∷ post),
        rw
            (
              push_pointer,
              get_elem?-at pre post stack,
              lt→ltb stack.size (length stack.pointers) inside,
              set-at pre post stack pushed,
              unlocked item_size chunk_item_amount (pre ++ (pushed ∷ post)) (length pre) stack.index
                  lt placed,
            )
            refl,
        replaced chunk_item_amount 0 pre post stack pushed all (record {
          at_place = good.at_place;
          width = kept ∙ good.width;
          within = omega (arith, room);
        }),
        record {
          blocks = λ x. omega (
            arith,
            available_one x pre post stack,
            available_one x pre post pushed,
            rw (sym (add-one stack.size)) at (take-set x stack.size p stack.pointers inside),
          );
          count =
              omega (arith, length_one pre post stack, length_one pre post pushed, inside, kept);
          many = omega (arith, length-append pre (pushed ∷ post), length-append pre (stack ∷ post));
        },
      )

  -- The blocks of the `n`-th stack.
  abbrev pub blocks_of : ℕ → List ℕ
  blocks_of n = pointers_from (malloc n) item_size 0 chunk_item_amount

  pub length-pointers_from :
      (memory i count : ℕ) → length (pointers_from memory item_size i count) ≡ count
  unfolding pointers_from
  length-pointers_from memory i zero = refl
  length-pointers_from memory i (suc count) = ap suc (length-pointers_from memory (i + 1) count)

  pub grow_lem :
      (stacks : List Stack)
      → length stacks < 64
      → AreStacks chunk_item_amount 0 stacks
      → (stacks' : List Stack) × (create_new_stack malloc (idle item_size chunk_item_amount stacks)
          ≡ some (idle item_size chunk_item_amount stacks'))
        × AreStacks chunk_item_amount 0 stacks'
        × (available stacks' ≡ available stacks ++ blocks_of (length stacks))
        × (length stacks' ≡ length stacks + 1)
  unfolding create_new_stack available
  grow_lem stacks lt all =
      let count = length stacks in
      let stack : Stack = record {
        pointers = blocks_of count;
        data_start = malloc count;
        size = chunk_item_amount;
        index = count;
      } in
      let width = length-pointers_from (malloc count) 0 chunk_item_amount in
      (
        stacks ++ (stack ∷ []),
        rw (create_new_stack, lt→ltb count 64 lt) refl,
        appended chunk_item_amount 0 stacks stack all
            (record { at_place = sym (zero-add count); width = width; within = omega arith }),
        available-append stacks (stack ∷ [])
            ∙ ap (λ r. available stacks ++ r)
                (append-nil (take chunk_item_amount (blocks_of count))
                  ∙ take_all chunk_item_amount (blocks_of count) (omega (arith, width))),
        length-append stacks (stack ∷ []),
      )

  -- A call of `allocator_allocate` takes a block off the stacks, that of `allocator_free` puts one
  -- there.
  abbrev pub Allocates : ℕ → List Stack → Type 0
  Allocates rounds stacks =
      (p : ℕ) × (stacks' : List Stack) × (allocator_allocate malloc rounds
          (idle item_size chunk_item_amount stacks)
        ≡ some (p, idle item_size chunk_item_amount stacks'))
      × AreStacks chunk_item_amount 0 stacks'
      × IsLess p stacks stacks'

  abbrev pub Frees : ℕ → ℕ → List Stack → Type 0
  Frees rounds p stacks =
      (stacks' : List Stack) × (allocator_free malloc rounds p
          (idle item_size chunk_item_amount stacks)
        ≡ some (idle item_size chunk_item_amount stacks'))
      × AreStacks chunk_item_amount 0 stacks'
      × IsLess p stacks' stacks

  abbrev Finds : Purpose → Option ℕ → List Stack → Type 0
  Finds purpose r stacks =
      find_free_pointer_stack purpose (idle item_size chunk_item_amount stacks)
      ≡ some (search_result item_size chunk_item_amount r stacks)

  allocate_at :
      (rounds : ℕ) (pre post : List Stack) (stack : Stack)
      → valid_size for_allocation chunk_item_amount stack.size ≡ true
      → length (pre ++ (stack ∷ post)) ≤ 32
      → AreStacks chunk_item_amount 0 (pre ++ (stack ∷ post))
      → Finds for_allocation (some (length pre)) (pre ++ (stack ∷ post))
      → Allocates (suc rounds) (pre ++ (stack ∷ post))
  unfolding allocator_allocate
  allocate_at rounds pre post stack valid le all found =
      let (p, stacks', popped, good, less) =
        pop_lem pre post stack (omega (arith, le, length-append pre (stack ∷ post))) all valid in
      (p, stacks', rw (allocator_allocate, found) popped, good, less)

  free_at :
      (rounds p : ℕ) (pre post : List Stack) (stack : Stack)
      → valid_size for_freeing chunk_item_amount stack.size ≡ true
      → length (pre ++ (stack ∷ post)) ≤ 32
      → AreStacks chunk_item_amount 0 (pre ++ (stack ∷ post))
      → Finds for_freeing (some (length pre)) (pre ++ (stack ∷ post))
      → Frees (suc rounds) p (pre ++ (stack ∷ post))
  unfolding allocator_free
  free_at rounds p pre post stack valid le all found =
      let (stacks', pushed, good, less) =
        push_lem p pre post stack (omega (arith, le, length-append pre (stack ∷ post))) all valid in
      (stacks', rw (allocator_free, found) pushed, good, less)

  module _ (stacks : List Stack) (le : length stacks ≤ 32)
      (all : AreStacks chunk_item_amount 0 stacks) where
    -- While some block is free, one is handed out.
    pub allocate_found :
        (rounds : ℕ) → 0 < length (available stacks) → Allocates (suc rounds) stacks
    allocate_found rounds some_free =
        go (first_valid for_allocation chunk_item_amount 0 stacks)
          (find_free_pointer_stack_lem item_size chunk_item_amount for_allocation stacks
            (indexed chunk_item_amount 0 stacks all) le)
          (searched chunk_item_amount for_allocation 0 stacks)
      where
        go :
            (r : Option ℕ)
            → Finds for_allocation r stacks
            → Searched chunk_item_amount for_allocation 0 stacks r
            → Allocates (suc rounds) stacks
        go _ found (nowhere fail) =
            absurd
              (omega (arith, some_free, ap length (none_free chunk_item_amount 0 stacks all fail)))
        go _ found (at_stack pre post stack e valid) = subst (Allocates (suc rounds)) (sym e) (
            allocate_at rounds pre post stack valid (subst (λ ss. length ss ≤ 32) e le)
              (subst (AreStacks chunk_item_amount 0) e all)
              (subst (Finds for_allocation (some (length pre))) e
                (rw (zero-add (length pre)) at found)))

    -- While some block is handed out, one is taken back.
    pub free_found :
        (rounds p : ℕ)
        → length (available stacks) < length stacks * chunk_item_amount
        → Frees (suc rounds) p stacks
    free_found rounds p some_out =
        go (first_valid for_freeing chunk_item_amount 0 stacks)
          (find_free_pointer_stack_lem item_size chunk_item_amount for_freeing stacks
            (indexed chunk_item_amount 0 stacks all) le)
          (searched chunk_item_amount for_freeing 0 stacks)
      where
        go :
            (r : Option ℕ)
            → Finds for_freeing r stacks
            → Searched chunk_item_amount for_freeing 0 stacks r
            → Frees (suc rounds) p stacks
        go _ found (nowhere fail) =
            absurd (omega (arith, some_out, all_free chunk_item_amount 0 stacks all fail))
        go _ found (at_stack pre post stack e valid) = subst (Frees (suc rounds) p) (sym e) (
            free_at rounds p pre post stack valid (subst (λ ss. length ss ≤ 32) e le)
              (subst (AreStacks chunk_item_amount 0) e all)
              (subst (Finds for_freeing (some (length pre))) e
                (rw (zero-add (length pre)) at found)))

    -- Where no block is free, and there are fewer than 32 stacks, a new stack is made first.
    pub allocate_grown :
        (stacks' : List Stack)
        → available stacks ≡ []
        → create_new_stack malloc (idle item_size chunk_item_amount stacks)
          ≡ some (idle item_size chunk_item_amount stacks')
        → allocator_allocate malloc 2 (idle item_size chunk_item_amount stacks)
          ≡ allocator_allocate malloc 1 (idle item_size chunk_item_amount stacks')
    unfolding allocator_allocate valid_size
    allocate_grown stacks' empty grown =
        go (first_valid for_allocation chunk_item_amount 0 stacks)
          (find_free_pointer_stack_lem item_size chunk_item_amount for_allocation stacks
            (indexed chunk_item_amount 0 stacks all) le)
          (searched chunk_item_amount for_allocation 0 stacks)
      where
        go :
            (r : Option ℕ)
            → Finds for_allocation r stacks
            → Searched chunk_item_amount for_allocation 0 stacks r
            → allocator_allocate malloc 2 (idle item_size chunk_item_amount stacks)
              ≡ allocator_allocate malloc 1 (idle item_size chunk_item_amount stacks')
        go _ found (nowhere fail) = rw (allocator_allocate, found, grown) refl
        go _ found (at_stack pre post stack e valid) =
            let good =
              stack_at chunk_item_amount 0 pre post stack
                (subst (AreStacks chunk_item_amount 0) e all) in
            let some_left : 0 < stack.size = ground (arith, valid) in
            absurd (
              omega (
                arith,
                ap length empty,
                ap (λ ss. length (available ss)) e,
                length_one pre post stack,
                some_left,
                good.width,
                good.within,
              ))
