-- ===== src/Hashmap/Resize.antt =====
-- `hashmap_resize`: every item is rehashed into the new array, chain by chain.
use swift_net.Base.{
  ℕ, zero, suc, ◌*◌, ◌%◌, ◌^◌, ◌<◌, ◌≡◌, ◌≢◌, refl, sym, ap, ◌∙◌, fun_ext, inl, inr, true, false,
  List, [], ◌∷◌, ◌++◌, append-nil, append_assoc, length, get_or, arith, Bool-cases,
}
use swift_net.Hashmap.{
  Item, Chain, HashMap, get_key, is_some, zeroed, move_item, move_chain, move_slot, move_all,
  resize,
}
use swift_net.Hashmap.Append.{append-IsTable, view-append}
use swift_net.Hashmap.Chain.{values, value_of, IsChain, IsLive, place_moved-eq-place}
use swift_net.Hashmap.Key.{get_key-lt}
use swift_net.Hashmap.View.{slot_of, view, IsValid, blank-values, replicate-IsTable}

module _ {ℓ} {V : Type ℓ} where
  -- What a walk over all slots finds under a key.
  walk : List ℕ → List (Chain V) → List V
  walk q [] = []
  walk q (slot ∷ slots) = values q slot ++ walk q slots

  walk_nothing :
      (q : List ℕ) (slots : List (Chain V))
      → ((i : ℕ) → values q (get_or slots i []) ≡ [])
      → walk q slots ≡ []
  unfolding walk
  walk_nothing q [] h = refl
  walk_nothing q (slot ∷ slots) h = rw (h 0) (walk_nothing q slots (λ i. h (suc i)))

  walk_only :
      (q : List ℕ) (slots : List (Chain V)) (j : ℕ)
      → ((i : ℕ) → i ≢ j → values q (get_or slots i []) ≡ [])
      → walk q slots ≡ values q (get_or slots j [])
  unfolding walk values
  walk_only q [] j h = refl
  walk_only q (slot ∷ slots) zero h =
      ap (λ r. values q slot ++ r) (walk_nothing q slots (λ i. h (suc i) (omega arith)))
      ∙ append-nil (values q slot)
  walk_only q (slot ∷ slots) (suc j) h =
      rw (h 0 (omega arith)) (walk_only q slots j (λ i n. h (suc i) (omega arith)))

  values_dead :
      (item : Item V) → is_some item.value ≡ false → (q : List ℕ) → values q (item ∷ []) ≡ []
  unfolding values
  values_dead item e q = ground arith

module _ {ℓ} {V : Type ℓ} (seed : ℕ) where
  -- Moving `moved` into a table adds its values behind those that are there.
  record IsExtended (m : HashMap V) (moved : List ℕ → List V) (m' : HashMap V) : Type ℓ where
    valid : IsValid seed m'
    capacity : m'.capacity ≡ m.capacity
    size : m'.size ≡ m.size
    reads : (q : List ℕ) → view seed m' q ≡ view seed m q ++ moved q

  IsExtended-trans :
      {m m' m'' : HashMap V} {a b : List ℕ → List V}
      → IsExtended m a m'
      → IsExtended m' b m''
      → IsExtended m (λ q. a q ++ b q) m''
  IsExtended-trans {m} {m'} {m''} {a} {b} x y = record {
    valid = y.valid;
    capacity = y.capacity ∙ x.capacity;
    size = y.size ∙ x.size;
    reads =
        λ q. y.reads q ∙ ap (λ r. r ++ b q) (x.reads q) ∙ append_assoc (view seed m q) (a q) (b q);
  }

  IsExtended-refl : (m : HashMap V) → IsValid seed m → IsExtended m (λ _. []) m
  IsExtended-refl m v = record {
    valid = v;
    capacity = refl;
    size = refl;
    reads = λ q. sym (append-nil (view seed m q));
  }

  move_item-IsExtended :
      (item : Item V) (m : HashMap V)
      → is_some item.value ≡ true
      → IsValid seed m
      → IsExtended m (λ q. value_of q item) (move_item seed item m)
  unfolding move_item
  move_item-IsExtended item m live v =
      let key = item.key_original_data in
      let home = get_key-lt seed key m.capacity v.room in
      let e =
        place_moved-eq-place item (slot_of seed m.items m.capacity key)
          (v.table.chains (get_key seed key m.capacity) home) in
      record {
        valid = record {
          room = v.room;
          table = rw e (append-IsTable seed m.items m.capacity v.room v.table item live);
        };
        capacity = refl;
        size = refl;
        reads = λ q. rw e (view-append seed m.items m.capacity v.room v.table item q);
      }

  move_chain-IsExtended :
      (c : Chain V) (m : HashMap V)
      → IsLive c
      → IsValid seed m
      → IsExtended m (λ q. values q c) (move_chain seed c m)
  unfolding move_chain values
  move_chain-IsExtended [] m live v = IsExtended-refl m v
  move_chain-IsExtended (item ∷ next) m live v =
      let first = move_item-IsExtended item m live.0 v in
      IsExtended-trans first (move_chain-IsExtended next (move_item seed item m) live.1 first.valid)

  move_slot-IsExtended :
      (c : Chain V) (m : HashMap V)
      → IsChain c
      → IsValid seed m
      → IsExtended m (λ q. values q c) (move_slot seed c m)
  unfolding move_slot
  move_slot-IsExtended [] m chain v = elim chain [ ]
  move_slot-IsExtended (item ∷ []) m chain v = elim (Bool-cases (is_some item.value)) [
    | inl e ↦ rw e (move_chain-IsExtended (item ∷ []) m (e, tt) v)
    | inr e ↦ rw (e, fun_ext (values_dead item e)) (IsExtended-refl m v)
  ]
  move_slot-IsExtended (item ∷ other ∷ next) m chain v =
      let live : is_some item.value ≡ true = ground arith in
      rw live (move_chain-IsExtended (item ∷ other ∷ next) m (live, chain.1) v)

  move_all-IsExtended :
      (slots : List (Chain V)) (m : HashMap V)
      → ((i : ℕ) → i < length slots → IsChain (get_or slots i []))
      → IsValid seed m
      → IsExtended m (λ q. walk q slots) (move_all seed slots m)
  unfolding move_all walk
  move_all-IsExtended [] m chains v = IsExtended-refl m v
  move_all-IsExtended (slot ∷ slots) m chains v =
      let first = move_slot-IsExtended slot m (chains 0 (omega arith)) v in
      IsExtended-trans first (
        move_all-IsExtended slots (move_slot seed slot m) (λ i lt. chains (suc i) (omega arith))
          first.valid)

  -- Growing a valid map of capacity below 2^30 multiplies its capacity by four and keeps the size,
  -- the invariant, and the values of every key, in order.
  pub resize_lem :
      (m : HashMap V)
      → m.capacity < 2 ^ 30
      → IsValid seed m
      → IsValid seed (resize seed m)
        × ((resize seed m).capacity ≡ m.capacity * 4)
        × ((resize seed m).size ≡ m.size)
        × ((q : List ℕ) → view seed (resize seed m) q ≡ view seed m q)
  unfolding resize zeroed
  resize_lem m small v =
      let capacity : ℕ = m.capacity * 4 % 2 ^ 32 in
      let start : HashMap V = record (zeroed capacity) { size = m.size } in
      let fits : capacity ≡ m.capacity * 4 = omega arith in
      let room : 0 < capacity = omega (arith, v.room) in
      let moved =
        move_all-IsExtended m.items start (λ i lt. v.table.chains i (rw v.table.width at lt))
          (record { room = room; table = replicate-IsTable seed capacity }) in
      (
        moved.valid,
        moved.capacity ∙ fits,
        moved.size,
        λ q.
            moved.reads q
            ∙ rw (blank-values V capacity (get_key seed q capacity) q)
                (walk_only q m.items (get_key seed q m.capacity) (λ i n. v.table.placed i q n)),
      )
