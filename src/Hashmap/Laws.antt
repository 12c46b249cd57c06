-- ===== src/Hashmap/Laws.antt =====
-- The operations of the hash map against the map from keys to lists of values.
use mathlib.Core.List.{head?, tail}
use swift_net.Base.{
  ℕ, ◌+◌, ◌-◌, ◌*◌, ◌%◌, ◌^◌, ◌<◌, ◌≡◌, refl, ◌∙◌, inl, inr, none, some, List, [], ◌∷◌, ◌++◌,
  length, if◌then◌else◌, leb, arith, Bool-cases, get_or-set_self,
}
use swift_net.Hashmap.{
  Item, HashMap, same_key, get_key, create, zeroed, insert_item, insert, get, remove, remove_chain,
  clear_head,
}
use swift_net.Hashmap.Append.{append-IsTable, view-append}
use swift_net.Hashmap.Chain.{
  values, find-values, values-remove_chain_self, values-remove_chain_ne, remove_chain-IsChain,
}
use swift_net.Hashmap.Key.{same_key→eq, same_key_refl, get_key-lt}
use swift_net.Hashmap.Resize.{resize_lem}
use swift_net.Hashmap.View.{
  slot_of, view, IsValid, blank-values, replicate-IsTable, view-set, set-IsTable,
}

pub capacity-create {ℓ} :
    (V : Type ℓ) (memory_usage : ℕ) → (create {V = V} memory_usage).capacity ≡ 0x40 * memory_usage
unfolding create zeroed
capacity-create V memory_usage = refl

module _ {ℓ} {V : Type ℓ} (seed : ℕ) where
  zeroed_lem :
      (capacity : ℕ)
      → 0 < capacity
      → IsValid {V = V} seed (zeroed capacity)
        × ((q : List ℕ) → view {V = V} seed (zeroed capacity) q ≡ [])
  unfolding zeroed
  zeroed_lem capacity pos = (
    record { room = pos; table = replicate-IsTable seed capacity },
    λ q. blank-values V capacity (get_key seed q capacity) q,
  )

  -- A new map for a positive memory usage is valid and holds nothing under any key.
  pub create_lem :
      (memory_usage : ℕ)
      → 0 < memory_usage
      → IsValid {V = V} seed (create memory_usage)
        × ((q : List ℕ) → view {V = V} seed (create memory_usage) q ≡ [])
  unfolding create
  create_lem memory_usage pos = zeroed_lem (0x40 * memory_usage) (omega arith)

  -- On a valid map `hashmap_get` returns the oldest value stored under exactly the given bytes, or nothing.
  pub get-view :
      (m : HashMap V) (key : List ℕ) → IsValid seed m → get seed key m ≡ head? (view seed m key)
  unfolding get
  get-view m key v =
      find-values key (slot_of seed m.items m.capacity key)
        (v.table.chains (get_key seed key m.capacity) (get_key-lt seed key m.capacity v.room))

  insert_item_lem :
      (m : HashMap V) (key : List ℕ) (value : V)
      → IsValid seed m
      → IsValid seed (insert_item seed key value m)
        × ((q : List ℕ)
            → view seed (insert_item seed key value m) q
              ≡ view seed m q ++ (if same_key q key then value ∷ [] else []))
  unfolding insert_item
  insert_item_lem m key value v =
      let item : Item V = record { key_original_data = key; value = some value } in
      (
        record {
          room = v.room;
          table = append-IsTable seed m.items m.capacity v.room v.table item refl;
        },
        view-append seed m.items m.capacity v.room v.table item,
      )

  capacity-insert_item :
      (m : HashMap V) (key : List ℕ) (value : V)
      → (insert_item seed key value m).capacity ≡ m.capacity
  unfolding insert_item
  capacity-insert_item m key value = refl

  -- On a valid map of capacity below 2^30, `hashmap_insert`, with the growth that it may cause,
  -- keeps the invariant, stores the value behind those already under its key, and changes no other
  -- key.
  pub insert_lem :
      (m : HashMap V) (key : List ℕ) (value : V)
      → m.capacity < 2 ^ 30
      → IsValid seed m
      → IsValid seed (insert seed key value m)
        × ((q : List ℕ)
            → view seed (insert seed key value m) q
              ≡ view seed m q ++ (if same_key q key then value ∷ [] else []))
  unfolding insert
  insert_lem m key value small v =
      let placed = insert_item seed key value m in
      let (valid, reads) = insert_item_lem m key value v in
      elim (Bool-cases (leb placed.capacity placed.size)) [
        | inr e ↦ rw e (valid, reads)
        | inl e ↦
            let grown =
              resize_lem seed placed (rw (capacity-insert_item m key value) small) valid in
            rw e (grown.0, λ q. grown.3 q ∙ reads q)
      ]

  -- On a valid map `hashmap_remove` keeps the invariant, takes away the oldest value of its key, and changes no
  -- other key; where the key has no value it changes no key at all.
  pub remove_lem :
      (m : HashMap V) (key : List ℕ)
      → IsValid seed m
      → IsValid seed (remove seed key m)
        × ((q : List ℕ)
            → view seed (remove seed key m) q
              ≡ (if same_key q key then tail (view seed m q) else view seed m q))
  unfolding remove
  remove_lem m key v =
      let slot = slot_of seed m.items m.capacity key in
      let chain =
        v.table.chains (get_key seed key m.capacity) (get_key-lt seed key m.capacity v.room) in
      let other = λ (q : List ℕ). values-remove_chain_ne key q slot in
      (
        record {
          room = v.room;
          table =
              set-IsTable seed m.items m.capacity v.room v.table key (remove_chain key slot).1 other
                (remove_chain-IsChain key slot chain);
        },
        λ q.
            view-set seed m.items m.capacity v.room v.table key (remove_chain key slot).1 other q
            ∙ elim (Bool-cases (same_key q key)) [
              | inl e ↦
                  rw (same_key→eq q key e, same_key_refl key)
                    (values-remove_chain_self key slot chain)
              | inr e ↦ rw e
            ],
      )

  remove_alone :
      (m : HashMap V) (item : Item V)
      → IsValid seed m
      → slot_of seed m.items m.capacity item.key_original_data ≡ item ∷ []
      → ((remove seed item.key_original_data m).size ≡ (m.size + 2 ^ 32 - 1) % 2 ^ 32)
        × (slot_of seed
              (remove seed item.key_original_data m).items
              m.capacity
              item.key_original_data
            ≡ record item { value = none } ∷ [])
        × ((remove seed item.key_original_data m).capacity ≡ m.capacity)
  unfolding remove remove_chain clear_head
  remove_alone m item v alone =
      let key = item.key_original_data in
      let lt : get_key seed key m.capacity < length m.items =
        rw v.table.width (get_key-lt seed key m.capacity v.room) in
      (
        rw (alone, same_key_refl key),
        get_or-set_self m.items (get_key seed key m.capacity) _ [] lt
            ∙ rw (alone, same_key_refl key),
        refl,
      )

  values_cleared :
      (key : List ℕ)
      → values {V = V} key (record { key_original_data = key; value = none } ∷ []) ≡ []
  unfolding values
  values_cleared key = ground arith

  -- A key whose slot holds it alone: a second removal finds the cleared item again, so it counts
  -- the size down once more although it takes away nothing.
  pub size-remove_twice :
      (m : HashMap V) (key : List ℕ) (value : V)
      → IsValid seed m
      → slot_of seed m.items m.capacity key
        ≡ record { key_original_data = key; value = some value } ∷ []
      → let once = remove seed key m in
        let twice = remove seed key once in
        (twice.size ≡ (once.size + 2 ^ 32 - 1) % 2 ^ 32)
        × ((q : List ℕ) → view seed twice q ≡ view seed once q)
  unfolding values
  size-remove_twice m key value v alone =
      let item : Item V = record { key_original_data = key; value = some value } in
      let first = remove_alone m item v alone in
      let valid = (remove_lem m key v).0 in
      let cleared : slot_of seed (remove seed key m).items (remove seed key m).capacity key
          ≡ record item { value = none } ∷ [] =
        rw first.2 first.1 in
      let second = remove_alone (remove seed key m) (record item { value = none }) valid cleared in
      (
        second.0,
        λ q. (remove_lem (remove seed key m) key valid).1 q ∙ elim (Bool-cases (same_key q key)) [
          | inr e ↦ rw e
          | inl e ↦ rw (same_key→eq q key e, same_key_refl key, cleared, values_cleared key)
        ],
      )
