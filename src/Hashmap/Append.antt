-- ===== src/Hashmap/Append.antt =====
-- Placing an item in its slot, as insertion and moving do, adds its value behind the others of its
-- key and leaves every other key alone.
use swift_net.Base.{ℕ, ◌<◌, ◌≡◌, ◌∙◌, true, false, List, ◌++◌, append-nil, set, arith}
use swift_net.Hashmap.{Item, Chain, same_key, get_key, is_some, place}
use swift_net.Hashmap.Chain.{values, value_of, IsChain, values-place, place-IsChain}
use swift_net.Hashmap.Key.{same_key→eq, get_key-lt}
use swift_net.Hashmap.View.{slot_of, IsTable, view-set, set-IsTable}

module _ {ℓ} {V : Type ℓ} (seed : ℕ) (items : List (Chain V)) (capacity : ℕ) (pos : 0 < capacity)
    (t : IsTable seed capacity items) (item : Item V) where
  abbrev key : List ℕ
  key = item.key_original_data

  abbrev slot : Chain V
  slot = slot_of seed items capacity key

  slot-IsChain : IsChain slot
  slot-IsChain = t.chains (get_key seed key capacity) (get_key-lt seed key capacity pos)

  unmixed : (q : List ℕ) → same_key q key ≡ false → values q (place item slot) ≡ values q slot
  unmixed q ne = values-place q item slot slot-IsChain ∙ rw ne (append-nil (values q slot))

  pub append-IsTable :
      is_some item.value ≡ true
      → IsTable seed capacity (
          set items
            (get_key seed item.key_original_data capacity)
            (place item (slot_of seed items capacity item.key_original_data)))
  append-IsTable live =
      set-IsTable seed items capacity pos t key (place item slot) unmixed
        (place-IsChain item slot live slot-IsChain)

  pub view-append :
      (q : List ℕ)
      → values q (
          slot_of seed
            (set items
              (get_key seed item.key_original_data capacity)
              (place item (slot_of seed items capacity item.key_original_data)))
            capacity
            q)
        ≡ values q (slot_of seed items capacity q) ++ value_of q item
  view-append q =
      view-set seed items capacity pos t key (place item slot) unmixed q
      ∙ ground (
        arith,
        same_key→eq q key,
        values-place q item slot slot-IsChain,
        append-nil (values q (slot_of seed items capacity q)),
      )
