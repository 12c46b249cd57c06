-- ===== src/Hashmap/Sizes.antt =====
-- The size of a map that has held one value.
use swift_net.Base.{
  ℕ, zero, suc, ◌*◌, ◌<◌, ◌≡◌, refl, false, some, List, [], ◌∷◌, length, get_or, replicate, leb,
  arith, get_or-set_self, length-replicate,
}
use swift_net.Hashmap.{
  Item, blank, get_key, create, zeroed, insert_item, insert, place, remove, remove_chain,
}
use swift_net.Hashmap.Key.{same_key_refl, get_key-lt}

pub size-create {ℓ} : (V : Type ℓ) (memory_usage : ℕ) → (create {V = V} memory_usage).size ≡ 0
unfolding create zeroed
size-create V memory_usage = refl

module _ {ℓ} {V : Type ℓ} (seed : ℕ) where
  replicate-get_or :
      (n i : ℕ) (slot : List (Item V)) → i < n → get_or (replicate n slot) i [] ≡ slot
  replicate-get_or zero i slot lt = absurd (omega arith)
  replicate-get_or (suc n) zero slot lt = refl
  replicate-get_or (suc n) (suc i) slot lt = replicate-get_or n i slot (omega arith)

  -- One value into a new map, which does not grow by it, and out of it again.
  pub size-remove-insert :
      (memory_usage : ℕ) (key : List ℕ) (value : V)
      → 0 < memory_usage
      → (remove seed key (insert seed key value (create memory_usage))).size ≡ 0
  unfolding create zeroed insert insert_item place remove remove_chain
  size-remove-insert memory_usage key value some_memory =
      let capacity = 0x40 * memory_usage in
      let i = get_key seed key capacity in
      let lt : i < capacity = get_key-lt seed key capacity (omega arith) in
      let roomy : leb capacity 1 ≡ false = ground arith in
      let in_array : i < length (replicate capacity (blank {V = V} ∷ [])) =
        rw (length-replicate capacity (blank {V = V} ∷ [])) lt in
      rw
        (
          roomy,
          get_or-set_self (replicate capacity (blank {V = V} ∷ [])) i
              (place (record { key_original_data = key; value = some value })
                (get_or (replicate capacity (blank ∷ [])) i []))
              [] in_array,
          replicate-get_or capacity i (blank ∷ []) lt,
          same_key_refl key,
        )
        refl
