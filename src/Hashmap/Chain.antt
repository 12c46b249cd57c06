-- ===== src/Hashmap/Chain.antt =====
-- One chain: what its lookup reads, and what insertion, removal and moving do to the values of
-- each key.
use mathlib.Core.List.{head?, tail}
use swift_net.Base.{
  ℕ, ◌≡◌, refl, sym, ap, ◌∙◌, inl, inr, Bool, true, false, ◌||◌, Option, none, some, List, [], ◌∷◌,
  ◌++◌, append-nil, append_assoc, if◌then◌else◌, arith, Bool-cases,
}
use swift_net.Hashmap.{
  Item, Chain, is_some, same_key, find, place, unlink, remove_chain, place_moved,
}
use swift_net.Hashmap.Key.{same_key→eq}

module _ {ℓ} {V : Type ℓ} where
  abbrev pub to_list : Option V → List V
  to_list none = []
  to_list (some v) = v ∷ []

  abbrev pub value_of : List ℕ → Item V → List V
  value_of q item = if same_key q item.key_original_data then to_list item.value else []

  -- The values stored under a key, in the order of insertion.
  unfoldable pub values : List ℕ → Chain V → List V
  values q [] = []
  values q (item ∷ next) = value_of q item ++ values q next

  -- Every item has a value.
  abbrev pub IsLive : Chain V → Type 0
  IsLive [] = Unit
  IsLive (item ∷ next) = (is_some item.value ≡ true) × IsLive next

  abbrev pub is_empty : Chain V → Bool
  is_empty [] = true
  is_empty (_ ∷ _) = false

  -- A slot: all items have values, or the one in the array is alone and has none.
  abbrev pub IsChain : Chain V → Type 0
  IsChain [] = ⊥
  IsChain (item ∷ next) = ((is_some item.value || is_empty next) ≡ true) × IsLive next

  pub values-append : (q : List ℕ) (a b : Chain V) → values q (a ++ b) ≡ values q a ++ values q b
  unfolding values
  values-append q [] b = refl
  values-append q (item ∷ a) b =
      ap (λ (r : List V). value_of q item ++ r) (values-append q a b)
      ∙ sym (append_assoc (value_of q item) (values q a) (values q b))

  values_lone : (q : List ℕ) (item : Item V) → values q (item ∷ []) ≡ value_of q item
  unfolding values
  values_lone q item = append-nil (value_of q item)

  IsLive-append : (a b : Chain V) → IsLive a → IsLive b → IsLive (a ++ b)
  IsLive-append [] b ha hb = hb
  IsLive-append (item ∷ a) b ha hb = (ha.0, IsLive-append a b ha.1 hb)

  -- `hashmap_get` reads the oldest value of the key.
  find_live : (key : List ℕ) (c : Chain V) → IsLive c → find key c ≡ head? (values key c)
  unfolding find values
  find_live key [] h = refl
  find_live key (item ∷ next) h = ground (arith, find_live key next)

  pub find-values : (key : List ℕ) (c : Chain V) → IsChain c → find key c ≡ head? (values key c)
  unfolding find values
  find-values key [] h = elim h [ ]
  find-values key (item ∷ []) h = ground arith
  find-values key (item ∷ other ∷ next) h = find_live key (item ∷ other ∷ next) (ground arith, h.1)

  -- `hashmap_insert` stores the value behind the others of its key.
  place_live : (new : Item V) (c : Chain V) → IsLive c → place new c ≡ c ++ (new ∷ [])
  unfolding place
  place_live new [] h = refl
  place_live new (item ∷ next) h = ground (arith, place_live new next)

  pub values-place :
      (q : List ℕ) (new : Item V) (c : Chain V)
      → IsChain c
      → values q (place new c) ≡ values q c ++ value_of q new
  unfolding values place
  values-place q new [] h = elim h [ ]
  values-place q new (item ∷ []) h = ground (arith, append-nil (value_of q new))
  values-place q new (item ∷ other ∷ next) h =
      let live : IsLive (item ∷ other ∷ next) = (ground arith, h.1) in
      rw (place_live new (item ∷ other ∷ next) live) (
        values-append q (item ∷ other ∷ next) (new ∷ [])
        ∙ ap (λ (r : List V). values q (item ∷ other ∷ next) ++ r) (values_lone q new))

  pub place-IsChain :
      (new : Item V) (c : Chain V) → is_some new.value ≡ true → IsChain c → IsChain (place new c)
  unfolding place
  place-IsChain new [] some_new h = elim h [ ]
  place-IsChain new (item ∷ []) some_new h = elim (Bool-cases (is_some item.value)) [
    | inl e ↦ rw e (ground arith)
    | inr e ↦ rw e (ground arith)
  ]
  place-IsChain new (item ∷ other ∷ next) some_new h =
      let live : IsLive (item ∷ other ∷ next) = (ground arith, h.1) in
      rw (place_live new (item ∷ other ∷ next) live)
        (ground arith, IsLive-append (other ∷ next) (new ∷ []) live.1 (some_new, tt))

  -- Moving by `hashmap_resize` does the same.
  pub place_moved-eq-place :
      (new : Item V) (c : Chain V) → IsChain c → place_moved new c ≡ place new c
  unfolding place_moved place
  place_moved-eq-place new [] h = elim h [ ]
  place_moved-eq-place new (item ∷ []) h = ground arith
  place_moved-eq-place new (item ∷ other ∷ next) h =
      let live : IsLive (item ∷ other ∷ next) = (ground arith, h.1) in
      rw (live.0, place_live new (other ∷ next) live.1)

  -- `hashmap_remove` takes away the oldest value of its key, and only that.
  unlink_self : (k : List ℕ) (c : Chain V) → IsLive c → values k (unlink k c).1 ≡ tail (values k c)
  unfolding unlink values
  unlink_self k [] h = refl
  unlink_self k (item ∷ next) h = ground (arith, unlink_self k next)

  unlink_ne :
      (k q : List ℕ) (c : Chain V) → same_key q k ≡ false → values q (unlink k c).1 ≡ values q c
  unfolding unlink values
  unlink_ne k q [] h = refl
  unlink_ne k q (item ∷ next) h =
      ground (arith, unlink_ne k q next, same_key→eq k item.key_original_data)

  unlink-IsLive : (k : List ℕ) (c : Chain V) → IsLive c → IsLive (unlink k c).1
  unfolding unlink
  unlink-IsLive k [] h = h
  unlink-IsLive k (item ∷ next) h = elim (Bool-cases (same_key k item.key_original_data)) [
    | inl e ↦ rw e h.1
    | inr e ↦ rw e (h.0, unlink-IsLive k next h.1)
  ]

  pub values-remove_chain_self :
      (k : List ℕ) (c : Chain V) → IsChain c → values k (remove_chain k c).1 ≡ tail (values k c)
  unfolding remove_chain values
  values-remove_chain_self k [] h = elim h [ ]
  values-remove_chain_self k (item ∷ []) h = ground arith
  values-remove_chain_self k (item ∷ other ∷ next) h =
      ground (arith, unlink_self k (other ∷ next) h.1)

  pub values-remove_chain_ne :
      (k q : List ℕ) (c : Chain V)
      → same_key q k ≡ false
      → values q (remove_chain k c).1 ≡ values q c
  unfolding remove_chain values
  values-remove_chain_ne k q [] h = refl
  values-remove_chain_ne k q (item ∷ []) h = ground (arith, same_key→eq k item.key_original_data)
  values-remove_chain_ne k q (item ∷ other ∷ next) h =
      ground (arith, unlink_ne k q (other ∷ next), same_key→eq k item.key_original_data)

  pub remove_chain-IsChain : (k : List ℕ) (c : Chain V) → IsChain c → IsChain (remove_chain k c).1
  unfolding remove_chain
  remove_chain-IsChain k [] h = elim h [ ]
  remove_chain-IsChain k (item ∷ []) h = elim (Bool-cases (same_key k item.key_original_data)) [
    | inl e ↦ rw e (ground arith)
    | inr e ↦ rw e (ground arith)
  ]
  remove_chain-IsChain k (item ∷ other ∷ next) h =
      elim (Bool-cases (same_key k item.key_original_data)) [
        | inl e ↦ rw e (ground arith, h.1.1)
        | inr e ↦ rw e (ground arith, unlink-IsLive k (other ∷ next) h.1)
      ]
