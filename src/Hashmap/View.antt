-- ===== src/Hashmap/View.antt =====
-- The array of chains read as a function from keys to the values stored under them.
use swift_net.Base.{
  ℕ, zero, suc, ◌<◌, ◌≡◌, ◌≢◌, refl, sym, ap, ◌∙◌, inl, inr, false, List, [], ◌∷◌, length, get_or,
  set, replicate, if◌then◌else◌, arith, Bool-cases, length-set, length-replicate, get_or-set_self,
  get_or-set_ne, ℕ_discrete,
}
use swift_net.Hashmap.{Chain, HashMap, same_key, get_key, blank}
use swift_net.Hashmap.Chain.{values, IsChain}
use swift_net.Hashmap.Key.{same_key→eq, get_key-lt}

module _ {ℓ} (V : Type ℓ) where
  blank_chains : (n i : ℕ) → i < n → IsChain {V = V} (get_or (replicate n (blank ∷ [])) i [])
  blank_chains zero i lt = elim lt [ ]
  blank_chains (suc n) zero lt = (refl, tt)
  blank_chains (suc n) (suc i) lt = blank_chains n i (omega arith)

  pub blank-values :
      (n i : ℕ) (key : List ℕ) → values {V = V} key (get_or (replicate n (blank ∷ [])) i []) ≡ []
  unfolding values
  blank-values zero i key = refl
  blank-values (suc n) zero key = ground arith
  blank-values (suc n) (suc i) key = blank-values n i key

module _ {ℓ} {V : Type ℓ} (seed : ℕ) where
  abbrev pub slot_of : List (Chain V) → ℕ → List ℕ → Chain V
  slot_of items capacity key = get_or items (get_key seed key capacity) []

  -- The values under a key, oldest first.
  abbrev pub view : HashMap V → List ℕ → List V
  view hashmap key = values key (slot_of hashmap.items hashmap.capacity key)

  -- Every slot is a chain, and holds no value whose key hashes elsewhere.
  pub record IsTable (capacity : ℕ) (items : List (Chain V)) : Type ℓ where
    pub width : length items ≡ capacity
    pub chains : (i : ℕ) → i < capacity → IsChain (get_or items i [])
    pub placed :
        (i : ℕ) (key : List ℕ) → i ≢ get_key seed key capacity → values key (get_or items i []) ≡ []

  pub record IsValid (hashmap : HashMap V) : Type ℓ where
    pub room : 0 < hashmap.capacity
    pub table : IsTable hashmap.capacity hashmap.items

  pub replicate-IsTable : (n : ℕ) → IsTable n (replicate n (blank ∷ []))
  replicate-IsTable n = record {
    width = length-replicate n (blank ∷ []);
    chains = blank_chains V n;
    placed = λ i key _. blank-values V n i key;
  }

  -- A write of one slot that changes the values of one key.
  module _ (items : List (Chain V)) (capacity : ℕ) (pos : 0 < capacity) (t : IsTable capacity items)
      (key : List ℕ) (c : Chain V)
      (same : (q : List ℕ)
        → same_key q key ≡ false
        → values q c ≡ values q (slot_of items capacity key)) where
    abbrev updated : List (Chain V)
    updated = set items (get_key seed key capacity) c

    home-lt : get_key seed key capacity < length items
    home-lt = rw t.width (get_key-lt seed key capacity pos)

    pub view-set :
        (q : List ℕ)
        → values q (slot_of (set items (get_key seed key capacity) c) capacity q)
          ≡ (if same_key q key then values q c else values q (slot_of items capacity q))
    view-set q = elim (Bool-cases (same_key q key)) [
      | inl e ↦
          rw (e, same_key→eq q key e)
            (ap (values key) (get_or-set_self items (get_key seed key capacity) c [] home-lt))
      | inr e ↦ rw e (elim (ℕ_discrete (get_key seed key capacity) (get_key seed q capacity)) [
        | yes p ↦
            rw (← p, get_or-set_self items (get_key seed key capacity) c [] home-lt) (same q e)
        | no n ↦ ap (values q) (get_or-set_ne items _ _ c [] n)
      ])
    ]

    elsewhere : (q : List ℕ) → get_key seed key capacity ≢ get_key seed q capacity → values q c ≡ []
    elsewhere q away = elim (Bool-cases (same_key q key)) [
      | inl e ↦ absurd (away (ap (λ k. get_key seed k capacity) (sym (same_key→eq q key e))))
      | inr e ↦ same q e ∙ t.placed _ q away
    ]

    pub set-IsTable : IsChain c → IsTable capacity (set items (get_key seed key capacity) c)
    set-IsTable chain = record {
      width = length-set items _ c ∙ t.width;
      chains = λ i lt. elim (ℕ_discrete (get_key seed key capacity) i) [
        | yes p ↦ rw (← p, get_or-set_self items (get_key seed key capacity) c [] home-lt) chain
        | no n ↦ rw (get_or-set_ne items _ i c [] n) (t.chains i lt)
      ];
      placed = λ i q away. elim (ℕ_discrete (get_key seed key capacity) i) [
        | yes p ↦
            rw (← p, get_or-set_self items (get_key seed key capacity) c [] home-lt)
              (elsewhere q (λ h. away (sym p ∙ h)))
        | no n ↦ rw (get_or-set_ne items _ i c [] n) (t.placed i q away)
      ];
    }
