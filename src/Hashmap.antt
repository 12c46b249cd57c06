-- ===== src/Hashmap.antt =====
-- src/internal/datatype_hashmap.c and the types of swift_net.h that it works on.
-- A chain is the list of a slot's items, the one in the `items` array first; a zeroed slot is one
-- item with no value. Keys are the bytes that `key_original_data` points to. Items and keys are
-- taken from the allocators of src/internal/datatype_allocator.c, which have a module of their own.
pub mod Key
mod Chain
pub mod View
mod Append
mod Resize
pub mod Laws
pub mod Sizes
pub mod Loop
mod Tests
use swift_net.Base.{
  ℕ, zero, suc, ◌+◌, ◌-◌, ◌*◌, ◌/◌, ◌%◌, ◌^◌, bit_and, bit_or, bit_xor, Bool, true, false, ◌&&◌,
  Option, none, some, List, [], ◌∷◌, ◌++◌, length, get_or, set, replicate, leb, ◌==◌, if◌then◌else◌,
}
use swift_net.Base.Bits.{bit_not}

-- `SwiftNetHashMapItem`, without the link to the next item.
pub record Item {ℓ} (V : Type ℓ) : Type ℓ where
  pub key_original_data : List ℕ
  pub value : Option V

abbrev pub Chain {ℓ} : Type ℓ → Type ℓ
Chain V = List (Item V)

-- `SwiftNetHashMap`
pub record HashMap {ℓ} (V : Type ℓ) : Type ℓ where
  pub items : List (Chain V)
  pub item_occupation : List ℕ
  pub capacity : ℕ
  pub size : ℕ

-- A left shift of a 32-bit word.
abbrev pub shl32 : ℕ → ℕ → ℕ
shl32 x k = x * 2 ^ k % 2 ^ 32

abbrev pub is_some {ℓ} : {A : Type ℓ} → Option A → Bool
is_some none = false
is_some (some _) = true

-- `memcmp(a, b, n) == 0` for two buffers of `n` bytes.
pub memcmp_equal : List ℕ → List ℕ → Bool
memcmp_equal [] ys = true
memcmp_equal (a ∷ xs) [] = false
memcmp_equal (a ∷ xs) (b ∷ ys) = (a == b) && memcmp_equal xs ys

-- The test of `hashmap_get` and `hashmap_remove`.
pub same_key : List ℕ → List ℕ → Bool
unfolding memcmp_equal
same_key a b = (length a == length b) && memcmp_equal b a

-- The loop of `hash64`, from the result so far.
hash_from : ℕ → ℕ → List ℕ → ℕ
hash_from seed res [] = res
hash_from seed res (byte ∷ bytes) = hash_from seed (bit_xor res byte * seed % 2 ^ 64) bytes

pub hash64 : ℕ → List ℕ → ℕ
unfolding hash_from
hash64 seed bytes = hash_from seed 0 bytes

-- `get_key`: the product is taken in 128 bits.
pub get_key : ℕ → List ℕ → ℕ → ℕ
get_key seed key capacity = hash64 seed key * capacity / 2 ^ 64 % 2 ^ 32

-- `*(item_occupation + key / 32) |= flag << (key % 32)`
pub occupy : ℕ → ℕ → List ℕ → List ℕ
occupy flag key words =
    set words (key / 32) (bit_or (get_or words (key / 32) 0) (shl32 flag (key % 32)))

module _ {ℓ} {V : Type ℓ} where
  -- A slot that `calloc` has zeroed.
  abbrev pub blank : Item V
  blank = record { key_original_data = []; value = none }

  -- The two arrays of `capacity` slots that `calloc` gives, with no item in them.
  unfoldable pub zeroed : ℕ → HashMap V
  zeroed capacity = record {
    items = replicate capacity (blank ∷ []);
    item_occupation = replicate ((capacity + 31) / 32) 0;
    capacity = capacity;
    size = 0;
  }

  -- `hashmap_create`, for the `SWIFT_NET_MEMORY_USAGE` that the build sets.
  unfoldable pub create : ℕ → HashMap V
  create memory_usage = zeroed (0x40 * memory_usage)

  -- The loop of `hashmap_get` along one chain.
  pub find : List ℕ → Chain V → Option V
  find key [] = none
  find key (item ∷ next) = if same_key key item.key_original_data then item.value else find key next

  -- The loop of `hashmap_insert` along one chain: the first item with no value is overwritten, its
  -- link included; past the last item a new one is linked.
  pub place : Item V → Chain V → Chain V
  place new [] = new ∷ []
  place new (item ∷ next) = if is_some item.value then item ∷ place new next else new ∷ []

  -- The unlinking of a later item in `hashmap_remove`.
  pub unlink : List ℕ → Chain V → Bool × Chain V
  unlink key [] = (false, [])
  unlink key (item ∷ next) =
      let rest = unlink key next in
      if same_key key item.key_original_data then (true, next) else (rest.0, item ∷ rest.1)

  -- A match in the array itself: the next item is copied over it; where there is none, only the
  -- value is cleared and the key stays.
  pub clear_head : Item V → Chain V → Chain V
  clear_head item [] = record item { value = none } ∷ []
  clear_head item (following ∷ rest) = following ∷ rest

  -- `hashmap_remove` along one chain, with whether the key was found.
  pub remove_chain : List ℕ → Chain V → Bool × Chain V
  unfolding unlink clear_head
  remove_chain key [] = (false, [])
  remove_chain key (item ∷ next) =
      if same_key key item.key_original_data
      then (true, clear_head item next)
      else let rest = unlink key next in (rest.0, item ∷ rest.1)

  -- The items of one chain moved by `hashmap_resize`: one with a value at its head is extended.
  pub place_moved : Item V → Chain V → Chain V
  place_moved new [] = new ∷ []
  place_moved new (item ∷ next) =
      if is_some item.value then (item ∷ next) ++ (new ∷ []) else new ∷ []

  -- The first statement of `hashmap_remove`: `&= ~(0 << bit)` where the slot has one item.
  pub vacate : ℕ → Chain V → List ℕ → List ℕ
  vacate key [] words = words
  vacate key (item ∷ []) words =
      set words (key / 32) (bit_and (get_or words (key / 32) 0) (bit_not 32 (shl32 0 (key % 32))))
  vacate key (item ∷ following ∷ rest) words = words

module _ {ℓ} {V : Type ℓ} (seed : ℕ) where
  pub get : List ℕ → HashMap V → Option V
  get key hashmap = find key (get_or hashmap.items (get_key seed key hashmap.capacity) [])

  move_item : Item V → HashMap V → HashMap V
  move_item item hashmap =
      let key = get_key seed item.key_original_data hashmap.capacity in
      record hashmap {
        items = set hashmap.items key (place_moved item (get_or hashmap.items key []));
        item_occupation = occupy 1 key hashmap.item_occupation;
      }

  pub move_chain : Chain V → HashMap V → HashMap V
  unfolding move_item
  move_chain [] hashmap = hashmap
  move_chain (item ∷ next) hashmap = move_chain next (move_item item hashmap)

  -- One round of the loop of `hashmap_resize`: a slot with no value at its head is passed over.
  pub move_slot : Chain V → HashMap V → HashMap V
  move_slot [] hashmap = hashmap
  move_slot (item ∷ next) hashmap =
      if is_some item.value then move_chain (item ∷ next) hashmap else hashmap

  pub move_all : List (Chain V) → HashMap V → HashMap V
  move_all [] hashmap = hashmap
  move_all (slot ∷ slots) hashmap = move_all slots (move_slot slot hashmap)

  -- `hashmap_resize`
  pub resize : HashMap V → HashMap V
  resize hashmap =
      let new_capacity = hashmap.capacity * 4 % 2 ^ 32 in
      move_all hashmap.items (record (zeroed new_capacity) { size = hashmap.size })

  -- `hashmap_insert` up to the test of the load.
  unfoldable pub insert_item : List ℕ → V → HashMap V → HashMap V
  insert_item key_data value hashmap =
      let key = get_key seed key_data hashmap.capacity in
      let new : Item V = record { key_original_data = key_data; value = some value } in
      record hashmap {
        items = set hashmap.items key (place new (get_or hashmap.items key []));
        item_occupation = occupy 0 key hashmap.item_occupation;
        size = (hashmap.size + 1) % 2 ^ 32;
      }

  unfoldable pub insert : List ℕ → V → HashMap V → HashMap V
  insert key_data value hashmap =
      let inserted = insert_item key_data value hashmap in
      if leb inserted.capacity inserted.size then resize inserted else inserted

  -- `hashmap_remove`
  pub remove : List ℕ → HashMap V → HashMap V
  remove key_data hashmap =
      let key = get_key seed key_data hashmap.capacity in
      let slot = get_or hashmap.items key [] in
      let (found, chain) = remove_chain key_data slot in
      record hashmap {
        items = set hashmap.items key chain;
        item_occupation = vacate key slot hashmap.item_occupation;
        size = if found then (hashmap.size + 2 ^ 32 - 1) % 2 ^ 32 else hashmap.size;
      }
