-- ===== src/Hashmap/Tests.antt =====
-- The theorems on the hash map at concrete inputs, and runs of its operations.
use mathlib.Core.List.{tail}
use swift_net.Base.{
  ℕ, ◌+◌, ◌-◌, ◌*◌, ◌%◌, ◌^◌, ◌<◌, ◌≡◌, refl, none, some, List, [], ◌∷◌, ◌++◌, replicate,
  if◌then◌else◌, arith,
}
use swift_net.Hashmap.{
  HashMap, create, zeroed, same_key, get, insert, remove, find, insert_item, resize, get_key,
  hash64, place, remove_chain,
}
use swift_net.Hashmap.Laws.{create_lem, insert_lem, remove_lem, size-remove_twice}
use swift_net.Hashmap.Loop.{
  loop_hashmap, created, inserted, loop_hashmap-NeverGrown, loop_hashmap_stuck,
}
use swift_net.Hashmap.Resize.{resize_lem}
use swift_net.Hashmap.View.{IsValid, view}

abbrev port_key : List ℕ
port_key = 0x90 ∷ 0x1f ∷ []

abbrev empty_map : HashMap ℕ
empty_map = create 1

empty_map-IsValid : IsValid 11 empty_map
empty_map-IsValid = (create_lem 11 1 (omega arith)).0

abbrev one_port : HashMap ℕ
one_port = insert 11 port_key 5 empty_map

insert_lem_example :
    IsValid 11 one_port
    × ((q : List ℕ)
        → view 11 one_port q ≡ view 11 empty_map q ++ (if same_key q port_key then 5 ∷ [] else []))
unfolding create zeroed
insert_lem_example = insert_lem 11 empty_map port_key 5 (omega arith) empty_map-IsValid

get_stored : get 11 port_key one_port ≡ some 5
unfolding get insert create zeroed find insert_item get_key hash64 place same_key
get_stored = refl

remove_lem_example :
    IsValid 11 (remove 11 port_key one_port)
    × ((q : List ℕ)
        → view 11 (remove 11 port_key one_port) q
          ≡ (if same_key q port_key then tail (view 11 one_port q) else view 11 one_port q))
remove_lem_example = remove_lem 11 one_port port_key insert_lem_example.0

size-remove_twice_example :
    let once = remove 11 port_key one_port in
    let twice = remove 11 port_key once in
    (twice.size ≡ (once.size + 2 ^ 32 - 1) % 2 ^ 32)
    × ((q : List ℕ) → view 11 twice q ≡ view 11 once q)
unfolding insert create zeroed insert_item get_key hash64 place
size-remove_twice_example = size-remove_twice 11 one_port port_key 5 insert_lem_example.0 refl

-- The size of the emptied map is 2 ^ 32 - 1 after the second removal.
size_underflow : (remove 11 port_key (remove 11 port_key one_port)).size ≡ 2 ^ 32 - 1
unfolding insert remove create zeroed remove_chain insert_item get_key hash64 place same_key
size_underflow = refl

loop_hashmap-NeverGrown_example : loop_hashmap 32 0 one_port.item_occupation ≡ some []
loop_hashmap-NeverGrown_example =
    loop_hashmap-NeverGrown 11 32 (inserted port_key 5 (created 1) light)
  where
    light : (empty_map.size + 1) % 2 ^ 32 < empty_map.capacity
    light = unfold create zeroed in omega arith

-- The first word of a map that has been grown with one item in slot 3.
loop_hashmap_stuck_example : loop_hashmap 32 0 (replicate 0 0 ++ (8 ∷ 0 ∷ [])) ≡ none
loop_hashmap_stuck_example = loop_hashmap_stuck 32 0 0 8 (0 ∷ []) (omega arith) (omega arith)

resize_lem_example :
    IsValid 11 (resize 11 one_port)
    × ((resize 11 one_port).capacity ≡ one_port.capacity * 4)
    × ((resize 11 one_port).size ≡ one_port.size)
    × ((q : List ℕ) → view 11 (resize 11 one_port) q ≡ view 11 one_port q)
unfolding insert create zeroed insert_item
resize_lem_example = resize_lem 11 one_port (omega arith) insert_lem_example.0
