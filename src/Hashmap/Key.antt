-- ===== src/Hashmap/Key.antt =====
-- Key comparison and `get_key`.
use swift_net.Base.{
  ℕ, ◌*◌, ◌%◌, ◌^◌, ◌<◌, ◌≡◌, refl, ap₂, true, List, [], ◌∷◌, length, arith, bit_xor,
}
use swift_net.Hashmap.{same_key, memcmp_equal, hash_from, hash64, get_key}

memcmp_equal-eq : (a b : List ℕ) → length a ≡ length b → memcmp_equal a b ≡ true → a ≡ b
unfolding memcmp_equal
memcmp_equal-eq [] [] e h = refl
memcmp_equal-eq [] (y ∷ b) e h = absurd (omega arith)
memcmp_equal-eq (x ∷ a) [] e h = absurd (omega arith)
memcmp_equal-eq (x ∷ a) (y ∷ b) e h =
    ap₂ ◌∷◌ (ground arith) (memcmp_equal-eq a b (omega arith) (ground arith))

memcmp_equal_refl : (a : List ℕ) → memcmp_equal a a ≡ true
unfolding memcmp_equal
memcmp_equal_refl [] = refl
memcmp_equal_refl (x ∷ a) = ground (arith, memcmp_equal_refl a)

-- The comparison of `hashmap_get` and `hashmap_remove` is equality of the keys' bytes.
pub same_key_refl : (a : List ℕ) → same_key a a ≡ true
unfolding same_key
same_key_refl a = ground (arith, memcmp_equal_refl a)

pub same_key→eq : (a b : List ℕ) → same_key a b ≡ true → a ≡ b
unfolding same_key
same_key→eq a b h = ground (arith, memcmp_equal-eq b a)

hash_from-lt : (seed res : ℕ) (bytes : List ℕ) → res < 2 ^ 64 → hash_from seed res bytes < 2 ^ 64
unfolding hash_from
hash_from-lt seed res [] h = h
hash_from-lt seed res (byte ∷ bytes) h =
    hash_from-lt seed (bit_xor res byte * seed % 2 ^ 64) bytes (omega arith)

pub get_key-lt :
    (seed : ℕ) (key : List ℕ) (capacity : ℕ) → 0 < capacity → get_key seed key capacity < capacity
unfolding get_key hash64
get_key-lt seed key capacity pos =
    let h : hash_from seed 0 key < 2 ^ 64 = hash_from-lt seed 0 key (omega arith) in
    let p : hash_from seed 0 key * capacity < 2 ^ 64 * capacity = grind arith in omega arith
