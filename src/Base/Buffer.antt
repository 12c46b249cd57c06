-- ===== src/Base/Buffer.antt =====
-- A buffer of bytes as `memcpy` sees it.
use Prim.Native.Nat.{ℕ, zero, suc, ◌+◌, ◌-◌, ◌/◌, ◌%◌, ◌≤◌, min}
use mathlib.Core.Path.{◌≡◌, refl, sym, ap, ◌∙◌}
use mathlib.Core.List.{List, [], ◌∷◌, ◌++◌, append_assoc, append-nil}
use native.Mathlib.Omega.{arith}
use native.Mathlib.Nat.{zero-add, add-zero, suc-add}
use swift_net.Base.Lists.{length, take, drop, length-append, length-take, length-drop}

-- `memcpy (buffer + at) bytes`
unfoldable pub memcpy : List ℕ → ℕ → List ℕ → List ℕ
memcpy buffer at bytes = take at buffer ++ (bytes ++ drop (at + length bytes) buffer)

-- The `size` bytes from `at` on.
unfoldable pub read : List ℕ → ℕ → ℕ → List ℕ
read buffer at size = take size (drop at buffer)

-- The bytes of an unsigned number in memory.
unfoldable pub little_endian : ℕ → ℕ → List ℕ
little_endian zero n = []
little_endian (suc width) n = (n % 256) ∷ little_endian width (n / 256)

pub length-little_endian : (width n : ℕ) → length (little_endian width n) ≡ width
unfolding little_endian
length-little_endian zero n = refl
length-little_endian (suc width) n = ap suc (length-little_endian width (n / 256))

pub drop-append_add : (pre ys : List ℕ) (k : ℕ) → drop (length pre + k) (pre ++ ys) ≡ drop k ys
drop-append_add [] ys k = rw (zero-add k)
drop-append_add (x ∷ pre) ys k = rw (suc-add (length pre) k) (drop-append_add pre ys k)

pub take-append_add :
    (pre ys : List ℕ) (k : ℕ) → take (length pre + k) (pre ++ ys) ≡ pre ++ take k ys
take-append_add [] ys k = rw (zero-add k)
take-append_add (x ∷ pre) ys k = rw (suc-add (length pre) k) (ap (◌∷◌ x) (take-append_add pre ys k))

pub drop-append_le : (h ys : List ℕ) (k : ℕ) → k ≤ length h → drop k (h ++ ys) ≡ drop k h ++ ys
drop-append_le h ys zero le = refl
drop-append_le [] ys (suc k) le = absurd (omega arith)
drop-append_le (x ∷ h) ys (suc k) le = drop-append_le h ys k (omega arith)

pub take-append_le : (h ys : List ℕ) (k : ℕ) → k ≤ length h → take k (h ++ ys) ≡ take k h
take-append_le h ys zero le = refl
take-append_le [] ys (suc k) le = absurd (omega arith)
take-append_le (x ∷ h) ys (suc k) le = ap (◌∷◌ x) (take-append_le h ys k (omega arith))

drop-nil : (n : ℕ) → drop {A = ℕ} n [] ≡ []
drop-nil zero = refl
drop-nil (suc n) = refl

take-nil : (n : ℕ) → take {A = ℕ} n [] ≡ []
take-nil zero = refl
take-nil (suc n) = refl

pub drop-drop : (m n : ℕ) (xs : List ℕ) → drop n (drop m xs) ≡ drop (m + n) xs
drop-drop zero n xs = rw (zero-add n)
drop-drop (suc m) n [] = rw (suc-add m n) (drop-nil n)
drop-drop (suc m) n (x ∷ xs) = rw (suc-add m n) (drop-drop m n xs)

pub take-add : (m n : ℕ) (xs : List ℕ) → take (m + n) xs ≡ take m xs ++ take n (drop m xs)
take-add zero n xs = rw (zero-add n)
take-add (suc m) n [] = rw (suc-add m n) (sym (take-nil n))
take-add (suc m) n (x ∷ xs) = rw (suc-add m n) (ap (◌∷◌ x) (take-add m n xs))

pub read-add :
    (buffer : List ℕ) (at m n : ℕ)
    → read buffer at (m + n) ≡ read buffer at m ++ read buffer (at + m) n
unfolding read
read-add buffer at m n = rw (take-add m n (drop at buffer), drop-drop at m buffer)

pub memcpy-append_add :
    (pre ys bytes : List ℕ) (k : ℕ)
    → memcpy (pre ++ ys) (length pre + k) bytes ≡ pre ++ memcpy ys k bytes
unfolding memcpy
memcpy-append_add pre ys bytes k =
    let e : length pre + k + length bytes ≡ length pre + (k + length bytes) = omega arith in
    rw (e, drop-append_add pre ys (k + length bytes), take-append_add pre ys k)
      (append_assoc pre (take k ys) _)

pub memcpy-append_le :
    (h ys bytes : List ℕ) (k : ℕ)
    → k + length bytes ≤ length h
    → memcpy (h ++ ys) k bytes ≡ memcpy h k bytes ++ ys
unfolding memcpy
memcpy-append_le h ys bytes k le =
    rw (drop-append_le h ys (k + length bytes) le, take-append_le h ys k (omega arith))
      (ap (λ r. take k h ++ r) (sym (append_assoc bytes (drop (k + length bytes) h) ys))
        ∙ sym (append_assoc (take k h) _ ys))

pub length-memcpy :
    (h bytes : List ℕ) (k : ℕ) → k + length bytes ≤ length h → length (memcpy h k bytes) ≡ length h
unfolding memcpy
length-memcpy h bytes k le =
    rw
      (
        length-append (take k h) (bytes ++ drop (k + length bytes) h),
        length-append bytes (drop (k + length bytes) h),
        length-take k h,
        length-drop (k + length bytes) h,
      )
      (omega arith)

-- The lemmas below are about `pre ++ (h ++ post)`, accessed at `h`, which starts at `length pre`.

pub memcpy-over :
    (pre h post bytes : List ℕ)
    → length bytes ≡ length h
    → memcpy (pre ++ (h ++ post)) (length pre) bytes ≡ pre ++ (bytes ++ post)
unfolding memcpy
memcpy-over pre h post bytes e =
    let start = memcpy-append_add pre (h ++ post) bytes 0 in
    let rest = drop-append_add h post 0 in
    rw (add-zero (length pre)) at start
    ∙ rw (zero-add (length bytes), e)
        (ap (λ r. pre ++ (bytes ++ r)) (rw (add-zero (length h)) at rest))

pub memcpy-within :
    (pre h post bytes : List ℕ) (k : ℕ)
    → k + length bytes ≤ length h
    → memcpy (pre ++ (h ++ post)) (length pre + k) bytes ≡ pre ++ (memcpy h k bytes ++ post)
memcpy-within pre h post bytes k le =
    memcpy-append_add pre (h ++ post) bytes k
    ∙ ap (λ r. pre ++ r) (memcpy-append_le h post bytes k le)

pub read-whole :
    (pre h post : List ℕ) (n : ℕ)
    → length h ≤ n
    → read (pre ++ (h ++ post)) (length pre) n ≡ h ++ take (n - length h) post
unfolding read
read-whole pre h post n le =
    let start = drop-append_add pre (h ++ post) 0 in
    let split : n ≡ length h + (n - length h) = omega arith in
    ap (take n) (rw (add-zero (length pre)) at start)
    ∙ ap (λ m. take m (h ++ post)) split
    ∙ take-append_add h post (n - length h)

pub read-within :
    (pre h post : List ℕ) (k n : ℕ)
    → k ≤ length h
    → read (pre ++ (h ++ post)) (length pre + k) (length h - k + n) ≡ drop k (h ++ take n post)
unfolding read
read-within pre h post k n le =
    let from_k : length (drop k h) ≡ length h - k = length-drop k h in
    rw
      (
        drop-append_add pre (h ++ post) k,
        drop-append_le h post k le,
        ← from_k,
        take-append_add (drop k h) post n,
      )
      (sym (drop-append_le h (take n post) k le))

pub read-exactly :
    (pre h post : List ℕ) (n : ℕ) → length h ≡ n → read (pre ++ (h ++ post)) (length pre) n ≡ h
read-exactly pre h post n e =
    let none_left : n - length h ≡ 0 = omega (arith, e) in
    read-whole pre h post n (omega (arith, e)) ∙ rw none_left (append-nil h)

pub drop-take :
    (off len : ℕ) (xs : List ℕ) → drop off (take len xs) ≡ take (len - off) (drop off xs)
drop-take zero len xs = let e : len - 0 ≡ len = omega arith in rw e
drop-take (suc off) zero xs = let e : 0 - suc off ≡ 0 = omega arith in rw e
drop-take (suc off) (suc len) [] = sym (take-nil (suc len - suc off))
drop-take (suc off) (suc len) (x ∷ xs) =
    let e : suc len - suc off ≡ len - off = omega arith in rw e (drop-take off len xs)

pub take-take : (n m : ℕ) (xs : List ℕ) → take n (take m xs) ≡ take (min n m) xs
take-take zero m xs = let e : min 0 m ≡ 0 = omega arith in rw e
take-take (suc n) zero xs = let e : min (suc n) 0 ≡ 0 = omega arith in rw e
take-take (suc n) (suc m) [] = sym (take-nil (min (suc n) (suc m)))
take-take (suc n) (suc m) (x ∷ xs) =
    let e : min (suc n) (suc m) ≡ suc (min n m) = omega arith in
    rw e (ap (◌∷◌ x) (take-take n m xs))

-- A part of a part of the buffer.
pub read-read :
    (buffer : List ℕ) (at len off n : ℕ)
    → read buffer (at + off) (min n (len - off)) ≡ take n (drop off (read buffer at len))
unfolding read
read-read buffer at len off n =
    rw (drop-take off len (drop at buffer), drop-drop at off buffer)
      (sym (take-take n (len - off) (drop (at + off) buffer)))

pub take_all : (n : ℕ) (xs : List ℕ) → length xs ≤ n → take n xs ≡ xs
take_all n [] le = take-nil n
take_all zero (x ∷ xs) le = absurd (omega arith)
take_all (suc n) (x ∷ xs) le = ap (◌∷◌ x) (take_all n xs (omega arith))

pub read_all : (xs : List ℕ) (n : ℕ) → length xs ≡ n → read xs 0 n ≡ xs
unfolding read
read_all xs n e = take_all n xs (omega (arith, e))

pub length-read :
    (buffer : List ℕ) (at size : ℕ)
    → at + size ≤ length buffer
    → length (read buffer at size) ≡ size
unfolding read
length-read buffer at size le =
    length-take size (drop at buffer) ∙ omega (arith, le, length-drop at buffer)

pub memcpy-start :
    (buffer bytes : List ℕ) (size : ℕ)
    → length bytes ≡ size
    → memcpy buffer 0 bytes ≡ bytes ++ drop size buffer
unfolding memcpy
memcpy-start buffer bytes size e = rw (zero-add (length bytes), e) refl
