-- ===== src/Base/Bits.antt =====
-- `&`, `|` and `~` on machine words, through the binary digits of a number.
use Prim.Native.Nat.{ℕ, zero, suc, ◌+◌, ◌-◌, ◌*◌, ◌/◌, ◌%◌, ◌^◌, ◌≤◌, ◌<◌, min, max}
use Prim.Native.Nat.{digits, bit_and, bit_or, bit_and-bitwise, bit_or-bitwise}
use mathlib.Core.Path.{◌≡◌, refl, ap, ◌∙◌}
use mathlib.Core.Logic.{◌≢◌}
use native.Mathlib.Nat.{pow-suc, one-le-pow, pow-le-pow_right}
use native.Mathlib.Omega.{arith}
use native.Mathlib.Decide.{ℕ_discrete}
use mathlib.Core.Bool.{not}
use swift_net.Base.Tests.{◌==◌}

-- The digit of weight `2 ^ i`.
unfoldable pub test_bit : ℕ → ℕ → ℕ
test_bit x zero = x % 2
test_bit x (suc i) = test_bit (x / 2) i

pub test_bit-le : (x i : ℕ) → test_bit x i ≤ 1
unfolding test_bit
test_bit-le x zero = omega arith
test_bit-le x (suc i) = test_bit-le (x / 2) i

pub test_bit-zero : (i : ℕ) → test_bit 0 i ≡ 0
unfolding test_bit
test_bit-zero zero = refl
test_bit-zero (suc i) = test_bit-zero i

-- How many digits `digits` is asked for does not matter once they cover `a`.
module _ (rest : ℕ → ℕ) (op : ℕ → ℕ → ℕ) where
  digits_enough : (n m a b : ℕ) → a ≤ n → a ≤ m → digits rest op n a b ≡ digits rest op m a b
  digits_enough zero zero zero b p q = refl
  digits_enough zero (suc m) zero b p q = refl
  digits_enough (suc n) zero zero b p q = refl
  digits_enough (suc n) (suc m) zero b p q = refl
  digits_enough zero m (suc a) b p q = absurd (omega arith)
  digits_enough (suc n) zero (suc a) b p q = absurd (omega arith)
  digits_enough (suc n) (suc m) (suc a) b p q =
      ap (λ (d : ℕ). d * 2 + op (suc a % 2) (b % 2))
        (digits_enough n m (suc a / 2) (b / 2) (omega arith) (omega arith))

pub zero-bit_or : (b : ℕ) → bit_or 0 b ≡ b
zero-bit_or b = bit_or-bitwise 0 b

pub zero-bit_and : (b : ℕ) → bit_and 0 b ≡ 0
zero-bit_and b = bit_and-bitwise 0 b

-- Both operations act on the lowest digit and on the rest apart.
pub bit_or_halves : (a b : ℕ) → bit_or a b ≡ bit_or (a / 2) (b / 2) * 2 + max (a % 2) (b % 2)
bit_or_halves zero b = omega (arith, zero-bit_or b, zero-bit_or (b / 2))
bit_or_halves (suc a) b = omega (
  arith,
  bit_or-bitwise (suc a) b,
  bit_or-bitwise (suc a / 2) (b / 2),
  digits_enough (λ b. b) max a (suc a / 2) (suc a / 2) (b / 2) (omega arith) (omega arith),
)

pub bit_and_halves : (a b : ℕ) → bit_and a b ≡ bit_and (a / 2) (b / 2) * 2 + min (a % 2) (b % 2)
bit_and_halves zero b = omega (arith, zero-bit_and b, zero-bit_and (b / 2))
bit_and_halves (suc a) b = omega (
  arith,
  bit_and-bitwise (suc a) b,
  bit_and-bitwise (suc a / 2) (b / 2),
  digits_enough (λ b. zero) min a (suc a / 2) (suc a / 2) (b / 2) (omega arith) (omega arith),
)

bit_or-half : (a b : ℕ) → bit_or a b / 2 ≡ bit_or (a / 2) (b / 2)
bit_or-half a b = omega (arith, bit_or_halves a b)

bit_and-half : (a b : ℕ) → bit_and a b / 2 ≡ bit_and (a / 2) (b / 2)
bit_and-half a b = omega (arith, bit_and_halves a b)

pub test_bit-bit_or : (a b i : ℕ) → test_bit (bit_or a b) i ≡ max (test_bit a i) (test_bit b i)
unfolding test_bit
test_bit-bit_or a b zero = omega (arith, bit_or_halves a b)
test_bit-bit_or a b (suc i) = rw (bit_or-half a b) (test_bit-bit_or (a / 2) (b / 2) i)

pub test_bit-bit_and : (a b i : ℕ) → test_bit (bit_and a b) i ≡ min (test_bit a i) (test_bit b i)
unfolding test_bit
test_bit-bit_and a b zero = omega (arith, bit_and_halves a b)
test_bit-bit_and a b (suc i) = rw (bit_and-half a b) (test_bit-bit_and (a / 2) (b / 2) i)

pow-suc-half : (k : ℕ) → 2 ^ suc k / 2 ≡ 2 ^ k
pow-suc-half k = omega (arith, pow-suc 2 k)

pub test_bit-pow_self : (k : ℕ) → test_bit (2 ^ k) k ≡ 1
unfolding test_bit
test_bit-pow_self zero = refl
test_bit-pow_self (suc k) = rw (pow-suc-half k) (test_bit-pow_self k)

pub test_bit-pow_ne : (k i : ℕ) → k ≢ i → test_bit (2 ^ k) i ≡ 0
unfolding test_bit
test_bit-pow_ne zero zero h = absurd (h refl)
test_bit-pow_ne zero (suc i) h = test_bit-zero i
test_bit-pow_ne (suc k) zero h = omega (arith, pow-suc 2 k)
test_bit-pow_ne (suc k) (suc i) h = rw (pow-suc-half k) (test_bit-pow_ne k i (λ e. h (ap suc e)))

-- `~x` on a word of `w` bits.
unfoldable pub bit_not : ℕ → ℕ → ℕ
bit_not w x = 2 ^ w - 1 - x

pub test_bit-bit_not : (w x i : ℕ) → x < 2 ^ w → i < w → test_bit (bit_not w x) i ≡ 1 - test_bit x i
unfolding test_bit bit_not
test_bit-bit_not zero x i h lt = elim lt [ ]
test_bit-bit_not (suc w) x zero h lt = omega (arith, pow-suc 2 w)
test_bit-bit_not (suc w) x (suc i) h lt =
    let half : (2 ^ suc w - 1 - x) / 2 ≡ 2 ^ w - 1 - x / 2 = omega (arith, pow-suc 2 w) in
    rw half (test_bit-bit_not w (x / 2) i (omega (arith, pow-suc 2 w)) (omega arith))

pub test_bit_high : (w x i : ℕ) → x < 2 ^ w → w ≤ i → test_bit x i ≡ 0
unfolding test_bit
test_bit_high zero x i h le = let e : x ≡ 0 = omega arith in rw e (test_bit-zero i)
test_bit_high (suc w) x zero h le = absurd (omega arith)
test_bit_high (suc w) x (suc i) h le =
    test_bit_high w (x / 2) i (omega (arith, pow-suc 2 w)) (omega arith)

-- A word is its digits.
pub eq_of_test_bit :
    (w x y : ℕ) → x < 2 ^ w → y < 2 ^ w → ((i : ℕ) → i < w → test_bit x i ≡ test_bit y i) → x ≡ y
unfolding test_bit
eq_of_test_bit zero x y p q h = omega arith
eq_of_test_bit (suc w) x y p q h = omega (
  arith,
  h 0 (omega arith),
  eq_of_test_bit w (x / 2) (y / 2) (omega (arith, pow-suc 2 w)) (omega (arith, pow-suc 2 w))
      (λ i lt. h (suc i) (omega arith)),
)

pub bit_or-lt : (w a b : ℕ) → a < 2 ^ w → b < 2 ^ w → bit_or a b < 2 ^ w
bit_or-lt zero a b p q = let e : a ≡ 0 = omega arith in rw (e, zero-bit_or b) q
bit_or-lt (suc w) a b p q = omega (
  arith,
  pow-suc 2 w,
  bit_or_halves a b,
  bit_or-lt w (a / 2) (b / 2) (omega (arith, pow-suc 2 w)) (omega (arith, pow-suc 2 w)),
)

pub bit_and-lt : (w a b : ℕ) → a < 2 ^ w → bit_and a b < 2 ^ w
bit_and-lt zero a b p = let e : a ≡ 0 = omega arith in rw (e, zero-bit_and b) (omega arith)
bit_and-lt (suc w) a b p = omega (
  arith,
  pow-suc 2 w,
  bit_and_halves a b,
  bit_and-lt w (a / 2) (b / 2) (omega (arith, pow-suc 2 w)),
)

pub bit_and-zero : (a : ℕ) → bit_and a 0 ≡ 0
bit_and-zero a =
    eq_of_test_bit a _ _ (bit_and-lt a a 0 (lt_pow a)) (omega (arith, one-le-pow a 2))
      (λ i _. test_bit-bit_and a 0 i ∙ omega (arith, test_bit-zero i))
  where
    lt_pow : (n : ℕ) → n < 2 ^ n
    lt_pow zero = omega arith
    lt_pow (suc n) = omega (arith, pow-suc 2 n, lt_pow n)

-- `x & (1 << k)` is the digit, at its weight.
pub bit_and-pow : (x k : ℕ) → bit_and x (2 ^ k) ≡ test_bit x k * 2 ^ k
unfolding test_bit
bit_and-pow x zero = omega (arith, bit_and_halves x 1, bit_and-zero (x / 2))
bit_and-pow x (suc k) = omega (
  arith,
  rw (pow-suc-half k) at (bit_and_halves x (2 ^ suc k)),
  pow-suc 2 k,
  ap (λ (p : ℕ). test_bit (x / 2) k * p) (pow-suc 2 k),
  bit_and-pow (x / 2) k,
)

pub pow-lt-pow : (k w : ℕ) → k < w → 2 ^ k < 2 ^ w
pow-lt-pow k w h =
    omega (arith, pow-le-pow_right {n = 2} (omega arith) h, pow-suc 2 k, one-le-pow k 2)

-- The test `(x & (1 << k)) != 0`.
pub bit_and-pow_test : (x k : ℕ) → not (bit_and x (2 ^ k) == 0) ≡ (test_bit x k == 1)
bit_and-pow_test x k = elim (ℕ_discrete (test_bit x k) 0) [
  | yes p ↦ rw (bit_and-pow x k, p) (ground arith)
  | no n ↦
      let one : test_bit x k ≡ 1 = omega (arith, test_bit-le x k) in
      rw (bit_and-pow x k, one) (ground (arith, one-le-pow k 2))
]
