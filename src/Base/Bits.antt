-- ===== src/Base/Bits.antt =====
-- The binary digits of `bit_or`, for every width. `test_bit k a` is digit `k` of `a`.
use Prim.Native.Nat.{
  ℕ, zero, suc, ◌+◌, ◌*◌, ◌/◌, ◌%◌, ◌≤◌, ◌<◌, ◌^◌, max, bit_or, digits, bit_or-bitwise,
}
use mathlib.Core.Path.{◌≡◌, refl, ap}
use mathlib.Core.Bool.{Bool, false, ◌||◌}
use native.Mathlib.Omega.{arith}
use native.Mathlib.Nat.{pow-zero, pow-suc, pow-succ', div-one, div-div-eq-div-mul, zero-div}
use crex.Base.Tests.{◌==◌}

-- Rounds that cover the first number give the same digits, however many they are.
digits_enough :
    (i j x y : ℕ) → x ≤ i → x ≤ j → digits (λ d. d) max i x y ≡ digits (λ d. d) max j x y
digits_enough zero j (suc x) y h g = absurd (omega arith)
digits_enough (suc i) zero (suc x) y h g = absurd (omega arith)
digits_enough (suc i) (suc j) (suc x) y h g =
    let rest = digits_enough i j (suc x / 2) (y / 2) (omega arith) (omega arith) in
    omega (arith, rest)
digits_enough zero zero zero y h g = refl
digits_enough zero (suc j) zero y h g = refl
digits_enough (suc i) zero zero y h g = refl
digits_enough (suc i) (suc j) zero y h g = refl

zero-bit_or : (y : ℕ) → bit_or 0 y ≡ y
zero-bit_or y = bit_or-bitwise 0 y

-- The lowest digit of a joint number, and the digits above it.
bit_or_step : (x y : ℕ) → bit_or x y ≡ bit_or (x / 2) (y / 2) * 2 + max (x % 2) (y % 2)
bit_or_step (suc x) y =
    let half = suc x / 2 in
    let fewer = digits_enough x half half (y / 2) (omega arith) (omega arith) in
    omega (arith, fewer, bit_or-bitwise half (y / 2), bit_or-bitwise (suc x) y)
bit_or_step zero y = omega (arith, zero-bit_or (y / 2), zero-bit_or y)

-- `(a >> k) & 1`
abbrev pub test_bit : ℕ → ℕ → Bool
test_bit k a = a / 2 ^ k % 2 == 1

test_bit-zero : (a : ℕ) → test_bit zero a ≡ (a % 2 == 1)
test_bit-zero a = rw (pow-zero, div-one)

test_bit-suc : (k a : ℕ) → test_bit (suc k) a ≡ test_bit k (a / 2)
test_bit-suc k a = rw (pow-succ', ← div-div-eq-div-mul)

odd-bit_or : (a b : ℕ) → (bit_or a b % 2 == 1) ≡ ((a % 2 == 1) || (b % 2 == 1))
odd-bit_or a b = ground (arith, bit_or_step a b)

half-bit_or : (a b : ℕ) → bit_or a b / 2 ≡ bit_or (a / 2) (b / 2)
half-bit_or a b = omega (arith, bit_or_step a b)

pub test_bit-bit_or : (k a b : ℕ) → test_bit k (bit_or a b) ≡ (test_bit k a || test_bit k b)
test_bit-bit_or zero a b = simp test_bit-zero (odd-bit_or a b)
test_bit-bit_or (suc k) a b = simp (test_bit-suc, half-bit_or) (test_bit-bit_or k (a / 2) (b / 2))

pub test_bit-none : (k : ℕ) → test_bit k 0 ≡ false
test_bit-none k = rw zero-div

-- `1 << k` has digit `k` and no other.
pub test_bit-pow : (j k : ℕ) → test_bit j (2 ^ k) ≡ (j == k)
test_bit-pow zero zero = refl
test_bit-pow zero (suc k) = ground (arith, test_bit-zero (2 ^ suc k), pow-suc 2 k)
test_bit-pow (suc j) zero = rw test_bit-suc (ground (arith, test_bit-none j))
test_bit-pow (suc j) (suc k) =
    rw (test_bit-suc j (2 ^ suc k)) (rw half (ground (arith, test_bit-pow j k)))
  where
    half : 2 ^ suc k / 2 ≡ 2 ^ k
    half = omega (arith, pow-suc 2 k)

-- Digits joined to a byte leave a byte.
pub bit_or-lt : (k a b : ℕ) → a < 2 ^ k → b < 2 ^ k → bit_or a b < 2 ^ k
bit_or-lt zero zero zero h g = h
bit_or-lt zero zero (suc b) h g = absurd (omega arith)
bit_or-lt zero (suc a) b h g = absurd (omega arith)
bit_or-lt (suc k) a b h g = omega (
  arith,
  bit_or_step a b,
  pow-suc 2 k,
  bit_or-lt k (a / 2) (b / 2) (omega (arith, pow-suc 2 k)) (omega (arith, pow-suc 2 k)),
)

-- `low | high << k`, of fields that do not overlap, is their sum.
pub bit_or_disjoint :
    (k low high : ℕ) → low < 2 ^ k → bit_or low (high * 2 ^ k) ≡ low + high * 2 ^ k
bit_or_disjoint zero zero high h = omega (arith, zero-bit_or (high * 2 ^ 0))
bit_or_disjoint zero (suc low) high h = absurd (omega arith)
bit_or_disjoint (suc k) low high h = ground (
  arith,
  bit_or_step low (high * 2 ^ suc k),
  double,
  bit_or_disjoint k (low / 2) high (omega (arith, pow-suc 2 k)),
)
  where
    double : high * 2 ^ suc k ≡ 2 * (high * 2 ^ k)
    double = omega (arith, ap (λ (t : ℕ). high * t) (pow-suc 2 k))

-- Products are ordered as their first factors.
pub mul_mono : (a b k : ℕ) → a ≤ b → a * k ≤ b * k
mul_mono zero b k h = omega arith
mul_mono (suc a) zero k h = absurd (omega arith)
mul_mono (suc a) (suc b) k h = omega (arith, mul_mono a b k (omega arith))
