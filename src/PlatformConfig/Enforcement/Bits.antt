-- ===== src/PlatformConfig/Enforcement/Bits.antt =====
-- `&` with a mask of leading ones, on the native numbers.
use Prim.Native.Nat.{min, bit_and, digits, bit_and-bitwise}
use native.Mathlib.Nat.{pow-suc, one-le-pow, div-one, div-lt_iff_lt-mul, div-div-eq-div-mul}
use multi_academy_backend.Prelude.{
  ℕ, zero, suc, ◌+◌, ◌-◌, ◌*◌, ◌/◌, ◌%◌, ◌^◌, ◌≤◌, ◌<◌, ◌≡◌, refl, ap, ◌∙◌, arith,
}

-- The digits of the conjunction, with fuel that is at least the number.
abbrev and_digits : ℕ → ℕ → ℕ → ℕ
and_digits fuel a b = digits (λ _. zero) min fuel a b

more_fuel : (n m a b : ℕ) → a ≤ n → a ≤ m → and_digits n a b ≡ and_digits m a b
more_fuel zero zero a b p q = refl
more_fuel zero (suc m) zero b p q = refl
more_fuel zero (suc m) (suc a) b p q = absurd (omega arith)
more_fuel (suc n) zero zero b p q = refl
more_fuel (suc n) zero (suc a) b p q = absurd (omega arith)
more_fuel (suc n) (suc m) zero b p q = refl
more_fuel (suc n) (suc m) (suc a) b p q =
    omega (arith, more_fuel n m (suc a / 2) (b / 2) (omega arith) (omega arith))

pub bit_and-digit : (a b : ℕ) → bit_and a b ≡ bit_and (a / 2) (b / 2) * 2 + min (a % 2) (b % 2)
bit_and-digit zero b = omega (arith, bit_and-bitwise 0 b, bit_and-bitwise 0 (b / 2))
bit_and-digit (suc a) b = omega (
  arith,
  bit_and-bitwise (suc a) b,
  bit_and-bitwise (suc a / 2) (b / 2),
  more_fuel a (suc a / 2) (suc a / 2) (b / 2) (omega arith) (omega arith),
)

bit_and-zero_below : (n a : ℕ) → a ≤ n → bit_and a 0 ≡ 0
bit_and-zero_below n zero h = refl
bit_and-zero_below zero (suc a) h = absurd (omega arith)
bit_and-zero_below (suc n) (suc a) h =
    omega (arith, bit_and-digit (suc a) 0, bit_and-zero_below n (suc a / 2) (omega arith))

pub bit_and-zero : (a : ℕ) → bit_and a 0 ≡ 0
bit_and-zero a = bit_and-zero_below a a (omega arith)

mul-pow-suc : (q k : ℕ) → q * 2 ^ suc k ≡ 2 * (q * 2 ^ k)
mul-pow-suc q k = omega (arith, ap (λ (t : ℕ). q * t) (pow-suc 2 k))

-- Low zeros of the mask cut the digits off.
bit_and_shifted : (k x t : ℕ) → bit_and x (t * 2 ^ k) ≡ bit_and (x / 2 ^ k) t * 2 ^ k
bit_and_shifted zero x t = ground (arith, div-one x)
bit_and_shifted (suc k) x t = ground (
  arith,
  bit_and-digit x (t * 2 ^ suc k),
  mul-pow-suc t k,
  mul-pow-suc (bit_and (x / 2 ^ suc k) t) k,
  pow-suc 2 k,
  div-div-eq-div-mul x 2 (2 ^ k),
  bit_and_shifted k (x / 2) t,
)

bit_and_ones : (w r : ℕ) → r < 2 ^ w → bit_and r (2 ^ w - 1) ≡ r
bit_and_ones zero r h = ground (arith, bit_and-zero r)
bit_and_ones (suc w) r h = ground (
  arith,
  bit_and-digit r (2 ^ suc w - 1),
  pow-suc 2 w,
  one-le-pow w 2,
  bit_and_ones w (r / 2) (omega (arith, pow-suc 2 w)),
)

two_pow_add : (n k : ℕ) → 2 ^ (n + k) ≡ 2 ^ n * 2 ^ k
two_pow_add n zero = ground arith
two_pow_add n (suc k) =
    ground (arith, exponent, pow-suc 2 (n + k), mul-pow-suc (2 ^ n) k, two_pow_add n k)
  where
    exponent : 2 ^ (n + suc k) ≡ 2 ^ suc (n + k)
    exponent = ap (λ (t : ℕ). 2 ^ t) (omega arith)

sub_self_mul : (a b : ℕ) → a * b - b ≡ (a - 1) * b
sub_self_mul zero b = omega arith
sub_self_mul (suc a) b = let e : suc a - 1 ≡ a = omega arith in rw e (omega arith)

-- Over `w + k` bits, the mask of `w` leading ones keeps the `w` leading digits.
pub bit_and_leading :
    (w k x : ℕ) → x < 2 ^ (w + k) → bit_and x (2 ^ (w + k) - 2 ^ k) ≡ x / 2 ^ k * 2 ^ k
bit_and_leading w k x h =
    mask_path
    ∙ bit_and_shifted k x (2 ^ w - 1)
    ∙ ap (λ (t : ℕ). t * 2 ^ k) (bit_and_ones w (x / 2 ^ k) below)
  where
    mask_path : bit_and x (2 ^ (w + k) - 2 ^ k) ≡ bit_and x ((2 ^ w - 1) * 2 ^ k)
    mask_path = ap (bit_and x) (rw (two_pow_add w k) (sub_self_mul (2 ^ w) (2 ^ k)))

    below : x / 2 ^ k < 2 ^ w
    below = (div-lt_iff_lt-mul (one-le-pow k 2 (omega arith))).1 (rw (two_pow_add w k) at h)
