-- ===== src/Common/Bits.antt =====
-- The laws of `|`, `&` and `^` at variables, from the recursion on binary digits.
use Prim.Native.Nat.{
  ℕ, zero, suc, ◌+◌, ◌*◌, ◌/◌, ◌%◌, ◌^◌, ◌≤◌, ◌<◌, min, max, digits, differ, bitwise, bit_and,
  bit_or, bit_xor, bit_and-bitwise, bit_or-bitwise, bit_xor-bitwise,
}
use mathlib.Core.Path.{◌≡◌, refl, ap}
use native.Mathlib.Nat.{pow-suc}
use native.Mathlib.Omega.{arith}

module _ (last : ℕ → ℕ) (op : ℕ → ℕ → ℕ) where
  -- Any two amounts of fuel that are enough for the first number give the same.
  same_digits :
      (x fuel more : ℕ)
      → x ≤ fuel
      → x ≤ more
      → (y : ℕ) → digits last op fuel x y ≡ digits last op more x y
  same_digits zero zero zero h k y = refl
  same_digits zero zero (suc more) h k y = refl
  same_digits zero (suc fuel) zero h k y = refl
  same_digits zero (suc fuel) (suc more) h k y = refl
  same_digits (suc x) fuel zero h k y = absurd (omega arith)
  same_digits (suc x) zero more h k y = absurd (omega arith)
  same_digits (suc x) (suc fuel) (suc more) h k y =
      let half = same_digits (suc x / 2) fuel more (omega arith) (omega arith) (y / 2) in
      omega (arith, half)

  bitwise-lowest :
      (x y : ℕ)
      → last y ≡ op 0 (y % 2) + 2 * last (y / 2)
      → bitwise last op x y ≡ op (x % 2) (y % 2) + 2 * bitwise last op (x / 2) (y / 2)
  bitwise-lowest zero y h = h
  bitwise-lowest (suc x) y h =
      let half = same_digits (suc x / 2) x (suc x / 2) (omega arith) (omega arith) (y / 2) in
      omega (arith, half)

pub bit_or-lowest : (x y : ℕ) → bit_or x y ≡ max (x % 2) (y % 2) + 2 * bit_or (x / 2) (y / 2)
bit_or-lowest x y =
    let whole = bitwise-lowest (λ t. t) max x y (omega arith) in
    omega (arith, bit_or-bitwise (x / 2) (y / 2), bit_or-bitwise x y, whole)

pub bit_and-lowest : (x y : ℕ) → bit_and x y ≡ min (x % 2) (y % 2) + 2 * bit_and (x / 2) (y / 2)
bit_and-lowest x y =
    let whole = bitwise-lowest (λ t. 0) min x y (omega arith) in
    omega (arith, bit_and-bitwise (x / 2) (y / 2), bit_and-bitwise x y, whole)

pub bit_xor-lowest : (x y : ℕ) → bit_xor x y ≡ differ (x % 2) (y % 2) + 2 * bit_xor (x / 2) (y / 2)
bit_xor-lowest x y =
    let whole = bitwise-lowest (λ t. t) differ x y (omega arith) in
    omega (arith, bit_xor-bitwise (x / 2) (y / 2), bit_xor-bitwise x y, whole)

zero-bit_or : (b : ℕ) → bit_or 0 b ≡ b
zero-bit_or b = bit_or-bitwise 0 b

or_double : (a c d : ℕ) → bit_or (a / 2) c ≡ a / 2 + c → d ≡ 2 * c → bit_or a d ≡ a + d
or_double a c d h e = rw e (
    let e' : 2 * c / 2 ≡ c = omega arith in
    let step = bit_or-lowest a (2 * c) in
    let ih : bit_or (a / 2) (2 * c / 2) ≡ a / 2 + c = rw e' h in omega arith)

-- Numbers without a common bit: `|` is `+`.
pub bit_or-shifted : (k a b : ℕ) → a < 2 ^ k → bit_or a (b * 2 ^ k) ≡ a + b * 2 ^ k
bit_or-shifted zero zero b h = omega (arith, zero-bit_or (b * 2 ^ 0))
bit_or-shifted zero (suc a) b h = absurd (omega arith)
bit_or-shifted (suc k) a b h =
    or_double a (b * 2 ^ k) (b * 2 ^ suc k)
      (bit_or-shifted k (a / 2) b (omega (arith, pow-suc 2 k)))
      (omega (arith, pow-suc 2 k, ap (λ (t : ℕ). b * t) (pow-suc 2 k)))

zero-bit_and : (b : ℕ) → bit_and 0 b ≡ 0
zero-bit_and b = bit_and-bitwise 0 b

and_digits-zero : (n a : ℕ) → digits (λ b. 0) min n a 0 ≡ 0
and_digits-zero zero a = refl
and_digits-zero (suc n) zero = refl
and_digits-zero (suc n) (suc a) = omega (arith, and_digits-zero n (suc a / 2))

-- One more digit of a remainder by a power of two.
mod_double : (a p : ℕ) → 0 < p → (a / 2) % p * 2 + a % 2 ≡ a % (2 * p)
mod_double a p h = grind arith

-- `& (2^k - 1)` is `% 2^k`.
pub bit_and-mask : (k m a : ℕ) → m + 1 ≡ 2 ^ k → bit_and a m ≡ a % 2 ^ k
bit_and-mask zero zero a h = omega (arith, bit_and-bitwise a 0, and_digits-zero a a)
bit_and-mask zero (suc m) a h = absurd (omega arith)
bit_and-mask (suc k) m a h =
    let e : 2 ^ suc k ≡ 2 * 2 ^ k = omega (arith, pow-suc 2 k) in
    let pos : 0 < 2 ^ k = omega arith in
    rw e (
      omega (
        arith,
        bit_and-lowest a m,
        bit_and-mask k (m / 2) (a / 2) (omega arith),
        mod_double a (2 ^ k) pos,
      ))

bit_or_comm_fuel : (n a b : ℕ) → a ≤ n → b ≤ n → bit_or a b ≡ bit_or b a
bit_or_comm_fuel zero zero zero h k = refl
bit_or_comm_fuel zero (suc a) b h k = absurd (omega arith)
bit_or_comm_fuel zero zero (suc b) h k = absurd (omega arith)
bit_or_comm_fuel (suc n) a b h k = omega (
  arith,
  bit_or-lowest a b,
  bit_or-lowest b a,
  bit_or_comm_fuel n (a / 2) (b / 2) (omega arith) (omega arith),
)

pub bit_or_comm : (a b : ℕ) → bit_or a b ≡ bit_or b a
bit_or_comm a b = bit_or_comm_fuel (a + b) a b (omega arith) (omega arith)

-- The same with the operands the other way round, onto an empty word.
pub bit_or-high_low : (k a b : ℕ) → a < 2 ^ k → bit_or (bit_or 0 (b * 2 ^ k)) a ≡ a + b * 2 ^ k
bit_or-high_low k a b h = omega (
  arith,
  ap (λ t. bit_or t a) (zero-bit_or (b * 2 ^ k)),
  bit_or_comm (b * 2 ^ k) a,
  bit_or-shifted k a b h,
)
