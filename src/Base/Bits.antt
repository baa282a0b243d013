-- ===== src/Base/Bits.antt =====
-- Facts about `bit_and` and `bit_or` at variables: the law of the lowest digit, the effect of
-- setting and of clearing one bit of a word.
use Prim.Native.Nat.{
  ℕ, zero, suc, ◌+◌, ◌-◌, ◌*◌, ◌/◌, ◌%◌, ◌^◌, ◌≤◌, ◌<◌, min, max, bit_and, bit_or, digits,
  bit_and-bitwise, bit_or-bitwise,
}
use mathlib.Core.Path.{◌≡◌, refl, ◌∙◌, ap}
use mathlib.Core.Bool.{Bool, true, false}
use native.Mathlib.Omega.{arith}
use native.Mathlib.Nat.{pow-suc}
use key_value_distributed_sy.Base.Tests.{◌==◌, if◌then◌else◌}

-- The digit recursion that the native operations stand for, for any digit operation: enough fuel
-- is enough.
module _ (rest : ℕ → ℕ) (digit : ℕ → ℕ → ℕ) where
  digits_enough : (k l x y : ℕ) → x ≤ k → x ≤ l → digits rest digit k x y ≡ digits rest digit l x y
  digits_enough zero zero x y h g = refl
  digits_enough zero (suc l) zero y h g = refl
  digits_enough (suc k) zero zero y h g = refl
  digits_enough (suc k) (suc l) zero y h g = refl
  digits_enough zero (suc l) (suc x) y h g = absurd (omega (arith, h))
  digits_enough (suc k) zero (suc x) y h g = absurd (omega (arith, g))
  digits_enough (suc k) (suc l) (suc x) y h g =
      let halves = digits_enough k l (suc x / 2) (y / 2) (omega (arith, h)) (omega (arith, g)) in
      omega (arith, halves)

pub zero-bit_and : (y : ℕ) → bit_and 0 y ≡ 0
zero-bit_and = bit_and-bitwise 0

zero-bit_or : (y : ℕ) → bit_or 0 y ≡ y
zero-bit_or = bit_or-bitwise 0

pub bit_and_step : (x y : ℕ) → bit_and x y ≡ bit_and (x / 2) (y / 2) * 2 + min (x % 2) (y % 2)
bit_and_step zero y = omega (arith, zero-bit_and (y / 2), zero-bit_and y)
bit_and_step (suc x) y =
    let half : ℕ = suc x / 2 in
    let fuel = digits_enough (λ _. zero) min x half half (y / 2) (omega arith) (omega arith) in
    omega (arith, fuel, bit_and-bitwise half (y / 2), bit_and-bitwise (suc x) y)

pub bit_or_step : (x y : ℕ) → bit_or x y ≡ bit_or (x / 2) (y / 2) * 2 + max (x % 2) (y % 2)
bit_or_step zero y = omega (arith, zero-bit_or (y / 2), zero-bit_or y)
bit_or_step (suc x) y =
    let half : ℕ = suc x / 2 in
    let fuel = digits_enough (λ z. z) max x half half (y / 2) (omega arith) (omega arith) in
    omega (arith, fuel, bit_or-bitwise half (y / 2), bit_or-bitwise (suc x) y)

bit_or-zero_fuel : (n a : ℕ) → a ≤ n → bit_or a 0 ≡ a
bit_or-zero_fuel n zero h = zero-bit_or 0
bit_or-zero_fuel zero (suc a) h = absurd (omega arith)
bit_or-zero_fuel (suc n) (suc a) h =
    omega (arith, bit_or_step (suc a) 0, bit_or-zero_fuel n (suc a / 2) (omega arith))

bit_or-zero : (a : ℕ) → bit_or a 0 ≡ a
bit_or-zero a = bit_or-zero_fuel a a (omega arith)

-- Bit `k` of a word.
abbrev pub bit : ℕ → ℕ → Bool
bit w zero = w % 2 == 1
bit w (suc k) = bit (w / 2) k

pub bit-zero : (k : ℕ) → bit 0 k ≡ false
bit-zero zero = refl
bit-zero (suc k) = bit-zero k

pow_pos : (k : ℕ) → 0 < 2 ^ k
pow_pos zero = omega arith
pow_pos (suc k) = omega (arith, pow-suc 2 k, pow_pos k)

half_pow : (k : ℕ) → 2 ^ suc k / 2 ≡ 2 ^ k
half_pow k = omega (arith, pow-suc 2 k)

even_pow : (k : ℕ) → 2 ^ suc k % 2 ≡ 0
even_pow k = omega (arith, pow-suc 2 k)

bit_or-half : (a b : ℕ) → bit_or a b / 2 ≡ bit_or (a / 2) (b / 2)
bit_or-half a b = omega (arith, bit_or_step a b)

bit_and-half : (a b : ℕ) → bit_and a b / 2 ≡ bit_and (a / 2) (b / 2)
bit_and-half a b = omega (arith, bit_and_step a b)

and_le_fuel : (n a b : ℕ) → a ≤ n → bit_and a b ≤ b
and_le_fuel n zero b h = omega (arith, zero-bit_and b)
and_le_fuel zero (suc a) b h = absurd (omega arith)
and_le_fuel (suc n) (suc a) b h =
    omega (arith, bit_and_step (suc a) b, and_le_fuel n (suc a / 2) (b / 2) (omega arith))

pub and_le : (a b : ℕ) → bit_and a b ≤ b
and_le a b = and_le_fuel a a b (omega arith)

-- Setting bit `k` sets it and no other.
pub bit-or_pow : (k w j : ℕ) → bit (bit_or w (2 ^ k)) j ≡ (if k == j then true else bit w j)
bit-or_pow zero w zero = ground (arith, bit_or_step w 1)
bit-or_pow zero w (suc j) =
    let e : bit_or w 1 / 2 ≡ w / 2 = omega (arith, bit_or_step w 1, bit_or-zero (w / 2)) in
    rw e (ground arith)
bit-or_pow (suc k) w zero = ground (arith, bit_or_step w (2 ^ suc k), even_pow k)
bit-or_pow (suc k) w (suc j) = rw (bit_or-half, half_pow) (bit-or_pow k (w / 2) j ∙ ground arith)

-- A word stays below `2 ^ n` when one of its bits is set.
pub or_pow-lt : (n k w : ℕ) → k < n → w < 2 ^ n → bit_or w (2 ^ k) < 2 ^ n
or_pow-lt zero k w p q = elim p [ ]
or_pow-lt (suc n) zero w p q = omega (arith, bit_or_step w 1, bit_or-zero (w / 2), pow-suc 2 n)
or_pow-lt (suc n) (suc k) w p q = omega (
  arith,
  bit_or_step w (2 ^ suc k),
  half_pow k,
  pow-suc 2 n,
  ap (λ t. bit_or (w / 2) t) (half_pow k),
  or_pow-lt n k (w / 2) (omega arith) (omega (arith, pow-suc 2 n)),
)

-- A mask of `n` ones keeps every word of `n` bits.
bit_and-ones : (n w : ℕ) → w < 2 ^ n → bit_and w (2 ^ n - 1) ≡ w
bit_and-ones zero w h = let e : w ≡ 0 = omega arith in rw e (zero-bit_and 0)
bit_and-ones (suc n) w h = omega (
  arith,
  pow-suc 2 n,
  bit_and_step w (2 ^ suc n - 1),
  ap (λ t. bit_and (w / 2) t) (mask n),
  bit_and-ones n (w / 2) (omega (arith, pow-suc 2 n)),
)
  where
    mask : (n : ℕ) → (2 ^ suc n - 1) / 2 ≡ 2 ^ n - 1
    mask n = omega (arith, pow-suc 2 n, pow_pos n)

pow_lt : (n k : ℕ) → k < n → 2 ^ k < 2 ^ n
pow_lt zero k h = elim h [ ]
pow_lt (suc n) zero h = omega (arith, pow-suc 2 n, pow_pos n)
pow_lt (suc n) (suc k) h = omega (arith, pow-suc 2 n, pow-suc 2 k, pow_lt n k (omega arith))

-- The word of `n` ones less bit `k`, halved.
mask_low : (n : ℕ) → (2 ^ suc n - 1 - 1) / 2 ≡ 2 ^ n - 1
mask_low n = omega (arith, pow-suc 2 n, pow_pos n)

mask-half : (n k : ℕ) → k < n → (2 ^ suc n - 1 - 2 ^ suc k) / 2 ≡ 2 ^ n - 1 - 2 ^ k
mask-half n k h = omega (arith, pow-suc 2 n, pow-suc 2 k, pow_lt n k h)

mask-odd : (n k : ℕ) → k < n → (2 ^ suc n - 1 - 2 ^ suc k) % 2 ≡ 1
mask-odd n k h = omega (arith, pow-suc 2 n, pow-suc 2 k, pow_lt n k h)

-- Clearing a bit that has just been set gives the word back, if the bit was not set before.
pub and-not-or_pow :
    (n k w : ℕ)
    → k < n
    → w < 2 ^ n
    → bit w k ≡ false
    → bit_and (bit_or w (2 ^ k)) (2 ^ n - 1 - 2 ^ k) ≡ w
and-not-or_pow zero k w p q r = elim p [ ]
and-not-or_pow (suc n) zero w p q r = ground (
  arith,
  bit_and_step (bit_or w 1) (2 ^ suc n - 1 - 1),
  bit_or_step w 1,
  bit_or-zero (w / 2),
  ap (λ t. bit_and (bit_or w 1 / 2) t) (mask_low n),
  ap (λ t. bit_and t (2 ^ n - 1)) (bit_or-half w 1),
  ap (λ t. bit_and t (2 ^ n - 1)) (bit_or-zero (w / 2)),
  bit_and-ones n (w / 2) (omega (arith, pow-suc 2 n)),
  pow-suc 2 n,
)
and-not-or_pow (suc n) (suc k) w p q r = omega (
  arith,
  bit_and_step (bit_or w (2 ^ suc k)) (2 ^ suc n - 1 - 2 ^ suc k),
  bit_or_step w (2 ^ suc k),
  even_pow k,
  mask-odd n k (omega arith),
  ap (λ t. bit_and (bit_or w (2 ^ suc k) / 2) t) (mask-half n k (omega arith)),
  ap (λ t. bit_and t (2 ^ n - 1 - 2 ^ k)) (bit_or-half w (2 ^ suc k)),
  ap (λ t. bit_and (bit_or (w / 2) t) (2 ^ n - 1 - 2 ^ k)) (half_pow k),
  and-not-or_pow n k (w / 2) (omega arith) (omega (arith, pow-suc 2 n)) r,
)

bit-ones : (n w j : ℕ) → j < n → bit (bit_and w (2 ^ n - 1)) j ≡ bit w j
bit-ones zero w j h = elim h [ ]
bit-ones (suc n) w zero h = ground (arith, bit_and_step w (2 ^ suc n - 1), pow-suc 2 n, pow_pos n)
bit-ones (suc n) w (suc j) h =
    let e : (2 ^ suc n - 1) / 2 ≡ 2 ^ n - 1 = omega (arith, pow-suc 2 n, pow_pos n) in
    rw (bit_and-half, e) (bit-ones n (w / 2) j (omega arith))

pub and-not_pow-lt : (n k w : ℕ) → k < n → bit_and w (2 ^ n - 1 - 2 ^ k) < 2 ^ n
and-not_pow-lt n k w h = omega (arith, and_le w (2 ^ n - 1 - 2 ^ k), pow_pos n)

-- Clearing bit `k` of a word of `n` bits clears it and no other.
pub bit-and-not_pow :
    (n k w j : ℕ)
    → k < n
    → j < n
    → bit (bit_and w (2 ^ n - 1 - 2 ^ k)) j ≡ (if k == j then false else bit w j)
bit-and-not_pow zero k w j p q = elim p [ ]
bit-and-not_pow (suc n) zero w zero p q =
    ground (arith, bit_and_step w (2 ^ suc n - 1 - 1), pow-suc 2 n, pow_pos n)
bit-and-not_pow (suc n) zero w (suc j) p q =
    rw (bit_and-half, mask_low) (bit-ones n (w / 2) j (omega arith) ∙ ground arith)
bit-and-not_pow (suc n) (suc k) w zero p q =
    ground (arith, bit_and_step w (2 ^ suc n - 1 - 2 ^ suc k), mask-odd n k (omega arith))
bit-and-not_pow (suc n) (suc k) w (suc j) p q =
    rw (bit_and-half, mask-half n k (omega arith))
      (bit-and-not_pow n k (w / 2) j (omega arith) (omega arith) ∙ ground arith)
