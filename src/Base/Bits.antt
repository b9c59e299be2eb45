-- ===== src/Base/Bits.antt =====
-- `&` with a mask of high ones, as arithmetic at every width, and checks by evaluation.
use Prim.Native.Nat.{
  ℕ, zero, suc, ◌+◌, ◌-◌, ◌*◌, ◌/◌, ◌%◌, ◌^◌, ◌≤◌, ◌<◌, min, bit_and, digits, bit_and-bitwise,
}
use mathlib.Core.Path.{◌≡◌, refl, ap, sym, ◌∙◌}
use mathlib.Core.Bool.{Bool, true, ◌&&◌}
use native.Mathlib.Omega.{arith}
use native.Mathlib.Nat.{
  pow-suc, one-le-pow, div-div-eq-div-mul, mul_comm, mul-one, div-one, add-zero, add-suc,
}

-- A test at every number below a bound, the largest one last.
unfoldable pub every_below : (ℕ → Bool) → ℕ → Bool
every_below test zero = true
every_below test (suc bound) = every_below test bound && test bound

pub every_below-at :
    (test : ℕ → Bool) (bound k : ℕ) → k < bound → every_below test bound ≡ true → test k ≡ true
unfolding every_below
every_below-at test (suc bound) k less passed = ground (arith, every_below-at test bound k)
every_below-at test zero k less passed = absurd (omega arith)

-- The digit-wise minimum that `&` stands for, over so many binary digits.
abbrev common_ones : ℕ → ℕ → ℕ → ℕ
common_ones width x mask = digits (λ rest. zero) min width x mask

common_ones-nothing : (width mask : ℕ) → common_ones width 0 mask ≡ 0
common_ones-nothing (suc width) mask = refl
common_ones-nothing zero mask = refl

-- Any width that holds the number will do.
common_ones-width :
    (wide narrow x mask : ℕ)
    → x ≤ narrow
    → x ≤ wide
    → common_ones wide x mask ≡ common_ones narrow x mask
common_ones-width wide narrow zero mask below above =
    common_ones-nothing wide mask ∙ sym (common_ones-nothing narrow mask)
common_ones-width (suc wide) (suc narrow) (suc x) mask below above =
    let halves = common_ones-width wide narrow (suc x / 2) (mask / 2) (omega arith) (omega arith) in
    omega (arith, halves)
common_ones-width (suc wide) zero (suc x) mask below above = absurd (omega arith)
common_ones-width zero narrow (suc x) mask below above = absurd (omega arith)

pub bit_and_halves :
    (x mask : ℕ) → bit_and x mask ≡ min (x % 2) (mask % 2) + 2 * bit_and (x / 2) (mask / 2)
bit_and_halves (suc x) mask =
    let whole = bit_and-bitwise (suc x) mask in
    let upper = bit_and-bitwise (suc x / 2) (mask / 2) in
    let trimmed =
      common_ones-width x (suc x / 2) (suc x / 2) (mask / 2) (omega arith) (omega arith) in
    omega (arith, whole, upper, trimmed)
bit_and_halves zero mask = omega (arith, bit_and-bitwise zero mask, bit_and-bitwise zero (mask / 2))

-- A mask of j ones above k zeros clears the k low bits of a number of j + k bits.
pub bit_and_low_ones : (j a : ℕ) → a < 2 ^ j → bit_and a (2 ^ j - 1) ≡ a
bit_and_low_ones zero a h = let e : a ≡ 0 = omega arith in rw e
bit_and_low_ones (suc j) a h =
    let half : (2 ^ suc j - 1) / 2 ≡ 2 ^ j - 1 =
      omega (arith, pow-suc 2 j, one-le-pow j 2 (omega arith)) in
    let odd : (2 ^ suc j - 1) % 2 ≡ 1 = omega (arith, pow-suc 2 j, one-le-pow j 2 (omega arith)) in
    let step : bit_and a (2 ^ suc j - 1) ≡ min (a % 2) 1 + 2 * bit_and (a / 2) (2 ^ j - 1) =
      rw (bit_and_halves a (2 ^ suc j - 1), half, odd) in
    omega (arith, step, bit_and_low_ones j (a / 2) (omega (arith, pow-suc 2 j)))

pub bit_and_shifted : (k a m : ℕ) → bit_and a (m * 2 ^ k) ≡ bit_and (a / 2 ^ k) m * 2 ^ k
bit_and_shifted zero a m = rw (mul-one m, div-one a) (omega arith)
bit_and_shifted (suc k) a m =
    let shape : m * 2 ^ suc k ≡ 2 * (m * 2 ^ k) =
      omega (arith, ap (λ (t : ℕ). m * t) (pow-suc 2 k)) in
    let even : (m * 2 ^ suc k) % 2 ≡ 0 = omega (arith, shape) in
    let half : m * 2 ^ suc k / 2 ≡ m * 2 ^ k = omega (arith, shape) in
    let split : a / 2 / 2 ^ k ≡ a / 2 ^ suc k =
      rw (div-div-eq-div-mul a 2 (2 ^ k), mul_comm 2 (2 ^ k), ← pow-suc 2 k) in
    let step : bit_and a (m * 2 ^ suc k) ≡ min (a % 2) 0 + 2 * bit_and (a / 2) (m * 2 ^ k) =
      rw (bit_and_halves a (m * 2 ^ suc k), half, even) in
    let below : bit_and (a / 2) (m * 2 ^ k) ≡ bit_and (a / 2 ^ suc k) m * 2 ^ k =
      rw (bit_and_shifted k (a / 2) m, split) in
    let b = bit_and (a / 2 ^ suc k) m in
    omega (arith, step, below, ap (λ (t : ℕ). b * t) (pow-suc 2 k))

-- The mask of j ones above k zeros rounds a number of j + k bits down to a multiple of 2 ^ k.
pub bit_and_high_ones :
    (j k a : ℕ) → a / 2 ^ k < 2 ^ j → bit_and a ((2 ^ j - 1) * 2 ^ k) ≡ a / 2 ^ k * 2 ^ k
bit_and_high_ones j k a h = rw (bit_and_shifted k a (2 ^ j - 1), bit_and_low_ones j (a / 2 ^ k) h)

pub two_pow_add : (j k : ℕ) → 2 ^ (j + k) ≡ 2 ^ j * 2 ^ k
two_pow_add j zero = rw (add-zero j) (omega arith)
two_pow_add j (suc k) =
    rw (add-suc j k)
      (omega (arith, pow-suc 2 (j + k), two_pow_add j k, ap (λ (t : ℕ). 2 ^ j * t) (pow-suc 2 k)))
