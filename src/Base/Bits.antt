-- ===== src/Base/Bits.antt =====
-- `&` and `|` at variables: a mask of low bits, a mask of high bits, and `|` of disjoint fields.
mod Step
pub use Step.{bit_or_step, bit_and_step}
use Prim.Native.Nat.{ℕ, zero, suc, ◌+◌, ◌-◌, ◌*◌, ◌/◌, ◌%◌, ◌^◌, ◌≤◌, ◌<◌, bit_and, bit_or}
use mathlib.Core.Path.{◌≡◌, refl, ap}
use native.Mathlib.Nat.{pow-suc, one-le-pow}
use native.Mathlib.Omega.{arith}

-- `| 0` and `& 0`, for the numbers up to a bound.
masked_by_zero : (bound x : ℕ) → x ≤ bound → (bit_or x 0 ≡ x) × (bit_and x 0 ≡ 0)
masked_by_zero bound zero fits = (refl, refl)
masked_by_zero zero (suc x) fits = absurd (omega arith)
masked_by_zero (suc bound) (suc x) fits =
    let half = masked_by_zero bound (suc x / 2) (omega arith) in
    (omega (arith, bit_or_step (suc x) 0, half.0), omega (arith, bit_and_step (suc x) 0, half.1))

pub bit_or-zero : (x : ℕ) → bit_or x 0 ≡ x
bit_or-zero x = (masked_by_zero x x (omega arith)).0

pub bit_and-zero : (x : ℕ) → bit_and x 0 ≡ 0
bit_and-zero x = (masked_by_zero x x (omega arith)).1

double_pow : (q k : ℕ) → q * 2 ^ suc k ≡ 2 * (q * 2 ^ k)
double_pow q k = omega (arith, ap (λ (t : ℕ). q * t) (pow-suc 2 k))

-- A word whose low `k` bits are zero, joined with `k` low bits.
pub bit_or_low : (k q r : ℕ) → r < 2 ^ k → bit_or (q * 2 ^ k) r ≡ q * 2 ^ k + r
bit_or_low zero q r h = ground (arith, bit_or-zero q)
bit_or_low (suc k) q r h =
    ground
      (arith, bit_or_step (q * 2 ^ suc k) r, double_pow q k, bit_or_low k q (r / 2) (omega arith))

-- Masking the low `k` bits reads them; the rest of the word does not matter.
pub bit_and_low : (k q r : ℕ) → r < 2 ^ k → bit_and (q * 2 ^ k + r) (2 ^ k - 1) ≡ r
bit_and_low zero q r h = ground (arith, bit_and-zero (q * 1 + r))
bit_and_low (suc k) q r h = ground (
  arith,
  bit_and_step (q * 2 ^ suc k + r) (2 ^ suc k - 1),
  double_pow q k,
  pow-suc 2 k,
  one-le-pow k 2,
  bit_and_low k q (r / 2) (omega arith),
)

pub bit_and_mod : (k a : ℕ) → bit_and a (2 ^ k - 1) ≡ a % 2 ^ k
bit_and_mod k a = ground (arith, one-le-pow k 2, bit_and_low k (a / 2 ^ k) (a % 2 ^ k))

-- Masking the bits from `k` up, in a word whose upper part `q` the mask `m` keeps.
pub bit_and_high :
    (k q r m : ℕ) → r < 2 ^ k → bit_and q m ≡ q → bit_and (q * 2 ^ k + r) (m * 2 ^ k) ≡ q * 2 ^ k
bit_and_high zero q r m h e = ground (arith)
bit_and_high (suc k) q r m h e = ground (
  arith,
  bit_and_step (q * 2 ^ suc k + r) (m * 2 ^ suc k),
  double_pow q k,
  double_pow m k,
  bit_and_high k q (r / 2) m (omega arith) e,
)

-- Joining low bits leaves the bits above them.
-- A mask with `k` zeroes below it reads what lies above the low `k` bits.
pub bit_and_scaled :
    (k q r m : ℕ) → r < 2 ^ k → bit_and (q * 2 ^ k + r) (m * 2 ^ k) ≡ bit_and q m * 2 ^ k
bit_and_scaled zero q r m h = ground arith
bit_and_scaled (suc k) q r m h = ground (
  arith,
  bit_and_step (q * 2 ^ suc k + r) (m * 2 ^ suc k),
  double_pow q k,
  double_pow m k,
  double_pow (bit_and q m) k,
  bit_and_scaled k q (r / 2) m (omega arith),
)

pub bit_or_split :
    (k q r s : ℕ) → r < 2 ^ k → s < 2 ^ k → bit_or (q * 2 ^ k + r) s ≡ q * 2 ^ k + bit_or r s
bit_or_split zero q r s h g =
    let e : r ≡ 0 = omega arith in
    let f : s ≡ 0 = omega arith in rw (e, f) (omega (arith, bit_or-zero (q * 1 + 0)))
bit_or_split (suc k) q r s h g = ground (
  arith,
  bit_or_step (q * 2 ^ suc k + r) s,
  bit_or_step r s,
  double_pow q k,
  pow-suc 2 k,
  bit_or_split k q (r / 2) (s / 2),
)

pub bit_or-lt : (k r s : ℕ) → r < 2 ^ k → s < 2 ^ k → bit_or r s < 2 ^ k
bit_or-lt zero r s h g =
    let e : r ≡ 0 = omega arith in let f : s ≡ 0 = omega arith in rw (e, f) (omega arith)
bit_or-lt (suc k) r s h g =
    ground (arith, bit_or_step r s, pow-suc 2 k, bit_or-lt k (r / 2) (s / 2))
