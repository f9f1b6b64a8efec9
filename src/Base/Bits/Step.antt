-- ===== src/Base/Bits/Step.antt =====
-- `&` and `|` split off the lowest binary digit: the recursion of the library on fuel, without it.
use Prim.Native.Nat.{ℕ, zero, suc, ◌+◌, ◌*◌, ◌/◌, ◌%◌, ◌≤◌, min, max, bit_and, bit_or}
use Prim.Native.Nat.{digits, bitwise, bit_and-bitwise, bit_or-bitwise}
use mathlib.Core.Path.{◌≡◌, refl}
use native.Mathlib.Omega.{arith}

module _ (tail : ℕ → ℕ) (digit : ℕ → ℕ → ℕ) where
  -- Fuel that is not below the first number gives what the number itself gives as fuel.
  enough :
      (bound fuel x y : ℕ)
      → fuel ≤ bound
      → x ≤ fuel
      → digits tail digit fuel x y ≡ bitwise tail digit x y
  enough bound zero zero y small fits = refl
  enough bound (suc fuel) zero y small fits = refl
  enough bound zero (suc x) y small fits = absurd (omega arith)
  enough zero (suc fuel) (suc x) y small fits = absurd (omega arith)
  enough (suc bound) (suc fuel) (suc x) y small fits =
      let outer = enough bound fuel (suc x / 2) (y / 2) (omega arith) (omega arith) in
      let inner = enough bound x (suc x / 2) (y / 2) (omega arith) (omega arith) in
      rw (outer, inner) refl

  split_digit :
      (x y : ℕ)
      → bitwise tail digit (suc x) y
        ≡ bitwise tail digit (suc x / 2) (y / 2) * 2 + digit (suc x % 2) (y % 2)
  split_digit x y = rw (enough x x (suc x / 2) (y / 2) (omega arith) (omega arith)) refl

pub bit_and_step : (x y : ℕ) → bit_and x y ≡ bit_and (x / 2) (y / 2) * 2 + min (x % 2) (y % 2)
bit_and_step zero y = simp bit_and-bitwise (omega arith)
bit_and_step (suc x) y = simp bit_and-bitwise (split_digit (λ rest. 0) min x y)

pub bit_or_step : (x y : ℕ) → bit_or x y ≡ bit_or (x / 2) (y / 2) * 2 + max (x % 2) (y % 2)
bit_or_step zero y = simp bit_or-bitwise (omega arith)
bit_or_step (suc x) y = simp bit_or-bitwise (split_digit (λ rest. rest) max x y)
