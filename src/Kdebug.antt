-- ===== src/Kdebug.antt =====
-- kern/kdebug.c: the binary search in the table of debugging symbols. The table is the function
-- from an index to its entry, and an index that may be -1 is written as its successor: `hi` is
-- `r + 1`, and a region's `left1` and `right1` are `*region_left + 1` and `*region_right + 1`.
pub mod Search
pub mod Bracket
pub mod Loop
pub mod Found
pub mod Eip
mod Tests
use jos_vmx.Base.{
  ℕ, zero, suc, ◌+◌, ◌-◌, ◌/◌, ◌%◌, ◌^◌, Bool, true, false, Option, none, some, ◌==◌, ltb, leb,
  if◌then◌else◌,
}

pub record Stab : Type 0 where
  pub n_strx : ℕ
  pub n_type : ℕ
  pub n_other : ℕ
  pub n_desc : ℕ
  pub n_value : ℕ

abbrev pub n_fun : ℕ
n_fun = 0x24

abbrev pub n_sline : ℕ
n_sline = 0x44

abbrev pub n_so : ℕ
n_so = 0x64

abbrev pub n_sol : ℕ
n_sol = 0x84

abbrev pub n_psym : ℕ
n_psym = 0xa0

-- The variables of the loop. `r` and `*region_right` are one variable, since each assignment to
-- one goes with the same assignment to the other.
pub record Bisection : Type 0 where
  pub l : ℕ
  pub hi : ℕ
  pub left : ℕ
  pub any_matches : Bool
  pub addr : ℕ

pub record Region : Type 0 where
  pub left1 : ℕ
  pub right1 : ℕ

module _ (stabs : ℕ → Stab) (type : ℕ) where
  -- The largest index of the given type among the `k` from `l` on.
  unfoldable pub latest : ℕ → ℕ → Option ℕ
  latest l zero = none
  latest l (suc k) = if (stabs (l + k)).n_type == type then some (l + k) else latest l k

  unfoldable pub probe : ℕ → ℕ → Bisection → Bisection
  probe m true_m s =
      if ltb (stabs m).n_value s.addr
      then record s { left = m; l = true_m + 1; any_matches = true }
      else if ltb s.addr (stabs m).n_value
      then record s { hi = m; any_matches = true }
      else record s { left = m; l = m; addr = (s.addr + 1) % 2 ^ 32; any_matches = true }

  unfoldable pub bisect_at : ℕ → Bisection → Bisection
  bisect_at true_m s = elim (latest s.l (true_m + 1 - s.l)) [
    | none ↦ record s { l = true_m + 1 }
    | some m ↦ probe m true_m s
  ]

  unfoldable pub bisect : Bisection → Bisection
  bisect s = bisect_at ((s.l + s.hi - 1) / 2) s

  -- `none` means that the fuel ran out.
  unfoldable pub bisect_loop : ℕ → Bisection → Option Bisection
  bisect_loop zero s = none
  bisect_loop (suc fuel) s =
      let rest = bisect_loop fuel (bisect s) in if ltb s.l s.hi then rest else some s

  -- The last loop: from `left + k` down to an entry of the type, or to `left`.
  unfoldable pub rightmost : ℕ → ℕ → ℕ
  rightmost left zero = left
  rightmost left (suc k) =
      if (stabs (left + suc k)).n_type == type then left + suc k else rightmost left k

  unfoldable pub settle : Bisection → Region
  settle s =
      if s.any_matches
      then (if leb s.hi (s.left + 1)
          then record { left1 = s.hi; right1 = s.hi }
          else record { left1 = suc (rightmost s.left (s.hi - 1 - s.left)); right1 = s.hi })
      else record { left1 = suc s.left; right1 = s.left }

  unfoldable pub settled : Option Bisection → Option Region
  settled none = none
  settled (some s) = some (settle s)

  -- `left` is `*region_left`, and `hi` is `*region_right + 1`.
  unfoldable pub stab_binsearch : ℕ → ℕ → ℕ → ℕ → Option Region
  stab_binsearch fuel left hi addr = settled (
      bisect_loop fuel
        (record { l = left; hi = hi; left = left; any_matches = false; addr = addr }))
