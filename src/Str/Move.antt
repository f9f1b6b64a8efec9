-- ===== src/Str/Move.antt =====
-- memset, memcpy and memmove of lib/string.c over one memory, so that the ranges may overlap.
-- Addresses are natural numbers: a range does not wrap round the end of the address space.
use jos_vmx.Base.{
  ℕ, zero, suc, ◌+◌, ◌-◌, ◌%◌, ◌^◌, ◌≤◌, ◌<◌, ◌≡◌, ◌&&◌, ltb, leb, if◌then◌else◌, arith, update,
  ◌⊎◌, ◌∙◌, sym, inl, inr, Bool-cases,
}
use native.Mathlib.Decide.{dec_lt, ℕ_discrete}

memset_loop : (ℕ → ℕ) → ℕ → ℕ → ℕ → ℕ → ℕ
memset_loop mem p c zero = mem
memset_loop mem p c (suc m) = memset_loop (update mem p (c % 2 ^ 8)) (p + 1) c m

-- `int m = n` is negative from 2^31 on, and nothing is written.
unfoldable pub memset : (ℕ → ℕ) → ℕ → ℕ → ℕ → ℕ → ℕ
unfolding memset_loop
memset mem v c n = if ltb n (2 ^ 31) then memset_loop mem v c n else mem

-- `while (n-- > 0) *d++ = *s++;`
copy_up : (ℕ → ℕ) → ℕ → ℕ → ℕ → ℕ → ℕ
copy_up mem d s zero = mem
copy_up mem d s (suc n) = copy_up (update mem d (mem s)) (d + 1) (s + 1) n

-- `while (n-- > 0) *--d = *--s;`
copy_down : (ℕ → ℕ) → ℕ → ℕ → ℕ → ℕ → ℕ
copy_down mem d s zero = mem
copy_down mem d s (suc n) = copy_down (update mem (d - 1) (mem (s - 1))) (d - 1) (s - 1) n

unfoldable pub memcpy : (ℕ → ℕ) → ℕ → ℕ → ℕ → ℕ → ℕ
unfolding copy_up
memcpy mem dst src n = copy_up mem dst src n

unfoldable pub memmove : (ℕ → ℕ) → ℕ → ℕ → ℕ → ℕ → ℕ
unfolding copy_up copy_down
memmove mem dst src n =
    if ltb src dst && ltb dst (src + n)
    then copy_down mem (dst + n) (src + n) n
    else copy_up mem dst src n

-- The bytes `src[0..n)` of `mem` stand at `dst`, and all other bytes are as they were.
abbrev pub copied : (ℕ → ℕ) → (dst src n : ℕ) → ℕ → ℕ
copied mem dst src n a = if leb dst a && ltb a (dst + n) then mem (a - dst + src) else mem a

copy_up_lem :
    (n : ℕ) (mem : ℕ → ℕ) (d s a : ℕ)
    → (d ≤ s) ⊎ (s + n ≤ d)
    → copy_up mem d s n a ≡ copied mem d s n a
unfolding copy_up
copy_up_lem zero mem d s a o = ground arith
copy_up_lem (suc n) mem d s a o =
    let ih = copy_up_lem n (update mem d (mem s)) (d + 1) (s + 1) a in
    elim (dec_lt d a) [
      | yes p ↦ let e : a - (d + 1) + (s + 1) ≡ a - d + s = omega arith in ground (arith, e, ih)
      | no p ↦ elim (ℕ_discrete d a) [
        | yes q ↦ let e : a - d + s ≡ s = omega arith in ground (arith, e, ih)
        | no q ↦ ground (arith, ih)
      ]
    ]

copy_down_lem :
    (n : ℕ) (mem : ℕ → ℕ) (d s a : ℕ)
    → s < d
    → copy_down mem (d + n) (s + n) n a ≡ copied mem d s n a
unfolding copy_down
copy_down_lem zero mem d s a o = ground arith
copy_down_lem (suc n) mem d s a o =
    let e : d + suc n - 1 ≡ d + n = omega arith in
    let f : s + suc n - 1 ≡ s + n = omega arith in
    let ih = copy_down_lem n (update mem (d + n) (mem (s + n))) d s a o in
    elim (ℕ_discrete (d + n) a) [
      | yes q ↦ let g : a - d + s ≡ s + n = omega arith in rw (e, f) (ground (arith, g, ih))
      | no q ↦ rw (e, f) (ground (arith, ih))
    ]

-- `memmove` copies `n` bytes as they were before the call, however the ranges overlap, and
-- changes no byte outside the target; `memcpy` does so if the target does not begin inside the
-- source.
pub memmove_lem :
    (mem : ℕ → ℕ) (dst src n a : ℕ)
    → (memmove mem dst src n a ≡ copied mem dst src n a)
      × ((dst ≤ src) ⊎ (src + n ≤ dst) → memcpy mem dst src n a ≡ memmove mem dst src n a)
unfolding memmove memcpy
memmove_lem mem dst src n a = (moved, λ o. copy_up_lem n mem dst src a o ∙ sym moved)
  where
    moved : memmove mem dst src n a ≡ copied mem dst src n a
    moved = ground (arith, copy_down_lem n mem dst src a, copy_up_lem n mem dst src a)

memset_loop_lem :
    (n : ℕ) (mem : ℕ → ℕ) (p c a : ℕ)
    → memset_loop mem p c n a ≡ (if leb p a && ltb a (p + n) then c % 2 ^ 8 else mem a)
unfolding memset_loop
memset_loop_lem zero mem p c a = ground arith
memset_loop_lem (suc n) mem p c a =
    ground (arith, memset_loop_lem n (update mem p (c % 2 ^ 8)) (p + 1) c a)

-- Below 2^31 bytes `memset` stores the low byte of `c` in each of the `n` bytes and nowhere else;
-- from 2^31 on its counter is negative and it stores nothing.
pub memset_lem :
    (mem : ℕ → ℕ) (v c n a : ℕ)
    → memset mem v c n a
      ≡ (if ltb n (2 ^ 31) && (leb v a && ltb a (v + n)) then c % 2 ^ 8 else mem a)
unfolding memset
memset_lem mem v c n a = elim (Bool-cases (ltb n (2 ^ 31))) [
  | inl small ↦ rw small (memset_loop_lem n mem v c a)
  | inr big ↦ rw big
]
