-- ===== src/Pmap/Check.antt =====
-- boot_mem_check. A failed `assert` is a panic. The loops run on fuel: a round for each page or
-- entry, and one for the last test.
pub mod Reads
pub mod Iff
use jos_vmx.Base.{
  ℕ, zero, suc, ◌+◌, ◌-◌, ◌*◌, ◌%◌, ◌≤◌, ◌<◌, ◌≡◌, ◌∙◌, Option, none, some, Bool, true, false, not,
  ltb, leb, ◌==◌, if◌then◌else◌, ◌||◌, arith,
}
use jos_vmx.Mmu.{word, pgsize, kernbase, vpt, kstksize, pdx}
use jos_vmx.Pmap.{Pmap, M, pure, ◌>>=◌, ◌>>◌}
use jos_vmx.Pmap.Boot.{paddr}
use jos_vmx.Pmap.Table.{check_va2pa}

-- `for (; more; i += step) assert(test);` from `i` on.
unfoldable pub assert_from : ℕ → (ℕ → Bool) → ℕ → (ℕ → M Bool) → ℕ → M (Unit {0})
assert_from zero more step test i m = none
assert_from (suc fuel) more step test i m = elim (more i) [
  | false ↦ some (tt, m)
  | true ↦ elim (test i m) [
    | none ↦ none
    | some (false, m₁) ↦ none
    | some (true, m₁) ↦ assert_from fuel more step test ((i + step) % word) m₁
  ]
]

module _ (pgdir bootstack : ℕ) where
  unfoldable pub phys_at : ℕ → M Bool
  phys_at i = do pa ← check_va2pa pgdir ((kernbase + i) % word); pure (pa == i)

  unfoldable pub stack_at : ℕ → M Bool
  stack_at i = do
    pa ← check_va2pa pgdir (vpt - kstksize + i)
    stack ← paddr bootstack
    pure (pa == (stack + i) % word)

  -- KSTACKTOP is VPT.
  unfoldable pub pde_at : ℕ → M Bool
  pde_at i m =
      let empty = m.phys pgdir i == 0 in
      if (i == pdx vpt) || (i == pdx (vpt - 1))
      then some (not empty, m)
      else if leb (pdx kernbase) i
      then some (not empty, m)
      else some (empty, m)

  unfoldable pub boot_mem_check : M (Unit {0})
  boot_mem_check = do
    assert_from 65537 (λ i. not ((kernbase + i) % word == 0)) pgsize phys_at 0
    assert_from 9 (λ i. ltb i kstksize) pgsize stack_at 0
    assert_from 1025 (λ i. ltb i 1024) 1 pde_at 0

module _ (more : ℕ → Bool) (step : ℕ) (test : ℕ → M Bool) (m : Pmap) where
  assert_from_end :
      (fuel i : ℕ) → more i ≡ false → assert_from (suc fuel) more step test i m ≡ some (tt, m)
  unfolding assert_from
  assert_from_end fuel i e = ground (arith, e)

  assert_from_next :
      (fuel i : ℕ)
      → more i ≡ true
      → test i m ≡ some (true, m)
      → assert_from (suc fuel) more step test i m
        ≡ assert_from fuel more step test ((i + step) % word) m
  unfolding assert_from
  assert_from_next fuel i e t = ground (arith, e, t)

  -- If the index takes the values `at k`, `at (k + 1)` and so on, the loop ends, and changes
  -- nothing, when every test passes and changes nothing.
  pub assert_from_lem :
      (at : ℕ → ℕ) (rounds k : ℕ)
      → ((j : ℕ) → j < k + rounds → (at j + step) % word ≡ at (suc j))
      → ((j : ℕ) → j < k + rounds → more (at j) ≡ true)
      → more (at (k + rounds)) ≡ false
      → ((j : ℕ) → j < k + rounds → test (at j) m ≡ some (true, m))
      → assert_from (suc rounds) more step test (at k) m ≡ some (tt, m)
  assert_from_lem at zero k moves goes stops passes =
      let last : k + 0 ≡ k = omega arith in assert_from_end 0 (at k) (rw (← last) stops)
  assert_from_lem at (suc rounds) k moves goes stops passes =
      let sum : k + suc rounds ≡ suc k + rounds = omega arith in
      assert_from_next (suc rounds) (at k) (goes k (omega arith)) (passes k (omega arith))
      ∙ rw (moves k (omega arith)) (
          assert_from_lem at rounds (suc k) (λ j h. moves j (omega arith))
            (λ j h. goes j (omega arith)) (rw (← sum) stops) (λ j h. passes j (omega arith)))
