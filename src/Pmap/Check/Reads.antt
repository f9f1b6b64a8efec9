-- ===== src/Pmap/Check/Reads.antt =====
-- check_va2pa only reads, and a loop of asserts that ends has passed every test.
use jos_vmx.Base.{
  ℕ, zero, suc, ◌+◌, ◌-◌, ◌%◌, ◌≤◌, ◌<◌, ◌≡◌, refl, ◌∙◌, sym, Option, none, some, Bool, true, false,
  ltb, leb, ◌==◌, if◌then◌else◌, bit_and, arith, Bool-cases, inl, inr,
}
use mathlib.Core.Path.{subst, ap}
use native.Mathlib.Decide.{ℕ_discrete}
use jos_vmx.Mmu.{pgnum, word, kernbase, pdx, ptx, pte_p, pte_addr}
use jos_vmx.Pmap.{Pmap, M, ◌>>=◌}
use jos_vmx.Pmap.Boot.{kaddr}
use jos_vmx.Pmap.Table.{frame, frame_at, check_va2pa}
use jos_vmx.Pmap.Check.{assert_from}

-- A reading of the memory: a panic, or a result with the state as it was.
unfoldable pub Reads : {A : Type 0} → Option (A × Pmap) → Pmap → Type 0
Reads none m = Unit
Reads (some (x, m')) m = m' ≡ m

kaddr-Reads : (pa : ℕ) (m : Pmap) → Reads (kaddr pa m) m
unfolding kaddr Reads
kaddr-Reads pa m = elim (Bool-cases (leb m.npages (pgnum pa))) [
  | inl t ↦ rw t _
  | inr t ↦ rw t refl
]

pub Reads-bind :
    {A B : Type 0} (c : M A) (f : A → M B) (m : Pmap)
    → Reads (c m) m
    → ((a : A) → Reads (f a m) m)
    → Reads ((c >>= f) m) m
unfolding Reads
Reads-bind {A = A} {B = B} c f m h k = bound (c m) h
  where
    bound :
        (r : Option (A × Pmap))
        → Reads r m
        → Reads (elim r [ none ↦ none | some (a, m') ↦ f a m' ]) m
    bound none h = _
    bound (some (a, m')) h = rw h (k a)

frame-Reads : (kva : ℕ) (m : Pmap) → Reads (frame kva m) m
unfolding frame Reads
frame-Reads kva m = elim (Bool-cases (ltb kva kernbase)) [ inl t ↦ rw t _ | inr t ↦ rw t refl ]

frame_at-Reads : (pa : ℕ) (m : Pmap) → Reads (frame_at pa m) m
unfolding frame_at
frame_at-Reads pa m = Reads-bind (kaddr pa) frame m (kaddr-Reads pa m) (λ kva. frame-Reads kva m)

pub check_va2pa-Reads : (pgdir va : ℕ) (m : Pmap) → Reads (check_va2pa pgdir va m) m
unfolding check_va2pa Reads
check_va2pa-Reads pgdir va m = elim (Bool-cases (bit_and (m.phys pgdir (pdx va)) pte_p == 0)) [
  | inl t ↦ rw t refl
  | inr t ↦ rw t (
      Reads-bind (frame_at (pte_addr (m.phys pgdir (pdx va))))
        (λ t m₁.
          if bit_and (m₁.phys t (ptx va)) pte_p == 0
          then some (word - 1, m₁)
          else some (pte_addr (m₁.phys t (ptx va)), m₁))
        m (frame_at-Reads _ m) (λ t. leaf t))
]
  where
    leaf :
        (t : ℕ)
        → Reads
            (if bit_and (m.phys t (ptx va)) pte_p == 0
              then some (word - 1, m)
              else some (pte_addr (m.phys t (ptx va)), m))
            m
    leaf t = elim (Bool-cases (bit_and (m.phys t (ptx va)) pte_p == 0)) [
      | inl e ↦ rw e refl
      | inr e ↦ rw e refl
    ]

module _ (more : ℕ → Bool) (step : ℕ) (test : ℕ → M Bool) (m : Pmap)
    (reads : (i : ℕ) → Reads (test i m) m) where
  -- The rest of the loop, behind a test.
  continued : (fuel i : ℕ) → Option (Bool × Pmap) → Option (Unit {0} × Pmap)
  continued fuel i none = none
  continued fuel i (some (false, m₁)) = none
  continued fuel i (some (true, m₁)) = assert_from fuel more step test ((i + step) % word) m₁

  assert_from-continued :
      (fuel i : ℕ)
      → more i ≡ true
      → assert_from (suc fuel) more step test i m ≡ continued fuel i (test i m)
  unfolding assert_from continued
  assert_from-continued fuel i e = ground (arith, e)

  test_passed :
      (fuel i : ℕ) (r : Option (Bool × Pmap)) (m' : Pmap)
      → Reads r m
      → continued fuel i r ≡ some (tt, m')
      → (r ≡ some (true, m))
        × (assert_from fuel more step test ((i + step) % word) m ≡ some (tt, m'))
  unfolding Reads continued
  test_passed fuel i none m' h e = absurd (ground (arith, e))
  test_passed fuel i (some (false, m₁)) m' h e = absurd (ground (arith, e))
  test_passed fuel i (some (true, m₁)) m' h e = (
    ap (λ s. some (true, s)) h,
    subst (λ s. assert_from fuel more step test ((i + step) % word) s ≡ some (tt, m')) h e,
  )

  -- A loop that ends has passed every test.
  pub assert_from_sound :
      (at : ℕ → ℕ) (rounds k : ℕ) (m' : Pmap)
      → ((j : ℕ) → j < k + rounds → (at j + step) % word ≡ at (suc j))
      → ((j : ℕ) → j < k + rounds → more (at j) ≡ true)
      → assert_from (suc rounds) more step test (at k) m ≡ some (tt, m')
      → (j : ℕ) → k ≤ j
      → j < k + rounds
      → test (at j) m ≡ some (true, m)
  assert_from_sound at zero k m' moves goes e j low high = absurd (omega (arith, low, high))
  assert_from_sound at (suc rounds) k m' moves goes e j low high =
      let go = assert_from-continued (suc rounds) (at k) (goes k (omega arith)) in
      let (first, rest) =
        test_passed (suc rounds) (at k) (test (at k) m) m' (reads (at k)) (sym go ∙ e) in
      elim (ℕ_discrete j k) [
        | yes same ↦ rw same first
        | no ne ↦
            assert_from_sound at rounds (suc k) m' (λ i h. moves i (omega arith))
              (λ i h. goes i (omega arith))
              (subst (λ i. assert_from (suc rounds) more step test i m ≡ some (tt, m'))
                (moves k (omega arith)) rest)
              j (omega (arith, low, ne)) (omega (arith, high))
      ]
