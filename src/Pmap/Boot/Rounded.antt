-- ===== src/Pmap/Boot/Rounded.antt =====
-- page_init rounds the first free address up to a page.
use jos_vmx.Base.{
  ℕ, zero, suc, ◌+◌, ◌-◌, ◌*◌, ◌≤◌, ◌<◌, ◌≡◌, refl, ◌∙◌, some, arith, ltb, leb, ◌&&◌,
}
use mathlib.Core.Path.{sym}
use jos_vmx.Mmu.{pgsize, kernbase, pgnum, roundup}
use jos_vmx.Pmap.{Pmap, M, ◌>>=◌, ◌>>◌, set_page}
use jos_vmx.Pmap.FreeList.{list_init}
use jos_vmx.Pmap.Boot.{
  paddr, boot_alloc, insert_unless, insert_if_free, page_init_step, page_init_from, page_init,
}

module _ (end f : ℕ) (small : f < 65535) where
  abbrev pub aligned : Pmap → Pmap
  aligned m = record m { nextfree = kernbase + f * pgsize }

  -- The page `f` is the first one past the next free address.
  abbrev pub IsNext : Pmap → Type 0
  IsNext m = (m.nextfree ≤ kernbase + f * 4096) × (kernbase + f * 4096 < m.nextfree + 4096)

  boot_alloc-aligned :
      (m : Pmap) → IsNext m → boot_alloc end 0 m ≡ some (kernbase + f * pgsize, aligned m)
  unfolding boot_alloc roundup
  boot_alloc-aligned m h = ground (arith, h.0, h.1)

  -- What insert_if_free does behind its call of boot_alloc.
  insert_rest : ℕ → ℕ → M (Unit {0})
  insert_rest i v = paddr v >>= λ next.
      insert_unless (leb (pgnum (kernbase - kernbase)) i && ltb i (pgnum next)) i

  insert_if_free-insert_rest :
      (i v : ℕ) (m m₁ : Pmap)
      → boot_alloc end 0 m ≡ some (v, m₁)
      → insert_if_free end i m ≡ insert_rest i v m₁
  unfolding insert_if_free insert_rest
  insert_if_free-insert_rest i v m m₁ e =
      let base : paddr kernbase m ≡ some (kernbase - kernbase, m) = unfold paddr in ground arith in
      rw (base, ◌>>=◌) (rw (e, ◌>>=◌) refl)

  insert_if_free-aligned :
      (i : ℕ) (m : Pmap) → IsNext m → insert_if_free end i m ≡ insert_if_free end i (aligned m)
  insert_if_free-aligned i m h =
      insert_if_free-insert_rest i (kernbase + f * pgsize) m (aligned m) (boot_alloc-aligned m h)
      ∙ sym (
          insert_if_free-insert_rest i (kernbase + f * pgsize) (aligned m) (aligned m)
            (boot_alloc-aligned (aligned m) (omega arith, omega arith)))

  step_one-aligned :
      (m : Pmap) → IsNext m → page_init_step end 1 m ≡ page_init_step end 1 (aligned m)
  unfolding page_init_step pgnum
  step_one-aligned m h =
      insert_if_free-aligned 1 (set_page 1 (record (m.pages 1) { pp_ref = 0 }) m) h

  step_zero-eq :
      (m : Pmap)
      → page_init_step end 0 m ≡ some (tt, set_page 0 (record (m.pages 0) { pp_ref = 0 }) m)
  unfolding page_init_step
  step_zero-eq m = refl

  first_steps :
      (n : ℕ) (m : Pmap)
      → 2 ≤ n
      → IsNext m
      → page_init_from end n 0 m ≡ page_init_from end n 0 (aligned m)
  unfolding page_init_from
  first_steps zero m big h = absurd (omega (arith, big))
  first_steps (suc zero) m big h = absurd (omega (arith, big))
  first_steps (suc (suc n)) m big h =
      let m₁ = set_page 0 (record (m.pages 0) { pp_ref = 0 }) m in
      rw (step_zero-eq m, step_zero-eq (aligned m), ◌>>=◌)
        (rw (step_one-aligned m₁ h, ◌>>◌, ◌>>=◌) refl)

  -- With two frames or more, page_init starts as if the next free address were that of the page.
  pub page_init-aligned :
      (m : Pmap) → 2 ≤ m.npages → IsNext m → page_init end m ≡ page_init end (aligned m)
  unfolding page_init list_init
  page_init-aligned m big h = first_steps m.npages (list_init m) big h
