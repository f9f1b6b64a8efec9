-- ===== src/Pmap/Segment/Checked.antt =====
-- boot_mem_check succeeds on the mapping of boot_segments.
use jos_vmx.Base.{ℕ, ◌+◌, ◌-◌, ◌*◌, ◌/◌, ◌%◌, ◌≤◌, ◌<◌, ◌≡◌, refl, some, arith, bit_or}
use jos_vmx.Base.Bits.{bit_or_step}
use mathlib.Core.Path.{subst}
use jos_vmx.Mmu.{word, kernbase, vpt, kstksize, pte_p, pte_w, pdx}
use jos_vmx.Pmap.{Pmap}
use jos_vmx.Pmap.Table.{check_va2pa}
use jos_vmx.Pmap.Check.{boot_mem_check}
use jos_vmx.Pmap.Check.Iff.{IsKernelSpace, boot_mem_check_iff}
use jos_vmx.Pmap.Segment.{clear_pages}
use jos_vmx.Pmap.Segment.Walk.{IsMapping}
use jos_vmx.Pmap.Segment.Map.{Maps, check_va2pa-IsEntry}
use jos_vmx.Pmap.Segment.Kernel.{begun, kernel_page, Mapping}

-- The state in which boot_mem_check runs.
abbrev pub cleared : Pmap → ℕ → Pmap
cleared m free = clear_pages (record m { nextfree = free })

module _ (end bootstack : ℕ) (mc146818_read : ℕ → ℕ) (e b : ℕ) (kernel_end : kernbase < end)
    (first_free : (end + 4095) / 4096 ≡ 0xf0000 + e) (at_stack : bootstack ≡ kernbase + b * 4096)
    (m : Pmap) where
  cleared-Maps :
      (n : ℕ) (m₂ : Pmap) (free va p : ℕ)
      → IsMapping end e 0x3bf n m₂
      → Maps end e 0x3bf m₂ va p
      → check_va2pa e va (cleared m₂ free) ≡ some (p * 4096, cleared m₂ free)
  unfolding clear_pages
  cleared-Maps n m₂ free va p inv at =
      check_va2pa-IsEntry end e 0x3bf (cleared m₂ free) va (m₂.phys e (pdx va) / 4096) p inv.machine
        (omega (arith, inv.below (pdx va) at.not_self at.present, inv.within))
        (record {
          present = at.present;
          names = refl;
          fits = inv.small (pdx va) at.not_self at.present;
        })
        at.leads

  module _ (m₂ : Pmap) (free : ℕ)
      (mapping : Mapping end bootstack mc146818_read e b kernel_end first_free at_stack
        (begun end bootstack mc146818_read e b kernel_end first_free at_stack m)
        m₂) where
    abbrev now : Pmap
    now = cleared m₂ free

    stack_pde : now.phys e 0x3be % 2 ≡ 1
    unfolding clear_pages
    stack_pde =
        let at = mapping.stack 0 (omega arith) in
        let d : pdx ((0xefbf8 + 0) * 4096) ≡ 0x3be = unfold pdx in refl in
        subst (λ i. m₂.phys e i % 2 ≡ 1) d at.present

    kernel_pde : (d : ℕ) → 0x3c0 ≤ d → d < 1024 → now.phys e d % 2 ≡ 1
    unfolding clear_pages
    kernel_pde d low high =
        let j = (d - 0x3c0) * 1024 in
        let at = mapping.kernel j (omega arith) in
        let same : pdx ((0xf0000 + j) * 4096) ≡ d = omega (
          arith,
          kernel_page end bootstack mc146818_read e b kernel_end first_free at_stack j
              (omega arith),
        ) in
        subst (λ i. m₂.phys e i % 2 ≡ 1) same at.present

    self_pde : now.phys e 0x3bf % 2 ≡ 1
    unfolding clear_pages
    self_pde =
        let at : pdx vpt ≡ 0x3bf = unfold pdx in refl in
        let odd = bit_or_step (bit_or (e * 4096) pte_w) pte_p in
        let entry : m₂.phys e 0x3bf ≡ bit_or (bit_or (e * 4096) pte_w) pte_p =
          ground (arith, mapping.itself, at) in
        omega (arith, entry, odd)

    user_pde : (d : ℕ) → d < 0x3be → now.phys e d ≡ 0
    unfolding clear_pages
    user_pde d h =
        let at : pdx vpt ≡ 0x3bf = unfold pdx in refl in ground (arith, mapping.user d h, at)

    now-IsKernelSpace : IsKernelSpace e bootstack now
    now-IsKernelSpace = record {
      memory = λ j h.
          let va : kernbase + j * 4096 ≡ (0xf0000 + j) * 4096 = omega arith in
          rw va (
            cleared-Maps mapping.used m₂ free ((0xf0000 + j) * 4096) j mapping.mapping
              (mapping.kernel j h));
      stack = λ j h.
          let va : vpt - kstksize + j * 4096 ≡ (0xefbf8 + j) * 4096 = omega arith in
          let pa : bootstack - kernbase + j * 4096 ≡ (b + j) * 4096 = omega (arith, at_stack) in
          rw (va, pa)
            (cleared-Maps mapping.used m₂ free ((0xefbf8 + j) * 4096) (b + j) mapping.mapping
              (mapping.stack j h));
      directory =
          λ d h. (λ low. user_pde d low, λ high. ground (arith, stack_pde, self_pde, kernel_pde d));
    }

    pub boot_mem_check_passes :
        b * 4096 + kstksize ≤ word → boot_mem_check e bootstack now ≡ some (tt, now)
    boot_mem_check_passes fits =
        (boot_mem_check_iff e bootstack now (omega (arith, at_stack)) (omega (arith, at_stack))).1
          now-IsKernelSpace
