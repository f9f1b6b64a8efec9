-- ===== src/Pmap/Segment/Startup.antt =====
-- boot_mem_init: the mapping with which the kernel runs.
use jos_vmx.Base.{ℕ, ◌+◌, ◌-◌, ◌*◌, ◌/◌, ◌%◌, ◌≤◌, ◌<◌, ◌≡◌, ◌≢◌, ◌⊎◌, inl, inr, refl, some, arith}
use jos_vmx.Mmu.{word, kernbase, pdx, ptx, roundup}
use jos_vmx.Pmap.{Pmap, ◌>>=◌}
use jos_vmx.Pmap.Boot.{boot_alloc, i386_mem_detect}
use jos_vmx.Pmap.Table.{write, check_va2pa}
use jos_vmx.Pmap.Segment.{
  boot_directory, boot_segments, boot_pages, boot_mem_init, clear_pages, vpt, kstksize,
}
use jos_vmx.Pmap.Segment.Entries.{IsEntry}
use jos_vmx.Pmap.Segment.Walk.{IsMapping}
use jos_vmx.Pmap.Segment.Map.{Maps, check_va2pa-IsEntry}
use jos_vmx.Pmap.Segment.Kernel.{
  begun, boot_directory_lem, stack_page, kernel_page, Mapping, boot_segments-Mapping,
}
use jos_vmx.Pmap.Check.{boot_mem_check}
use jos_vmx.Pmap.Segment.Checked.{cleared, boot_mem_check_passes}

module _ (end bootstack : ℕ) (mc146818_read : ℕ → ℕ) (e b : ℕ) (kernel_end : kernbase < end)
    (first_free : (end + 4095) / 4096 ≡ 0xf0000 + e)
    (stack_at : bootstack ≡ kernbase + b * 4096) where
  -- The state after boot_pages.
  unfoldable pub turned : Pmap → ℕ → Pmap
  turned m free = let m₂ = cleared m free in write e 0 0 (write e 0 (m₂.phys e (pdx kernbase)) m₂)

  -- The first free address after an array of `n` pages' descriptors is put behind frame `used`.
  abbrev pub behind_pages : ℕ → ℕ → ℕ
  behind_pages used n = (kernbase + used * 4096 + n * 12 % word) % word

  boot_alloc-behind_pages :
      (used size : ℕ) (m : Pmap)
      → m.nextfree ≡ kernbase + used * 4096
      → used < 65536
      → boot_alloc end size m
        ≡ some
            (kernbase + used * 4096, record m { nextfree = (kernbase + used * 4096 + size) % word })
  unfolding boot_alloc roundup
  boot_alloc-behind_pages used size m e h = ground (arith, e)

  boot_pages_lem :
      (used : ℕ) (m : Pmap)
      → m.nextfree ≡ kernbase + used * 4096
      → used < 65536
      → (let free = behind_pages used m.npages in
          boot_mem_check e bootstack (cleared m free) ≡ some (tt, cleared m free))
      → boot_pages end bootstack mc146818_read e m
        ≡ some (tt, turned m (behind_pages used m.npages))
  unfolding boot_pages turned
  boot_pages_lem used m next small passes =
      ground (arith, boot_alloc-behind_pages used (m.npages * 12 % word) m next small, passes)

  turned_phys :
      (m : Pmap) (free f i : ℕ) → (f ≢ e) ⊎ (i ≢ 0) → (turned m free).phys f i ≡ m.phys f i
  unfolding turned clear_pages
  turned_phys m free f i ne = ground arith

  turned-Maps :
      (n : ℕ) (m : Pmap) (free va p : ℕ)
      → IsMapping end e 0x3bf n m
      → pdx va ≢ 0
      → Maps end e 0x3bf m va p
      → check_va2pa e va (turned m free) ≡ some (p * 4096, turned m free)
  unfolding clear_pages
  turned-Maps n m free va p inv nonzero at =
      let f = m.phys e (pdx va) / 4096 in
      let table : IsEntry f (m.phys e (pdx va)) = record {
        present = at.present;
        names = refl;
        fits = inv.small (pdx va) at.not_self at.present;
      } in
      let leaf = turned_phys m free f (ptx va) (inl (inv.other (pdx va) at.not_self at.present)) in
      check_va2pa-IsEntry end e 0x3bf (turned m free) va f p (unfold turned in inv.machine)
        (unfold turned in omega (arith, inv.below (pdx va) at.not_self at.present, inv.within))
        (rw (turned_phys m free e (pdx va) (inr nonzero)) table) (rw leaf at.leads)

  turned_zero :
      (m : Pmap) (free : ℕ) → check_va2pa e 0 (turned m free) ≡ some (word - 1, turned m free)
  unfolding check_va2pa clear_pages
  turned_zero m free =
      let at : pdx 0 ≡ 0 = unfold pdx in refl in
      let empty : (turned m free).phys e 0 ≡ 0 = unfold turned in ground arith in
      rw (at, empty) refl

  boot_mem_init-eq :
      (used : ℕ) (m m₁ m₂ : Pmap)
      → boot_directory end bootstack mc146818_read
          (record m { npages = (i386_mem_detect mc146818_read).0 })
        ≡ some (e, m₁)
      → boot_segments end bootstack mc146818_read e m₁ ≡ some (tt, m₂)
      → boot_pages end bootstack mc146818_read e m₂
        ≡ some (tt, turned m₂ (behind_pages used m₂.npages))
      → boot_mem_init end bootstack mc146818_read m
        ≡ some (e, turned m₂ (behind_pages used m₂.npages))
  unfolding boot_mem_init
  boot_mem_init-eq used m m₁ m₂ first second third =
      rw (first, ◌>>=◌) (rw (second, ◌>>=◌) (rw (third, ◌>>=◌) refl))

  -- The state that boot_mem_init leaves, with the mapping before paging is turned on.
  pub record Started (m : Pmap) : Type 0 where
    pub before : Pmap
    pub mapping :
        Mapping end bootstack mc146818_read e b kernel_end first_free stack_at
          (begun end bootstack mc146818_read e b kernel_end first_free stack_at
            (record m { npages = (i386_mem_detect mc146818_read).0 }))
          before
    pub runs :
        boot_mem_init end bootstack mc146818_read m
        ≡ some (e, turned before (behind_pages mapping.used before.npages))

  pub boot_mem_init-Started :
      (m : Pmap)
      → m.nextfree ≡ 0
      → (i386_mem_detect mc146818_read).0 ≤ 65536
      → e + 68 ≤ (i386_mem_detect mc146818_read).0
      → b * 4096 + kstksize ≤ word
      → Started m
  boot_mem_init-Started m fresh machine fits stack_fits =
      let m₀ = record m { npages = (i386_mem_detect mc146818_read).0 } in
      let (m₂, second, mapping) =
        boot_segments-Mapping end bootstack mc146818_read e b kernel_end first_free stack_at m₀
          machine fits stack_fits in
      let first =
        boot_directory_lem end bootstack mc146818_read e b kernel_end first_free stack_at m₀ fresh
          (omega arith) in
      let passes =
        boot_mem_check_passes end bootstack mc146818_read e b kernel_end first_free stack_at m₀ m₂
          (behind_pages mapping.used m₂.npages) mapping stack_fits in
      let third =
        boot_pages_lem mapping.used m₂ mapping.mapping.next
          (omega (arith, mapping.mapping.within, mapping.mapping.machine)) passes in
      record {
        before = m₂;
        mapping = mapping;
        runs =
            boot_mem_init-eq mapping.used m
              (begun end bootstack mc146818_read e b kernel_end first_free stack_at m₀) m₂ first
              second third;
      }

  -- If the machine has 68 frames past the kernel and at most 256 MB, and the kernel's stack is
  -- aligned, boot_mem_init returns a directory in which the addresses from KERNBASE on are the
  -- physical memory from 0 on, the pages below KSTACKTOP are the kernel's stack, and address 0 is
  -- not mapped; the tests of boot_mem_check, which it runs, succeed.
  pub boot_mem_init_lem :
      (m : Pmap)
      → m.nextfree ≡ 0
      → (i386_mem_detect mc146818_read).0 ≤ 65536
      → e + 68 ≤ (i386_mem_detect mc146818_read).0
      → b * 4096 + kstksize ≤ word
      → (m' : Pmap) × (boot_mem_init end bootstack mc146818_read m ≡ some (e, m'))
        × ((j : ℕ) → j < 65536 → check_va2pa e (kernbase + j * 4096) m' ≡ some (j * 4096, m'))
        × ((j : ℕ)
            → j < 8
            → check_va2pa e (vpt - kstksize + j * 4096) m' ≡ some ((b + j) * 4096, m'))
        × (check_va2pa e 0 m' ≡ some (0xffff_ffff, m'))
  boot_mem_init_lem m fresh machine fits stack_fits =
      let started = boot_mem_init-Started m fresh machine fits stack_fits in
      let mapping = started.mapping in
      let free = behind_pages mapping.used started.before.npages in
      (
        turned started.before free,
        started.runs,
        λ j h.
            let va : kernbase + j * 4096 ≡ (0xf0000 + j) * 4096 = omega arith in
            let page =
              kernel_page end bootstack mc146818_read e b kernel_end first_free stack_at j h in
            rw va (
              turned-Maps mapping.used started.before free ((0xf0000 + j) * 4096) j mapping.mapping
                (omega (arith, page)) (mapping.kernel j h)),
        λ j h.
            let va : vpt - kstksize + j * 4096 ≡ (0xefbf8 + j) * 4096 = omega arith in
            let page =
              stack_page end bootstack mc146818_read e b kernel_end first_free stack_at j
                (omega arith) in
            rw va (
              turned-Maps mapping.used started.before free ((0xefbf8 + j) * 4096) (b + j)
                mapping.mapping (omega (arith, page)) (mapping.stack j h)),
        turned_zero started.before free,
      )
