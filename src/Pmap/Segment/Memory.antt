-- ===== src/Pmap/Segment/Memory.antt =====
-- boot_mem_init and page_init, which i386_init calls one after the other: the frames that are free
-- then.
use jos_vmx.Base.{ℕ, ◌+◌, ◌*◌, ◌/◌, ◌%◌, ◌≤◌, ◌<◌, ◌≡◌, ◌≢◌, refl, ◌∙◌, some, true, List, arith}
use jos_vmx.Mmu.{word, kernbase, kstksize}
use jos_vmx.Pmap.{Pmap}
use jos_vmx.Pmap.Alloc.Chain.{has, IsFreeList}
use jos_vmx.Pmap.Boot.{i386_mem_detect, page_init}
use jos_vmx.Pmap.Boot.Init.{usable, filter_below, has-filter_below, page_init-free}
use jos_vmx.Pmap.Boot.Rounded.{IsNext, aligned, page_init-aligned}
use jos_vmx.Pmap.Segment.{boot_mem_init, clear_pages}
use jos_vmx.Pmap.Segment.Startup.{turned, behind_pages, Started, boot_mem_init-Started}

module _ (end bootstack : ℕ) (mc146818_read : ℕ → ℕ) (e b : ℕ) (kernel_end : kernbase < end)
    (first_free : (end + 4095) / 4096 ≡ 0xf0000 + e)
    (stack_at : bootstack ≡ kernbase + b * 4096) where
  -- The first frame behind the descriptors of `n` pages that start at frame `used`.
  first_frame : ℕ → ℕ → ℕ
  first_frame used n = used + (n * 12 + 4095) / 4096

  -- The state after boot_mem_init.
  abbrev left_by :
      (m : Pmap) → Started end bootstack mc146818_read e b kernel_end first_free stack_at m → Pmap
  left_by m s = turned end bootstack mc146818_read e b kernel_end first_free stack_at s.before (
      behind_pages end bootstack mc146818_read e b kernel_end first_free stack_at s.mapping.used
        s.before.npages)

  module _ (m : Pmap) (s : Started end bootstack mc146818_read e b kernel_end first_free stack_at m)
      (small : s.before.npages ≤ 65280) where
    abbrev free_from : ℕ
    free_from = first_frame s.mapping.used s.before.npages

    next_of : (left_by m s).nextfree ≡ kernbase + s.mapping.used * 4096 + s.before.npages * 12
    unfolding turned clear_pages
    next_of = omega (arith, s.mapping.mapping.within)

    free_from_small : free_from < 65535
    unfolding first_frame
    free_from_small = omega (arith, s.mapping.mapping.within)

    free_from-IsNext : IsNext end free_from free_from_small (left_by m s)
    unfolding first_frame
    free_from-IsNext = (omega (arith, next_of), omega (arith, next_of))

    tables_below :
        (d : ℕ)
        → d ≢ 0x3bf
        → (left_by m s).phys e d % 2 ≡ 1
        → (left_by m s).phys e d / 4096 < s.mapping.used
    unfolding turned clear_pages
    tables_below d ne p = ground (arith, s.mapping.mapping.below d ne, p)

    npages_of : (left_by m s).npages ≡ (i386_mem_detect mc146818_read).0
    unfolding turned clear_pages
    npages_of = s.mapping.pages

    past :
        (a : ℕ)
        → free_from ≤ a
        → (e < a)
          × ((d : ℕ)
              → d ≢ 0x3bf
              → (left_by m s).phys e d % 2 ≡ 1
              → (left_by m s).phys e d / 4096 < a)
          × ((left_by m s).nextfree ≤ kernbase + a * 4096)
    unfolding first_frame
    past a h = (
      omega (arith, s.mapping.mapping.directory, h),
      λ d ne p. omega (arith, tables_below d ne p, h),
      omega (arith, next_of, h),
    )

    -- The frames on the list of free pages after page_init.
    abbrev free_frames : List ℕ
    free_frames = filter_below (usable free_from) (left_by m s).npages

    free_behind : (a : ℕ) → has a free_frames ≡ true → free_from ≤ a
    free_behind a h =
        let listed = has-filter_below (usable free_from) (left_by m s).npages a in
        ground (arith, listed, h)

    all_listed :
        (a : ℕ)
        → a < (i386_mem_detect mc146818_read).0
        → (160 ≤ a → 256 ≤ a)
        → (left_by m s).nextfree ≤ kernbase + a * 4096
        → has a free_frames ≡ true
    unfolding first_frame
    all_listed a h hole next =
        let listed = has-filter_below (usable free_from) (left_by m s).npages a in
        let behind : free_from ≤ a = omega (arith, next_of, next) in
        let nonzero : 0 < a = omega (arith, s.mapping.mapping.directory, behind) in
        ground (arith, listed, npages_of, h, hole, behind, nonzero)

  -- Under the conditions of boot_mem_init_lem, and with at most 255 MB, boot_mem_init and page_init
  -- run one after the other without a panic and leave a list of free pages; every frame on it lies
  -- past the page directory, past every page table that the directory names, and past the array of
  -- the pages' descriptors, and every frame past that array that exists and is not in the I/O hole
  -- is on the list.
  pub page_init-boot_mem_init :
      (m : Pmap)
      → m.nextfree ≡ 0
      → (i386_mem_detect mc146818_read).0 ≤ 65280
      → e + 68 ≤ (i386_mem_detect mc146818_read).0
      → b * 4096 + kstksize ≤ word
      → (m₁ m₂ : Pmap) × (xs : List ℕ) × (boot_mem_init end bootstack mc146818_read m
          ≡ some (e, m₁))
        × (page_init end m₁ ≡ some (tt, m₂))
        × IsFreeList m₂ xs
        × ((a : ℕ)
            → has a xs ≡ true
            → (e < a)
              × ((d : ℕ) → d ≢ 0x3bf → m₁.phys e d % 2 ≡ 1 → m₁.phys e d / 4096 < a)
              × (m₁.nextfree ≤ kernbase + a * 4096))
        × ((a : ℕ)
            → a < (i386_mem_detect mc146818_read).0
            → (160 ≤ a → 256 ≤ a)
            → m₁.nextfree ≤ kernbase + a * 4096
            → has a xs ≡ true)
  page_init-boot_mem_init m fresh machine fits stack_fits =
      let s =
        boot_mem_init-Started end bootstack mc146818_read e b kernel_end first_free stack_at m fresh
          (omega arith) fits stack_fits in
      let small : s.before.npages ≤ 65280 = omega (arith, s.mapping.pages) in
      let m₁ = left_by m s in
      let (m₂, runs, list, _, _) =
        page_init-free end (free_from m s small)
          (aligned end (free_from m s small) (free_from_small m s small) m₁)
          (record { next = refl; fits = free_from_small m s small }) in
      (
        m₁,
        m₂,
        free_frames m s small,
        s.runs,
        page_init-aligned end (free_from m s small) (free_from_small m s small) m₁
              (omega (arith, npages_of m s small)) (free_from-IsNext m s small)
            ∙ runs,
        list,
        λ a h. past m s small a (free_behind m s small a h),
        λ a h hole next. all_listed m s small a h hole next,
      )
