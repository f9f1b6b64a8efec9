-- ===== src/Pmap/Segment/Kernel.antt =====
-- boot_directory and boot_segments of boot_mem_init: the mapping that they make.
use jos_vmx.Base.{
  ℕ, suc, ◌+◌, ◌-◌, ◌*◌, ◌/◌, ◌≤◌, ◌<◌, ◌≡◌, ◌≢◌, inl, refl, ◌∙◌, some, arith, bit_or,
}
use jos_vmx.Mmu.{word, pgsize, kernbase, pte_p, pte_w, pdx, roundup}
use jos_vmx.Mmu.Address.{pdx-eq}
use jos_vmx.Pmap.{Pmap, ◌>>=◌}
use jos_vmx.Pmap.Boot.{paddr, boot_alloc}
use jos_vmx.Pmap.Table.{frame, write, clear_frame}
use jos_vmx.Pmap.Segment.{boot_map_segment, boot_directory, boot_segments, vpt, kstksize}
use jos_vmx.Pmap.Segment.Walk.{IsMapping, HasRoom}
use jos_vmx.Pmap.Segment.Map.{Maps}
use jos_vmx.Pmap.Segment.Range.{Segment, boot_map_segment-Segment}

vpt-pdx : pdx vpt ≡ 0x3bf
unfolding pdx
vpt-pdx = refl

module _ (end bootstack : ℕ) (mc146818_read : ℕ → ℕ) (e b : ℕ) (kernel_end : kernbase < end)
    (first_free : (end + 4095) / 4096 ≡ 0xf0000 + e)
    (stack_at : bootstack ≡ kernbase + b * 4096) where
  -- The state after boot_directory.
  abbrev pub begun : Pmap → Pmap
  begun m =
      write e (pdx vpt) (bit_or (bit_or (e * 4096) pte_w) pte_p)
        (clear_frame e (record m { nextfree = kernbase + suc e * 4096 }))

  first_alloc :
      (m : Pmap)
      → m.nextfree ≡ 0
      → e < 65535
      → boot_alloc end pgsize m
        ≡ some (kernbase + e * 4096, record m { nextfree = kernbase + suc e * 4096 })
  unfolding boot_alloc roundup
  first_alloc m fresh small = ground arith

  first_frame : (m : Pmap) → e < 65535 → frame (kernbase + e * 4096) m ≡ some (e, m)
  unfolding frame
  first_frame m small = ground arith

  first_paddr : (m : Pmap) → paddr (kernbase + e * 4096) m ≡ some (e * 4096, m)
  unfolding paddr
  first_paddr m = ground arith

  pub stack_paddr : (m : Pmap) → paddr (kernbase + b * 4096) m ≡ some (b * 4096, m)
  unfolding paddr
  stack_paddr m = ground arith

  pub boot_directory_lem :
      (m : Pmap)
      → m.nextfree ≡ 0
      → e < 65535
      → boot_directory end bootstack mc146818_read m ≡ some (e, begun m)
  unfolding boot_directory
  boot_directory_lem m fresh small =
      let m₁ = record m { nextfree = kernbase + suc e * 4096 } in
      rw (first_alloc m fresh small, ◌>>=◌)
        (rw (first_frame m₁ small, ◌>>=◌) (rw (first_paddr m₁, ◌>>=◌) refl))

  begun-IsMapping :
      (m : Pmap) → m.npages ≤ 65536 → suc e < m.npages → IsMapping end e 0x3bf (suc e) (begun m)
  begun-IsMapping m machine fits =
      let empty = λ (d : ℕ) (ne : d ≢ 0x3bf).
        let k = vpt-pdx in let z : (begun m).phys e d ≡ 0 = ground (arith) in z in
      record {
        machine = machine;
        next = refl;
        directory = omega arith;
        within = fits;
        below = λ d s p. absurd (omega (arith, empty d s));
        small = λ d s p. absurd (omega (arith, empty d s));
        other = λ d s p. absurd (omega (arith, empty d s));
        apart = λ d f s t ne p q. absurd (omega (arith, empty d s));
      }

  has_room : (d n : ℕ) (m : Pmap) → d < 1024 → n + 1025 ≤ m.npages + d → HasRoom end e 0x3bf d n m
  has_room d n m h k = (h, λ odd. omega arith, λ even. k)

  pub stack_page : (j : ℕ) → j * 4096 < kstksize → pdx ((0xefbf8 + j) * 4096) ≡ 0x3be
  stack_page j h = omega (arith, pdx-eq ((0xefbf8 + j) * 4096))

  pub kernel_page : (j : ℕ) → j < 65536 → pdx ((0xf0000 + j) * 4096) ≡ 0x3c0 + j / 1024
  kernel_page j h = omega (arith, pdx-eq ((0xf0000 + j) * 4096))

  map_stack :
      (n : ℕ) (m : Pmap)
      → IsMapping end e 0x3bf n m
      → n + 67 ≤ m.npages
      → b * 4096 + kstksize ≤ word
      → (m' : Pmap) × (boot_map_segment end e (0xefbf8 * 4096) kstksize (b * 4096) pte_w m
          ≡ some (tt, m'))
        × Segment end e 0x3bf 0xefbf8 kstksize b 0 n m m'
  map_stack n m inv fits stack_fits =
      let first = pdx-eq (0xefbf8 * 4096) in
      boot_map_segment-Segment end e 0x3bf 0xefbf8 kstksize b pte_w (omega arith) stack_fits
        (omega arith) (omega arith) (λ j h. omega (arith, stack_page j h)) n m inv
        (has_room (pdx (0xefbf8 * 4096)) n m (omega arith) (omega arith))

  map_kernel :
      (n : ℕ) (m : Pmap)
      → IsMapping end e 0x3bf n m
      → n + 65 ≤ m.npages
      → (m' : Pmap) × (boot_map_segment end e
            (0xf0000 * 4096)
            (0xffff_ffff - kernbase)
            (0 * 4096)
            pte_w
            m
          ≡ some (tt, m'))
        × Segment end e 0x3bf 0xf0000 (0xffff_ffff - kernbase) 0 0 n m m'
  map_kernel n m inv fits =
      let first = pdx-eq (0xf0000 * 4096) in
      boot_map_segment-Segment end e 0x3bf 0xf0000 (0xffff_ffff - kernbase) 0 pte_w (omega arith)
        (omega arith) (omega arith) (omega arith) (λ j h. omega (arith, kernel_page j)) n m inv
        (has_room (pdx (0xf0000 * 4096)) n m (omega arith) (omega arith))

  boot_segments-eq :
      (m m₁ m₂ : Pmap)
      → boot_map_segment end e (0xefbf8 * 4096) kstksize (b * 4096) pte_w m ≡ some (tt, m₁)
      → boot_map_segment end e (0xf0000 * 4096) (0xffff_ffff - kernbase) (0 * 4096) pte_w m₁
        ≡ some (tt, m₂)
      → boot_segments end bootstack mc146818_read e m ≡ some (tt, m₂)
  unfolding boot_segments
  boot_segments-eq m m₁ m₂ first second =
      rw (stack_at, stack_paddr m, ◌>>=◌) (rw (first, ◌>>=◌) second)

  -- After boot_segments the stack and the physical memory are mapped.
  pub record Mapping (m m' : Pmap) : Type 0 where
    pub used : ℕ
    pub mapping : IsMapping end e 0x3bf used m'
    pub pages : m'.npages ≡ m.npages
    pub stack : (j : ℕ) → j < 8 → Maps end e 0x3bf m' ((0xefbf8 + j) * 4096) (b + j)
    pub kernel : (j : ℕ) → j < 65536 → Maps end e 0x3bf m' ((0xf0000 + j) * 4096) j
    pub itself : m'.phys e 0x3bf ≡ m.phys e 0x3bf
    pub user : (d : ℕ) → d < 0x3be → m'.phys e d ≡ m.phys e d

  both-Mapping :
      (n : ℕ) (m m₁ m₂ : Pmap)
      → (s₁ : Segment end e 0x3bf 0xefbf8 kstksize b 0 n m m₁)
      → Segment end e 0x3bf 0xf0000 (0xffff_ffff - kernbase) 0 0 s₁.n' m₁ m₂
      → Mapping m m₂
  both-Mapping n m m₁ m₂ s₁ s₂ = record {
    used = s₂.n';
    mapping = s₂.mapping;
    pages = s₂.pages ∙ s₁.pages;
    stack = λ j h.
        s₂.others (0xefbf8 + j) (b + j) (omega arith) (inl (omega arith))
          (s₁.mapped j (omega arith) (omega arith));
    kernel = λ j h.
        let at = s₂.mapped j (omega arith) (omega arith) in
        let zero_add : 0 + j ≡ j = omega arith in rw zero_add at at;
    itself =
        s₂.untouched 0x3bf (λ j low high. omega (arith, kernel_page j))
        ∙ s₁.untouched 0x3bf (λ j low high. omega (arith, stack_page j));
    user = λ d h.
        s₂.untouched d (λ j low high. omega (arith, kernel_page j))
        ∙ s₁.untouched d (λ j low high. omega (arith, stack_page j));
  }

  pub boot_segments-Mapping :
      (m : Pmap)
      → m.npages ≤ 65536
      → e + 68 ≤ m.npages
      → b * 4096 + kstksize ≤ word
      → (m' : Pmap) × (boot_segments end bootstack mc146818_read e (begun m) ≡ some (tt, m'))
        × Mapping (begun m) m'
  boot_segments-Mapping m machine fits stack_fits =
      let (m₁, e₁, s₁) =
        map_stack (suc e) (begun m) (begun-IsMapping m machine (omega arith)) (omega arith)
          stack_fits in
      let left = s₁.room 0x3be (λ j h. omega (arith, stack_page j h)) (omega arith) in
      let (m₂, e₂, s₂) = map_kernel s₁.n' m₁ s₁.mapping (omega (arith, left)) in
      (m₂, boot_segments-eq (begun m) m₁ m₂ e₁ e₂, both-Mapping (suc e) (begun m) m₁ m₂ s₁ s₂)
