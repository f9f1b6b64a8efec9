-- ===== src/Pmap/Segment/Tests.antt =====
-- The boot-time mapping of a machine with 32 MB, and a segment of three pages.
use jos_vmx.Base.{
  ℕ, ◌↔◌, ◌≢◌, ◌/◌, ◌%◌, List, true, ◌+◌, ◌-◌, ◌*◌, ◌≤◌, ◌<◌, ◌≡◌, refl, none, some, [], ◌==◌,
  if◌then◌else◌, arith,
}
use jos_vmx.Mmu.{kernbase, pdx, vpt, kstksize}
use jos_vmx.Mmu.Address.{pdx-eq}
use jos_vmx.Pmap.{Slot, Pmap}
use jos_vmx.Pmap.Boot.{i386_mem_detect, page_init}
use jos_vmx.Pmap.Alloc.Chain.{has, IsFreeList}
use jos_vmx.Pmap.Check.{boot_mem_check}
use jos_vmx.Pmap.Check.Iff.{IsKernelSpace, boot_mem_check_iff}
use jos_vmx.Pmap.Segment.Memory.{page_init-boot_mem_init}
use jos_vmx.Pmap.Table.{check_va2pa}
use jos_vmx.Pmap.Segment.{boot_mem_init}
use jos_vmx.Pmap.Segment.Walk.{IsMapping, HasRoom}
use jos_vmx.Pmap.Segment.Startup.{boot_mem_init_lem}

-- The CMOS memory: 640 KB of base and 31744 KB of extended memory.
cmos : ℕ → ℕ
cmos r = if r == 0x15 then 0x80 else if r == 0x16 then 0x02 else if r == 0x18 then 0x7c else 0

cmos_pages : (i386_mem_detect cmos).0 ≡ 8192
unfolding i386_mem_detect cmos
cmos_pages = refl

abbrev at_reset : Pmap
at_reset = record {
  npages = 0;
  pages = λ p. record { le_next = none; le_prev = Slot.null; pp_ref = 0 };
  page_free_list = none;
  nextfree = 0;
  phys = λ f i. 0;
  invlpg = [];
}

boot_mem_init_lem_example :
    (m' : Pmap) × (boot_mem_init 0xf011_0000 0xf010_8000 cmos at_reset ≡ some (0x110, m'))
    × ((j : ℕ) → j < 65536 → check_va2pa 0x110 (kernbase + j * 4096) m' ≡ some (j * 4096, m'))
    × ((j : ℕ)
        → j < 8
        → check_va2pa 0x110 (vpt - kstksize + j * 4096) m' ≡ some ((0x108 + j) * 4096, m'))
    × (check_va2pa 0x110 0 m' ≡ some (0xffff_ffff, m'))
boot_mem_init_lem_example =
    boot_mem_init_lem 0xf011_0000 0xf010_8000 cmos 0x110 0x108 (omega arith) (omega arith)
      (omega arith) at_reset refl (omega (arith, cmos_pages)) (omega (arith, cmos_pages))
      (omega arith)

-- An empty directory in frame 5, with the frames from 6 on free.
abbrev empty : Pmap
empty = record at_reset { npages = 2000; nextfree = kernbase + 6 * 4096 }

empty-IsMapping : IsMapping 0 5 1023 6 empty
empty-IsMapping = record {
  machine = omega arith;
  next = refl;
  directory = omega arith;
  within = omega arith;
  below = λ d s p. absurd (omega arith);
  small = λ d s p. absurd (omega arith);
  other = λ d s p. absurd (omega arith);
  apart = λ d e s t ne p q. absurd (omega arith);
}

empty-HasRoom : HasRoom 0 5 1023 (pdx (0x401 * 4096)) 6 empty
empty-HasRoom =
    let d = pdx-eq (0x401 * 4096) in (omega arith, λ odd. absurd (omega arith), λ even. omega arith)

page_init-boot_mem_init_example :
    (m₁ m₂ : Pmap) × (xs : List ℕ) × (boot_mem_init 0xf011_0000 0xf010_8000 cmos at_reset
      ≡ some (0x110, m₁))
    × (page_init 0xf011_0000 m₁ ≡ some (tt, m₂))
    × IsFreeList m₂ xs
    × ((a : ℕ)
        → has a xs ≡ true
        → (0x110 < a)
          × ((d : ℕ) → d ≢ 0x3bf → m₁.phys 0x110 d % 2 ≡ 1 → m₁.phys 0x110 d / 4096 < a)
          × (m₁.nextfree ≤ kernbase + a * 4096))
    × ((a : ℕ)
        → a < (i386_mem_detect cmos).0
        → (160 ≤ a → 256 ≤ a)
        → m₁.nextfree ≤ kernbase + a * 4096
        → has a xs ≡ true)
page_init-boot_mem_init_example =
    page_init-boot_mem_init 0xf011_0000 0xf010_8000 cmos 0x110 0x108 (omega arith) (omega arith)
      (omega arith) at_reset refl (omega (arith, cmos_pages)) (omega (arith, cmos_pages))
      (omega arith)

boot_mem_check_iff_example :
    (boot_mem_check 5 0xf010_8000 at_reset ≡ some (tt, at_reset))
    ↔ IsKernelSpace 5 0xf010_8000 at_reset
boot_mem_check_iff_example = boot_mem_check_iff 5 0xf010_8000 at_reset (omega arith) (omega arith)
