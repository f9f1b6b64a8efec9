-- ===== src/Pmap/Segment.antt =====
-- The mapping that kern/pmap.c sets up at boot: boot_pgdir_walk, boot_map_segment and
-- boot_mem_init. The page directory is the frame `pgdir`.
pub mod Entries
pub mod Walk
pub mod Map
pub mod Range
pub mod Kernel
pub mod Checked
pub mod Startup
pub mod Memory
mod Tests
use jos_vmx.Base.{
  ℕ, zero, suc, ◌+◌, ◌-◌, ◌*◌, ◌/◌, ◌%◌, ◌^◌, Option, none, some, Bool, true, false, ltb, ◌==◌,
  if◌then◌else◌, bit_and, bit_or,
}
use jos_vmx.Mmu.{word, pgsize, kernbase, vpt, kstksize, pte_p, pte_w, pgnum, pdx, ptx, pte_addr}
use jos_vmx.Pmap.{Pmap, Page, null, M, pure, ◌>>=◌, ◌>>◌}
use jos_vmx.Pmap.Boot.{paddr, boot_alloc, i386_mem_detect}
use jos_vmx.Pmap.Table.{frame, frame_at, write, clear_frame}
use jos_vmx.Pmap.Check.{boot_mem_check}

module _ (end pgdir : ℕ) where
  -- `&pte[PTX(la)]` in the table that the directory has for `la`.
  unfoldable pub boot_entry_of : ℕ → M (Option (ℕ × ℕ))
  boot_entry_of la m =
      (do t ← frame_at (pte_addr (m.phys pgdir (pdx la))); pure (some (t, ptx la))) m

  -- A null pointer from boot_alloc is passed on; PADDR panics below KERNBASE. The new table keeps
  -- what its frame held.
  unfoldable pub boot_install : ℕ → ℕ → ℕ → M (Option (ℕ × ℕ))
  unfolding boot_entry_of
  boot_install la create v m = if v == 0 then some (none, m) else elim (paddr v m) [
    | none ↦ none
    | some (pa, m₁) ↦
        boot_entry_of la (write pgdir (pdx la) (bit_or (bit_or (pte_addr pa) pte_p) create) m₁)
  ]

  unfoldable pub boot_pgdir_walk : ℕ → ℕ → M (Option (ℕ × ℕ))
  boot_pgdir_walk la create m =
      if bit_and (m.phys pgdir (pdx la)) pte_p == 0
      then if create == 0 then some (none, m) else elim (boot_alloc end pgsize m) [
        | none ↦ none
        | some (v, m₁) ↦ boot_install la create v m₁
      ]
      else boot_entry_of la m

  -- One round: a null pointer is not tested, and writing through it is a fault.
  unfoldable pub boot_map_page : ℕ → ℕ → ℕ → M (Unit {0})
  boot_map_page la pa perm m = elim (boot_pgdir_walk la (bit_or pte_p perm) m) [
    | none ↦ none
    | some (none, m₁) ↦ none
    | some (some (t, i), m₁) ↦ some (tt, write t i (bit_or (bit_or pa pte_p) perm) m₁)
  ]

  -- The loop from `i` on; without fuel it would go on.
  unfoldable pub boot_map_from : ℕ → ℕ → ℕ → ℕ → ℕ → ℕ → M (Unit {0})
  boot_map_from zero la size pa perm i m = none
  boot_map_from (suc fuel) la size pa perm i m = elim (ltb i size) [
    | false ↦ some (tt, m)
    | true ↦ elim (boot_map_page ((la + i) % word) ((pa + i) % word) perm m) [
      | none ↦ none
      | some (_, m₁) ↦ boot_map_from fuel la size pa perm ((i + pgsize) % word) m₁
    ]
  ]

  -- A page takes one round, and the last test another.
  unfoldable pub boot_map_segment : ℕ → ℕ → ℕ → ℕ → M (Unit {0})
  boot_map_segment la size pa perm = boot_map_from (size / pgsize + 2) la size pa perm 0

-- `memset(pages, 0, npages * sizeof(struct Page))`
unfoldable pub clear_pages : Pmap → Pmap
clear_pages m = record m {
  pages = λ i.
      if ltb i m.npages then record { le_next = none; le_prev = null; pp_ref = 0 } else m.pages i;
}

module _ (end bootstack : ℕ) (mc146818_read : ℕ → ℕ) where
  -- The page directory, with itself as a page table.
  unfoldable pub boot_directory : M ℕ
  boot_directory = do
    v ← boot_alloc end pgsize
    pgdir ← frame v
    pa ← paddr v
    λ m. some (pgdir, write pgdir (pdx vpt) (bit_or (bit_or pa pte_w) pte_p) (clear_frame pgdir m))

  unfoldable pub boot_segments : ℕ → M (Unit {0})
  boot_segments pgdir = do
    stack ← paddr bootstack
    boot_map_segment end pgdir (vpt - kstksize) kstksize stack pte_w
    boot_map_segment end pgdir kernbase (0xffff_ffff - kernbase) 0 pte_w

  -- `pages`, the test of the mapping, and the directory's first entry, which is there only while paging is turned on.
  unfoldable pub boot_pages : ℕ → M (Unit {0})
  unfolding clear_pages
  boot_pages pgdir m = elim (boot_alloc end (m.npages * 12 % word) m) [
    | none ↦ none
    | some (_, m₁) ↦ elim (boot_mem_check pgdir bootstack (clear_pages m₁)) [
      | none ↦ none
      | some (_, m₂) ↦ some (tt, write pgdir 0 0 (write pgdir 0 (m₂.phys pgdir (pdx kernbase)) m₂))
    ]
  ]

  -- The loads of the control and segment registers are left out.
  -- The result is `kern_pgdir`.
  unfoldable pub boot_mem_init : M ℕ
  boot_mem_init m =
      (do pgdir ← boot_directory; boot_segments pgdir; boot_pages pgdir; pure pgdir)
        (record m { npages = (i386_mem_detect mc146818_read).0 })
