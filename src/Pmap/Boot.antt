-- ===== src/Pmap/Boot.antt =====
-- The boot-time half of kern/pmap.c: i386_mem_detect, boot_alloc and page_init.
pub mod Init
pub mod Rounded
use jos_vmx.Base.{
  ℕ, zero, suc, ◌+◌, ◌-◌, ◌*◌, ◌/◌, ◌%◌, ◌^◌, Option, none, some, Bool, ◌&&◌, ltb, leb, ◌==◌,
  if◌then◌else◌, bit_or,
}
use jos_vmx.Mmu.{word, pgsize, kernbase, iophysmem, extphysmem, pgnum, roundup}
use jos_vmx.Pmap.{Pmap, M, pure, ◌>>=◌, ◌>>◌, set_page}
use jos_vmx.Pmap.FreeList.{list_init, list_insert_head}

-- PADDR panics below KERNBASE.
unfoldable pub paddr : ℕ → M ℕ
paddr kva m = if ltb kva kernbase then none else some (kva - kernbase, m)

-- KADDR panics on a frame that the machine does not have.
unfoldable pub kaddr : ℕ → M ℕ
unfolding pgnum
kaddr pa m = if leb m.npages (pgnum pa) then none else some ((pa + kernbase) % word, m)

-- `nvram_read` joins two bytes of the CMOS memory, which `mc146818_read` reads by register.
unfoldable pub nvram_read : (ℕ → ℕ) → ℕ → ℕ
nvram_read mc146818_read r = bit_or (mc146818_read r) (mc146818_read (r + 1) * 2 ^ 8)

-- NVRAM_BASELO and NVRAM_EXTLO of kern/kclock.h
abbrev pub nvram_baselo : ℕ
nvram_baselo = 0xe + 7

abbrev pub nvram_extlo : ℕ
nvram_extlo = 0xe + 9

-- `npages` and `n_base_pages`
unfoldable pub i386_mem_detect : (ℕ → ℕ) → ℕ × ℕ
unfolding nvram_read
i386_mem_detect mc146818_read =
    let n_base_pages = nvram_read mc146818_read nvram_baselo * 1024 / pgsize in
    let n_extended_pages = nvram_read mc146818_read nvram_extlo * 1024 / pgsize in
    if n_extended_pages == 0
    then (n_base_pages, n_base_pages)
    else (extphysmem / pgsize + n_extended_pages, n_base_pages)

insert_unless : Bool → ℕ → M (Unit {0})
insert_unless in_use i m = if in_use then some (tt, m) else some (tt, list_insert_head i m)

-- `end`, the first address past the kernel image, is chosen by the linker.
module _ (end : ℕ) where
  unfoldable pub boot_alloc : ℕ → M ℕ
  boot_alloc n m =
      let start = if m.nextfree == 0 then roundup end pgsize else m.nextfree in
      let v = roundup start pgsize in some (v, record m { nextfree = (v + n) % word })

  -- The last tests of the loop of `page_init`, and the insertion. `i >= PGNUM(PADDR(KERNBASE))`
  -- always passes, so `boot_alloc(0)` is always called.
  unfoldable pub insert_if_free : ℕ → M (Unit {0})
  unfolding pgnum insert_unless
  insert_if_free i = do
    base ← paddr kernbase
    v ← boot_alloc 0
    next ← paddr v
    insert_unless (leb (pgnum base) i && ltb i (pgnum next)) i

  -- One round of that loop.
  unfoldable pub page_init_step : ℕ → M (Unit {0})
  unfolding pgnum
  page_init_step i m =
      let m₁ = set_page i (record (m.pages i) { pp_ref = 0 }) m in
      if i == 0
      then some (tt, m₁)
      else if leb (pgnum iophysmem) i && ltb i (pgnum extphysmem)
      then some (tt, m₁)
      else insert_if_free i m₁

  unfoldable pub page_init_from : ℕ → ℕ → M (Unit {0})
  page_init_from zero i = pure tt
  page_init_from (suc left) i = do page_init_step i; page_init_from left (i + 1)

  unfoldable pub page_init : M (Unit {0})
  unfolding page_init_from list_init
  page_init m = page_init_from m.npages 0 (list_init m)
