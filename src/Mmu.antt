-- ===== src/Mmu.antt =====
-- The paging macros and constants of inc/mmu.h and inc/memlayout.h, and the rounding macros of
-- inc/types.h, over 32-bit addresses kept as natural numbers.
use jos_vmx.Base.{ℕ, ◌+◌, ◌*◌, ◌-◌, ◌/◌, ◌%◌, ◌^◌, bit_and}
pub mod Address
pub mod Segment

abbrev pub word : ℕ
word = 2 ^ 32

abbrev pub pgsize : ℕ
pgsize = 4096

abbrev pub kernbase : ℕ
kernbase = 0xf0000000

abbrev pub ptsize : ℕ
ptsize = 0x40_0000

abbrev pub vpt : ℕ
vpt = kernbase - ptsize

abbrev pub kstksize : ℕ
kstksize = 8 * pgsize

abbrev pub iophysmem : ℕ
iophysmem = 0x0a0000

abbrev pub extphysmem : ℕ
extphysmem = 0x100000

abbrev pub pte_p : ℕ
pte_p = 0x001

abbrev pub pte_w : ℕ
pte_w = 0x002

abbrev pub pte_u : ℕ
pte_u = 0x004

-- PGNUM, PDX, PTX and PGOFF take a linear address apart.
unfoldable pub pgnum : ℕ → ℕ
pgnum la = la / 2 ^ 12

unfoldable pub pdx : ℕ → ℕ
pdx la = bit_and (la / 2 ^ 22) 0x3ff

unfoldable pub ptx : ℕ → ℕ
ptx la = bit_and (la / 2 ^ 12) 0x3ff

unfoldable pub pgoff : ℕ → ℕ
pgoff la = bit_and la 0xfff

-- `(physaddr_t) pte & ~0xFFF`
unfoldable pub pte_addr : ℕ → ℕ
pte_addr pte = bit_and pte 0xfffff000

unfoldable pub rounddown : ℕ → ℕ → ℕ
rounddown a n = a - a % n

-- The sum is computed in `uint32_t`.
unfoldable pub roundup : ℕ → ℕ → ℕ
unfolding rounddown
roundup a n = rounddown ((a + n - 1) % word) n
