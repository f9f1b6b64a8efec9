-- ===== src/Mmu/Address.antt =====
-- The macros of inc/mmu.h as arithmetic, and what they promise together.
use jos_vmx.Base.{ℕ, ◌+◌, ◌*◌, ◌/◌, ◌%◌, ◌^◌, ◌≤◌, ◌<◌, ◌≡◌, bit_or, arith}
use jos_vmx.Base.Bits.{bit_and_mod, bit_and_high, bit_or_low}
use jos_vmx.Mmu.{word, pgsize, pgnum, pdx, ptx, pgoff, pte_addr, roundup}

pub pdx-eq : (la : ℕ) → pdx la ≡ la / 2 ^ 22 % 1024
unfolding pdx
pdx-eq la = bit_and_mod 10 (la / 2 ^ 22)

pub ptx-eq : (la : ℕ) → ptx la ≡ la / 2 ^ 12 % 1024
unfolding ptx
ptx-eq la = bit_and_mod 10 (la / 2 ^ 12)

pub pgoff-eq : (la : ℕ) → pgoff la ≡ la % 4096
unfolding pgoff
pgoff-eq la = bit_and_mod 12 la

pub pte_addr-eq : (pte : ℕ) → pte < word → pte_addr pte ≡ pte / 4096 * 4096
unfolding pte_addr
pte_addr-eq pte h =
    ground (arith, bit_and_high 12 (pte / 4096) (pte % 4096) 0xfffff, bit_and_mod 20 (pte / 4096))

-- A 32-bit linear address is made of its directory index, table index and offset, each in range.
pub address_fields :
    (la : ℕ)
    → la < word
    → (pdx la * 2 ^ 22 + ptx la * 2 ^ 12 + pgoff la ≡ la)
      × (pdx la < 1024)
      × (ptx la < 1024)
      × (pgoff la < 4096)
      × (pgnum la ≡ pdx la * 1024 + ptx la)
unfolding pgnum
address_fields la h = omega (arith, pdx-eq la, ptx-eq la, pgoff-eq la)

-- An entry made of a frame number and flag bits gives back its frame.
pub pte_addr-entry :
    (ppn flags : ℕ)
    → ppn < 2 ^ 20
    → flags < 4096
    → (pte_addr (bit_or (ppn * 2 ^ 12) flags) ≡ ppn * 2 ^ 12)
      × (pgnum (pte_addr (bit_or (ppn * 2 ^ 12) flags)) ≡ ppn)
unfolding pgnum
pte_addr-entry ppn flags h k =
    let e = bit_or_low 12 ppn flags k in
    rw (e, pte_addr-eq (ppn * 2 ^ 12 + flags) (omega arith)) (omega arith)

-- Rounding up gives the least page boundary that is not below the address, where it fits a word.
pub roundup-pgsize :
    (a : ℕ)
    → a + pgsize ≤ word
    → (a ≤ roundup a pgsize) × (roundup a pgsize < a + pgsize) × (roundup a pgsize % pgsize ≡ 0)
unfolding roundup
roundup-pgsize a h = omega arith

pub roundup_aligned : (a : ℕ) → a + pgsize ≤ word → a % pgsize ≡ 0 → roundup a pgsize ≡ a
unfolding roundup
roundup_aligned a h e = omega arith
