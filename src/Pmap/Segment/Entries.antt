-- ===== src/Pmap/Segment/Entries.antt =====
-- The bits of an entry, and the facts of the boot allocator and of a present table that the walk
-- uses.
use jos_vmx.Base.{ℕ, suc, ◌+◌, ◌*◌, ◌/◌, ◌%◌, ◌^◌, ◌<◌, ◌≡◌, refl, some, arith, bit_or}
use jos_vmx.Base.Bits.{bit_or_low, bit_or_split, bit_or-lt, bit_or_step}
use jos_vmx.Mmu.{word, pgsize, kernbase, pte_p, pdx, ptx, pte_addr, roundup}
use jos_vmx.Mmu.Address.{pte_addr-eq}
use jos_vmx.Pmap.{Pmap, ◌>>=◌}
use jos_vmx.Pmap.Boot.{boot_alloc}
use jos_vmx.Pmap.Table.Walk.{IsMachine, frame_at-eq}
use jos_vmx.Pmap.Segment.{boot_entry_of}

-- `pa | PTE_P | flags`
abbrev pub entry : ℕ → ℕ → ℕ
entry pa flags = bit_or (bit_or pa pte_p) flags

odd_or : (x : ℕ) → bit_or 1 x % 2 ≡ 1
odd_or x = ground (arith, bit_or_step 1 x)

-- An entry is present, names its frame, and fits in a word.
pub record IsEntry (f x : ℕ) : Type 0 where
  pub present : x % 2 ≡ 1
  pub names : x / 4096 ≡ f
  pub fits : x < word

pub entry-IsEntry : (f flags : ℕ) → f < 2 ^ 20 → flags < 4096 → IsEntry f (entry (f * 4096) flags)
entry-IsEntry f flags h k =
    let low = bit_or_low 12 f 1 (omega arith) in
    let split = bit_or_split 12 f 1 flags (omega arith) k in
    let small = bit_or-lt 12 1 flags (omega arith) k in
    let all : entry (f * 4096) flags ≡ f * 4096 + bit_or 1 flags = rw low split in
    rw all
      (record { present = omega (arith, odd_or flags); names = omega arith; fits = omega arith })

module _ (end : ℕ) where
  pub boot_alloc_page :
      (n : ℕ) (m : Pmap)
      → m.nextfree ≡ kernbase + n * 4096
      → n < 65535
      → boot_alloc end pgsize m
        ≡ some (kernbase + n * 4096, record m { nextfree = kernbase + suc n * 4096 })
  unfolding boot_alloc roundup
  boot_alloc_page n m e h = ground arith

  pub boot_entry_of-eq :
      (pgdir la f : ℕ) (m : Pmap)
      → IsMachine m
      → IsEntry f (m.phys pgdir (pdx la))
      → f < m.npages
      → boot_entry_of end pgdir la m ≡ some (some (f, ptx la), m)
  unfolding boot_entry_of
  boot_entry_of-eq pgdir la f m big v h =
      let at : pte_addr (m.phys pgdir (pdx la)) ≡ f * 2 ^ 12 =
        omega (arith, pte_addr-eq (m.phys pgdir (pdx la)) v.fits, v.names) in
      rw (at, frame_at-eq m f big h, ◌>>=◌) refl
