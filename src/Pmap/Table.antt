-- ===== src/Pmap/Table.antt =====
-- The page-table half of kern/pmap.c: page2pa, pgdir_walk, page_insert, page_lookup, page_remove,
-- tlb_invalidate, and check_va2pa. A page directory or table is the frame that holds it, an entry the
-- frame and the index in it.
pub mod Walk
pub mod Lookup
pub mod Insert
pub mod Remove
use jos_vmx.Base.{
  ℕ, zero, suc, ◌+◌, ◌-◌, ◌*◌, ◌%◌, ◌^◌, Option, none, some, Bool, true, false, List, ◌∷◌, ltb,
  ◌==◌, if◌then◌else◌, update, bit_and, bit_or,
}
use jos_vmx.Mmu.{word, pgsize, kernbase, pte_p, pte_w, pte_u, pgnum, pdx, ptx, pte_addr}
use jos_vmx.Pmap.{Pmap, M, pure, ◌>>=◌, ◌>>◌, set_page}
use jos_vmx.Pmap.Alloc.{page_alloc, page_decref}
use jos_vmx.Pmap.Boot.{kaddr, paddr, boot_alloc}

unfoldable pub page2pa : ℕ → ℕ
page2pa pp = pp * 2 ^ 12 % word

-- The frame behind a kernel address; nothing is mapped below KERNBASE.
unfoldable pub frame : ℕ → M ℕ
unfolding pgnum
frame kva m = if ltb kva kernbase then none else some (pgnum (kva - kernbase), m)

-- `KADDR(pa)` as a pointer to the frame at `pa`
unfoldable pub frame_at : ℕ → M ℕ
frame_at pa = do kva ← kaddr pa; frame kva

abbrev pub write : ℕ → ℕ → ℕ → Pmap → Pmap
write f i v m = record m { phys = update m.phys f (update (m.phys f) i v) }

-- `memset(page, 0, PGSIZE)`
abbrev pub clear_frame : ℕ → Pmap → Pmap
clear_frame f m = record m { phys = update m.phys f (λ i. 0) }

abbrev pub set_ref : ℕ → ℕ → Pmap → Pmap
set_ref p r m = set_page p (record (m.pages p) { pp_ref = r }) m

-- The last lines of `pgdir_walk`.
unfoldable pub entry_of : ℕ → ℕ → M (Option (ℕ × ℕ))
entry_of pgdir va m =
    (do t ← frame_at (pte_addr (m.phys pgdir (pdx va))); pure (some (t, ptx va))) m

-- The new table that `pgdir_walk` installs.
unfoldable pub install : ℕ → ℕ → ℕ → M (Unit {0})
install pgdir va pp m =
    let entry = bit_or (bit_or (bit_or (page2pa pp) pte_u) pte_w) pte_p in
    let m₁ = set_ref pp 1 (write pgdir (pdx va) entry m) in
    elim (frame_at (page2pa pp) m₁) [ none ↦ none | some (f, m₂) ↦ some (tt, clear_frame f m₂) ]

unfoldable pub pgdir_walk : ℕ → ℕ → ℕ → M (Option (ℕ × ℕ))
pgdir_walk pgdir va create m =
    if m.phys pgdir (pdx va) == 0
    then if create == 0 then some (none, m) else elim (page_alloc m) [
      | none ↦ none
      | some (none, m₁) ↦ some (none, m₁)
      | some (some pp, m₁) ↦ (do install pgdir va pp; entry_of pgdir va) m₁
    ]
    else entry_of pgdir va m

-- The physical address that the hardware finds for `va`, or `~0`.
unfoldable pub check_va2pa : ℕ → ℕ → M ℕ
check_va2pa pgdir va m =
    if bit_and (m.phys pgdir (pdx va)) pte_p == 0
    then some (word - 1, m)
    else elim (frame_at (pte_addr (m.phys pgdir (pdx va))) m) [
      | none ↦ none
      | some (t, m₁) ↦
          if bit_and (m₁.phys t (ptx va)) pte_p == 0
          then some (word - 1, m₁)
          else some (pte_addr (m₁.phys t (ptx va)), m₁)
    ]

-- The page and its entry, which goes out through `pte_store`.
unfoldable pub page_lookup : ℕ → ℕ → M (Option (ℕ × (ℕ × ℕ)))
unfolding pgnum
page_lookup pgdir va m = elim (pgdir_walk pgdir va 0 m) [
  | none ↦ none
  | some (none, m₁) ↦ some (none, m₁)
  | some (some (t, i), m₁) ↦ some (some (pgnum (pte_addr (m₁.phys t i)), (t, i)), m₁)
]

unfoldable pub tlb_invalidate : ℕ → Pmap → Pmap
tlb_invalidate va m = record m { invlpg = va ∷ m.invlpg }

unfoldable pub page_remove : ℕ → ℕ → M (Unit {0})
unfolding tlb_invalidate
page_remove pgdir va m = elim (page_lookup pgdir va m) [
  | none ↦ none
  | some (none, m₁) ↦ some (tt, m₁)
  | some (some (pp, (t, i)), m₁) ↦ some (tt, tlb_invalidate va (write t i 0 (page_decref pp m₁)))
]

-- `pp->pp_ref++` in `uint16_t`
abbrev pub incref : ℕ → Pmap → Pmap
incref pp m = set_ref pp (((m.pages pp).pp_ref + 1) % 2 ^ 16) m

-- `true` for 0, `false` for `-E_NO_MEM`. The test `(*pte && PTE_P) != 0` is a logical and: it
-- passes if any bit of the entry is set.
unfoldable pub page_insert : ℕ → ℕ → ℕ → ℕ → M Bool
page_insert pgdir pp va perm m = elim (pgdir_walk pgdir va (bit_or perm pte_p) m) [
  | none ↦ none
  | some (none, m₁) ↦ some (false, m₁)
  | some (some (t, i), m₁) ↦
      let m₂ = incref pp m₁ in
      let entry = bit_or (bit_or (page2pa pp) pte_p) perm in
      if m₂.phys t i == 0 then some (true, write t i entry m₂) else elim (page_remove pgdir va m₂) [
        | none ↦ none
        | some (_, m₃) ↦ some (true, write t i entry m₃)
      ]
]
