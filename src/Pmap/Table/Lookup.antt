-- ===== src/Pmap/Table/Lookup.antt =====
-- page_lookup, page_remove and check_va2pa where the directory has a table.
use jos_vmx.Base.{ℕ, ◌+◌, ◌*◌, ◌%◌, ◌^◌, ◌<◌, ◌≡◌, ◌≢◌, refl, some, arith, bit_or, bit_and}
use jos_vmx.Base.Bits.{bit_or_low, bit_or_split, bit_or-lt, bit_or_step}
use jos_vmx.Mmu.{pte_p, pgnum, ptx, pte_addr}
use jos_vmx.Mmu.Address.{pte_addr-eq}
use jos_vmx.Pmap.{Pmap}
use jos_vmx.Pmap.Alloc.{page_decref}
use jos_vmx.Pmap.Table.{write, tlb_invalidate, page_lookup, page_remove, check_va2pa, page2pa}
use jos_vmx.Pmap.Table.Walk.{
  IsMachine, HasTable, walk_present, frame_at-eq, bit_and-pte_p, page2pa-eq,
}

-- The entry that maps the page `pp` with the flags `perm`, as `page_insert` writes it.
abbrev pub entry : ℕ → ℕ → ℕ
entry pp perm = bit_or (bit_or (page2pa pp) pte_p) perm

-- The page that an entry names.
abbrev pub page_of : ℕ → ℕ
page_of e = pgnum (pte_addr e)

bit_or-one-odd : (perm : ℕ) → bit_or 1 perm % 2 ≡ 1
bit_or-one-odd perm = omega (arith, bit_or_step 1 perm)

module _ (m : Pmap) (pp perm : ℕ) (big : IsMachine m) (h : pp < m.npages)
    (flags : perm < 4096) where
  entry-eq : entry pp perm ≡ pp * 2 ^ 12 + bit_or 1 perm
  entry-eq =
      rw
        (
          page2pa-eq m pp big h,
          bit_or_low 12 pp 1 (omega arith),
          bit_or_split 12 pp 1 perm (omega arith) flags,
        )
        refl

  -- An entry is present, and names its page.
  pub entry_fields :
      (bit_and (entry pp perm) pte_p ≡ 1)
      × (pte_addr (entry pp perm) ≡ pp * 2 ^ 12)
      × (page_of (entry pp perm) ≡ pp)
      × (entry pp perm ≢ 0)
  unfolding pgnum
  entry_fields =
      let lt : bit_or 1 perm < 4096 = bit_or-lt 12 1 perm (omega arith) flags in
      let odd = bit_or-one-odd perm in
      rw
        (
          bit_and-pte_p (entry pp perm),
          entry-eq,
          pte_addr-eq (pp * 2 ^ 12 + bit_or 1 perm) (omega arith),
        )
        (omega arith)

module _ (m : Pmap) (pgdir va t : ℕ) (big : IsMachine m) (v : HasTable m pgdir va t) where
  pub lookup_present :
      page_lookup pgdir va m ≡ some (some (page_of (m.phys t (ptx va)), (t, ptx va)), m)
  unfolding page_lookup
  lookup_present = rw (walk_present m pgdir va t 0 big v, page_lookup)

  pub remove_present :
      page_remove pgdir va m
      ≡ some
          (tt, tlb_invalidate va (write t (ptx va) 0 (page_decref (page_of (m.phys t (ptx va))) m)))
  unfolding page_remove
  remove_present = rw (lookup_present, page_remove)

  pub va2pa_present :
      bit_and (m.phys t (ptx va)) pte_p ≡ 1
      → check_va2pa pgdir va m ≡ some (pte_addr (m.phys t (ptx va)), m)
  unfolding check_va2pa
  va2pa_present e = ground (arith, v.present, v.table, frame_at-eq m t big v.inside)
