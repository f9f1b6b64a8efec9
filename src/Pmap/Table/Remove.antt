-- ===== src/Pmap/Table/Remove.antt =====
-- page_remove: where no table exists, at a mapped page, and at an address whose table has no entry.
use jos_vmx.Base.{
  ℕ, ◌+◌, ◌^◌, ◌<◌, ◌≡◌, ◌≢◌, ◌⊎◌, refl, some, none, false, List, ◌∷◌, arith, ◌==◌, if◌then◌else◌,
  ◌-◌, ap, ◌∙◌,
}
use jos_vmx.Mmu.{word, pgnum, pdx, ptx, pte_addr}
use jos_vmx.Pmap.{Pmap}
use jos_vmx.Pmap.Alloc.{page_decref}
use jos_vmx.Pmap.Alloc.Chain.{has, IsFreeList}
use jos_vmx.Pmap.Alloc.Decref.{
  page_decref-IsFreeList, page_decref-phys, page_decref-npages, page_decref-invlpg,
  page_decref_zero,
}
use jos_vmx.Pmap.Table.{write, tlb_invalidate, page_lookup, page_remove, check_va2pa}
use jos_vmx.Pmap.Table.Walk.{IsMachine, HasTable, walk_missing, frame_at-eq}
use jos_vmx.Pmap.Table.Lookup.{page_of, lookup_present, remove_present}

-- Where the directory has no table for `va`, `page_lookup` finds no page and `page_remove` does
-- nothing.
pub remove_no_table :
    (m : Pmap) (pgdir va : ℕ)
    → m.phys pgdir (pdx va) ≡ 0
    → (page_lookup pgdir va m ≡ some (none, m)) × (page_remove pgdir va m ≡ some (tt, m))
unfolding page_lookup page_remove
remove_no_table m pgdir va e = ground (arith, walk_missing m pgdir va e)

page_of-zero : page_of 0 ≡ 0
unfolding pgnum pte_addr
page_of-zero = refl

-- The state that `page_remove` leaves after it dropped `q`.
unmapped : Pmap → (va t q : ℕ) → Pmap
unfolding tlb_invalidate
unmapped m va t q = tlb_invalidate va (write t (ptx va) 0 (page_decref q m))

module _ (m : Pmap) (pgdir va t : ℕ) (big : IsMachine m) (v : HasTable m pgdir va t)
    (apart : t ≢ pgdir) where
  unmapped-va2pa :
      (q : ℕ) → check_va2pa pgdir va (unmapped m va t q) ≡ some (word - 1, unmapped m va t q)
  unfolding check_va2pa unmapped
  unmapped-va2pa q = ground (
    arith,
    v.present,
    v.table,
    page_decref-phys q m,
    frame_at-eq (unmapped m va t q) t (omega (arith, page_decref-npages q m))
        (omega (arith, v.inside, page_decref-npages q m)),
  )

  remove_names :
      (q : ℕ)
      → page_of (m.phys t (ptx va)) ≡ q
      → page_remove pgdir va m ≡ some (tt, unmapped m va t q)
  unfolding unmapped
  remove_names q names =
      remove_present m pgdir va t big v ∙ ap (λ a. some (tt, unmapped m va t a)) names

  -- In a machine with at most 256 MB, where the directory has a table for `va` apart from itself:
  -- `page_remove` of a mapped, existing page `q` that is not free, with a 16-bit count above 0, clears its entry, so that the hardware finds nothing
  -- there, and no other entry; it lowers the page's count by one and no other's, frees the page
  -- if that was the last reference, and invalidates the TLB entry of `va`.
  pub page_remove_mapped :
      (q : ℕ) (xs : List ℕ)
      → page_of (m.phys t (ptx va)) ≡ q
      → IsFreeList m xs
      → has q xs ≡ false
      → q < m.npages
      → 0 < (m.pages q).pp_ref
      → (m.pages q).pp_ref < 2 ^ 16
      → (m' : Pmap) × (page_remove pgdir va m ≡ some (tt, m'))
        × (check_va2pa pgdir va m' ≡ some (word - 1, m'))
        × ((f i : ℕ) → (f ≢ t) ⊎ (i ≢ ptx va) → m'.phys f i ≡ m.phys f i)
        × IsFreeList m' (if (m.pages q).pp_ref == 1 then q ∷ xs else xs)
        × ((m'.pages q).pp_ref + 1 ≡ (m.pages q).pp_ref)
        × ((a : ℕ) → q ≢ a → (m'.pages a).pp_ref ≡ (m.pages a).pp_ref)
        × (m'.invlpg ≡ va ∷ m.invlpg)
  unfolding unmapped
  page_remove_mapped q xs names free busy inside pos small =
      let d = page_decref-IsFreeList q m xs free busy inside pos small in
      (
        unmapped m va t q,
        remove_names q names,
        unmapped-va2pa q,
        λ f i o. ground (arith, page_decref-phys q m),
        record { chain = d.0.chain; inside = d.0.inside },
        d.1,
        d.2,
        ap (λ l. va ∷ l) (page_decref-invlpg q m),
      )

  -- In a machine with at most 256 MB, where the table for `va` exists apart from the directory and its
  -- entry is empty, `page_lookup` reports page 0 as mapped, and `page_remove` takes a reference from page 0: from a count of 0 it goes to 65535.
  pub remove_empty_entry :
      m.phys t (ptx va) ≡ 0
      → (m.pages 0).pp_ref ≡ 0
      → (page_lookup pgdir va m ≡ some (some (0, (t, ptx va)), m))
        × ((m' : Pmap) × (page_remove pgdir va m ≡ some (tt, m')) × ((m'.pages 0).pp_ref ≡ 65535))
  unfolding unmapped
  remove_empty_entry e z =
      let names : page_of (m.phys t (ptx va)) ≡ 0 = ap page_of e ∙ page_of-zero in
      (
        lookup_present m pgdir va t big v ∙ ap (λ a. some (some (a, (t, ptx va)), m)) names,
        (unmapped m va t 0, remove_names 0 names, page_decref_zero 0 m z),
      )
