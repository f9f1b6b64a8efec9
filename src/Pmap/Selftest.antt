-- ===== src/Pmap/Selftest.antt =====
-- page_check, the test of the allocator and the page tables that the kernel runs at boot. A failed
-- `assert` is a panic.
use jos_vmx.Base.{ℕ, ◌-◌, Option, none, some, Bool, true, false, not, ◌&&◌, ◌==◌, if◌then◌else◌}
use jos_vmx.Mmu.{word, pgsize, ptsize, pte_addr}
use jos_vmx.Pmap.{M, ◌>>=◌, ◌>>◌}
use jos_vmx.Pmap.FreeList.{list_init}
use jos_vmx.Pmap.Alloc.{page_alloc, page_free}
use jos_vmx.Pmap.Table.{page2pa, write, set_ref, check_va2pa, page_lookup, page_insert, page_remove}

unfoldable pub assert : Bool → M (Unit {0})
assert false m = none
assert true m = some (tt, m)

abbrev is_none {ℓ} : {A : Type ℓ} → Option A → Bool
is_none none = true
is_none (some a) = false

-- `assert(page_alloc(&pp) == 0)`
unfoldable pub allocated : M ℕ
allocated m = elim (page_alloc m) [
  | none ↦ none
  | some (none, m₁) ↦ none
  | some (some pp, m₁) ↦ some (pp, m₁)
]

-- `assert(page_alloc(&pp) == -E_NO_MEM)`
unfoldable pub no_memory : M (Unit {0})
unfolding assert
no_memory = page_alloc >>= λ pp. assert (is_none pp)

-- `assert(pp->pp_ref == ref)`
unfoldable pub has_ref : ℕ → ℕ → M (Unit {0})
unfolding assert
has_ref pp ref m = assert ((m.pages pp).pp_ref == ref) m

module _ (kern_pgdir : ℕ) where
  -- `assert(check_va2pa(kern_pgdir, va) == pa)`
  unfoldable pub maps_to : ℕ → ℕ → M (Unit {0})
  unfolding assert
  maps_to va pa = check_va2pa kern_pgdir va >>= λ found. assert (found == pa)

  -- `assert(PTE_ADDR(kern_pgdir[0]) == page2pa(pp0))`
  unfoldable pub first_table_is : ℕ → M (Unit {0})
  unfolding assert
  first_table_is pp0 m = assert (pte_addr (m.phys kern_pgdir 0) == page2pa pp0) m

  -- `assert(page_insert(kern_pgdir, pp, va, 0) == 0)`, or `< 0`
  unfoldable pub inserts : ℕ → ℕ → Bool → M (Unit {0})
  unfolding assert
  inserts pp va works =
      page_insert kern_pgdir pp va 0 >>= λ done. assert (if works then done else not done)

  unfoldable pub page_remove_at : ℕ → M (Unit {0})
  page_remove_at va = page_remove kern_pgdir va

  -- With no free page nothing can be mapped where there is no table.
  unfoldable pub check_without_memory : ℕ → M (Unit {0})
  unfolding assert no_memory inserts
  check_without_memory pp1 = do
    no_memory
    found ← page_lookup kern_pgdir 0
    assert (is_none found)
    inserts pp1 0 false

  unfoldable pub check_insertions : ℕ → ℕ → ℕ → M (Unit {0})
  unfolding inserts first_table_is maps_to has_ref no_memory
  check_insertions pp0 pp1 pp2 = do
    λ m. some (tt, page_free pp0 m)
    inserts pp1 0 true
    first_table_is pp0
    maps_to 0 (page2pa pp1)
    has_ref pp1 1
    has_ref pp0 1
    inserts pp2 pgsize true
    maps_to pgsize (page2pa pp2)
    has_ref pp2 1
    no_memory
    inserts pp2 pgsize true
    maps_to pgsize (page2pa pp2)
    has_ref pp2 1
    no_memory
    inserts pp0 ptsize false

  unfoldable pub check_replacement : ℕ → ℕ → M (Unit {0})
  unfolding inserts maps_to has_ref allocated assert
  check_replacement pp1 pp2 = do
    inserts pp1 pgsize true
    maps_to 0 (page2pa pp1)
    maps_to pgsize (page2pa pp1)
    has_ref pp1 2
    has_ref pp2 0
    pp ← allocated
    assert (pp == pp2)

  unfoldable pub check_removals : ℕ → ℕ → M (Unit {0})
  unfolding maps_to has_ref allocated assert no_memory page_remove_at
  check_removals pp1 pp2 = do
    page_remove_at 0
    maps_to 0 (word - 1)
    maps_to pgsize (page2pa pp1)
    has_ref pp1 1
    has_ref pp2 0
    page_remove_at pgsize
    maps_to 0 (word - 1)
    maps_to pgsize (word - 1)
    has_ref pp1 0
    has_ref pp2 0
    pp ← allocated
    assert (pp == pp1)
    no_memory

  -- The table is taken back, and the list of free pages is as it was.
  unfoldable pub give_back : Option ℕ → ℕ → ℕ → ℕ → M (Unit {0})
  unfolding first_table_is has_ref
  give_back fl pp0 pp1 pp2 = do
    first_table_is pp0
    λ m. some (tt, write kern_pgdir 0 0 m)
    has_ref pp0 1
    λ m. some (tt, set_ref pp0 0 m)
    λ m. some (tt, page_free pp2 (page_free pp1 (page_free pp0 (record m { page_free_list = fl }))))

  -- The pages are tested against NULL by their allocation.
  unfoldable pub page_check : M (Unit {0})
  unfolding allocated assert
  page_check = do
    pp0 ← allocated
    pp1 ← allocated
    pp2 ← allocated
    assert (not (pp1 == pp0) && (not (pp2 == pp1) && not (pp2 == pp0)))
    fl ← λ m. some (m.page_free_list, m)
    λ m. some (tt, list_init m)
    check_without_memory pp1
    check_insertions pp0 pp1 pp2
    check_replacement pp1 pp2
    check_removals pp1 pp2
    give_back fl pp0 pp1 pp2
