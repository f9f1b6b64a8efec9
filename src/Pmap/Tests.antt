-- ===== src/Pmap/Tests.antt =====
-- The laws of the page allocator and the page tables at a machine with eight frames: 1 and 2 are
-- free, 3 is mapped at 0x1000 and 0x2000, 4 is in use, 5 holds the directory and 6 its first table.
use jos_vmx.Base.{ℕ, ◌+◌, ◌≡◌, ◌≢◌, ◌⊎◌, refl, Option, none, some, true, [], ◌∷◌, arith, update}
use jos_vmx.Mmu.{pgnum, pdx, ptx, pte_addr}
use jos_vmx.Pmap.{Slot, lh_first, le_next_of, Page, Pmap}
use jos_vmx.Pmap.FreeList.{list_init, list_insert_head, list_remove}
use jos_vmx.Pmap.Boot.{kaddr}
use jos_vmx.Pmap.Selftest.{
  page_check, allocated, check_without_memory, check_insertions, check_replacement, check_removals,
  give_back, assert, no_memory, has_ref, maps_to, first_table_is, inserts, page_remove_at,
}
use jos_vmx.Pmap.Alloc.{page_alloc, page_clear, page_free, page_decref}
use jos_vmx.Pmap.Alloc.Chain.{IsFreeList}
use jos_vmx.Pmap.Alloc.Laws.{Allocates, page_alloc-Allocates, page_free-IsFreeList}
use jos_vmx.Pmap.Alloc.Decref.{page_decref-IsFreeList}
use jos_vmx.Pmap.Table.{
  pgdir_walk, page_insert, page_lookup, page_remove, check_va2pa, entry_of, install, frame_at,
  frame, page2pa, tlb_invalidate,
}
use jos_vmx.Pmap.Table.Walk.{HasTable, Created, walk_create}
use jos_vmx.Pmap.Table.Insert.{Maps, page_insert_fresh, page_insert_replace, page_insert_same}
use jos_vmx.Pmap.Table.Remove.{page_remove_mapped, remove_empty_entry}

abbrev page : Option ℕ → Slot → ℕ → Page
page next prev ref = record { le_next = next; le_prev = prev; pp_ref = ref }

abbrev frames : ℕ → Page
frames =
    update
      (update
        (update (update (λ p. page none Slot.null 0) 1 (page (some 2) lh_first 0)) 2
          (page none (le_next_of 1) 0))
        3 (page none Slot.null 2))
      4 (page none Slot.null 1)

abbrev memory : ℕ → ℕ → ℕ
memory =
    update (update (λ f i. 0) 5 (update (λ i. 0) 0 0x6007)) 6
      (update (update (λ i. 0) 1 0x3003) 2 0x3003)

abbrev sample : Pmap
sample = record {
  npages = 8;
  pages = frames;
  page_free_list = some 1;
  nextfree = 0;
  phys = memory;
  invlpg = [];
}

sample-IsFreeList : IsFreeList sample (1 ∷ 2 ∷ [])
sample-IsFreeList = record {
  chain = (refl, refl, refl, refl, (refl, refl, refl, refl, refl));
  inside = omega arith;
}

sample-HasTable : (va : ℕ) → pdx va ≡ 0 → HasTable sample 5 va 6
unfolding pte_addr
sample-HasTable va e = record { present = rw e refl; table = rw e refl; inside = omega arith }

page_alloc-Allocates_example : Allocates sample (1 ∷ 2 ∷ [])
page_alloc-Allocates_example = page_alloc-Allocates sample (1 ∷ 2 ∷ []) sample-IsFreeList

page_free-IsFreeList_example : IsFreeList (page_free 6 sample) (6 ∷ 1 ∷ 2 ∷ [])
page_free-IsFreeList_example =
    page_free-IsFreeList 6 sample (1 ∷ 2 ∷ []) sample-IsFreeList refl refl (omega arith)

page_decref-IsFreeList_example :
    IsFreeList (page_decref 4 sample) (4 ∷ 1 ∷ 2 ∷ [])
    × (((page_decref 4 sample).pages 4).pp_ref + 1 ≡ 1)
    × ((a : ℕ) → 4 ≢ a → ((page_decref 4 sample).pages a).pp_ref ≡ (frames a).pp_ref)
page_decref-IsFreeList_example =
    page_decref-IsFreeList 4 sample (1 ∷ 2 ∷ []) sample-IsFreeList refl (omega arith) (omega arith)
      (omega arith)

-- A machine with 2 MB whose kernel ends at frame 300.
abbrev booting : Pmap
booting = record sample { npages = 512; nextfree = 0xf012c000 }

walk_create_example :
    (m' : Pmap) × (pgdir_walk 5 0x400000 1 sample ≡ some (some (1, ptx 0x400000), m'))
    × Created sample m' 5 0x400000 1 (2 ∷ [])
unfolding pdx
walk_create_example =
    walk_create sample 5 0x400000 1 1 (2 ∷ []) (omega arith) (omega arith) refl (omega arith)
      sample-IsFreeList

page_insert_fresh_example :
    (m' : Pmap) × (page_insert 5 4 0x5000 2 sample ≡ some (true, m'))
    × Maps sample m' 5 0x5000 6 4
    × IsFreeList m' (1 ∷ 2 ∷ [])
    × ((m'.pages 4).pp_ref ≡ 2)
    × ((a : ℕ) → 4 ≢ a → (m'.pages a).pp_ref ≡ (frames a).pp_ref)
    × (m'.invlpg ≡ [])
unfolding pdx ptx
page_insert_fresh_example =
    page_insert_fresh sample 5 0x5000 6 4 2 (1 ∷ 2 ∷ []) (omega arith) (sample-HasTable 0x5000 refl)
      (omega arith) (omega arith) (omega arith) sample-IsFreeList refl (omega arith) refl

page_insert_replace_example :
    (m' : Pmap) × (page_insert 5 4 0x1000 2 sample ≡ some (true, m'))
    × Maps sample m' 5 0x1000 6 4
    × IsFreeList m' (1 ∷ 2 ∷ [])
    × ((m'.pages 4).pp_ref ≡ 2)
    × ((m'.pages 3).pp_ref + 1 ≡ 2)
    × ((a : ℕ) → 4 ≢ a → 3 ≢ a → (m'.pages a).pp_ref ≡ (frames a).pp_ref)
    × (m'.invlpg ≡ 0x1000 ∷ [])
unfolding pdx ptx pgnum pte_addr
page_insert_replace_example =
    page_insert_replace sample 5 0x1000 6 4 2 (1 ∷ 2 ∷ []) (omega arith)
      (sample-HasTable 0x1000 refl) (omega arith) (omega arith) (omega arith) sample-IsFreeList refl
      (omega arith) 3 (omega arith) refl (omega arith) (omega arith) refl (omega arith)
      (omega arith)

page_insert_same_example :
    (m' : Pmap) × (page_insert 5 3 0x1000 4 sample ≡ some (true, m'))
    × Maps sample m' 5 0x1000 6 3
    × IsFreeList m' (1 ∷ 2 ∷ [])
    × ((a : ℕ) → (m'.pages a).pp_ref ≡ (frames a).pp_ref)
    × (m'.invlpg ≡ 0x1000 ∷ [])
unfolding pdx ptx pgnum pte_addr
page_insert_same_example =
    page_insert_same sample 5 0x1000 6 3 4 (1 ∷ 2 ∷ []) (omega arith) (sample-HasTable 0x1000 refl)
      (omega arith) (omega arith) (omega arith) sample-IsFreeList refl (omega arith) 3 (omega arith)
      refl (omega arith) (omega arith) refl refl (omega arith)

page_remove_mapped_example :
    (m' : Pmap) × (page_remove 5 0x2000 sample ≡ some (tt, m'))
    × (check_va2pa 5 0x2000 m' ≡ some (0xffffffff, m'))
    × ((f i : ℕ) → (f ≢ 6) ⊎ (i ≢ ptx 0x2000) → m'.phys f i ≡ memory f i)
    × IsFreeList m' (1 ∷ 2 ∷ [])
    × ((m'.pages 3).pp_ref + 1 ≡ 2)
    × ((a : ℕ) → 3 ≢ a → (m'.pages a).pp_ref ≡ (frames a).pp_ref)
    × (m'.invlpg ≡ 0x2000 ∷ [])
unfolding pdx ptx pgnum pte_addr
page_remove_mapped_example =
    page_remove_mapped sample 5 0x2000 6 (omega arith) (sample-HasTable 0x2000 refl) (omega arith) 3
      (1 ∷ 2 ∷ []) refl sample-IsFreeList refl (omega arith) (omega arith) (omega arith)

remove_empty_entry_example :
    (page_lookup 5 0x7000 sample ≡ some (some (0, (6, ptx 0x7000)), sample))
    × ((m' : Pmap) × (page_remove 5 0x7000 sample ≡ some (tt, m')) × ((m'.pages 0).pp_ref ≡ 65535))
unfolding pdx ptx
remove_empty_entry_example =
    remove_empty_entry sample 5 0x7000 6 (omega arith) (sample-HasTable 0x7000 refl) (omega arith)
      refl refl

-- Frames 1, 2, 3 and 4 are free, and the directory in frame 5 is empty.
abbrev fresh : Pmap
fresh = record sample {
  pages =
      update
        (update
          (update (update (λ p. page none Slot.null 0) 1 (page (some 2) lh_first 0)) 2
            (page (some 3) (le_next_of 1) 0))
          3 (page (some 4) (le_next_of 2) 0))
        4 (page none (le_next_of 3) 0);
  phys = λ f i. 0;
}

-- The first free pages and the counts of the pages 1, 2 and 3.
abbrev outcome : Option (Unit {0} × Pmap) → Option (Option ℕ × ℕ × ℕ × ℕ)
outcome none = none
outcome (some (_, m)) =
    some (m.page_free_list, (m.pages 1).pp_ref, (m.pages 2).pp_ref, (m.pages 3).pp_ref)

-- page_check succeeds there.
page_check_passes : outcome (page_check 5 fresh) ≡ some (some 3, 0, 0, 0)
unfolding page_check allocated check_without_memory check_insertions check_replacement
    check_removals give_back assert no_memory has_ref maps_to first_table_is inserts page_remove_at
    page_alloc page_free page_clear page_decref list_init list_insert_head list_remove page_lookup
    page_insert page_remove pgdir_walk entry_of install frame_at frame kaddr page2pa check_va2pa
    tlb_invalidate pgnum pdx ptx pte_addr
page_check_passes = refl
