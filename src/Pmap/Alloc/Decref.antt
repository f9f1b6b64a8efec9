-- ===== src/Pmap/Alloc/Decref.antt =====
-- `page_decref` on a page in use.
use jos_vmx.Base.{
  ℕ, ◌<◌, ◌+◌, ◌-◌, ◌^◌, ◌%◌, ◌≡◌, ◌≢◌, false, List, ◌∷◌, ◌==◌, if◌then◌else◌, arith, inl, inr, ◌∙◌,
  update, Bool-cases,
}
use jos_vmx.Pmap.{Page, Pmap, set_page, lh_first}
use jos_vmx.Pmap.Alloc.{page_free, page_decref}
use jos_vmx.Pmap.Alloc.Chain.{has, IsFreeList, Chain-frame}
use jos_vmx.Pmap.Alloc.Laws.{
  page_free-IsFreeList, insert_head-pp_ref, insert_head-phys, insert_head-npages,
  insert_head-invlpg,
}

-- A page that is not free may be rewritten.
pub set_page-IsFreeList :
    (p : ℕ) (v : Page) (m : Pmap) (xs : List ℕ)
    → IsFreeList m xs
    → has p xs ≡ false
    → IsFreeList (set_page p v m) xs
set_page-IsFreeList p v m xs f out = record {
  chain =
      Chain-frame m.pages (update m.pages p v) lh_first m.page_free_list xs (λ a h. ground arith)
        f.chain;
  inside = f.inside;
}

abbrev dropped : ℕ → Pmap → Pmap
dropped p m = set_page p (record (m.pages p) { pp_ref = (m.pages p).pp_ref - 1 }) m

module _ (p : ℕ) (m : Pmap) where
  page_decref-last : (m.pages p).pp_ref ≡ 1 → page_decref p m ≡ page_free p (dropped p m)
  unfolding page_decref
  page_decref-last one = rw (one, page_decref)

  page_decref-more :
      1 < (m.pages p).pp_ref → (m.pages p).pp_ref < 2 ^ 16 → page_decref p m ≡ dropped p m
  unfolding page_decref
  page_decref-more more small =
      let e : ((m.pages p).pp_ref + 2 ^ 16 - 1) % 2 ^ 16 ≡ (m.pages p).pp_ref - 1 = omega arith in
      let f : ((m.pages p).pp_ref - 1 == 0) ≡ false = ground arith in rw (e, f)

  page_free-pp_ref : (a : ℕ) → ((page_free p m).pages a).pp_ref ≡ (m.pages a).pp_ref
  unfolding page_free
  page_free-pp_ref a = insert_head-pp_ref p m a

module _ (p : ℕ) (m : Pmap) where
  pub page_decref-phys : (page_decref p m).phys ≡ m.phys
  unfolding page_decref
  page_decref-phys =
      ground (arith, insert_head-phys p (set_page p (record (m.pages p) { pp_ref = 0 }) m))

  pub page_decref-npages : (page_decref p m).npages ≡ m.npages
  unfolding page_decref
  page_decref-npages =
      ground (arith, insert_head-npages p (set_page p (record (m.pages p) { pp_ref = 0 }) m))

  pub page_decref-invlpg : (page_decref p m).invlpg ≡ m.invlpg
  unfolding page_decref
  page_decref-invlpg =
      ground (arith, insert_head-invlpg p (set_page p (record (m.pages p) { pp_ref = 0 }) m))

-- Dropping a reference to an existing page that is not free, with a 16-bit count above 0, lowers its
-- count by one and no other page's; the last reference to go puts the page first on the free list,
-- before that the free list stays.
pub page_decref-IsFreeList :
    (p : ℕ) (m : Pmap) (xs : List ℕ)
    → IsFreeList m xs
    → has p xs ≡ false
    → p < m.npages
    → 0 < (m.pages p).pp_ref
    → (m.pages p).pp_ref < 2 ^ 16
    → IsFreeList (page_decref p m) (if (m.pages p).pp_ref == 1 then p ∷ xs else xs)
      × (((page_decref p m).pages p).pp_ref + 1 ≡ (m.pages p).pp_ref)
      × ((a : ℕ) → p ≢ a → ((page_decref p m).pages a).pp_ref ≡ (m.pages a).pp_ref)
page_decref-IsFreeList p m xs f out h pos small = elim (Bool-cases ((m.pages p).pp_ref == 1)) [
  | inl one ↦
      let e : (m.pages p).pp_ref ≡ 1 = ground arith in
      rw (page_decref-last p m e, one)
        (
          page_free-IsFreeList p (dropped p m) xs (set_page-IsFreeList p _ m xs f out) out
              (ground arith) h,
          ground (arith, page_free-pp_ref p (dropped p m) p),
          λ a ne. page_free-pp_ref p (dropped p m) a ∙ (ground arith),
        )
  | inr more ↦
      rw (page_decref-more p m (ground arith) small, more)
        (set_page-IsFreeList p _ m xs f out, ground arith, λ a ne. ground arith)
]

-- A count of 0 wraps.
pub page_decref_zero :
    (p : ℕ) (m : Pmap) → (m.pages p).pp_ref ≡ 0 → ((page_decref p m).pages p).pp_ref ≡ 65535
unfolding page_decref
page_decref_zero p m e = rw (e, page_decref) (ground arith)
