-- ===== src/Pmap/Table/Insert.antt =====
-- page_insert where the directory has a table: a fresh mapping, a page in the place of another, and
-- a page in its own place.
use jos_vmx.Base.{
  ℕ, ◌+◌, ◌*◌, ◌^◌, ◌<◌, ◌≡◌, ◌≢◌, ◌⊎◌, refl, some, true, false, List, ◌∷◌, arith, ◌==◌,
  if◌then◌else◌, bit_or, ap, ◌∙◌,
}
use mathlib.Core.Path.{subst}
use native.Mathlib.Decide.{ℕ_discrete}
use jos_vmx.Mmu.{pte_p, pdx, ptx}
use jos_vmx.Pmap.{Page, Pmap}
use jos_vmx.Pmap.Alloc.{page_decref}
use jos_vmx.Pmap.Alloc.Chain.{has, IsFreeList}
use jos_vmx.Pmap.Alloc.Decref.{
  set_page-IsFreeList, page_decref-IsFreeList, page_decref-phys, page_decref-npages,
  page_decref-invlpg,
}
use jos_vmx.Pmap.Table.{write, incref, tlb_invalidate, page_lookup, page_insert, check_va2pa}
use jos_vmx.Pmap.Table.Walk.{IsMachine, HasTable, walk_present}
use jos_vmx.Pmap.Table.Lookup.{
  entry, page_of, entry_fields, lookup_present, remove_present, va2pa_present,
}

-- The state after the mapping of `q` went, on its way to the new entry.
swapped : Pmap → (va t pp q : ℕ) → Pmap
unfolding tlb_invalidate
swapped m va t pp q = tlb_invalidate va (write t (ptx va) 0 (page_decref q (incref pp m)))

module _ (m : Pmap) (va t pp q : ℕ) where
  swapped-npages : (swapped m va t pp q).npages ≡ m.npages
  unfolding swapped
  swapped-npages = page_decref-npages q (incref pp m)

  swapped-invlpg : (swapped m va t pp q).invlpg ≡ va ∷ m.invlpg
  unfolding swapped
  swapped-invlpg = ap (λ l. va ∷ l) (page_decref-invlpg q (incref pp m))

  swapped-phys : (f i : ℕ) → (f ≢ t) ⊎ (i ≢ ptx va) → (swapped m va t pp q).phys f i ≡ m.phys f i
  unfolding swapped
  swapped-phys f i o = ground (arith, page_decref-phys q (incref pp m))

  swapped-pages : (swapped m va t pp q).pages ≡ (page_decref q (incref pp m)).pages
  unfolding swapped
  swapped-pages = refl

  swapped-IsFreeList :
      (xs : List ℕ) (e : ℕ)
      → IsFreeList (page_decref q (incref pp m)) xs
      → IsFreeList (write t (ptx va) e (swapped m va t pp q)) xs
  unfolding swapped
  swapped-IsFreeList xs e f = record { chain = f.chain; inside = f.inside }

module _ (m : Pmap) (pgdir va t pp perm : ℕ) (big : IsMachine m) (v : HasTable m pgdir va t) where
  insert_empty :
      m.phys t (ptx va) ≡ 0
      → page_insert pgdir pp va perm m ≡ some (true, write t (ptx va) (entry pp perm) (incref pp m))
  unfolding page_insert
  insert_empty e = ground (arith, walk_present m pgdir va t (bit_or perm pte_p) big v)

  insert_over :
      (q : ℕ)
      → m.phys t (ptx va) ≢ 0
      → page_of (m.phys t (ptx va)) ≡ q
      → page_insert pgdir pp va perm m
        ≡ some (true, write t (ptx va) (entry pp perm) (swapped m va t pp q))
  unfolding page_insert swapped
  insert_over q ne names =
      let v' : HasTable (incref pp m) pgdir va t = record {
        present = v.present;
        table = v.table;
        inside = v.inside;
      } in
      ground (
        arith,
        walk_present m pgdir va t (bit_or perm pte_p) big v,
        remove_present (incref pp m) pgdir va t big v',
      )

-- What holds after `page_insert` mapped `pp` at `va`: the hardware finds the page there, so does
-- `page_lookup`, and no other entry changed.
pub record Maps (m m' : Pmap) (pgdir va t pp : ℕ) : Type 0 where
  pub found : check_va2pa pgdir va m' ≡ some (pp * 2 ^ 12, m')
  pub lookup : page_lookup pgdir va m' ≡ some (some (pp, (t, ptx va)), m')
  pub others : (f i : ℕ) → (f ≢ t) ⊎ (i ≢ ptx va) → m'.phys f i ≡ m.phys f i

module _ (m n : Pmap) (pgdir va t pp perm : ℕ) (big : IsMachine m) (v : HasTable m pgdir va t)
    (apart : t ≢ pgdir) (h : pp < m.npages) (flags : perm < 4096) where
  write-Maps :
      n.npages ≡ m.npages
      → ((f i : ℕ) → (f ≢ t) ⊎ (i ≢ ptx va) → n.phys f i ≡ m.phys f i)
      → Maps m (write t (ptx va) (entry pp perm) n) pgdir va t pp
  write-Maps size same =
      let m' = write t (ptx va) (entry pp perm) n in
      let (odd, addr, back, ne) = entry_fields m pp perm big h flags in
      let dir : m'.phys pgdir (pdx va) ≡ m.phys pgdir (pdx va) =
        ground (arith, same pgdir (pdx va)) in
      let at : m'.phys t (ptx va) ≡ entry pp perm = ground arith in
      let v' : HasTable m' pgdir va t = record {
        present = rw dir v.present;
        table = rw dir v.table;
        inside = omega (arith, size, v.inside);
      } in
      let big' : IsMachine m' = omega (arith, size) in
      record {
        found =
            va2pa_present m' pgdir va t big' v' (rw at odd) ∙ ap (λ a. some (a, m')) (rw at addr);
        lookup =
            lookup_present m' pgdir va t big' v'
            ∙ ap (λ a. some (some (a, (t, ptx va)), m')) (rw at back);
        others = λ f i o. ground (arith, same f i);
      }

module _ (m : Pmap) (pgdir va t pp perm : ℕ) (xs : List ℕ) (big : IsMachine m)
    (v : HasTable m pgdir va t) (apart : t ≢ pgdir) (h : pp < m.npages) (flags : perm < 4096)
    (free : IsFreeList m xs) (used : has pp xs ≡ false)
    (room : (m.pages pp).pp_ref + 1 < 2 ^ 16) where
  incref-eq : (((incref pp m).pages pp).pp_ref) ≡ (m.pages pp).pp_ref + 1
  incref-eq = ground arith

  incref-IsFreeList : IsFreeList (incref pp m) xs
  incref-IsFreeList = set_page-IsFreeList pp _ m xs free used

  -- In a machine with at most 256 MB, where the directory has a table for `va` apart from itself,
  -- for an existing page that is not free and whose count has room, and flags below 4096: where
  -- nothing is mapped at `va`, `page_insert` succeeds and maps the page there. The page counts one
  -- reference more; the free list, all other counts and all other entries stay.
  pub page_insert_fresh :
      m.phys t (ptx va) ≡ 0
      → (m' : Pmap) × (page_insert pgdir pp va perm m ≡ some (true, m'))
        × Maps m m' pgdir va t pp
        × IsFreeList m' xs
        × ((m'.pages pp).pp_ref ≡ (m.pages pp).pp_ref + 1)
        × ((a : ℕ) → pp ≢ a → (m'.pages a).pp_ref ≡ (m.pages a).pp_ref)
        × (m'.invlpg ≡ m.invlpg)
  page_insert_fresh e = (
    write t (ptx va) (entry pp perm) (incref pp m),
    insert_empty m pgdir va t pp perm big v e,
    write-Maps m (incref pp m) pgdir va t pp perm big v apart h flags refl (λ f i o. refl),
    record { chain = incref-IsFreeList.chain; inside = incref-IsFreeList.inside },
    incref-eq,
    λ a ne. ground arith,
    refl,
  )

  module _ (q : ℕ) (old : m.phys t (ptx va) ≢ 0) (names : page_of (m.phys t (ptx va)) ≡ q)
      (inside : q < m.npages) (small : (m.pages q).pp_ref < 2 ^ 16) (busy : has q xs ≡ false) where
    -- Under the same conditions, where another page `q` in use, with a 16-bit count above 0, is mapped
    -- at `va`, `page_insert` succeeds and maps the new page in its place. The new page counts one
    -- reference more and the old one less, which frees it if that was its last; the other counts and
    -- entries stay, and the TLB entry of `va` is invalidated.
    pub page_insert_replace :
        q ≢ pp
        → 0 < (m.pages q).pp_ref
        → (m' : Pmap) × (page_insert pgdir pp va perm m ≡ some (true, m'))
          × Maps m m' pgdir va t pp
          × IsFreeList m' (if (m.pages q).pp_ref == 1 then q ∷ xs else xs)
          × ((m'.pages pp).pp_ref ≡ (m.pages pp).pp_ref + 1)
          × ((m'.pages q).pp_ref + 1 ≡ (m.pages q).pp_ref)
          × ((a : ℕ) → pp ≢ a → q ≢ a → (m'.pages a).pp_ref ≡ (m.pages a).pp_ref)
          × (m'.invlpg ≡ va ∷ m.invlpg)
    page_insert_replace ne pos =
        let same : (incref pp m).pages q ≡ m.pages q = ground arith in
        let d =
          page_decref-IsFreeList q (incref pp m) xs incref-IsFreeList busy inside (rw same pos)
            (rw same small) in
        let n = swapped m va t pp q in
        let pg = swapped-pages m va t pp q in
        (
          write t (ptx va) (entry pp perm) n,
          insert_over m pgdir va t pp perm big v q old names,
          write-Maps m n pgdir va t pp perm big v apart h flags (swapped-npages m va t pp q)
              (swapped-phys m va t pp q),
          swapped-IsFreeList m va t pp q _ (entry pp perm) (
              subst
                (λ (r : Page).
                  IsFreeList (page_decref q (incref pp m)) (if r.pp_ref == 1 then q ∷ xs else xs))
                same d.0),
          rw pg (d.2 pp ne ∙ incref-eq),
          rw pg (d.1 ∙ ap (λ (r : Page). r.pp_ref) same),
          λ a np nq. rw pg (ground (arith, d.2 a nq)),
          swapped-invlpg m va t pp q,
        )

    -- Under the same conditions, mapping a page with a count above 0 again where it is mapped already
    -- succeeds and changes no entry but that one, which still leads to the page: all counts and the
    -- free list stay, and the TLB entry of `va` is invalidated.
    pub page_insert_same :
        q ≡ pp
        → 0 < (m.pages pp).pp_ref
        → (m' : Pmap) × (page_insert pgdir pp va perm m ≡ some (true, m'))
          × Maps m m' pgdir va t pp
          × IsFreeList m' xs
          × ((a : ℕ) → (m'.pages a).pp_ref ≡ (m.pages a).pp_ref)
          × (m'.invlpg ≡ va ∷ m.invlpg)
    page_insert_same e pos =
        let d =
          page_decref-IsFreeList pp (incref pp m) xs incref-IsFreeList used h
            (omega (arith, incref-eq)) (omega (arith, incref-eq)) in
        let many : (((incref pp m).pages pp).pp_ref == 1) ≡ false = ground (arith, incref-eq) in
        let n = swapped m va t pp pp in
        let pg = swapped-pages m va t pp pp in
        (
          write t (ptx va) (entry pp perm) n,
          insert_over m pgdir va t pp perm big v pp old (names ∙ e),
          write-Maps m n pgdir va t pp perm big v apart h flags (swapped-npages m va t pp pp)
              (swapped-phys m va t pp pp),
          swapped-IsFreeList m va t pp pp _ (entry pp perm) (
              subst (λ b. IsFreeList (page_decref pp (incref pp m)) (if b then pp ∷ xs else xs))
                many d.0),
          λ a. rw pg (elim (ℕ_discrete pp a) [
            | yes s ↦ omega (
              arith,
              ap (λ b. ((page_decref pp (incref pp m)).pages b).pp_ref) s,
              ap (λ b. (m.pages b).pp_ref) s,
              d.1,
              incref-eq,
            )
            | no s ↦ d.2 a s ∙ (ground arith)
          ]),
          swapped-invlpg m va t pp pp,
        )
