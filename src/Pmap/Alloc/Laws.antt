-- ===== src/Pmap/Alloc/Laws.antt =====
-- The allocator's functions refine the list of free pages.
use mathlib.Core.Path.{subst}
use jos_vmx.Base.{
  ℕ, ◌<◌, ◌≡◌, ◌≢◌, refl, sym, Option, none, some, false, List, [], ◌∷◌, arith, update,
}
use jos_vmx.Pmap.{lh_first, le_next_of, Page, Pmap}
use jos_vmx.Pmap.FreeList.{list_insert_head, list_remove}
use jos_vmx.Pmap.Alloc.{cleared, page_alloc, page_clear, page_free}
use jos_vmx.Pmap.Alloc.Chain.{has, Chain, Below, IsFreeList, Chain-frame, Chain-ne}

module _ (p : ℕ) (m : Pmap) where
  pub insert_head-first : (list_insert_head p m).page_free_list ≡ some p
  unfolding list_insert_head
  insert_head-first = refl

  pub insert_head-npages : (list_insert_head p m).npages ≡ m.npages
  unfolding list_insert_head
  insert_head-npages = ground arith

  insert_head_self :
      (m.page_free_list ≢ some p)
      → (list_insert_head p m).pages p
        ≡ record { le_next = m.page_free_list; le_prev = lh_first; pp_ref = (m.pages p).pp_ref }
  unfolding list_insert_head
  insert_head_self ne = ground arith

  insert_head_second :
      (x : ℕ)
      → m.page_free_list ≡ some x
      → p ≢ x
      → (list_insert_head p m).pages x ≡ record (m.pages x) { le_prev = le_next_of p }
  unfolding list_insert_head
  insert_head_second x e ne = ground arith

  insert_head_other :
      (a : ℕ) → m.page_free_list ≢ some a → p ≢ a → (list_insert_head p m).pages a ≡ m.pages a
  unfolding list_insert_head
  insert_head_other a e ne = ground arith

  -- No count changes.
  pub insert_head-pp_ref : (a : ℕ) → ((list_insert_head p m).pages a).pp_ref ≡ (m.pages a).pp_ref
  unfolding list_insert_head
  insert_head-pp_ref a = ground arith

  pub insert_head-nextfree : (list_insert_head p m).nextfree ≡ m.nextfree
  unfolding list_insert_head
  insert_head-nextfree = ground arith

  pub insert_head-invlpg : (list_insert_head p m).invlpg ≡ m.invlpg
  unfolding list_insert_head
  insert_head-invlpg = ground arith

  pub insert_head-phys : (list_insert_head p m).phys ≡ m.phys
  unfolding list_insert_head
  insert_head-phys = ground arith

insert_head-Chain :
    (p : ℕ) (m : Pmap) (xs : List ℕ)
    → Chain m.pages lh_first m.page_free_list xs
    → has p xs ≡ false
    → (m.pages p).pp_ref ≡ 0
    → Chain (list_insert_head p m).pages lh_first (list_insert_head p m).page_free_list (p ∷ xs)
insert_head-Chain p m [] c out r =
    let e = insert_head_self p m (ground arith) in
    (insert_head-first p m, rw e refl, rw e r, refl, rw e c)
insert_head-Chain p m (x ∷ xs) c out r =
    let ne : p ≢ x = ground arith in
    let e = insert_head_self p m (ground arith) in
    let e' = insert_head_second p m x c.0 ne in
    let pg = (list_insert_head p m).pages in
    let rest : Chain pg (le_next_of x) (m.pages x).le_next xs =
      Chain-frame m.pages pg (le_next_of x) (m.pages x).le_next xs
        (λ a h. insert_head_other p m a (ground arith) (ground arith)) c.4 in
    (
      insert_head-first p m,
      rw e refl,
      rw e r,
      ground arith,
      (rw e c.0, rw e' refl, rw e' c.2, c.3, rw e' rest),
    )

-- Freeing an existing, unreferenced page that is not free puts it first on the list of free pages.
pub page_free-IsFreeList :
    (p : ℕ) (m : Pmap) (xs : List ℕ)
    → IsFreeList m xs
    → has p xs ≡ false
    → (m.pages p).pp_ref ≡ 0
    → p < m.npages
    → IsFreeList (page_free p m) (p ∷ xs)
unfolding page_free
page_free-IsFreeList p m xs v out r h = record {
  chain = insert_head-Chain p m xs v.chain out r;
  inside = subst (λ n. Below n (p ∷ xs)) (sym (insert_head-npages p m)) (h, v.inside);
}

-- Where `page_alloc` leaves the state when it takes the first free page `p`.
relink : Option ℕ → (ℕ → Page) → ℕ → Page
relink none pg = pg
relink (some q) pg = update pg q (record (pg q) { le_prev = lh_first })

after_alloc : ℕ → Pmap → Pmap
unfolding relink
after_alloc p m = record m {
  page_free_list = (m.pages p).le_next;
  pages = update (relink (m.pages p).le_next m.pages) p cleared;
}

page_alloc-some :
    (p : ℕ) (m : Pmap)
    → m.page_free_list ≡ some p
    → (m.pages p).le_prev ≡ lh_first
    → (m.pages p).le_next ≢ some p
    → page_alloc m ≡ some (some p, after_alloc p m)
unfolding page_alloc page_clear list_remove after_alloc
page_alloc-some p m e f ne = ground arith

module _ (p : ℕ) (m : Pmap) where
  after_alloc_second :
      (x : ℕ)
      → (m.pages p).le_next ≡ some x
      → p ≢ x
      → (after_alloc p m).pages x ≡ record (m.pages x) { le_prev = lh_first }
  unfolding after_alloc
  after_alloc_second x e ne = ground arith

  after_alloc_other :
      (a : ℕ) → (m.pages p).le_next ≢ some a → p ≢ a → (after_alloc p m).pages a ≡ m.pages a
  unfolding after_alloc
  after_alloc_other a e ne = ground arith

  -- No other page's count changes.
  after_alloc-pp_ref : (a : ℕ) → p ≢ a → ((after_alloc p m).pages a).pp_ref ≡ (m.pages a).pp_ref
  unfolding after_alloc
  after_alloc-pp_ref a ne = ground arith

  after_alloc_self : (after_alloc p m).pages p ≡ cleared
  unfolding after_alloc
  after_alloc_self = ground arith

after_alloc-Chain :
    (p : ℕ) (m : Pmap) (xs : List ℕ)
    → Chain m.pages (le_next_of p) (m.pages p).le_next xs
    → has p xs ≡ false
    → Chain (after_alloc p m).pages lh_first (m.pages p).le_next xs
after_alloc-Chain p m [] c out = c
after_alloc-Chain p m (x ∷ xs) c out =
    let e = after_alloc_second p m x c.0 (ground arith) in
    let pg = (after_alloc p m).pages in
    let rest : Chain pg (le_next_of x) (m.pages x).le_next xs =
      Chain-frame m.pages pg (le_next_of x) (m.pages x).le_next xs
        (λ a h. after_alloc_other p m a (ground arith) (ground arith)) c.4 in
    (c.0, rw e refl, rw e c.2, c.3, rw e rest)

-- The outcome of `page_alloc` for the free pages `xs`.
abbrev pub Allocates : Pmap → List ℕ → Type 0
Allocates m [] = page_alloc m ≡ some (none, m)
Allocates m (p ∷ xs) =
    (m' : Pmap) × (page_alloc m ≡ some (some p, m'))
    × IsFreeList m' xs
    × (has p xs ≡ false)
    × (m'.pages p ≡ cleared)
    × ((a : ℕ) → p ≢ a → (m'.pages a).pp_ref ≡ (m.pages a).pp_ref)
    × (m'.phys ≡ m.phys)
    × (m'.npages ≡ m.npages)

-- `page_alloc` with no free page reports `-E_NO_MEM` and changes nothing; else it takes the first
-- free page and clears its record: the other pages stay free in their order, no other count, no
-- memory and not the number of pages change, and the page taken is free no longer.
pub page_alloc-Allocates : (m : Pmap) (xs : List ℕ) → IsFreeList m xs → Allocates m xs
unfolding after_alloc
page_alloc-Allocates m [] v = unfold page_alloc in ground arith
page_alloc-Allocates m (p ∷ xs) v =
    let c = v.chain in
    let ne : (m.pages p).le_next ≢ some p =
      Chain-ne m.pages (le_next_of p) (m.pages p).le_next p xs c.4 c.3 in
    (
      after_alloc p m,
      page_alloc-some p m c.0 c.1 ne,
      record { chain = after_alloc-Chain p m xs c.4 c.3; inside = v.inside.1 },
      c.3,
      after_alloc_self p m,
      after_alloc-pp_ref p m,
      refl,
      refl,
    )
