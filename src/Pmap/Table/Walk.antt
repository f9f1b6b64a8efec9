-- ===== src/Pmap/Table/Walk.antt =====
-- pgdir_walk on each of its branches.
use jos_vmx.Base.{
  ℕ, ◌+◌, ◌-◌, ◌*◌, ◌/◌, ◌%◌, ◌^◌, ◌≤◌, ◌<◌, ◌≡◌, ◌≢◌, ◌⊎◌, refl, none, some, false, List, [], ◌∷◌,
  arith, ◌==◌, bit_or, bit_and,
}
use jos_vmx.Base.Bits.{bit_or_low, bit_or_split, bit_and_mod}
use jos_vmx.Mmu.{word, kernbase, pte_p, pte_w, pte_u, pdx, ptx, pte_addr}
use jos_vmx.Mmu.Address.{pte_addr-eq}
use jos_vmx.Pmap.{Pmap, ◌>>=◌}
use jos_vmx.Pmap.Alloc.Chain.{IsFreeList}
use jos_vmx.Pmap.Alloc.Laws.{page_alloc-Allocates}
use jos_vmx.Pmap.Alloc.Decref.{set_page-IsFreeList}
use jos_vmx.Pmap.Boot.{kaddr}
use jos_vmx.Pmap.Table.{
  page2pa, frame, frame_at, entry_of, install, write, set_ref, clear_frame, pgdir_walk,
}

-- All physical memory lies in the map at KERNBASE.
abbrev pub IsMachine : Pmap → Type 0
IsMachine m = m.npages ≤ 65536

-- The directory entry for `va` leads to the table `t`.
pub record HasTable (m : Pmap) (pgdir va t : ℕ) : Type 0 where
  pub present : bit_and (m.phys pgdir (pdx va)) pte_p ≡ 1
  pub table : pte_addr (m.phys pgdir (pdx va)) ≡ t * 2 ^ 12
  pub inside : t < m.npages

pub bit_and-pte_p : (x : ℕ) → bit_and x pte_p ≡ x % 2
bit_and-pte_p x = bit_and_mod 1 x

pub HasTable-ne : (m : Pmap) (pgdir va t : ℕ) → HasTable m pgdir va t → m.phys pgdir (pdx va) ≢ 0
HasTable-ne m pgdir va t v e = omega (arith, bit_and-pte_p (m.phys pgdir (pdx va)), v.present)

pub page2pa-eq : (m : Pmap) (p : ℕ) → IsMachine m → p < m.npages → page2pa p ≡ p * 2 ^ 12
unfolding page2pa
page2pa-eq m p big h = omega arith

kaddr-frame :
    (m : Pmap) (t : ℕ)
    → t < m.npages
    → kaddr (t * 2 ^ 12) m ≡ some ((t * 2 ^ 12 + kernbase) % word, m)
unfolding kaddr
kaddr-frame m t h = ground arith

frame-kaddr :
    (m : Pmap) (t : ℕ) → t < 65536 → frame ((t * 2 ^ 12 + kernbase) % word) m ≡ some (t, m)
unfolding frame
frame-kaddr m t h =
    let e : (t * 2 ^ 12 + kernbase) % word ≡ t * 2 ^ 12 + kernbase = omega arith in
    let e' : (t * 2 ^ 12 + kernbase - kernbase) / 2 ^ 12 ≡ t = omega arith in
    rw e (ground (arith, e'))

pub frame_at-eq :
    (m : Pmap) (t : ℕ) → IsMachine m → t < m.npages → frame_at (t * 2 ^ 12) m ≡ some (t, m)
unfolding frame_at
frame_at-eq m t big h = rw (kaddr-frame m t h, ◌>>=◌) (frame-kaddr m t (omega arith))

entry_of-eq :
    (m : Pmap) (pgdir va t : ℕ)
    → IsMachine m
    → HasTable m pgdir va t
    → entry_of pgdir va m ≡ some (some (t, ptx va), m)
unfolding entry_of
entry_of-eq m pgdir va t big v = rw (v.table, ◌>>=◌, frame_at-eq m t big v.inside)

pub walk_present :
    (m : Pmap) (pgdir va t create : ℕ)
    → IsMachine m
    → HasTable m pgdir va t
    → pgdir_walk pgdir va create m ≡ some (some (t, ptx va), m)
unfolding pgdir_walk
walk_present m pgdir va t create big v =
    let ne : (m.phys pgdir (pdx va) == 0) ≡ false = ground (arith, HasTable-ne m pgdir va t v) in
    rw ne (entry_of-eq m pgdir va t big v)

-- Without `create` a missing table is reported and nothing changes.
pub walk_missing :
    (m : Pmap) (pgdir va : ℕ) → m.phys pgdir (pdx va) ≡ 0 → pgdir_walk pgdir va 0 m ≡ some (none, m)
unfolding pgdir_walk
walk_missing m pgdir va e = rw e

pub walk_no_memory :
    (m : Pmap) (pgdir va create : ℕ)
    → m.phys pgdir (pdx va) ≡ 0
    → IsFreeList m []
    → pgdir_walk pgdir va create m ≡ some (none, m)
unfolding pgdir_walk
walk_no_memory m pgdir va create e v = ground (arith, page_alloc-Allocates m [] v)

-- The entry that `install` writes.
entry-eq : (pp : ℕ) → bit_or (bit_or (bit_or (pp * 2 ^ 12) pte_u) pte_w) pte_p ≡ pp * 2 ^ 12 + 7
entry-eq pp =
    rw
      (
        bit_or_low 12 pp 4 (omega arith),
        bit_or_split 12 pp 4 2 (omega arith) (omega arith),
        bit_or_split 12 pp 6 1 (omega arith) (omega arith),
      )
      refl

-- The state after `install`: the entry, the count 1 and a table of zeros.
abbrev pub installed : (pgdir va t : ℕ) → Pmap → Pmap
installed pgdir va t m = clear_frame t (set_ref t 1 (write pgdir (pdx va) (t * 2 ^ 12 + 7) m))

install-eq :
    (m : Pmap) (pgdir va t : ℕ)
    → IsMachine m
    → t < m.npages
    → install pgdir va t m ≡ some (tt, installed pgdir va t m)
unfolding install
install-eq m pgdir va t big h = ground (
  arith,
  page2pa-eq m t big h,
  entry-eq t,
  frame_at-eq (set_ref t 1 (write pgdir (pdx va) (t * 2 ^ 12 + 7) m)) t big h,
)

module _ (m : Pmap) (pgdir va t : ℕ) (apart : t ≢ pgdir) (h : t < m.npages)
    (big : IsMachine m) where
  installed-HasTable : HasTable (installed pgdir va t m) pgdir va t
  installed-HasTable = record {
    present = ground (arith, bit_and-pte_p (t * 2 ^ 12 + 7));
    table = ground (arith, pte_addr-eq (t * 2 ^ 12 + 7) (omega arith));
    inside = h;
  }

-- What `pgdir_walk` did when it had to make a table out of the free page `t`.
pub record Created (m m' : Pmap) (pgdir va t : ℕ) (xs : List ℕ) : Type 0 where
  pub table : HasTable m' pgdir va t
  pub empty : (i : ℕ) → m'.phys t i ≡ 0
  pub counted : (m'.pages t).pp_ref ≡ 1
  pub free : IsFreeList m' xs
  pub same_entries : (f i : ℕ) → t ≢ f → (f ≢ pgdir) ⊎ (i ≢ pdx va) → m'.phys f i ≡ m.phys f i
  pub same_counts : (a : ℕ) → t ≢ a → (m'.pages a).pp_ref ≡ (m.pages a).pp_ref

-- In a machine with at most 256 MB, with `create` and a first free page that is not the directory,
-- a missing table is allocated out of that page, cleared, counted and installed, and the entry for
-- `va` in it is returned; no other entry and no other page's count changes.
pub walk_create :
    (m : Pmap) (pgdir va create t : ℕ) (xs : List ℕ)
    → IsMachine m
    → create ≢ 0
    → m.phys pgdir (pdx va) ≡ 0
    → t ≢ pgdir
    → IsFreeList m (t ∷ xs)
    → (m' : Pmap) × (pgdir_walk pgdir va create m ≡ some (some (t, ptx va), m'))
      × Created m m' pgdir va t xs
unfolding pgdir_walk
walk_create m pgdir va create t xs big ne e apart v =
    let (m₁, got, free, out, clear, counts, entries, size) = page_alloc-Allocates m (t ∷ xs) v in
    let h : t < m₁.npages = omega (arith, v.inside, size) in
    let big₁ : IsMachine m₁ = omega (arith, size) in
    let one = record (m₁.pages t) { pp_ref = 1 } in
    let counted = set_page-IsFreeList t one m₁ xs free out in
    let table = installed-HasTable m₁ pgdir va t apart h big₁ in
    (
      installed pgdir va t m₁,
      ground (
        arith,
        got,
        install-eq m₁ pgdir va t big₁ h,
        entry_of-eq (installed pgdir va t m₁) pgdir va t big₁ table,
      ),
      record {
        table = table;
        empty = λ i. ground arith;
        counted = ground arith;
        free = record { chain = counted.chain; inside = counted.inside };
        same_entries = λ f i ne o. ground (arith, entries);
        same_counts = λ a ne. ground (arith, counts a);
      },
    )
