-- ===== src/Pmap/Boot/Init.antt =====
-- Which frames page_init puts on the free list.
use jos_vmx.Base.{
  ℕ, zero, suc, ◌+◌, ◌-◌, ◌*◌, ◌/◌, ◌^◌, ◌%◌, ◌<◌, ◌≤◌, ◌≡◌, refl, some, Bool, false, ◌&&◌, not,
  ltb, leb, ◌==◌, if◌then◌else◌, List, [], ◌∷◌, arith, inl, inr, ◌∙◌, Bool-cases,
}
use mathlib.Core.Path.{subst}
use native.Mathlib.Decide.{ℕ_discrete}
use jos_vmx.Mmu.{word, pgsize, kernbase, roundup}
use jos_vmx.Mmu.Address.{roundup_aligned}
use jos_vmx.Pmap.{Pmap, set_page, ◌>>=◌}
use jos_vmx.Pmap.FreeList.{list_init, list_insert_head}
use jos_vmx.Pmap.Alloc.{page_free}
use jos_vmx.Pmap.Alloc.Chain.{has, IsFreeList}
use jos_vmx.Pmap.Alloc.Laws.{
  page_free-IsFreeList, insert_head-pp_ref, insert_head-npages, insert_head-nextfree,
}
use jos_vmx.Pmap.Alloc.Decref.{set_page-IsFreeList}
use jos_vmx.Pmap.Boot.{paddr, boot_alloc, insert_if_free, page_init_step, page_init_from, page_init}

-- A frame that is not frame 0, not in the I/O hole, and not below the first free frame `f`.
abbrev pub usable : ℕ → ℕ → Bool
usable f i = not (i == 0) && (not (leb 160 i && ltb i 256) && leb f i)

-- The numbers below `n` that pass a test, the highest first.
unfoldable pub filter_below : (ℕ → Bool) → ℕ → List ℕ
filter_below u zero = []
filter_below u (suc n) = if u n then n ∷ filter_below u n else filter_below u n

pub has-filter_below : (u : ℕ → Bool) (n a : ℕ) → has a (filter_below u n) ≡ (ltb a n && u a)
unfolding filter_below
has-filter_below u zero a = ground arith
has-filter_below u (suc n) a = elim (ℕ_discrete a n) [
  | yes e ↦ rw e (ground (arith, has-filter_below u n n))
  | no ne ↦ ground (arith, has-filter_below u n a)
]

-- `boot_alloc` has been called, and the frames below `f` are the kernel's.
pub record IsBooted (f : ℕ) (m : Pmap) : Type 0 where
  pub next : m.nextfree ≡ kernbase + f * pgsize
  pub fits : f < 65535

paddr-ok : (kva : ℕ) (m : Pmap) → kernbase ≤ kva → paddr kva m ≡ some (kva - kernbase, m)
unfolding paddr
paddr-ok kva m h = ground arith

module _ (end f : ℕ) where
  boot_alloc_zero : (m : Pmap) → IsBooted f m → boot_alloc end 0 m ≡ some (m.nextfree, m)
  unfolding boot_alloc
  boot_alloc_zero m b =
      let e : (m.nextfree == 0) ≡ false = ground arith in
      let g : roundup m.nextfree pgsize ≡ m.nextfree =
        roundup_aligned m.nextfree (omega arith) (omega arith) in
      let w : (m.nextfree + 0) % word ≡ m.nextfree = omega arith in rw (e, g, w)

  insert_if_free-round :
      (i : ℕ) (m : Pmap)
      → IsBooted f m
      → insert_if_free end i m ≡ some (tt, if leb f i then list_insert_head i m else m)
  unfolding insert_if_free
  insert_if_free-round i m b =
      let e : (m.nextfree - kernbase) / 2 ^ 12 ≡ f = omega arith in
      ground (
        arith,
        boot_alloc_zero m b,
        paddr-ok kernbase m (omega arith),
        paddr-ok m.nextfree m (omega arith),
      )

  zeroed : ℕ → Pmap → Pmap
  zeroed i m = set_page i (record (m.pages i) { pp_ref = 0 }) m

  -- What one round does, by whether the frame is usable.
  round : ℕ → Pmap → Pmap
  unfolding zeroed
  round i m = if usable f i then list_insert_head i (zeroed i m) else zeroed i m

  page_init_step-round :
      (i : ℕ) (m : Pmap) → IsBooted f m → page_init_step end i m ≡ some (tt, round i m)
  unfolding page_init_step round
  page_init_step-round i m b =
      ground (arith, insert_if_free-round i (zeroed i m) (record { next = b.next; fits = b.fits }))

  round-IsFreeList :
      (i : ℕ) (m : Pmap) (xs : List ℕ)
      → IsFreeList m xs
      → has i xs ≡ false
      → i < m.npages
      → IsFreeList (round i m) (if usable f i then i ∷ xs else xs)
  unfolding round
  round-IsFreeList i m xs v out h = elim (Bool-cases (usable f i)) [
    | inl u ↦ rw u (
        unfold page_free in
        page_free-IsFreeList i (zeroed i m) xs (set_page-IsFreeList i _ m xs v out) out
          (ground arith) h)
    | inr u ↦ rw u (set_page-IsFreeList i _ m xs v out)
  ]

  -- The state before round `i` of `n`.
  record Inv (n i : ℕ) (m : Pmap) : Type 0 where
    size : m.npages ≡ n
    booted : IsBooted f m
    free : IsFreeList m (filter_below (usable f) i)
    unused : (a : ℕ) → a < i → (m.pages a).pp_ref ≡ 0

  round-IsBooted : (i : ℕ) (m : Pmap) → IsBooted f m → IsBooted f (round i m)
  unfolding round
  round-IsBooted i m b = record {
    next = ground (arith, insert_head-nextfree i (zeroed i m));
    fits = b.fits;
  }

  round-size : (i : ℕ) (m : Pmap) → (round i m).npages ≡ m.npages
  unfolding round
  round-size i m = ground (arith, insert_head-npages i (zeroed i m))

  round-pp_ref :
      (i : ℕ) (m : Pmap) (a : ℕ)
      → ((round i m).pages a).pp_ref ≡ (if i == a then 0 else (m.pages a).pp_ref)
  unfolding round
  round-pp_ref i m a = ground (arith, insert_head-pp_ref i (zeroed i m) a)

  round-Inv : (n i : ℕ) (m : Pmap) → i < n → Inv n i m → Inv n (suc i) (round i m)
  unfolding filter_below
  round-Inv n i m h v = record {
    size = round-size i m ∙ v.size;
    booted = round-IsBooted i m v.booted;
    free =
        round-IsFreeList i m (filter_below (usable f) i) v.free
          (ground (arith, has-filter_below (usable f) i i)) (omega (arith, v.size));
    unused = λ a lt. ground (arith, round-pp_ref i m a, v.unused a);
  }

  page_init_from-Inv :
      (n left i : ℕ) (m : Pmap)
      → i + left ≡ n
      → Inv n i m
      → (m' : Pmap) × (page_init_from end left i m ≡ some (tt, m')) × Inv n n m'
  unfolding page_init_from
  page_init_from-Inv n zero i m e v =
      let e' : i ≡ n = omega arith in (m, refl, subst (λ k. Inv n k m) e' v)
  page_init_from-Inv n (suc left) i m e v =
      let e' : i + 1 ≡ suc i = omega arith in
      let rest =
        page_init_from-Inv n left (suc i) (round i m) (omega arith)
          (round-Inv n i m (omega arith) v) in
      (rest.0, rw (page_init_step-round i m v.booted, e', ◌>>=◌) rest.1, rest.2)

-- From a state in which the frames below `f` belong to the kernel, `page_init` ends without a
-- panic, every page has count 0, and the free list holds each frame once, the highest first, that
-- exists, is not frame 0, is not in the I/O hole and is not below `f`, and no other.
pub page_init-free :
    (end f : ℕ) (m : Pmap)
    → IsBooted f m
    → (m' : Pmap) × (page_init end m ≡ some (tt, m'))
      × IsFreeList m' (filter_below (usable f) m.npages)
      × ((a : ℕ) → has a (filter_below (usable f) m.npages) ≡ (ltb a m.npages && usable f a))
      × ((a : ℕ) → a < m.npages → (m'.pages a).pp_ref ≡ 0)
unfolding page_init filter_below
page_init-free end f m b =
    let start : Inv end f m.npages 0 (list_init m) = record {
      size = refl;
      booted = record { next = b.next; fits = b.fits };
      free = record { chain = refl; inside = tt };
      unused = λ a h. elim h [ ];
    } in
    let r = page_init_from-Inv end f m.npages m.npages 0 (list_init m) (omega arith) start in
    (r.0, r.1, r.2.free, has-filter_below (usable f) m.npages, r.2.unused)
