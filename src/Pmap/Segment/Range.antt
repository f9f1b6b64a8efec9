-- ===== src/Pmap/Segment/Range.antt =====
-- boot_map_segment maps every page of the segment.
use jos_vmx.Base.{
  ℕ, zero, suc, ◌+◌, ◌*◌, ◌/◌, ◌%◌, ◌^◌, ◌≤◌, ◌<◌, ◌≡◌, ◌≢◌, ◌⊎◌, inl, refl, some, arith, ◌∙◌,
}
use native.Mathlib.Decide.{ℕ_discrete, dec_lt}
use jos_vmx.Mmu.{word, pgsize, pdx, ptx}
use jos_vmx.Mmu.Address.{pdx-eq, ptx-eq}
use jos_vmx.Pmap.{Pmap}
use jos_vmx.Pmap.Table.{check_va2pa}
use jos_vmx.Pmap.Segment.{boot_map_page, boot_map_from, boot_map_segment}
use jos_vmx.Pmap.Segment.Walk.{IsMapping, HasRoom}
use jos_vmx.Pmap.Segment.Map.{Maps, Mapped, check_va2pa-Maps, boot_map_page-Mapped}

-- Two pages have different places in the tables.
pages_apart :
    (u v : ℕ)
    → u < 2 ^ 20
    → v < 2 ^ 20
    → u ≢ v
    → (pdx (u * 4096) ≢ pdx (v * 4096)) ⊎ (ptx (u * 4096) ≢ ptx (v * 4096))
pages_apart u v h k ne =
    ground (arith, pdx-eq (u * 4096), pdx-eq (v * 4096), ptx-eq (u * 4096), ptx-eq (v * 4096))

page_directory : (u : ℕ) → u < 2 ^ 20 → pdx (u * 4096) ≡ u / 1024
page_directory u h = omega (arith, pdx-eq (u * 4096))

module _ (end pgdir self : ℕ) where
  -- What the loop changes from the `k`th page on: `n'` frames are in use after it.
  pub record Segment (a size b k n : ℕ) (m m' : Pmap) : Type 0 where
    pub n' : ℕ
    pub mapping : IsMapping end pgdir self n' m'
    pub mapped : (j : ℕ) → k ≤ j → j * 4096 < size → Maps end pgdir self m' ((a + j) * 4096) (b + j)
    pub others :
        (u q : ℕ)
        → u < 2 ^ 20
        → (u < a + k) ⊎ (a * 4096 + size ≤ u * 4096)
        → Maps end pgdir self m (u * 4096) q
        → Maps end pgdir self m' (u * 4096) q
    pub room :
        (d : ℕ)
        → ((j : ℕ) → j * 4096 < size → pdx ((a + j) * 4096) ≤ d)
        → n + 1024 ≤ m.npages + d
        → n' + 1024 ≤ m'.npages + d
    pub untouched :
        (d : ℕ)
        → ((j : ℕ) → k ≤ j → j * 4096 < size → pdx ((a + j) * 4096) ≢ d)
        → m'.phys pgdir d ≡ m.phys pgdir d
    pub pages : m'.npages ≡ m.npages

  module _ (a size b perm : ℕ) (inside : a * 4096 + size ≤ word) (frames : b * 4096 + size ≤ word)
      (no_wrap : size + 4096 ≤ word) (small : perm < 4096)
      (not_self : (j : ℕ) → j * 4096 < size → pdx ((a + j) * 4096) ≢ self) where
    next_room :
        (k n : ℕ) (m : Pmap)
        → suc k * 4096 < size
        → m.phys pgdir (pdx ((a + k) * 4096)) % 2 ≡ 1
        → n + 1024 ≤ m.npages + pdx ((a + k) * 4096)
        → HasRoom end pgdir self (pdx ((a + suc k) * 4096)) n m
    next_room k n m h p r =
        let d = page_directory (a + k) (omega arith) in
        let d' = page_directory (a + suc k) (omega arith) in
        elim (ℕ_discrete (pdx ((a + suc k) * 4096)) (pdx ((a + k) * 4096))) [
          | yes same ↦ rw same (omega (arith, d), λ odd. r, λ even. absurd (omega arith))
          | no differ ↦
              (omega (arith, d'), λ odd. omega (arith, d, d'), λ even. omega (arith, d, d', differ))
        ]

    boot_map_from-next :
        (fuel k : ℕ) (m m₁ : Pmap)
        → k * 4096 < size
        → boot_map_page end pgdir ((a + k) * 4096) ((b + k) * 4096) perm m ≡ some (tt, m₁)
        → boot_map_from end pgdir (suc fuel) (a * 4096) size (b * 4096) perm (k * 4096) m
          ≡ boot_map_from end pgdir fuel (a * 4096) size (b * 4096) perm (suc k * 4096) m₁
    unfolding boot_map_from
    boot_map_from-next fuel k m m₁ more e =
        let la : (a * 4096 + k * 4096) % word ≡ (a + k) * 4096 = omega arith in
        let pa : (b * 4096 + k * 4096) % word ≡ (b + k) * 4096 = omega arith in
        let next : (k * 4096 + pgsize) % word ≡ suc k * 4096 = omega arith in
        ground (arith, la, pa, e, next)

    boot_map_from_end :
        (fuel k : ℕ) (m : Pmap)
        → size ≤ k * 4096
        → boot_map_from end pgdir (suc fuel) (a * 4096) size (b * 4096) perm (k * 4096) m
          ≡ some (tt, m)
    unfolding boot_map_from
    boot_map_from_end fuel k m done = ground arith

    -- The segment after the first of its pages and the others.
    Segment-cons :
        (k n : ℕ) (m m₁ m' : Pmap)
        → k * 4096 < size
        → (first : Mapped end pgdir self ((a + k) * 4096) (b + k) n m m₁)
        → Segment a size b (suc k) first.n' m₁ m'
        → Segment a size b k n m m'
    Segment-cons k n m m₁ m' more first rest = record {
      n' = rest.n';
      mapping = rest.mapping;
      mapped = λ j low high. elim (ℕ_discrete j k) [
        | yes e ↦ rw e (rest.others (a + k) (b + k) (omega arith) (inl (omega arith)) first.maps)
        | no ne ↦ rest.mapped j (omega arith) high
      ];
      others = λ u q fits outside at.
          rest.others u q fits (ground arith) (
            first.others (u * 4096) q (pages_apart u (a + k) fits (omega arith) (ground arith)) at);
      room = λ d last fits. rest.room d last (omega (arith, first.room, last k more));
      untouched = λ d other.
          rest.untouched d (λ j low high. other j (omega arith) high)
          ∙ first.untouched d (other k (omega arith) more);
      pages = rest.pages ∙ first.pages;
    }

    boot_map_from-Segment :
        (fuel k n : ℕ) (m : Pmap)
        → size + 4096 ≤ (k + fuel) * 4096
        → k * 4096 < size + 4096
        → IsMapping end pgdir self n m
        → (k * 4096 < size → HasRoom end pgdir self (pdx ((a + k) * 4096)) n m)
        → (m' : Pmap) × (boot_map_from end pgdir fuel (a * 4096) size (b * 4096) perm (k * 4096) m
            ≡ some (tt, m'))
          × Segment a size b k n m m'
    unfolding boot_map_from
    boot_map_from-Segment zero k n m enough at inv room = absurd (omega arith)
    boot_map_from-Segment (suc fuel) k n m enough at inv room = elim (dec_lt (k * 4096) size) [
      | no done ↦ (
        m,
        boot_map_from_end fuel k m (omega arith),
        record {
          n' = n;
          mapping = inv;
          mapped = λ j low high. absurd (omega arith);
          others = λ u q fits outside at. at;
          room = λ d last fits. fits;
          untouched = λ d other. refl;
          pages = refl;
        },
      )
      | yes more ↦
          let (m₁, e, first) =
            boot_map_page-Mapped end pgdir self ((a + k) * 4096) (b + k) perm n m inv (room more)
              (not_self k more) (omega arith) small in
          let (m', e', rest) =
            boot_map_from-Segment fuel (suc k) first.n' m₁ (omega arith) (omega arith) first.mapping
              (λ h. next_room k first.n' m₁ h first.present first.room) in
          (m', boot_map_from-next fuel k m m₁ more e ∙ e', Segment-cons k n m m₁ m' more first rest)
    ]

    pub boot_map_segment-Segment :
        (n : ℕ) (m : Pmap)
        → IsMapping end pgdir self n m
        → HasRoom end pgdir self (pdx (a * 4096)) n m
        → (m' : Pmap) × (boot_map_segment end pgdir (a * 4096) size (b * 4096) perm m
            ≡ some (tt, m'))
          × Segment a size b 0 n m m'
    unfolding boot_map_segment
    boot_map_segment-Segment n m inv room =
        boot_map_from-Segment (size / pgsize + 2) 0 n m (omega arith) (omega arith) inv
          (λ h. let e : a + 0 ≡ a = omega arith in rw e room)

    -- For a segment of pages inside the address space that does not use the directory's entry for
    -- itself, flags below 4096, and a directory whose tables are apart, with frames left for new
    -- tables, boot_map_segment returns; afterwards the tables translate every page of the segment
    -- to its frame, and every page outside of the segment that was mapped as before.
    pub boot_map_segment_lem :
        (n : ℕ) (m : Pmap)
        → IsMapping end pgdir self n m
        → HasRoom end pgdir self (pdx (a * 4096)) n m
        → (m' : Pmap) × (boot_map_segment end pgdir (a * 4096) size (b * 4096) perm m
            ≡ some (tt, m'))
          × ((j : ℕ)
              → j * 4096 < size
              → check_va2pa pgdir ((a + j) * 4096) m' ≡ some ((b + j) * 4096, m'))
          × ((u q : ℕ)
              → u < 2 ^ 20
              → (u < a) ⊎ (a * 4096 + size ≤ u * 4096)
              → Maps end pgdir self m (u * 4096) q
              → check_va2pa pgdir (u * 4096) m' ≡ some (q * 4096, m'))
    boot_map_segment_lem n m inv room =
        let (m', e, s) = boot_map_segment-Segment n m inv room in
        (
          m',
          e,
          λ j h.
              check_va2pa-Maps end pgdir self s.n' m' ((a + j) * 4096) (b + j) s.mapping
                (s.mapped j (omega arith) h),
          λ u q fits outside at.
              check_va2pa-Maps end pgdir self s.n' m' (u * 4096) q s.mapping
                (s.others u q fits (ground arith) at),
        )
