-- ===== src/Pmap/Segment/Map.antt =====
-- boot_map_page writes one mapping and keeps the others.
use jos_vmx.Base.{
  ℕ, ◌+◌, ◌*◌, ◌/◌, ◌%◌, ◌^◌, ◌≤◌, ◌<◌, ◌≡◌, ◌≢◌, ◌⊎◌, refl, ◌∙◌, some, arith, bit_or,
}
use native.Mathlib.Decide.{ℕ_discrete}
use jos_vmx.Base.Bits.{bit_or-lt, bit_or_step}
use jos_vmx.Mmu.{pte_p, pdx, ptx, pte_addr}
use jos_vmx.Mmu.Address.{pte_addr-eq}
use jos_vmx.Pmap.{Pmap}
use jos_vmx.Pmap.Table.{write, check_va2pa}
use jos_vmx.Pmap.Table.Walk.{IsMachine, frame_at-eq, bit_and-pte_p}
use jos_vmx.Pmap.Segment.{boot_pgdir_walk, boot_map_page}
use jos_vmx.Pmap.Segment.Entries.{entry, IsEntry, entry-IsEntry}
use jos_vmx.Pmap.Segment.Walk.{IsMapping, HasRoom, Walked, boot_pgdir_walk-Walked}

module _ (end pgdir self : ℕ) where
  -- The tables map the page at `va` to the frame `p`.
  pub record Maps (m : Pmap) (va p : ℕ) : Type 0 where
    pub not_self : pdx va ≢ self
    pub present : m.phys pgdir (pdx va) % 2 ≡ 1
    pub leads : IsEntry p (m.phys (m.phys pgdir (pdx va) / 4096) (ptx va))

  pub check_va2pa-IsEntry :
      (m : Pmap) (va f p : ℕ)
      → IsMachine m
      → f < m.npages
      → IsEntry f (m.phys pgdir (pdx va))
      → IsEntry p (m.phys f (ptx va))
      → check_va2pa pgdir va m ≡ some (p * 4096, m)
  unfolding check_va2pa
  check_va2pa-IsEntry m va f p machine inside table leaf =
      let x = m.phys pgdir (pdx va) in
      let y = m.phys f (ptx va) in
      let at : pte_addr x ≡ f * 4096 = omega (arith, pte_addr-eq x table.fits, table.names) in
      let page : pte_addr y ≡ p * 4096 = omega (arith, pte_addr-eq y leaf.fits, leaf.names) in
      ground (
        arith,
        bit_and-pte_p x,
        bit_and-pte_p y,
        at,
        page,
        table.present,
        leaf.present,
        frame_at-eq m f machine inside,
      )

  pub check_va2pa-Maps :
      (n : ℕ) (m : Pmap) (va p : ℕ)
      → IsMapping end pgdir self n m
      → Maps m va p
      → check_va2pa pgdir va m ≡ some (p * 4096, m)
  check_va2pa-Maps n m va p inv at =
      check_va2pa-IsEntry m va (m.phys pgdir (pdx va) / 4096) p inv.machine
        (omega (arith, inv.below (pdx va) at.not_self at.present, inv.within))
        (record {
          present = at.present;
          names = refl;
          fits = inv.small (pdx va) at.not_self at.present;
        })
        at.leads

  module _ (n : ℕ) (m : Pmap) (inv : IsMapping end pgdir self n m) where
    write-IsMapping : (t i v : ℕ) → t ≢ pgdir → IsMapping end pgdir self n (write t i v m)
    write-IsMapping t i v ne =
        let same : (write t i v m).phys pgdir ≡ m.phys pgdir = ground arith in
        record {
          machine = inv.machine;
          next = inv.next;
          directory = inv.directory;
          within = inv.within;
          below = rw same inv.below;
          small = rw same inv.small;
          other = rw same inv.other;
          apart = rw same inv.apart;
        }

    walk-Maps :
        (d k : ℕ) (m' : Pmap) (va q : ℕ)
        → Walked end pgdir self d k m m'
        → Maps m va q
        → Maps m' va q
    walk-Maps d k m' va q walked at =
        let same = walked.entries (pdx va) at.present in
        let kept =
          walked.frames (m.phys pgdir (pdx va) / 4096) (ptx va)
            (inv.other (pdx va) at.not_self at.present) in
        record {
          not_self = at.not_self;
          present = rw same at.present;
          leads = rw (same, kept) at.leads;
        }

    module _ (la v : ℕ) (not_self : pdx la ≢ self) (present : m.phys pgdir (pdx la) % 2 ≡ 1) where
      abbrev written : Pmap
      written = write (m.phys pgdir (pdx la) / 4096) (ptx la) v m

      table-ne : m.phys pgdir (pdx la) / 4096 ≢ pgdir
      table-ne = inv.other (pdx la) not_self present

      written_directory : (d : ℕ) → written.phys pgdir d ≡ m.phys pgdir d
      written_directory d = ground (arith, table-ne)

      written-Maps : (p : ℕ) → IsEntry p v → Maps written la p
      written-Maps p new =
          let same = written_directory (pdx la) in
          let leaf : written.phys (m.phys pgdir (pdx la) / 4096) (ptx la) ≡ v = ground arith in
          record { not_self = not_self; present = rw same present; leads = rw (same, leaf) new }

      leaf_other :
          (va q : ℕ)
          → (pdx va ≢ pdx la) ⊎ (ptx va ≢ ptx la)
          → Maps m va q
          → written.phys (m.phys pgdir (pdx va) / 4096) (ptx va)
            ≡ m.phys (m.phys pgdir (pdx va) / 4096) (ptx va)
      leaf_other va q ne at = elim (ℕ_discrete (pdx va) (pdx la)) [
        | yes e ↦ ground arith
        | no d ↦
            let differ = inv.apart (pdx va) (pdx la) at.not_self not_self d at.present present in
            ground arith
      ]

      written-Maps_other :
          (va q : ℕ) → (pdx va ≢ pdx la) ⊎ (ptx va ≢ ptx la) → Maps m va q → Maps written va q
      written-Maps_other va q ne at =
          let same = written_directory (pdx va) in
          record {
            not_self = at.not_self;
            present = rw same at.present;
            leads = rw (same, leaf_other va q ne at) at.leads;
          }

  -- What one round changes: `n'` frames are in use after it.
  pub record Mapped (la p n : ℕ) (m m' : Pmap) : Type 0 where
    pub n' : ℕ
    pub mapping : IsMapping end pgdir self n' m'
    pub room : n' + 1024 ≤ m'.npages + pdx la
    pub present : m'.phys pgdir (pdx la) % 2 ≡ 1
    pub maps : Maps m' la p
    pub others : (va q : ℕ) → (pdx va ≢ pdx la) ⊎ (ptx va ≢ ptx la) → Maps m va q → Maps m' va q
    pub untouched : (e : ℕ) → pdx la ≢ e → m'.phys pgdir e ≡ m.phys pgdir e
    pub pages : m'.npages ≡ m.npages

  flags_fit : (perm : ℕ) → perm < 4096 → (bit_or pte_p perm < 4096) × (bit_or pte_p perm ≢ 0)
  flags_fit perm h = (bit_or-lt 12 1 perm (omega arith) h, λ e. omega (arith, bit_or_step 1 perm))

  boot_map_page-eq :
      (la pa perm t i : ℕ) (m m₁ : Pmap)
      → boot_pgdir_walk end pgdir la (bit_or pte_p perm) m ≡ some (some (t, i), m₁)
      → boot_map_page end pgdir la pa perm m ≡ some (tt, write t i (entry pa perm) m₁)
  unfolding boot_map_page
  boot_map_page-eq la pa perm t i m m₁ e = rw (e, boot_map_page) refl

  pub boot_map_page-Mapped :
      (la p perm n : ℕ) (m : Pmap)
      → IsMapping end pgdir self n m
      → HasRoom end pgdir self (pdx la) n m
      → pdx la ≢ self
      → p < 2 ^ 20
      → perm < 4096
      → (m' : Pmap) × (boot_map_page end pgdir la (p * 4096) perm m ≡ some (tt, m'))
        × Mapped la p n m m'
  boot_map_page-Mapped la p perm n m inv room not_self frame small =
      let flags = flags_fit perm small in
      let (m₁, e, w) =
        boot_pgdir_walk-Walked end pgdir self la (bit_or pte_p perm) n m inv not_self flags.0
          flags.1 room in
      let v = entry (p * 4096) perm in
      let new = entry-IsEntry p perm frame small in
      let ne = w.mapping.other (pdx la) not_self w.present in
      (
        written w.n' m₁ w.mapping la v not_self w.present,
        boot_map_page-eq la (p * 4096) perm (m₁.phys pgdir (pdx la) / 4096) (ptx la) m m₁ e,
        record {
          n' = w.n';
          mapping = write-IsMapping w.n' m₁ w.mapping (m₁.phys pgdir (pdx la) / 4096) (ptx la) v ne;
          room = w.room;
          present =
              rw (written_directory w.n' m₁ w.mapping la v not_self w.present (pdx la)) w.present;
          maps = written-Maps w.n' m₁ w.mapping la v not_self w.present p new;
          others = λ va q d at.
              written-Maps_other w.n' m₁ w.mapping la v not_self w.present va q d
                (walk-Maps n m inv (pdx la) n m₁ va q w at);
          untouched = λ d other.
              written_directory w.n' m₁ w.mapping la v not_self w.present d ∙ w.untouched d other;
          pages = w.pages;
        },
      )
