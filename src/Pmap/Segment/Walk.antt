-- ===== src/Pmap/Segment/Walk.antt =====
-- boot_pgdir_walk keeps the tables of the directory apart.
use jos_vmx.Base.{
  ℕ, suc, ◌+◌, ◌-◌, ◌*◌, ◌/◌, ◌%◌, ◌≤◌, ◌<◌, ◌≡◌, ◌≢◌, inl, inr, refl, ap, some, arith, ◌==◌,
  Bool-cases,
}
use jos_vmx.Mmu.{word, kernbase, pdx, ptx, pte_addr}
use jos_vmx.Mmu.Address.{pte_addr-eq}
use jos_vmx.Pmap.{Pmap}
use jos_vmx.Pmap.Boot.{paddr}
use jos_vmx.Pmap.Table.{write}
use jos_vmx.Pmap.Table.Walk.{IsMachine, bit_and-pte_p}
use jos_vmx.Pmap.Segment.{boot_install, boot_pgdir_walk}
use jos_vmx.Pmap.Segment.Entries.{entry, IsEntry, entry-IsEntry, boot_alloc_page, boot_entry_of-eq}

module _ (end pgdir self : ℕ) where
  -- The present entries of the directory, but for the entry `self`, name distinct frames below the
  -- next free one, `n`, and none names the directory.
  pub record IsMapping (n : ℕ) (m : Pmap) : Type 0 where
    pub machine : IsMachine m
    pub next : m.nextfree ≡ kernbase + n * 4096
    pub directory : pgdir < n
    pub within : n < m.npages
    pub below : (d : ℕ) → d ≢ self → m.phys pgdir d % 2 ≡ 1 → m.phys pgdir d / 4096 < n
    pub small : (d : ℕ) → d ≢ self → m.phys pgdir d % 2 ≡ 1 → m.phys pgdir d < word
    pub other : (d : ℕ) → d ≢ self → m.phys pgdir d % 2 ≡ 1 → m.phys pgdir d / 4096 ≢ pgdir
    pub apart :
        (d e : ℕ)
        → d ≢ self
        → e ≢ self
        → d ≢ e
        → m.phys pgdir d % 2 ≡ 1
        → m.phys pgdir e % 2 ≡ 1
        → m.phys pgdir d / 4096 ≢ m.phys pgdir e / 4096

  -- There are frames for the tables from the directory's entry `d` on.
  abbrev pub HasRoom : ℕ → ℕ → Pmap → Type 0
  HasRoom d n m =
      (d < 1024)
      × (m.phys pgdir d % 2 ≡ 1 → n + 1024 ≤ m.npages + d)
      × (m.phys pgdir d % 2 ≡ 0 → n + 1025 ≤ m.npages + d)

  -- What the walk to the directory's entry `d` changes.
  pub record Walked (d n : ℕ) (m m' : Pmap) : Type 0 where
    pub n' : ℕ
    pub mapping : IsMapping n' m'
    pub room : n' + 1024 ≤ m'.npages + d
    pub present : m'.phys pgdir d % 2 ≡ 1
    pub entries : (e : ℕ) → m.phys pgdir e % 2 ≡ 1 → m'.phys pgdir e ≡ m.phys pgdir e
    pub frames : (f i : ℕ) → f ≢ pgdir → m'.phys f i ≡ m.phys f i
    pub untouched : (e : ℕ) → d ≢ e → m'.phys pgdir e ≡ m.phys pgdir e
    pub pages : m'.npages ≡ m.npages

  module _ (la create n : ℕ) (m : Pmap) (inv : IsMapping n m) (not_self : pdx la ≢ self) where
    present-Walked : HasRoom (pdx la) n m → m.phys pgdir (pdx la) % 2 ≡ 1 → Walked (pdx la) n m m
    present-Walked room h = record {
      n' = n;
      mapping = inv;
      room = room.1 h;
      present = h;
      entries = λ e p. refl;
      frames = λ f i p. refl;
      untouched = λ e ne. refl;
      pages = refl;
    }

    -- The state with a new table for `la`.
    abbrev pub installed : Pmap
    installed =
        write pgdir (pdx la) (entry (n * 4096) create)
          (record m { nextfree = kernbase + suc n * 4096 })

    installed-IsMapping :
        IsEntry n (entry (n * 4096) create) → suc n < m.npages → IsMapping (suc n) installed
    installed-IsMapping new fits = record {
      machine = inv.machine;
      next = refl;
      directory = omega (arith, inv.directory);
      within = fits;
      below = λ d s p. ground (arith, inv.below d s, new.names);
      small = λ d s p. ground (arith, inv.small d s, new.fits);
      other = λ d s p. ground (arith, inv.other d s, new.names, inv.directory);
      apart = λ d e s t ne p q.
          ground (arith, inv.apart d e s t ne, inv.below d s, inv.below e t, new.names);
    }

    installed-Walked :
        IsEntry n (entry (n * 4096) create)
        → HasRoom (pdx la) n m
        → m.phys pgdir (pdx la) % 2 ≡ 0
        → Walked (pdx la) n m installed
    installed-Walked new room h = record {
      n' = suc n;
      mapping = installed-IsMapping new (omega (arith, room.2 h, room.0));
      room = omega (arith, room.2 h);
      present = ground (arith, new.present);
      entries = λ e p.
          let ne : pdx la ≢ e = λ same. omega (arith, ap (λ d. m.phys pgdir d) same) in
          ground arith;
      frames = λ f i p. ground arith;
      untouched = λ e ne. ground arith;
      pages = refl;
    }

    install_lem :
        create < 4096
        → n < 65535
        → IsEntry n (entry (n * 4096) create)
        → suc n < m.npages
        → boot_install end pgdir la create
            (kernbase + n * 4096)
            (record m { nextfree = kernbase + suc n * 4096 })
          ≡ some (some (n, ptx la), installed)
    unfolding boot_install paddr
    install_lem small word_fits new fits =
        let aligned : pte_addr (n * 4096) ≡ n * 4096 = omega (arith, pte_addr-eq (n * 4096)) in
        let at : installed.phys pgdir (pdx la) ≡ entry (n * 4096) create = ground arith in
        let entry_at : IsEntry n (installed.phys pgdir (pdx la)) = rw at new in
        let offset : kernbase + n * 4096 - kernbase ≡ n * 4096 = omega arith in
        ground (
          arith,
          aligned,
          offset,
          boot_entry_of-eq end pgdir la n installed inv.machine entry_at (omega arith),
        )

    -- The walk finds or makes the table for `la` and returns the entry of `la` in it.
    pub boot_pgdir_walk-Walked :
        create < 4096
        → create ≢ 0
        → HasRoom (pdx la) n m
        → (m' : Pmap) × (boot_pgdir_walk end pgdir la create m
            ≡ some (some (m'.phys pgdir (pdx la) / 4096, ptx la), m'))
          × Walked (pdx la) n m m'
    unfolding boot_pgdir_walk
    boot_pgdir_walk-Walked small creates room = elim (Bool-cases (m.phys pgdir (pdx la) % 2 == 0)) [
      | inl absent ↦
          let even : m.phys pgdir (pdx la) % 2 ≡ 0 = ground arith in
          let new = entry-IsEntry n create (omega (arith, inv.within, inv.machine)) small in
          let fits : suc n < m.npages = omega (arith, room.2 even, room.0) in
          (
            installed,
            ground (
              arith,
              bit_and-pte_p (m.phys pgdir (pdx la)),
              boot_alloc_page end n m inv.next (omega (arith, inv.machine)),
              install_lem small (omega (arith, inv.machine)) new fits,
              new.names,
            ),
            installed-Walked new room even,
          )
      | inr there ↦
          let odd : m.phys pgdir (pdx la) % 2 ≡ 1 = ground arith in
          (
            m,
            ground (
              arith,
              bit_and-pte_p (m.phys pgdir (pdx la)),
              boot_entry_of-eq end pgdir la (m.phys pgdir (pdx la) / 4096) m inv.machine
                  (record { present = odd; names = refl; fits = inv.small (pdx la) not_self odd })
                  (omega (arith, inv.below (pdx la) not_self odd, inv.within)),
            ),
            present-Walked room odd,
          )
    ]
