-- ===== src/Pmap/Check/Iff.antt =====
-- boot_mem_check decides whether the kernel's part of the address space is mapped.
use jos_vmx.Base.{
  ℕ, ◌+◌, ◌-◌, ◌*◌, ◌%◌, ◌≤◌, ◌<◌, ◌≡◌, ◌≢◌, ◌↔◌, refl, ◌∙◌, Option, none, some, Bool, true, false,
  not, ltb, ◌==◌, arith, Bool-cases, inl, inr,
}
use mathlib.Core.Path.{sym, subst, ap}
use mathlib.Core.Option.{some-injective}
use jos_vmx.Mmu.{word, pgsize, kernbase, vpt, kstksize, pdx}
use jos_vmx.Pmap.{Pmap, M, pure, ◌>>=◌, ◌>>◌}
use jos_vmx.Pmap.Boot.{paddr}
use jos_vmx.Pmap.Table.{check_va2pa}
use jos_vmx.Pmap.Check.{assert_from, assert_from_lem, phys_at, stack_at, pde_at, boot_mem_check}
use jos_vmx.Pmap.Check.Reads.{Reads, Reads-bind, check_va2pa-Reads, assert_from_sound}

-- Two steps that succeed.
both_succeed :
    (c d : M (Unit {0})) (m m' : Pmap)
    → (c >> d) m ≡ some (tt, m')
    → (m₁ : Pmap) × (c m ≡ some (tt, m₁)) × (d m₁ ≡ some (tt, m'))
both_succeed c d m m' = split (c m)
  where
    split :
        (r : Option (Unit {0} × Pmap))
        → (elim r [ none ↦ none | some (a, m₁) ↦ d m₁ ]) ≡ some (tt, m')
        → (m₁ : Pmap) × (r ≡ some (tt, m₁)) × (d m₁ ≡ some (tt, m'))
    split none e = absurd (ground (arith, e))
    split (some (_, m₁)) e = (m₁, refl, e)

-- A test that compares what is read with `x`.
compared :
    (c : M ℕ) (f : ℕ → M Bool) (x : ℕ) (m : Pmap)
    → Reads (c m) m
    → ((pa : ℕ) → f pa m ≡ some (pa == x, m))
    → ((c >>= f) m ≡ some (true, m)) ↔ (c m ≡ some (x, m))
unfolding Reads
compared c f x m h k = (finds (c m) h, λ e. rw (e, ◌>>=◌) (k x ∙ itself))
  where
    itself : pure (x == x) m ≡ some (true, m)
    itself = ground arith

    finds :
        (r : Option (ℕ × Pmap))
        → Reads r m
        → (elim r [ none ↦ none | some (pa, m₁) ↦ f pa m₁ ]) ≡ some (true, m)
        → r ≡ some (x, m)
    finds none h e = absurd (ground (arith, e))
    finds (some (pa, m₁)) h e =
        let same : f pa m ≡ some (true, m) = subst (λ s. f pa s ≡ some (true, m)) h e in
        let there : pa ≡ x = ground (arith, sym (k pa) ∙ same) in rw (h, there) refl

module _ (pgdir bootstack : ℕ) (m : Pmap) where
  phys_at_iff :
      (j : ℕ)
      → j < 65536
      → (phys_at pgdir bootstack (j * 4096) m ≡ some (true, m))
        ↔ (check_va2pa pgdir (kernbase + j * 4096) m ≡ some (j * 4096, m))
  unfolding phys_at
  phys_at_iff j h =
      let va : (kernbase + j * 4096) % word ≡ kernbase + j * 4096 = omega arith in
      rw va (
        compared (check_va2pa pgdir (kernbase + j * 4096)) (λ pa. pure (pa == j * 4096)) (j * 4096)
          m (check_va2pa-Reads pgdir (kernbase + j * 4096) m) (λ pa. refl))

  kernel_paddr : kernbase ≤ bootstack → paddr bootstack m ≡ some (bootstack - kernbase, m)
  unfolding paddr
  kernel_paddr low = let kernel : ltb bootstack kernbase ≡ false = ground arith in rw kernel refl

  stack_at_iff :
      (j : ℕ)
      → kernbase ≤ bootstack
      → bootstack + kstksize ≤ word + kernbase
      → j < 8
      → (stack_at pgdir bootstack (j * 4096) m ≡ some (true, m)) ↔ (
          check_va2pa pgdir (vpt - kstksize + j * 4096) m
          ≡ some (bootstack - kernbase + j * 4096, m))
  unfolding stack_at
  stack_at_iff j low high h =
      compared (check_va2pa pgdir (vpt - kstksize + j * 4096))
        (λ pa. paddr bootstack >>= λ stack. pure (pa == (stack + j * 4096) % word))
        (bootstack - kernbase + j * 4096) m (check_va2pa-Reads pgdir (vpt - kstksize + j * 4096) m)
        (λ pa.
          let pa' : (bootstack - kernbase + j * 4096) % word ≡ bootstack - kernbase + j * 4096 =
            omega arith in
          rw (kernel_paddr low, ◌>>=◌) (rw pa' refl))

  pde_at_iff :
      (d : ℕ)
      → (pde_at pgdir bootstack d m ≡ some (true, m))
        ↔ ((d < 0x3be → m.phys pgdir d ≡ 0) × (0x3be ≤ d → m.phys pgdir d ≢ 0))
  unfolding pde_at
  pde_at_iff d =
      let v : pdx vpt ≡ 0x3bf = unfold pdx in refl in
      let s : pdx (vpt - 1) ≡ 0x3be = unfold pdx in refl in
      let k : pdx kernbase ≡ 0x3c0 = unfold pdx in refl in
      (
        λ e. (λ h. ground (arith, v, s, k, e), λ h z. ground (arith, v, s, k, e, z)),
        λ p. ground (arith, v, s, k, p.0, p.1),
      )

  -- The kernel's part of the address space: the physical memory from KERNBASE on, the kernel's stack
  -- below KSTACKTOP, an entry of the directory for each from the stack's on, and none below it.
  pub record IsKernelSpace : Type 0 where
    pub memory :
        (j : ℕ) → j < 65536 → check_va2pa pgdir (kernbase + j * 4096) m ≡ some (j * 4096, m)
    pub stack :
        (j : ℕ)
        → j < 8
        → check_va2pa pgdir (vpt - kstksize + j * 4096) m
          ≡ some (bootstack - kernbase + j * 4096, m)
    pub directory :
        (d : ℕ) → d < 1024 → (d < 0x3be → m.phys pgdir d ≡ 0) × (0x3be ≤ d → m.phys pgdir d ≢ 0)

  abbrev memory_loop : M (Unit {0})
  memory_loop =
      assert_from 65537 (λ i. not ((kernbase + i) % word == 0)) pgsize (phys_at pgdir bootstack) 0

  abbrev stack_loop : M (Unit {0})
  stack_loop = assert_from 9 (λ i. ltb i kstksize) pgsize (stack_at pgdir bootstack) 0

  abbrev pde_loop : M (Unit {0})
  pde_loop = assert_from 1025 (λ i. ltb i 1024) 1 (pde_at pgdir bootstack) 0

  module _
      (passes : (j : ℕ) → j < 65536 → phys_at pgdir bootstack (j * 4096) m ≡ some (true, m)) where
    memory_loop_ends : memory_loop m ≡ some (tt, m)
    memory_loop_ends =
        assert_from_lem (λ i. not ((kernbase + i) % word == 0)) pgsize (phys_at pgdir bootstack) m
          (λ j. j * 4096) 65536 0 (λ j h. omega arith) (λ j h. ground arith) refl passes

  module _ (passes : (j : ℕ) → j < 8 → stack_at pgdir bootstack (j * 4096) m ≡ some (true, m)) where
    stack_loop_ends : stack_loop m ≡ some (tt, m)
    stack_loop_ends =
        assert_from_lem (λ i. ltb i kstksize) pgsize (stack_at pgdir bootstack) m (λ j. j * 4096) 8
          0 (λ j h. omega arith) (λ j h. ground arith) refl passes

  module _ (passes : (d : ℕ) → d < 1024 → pde_at pgdir bootstack d m ≡ some (true, m)) where
    pde_loop_ends : pde_loop m ≡ some (tt, m)
    pde_loop_ends =
        assert_from_lem (λ i. ltb i 1024) 1 (pde_at pgdir bootstack) m (λ j. j) 1024 0
          (λ j h. omega arith) (λ j h. ground arith) refl passes

  phys_at-Reads : (i : ℕ) → Reads (phys_at pgdir bootstack i m) m
  unfolding phys_at Reads
  phys_at-Reads i =
      Reads-bind (check_va2pa pgdir ((kernbase + i) % word)) (λ pa. pure (pa == i)) m
        (check_va2pa-Reads pgdir ((kernbase + i) % word) m) (λ pa. refl)

  paddr-Reads : Reads (paddr bootstack m) m
  unfolding paddr Reads
  paddr-Reads = elim (Bool-cases (ltb bootstack kernbase)) [ inl t ↦ rw t _ | inr t ↦ rw t refl ]

  stack_at-Reads : (i : ℕ) → Reads (stack_at pgdir bootstack i m) m
  unfolding stack_at Reads
  stack_at-Reads i =
      Reads-bind (check_va2pa pgdir (vpt - kstksize + i))
        (λ pa. paddr bootstack >>= λ stack. pure (pa == (stack + i) % word)) m
        (check_va2pa-Reads pgdir (vpt - kstksize + i) m)
        (λ pa.
          Reads-bind (paddr bootstack) (λ stack. pure (pa == (stack + i) % word)) m paddr-Reads
            (λ stack. refl))

  pde_at-Reads : (i : ℕ) → Reads (pde_at pgdir bootstack i m) m
  unfolding pde_at Reads
  pde_at-Reads i = ground arith

  boot_mem_check_ends :
      memory_loop m ≡ some (tt, m)
      → stack_loop m ≡ some (tt, m)
      → pde_loop m ≡ some (tt, m)
      → boot_mem_check pgdir bootstack m ≡ some (tt, m)
  unfolding boot_mem_check
  boot_mem_check_ends a b c = rw (a, ◌>>=◌) (rw (b, ◌>>=◌) c)

  -- A run that succeeds has passed every test, in each of the loops.
  boot_mem_check_sound :
      boot_mem_check pgdir bootstack m ≡ some (tt, m)
      → ((j : ℕ) → j < 65536 → phys_at pgdir bootstack (j * 4096) m ≡ some (true, m))
        × ((j : ℕ) → j < 8 → stack_at pgdir bootstack (j * 4096) m ≡ some (true, m))
        × ((d : ℕ) → d < 1024 → pde_at pgdir bootstack d m ≡ some (true, m))
  unfolding boot_mem_check
  boot_mem_check_sound e =
      let (m₁, e₁, rest) = both_succeed memory_loop (stack_loop >> pde_loop) m m e in
      let first = λ (j : ℕ) (h : j < 65536).
        assert_from_sound (λ i. not ((kernbase + i) % word == 0)) pgsize (phys_at pgdir bootstack) m
          phys_at-Reads (λ j. j * 4096) 65536 0 m₁ (λ j h. omega arith) (λ j h. ground arith) e₁ j
          (omega arith) (omega (arith, h)) in
      let same₁ = some-injective _ _ (sym (memory_loop_ends first) ∙ e₁) in
      let (m₂, e₂, third) =
        both_succeed stack_loop pde_loop m m (
          subst (λ s. (stack_loop >> pde_loop) s ≡ some (tt, m)) (sym (ap (λ p. p.1) same₁))
            rest) in
      let second = λ (j : ℕ) (h : j < 8).
        assert_from_sound (λ i. ltb i kstksize) pgsize (stack_at pgdir bootstack) m stack_at-Reads
          (λ j. j * 4096) 8 0 m₂ (λ j h. omega arith) (λ j h. ground arith) e₂ j (omega arith)
          (omega (arith, h)) in
      let same₂ = some-injective _ _ (sym (stack_loop_ends second) ∙ e₂) in
      (
        first,
        second,
        λ d h.
            assert_from_sound (λ i. ltb i 1024) 1 (pde_at pgdir bootstack) m pde_at-Reads (λ j. j)
              1024 0 m (λ j h. omega arith) (λ j h. ground arith)
              (subst (λ s. pde_loop s ≡ some (tt, m)) (sym (ap (λ p. p.1) same₂)) third) d
              (omega arith) (omega (arith, h)),
      )

  -- For a kernel stack above KERNBASE whose end does not wrap around, boot_mem_check succeeds, and
  -- changes nothing, exactly when the page directory maps the kernel's part of the address space:
  -- all of the physical memory from KERNBASE on and the stack below KSTACKTOP are mapped, every
  -- entry of the directory from the stack's on, that for VPT included, is not 0, and every entry
  -- below the stack's is 0.
  pub boot_mem_check_iff :
      kernbase ≤ bootstack
      → bootstack + kstksize ≤ word + kernbase
      → (boot_mem_check pgdir bootstack m ≡ some (tt, m)) ↔ IsKernelSpace
  boot_mem_check_iff low high = (
    λ e.
        let (memory, stack, pdes) = boot_mem_check_sound e in
        record {
          memory = λ j h. (phys_at_iff j h).0 (memory j h);
          stack = λ j h. (stack_at_iff j low high h).0 (stack j h);
          directory = λ d h. (pde_at_iff d).0 (pdes d h);
        },
    λ space.
        boot_mem_check_ends (memory_loop_ends (λ j h. (phys_at_iff j h).1 (space.memory j h)))
          (stack_loop_ends (λ j h. (stack_at_iff j low high h).1 (space.stack j h)))
          (pde_loop_ends (λ d h. (pde_at_iff d).1 (space.directory d h))),
  )
