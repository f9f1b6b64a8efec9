-- ===== src/Boot/Sectors.antt =====
-- The two loops of readseg.
use jos_vmx.Base.{
  ℕ, zero, suc, ◌+◌, ◌-◌, ◌*◌, ◌%◌, ◌≤◌, ◌<◌, ◌≡◌, ◌⊎◌, inl, refl, ap, ◌∙◌, some, update, arith,
}
use native.Mathlib.Decide.{dec_lt}
use jos_vmx.Mmu.{word}
use jos_vmx.Boot.{sectsize, Memory, readsect, read_sectors, clear_bss}

module _ (disk : ℕ → ℕ) where
  readsect_inside :
      (dst offset : ℕ) (mem : Memory) (a : ℕ)
      → dst ≤ a
      → a < dst + 512
      → readsect disk dst offset mem a ≡ disk (offset * 512 + (a - dst))
  unfolding readsect
  readsect_inside dst offset mem a h k = ground arith

  readsect_outside :
      (dst offset : ℕ) (mem : Memory) (a : ℕ)
      → (a < dst) ⊎ (dst + 512 ≤ a)
      → readsect disk dst offset mem a ≡ mem a
  unfolding readsect
  readsect_outside dst offset mem a h = ground arith

  -- What the loop makes of the memory, with `va` at the start of a sector.
  pub record HasRead (va end_va offset : ℕ) (mem mem' : Memory) : Type 0 where
    pub read : (a : ℕ) → va ≤ a → a < end_va → mem' a ≡ disk (offset * 512 + (a - va))
    pub kept : (a : ℕ) → (a < va) ⊎ (end_va + 511 ≤ a) → mem' a ≡ mem a

  HasRead-step :
      (va end_va offset : ℕ) (mem mem' : Memory)
      → va < end_va
      → HasRead (va + 512) end_va (offset + 1) (readsect disk va offset mem) mem'
      → HasRead va end_va offset mem mem'
  HasRead-step va end_va offset mem mem' more rest = record {
    read = λ a h k. elim (dec_lt a (va + 512)) [
      | yes first ↦ rest.kept a (inl first) ∙ readsect_inside va offset mem a h first
      | no later ↦
          let same : (offset + 1) * 512 + (a - (va + 512)) ≡ offset * 512 + (a - va) =
            omega arith in
          rest.read a (omega arith) k ∙ ap disk same
    ];
    kept = λ a out. rest.kept a (ground arith) ∙ readsect_outside va offset mem a (ground arith);
  }

  pub read_sectors-HasRead :
      (fuel va end_va offset : ℕ) (mem : Memory)
      → end_va + 512 ≤ word
      → va < end_va + 512
      → end_va + 512 ≤ va + fuel * 512
      → offset + fuel < word
      → (mem' : Memory) × (read_sectors disk fuel va end_va offset mem ≡ some mem')
        × HasRead va end_va offset mem mem'
  unfolding read_sectors
  read_sectors-HasRead zero va end_va offset mem a b c d = absurd (omega arith)
  read_sectors-HasRead (suc fuel) va end_va offset mem a b c d = elim (dec_lt va end_va) [
    | no done ↦
        (mem, ground arith, record { read = λ x h k. absurd (omega arith); kept = λ x out. refl })
    | yes more ↦
        let (mem', e, rest) =
          read_sectors-HasRead fuel (va + 512) end_va (offset + 1) (readsect disk va offset mem) a
            (omega arith) (omega arith) (omega arith) in
        let next : (va + sectsize) % word ≡ va + 512 = omega arith in
        let sector : (offset + 1) % word ≡ offset + 1 = omega arith in
        (mem', ground (arith, next, sector, e), HasRead-step va end_va offset mem mem' more rest)
  ]

  -- What clearing makes of the memory.
  pub record HasCleared (end_va memsz : ℕ) (mem mem' : Memory) : Type 0 where
    pub cleared : (a : ℕ) → end_va ≤ a → a < memsz → mem' a ≡ 0
    pub kept : (a : ℕ) → (a < end_va) ⊎ (memsz ≤ a) → mem' a ≡ mem a

  pub clear_bss-HasCleared :
      (fuel end_va memsz : ℕ) (mem : Memory)
      → memsz < word
      → memsz - end_va < fuel
      → (mem' : Memory) × (clear_bss disk fuel end_va memsz mem ≡ some mem')
        × HasCleared end_va memsz mem mem'
  unfolding clear_bss
  clear_bss-HasCleared zero end_va memsz mem a b = absurd (omega arith)
  clear_bss-HasCleared (suc fuel) end_va memsz mem a b = elim (dec_lt end_va memsz) [
    | no done ↦ (
      mem,
      ground arith,
      record { cleared = λ x h k. absurd (omega arith); kept = λ x out. refl },
    )
    | yes more ↦
        let (mem', e, rest) =
          clear_bss-HasCleared fuel (end_va + 1) memsz (update mem end_va 0) a (omega arith) in
        let next : (end_va + 1) % word ≡ end_va + 1 = omega arith in
        (
          mem',
          ground (arith, next, e),
          record {
            cleared = λ x h k. ground (arith, rest.cleared x, rest.kept x);
            kept = λ x out. ground (arith, rest.kept x);
          },
        )
  ]
