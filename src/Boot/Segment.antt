-- ===== src/Boot/Segment.antt =====
-- readseg loads a segment of the kernel's file.
use jos_vmx.Base.{
  ℕ, ◌+◌, ◌-◌, ◌*◌, ◌/◌, ◌%◌, ◌^◌, ◌≤◌, ◌<◌, ◌≡◌, inl, inr, ap, ◌∙◌, some, arith, bit_and,
}
use jos_vmx.Base.Bits.{bit_and_mod, bit_and_high}
use jos_vmx.Mmu.{word}
use jos_vmx.Boot.{sectsize, Memory, read_sectors, clear_bss, readseg}
use jos_vmx.Boot.Sectors.{HasRead, HasCleared, read_sectors-HasRead, clear_bss-HasCleared}

-- The segment at `start` has the file's bytes from `offset` on, the kernel's file being at the
-- second sector, then zeros; nothing below its first sector has changed, and nothing that lies both
-- behind its end and from 511 bytes behind the file's part on.
pub record Loaded (disk : ℕ → ℕ) (start filesz memsz offset : ℕ) (mem mem' : Memory) : Type 0 where
  pub file : (k : ℕ) → k < filesz → mem' (start + k) ≡ disk (512 + (offset + k))
  pub zeros : (k : ℕ) → filesz ≤ k → k < memsz → mem' (start + k) ≡ 0
  pub below : (a : ℕ) → a < start / 512 * 512 → mem' a ≡ mem a
  pub behind : (a : ℕ) → start + filesz + 511 ≤ a → start + memsz ≤ a → mem' a ≡ mem a

sector_start : (start : ℕ) → start < 2 ^ 24 → bit_and start (word - sectsize) ≡ start / 512 * 512
sector_start start h =
    ground
      (arith, bit_and_high 9 (start / 512) (start % 512) 0x7f_ffff, bit_and_mod 23 (start / 512))

module _ (disk : ℕ → ℕ) (start filesz memsz offset : ℕ) (aligned : start % 512 ≡ offset % 512)
    {mem mem₁ mem₂ : Memory} where
  both-Loaded :
      HasRead disk (start / 512 * 512) (start + filesz) (offset / 512 + 1) mem mem₁
      → HasCleared disk (start + filesz) (memsz + start) mem₁ mem₂
      → Loaded disk start filesz memsz offset mem mem₂
  both-Loaded read cleared = record {
    file = λ k h.
        let from : (offset / 512 + 1) * 512 + (start + k - start / 512 * 512) ≡ 512 + (offset + k) =
          omega arith in
        cleared.kept (start + k) (inl (omega arith))
        ∙ read.read (start + k) (omega arith) (omega arith)
        ∙ ap disk from;
    zeros = λ k h l. cleared.cleared (start + k) (omega arith) (omega arith);
    below = λ a h. cleared.kept a (inl (omega arith)) ∙ read.kept a (inl h);
    behind = λ a h l. cleared.kept a (inr (omega arith)) ∙ read.kept a (inr h);
  }

readseg-eq :
    (disk : ℕ → ℕ) (va filesz memsz offset : ℕ) (mem mem₁ mem₂ : Memory)
    → filesz < 2 ^ 30
    → memsz < 2 ^ 30
    → read_sectors disk
        ((va % 2 ^ 24 + filesz) / 512 + 2)
        (va % 2 ^ 24 / 512 * 512)
        (va % 2 ^ 24 + filesz)
        (offset / 512 + 1)
        mem
      ≡ some mem₁
    → clear_bss disk (memsz + va % 2 ^ 24 + 1) (va % 2 ^ 24 + filesz) (memsz + va % 2 ^ 24) mem₁
      ≡ some mem₂
    → readseg disk va filesz memsz offset mem ≡ some mem₂
unfolding readseg
readseg-eq disk va filesz memsz offset mem mem₁ mem₂ h k e₁ e₂ =
    let cut : bit_and va 0xff_ffff ≡ va % 2 ^ 24 = bit_and_mod 24 va in
    let end_fits : (va % 2 ^ 24 + filesz) % word ≡ va % 2 ^ 24 + filesz = omega arith in
    let mem_fits : (memsz + va % 2 ^ 24) % word ≡ memsz + va % 2 ^ 24 = omega arith in
    ground (arith, cut, end_fits, mem_fits, sector_start (va % 2 ^ 24) (omega arith), e₁, e₂)

-- If the address and the offset lie at the same place in a sector, the sizes are below 1 GB, and the
-- offset is below 4 GB, readseg returns with the file's bytes at the address cut to 24 bits, then zeros up to the size in
-- memory. It leaves what lies below the first sector, and what lies behind the size in memory and
-- at least 511 bytes behind the last byte of the file's part: the rest of its last sector, which
-- may reach beyond the size in memory, is overwritten.
pub readseg-Loaded :
    (disk : ℕ → ℕ) (va filesz memsz offset : ℕ) (mem : Memory)
    → va % 512 ≡ offset % 512
    → filesz < 2 ^ 30
    → memsz < 2 ^ 30
    → offset < word
    → (mem' : Memory) × (readseg disk va filesz memsz offset mem ≡ some mem')
      × Loaded disk (va % 2 ^ 24) filesz memsz offset mem mem'
readseg-Loaded disk va filesz memsz offset mem aligned h k l =
    let start = va % 2 ^ 24 in
    let (mem₁, e₁, read) =
      read_sectors-HasRead disk ((start + filesz) / 512 + 2) (start / 512 * 512) (start + filesz)
        (offset / 512 + 1) mem (omega arith) (omega arith) (omega arith) (omega arith) in
    let (mem₂, e₂, cleared) =
      clear_bss-HasCleared disk (memsz + start + 1) (start + filesz) (memsz + start) mem₁
        (omega arith) (omega arith) in
    (
      mem₂,
      readseg-eq disk va filesz memsz offset mem mem₁ mem₂ h k e₁ e₂,
      both-Loaded disk start filesz memsz offset (omega arith) read cleared,
    )
