-- ===== src/Boot.antt =====
-- boot/main.c: the boot loader. Memory is a function from an address to a byte, and the disk, a
-- parameter, is a function from a position to a byte; what readsect asks of the disk controller
-- is one sector of the disk. A read of memory is as the processor makes it, low byte first.
pub mod Sectors
pub mod Segment
pub mod Header
pub mod Load
mod Tests
use jos_vmx.Base.{
  ℕ, zero, suc, ◌+◌, ◌-◌, ◌*◌, ◌/◌, ◌%◌, ◌^◌, Bool, true, false, Option, none, some, ◌&&◌, leb, ltb,
  ◌==◌, if◌then◌else◌, update, bit_and,
}
use jos_vmx.Mmu.{word}

abbrev pub sectsize : ℕ
sectsize = 512

abbrev pub Memory : Type 0
Memory = ℕ → ℕ

abbrev pub elfhdr : ℕ
elfhdr = 0x1_0000

abbrev pub elf_magic : ℕ
elf_magic = 0x464c_457f

-- How bootmain ends: it jumps to the entry point, or it gives up.
pub data Booted : Type 0 where
  entered : ℕ → Memory → Booted
  bad : Memory → Booted

module _ (disk : ℕ → ℕ) where
  -- The sector `offset` at `dst`: `insl` stores SECTSIZE / 4 words.
  unfoldable pub readsect : ℕ → ℕ → Memory → Memory
  readsect dst offset mem a =
      if leb dst a && ltb a (dst + sectsize) then disk (offset * sectsize + (a - dst)) else mem a

  -- The first loop of `readseg`; without fuel it would go on.
  unfoldable pub read_sectors : ℕ → ℕ → ℕ → ℕ → Memory → Option Memory
  read_sectors zero va end_va offset mem = none
  read_sectors (suc fuel) va end_va offset mem =
      let rest =
        read_sectors fuel ((va + sectsize) % word) end_va ((offset + 1) % word)
          (readsect va offset mem) in
      if ltb va end_va then rest else some mem

  -- The second loop.
  unfoldable pub clear_bss : ℕ → ℕ → ℕ → Memory → Option Memory
  clear_bss zero end_va memsz mem = none
  clear_bss (suc fuel) end_va memsz mem =
      let rest = clear_bss fuel ((end_va + 1) % word) memsz (update mem end_va 0) in
      if ltb end_va memsz then rest else some mem

  -- A round for each sector or byte, and one for the last test.
  unfoldable pub readseg : ℕ → ℕ → ℕ → ℕ → Memory → Option Memory
  readseg va filesz memsz offset mem =
      let start = bit_and va 0xff_ffff in
      let end_va = (start + filesz) % word in
      let end_mem = (memsz + start) % word in
      elim (read_sectors (end_va / sectsize + 2) (bit_and start (word - sectsize)) end_va
        (offset / sectsize + 1) mem) [
          | none ↦ none
          | some mem₁ ↦ clear_bss (end_mem + 1) end_va end_mem mem₁
        ]

  -- A field of 32 or of 16 bits.
  unfoldable pub word_at : Memory → ℕ → ℕ
  word_at mem a = mem a + mem (a + 1) * 2 ^ 8 + mem (a + 2) * 2 ^ 16 + mem (a + 3) * 2 ^ 24

  unfoldable pub half_at : Memory → ℕ → ℕ
  half_at mem a = mem a + mem (a + 1) * 2 ^ 8

  -- The loop over the program headers, from `ph` on.
  unfoldable pub load_segments : ℕ → ℕ → Memory → Option Memory
  load_segments zero ph mem = some mem
  load_segments (suc left) ph mem =
      elim (readseg (word_at mem (ph + 8)) (word_at mem (ph + 16)) (word_at mem (ph + 20))
        (word_at mem (ph + 4)) mem) [ none ↦ none | some mem₁ ↦ load_segments left (ph + 32) mem₁ ]

  unfoldable pub enter : Option Memory → Option Booted
  enter none = none
  enter (some mem) = some (entered (bit_and (word_at mem (elfhdr + 24)) 0xff_ffff) mem)

  unfoldable pub load_kernel : Memory → Option Booted
  load_kernel mem =
      if word_at mem elfhdr == elf_magic
      then enter
          (load_segments (half_at mem (elfhdr + 44)) (elfhdr + word_at mem (elfhdr + 28)) mem)
      else some (bad mem)

  unfoldable pub loaded_page : Option Memory → Option Booted
  loaded_page none = none
  loaded_page (some mem) = load_kernel mem

  unfoldable pub bootmain : Memory → Option Booted
  bootmain mem = loaded_page (readseg elfhdr 4096 4096 0 mem)
