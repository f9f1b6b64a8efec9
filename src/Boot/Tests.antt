-- ===== src/Boot/Tests.antt =====
-- The boot loader on a disk whose kernel has one segment.
use jos_vmx.Base.{
  ℕ, ◌+◌, ◌-◌, ◌*◌, ◌%◌, ◌^◌, ◌<◌, ◌≡◌, ◌≢◌, refl, inl, some, arith, bit_and, ◌==◌, if◌then◌else◌,
}
use jos_vmx.Boot.{Memory, entered, bad, readseg, word_at, half_at, bootmain}
use jos_vmx.Boot.Segment.{Loaded, readseg-Loaded}
use jos_vmx.Boot.Header.{file_word, file_half, IsLoadable}
use jos_vmx.Boot.Load.{HasSegments, bootmain_lem}

-- The header: entry 0xf010000c and one program header at 52, of 0x300 bytes at the offset 0x1000
-- for the address 0xf0100000, and 0x500 bytes in memory.
file : ℕ → ℕ
file p =
    if p == 0
    then 0x7f
    else if p == 1
    then 0x45
    else if p == 2
    then 0x4c
    else if p == 3
    then 0x46
    else if p == 24
    then 0x0c
    else if p == 26
    then 0x10
    else if p == 27
    then 0xf0
    else if p == 28
    then 52
    else if p == 44
    then 1
    else if p == 57
    then 0x10
    else if p == 62
    then 0x10
    else if p == 63
    then 0xf0
    else if p == 69
    then 3
    else if p == 73
    then 5
    else 0

disk : ℕ → ℕ
disk p = file (p - 512)

abbrev blank : Memory
blank a = 0

readseg-Loaded_example :
    (mem' : Memory) × (readseg disk 0xf010_0000 0x300 0x500 0x1000 blank ≡ some mem')
    × Loaded disk (0xf010_0000 % 2 ^ 24) 0x300 0x500 0x1000 blank mem'
readseg-Loaded_example =
    readseg-Loaded disk 0xf010_0000 0x300 0x500 0x1000 blank (omega arith) (omega arith)
      (omega arith) (omega arith)

fields :
    (file_word disk 0 ≡ 0x464c_457f)
    × (file_word disk 28 ≡ 52)
    × (file_half disk 44 ≡ 1)
    × (file_word disk (52 + 8) ≡ 0xf010_0000)
    × (file_word disk (52 + 4) ≡ 0x1000)
    × (file_word disk (52 + 16) ≡ 0x300)
    × (file_word disk (52 + 20) ≡ 0x500)
unfolding word_at half_at disk file
fields = (refl, refl, refl, refl, refl, refl, refl)

first-IsLoadable : IsLoadable disk 52
first-IsLoadable = record {
  aligned = omega (arith, fields);
  file_small = omega (arith, fields);
  memory_small = omega (arith, fields);
  offset_small = omega (arith, fields);
  apart = inl (omega (arith, fields));
}

all-IsLoadable : (i : ℕ) → i < file_half disk 44 → IsLoadable disk (file_word disk 28 + i * 32)
all-IsLoadable i h =
    let at : file_word disk 28 + i * 32 ≡ 52 = omega (arith, fields) in rw at first-IsLoadable

bootmain_lem_example :
    (file_word disk 0 ≢ 0x464c_457f → (mem' : Memory) × (bootmain disk blank ≡ some (bad mem')))
    × (file_word disk 0 ≡ 0x464c_457f
        → (mem₁ : Memory) × (mem' : Memory) × (bootmain disk blank
            ≡ some (entered (bit_and (file_word disk 24) 0xff_ffff) mem'))
          × HasSegments disk (file_word disk 28) (file_half disk 44) mem₁ mem')
bootmain_lem_example = bootmain_lem disk blank (omega (arith, fields)) all-IsLoadable
