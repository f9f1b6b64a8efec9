-- ===== src/Boot/Header.antt =====
-- The fields of the kernel's header and program headers, read from memory or from the file.
use jos_vmx.Base.{ℕ, ◌+◌, ◌*◌, ◌/◌, ◌%◌, ◌^◌, ◌≤◌, ◌<◌, ◌≡◌, ◌⊎◌, ap, ◌∙◌, arith}
use jos_vmx.Mmu.{word}
use jos_vmx.Boot.{Memory, elfhdr, word_at, half_at}
use jos_vmx.Boot.Segment.{Loaded}

module _ (disk : ℕ → ℕ) where
  -- The kernel's file, and the fields of its `i`th program header.
  abbrev pub kernel_file : Memory
  kernel_file p = disk (512 + p)

  abbrev pub file_word : ℕ → ℕ
  file_word p = word_at disk kernel_file p

  -- The first page of the file is in place.
  pub record HasHeader (mem : Memory) : Type 0 where
    pub at : (p : ℕ) → p < 4096 → mem (elfhdr + p) ≡ kernel_file p

  pub word_at-file :
      (mem : Memory) (p : ℕ)
      → HasHeader mem
      → p + 3 < 4096
      → word_at disk mem (elfhdr + p) ≡ file_word p
  unfolding word_at
  word_at-file mem p h fits = ground (arith, h.at p, h.at (p + 1), h.at (p + 2), h.at (p + 3))

  -- The program header at `p` describes a segment that readseg loads and that does not touch the
  -- page of the header.
  pub record IsLoadable (p : ℕ) : Type 0 where
    pub aligned : file_word (p + 8) % 512 ≡ file_word (p + 4) % 512
    pub file_small : file_word (p + 16) < 2 ^ 30
    pub memory_small : file_word (p + 20) < 2 ^ 30
    pub offset_small : file_word (p + 4) < word
    pub apart :
        (elfhdr + 4096 ≤ file_word (p + 8) % 2 ^ 24 / 512 * 512)
        ⊎ ((file_word (p + 8) % 2 ^ 24 + file_word (p + 16) + 511 ≤ elfhdr)
            × (file_word (p + 8) % 2 ^ 24 + file_word (p + 20) ≤ elfhdr))

  pub Loaded-HasHeader :
      (p : ℕ) (mem mem' : Memory)
      → IsLoadable p
      → HasHeader mem
      → Loaded disk
          (file_word (p + 8) % 2 ^ 24)
          (file_word (p + 16))
          (file_word (p + 20))
          (file_word (p + 4))
          mem
          mem'
      → HasHeader mem'
  Loaded-HasHeader p mem mem' able h done = record {
    at = λ q fits.
        ground (arith, able.apart, h.at q, done.below (elfhdr + q), done.behind (elfhdr + q));
  }

  pub field_at :
      (mem : Memory) (p k : ℕ)
      → HasHeader mem
      → p + k + 3 < 4096
      → word_at disk mem (elfhdr + p + k) ≡ file_word (p + k)
  field_at mem p k header fits =
      let e : elfhdr + p + k ≡ elfhdr + (p + k) = omega arith in
      ap (word_at disk mem) e ∙ word_at-file mem (p + k) header fits

  abbrev pub file_half : ℕ → ℕ
  file_half p = half_at disk kernel_file p

  pub half_at-file :
      (mem : Memory) (p : ℕ)
      → HasHeader mem
      → p + 1 < 4096
      → half_at disk mem (elfhdr + p) ≡ file_half p
  unfolding half_at
  half_at-file mem p h fits = ground (arith, h.at p, h.at (p + 1))
