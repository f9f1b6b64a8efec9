-- ===== src/Boot/Load.antt =====
-- bootmain loads the segments that the kernel's header describes and jumps to its entry.
use jos_vmx.Base.{
  ℕ, zero, suc, ◌+◌, ◌*◌, ◌/◌, ◌%◌, ◌^◌, ◌≤◌, ◌<◌, ◌≡◌, ◌≢◌, ◌⊎◌, refl, ap, ◌∙◌, some, ltb,
  if◌then◌else◌, arith, bit_and,
}
use mathlib.Core.Path.{subst, sym}
use jos_vmx.Boot.{
  Memory, elfhdr, elf_magic, entered, bad, readseg, word_at, load_segments, enter, load_kernel,
  loaded_page, bootmain,
}
use jos_vmx.Boot.Segment.{Loaded, readseg-Loaded}
use jos_vmx.Boot.Header.{
  file_word, file_half, HasHeader, IsLoadable, word_at-file, half_at-file, field_at,
  Loaded-HasHeader,
}

module _ (disk : ℕ → ℕ) where
  abbrev pub start_of : ℕ → ℕ
  start_of p = file_word disk (p + 8) % 2 ^ 24

  -- The address `a` is neither in the sectors nor in the memory of the segment at `p`.
  abbrev pub Outside : ℕ → ℕ → Type 0
  Outside p a =
      (a < start_of p / 512 * 512)
      ⊎ ((start_of p + file_word disk (p + 16) + 511 ≤ a)
          × (start_of p + file_word disk (p + 20) ≤ a))

  -- The byte `k` of the segment at `p`: the file's, then zeros.
  abbrev pub content : ℕ → ℕ → ℕ
  content p k =
      if ltb k (file_word disk (p + 16)) then disk (512 + (file_word disk (p + 4) + k)) else 0

  -- After the segments of the `left` headers from `p` on, each byte that no later segment touches
  -- is in place, and what no segment touches is as before.
  pub record HasSegments (p left : ℕ) (mem mem' : Memory) : Type 0 where
    pub header : HasHeader disk mem'
    pub kept : (a : ℕ) → ((i : ℕ) → i < left → Outside (p + i * 32) a) → mem' a ≡ mem a
    pub contents :
        (i k : ℕ)
        → i < left
        → k < file_word disk (p + i * 32 + 20)
        → ((j : ℕ) → i < j → j < left → Outside (p + j * 32) (start_of (p + i * 32) + k))
        → mem' (start_of (p + i * 32) + k) ≡ content (p + i * 32) k

  Loaded-content :
      (p k : ℕ) (mem mem' : Memory)
      → Loaded disk
          (start_of p)
          (file_word disk (p + 16))
          (file_word disk (p + 20))
          (file_word disk (p + 4))
          mem
          mem'
      → k < file_word disk (p + 20)
      → mem' (start_of p + k) ≡ content p k
  Loaded-content p k mem mem' done h = ground (arith, done.file k, done.zeros k)

  Loaded-Outside :
      (p a : ℕ) (mem mem' : Memory)
      → Loaded disk
          (start_of p)
          (file_word disk (p + 16))
          (file_word disk (p + 20))
          (file_word disk (p + 4))
          mem
          mem'
      → Outside p a
      → mem' a ≡ mem a
  Loaded-Outside p a mem mem' done out = ground (arith, done.below a, done.behind a)

  -- Every byte of the segment at `q` that satisfies `Free` is in place.
  abbrev InPlace : Memory → (ℕ → Type 0) → ℕ → Type 0
  InPlace mem Free q =
      (k : ℕ)
      → k < file_word disk (q + 20)
      → Free (start_of q + k)
      → mem (start_of q + k) ≡ content q k

  next_header : (p i : ℕ) → p + 32 + i * 32 ≡ p + suc i * 32
  next_header p i = omega arith

  HasSegments-cons :
      (p left : ℕ) (mem mem₁ mem' : Memory)
      → Loaded disk
          (start_of p)
          (file_word disk (p + 16))
          (file_word disk (p + 20))
          (file_word disk (p + 4))
          mem
          mem₁
      → HasSegments (p + 32) left mem₁ mem'
      → HasSegments p (suc left) mem mem'
  HasSegments-cons p left mem mem₁ mem' done rest =
      let first : p ≡ p + 0 * 32 = omega arith in
      let shifted = λ (a i : ℕ) (out : Outside (p + suc i * 32) a).
        subst (λ q. Outside q a) (sym (next_header p i)) out in
      let at_first : InPlace mem' (λ a. (i : ℕ) → i < left → Outside (p + 32 + i * 32) a) p =
        λ k h out. rest.kept (start_of p + k) out ∙ Loaded-content p k mem mem₁ done h in
      record {
        header = rest.header;
        kept = λ a out.
            rest.kept a (λ i h. shifted a i (out (suc i) (omega arith)))
            ∙ Loaded-Outside p a mem mem₁ done
                (subst (λ q. Outside q a) (sym first) (out 0 (omega arith)));
        contents = elim [
          | zero ↦ λ k h l out.
              subst (InPlace mem' (λ a. (i : ℕ) → i < left → Outside (p + 32 + i * 32) a)) first
                at_first k l (λ i g. shifted _ i (out (suc i) (omega arith) (omega arith)))
          | suc i ↦ λ k h l out.
              subst (InPlace mem' (λ a. (j : ℕ) → i < j → j < left → Outside (p + 32 + j * 32) a))
                (next_header p i) (λ k. rest.contents i k (omega arith)) k l
                (λ j g f. shifted _ j (out (suc j) (omega arith) (omega arith)))
        ];
      }

  load_segments-next :
      (left p : ℕ) (mem mem₁ mem' : Memory)
      → HasHeader disk mem
      → p + 32 ≤ 4096
      → readseg disk
          (file_word disk (p + 8))
          (file_word disk (p + 16))
          (file_word disk (p + 20))
          (file_word disk (p + 4))
          mem
        ≡ some mem₁
      → load_segments disk left (elfhdr + (p + 32)) mem₁ ≡ some mem'
      → load_segments disk (suc left) (elfhdr + p) mem ≡ some mem'
  unfolding load_segments
  load_segments-next left p mem mem₁ mem' header fits e e' =
      let va = field_at disk mem p 8 header (omega arith) in
      let filesz = field_at disk mem p 16 header (omega arith) in
      let memsz = field_at disk mem p 20 header (omega arith) in
      let offset = field_at disk mem p 4 header (omega arith) in
      let next : elfhdr + p + 32 ≡ elfhdr + (p + 32) = omega arith in
      ground (arith, va, filesz, memsz, offset, next, e, e')

  load_segments-HasSegments :
      (left p : ℕ) (mem : Memory)
      → ((i : ℕ) → i < left → IsLoadable disk (p + i * 32))
      → p + left * 32 ≤ 4096
      → HasHeader disk mem
      → (mem' : Memory) × (load_segments disk left (elfhdr + p) mem ≡ some mem')
        × HasSegments p left mem mem'
  unfolding load_segments
  load_segments-HasSegments zero p mem able fits header = (
    mem,
    refl,
    record { header = header; kept = λ a out. refl; contents = λ i k h. absurd (omega arith) },
  )
  load_segments-HasSegments (suc left) p mem able fits header =
      let first : p + 0 * 32 ≡ p = omega arith in
      let this : IsLoadable disk p = subst (IsLoadable disk) first (able 0 (omega arith)) in
      let (mem₁, e, done) =
        readseg-Loaded disk (file_word disk (p + 8)) (file_word disk (p + 16))
          (file_word disk (p + 20)) (file_word disk (p + 4)) mem this.aligned this.file_small
          this.memory_small this.offset_small in
      let (mem', e', rest) =
        load_segments-HasSegments left (p + 32) mem₁
          (λ i h. subst (IsLoadable disk) (sym (next_header p i)) (able (suc i) (omega arith)))
          (omega arith) (Loaded-HasHeader disk p mem mem₁ this header done) in
      (
        mem',
        load_segments-next left p mem mem₁ mem' header (omega arith) e e',
        HasSegments-cons p left mem mem₁ mem' done rest,
      )

  first_page :
      (mem : Memory)
      → (mem₁ : Memory) × (readseg disk elfhdr 4096 4096 0 mem ≡ some mem₁) × HasHeader disk mem₁
  first_page mem =
      let (mem₁, e, done) =
        readseg-Loaded disk elfhdr 4096 4096 0 mem (omega arith) (omega arith) (omega arith)
          (omega arith) in
      (mem₁, e, record { at = λ p h. done.file p h ∙ ap disk (omega arith) })

  magic_at : (mem : Memory) → HasHeader disk mem → word_at disk mem elfhdr ≡ file_word disk 0
  magic_at mem header = field_at disk mem 0 0 header (omega arith)

  load_kernel_bad :
      (mem : Memory)
      → HasHeader disk mem
      → file_word disk 0 ≢ elf_magic
      → load_kernel disk mem ≡ some (bad mem)
  unfolding load_kernel
  load_kernel_bad mem header ne = ground (arith, magic_at mem header)

  entered_at :
      (mem : Memory)
      → HasHeader disk mem
      → enter disk (some mem) ≡ some (entered (bit_and (file_word disk 24) 0xff_ffff) mem)
  unfolding enter
  entered_at mem header =
      ap (λ w. some (entered (bit_and w 0xff_ffff) mem))
        (word_at-file disk mem 24 header (omega arith))

  load_kernel_good :
      (mem mem' : Memory)
      → HasHeader disk mem
      → HasHeader disk mem'
      → file_word disk 0 ≡ elf_magic
      → load_segments disk (file_half disk 44) (elfhdr + file_word disk 28) mem ≡ some mem'
      → load_kernel disk mem ≡ some (entered (bit_and (file_word disk 24) 0xff_ffff) mem')
  unfolding load_kernel
  load_kernel_good mem mem' header header' magic e =
      let at = magic_at mem header in
      let count = half_at-file disk mem 44 header (omega arith) in
      let phoff = word_at-file disk mem 28 header (omega arith) in
      ground (arith, at, count, phoff, magic, e, entered_at mem' header')

  -- If the program headers lie in the first page of the kernel's file, and each describes a segment
  -- that readseg loads away from that page, bootmain gives up on a file with another magic number,
  -- and otherwise enters the kernel at the header's entry point cut to 24 bits, with every byte of
  -- a segment that no later segment touches in place.
  pub bootmain_lem :
      (mem : Memory)
      → file_word disk 28 + file_half disk 44 * 32 ≤ 4096
      → ((i : ℕ) → i < file_half disk 44 → IsLoadable disk (file_word disk 28 + i * 32))
      → (file_word disk 0 ≢ elf_magic → (mem' : Memory) × (bootmain disk mem ≡ some (bad mem')))
        × (file_word disk 0 ≡ elf_magic
            → (mem₁ : Memory) × (mem' : Memory) × (bootmain disk mem
                ≡ some (entered (bit_and (file_word disk 24) 0xff_ffff) mem'))
              × HasSegments (file_word disk 28) (file_half disk 44) mem₁ mem')
  unfolding bootmain loaded_page
  bootmain_lem mem fits able =
      let (mem₁, e₁, header) = first_page mem in
      let (mem', e', loaded) =
        load_segments-HasSegments (file_half disk 44) (file_word disk 28) mem₁ able fits header in
      (
        λ ne. (mem₁, rw e₁ (load_kernel_bad mem₁ header ne)),
        λ magic.
            (mem₁, mem', rw e₁ (load_kernel_good mem₁ mem' header loaded.header magic e'), loaded),
      )
