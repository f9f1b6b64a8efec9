-- ===== src/Mmu/Segment.antt =====
-- Segment and gate descriptors of inc/mmu.h. Each bit field keeps its width.
use jos_vmx.Base.{ℕ, ◌+◌, ◌*◌, ◌/◌, ◌%◌, ◌^◌, ◌<◌, ◌≡◌, Bool, bit_and, if◌then◌else◌, arith}
use jos_vmx.Base.Bits.{bit_and_mod}
use jos_vmx.Mmu.{word}

pub record Segdesc : Type 0 where
  pub sd_lim_15_0 : ℕ
  pub sd_base_15_0 : ℕ
  pub sd_base_23_16 : ℕ
  pub sd_type : ℕ
  pub sd_s : ℕ
  pub sd_dpl : ℕ
  pub sd_p : ℕ
  pub sd_lim_19_16 : ℕ
  pub sd_avl : ℕ
  pub sd_rsv1 : ℕ
  pub sd_db : ℕ
  pub sd_g : ℕ
  pub sd_base_31_24 : ℕ

-- SEG, with a limit in pages.
unfoldable pub seg : ℕ → ℕ → ℕ → ℕ → Segdesc
seg type base lim dpl = record {
  sd_lim_15_0 = bit_and (lim / 2 ^ 12) 0xffff;
  sd_base_15_0 = bit_and base 0xffff;
  sd_base_23_16 = bit_and (base / 2 ^ 16) 0xff;
  sd_type = type % 2 ^ 4;
  sd_s = 1;
  sd_dpl = dpl % 2 ^ 2;
  sd_p = 1;
  sd_lim_19_16 = lim / 2 ^ 28 % 2 ^ 4;
  sd_avl = 0;
  sd_rsv1 = 0;
  sd_db = 1;
  sd_g = 1;
  sd_base_31_24 = base / 2 ^ 24 % 2 ^ 8;
}

-- SEG16, with a limit in bytes.
unfoldable pub seg16 : ℕ → ℕ → ℕ → ℕ → Segdesc
seg16 type base lim dpl = record {
  sd_lim_15_0 = bit_and lim 0xffff;
  sd_base_15_0 = bit_and base 0xffff;
  sd_base_23_16 = bit_and (base / 2 ^ 16) 0xff;
  sd_type = type % 2 ^ 4;
  sd_s = 1;
  sd_dpl = dpl % 2 ^ 2;
  sd_p = 1;
  sd_lim_19_16 = lim / 2 ^ 16 % 2 ^ 4;
  sd_avl = 0;
  sd_rsv1 = 0;
  sd_db = 1;
  sd_g = 0;
  sd_base_31_24 = base / 2 ^ 24 % 2 ^ 8;
}

pub record Gatedesc : Type 0 where
  pub gd_off_15_0 : ℕ
  pub gd_ss : ℕ
  pub gd_args : ℕ
  pub gd_rsv1 : ℕ
  pub gd_type : ℕ
  pub gd_s : ℕ
  pub gd_dpl : ℕ
  pub gd_p : ℕ
  pub gd_off_31_16 : ℕ

abbrev pub sts_t32a : ℕ
sts_t32a = 0x9

abbrev pub sts_ig32 : ℕ
sts_ig32 = 0xe

abbrev pub sts_tg32 : ℕ
sts_tg32 = 0xf

-- SETGATE writes every field.
unfoldable pub setgate : Bool → ℕ → ℕ → ℕ → Gatedesc
setgate istrap sel off dpl = record {
  gd_off_15_0 = bit_and (off % word) 0xffff;
  gd_ss = sel % 2 ^ 16;
  gd_args = 0;
  gd_rsv1 = 0;
  gd_type = if istrap then sts_tg32 else sts_ig32;
  gd_s = 0;
  gd_dpl = dpl % 2 ^ 2;
  gd_p = 1;
  gd_off_31_16 = off % word / 2 ^ 16;
}

-- What the processor reads: the base and the last byte of a segment, and the entry of a gate.
abbrev pub base_of : Segdesc → ℕ
base_of d = d.sd_base_31_24 * 2 ^ 24 + d.sd_base_23_16 * 2 ^ 16 + d.sd_base_15_0

abbrev pub limit_of : Segdesc → ℕ
limit_of d = d.sd_lim_19_16 * 2 ^ 16 + d.sd_lim_15_0

abbrev pub offset_of : Gatedesc → ℕ
offset_of g = g.gd_off_31_16 * 2 ^ 16 + g.gd_off_15_0

-- A descriptor made by SEG or SEG16 gives back the base; SEG keeps the limit in pages, and SEG16
-- keeps a limit below 2^20.
pub seg_lem :
    (type base lim dpl : ℕ)
    → base < word
    → lim < word
    → (base_of (seg type base lim dpl) ≡ base)
      × (limit_of (seg type base lim dpl) ≡ lim / 4096)
      × (base_of (seg16 type base lim dpl) ≡ base)
      × (lim < 2 ^ 20 → limit_of (seg16 type base lim dpl) ≡ lim)
unfolding seg seg16
seg_lem type base lim dpl h k =
    rw
      (
        bit_and_mod 16 lim,
        bit_and_mod 16 base,
        bit_and_mod 8 (base / 2 ^ 16),
        bit_and_mod 16 (lim / 2 ^ 12),
      )
      (omega arith, omega arith, omega arith, λ small. omega arith)

pub offset_of-setgate :
    (istrap : Bool) (sel off dpl : ℕ) → off < word → offset_of (setgate istrap sel off dpl) ≡ off
unfolding setgate
offset_of-setgate istrap sel off dpl h = omega (arith, bit_and_mod 16 (off % word))
