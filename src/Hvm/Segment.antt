-- ===== src/Hvm/Segment.antt =====
-- vt_regs.c: get_seg_base and get_seg_access_rights. The memory holds bytes; `lar` is what the
-- instruction of that name gives for a selector.
use jos_vmx.Base.{
  ℕ, ◌+◌, ◌*◌, ◌/◌, ◌%◌, ◌^◌, ◌<◌, ◌≡◌, ◌≢◌, refl, Bool, true, false, ◌==◌, if◌then◌else◌, bit_and,
  bit_or, arith,
}
use jos_vmx.Base.Bits.{bit_or_low}

-- The bit `p` of the descriptor at `p`.
abbrev pub present : (ℕ → ℕ) → ℕ → Bool
present mem p = if bit_and (mem (p + 5)) 0x80 == 0 then false else true

-- `SEGDESC_BASE`
unfoldable pub segdesc_base : (ℕ → ℕ) → ℕ → ℕ
segdesc_base mem p =
    bit_or (bit_or (mem (p + 7) * 2 ^ 24) (mem (p + 4) * 2 ^ 16))
      (mem (p + 3) * 2 ^ 8 + mem (p + 2))
    % 2 ^ 32

-- Where the table at `base` has the descriptor for `sel`: `base + (sel & SEL_MASK)`.
abbrev pub descriptor : ℕ → ℕ → ℕ
descriptor base sel = (base + bit_and sel 0xFFF8) % 2 ^ 32

-- `*segbase`, which is 0 on the path `err` too.
unfoldable pub get_seg_base : (ℕ → ℕ) → (gdtbase ldtr sel : ℕ) → ℕ
get_seg_base mem gdtbase ldtr sel =
    if sel == 0
    then 0
    else if bit_and sel 0x4 == 0
    then (if present mem (descriptor gdtbase sel)
        then segdesc_base mem (descriptor gdtbase sel)
        else 0)
    else if present mem (descriptor gdtbase ldtr)
    then (let ldtbase = segdesc_base mem (descriptor gdtbase ldtr) in
        if present mem (descriptor ldtbase sel)
        then segdesc_base mem (descriptor ldtbase sel)
        else 0)
    else 0

unfoldable pub get_seg_access_rights : (ℕ → ℕ) → ℕ → ℕ
get_seg_access_rights lar sel = if sel == 0 then 0x10000 else bit_and (lar sel / 2 ^ 8) 0xF0FF

-- The memory holds a present descriptor with the base `b` at `p`.
pub record Describes (mem : ℕ → ℕ) (p b : ℕ) : Type 0 where
  pub byte2 : mem (p + 2) ≡ b % 2 ^ 8
  pub byte3 : mem (p + 3) ≡ b / 2 ^ 8 % 2 ^ 8
  pub byte4 : mem (p + 4) ≡ b / 2 ^ 16 % 2 ^ 8
  pub byte7 : mem (p + 7) ≡ b / 2 ^ 24
  pub is_present : present mem p ≡ true

segdesc_base_lem : (mem : ℕ → ℕ) (p b : ℕ) → b < 2 ^ 32 → Describes mem p b → segdesc_base mem p ≡ b
unfolding segdesc_base
segdesc_base_lem mem p b h d =
    let high = bit_or_low 24 (b / 2 ^ 24) (b / 2 ^ 16 % 2 ^ 8 * 2 ^ 16) (omega arith) in
    let upper : b / 2 ^ 24 * 2 ^ 24 + b / 2 ^ 16 % 2 ^ 8 * 2 ^ 16 ≡ b / 2 ^ 16 * 2 ^ 16 =
      omega arith in
    let low = bit_or_low 16 (b / 2 ^ 16) (b / 2 ^ 8 % 2 ^ 8 * 2 ^ 8 + b % 2 ^ 8) (omega arith) in
    rw (d.byte2, d.byte3, d.byte4, d.byte7, high, upper, low) (omega arith)

-- A selector of the global table, or of the local table whose own descriptor is present, with a
-- present descriptor gives that descriptor's base, put together from its three fields; the null
-- selector gives 0, and so does a selector of the global table whose descriptor is absent.
pub get_seg_base_lem :
    (mem : ℕ → ℕ) (gdtbase ldtr sel ldtbase b : ℕ)
    → b < 2 ^ 32
    → ldtbase < 2 ^ 32
    → sel ≢ 0
    → (bit_and sel 0x4 ≡ 0
        → Describes mem (descriptor gdtbase sel) b
        → get_seg_base mem gdtbase ldtr sel ≡ b)
      × (bit_and sel 0x4 ≢ 0
          → Describes mem (descriptor gdtbase ldtr) ldtbase
          → Describes mem (descriptor ldtbase sel) b
          → get_seg_base mem gdtbase ldtr sel ≡ b)
      × (get_seg_base mem gdtbase ldtr 0 ≡ 0)
      × (bit_and sel 0x4 ≡ 0
          → present mem (descriptor gdtbase sel) ≡ false
          → get_seg_base mem gdtbase ldtr sel ≡ 0)
unfolding get_seg_base
get_seg_base_lem mem gdtbase ldtr sel ldtbase b h k ne =
    let off : (sel == 0) ≡ false = ground arith in
    (
      λ g d. rw (off, g, d.is_present) (segdesc_base_lem mem (descriptor gdtbase sel) b h d),
      λ l t d.
          let local : (bit_and sel 0x4 == 0) ≡ false = ground arith in
          let e = segdesc_base_lem mem (descriptor gdtbase ldtr) ldtbase k t in
          rw (off, local, t.is_present, e, d.is_present)
            (segdesc_base_lem mem (descriptor ldtbase sel) b h d),
      refl,
      λ g absent. rw (off, g, absent) refl,
    )
