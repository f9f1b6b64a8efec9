-- ===== src/Hvm/Ept.antt =====
-- hvm/vt_ept.c and inc/hvm/vt_ept.h: the entries of the extended page tables and the walk through
-- them. The memory is that of Pmap, in which a 64-bit entry is two of 32 bits.
pub mod Entry
pub mod Walk
mod Tests
use jos_vmx.Base.{
  ℕ, zero, suc, ◌+◌, ◌-◌, ◌*◌, ◌/◌, ◌%◌, ◌^◌, Bool, true, false, ◌==◌, ltb, leb, if◌then◌else◌,
  List, [], ◌∷◌, bit_and,
}
use jos_vmx.Pmap.{Pmap}

-- The bit fields of `ept_entry_t`
pub record EptEntry : Type 0 where
  pub r : ℕ
  pub w : ℕ
  pub x : ℕ
  pub emt : ℕ
  pub ipat : ℕ
  pub sp : ℕ
  pub avail1 : ℕ
  pub mfn : ℕ
  pub avail2 : ℕ

-- The member `epte` of the union: the fields from the lowest bit on.
unfoldable pub epte : EptEntry → ℕ
epte e =
    e.r
    + e.w * 2
    + e.x * 2 ^ 2
    + e.emt * 2 ^ 3
    + e.ipat * 2 ^ 6
    + e.sp * 2 ^ 7
    + e.avail1 * 2 ^ 8
    + e.mfn * 2 ^ 12
    + e.avail2 * 2 ^ 52

-- The fields of the entry whose member `epte` is `n`.
unfoldable pub fields_of_epte : ℕ → EptEntry
fields_of_epte n = record {
  r = n % 2;
  w = n / 2 % 2;
  x = n / 2 ^ 2 % 2;
  emt = n / 2 ^ 3 % 2 ^ 3;
  ipat = n / 2 ^ 6 % 2;
  sp = n / 2 ^ 7 % 2;
  avail1 = n / 2 ^ 8 % 2 ^ 4;
  mfn = n / 2 ^ 12 % 2 ^ 40;
  avail2 = n / 2 ^ 52;
}

-- The bit fields of `ept_control`
pub record EptControl : Type 0 where
  pub ept_mt : ℕ
  pub ept_wl : ℕ
  pub rsvd : ℕ
  pub asr : ℕ

unfoldable pub eptp : EptControl → ℕ
eptp c = c.ept_mt + c.ept_wl * 2 ^ 3 + c.rsvd * 2 ^ 6 + c.asr * 2 ^ 12

-- EPTE_MFN_MASK, EPTE_AVAIL1_MASK, EPTE_EMT_MASK, EPTE_IGMT_MASK and EPTE_SUPER_PAGE_MASK
abbrev pub epte_mfn_mask : ℕ
epte_mfn_mask = 0xf_ffff_ffff_f000

abbrev pub epte_avail1_mask : ℕ
epte_avail1_mask = 0xf00

abbrev pub epte_emt_mask : ℕ
epte_emt_mask = 0x38

abbrev pub epte_igmt_mask : ℕ
epte_igmt_mask = 0x40

abbrev pub epte_super_page_mask : ℕ
epte_super_page_mask = 0x80

abbrev pub ept_eachtable_entries : ℕ
ept_eachtable_entries = 512

-- The index in a table of level `level`: `(gfn & mask) >> (level * EPT_TABLE_ORDER)`.
unfoldable pub offset : ℕ → ℕ → ℕ
offset level gfn = bit_and gfn (2 ^ ((level + 1) * 9) - 1) / 2 ^ (level * 9)

-- How a call of ept_update_identity_table ends; the parts of it that are not written yet panic.
pub data EptOutcome : Type 0 where
  unaligned bad_address : EptOutcome
  no_table : (level table : ℕ) → EptOutcome
  at_leaf : (table : ℕ) → EptOutcome

module _ (m : Pmap) where
  -- `((u64 *)pt)[offset]`
  abbrev pub entry_at : ℕ → ℕ → ℕ
  entry_at pt o = m.phys pt (2 * o) + m.phys pt (2 * o + 1) * 2 ^ 32

  -- `sub_pt_phys` has 32 bits; KADDR panics on a frame that the machine does not have.
  unfoldable pub ept_update_identity_table : ℕ → ℕ → ℕ → EptOutcome
  ept_update_identity_table zero pt gfn =
      if bit_and gfn (ept_eachtable_entries - 1) == 0 then at_leaf pt else unaligned
  ept_update_identity_table (suc level) pt gfn =
      let epte = entry_at pt (offset (suc level) gfn) in
      let sub_pt = (fields_of_epte epte).mfn * 2 ^ 12 % 2 ^ 32 / 2 ^ 12 in
      let rest = ept_update_identity_table level sub_pt gfn in
      if bit_and gfn (ept_eachtable_entries - 1) == 0
      then if epte == 0
        then no_table (suc level) pt
        else if leb m.npages sub_pt
        then bad_address
        else rest
      else unaligned

-- The frame numbers for which ept_create_table calls it, from `gfn` on.
unfoldable pub visited : ℕ → ℕ → List ℕ
visited zero gfn = []
visited (suc fuel) gfn =
    let rest = visited fuel ((gfn + ept_eachtable_entries) % 2 ^ 32) in
    if ltb gfn (0xffff_ffff / 2 ^ 12) then gfn ∷ rest else []
