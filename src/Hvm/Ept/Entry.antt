-- ===== src/Hvm/Ept/Entry.antt =====
-- inc/hvm/vt_ept.h: the two members of ept_entry_t, and the masks.
use jos_vmx.Base.{ℕ, ◌+◌, ◌-◌, ◌*◌, ◌/◌, ◌%◌, ◌^◌, ◌<◌, ◌≡◌, refl, ◌∙◌, bit_and, arith}
use mathlib.Core.Path.{subst, ap}
use native.Mathlib.Nat.{one-le-pow}
use jos_vmx.Base.Bits.{bit_and_mod, bit_and_scaled}
use jos_vmx.Hvm.Ept.{
  EptEntry, epte, fields_of_epte, epte_mfn_mask, epte_avail1_mask, epte_emt_mask, epte_igmt_mask,
  epte_super_page_mask,
}

-- Every field has its width.
pub record Fits (e : EptEntry) : Type 0 where
  pub r_fits : e.r < 2
  pub w_fits : e.w < 2
  pub x_fits : e.x < 2
  pub emt_fits : e.emt < 2 ^ 3
  pub ipat_fits : e.ipat < 2
  pub sp_fits : e.sp < 2
  pub avail1_fits : e.avail1 < 2 ^ 4
  pub mfn_fits : e.mfn < 2 ^ 40
  pub avail2_fits : e.avail2 < 2 ^ 12

-- A mask of `w` bits from bit `k` on.
masked : (k w n : ℕ) → bit_and n ((2 ^ w - 1) * 2 ^ k) ≡ n / 2 ^ k % 2 ^ w * 2 ^ k
masked k w n =
    let whole : n / 2 ^ k * 2 ^ k + n % 2 ^ k ≡ n = ground (arith, one-le-pow k 2) in
    let small : n % 2 ^ k < 2 ^ k = ground (arith, one-le-pow k 2) in
    let split = bit_and_scaled k (n / 2 ^ k) (n % 2 ^ k) (2 ^ w - 1) small in
    subst (λ x. bit_and x ((2 ^ w - 1) * 2 ^ k) ≡ n / 2 ^ k % 2 ^ w * 2 ^ k) whole
      (split ∙ rw (bit_and_mod w (n / 2 ^ k)) refl)

-- An entry whose fields fit their widths is read back from its 64 bits, and every mask selects in
-- them the field that it is named for.
pub ept_entry_lem :
    (e : EptEntry)
    → Fits e
    → (fields_of_epte (epte e) ≡ e)
      × (epte e < 2 ^ 64)
      × (bit_and (epte e) epte_mfn_mask ≡ e.mfn * 2 ^ 12)
      × (bit_and (epte e) epte_avail1_mask ≡ e.avail1 * 2 ^ 8)
      × (bit_and (epte e) epte_emt_mask ≡ e.emt * 2 ^ 3)
      × (bit_and (epte e) epte_igmt_mask ≡ e.ipat * 2 ^ 6)
      × (bit_and (epte e) epte_super_page_mask ≡ e.sp * 2 ^ 7)
unfolding epte fields_of_epte
ept_entry_lem e h =
    let n = epte e in
    let r_read : n % 2 ≡ e.r = omega arith in
    let w_read : n / 2 % 2 ≡ e.w = omega arith in
    let x_read : n / 2 ^ 2 % 2 ≡ e.x = omega arith in
    let emt_read : n / 2 ^ 3 % 2 ^ 3 ≡ e.emt = omega arith in
    let ipat_read : n / 2 ^ 6 % 2 ≡ e.ipat = omega arith in
    let sp_read : n / 2 ^ 7 % 2 ≡ e.sp = omega arith in
    let avail1_read : n / 2 ^ 8 % 2 ^ 4 ≡ e.avail1 = omega arith in
    let mfn_read : n / 2 ^ 12 % 2 ^ 40 ≡ e.mfn = omega arith in
    let avail2_read : n / 2 ^ 52 ≡ e.avail2 = omega arith in
    (
      rw (r_read, w_read, x_read, emt_read, ipat_read, sp_read, avail1_read, mfn_read, avail2_read)
          refl,
      omega arith,
      masked 12 40 n ∙ ap (λ t. t * 2 ^ 12) mfn_read,
      masked 8 4 n ∙ ap (λ t. t * 2 ^ 8) avail1_read,
      masked 3 3 n ∙ ap (λ t. t * 2 ^ 3) emt_read,
      masked 6 1 n ∙ ap (λ t. t * 2 ^ 6) ipat_read,
      masked 7 1 n ∙ ap (λ t. t * 2 ^ 7) sp_read,
    )
