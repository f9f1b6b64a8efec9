-- ===== src/Hvm/Host/Laws.antt =====
-- vt_init.c: what set_vmcs_host_state writes, and its order with set_vmcs_guest_state.
use jos_vmx.Base.{
  ℕ, ◌/◌, ◌%◌, ◌^◌, ◌<◌, ◌≡◌, ◌≢◌, refl, ◌∙◌, sym, none, Bool, true, ◌&&◌, and-true, List, [], ◌∷◌,
  ◌==◌, bit_and, arith, Bool-cases, inl, inr,
}
use mathlib.Core.Path.{subst}
use native.Mathlib.Decide.{ℕ_discrete}
use jos_vmx.Hvm.Segment.{get_seg_base, descriptor, Describes, get_seg_base_lem}
use jos_vmx.Hvm.Vmcs.{encoding}
use jos_vmx.Hvm.Vmcs.Field.{
  VmcsField, host_es_sel, host_cs_sel, host_ss_sel, host_ds_sel, host_fs_sel, host_gs_sel,
  host_tr_sel, host_cr0, host_cr3, host_cr4, host_fs_base, host_gs_base, host_tr_base,
  host_gdtr_base, host_idtr_base,
}
use jos_vmx.Hvm.Vmcs.Section.{group_of, of_host}
use jos_vmx.Hvm.Vmcs.Write.{vmwrites, find_field, value_or, once, is_none, vmwrites_lem}
use jos_vmx.Hvm.Guest.{guest_state, guest_state_lem, set_vmcs_guest_state}
use jos_vmx.Hvm.Host.{
  Processor, host_sreg, vt_get_current_regs_host, host_state, set_vmcs_host_state,
}

all_of : ℕ → List (VmcsField × ℕ) → Bool
all_of bits [] = true
all_of bits ((field, val) ∷ more) = (encoding field / 2 ^ 10 % 4 == bits) && all_of bits more

find_field-none :
    (bits : ℕ) (ws : List (VmcsField × ℕ)) (f : ℕ)
    → all_of bits ws ≡ true
    → f / 2 ^ 10 % 4 ≢ bits
    → find_field ws f ≡ none
unfolding all_of
find_field-none bits [] f e ne = refl
find_field-none bits ((field, val) ∷ more) f e ne =
    let split = and-true (encoding field / 2 ^ 10 % 4 == bits) (all_of bits more) e in
    let bits_of_field : encoding field / 2 ^ 10 % 4 ≡ bits = ground (arith, split.0) in
    elim (Bool-cases (encoding field == f)) [
      | inl t ↦
          let same : encoding field ≡ f = ground arith in
          absurd (ne (subst (λ q. q / 2 ^ 10 % 4 ≡ bits) same bits_of_field))
      | inr t ↦ rw t (find_field-none bits more f split.1 ne)
    ]

guest_untouched : (vmcs : ℕ → ℕ) (f : ℕ) → f / 2 ^ 10 % 4 ≢ 2 → set_vmcs_guest_state vmcs f ≡ vmcs f
unfolding set_vmcs_guest_state guest_state once is_none encoding all_of
guest_untouched vmcs f ne =
    let gone : find_field guest_state f ≡ none = find_field-none 2 guest_state f refl ne in
    vmwrites_lem guest_state vmcs f refl ∙ rw gone refl

module _ (mem : ℕ → ℕ) (p : Processor) (vmcs : ℕ → ℕ) where
  host_lookup :
      (f : ℕ)
      → set_vmcs_host_state mem p vmcs f
        ≡ value_or (find_field (host_state (vt_get_current_regs_host mem p)) f) (vmcs f)
  unfolding set_vmcs_host_state host_state once is_none encoding
  host_lookup f = vmwrites_lem (host_state (vt_get_current_regs_host mem p)) vmcs f refl

  host_untouched : (f : ℕ) → f / 2 ^ 10 % 4 ≢ 3 → set_vmcs_host_state mem p vmcs f ≡ vmcs f
  unfolding host_state encoding all_of
  host_untouched f ne =
      let ws = host_state (vt_get_current_regs_host mem p) in
      let gone : find_field ws f ≡ none = find_field-none 3 ws f refl ne in
      host_lookup f ∙ rw gone refl

-- The registers whose base address is a field of the host's state.
pub data BaseReg : Type 0 where
  fs : BaseReg
  gs : BaseReg
  tr : BaseReg

abbrev pub selector_of : BaseReg → Processor → ℕ
selector_of fs p = p.rdfs
selector_of gs p = p.rdgs
selector_of tr p = p.rdtr

abbrev pub sel_field : BaseReg → VmcsField
sel_field fs = host_fs_sel
sel_field gs = host_gs_sel
sel_field tr = host_tr_sel

abbrev pub base_field : BaseReg → VmcsField
base_field fs = host_fs_base
base_field gs = host_gs_base
base_field tr = host_tr_base

module _ (mem : ℕ → ℕ) (p : Processor) (vmcs : ℕ → ℕ) where
  abbrev pub host_vmcs : VmcsField → ℕ
  host_vmcs f = set_vmcs_host_state mem p vmcs (encoding f)

  host_base :
      (r : BaseReg)
      → (host_vmcs (sel_field r) ≡ selector_of r p)
        × (host_vmcs (base_field r) ≡ get_seg_base mem p.rdgdtr.base p.rdldtr (selector_of r p))
  unfolding set_vmcs_host_state vmwrites host_state encoding vt_get_current_regs_host host_sreg
  host_base fs = (refl, refl)
  host_base gs = (refl, refl)
  host_base tr = (refl, refl)

  -- After `set_vmcs_host_state` the fields of the host's state hold the control registers, the
  -- selectors and the bases of the descriptor tables that the processor has, and for FS, GS and TR
  -- the base of the present descriptor that a selector of the global table names; every field of
  -- another group holds what it held.
  pub set_vmcs_host_state_lem :
      (r : BaseReg) (b : ℕ)
      → b < 2 ^ 32
      → selector_of r p ≢ 0
      → bit_and (selector_of r p) 0x4 ≡ 0
      → Describes mem (descriptor p.rdgdtr.base (selector_of r p)) b
      → (host_vmcs (base_field r) ≡ b)
        × (host_vmcs (sel_field r) ≡ selector_of r p)
        × (host_vmcs host_es_sel ≡ p.rdes)
        × (host_vmcs host_cs_sel ≡ p.rdcs)
        × (host_vmcs host_ss_sel ≡ p.rdss)
        × (host_vmcs host_ds_sel ≡ p.rdds)
        × (host_vmcs host_cr0 ≡ p.rdcr0)
        × (host_vmcs host_cr3 ≡ p.rdcr3)
        × (host_vmcs host_cr4 ≡ p.rdcr4)
        × (host_vmcs host_gdtr_base ≡ p.rdgdtr.base)
        × (host_vmcs host_idtr_base ≡ p.rdidtr.base)
        × ((f : ℕ) → group_of f ≢ of_host → set_vmcs_host_state mem p vmcs f ≡ vmcs f)
  unfolding set_vmcs_host_state vmwrites host_state encoding vt_get_current_regs_host host_sreg
      group_of
  set_vmcs_host_state_lem r b h ne global d =
      let read = host_base r in
      let base =
        get_seg_base_lem mem p.rdgdtr.base p.rdldtr (selector_of r p) 0 b h (omega arith) ne in
      (
        read.1 ∙ base.0 global d,
        read.0,
        refl,
        refl,
        refl,
        refl,
        refl,
        refl,
        refl,
        refl,
        refl,
        λ f other. host_untouched mem p vmcs f (λ e. other (ground (arith, e))),
      )

  -- `set_vmcs_host_state` and `set_vmcs_guest_state` may run in either order: they leave the same
  -- VMCS.
  pub set_vmcs_host_state-set_vmcs_guest_state :
      (f : ℕ)
      → set_vmcs_host_state mem p (set_vmcs_guest_state vmcs) f
        ≡ set_vmcs_guest_state (set_vmcs_host_state mem p vmcs) f
  set_vmcs_host_state-set_vmcs_guest_state f = elim (ℕ_discrete (f / 2 ^ 10 % 4) 3) [
    | yes e ↦
        let ne : f / 2 ^ 10 % 4 ≢ 2 = λ k. absurd (ground (arith, e, k)) in
        host_lookup mem p (set_vmcs_guest_state vmcs) f
        ∙ rw (guest_untouched vmcs f ne) (sym (host_lookup mem p vmcs f))
        ∙ sym (guest_untouched (set_vmcs_host_state mem p vmcs) f ne)
    | no ne ↦
        host_untouched mem p (set_vmcs_guest_state vmcs) f ne
        ∙ guest_state_lem vmcs f
        ∙ rw (← host_untouched mem p vmcs f ne)
            (sym (guest_state_lem (set_vmcs_host_state mem p vmcs) f))
  ]
