-- ===== src/Hvm/Guest.antt =====
-- vt_init.c: set_vmcs_guest_state.
use jos_vmx.Base.{ℕ, ◌≡◌, refl, List, [], ◌∷◌}
use jos_vmx.Hvm.Vmcs.{encoding}
use jos_vmx.Hvm.Vmcs.Field.{
  VmcsField, guest_es_sel, guest_cs_sel, guest_ss_sel, guest_ds_sel, guest_fs_sel, guest_gs_sel,
  guest_ldtr_sel, guest_tr_sel, vmcs_link_pointer, vmcs_link_pointer_high, guest_ia32_debugctl,
  guest_ia32_debugctl_high, guest_es_limit, guest_cs_limit, guest_ss_limit, guest_ds_limit,
  guest_fs_limit, guest_gs_limit, guest_ldtr_limit, guest_tr_limit, guest_gdtr_limit,
  guest_idtr_limit, guest_es_access_rights, guest_cs_access_rights, guest_ss_access_rights,
  guest_ds_access_rights, guest_fs_access_rights, guest_gs_access_rights, guest_ldtr_access_rights,
  guest_tr_access_rights, guest_interruptibility_state, guest_activity_state, guest_cr0, guest_cr3,
  guest_cr4, guest_es_base, guest_cs_base, guest_ss_base, guest_ds_base, guest_fs_base,
  guest_gs_base, guest_ldtr_base, guest_tr_base, guest_gdtr_base, guest_idtr_base, guest_dr7,
  guest_rsp, guest_rip, guest_rflags, guest_pending_debug_exceptions,
}
use jos_vmx.Hvm.Vmcs.Write.{vmwrites, find_field, value_or, once, is_none, vmwrites_lem}

-- The writes of `set_vmcs_guest_state`, in their order.
unfoldable pub guest_state : List (VmcsField × ℕ)
guest_state =
    (guest_es_sel, 0)
    ∷ (guest_cs_sel, 0)
    ∷ (guest_ss_sel, 0)
    ∷ (guest_ds_sel, 0)
    ∷ (guest_fs_sel, 0)
    ∷ (guest_gs_sel, 0)
    ∷ (guest_ldtr_sel, 0)
    ∷ (guest_tr_sel, 0)
    ∷ (vmcs_link_pointer, 0xFFFFFFFF)
    ∷ (vmcs_link_pointer_high, 0xFFFFFFFF)
    ∷ (guest_ia32_debugctl, 0)
    ∷ (guest_ia32_debugctl_high, 0)
    ∷ (guest_es_limit, 0xFFFF)
    ∷ (guest_cs_limit, 0xFFFF)
    ∷ (guest_ss_limit, 0xFFFF)
    ∷ (guest_ds_limit, 0xFFFF)
    ∷ (guest_fs_limit, 0xFFFF)
    ∷ (guest_gs_limit, 0xFFFF)
    ∷ (guest_ldtr_limit, 0xFFFF)
    ∷ (guest_tr_limit, 0xFFFF)
    ∷ (guest_gdtr_limit, 0x30)
    ∷ (guest_idtr_limit, 0x3FF)
    ∷ (guest_es_access_rights, 0x93)
    ∷ (guest_cs_access_rights, 0x93)
    ∷ (guest_ss_access_rights, 0x93)
    ∷ (guest_ds_access_rights, 0x93)
    ∷ (guest_fs_access_rights, 0x93)
    ∷ (guest_gs_access_rights, 0x93)
    ∷ (guest_ldtr_access_rights, 0x82)
    ∷ (guest_tr_access_rights, 0x8B)
    ∷ (guest_interruptibility_state, 0)
    ∷ (guest_activity_state, 0)
    ∷ (guest_cr0, 0x20)
    ∷ (guest_cr3, 0)
    ∷ (guest_cr4, 0x2000)
    ∷ (guest_es_base, 0)
    ∷ (guest_cs_base, 0)
    ∷ (guest_ss_base, 0)
    ∷ (guest_ds_base, 0)
    ∷ (guest_fs_base, 0)
    ∷ (guest_gs_base, 0)
    ∷ (guest_ldtr_base, 0)
    ∷ (guest_tr_base, 0)
    ∷ (guest_gdtr_base, 0)
    ∷ (guest_idtr_base, 0)
    ∷ (guest_dr7, 0)
    ∷ (guest_rsp, 0)
    ∷ (guest_rip, 0x7C00)
    ∷ (guest_rflags, 0x2)
    ∷ (guest_pending_debug_exceptions, 0)
    ∷ []

unfoldable pub set_vmcs_guest_state : (ℕ → ℕ) → ℕ → ℕ
unfolding vmwrites guest_state
set_vmcs_guest_state vmcs = vmwrites guest_state vmcs

-- Whatever the VMCS held, `set_vmcs_guest_state` leaves in every field that it names the value it
-- names for it, no field being named twice, and every other field as it was.
pub guest_state_lem :
    (vmcs : ℕ → ℕ) (f : ℕ)
    → set_vmcs_guest_state vmcs f ≡ value_or (find_field guest_state f) (vmcs f)
unfolding set_vmcs_guest_state once is_none guest_state encoding
guest_state_lem vmcs f = vmwrites_lem guest_state vmcs f refl
