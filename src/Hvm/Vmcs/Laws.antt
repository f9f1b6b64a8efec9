-- ===== src/Hvm/Vmcs/Laws.antt =====
-- inc/hvm/constants.h: the encodings of the VMCS's fields are a code.
use jos_vmx.Base.{◌≡◌, refl, ap, ◌∙◌, sym, some}
use mathlib.Core.Option.{some-injective}
use jos_vmx.Hvm.Vmcs.{encoding}
use jos_vmx.Hvm.Vmcs.Section.{decode, width_of, group_of, fields_of, find_encoding}
use jos_vmx.Hvm.Vmcs.Field.{
  VmcsField, guest_es_sel, guest_cs_sel, guest_ss_sel, guest_ds_sel, guest_fs_sel, guest_gs_sel,
  guest_ldtr_sel, guest_tr_sel, host_es_sel, host_cs_sel, host_ss_sel, host_ds_sel, host_fs_sel,
  host_gs_sel, host_tr_sel, addr_iobmp_a, addr_iobmp_a_high, addr_iobmp_b, addr_iobmp_b_high,
  addr_msrbmp, addr_msrbmp_high, vmexit_msrstore_addr, vmexit_msrstore_addr_high,
  vmexit_msrload_addr, vmexit_msrload_addr_high, vmentry_msrload_addr, vmentry_msrload_addr_high,
  exec_vmcs_pointer, exec_vmcs_pointer_high, tsc_offset, tsc_offset_high, virt_apic_page_addr,
  virt_apic_page_addr_high, ept_pointer, ept_pointer_high, guest_physical_addr,
  guest_physical_addr_high, vmcs_link_pointer, vmcs_link_pointer_high, guest_ia32_debugctl,
  guest_ia32_debugctl_high, pin_based_vmexec_ctl, proc_based_vmexec_ctl, exception_bmp,
  pagefault_errcode_mask, pagefault_errcode_match, cr3_target_count, vmexit_ctl,
  vmexit_msr_store_count, vmexit_msr_load_count, vmentry_ctl, vmentry_msr_load_count,
  vmentry_intr_info_field, vmentry_exception_errcode, vmentry_instruction_len, tpr_threshold,
  secondary_vm_exec_control, vm_instruction_err, exit_reason, vmexit_intr_info, vmexit_intr_errcode,
  idt_vectoring_info_field, idt_vectoring_errcode, vmexit_instruction_len, vmx_instruction_info,
  guest_es_limit, guest_cs_limit, guest_ss_limit, guest_ds_limit, guest_fs_limit, guest_gs_limit,
  guest_ldtr_limit, guest_tr_limit, guest_gdtr_limit, guest_idtr_limit, guest_es_access_rights,
  guest_cs_access_rights, guest_ss_access_rights, guest_ds_access_rights, guest_fs_access_rights,
  guest_gs_access_rights, guest_ldtr_access_rights, guest_tr_access_rights,
  guest_interruptibility_state, guest_activity_state, guest_smbase, guest_ia32_sysenter_cs,
  host_ia32_sysenter_cs, cr0_guesthost_mask, cr4_guesthost_mask, cr0_read_shadow, cr4_read_shadow,
  cr3_target_value_0, cr3_target_value_1, cr3_target_value_2, cr3_target_value_3,
  exit_qualification, io_rcx, io_rsi, io_rdi, io_rip, guest_linear_addr, guest_cr0, guest_cr3,
  guest_cr4, guest_es_base, guest_cs_base, guest_ss_base, guest_ds_base, guest_fs_base,
  guest_gs_base, guest_ldtr_base, guest_tr_base, guest_gdtr_base, guest_idtr_base, guest_dr7,
  guest_rsp, guest_rip, guest_rflags, guest_pending_debug_exceptions, guest_ia32_sysenter_esp,
  guest_ia32_sysenter_eip, host_cr0, host_cr3, host_cr4, host_fs_base, host_gs_base, host_tr_base,
  host_gdtr_base, host_idtr_base, host_ia32_sysenter_esp, host_ia32_sysenter_eip, host_rsp,
  host_rip,
}

decode-encoding : (f : VmcsField) → decode (encoding f) ≡ some f
unfolding decode width_of group_of fields_of find_encoding encoding
decode-encoding guest_es_sel = refl
decode-encoding guest_cs_sel = refl
decode-encoding guest_ss_sel = refl
decode-encoding guest_ds_sel = refl
decode-encoding guest_fs_sel = refl
decode-encoding guest_gs_sel = refl
decode-encoding guest_ldtr_sel = refl
decode-encoding guest_tr_sel = refl
decode-encoding host_es_sel = refl
decode-encoding host_cs_sel = refl
decode-encoding host_ss_sel = refl
decode-encoding host_ds_sel = refl
decode-encoding host_fs_sel = refl
decode-encoding host_gs_sel = refl
decode-encoding host_tr_sel = refl
decode-encoding addr_iobmp_a = refl
decode-encoding addr_iobmp_a_high = refl
decode-encoding addr_iobmp_b = refl
decode-encoding addr_iobmp_b_high = refl
decode-encoding addr_msrbmp = refl
decode-encoding addr_msrbmp_high = refl
decode-encoding vmexit_msrstore_addr = refl
decode-encoding vmexit_msrstore_addr_high = refl
decode-encoding vmexit_msrload_addr = refl
decode-encoding vmexit_msrload_addr_high = refl
decode-encoding vmentry_msrload_addr = refl
decode-encoding vmentry_msrload_addr_high = refl
decode-encoding exec_vmcs_pointer = refl
decode-encoding exec_vmcs_pointer_high = refl
decode-encoding tsc_offset = refl
decode-encoding tsc_offset_high = refl
decode-encoding virt_apic_page_addr = refl
decode-encoding virt_apic_page_addr_high = refl
decode-encoding ept_pointer = refl
decode-encoding ept_pointer_high = refl
decode-encoding guest_physical_addr = refl
decode-encoding guest_physical_addr_high = refl
decode-encoding vmcs_link_pointer = refl
decode-encoding vmcs_link_pointer_high = refl
decode-encoding guest_ia32_debugctl = refl
decode-encoding guest_ia32_debugctl_high = refl
decode-encoding pin_based_vmexec_ctl = refl
decode-encoding proc_based_vmexec_ctl = refl
decode-encoding exception_bmp = refl
decode-encoding pagefault_errcode_mask = refl
decode-encoding pagefault_errcode_match = refl
decode-encoding cr3_target_count = refl
decode-encoding vmexit_ctl = refl
decode-encoding vmexit_msr_store_count = refl
decode-encoding vmexit_msr_load_count = refl
decode-encoding vmentry_ctl = refl
decode-encoding vmentry_msr_load_count = refl
decode-encoding vmentry_intr_info_field = refl
decode-encoding vmentry_exception_errcode = refl
decode-encoding vmentry_instruction_len = refl
decode-encoding tpr_threshold = refl
decode-encoding secondary_vm_exec_control = refl
decode-encoding vm_instruction_err = refl
decode-encoding exit_reason = refl
decode-encoding vmexit_intr_info = refl
decode-encoding vmexit_intr_errcode = refl
decode-encoding idt_vectoring_info_field = refl
decode-encoding idt_vectoring_errcode = refl
decode-encoding vmexit_instruction_len = refl
decode-encoding vmx_instruction_info = refl
decode-encoding guest_es_limit = refl
decode-encoding guest_cs_limit = refl
decode-encoding guest_ss_limit = refl
decode-encoding guest_ds_limit = refl
decode-encoding guest_fs_limit = refl
decode-encoding guest_gs_limit = refl
decode-encoding guest_ldtr_limit = refl
decode-encoding guest_tr_limit = refl
decode-encoding guest_gdtr_limit = refl
decode-encoding guest_idtr_limit = refl
decode-encoding guest_es_access_rights = refl
decode-encoding guest_cs_access_rights = refl
decode-encoding guest_ss_access_rights = refl
decode-encoding guest_ds_access_rights = refl
decode-encoding guest_fs_access_rights = refl
decode-encoding guest_gs_access_rights = refl
decode-encoding guest_ldtr_access_rights = refl
decode-encoding guest_tr_access_rights = refl
decode-encoding guest_interruptibility_state = refl
decode-encoding guest_activity_state = refl
decode-encoding guest_smbase = refl
decode-encoding guest_ia32_sysenter_cs = refl
decode-encoding host_ia32_sysenter_cs = refl
decode-encoding cr0_guesthost_mask = refl
decode-encoding cr4_guesthost_mask = refl
decode-encoding cr0_read_shadow = refl
decode-encoding cr4_read_shadow = refl
decode-encoding cr3_target_value_0 = refl
decode-encoding cr3_target_value_1 = refl
decode-encoding cr3_target_value_2 = refl
decode-encoding cr3_target_value_3 = refl
decode-encoding exit_qualification = refl
decode-encoding io_rcx = refl
decode-encoding io_rsi = refl
decode-encoding io_rdi = refl
decode-encoding io_rip = refl
decode-encoding guest_linear_addr = refl
decode-encoding guest_cr0 = refl
decode-encoding guest_cr3 = refl
decode-encoding guest_cr4 = refl
decode-encoding guest_es_base = refl
decode-encoding guest_cs_base = refl
decode-encoding guest_ss_base = refl
decode-encoding guest_ds_base = refl
decode-encoding guest_fs_base = refl
decode-encoding guest_gs_base = refl
decode-encoding guest_ldtr_base = refl
decode-encoding guest_tr_base = refl
decode-encoding guest_gdtr_base = refl
decode-encoding guest_idtr_base = refl
decode-encoding guest_dr7 = refl
decode-encoding guest_rsp = refl
decode-encoding guest_rip = refl
decode-encoding guest_rflags = refl
decode-encoding guest_pending_debug_exceptions = refl
decode-encoding guest_ia32_sysenter_esp = refl
decode-encoding guest_ia32_sysenter_eip = refl
decode-encoding host_cr0 = refl
decode-encoding host_cr3 = refl
decode-encoding host_cr4 = refl
decode-encoding host_fs_base = refl
decode-encoding host_gs_base = refl
decode-encoding host_tr_base = refl
decode-encoding host_gdtr_base = refl
decode-encoding host_idtr_base = refl
decode-encoding host_ia32_sysenter_esp = refl
decode-encoding host_ia32_sysenter_eip = refl
decode-encoding host_rsp = refl
decode-encoding host_rip = refl

-- Every field of the VMCS is found again from its encoding in the section that bits 14, 13, 11 and
-- 10 of the encoding stand for, and two fields with one encoding are the same field.
pub encoding_lem :
    (f g : VmcsField) → (decode (encoding f) ≡ some f) × (encoding f ≡ encoding g → f ≡ g)
encoding_lem f g = (
  decode-encoding f,
  λ e. some-injective _ _ (sym (decode-encoding f) ∙ ap decode e ∙ decode-encoding g),
)
