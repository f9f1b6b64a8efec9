-- ===== src/Hvm/Vmcs/Section.antt =====
-- inc/hvm/constants.h: the sections under which the header lists the fields, and the section that the
-- bits of an encoding stand for. The read-only fields of 32 bits are listed under the control fields.
use jos_vmx.Base.{ℕ, ◌/◌, ◌%◌, ◌^◌, List, [], ◌∷◌, Option, none, some, ◌==◌, if◌then◌else◌}
use jos_vmx.Hvm.Vmcs.{encoding}
use jos_vmx.Hvm.Vmcs.Field.{
  VmcsField, guest_es_sel, guest_cs_sel, guest_ss_sel, guest_ds_sel, guest_fs_sel, guest_gs_sel,
  guest_ldtr_sel, guest_tr_sel, host_es_sel, host_cs_sel, host_ss_sel, host_ds_sel, host_fs_sel,
  host_gs_sel, host_tr_sel, addr_iobmp_a, addr_iobmp_a_high, addr_iobmp_b, addr_iobmp_b_high,
  addr_msrbmp, addr_msrbmp_high, vmexit_msrstore_addr, vmexit_msrstore_addr_high,
  vmexit_msrload_addr, vmexit_msrload_addr_high, vmentry_msrload_addr, vmentry_msrload_addr_high,
  exec_vmcs_pointer, exec_vmcs_pointer_high, tsc_offset, tsc_offset_high, virt_apic_page_addr,
  virt_apic_page_addr_high, ept_pointer, ept_pointer_high, guest_physical_addr,
  guest_physical_addr_high, vmcs_link_pointer, vmcs_link_pointer_high, guest_ia32_debugctl,
  guest_ia32_debugctl_high, pin_based_vmexec_ctl, proc_based_vmexec_ctl, exception_bmp,
  pagefault_errcode_mask, pagefault_errcode_match, cr3_target_count, vmexit_ctl,
  vmexit_msr_store_count, vmexit_msr_load_count, vmentry_ctl, vmentry_msr_load_count,
  vmentry_intr_info_field, vmentry_exception_errcode, vmentry_instruction_len, tpr_threshold,
  secondary_vm_exec_control, vm_instruction_err, exit_reason, vmexit_intr_info, vmexit_intr_errcode,
  idt_vectoring_info_field, idt_vectoring_errcode, vmexit_instruction_len, vmx_instruction_info,
  guest_es_limit, guest_cs_limit, guest_ss_limit, guest_ds_limit, guest_fs_limit, guest_gs_limit,
  guest_ldtr_limit, guest_tr_limit, guest_gdtr_limit, guest_idtr_limit, guest_es_access_rights,
  guest_cs_access_rights, guest_ss_access_rights, guest_ds_access_rights, guest_fs_access_rights,
  guest_gs_access_rights, guest_ldtr_access_rights, guest_tr_access_rights,
  guest_interruptibility_state, guest_activity_state, guest_smbase, guest_ia32_sysenter_cs,
  host_ia32_sysenter_cs, cr0_guesthost_mask, cr4_guesthost_mask, cr0_read_shadow, cr4_read_shadow,
  cr3_target_value_0, cr3_target_value_1, cr3_target_value_2, cr3_target_value_3,
  exit_qualification, io_rcx, io_rsi, io_rdi, io_rip, guest_linear_addr, guest_cr0, guest_cr3,
  guest_cr4, guest_es_base, guest_cs_base, guest_ss_base, guest_ds_base, guest_fs_base,
  guest_gs_base, guest_ldtr_base, guest_tr_base, guest_gdtr_base, guest_idtr_base, guest_dr7,
  guest_rsp, guest_rip, guest_rflags, guest_pending_debug_exceptions, guest_ia32_sysenter_esp,
  guest_ia32_sysenter_eip, host_cr0, host_cr3, host_cr4, host_fs_base, host_gs_base, host_tr_base,
  host_gdtr_base, host_idtr_base, host_ia32_sysenter_esp, host_ia32_sysenter_eip, host_rsp,
  host_rip,
}

pub data Width : Type 0 where
  w16 : Width
  w64 : Width
  w32 : Width
  natural : Width

pub data Group : Type 0 where
  control : Group
  read_only : Group
  of_guest : Group
  of_host : Group

unfoldable pub fields_of : Width → Group → List VmcsField
fields_of w16 of_guest =
    guest_es_sel ∷ guest_cs_sel ∷ guest_ss_sel ∷ guest_ds_sel ∷ guest_fs_sel ∷ guest_gs_sel
    ∷ guest_ldtr_sel ∷ guest_tr_sel ∷ []
fields_of w16 of_host =
    host_es_sel ∷ host_cs_sel ∷ host_ss_sel ∷ host_ds_sel ∷ host_fs_sel ∷ host_gs_sel ∷ host_tr_sel
    ∷ []
fields_of w64 control =
    addr_iobmp_a ∷ addr_iobmp_a_high ∷ addr_iobmp_b ∷ addr_iobmp_b_high ∷ addr_msrbmp
    ∷ addr_msrbmp_high ∷ vmexit_msrstore_addr ∷ vmexit_msrstore_addr_high ∷ vmexit_msrload_addr
    ∷ vmexit_msrload_addr_high ∷ vmentry_msrload_addr ∷ vmentry_msrload_addr_high
    ∷ exec_vmcs_pointer ∷ exec_vmcs_pointer_high ∷ tsc_offset ∷ tsc_offset_high
    ∷ virt_apic_page_addr ∷ virt_apic_page_addr_high ∷ ept_pointer ∷ ept_pointer_high ∷ []
fields_of w64 read_only = guest_physical_addr ∷ guest_physical_addr_high ∷ []
fields_of w64 of_guest =
    vmcs_link_pointer ∷ vmcs_link_pointer_high ∷ guest_ia32_debugctl ∷ guest_ia32_debugctl_high ∷ []
fields_of w32 control =
    pin_based_vmexec_ctl ∷ proc_based_vmexec_ctl ∷ exception_bmp ∷ pagefault_errcode_mask
    ∷ pagefault_errcode_match ∷ cr3_target_count ∷ vmexit_ctl ∷ vmexit_msr_store_count
    ∷ vmexit_msr_load_count ∷ vmentry_ctl ∷ vmentry_msr_load_count ∷ vmentry_intr_info_field
    ∷ vmentry_exception_errcode ∷ vmentry_instruction_len ∷ tpr_threshold
    ∷ secondary_vm_exec_control ∷ []
fields_of w32 read_only =
    vm_instruction_err ∷ exit_reason ∷ vmexit_intr_info ∷ vmexit_intr_errcode
    ∷ idt_vectoring_info_field ∷ idt_vectoring_errcode ∷ vmexit_instruction_len
    ∷ vmx_instruction_info ∷ []
fields_of w32 of_guest =
    guest_es_limit ∷ guest_cs_limit ∷ guest_ss_limit ∷ guest_ds_limit ∷ guest_fs_limit
    ∷ guest_gs_limit ∷ guest_ldtr_limit ∷ guest_tr_limit ∷ guest_gdtr_limit ∷ guest_idtr_limit
    ∷ guest_es_access_rights ∷ guest_cs_access_rights ∷ guest_ss_access_rights
    ∷ guest_ds_access_rights ∷ guest_fs_access_rights ∷ guest_gs_access_rights
    ∷ guest_ldtr_access_rights ∷ guest_tr_access_rights ∷ guest_interruptibility_state
    ∷ guest_activity_state ∷ guest_smbase ∷ guest_ia32_sysenter_cs ∷ []
fields_of w32 of_host = host_ia32_sysenter_cs ∷ []
fields_of natural control =
    cr0_guesthost_mask ∷ cr4_guesthost_mask ∷ cr0_read_shadow ∷ cr4_read_shadow ∷ cr3_target_value_0
    ∷ cr3_target_value_1 ∷ cr3_target_value_2 ∷ cr3_target_value_3 ∷ []
fields_of natural read_only =
    exit_qualification ∷ io_rcx ∷ io_rsi ∷ io_rdi ∷ io_rip ∷ guest_linear_addr ∷ []
fields_of natural of_guest =
    guest_cr0 ∷ guest_cr3 ∷ guest_cr4 ∷ guest_es_base ∷ guest_cs_base ∷ guest_ss_base
    ∷ guest_ds_base ∷ guest_fs_base ∷ guest_gs_base ∷ guest_ldtr_base ∷ guest_tr_base
    ∷ guest_gdtr_base ∷ guest_idtr_base ∷ guest_dr7 ∷ guest_rsp ∷ guest_rip ∷ guest_rflags
    ∷ guest_pending_debug_exceptions ∷ guest_ia32_sysenter_esp ∷ guest_ia32_sysenter_eip ∷ []
fields_of natural of_host =
    host_cr0 ∷ host_cr3 ∷ host_cr4 ∷ host_fs_base ∷ host_gs_base ∷ host_tr_base ∷ host_gdtr_base
    ∷ host_idtr_base ∷ host_ia32_sysenter_esp ∷ host_ia32_sysenter_eip ∷ host_rsp ∷ host_rip ∷ []
fields_of _ _ = []

-- Bits 14 and 13 of an encoding.
unfoldable pub width_of : ℕ → Width
width_of e =
    let bits = e / 2 ^ 13 in
    if bits == 0 then w16 else if bits == 1 then w64 else if bits == 2 then w32 else natural

-- Bits 11 and 10 of an encoding.
unfoldable pub group_of : ℕ → Group
group_of e =
    let bits = e / 2 ^ 10 % 4 in
    if bits == 0
    then control
    else if bits == 1
    then read_only
    else if bits == 2
    then of_guest
    else of_host

unfoldable pub find_encoding : ℕ → List VmcsField → Option VmcsField
find_encoding e [] = none
find_encoding e (f ∷ more) = if encoding f == e then some f else find_encoding e more

-- The field with an encoding, looked for in the section of its bits only.
unfoldable pub decode : ℕ → Option VmcsField
decode e = find_encoding e (fields_of (width_of e) (group_of e))
