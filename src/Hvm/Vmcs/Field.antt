-- ===== src/Hvm/Vmcs/Field.antt =====
-- inc/hvm/constants.h: the fields of the VMCS, in the order of the header and with its names.
pub data VmcsField : Type 0 where
  guest_es_sel : VmcsField
  guest_cs_sel : VmcsField
  guest_ss_sel : VmcsField
  guest_ds_sel : VmcsField
  guest_fs_sel : VmcsField
  guest_gs_sel : VmcsField
  guest_ldtr_sel : VmcsField
  guest_tr_sel : VmcsField
  host_es_sel : VmcsField
  host_cs_sel : VmcsField
  host_ss_sel : VmcsField
  host_ds_sel : VmcsField
  host_fs_sel : VmcsField
  host_gs_sel : VmcsField
  host_tr_sel : VmcsField
  addr_iobmp_a : VmcsField
  addr_iobmp_a_high : VmcsField
  addr_iobmp_b : VmcsField
  addr_iobmp_b_high : VmcsField
  addr_msrbmp : VmcsField
  addr_msrbmp_high : VmcsField
  vmexit_msrstore_addr : VmcsField
  vmexit_msrstore_addr_high : VmcsField
  vmexit_msrload_addr : VmcsField
  vmexit_msrload_addr_high : VmcsField
  vmentry_msrload_addr : VmcsField
  vmentry_msrload_addr_high : VmcsField
  exec_vmcs_pointer : VmcsField
  exec_vmcs_pointer_high : VmcsField
  tsc_offset : VmcsField
  tsc_offset_high : VmcsField
  virt_apic_page_addr : VmcsField
  virt_apic_page_addr_high : VmcsField
  ept_pointer : VmcsField
  ept_pointer_high : VmcsField
  guest_physical_addr : VmcsField
  guest_physical_addr_high : VmcsField
  vmcs_link_pointer : VmcsField
  vmcs_link_pointer_high : VmcsField
  guest_ia32_debugctl : VmcsField
  guest_ia32_debugctl_high : VmcsField
  pin_based_vmexec_ctl : VmcsField
  proc_based_vmexec_ctl : VmcsField
  exception_bmp : VmcsField
  pagefault_errcode_mask : VmcsField
  pagefault_errcode_match : VmcsField
  cr3_target_count : VmcsField
  vmexit_ctl : VmcsField
  vmexit_msr_store_count : VmcsField
  vmexit_msr_load_count : VmcsField
  vmentry_ctl : VmcsField
  vmentry_msr_load_count : VmcsField
  vmentry_intr_info_field : VmcsField
  vmentry_exception_errcode : VmcsField
  vmentry_instruction_len : VmcsField
  tpr_threshold : VmcsField
  secondary_vm_exec_control : VmcsField
  vm_instruction_err : VmcsField
  exit_reason : VmcsField
  vmexit_intr_info : VmcsField
  vmexit_intr_errcode : VmcsField
  idt_vectoring_info_field : VmcsField
  idt_vectoring_errcode : VmcsField
  vmexit_instruction_len : VmcsField
  vmx_instruction_info : VmcsField
  guest_es_limit : VmcsField
  guest_cs_limit : VmcsField
  guest_ss_limit : VmcsField
  guest_ds_limit : VmcsField
  guest_fs_limit : VmcsField
  guest_gs_limit : VmcsField
  guest_ldtr_limit : VmcsField
  guest_tr_limit : VmcsField
  guest_gdtr_limit : VmcsField
  guest_idtr_limit : VmcsField
  guest_es_access_rights : VmcsField
  guest_cs_access_rights : VmcsField
  guest_ss_access_rights : VmcsField
  guest_ds_access_rights : VmcsField
  guest_fs_access_rights : VmcsField
  guest_gs_access_rights : VmcsField
  guest_ldtr_access_rights : VmcsField
  guest_tr_access_rights : VmcsField
  guest_interruptibility_state : VmcsField
  guest_activity_state : VmcsField
  guest_smbase : VmcsField
  guest_ia32_sysenter_cs : VmcsField
  host_ia32_sysenter_cs : VmcsField
  cr0_guesthost_mask : VmcsField
  cr4_guesthost_mask : VmcsField
  cr0_read_shadow : VmcsField
  cr4_read_shadow : VmcsField
  cr3_target_value_0 : VmcsField
  cr3_target_value_1 : VmcsField
  cr3_target_value_2 : VmcsField
  cr3_target_value_3 : VmcsField
  exit_qualification : VmcsField
  io_rcx : VmcsField
  io_rsi : VmcsField
  io_rdi : VmcsField
  io_rip : VmcsField
  guest_linear_addr : VmcsField
  guest_cr0 : VmcsField
  guest_cr3 : VmcsField
  guest_cr4 : VmcsField
  guest_es_base : VmcsField
  guest_cs_base : VmcsField
  guest_ss_base : VmcsField
  guest_ds_base : VmcsField
  guest_fs_base : VmcsField
  guest_gs_base : VmcsField
  guest_ldtr_base : VmcsField
  guest_tr_base : VmcsField
  guest_gdtr_base : VmcsField
  guest_idtr_base : VmcsField
  guest_dr7 : VmcsField
  guest_rsp : VmcsField
  guest_rip : VmcsField
  guest_rflags : VmcsField
  guest_pending_debug_exceptions : VmcsField
  guest_ia32_sysenter_esp : VmcsField
  guest_ia32_sysenter_eip : VmcsField
  host_cr0 : VmcsField
  host_cr3 : VmcsField
  host_cr4 : VmcsField
  host_fs_base : VmcsField
  host_gs_base : VmcsField
  host_tr_base : VmcsField
  host_gdtr_base : VmcsField
  host_idtr_base : VmcsField
  host_ia32_sysenter_esp : VmcsField
  host_ia32_sysenter_eip : VmcsField
  host_rsp : VmcsField
  host_rip : VmcsField
