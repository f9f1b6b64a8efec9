-- ===== src/Hvm/Vmcs.antt =====
-- inc/hvm/constants.h: the fields of the VMCS (Field), their encodings (here) and the sections under
-- which the header lists them (Section).
pub mod Field
pub mod Section
pub mod Write
pub mod Laws
use jos_vmx.Base.{ℕ}
use Field.*

unfoldable pub encoding : VmcsField → ℕ
encoding guest_es_sel = 0x800
encoding guest_cs_sel = 0x802
encoding guest_ss_sel = 0x804
encoding guest_ds_sel = 0x806
encoding guest_fs_sel = 0x808
encoding guest_gs_sel = 0x80A
encoding guest_ldtr_sel = 0x80C
encoding guest_tr_sel = 0x80E
encoding host_es_sel = 0xC00
encoding host_cs_sel = 0xC02
encoding host_ss_sel = 0xC04
encoding host_ds_sel = 0xC06
encoding host_fs_sel = 0xC08
encoding host_gs_sel = 0xC0A
encoding host_tr_sel = 0xC0C
encoding addr_iobmp_a = 0x2000
encoding addr_iobmp_a_high = 0x2001
encoding addr_iobmp_b = 0x2002
encoding addr_iobmp_b_high = 0x2003
encoding addr_msrbmp = 0x2004
encoding addr_msrbmp_high = 0x2005
encoding vmexit_msrstore_addr = 0x2006
encoding vmexit_msrstore_addr_high = 0x2007
encoding vmexit_msrload_addr = 0x2008
encoding vmexit_msrload_addr_high = 0x2009
encoding vmentry_msrload_addr = 0x200A
encoding vmentry_msrload_addr_high = 0x200B
encoding exec_vmcs_pointer = 0x200C
encoding exec_vmcs_pointer_high = 0x200D
encoding tsc_offset = 0x2010
encoding tsc_offset_high = 0x2011
encoding virt_apic_page_addr = 0x2012
encoding virt_apic_page_addr_high = 0x2013
encoding ept_pointer = 0x201A
encoding ept_pointer_high = 0x201B
encoding guest_physical_addr = 0x2400
encoding guest_physical_addr_high = 0x2401
encoding vmcs_link_pointer = 0x2800
encoding vmcs_link_pointer_high = 0x2801
encoding guest_ia32_debugctl = 0x2802
encoding guest_ia32_debugctl_high = 0x2803
encoding pin_based_vmexec_ctl = 0x4000
encoding proc_based_vmexec_ctl = 0x4002
encoding exception_bmp = 0x4004
encoding pagefault_errcode_mask = 0x4006
encoding pagefault_errcode_match = 0x4008
encoding cr3_target_count = 0x400A
encoding vmexit_ctl = 0x400C
encoding vmexit_msr_store_count = 0x400E
encoding vmexit_msr_load_count = 0x4010
encoding vmentry_ctl = 0x4012
encoding vmentry_msr_load_count = 0x4014
encoding vmentry_intr_info_field = 0x4016
encoding vmentry_exception_errcode = 0x4018
encoding vmentry_instruction_len = 0x401A
encoding tpr_threshold = 0x401C
encoding secondary_vm_exec_control = 0x401E
encoding vm_instruction_err = 0x4400
encoding exit_reason = 0x4402
encoding vmexit_intr_info = 0x4404
encoding vmexit_intr_errcode = 0x4406
encoding idt_vectoring_info_field = 0x4408
encoding idt_vectoring_errcode = 0x440A
encoding vmexit_instruction_len = 0x440C
encoding vmx_instruction_info = 0x440E
encoding guest_es_limit = 0x4800
encoding guest_cs_limit = 0x4802
encoding guest_ss_limit = 0x4804
encoding guest_ds_limit = 0x4806
encoding guest_fs_limit = 0x4808
encoding guest_gs_limit = 0x480A
encoding guest_ldtr_limit = 0x480C
encoding guest_tr_limit = 0x480E
encoding guest_gdtr_limit = 0x4810
encoding guest_idtr_limit = 0x4812
encoding guest_es_access_rights = 0x4814
encoding guest_cs_access_rights = 0x4816
encoding guest_ss_access_rights = 0x4818
encoding guest_ds_access_rights = 0x481A
encoding guest_fs_access_rights = 0x481C
encoding guest_gs_access_rights = 0x481E
encoding guest_ldtr_access_rights = 0x4820
encoding guest_tr_access_rights = 0x4822
encoding guest_interruptibility_state = 0x4824
encoding guest_activity_state = 0x4826
encoding guest_smbase = 0x4828
encoding guest_ia32_sysenter_cs = 0x482A
encoding host_ia32_sysenter_cs = 0x4C00
encoding cr0_guesthost_mask = 0x6000
encoding cr4_guesthost_mask = 0x6002
encoding cr0_read_shadow = 0x6004
encoding cr4_read_shadow = 0x6006
encoding cr3_target_value_0 = 0x6008
encoding cr3_target_value_1 = 0x600A
encoding cr3_target_value_2 = 0x600C
encoding cr3_target_value_3 = 0x600E
encoding exit_qualification = 0x6400
encoding io_rcx = 0x6402
encoding io_rsi = 0x6404
encoding io_rdi = 0x6406
encoding io_rip = 0x6408
encoding guest_linear_addr = 0x640A
encoding guest_cr0 = 0x6800
encoding guest_cr3 = 0x6802
encoding guest_cr4 = 0x6804
encoding guest_es_base = 0x6806
encoding guest_cs_base = 0x6808
encoding guest_ss_base = 0x680A
encoding guest_ds_base = 0x680C
encoding guest_fs_base = 0x680E
encoding guest_gs_base = 0x6810
encoding guest_ldtr_base = 0x6812
encoding guest_tr_base = 0x6814
encoding guest_gdtr_base = 0x6816
encoding guest_idtr_base = 0x6818
encoding guest_dr7 = 0x681A
encoding guest_rsp = 0x681C
encoding guest_rip = 0x681E
encoding guest_rflags = 0x6820
encoding guest_pending_debug_exceptions = 0x6822
encoding guest_ia32_sysenter_esp = 0x6824
encoding guest_ia32_sysenter_eip = 0x6826
encoding host_cr0 = 0x6C00
encoding host_cr3 = 0x6C02
encoding host_cr4 = 0x6C04
encoding host_fs_base = 0x6C06
encoding host_gs_base = 0x6C08
encoding host_tr_base = 0x6C0A
encoding host_gdtr_base = 0x6C0C
encoding host_idtr_base = 0x6C0E
encoding host_ia32_sysenter_esp = 0x6C10
encoding host_ia32_sysenter_eip = 0x6C12
encoding host_rsp = 0x6C14
encoding host_rip = 0x6C16
