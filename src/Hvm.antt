-- ===== src/Hvm.antt =====
-- The virtual machine monitor of hvm/: the registers of the guest (vt_regs.c), the handling of its
-- exits (vt.c) and the state it starts in (vt_init.c). The VMCS is a function of the field's
-- encoding; the processor's `cpuid` is a parameter.
pub mod Regs
pub mod Segment
pub mod Exit
pub mod Vmcs
pub mod Guest
pub mod Host
pub mod Ept
mod Tests
use jos_vmx.Base.{ℕ, List, [], ◌∷◌, update}

-- `struct vt_vmentry_regs vr`
pub record Vr : Type 0 where
  pub rax : ℕ
  pub rcx : ℕ
  pub rdx : ℕ
  pub rbx : ℕ
  pub cr2 : ℕ
  pub rbp : ℕ
  pub rsi : ℕ
  pub rdi : ℕ

pub record Vt : Type 0 where
  pub vr : Vr
  pub vmcs : ℕ → ℕ

abbrev pub vmcs_guest_rsp : ℕ
vmcs_guest_rsp = 0x681C

abbrev pub vmcs_guest_rip : ℕ
vmcs_guest_rip = 0x681E

abbrev pub vmcs_exit_reason : ℕ
vmcs_exit_reason = 0x4402

abbrev pub vmcs_vmexit_instruction_len : ℕ
vmcs_vmexit_instruction_len = 0x440C

abbrev pub asm_vmwrite : ℕ → ℕ → (ℕ → ℕ) → ℕ → ℕ
asm_vmwrite field val vmcs = update vmcs field val
