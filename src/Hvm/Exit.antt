-- ===== src/Hvm/Exit.antt =====
-- vt.c: add_ip, do_cpuid, vt_exit_reason and the loop of vt_main. `none` is a panic; a failed VM entry
-- of vt_first_run and vt_run panics.
pub mod Answer
pub mod Loop
use jos_vmx.Base.{
  ℕ, zero, suc, ◌+◌, ◌-◌, ◌%◌, ◌^◌, ◌≡◌, refl, Option, none, some, Bool, true, false, not, ◌==◌,
  if◌then◌else◌, bit_and, update,
}
use jos_vmx.Hvm.{Vt, vmcs_guest_rip, vmcs_exit_reason, vmcs_vmexit_instruction_len, asm_vmwrite}
use jos_vmx.Hvm.Regs.{reg_rax, reg_rbx, reg_rcx, reg_rdx, vt_read_general_reg, vt_write_general_reg}

-- The registers that the instruction `cpuid` returns.
pub record Cpuid : Type 0 where
  pub eax : ℕ
  pub ebx : ℕ
  pub ecx : ℕ
  pub edx : ℕ

unfoldable pub add_ip : Vt → Vt
add_ip s =
    let ip = s.vmcs vmcs_guest_rip + s.vmcs vmcs_vmexit_instruction_len in
    record s { vmcs = asm_vmwrite vmcs_guest_rip (ip % 2 ^ 32) s.vmcs }

abbrev pub then_do : Option Vt → (Vt → Option Vt) → Option Vt
then_do none k = none
then_do (some s) k = k s

-- `oc &= ~CPUID_1_ECX_VMX_BIT` in 32 bits
abbrev pub without_vmx : ℕ → ℕ
without_vmx oc = bit_and oc (2 ^ 32 - 1 - 0x20)

module _ (cpuid : ℕ → Cpuid) where
  -- The test for 0xFeedCafe has no body.
  unfoldable pub do_cpuid : Vt → Option Vt
  do_cpuid s = elim (vt_read_general_reg reg_rax s) [
    | none ↦ none
    | some la ↦
        let out = cpuid la in
        let oc = if la == 1 then without_vmx out.ecx else out.ecx in
        then_do (vt_write_general_reg reg_rax out.eax s) (λ s₁.
          then_do (vt_write_general_reg reg_rbx out.ebx s₁) (λ s₂.
            then_do (vt_write_general_reg reg_rcx oc s₂)
              (λ s₃. then_do (vt_write_general_reg reg_rdx out.edx s₃) (λ s₄. some (add_ip s₄)))))
  ]

  -- Whether the machine goes on, with its state.
  unfoldable pub vt_exit_reason : Vt → Option (Bool × Vt)
  vt_exit_reason s =
      let exit_reason = s.vmcs vmcs_exit_reason in
      if not (bit_and exit_reason 0x80000000 == 0)
      then none
      else if bit_and exit_reason 0xFFFF == 0xA
      then (elim (do_cpuid s) [ none ↦ none | some s' ↦ some (true, s') ])
      else if bit_and exit_reason 0xFFFF == 0x3
      then some (false, s)
      else none

  -- The loop of `vt_main` on fuel; `run` is the guest from a resume to its next exit, `none` if
  -- the resume fails.
  unfoldable pub vt_loop : ℕ → (Vt → Option Vt) → Vt → Option Vt
  vt_loop zero run s = none
  vt_loop (suc fuel) run s = elim (vt_exit_reason s) [
    | none ↦ none
    | some (false, s') ↦ some s'
    | some (true, s') ↦ elim (run s') [ none ↦ none | some s'' ↦ vt_loop fuel run s'' ]
  ]

  -- What the guest sees of `cpuid`: the processor's answer, but no VT-x in leaf 1.
  abbrev pub answered : Vt → Vt
  answered s =
      let out = cpuid s.vr.rax in
      let ip = s.vmcs vmcs_guest_rip + s.vmcs vmcs_vmexit_instruction_len in
      record {
        vr = record (s.vr) {
          rax = out.eax;
          rbx = out.ebx;
          rcx = if s.vr.rax == 1 then without_vmx out.ecx else out.ecx;
          rdx = out.edx;
        };
        vmcs = update s.vmcs vmcs_guest_rip (ip % 2 ^ 32);
      }

  pub vt_exit_reason_cpuid :
      (s : Vt)
      → bit_and (s.vmcs vmcs_exit_reason) 0x80000000 ≡ 0
      → bit_and (s.vmcs vmcs_exit_reason) 0xFFFF ≡ 0xA
      → vt_exit_reason s ≡ some (true, answered s)
  unfolding vt_exit_reason do_cpuid add_ip vt_read_general_reg vt_write_general_reg
  vt_exit_reason_cpuid s ok e = rw (ok, e) refl
