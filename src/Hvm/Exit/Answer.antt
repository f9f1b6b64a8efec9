-- ===== src/Hvm/Exit/Answer.antt =====
-- vt_exit_reason of hvm/vt.c on every exit of the guest, by the bits of the exit reason.
use jos_vmx.Base.{
  ℕ, ◌+◌, ◌*◌, ◌/◌, ◌%◌, ◌^◌, ◌<◌, ◌≡◌, ◌≢◌, refl, ◌∙◌, ap, sym, some, true, bit_and, arith,
}
use jos_vmx.Base.Bits.{bit_and_step, bit_and_mod, bit_and_scaled}
use jos_vmx.Hvm.{Vt, vmcs_exit_reason}
use jos_vmx.Hvm.Exit.{Cpuid, vt_exit_reason, vt_exit_reason_cpuid, answered, without_vmx}

-- Bit 31 of the exit reason is clear, and its low 16 bits are `code`.
abbrev pub Exits : ℕ → Vt → Type 0
Exits code s =
    (s.vmcs vmcs_exit_reason / 2 ^ 31 % 2 ≡ 0) × (s.vmcs vmcs_exit_reason % 2 ^ 16 ≡ code)

-- `s'` is the guest `s` with the processor's answer `out` to `cpuid`, and behind the instruction.
pub record IsAnswer (out : Cpuid) (s s' : Vt) : Type 0 where
  pub eax : s'.vr.rax ≡ out.eax
  pub ebx : s'.vr.rbx ≡ out.ebx
  pub edx : s'.vr.rdx ≡ out.edx
  pub ecx : s.vr.rax ≢ 1 → s'.vr.rcx ≡ out.ecx
  pub ecx_of_features : s.vr.rax ≡ 1 → s'.vr.rcx + out.ecx / 2 ^ 5 % 2 * 2 ^ 5 ≡ out.ecx
  pub cr2 : s'.vr.cr2 ≡ s.vr.cr2
  pub rbp : s'.vr.rbp ≡ s.vr.rbp
  pub rsi : s'.vr.rsi ≡ s.vr.rsi
  pub rdi : s'.vr.rdi ≡ s.vr.rdi
  pub rip : s'.vmcs 0x681E ≡ (s.vmcs 0x681E + s.vmcs 0x440C) % 2 ^ 32
  pub fields : (f : ℕ) → f ≢ 0x681E → s'.vmcs f ≡ s.vmcs f

failure_bit : (n : ℕ) → bit_and n 0x80000000 ≡ n / 2 ^ 31 % 2 * 2 ^ 31
failure_bit n =
    let split : n / 2 ^ 31 * 2 ^ 31 + n % 2 ^ 31 ≡ n = omega arith in
    ap (λ k. bit_and k 0x80000000) (sym split)
    ∙ bit_and_scaled 31 (n / 2 ^ 31) (n % 2 ^ 31) 1 (omega arith)
    ∙ ap (λ b. b * 2 ^ 31) (bit_and_mod 1 (n / 2 ^ 31))

without_vmx_lem : (n : ℕ) → n < 2 ^ 32 → without_vmx n + n / 2 ^ 5 % 2 * 2 ^ 5 ≡ n
without_vmx_lem n h =
    let n₁ = n / 2 in
    let n₂ = n₁ / 2 in
    let n₃ = n₂ / 2 in
    let n₄ = n₃ / 2 in
    let n₅ = n₄ / 2 in
    omega (
      arith,
      bit_and_step n 0xFFFF_FFDF,
      bit_and_step n₁ 0x7FFF_FFEF,
      bit_and_step n₂ 0x3FFF_FFF7,
      bit_and_step n₃ 0x1FFF_FFFB,
      bit_and_step n₄ 0x0FFF_FFFD,
      bit_and_step n₅ 0x07FF_FFFE,
      bit_and_mod 26 (n₅ / 2),
    )

module _ (cpuid : ℕ → Cpuid) where
  answered-IsAnswer :
      (s : Vt) → (cpuid s.vr.rax).ecx < 2 ^ 32 → IsAnswer (cpuid s.vr.rax) s (answered cpuid s)
  answered-IsAnswer s h = record {
    eax = refl;
    ebx = refl;
    edx = refl;
    ecx = λ ne. ground (arith, ne);
    ecx_of_features = λ e. ground (arith, e, without_vmx_lem (cpuid s.vr.rax).ecx h);
    cr2 = refl;
    rbp = refl;
    rsi = refl;
    rdi = refl;
    rip = ground arith;
    fields = λ f ne. ground (arith, ne);
  }

  goes_on : (s s' : Vt) → vt_exit_reason cpuid s ≡ some (true, s') → Exits 0xA s
  unfolding vt_exit_reason
  goes_on s s' e =
      let bit = failure_bit (s.vmcs vmcs_exit_reason) in
      let low = bit_and_mod 16 (s.vmcs vmcs_exit_reason) in ground (arith, bit, low, e)

  -- Where the processor's answer to `cpuid` has 32 bits in ecx: when the guest was entered, which
  -- bit 31 of the exit reason denies, and has left for `cpuid`, vt_exit_reason lets it go on with
  -- the answer to the leaf in its rax, in leaf 1 without the VMX bit 5 of ecx, its instruction
  -- pointer behind the instruction in 32 bits, and all else as it was. After every other exit, and
  -- after a VM entry that failed, vt_exit_reason does not let the guest go on.
  pub vt_exit_cpuid :
      (s : Vt)
      → (cpuid s.vr.rax).ecx < 2 ^ 32
      → (Exits 0xA s
          → (s' : Vt) × (vt_exit_reason cpuid s ≡ some (true, s')) × IsAnswer (cpuid s.vr.rax) s s')
        × ((s' : Vt) → vt_exit_reason cpuid s ≡ some (true, s') → Exits 0xA s)
  vt_exit_cpuid s h = (
    λ x.
        let failed : bit_and (s.vmcs vmcs_exit_reason) 0x80000000 ≡ 0 =
          omega (arith, failure_bit (s.vmcs vmcs_exit_reason), x.0) in
        let code = bit_and_mod 16 (s.vmcs vmcs_exit_reason) ∙ x.1 in
        (answered cpuid s, vt_exit_reason_cpuid cpuid s failed code, answered-IsAnswer s h),
    goes_on s,
  )
