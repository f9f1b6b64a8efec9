-- ===== src/Hvm/Exit/Loop.antt =====
-- The loop of vt_main against the exits of the guest.
use jos_vmx.Base.{
  ℕ, zero, suc, ◌≡◌, ◌⊎◌, inl, inr, refl, ◌∙◌, Option, none, some, true, false, ◌==◌, bit_and,
  arith,
}
use mathlib.Core.Path.{sym, subst}
use native.Mathlib.Decide.{ℕ_discrete}
use mathlib.Core.Option.{some-injective}
use jos_vmx.Hvm.{Vt, vmcs_exit_reason}
use jos_vmx.Hvm.Exit.{Cpuid, vt_exit_reason, vt_loop, answered, vt_exit_reason_cpuid}

-- The guest was entered, and left for the reason `code`.
abbrev pub Left : ℕ → Vt → Type 0
Left code s =
    (bit_and (s.vmcs vmcs_exit_reason) 0x80000000 ≡ 0)
    × (bit_and (s.vmcs vmcs_exit_reason) 0xFFFF ≡ code)

module _ (cpuid : ℕ → Cpuid) (run : Vt → Option Vt) where
  -- From `s` on the guest leaves `n` times for the instruction `cpuid`, each time goes on from the
  -- answer, and then leaves for the INIT signal in `s'`.
  pub data Stops : ℕ → Vt → Vt → Type 0 where
    init_signal : (s : Vt) → Left 0x3 s → Stops zero s s
    cpuid_exit :
        (n : ℕ) (s s₁ s' : Vt)
        → Left 0xA s
        → run (answered cpuid s) ≡ some s₁
        → Stops n s₁ s'
        → Stops (suc n) s s'

  -- How vt_exit_reason ends.
  exit_cases :
      (s : Vt)
      → (Left 0xA s × (vt_exit_reason cpuid s ≡ some (true, answered cpuid s)))
        ⊎ ((Left 0x3 s × (vt_exit_reason cpuid s ≡ some (false, s)))
            ⊎ (vt_exit_reason cpuid s ≡ none))
  unfolding vt_exit_reason
  exit_cases s = elim (ℕ_discrete (bit_and (s.vmcs vmcs_exit_reason) 0x80000000) 0) [
    | no failed ↦
        let test : (bit_and (s.vmcs vmcs_exit_reason) 0x80000000 == 0) ≡ false = ground arith in
        inr (inr (rw test refl))
    | yes entered ↦ elim (ℕ_discrete (bit_and (s.vmcs vmcs_exit_reason) 0xFFFF) 0xA) [
      | yes e ↦ inl ((entered, e), vt_exit_reason_cpuid cpuid s entered e)
      | no other ↦
          let here : (bit_and (s.vmcs vmcs_exit_reason) 0xFFFF == 0xA) ≡ false = ground arith in
          elim (ℕ_discrete (bit_and (s.vmcs vmcs_exit_reason) 0xFFFF) 0x3) [
            | yes e ↦ inr (inl ((entered, e), rw (entered, e) refl))
            | no unknown ↦
                let stop : (bit_and (s.vmcs vmcs_exit_reason) 0xFFFF == 0x3) ≡ false =
                  ground arith in
                inr (inr (rw (entered, here, stop) refl))
          ]
    ]
  ]

  init_exit : (s : Vt) → Left 0x3 s → vt_exit_reason cpuid s ≡ some (false, s)
  unfolding vt_exit_reason
  init_exit s left = rw (left.0, left.1) refl

  loop_stops :
      (fuel : ℕ) (s : Vt)
      → vt_exit_reason cpuid s ≡ some (false, s)
      → vt_loop cpuid (suc fuel) run s ≡ some s
  unfolding vt_loop
  loop_stops fuel s e = rw (e, vt_loop) refl

  loop_goes :
      (fuel : ℕ) (s s₁ : Vt)
      → vt_exit_reason cpuid s ≡ some (true, s₁)
      → vt_loop cpuid (suc fuel) run s
        ≡ elim (run s₁) [ none ↦ none | some s₂ ↦ vt_loop cpuid fuel run s₂ ]
  unfolding vt_loop
  loop_goes fuel s s₁ e = rw (e, vt_loop) refl

  loop_panics :
      (fuel : ℕ) (s : Vt) → vt_exit_reason cpuid s ≡ none → vt_loop cpuid (suc fuel) run s ≡ none
  unfolding vt_loop
  loop_panics fuel s e = rw (e, vt_loop) refl

  Stops-vt_loop : (n : ℕ) (s s' : Vt) → Stops n s s' → vt_loop cpuid (suc n) run s ≡ some s'
  Stops-vt_loop _ _ _ (init_signal s left) = loop_stops zero s (init_exit s left)
  Stops-vt_loop _ _ _ (cpuid_exit n s s₁ s' left goes rest) =
      loop_goes (suc n) s (answered cpuid s) (vt_exit_reason_cpuid cpuid s left.0 left.1)
      ∙ rw goes (Stops-vt_loop n s₁ s' rest)

  resumed :
      (fuel : ℕ) (s s' : Vt) (r : Option Vt)
      → Left 0xA s
      → run (answered cpuid s) ≡ r
      → ((t : Vt) → vt_loop cpuid fuel run t ≡ some s' → (n : ℕ) × Stops n t s')
      → (elim r [ none ↦ none | some s₂ ↦ vt_loop cpuid fuel run s₂ ]) ≡ some s'
      → (n : ℕ) × Stops n s s'
  resumed fuel s s' none left goes ih e = absurd (ground (arith, e))
  resumed fuel s s' (some t) left goes ih e =
      let (n, stops) = ih t e in (suc n, cpuid_exit n s t s' left goes stops)

  vt_loop-Stops :
      (fuel : ℕ) (s s' : Vt) → vt_loop cpuid fuel run s ≡ some s' → (n : ℕ) × Stops n s s'
  vt_loop-Stops zero s s' e = absurd (unfold vt_loop in ground (arith, e))
  vt_loop-Stops (suc fuel) s s' e = elim (exit_cases s) [
    | inl (left, goes) ↦
        resumed fuel s s' (run (answered cpuid s)) left refl (λ t. vt_loop-Stops fuel t s')
          (sym (loop_goes fuel s (answered cpuid s) goes) ∙ e)
    | inr (inl (left, stops)) ↦
        let same = some-injective _ _ (sym (loop_stops fuel s stops) ∙ e) in
        (zero, subst (λ t. Stops zero s t) same (init_signal s left))
    | inr (inr panics) ↦ absurd (ground (arith, sym (loop_panics fuel s panics) ∙ e))
  ]

  -- The loop of vt_main returns, with a fuel that is one more than the number of the exits for
  -- `cpuid`, whenever the guest leaves for the INIT signal after finitely many of them; and when it
  -- returns, with whatever fuel, the guest has done so, and it is left in the state of that exit.
  pub vt_loop_lem :
      (s s' : Vt)
      → ((n : ℕ) → Stops n s s' → vt_loop cpuid (suc n) run s ≡ some s')
        × ((fuel : ℕ) → vt_loop cpuid fuel run s ≡ some s' → (n : ℕ) × Stops n s s')
  vt_loop_lem s s' = (λ n. Stops-vt_loop n s s', λ fuel. vt_loop-Stops fuel s s')
