-- ===== src/Hvm/Vmcs/Write.antt =====
-- vt_init.c: a sequence of writes to the VMCS.
use jos_vmx.Base.{
  ℕ, ◌≡◌, refl, ◌∙◌, Option, none, some, Bool, true, false, ◌&&◌, and-true, List, [], ◌∷◌, ◌==◌,
  if◌then◌else◌, arith,
}
use native.Mathlib.Decide.{ℕ_discrete}
use jos_vmx.Hvm.{asm_vmwrite}
use jos_vmx.Hvm.Vmcs.{encoding}
use jos_vmx.Hvm.Vmcs.Field.{VmcsField}

-- The last write to a field is the one that counts.
unfoldable pub vmwrites : List (VmcsField × ℕ) → (ℕ → ℕ) → ℕ → ℕ
vmwrites [] vmcs = vmcs
vmwrites ((field, val) ∷ more) vmcs = vmwrites more (asm_vmwrite (encoding field) val vmcs)

abbrev pub find_field : List (VmcsField × ℕ) → ℕ → Option ℕ
find_field [] f = none
find_field ((field, val) ∷ more) f = if encoding field == f then some val else find_field more f

abbrev pub value_or : Option ℕ → ℕ → ℕ
value_or none d = d
value_or (some v) d = v

unfoldable pub is_none : Option ℕ → Bool
is_none none = true
is_none (some v) = false

none_lem : (x : Option ℕ) → is_none x ≡ true → x ≡ none
unfolding is_none
none_lem none e = refl
none_lem (some v) e = absurd (ground arith)

unfoldable pub once : List (VmcsField × ℕ) → Bool
once [] = true
once ((field, val) ∷ more) = is_none (find_field more (encoding field)) && once more

pub vmwrites_lem :
    (ws : List (VmcsField × ℕ)) (vmcs : ℕ → ℕ) (f : ℕ)
    → once ws ≡ true
    → vmwrites ws vmcs f ≡ value_or (find_field ws f) (vmcs f)
unfolding vmwrites once
vmwrites_lem [] vmcs f e = refl
vmwrites_lem ((field, val) ∷ more) vmcs f e =
    let split = and-true (is_none (find_field more (encoding field))) (once more) e in
    let ih = vmwrites_lem more (asm_vmwrite (encoding field) val vmcs) f split.1 in
    elim (ℕ_discrete (encoding field) f) [
      | yes k ↦
          let same : (encoding field == f) ≡ true = ground arith in
          let gone : find_field more f ≡ none =
            rw (← k) (none_lem (find_field more (encoding field)) split.0) in
          ih ∙ rw (gone, same) refl
      | no k ↦ let other : (encoding field == f) ≡ false = ground arith in ih ∙ rw other refl
    ]
