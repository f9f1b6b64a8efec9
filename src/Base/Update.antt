-- ===== src/Base/Update.antt =====
-- Memory as a function of an address, changed at one address.
use Prim.Native.Nat.{ℕ}
use mathlib.Core.Path.{◌≡◌}
use mathlib.Core.Logic.{◌≢◌}
use native.Mathlib.Omega.{arith}
use jos_vmx.Base.Tests.{◌==◌, if◌then◌else◌}

abbrev pub update {ℓ} : {A : Type ℓ} → (ℕ → A) → ℕ → A → ℕ → A
update f p v q = if p == q then v else f q

module _ {ℓ} {A : Type ℓ} (f : ℕ → A) (p : ℕ) (v : A) where
  pub update_self : update f p v p ≡ v
  update_self = ground arith

  pub update_ne : (q : ℕ) → p ≢ q → update f p v q ≡ f q
  update_ne q h = ground arith
