-- ===== src/Kdebug/Loop.antt =====
-- The loop of stab_binsearch keeps its invariant, and the last loop finds the rightmost entry.
use mathlib.Core.Path.{subst}
use native.Mathlib.Decide.{ℕ_discrete}
use jos_vmx.Base.{
  ℕ, zero, suc, ◌+◌, ◌-◌, ◌*◌, ◌≤◌, ◌<◌, ◌≡◌, ◌≢◌, ◌⊎◌, refl, ap, false, some, ltb, arith,
  Bool-cases, inl, inr,
}
use jos_vmx.Kdebug.{Stab, Bisection, bisect, bisect_loop, rightmost}
use jos_vmx.Kdebug.Search.{OfType, bisect_loop_total}
use jos_vmx.Kdebug.Bracket.{IsSearchable, Inv, bisect-Inv}

module _ (stabs : ℕ → Stab) (type left hi addr : ℕ) where
  bisect_loop-Inv :
      (fuel : ℕ) (s t : Bisection)
      → IsSearchable stabs type left hi addr
      → Inv stabs type left hi addr s
      → bisect_loop stabs type fuel s ≡ some t
      → Inv stabs type left hi addr t × (t.hi ≤ t.l)
  unfolding bisect_loop
  bisect_loop-Inv zero s t table inv e = cc
  bisect_loop-Inv (suc fuel) s t table inv e = elim (Bool-cases (ltb s.l s.hi)) [
    | inl more ↦
        bisect_loop-Inv fuel (bisect stabs type s) t table
          (bisect-Inv stabs type left hi addr table inv (ground arith)) (rw more at e)
    | inr done ↦
        let same : some s ≡ some t = rw done at e in
        let at : s ≡ t = cc in
        subst (λ x. Inv stabs type left hi addr x × (x.hi ≤ x.l)) at (inv, ground arith)
  ]

  abbrev pub begin : Bisection
  begin = record { l = left; hi = hi; left = left; any_matches = false; addr = addr }

  begin-Inv : IsSearchable stabs type left hi addr → Inv stabs type left hi addr begin
  begin-Inv table = record {
    lower = omega arith;
    order = table.region;
    upper = omega arith;
    target = inl refl;
    below = λ i b c d. absurd (omega arith);
    above = λ i b c d. absurd (omega arith);
    edge = inl refl;
    unseen = λ e i b c. absurd (omega arith);
    start = λ e. (refl, refl);
    seen = λ e. cc;
    anchor = inl refl;
  }

  -- The loop ends, with the invariant and no entry left between `l` and `hi`.
  pub bisect_loop_lem :
      (fuel : ℕ)
      → 2 * (hi - left) + 1 < fuel
      → IsSearchable stabs type left hi addr
      → (t : Bisection) × (bisect_loop stabs type fuel begin ≡ some t)
        × Inv stabs type left hi addr t
        × (t.hi ≤ t.l)
  bisect_loop_lem fuel enough table =
      let (t, e) = bisect_loop_total stabs type fuel begin enough in
      let (inv, done) = bisect_loop-Inv fuel begin t table (begin-Inv table) e in (t, e, inv, done)

  pub rightmost_lem :
      (from k p : ℕ)
      → from ≤ p
      → p ≤ from + k
      → (p ≡ from) ⊎ OfType stabs type p
      → ((i : ℕ) → p < i → i ≤ from + k → (stabs i).n_type ≢ type)
      → rightmost stabs type from k ≡ p
  unfolding rightmost
  rightmost_lem from zero p a b c d = omega arith
  rightmost_lem from (suc k) p a b c d = elim (ℕ_discrete p (from + suc k)) [
    | yes last ↦ ground (arith, ap (λ i. (stabs i).n_type) last)
    | no before ↦ ground (
      arith,
      d (from + suc k),
      rightmost_lem from k p a (omega arith) c (λ i x y. d i x (omega arith)),
    )
  ]
