-- ===== src/Kdebug/Search.antt =====
-- stab_binsearch ends on every table.
use jos_vmx.Base.{
  ℕ, zero, suc, ◌+◌, ◌-◌, ◌*◌, ◌/◌, ◌≤◌, ◌<◌, ◌≡◌, ◌≢◌, false, not, ◌&&◌, none, some, ◌==◌, ltb,
  if◌then◌else◌, arith, Bool-cases, Option-cases, inl, inr,
}
use jos_vmx.Kdebug.{
  Stab, Bisection, Region, latest, probe, bisect_at, bisect, bisect_loop, settle, settled,
  stab_binsearch,
}

module _ (stabs : ℕ → Stab) (type : ℕ) where
  abbrev pub OfType : ℕ → Type 0
  OfType i = (stabs i).n_type ≡ type

  pub latest-none :
      (l k i : ℕ) → latest stabs type l k ≡ none → l ≤ i → i < l + k → (stabs i).n_type ≢ type
  unfolding latest
  latest-none l zero i e p q = absurd (omega arith)
  latest-none l (suc k) i e p q = ground (arith, latest-none l k i)

  -- What the scan tells of the entry that it stops at.
  pub record IsLatest (l k m : ℕ) : Type 0 where
    pub from_l : l ≤ m
    pub inside : m < l + k
    pub fits : OfType m
    pub gap : (i : ℕ) → m < i → i < l + k → (stabs i).n_type ≢ type

  pub latest-some : (l k m : ℕ) → latest stabs type l k ≡ some m → IsLatest l k m
  unfolding latest
  latest-some l zero m e = cc
  latest-some l (suc k) m e = elim (Bool-cases ((stabs (l + k)).n_type == type)) [
    | inl same ↦
        let here : some (l + k) ≡ some m = rw same at e in
        let at : l + k ≡ m = cc in
        record {
          from_l = omega arith;
          inside = omega arith;
          fits = ground arith;
          gap = λ i p q. absurd (omega arith);
        }
    | inr other ↦
        let ih = latest-some l k m (rw other at e) in
        record {
          from_l = omega (arith, ih.from_l);
          inside = omega (arith, ih.inside);
          fits = ih.fits;
          gap = λ i p q. ground (arith, ih.gap i);
        }
  ]

  -- Zero where the entry `l` has the type and cannot match again.
  passed : Bisection → ℕ
  passed s = if (stabs s.l).n_type == type && not ((stabs s.l).n_value == s.addr) then 0 else 1

  measure : Bisection → ℕ
  unfolding passed
  measure s = 2 * (s.hi - s.l) + passed s

  probe-lt :
      (s : Bisection) (m true_m : ℕ)
      → s.l ≤ m
      → m ≤ true_m
      → true_m < s.hi
      → OfType m
      → measure (probe stabs type m true_m s) < measure s
  unfolding probe measure
  probe-lt s m true_m p q r fits = ground arith

  abbrev pub middle : Bisection → ℕ
  middle s = (s.l + s.hi - 1) / 2

  pub bisect_miss :
      (s : Bisection)
      → latest stabs type s.l (middle s + 1 - s.l) ≡ none
      → bisect stabs type s ≡ record s { l = middle s + 1 }
  unfolding bisect bisect_at
  bisect_miss s e = ground arith

  pub bisect_hit :
      (s : Bisection) (m : ℕ)
      → latest stabs type s.l (middle s + 1 - s.l) ≡ some m
      → bisect stabs type s ≡ probe stabs type m (middle s) s
  unfolding bisect bisect_at
  bisect_hit s m e = ground arith

  bisect-lt : (s : Bisection) → s.l < s.hi → measure (bisect stabs type s) < measure s
  bisect-lt s h = elim (Option-cases (latest stabs type s.l (middle s + 1 - s.l))) [
    | inl e ↦ rw (bisect_miss s e) (unfold measure in ground arith)
    | inr (m, e) ↦
        let found = latest-some s.l (middle s + 1 - s.l) m e in
        rw (bisect_hit s m e) (
          probe-lt s m (middle s) found.from_l (omega (arith, found.inside)) (omega arith)
            found.fits)
  ]

  bisect_loop-measure :
      (fuel : ℕ) (s : Bisection)
      → measure s < fuel
      → (r : Bisection) × (bisect_loop stabs type fuel s ≡ some r)
  unfolding bisect_loop
  bisect_loop-measure zero s h = absurd (omega arith)
  bisect_loop-measure (suc fuel) s h = elim (Bool-cases (ltb s.l s.hi)) [
    | inl more ↦
        rw more (
          bisect_loop-measure fuel (bisect stabs type s)
            (omega (arith, bisect-lt s (ground arith))))
    | inr done ↦ (s, rw done)
  ]

  -- With fuel for its measure the loop ends, whether or not the table is in order.
  pub bisect_loop_total :
      (fuel : ℕ) (s : Bisection)
      → 2 * (s.hi - s.l) + 1 < fuel
      → (r : Bisection) × (bisect_loop stabs type fuel s ≡ some r)
  unfolding measure
  bisect_loop_total fuel s h = bisect_loop-measure fuel s (ground arith)

  -- On every table, in order or not, and for every address stab_binsearch returns: twice the length
  -- of the region and two more bisect_loop are enough.
  pub stab_binsearch_total :
      (fuel left hi addr : ℕ)
      → 2 * (hi - left) + 1 < fuel
      → (r : Region) × (stab_binsearch stabs type fuel left hi addr ≡ some r)
  unfolding stab_binsearch settled
  stab_binsearch_total fuel left hi addr enough =
      let (s, e) =
        bisect_loop_total fuel
          (record { l = left; hi = hi; left = left; any_matches = false; addr = addr }) enough in
      (settle stabs type s, rw e)
