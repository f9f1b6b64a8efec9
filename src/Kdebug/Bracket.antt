-- ===== src/Kdebug/Bracket.antt =====
-- The invariant of the loop of stab_binsearch on a table that is sorted among the entries of the
-- type.
use jos_vmx.Base.{
  ℕ, ◌+◌, ◌-◌, ◌%◌, ◌^◌, ◌≤◌, ◌<◌, ◌≡◌, ◌≢◌, ◌⊎◌, true, false, ltb, arith, Bool-cases, Option-cases,
  inl, inr,
}
use jos_vmx.Kdebug.{Stab, Bisection, latest, probe, bisect}
use jos_vmx.Kdebug.Search.{
  OfType, IsLatest, latest-none, latest-some, middle, bisect_miss, bisect_hit,
}

module _ (stabs : ℕ → Stab) (type left hi addr : ℕ) where
  -- The entries of the type are in the order of their values, none has the value `addr + 1`, and
  -- `addr + 1` is an address.
  pub record IsSearchable : Type 0 where
    pub region : left ≤ hi
    pub no_wrap : addr + 1 < 2 ^ 32
    pub sorted :
        (i j : ℕ)
        → left ≤ i
        → i ≤ j
        → j < hi
        → OfType stabs type i
        → OfType stabs type j
        → (stabs i).n_value ≤ (stabs j).n_value
    pub no_next : (i : ℕ) → left ≤ i → i < hi → OfType stabs type i → (stabs i).n_value ≢ addr + 1

  pub record Inv (s : Bisection) : Type 0 where
    pub lower : left ≤ s.l
    pub order : s.l ≤ s.hi
    pub upper : s.hi ≤ hi
    pub target : (s.addr ≡ addr) ⊎ (s.addr ≡ addr + 1)
    pub below : (i : ℕ) → left ≤ i → i < s.l → OfType stabs type i → (stabs i).n_value ≤ addr
    pub above : (i : ℕ) → s.hi ≤ i → i < hi → OfType stabs type i → addr < (stabs i).n_value
    pub edge : (s.hi ≡ hi) ⊎ OfType stabs type s.hi
    pub unseen : s.any_matches ≡ false → (i : ℕ) → left ≤ i → i < s.l → (stabs i).n_type ≢ type
    pub start : s.any_matches ≡ false → (s.left ≡ left) × (s.hi ≡ hi)
    pub seen : s.any_matches ≡ true → (i : ℕ) × (left ≤ i) × (i < hi) × OfType stabs type i
    pub anchor :
        (s.left ≡ left)
        ⊎ (OfType stabs type s.left
            × (s.left ≤ s.l)
            × (s.left < s.hi)
            × (left ≤ s.left)
            × ((stabs s.left).n_value ≤ addr))

  module _ (table : IsSearchable) {s : Bisection} (inv : Inv s) where
    miss-Inv :
        (true_m : ℕ)
        → s.l ≤ true_m
        → true_m < s.hi
        → ((i : ℕ) → s.l ≤ i → i ≤ true_m → (stabs i).n_type ≢ type)
        → Inv (record s { l = true_m + 1 })
    miss-Inv true_m p q none_here = record {
      lower = omega (arith, inv.lower);
      order = omega arith;
      upper = inv.upper;
      target = inv.target;
      below = λ i b c d. ground (arith, inv.below i, none_here i);
      above = inv.above;
      edge = inv.edge;
      unseen = λ e i b c. ground (arith, inv.unseen e i, none_here i);
      start = inv.start;
      seen = inv.seen;
      anchor = ground (arith, inv.anchor);
    }

    module _ (true_m m : ℕ) (q : true_m < s.hi)
        (found : IsLatest stabs type s.l (true_m + 1 - s.l) m) where
      less-Inv :
          (stabs m).n_value < s.addr
          → Inv (record s { left = m; l = true_m + 1; any_matches = true })
      less-Inv v = record {
        lower = omega (arith, inv.lower, found.from_l, found.inside);
        order = omega arith;
        upper = inv.upper;
        target = inv.target;
        below = λ i b c d. ground (
          arith,
          inv.below i,
          found.gap i,
          table.sorted i m,
          found.fits,
          found.inside,
          inv.target,
          inv.upper,
        );
        above = inv.above;
        edge = inv.edge;
        unseen = λ e. cc;
        start = λ e. cc;
        seen = λ e. (
          m,
          omega (arith, inv.lower, found.from_l),
          omega (arith, found.inside, inv.upper),
          found.fits,
        );
        anchor = inr (
          found.fits,
          omega (arith, found.inside),
          omega (arith, found.inside),
          omega (arith, inv.lower, found.from_l),
          ground (arith, inv.target),
        );
      }

      greater-Inv : s.addr < (stabs m).n_value → Inv (record s { hi = m; any_matches = true })
      greater-Inv v = record {
        lower = inv.lower;
        order = found.from_l;
        upper = omega (arith, found.inside, inv.upper);
        target = inv.target;
        below = inv.below;
        above = λ i b c d.
            ground (
              arith,
              inv.above i,
              table.sorted m i,
              found.fits,
              found.from_l,
              inv.lower,
              inv.target,
            );
        edge = inr found.fits;
        unseen = λ e. cc;
        start = λ e. cc;
        seen = λ e. (
          m,
          omega (arith, inv.lower, found.from_l),
          omega (arith, found.inside, inv.upper),
          found.fits,
        );
        anchor = ground (arith, inv.anchor, inv.target, found.from_l);
      }

      equal-Inv :
          (stabs m).n_value ≡ s.addr
          → Inv (record s { left = m; l = m; addr = (s.addr + 1) % 2 ^ 32; any_matches = true })
      equal-Inv v = record {
        lower = omega (arith, inv.lower, found.from_l);
        order = omega (arith, found.inside);
        upper = inv.upper;
        target = ground (
          arith,
          inv.target,
          table.no_next m,
          found.inside,
          found.from_l,
          found.fits,
          inv.lower,
          inv.upper,
          table.no_wrap,
        );
        below = λ i b c d. ground (
          arith,
          inv.below i,
          table.sorted i m,
          found.fits,
          found.inside,
          inv.target,
          inv.upper,
          table.no_next m,
          inv.lower,
          found.from_l,
        );
        above = inv.above;
        edge = inv.edge;
        unseen = λ e. cc;
        start = λ e. cc;
        seen = λ e. (
          m,
          omega (arith, inv.lower, found.from_l),
          omega (arith, found.inside, inv.upper),
          found.fits,
        );
        anchor = inr (
          found.fits,
          omega arith,
          omega (arith, found.inside),
          omega (arith, inv.lower, found.from_l),
          ground (
            arith,
            inv.target,
            table.no_next m,
            found.inside,
            found.from_l,
            found.fits,
            inv.lower,
            inv.upper,
          ),
        );
      }

      probe-Inv : Inv (probe stabs type m true_m s)
      unfolding probe
      probe-Inv = elim (Bool-cases (ltb (stabs m).n_value s.addr)) [
        | inl small ↦ rw small (less-Inv (ground arith))
        | inr large ↦ elim (Bool-cases (ltb s.addr (stabs m).n_value)) [
          | inl larger ↦ rw (large, larger) (greater-Inv (ground arith))
          | inr equal ↦ rw (large, equal) (equal-Inv (ground arith))
        ]
      ]

    pub bisect-Inv : s.l < s.hi → Inv (bisect stabs type s)
    bisect-Inv more =
        let k = middle stabs type s + 1 - s.l in
        elim (Option-cases (latest stabs type s.l k)) [
          | inl e ↦ rw (bisect_miss stabs type s e) (
              miss-Inv (middle stabs type s) (omega arith) (omega arith)
                (λ i b c. latest-none stabs type s.l k i e b (omega arith)))
          | inr (m, e) ↦
              rw (bisect_hit stabs type s m e)
                (probe-Inv (middle stabs type s) m (omega arith) (latest-some stabs type s.l k m e))
        ]
