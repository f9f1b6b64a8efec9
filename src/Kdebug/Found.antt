-- ===== src/Kdebug/Found.antt =====
-- What stab_binsearch finds in a table that is sorted among the entries of the type.
use jos_vmx.Base.{
  ℕ, suc, ◌+◌, ◌-◌, ◌*◌, ◌≤◌, ◌<◌, ◌≡◌, ◌≢◌, ◌⊎◌, refl, ap, true, some, ◌==◌, leb, if◌then◌else◌,
  arith, Bool-cases, inl, inr,
}
use jos_vmx.Kdebug.{Stab, Bisection, settle, settled, stab_binsearch}
use jos_vmx.Kdebug.Search.{OfType}
use jos_vmx.Kdebug.Bracket.{IsSearchable, Inv}
use jos_vmx.Kdebug.Loop.{bisect_loop_lem, rightmost_lem}

module _ (stabs : ℕ → Stab) (type left hi addr : ℕ) where
  -- The entry `p` of the region is the last of the type whose value is at most `addr`.
  pub record IsLast (p : ℕ) : Type 0 where
    pub after : left ≤ p
    pub before : p < hi
    pub fits : OfType stabs type p
    pub reached : (stabs p).n_value ≤ addr
    pub beyond : (i : ℕ) → p < i → i < hi → OfType stabs type i → addr < (stabs i).n_value

  -- `e` is the next entry of the type after `p`, or the end of the region.
  pub record IsNext (p e : ℕ) : Type 0 where
    pub after : p < e
    pub inside : e ≤ hi
    pub gap : (i : ℕ) → p < i → i < e → (stabs i).n_type ≢ type
    pub edge : (e ≡ hi) ⊎ OfType stabs type e

  module _ {t : Bisection} {p : ℕ} (inv : Inv stabs type left hi addr t) where
    any_found : t.hi ≤ t.l → IsLast p → t.any_matches ≡ true
    any_found done last = elim (Bool-cases t.any_matches) [
      | inl seen ↦ seen
      | inr e ↦
          absurd (inv.unseen e p last.after (omega (arith, inv.start e, last.before)) last.fits)
    ]

    last_inside : IsLast p → p < t.hi
    last_inside last = ground (arith, inv.above p, last.before, last.fits, last.reached)

    gap_found : t.hi ≤ t.l → IsLast p → (i : ℕ) → p < i → i < t.hi → (stabs i).n_type ≢ type
    gap_found done last i b c fits = omega (
      arith,
      last.beyond i b (omega (arith, inv.upper)) fits,
      inv.below i (omega (arith, last.after)) (omega arith) fits,
    )

    left_found : IsLast p → t.left ≤ p
    left_found last = ground (arith, inv.anchor, last.beyond t.left, inv.upper, last.after)

  -- The first entry of the type in the region is `f`, and its value is above `addr`.
  pub record IsFirstAbove (f : ℕ) : Type 0 where
    pub after : left ≤ f
    pub before : f < hi
    pub fits : OfType stabs type f
    pub above : addr < (stabs f).n_value
    pub gap : (i : ℕ) → left ≤ i → i < f → (stabs i).n_type ≢ type

  module _ {t : Bisection} {f : ℕ} (inv : Inv stabs type left hi addr t) where
    any_above : t.hi ≤ t.l → IsFirstAbove f → t.any_matches ≡ true
    any_above done first = elim (Bool-cases t.any_matches) [
      | inl seen ↦ seen
      | inr e ↦
          absurd (inv.unseen e f first.after (omega (arith, inv.start e, first.before)) first.fits)
    ]

    left_above : IsSearchable stabs type left hi addr → IsFirstAbove f → t.left ≡ left
    left_above table first = ground (
      arith,
      inv.anchor,
      first.gap t.left,
      table.sorted f t.left,
      first.fits,
      first.after,
      first.above,
      inv.upper,
    )

    right_above : t.hi ≤ t.l → IsFirstAbove f → t.hi ≡ f
    right_above done first = ground (
      arith,
      inv.below f,
      inv.edge,
      first.gap t.hi,
      first.fits,
      first.after,
      first.above,
      first.before,
      inv.lower,
      inv.order,
    )

  module _ (fuel : ℕ) (enough : 2 * (hi - left) + 1 < fuel)
      (table : IsSearchable stabs type left hi addr) where
    settle_found :
        (t : Bisection) (p : ℕ)
        → Inv stabs type left hi addr t
        → t.hi ≤ t.l
        → IsLast p
        → IsNext p t.hi × (settle stabs type t ≡ record { left1 = suc p; right1 = t.hi })
    unfolding settle
    settle_found t p inv done last =
        let seen = any_found inv done last in
        let inside = last_inside inv last in
        let gap = λ (i : ℕ). gap_found inv done last i in
        let from = left_found inv last in
        (
          record { after = inside; inside = inv.upper; gap = gap; edge = inv.edge },
          elim (Bool-cases (leb t.hi (t.left + 1))) [
            | inl narrow ↦ rw (seen, narrow) (ground arith)
            | inr wide ↦ rw (
              seen,
              wide,
              rightmost_lem stabs type left hi addr t.left (t.hi - 1 - t.left) p from (omega arith)
                  (inr last.fits) (λ i b c. gap i b (ground arith)),
            )
          ],
        )

    pub stab_binsearch_found :
        (p : ℕ)
        → IsLast p
        → (e : ℕ) × IsNext p e
          × (stab_binsearch stabs type fuel left hi addr
              ≡ some (record { left1 = suc p; right1 = e }))
    unfolding stab_binsearch settled
    stab_binsearch_found p last =
        let (t, e, inv, done) = bisect_loop_lem stabs type left hi addr fuel enough table in
        let (next, at) = settle_found t p inv done last in (t.hi, next, rw e (ap some at))

    settle_above :
        (t : Bisection) (f : ℕ)
        → Inv stabs type left hi addr t
        → t.hi ≤ t.l
        → IsFirstAbove f
        → settle stabs type t ≡ record { left1 = if f == left then left else suc left; right1 = f }
    unfolding settle
    settle_above t f inv done first =
        let seen = any_above inv done first in
        let at = left_above inv table first in
        let end = right_above inv done first in
        elim (Bool-cases (leb t.hi (t.left + 1))) [
          | inl narrow ↦ rw (seen, narrow) (ground (arith, first.after))
          | inr wide ↦
              rw
                (
                  seen,
                  wide,
                  rightmost_lem stabs type left hi addr t.left (t.hi - 1 - t.left) t.left
                      (omega arith) (omega arith) (inl refl)
                      (λ i b c. first.gap i (omega arith) (ground arith)),
                )
                (ground arith)
        ]

    -- In a region whose entries of the type are in order, none of them with the value `addr + 1`,
    -- if the first entry of the type has a value above `addr`, no entry of the region contains
    -- `addr`, and stab_binsearch still returns with `*region_left` not above `*region_right`:
    -- `*region_right` is just before that entry, and `*region_left` is where it was, or just before
    -- that entry if that is lower.
    pub stab_binsearch_above :
        (f : ℕ)
        → IsFirstAbove f
        → stab_binsearch stabs type fuel left hi addr
          ≡ some (record { left1 = if f == left then left else suc left; right1 = f })
    unfolding stab_binsearch settled
    stab_binsearch_above f first =
        let (t, e, inv, done) = bisect_loop_lem stabs type left hi addr fuel enough table in
        rw e (ap some (settle_above t f inv done first))

    settle_absent :
        (t : Bisection)
        → Inv stabs type left hi addr t
        → ((i : ℕ) → left ≤ i → i < hi → (stabs i).n_type ≢ type)
        → settle stabs type t ≡ record { left1 = suc left; right1 = left }
    unfolding settle
    settle_absent t inv no_entry = elim (Bool-cases t.any_matches) [
      | inl seen ↦ (let (i, a, b, c) = inv.seen seen in absurd (no_entry i a b c))
      | inr fresh ↦ rw fresh (ground (arith, inv.start fresh))
    ]

    -- If the region has no entry of the type, stab_binsearch returns with `*region_left` unchanged
    -- and `*region_right` one below it.
    pub stab_binsearch_absent :
        ((i : ℕ) → left ≤ i → i < hi → (stabs i).n_type ≢ type)
        → stab_binsearch stabs type fuel left hi addr
          ≡ some (record { left1 = suc left; right1 = left })
    unfolding stab_binsearch settled
    stab_binsearch_absent no_entry =
        let (t, e, inv, done) = bisect_loop_lem stabs type left hi addr fuel enough table in
        rw e (ap some (settle_absent t inv no_entry))
