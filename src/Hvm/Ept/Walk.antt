-- ===== src/Hvm/Ept/Walk.antt =====
-- hvm/vt_ept.c: the indices of the walk, and the calls of ept_create_table.
use jos_vmx.Base.{
  ℕ, zero, suc, ◌+◌, ◌-◌, ◌*◌, ◌/◌, ◌%◌, ◌^◌, ◌<◌, ◌≡◌, ◌≢◌, ◌↔◌, refl, ◌∙◌, some, false, true,
  ◌==◌, leb, if◌then◌else◌, get_elem?, length, List, [], ◌∷◌, bit_and, arith, ap,
}
use mathlib.Core.Path.{sym, subst}
use jos_vmx.Base.Bits.{bit_and_mod}
use jos_vmx.Pmap.{Pmap}
use jos_vmx.Hvm.Ept.{
  fields_of_epte, offset, at_leaf, unaligned, no_table, bad_address, entry_at,
  ept_update_identity_table, visited, ept_eachtable_entries,
}

offset-digit :
    (gfn : ℕ)
    → (offset 3 gfn ≡ gfn % 2 ^ 36 / 2 ^ 27)
      × (offset 2 gfn ≡ gfn % 2 ^ 27 / 2 ^ 18)
      × (offset 1 gfn ≡ gfn % 2 ^ 18 / 2 ^ 9)
      × (offset 0 gfn ≡ gfn % 2 ^ 9)
unfolding offset
offset-digit gfn =
    omega (arith, bit_and_mod 36 gfn, bit_and_mod 27 gfn, bit_and_mod 18 gfn, bit_and_mod 9 gfn)

-- For a frame number of 32 bits the indices at the four levels are its digits to the base 512: each
-- lies within a table, and together they give the number back.
pub offset_lem :
    (gfn : ℕ)
    → gfn < 2 ^ 32
    → (offset 3 gfn < ept_eachtable_entries)
      × (offset 2 gfn < ept_eachtable_entries)
      × (offset 1 gfn < ept_eachtable_entries)
      × (offset 0 gfn < ept_eachtable_entries)
      × (offset 3 gfn * 512 ^ 3 + offset 2 gfn * 512 ^ 2 + offset 1 gfn * 512 + offset 0 gfn ≡ gfn)
offset_lem gfn h = let (d₃, d₂, d₁, d₀) = offset-digit gfn in rw (d₃, d₂, d₁, d₀) (omega arith)

-- The index of a frame number in a table of a level is a digit to the base 512.
offset-mod :
    (gfn : ℕ)
    → (offset 3 gfn ≡ gfn / 2 ^ 27 % 512)
      × (offset 2 gfn ≡ gfn / 2 ^ 18 % 512)
      × (offset 1 gfn ≡ gfn / 2 ^ 9 % 512)
offset-mod gfn = let (d₃, d₂, d₁, _) = offset-digit gfn in omega (arith, d₃, d₂, d₁)

module _ (m : Pmap) where
  -- The 64-bit entry `o` of the table `pt` is not 0 and names the frame `sub` in the bits from 12
  -- to 31, and the machine has that frame.
  pub record Leads (pt o sub : ℕ) : Type 0 where
    pub filled : m.phys pt (2 * o) + m.phys pt (2 * o + 1) * 2 ^ 32 ≢ 0
    pub names : (m.phys pt (2 * o) + m.phys pt (2 * o + 1) * 2 ^ 32) / 2 ^ 12 % 2 ^ 20 ≡ sub
    pub inside : sub < m.npages

  -- The frame number is the first of a last table, and the entries at its digits to the base 512
  -- lead from the table `pt` through two others to the table `last`.
  pub record LeadsTo (gfn pt last : ℕ) : Type 0 where
    pub first_of_table : gfn % 512 ≡ 0
    pub second : ℕ
    pub third : ℕ
    pub at_3 : Leads pt (gfn / 2 ^ 27 % 512) second
    pub at_2 : Leads second (gfn / 2 ^ 18 % 512) third
    pub at_1 : Leads third (gfn / 2 ^ 9 % 512) last

  module _ (gfn : ℕ) where
    -- The frame that the code takes from an entry.
    next_frame : (e : ℕ) → (fields_of_epte e).mfn * 2 ^ 12 % 2 ^ 32 / 2 ^ 12 ≡ e / 2 ^ 12 % 2 ^ 20
    unfolding fields_of_epte
    next_frame e = omega arith

    level_step :
        (level pt sub o : ℕ)
        → gfn % 512 ≡ 0
        → offset (suc level) gfn ≡ o
        → Leads pt o sub
        → ept_update_identity_table m (suc level) pt gfn ≡ ept_update_identity_table m level sub gfn
    unfolding ept_update_identity_table
    level_step level pt sub o first digit leads =
        let aligned : (bit_and gfn (ept_eachtable_entries - 1) == 0) ≡ true =
          ground (arith, bit_and_mod 9 gfn) in
        let filled : (entry_at m pt o == 0) ≡ false = ground (arith, leads.filled) in
        let low = next_frame (entry_at m pt o) ∙ leads.names in
        let there : leb m.npages sub ≡ false = ground (arith, leads.inside) in
        rw (aligned, digit, filled, low, there) refl

    last_step :
        (pt last : ℕ)
        → (ept_update_identity_table m 0 pt gfn ≡ at_leaf last) ↔ ((gfn % 512 ≡ 0) × (pt ≡ last))
    unfolding ept_update_identity_table
    last_step pt last = (
      λ e. ground (arith, bit_and_mod 9 gfn, e),
      λ p. ground (arith, bit_and_mod 9 gfn, p.0, p.1),
    )

    level_back :
        (level pt last o : ℕ)
        → offset (suc level) gfn ≡ o
        → ept_update_identity_table m (suc level) pt gfn ≡ at_leaf last
        → (sub : ℕ) × Leads pt o sub × (ept_update_identity_table m level sub gfn ≡ at_leaf last)
    unfolding ept_update_identity_table
    level_back level pt last o digit e =
        let n = entry_at m pt o in
        let sub = (fields_of_epte n).mfn * 2 ^ 12 % 2 ^ 32 / 2 ^ 12 in
        let walked : (if bit_and gfn (ept_eachtable_entries - 1) == 0
              then if n == 0
                then no_table (suc level) pt
                else if leb m.npages sub
                then bad_address
                else ept_update_identity_table m level sub gfn
              else unaligned)
            ≡ at_leaf last =
          rw (sym digit) e in
        (
          sub,
          record {
            filled = λ z. ground (arith, walked, z);
            names = sym (next_frame n);
            inside = ground (arith, walked);
          },
          ground (arith, walked),
        )

    -- From a table of level 3 the walk of ept_update_identity_table reaches the code for a last
    -- table exactly when the frame number is a multiple of 512 and the entries at its digits to the
    -- base 512, from the fourth down to the second, each are not 0 and name, in 32 bits, the next
    -- table, a frame of the machine; and the table that it reaches is the one they lead to.
    pub ept_update_identity_table_lem :
        (pt last : ℕ) → (ept_update_identity_table m 3 pt gfn ≡ at_leaf last) ↔ LeadsTo gfn pt last
    ept_update_identity_table_lem pt last =
        let (d₃, d₂, d₁) = offset-mod gfn in
        (
          λ e₃.
              let (t₂, l₃, e₂) = level_back 2 pt last (gfn / 2 ^ 27 % 512) d₃ e₃ in
              let (t₁, l₂, e₁) = level_back 1 t₂ last (gfn / 2 ^ 18 % 512) d₂ e₂ in
              let (t₀, l₁, e₀) = level_back 0 t₁ last (gfn / 2 ^ 9 % 512) d₁ e₁ in
              let (first, same) = (last_step t₀ last).0 e₀ in
              record {
                first_of_table = first;
                second = t₂;
                third = t₁;
                at_3 = l₃;
                at_2 = l₂;
                at_1 = subst (Leads t₁ (gfn / 2 ^ 9 % 512)) same l₁;
              },
          λ to.
              level_step 2 pt to.second (gfn / 2 ^ 27 % 512) to.first_of_table d₃ to.at_3
              ∙ level_step 1 to.second to.third (gfn / 2 ^ 18 % 512) to.first_of_table d₂ to.at_2
              ∙ level_step 0 to.third last (gfn / 2 ^ 9 % 512) to.first_of_table d₁ to.at_1
              ∙ (last_step last last).1 (to.first_of_table, refl),
        )

nth_call :
    (xs : List ℕ) (k n i : ℕ)
    → ((j : ℕ) → j < n → get_elem? xs j ≡ some ((suc k + j) * 512))
    → i < suc n
    → get_elem? (k * 512 ∷ xs) i ≡ some ((k + i) * 512)
nth_call xs k n zero rest h = ap some (omega arith)
nth_call xs k n (suc j) rest h = rest j (omega (arith, h)) ∙ ap some (omega arith)

visited-next :
    (fuel k : ℕ) → k < 2048 → visited (suc fuel) (k * 512) ≡ k * 512 ∷ visited fuel (suc k * 512)
unfolding visited
visited-next fuel k h =
    let next : (k * 512 + ept_eachtable_entries) % 2 ^ 32 ≡ suc k * 512 = omega arith in
    ground (arith, ap (visited fuel) next)

visited_end : (fuel : ℕ) → visited (suc fuel) (2048 * 512) ≡ []
unfolding visited
visited_end fuel = refl

visited_from :
    (fuel n k : ℕ)
    → k + n ≡ 2048
    → n < fuel
    → (length (visited fuel (k * 512)) ≡ n)
      × ((i : ℕ) → i < n → get_elem? (visited fuel (k * 512)) i ≡ some ((k + i) * 512))
visited_from zero n k e h = absurd (omega (arith, h))
visited_from (suc fuel) zero k e h =
    let last : k ≡ 2048 = omega arith in
    rw (last, visited_end fuel) (refl, λ i h. absurd (omega (arith, h)))
visited_from (suc fuel) (suc n) k e h =
    let (len, rest) = visited_from fuel n (suc k) (omega arith) (omega arith) in
    rw (visited-next fuel k (omega arith))
      (omega (arith, len), λ i h. nth_call (visited fuel (suc k * 512)) k n i rest h)

-- ept_create_table calls the walk 2048 times, which a fuel of 2049 is enough for, each time for the
-- first frame number of a table; the block of 512 frame numbers of call `g / 512` holds `g`, for
-- every frame number `g` below 4 GB.
pub visited_lem :
    (fuel : ℕ)
    → 2048 < fuel
    → (length (visited fuel 0) ≡ 2048)
      × ((g : ℕ) → g < 2 ^ 20 → get_elem? (visited fuel 0) (g / 512) ≡ some (g - g % 512))
visited_lem fuel h =
    let (len, each) = visited_from fuel 2048 0 (omega arith) h in
    (len, λ g k. each (g / 512) (omega arith) ∙ ap some (omega arith))
