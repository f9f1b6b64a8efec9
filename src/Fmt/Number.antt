-- ===== src/Fmt/Number.antt =====
-- printnum prints the digits of the number, which strtol reads back.
use native.Mathlib.Nat.{
  pow-zero, pow-suc, div-lt_iff_lt-mul, mod-lt, div-add-mod', add-mul-mod_self_right,
  le-div_iff_mul-le, mod-eq_of_lt,
}
use jos_vmx.Base.{
  ℕ, zero, suc, ◌+◌, ◌-◌, ◌*◌, ◌/◌, ◌%◌, ◌^◌, ◌<◌, ◌≤◌, ◌≡◌, ◌≢◌, refl, sym, ◌∙◌, ap, Option, none,
  some, Bool, true, false, List, [], ◌∷◌, ◌++◌, ◌==◌, ltb, leb, length, replicate, get_or, arith,
  Bool-cases, inl, inr, ==_iff,
}
use jos_vmx.Base.Table.{all_below, all_below_sound}
use jos_vmx.Fmt.{digit_chars, appended, printnum}
use jos_vmx.Str.Number.{digit_of, digits}

abbrev found : Option ℕ → ℕ → Bool
found none k = false
found (some d) k = d == k

found_some : (o : Option ℕ) (k : ℕ) → found o k ≡ true → o ≡ some k
found_some none k e = absurd (ground arith)
found_some (some d) k e = ap some ((==_iff d k).0 e)

-- The digit that `printnum` prints for `k` is the one that `strtol` reads as `k`.
digit_of-digit_chars : (k : ℕ) → k < 16 → digit_of (get_or digit_chars k 0) ≡ some k
unfolding all_below
digit_of-digit_chars k h =
    found_some (digit_of (get_or digit_chars k 0)) k
      (all_below_sound 16 (λ k. found (digit_of (get_or digit_chars k 0)) k) k refl h)

-- What `printnum` gives: the digits `ds`, padded on the left.
pub record IsNumeral (base num : ℕ) (ds : List ℕ) : Type 0 where
  pub some_digit : 1 ≤ length ds
  pub lead : 1 ≤ num → get_or ds 0 0 ≢ b'0'
  pub reads : (rest : List ℕ) → digits base (ds ++ rest) 0 ≡ digits base rest (num % 2 ^ 32)

append_assoc : (xs : List ℕ) (c : ℕ) (ys : List ℕ) → (xs ++ (c ∷ [])) ++ ys ≡ xs ++ (c ∷ ys)
append_assoc [] c ys = refl
append_assoc (x ∷ xs) c ys = ap (λ s. x ∷ s) (append_assoc xs c ys)

append_append : (xs ys zs : List ℕ) → (xs ++ ys) ++ zs ≡ xs ++ (ys ++ zs)
append_append [] ys zs = refl
append_append (x ∷ xs) ys zs = ap (λ s. x ∷ s) (append_append xs ys zs)

length_append_one : (xs : List ℕ) (c : ℕ) → length (xs ++ (c ∷ [])) ≡ length xs + 1
length_append_one [] c = refl
length_append_one (x ∷ xs) c = omega (arith, length_append_one xs c)

first_append : (xs : List ℕ) (c : ℕ) → 1 ≤ length xs → get_or (xs ++ (c ∷ [])) 0 0 ≡ get_or xs 0 0
first_append [] c h = absurd (omega arith)
first_append (x ∷ xs) c h = refl

module _ (base : ℕ) (two : 2 ≤ base) (sixteen : base ≤ 16) where
  -- Reading one more digit.
  digits_step :
      (num val : ℕ) (rest : List ℕ)
      → digits base (get_or digit_chars (num % base) 0 ∷ rest) val
        ≡ digits base rest ((val * base + num % base) % 2 ^ 32)
  unfolding digits
  digits_step num val rest =
      let small : num % base < base = mod-lt num (omega arith) in
      let off : leb base (num % base) ≡ false = ground arith in
      rw (digits, digit_of-digit_chars (num % base) (omega arith)) (rw off refl)

  recombine : (num : ℕ) → (num / base % 2 ^ 32 * base + num % base) % 2 ^ 32 ≡ num % 2 ^ 32
  recombine num =
      let q = num / base in
      let r = q % 2 ^ 32 * base + num % base in
      let split : num ≡ r + q / 2 ^ 32 * base * 2 ^ 32 =
        omega (arith, div-add-mod' num base, ap (λ n. n * base) (div-add-mod' q (2 ^ 32))) in
      sym (ap (λ n. n % 2 ^ 32) split ∙ add-mul-mod_self_right r (q / 2 ^ 32 * base) (2 ^ 32))

  -- A single digit.
  one_digit : (num : ℕ) → num < base → IsNumeral base num (get_or digit_chars (num % base) 0 ∷ [])
  one_digit num h = record {
    some_digit = omega arith;
    lead = λ p e.
        let same : num % base ≡ num = mod-eq_of_lt h in
        let read : some 0 ≡ some num =
          sym (ap digit_of e) ∙ rw same (digit_of-digit_chars num (omega arith)) in
        absurd (ground (arith, read, p));
    reads = λ rest.
        let same : num % base ≡ num = mod-eq_of_lt h in
        digits_step num 0 rest ∙ ap (digits base rest) (omega (arith, same));
  }

  half : (num : ℕ) → base ≤ num → 1 ≤ num / base
  half num h = (le-div_iff_mul-le (omega arith)).1 (omega arith)

  more_digits :
      (num : ℕ) (ds : List ℕ)
      → base ≤ num
      → IsNumeral base (num / base) ds
      → IsNumeral base num (ds ++ (get_or digit_chars (num % base) 0 ∷ []))
  more_digits num ds h d = record {
    some_digit = omega (arith, length_append_one ds (get_or digit_chars (num % base) 0));
    lead = λ p e.
        d.lead (half num h)
          (sym (first_append ds (get_or digit_chars (num % base) 0) d.some_digit) ∙ e);
    reads = λ rest.
        ap (λ s. digits base s 0) (append_assoc ds (get_or digit_chars (num % base) 0) rest)
        ∙ d.reads (get_or digit_chars (num % base) 0 ∷ rest)
        ∙ digits_step num (num / base % 2 ^ 32) rest
        ∙ ap (digits base rest) (recombine num);
  }

  appended_more :
      (more : Option (List ℕ)) (num width padc : ℕ) (ds : List ℕ)
      → more ≡ some (replicate (width - 1 - length ds) padc ++ ds)
      → appended more (get_or digit_chars (num % base) 0)
        ≡ some (
            replicate (width - length (ds ++ (get_or digit_chars (num % base) 0 ∷ []))) padc
            ++ (ds ++ (get_or digit_chars (num % base) 0 ∷ [])))
  appended_more more num width padc ds e =
      let c = get_or digit_chars (num % base) 0 in
      let len : width - 1 - length ds ≡ width - length (ds ++ (c ∷ [])) =
        omega (arith, length_append_one ds c) in
      rw e
        (ap some (append_append (replicate (width - 1 - length ds) padc) ds (c ∷ []) ∙ rw len refl))

  printnum_last :
      (fuel num width padc : ℕ)
      → ltb num base ≡ true
      → printnum (suc fuel) base num width padc
        ≡ some (replicate (width - 1) padc ++ (get_or digit_chars (num % base) 0 ∷ []))
  unfolding printnum
  printnum_last fuel num width padc last = rw last refl

  printnum_more :
      (fuel num width padc : ℕ)
      → ltb num base ≡ false
      → printnum (suc fuel) base num width padc
        ≡ appended
            (printnum fuel base (num / base) (width - 1) padc)
            (get_or digit_chars (num % base) 0)
  unfolding printnum
  printnum_more fuel num width padc more = rw more refl

  -- In a base from 2 to 16 and with fuel for as many digits as the number has, `printnum` prints a
  -- numeral of it: at least one digit, no leading 0 unless the number is 0, which `strtol`'s loop
  -- reads back as the number modulo 2^32; with padding on the left up to the width, and no more.
  pub printnum_lem :
      (fuel num width padc : ℕ)
      → num < base ^ suc fuel
      → (ds : List ℕ) × (printnum (suc fuel) base num width padc
          ≡ some (replicate (width - length ds) padc ++ ds))
        × IsNumeral base num ds
  printnum_lem zero num width padc h =
      let one : base ^ 1 ≡ base = pow-suc base 0 ∙ rw (pow-zero base) (omega arith) in
      let last : ltb num base ≡ true = ground (arith, one) in
      (
        get_or digit_chars (num % base) 0 ∷ [],
        printnum_last zero num width padc last,
        one_digit num (ground (arith, last)),
      )
  printnum_lem (suc fuel) num width padc h =
      let fewer =
        (div-lt_iff_lt-mul {x = num} {y = base ^ suc fuel} (omega (arith, two))).1
          (rw (← pow-suc base (suc fuel)) h) in
      let ih = printnum_lem fuel (num / base) (width - 1) padc fewer in
      elim (Bool-cases (ltb num base)) [
        | inl last ↦ (
          get_or digit_chars (num % base) 0 ∷ [],
          printnum_last (suc fuel) num width padc last,
          one_digit num (ground (arith, last)),
        )
        | inr more ↦ (
          ih.0 ++ (get_or digit_chars (num % base) 0 ∷ []),
          printnum_more (suc fuel) num width padc more
              ∙ appended_more (printnum (suc fuel) base (num / base) (width - 1) padc) num width
                  padc ih.0 ih.1,
          more_digits num ih.0 (ground (arith, more)) ih.2,
        )
      ]
