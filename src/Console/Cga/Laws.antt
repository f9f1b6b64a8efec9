-- ===== src/Console/Cga/Laws.antt =====
-- cga_putc stays on the screen of 25 rows of 80 cells.
use jos_vmx.Base.{
  ℕ, zero, suc, ◌+◌, ◌-◌, ◌%◌, ◌^◌, ◌<◌, ◌≤◌, ◌≡◌, refl, ◌∙◌, true, false, ◌==◌, ltb, leb, ◌&&◌,
  if◌then◌else◌, update, bit_or, arith, Bool-cases, inl, inr,
}
use jos_vmx.Base.{==_iff}
use jos_vmx.Base.Table.{all_below, all_below_sound}
use jos_vmx.Str.Move.{memcpy, copied, memmove_lem}
use jos_vmx.Console.Cga.{
  crt_cols, crt_size, Crt, blank, scroll, move_cursor, coloured, put_char, put_blank, cga_putc,
}

blank_lem :
    (n i : ℕ) (buf : ℕ → ℕ) (a : ℕ)
    → blank n i buf a ≡ (if leb i a && ltb a (i + n) then 0x0720 else buf a)
unfolding blank
blank_lem zero i buf a = ground arith
blank_lem (suc n) i buf a = ground (arith, blank_lem n (i + 1) (update buf i 0x0720) a)

-- A screen moved up by one row.
abbrev pub scrolled : (ℕ → ℕ) → ℕ → ℕ
scrolled buf a =
    if ltb a (crt_size - crt_cols)
    then buf (a + crt_cols)
    else if ltb a crt_size
    then 0x0720
    else buf a

scrolled-cells :
    (buf : ℕ → ℕ) (a : ℕ)
    → (if leb 1920 a && ltb a 2000 then 0x0720 else copied buf 0 80 1920 a) ≡ scrolled buf a
scrolled-cells buf a = elim (Bool-cases (ltb a 1920)) [
  | inl low ↦
      let e : leb 1920 a ≡ false = ground arith in
      let k : a - 0 + 80 ≡ a + 80 = omega arith in
      let z : leb 0 a ≡ true = ground arith in rw (e, low, k, z) refl
  | inr high ↦
      let e : leb 1920 a ≡ true = ground arith in
      let z : leb 0 a ≡ true = ground arith in rw (e, high, z) refl
]

blank-memcpy :
    (buf : ℕ → ℕ) (a : ℕ)
    → blank crt_cols (crt_size - crt_cols) (memcpy buf 0 crt_cols (crt_size - crt_cols)) a
      ≡ scrolled buf a
blank-memcpy buf a =
    let m = memmove_lem buf 0 80 1920 a in
    let up : memcpy buf 0 80 1920 a ≡ copied buf 0 80 1920 a = m.1 (inl (omega arith)) ∙ m.0 in
    blank_lem 80 1920 (memcpy buf 0 80 1920) a ∙ rw up (scrolled-cells buf a)

scroll-buf :
    (s : Crt) (a : ℕ)
    → (scroll s).crt_buf a ≡ (if leb crt_size s.crt_pos then scrolled s.crt_buf a else s.crt_buf a)
unfolding scroll
scroll-buf s a = elim (Bool-cases (leb crt_size s.crt_pos)) [
  | inl e ↦ rw e (blank-memcpy s.crt_buf a)
  | inr e ↦ rw e refl
]

scroll-pos :
    (s : Crt)
    → (scroll s).crt_pos ≡ (if leb crt_size s.crt_pos then s.crt_pos - crt_cols else s.crt_pos)
unfolding scroll
scroll-pos s = ground arith

-- What a call keeps: the cursor is on the screen, and no cell beyond the screen was written.
abbrev pub Keeps : Crt → Crt → Type 0
Keeps s s' = (s'.crt_pos < crt_size) × ((a : ℕ) → crt_size ≤ a → s'.crt_buf a ≡ s.crt_buf a)

put_char-pos :
    (c : ℕ) (s : Crt) → s.crt_pos < crt_size → (put_char c s).crt_pos < crt_size + crt_cols
unfolding put_char
put_char-pos c s h = ground arith

put_char-buf :
    (c : ℕ) (s : Crt) (a : ℕ)
    → s.crt_pos < crt_size
    → crt_size ≤ a
    → (put_char c s).crt_buf a ≡ s.crt_buf a
unfolding put_char
put_char-buf c s a h k = ground arith

settle-Keeps :
    (s s₁ : Crt)
    → s₁.crt_pos < crt_size + crt_cols
    → ((a : ℕ) → crt_size ≤ a → s₁.crt_buf a ≡ s.crt_buf a)
    → Keeps s (move_cursor (scroll s₁))
unfolding move_cursor
settle-Keeps s s₁ h same =
    (ground (arith, scroll-pos s₁), λ a k. ground (arith, scroll-buf s₁ a, same a k))

put_blank-Keeps : (s : Crt) → s.crt_pos < crt_size → Keeps s (put_blank s)
unfolding put_blank
put_blank-Keeps s h =
    settle-Keeps s (put_char (coloured b' ') s) (put_char-pos (coloured b' ') s h)
      (λ a k. put_char-buf (coloured b' ') s a h k)

Keeps-trans : (s t u : Crt) → Keeps s t → Keeps t u → Keeps s u
Keeps-trans s t u a b = (b.0, λ i k. b.1 i k ∙ a.1 i k)

-- From a cursor on the screen `cga_putc` of any `int` leaves the cursor on the screen and writes to
-- no cell beyond the screen.
pub cga_putc-Keeps : (c : ℕ) (s : Crt) → s.crt_pos < crt_size → Keeps s (cga_putc c s)
unfolding cga_putc
cga_putc-Keeps c s h = elim (Bool-cases (coloured c % 2 ^ 8 == 9)) [
  | inl tab ↦
      let k₁ = put_blank-Keeps s h in
      let k₂ =
        Keeps-trans s (put_blank s) (put_blank (put_blank s)) k₁
          (put_blank-Keeps (put_blank s) k₁.0) in
      let s₂ = put_blank (put_blank s) in
      let k₃ = Keeps-trans s s₂ (put_blank s₂) k₂ (put_blank-Keeps s₂ k₂.0) in
      let s₃ = put_blank s₂ in
      let k₄ = Keeps-trans s s₃ (put_blank s₃) k₃ (put_blank-Keeps s₃ k₃.0) in
      let s₄ = put_blank s₃ in
      let k₅ = Keeps-trans s s₄ (put_blank s₄) k₄ (put_blank-Keeps s₄ k₄.0) in
      rw tab (settle-Keeps s (put_blank s₄) (omega (arith, k₅.0)) k₅.1)
  | inr other ↦ rw other (
      settle-Keeps s (put_char (coloured c) s) (put_char-pos (coloured c) s h)
        (λ a k. put_char-buf (coloured c) s a h k))
]

coloured_lem : (c : ℕ) → c < 256 → coloured c ≡ 0x0700 + c
unfolding all_below
coloured_lem c h =
    let or : bit_or c 0x0700 ≡ 0x0700 + c =
      (==_iff (bit_or c 0x0700) (0x0700 + c)).0
        (all_below_sound 256 (λ c. bit_or c 0x0700 == 0x0700 + c) c refl h) in
    let small : ltb c (2 ^ 8) ≡ true = ground arith in rw (small, or) refl

put_char_plain :
    (c : ℕ) (s : Crt)
    → b' ' ≤ c
    → c < 2 ^ 8
    → s.crt_pos < crt_size
    → put_char (0x0700 + c) s
      ≡ record s { crt_buf = update s.crt_buf s.crt_pos (0x0700 + c); crt_pos = s.crt_pos + 1 }
unfolding put_char
put_char_plain c s lo hi h =
    let low : (0x0700 + c) % 2 ^ 8 ≡ c = omega arith in
    let cell : (0x0700 + c) % 2 ^ 16 ≡ 0x0700 + c = omega arith in
    let pos : (s.crt_pos + 1) % 2 ^ 16 ≡ s.crt_pos + 1 = omega arith in
    let b : (c == 8) ≡ false = ground arith in
    let n : (c == b'\n') ≡ false = ground arith in
    let r : (c == b'\r') ≡ false = ground arith in rw (low, cell, pos, b, n, r) refl

-- A character that is no control character, printed at the cursor, stands there, and the cursor
-- moves on by one cell; in the last cell the screen then moves up by one row, the new row is
-- blank, and the cursor stands at its start.
pub cga_putc_plain :
    (c : ℕ) (s : Crt)
    → b' ' ≤ c
    → c < 2 ^ 8
    → s.crt_pos < crt_size
    → let s' = cga_putc c s in
      let buf = update s.crt_buf s.crt_pos (0x0700 + c) in
      (s'.crt_pos ≡ (if s.crt_pos == 1999 then 1920 else s.crt_pos + 1))
      × ((a : ℕ) → s'.crt_buf a ≡ (if s.crt_pos == 1999 then scrolled buf a else buf a))
unfolding cga_putc move_cursor
cga_putc_plain c s lo hi h =
    let s₁ : Crt = record s {
      crt_buf = update s.crt_buf s.crt_pos (0x0700 + c);
      crt_pos = s.crt_pos + 1;
    } in
    let tab : ((0x0700 + c) % 2 ^ 8 == 9) ≡ false = ground arith in
    let last : leb crt_size (s.crt_pos + 1) ≡ (s.crt_pos == 1999) = ground arith in
    rw (coloured_lem c hi, tab, put_char_plain c s lo hi h)
      (ground (arith, scroll-pos s₁), λ a. scroll-buf s₁ a ∙ rw last refl)
