-- ===== src/Console/Port/Cursor.antt =====
-- The cursor that get_cursor_loc reads back from the display controller.
use jos_vmx.Base.{
  ℕ, ◌+◌, ◌*◌, ◌/◌, ◌%◌, ◌^◌, ◌<◌, ◌≡◌, ◌≢◌, refl, ◌∙◌, ap, arith, Bool-cases, inl, inr, ◌==◌,
}
use mathlib.Core.Path.{sym, subst}
use jos_vmx.Base.Bits.{bit_or_low}
use jos_vmx.Console.Cga.{
  crt_size, Crt, move_cursor, cga_putc, scroll, put_char, put_blank, coloured,
}
use jos_vmx.Console.Cga.Laws.{cga_putc-Keeps}
use jos_vmx.Console.Port.{emit, get_cursor_loc}

-- Every call of cga_putc ends by moving the cursor.
cga_putc-move_cursor : (c : ℕ) (s : Crt) → (t : Crt) × (cga_putc c s ≡ move_cursor t)
unfolding cga_putc
cga_putc-move_cursor c s = elim (Bool-cases (coloured c % 2 ^ 8 == 9)) [
  | inl tab ↦ (scroll (put_blank (put_blank (put_blank (put_blank (put_blank s))))), rw tab refl)
  | inr other ↦ (scroll (put_char (coloured c) s), rw other refl)
]

module _ {D : Type 0} (inb : ℕ → D → ℕ × D) (outb : ℕ → ℕ → D → D) where
  -- The controller at `addr`: a byte written there selects a register, and the next port reads and
  -- writes the register that is selected.
  pub record IsController (addr : ℕ) (selected : D → ℕ) (register : D → ℕ → ℕ) : Type 0 where
    pub select : (v : ℕ) (d : D) → v < 2 ^ 8 → selected (outb addr v d) ≡ v
    pub select_keeps : (v : ℕ) (d : D) (k : ℕ) → register (outb addr v d) k ≡ register d k
    pub write : (v : ℕ) (d : D) → v < 2 ^ 8 → register (outb (addr + 1) v d) (selected d) ≡ v
    pub write_keeps :
        (v : ℕ) (d : D) (k : ℕ) → k ≢ selected d → register (outb (addr + 1) v d) k ≡ register d k
    pub read : (d : D) → (inb (addr + 1) d).0 ≡ register d (selected d)
    pub read_keeps : (d : D) (k : ℕ) → register (inb (addr + 1) d).1 k ≡ register d k

  module _ (selected : D → ℕ) (register : D → ℕ → ℕ) where
    -- get_cursor_loc puts the two registers together.
    get_cursor_loc_lem :
        (addr : ℕ)
        → IsController addr selected register
        → (d : D) (high low : ℕ) → high < 2 ^ 8
        → low < 2 ^ 8
        → register d 14 ≡ high
        → register d 15 ≡ low
        → (get_cursor_loc inb outb addr d).0 ≡ high * 2 ^ 8 + low
    unfolding get_cursor_loc
    get_cursor_loc_lem addr is d high low h k e f =
        let d₁ = outb addr 14 d in
        let d₂ = (inb (addr + 1) d₁).1 in
        let d₃ = outb addr 15 d₂ in
        let first : (inb (addr + 1) d₁).0 ≡ high =
          is.read d₁
          ∙ ap (register d₁) (is.select 14 d (omega arith))
          ∙ is.select_keeps 14 d 14
          ∙ e in
        let second : (inb (addr + 1) d₃).0 ≡ low =
          is.read d₃
          ∙ ap (register d₃) (is.select 15 d₂ (omega arith))
          ∙ is.select_keeps 15 d₂ 15
          ∙ is.read_keeps d₁ 15
          ∙ is.select_keeps 14 d 15
          ∙ f in
        let top : high * 2 ^ 8 % 2 ^ 16 ≡ high * 2 ^ 8 = omega arith in
        rw (first, second, top) (bit_or_low 8 high low k)

    -- After the writes of move_cursor the registers hold the position.
    move_cursor-get_cursor_loc :
        (s : Crt)
        → s.crt_pos < 2 ^ 16
        → IsController s.addr_6845 selected register
        → (d : D)
        → (get_cursor_loc inb outb s.addr_6845 (emit outb (move_cursor s).out d)).0 ≡ s.crt_pos
    unfolding emit move_cursor
    move_cursor-get_cursor_loc s h is d =
        let a = s.addr_6845 in
        let high = s.crt_pos / 2 ^ 8 % 2 ^ 8 in
        let low = s.crt_pos % 2 ^ 8 in
        let d₁ = outb a 14 (emit outb s.out d) in
        let d₂ = outb (a + 1) high d₁ in
        let d₃ = outb a 15 d₂ in
        let at₁ : selected d₁ ≡ 14 = is.select 14 (emit outb s.out d) (omega arith) in
        let at₃ : selected d₃ ≡ 15 = is.select 15 d₂ (omega arith) in
        let apart : 14 ≢ selected d₃ = λ e. omega (arith, e, at₃) in
        let first : register (outb (a + 1) low d₃) 14 ≡ high =
          is.write_keeps low d₃ 14 apart
          ∙ is.select_keeps 15 d₂ 14
          ∙ ap (register d₂) (sym at₁)
          ∙ is.write high d₁ (omega arith) in
        let second : register (outb (a + 1) low d₃) 15 ≡ low =
          ap (register (outb (a + 1) low d₃)) (sym at₃) ∙ is.write low d₃ (omega arith) in
        let whole : high * 2 ^ 8 + low ≡ s.crt_pos = omega arith in
        get_cursor_loc_lem a is (outb (a + 1) low d₃) high low (omega arith) (omega arith) first
          second
        ∙ whole

    -- What the theorem below states of the display's state `s` and the devices `d`.
    abbrev ReadsBack : Crt → D → Type 0
    ReadsBack s d =
        s.crt_pos < 2 ^ 16
        → IsController s.addr_6845 selected register
        → (get_cursor_loc inb outb s.addr_6845 (emit outb s.out d)).0 ≡ s.crt_pos

    move_cursor-ReadsBack : (s : Crt) (d : D) → ReadsBack (move_cursor s) d
    unfolding move_cursor
    move_cursor-ReadsBack s d h is = move_cursor-get_cursor_loc s h is d

    -- On a display controller that holds what is written to its registers, get_cursor_loc reads,
    -- after the port writes of cga_putc, the position that cga_putc left in `crt_pos`, where the
    -- cursor was on the screen before the call.
    pub cga_putc-get_cursor_loc :
        (c : ℕ) (s : Crt)
        → s.crt_pos < crt_size
        → IsController (cga_putc c s).addr_6845 selected register
        → (d : D)
        → (get_cursor_loc inb outb (cga_putc c s).addr_6845 (emit outb (cga_putc c s).out d)).0
          ≡ (cga_putc c s).crt_pos
    cga_putc-get_cursor_loc c s h is d =
        let last = cga_putc-move_cursor c s in
        subst (λ t. ReadsBack t d) (sym last.1) (move_cursor-ReadsBack last.0 d)
          (omega (arith, (cga_putc-Keeps c s h).0)) is
