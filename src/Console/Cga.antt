-- ===== src/Console/Cga.antt =====
-- The text-mode display of kern/console.c: cga_init and cga_putc. `outb` is logged;
-- the buffer is an array of 16-bit cells.
pub mod Laws
use jos_vmx.Base.{
  ℕ, zero, suc, ◌+◌, ◌-◌, ◌*◌, ◌/◌, ◌%◌, ◌^◌, ◌<◌, ◌≤◌, ◌≡◌, ◌≢◌, refl, Bool, true, false, List, [],
  ◌∷◌, ◌==◌, ltb, leb, ◌&&◌, if◌then◌else◌, update, bit_or, arith, Bool-cases, inl, inr,
}
use jos_vmx.Str.Move.{memcpy, memmove, copied, memmove_lem}

abbrev pub crt_cols : ℕ
crt_cols = 80

abbrev pub crt_size : ℕ
crt_size = 2000

pub record Crt : Type 0 where
  pub crt_buf : ℕ → ℕ
  pub crt_pos : ℕ
  pub addr_6845 : ℕ
  pub out : List (ℕ × ℕ)

abbrev pub outb : ℕ → ℕ → Crt → Crt
outb port v s = record s { out = (port, v % 2 ^ 8) ∷ s.out }

-- `crt_buf[i] = 0x0700 | ' '` for `n` cells from `i` on
unfoldable pub blank : ℕ → ℕ → (ℕ → ℕ) → ℕ → ℕ
blank zero i buf = buf
blank (suc n) i buf = blank n (i + 1) (update buf i 0x0720)

-- The block at the end of `cga_putc` that scrolls.
unfoldable pub scroll : Crt → Crt
unfolding blank
scroll s =
    if leb crt_size s.crt_pos
    then record s {
      crt_buf =
          blank crt_cols (crt_size - crt_cols) (memcpy s.crt_buf 0 crt_cols (crt_size - crt_cols));
      crt_pos = s.crt_pos - crt_cols;
    }
    else s

-- The cursor goes to the controller.
unfoldable pub move_cursor : Crt → Crt
move_cursor s =
    outb (s.addr_6845 + 1) s.crt_pos
      (outb s.addr_6845 15 (outb (s.addr_6845 + 1) (s.crt_pos / 2 ^ 8) (outb s.addr_6845 14 s)))

-- `if (!(c & ~0xFF)) c |= 0x0700`, where `c` is the 32-bit pattern
abbrev pub coloured : ℕ → ℕ
coloured c = if ltb c (2 ^ 8) then bit_or c 0x0700 else c

-- `crt_pos -= crt_pos % CRT_COLS`
abbrev pub line_start : ℕ → ℕ
line_start pos = pos - pos % crt_cols

-- The switch without its case '\t'.
unfoldable pub put_char : ℕ → Crt → Crt
put_char c s =
    let low = c % 2 ^ 8 in
    if low == 8
    then if ltb 0 s.crt_pos
      then record s {
        crt_buf = update s.crt_buf (s.crt_pos - 1) (bit_or (c - c % 2 ^ 8) b' ' % 2 ^ 16);
        crt_pos = s.crt_pos - 1;
      }
      else s
    else if low == b'\n'
    then record s { crt_pos = line_start ((s.crt_pos + crt_cols) % 2 ^ 16) }
    else if low == b'\r'
    then record s { crt_pos = line_start s.crt_pos }
    else record s {
      crt_buf = update s.crt_buf s.crt_pos (c % 2 ^ 16);
      crt_pos = (s.crt_pos + 1) % 2 ^ 16;
    }

-- `cga_putc` of a blank, as the case '\t' calls it through `cons_putc`
unfoldable pub put_blank : Crt → Crt
put_blank s = move_cursor (scroll (put_char (coloured b' ') s))

unfoldable pub cga_putc : ℕ → Crt → Crt
cga_putc c s =
    if coloured c % 2 ^ 8 == 9
    then move_cursor (scroll (put_blank (put_blank (put_blank (put_blank (put_blank s))))))
    else move_cursor (scroll (put_char (coloured c) s))

-- Whether the memory of the colour display answers to 0xA55A decides the controller; the cursor's
-- two bytes come from it.
unfoldable pub cga_init : Bool → (high low : ℕ) → (cga mono : ℕ → ℕ) → Crt
cga_init answers high low cga mono =
    if answers
    then record {
      crt_buf = cga;
      crt_pos = bit_or (high % 2 ^ 8 * 2 ^ 8) (low % 2 ^ 8);
      addr_6845 = 0x3D4;
      out = (0x3D4, 15) ∷ (0x3D4, 14) ∷ [];
    }
    else record {
      crt_buf = mono;
      crt_pos = bit_or (high % 2 ^ 8 * 2 ^ 8) (low % 2 ^ 8);
      addr_6845 = 0x3B4;
      out = (0x3B4, 15) ∷ (0x3B4, 14) ∷ [];
    }
