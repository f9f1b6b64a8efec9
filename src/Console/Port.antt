-- ===== src/Console/Port.antt =====
-- The port accesses of kern/console.c: serial_proc_data with its loop in cons_intr, serial_init,
-- lpt_putc and get_cursor_loc. What the two instructions of inc/x86.h do to the devices `D` is a
-- parameter.
pub mod Cursor
pub mod Polling
mod Tests
use jos_vmx.Base.{
  ℕ, zero, suc, ◌+◌, ◌*◌, ◌/◌, ◌%◌, ◌^◌, Option, none, some, Bool, not, List, [], ◌∷◌, ◌==◌,
  if◌then◌else◌, bit_and, bit_or,
}
use jos_vmx.Console.{Cons, cons_put}

abbrev pub com1 : ℕ
com1 = 0x3F8

module _ {D : Type 0} (outb : ℕ → ℕ → D → D) where
  -- The devices after the port writes that the display has logged, the last of them first.
  unfoldable pub emit : List (ℕ × ℕ) → D → D
  emit [] d = d
  emit (write ∷ out) d = outb write.0 write.1 (emit out d)

module _ {D : Type 0} (inb : ℕ → D → ℕ × D) where
  -- -1 is `none`.
  unfoldable pub serial_proc_data : D → Option ℕ × D
  serial_proc_data d =
      let status = inb (com1 + 5) d in
      let rx = inb com1 status.1 in
      if bit_and status.0 1 == 0 then (none, status.1) else (some rx.0, rx.1)

  -- The rest of a round of `cons_intr`, whose remaining rounds are `rest`.
  abbrev pub poll_round : Option ℕ × D → Cons → (D → Cons → Option (Cons × D)) → Option (Cons × D)
  poll_round (none, d) s rest = some (s, d)
  poll_round (some c, d) s rest = rest d (cons_put c s)

  -- `cons_intr(serial_proc_data)`, at most `fuel` rounds of it
  unfoldable pub cons_intr_serial : ℕ → D → Cons → Option (Cons × D)
  cons_intr_serial zero d s = none
  cons_intr_serial (suc fuel) d s =
      poll_round (serial_proc_data d) s (λ d' s'. cons_intr_serial fuel d' s')

  abbrev pub delay : D → D
  delay d = (inb 0x84 (inb 0x84 (inb 0x84 (inb 0x84 d).1).1).1).1

  -- The loop of `lpt_putc` with `n` of its 12800 rounds left.
  unfoldable pub lpt_wait : ℕ → D → D
  lpt_wait zero d = (inb (0x378 + 1) d).1
  lpt_wait (suc n) d =
      let status = inb (0x378 + 1) d in
      let rest = lpt_wait n (delay status.1) in
      if bit_and status.0 0x80 == 0 then rest else status.1

  module _ (outb : ℕ → ℕ → D → D) where
    -- The first result is `serial_exists`.
    unfoldable pub serial_init : D → Bool × D
    serial_init d =
        let set = outb (com1 + 1) 1 (
          outb (com1 + 4) 0 (
            outb (com1 + 3) 3 (
              outb (com1 + 1) 0 (
                outb com1 (115200 / 9600 % 2 ^ 8)
                  (outb (com1 + 3) 0x80 (outb (com1 + 2) 0 d)))))) in
        let status = inb (com1 + 5) set in
        let iir = inb (com1 + 2) status.1 in
        let rx = inb com1 iir.1 in (not (status.0 == 0xFF), rx.1)

    unfoldable pub lpt_putc : ℕ → D → D
    lpt_putc c d =
        outb (0x378 + 2) 8 (outb (0x378 + 2) 0xD (outb 0x378 (c % 2 ^ 8) (lpt_wait 12800 d)))

    -- The new value of `crt_pos`.
    unfoldable pub get_cursor_loc : ℕ → D → ℕ × D
    get_cursor_loc addr_6845 d =
        let high = inb (addr_6845 + 1) (outb addr_6845 14 d) in
        let low = inb (addr_6845 + 1) (outb addr_6845 15 high.1) in
        (bit_or (high.0 * 2 ^ 8 % 2 ^ 16) low.0, low.1)
