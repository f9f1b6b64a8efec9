-- ===== src/Console/Port/Polling.antt =====
-- `cons_intr` with the routine of the serial port against its model over a list of characters.
use jos_vmx.Base.{
  ℕ, suc, ◌+◌, ◌%◌, ◌<◌, ◌++◌, ◌≡◌, ◌∙◌, refl, none, some, List, [], ◌∷◌, length, bit_and,
}
use jos_vmx.Base.Bits.{bit_and_mod}
use jos_vmx.Console.{consbufsize, Cons, cons_put, cons_intr}
use jos_vmx.Console.Fifo.{Holds, Bytes, kept, cons_intr-Holds}
use jos_vmx.Console.Port.{serial_proc_data, cons_intr_serial}

module _ {D : Type 0} (inb : ℕ → D → ℕ × D) where
  module _ (waiting : D → List ℕ) where
    -- A serial port in which the bytes `waiting d` wait: bit 0 of the line status register says
    -- whether there is one, whatever the other bits are, and a read of the receive buffer takes the
    -- first of them.
    pub record IsSerialPort : Type 0 where
      pub nothing : (d : D) → waiting d ≡ [] → (inb 0x3FD d).0 % 2 ≡ 0
      pub something : (d : D) (c : ℕ) (cs : List ℕ) → waiting d ≡ c ∷ cs → (inb 0x3FD d).0 % 2 ≡ 1
      pub status_keeps : (d : D) → waiting (inb 0x3FD d).1 ≡ waiting d
      pub received :
          (d : D) (c : ℕ) (cs : List ℕ)
          → waiting d ≡ c ∷ cs
          → ((inb 0x3F8 d).0 ≡ c) × (waiting (inb 0x3F8 d).1 ≡ cs)

    module _ (port : IsSerialPort) where
      nothing_waits :
          (d : D)
          → waiting d ≡ []
          → (d' : D) × (serial_proc_data inb d ≡ (none, d')) × (waiting d' ≡ [])
      unfolding serial_proc_data
      nothing_waits d e =
          let bit : bit_and (inb 0x3FD d).0 1 ≡ 0 =
            bit_and_mod 1 (inb 0x3FD d).0 ∙ port.nothing d e in
          ((inb 0x3FD d).1, rw bit refl, port.status_keeps d ∙ e)

      something_waits :
          (d : D) (c : ℕ) (cs : List ℕ)
          → waiting d ≡ c ∷ cs
          → (d' : D) × (serial_proc_data inb d ≡ (some c, d')) × (waiting d' ≡ cs)
      unfolding serial_proc_data
      something_waits d c cs e =
          let bit : bit_and (inb 0x3FD d).0 1 ≡ 1 =
            bit_and_mod 1 (inb 0x3FD d).0 ∙ port.something d c cs e in
          let (byte, rest) = port.received (inb 0x3FD d).1 c cs (port.status_keeps d ∙ e) in
          ((inb 0x3F8 (inb 0x3FD d).1).1, rw (bit, byte) refl, rest)

      -- The loop ends after the characters, with the buffer that cons_intr makes of their list.
      cons_intr_serial-cons_intr :
          (cs : List ℕ) (d : D) (s : Cons)
          → waiting d ≡ cs
          → (d' : D) × (cons_intr_serial inb (suc (length cs)) d s ≡ some (cons_intr cs s, d'))
            × (waiting d' ≡ [])
      unfolding cons_intr_serial cons_intr
      cons_intr_serial-cons_intr [] d s e =
          let (d', got, empty) = nothing_waits d e in (d', rw got refl, empty)
      cons_intr_serial-cons_intr (c ∷ cs) d s e =
          let (d₁, got, left) = something_waits d c cs e in
          let (d', ends, empty) = cons_intr_serial-cons_intr cs d₁ (cons_put c s) left in
          (d', rw got ends, empty)

      -- Where the characters `xs` wait in the buffer, which has room for those of the bytes `cs`
      -- that are not 0 with one place staying free, and the bytes `cs` wait in the serial port, the
      -- loop of cons_intr over serial_proc_data ends in a round for each byte and one more. The
      -- port is then empty, and behind `xs` the bytes of `cs` that are not 0 wait in their order.
      pub cons_intr_serial-Holds :
          (cs : List ℕ) (d : D) (s : Cons) (xs : List ℕ)
          → waiting d ≡ cs
          → Holds s xs
          → Bytes cs
          → length xs + length (kept cs) < consbufsize
          → (d' : D) × (s' : Cons) × (cons_intr_serial inb (suc (length cs)) d s ≡ some (s', d'))
            × (waiting d' ≡ [])
            × Holds s' (xs ++ kept cs)
      cons_intr_serial-Holds cs d s xs e h bytes fit =
          let (d', ends, empty) = cons_intr_serial-cons_intr cs d s e in
          (d', cons_intr cs s, ends, empty, cons_intr-Holds cs s xs h bytes fit)
