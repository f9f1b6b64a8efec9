-- ===== src/Console/Port/Tests.antt =====
-- Small devices behind the ports of the console.
use jos_vmx.Base.{ℕ, ◌+◌, ◌≡◌, refl, some, true, List, [], ◌∷◌, ◌==◌, if◌then◌else◌, update, arith}
use jos_vmx.Console.{Cons}
use jos_vmx.Console.Fifo.{Holds}
use jos_vmx.Console.Cga.{Crt, cga_putc, move_cursor, scroll, put_char}
use jos_vmx.Console.Port.{com1, serial_init, cons_intr_serial, emit, get_cursor_loc}
use jos_vmx.Console.Port.Cursor.{IsController, cga_putc-get_cursor_loc}
use jos_vmx.Console.Port.Polling.{IsSerialPort, cons_intr_serial-Holds}

-- The selected register and the registers of a display controller
abbrev Wired : Type 0
Wired = ℕ × (ℕ → ℕ)

abbrev wired_in : ℕ → Wired → ℕ × Wired
wired_in port d = (if port == 0x3D5 then d.1 d.0 else 0, d)

abbrev wired_out : ℕ → ℕ → Wired → Wired
wired_out port v d =
    if port == 0x3D4 then (v, d.1) else if port == 0x3D5 then (d.0, update d.1 d.0 v) else d

wired-IsController : IsController wired_in wired_out 0x3D4 (λ d. d.0) (λ d. d.1)
wired-IsController = record {
  select = λ v d h. refl;
  select_keeps = λ v d k. refl;
  write = λ v d h. ground arith;
  write_keeps = λ v d k h. ground (arith, h);
  read = λ d. refl;
  read_keeps = λ d k. refl;
}

-- The cursor is in the last cell.
abbrev screen : Crt
screen = record { crt_buf = λ i. 0x0720; crt_pos = 1999; addr_6845 = 0x3D4; out = [] }

abbrev devices : Wired
devices = (0, λ k. 0)

cga_putc-get_cursor_loc_example :
    (get_cursor_loc wired_in wired_out
      (cga_putc b'x' screen).addr_6845
      (emit wired_out (cga_putc b'x' screen).out devices)).0
    ≡ (cga_putc b'x' screen).crt_pos
unfolding cga_putc move_cursor scroll put_char
cga_putc-get_cursor_loc_example =
    cga_putc-get_cursor_loc wired_in wired_out (λ d. d.0) (λ d. d.1) b'x' screen (omega arith)
      wired-IsController devices

-- A serial port with the characters of a list in its buffer; its transmitter is empty.
abbrev serial_in : ℕ → List ℕ → ℕ × List ℕ
serial_in port [] = (if port == com1 + 5 then 0x60 else 0, [])
serial_in port (c ∷ cs) =
    if port == com1 then (c, cs) else if port == com1 + 5 then (0x61, c ∷ cs) else (0, c ∷ cs)

serial_in-keeps : (cs : List ℕ) → (serial_in 0x3FD cs).1 ≡ cs
serial_in-keeps [] = refl
serial_in-keeps (c ∷ cs) = refl

serial_in-IsSerialPort : IsSerialPort serial_in (λ cs. cs)
serial_in-IsSerialPort = record {
  nothing = λ d e. rw e refl;
  something = λ d c cs e. rw e refl;
  status_keeps = serial_in-keeps;
  received = λ d c cs e. rw e (refl, refl);
}

abbrev idle : Cons
idle = record { buf = λ i. 0; rpos = 0; wpos = 0 }

idle-Holds : Holds idle []
idle-Holds = record { read = omega arith; room = omega arith; written = refl; pending = _; set = _ }

cons_intr_serial-Holds_example :
    (d' : List ℕ) × (s' : Cons) × (cons_intr_serial serial_in 3 (97 ∷ 98 ∷ []) idle ≡ some (s', d'))
    × (d' ≡ [])
    × Holds s' (97 ∷ 98 ∷ [])
cons_intr_serial-Holds_example =
    cons_intr_serial-Holds serial_in (λ cs. cs) serial_in-IsSerialPort (97 ∷ 98 ∷ []) (97 ∷ 98 ∷ [])
      idle [] refl idle-Holds (omega arith, (omega arith, _)) (omega arith)

-- A port that answers, and drops the character that waits
serial_init_answers : serial_init serial_in (λ port v d. d) (97 ∷ []) ≡ (true, [])
unfolding serial_init
serial_init_answers = refl
