-- ===== src/Console.antt =====
-- kern/console.c: the input buffer `cons` with cons_intr, cons_getc and the interrupt routines. A
-- device is given by what its routine returns before it returns -1.
pub mod Fifo
pub mod Cga
pub mod Kbd
pub mod Port
mod Tests
use jos_vmx.Base.{
  ℕ, zero, suc, ◌+◌, ◌%◌, ◌^◌, Option, none, some, Bool, true, false, List, [], ◌∷◌, ◌==◌,
  if◌then◌else◌, update,
}

abbrev pub consbufsize : ℕ
consbufsize = 512

pub record Cons : Type 0 where
  pub buf : ℕ → ℕ
  pub rpos : ℕ
  pub wpos : ℕ

-- `pos++`, and 0 at the end of the buffer
abbrev pub advance : ℕ → ℕ
advance pos = if pos + 1 == consbufsize then 0 else pos + 1

-- A round of the loop of `cons_intr`, which drops a 0.
unfoldable pub cons_put : ℕ → Cons → Cons
cons_put c s =
    if c == 0 then s else record s { buf = update s.buf s.wpos (c % 2 ^ 8); wpos = advance s.wpos }

unfoldable pub cons_intr : List ℕ → Cons → Cons
cons_intr [] s = s
cons_intr (c ∷ cs) s = cons_intr cs (cons_put c s)

unfoldable pub serial_intr : Bool → List ℕ → Cons → Cons
serial_intr serial_exists serial s = if serial_exists then cons_intr serial s else s

unfoldable pub kbd_intr : List ℕ → Cons → Cons
kbd_intr kbd s = cons_intr kbd s

-- The end of `cons_getc`, after the devices were polled.
unfoldable pub cons_take : Cons → ℕ × Cons
cons_take s =
    if s.rpos == s.wpos then (0, s) else (s.buf s.rpos, record s { rpos = advance s.rpos })

unfoldable pub cons_getc : Bool → (serial kbd : List ℕ) → Cons → ℕ × Cons
cons_getc serial_exists serial kbd s = cons_take (kbd_intr kbd (serial_intr serial_exists serial s))

-- `getchar` polls until a character comes; each element of the list is what a poll finds.
unfoldable pub getchar : Bool → List (List ℕ × List ℕ) → Cons → Option (ℕ × Cons)
getchar serial_exists [] s = none
getchar serial_exists (poll ∷ polls) s =
    let got = cons_getc serial_exists poll.0 poll.1 s in
    let rest = getchar serial_exists polls got.1 in if got.0 == 0 then rest else some got
