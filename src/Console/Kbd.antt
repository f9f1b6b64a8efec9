-- ===== src/Console/Kbd.antt =====
-- The keyboard of kern/console.c: the scan code tables and kbd_proc_data. `shift` is its static
-- variable, a status byte and a data byte are what `inb` returned.
use jos_vmx.Base.{
  ℕ, ◌+◌, ◌-◌, ◌%◌, ◌^◌, ◌<◌, ◌≡◌, ◌⊎◌, inl, inr, ==_iff, and-true, refl, Option, none, some, Bool,
  true, false, ◌&&◌, not, List, [], ◌∷◌, ◌==◌, ltb, leb, if◌then◌else◌, get_or, bit_and, bit_or,
  bit_xor, length,
}
use jos_vmx.Base.Table.{all_below, all_below_sound}

-- An array with designated initializers: its first elements, and those at given indexes; 0
-- elsewhere.
abbrev pub at_index : List (ℕ × ℕ) → ℕ → ℕ
at_index [] i = 0
at_index ((k, v) ∷ more) i = if k == i then v else at_index more i

abbrev pub table : List ℕ → List (ℕ × ℕ) → ℕ → ℕ
table first more i = if ltb i (length first) then get_or first i 0 else at_index more i

abbrev pub shift_bit : ℕ
shift_bit = 1

abbrev pub ctl_bit : ℕ
ctl_bit = 2

abbrev pub alt_bit : ℕ
alt_bit = 4

abbrev pub capslock : ℕ
capslock = 8

abbrev pub e0esc : ℕ
e0esc = 64

unfoldable pub shiftcode : ℕ → ℕ
shiftcode = table [] (
    (0x1D, ctl_bit)
    ∷ (0x2A, shift_bit)
    ∷ (0x36, shift_bit)
    ∷ (0x38, alt_bit)
    ∷ (0x9D, ctl_bit)
    ∷ (0xB8, alt_bit)
    ∷ [])

unfoldable pub togglecode : ℕ → ℕ
togglecode = table [] ((0x3A, capslock) ∷ (0x45, 16) ∷ (0x46, 32) ∷ [])

-- The keys that normalmap and shiftmap have in common from 0x97 on.
abbrev keypad : List (ℕ × ℕ)
keypad =
    (0x97, 0xE0)
    ∷ (0x9C, 10)
    ∷ (0xB5, b'/')
    ∷ (0xC8, 0xE2)
    ∷ (0xC9, 0xE6)
    ∷ (0xCB, 0xE4)
    ∷ (0xCD, 0xE5)
    ∷ (0xCF, 0xE1)
    ∷ (0xD0, 0xE3)
    ∷ (0xD1, 0xE7)
    ∷ (0xD2, 0xE8)
    ∷ (0xD3, 0xE9)
    ∷ []

unfoldable pub normalmap : ℕ → ℕ
normalmap =
    table
      (0 ∷ 0x1B ∷ b'1' ∷ b'2' ∷ b'3' ∷ b'4' ∷ b'5' ∷ b'6' ∷ b'7' ∷ b'8' ∷ b'9' ∷ b'0' ∷ b'-' ∷ b'='
        ∷ 8 ∷ 9 ∷ b'q' ∷ b'w' ∷ b'e' ∷ b'r' ∷ b't' ∷ b'y' ∷ b'u' ∷ b'i' ∷ b'o' ∷ b'p' ∷ b'[' ∷ b']'
        ∷ 10 ∷ 0 ∷ b'a' ∷ b's' ∷ b'd' ∷ b'f' ∷ b'g' ∷ b'h' ∷ b'j' ∷ b'k' ∷ b'l' ∷ b';' ∷ 39 ∷ b'`'
        ∷ 0 ∷ 92 ∷ b'z' ∷ b'x' ∷ b'c' ∷ b'v' ∷ b'b' ∷ b'n' ∷ b'm' ∷ b',' ∷ b'.' ∷ b'/' ∷ 0 ∷ b'*'
        ∷ 0 ∷ b' ' ∷ 0 ∷ 0 ∷ 0 ∷ 0 ∷ 0 ∷ 0 ∷ 0 ∷ 0 ∷ 0 ∷ 0 ∷ 0 ∷ 0 ∷ 0 ∷ b'7' ∷ b'8' ∷ b'9' ∷ b'-'
        ∷ b'4' ∷ b'5' ∷ b'6' ∷ b'+' ∷ b'1' ∷ b'2' ∷ b'3' ∷ b'0' ∷ b'.' ∷ 0 ∷ 0 ∷ 0 ∷ 0 ∷ [])
      keypad

unfoldable pub shiftmap : ℕ → ℕ
shiftmap =
    table
      (0 ∷ 27 ∷ b'!' ∷ b'@' ∷ b'#' ∷ b'$' ∷ b'%' ∷ b'^' ∷ b'&' ∷ b'*' ∷ b'(' ∷ b')' ∷ b'_' ∷ b'+'
        ∷ 8 ∷ 9 ∷ b'Q' ∷ b'W' ∷ b'E' ∷ b'R' ∷ b'T' ∷ b'Y' ∷ b'U' ∷ b'I' ∷ b'O' ∷ b'P' ∷ b'{' ∷ b'}'
        ∷ 10 ∷ 0 ∷ b'A' ∷ b'S' ∷ b'D' ∷ b'F' ∷ b'G' ∷ b'H' ∷ b'J' ∷ b'K' ∷ b'L' ∷ b':' ∷ b'"' ∷ b'~'
        ∷ 0 ∷ b'|' ∷ b'Z' ∷ b'X' ∷ b'C' ∷ b'V' ∷ b'B' ∷ b'N' ∷ b'M' ∷ b'<' ∷ b'>' ∷ b'?' ∷ 0 ∷ b'*'
        ∷ 0 ∷ b' ' ∷ 0 ∷ 0 ∷ 0 ∷ 0 ∷ 0 ∷ 0 ∷ 0 ∷ 0 ∷ 0 ∷ 0 ∷ 0 ∷ 0 ∷ 0 ∷ b'7' ∷ b'8' ∷ b'9' ∷ b'-'
        ∷ b'4' ∷ b'5' ∷ b'6' ∷ b'+' ∷ b'1' ∷ b'2' ∷ b'3' ∷ b'0' ∷ b'.' ∷ 0 ∷ 0 ∷ 0 ∷ 0 ∷ [])
      keypad

unfoldable pub ctlmap : ℕ → ℕ
ctlmap =
    table
      (0 ∷ 0 ∷ 0 ∷ 0 ∷ 0 ∷ 0 ∷ 0 ∷ 0 ∷ 0 ∷ 0 ∷ 0 ∷ 0 ∷ 0 ∷ 0 ∷ 0 ∷ 0 ∷ 17 ∷ 23 ∷ 5 ∷ 18 ∷ 20 ∷ 25
        ∷ 21 ∷ 9 ∷ 15 ∷ 16 ∷ 0 ∷ 0 ∷ 13 ∷ 0 ∷ 1 ∷ 19 ∷ 4 ∷ 6 ∷ 7 ∷ 8 ∷ 10 ∷ 11 ∷ 12 ∷ 0 ∷ 0 ∷ 0 ∷ 0
        ∷ 28 ∷ 26 ∷ 24 ∷ 3 ∷ 22 ∷ 2 ∷ 14 ∷ 13 ∷ 0 ∷ 0 ∷ 239 ∷ 0 ∷ 0 ∷ [])
      ((0x97, 0xE0)
        ∷ (0xB5, 239)
        ∷ (0xC8, 0xE2)
        ∷ (0xC9, 0xE6)
        ∷ (0xCB, 0xE4)
        ∷ (0xCD, 0xE5)
        ∷ (0xCF, 0xE1)
        ∷ (0xD0, 0xE3)
        ∷ (0xD1, 0xE7)
        ∷ (0xD2, 0xE8)
        ∷ (0xD3, 0xE9)
        ∷ [])

-- `charcode[shift & (CTL | SHIFT)]`
unfoldable pub charcode : ℕ → ℕ → ℕ
unfolding normalmap shiftmap ctlmap
charcode k byte = if k == 0 then normalmap byte else if k == 1 then shiftmap byte else ctlmap byte

-- Caps lock swaps the case of a letter.
unfoldable pub swap_case : ℕ → ℕ
swap_case c =
    if leb b'a' c && leb c b'z'
    then c + b'A' - b'a'
    else if leb b'A' c && leb c b'Z'
    then c + b'a' - b'A'
    else c

-- What is returned, the new `shift`, and whether the machine reboots.
abbrev pub Typed : Type 0
Typed = ℕ × (ℕ × Bool)

-- A key that went down; `byte` has its E0 bit already.
unfoldable pub key_press : ℕ → ℕ → Typed
unfolding shiftcode togglecode charcode swap_case
key_press shift byte =
    let shift' = bit_xor (bit_or shift (shiftcode byte)) (togglecode byte) in
    let c₀ = charcode (bit_and shift' (bit_or ctl_bit shift_bit)) byte in
    let c = if bit_and shift' capslock == 0 then c₀ else swap_case c₀ in
    let chord = bit_and shift' (bit_or ctl_bit alt_bit) == bit_or ctl_bit alt_bit in
    (c, (shift', chord && (c == 0xE9)))

-- `shift &= ~m` in 32 bits
abbrev pub clear_bits : ℕ → ℕ → ℕ
clear_bits shift m = bit_and shift (2 ^ 32 - 1 - m)

-- The part of `kbd_proc_data` behind the reading of the byte.
unfoldable pub key_event : ℕ → ℕ → Typed
unfolding shiftcode key_press
key_event shift byte =
    let escaped = not (bit_and shift e0esc == 0) in
    if byte == 0xE0
    then (0, (bit_or shift e0esc, false))
    else if not (bit_and byte 0x80 == 0)
    then (
      0,
      (
        clear_bits shift (bit_or (shiftcode (if escaped then byte else bit_and byte 0x7F)) e0esc),
        false,
      ),
    )
    else if escaped
    then key_press (clear_bits shift e0esc) (bit_or byte 0x80)
    else key_press shift byte

-- `none` is the -1 for no byte; bit 0 of the status says whether there is a byte.
unfoldable pub kbd_proc_data : (status byte shift : ℕ) → Option Typed
unfolding key_event
kbd_proc_data status byte shift =
    if bit_and status 1 == 0 then none else some (key_event shift (byte % 2 ^ 8))

-- What a user of the keyboard sees of a key: pressed and then released.
abbrev pub tap : ℕ → ℕ → ℕ
tap shift byte = (key_event (key_event shift byte).1.0 (bit_or byte 0x80)).1.0

abbrev HandlesModifier : ℕ → ℕ → ℕ → Type 0
HandlesModifier code bit shift =
    (bit_and (key_event shift code).1.0 bit ≡ bit)
    × (tap shift code ≡ clear_bits shift bit)
    × ((key_event shift code).0 ≡ 0)

modifier_test : ℕ → ℕ → ℕ → Bool
modifier_test code bit shift =
    (bit_and (key_event shift code).1.0 bit == bit)
    && ((tap shift code == clear_bits shift bit) && ((key_event shift code).0 == 0))

modifier_test_sound :
    (code bit shift : ℕ)
    → all_below 64 (modifier_test code bit) ≡ true
    → shift < 64
    → HandlesModifier code bit shift
unfolding modifier_test
modifier_test_sound code bit shift all h =
    let t =
      and-true (bit_and (key_event shift code).1.0 bit == bit)
        ((tap shift code == clear_bits shift bit) && ((key_event shift code).0 == 0))
        (all_below_sound 64 (modifier_test code bit) shift all h) in
    let u = and-true (tap shift code == clear_bits shift bit) ((key_event shift code).0 == 0) t.1 in
    (
      (==_iff (bit_and (key_event shift code).1.0 bit) bit).0 t.0,
      (==_iff (tap shift code) (clear_bits shift bit)).0 u.0,
      (==_iff (key_event shift code).0 0).0 u.1,
    )

-- A modifier key of the left or right shift, control or alt: its scan code and its bit.
abbrev pub ShiftKey : ℕ → ℕ → Type 0
ShiftKey code bit =
    (((code ≡ 0x2A) × (bit ≡ shift_bit)) ⊎ ((code ≡ 0x36) × (bit ≡ shift_bit)))
    ⊎ (((code ≡ 0x1D) × (bit ≡ ctl_bit)) ⊎ ((code ≡ 0x38) × (bit ≡ alt_bit)))

-- In every state of the keyboard without a pending E0, pressing a modifier key sets its bit of
-- `shift` and yields no character; releasing it clears the bit and leaves the others as they were.
pub modifier_keys :
    (code bit shift : ℕ)
    → ShiftKey code bit
    → shift < 64
    → (bit_and (key_event shift code).1.0 bit ≡ bit)
      × (tap shift code ≡ clear_bits shift bit)
      × ((key_event shift code).0 ≡ 0)
unfolding all_below modifier_test key_event
modifier_keys code bit shift m h = elim m [
  | inl (inl (e, k)) ↦ rw (e, k) (modifier_test_sound 0x2A shift_bit shift refl h)
  | inl (inr (e, k)) ↦ rw (e, k) (modifier_test_sound 0x36 shift_bit shift refl h)
  | inr (inl (e, k)) ↦ rw (e, k) (modifier_test_sound 0x1D ctl_bit shift refl h)
  | inr (inr (e, k)) ↦ rw (e, k) (modifier_test_sound 0x38 alt_bit shift refl h)
]
