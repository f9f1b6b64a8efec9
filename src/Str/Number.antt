-- ===== src/Str/Number.antt =====
-- strtol of lib/string.c. A pointer is what stands from it on; a `long` is its 32-bit pattern.
use jos_vmx.Base.{
  ℕ, ◌+◌, ◌-◌, ◌*◌, ◌%◌, ◌^◌, Option, none, some, Bool, true, false, ◌&&◌, ◌||◌, List, [], ◌∷◌,
  ◌==◌, leb, if◌then◌else◌,
}

abbrev pub skip_blanks : List ℕ → Option (List ℕ)
skip_blanks [] = none
skip_blanks (c ∷ s) = if c == b' ' || c == 9 then skip_blanks s else some (c ∷ s)

-- The rest, and whether a minus sign was read.
abbrev pub sign : List ℕ → Option (List ℕ × Bool)
sign [] = none
sign (c ∷ s) =
    if c == b'+' then some (s, false) else if c == b'-' then some (s, true) else some (c ∷ s, false)

-- The rest behind `0x` or `0`, and the base. `s[1]` is read only where `s[0]` is '0'.
abbrev pub prefix : List ℕ → ℕ → Option (List ℕ × ℕ)
prefix [] base = if base == 0 || base == 16 then none else some ([], base)
prefix (c ∷ []) base =
    if base == 0 || base == 16
    then if c == b'0' then none else some (c ∷ [], if base == 0 then 10 else base)
    else some (c ∷ [], base)
prefix (c ∷ d ∷ s) base =
    if (base == 0 || base == 16) && (c == b'0' && d == b'x')
    then some (s, 16)
    else if base == 0
    then if c == b'0' then some (d ∷ s, 8) else some (c ∷ d ∷ s, 10)
    else some (c ∷ d ∷ s, base)

abbrev pub digit_of : ℕ → Option ℕ
digit_of c =
    if leb b'0' c && leb c b'9'
    then some (c - b'0')
    else if leb b'a' c && leb c b'z'
    then some (c - b'a' + 10)
    else if leb b'A' c && leb c b'Z'
    then some (c - b'A' + 10)
    else none

unfoldable pub digits : ℕ → List ℕ → ℕ → Option (ℕ × List ℕ)
digits base [] val = none
digits base (c ∷ s) val = elim (digit_of c) [
  | none ↦ some (val, c ∷ s)
  | some dig ↦
      let rest = digits base s ((val * base + dig) % 2 ^ 32) in
      if leb base dig then some (val, c ∷ s) else rest
]

abbrev pub negate : Bool → ℕ → ℕ
negate neg val = if neg then (2 ^ 32 - val) % 2 ^ 32 else val

-- The value, and `*endptr`.
unfoldable pub strtol : List ℕ → ℕ → Option (ℕ × List ℕ)
strtol s base = elim (skip_blanks s) [
  | none ↦ none
  | some s₁ ↦ elim (sign s₁) [
    | none ↦ none
    | some (s₂, neg) ↦ elim (prefix s₂ base) [
      | none ↦ none
      | some (s₃, b) ↦ elim (digits b s₃ 0) [
        | none ↦ none
        | some (val, end) ↦ some (negate neg val, end)
      ]
    ]
  ]
]
