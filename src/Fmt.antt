-- ===== src/Fmt.antt =====
-- lib/printfmt.c and kern/printf.c. What `putch` is called with is collected in a list. A format
-- string and a string argument are the bytes from their first to the end of their array; `none` is
-- a read past that end, or an argument of another type than the format asks for. A width or precision
-- written in the format is below 2^31.
pub mod Number
pub mod Buffer
pub mod Total
pub mod Call
mod Tests
use Prim.Native.Char.{code}
use Prim.Native.String.{String}
use jos_vmx.Base.{
  ℕ, zero, suc, ◌+◌, ◌-◌, ◌*◌, ◌/◌, ◌%◌, ◌^◌, Option, none, some, Bool, true, false, ◌&&◌, ◌||◌,
  not, List, [], ◌∷◌, ◌++◌, ◌==◌, ltb, leb, if◌then◌else◌, length, replicate, get_or, get_elem?,
}
use jos_vmx.Base.Int.{ℤ, pos, negsuc}
use jos_vmx.Str.{strlen, strnlen}

abbrev pub digit_chars : List ℕ
digit_chars =
    b'0' ∷ b'1' ∷ b'2' ∷ b'3' ∷ b'4' ∷ b'5' ∷ b'6' ∷ b'7' ∷ b'8' ∷ b'9' ∷ b'a' ∷ b'b' ∷ b'c' ∷ b'd'
    ∷ b'e' ∷ b'f' ∷ []

abbrev appended : Option (List ℕ) → ℕ → Option (List ℕ)
appended none c = none
appended (some out) c = some (out ++ (c ∷ []))

-- The recursion is on fuel. A width below 1 acts as 0.
unfoldable pub printnum : (fuel base num width padc : ℕ) → Option (List ℕ)
printnum zero base num width padc = none
printnum (suc fuel) base num width padc =
    let more = printnum fuel base (num / base) (width - 1) padc in
    let digit = get_or digit_chars (num % base) 0 in
    if ltb num base then appended (some (replicate (width - 1) padc)) digit else appended more digit

-- An argument as it was passed: 32 bits, 64 bits, or a pointer to a string.
pub data Arg : Type 0 where
  word : ℕ → Arg
  dword : ℕ → Arg
  str : Option (List ℕ) → Arg

-- The variables of `vprintfmt` between `%` and the conversion; `num` is the width field being read.
pub record Flags : Type 0 where
  pub padc : ℕ
  pub width : ℤ
  pub precision : ℤ
  pub lflag : ℕ
  pub altflag : Bool
  pub num : Option ℕ

abbrev pub start : Flags
start = record {
  padc = b' ';
  width = negsuc 0;
  precision = negsuc 0;
  lflag = 0;
  altflag = false;
  num = none;
}

abbrev pub is_neg : ℤ → Bool
is_neg (pos n) = false
is_neg (negsuc n) = true

abbrev pub clamp : ℤ → ℕ
clamp (pos n) = n
clamp (negsuc n) = 0

-- `getuint`, which leaves the other arguments
abbrev pub getuint : List Arg → ℕ → Option (ℕ × List Arg)
getuint (dword n ∷ ap) lflag = if leb 2 lflag then some (n % 2 ^ 64, ap) else none
getuint (word n ∷ ap) lflag = if leb 2 lflag then none else some (n % 2 ^ 32, ap)
getuint _ lflag = none

-- Two's complement of the given width.
abbrev pub signed : ℕ → ℕ → ℤ
signed half n = if ltb n half then pos n else negsuc (half + half - n - 1)

abbrev pub getint : List Arg → ℕ → Option (ℤ × List Arg)
getint (dword n ∷ ap) lflag = if leb 2 lflag then some (signed (2 ^ 63) (n % 2 ^ 64), ap) else none
getint (word n ∷ ap) lflag = if leb 2 lflag then none else some (signed (2 ^ 31) (n % 2 ^ 32), ap)
getint _ lflag = none

-- `process_precision`
abbrev pub process_precision : ℤ → Flags → Flags
process_precision p f =
    if is_neg f.width
    then record f { width = p; precision = negsuc 0; num = none }
    else record f { precision = p; num = none }

abbrev pub spent : ℤ → ℤ
spent (negsuc n) = negsuc n
spent (pos n) = pos (n - 1)

abbrev pub is_spent : ℤ → Bool
is_spent (negsuc n) = false
is_spent (pos n) = n == 0

-- A `char` as an `int` of 32 bits: the bytes from 128 on are negative.
abbrev pub signed_char : ℕ → ℕ
signed_char c = if ltb c (2 ^ 7) then c else c + (2 ^ 32 - 2 ^ 8)

-- What is printed for the byte `c`; with `#`, `?` for a byte that does not print. The negative ones
-- are below a blank.
abbrev pub shown : Bool → ℕ → ℕ
shown alt c = if alt && (ltb c b' ' || ltb b'~' c) then b'?' else signed_char c

-- The printing loop of `%s`, with the count of characters that it passed.
unfoldable pub print_chars : List ℕ → ℤ → Bool → Option (List ℕ × ℕ)
print_chars [] precision alt = none
print_chars (c ∷ p) precision alt =
    let rest = print_chars p (spent precision) alt in
    if c == 0 || is_spent precision
    then some ([], 0)
    else elim rest [ none ↦ none | some (out, n) ↦ some (shown alt c ∷ out, suc n) ]

abbrev pub null_text : List ℕ
null_text = b'(' ∷ b'n' ∷ b'u' ∷ b'l' ∷ b'l' ∷ b')' ∷ 0 ∷ []

-- A negative precision is a huge `size_t`.
abbrev pub strnlen_int : List ℕ → ℤ → Option ℕ
strnlen_int p (negsuc n) = strlen p
strnlen_int p (pos n) = strnlen p n

-- `%s`: padding on the left, the characters, padding on the right.
unfoldable pub print_str : List ℕ → Flags → Option (List ℕ)
unfolding print_chars
print_str p f =
    let left = ltb 0 (clamp f.width) && not (f.padc == b'-') in
    elim (if left then strnlen_int p f.precision else some 0) [
      | none ↦ none
      | some n ↦ elim (print_chars p f.precision f.altflag) [
        | none ↦ none
        | some (out, count) ↦ some (
            if left
            then replicate (clamp f.width - n) f.padc ++ out
            else out ++ replicate (clamp f.width - count) b' ')
      ]
    ]

-- A number with the flags read so far; 64 rounds are enough for 64 bits.
abbrev pub print_unsigned : ℕ → ℕ → Flags → Option (List ℕ)
print_unsigned base num f = printnum 64 base num (clamp f.width) f.padc

abbrev pub prefixed : List ℕ → Option (List ℕ) → Option (List ℕ)
prefixed out none = none
prefixed out (some rest) = some (out ++ rest)

abbrev pub print_signed : ℤ → Flags → Option (List ℕ)
print_signed (pos n) f = print_unsigned 10 n f
print_signed (negsuc n) f = prefixed (b'-' ∷ []) (print_unsigned 10 (suc n) f)

-- `error_string`, from the index 1 on; inc/error.h has MAXERROR 6
abbrev pub error_string : List String
error_string =
    "unspecified error" ∷ "bad environment" ∷ "invalid parameter" ∷ "out of memory"
    ∷ "out of environments" ∷ "segmentation fault" ∷ []

abbrev pub codes : String → List ℕ
codes String.[] = []
codes (String.◌∷◌ c s) = code c ∷ codes s

-- `printfmt(putch, putdat, "error %d", err)`, or the message. `-err` is out of range at -2^31.
abbrev pub print_error : ℕ → Option (List ℕ)
print_error err =
    if leb (2 ^ 31) err
    then none
    else if err == 0
    then prefixed (codes "error ") (print_unsigned 10 err start)
    else elim (get_elem? error_string (err - 1)) [
      | none ↦ prefixed (codes "error ") (print_unsigned 10 err start)
      | some p ↦ some (codes p)
    ]

abbrev pub magnitude : ℤ → ℕ
magnitude (pos n) = n
magnitude (negsuc n) = suc n

-- What a round of the switch does: go to `reswitch`, finish the conversion with its output, or
-- print the unknown escape literally.
pub data Next : Type 0 where
  again : Flags → List Arg → Next
  done : List ℕ → List Arg → Next
  literal : Next
  fault : Next

abbrev pub finish : Option (List ℕ) → List Arg → Next
finish none ap = fault
finish (some out) ap = done out ap

abbrev pub with_uint : List Arg → Flags → ℕ → Next
with_uint ap f base = elim (getuint ap f.lflag) [
  | none ↦ fault
  | some (n, ap') ↦ finish (print_unsigned base n f) ap'
]

abbrev pub with_int : List Arg → (ℤ → List Arg → Next) → Next
with_int ap k = elim (getint ap 0) [ none ↦ fault | some (n, ap') ↦ k n ap' ]

abbrev pub with_str : List Arg → Flags → Next
with_str (str none ∷ ap) f = finish (print_str null_text f) ap
with_str (str (some p) ∷ ap) f = finish (print_str p f) ap
with_str _ f = fault

-- A pointer argument is a 32-bit word.
abbrev pub with_ptr : List Arg → Flags → Next
with_ptr (word n ∷ ap) f =
    finish (prefixed (b'0' ∷ b'x' ∷ []) (print_unsigned 16 (n % 2 ^ 32) f)) ap
with_ptr _ f = fault

-- The switch on the character behind `%` or a flag.
unfoldable pub switch : Flags → ℕ → List Arg → Next
switch f ch ap =
    if ch == b'-'
    then again (record f { padc = b'-' }) ap
    else if ch == b'0'
    then again (record f { padc = b'0' }) ap
    else if leb b'1' ch && leb ch b'9'
    then again (record f { num = some (ch - b'0') }) ap
    else if ch == b'*'
    then with_int ap (λ n ap'. again (process_precision n f) ap')
    else if ch == b'.'
    then again (if is_neg f.width then record f { width = pos 0 } else f) ap
    else if ch == b'#'
    then again (record f { altflag = true }) ap
    else if ch == b'l'
    then again (record f { lflag = f.lflag + 1 }) ap
    else if ch == b'c'
    then (elim ap [
      | [] ↦ fault
      | a ∷ ap' ↦ elim a [ word n ↦ done (n % 2 ^ 32 ∷ []) ap' | _ ↦ fault ]
    ])
    else if ch == b'e'
    then with_int ap (λ n ap'. finish (print_error (magnitude n)) ap')
    else if ch == b's'
    then with_str ap f
    else if ch == b'd'
    then (elim (getint ap f.lflag) [ none ↦ fault | some (n, ap') ↦ finish (print_signed n f) ap' ])
    else if ch == b'u'
    then with_uint ap f 10
    else if ch == b'o'
    then with_uint ap f 8
    else if ch == b'p'
    then with_ptr ap f
    else if ch == b'x'
    then with_uint ap f 16
    else if ch == b'%'
    then done (b'%' ∷ []) ap
    else literal

-- A round of `reswitch`; the loop over a width field reads on while there are digits.
unfoldable pub step : Flags → ℕ → List Arg → Next
unfolding switch
step f ch ap = elim f.num [
  | none ↦ switch f ch ap
  | some p ↦
      if leb b'0' ch && leb ch b'9'
      then again (record f { num = some (p * 10 + ch - b'0') }) ap
      else switch (process_precision (pos p) f) ch ap
]

-- From the character behind `%`, at `saved`, to the end of the conversion: its output, the format
-- and the arguments left. An unknown escape prints `%` and goes back to `saved`.
unfoldable pub escape : List ℕ → List ℕ → Flags → List Arg → Option (List ℕ × (List ℕ × List Arg))
escape saved [] f ap = none
escape saved (ch ∷ fmt) f ap = elim (step f ch ap) [
  | again f' ap' ↦ escape saved fmt f' ap'
  | done out ap' ↦ some (out, (fmt, ap'))
  | literal ↦ some (b'%' ∷ [], (saved, ap))
  | fault ↦ none
]

-- The outer loop, on fuel.
unfoldable pub vprintfmt : ℕ → List ℕ → List Arg → Option (List ℕ)
vprintfmt zero fmt ap = none
vprintfmt (suc fuel) [] ap = none
vprintfmt (suc fuel) (ch ∷ fmt) ap =
    let rest = vprintfmt fuel fmt ap in
    if ch == b'%'
    then (elim (escape fmt fmt start ap) [
      | none ↦ none
      | some (out, (fmt', ap')) ↦ prefixed out (vprintfmt fuel fmt' ap')
    ])
    else if ch == 0
    then some []
    else prefixed (ch ∷ []) rest
