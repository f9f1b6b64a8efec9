-- ===== src/Str/Copy.antt =====
-- strcpy, strncpy and strlcpy of lib/string.c, into an array `dst` apart from the source.
use jos_vmx.Base.{
  ℕ, zero, suc, ◌-◌, ◌≤◌, ◌<◌, ◌≡◌, refl, Option, none, some, List, [], ◌∷◌, ◌++◌, ◌==◌, arith,
  if◌then◌else◌, length, take, drop, replicate, min,
}
use jos_vmx.Str.Compare.{IsText, terminated}

abbrev behind : ℕ → Option (List ℕ) → Option (List ℕ)
behind c none = none
behind c (some l) = some (c ∷ l)

unfoldable pub strcpy : List ℕ → List ℕ → Option (List ℕ)
strcpy dst [] = none
strcpy [] (c ∷ src) = none
strcpy (d ∷ dst) (c ∷ src) = if c == 0 then some (0 ∷ dst) else behind c (strcpy dst src)

unfoldable pub strncpy : List ℕ → List ℕ → ℕ → Option (List ℕ)
strncpy dst src zero = some dst
strncpy [] src (suc size) = none
strncpy (d ∷ dst) [] (suc size) = none
strncpy (d ∷ dst) (c ∷ src) (suc size) =
    behind c (strncpy dst (if c == 0 then c ∷ src else src) size)

abbrev terminate : List ℕ → Option (ℕ × List ℕ)
terminate [] = none
terminate (d ∷ dst) = some (0, 0 ∷ dst)

abbrev behind_counted : ℕ → Option (ℕ × List ℕ) → Option (ℕ × List ℕ)
behind_counted c none = none
behind_counted c (some (n, l)) = some (suc n, c ∷ l)

-- The loop of `strlcpy`, where `size` is the value after the decrement.
unfoldable pub strlcpy_loop : List ℕ → List ℕ → ℕ → Option (ℕ × List ℕ)
strlcpy_loop dst src zero = terminate dst
strlcpy_loop dst [] (suc size) = none
strlcpy_loop [] (c ∷ src) (suc size) = none
strlcpy_loop (d ∷ dst) (c ∷ src) (suc size) =
    if c == 0 then terminate (d ∷ dst) else behind_counted c (strlcpy_loop dst src size)

-- The count returned, and the array.
unfoldable pub strlcpy : List ℕ → List ℕ → ℕ → Option (ℕ × List ℕ)
unfolding strlcpy_loop
strlcpy dst src zero = some (0, dst)
strlcpy dst src (suc size) = strlcpy_loop dst src size

-- With room for the terminator `strcpy` copies the string and it, and leaves the rest of the array.
strcpy_fits :
    (s rest dst : List ℕ)
    → IsText s
    → length s < length dst
    → strcpy dst (terminated s rest) ≡ some (s ++ (0 ∷ drop (suc (length s)) dst))
unfolding strcpy
strcpy_fits [] rest [] t h = absurd (omega arith)
strcpy_fits [] rest (d ∷ dst) t h = refl
strcpy_fits (c ∷ s) rest [] t h = absurd (omega arith)
strcpy_fits (c ∷ s) rest (d ∷ dst) t h = ground (arith, strcpy_fits s rest dst t.1)

strcpy_overrun :
    (s rest dst : List ℕ) → IsText s → length dst ≤ length s → strcpy dst (terminated s rest) ≡ none
unfolding strcpy
strcpy_overrun [] rest [] t h = refl
strcpy_overrun [] rest (d ∷ dst) t h = absurd (omega arith)
strcpy_overrun (c ∷ s) rest [] t h = refl
strcpy_overrun (c ∷ s) rest (d ∷ dst) t h = ground (arith, strcpy_overrun s rest dst t.1)

-- With room for the terminator `strcpy` copies the string and the terminator and leaves the rest
-- of the array; without it `strcpy` writes past the end.
pub strcpy_lem :
    (s rest dst : List ℕ)
    → IsText s
    → (length s < length dst
        → strcpy dst (terminated s rest) ≡ some (s ++ (0 ∷ drop (suc (length s)) dst)))
      × (length dst ≤ length s → strcpy dst (terminated s rest) ≡ none)
strcpy_lem s rest dst t = (strcpy_fits s rest dst t, strcpy_overrun s rest dst t)

-- The padding: the source stays at its terminator.
strncpy_pad :
    (size : ℕ) (rest dst : List ℕ)
    → size ≤ length dst
    → strncpy dst (0 ∷ rest) size ≡ some (replicate size 0 ++ drop size dst)
unfolding strncpy
strncpy_pad zero rest dst h = refl
strncpy_pad (suc size) rest [] h = absurd (omega arith)
strncpy_pad (suc size) rest (d ∷ dst) h = ground (arith, strncpy_pad size rest dst)

-- `strncpy` writes exactly `size` bytes: the string cut to `size`, then zeros; with no terminator
-- if the string is not shorter than `size`.
pub strncpy_lem :
    (s rest dst : List ℕ) (size : ℕ)
    → IsText s
    → size ≤ length dst
    → strncpy dst (terminated s rest) size
      ≡ some (take size s ++ (replicate (size - length s) 0 ++ drop size dst))
unfolding strncpy
strncpy_lem s rest dst zero t h = ground arith
strncpy_lem [] rest dst (suc size) t h = ground (arith, strncpy_pad (suc size) rest dst h)
strncpy_lem (c ∷ s) rest [] (suc size) t h = absurd (omega arith)
strncpy_lem (c ∷ s) rest (d ∷ dst) (suc size) t h = ground (arith, strncpy_lem s rest dst size t.1)

strlcpy_loop_lem :
    (s rest dst : List ℕ) (size : ℕ)
    → IsText s
    → size < length dst
    → strlcpy_loop dst (terminated s rest) size
      ≡ some (min size (length s), take size s ++ (0 ∷ drop (suc (min size (length s))) dst))
unfolding strlcpy_loop
strlcpy_loop_lem s rest [] size t h = absurd (omega arith)
strlcpy_loop_lem s rest (d ∷ dst) zero t h = let e : min 0 (length s) ≡ 0 = omega arith in rw e
strlcpy_loop_lem [] rest (d ∷ dst) (suc size) t h = ground arith
strlcpy_loop_lem (c ∷ s) rest (d ∷ dst) (suc size) t h =
    ground (arith, strlcpy_loop_lem s rest dst size t.1)

-- `strlcpy` into an array of at least `size > 0` bytes writes the string cut to `size - 1`
-- characters, always terminated, and returns how many it copied; with `size` 0 it writes nothing.
pub strlcpy_lem :
    (s rest dst : List ℕ) (size : ℕ)
    → IsText s
    → size < length dst
    → (strlcpy dst (terminated s rest) (suc size)
        ≡ some (min size (length s), take size s ++ (0 ∷ drop (suc (min size (length s))) dst)))
      × (strlcpy dst (terminated s rest) 0 ≡ some (0, dst))
unfolding strlcpy
strlcpy_lem s rest dst size t h = (strlcpy_loop_lem s rest dst size t h, refl)
