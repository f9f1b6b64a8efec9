-- ===== src/Str.antt =====
-- lib/string.c. A `const char *` is the list of the bytes from it to the end of its array, and
-- `none` is a read or a write past that end. A pointer that a function returns is the offset from
-- its argument. Lengths are below 2^31, so the counters do not wrap.
pub mod Copy
pub mod Move
pub mod Compare
pub mod Scan
pub mod Number
mod Tests
use mathlib.Core.Option
use jos_vmx.Base.{
  ℕ, zero, suc, ◌+◌, ◌-◌, ◌%◌, ◌^◌, Option, none, some, Bool, true, false, ◌&&◌, not, List, [], ◌∷◌,
  ◌==◌, if◌then◌else◌,
}
use jos_vmx.Base.Int.{ℤ, pos, sub_ℕ}

abbrev pub bump : Option ℕ → Option ℕ
bump none = none
bump (some n) = some (suc n)

unfoldable pub strlen : List ℕ → Option ℕ
strlen [] = none
strlen (c ∷ s) = if c == 0 then some 0 else bump (strlen s)

unfoldable pub strnlen : List ℕ → ℕ → Option ℕ
strnlen s zero = some 0
strnlen [] (suc size) = none
strnlen (c ∷ s) (suc size) = if c == 0 then some 0 else bump (strnlen s size)

unfoldable pub strcmp : List ℕ → List ℕ → Option ℤ
strcmp [] q = none
strcmp (a ∷ p) [] = none
strcmp (a ∷ p) (b ∷ q) = if not (a == 0) && a == b then strcmp p q else some (sub_ℕ a b)

unfoldable pub strncmp : List ℕ → List ℕ → ℕ → Option ℤ
strncmp p q zero = some (pos 0)
strncmp [] q (suc n) = none
strncmp (a ∷ p) [] (suc n) = none
strncmp (a ∷ p) (b ∷ q) (suc n) = if not (a == 0) && a == b then strncmp p q n else some (sub_ℕ a b)

abbrev pub further : Option (Option ℕ) → Option (Option ℕ)
further none = none
further (some none) = some none
further (some (some n)) = some (some (suc n))

-- The inner `none` is the null pointer.
unfoldable pub strchr : List ℕ → ℕ → Option (Option ℕ)
strchr [] c = none
strchr (a ∷ s) c =
    if a == 0 then some none else if a == c then some (some 0) else further (strchr s c)

unfoldable pub strfind : List ℕ → ℕ → Option ℕ
strfind [] c = none
strfind (a ∷ s) c = if a == 0 then some 0 else if a == c then some 0 else bump (strfind s c)

unfoldable pub memcmp : List ℕ → List ℕ → ℕ → Option ℤ
memcmp s t zero = some (pos 0)
memcmp [] t (suc n) = none
memcmp (a ∷ s) [] (suc n) = none
memcmp (a ∷ s) (b ∷ t) (suc n) = if a == b then memcmp s t n else some (sub_ℕ a b)

unfoldable pub memfind : List ℕ → ℕ → ℕ → Option ℕ
memfind s c zero = some 0
memfind [] c (suc n) = none
memfind (a ∷ s) c (suc n) = if a == c % 2 ^ 8 then some 0 else bump (memfind s c n)
