-- ===== src/Str/Tests.antt =====
-- The laws of lib/string.c at short strings.
use jos_vmx.Base.{ℕ, ◌≤◌, ◌⊎◌, ◌≡◌, List, [], ◌∷◌, arith}
use jos_vmx.Str.Compare.{IsText}
use jos_vmx.Str.Move.{memcpy, memmove, copied, memmove_lem}

abbrev ab : List ℕ
ab = 97 ∷ 98 ∷ []

ab-IsText : IsText ab
ab-IsText = (omega arith, (omega arith, _))

memmove_lem_example :
    (memmove (λ a. a) 3 2 4 5 ≡ copied (λ a. a) 3 2 4 5)
    × ((3 ≤ 2) ⊎ (6 ≤ 3) → memcpy (λ a. a) 3 2 4 5 ≡ memmove (λ a. a) 3 2 4 5)
memmove_lem_example = memmove_lem (λ a. a) 3 2 4 5
