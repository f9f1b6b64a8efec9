-- ===== src/Str/Compare.antt =====
-- strcmp, strncmp and memcmp decide equality, and their sign is the order of the first difference.
use jos_vmx.Base.{
  ℕ, zero, suc, ◌≡◌, ◌≢◌, ◌↔◌, refl, some, List, [], ◌∷◌, ◌++◌, arith, take, length, ◌≤◌, min,
}
use jos_vmx.Base.Int.{pos, sub_ℕ}
use jos_vmx.Str.{strlen, strnlen, strcmp, memcmp}

-- The characters of a string: no byte is 0.
abbrev pub IsText : List ℕ → Type 0
IsText [] = Unit
IsText (c ∷ s) = (c ≢ 0) × IsText s

-- The string `s` in an array, with what follows its terminator.
abbrev pub terminated : List ℕ → List ℕ → List ℕ
terminated s rest = s ++ (0 ∷ rest)

pub strlen_lem : (s rest : List ℕ) → IsText s → strlen (terminated s rest) ≡ some (length s)
unfolding strlen
strlen_lem [] rest t = refl
strlen_lem (c ∷ s) rest t = ground (arith, strlen_lem s rest t.1)

-- `strlen` counts the characters before the terminator; `strnlen` stops at `size`, and does not
-- read the byte at `size`.
pub strnlen_lem :
    (s rest : List ℕ) (size : ℕ)
    → IsText s
    → (strlen (terminated s rest) ≡ some (length s))
      × (strnlen (terminated s rest) size ≡ some (min size (length s)))
      × (size ≤ length s → strnlen s size ≡ some size)
unfolding strnlen
strnlen_lem s rest size t = (strlen_lem s rest t, counted s size t, inside s size t)
  where
    counted :
        (s : List ℕ) (size : ℕ)
        → IsText s
        → strnlen (terminated s rest) size ≡ some (min size (length s))
    counted s zero t = ground arith
    counted [] (suc n) t = ground arith
    counted (c ∷ s) (suc n) t = ground (arith, counted s n t.1)

    inside : (s : List ℕ) (size : ℕ) → IsText s → size ≤ length s → strnlen s size ≡ some size
    inside s zero t h = ground arith
    inside [] (suc n) t h = elim h [ ]
    inside (c ∷ s) (suc n) t h = ground (arith, inside s n t.1)

strcmp→eq :
    (s t u v : List ℕ)
    → IsText s
    → IsText t
    → strcmp (terminated s u) (terminated t v) ≡ some (pos 0)
    → s ≡ t
unfolding strcmp
strcmp→eq [] [] u v a b e = refl
strcmp→eq [] (d ∷ t) u v a b e = ground arith
strcmp→eq (c ∷ s) [] u v a b e = ground arith
strcmp→eq (c ∷ s) (d ∷ t) u v a b e = ground (arith, strcmp→eq s t u v a.1 b.1)

strcmp_self : (s u v : List ℕ) → IsText s → strcmp (terminated s u) (terminated s v) ≡ some (pos 0)
unfolding strcmp
strcmp_self [] u v a = refl
strcmp_self (c ∷ s) u v a = ground (arith, strcmp_self s u v a.1)

-- Two strings compare equal exactly when they have the same characters.
pub strcmp_iff :
    (s t u v : List ℕ)
    → IsText s
    → IsText t
    → (strcmp (terminated s u) (terminated t v) ≡ some (pos 0)) ↔ (s ≡ t)
strcmp_iff s t u v a b = (strcmp→eq s t u v a b, λ e. rw (← e) (strcmp_self s u v a))

-- Behind a common prefix the first byte that differs decides, terminators included.
pub strcmp_first_difference :
    (s p q : List ℕ) (c d : ℕ)
    → IsText s
    → c ≢ d
    → strcmp (s ++ (c ∷ p)) (s ++ (d ∷ q)) ≡ some (sub_ℕ c d)
unfolding strcmp
strcmp_first_difference [] p q c d a ne = ground arith
strcmp_first_difference (x ∷ s) p q c d a ne =
    ground (arith, strcmp_first_difference s p q c d a.1 ne)

-- `memcmp` of `n` bytes in both arrays is 0 exactly when those bytes agree.
pub memcmp_iff :
    (s t : List ℕ) (n : ℕ)
    → n ≤ length s
    → n ≤ length t
    → (memcmp s t n ≡ some (pos 0)) ↔ (take n s ≡ take n t)
unfolding memcmp
memcmp_iff s t zero h k = (λ e. refl, λ e. refl)
memcmp_iff [] t (suc n) h k = elim h [ ]
memcmp_iff (a ∷ s) [] (suc n) h k = elim k [ ]
memcmp_iff (a ∷ s) (b ∷ t) (suc n) h k =
    let ih = memcmp_iff s t n (omega arith) (omega arith) in
    (λ e. ground (arith, ih.0), λ e. ground (arith, ih.1))
