-- ===== src/Str/Scan.antt =====
-- strchr, strfind and memfind find the first occurrence.
use jos_vmx.Base.{
  ℕ, zero, suc, ◌%◌, ◌^◌, ◌≤◌, ◌<◌, ◌≡◌, ◌≢◌, refl, some, none, List, [], ◌∷◌, ◌==◌, arith,
  if◌then◌else◌, length, take, get_or,
}
use jos_vmx.Str.{strchr, strfind, memfind}
use jos_vmx.Str.Compare.{IsText, terminated}

-- `k` is the position of the first `c` in `s`, or the length of `s` if there is none.
pub record IsFirst (s : List ℕ) (c k : ℕ) : Type 0 where
  pub inside : k ≤ length s
  pub before : (i : ℕ) → i < k → get_or s i 0 ≢ c
  pub here : k < length s → get_or s k 0 ≡ c

index_of : List ℕ → ℕ → ℕ
index_of [] c = 0
index_of (a ∷ s) c = if a == c then 0 else suc (index_of s c)

index_of-IsFirst : (s : List ℕ) (c : ℕ) → IsFirst s c (index_of s c)
unfolding index_of
index_of-IsFirst [] c = record {
  inside = omega arith;
  before = λ i h. elim h [ ];
  here = λ h. elim h [ ];
}
index_of-IsFirst (a ∷ s) c =
    let ih = index_of-IsFirst s c in
    record {
      inside = ground (arith, ih.inside);
      before = elim [ zero ↦ λ h. ground arith | suc i ↦ λ h. ground (arith, ih.before i) ];
      here = λ h. ground (arith, ih.here);
    }

strfind-index_of :
    (s rest : List ℕ) (c : ℕ) → IsText s → strfind (terminated s rest) c ≡ some (index_of s c)
unfolding strfind index_of
strfind-index_of [] rest c t = refl
strfind-index_of (a ∷ s) rest c t = ground (arith, strfind-index_of s rest c t.1)

strchr-index_of :
    (s rest : List ℕ) (c : ℕ)
    → IsText s
    → strchr (terminated s rest) c
      ≡ some (if index_of s c == length s then none else some (index_of s c))
unfolding strchr index_of
strchr-index_of [] rest c t = refl
strchr-index_of (a ∷ s) rest c t = ground (arith, strchr-index_of s rest c t.1)

memfind-index_of :
    (s : List ℕ) (c n : ℕ) → n ≤ length s → memfind s c n ≡ some (index_of (take n s) (c % 2 ^ 8))
unfolding memfind index_of
memfind-index_of s c zero h = refl
memfind-index_of [] c (suc n) h = elim h [ ]
memfind-index_of (a ∷ s) c (suc n) h = ground (arith, memfind-index_of s c n)

-- `strfind` returns the position of the first `c` in the string, or that of its terminator;
-- `strchr` returns the same position, or null in place of the terminator's.
pub strfind_lem :
    (s rest : List ℕ) (c : ℕ)
    → IsText s
    → (k : ℕ) × IsFirst s c k
      × (strfind (terminated s rest) c ≡ some k)
      × (strchr (terminated s rest) c ≡ some (if k == length s then none else some k))
strfind_lem s rest c t =
    (index_of s c, index_of-IsFirst s c, strfind-index_of s rest c t, strchr-index_of s rest c t)

-- `memfind` returns the position of the first byte equal to the low byte of `c` among the first
-- `n`, or `n`.
pub memfind_lem :
    (s : List ℕ) (c n : ℕ)
    → n ≤ length s
    → (k : ℕ) × IsFirst (take n s) (c % 2 ^ 8) k × (memfind s c n ≡ some k)
memfind_lem s c n h = (
  index_of (take n s) (c % 2 ^ 8),
  index_of-IsFirst (take n s) (c % 2 ^ 8),
  memfind-index_of s c n h,
)
