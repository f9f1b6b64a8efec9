-- ===== src/Fmt/Tests.antt =====
-- The laws of formatted output at short formats.
use jos_vmx.Base.{
  ℕ, ◌-◌, ◌%◌, ◌^◌, ◌≡◌, refl, none, some, List, [], ◌∷◌, ◌++◌, arith, ltb, ◌==◌, if◌then◌else◌,
  length, replicate, get_or,
}
use jos_vmx.Base.Int.{pos, negsuc}
use jos_vmx.Fmt.{printnum, vprintfmt}
use jos_vmx.Fmt.Number.{IsNumeral, printnum_lem}
use jos_vmx.Fmt.Buffer.{vsnprintf, vsnprintf_lem}

printnum_lem_example :
    (ds : List ℕ) × (printnum 3 16 255 5 48 ≡ some (replicate (5 - length ds) 48 ++ ds))
    × IsNumeral 16 255 ds
printnum_lem_example = printnum_lem 16 (omega arith) (omega arith) 2 255 5 48 (omega arith)

prints_abc : vprintfmt 9 (97 ∷ 98 ∷ 99 ∷ 0 ∷ []) [] ≡ some (97 ∷ 98 ∷ 99 ∷ [])
unfolding vprintfmt
prints_abc = refl

-- Two of the three characters fit.
vsnprintf_lem_example :
    ((array : List ℕ) × (vsnprintf 9 (some (7 ∷ 7 ∷ 7 ∷ 7 ∷ [])) (pos 3) (97 ∷ 98 ∷ 99 ∷ 0 ∷ []) []
        ≡ some (pos 3, some array))
      × (get_or array 2 0
          ≡ (if ltb 2 2 then get_or (97 ∷ 98 ∷ 99 ∷ []) 2 0 % 2 ^ 8 else if 2 == 2 then 0 else 7)))
    × (vsnprintf 9 (some (7 ∷ 7 ∷ 7 ∷ 7 ∷ [])) (pos 0) (97 ∷ 98 ∷ 99 ∷ 0 ∷ []) []
        ≡ some (negsuc 2, some (7 ∷ 7 ∷ 7 ∷ 7 ∷ [])))
    × (vsnprintf 9 (some (7 ∷ 7 ∷ 7 ∷ 7 ∷ [])) (negsuc 2) (97 ∷ 98 ∷ 99 ∷ 0 ∷ []) []
        ≡ some (negsuc 2, some (7 ∷ 7 ∷ 7 ∷ 7 ∷ [])))
    × (vsnprintf 9 none (pos 2) (97 ∷ 98 ∷ 99 ∷ 0 ∷ []) [] ≡ some (negsuc 2, none))
vsnprintf_lem_example =
    vsnprintf_lem 9 2 (7 ∷ 7 ∷ 7 ∷ 7 ∷ []) (97 ∷ 98 ∷ 99 ∷ 0 ∷ []) (97 ∷ 98 ∷ 99 ∷ []) [] 2
      prints_abc (omega arith)
