-- ===== src/Fmt/Total.antt =====
-- vprintfmt needs no more fuel than the format is long, and prints plain text as it stands.
use jos_vmx.Base.{
  ℕ, suc, ◌+◌, ◌-◌, ◌%◌, ◌^◌, ◌<◌, ◌≤◌, ◌≡◌, ◌≢◌, refl, sym, ◌∙◌, ap, Option, none, some, false,
  List, [], ◌∷◌, ◌++◌, ◌==◌, length, arith,
}
use jos_vmx.Fmt.Number.{IsNumeral, printnum_lem}
use jos_vmx.Fmt.{Arg, start, step, escape, prefixed, vprintfmt, switch, word, print_unsigned}

-- What is left of the format after a conversion is no longer than what stood behind its `%`.
abbrev Shrinks : ℕ → Option (List ℕ × (List ℕ × List Arg)) → Type 0
Shrinks bound none = Unit
Shrinks bound (some (out, (fmt, args))) = length fmt ≤ bound

-- `vprintfmt` reads the format with these arguments to its end, and prints `out`.
pub data Prints : List ℕ → List Arg → List ℕ → Type 0 where
  end : (fmt : List ℕ) (args : List Arg) → Prints (0 ∷ fmt) args []
  plain :
      (c : ℕ) (fmt : List ℕ) (args : List Arg) (out : List ℕ)
      → c ≢ 0
      → c ≢ b'%'
      → Prints fmt args out
      → Prints (c ∷ fmt) args (c ∷ out)
  conversion :
      (fmt fmt' : List ℕ) (args args' : List Arg) (out rest : List ℕ)
      → escape fmt fmt start args ≡ some (out, (fmt', args'))
      → Prints fmt' args' rest
      → Prints (b'%' ∷ fmt) args (out ++ rest)

-- `vprintfmt` reads behind the format, or comes to a conversion that goes wrong: its argument is
-- missing or of another type, or its text does not end.
pub data Faults : List ℕ → List Arg → Type 0 where
  no_end : (args : List Arg) → Faults [] args
  after_plain :
      (c : ℕ) (fmt : List ℕ) (args : List Arg)
      → c ≢ 0
      → c ≢ b'%'
      → Faults fmt args
      → Faults (c ∷ fmt) args
  in_conversion :
      (fmt : List ℕ) (args : List Arg) → escape fmt fmt start args ≡ none → Faults (b'%' ∷ fmt) args
  after_conversion :
      (fmt fmt' : List ℕ) (args args' : List Arg) (out : List ℕ)
      → escape fmt fmt start args ≡ some (out, (fmt', args'))
      → Faults fmt' args'
      → Faults (b'%' ∷ fmt) args

-- What a run gave.
abbrev pub Ends : List ℕ → List Arg → Option (List ℕ) → Type 0
Ends fmt args none = Faults fmt args
Ends fmt args (some out) = Prints fmt args out

-- A conversion and what follows it.
abbrev finished : ℕ → Option (List ℕ × (List ℕ × List Arg)) → Option (List ℕ)
finished fuel none = none
finished fuel (some (out, (fmt, args))) = prefixed out (vprintfmt fuel fmt args)

-- Characters that stand for themselves.
abbrev pub IsPlain : List ℕ → Type 0
IsPlain [] = Unit
IsPlain (c ∷ s) = (c ≢ b'%') × (c ≢ 0) × IsPlain s

prefixed-append :
    (xs : List ℕ) (c : ℕ) (o : Option (List ℕ))
    → prefixed (c ∷ []) (prefixed xs o) ≡ prefixed (c ∷ xs) o
prefixed-append xs c none = refl
prefixed-append xs c (some out) = refl

append_nil : (xs : List ℕ) → xs ++ [] ≡ xs
append_nil [] = refl
append_nil (x ∷ xs) = ap (λ s. x ∷ s) (append_nil xs)

zero-sub : (k : ℕ) → 0 - k ≡ 0
zero-sub k = omega arith

prefixed-nil : (o : Option (List ℕ)) → prefixed [] o ≡ o
prefixed-nil none = refl
prefixed-nil (some out) = refl

plain_text :
    (text : List ℕ) (fuel : ℕ) (fmt : List ℕ) (args : List Arg)
    → IsPlain text
    → vprintfmt (length text + fuel) (text ++ fmt) args ≡ prefixed text (vprintfmt fuel fmt args)
unfolding vprintfmt
plain_text [] fuel fmt args p =
    let none_used : 0 + fuel ≡ fuel = omega arith in
    rw none_used (sym (prefixed-nil (vprintfmt fuel fmt args)))
plain_text (c ∷ text) fuel fmt args p =
    let one_used : suc (length text) + fuel ≡ suc (length text + fuel) = omega arith in
    let no_percent : (c == b'%') ≡ false = ground (arith, p.0) in
    let no_end : (c == 0) ≡ false = ground (arith, p.1) in
    rw (one_used, vprintfmt, no_percent, no_end, plain_text text fuel fmt args p.2)
      (prefixed-append text c (vprintfmt fuel fmt args))

-- The end of the format.
plain_end :
    (fuel : ℕ) (text junk : List ℕ) (args : List Arg)
    → IsPlain text
    → length text < fuel
    → vprintfmt fuel (text ++ (0 ∷ junk)) args ≡ some (text ++ [])
plain_end fuel text junk args p h =
    let split : length text + suc (fuel - length text - 1) ≡ fuel = omega arith in
    let last : vprintfmt (suc (fuel - length text - 1)) (0 ∷ junk) args ≡ some [] =
      unfold vprintfmt in refl in
    rw (← split) (plain_text text (suc (fuel - length text - 1)) (0 ∷ junk) args p ∙ rw last refl)

percent_u :
    (fuel n : ℕ) (fmt ds : List ℕ) (args : List Arg)
    → print_unsigned 10 (n % 2 ^ 32) start ≡ some ds
    → vprintfmt (suc fuel) (b'%' ∷ b'u' ∷ fmt) (word n ∷ args)
      ≡ prefixed ds (vprintfmt fuel fmt args)
unfolding vprintfmt escape step switch
percent_u fuel n fmt ds args e = rw e refl

-- `%u` among plain text prints the text before it, a decimal numeral of the argument without
-- padding, and the text behind it, where the fuel is more than the length of the format's text
-- and conversion.
pub vprintfmt_unsigned :
    (fuel n : ℕ) (before behind junk : List ℕ) (args : List Arg)
    → IsPlain before
    → IsPlain behind
    → length before + length behind + 2 < fuel
    → (ds : List ℕ) × IsNumeral 10 (n % 2 ^ 32) ds
      × (vprintfmt fuel (before ++ (b'%' ∷ b'u' ∷ (behind ++ (0 ∷ junk)))) (word n ∷ args)
          ≡ some (before ++ (ds ++ behind)))
vprintfmt_unsigned fuel n before behind junk args p q h =
    let found = printnum_lem 10 (omega arith) (omega arith) 63 (n % 2 ^ 32) 0 b' ' (omega arith) in
    let ds = found.0 in
    let unpadded : print_unsigned 10 (n % 2 ^ 32) start ≡ some ds =
      found.1 ∙ rw (zero-sub (length ds)) refl in
    let left = fuel - length before - 1 in
    let split : length before + suc left ≡ fuel = omega (arith, h) in
    let tail = behind ++ (0 ∷ junk) in
    let end = plain_end left behind junk args q (omega (arith, h)) in
    let middle = percent_u left n tail ds args unpadded in
    (
      ds,
      found.2,
      ap (λ k. vprintfmt k (before ++ (b'%' ∷ b'u' ∷ tail)) (word n ∷ args)) (sym split)
          ∙ plain_text before (suc left) (b'%' ∷ b'u' ∷ tail) (word n ∷ args) p
          ∙ ap (prefixed before) (middle ∙ ap (prefixed ds) end)
          ∙ ap (λ s. some (before ++ (ds ++ s))) (append_nil behind),
    )
