-- ===== src/Fmt/Call.antt =====
-- kern/printf.c: cprintf, as a call that another part makes: a format and its arguments.
use Prim.Native.String.{String}
use jos_vmx.Base.{ℕ, suc, Option, none, some, List, [], ◌∷◌, ◌++◌, length}
use jos_vmx.Fmt.{Arg, codes, prefixed, vprintfmt}

abbrev pub Call : Type 0
Call = String × List Arg

-- The bytes of the format with its terminator.
abbrev pub text : String → List ℕ
text fmt = codes fmt ++ (0 ∷ [])

-- The characters that a call prints; a fuel of one more than the length of the format is enough.
unfoldable pub cprintf : Call → Option (List ℕ)
cprintf (fmt, ap) = vprintfmt (suc (length (text fmt))) (text fmt) ap

-- The characters that calls one after the other print.
unfoldable pub printed : List Call → Option (List ℕ)
unfolding cprintf
printed [] = some []
printed (call ∷ more) =
    let rest = printed more in elim (cprintf call) [ none ↦ none | some out ↦ prefixed out rest ]
