-- ===== src/Monitor/Backtrace.antt =====
-- kern/monitor.c: mon_backtrace. The stack is a function from an address to the word there, and the
-- register ebp a parameter; what is printed is the list of the calls of cprintf. A panic or a fault
-- of debuginfo_eip is `none`. The loop runs on fuel.
pub mod Frames
use jos_vmx.Base.{
  ℕ, zero, suc, ◌+◌, ◌-◌, ◌%◌, ◌^◌, ◌≤◌, ◌<◌, ◌≡◌, ◌≢◌, refl, ◌∙◌, ap, Option, none, some, Bool,
  true, false, List, [], ◌∷◌, ◌++◌, map, ◌==◌, if◌then◌else◌, length, take, arith,
}
use jos_vmx.Base.Int.{ℤ}
use jos_vmx.Fmt.{Arg, word, str, codes}
use jos_vmx.Fmt.Call.{Call}
use jos_vmx.Kdebug.{Stab}
use jos_vmx.Kdebug.Eip.{
  Name, Eipdebuginfo, Outcome, panicked, faulted, returned, text_of, debuginfo_eip,
}

abbrev pub joined : List Call → Option (List Call) → Option (List Call)
joined out none = none
joined out (some rest) = some (out ++ rest)

abbrev pub char_call : ℕ → Call
char_call c = ("%c", word c ∷ [])

-- The first `n` bytes of a name, each with a call of its own.
unfoldable pub name_calls : ℕ → List ℕ → Option (List Call)
name_calls zero name = some []
name_calls (suc n) [] = none
name_calls (suc n) (c ∷ name) = joined (char_call c ∷ []) (name_calls n name)

module _ (stabs : ℕ → Stab) (count : ℕ) (stabstr : List ℕ) (stack : ℕ → ℕ) where
  -- `*(ebp + k)`
  abbrev pub slot : ℕ → ℕ → ℕ
  slot ebp offset = stack ((ebp + offset) % 2 ^ 32)

  abbrev pub frame_call : ℕ → ℕ → Call
  frame_call index ebp = (
    "%d: ebp %08x  eip %08x  args %08x %08x %08x %08x\n",
    word index
        ∷ word ebp
        ∷ word (slot ebp 4)
        ∷ word (slot ebp 8)
        ∷ word (slot ebp 12)
        ∷ word (slot ebp 16)
        ∷ word (slot ebp 20)
        ∷ [],
  )

  abbrev pub file_call : Eipdebuginfo → Call
  file_call info =
      ("%s:%d: ", str (some (text_of stabs count stabstr info.eip_file)) ∷ word info.eip_line ∷ [])

  abbrev pub offset_calls : ℕ → Eipdebuginfo → List Call
  offset_calls ebp info =
      ("+%x ", word ((slot ebp 4 + 2 ^ 32 - info.eip_fn_addr) % 2 ^ 32) ∷ [])
      ∷ ("(%d arg)\n", word info.eip_fn_narg ∷ [])
      ∷ []

  -- The body of the loop behind debuginfo_eip.
  unfoldable pub frame_calls : ℕ → ℕ → Eipdebuginfo → Option (List Call)
  frame_calls index ebp info =
      elim (name_calls info.eip_fn_namelen (text_of stabs count stabstr info.eip_fn_name)) [
        | none ↦ none
        | some name ↦ some (frame_call index ebp ∷ file_call info ∷ (name ++ offset_calls ebp info))
      ]

  abbrev described : ℕ → ℕ → Outcome → Option (List Call)
  described index ebp panicked = none
  described index ebp faulted = none
  described index ebp (returned code info) = frame_calls index ebp info

  abbrev followed : Option (List Call) → Option (List Call) → Option (List Call)
  followed none rest = none
  followed (some out) rest = joined out rest

  -- The loop from the frame at `ebp` on.
  unfoldable pub backtrace_from : ℕ → ℕ → ℕ → Option (List Call)
  backtrace_from zero index ebp = none
  backtrace_from (suc fuel) index ebp =
      let rest = backtrace_from fuel ((index + 1) % 2 ^ 32) (stack ebp) in
      if ebp == 0
      then some []
      else followed (described index ebp (debuginfo_eip stabs count stabstr (slot ebp 4))) rest

  unfoldable pub mon_backtrace : ℕ → ℕ → Option (List Call)
  mon_backtrace fuel ebp = joined (("Stack backtrace:\n", []) ∷ []) (backtrace_from fuel 0 ebp)

  -- The saved values of ebp are `frames`, the innermost first, and end with 0.
  abbrev pub IsChain : ℕ → List ℕ → Type 0
  IsChain ebp [] = ebp ≡ 0
  IsChain ebp (f ∷ more) = (ebp ≡ f) × (f ≢ 0) × IsChain (stack f) more

  module _ (info : ℕ → Eipdebuginfo) where
    -- debuginfo_eip returns, with `info`, for the return address of the frame at `f`, and the name is
    -- at least as long as it says.
    pub record IsKnown (f : ℕ) : Type 0 where
      pub code : ℤ
      pub returns : debuginfo_eip stabs count stabstr (slot f 4) ≡ returned code (info f)
      pub named :
          (info f).eip_fn_namelen ≤ length (text_of stabs count stabstr (info f).eip_fn_name)

    abbrev pub AllKnown : List ℕ → Type 0
    AllKnown [] = Unit
    AllKnown (f ∷ more) = IsKnown f × AllKnown more

    -- What the backtrace shows of the frames, with their numbers from `index` on.
    abbrev pub shown_frames : ℕ → List ℕ → List Call
    shown_frames index [] = []
    shown_frames index (f ∷ more) =
        (frame_call index f
          ∷ file_call (info f)
          ∷ (map char_call
                (take (info f).eip_fn_namelen (text_of stabs count stabstr (info f).eip_fn_name))
              ++ offset_calls f (info f)))
        ++ shown_frames (index + 1) more
