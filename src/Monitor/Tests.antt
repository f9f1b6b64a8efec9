-- ===== src/Monitor/Tests.antt =====
-- The monitor at a short line.
use jos_vmx.Base.{ℕ, none, some, update, ◌≡◌, ◌≢◌, refl, List, [], ◌∷◌, arith}
use jos_vmx.Base.Int.{negsuc}
use jos_vmx.Kdebug.{Stab}
use jos_vmx.Kdebug.Eip.{Eipdebuginfo, initial, debuginfo_eip, bad_strings}
use jos_vmx.Monitor.Backtrace.{slot, mon_backtrace, AllKnown, shown_frames}
use jos_vmx.Monitor.Backtrace.Frames.{mon_backtrace_lem}
use jos_vmx.Monitor.Readline.{readline, expected, ReturnsLine, readline-Returns}
use jos_vmx.Monitor.Parse.{args, parse, render, IsLayout, parse_lem}
use jos_vmx.Monitor.Command.{Command, name_of, called, unknown, empty, runcmd, runcmd_lem}

readline-Returns_example :
    ReturnsLine
      (readline 0 none (97 ∷ 98 ∷ 8 ∷ 10 ∷ []) (λ i. 7))
      (expected 0 (97 ∷ 98 ∷ 8 ∷ 10 ∷ []))
readline-Returns_example = readline-Returns 0 none (97 ∷ 98 ∷ 8 ∷ 10 ∷ []) (λ i. 7)

-- ` ab c`
abbrev layout : List (List ℕ × List ℕ)
layout = (32 ∷ [], 97 ∷ 98 ∷ []) ∷ (32 ∷ [], 99 ∷ []) ∷ []

cons_ne : (c : ℕ) (s : List ℕ) → c ∷ s ≢ []
cons_ne c s = λ e. ground arith

layout-IsLayout : IsLayout layout
layout-IsLayout = (
  (refl, _),
  ((omega arith, refl, (omega arith, refl, _)), cons_ne 97 (98 ∷ [])),
  cons_ne 32 [],
  ((refl, _), ((omega arith, refl, _), cons_ne 99 []), _, _),
)

parse_lem_example : parse (render layout (9 ∷ 0 ∷ [])) ≡ args ((97 ∷ 98 ∷ []) ∷ (99 ∷ []) ∷ [])
parse_lem_example = parse_lem layout (9 ∷ []) [] layout-IsLayout (refl, _)

runcmd_lem_example :
    ((cmd : Command)
      → 97 ∷ 98 ∷ [] ≡ name_of cmd
      → runcmd (render layout (9 ∷ 0 ∷ [])) ≡ called cmd)
    × (((cmd : Command) → 97 ∷ 98 ∷ [] ≢ name_of cmd)
        → runcmd (render layout (9 ∷ 0 ∷ [])) ≡ unknown (97 ∷ 98 ∷ []))
    × (runcmd (9 ∷ 0 ∷ []) ≡ empty)
runcmd_lem_example =
    runcmd_lem (32 ∷ []) (97 ∷ 98 ∷ []) ((32 ∷ [], 99 ∷ []) ∷ []) (9 ∷ []) [] layout-IsLayout
      (refl, _) (omega arith, (omega arith, _)) (omega arith)

-- Two frames, at 0xf0107f00 and 0xf0107f40, and a table of strings that is not there.
abbrev stack : ℕ → ℕ
stack =
    update (update (update (λ a. 0) 0xf010_7f00 0xf010_7f40) 0xf010_7f04 0xf010_0010) 0xf010_7f44
      0xf010_0abc

abbrev no_stabs : ℕ → Stab
no_stabs i = record { n_strx = 0; n_type = 0; n_other = 0; n_desc = 0; n_value = 0 }

abbrev nothing_known : ℕ → Eipdebuginfo
nothing_known f = initial (slot no_stabs 0 [] stack f 4)

frames_known : AllKnown no_stabs 0 [] stack nothing_known (0xf010_7f00 ∷ 0xf010_7f40 ∷ [])
unfolding debuginfo_eip bad_strings
frames_known = (
  record { code = negsuc 0; returns = refl; named = omega arith },
  (record { code = negsuc 0; returns = refl; named = omega arith }, _),
)

mon_backtrace_lem_example :
    mon_backtrace no_stabs 0 [] stack 3 0xf010_7f00
    ≡ some (
        ("Stack backtrace:\n", [])
        ∷ shown_frames no_stabs 0 [] stack nothing_known 0 (0xf010_7f00 ∷ 0xf010_7f40 ∷ []))
mon_backtrace_lem_example =
    mon_backtrace_lem no_stabs 0 [] stack nothing_known (0xf010_7f00 ∷ 0xf010_7f40 ∷ []) 0xf010_7f00
      (refl, omega arith, (refl, omega arith, refl)) frames_known (omega arith)
