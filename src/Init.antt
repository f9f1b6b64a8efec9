-- ===== src/Init.antt =====
-- kern/init.c: _panic and _warn, and the part of i386_init that sets up memory.
use Prim.Native.String.{String}
use jos_vmx.Base.{ℕ, ◌≡◌, ◌≢◌, refl, Bool, Option, none, some, List, [], ◌∷◌, ◌++◌}
use jos_vmx.Fmt.{Arg, word, str}
use jos_vmx.Fmt.Call.{Call, text}
use jos_vmx.Pmap.{M, pure, ◌>>=◌, ◌>>◌}
use jos_vmx.Pmap.Boot.{page_init}
use jos_vmx.Pmap.Segment.{boot_mem_init}
use jos_vmx.Pmap.Selftest.{page_check}
use jos_vmx.Monitor.Command.{Monitored, left, monitor, monitor_stays}

-- The format of the first panic, and what has been printed.
pub record Messages : Type 0 where
  pub panicstr : Option String
  pub out : List Call

-- Where a message comes from, with its format and arguments.
pub record Message : Type 0 where
  pub file : String
  pub line : ℕ
  pub fmt : String
  pub args : List Arg

abbrev pub message_calls : String → Message → List Call
message_calls heading a =
    (heading, str (some (text a.file)) ∷ word a.line ∷ []) ∷ (a.fmt, a.args) ∷ ("\n", []) ∷ []

-- The part of `_panic` before its loop.
unfoldable pub record_panic : Message → Messages → Messages
record_panic a s = elim s.panicstr [
  | some first ↦ s
  | none ↦ record {
    panicstr = some a.fmt;
    out = s.out ++ message_calls "kernel panic at %s:%d: " a;
  }
]

-- The loop of `_panic` calls the monitor again when it returns; the result is how the first call
-- stands after the lines that are typed. Whether mon_backtrace returns is a parameter.
unfoldable pub panic : Bool → Message → Messages → List (List ℕ) → Messages × Monitored
panic backtrace_returns a s lines = (record_panic a s, monitor backtrace_returns none lines)

unfoldable pub warn : Message → Messages → Messages
warn a s = record s { out = s.out ++ message_calls "kernel warning at %s:%d: " a }

-- A panic prints its message, and the monitor that it enters never returns; a second panic, such as
-- one from the monitor, prints nothing and changes nothing.
pub panic_lem :
    (b : Bool) (a a' : Message) (s : Messages) (lines rest : List (List ℕ))
    → s.panicstr ≡ none
    → ((panic b a s lines).0.out ≡ s.out ++ message_calls "kernel panic at %s:%d: " a)
      × ((panic b a s lines).1 ≢ left rest)
      × ((panic b a' (panic b a s lines).0 lines).0 ≡ (panic b a s lines).0)
unfolding panic record_panic
panic_lem b a a' s lines rest e = rw e (refl, monitor_stays b lines rest, refl)

-- boot_mem_init, page_init and page_check, with the directory of the first.
unfoldable pub start_memory : (end bootstack : ℕ) → (ℕ → ℕ) → M ℕ
start_memory end bootstack mc146818_read = do
  kern_pgdir ← boot_mem_init end bootstack mc146818_read
  page_init end
  page_check kern_pgdir
  pure kern_pgdir
