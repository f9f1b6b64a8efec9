-- ===== src/Monitor/Command.antt =====
-- The second half of `runcmd`, the loop of `monitor`, and mon_exit of kern/monitor.c. What the other
-- commands print is in Monitor.Output and Monitor.Backtrace.
use jos_vmx.Base.{
  ℕ, zero, suc, ◌<◌, ◌≡◌, ◌≢◌, refl, ap, Option, none, some, Bool, true, false, List, [], ◌∷◌, ◌++◌,
  ◌==◌, if◌then◌else◌, arith, length, leb,
}
use jos_vmx.Base.Int.{ℤ, pos, negsuc}
use jos_vmx.Str.{strcmp}
use jos_vmx.Str.Compare.{IsText, terminated, strcmp_iff}
use jos_vmx.Monitor.Parse.{Parsed, args, too_many, parse, render, IsLayout, AllWhite, parse_lem}

-- The names of `commands`, in their order.
pub data Command : Type 0 where
  help : Command
  kerninfo : Command
  backtrace : Command
  exit : Command
  matrix : Command
  cpuid : Command

unfoldable pub name_of : Command → List ℕ
name_of help = b'h' ∷ b'e' ∷ b'l' ∷ b'p' ∷ []
name_of kerninfo = b'k' ∷ b'e' ∷ b'r' ∷ b'n' ∷ b'i' ∷ b'n' ∷ b'f' ∷ b'o' ∷ []
name_of backtrace = b'b' ∷ b'a' ∷ b'c' ∷ b'k' ∷ b't' ∷ b'r' ∷ b'a' ∷ b'c' ∷ b'e' ∷ []
name_of exit = b'e' ∷ b'x' ∷ b'i' ∷ b't' ∷ []
name_of matrix = b'm' ∷ b'a' ∷ b't' ∷ b'r' ∷ b'i' ∷ b'x' ∷ []
name_of cpuid = b'c' ∷ b'p' ∷ b'u' ∷ b'i' ∷ b'd' ∷ []

abbrev pub commands : List Command
commands = help ∷ kerninfo ∷ backtrace ∷ exit ∷ matrix ∷ cpuid ∷ []

-- `strcmp(argv[0], commands[i].name) == 0`
abbrev is_zero : Option ℤ → Bool
is_zero (some (pos n)) = n == 0
is_zero _ = false

unfoldable pub is_named : List ℕ → Command → Bool
is_named word cmd = is_zero (strcmp (terminated word []) (terminated (name_of cmd) []))

unfoldable pub lookup : List ℕ → List Command → Option Command
lookup word [] = none
lookup word (cmd ∷ more) =
    let rest = lookup word more in if is_named word cmd then some cmd else rest

-- `mon_exit`: whether it returns -1; `tf` is the number of the trap, if there is a frame.
unfoldable pub mon_exit : Option ℕ → Bool
mon_exit none = false
mon_exit (some trapno) = trapno == 3

-- What `runcmd` does with a line: which command it calls, and whether the monitor ends.
pub data Ran : Type 0 where
  refused : Ran
  empty : Ran
  unknown : List ℕ → Ran
  called : Command → Ran

abbrev by_name : List ℕ → Option Command → Ran
by_name word none = unknown word
by_name word (some cmd) = called cmd

abbrev pub choose : Parsed → Ran
choose too_many = refused
choose (args []) = empty
choose (args (word ∷ argv)) = by_name word (lookup word commands)

unfoldable pub runcmd : List ℕ → Ran
runcmd buf = choose (parse buf)

-- What a line does to the loop of `monitor`: it goes on, or ends, or the command does not return.
pub data Ended : Type 0 where
  goes_on leaves stuck : Ended

-- mon_matrix calls vt_main, whose vt_init panics in vmx_on. Whether mon_backtrace returns depends
-- on the stack (Monitor.Backtrace) and is a parameter.
abbrev pub ends : Bool → Option ℕ → Ran → Ended
ends backtrace_returns tf (called exit) = if mon_exit tf then leaves else goes_on
ends backtrace_returns tf (called matrix) = stuck
ends backtrace_returns tf (called backtrace) = if backtrace_returns then goes_on else stuck
ends backtrace_returns tf _ = goes_on

-- How the loop of `monitor` stands after the lines: it reads on, it has returned with these lines
-- left, or a command has not returned.
pub data Monitored : Type 0 where
  reading stopped : Monitored
  left : List (List ℕ) → Monitored

abbrev pub after_line : Ended → List (List ℕ) → Monitored → Monitored
after_line goes_on bufs rest = rest
after_line leaves bufs rest = left bufs
after_line stuck bufs rest = stopped

-- The loop of `monitor` over the lines that are read.
unfoldable pub monitor : Bool → Option ℕ → List (List ℕ) → Monitored
monitor backtrace_returns tf [] = reading
monitor backtrace_returns tf (buf ∷ bufs) =
    after_line (ends backtrace_returns tf (runcmd buf)) bufs (monitor backtrace_returns tf bufs)

-- Without a trap frame no line makes the monitor return.
pub monitor_stays :
    (backtrace_returns : Bool) (bufs rest : List (List ℕ))
    → monitor backtrace_returns none bufs ≢ left rest
unfolding monitor mon_exit
monitor_stays backtrace_returns [] rest e = ground (arith, e)
monitor_stays backtrace_returns (buf ∷ bufs) rest e =
    stays (runcmd buf) backtrace_returns (monitor backtrace_returns none bufs)
      (monitor_stays backtrace_returns bufs rest) e
  where
    stays :
        (r : Ran) (b : Bool) (m : Monitored)
        → m ≢ left rest
        → after_line (ends b none r) bufs m ≢ left rest
    stays refused b m ne = ne
    stays empty b m ne = ne
    stays (unknown word) b m ne = ne
    stays (called help) b m ne = ne
    stays (called kerninfo) b m ne = ne
    stays (called backtrace) true m ne = ne
    stays (called backtrace) false m ne = λ e. ground (arith, e)
    stays (called exit) b m ne = ne
    stays (called matrix) b m ne = λ e. ground (arith, e)
    stays (called cpuid) b m ne = ne

name_of-IsText : (cmd : Command) → IsText (name_of cmd)
unfolding name_of
name_of-IsText help = (omega arith, (omega arith, (omega arith, (omega arith, _))))
name_of-IsText kerninfo = (
  omega arith,
  (
    omega arith,
    (omega arith, (omega arith, (omega arith, (omega arith, (omega arith, (omega arith, _)))))),
  ),
)
name_of-IsText backtrace = (
  omega arith,
  (
    omega arith,
    (
      omega arith,
      (omega arith, (omega arith, (omega arith, (omega arith, (omega arith, (omega arith, _)))))),
    ),
  ),
)
name_of-IsText exit = (omega arith, (omega arith, (omega arith, (omega arith, _))))
name_of-IsText matrix =
    (omega arith, (omega arith, (omega arith, (omega arith, (omega arith, (omega arith, _))))))
name_of-IsText cpuid = (omega arith, (omega arith, (omega arith, (omega arith, (omega arith, _)))))

is_zero_ne : (r : Option ℤ) → r ≢ some (pos 0) → is_zero r ≡ false
is_zero_ne none ne = refl
is_zero_ne (some (negsuc n)) ne = refl
is_zero_ne (some (pos zero)) ne = absurd (ne refl)
is_zero_ne (some (pos (suc n))) ne = ground arith

is_named_ne :
    (word : List ℕ) (cmd : Command) → IsText word → word ≢ name_of cmd → is_named word cmd ≡ false
unfolding is_named
is_named_ne word cmd t ne =
    is_zero_ne (strcmp (terminated word []) (terminated (name_of cmd) []))
      (λ e. ne ((strcmp_iff word (name_of cmd) [] [] t (name_of-IsText cmd)).0 e))

lookup_none :
    (word : List ℕ) (cmds : List Command)
    → IsText word
    → ((cmd : Command) → word ≢ name_of cmd)
    → lookup word cmds ≡ none
unfolding lookup
lookup_none word [] t ne = refl
lookup_none word (cmd ∷ more) t ne =
    rw (is_named_ne word cmd t (ne cmd)) (lookup_none word more t ne)

lookup_name : (cmd : Command) → lookup (name_of cmd) commands ≡ some cmd
unfolding lookup is_named name_of strcmp
lookup_name help = refl
lookup_name kerninfo = refl
lookup_name backtrace = refl
lookup_name exit = refl
lookup_name matrix = refl
lookup_name cpuid = refl

-- A line of at most 15 words calls the command that its first word names, whatever blanks and
-- arguments it has; if no command has that name, the word is reported as unknown; and a line of
-- blanks does nothing.
pub runcmd_lem :
    (blanks word : List ℕ) (more : List (List ℕ × List ℕ)) (trail rest : List ℕ)
    → IsLayout ((blanks, word) ∷ more)
    → AllWhite trail
    → IsText word
    → length more < 15
    → let line = render ((blanks, word) ∷ more) (trail ++ (0 ∷ rest)) in
      ((cmd : Command) → word ≡ name_of cmd → runcmd line ≡ called cmd)
      × (((cmd : Command) → word ≢ name_of cmd) → runcmd line ≡ unknown word)
      × (runcmd (trail ++ (0 ∷ rest)) ≡ empty)
unfolding runcmd
runcmd_lem blanks word more trail rest l w t few =
    let parsed = parse_lem ((blanks, word) ∷ more) trail rest l w in
    let fits : leb (length ((blanks, word) ∷ more)) 15 ≡ true = ground (arith, few) in
    (
      λ cmd e.
          let named : lookup word commands ≡ some cmd = rw e (lookup_name cmd) in
          rw (parsed, fits) (ap (by_name word) named),
      λ ne.
          let unnamed = lookup_none word commands t ne in
          rw (parsed, fits) (ap (by_name word) unnamed),
      rw (parse_lem [] trail rest _ w) refl,
    )
