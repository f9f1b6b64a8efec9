-- ===== src/Trap/Dispatch.antt =====
-- `trap` calls the monitor for a breakpoint, and panics otherwise.
use native.Mathlib.Decide.{ℕ_discrete}
use jos_vmx.Base.{
  ℕ, ◌≡◌, ◌≢◌, ◌↔◌, ◌⊎◌, inl, inr, refl, ap, sym, ◌∙◌, Bool, Bool-cases, true, some, List, [], ◌∷◌,
  ◌++◌, arith,
}
use jos_vmx.Monitor.Command.{
  help, kerninfo, backtrace, exit, matrix, cpuid, Ran, refused, empty, unknown, called, Ended,
  goes_on, leaves, stuck, Monitored, reading, stopped, left, after_line, ends, runcmd, monitor,
  mon_exit,
}
use jos_vmx.Trap.{Trapframe, resumed, from_monitor, trap}

module _ (backtrace_returns : Bool) where
  -- In a breakpoint the monitor goes on reading after a line with this outcome.
  pub record ComesBack (r : Ran) : Type 0 where
    pub not_exit : r ≢ called exit
    pub not_matrix : r ≢ called matrix
    pub backtrace_ends : r ≡ called backtrace → backtrace_returns ≡ true

  abbrev pub AllComeBack : List (List ℕ) → Type 0
  AllComeBack [] = Unit
  AllComeBack (buf ∷ bufs) = ComesBack (runcmd buf) × AllComeBack bufs

  -- Lines after which the monitor comes back, one that runs `exit`, and the lines `rest`.
  pub record ExitsBefore (bufs rest : List (List ℕ)) : Type 0 where
    pub earlier : List (List ℕ)
    pub line : List ℕ
    pub split : bufs ≡ earlier ++ (line ∷ rest)
    pub all_back : AllComeBack earlier
    pub runs_exit : runcmd line ≡ called exit

  other_line : (r : Ran) → r ≢ called exit → r ≢ called matrix → r ≢ called backtrace → ComesBack r
  other_line r e m b = record { not_exit = e; not_matrix = m; backtrace_ends = λ is. absurd (b is) }

  abbrev EndsCases : Ran → Ended → Type 0
  EndsCases r e = ((e ≡ goes_on) × ComesBack r) ⊎ (((e ≡ leaves) × (r ≡ called exit)) ⊎ (e ≡ stuck))

  ends_cases : (r : Ran) → EndsCases r (ends backtrace_returns (some 3) r)
  unfolding mon_exit
  ends_cases refused = inl (
    refl,
    other_line _ (λ e. ground (arith, e)) (λ e. ground (arith, e)) (λ e. ground (arith, e)),
  )
  ends_cases empty = inl (
    refl,
    other_line _ (λ e. ground (arith, e)) (λ e. ground (arith, e)) (λ e. ground (arith, e)),
  )
  ends_cases (unknown word) = inl (
    refl,
    other_line _ (λ e. ground (arith, e)) (λ e. ground (arith, e)) (λ e. ground (arith, e)),
  )
  ends_cases (called help) = inl (
    refl,
    other_line _ (λ e. ground (arith, e)) (λ e. ground (arith, e)) (λ e. ground (arith, e)),
  )
  ends_cases (called kerninfo) = inl (
    refl,
    other_line _ (λ e. ground (arith, e)) (λ e. ground (arith, e)) (λ e. ground (arith, e)),
  )
  ends_cases (called cpuid) = inl (
    refl,
    other_line _ (λ e. ground (arith, e)) (λ e. ground (arith, e)) (λ e. ground (arith, e)),
  )
  ends_cases (called exit) = inr (inl (refl, refl))
  ends_cases (called matrix) = inr (inr refl)
  ends_cases (called backtrace) = elim (Bool-cases backtrace_returns) [
    | inl true_case ↦ inl (
      rw true_case refl,
      record {
        not_exit = λ e. ground (arith, e);
        not_matrix = λ e. ground (arith, e);
        backtrace_ends = λ e. true_case;
      },
    )
    | inr false_case ↦ inr (inr (rw false_case refl))
  ]

  ends_back : (r : Ran) → ComesBack r → ends backtrace_returns (some 3) r ≡ goes_on
  ends_back refused c = refl
  ends_back empty c = refl
  ends_back (unknown word) c = refl
  ends_back (called help) c = refl
  ends_back (called kerninfo) c = refl
  ends_back (called cpuid) c = refl
  ends_back (called exit) c = absurd (c.not_exit refl)
  ends_back (called matrix) c = absurd (c.not_matrix refl)
  ends_back (called backtrace) c = rw (c.backtrace_ends refl) refl

  ends_exit : (r : Ran) → r ≡ called exit → ends backtrace_returns (some 3) r ≡ leaves
  unfolding mon_exit
  ends_exit r e = rw e refl

  monitor_exit :
      (earlier rest : List (List ℕ)) (line : List ℕ)
      → AllComeBack earlier
      → runcmd line ≡ called exit
      → monitor backtrace_returns (some 3) (earlier ++ (line ∷ rest)) ≡ left rest
  unfolding monitor
  monitor_exit [] rest line back e = rw (ends_exit (runcmd line) e) refl
  monitor_exit (buf ∷ earlier) rest line back e =
      rw (ends_back (runcmd buf) back.0) (monitor_exit earlier rest line back.1 e)

  later :
      (buf : List ℕ) (bufs rest : List (List ℕ))
      → ComesBack (runcmd buf)
      → ExitsBefore bufs rest
      → ExitsBefore (buf ∷ bufs) rest
  later buf bufs rest back x = record {
    earlier = buf ∷ x.earlier;
    line = x.line;
    split = ap (λ l. buf ∷ l) x.split;
    all_back = (back, x.all_back);
    runs_exit = x.runs_exit;
  }

  exits_here :
      (buf : List ℕ) (bufs rest : List (List ℕ))
      → runcmd buf ≡ called exit
      → bufs ≡ rest
      → ExitsBefore (buf ∷ bufs) rest
  exits_here buf bufs rest runs e = record {
    earlier = [];
    line = buf;
    split = ap (λ l. buf ∷ l) e;
    all_back = _;
    runs_exit = runs;
  }

  left_after :
      (buf : List ℕ) (bufs rest : List (List ℕ)) (ended : Ended) (m : Monitored)
      → EndsCases (runcmd buf) ended
      → (m ≡ left rest → ExitsBefore bufs rest)
      → after_line ended bufs m ≡ left rest
      → ExitsBefore (buf ∷ bufs) rest
  left_after buf bufs rest ended m (inl (goes, back)) ih e =
      later buf bufs rest back (ih (ap (λ x. after_line x bufs m) (sym goes) ∙ e))
  left_after buf bufs rest ended m (inr (inl (stops, runs))) ih e =
      let here : left bufs ≡ left rest = ap (λ x. after_line x bufs m) (sym stops) ∙ e in
      exits_here buf bufs rest runs (ground (arith, here))
  left_after buf bufs rest ended m (inr (inr never)) ih e =
      let none_left : stopped ≡ left rest = ap (λ x. after_line x bufs m) (sym never) ∙ e in
      absurd (ground (arith, none_left))

  monitor_left :
      (bufs rest : List (List ℕ))
      → monitor backtrace_returns (some 3) bufs ≡ left rest
      → ExitsBefore bufs rest
  unfolding monitor
  monitor_left [] rest e = absurd (ground (arith, e))
  monitor_left (buf ∷ bufs) rest e =
      left_after buf bufs rest (ends backtrace_returns (some 3) (runcmd buf))
        (monitor backtrace_returns (some 3) bufs) (ends_cases (runcmd buf)) (monitor_left bufs rest)
        e

  from_monitor_left :
      (m : Monitored) (rest : List (List ℕ)) → from_monitor m ≡ resumed rest → m ≡ left rest
  unfolding from_monitor
  from_monitor_left reading rest e = absurd (ground (arith, e))
  from_monitor_left stopped rest e = absurd (ground (arith, e))
  from_monitor_left (left bufs) rest e = ground (arith, e)

  -- `trap` goes on with the trapped code exactly in a breakpoint in which a line runs `exit`, and
  -- no line before it runs `exit` or `matrix`, whose command panics, or `backtrace` where that does
  -- not return; the lines left are those behind it.
  pub trap_lem :
      (tf : Trapframe) (bufs rest : List (List ℕ))
      → (trap backtrace_returns tf bufs ≡ resumed rest)
        ↔ ((tf.tf_trapno ≡ 3) × ExitsBefore bufs rest)
  unfolding trap
  trap_lem tf bufs rest = (
    λ e. elim (ℕ_discrete tf.tf_trapno 3) [
      | yes brkpt ↦
          let m = monitor backtrace_returns (some 3) bufs in
          let ends_left : from_monitor m ≡ resumed rest = ground (arith, brkpt, e) in
          (brkpt, monitor_left bufs rest (from_monitor_left m rest ends_left))
      | no other ↦ absurd (ground (arith, e, other))
    ],
    λ p.
        let exits = p.1 in
        let at_exit = monitor_exit exits.earlier rest exits.line exits.all_back exits.runs_exit in
        rw (p.0, exits.split) (rw at_exit (unfold from_monitor in refl)),
  )
