-- ===== src/Trap/Tests.antt =====
-- The names of some traps, and the theorems on traps at an input.
use jos_vmx.Base.{ℕ, ◌+◌, ◌≤◌, ◌<◌, ◌≡◌, ◌≢◌, ◌↔◌, ◌⊎◌, refl, false, List, [], ◌∷◌, arith}
use jos_vmx.Str.{strcmp}
use jos_vmx.Monitor.Parse.{parse, parse_args, gobble, scan}
use jos_vmx.Monitor.Command.{name_of, lookup, is_named, called, exit, help, runcmd}
use jos_vmx.Mmu.Segment.{Gatedesc, sts_ig32, sts_tg32, seg}
use jos_vmx.Trap.{Trapframe, trapname, TrapState, idt_init, trap, resumed}
use jos_vmx.Trap.Gates.{IsGate, idt_init_gates}
use jos_vmx.Trap.Dispatch.{ExitsBefore, trap_lem}

trapname_cases :
    (trapname 3 ≡ "Breakpoint")
    × (trapname 48 ≡ "System call")
    × (trapname 20 ≡ "(unknown trap)")
    × (trapname 0xffff_ffff ≡ "(unknown trap)")
unfolding trapname
trapname_cases = (refl, refl, refl, refl)

abbrev no_gate : Gatedesc
no_gate = record {
  gd_off_15_0 = 0;
  gd_ss = 0;
  gd_args = 0;
  gd_rsv1 = 0;
  gd_type = 0;
  gd_s = 0;
  gd_dpl = 0;
  gd_p = 0;
  gd_off_31_16 = 0;
}

abbrev at_boot : TrapState
at_boot = record {
  idt = λ v. no_gate;
  ts_esp0 = 0;
  ts_ss0 = 0;
  gdt = λ i. seg 10 0 0xffff_ffff 0;
  tr = 0;
}

abbrev handler : ℕ → ℕ
handler v = 0xf010_0000 + v

idt_init_gates_example :
    (1 ≤ 3 → 3 ≤ 19 → IsGate handler 3 sts_tg32 3 ((idt_init handler 0xf011_0000 at_boot).idt 3))
    × (◌≡◌ {A = ℕ} 3 48
        → IsGate handler 3 sts_ig32 3 ((idt_init handler 0xf011_0000 at_boot).idt 3))
    × ((◌≡◌ {A = ℕ} 3 0) ⊎ ((19 < 3) × (◌≢◌ {A = ℕ} 3 48))
        → (idt_init handler 0xf011_0000 at_boot).idt 3 ≡ no_gate)
idt_init_gates_example = idt_init_gates handler 0xf011_0000 at_boot 3 (omega arith)

-- `help` and `exit`.
abbrev help_line : List ℕ
help_line = b'h' ∷ b'e' ∷ b'l' ∷ b'p' ∷ 0 ∷ []

abbrev exit_line : List ℕ
exit_line = b'e' ∷ b'x' ∷ b'i' ∷ b't' ∷ 0 ∷ []

runcmd_lines : (runcmd help_line ≡ called help) × (runcmd exit_line ≡ called exit)
unfolding strcmp parse parse_args gobble scan name_of lookup is_named runcmd
runcmd_lines = (refl, refl)

abbrev breakpoint : Trapframe
breakpoint = record {
  tf_regs = record {
    reg_edi = 0;
    reg_esi = 1;
    reg_ebp = 0xf010_7f00;
    reg_oesp = 2;
    reg_ebx = 3;
    reg_edx = 4;
    reg_ecx = 5;
    reg_eax = 6;
  };
  tf_es = 0x10;
  tf_ds = 0x10;
  tf_trapno = 3;
  tf_err = 0;
  tf_eip = 0xf010_0abc;
  tf_cs = 8;
  tf_eflags = 2;
  tf_esp = 0;
  tf_ss = 0;
}

trap_lem_example :
    (trap false breakpoint (help_line ∷ exit_line ∷ []) ≡ resumed [])
    ↔ ((breakpoint.tf_trapno ≡ 3) × ExitsBefore false (help_line ∷ exit_line ∷ []) [])
trap_lem_example = trap_lem false breakpoint (help_line ∷ exit_line ∷ []) []

exits_second : ExitsBefore false (help_line ∷ exit_line ∷ []) []
exits_second = record {
  earlier = help_line ∷ [];
  line = exit_line;
  split = refl;
  all_back = (
    record {
      not_exit = λ e. cc (runcmd_lines.0, e);
      not_matrix = λ e. cc (runcmd_lines.0, e);
      backtrace_ends = λ e. cc (runcmd_lines.0, e);
    },
    _,
  );
  runs_exit = runcmd_lines.1;
}

resumes : trap false breakpoint (help_line ∷ exit_line ∷ []) ≡ resumed []
resumes = trap_lem_example.1 (refl, exits_second)
