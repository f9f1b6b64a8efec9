-- ===== src/Trap.antt =====
-- kern/trap.c: the names of the traps, the gates and the task segment that idt_init sets up, and
-- the dispatch. The addresses of the handlers and of the task state are parameters, as the linker
-- chooses them.
pub mod Gates
pub mod Dispatch
pub mod Print
mod Tests
use mathlib.Core.Option
use Prim.Native.String.{String}
use jos_vmx.Base.{
  ℕ, ◌+◌, ◌-◌, Bool, true, false, Option, none, some, List, [], ◌∷◌, ◌==◌, ltb, if◌then◌else◌,
  get_or, length, update,
}
use jos_vmx.Mmu.Segment.{Segdesc, Gatedesc, seg16, setgate, sts_t32a}
use jos_vmx.Monitor.Command.{Monitored, reading, stopped, left, monitor}

abbrev pub t_brkpt : ℕ
t_brkpt = 3

abbrev pub t_syscall : ℕ
t_syscall = 48

abbrev pub gd_kt : ℕ
gd_kt = 0x08

abbrev pub gd_kd : ℕ
gd_kd = 0x10

abbrev pub gd_tss : ℕ
gd_tss = 0x28

abbrev pub excnames : List String
excnames =
    "Divide error" ∷ "Debug" ∷ "Non-Maskable Interrupt" ∷ "Breakpoint" ∷ "Overflow"
    ∷ "BOUND Range Exceeded" ∷ "Invalid Opcode" ∷ "Device Not Available" ∷ "Double Falt"
    ∷ "Coprocessor Segment Overrun" ∷ "Invalid TSS" ∷ "Segment Not Present" ∷ "Stack Fault"
    ∷ "General Protection" ∷ "Page Fault" ∷ "(unknown trap)" ∷ "x87 FPU Floating-Point Error"
    ∷ "Alignment Check" ∷ "Machine-Check" ∷ "SIMD Floating-Point Exception" ∷ []

-- A negative number is a large one in the comparison with an unsigned size.
unfoldable pub trapname : ℕ → String
trapname trapno =
    if ltb trapno (length excnames)
    then get_or excnames trapno "(unknown trap)"
    else if trapno == t_syscall
    then "System call"
    else "(unknown trap)"

-- One SETGATE: the vector, `istrap` and `dpl`.
pub record Gate : Type 0 where
  pub vector : ℕ
  pub istrap : Bool
  pub dpl : ℕ

abbrev exception : ℕ → Gate
exception v = record { vector = v; istrap = true; dpl = 0 }

abbrev pub gates : List Gate
gates =
    exception 1
    ∷ exception 2
    ∷ record { vector = 3; istrap = true; dpl = 3 }
    ∷ exception 4
    ∷ exception 5
    ∷ exception 6
    ∷ exception 7
    ∷ exception 8
    ∷ exception 9
    ∷ exception 10
    ∷ exception 11
    ∷ exception 12
    ∷ exception 13
    ∷ exception 14
    ∷ exception 15
    ∷ exception 16
    ∷ exception 17
    ∷ exception 18
    ∷ exception 19
    ∷ record { vector = 48; istrap = false; dpl = 3 }
    ∷ []

unfoldable pub set_gates : (ℕ → ℕ) → List Gate → (ℕ → Gatedesc) → ℕ → Gatedesc
set_gates handler [] idt = idt
set_gates handler (g ∷ more) idt =
    set_gates handler more (update idt g.vector (setgate g.istrap gd_kt (handler g.vector) g.dpl))

-- `idt`, `ts`, `gdt` and the task register.
pub record TrapState : Type 0 where
  pub idt : ℕ → Gatedesc
  pub ts_esp0 : ℕ
  pub ts_ss0 : ℕ
  pub gdt : ℕ → Segdesc
  pub tr : ℕ

abbrev pub kstacktop : ℕ
kstacktop = 0xf000_0000 - 0x40_0000

abbrev pub sizeof_taskstate : ℕ
sizeof_taskstate = 104

unfoldable pub tss_segment : ℕ → Segdesc
tss_segment ts = record (seg16 sts_t32a ts sizeof_taskstate 0) { sd_s = 0 }

unfoldable pub idt_init : (ℕ → ℕ) → ℕ → TrapState → TrapState
idt_init handler ts s = record {
  idt = set_gates handler gates s.idt;
  ts_esp0 = kstacktop;
  ts_ss0 = gd_kd;
  gdt = update s.gdt 5 (tss_segment ts);
  tr = gd_tss;
}

-- `struct Registers`
pub record Registers : Type 0 where
  pub reg_edi : ℕ
  pub reg_esi : ℕ
  pub reg_ebp : ℕ
  pub reg_oesp : ℕ
  pub reg_ebx : ℕ
  pub reg_edx : ℕ
  pub reg_ecx : ℕ
  pub reg_eax : ℕ

-- `struct Trapframe` without its padding
pub record Trapframe : Type 0 where
  pub tf_regs : Registers
  pub tf_es : ℕ
  pub tf_ds : ℕ
  pub tf_trapno : ℕ
  pub tf_err : ℕ
  pub tf_eip : ℕ
  pub tf_cs : ℕ
  pub tf_eflags : ℕ
  pub tf_esp : ℕ
  pub tf_ss : ℕ

-- `waiting` is a monitor that goes on reading, `no_return` one in which a command did not return;
-- `resumed` has the lines that the monitor left.
pub data Trapped : Type 0 where
  waiting no_return panicked_in_kernel panicked_in_user : Trapped
  resumed : List (List ℕ) → Trapped

unfoldable pub from_monitor : Monitored → Trapped
from_monitor reading = waiting
from_monitor stopped = no_return
from_monitor (left bufs) = resumed bufs

-- Whether mon_backtrace returns on the stack of the trap is a parameter.
unfoldable pub trap : Bool → Trapframe → List (List ℕ) → Trapped
unfolding from_monitor
trap backtrace_returns tf bufs =
    if tf.tf_trapno == t_brkpt
    then from_monitor (monitor backtrace_returns (some tf.tf_trapno) bufs)
    else if tf.tf_cs == gd_kt
    then panicked_in_kernel
    else panicked_in_user
