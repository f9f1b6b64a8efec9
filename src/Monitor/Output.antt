-- ===== src/Monitor/Output.antt =====
-- kern/monitor.c: what mon_help, mon_kerninfo and mon_cpuid print, as calls of cprintf.
use Prim.Native.String.{String}
use jos_vmx.Base.{ℕ, ◌+◌, ◌-◌, ◌/◌, ◌%◌, ◌^◌, List, [], ◌∷◌, ◌++◌, map, some}
use jos_vmx.Mmu.{kernbase}
use jos_vmx.Fmt.{word, str}
use jos_vmx.Fmt.Call.{Call, text}
use jos_vmx.Hvm.Exit.{Cpuid}
use jos_vmx.Monitor.Command.{
  Command, help, kerninfo, backtrace, exit, matrix, cpuid, name_of, commands,
}

unfoldable pub desc_of : Command → String
desc_of help = "Display this list of commands"
desc_of kerninfo = "Display information about the kernel"
desc_of backtrace = "Display back trace information of function"
desc_of exit = "Exit from trap monitor"
desc_of matrix = "Build a Matrix"
desc_of cpuid = "Instruction cpuid"

abbrev pub help_call : Command → Call
help_call cmd =
    ("%s - %s\n", str (some (name_of cmd ++ (0 ∷ []))) ∷ str (some (text (desc_of cmd))) ∷ [])

unfoldable pub mon_help : List Call
mon_help = map help_call commands

-- The address of a symbol of the linker, and where it lies in the physical memory.
abbrev pub symbol_args : ℕ → List ℕ
symbol_args a = a ∷ (a + 2 ^ 32 - kernbase) % 2 ^ 32 ∷ []

-- `end - _start` is a difference of pointers; the kernel is smaller than 2 GB.
unfoldable pub mon_kerninfo : (start etext edata end : ℕ) → List Call
mon_kerninfo start etext edata end =
    ("Special kernel symbols:\n", [])
    ∷ ("  _start %08x (virt)  %08x (phys)\n", map word (symbol_args start))
    ∷ ("  etext  %08x (virt)  %08x (phys)\n", map word (symbol_args etext))
    ∷ ("  edata  %08x (virt)  %08x (phys)\n", map word (symbol_args edata))
    ∷ ("  end    %08x (virt)  %08x (phys)\n", map word (symbol_args end))
    ∷ ("Kernel executable memory footprint: %dKB\n", word ((end - start + 1023) / 1024) ∷ [])
    ∷ []

unfoldable pub mon_cpuid : (ℕ → Cpuid) → List Call
mon_cpuid processor = ("%#x\n", word (processor 0xFeedCafe).eax ∷ []) ∷ []
