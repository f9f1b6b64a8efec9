-- ===== src/Trap/Print.antt =====
-- kern/trap.c: print_trapframe and print_regs, as the calls of cprintf that they make.
use jos_vmx.Base.{ℕ, List, [], ◌∷◌, ◌++◌, some}
use jos_vmx.Fmt.{word, str}
use jos_vmx.Fmt.Call.{Call, text}
use jos_vmx.Trap.{Registers, Trapframe, trapname}

unfoldable pub print_regs : Registers → List Call
print_regs regs =
    ("  edi  0x%08x\n", word regs.reg_edi ∷ [])
    ∷ ("  esi  0x%08x\n", word regs.reg_esi ∷ [])
    ∷ ("  ebp  0x%08x\n", word regs.reg_ebp ∷ [])
    ∷ ("  oesp 0x%08x\n", word regs.reg_oesp ∷ [])
    ∷ ("  ebx  0x%08x\n", word regs.reg_ebx ∷ [])
    ∷ ("  edx  0x%08x\n", word regs.reg_edx ∷ [])
    ∷ ("  ecx  0x%08x\n", word regs.reg_ecx ∷ [])
    ∷ ("  eax  0x%08x\n", word regs.reg_eax ∷ [])
    ∷ []

-- `tf` is the address of the frame.
unfoldable pub print_trapframe : (tf : ℕ) → Trapframe → List Call
unfolding print_regs
print_trapframe tf frame =
    ("TRAP frame at %p\n", word tf ∷ [])
    ∷ (print_regs frame.tf_regs
        ++ (("  es   0x----%04x\n", word frame.tf_es ∷ [])
            ∷ ("  ds   0x----%04x\n", word frame.tf_ds ∷ [])
            ∷ (
              "  trap 0x%08x %s\n",
              word frame.tf_trapno ∷ str (some (text (trapname frame.tf_trapno))) ∷ [],
            )
            ∷ ("  err  0x%08x\n", word frame.tf_err ∷ [])
            ∷ ("  eip  0x%08x\n", word frame.tf_eip ∷ [])
            ∷ ("  cs   0x----%04x\n", word frame.tf_cs ∷ [])
            ∷ ("  flag 0x%08x\n", word frame.tf_eflags ∷ [])
            ∷ ("  esp  0x%08x\n", word frame.tf_esp ∷ [])
            ∷ ("  ss   0x----%04x\n", word frame.tf_ss ∷ [])
            ∷ []))
