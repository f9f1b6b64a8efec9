-- ===== src/Hvm/Regs.antt =====
-- vt_regs.c: vt_read_general_reg and vt_write_general_reg. `none` is a panic.
use jos_vmx.Base.{
  ℕ, ◌≡◌, refl, Option, none, some, if◌then◌else◌, ltb, List, [], ◌∷◌, get_elem?, set,
}
use jos_vmx.Hvm.{Vt, vmcs_guest_rsp, asm_vmwrite}

-- `enum general_reg`
pub data GeneralReg : Type 0 where
  reg_rax : GeneralReg
  reg_rcx : GeneralReg
  reg_rdx : GeneralReg
  reg_rbx : GeneralReg
  reg_rsp : GeneralReg
  reg_rbp : GeneralReg
  reg_rsi : GeneralReg
  reg_rdi : GeneralReg
  reg_r8 : GeneralReg
  reg_r9 : GeneralReg
  reg_r10 : GeneralReg
  reg_r11 : GeneralReg
  reg_r12 : GeneralReg
  reg_r13 : GeneralReg
  reg_r14 : GeneralReg
  reg_r15 : GeneralReg

unfoldable pub vt_read_general_reg : GeneralReg → Vt → Option ℕ
vt_read_general_reg reg_rax s = some s.vr.rax
vt_read_general_reg reg_rcx s = some s.vr.rcx
vt_read_general_reg reg_rdx s = some s.vr.rdx
vt_read_general_reg reg_rbx s = some s.vr.rbx
vt_read_general_reg reg_rsp s = some (s.vmcs vmcs_guest_rsp)
vt_read_general_reg reg_rbp s = some s.vr.rbp
vt_read_general_reg reg_rsi s = some s.vr.rsi
vt_read_general_reg reg_rdi s = some s.vr.rdi
vt_read_general_reg _ s = none

unfoldable pub vt_write_general_reg : GeneralReg → ℕ → Vt → Option Vt
vt_write_general_reg reg_rax val s = some (record s { vr = record (s.vr) { rax = val } })
vt_write_general_reg reg_rcx val s = some (record s { vr = record (s.vr) { rcx = val } })
vt_write_general_reg reg_rdx val s = some (record s { vr = record (s.vr) { rdx = val } })
vt_write_general_reg reg_rbx val s = some (record s { vr = record (s.vr) { rbx = val } })
vt_write_general_reg reg_rsp val s =
    some (record s { vmcs = asm_vmwrite vmcs_guest_rsp val s.vmcs })
vt_write_general_reg reg_rbp val s = some (record s { vr = record (s.vr) { rbp = val } })
vt_write_general_reg reg_rsi val s = some (record s { vr = record (s.vr) { rsi = val } })
vt_write_general_reg reg_rdi val s = some (record s { vr = record (s.vr) { rdi = val } })
vt_write_general_reg _ val s = none

-- The number that the enumeration gives a register.
unfoldable pub reg_number : GeneralReg → ℕ
reg_number reg_rax = 0
reg_number reg_rcx = 1
reg_number reg_rdx = 2
reg_number reg_rbx = 3
reg_number reg_rsp = 4
reg_number reg_rbp = 5
reg_number reg_rsi = 6
reg_number reg_rdi = 7
reg_number reg_r8 = 8
reg_number reg_r9 = 9
reg_number reg_r10 = 10
reg_number reg_r11 = 11
reg_number reg_r12 = 12
reg_number reg_r13 = 13
reg_number reg_r14 = 14
reg_number reg_r15 = 15

-- The registers as an array in the order of their numbers.
abbrev pub reg_file : Vt → List ℕ
reg_file s =
    s.vr.rax
    ∷ s.vr.rcx
    ∷ s.vr.rdx
    ∷ s.vr.rbx
    ∷ s.vmcs vmcs_guest_rsp
    ∷ s.vr.rbp
    ∷ s.vr.rsi
    ∷ s.vr.rdi
    ∷ []

abbrev pub file_of : Option Vt → Option (List ℕ)
file_of none = none
file_of (some s) = some (reg_file s)

-- Reading and writing a general register refine an array of eight, indexed by the register's
-- number: a read gives the element, a write sets it and no other, and the registers from R8 on
-- panic in both.
pub general_reg_lem :
    (r : GeneralReg) (val : ℕ) (s : Vt)
    → (vt_read_general_reg r s ≡ get_elem? (reg_file s) (reg_number r))
      × (file_of (vt_write_general_reg r val s)
          ≡ (if ltb (reg_number r) 8 then some (set (reg_file s) (reg_number r) val) else none))
unfolding vt_read_general_reg vt_write_general_reg reg_number
general_reg_lem reg_rax val s = (refl, refl)
general_reg_lem reg_rcx val s = (refl, refl)
general_reg_lem reg_rdx val s = (refl, refl)
general_reg_lem reg_rbx val s = (refl, refl)
general_reg_lem reg_rsp val s = (refl, refl)
general_reg_lem reg_rbp val s = (refl, refl)
general_reg_lem reg_rsi val s = (refl, refl)
general_reg_lem reg_rdi val s = (refl, refl)
general_reg_lem reg_r8 val s = (refl, refl)
general_reg_lem reg_r9 val s = (refl, refl)
general_reg_lem reg_r10 val s = (refl, refl)
general_reg_lem reg_r11 val s = (refl, refl)
general_reg_lem reg_r12 val s = (refl, refl)
general_reg_lem reg_r13 val s = (refl, refl)
general_reg_lem reg_r14 val s = (refl, refl)
general_reg_lem reg_r15 val s = (refl, refl)
