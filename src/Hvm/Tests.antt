-- ===== src/Hvm/Tests.antt =====
-- The laws of the virtual machine monitor at small states.
use jos_vmx.Base.{suc, Option, ℕ, ◌≡◌, ◌≢◌, refl, some, true, false, arith, bit_and, update}
use jos_vmx.Hvm.{Vt}
use jos_vmx.Hvm.Exit.Loop.{Stops, cpuid_exit, init_signal, vt_loop_lem}
use jos_vmx.Hvm.Exit.{Cpuid, vt_exit_reason, vt_loop, answered}
use jos_vmx.Hvm.Exit.Answer.{Exits, IsAnswer, vt_exit_cpuid}
use jos_vmx.Hvm.Vmcs.{encoding}
use jos_vmx.Hvm.Vmcs.Field.{
  guest_rip, host_cr0, host_fs_base, host_fs_sel, host_es_sel, host_cs_sel, host_ss_sel,
  host_ds_sel, host_cr3, host_cr4, host_gdtr_base, host_idtr_base,
}
use jos_vmx.Hvm.Vmcs.Section.{decode, group_of, of_host}
use jos_vmx.Hvm.Vmcs.Laws.{encoding_lem}
use jos_vmx.Hvm.Guest.{set_vmcs_guest_state}
use jos_vmx.Hvm.Host.{Processor, set_vmcs_host_state}
use jos_vmx.Hvm.Host.Laws.{
  fs, host_vmcs, set_vmcs_host_state_lem, set_vmcs_host_state-set_vmcs_guest_state,
}
use jos_vmx.Hvm.Segment.{descriptor, present, Describes, get_seg_base, get_seg_base_lem}

-- The guest executed `cpuid` with 1 in its register.
abbrev guest : Vt
guest = record {
  vr = record { rax = 1; rcx = 2; rdx = 3; rbx = 4; cr2 = 0; rbp = 5; rsi = 6; rdi = 7 };
  vmcs = update (update (λ f. 0) 0x4402 0xA) 0x440C 2;
}

abbrev processor : ℕ → Cpuid
processor leaf = record { eax = leaf; ebx = 1; ecx = 0xFF; edx = 3 }

vt_exit_cpuid_example :
    (Exits 0xA guest
      → (s' : Vt) × (vt_exit_reason processor guest ≡ some (true, s'))
        × IsAnswer (processor 1) guest s')
    × ((s' : Vt) → vt_exit_reason processor guest ≡ some (true, s') → Exits 0xA guest)
vt_exit_cpuid_example = vt_exit_cpuid processor guest (omega arith)

guest-Exits : Exits 0xA guest
guest-Exits = (refl, refl)

-- A descriptor with the base 0x12345678 at 8, and one with the base 0 at 16.
abbrev bytes : ℕ → ℕ
bytes =
    update
      (update (update (update (update (update (λ a. 0) 10 0x78) 11 0x56) 12 0x34) 13 0x80) 15 0x12)
      21 0x80

at_8 : Describes bytes 8 0x12345678
at_8 = record { byte2 = refl; byte3 = refl; byte4 = refl; byte7 = refl; is_present = refl }

get_seg_base_lem_example :
    (bit_and 8 0x4 ≡ 0
      → Describes bytes (descriptor 0 8) 0x12345678
      → get_seg_base bytes 0 16 8 ≡ 0x12345678)
    × (bit_and 8 0x4 ≢ 0
        → Describes bytes (descriptor 0 16) 0
        → Describes bytes (descriptor 0 8) 0x12345678
        → get_seg_base bytes 0 16 8 ≡ 0x12345678)
    × (get_seg_base bytes 0 16 0 ≡ 0)
    × (bit_and 8 0x4 ≡ 0 → present bytes (descriptor 0 8) ≡ false → get_seg_base bytes 0 16 8 ≡ 0)
get_seg_base_lem_example =
    get_seg_base_lem bytes 0 16 8 0 0x12345678 (omega arith) (omega arith) (omega arith)

encoding_lem_example :
    (decode (encoding guest_rip) ≡ some guest_rip)
    × (encoding guest_rip ≡ encoding host_cr0 → guest_rip ≡ host_cr0)
encoding_lem_example = encoding_lem guest_rip host_cr0

-- FS names the descriptor at 8 of a global table at 0.
abbrev host : Processor
host = record {
  rdes = 16;
  rdcs = 8;
  rdss = 16;
  rdds = 16;
  rdfs = 8;
  rdgs = 16;
  rdldtr = 0;
  rdtr = 0x28;
  rdgdtr = record { base = 0; limit = 0x2f };
  rdidtr = record { base = 0x7ff; limit = 0xff };
  rdcr0 = 0x8000_0031;
  rdcr3 = 0x11_0000;
  rdcr4 = 0x2000;
  rddr7 = 0x400;
  rdrflags = 2;
  lsl = λ sel. 0xffff_ffff;
  lar = λ sel. 0x9300;
}

set_vmcs_host_state_lem_example :
    (host_vmcs bytes host guest.vmcs host_fs_base ≡ 0x12345678)
    × (host_vmcs bytes host guest.vmcs host_fs_sel ≡ 8)
    × (host_vmcs bytes host guest.vmcs host_es_sel ≡ 16)
    × (host_vmcs bytes host guest.vmcs host_cs_sel ≡ 8)
    × (host_vmcs bytes host guest.vmcs host_ss_sel ≡ 16)
    × (host_vmcs bytes host guest.vmcs host_ds_sel ≡ 16)
    × (host_vmcs bytes host guest.vmcs host_cr0 ≡ 0x8000_0031)
    × (host_vmcs bytes host guest.vmcs host_cr3 ≡ 0x11_0000)
    × (host_vmcs bytes host guest.vmcs host_cr4 ≡ 0x2000)
    × (host_vmcs bytes host guest.vmcs host_gdtr_base ≡ 0)
    × (host_vmcs bytes host guest.vmcs host_idtr_base ≡ 0x7ff)
    × ((f : ℕ) → group_of f ≢ of_host → set_vmcs_host_state bytes host guest.vmcs f ≡ guest.vmcs f)
set_vmcs_host_state_lem_example =
    set_vmcs_host_state_lem bytes host guest.vmcs fs 0x12345678 (omega arith) (omega arith) refl
      at_8

set_vmcs_host_state-set_vmcs_guest_state_example :
    set_vmcs_host_state bytes host (set_vmcs_guest_state guest.vmcs) 0x6C00
    ≡ set_vmcs_guest_state (set_vmcs_host_state bytes host guest.vmcs) 0x6C00
set_vmcs_host_state-set_vmcs_guest_state_example =
    set_vmcs_host_state-set_vmcs_guest_state bytes host guest.vmcs 0x6C00

-- The guest's next exit is the INIT signal.
abbrev until_init : Vt → Option Vt
until_init s = some (record s { vmcs = update s.vmcs 0x4402 0x3 })

abbrev stopped : Vt
stopped = record (answered processor guest) {
  vmcs = update (answered processor guest).vmcs 0x4402 0x3;
}

vt_loop_lem_example :
    ((n : ℕ)
      → Stops processor until_init n guest stopped
      → vt_loop processor (suc n) until_init guest ≡ some stopped)
    × ((fuel : ℕ)
        → vt_loop processor fuel until_init guest ≡ some stopped
        → (n : ℕ) × Stops processor until_init n guest stopped)
vt_loop_lem_example = vt_loop_lem processor until_init guest stopped

-- It happens: one exit for `cpuid`, then the signal.
guest_stops : Stops processor until_init 1 guest stopped
guest_stops =
    cpuid_exit 0 guest stopped stopped (refl, refl) refl (init_signal stopped (refl, refl))
