-- ===== src/Hvm/Host.antt =====
-- vt_regs.c: vt_get_current_regs_host, and vt_init.c: set_vmcs_host_state. What the instructions read
-- is a record of the processor; the memory holds bytes.
pub mod Laws
use jos_vmx.Base.{ℕ, List, [], ◌∷◌}
use jos_vmx.Hvm.Segment.{get_seg_base, get_seg_access_rights}
use jos_vmx.Hvm.Vmcs.Field.{
  VmcsField, host_es_sel, host_cs_sel, host_ss_sel, host_ds_sel, host_fs_sel, host_gs_sel,
  host_tr_sel, host_cr0, host_cr3, host_cr4, host_fs_base, host_gs_base, host_tr_base,
  host_gdtr_base, host_idtr_base, host_rsp, host_rip,
}
use jos_vmx.Hvm.Vmcs.Write.{vmwrites}

-- `struct regs_in_vmcs_sreg`
pub record RegsInVmcsSreg : Type 0 where
  pub sel : ℕ
  pub limit : ℕ
  pub acr : ℕ
  pub base : ℕ

-- `struct regs_in_vmcs_desc`
pub record RegsInVmcsDesc : Type 0 where
  pub base : ℕ
  pub limit : ℕ

-- `struct regs_in_vmcs`
pub record RegsInVmcs : Type 0 where
  pub es : RegsInVmcsSreg
  pub cs : RegsInVmcsSreg
  pub ss : RegsInVmcsSreg
  pub ds : RegsInVmcsSreg
  pub fs : RegsInVmcsSreg
  pub gs : RegsInVmcsSreg
  pub ldtr : RegsInVmcsSreg
  pub tr : RegsInVmcsSreg
  pub gdtr : RegsInVmcsDesc
  pub idtr : RegsInVmcsDesc
  pub cr0 : ℕ
  pub cr3 : ℕ
  pub cr4 : ℕ
  pub dr7 : ℕ
  pub rflags : ℕ

-- What `asm_rdes` and the like read, and `lsl` and `lar` of a selector.
pub record Processor : Type 0 where
  pub rdes : ℕ
  pub rdcs : ℕ
  pub rdss : ℕ
  pub rdds : ℕ
  pub rdfs : ℕ
  pub rdgs : ℕ
  pub rdldtr : ℕ
  pub rdtr : ℕ
  pub rdgdtr : RegsInVmcsDesc
  pub rdidtr : RegsInVmcsDesc
  pub rdcr0 : ℕ
  pub rdcr3 : ℕ
  pub rdcr4 : ℕ
  pub rddr7 : ℕ
  pub rdrflags : ℕ
  pub lsl : ℕ → ℕ
  pub lar : ℕ → ℕ

-- The four statements that `vt_get_current_regs_host` has for each segment register.
unfoldable pub host_sreg : (ℕ → ℕ) → Processor → ℕ → RegsInVmcsSreg
host_sreg mem p sel = record {
  sel = sel;
  limit = p.lsl sel;
  acr = get_seg_access_rights p.lar sel;
  base = get_seg_base mem p.rdgdtr.base p.rdldtr sel;
}

unfoldable pub vt_get_current_regs_host : (ℕ → ℕ) → Processor → RegsInVmcs
vt_get_current_regs_host mem p = record {
  es = host_sreg mem p p.rdes;
  cs = host_sreg mem p p.rdcs;
  ss = host_sreg mem p p.rdss;
  ds = host_sreg mem p p.rdds;
  fs = host_sreg mem p p.rdfs;
  gs = host_sreg mem p p.rdgs;
  ldtr = host_sreg mem p p.rdldtr;
  tr = host_sreg mem p p.rdtr;
  gdtr = p.rdgdtr;
  idtr = p.rdidtr;
  cr0 = p.rdcr0;
  cr3 = p.rdcr3;
  cr4 = p.rdcr4;
  dr7 = p.rddr7;
  rflags = p.rdrflags;
}

-- The writes of `set_vmcs_host_state`, in their order.
unfoldable pub host_state : RegsInVmcs → List (VmcsField × ℕ)
host_state riv =
    (host_es_sel, riv.es.sel)
    ∷ (host_cs_sel, riv.cs.sel)
    ∷ (host_ss_sel, riv.ss.sel)
    ∷ (host_ds_sel, riv.ds.sel)
    ∷ (host_fs_sel, riv.fs.sel)
    ∷ (host_gs_sel, riv.gs.sel)
    ∷ (host_tr_sel, riv.tr.sel)
    ∷ (host_cr0, riv.cr0)
    ∷ (host_cr3, riv.cr3)
    ∷ (host_cr4, riv.cr4)
    ∷ (host_fs_base, riv.fs.base)
    ∷ (host_gs_base, riv.gs.base)
    ∷ (host_tr_base, riv.tr.base)
    ∷ (host_gdtr_base, riv.gdtr.base)
    ∷ (host_idtr_base, riv.idtr.base)
    ∷ (host_rsp, 0xDEADBEEF)
    ∷ (host_rip, 0xDEADBEEF)
    ∷ []

unfoldable pub set_vmcs_host_state : (ℕ → ℕ) → Processor → (ℕ → ℕ) → ℕ → ℕ
set_vmcs_host_state mem p vmcs = vmwrites (host_state (vt_get_current_regs_host mem p)) vmcs
