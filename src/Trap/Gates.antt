-- ===== src/Trap/Gates.antt =====
-- The gates and the task segment after idt_init.
use jos_vmx.Base.{
  ℕ, ◌/◌, ◌≤◌, ◌<◌, ◌≡◌, ◌≢◌, ◌⊎◌, refl, Bool, true, false, Option, none, some, List, [], ◌∷◌, ◌==◌,
  leb, ◌&&◌, if◌then◌else◌, update, arith,
}
use jos_vmx.Mmu.{word}
use jos_vmx.Mmu.Segment.{
  Gatedesc, seg16, setgate, sts_t32a, sts_ig32, sts_tg32, base_of, limit_of, offset_of, seg_lem,
  offset_of-setgate,
}
use jos_vmx.Trap.{Gate, gates, set_gates, TrapState, idt_init, tss_segment, sizeof_taskstate, gd_kt}

gate_at : List Gate → ℕ → Option (Bool × ℕ)
gate_at [] v = none
gate_at (g ∷ more) v = elim (gate_at more v) [
  | some found ↦ some found
  | none ↦ if g.vector == v then some (g.istrap, g.dpl) else none
]

gate_or : (ℕ → ℕ) → (ℕ → Gatedesc) → ℕ → Option (Bool × ℕ) → Gatedesc
gate_or handler idt v none = idt v
gate_or handler idt v (some (istrap, dpl)) = setgate istrap gd_kt (handler v) dpl

set_gates-gate_at :
    (handler : ℕ → ℕ) (list : List Gate) (idt : ℕ → Gatedesc) (v : ℕ)
    → set_gates handler list idt v ≡ gate_or handler idt v (gate_at list v)
unfolding set_gates gate_at gate_or
set_gates-gate_at handler [] idt v = refl
set_gates-gate_at handler (g ∷ more) idt v = ground (
  arith,
  set_gates-gate_at handler more
      (update idt g.vector (setgate g.istrap gd_kt (handler g.vector) g.dpl)) v,
)

gate_at-gates :
    (v : ℕ)
    → gate_at gates v ≡ (
        if leb 1 v && leb v 19
        then some (true, if v == 3 then 3 else 0)
        else if v == 48
        then some (false, 3)
        else none)
unfolding gate_at
gate_at-gates v = ground arith

-- What a gate to the handler of `v` is.
pub record IsGate (handler : ℕ → ℕ) (v type dpl : ℕ) (g : Gatedesc) : Type 0 where
  pub offset : offset_of g ≡ handler v
  pub selector : g.gd_ss ≡ gd_kt
  pub present : g.gd_p ≡ 1
  pub kind : g.gd_type ≡ type
  pub privilege : g.gd_dpl ≡ dpl

setgate-IsGate :
    (handler : ℕ → ℕ) (v : ℕ) (istrap : Bool) (dpl : ℕ)
    → handler v < word
    → dpl < 4
    → IsGate handler v
        (if istrap then sts_tg32 else sts_ig32)
        dpl
        (setgate istrap gd_kt (handler v) dpl)
unfolding setgate
setgate-IsGate handler v istrap dpl h k = record {
  offset = unfold setgate in offset_of-setgate istrap gd_kt (handler v) dpl h;
  selector = omega arith;
  present = refl;
  kind = refl;
  privilege = omega arith;
}

-- After idt_init the vectors 1 to 19 are trap gates to their handlers, for which only the
-- breakpoint is open to user mode, the vector 48 is an interrupt gate open to user mode, and every
-- other vector, the divide error's among them, is as it was.
pub idt_init_gates :
    (handler : ℕ → ℕ) (ts : ℕ) (s : TrapState) (v : ℕ)
    → handler v < word
    → (1 ≤ v
        → v ≤ 19
        → IsGate handler v sts_tg32 (if v == 3 then 3 else 0) ((idt_init handler ts s).idt v))
      × (v ≡ 48 → IsGate handler v sts_ig32 3 ((idt_init handler ts s).idt v))
      × ((v ≡ 0) ⊎ ((19 < v) × (v ≢ 48)) → (idt_init handler ts s).idt v ≡ s.idt v)
unfolding idt_init gate_or
idt_init_gates handler ts s v small =
    rw (set_gates-gate_at handler gates s.idt v, gate_at-gates v)
      (
        λ low high.
            let inside : leb 1 v && leb v 19 ≡ true = ground arith in
            rw inside
              (setgate-IsGate handler v true (if v == 3 then 3 else 0) small (ground arith)),
        λ e.
            let outside : leb 1 v && leb v 19 ≡ false = ground arith in
            let call : v == 48 ≡ true = ground arith in
            rw (outside, call) (setgate-IsGate handler v false 3 small (omega arith)),
        λ other. ground arith,
      )

-- idt_init makes the segment of the task register a present system descriptor of an available task
-- at the task state, with the kernel's stack top and data segment for traps from user mode.
pub idt_init_task :
    (handler : ℕ → ℕ) (ts : ℕ) (s : TrapState)
    → ts < word
    → let t = idt_init handler ts s in
      let d = t.gdt (t.tr / 8) in
      (base_of d ≡ ts)
      × (limit_of d ≡ 104)
      × (d.sd_type ≡ 9)
      × (d.sd_s ≡ 0)
      × (d.sd_p ≡ 1)
      × (t.ts_esp0 ≡ 0xefc0_0000)
      × (t.ts_ss0 ≡ 16)
      × ((i : ℕ) → i ≢ 5 → t.gdt i ≡ s.gdt i)
unfolding idt_init tss_segment
idt_init_task handler ts s small =
    let d = seg_lem sts_t32a ts sizeof_taskstate 0 small (omega arith) in
    (
      d.2,
      d.3 (omega arith),
      unfold seg16 in refl,
      refl,
      unfold seg16 in refl,
      refl,
      refl,
      λ i ne. ground arith,
    )
