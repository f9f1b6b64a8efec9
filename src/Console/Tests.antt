-- ===== src/Console/Tests.antt =====
-- The console at small inputs.
use jos_vmx.Base.{ℕ, zero, suc, ◌≡◌, refl, true, [], ◌∷◌, arith, replicate}
use jos_vmx.Console.{Cons, advance, cons_put, cons_getc, cons_take}
use jos_vmx.Console.Cga.{Crt, cga_putc}
use jos_vmx.Console.Cga.Laws.{Keeps, cga_putc-Keeps}
use jos_vmx.Console.Fifo.{Holds, Pending, AllSet, Takes, cons_getc-Holds, cons_put_full}

-- `x` waits at the end of the buffer.
abbrev queue : Cons
queue = record { buf = λ i. 120; rpos = 511; wpos = 0 }

queue-Holds : Holds queue (120 ∷ [])
queue-Holds = record {
  read = omega arith;
  room = omega arith;
  written = refl;
  pending = (refl, _);
  set = (omega arith, _);
}

cons_getc-Holds_example : Takes (cons_getc true (97 ∷ []) (98 ∷ []) queue) (120 ∷ 97 ∷ 98 ∷ [])
cons_getc-Holds_example =
    cons_getc-Holds true (97 ∷ []) (98 ∷ []) queue (120 ∷ []) queue-Holds (omega arith, _)
      (omega arith, _) (omega arith)

replicate-Pending : (n r : ℕ) → Pending (λ i. 120) r (replicate n 120)
replicate-Pending zero r = _
replicate-Pending (suc n) r = (refl, replicate-Pending n (advance r))

replicate-AllSet : (n : ℕ) → AllSet (replicate n 120)
replicate-AllSet zero = _
replicate-AllSet (suc n) = (omega arith, replicate-AllSet n)

-- 511 characters wait.
abbrev full : Cons
full = record { buf = λ i. 120; rpos = 0; wpos = 511 }

full-Holds : Holds full (replicate 511 120)
full-Holds = record {
  read = omega arith;
  room = omega arith;
  written = refl;
  pending = replicate-Pending 511 0;
  set = replicate-AllSet 511;
}

cons_put_full_example :
    Holds (cons_put 121 full) [] × (cons_take (cons_put 121 full) ≡ (0, cons_put 121 full))
cons_put_full_example = cons_put_full full (replicate 511 120) 121 full-Holds refl (omega arith)

-- The cursor is in the last cell.
abbrev screen : Crt
screen = record { crt_buf = λ i. 0x0720; crt_pos = 1999; addr_6845 = 0x3D4; out = [] }

cga_putc-Keeps_example : Keeps screen (cga_putc 9 screen)
cga_putc-Keeps_example = cga_putc-Keeps 9 screen (omega arith)
