-- ===== src/Console/Fifo.antt =====
-- The input buffer is a queue while fewer than 512 characters wait.
use mathlib.Core.Path.{subst}
use native.Mathlib.Decide.{ℕ_discrete}
use jos_vmx.Base.{
  ℕ, suc, ◌+◌, ◌%◌, ◌<◌, ◌^◌, ◌≡◌, ◌≢◌, refl, Bool, true, false, List, [], ◌∷◌, ◌++◌, arith, ◌==◌,
  if◌then◌else◌, length, update,
}
use jos_vmx.Console.{
  consbufsize, Cons, advance, cons_put, cons_intr, serial_intr, kbd_intr, cons_take, cons_getc,
}

-- The characters `xs` stand in the buffer from `r` on.
abbrev pub Pending : (ℕ → ℕ) → ℕ → List ℕ → Type 0
Pending buf r [] = Unit
Pending buf r (x ∷ xs) = (buf r ≡ x) × Pending buf (advance r) xs

-- The characters that wait in the buffer are `xs`, none of them 0.
abbrev pub AllSet : List ℕ → Type 0
AllSet [] = Unit
AllSet (x ∷ xs) = (x ≢ 0) × AllSet xs

pub record Holds (s : Cons) (xs : List ℕ) : Type 0 where
  pub read : s.rpos < consbufsize
  pub room : length xs < consbufsize
  pub written : s.wpos ≡ (s.rpos + length xs) % consbufsize
  pub pending : Pending s.buf s.rpos xs
  pub set : AllSet xs

-- What `cons_intr` keeps of the values of a device.
abbrev pub kept : List ℕ → List ℕ
kept [] = []
kept (c ∷ cs) = if c == 0 then kept cs else (c ∷ kept cs)

abbrev pub Bytes : List ℕ → Type 0
Bytes [] = Unit
Bytes (c ∷ cs) = (c < 2 ^ 8) × Bytes cs

Pending-append :
    (xs : List ℕ) (buf : ℕ → ℕ) (r c : ℕ)
    → r < consbufsize
    → length xs < consbufsize
    → Pending buf r xs
    → Pending (update buf ((r + length xs) % consbufsize) c) r (xs ++ (c ∷ []))
Pending-append [] buf r c h k p = (ground arith, _)
Pending-append (x ∷ xs) buf r c h k p =
    let e : (advance r + length xs) % consbufsize ≡ (r + suc (length xs)) % consbufsize =
      ground arith in
    let ih = Pending-append xs buf (advance r) c (ground arith) (omega arith) p.1 in
    (ground (arith, p.0), subst (λ w. Pending (update buf w c) (advance r) (xs ++ (c ∷ []))) e ih)

length_snoc : (xs : List ℕ) (c : ℕ) → length (xs ++ (c ∷ [])) ≡ length xs + 1
length_snoc [] c = refl
length_snoc (x ∷ xs) c = ground (arith, length_snoc xs c)

AllSet-append : (xs : List ℕ) (c : ℕ) → AllSet xs → c ≢ 0 → AllSet (xs ++ (c ∷ []))
AllSet-append [] c a h = (h, _)
AllSet-append (x ∷ xs) c a h = (a.0, AllSet-append xs c a.1 h)

cons_put-Holds :
    (s : Cons) (xs : List ℕ) (c : ℕ)
    → Holds s xs
    → c ≢ 0
    → c < 2 ^ 8
    → length xs + 1 < consbufsize
    → Holds (cons_put c s) (xs ++ (c ∷ []))
unfolding cons_put
cons_put-Holds s xs c h ne small fit =
    let len = length_snoc xs c in
    let low : c % 2 ^ 8 ≡ c = omega arith in
    let off : (c == 0) ≡ false = ground arith in
    let snoc = Pending-append xs s.buf s.rpos c h.read h.room h.pending in
    rw (off, low)
      (record {
        read = h.read;
        room = ground (arith, len);
        written = ground (arith, len, h.written);
        pending = rw h.written snoc;
        set = AllSet-append xs c h.set ne;
      })

-- What `cons_getc` returns, and what waits after it.
abbrev pub Takes : ℕ × Cons → List ℕ → Type 0
Takes got [] = (got.0 ≡ 0) × Holds got.1 []
Takes got (x ∷ xs) = (got.0 ≡ x) × (x ≢ 0) × Holds got.1 xs

cons_take-Takes : (s : Cons) (xs : List ℕ) → Holds s xs → Takes (cons_take s) xs
unfolding cons_take
cons_take-Takes s [] h =
    let e : (s.rpos == s.wpos) ≡ true = ground (arith, h.written, h.read) in rw e (refl, h)
cons_take-Takes s (x ∷ xs) h =
    let ne : (s.rpos == s.wpos) ≡ false = ground (arith, h.written, h.room, h.read) in
    rw ne (
      h.pending.0,
      h.set.0,
      record {
        read = ground (arith, h.read);
        room = ground (arith, h.room);
        written = ground (arith, h.written, h.read, h.room);
        pending = h.pending.1;
        set = h.set.1;
      },
    )

append_assoc : (xs : List ℕ) (c : ℕ) (cs : List ℕ) → (xs ++ (c ∷ [])) ++ cs ≡ xs ++ (c ∷ cs)
append_assoc [] c cs = refl
append_assoc (x ∷ xs) c cs = ground (arith, append_assoc xs c cs)

length-append : (xs ys : List ℕ) → length (xs ++ ys) ≡ length xs + length ys
length-append [] ys = omega arith
length-append (x ∷ xs) ys = ground (arith, length-append xs ys)

append_nil : (xs : List ℕ) → xs ++ [] ≡ xs
append_nil [] = refl
append_nil (x ∷ xs) = ground (arith, append_nil xs)

-- While the buffer has room, one place staying free, `cons_intr` appends the characters of the
-- device that are not 0, in their order, to those that wait.
pub cons_intr-Holds :
    (cs : List ℕ) (s : Cons) (xs : List ℕ)
    → Holds s xs
    → Bytes cs
    → length xs + length (kept cs) < consbufsize
    → Holds (cons_intr cs s) (xs ++ kept cs)
unfolding cons_intr
cons_intr-Holds [] s xs h b fit = rw (append_nil xs) h
cons_intr-Holds (c ∷ cs) s xs h b fit = elim (ℕ_discrete c 0) [
  | yes e ↦
      let k : (c == 0) ≡ true = ground arith in
      let skip : cons_put c s ≡ s = unfold cons_put in ground arith in
      rw (skip, k) (cons_intr-Holds cs s xs h b.1 (ground (arith, fit)))
  | no ne ↦
      let k : (c == 0) ≡ false = ground arith in
      let len = length_snoc xs c in
      let put = cons_put-Holds s xs c h ne b.0 (ground (arith, fit)) in
      let rest =
        cons_intr-Holds cs (cons_put c s) (xs ++ (c ∷ [])) put b.1 (ground (arith, fit, len)) in
      let e = append_assoc xs c (kept cs) in
      rw k (subst (Holds (cons_intr cs (cons_put c s))) e rest)
]

-- What the serial port adds to the characters that wait.
abbrev pub received : Bool → List ℕ → List ℕ
received serial_exists serial = if serial_exists then kept serial else []

serial_intr-Holds :
    (serial_exists : Bool) (serial : List ℕ) (s : Cons) (xs : List ℕ)
    → Holds s xs
    → Bytes serial
    → length xs + length (received serial_exists serial) < consbufsize
    → Holds (serial_intr serial_exists serial s) (xs ++ received serial_exists serial)
unfolding serial_intr
serial_intr-Holds true serial s xs h a fit = cons_intr-Holds serial s xs h a fit
serial_intr-Holds false serial s xs h a fit = rw (append_nil xs) h

-- While fewer than 512 characters wait after both polls, `cons_getc` polls the serial port if it
-- exists and then the keyboard, and returns the first of the characters that wait then, which
-- leaves the queue, or 0 if none waits. Of a serial port that does not exist it takes nothing.
pub cons_getc-Holds :
    (serial_exists : Bool) (serial kbd : List ℕ) (s : Cons) (xs : List ℕ)
    → Holds s xs
    → Bytes serial
    → Bytes kbd
    → length xs + length (received serial_exists serial) + length (kept kbd) < consbufsize
    → Takes
        (cons_getc serial_exists serial kbd s)
        ((xs ++ received serial_exists serial) ++ kept kbd)
unfolding cons_getc kbd_intr
cons_getc-Holds serial_exists serial kbd s xs h a b fit =
    let more = received serial_exists serial in
    let one = serial_intr-Holds serial_exists serial s xs h a (omega arith) in
    let len = length-append xs more in
    let s' = serial_intr serial_exists serial s in
    let two = cons_intr-Holds kbd s' (xs ++ more) one b (omega (arith, len)) in
    cons_take-Takes (cons_intr kbd s') ((xs ++ more) ++ kept kbd) two

-- When 511 characters wait, one more that is not 0 makes the buffer look empty: all are lost.
pub cons_put_full :
    (s : Cons) (xs : List ℕ) (c : ℕ)
    → Holds s xs
    → length xs ≡ 511
    → c ≢ 0
    → (Holds (cons_put c s) []) × (cons_take (cons_put c s) ≡ (0, cons_put c s))
unfolding cons_put cons_take
cons_put_full s xs c h full ne =
    let off : (c == 0) ≡ false = ground arith in
    let same : advance s.wpos ≡ s.rpos = ground (arith, h.written, h.read) in
    let e : (s.rpos == advance s.wpos) ≡ true = ground (arith, same) in
    rw off (
      record {
        read = h.read;
        room = omega arith;
        written = ground (arith, same, h.read);
        pending = _;
        set = _;
      },
      rw e refl,
    )
