-- ===== src/Monitor/Readline.antt =====
-- `readline` of lib/readline.c. The characters that `getchar` returns are a list; it returns no
-- negative value, so that the branch `read error` is never taken. What is echoed is collected.
use native.Mathlib.Decide.{ℕ_discrete}
use jos_vmx.Base.{
  ℕ, zero, suc, reverse, ◌+◌, ◌-◌, ◌<◌, ◌≤◌, ◌≡◌, refl, Option, none, some, true, false, ◌&&◌, ◌||◌,
  List, [], ◌∷◌, ◌==◌, ltb, leb, if◌then◌else◌, length, update, arith, Bool-cases, inl, inr,
}

abbrev pub buflen : ℕ
buflen = 1024

-- `i`, `buf` and what was echoed, the last character first.
pub record Line : Type 0 where
  pub i : ℕ
  pub buf : ℕ → ℕ
  pub echo : List ℕ

abbrev typed : ℕ → Line → Line
typed c s = record { i = s.i + 1; buf = update s.buf s.i c; echo = c ∷ s.echo }

abbrev erased : ℕ → Line → Line
erased c s = record { i = s.i - 1; buf = s.buf; echo = c ∷ s.echo }

abbrev ended : ℕ → Line → Line
ended c s = record { i = s.i; buf = update s.buf s.i 0; echo = c ∷ s.echo }

-- The loop; `none` if the characters end before the line does.
unfoldable pub readline_loop : List ℕ → Line → Option Line
readline_loop [] s = none
readline_loop (c ∷ cs) s =
    let on_typed = readline_loop cs (typed c s) in
    let on_erased = readline_loop cs (erased c s) in
    let on_other = readline_loop cs s in
    if leb b' ' c && ltb s.i (buflen - 1)
    then on_typed
    else if (c == 8) && ltb 0 s.i
    then on_erased
    else if (c == b'\n') || (c == b'\r')
    then some (ended c s)
    else on_other

-- The buffer and what was printed, the last character first.
abbrev pub returned : Option Line → Option ((ℕ → ℕ) × List ℕ)
returned none = none
returned (some s) = some (s.buf, s.echo)

-- `strcpy(buf, "exit")`
abbrev exit_line : (ℕ → ℕ) → ℕ → ℕ
exit_line buf = update (update (update (update (update buf 0 b'e') 1 b'x') 2 b'i') 3 b't') 4 0

-- What `cprintf("%s", prompt)` prints of a prompt in ASCII.
abbrev prompted : Option (List ℕ) → List ℕ
prompted none = []
prompted (some prompt) = reverse prompt

unfoldable pub readline :
    (readline_hack : ℕ) → Option (List ℕ) → List ℕ → (ℕ → ℕ) → Option ((ℕ → ℕ) × List ℕ)
readline zero prompt cs buf =
    returned (readline_loop cs (record { i = 0; buf = buf; echo = prompted prompt }))
readline (suc hack) prompt cs buf = some (exit_line buf, [])

-- A line without its last character.
abbrev tail : List ℕ → List ℕ
tail [] = []
tail (c ∷ line) = line

-- The line as a user sees it, the last character first: a printing character is added while the
-- line has room, a backspace takes the last one back, a line end ends the line, and anything else
-- is ignored.
unfoldable pub edit : List ℕ → List ℕ → Option (List ℕ)
edit [] line = none
edit (c ∷ cs) line =
    let more = edit cs (c ∷ line) in
    let skip = edit cs line in
    let back = edit cs (tail line) in
    if (c == b'\n') || (c == b'\r')
    then some line
    else if c == 8
    then back
    else if leb b' ' c && ltb (length line) 1023
    then more
    else skip

-- The array holds `line`.
abbrev pub HoldsLine : (ℕ → ℕ) → List ℕ → Type 0
HoldsLine buf [] = Unit
HoldsLine buf (c ∷ line) = (buf (length line) ≡ c) × HoldsLine buf line

HoldsLine-update :
    (line : List ℕ) (buf : ℕ → ℕ) (k v : ℕ)
    → length line ≤ k
    → HoldsLine buf line
    → HoldsLine (update buf k v) line
HoldsLine-update [] buf k v h p = _
HoldsLine-update (c ∷ line) buf k v h p =
    (ground (arith, p.0), HoldsLine-update line buf k v (omega arith) p.1)

length-tail : (line : List ℕ) → length (tail line) ≡ length line - 1
length-tail [] = refl
length-tail (c ∷ line) = omega arith

HoldsLine-tail : (line : List ℕ) (buf : ℕ → ℕ) → HoldsLine buf line → HoldsLine buf (tail line)
HoldsLine-tail [] buf p = _
HoldsLine-tail (c ∷ line) buf p = p.1

-- What the loop ends with for what the user typed.
abbrev pub Returns : Option Line → Option (List ℕ) → Type 0
Returns none none = Unit
Returns none (some line) = ⊥
Returns (some s) none = ⊥
Returns (some s) (some line) =
    (s.i ≡ length line) × (length line < buflen) × (s.buf (length line) ≡ 0) × HoldsLine s.buf line

readline_loop-Returns :
    (cs line : List ℕ) (s : Line)
    → s.i ≡ length line
    → length line < buflen
    → HoldsLine s.buf line
    → Returns (readline_loop cs s) (edit cs line)
unfolding readline_loop edit
readline_loop-Returns [] line s e small p = _
readline_loop-Returns (c ∷ cs) line s e small p = elim (Bool-cases ((c == b'\n') || (c == b'\r'))) [
  | inl stop ↦
      let print : leb b' ' c ≡ false = ground (arith, stop) in
      let back : (c == 8) ≡ false = ground (arith, stop) in
      rw (stop, print, back)
        (e, small, ground (arith, e), HoldsLine-update line s.buf s.i 0 (omega (arith, e)) p)
  | inr go ↦ elim (ℕ_discrete c 8) [
    | yes k ↦
        let print : leb b' ' c ≡ false = ground arith in
        let back : (c == 8) ≡ true = ground arith in
        let len = length-tail line in
        rw (go, print, back)
          (elim (Bool-cases (ltb 0 s.i)) [
            | inl some_left ↦
                let ih =
                  readline_loop-Returns cs (tail line) (erased c s) (omega (arith, e, len))
                    (omega (arith, small, len)) (HoldsLine-tail line s.buf p) in
                rw some_left ih
            | inr empty ↦
                let ih =
                  readline_loop-Returns cs (tail line) s (ground (arith, e, len, empty))
                    (omega (arith, small, len)) (HoldsLine-tail line s.buf p) in
                rw empty ih
          ])
    | no k ↦
        let back : (c == 8) ≡ false = ground arith in
        rw (go, back)
          (elim (Bool-cases (leb b' ' c && ltb (length line) 1023)) [
            | inl print ↦
                let ih =
                  readline_loop-Returns cs (c ∷ line) (typed c s) (omega (arith, e))
                    (ground (arith, print))
                    (ground (arith, e), HoldsLine-update line s.buf s.i c (omega (arith, e)) p) in
                let fits : (leb b' ' c && ltb s.i 1023) ≡ true = rw e print in rw (fits, print) ih
            | inr skip ↦
                let full : (leb b' ' c && ltb s.i 1023) ≡ false = rw e skip in
                rw (full, skip) (readline_loop-Returns cs line s e small p)
          ])
  ]
]

-- The string in the buffer that readline returns is `line`, given the last character first.
abbrev pub ReturnsLine : Option ((ℕ → ℕ) × List ℕ) → Option (List ℕ) → Type 0
ReturnsLine none none = Unit
ReturnsLine none (some line) = ⊥
ReturnsLine (some r) none = ⊥
ReturnsLine (some r) (some line) =
    (length line < buflen) × (r.0 (length line) ≡ 0) × HoldsLine r.0 line

Returns-returned :
    (r : Option Line) (line : Option (List ℕ)) → Returns r line → ReturnsLine (returned r) line
Returns-returned none none h = _
Returns-returned none (some line) h = absurd h
Returns-returned (some s) none h = absurd h
Returns-returned (some s) (some line) h = let (_, fits, ends, holds) = h in (fits, ends, holds)

-- What readline is to return: the line as the user edits it, or `exit` where readline_hack is set.
unfoldable pub expected : ℕ → List ℕ → Option (List ℕ)
expected zero cs = edit cs []
expected (suc n) cs = some (b't' ∷ b'i' ∷ b'x' ∷ b'e' ∷ [])

-- Unless readline_hack is set, readline returns exactly when the user ends the line, and the buffer
-- then holds the characters of the edited line in their order. If it is set, readline returns at
-- once, and the buffer holds `exit`. In both cases a terminator stands behind the characters, and
-- both fit the 1024 bytes of the buffer.
pub readline-Returns :
    (readline_hack : ℕ) (prompt : Option (List ℕ)) (cs : List ℕ) (buf : ℕ → ℕ)
    → ReturnsLine (readline readline_hack prompt cs buf) (expected readline_hack cs)
unfolding readline expected
readline-Returns zero prompt cs buf =
    let s : Line = record { i = 0; buf = buf; echo = prompted prompt } in
    Returns-returned (readline_loop cs s) (edit cs [])
      (readline_loop-Returns cs [] s refl (omega arith) _)
readline-Returns (suc n) prompt cs buf = (omega arith, refl, (refl, (refl, (refl, (refl, _)))))
