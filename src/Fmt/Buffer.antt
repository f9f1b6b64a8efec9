-- ===== src/Fmt/Buffer.antt =====
-- The callers of `vprintfmt`: sprintputch and vsnprintf of lib/printfmt.c, putch and vcprintf of
-- kern/printf.c.
use jos_vmx.Base.{
  ℕ, zero, suc, ◌+◌, ◌-◌, ◌%◌, ◌^◌, ◌<◌, ◌≤◌, ◌≡◌, refl, ◌∙◌, ap, Option, none, some, true, false,
  List, [], ◌∷◌, ◌==◌, ltb, leb, if◌then◌else◌, length, set, min, arith, Bool-cases, inl, inr,
  get_or,
}
use native.Mathlib.Decide.{ℕ_discrete}
use jos_vmx.Base.{get_or-set_self, get_or-set_ne, length-set, ◌&&◌}
use jos_vmx.Base.Int.{ℤ, pos, negsuc}
use jos_vmx.Fmt.{Arg, vprintfmt}

-- `struct sprintbuf` over the caller's array: `at` is `b->buf` and `last` is `b->ebuf`, counted from
-- the array's start.
pub record SprintBuf : Type 0 where
  pub array : List ℕ
  pub at : ℕ
  pub last : ℕ
  pub cnt : ℕ

unfoldable pub sprintputch : ℕ → SprintBuf → SprintBuf
sprintputch ch b =
    if ltb b.at b.last
    then record {
      array = set b.array b.at (ch % 2 ^ 8);
      at = b.at + 1;
      last = b.last;
      cnt = b.cnt + 1;
    }
    else record { array = b.array; at = b.at; last = b.last; cnt = b.cnt + 1 }

-- What `vprintfmt` passes to `sprintputch`, one after another.
unfoldable pub put_all : List ℕ → SprintBuf → SprintBuf
put_all [] b = b
put_all (c ∷ out) b = put_all out (sprintputch c b)

-- The result and the array; `-E_INVAL` is -3. `none` is a format that `vprintfmt` cannot read.
-- An array given as `none` is a null pointer.
unfoldable pub vsnprintf :
    ℕ → Option (List ℕ) → ℤ → List ℕ → List Arg → Option (ℤ × Option (List ℕ))
vsnprintf fuel none n fmt ap = some (negsuc 2, none)
vsnprintf fuel (some buf) (negsuc n) fmt ap = some (negsuc 2, some buf)
vsnprintf fuel (some buf) (pos zero) fmt ap = some (negsuc 2, some buf)
vsnprintf fuel (some buf) (pos (suc n)) fmt ap = elim (vprintfmt fuel fmt ap) [
  | none ↦ none
  | some out ↦
      let b = put_all out (record { array = buf; at = 0; last = n; cnt = 0 }) in
      some (pos b.cnt, some (set b.array b.at 0))
]

-- `*cnt++` in `putch` moves the pointer, its own copy, so that `cnt` stays 0.
unfoldable pub vcprintf : ℕ → List ℕ → List Arg → Option (ℤ × List ℕ)
vcprintf fuel fmt ap = elim (vprintfmt fuel fmt ap) [ none ↦ none | some out ↦ some (pos 0, out) ]

put_all-cnt : (out : List ℕ) (b : SprintBuf) → (put_all out b).cnt ≡ b.cnt + length out
unfolding put_all sprintputch
put_all-cnt [] b = omega arith
put_all-cnt (c ∷ out) b = ground (arith, put_all-cnt out (sprintputch c b))

put_all-length : (out : List ℕ) (b : SprintBuf) → length (put_all out b).array ≡ length b.array
unfolding put_all sprintputch
put_all-length [] b = refl
put_all-length (c ∷ out) b =
    ground (arith, put_all-length out (sprintputch c b), length-set b.array b.at (c % 2 ^ 8))

put_all-at :
    (out : List ℕ) (b : SprintBuf)
    → b.at ≤ b.last
    → (put_all out b).at ≡ min b.last (b.at + length out)
unfolding put_all sprintputch
put_all-at [] b h = omega arith
put_all-at (c ∷ out) b h = ground (arith, put_all-at out (sprintputch c b))

get_or-set :
    (xs : List ℕ) (i j v : ℕ)
    → i < length xs
    → get_or (set xs i v) j 0 ≡ (if i == j then v else get_or xs j 0)
get_or-set xs i j v h = elim (ℕ_discrete i j) [
  | yes e ↦
      let same : (i == j) ≡ true = ground arith in rw same (rw (← e) (get_or-set_self xs i v 0 h))
  | no ne ↦ let other : (i == j) ≡ false = ground arith in rw other (get_or-set_ne xs i j v 0 ne)
]

get_or_cons :
    (c : ℕ) (out : List ℕ) (k : ℕ)
    → get_or (c ∷ out) k 0 ≡ (if k == 0 then c else get_or out (k - 1) 0)
get_or_cons c out zero = refl
get_or_cons c out (suc k) = ground arith

-- The two halves of a write at `b.at` and the writes behind it.
placed :
    (c : ℕ) (out : List ℕ) (b : SprintBuf) (i : ℕ)
    → get_or (set b.array b.at (c % 2 ^ 8)) i 0
      ≡ (if b.at == i then c % 2 ^ 8 else get_or b.array i 0)
    → b.at ≤ b.last
    → ltb b.at b.last ≡ true
    → (if leb (b.at + 1) i && ltb i (min b.last (b.at + 1 + length out))
        then get_or out (i - (b.at + 1)) 0 % 2 ^ 8
        else get_or (set b.array b.at (c % 2 ^ 8)) i 0)
      ≡ (if leb b.at i && ltb i (min b.last (b.at + length (c ∷ out)))
          then get_or (c ∷ out) (i - b.at) 0 % 2 ^ 8
          else get_or b.array i 0)
placed c out b i cell h room =
    let cons = get_or_cons c out (i - b.at) in
    let back : i - (b.at + 1) ≡ i - b.at - 1 = omega arith in
    elim (ℕ_discrete b.at i) [
      | yes e ↦
          let behind : leb (b.at + 1) i ≡ false = ground arith in
          let same : (b.at == i) ≡ true = ground arith in
          let from : leb b.at i ≡ true = ground arith in
          let first : (i - b.at == 0) ≡ true = ground arith in
          let inside : ltb i (min b.last (b.at + length (c ∷ out))) ≡ true = ground (arith, room) in
          rw (behind, cell, same, from, inside, cons, first) refl
      | no ne ↦
          let other : (b.at == i) ≡ false = ground arith in
          let behind : leb (b.at + 1) i ≡ leb b.at i = ground arith in
          let count : b.at + 1 + length out ≡ b.at + length (c ∷ out) = omega arith in
          rw (behind, cell, other, count)
            (elim (Bool-cases (leb b.at i)) [
              | inl from ↦
                  let later : (i - b.at == 0) ≡ false = ground (arith, from) in
                  rw (from, cons, later, back) refl
              | inr before ↦ rw before refl
            ])
    ]

put_all-array :
    (out : List ℕ) (b : SprintBuf) (i : ℕ)
    → b.at ≤ b.last
    → b.last < length b.array
    → get_or (put_all out b).array i 0 ≡ (
        if leb b.at i && ltb i (min b.last (b.at + length out))
        then get_or out (i - b.at) 0 % 2 ^ 8
        else get_or b.array i 0)
unfolding put_all
put_all-array [] b i h k = ground arith
put_all-array (c ∷ out) b i h k = elim (Bool-cases (ltb b.at b.last)) [
  | inl room ↦
      let b₁ : SprintBuf = record {
        array = set b.array b.at (c % 2 ^ 8);
        at = b.at + 1;
        last = b.last;
        cnt = b.cnt + 1;
      } in
      let put : sprintputch c b ≡ b₁ = unfold sprintputch in rw room refl in
      let len = length-set b.array b.at (c % 2 ^ 8) in
      let ih = put_all-array out b₁ i (ground (arith, room)) (omega (arith, k, len)) in
      let cell = get_or-set b.array b.at i (c % 2 ^ 8) (ground (arith, room, k)) in
      ap (λ s. get_or (put_all out s).array i 0) put ∙ ih ∙ placed c out b i cell h room
  | inr full ↦
      let put : sprintputch c b ≡ record b { cnt = b.cnt + 1 } =
        unfold sprintputch in rw full refl in
      let ih = put_all-array out (record b { cnt = b.cnt + 1 }) i h k in
      ap (λ s. get_or (put_all out s).array i 0) put ∙ ih ∙ ground (arith, full)
]

terminator :
    (i k c d : ℕ)
    → (if k == i then 0 else (if ltb i k then c else d))
      ≡ (if ltb i k then c else (if i == k then 0 else d))
terminator i k c d = ground arith

-- With room in an array of at least `n` bytes `vsnprintf` stores the output of `vprintfmt` cut to
-- `n - 1` characters, each as a byte, and a terminator behind them, changes no other byte, and
-- returns the length of the whole output; without an array or for `n` below 1 it returns
-- `-E_INVAL` and stores nothing.
pub vsnprintf_lem :
    (fuel n : ℕ) (buf fmt out : List ℕ) (args : List Arg) (i : ℕ)
    → vprintfmt fuel fmt args ≡ some out
    → n < length buf
    → ((array : List ℕ) × (vsnprintf fuel (some buf) (pos (suc n)) fmt args
          ≡ some (pos (length out), some array))
        × (get_or array i 0 ≡ (
            if ltb i (min n (length out))
            then get_or out i 0 % 2 ^ 8
            else if i == min n (length out)
            then 0
            else get_or buf i 0)))
      × (vsnprintf fuel (some buf) (pos 0) fmt args ≡ some (negsuc 2, some buf))
      × (vsnprintf fuel (some buf) (negsuc n) fmt args ≡ some (negsuc 2, some buf))
      × (vsnprintf fuel none (pos n) fmt args ≡ some (negsuc 2, none))
unfolding vsnprintf
vsnprintf_lem fuel n buf fmt out args i e room =
    let b₀ : SprintBuf = record { array = buf; at = 0; last = n; cnt = 0 } in
    let b = put_all out b₀ in
    let whole : 0 + length out ≡ length out = omega arith in
    let at : b.at ≡ min n (length out) = put_all-at out b₀ (omega arith) ∙ ap (min n) whole in
    let len = put_all-length out b₀ in
    let count : b.cnt ≡ length out = put_all-cnt out b₀ ∙ whole in
    let back : i - 0 ≡ i = omega arith in
    let low : leb 0 i ≡ true = ground arith in
    let cells : get_or b.array i 0
        ≡ (if ltb i (min n (length out)) then get_or out i 0 % 2 ^ 8 else get_or buf i 0) =
      put_all-array out b₀ i (omega arith) room ∙ rw (whole, back, low) refl in
    let end = get_or-set b.array b.at i 0 (ground (arith, len, room, at)) in
    (
      (
        set b.array b.at 0,
        rw (e, vsnprintf) (ap (λ k. some (pos k, some (set b.array b.at 0))) count),
        end
            ∙ rw (at, cells)
                (terminator i (min n (length out)) (get_or out i 0 % 2 ^ 8) (get_or buf i 0)),
      ),
      refl,
      refl,
      refl,
    )
