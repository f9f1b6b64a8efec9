-- ===== src/Monitor/Parse.antt =====
-- The first half of `runcmd` in kern/monitor.c: a line into at most 15 arguments.
use jos_vmx.Base.{
  ℕ, zero, suc, ◌≡◌, ◌≢◌, refl, ◌∙◌, Bool, true, false, not, ◌&&◌, ◌||◌, List, [], ◌∷◌, ◌++◌, ◌==◌,
  leb, if◌then◌else◌, length, arith,
}

-- `strchr(WHITESPACE, c)` for a character other than 0
abbrev pub is_white : ℕ → Bool
is_white c = (c == b'\t') || ((c == b'\r') || ((c == b'\n') || (c == b' ')))

-- `while (*buf && strchr(WHITESPACE, *buf)) *buf++ = 0;`
unfoldable pub gobble : List ℕ → List ℕ
gobble [] = []
gobble (c ∷ s) = let rest = gobble s in if not (c == 0) && is_white c then rest else (c ∷ s)

-- `while (*buf && !strchr(WHITESPACE, *buf)) buf++;`: the word, which the next round of gobbling or
-- the end of the line terminates, and the rest.
unfoldable pub scan : List ℕ → List ℕ × List ℕ
scan [] = ([], [])
scan (c ∷ s) =
    let more = scan s in
    if not (c == 0) && not (is_white c) then (c ∷ more.0, more.1) else ([], c ∷ s)

pub data Parsed : Type 0 where
  args : List (List ℕ) → Parsed
  too_many : Parsed

abbrev pub prepend : List ℕ → Parsed → Parsed
prepend word too_many = too_many
prepend word (args argv) = args (word ∷ argv)

-- The loop behind the gobbling, where `left` arguments still have room.
unfoldable pub parse_args : ℕ → List ℕ → Parsed
parse_args left [] = args []
parse_args zero (c ∷ s) = if c == 0 then args [] else too_many
parse_args (suc left) (c ∷ s) =
    let found = scan (c ∷ s) in
    let more = parse_args left (gobble found.1) in if c == 0 then args [] else prepend found.0 more

-- The whole loop, with room for MAXARGS - 1 arguments.
unfoldable pub parse : List ℕ → Parsed
parse s = parse_args 15 (gobble s)

-- A line made of words, each behind its blanks.
abbrev pub render : List (List ℕ × List ℕ) → List ℕ → List ℕ
render [] end = end
render ((blanks, word) ∷ more) end = blanks ++ (word ++ render more end)

abbrev pub words_of : List (List ℕ × List ℕ) → List (List ℕ)
words_of [] = []
words_of ((blanks, word) ∷ more) = word ∷ words_of more

abbrev pub AllWhite : List ℕ → Type 0
AllWhite [] = Unit
AllWhite (c ∷ s) = (is_white c ≡ true) × AllWhite s

abbrev pub AllPlain : List ℕ → Type 0
AllPlain [] = Unit
AllPlain (c ∷ s) = (c ≢ 0) × (is_white c ≡ false) × AllPlain s

abbrev pub Separate : List (List ℕ × List ℕ) → Type 0
Separate [] = Unit
Separate ((blanks, word) ∷ more) = blanks ≢ []

-- Blanks are blank, words are not empty and have no blank and no 0, and two words have a blank
-- between them.
abbrev pub IsLayout : List (List ℕ × List ℕ) → Type 0
IsLayout [] = Unit
IsLayout ((blanks, word) ∷ more) =
    AllWhite blanks × (AllPlain word × (word ≢ [])) × Separate more × IsLayout more

-- A text in which a word ends at once.
abbrev Stops : List ℕ → Type 0
Stops [] = Unit
Stops (c ∷ s) = (not (c == 0) && not (is_white c)) ≡ false

white-Stops : (b s : List ℕ) → AllWhite b → b ≢ [] → Stops (b ++ s)
white-Stops [] s w ne = absurd (ne refl)
white-Stops (c ∷ b) s w ne = rw w.0 (ground arith)

gobble_blanks : (b s : List ℕ) → AllWhite b → gobble (b ++ s) ≡ gobble s
unfolding gobble
gobble_blanks [] s w = refl
gobble_blanks (c ∷ b) s w =
    let on : (not (c == 0) && is_white c) ≡ true = ground (arith, w.0) in
    rw on (gobble_blanks b s w.1)

scan_word : (word s : List ℕ) → AllPlain word → Stops s → scan (word ++ s) ≡ (word, s)
unfolding scan
scan_word [] [] p stop = refl
scan_word [] (c ∷ s) p stop = rw stop refl
scan_word (c ∷ word) s p stop =
    let on : (not (c == 0) && not (is_white c)) ≡ true = ground (arith, p.0, p.1) in
    rw (on, scan_word word s p.2 stop) refl

abbrev ending : List ℕ → List ℕ → List ℕ
ending trail rest = trail ++ (0 ∷ rest)

ending-Stops : (trail rest : List ℕ) → AllWhite trail → Stops (ending trail rest)
ending-Stops [] rest w = refl
ending-Stops (c ∷ trail) rest w = rw w.0 (ground arith)

render-Stops :
    (lay : List (List ℕ × List ℕ)) (trail rest : List ℕ)
    → IsLayout lay
    → Separate lay
    → AllWhite trail
    → Stops (render lay (ending trail rest))
render-Stops [] trail rest l apart w = ending-Stops trail rest w
render-Stops ((blanks, word) ∷ more) trail rest l apart w =
    white-Stops blanks (word ++ render more (ending trail rest)) l.0 apart

gobble_plain : (c : ℕ) (s : List ℕ) → is_white c ≡ false → gobble (c ∷ s) ≡ c ∷ s
unfolding gobble
gobble_plain c s w =
    let off : (not (c == 0) && is_white c) ≡ false = ground (arith, w) in rw off refl

next_word :
    (left c : ℕ) (s word tail : List ℕ)
    → (c == 0) ≡ false
    → scan (c ∷ s) ≡ (word, tail)
    → parse_args (suc left) (c ∷ s) ≡ prepend word (parse_args left (gobble tail))
unfolding parse_args
next_word left c s word tail some_char found = rw (some_char, found) refl

prepend_if :
    (fits : Bool) (word : List ℕ) (argv : List (List ℕ))
    → prepend word (if fits then args argv else too_many)
      ≡ (if fits then args (word ∷ argv) else too_many)
prepend_if true word argv = refl
prepend_if false word argv = refl

parse_args_lem :
    (left : ℕ) (lay : List (List ℕ × List ℕ)) (trail rest : List ℕ)
    → IsLayout lay
    → AllWhite trail
    → parse_args left (gobble (render lay (ending trail rest)))
      ≡ (if leb (length lay) left then args (words_of lay) else too_many)
parse_args_lem zero [] trail rest l w =
    rw (gobble_blanks trail (0 ∷ rest) w) (unfold gobble in unfold parse_args in refl)
parse_args_lem (suc left) [] trail rest l w =
    let z : leb 0 (suc left) ≡ true = ground arith in
    rw (gobble_blanks trail (0 ∷ rest) w, z) (unfold gobble in unfold parse_args in refl)
parse_args_lem left ((blanks, []) ∷ more) trail rest l w = absurd (l.1.1 refl)
parse_args_lem zero ((blanks, c ∷ word) ∷ more) trail rest l w =
    let after = word ++ render more (ending trail rest) in
    let e = gobble_blanks blanks (c ∷ after) l.0 ∙ gobble_plain c after l.1.0.1 in
    let full : leb (suc (length more)) 0 ≡ false = ground arith in
    let some_char : (c == 0) ≡ false = ground (arith, l.1.0.0) in
    rw (e, full) (unfold parse_args in rw some_char refl)
parse_args_lem (suc left) ((blanks, c ∷ word) ∷ more) trail rest l w =
    let tail = render more (ending trail rest) in
    let e = gobble_blanks blanks (c ∷ (word ++ tail)) l.0 ∙ gobble_plain c (word ++ tail) l.1.0.1 in
    let some_char : (c == 0) ≡ false = ground (arith, l.1.0.0) in
    let found = scan_word (c ∷ word) tail l.1.0 (render-Stops more trail rest l.3 l.2 w) in
    let ih = parse_args_lem left more trail rest l.3 w in
    let same : leb (suc (length more)) (suc left) ≡ leb (length more) left = ground arith in
    rw (e, same)
      (next_word left c (word ++ tail) (c ∷ word) tail some_char found
        ∙ rw ih (prepend_if (leb (length more) left) (c ∷ word) (words_of more)))

-- A line of at most 15 words with blanks before, between and behind them parses into exactly
-- these words, in their order; a line of more words is refused.
pub parse_lem :
    (lay : List (List ℕ × List ℕ)) (trail rest : List ℕ)
    → IsLayout lay
    → AllWhite trail
    → parse (render lay (trail ++ (0 ∷ rest)))
      ≡ (if leb (length lay) 15 then args (words_of lay) else too_many)
unfolding parse
parse_lem lay trail rest l w = parse_args_lem 15 lay trail rest l w
