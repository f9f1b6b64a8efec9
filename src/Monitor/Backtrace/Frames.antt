-- ===== src/Monitor/Backtrace/Frames.antt =====
-- mon_backtrace shows every frame of a stack that ends.
use jos_vmx.Base.{
  ℕ, zero, suc, ◌+◌, ◌%◌, ◌^◌, ◌≤◌, ◌<◌, ◌≡◌, refl, ap, some, false, List, [], ◌∷◌, ◌++◌, map, ◌==◌,
  length, take, arith,
}
use jos_vmx.Kdebug.{Stab}
use jos_vmx.Kdebug.Eip.{Eipdebuginfo, text_of}
use jos_vmx.Monitor.Backtrace.{
  char_call, joined, name_calls, frame_call, file_call, offset_calls, frame_calls, backtrace_from,
  mon_backtrace, IsChain, IsKnown, AllKnown, shown_frames,
}

name_calls_lem :
    (n : ℕ) (name : List ℕ)
    → n ≤ length name
    → name_calls n name ≡ some (map char_call (take n name))
unfolding name_calls
name_calls_lem zero name h = refl
name_calls_lem (suc n) [] h = absurd (omega (arith, h))
name_calls_lem (suc n) (c ∷ name) h =
    ap (joined (char_call c ∷ [])) (name_calls_lem n name (omega (arith, h)))

module _ (stabs : ℕ → Stab) (count : ℕ) (stabstr : List ℕ) (stack : ℕ → ℕ)
    (info : ℕ → Eipdebuginfo) where
  frame_calls_lem :
      (index f : ℕ)
      → IsKnown stabs count stabstr stack info f
      → frame_calls stabs count stabstr stack index f (info f)
        ≡ some (
            frame_call stabs count stabstr stack index f
            ∷ file_call stabs count stabstr stack (info f)
            ∷ (map char_call
                  (take (info f).eip_fn_namelen (text_of stabs count stabstr (info f).eip_fn_name))
                ++ offset_calls stabs count stabstr stack f (info f)))
  unfolding frame_calls
  frame_calls_lem index f known =
      let name =
        name_calls_lem (info f).eip_fn_namelen (text_of stabs count stabstr (info f).eip_fn_name)
          known.named in
      ground (arith, name)

  backtrace_from-shown_frames :
      (frames : List ℕ) (index ebp : ℕ)
      → IsChain stabs count stabstr stack ebp frames
      → AllKnown stabs count stabstr stack info frames
      → index + length frames < 2 ^ 32
      → backtrace_from stabs count stabstr stack (suc (length frames)) index ebp
        ≡ some (shown_frames stabs count stabstr stack info index frames)
  unfolding backtrace_from
  backtrace_from-shown_frames [] index ebp e known h = rw e refl
  backtrace_from-shown_frames (f ∷ more) index ebp chain known h =
      let (e, nonzero, rest) = chain in
      let next : (index + 1) % 2 ^ 32 ≡ index + 1 = omega (arith, h) in
      let test : (f == 0) ≡ false = ground arith in
      let ih =
        backtrace_from-shown_frames more (index + 1) (stack f) rest known.1 (omega (arith, h)) in
      let first = frame_calls_lem index f known.0 in
      rw (e, test, known.0.returns, first, next, ih) refl

  -- If the saved values of ebp, from the register's on, are `frames` and end with 0, and
  -- debuginfo_eip returns for every return address, mon_backtrace ends, in a round for each frame and
  -- one more, and shows every frame once, from the innermost to the outermost, numbered from 0, with
  -- the first bytes of its function's name.
  pub mon_backtrace_lem :
      (frames : List ℕ) (ebp : ℕ)
      → IsChain stabs count stabstr stack ebp frames
      → AllKnown stabs count stabstr stack info frames
      → length frames < 2 ^ 32
      → mon_backtrace stabs count stabstr stack (suc (length frames)) ebp
        ≡ some (("Stack backtrace:\n", []) ∷ shown_frames stabs count stabstr stack info 0 frames)
  unfolding mon_backtrace
  mon_backtrace_lem frames ebp chain known h =
      ap (joined (("Stack backtrace:\n", []) ∷ []))
        (backtrace_from-shown_frames frames 0 ebp chain known (omega (arith, h)))
