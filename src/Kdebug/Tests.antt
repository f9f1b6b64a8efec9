-- ===== src/Kdebug/Tests.antt =====
-- Runs of the search and of debuginfo_eip, and the theorems at a table of eight entries.
use jos_vmx.Base.{
  ℕ, suc, ◌+◌, ◌≤◌, ◌<◌, ◌≡◌, ◌⊎◌, refl, Bool, true, false, ◌&&◌, ◌||◌, not, some, List, [], ◌∷◌,
  ◌==◌, ltb, leb, arith, get_or, inl, inr,
}
use jos_vmx.Base.Int.{pos, negsuc}
use jos_vmx.Base.Table.{all_below, all_below_sound}
use jos_vmx.Str.{strfind}
use jos_vmx.Str.Scan.{IsFirst}
use jos_vmx.Kdebug.{
  Stab, Region, n_fun, n_sline, n_so, latest, probe, bisect_at, bisect, bisect_loop, rightmost,
  settle, settled, stab_binsearch,
}
use jos_vmx.Kdebug.Bracket.{IsSearchable}
use jos_vmx.Kdebug.Found.{IsLast, IsNext, stab_binsearch_above, stab_binsearch_absent}
use jos_vmx.Kdebug.Search.{stab_binsearch_total}
use jos_vmx.Kdebug.Eip.{
  returned, unknown, in_table, is_source, count_params, find_source, checked_name, with_file,
  with_params, at_line, in_lines, with_name, in_function, in_functions, in_file, in_files,
  bad_strings, debuginfo_eip,
}
use jos_vmx.Kdebug.Eip.Lines.{Describes, debuginfo_eip_lem}

abbrev entry : ℕ → ℕ → ℕ → ℕ → Stab
entry strx type desc value = record {
  n_strx = strx;
  n_type = type;
  n_other = 0;
  n_desc = desc;
  n_value = value;
}

-- A header, a file with a function of one parameter and two lines, and the end of the file.
stabs : ℕ → Stab
stabs i =
    get_or
      (entry 0 0 0 0
        ∷ entry 1 n_so 0 0xf010_0000
        ∷ entry 5 n_fun 0 0xf010_0010
        ∷ entry 0 0xa0 0 8
        ∷ entry 0 n_sline 10 0
        ∷ entry 0 n_sline 11 8
        ∷ entry 0 n_so 0 0xf010_0040
        ∷ entry 0 0 0 0
        ∷ [])
      i (entry 0 0 0 0)

-- The strings "", "f.c" and "m:F".
abbrev strings : List ℕ
strings = 0 ∷ b'f' ∷ b'.' ∷ b'c' ∷ 0 ∷ b'm' ∷ b':' ∷ b'F' ∷ 0 ∷ []

program : Unit {0}
unfolding stabs latest probe bisect_at bisect bisect_loop rightmost settle settled stab_binsearch
    is_source count_params find_source checked_name with_file with_params at_line in_lines with_name
    in_function in_functions in_file in_files bad_strings debuginfo_eip strfind
program = tt

eip_run :
    debuginfo_eip stabs 8 strings 0xf010_001a
    ≡ returned (pos 0) (record {
      eip_file = in_table 1;
      eip_line = 11;
      eip_fn_name = in_table 5;
      eip_fn_namelen = 1;
      eip_fn_addr = 0xf010_0010;
      eip_fn_narg = 1;
    })
unfolding program
eip_run = refl

-- Before the first function the entry of the file is taken for the function, and no line is found
-- in its region.
eip_before_function :
    debuginfo_eip stabs 8 strings 0xf010_0002
    ≡ returned (negsuc 0) (record {
      eip_file = unknown;
      eip_line = 0;
      eip_fn_name = in_table 1;
      eip_fn_namelen = 3;
      eip_fn_addr = 0xf010_0000;
      eip_fn_narg = 0;
    })
unfolding program
eip_before_function = refl

-- A region is searchable if each of its entries passes this test against those before it.
before : ℕ → ℕ → ℕ → ℕ → Bool
before type left j i =
    not (leb left i && (stabs i).n_type == type) || leb (stabs i).n_value (stabs j).n_value

ordered : ℕ → ℕ → ℕ → ℕ → Bool
unfolding before
ordered type left addr j =
    not (leb left j && (stabs j).n_type == type)
    || (not ((stabs j).n_value == addr + 1) && all_below (suc j) (before type left j))

ordered-IsSearchable :
    (type left hi addr : ℕ)
    → left ≤ hi
    → addr + 1 < 0x1_0000_0000
    → all_below hi (ordered type left addr) ≡ true
    → IsSearchable stabs type left hi addr
unfolding ordered
ordered-IsSearchable type left hi addr region no_wrap passed = record {
  region = region;
  no_wrap = no_wrap;
  sorted = λ i j a b c d e. ground (
    arith,
    all_below_sound hi (ordered type left addr) j passed c,
    all_below_sound (suc j) (before type left j) i,
  );
  no_next = λ i a b c. ground (arith, all_below_sound hi (ordered type left addr) i passed b);
}

-- What follows an entry: no entry of the type with a value up to `addr`.
past : ℕ → ℕ → ℕ → ℕ → Bool
past type addr p i = leb i p || not ((stabs i).n_type == type) || ltb addr (stabs i).n_value

is_last :
    (type left hi addr p : ℕ)
    → left ≤ p
    → p < hi
    → (stabs p).n_type ≡ type
    → (stabs p).n_value ≤ addr
    → all_below hi (past type addr p) ≡ true
    → IsLast stabs type left hi addr p
unfolding past
is_last type left hi addr p a b c d passed = record {
  after = a;
  before = b;
  fits = c;
  reached = d;
  beyond = λ i x y z. ground (arith, all_below_sound hi (past type addr p) i passed y);
}

between : ℕ → ℕ → ℕ → Bool
between type p i = leb i p || not ((stabs i).n_type == type)

is_next :
    (type left hi addr p e : ℕ)
    → p < e
    → e ≤ hi
    → (e ≡ hi) ⊎ ((stabs e).n_type ≡ type)
    → all_below e (between type p) ≡ true
    → IsNext stabs type left hi addr p e
unfolding between
is_next type left hi addr p e a b c passed = record {
  after = a;
  inside = b;
  gap = λ i x y. ground (arith, all_below_sound e (between type p) i passed y);
  edge = c;
}

table : Unit {0}
unfolding stabs ordered past between all_below
table = tt

stab_binsearch_above_example :
    stab_binsearch stabs n_fun 12 1 6 0xf010_0002 ≡ some (record { left1 = 2; right1 = 2 })
unfolding table
stab_binsearch_above_example =
    stab_binsearch_above stabs n_fun 1 6 0xf010_0002 12 (omega arith)
      (ordered-IsSearchable n_fun 1 6 0xf010_0002 (omega arith) (omega arith) refl) 2
      (record {
        after = omega arith;
        before = omega arith;
        fits = refl;
        above = omega arith;
        gap = λ i a b. ground (arith, all_below_sound 2 (between n_fun 0) i refl b);
      })

stab_binsearch_absent_example :
    stab_binsearch stabs n_fun 12 3 6 0xf010_0002 ≡ some (record { left1 = 4; right1 = 3 })
unfolding table
stab_binsearch_absent_example =
    stab_binsearch_absent stabs n_fun 3 6 0xf010_0002 12 (omega arith)
      (ordered-IsSearchable n_fun 3 6 0xf010_0002 (omega arith) (omega arith) refl)
      (λ i a b. ground (arith, all_below_sound 6 (between n_fun 2) i refl b))

no_source : ℕ → Bool
no_source i = leb i 1 || not (is_source (stabs i))

no_source_between : all_below 6 no_source ≡ true
unfolding table no_source is_source
no_source_between = refl

source_gap : (i : ℕ) → 1 < i → i ≤ 5 → is_source (stabs i) ≡ false
unfolding no_source
source_gap i a b = ground (arith, all_below_sound 6 no_source i no_source_between)

description : Describes stabs 8 strings 0xf010_001a 1 6 2 6 5 1 4
unfolding table bad_strings is_source
description = record {
  in_kernel = omega arith;
  strings = refl;
  not_first = omega arith;
  files = ordered-IsSearchable n_so 0 8 0xf010_001a (omega arith) (omega arith) refl;
  file_last = is_last n_so 0 8 0xf010_001a 1 (omega arith) (omega arith) refl (omega arith) refl;
  file_next = is_next n_so 0 8 0xf010_001a 1 6 (omega arith) (omega arith) (inr refl) refl;
  functions = ordered-IsSearchable n_fun 1 6 0xf010_001a (omega arith) (omega arith) refl;
  function_last =
      is_last n_fun 1 6 0xf010_001a 2 (omega arith) (omega arith) refl (omega arith) refl;
  function_next = is_next n_fun 1 6 0xf010_001a 2 6 (omega arith) (omega arith) (inl refl) refl;
  lines = ordered-IsSearchable n_sline 2 6 10 (omega arith) (omega arith) refl;
  line_last = is_last n_sline 2 6 10 5 (omega arith) (omega arith) refl (omega arith) refl;
  source_last = record {
    after = omega arith;
    before = omega arith;
    names = refl;
    gap = source_gap;
  };
  source_inside = omega arith;
  function_inside = omega arith;
  params = record {
    order = omega arith;
    all = λ j a b. let e : j ≡ 3 = omega arith in rw e refl;
    stop = omega arith;
  };
  params_inside = omega arith;
}

debuginfo_eip_lem_example :
    (n : ℕ) × IsFirst (b'm' ∷ b':' ∷ b'F' ∷ []) b':' n
    × (debuginfo_eip stabs 8 strings 0xf010_001a
        ≡ returned (pos 0) (record {
          eip_file = in_table (stabs 1).n_strx;
          eip_line = (stabs 5).n_desc;
          eip_fn_name = in_table (stabs 2).n_strx;
          eip_fn_namelen = n;
          eip_fn_addr = (stabs 2).n_value;
          eip_fn_narg = 1;
        }))
unfolding table
debuginfo_eip_lem_example =
    debuginfo_eip_lem stabs 8 strings description (b'm' ∷ b':' ∷ b'F' ∷ []) [] refl (omega arith)

stab_binsearch_total_example : (r : Region) × (stab_binsearch stabs 0 18 0 8 0xf010_001a ≡ some r)
stab_binsearch_total_example = stab_binsearch_total stabs 0 18 0 8 0xf010_001a (omega arith)
