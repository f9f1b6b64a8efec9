-- ===== src/Kdebug/Eip/Lines.antt =====
-- debuginfo_eip on a table that describes the address.
use native.Mathlib.Decide.{ℕ_discrete}
use jos_vmx.Base.{
  ℕ, zero, suc, ◌+◌, ◌-◌, ◌*◌, ◌%◌, ◌^◌, ◌≤◌, ◌<◌, ◌≡◌, ◌≢◌, ap, ◌∙◌, true, false, some, List, leb,
  arith, length, drop, lt→ltb,
}
use jos_vmx.Base.Int.{pos}
use jos_vmx.Str.{strfind}
use jos_vmx.Str.Compare.{IsText, terminated}
use jos_vmx.Str.Scan.{IsFirst, strfind_lem}
use jos_vmx.Kdebug.{Stab, n_fun, n_sline, n_so, n_psym}
use jos_vmx.Kdebug.Bracket.{IsSearchable}
use jos_vmx.Kdebug.Found.{IsLast, IsNext, stab_binsearch_found}
use jos_vmx.Kdebug.Eip.{
  Eipdebuginfo, unknown, in_table, returned, ulim, is_source, search_in, count_params, find_source,
  checked_name, at_line, in_lines, with_name, in_function, in_functions, in_file, in_files,
  bad_strings, debuginfo_eip,
}

module _ (stabs : ℕ → Stab) (type left hi addr p : ℕ) where
  next_unique :
      (d e : ℕ) → IsNext stabs type left hi addr p d → IsNext stabs type left hi addr p e → d ≡ e
  next_unique d e x y =
      ground (arith, x.edge, y.edge, x.gap e, y.gap d, x.after, y.after, x.inside, y.inside)

  search_lem :
      (e : ℕ)
      → IsSearchable stabs type left hi addr
      → IsLast stabs type left hi addr p
      → IsNext stabs type left hi addr p e
      → (count : ℕ) (stabstr : List ℕ)
      → search_in stabs count stabstr type left hi addr
        ≡ some (record { left1 = suc p; right1 = e })
  search_lem e table last next count stabstr =
      let (d, found, at) =
        stab_binsearch_found stabs type left hi addr (2 * (hi - left) + 2) (omega arith) table p
          last in
      at ∙ ap (λ x. some (record { left1 = suc p; right1 = x })) (next_unique d e found next)

module _ (stabs : ℕ → Stab) (count : ℕ) (stabstr : List ℕ) where
  -- The entries from `i` on and before `e` are parameters, and the entry `e` is not.
  pub record HasParams (i e : ℕ) : Type 0 where
    pub order : i ≤ e
    pub all : (j : ℕ) → i ≤ j → j < e → (stabs j).n_type ≡ n_psym
    pub stop : (stabs e).n_type ≢ n_psym

  count_params_lem :
      (k i e : ℕ) → HasParams i e → e < i + k → count_params stabs count stabstr i k ≡ some (e - i)
  unfolding count_params
  count_params_lem zero i e h b = absurd (omega (arith, h.order))
  count_params_lem (suc k) i e h b = elim (ℕ_discrete i e) [
    | yes at ↦ ground (arith, h.stop, ap (λ x. (stabs x).n_type) at)
    | no below ↦
        let more : HasParams (i + 1) e = record {
          order = omega (arith, h.order);
          all = λ j a c. h.all j (omega arith) c;
          stop = h.stop;
        } in
        ground (arith, h.all i, h.order, count_params_lem k (i + 1) e more)
  ]

  -- `s` is the last entry from `lfile` to `lline` that names a source file.
  pub record IsSource (lfile lline s : ℕ) : Type 0 where
    pub after : lfile ≤ s
    pub before : s ≤ lline
    pub names : is_source (stabs s) ≡ true
    pub gap : (i : ℕ) → s < i → i ≤ lline → is_source (stabs i) ≡ false

  find_source_from :
      (lfile k s : ℕ)
      → lfile ≤ s
      → s < lfile + k
      → is_source (stabs s) ≡ true
      → ((i : ℕ) → s < i → i < lfile + k → is_source (stabs i) ≡ false)
      → find_source stabs count stabstr lfile k ≡ some s
  unfolding find_source
  find_source_from lfile zero s a b c d = absurd (omega arith)
  find_source_from lfile (suc k) s a b c d = elim (ℕ_discrete s (lfile + k)) [
    | yes at ↦ ground (arith, ap (λ x. is_source (stabs x)) at)
    | no below ↦ ground (
      arith,
      d (lfile + k),
      find_source_from lfile k s a (omega arith) c (λ i x y. d i x (omega arith)),
    )
  ]

  find_source_lem :
      (lfile lline s : ℕ)
      → IsSource lfile lline s
      → find_source stabs count stabstr lfile (lline + 1 - lfile) ≡ some s
  find_source_lem lfile lline s h =
      find_source_from lfile (lline + 1 - lfile) s h.after (omega (arith, h.before, h.after))
        h.names (λ i a b. h.gap i a (omega (arith, h.before, h.after)))

  -- The table describes `addr`, which no entry that is searched has as its value less 1 (no_next of
  -- IsSearchable): `file`, `function` and `line` are the entries that contain it, with
  -- the ends of the first two regions, `source` names the file of the line, and the parameters of
  -- the function end before the entry `params_end`.
  pub record Describes (addr file file_end function function_end line source params_end : ℕ)
      : Type 0 where
    pub in_kernel : ulim ≤ addr
    pub strings : bad_strings stabs count stabstr ≡ false
    pub not_first : 0 < file
    pub files : IsSearchable stabs n_so 0 count addr
    pub file_last : IsLast stabs n_so 0 count addr file
    pub file_next : IsNext stabs n_so 0 count addr file file_end
    pub functions : IsSearchable stabs n_fun file file_end addr
    pub function_last : IsLast stabs n_fun file file_end addr function
    pub function_next : IsNext stabs n_fun file file_end addr function function_end
    pub lines : IsSearchable stabs n_sline function function_end (addr - (stabs function).n_value)
    pub line_last :
        IsLast stabs n_sline function function_end (addr - (stabs function).n_value) line
    pub source_last : IsSource file line source
    pub source_inside : (stabs source).n_strx < length stabstr
    pub function_inside : (stabs function).n_strx < length stabstr
    pub params : HasParams (function + 1) params_end
    pub params_inside : params_end < count

  module _ {addr file file_end function function_end line source params_end : ℕ}
      (d : Describes addr file file_end function function_end line source params_end)
      (name rest : List ℕ) (text : drop (stabs function).n_strx stabstr ≡ terminated name rest)
      (is_text : IsText name) where
    abbrev described : ℕ → Eipdebuginfo
    described n = record {
      eip_file = in_table (stabs source).n_strx;
      eip_line = (stabs line).n_desc;
      eip_fn_name = in_table (stabs function).n_strx;
      eip_fn_namelen = n;
      eip_fn_addr = (stabs function).n_value;
      eip_fn_narg = params_end - (function + 1);
    }

    -- Before the line is known.
    abbrev so_far : ℕ → Eipdebuginfo
    so_far n = record {
      eip_file = unknown;
      eip_line = 0;
      eip_fn_name = in_table (stabs function).n_strx;
      eip_fn_namelen = n;
      eip_fn_addr = (stabs function).n_value;
      eip_fn_narg = 0;
    }

    at_line_lem :
        (n : ℕ)
        → at_line stabs count stabstr file function line (so_far n) ≡ returned (pos 0) (described n)
    unfolding at_line checked_name
    at_line_lem n = rw (
      find_source_lem file line source d.source_last,
      count_params_lem (count - (function + 1)) (function + 1) params_end d.params
          (omega (arith, d.params_inside, d.params.order)),
      lt→ltb _ _ d.source_inside,
    )

    in_lines_lem :
        (n e : ℕ)
        → line < e
        → in_lines stabs count stabstr file function
            (so_far n)
            (some (record { left1 = suc line; right1 = e }))
          ≡ returned (pos 0) (described n)
    unfolding in_lines
    in_lines_lem n e h = ground (arith, at_line_lem n)

    with_name_lem :
        (n : ℕ)
        → strfind (drop (stabs function).n_strx stabstr) b':' ≡ some n
        → with_name stabs count stabstr file function function function_end
            (addr - (stabs function).n_value)
            (so_far 9)
          ≡ returned (pos 0) (described n)
    unfolding with_name
    with_name_lem n found =
        let fuel = 2 * (function_end - function) + 2 in
        let (e, next, at) =
          stab_binsearch_found stabs n_sline function function_end (addr - (stabs function).n_value)
            fuel (omega arith) d.lines line d.line_last in
        ground (arith, found, at, in_lines_lem n e next.after)

    in_function_lem :
        (n : ℕ)
        → strfind (drop (stabs function).n_strx stabstr) b':' ≡ some n
        → in_function stabs count stabstr addr file file_end function function_end
          ≡ returned (pos 0) (described n)
    unfolding in_function checked_name
    in_function_lem n found =
        let offset : (addr + 2 ^ 32 - (stabs function).n_value) % 2 ^ 32
            ≡ addr - (stabs function).n_value =
          omega (arith, d.files.no_wrap, d.function_last.reached) in
        let narrow : leb (suc function) function_end ≡ true =
          ground (arith, d.function_next.after) in
        rw (lt→ltb _ _ d.function_inside, narrow, offset) (with_name_lem n found)

    in_file_lem :
        (n : ℕ)
        → strfind (drop (stabs function).n_strx stabstr) b':' ≡ some n
        → in_file stabs count stabstr addr file file_end ≡ returned (pos 0) (described n)
    unfolding in_file in_functions
    in_file_lem n found = ground (
      arith,
      d.not_first,
      search_lem stabs n_fun file file_end addr function function_end d.functions d.function_last
          d.function_next count stabstr,
      in_function_lem n found,
    )

    -- For a kernel address `addr` below the last address, and a table that Describes it: the string
    -- table is not empty, ends in 0 and holds the names of the source file and the function; the
    -- entries for files, for functions in the file and for lines in the function are each in the
    -- order of their values; the last of each kind with a value up to the address are entries for a
    -- file, which is not the first entry of the table, for a function and for a line, and a source
    -- file is named from the file's entry up to the line's; no file and no function has the value
    -- `addr + 1`, and no line that value less the function's; and an entry that is no parameter
    -- follows those of the function. If the function's name is a text that ends in 0,
    -- debuginfo_eip returns 0 with the file, the line, the name and the address of the function,
    -- the length of the name before its colon and the number of its parameters.
    pub debuginfo_eip_lem :
        (n : ℕ) × IsFirst name b':' n
        × (debuginfo_eip stabs count stabstr addr ≡ returned (pos 0) (described n))
    unfolding debuginfo_eip in_files
    debuginfo_eip_lem =
        let (n, first, found, _) = strfind_lem name rest b':' is_text in
        (
          n,
          first,
          ground (
            arith,
            d.in_kernel,
            d.strings,
            search_lem stabs n_so 0 count addr file file_end d.files d.file_last d.file_next count
                stabstr,
            in_file_lem n (rw text found),
          ),
        )
