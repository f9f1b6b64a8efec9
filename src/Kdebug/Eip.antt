-- ===== src/Kdebug/Eip.antt =====
-- kern/kdebug.c: debuginfo_eip. The tables that the linker lays out are parameters: the entries
-- `stabs` with their number `count`, and the bytes `stabstr` of the string table. A read outside
-- of a table is a fault.
pub mod Lines
use jos_vmx.Base.{
  ℕ, zero, suc, ◌+◌, ◌-◌, ◌*◌, ◌%◌, ◌^◌, Bool, true, false, ◌&&◌, ◌||◌, not, Option, none, some,
  List, [], ◌∷◌, ◌==◌, ltb, leb, if◌then◌else◌, length, drop, get_or,
}
use jos_vmx.Base.Int.{ℤ, pos, negsuc}
use jos_vmx.Str.{bump, strfind}
use jos_vmx.Kdebug.{Stab, Region, n_fun, n_sline, n_so, n_sol, n_psym, stab_binsearch}

-- A pointer to the text `<unknown>`, or into the string table.
pub data Name : Type 0 where
  unknown : Name
  in_table : ℕ → Name

pub record Eipdebuginfo : Type 0 where
  pub eip_file : Name
  pub eip_line : ℕ
  pub eip_fn_name : Name
  pub eip_fn_namelen : ℕ
  pub eip_fn_addr : ℕ
  pub eip_fn_narg : ℕ

pub data Outcome : Type 0 where
  panicked faulted : Outcome
  returned : ℤ → Eipdebuginfo → Outcome

abbrev pub ulim : ℕ
ulim = 0xef80_0000

abbrev pub initial : ℕ → Eipdebuginfo
initial addr = record {
  eip_file = unknown;
  eip_line = 0;
  eip_fn_name = unknown;
  eip_fn_namelen = 9;
  eip_fn_addr = addr;
  eip_fn_narg = 0;
}

abbrev pub unknown_text : List ℕ
unknown_text = b'<' ∷ b'u' ∷ b'n' ∷ b'k' ∷ b'n' ∷ b'o' ∷ b'w' ∷ b'n' ∷ b'>' ∷ 0 ∷ []

unfoldable pub is_source : Stab → Bool
is_source s = s.n_type == n_sol || (s.n_type == n_so && not (s.n_value == 0))

module _ (stabs : ℕ → Stab) (count : ℕ) (stabstr : List ℕ) where
  -- Twice the length of the region and two more bisect_loop are enough.
  abbrev pub search_in : ℕ → ℕ → ℕ → ℕ → Option Region
  search_in type left hi addr = stab_binsearch stabs type (2 * (hi - left) + 2) left hi addr

  abbrev pub text_of : Name → List ℕ
  text_of unknown = unknown_text
  text_of (in_table k) = drop k stabstr

  -- The entries of type N_PSYM from `i` on.
  unfoldable pub count_params : ℕ → ℕ → Option ℕ
  count_params i zero = none
  count_params i (suc k) =
      if (stabs i).n_type == n_psym then bump (count_params (i + 1) k) else some 0

  -- The search back from `lfile + k - 1` to `lfile`.
  unfoldable pub find_source : ℕ → ℕ → Option ℕ
  find_source lfile zero = none
  find_source lfile (suc k) =
      if is_source (stabs (lfile + k)) then some (lfile + k) else find_source lfile k

  unfoldable pub checked_name : ℕ → Name → Name
  checked_name i old =
      if ltb (stabs i).n_strx (length stabstr) then in_table (stabs i).n_strx else old

  unfoldable pub with_file : Option ℕ → Eipdebuginfo → Eipdebuginfo
  with_file none info = info
  with_file (some i) info = record info { eip_file = checked_name i info.eip_file }

  unfoldable pub with_params : Option ℕ → Eipdebuginfo → Outcome
  with_params none info = faulted
  with_params (some n) info = returned (pos 0) (record info { eip_fn_narg = n })

  unfoldable pub at_line : ℕ → ℕ → ℕ → Eipdebuginfo → Outcome
  unfolding with_file with_params
  at_line lfile lfun lline info = with_params (count_params (lfun + 1) (count - (lfun + 1))) (
      with_file (find_source lfile (lline + 1 - lfile))
        (record info { eip_line = (stabs lline).n_desc }))

  unfoldable pub in_lines : ℕ → ℕ → Eipdebuginfo → Option Region → Outcome
  in_lines lfile lfun info none = faulted
  in_lines lfile lfun info (some r) =
      if leb r.left1 r.right1
      then elim r.left1 [ zero ↦ faulted | suc lline ↦ at_line lfile lfun lline info ]
      else returned (negsuc 0) info

  -- The length of the name, and the search for the line from `lline` on.
  unfoldable pub with_name : ℕ → ℕ → ℕ → ℕ → ℕ → Eipdebuginfo → Outcome
  with_name lfile lfun lline hi addr info = elim (strfind (text_of info.eip_fn_name) b':') [
    | none ↦ faulted
    | some n ↦
        in_lines lfile lfun (record info { eip_fn_namelen = n }) (search_in n_sline lline hi addr)
  ]

  unfoldable pub in_function : ℕ → ℕ → ℕ → ℕ → ℕ → Outcome
  in_function addr lfile file_end lfun fun_end =
      if leb (suc lfun) fun_end
      then with_name lfile lfun lfun fun_end ((addr + 2 ^ 32 - (stabs lfun).n_value) % 2 ^ 32)
          (record (initial addr) {
            eip_fn_name = checked_name lfun unknown;
            eip_fn_addr = (stabs lfun).n_value;
          })
      else with_name lfile lfun lfile file_end addr (initial addr)

  unfoldable pub in_functions : ℕ → ℕ → ℕ → Option Region → Outcome
  in_functions addr lfile file_end none = faulted
  in_functions addr lfile file_end (some r) = elim r.left1 [
    | zero ↦ faulted
    | suc lfun ↦ in_function addr lfile file_end lfun r.right1
  ]

  unfoldable pub in_file : ℕ → ℕ → ℕ → Outcome
  in_file addr lfile file_end =
      if lfile == 0
      then returned (negsuc 0) (initial addr)
      else in_functions addr lfile file_end (search_in n_fun lfile file_end addr)

  unfoldable pub in_files : ℕ → Option Region → Outcome
  in_files addr none = faulted
  in_files addr (some r) = elim r.left1 [ zero ↦ faulted | suc lfile ↦ in_file addr lfile r.right1 ]

  unfoldable pub bad_strings : Bool
  bad_strings = length stabstr == 0 || not (get_or stabstr (length stabstr - 1) 0 == 0)

  unfoldable pub debuginfo_eip : ℕ → Outcome
  unfolding bad_strings
  debuginfo_eip addr =
      if ltb addr ulim
      then panicked
      else if bad_strings
      then returned (negsuc 0) (initial addr)
      else in_files addr (search_in n_so 0 count addr)
