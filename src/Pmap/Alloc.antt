-- ===== src/Pmap/Alloc.antt =====
-- page_clear, page_alloc, page_free and page_decref.
pub mod Chain
pub mod Laws
pub mod Decref
use jos_vmx.Base.{ℕ, ◌+◌, ◌-◌, ◌%◌, ◌^◌, Option, none, some, ◌==◌, if◌then◌else◌}
use jos_vmx.Pmap.{Slot, Page, Pmap, M, pure, ◌>>=◌, ◌>>◌, set_page}
use jos_vmx.Pmap.FreeList.{list_insert_head, list_remove}

-- What `memset(pp, 0, sizeof(*pp))` leaves.
abbrev pub cleared : Page
cleared = record { le_next = none; le_prev = Slot.null; pp_ref = 0 }

unfoldable pub page_clear : ℕ → M (Unit {0})
page_clear p m = some (tt, set_page p cleared m)

-- The page taken, or `none` for `-E_NO_MEM`.
unfoldable pub page_alloc : M (Option ℕ)
page_alloc m = elim m.page_free_list [
  | none ↦ some (none, m)
  | some p ↦ (do list_remove p; page_clear p; pure (some p)) m
]

unfoldable pub page_free : ℕ → Pmap → Pmap
page_free p m = list_insert_head p m

-- `--pp->pp_ref` in `uint16_t`
unfoldable pub page_decref : ℕ → Pmap → Pmap
unfolding page_free
page_decref p m =
    let r = ((m.pages p).pp_ref + 2 ^ 16 - 1) % 2 ^ 16 in
    let m₁ = set_page p (record (m.pages p) { pp_ref = r }) m in
    if r == 0 then page_free p m₁ else m₁
