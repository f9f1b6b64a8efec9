-- ===== src/Pmap/FreeList.antt =====
-- The list macros of inc/queue.h at `page_free_list` and the field `pp_link`.
use jos_vmx.Base.{ℕ, Option, none, some, Bool, true, false}
use jos_vmx.Pmap.{Slot, null, lh_first, le_next_of, Pmap, M, set_page}

-- LIST_EMPTY
unfoldable pub list_empty : Pmap → Bool
list_empty m = elim m.page_free_list [ none ↦ true | some _ ↦ false ]

-- LIST_INIT
unfoldable pub list_init : Pmap → Pmap
list_init m = record m { page_free_list = none }

set_prev : Option ℕ → Slot → Pmap → Pmap
set_prev none s m = m
set_prev (some q) s m = set_page q (record (m.pages q) { le_prev = s }) m

-- LIST_INSERT_HEAD
unfoldable pub list_insert_head : ℕ → Pmap → Pmap
unfolding set_prev
list_insert_head p m =
    let m₁ = set_page p (record (m.pages p) { le_next = m.page_free_list }) m in
    let m₂ = set_prev m₁.page_free_list (le_next_of p) m₁ in
    let m₃ = record m₂ { page_free_list = some p } in
    set_page p (record (m₃.pages p) { le_prev = lh_first }) m₃

-- `*slot = target`
store_slot : Slot → Option ℕ → M (Unit {0})
store_slot null target m = none
store_slot lh_first target m = some (tt, record m { page_free_list = target })
store_slot (le_next_of q) target m =
    some (tt, set_page q (record (m.pages q) { le_next = target }) m)

-- LIST_REMOVE
unfoldable pub list_remove : ℕ → M (Unit {0})
unfolding set_prev store_slot
list_remove p m =
    let m₁ = set_prev (m.pages p).le_next (m.pages p).le_prev m in
    store_slot (m₁.pages p).le_prev (m₁.pages p).le_next m₁
