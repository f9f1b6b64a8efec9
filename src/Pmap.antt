-- ===== src/Pmap.antt =====
-- The state that kern/pmap.c keeps: the `pages` array, the free list, the boot allocator's
-- pointer, the physical frames that serve as page tables, and the TLB invalidations made.
-- A `struct Page *` is its index in `pages`, which is also the frame number (page2ppn).
pub mod FreeList
pub mod Alloc
pub mod Boot
pub mod Table
pub mod Check
pub mod Selftest
pub mod Segment
mod Tests
use jos_vmx.Base.{ℕ, Option, none, some, update, List}

-- `struct Page **le_prev`: NULL, the list head's `lh_first`, or a page's `le_next`.
pub data Slot : Type 0 where
  null : Slot
  lh_first : Slot
  le_next_of : ℕ → Slot

pub record Page : Type 0 where
  pub le_next : Option ℕ
  pub le_prev : Slot
  pub pp_ref : ℕ

pub record Pmap : Type 0 where
  pub npages : ℕ
  pub pages : ℕ → Page
  pub page_free_list : Option ℕ
  pub nextfree : ℕ
  pub phys : ℕ → ℕ → ℕ
  pub invlpg : List ℕ

-- A function of pmap.c: `none` is a panic, or a write through a null pointer.
abbrev pub M : Type 0 → Type 0
M A = Pmap → Option (A × Pmap)

abbrev pub pure : {A : Type 0} → A → M A
pure a m = some (a, m)

infixl 5 ◌>>=◌ ◌>>◌
abbrev pub ◌>>=◌ : {A B : Type 0} → M A → (A → M B) → M B
◌>>=◌ c f m = elim (c m) [ none ↦ none | some (a, m') ↦ f a m' ]

abbrev pub ◌>>◌ : {B : Type 0} → M (Unit {0}) → M B → M B
c >> d = c >>= λ _. d

abbrev pub set_page : ℕ → Page → Pmap → Pmap
set_page p v m = record m { pages = update m.pages p v }
