-- ===== src/Pmap/Alloc/Chain.antt =====
-- What the links of the free list stand for: the list of its pages, in order.
use jos_vmx.Base.{
  ℕ, ◌<◌, ◌≡◌, ◌≢◌, Option, none, some, Bool, true, false, ◌||◌, List, [], ◌∷◌, ◌==◌, arith,
}
use jos_vmx.Pmap.{Slot, lh_first, le_next_of, Page, Pmap}

abbrev pub has : ℕ → List ℕ → Bool
has a [] = false
has a (p ∷ xs) = (a == p) || has a xs

-- From the pointer `p`, stored at `s`, the links lead through the unreferenced pages `xs`, each
-- holding the address of the pointer to it.
abbrev pub Chain : (ℕ → Page) → Slot → Option ℕ → List ℕ → Type 0
Chain pg s p [] = p ≡ none
Chain pg s p (x ∷ xs) =
    (p ≡ some x)
    × ((pg x).le_prev ≡ s)
    × ((pg x).pp_ref ≡ 0)
    × (has x xs ≡ false)
    × Chain pg (le_next_of x) (pg x).le_next xs

abbrev pub Below : ℕ → List ℕ → Type 0
Below n [] = Unit
Below n (x ∷ xs) = (x < n) × Below n xs

-- The free list holds the pages `xs`.
pub record IsFreeList (m : Pmap) (xs : List ℕ) : Type 0 where
  pub chain : Chain m.pages lh_first m.page_free_list xs
  pub inside : Below m.npages xs

-- A chain survives a change of pages that are not on it.
pub Chain-frame :
    (pg pg' : ℕ → Page) (s : Slot) (p : Option ℕ) (xs : List ℕ)
    → ((a : ℕ) → has a xs ≡ true → pg' a ≡ pg a)
    → Chain pg s p xs
    → Chain pg' s p xs
Chain-frame pg pg' s p [] same c = c
Chain-frame pg pg' s p (x ∷ xs) same c =
    let e : pg' x ≡ pg x = same x (ground arith) in
    let rest =
      Chain-frame pg pg' (le_next_of x) (pg x).le_next xs (λ a h. same a (ground arith)) c.4 in
    (c.0, rw e c.1, rw e c.2, c.3, rw e rest)

-- A page off the chain is not its first.
pub Chain-ne :
    (pg : ℕ → Page) (s : Slot) (p : Option ℕ) (a : ℕ) (xs : List ℕ)
    → Chain pg s p xs
    → has a xs ≡ false
    → p ≢ some a
Chain-ne pg s p a [] c out = ground arith
Chain-ne pg s p a (x ∷ xs) c out = ground arith
