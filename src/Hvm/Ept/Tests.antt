-- ===== src/Hvm/Ept/Tests.antt =====
-- The extended page tables at a small memory.
use jos_vmx.Base.{◌≡◌, ◌↔◌, refl, none, [], update, arith}
use jos_vmx.Pmap.{Slot, Pmap}
use jos_vmx.Hvm.Ept.{at_leaf, ept_update_identity_table}
use jos_vmx.Hvm.Ept.Walk.{LeadsTo, ept_update_identity_table_lem}

-- Frames 3, 4, 5 and 6 are the tables for the frame number 0x40200, whose indices are 0, 1, 1 and 0.
abbrev tables : Pmap
tables = record {
  npages = 8192;
  pages = λ p. record { le_next = none; le_prev = Slot.null; pp_ref = 0 };
  page_free_list = none;
  nextfree = 0;
  phys =
      update (update (update (λ f i. 0) 3 (update (λ i. 0) 0 0x4007)) 4 (update (λ i. 0) 2 0x5007))
        5 (update (λ i. 0) 2 0x6007);
  invlpg = [];
}

tables-LeadsTo : LeadsTo tables 0x4_0200 3 6
tables-LeadsTo = record {
  first_of_table = refl;
  second = 4;
  third = 5;
  at_3 = record { filled = omega arith; names = refl; inside = omega arith };
  at_2 = record { filled = omega arith; names = refl; inside = omega arith };
  at_1 = record { filled = omega arith; names = refl; inside = omega arith };
}

ept_update_identity_table_lem_example :
    (ept_update_identity_table tables 3 3 0x4_0200 ≡ at_leaf 6) ↔ LeadsTo tables 0x4_0200 3 6
ept_update_identity_table_lem_example = ept_update_identity_table_lem tables 0x4_0200 3 6

walk_ends : ept_update_identity_table tables 3 3 0x4_0200 ≡ at_leaf 6
walk_ends = ept_update_identity_table_lem_example.1 tables-LeadsTo
