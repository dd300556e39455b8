-- ===== src/Mm/Paging/Ending.antt =====
-- The queries of the page tables and `MmMap` end; the queries change nothing.
use mathlib.Core.Path.{subst}
use mcpgos.Base.{ℕ, ◌+◌, ◌*◌, ◌%◌, ◌≡◌, refl, ap, ◌∙◌, Bool, true, false, not, leb, ◌==◌}
use mcpgos.Base.Words.{u32, shr}
use mcpgos.Base.Ends.{
  Stops, Stops-bind, Stops-if, Stops-assert, Stops-in_bounds, Stops-mono, stops_ok,
}
use mcpgos.Base.Run.{ok, pure}
use mcpgos.Utils.LinkedList.{Ptr, null}
use mcpgos.Mm.Paging.{
  Paging, read, present, page_of, phys_address, kernel_phys_to_virt, get_table, get_table_addr,
  get_table_entry, virt_to_phys, test_entry, add_table, mm_map, write, set_present, set_writable,
  set_user,
}

get_table-Stops :
    (pde : Ptr) (index : ℕ) (s : Paging) → Stops (λ _ t. t ≡ s) (get_table pde index s)
unfolding get_table
get_table-Stops pde index s = Stops-assert (leb index 1023) s _ (
    Stops-if (present (read s (pde + 4 * index)))
      (λ v. ok (kernel_phys_to_virt (page_of (read s (pde + 4 * index))) v) v) (pure null) s
      (λ _. stops_ok refl) (λ _. stops_ok refl))

get_table_entry-Stops :
    (pde : Ptr) (virt : ℕ) (s : Paging) → Stops (λ _ t. t ≡ s) (get_table_entry pde virt s)
unfolding get_table_entry get_table_addr
get_table_entry-Stops pde virt s =
    Stops-bind (get_table-Stops pde (shr virt 22) s) (λ _ t e. stops_ok e)

virt_to_phys-Stops :
    (pde : Ptr) (virt : ℕ) (s : Paging) → Stops (λ _ t. t ≡ s) (virt_to_phys pde virt s)
unfolding virt_to_phys
virt_to_phys-Stops pde virt s = Stops-assert (not (pde == null)) s _ (
    Stops-bind (get_table_entry-Stops pde virt s) (λ pte t e.
      Stops-if (pte == null) (pure 0)
        (λ v. ok (u32 (phys_address (read v pte) * 4096 + virt % 4096)) v) t (λ _. stops_ok e)
        (λ _. stops_ok e)))

pub test_entry-Stops :
    (field : ℕ → Bool) (virt : ℕ) (s : Paging) → Stops (λ _ t. t ≡ s) (test_entry field virt s)
unfolding test_entry
test_entry-Stops field virt s = Stops-bind (get_table_entry-Stops s.directory virt s) (λ pte t e.
    Stops-if (pte == null) (pure false) (λ v. ok (field (read v pte)) v) t (λ _. stops_ok e)
      (λ _. stops_ok e))

add_table-Stops :
    (fresh : Ptr) (virt : ℕ) (u w : Bool) (s : Paging)
    → Stops (λ _ t. t.pm ≡ s.pm) (add_table fresh virt u w s)
unfolding add_table
add_table-Stops fresh virt u w s = Stops-bind (virt_to_phys-Stops s.directory fresh s) (λ phys t e.
    Stops-mono
      (get_table_entry-Stops s.directory virt (
        write (s.directory + 4 * shr virt 22)
          (set_present true (set_writable w (set_user u (page_of phys)))) t))
      (λ _ v f. ap (λ x. x.pm) f ∙ ap (λ x. x.pm) e))

-- `MmMap` ends and allocates no physical page.
pub mm_map-Stops :
    (fresh phys virt : ℕ) (u w : Bool) (s : Paging)
    → Stops (λ _ t. t.pm ≡ s.pm) (mm_map fresh phys virt u w s)
unfolding mm_map
mm_map-Stops fresh phys virt u w s =
    Stops-bind (get_table_entry-Stops s.directory virt s) (λ found t e.
      Stops-bind
        (Stops-if {Q = λ _ v. v.pm ≡ s.pm} (found == null) (add_table fresh virt u w) (pure found) t
          (λ _.
            subst (λ x. Stops (λ _ v. v.pm ≡ x.pm) (add_table fresh virt u w t)) e
              (add_table-Stops fresh virt u w t))
          (λ _. stops_ok (ap (λ x. x.pm) e)))
        (λ pte v f. Stops-in_bounds (not (pte == null)) v _ (stops_ok f)))
