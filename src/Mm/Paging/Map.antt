-- ===== src/Mm/Paging/Map.antt =====
-- `MmMap` and `MmUnmap` on an address whose table is there.
use mathlib.Core.Path.{subst}
use mcpgos.Base.{
  ℕ, ◌+◌, ◌*◌, ◌/◌, ◌%◌, ◌^◌, ◌<◌, ◌≡◌, refl, sym, ap, ◌∙◌, ◌≢◌, Bool, true, false, not, arith,
  ◌==◌, ne→==,
}
use mcpgos.Base.Words.{shr, low_bits}
use mcpgos.Base.Run.{ok, in_bounds, then_returns, false_case}
use mcpgos.Utils.LinkedList.{Ptr}
use mcpgos.Mm.Paging.{
  Paging, read, write, present, writable, user, phys_address, page_of, kernel_pages, mapped_entry,
  unmapped_entry, virt_to_phys, is_present, is_writable, is_user, mm_map, mm_unmap,
}
use mcpgos.Utils.LinkedList.{Ptr, null}
use mcpgos.Mm.Paging.Lookup.{
  directory_entry, Walk, get_table_entry-Walk, entry-ne-null, virt_to_phys-Walk, test_entry-Walk,
}

-- The entry is a word of its own: it is neither the directory's entry nor one of the kernel's.
pub record IsApart (s : Paging) (pde : Ptr) (virt : ℕ) (pte : Ptr) : Type 0 where
  pub from_directory : s.cell (directory_entry pde virt) ≢ s.cell pte
  pub from_kernel : (i : ℕ) → i < kernel_pages → s.cell (s.kernel_tables + 4 * i) ≢ s.cell pte

pub read-write_self : (s : Paging) (p : Ptr) (v : ℕ) → read (write p v s) p ≡ v
read-write_self s p v = ground arith

pub read-write_other :
    (s : Paging) (p q : Ptr) (v : ℕ) → s.cell q ≢ s.cell p → read (write p v s) q ≡ read s q
read-write_other s p q v n = ground arith

-- A store to the entry leaves the walk to it.
pub Walk-write :
    (s : Paging) (pde : Ptr) (virt : ℕ) (pte : Ptr) (v : ℕ)
    → Walk s pde virt pte
    → IsApart s pde virt pte
    → Walk (write pte v s) pde virt pte
Walk-write s pde virt pte v w a =
    let e = read-write_other s pte (directory_entry pde virt) v a.from_directory in
    let (i, l, b) = w.backed in
    record {
      small = w.small;
      mapped = ap present e ∙ w.mapped;
      backed = (
        i,
        l,
        ap page_of (read-write_other s pte (s.kernel_tables + 4 * i) v (a.from_kernel i l))
            ∙ b
            ∙ ap (λ r. page_of (page_of r)) (sym e),
      );
      not_null = λ z. w.not_null (ap page_of (sym e) ∙ z);
      here = w.here ∙ ap (λ r. page_of r + 4 * low_bits (shr virt 12) 10) (sym e);
    }

-- What the four fields of the entry say.
pub record Entry (raw phys : ℕ) (here user_ok writable_ok : Bool) : Type 0 where
  pub page : phys_address raw ≡ phys
  pub is_here : present raw ≡ here
  pub for_user : user raw ≡ user_ok
  pub may_write : writable raw ≡ writable_ok

mapped_entry-Entry :
    (raw phys : ℕ) (u w : Bool)
    → phys < 2 ^ 32
    → Entry (mapped_entry phys u w raw) (phys / 4096) true u w
mapped_entry-Entry raw phys true true l = record {
  page = omega arith;
  is_here = ground arith;
  for_user = ground arith;
  may_write = ground arith;
}
mapped_entry-Entry raw phys true false l = record {
  page = omega arith;
  is_here = ground arith;
  for_user = ground arith;
  may_write = ground arith;
}
mapped_entry-Entry raw phys false true l = record {
  page = omega arith;
  is_here = ground arith;
  for_user = ground arith;
  may_write = ground arith;
}
mapped_entry-Entry raw phys false false l = record {
  page = omega arith;
  is_here = ground arith;
  for_user = ground arith;
  may_write = ground arith;
}

unmapped_entry-Entry : (raw : ℕ) → Entry (unmapped_entry raw) 0 false false false
unmapped_entry-Entry raw = record {
  page = omega arith;
  is_here = ground arith;
  for_user = ground arith;
  may_write = ground arith;
}

-- What the queries about an address return: its physical page, and the three properties.
pub record Sees (s : Paging) (virt page : ℕ) (here user_ok writable_ok : Bool) : Type 0 where
  pub at_page : virt_to_phys s.directory virt s ≡ ok (page + virt % 4096) s
  pub is_here : is_present virt s ≡ ok here s
  pub for_user : is_user virt s ≡ ok user_ok s
  pub may_write : is_writable virt s ≡ ok writable_ok s

Entry-Sees :
    (s : Paging) (virt pte frame : ℕ) (b u w : Bool)
    → Walk s s.directory virt pte
    → s.directory ≢ null
    → frame < 2 ^ 20
    → Entry (read s pte) frame b u w
    → Sees s virt (frame * 4096) b u w
unfolding is_present is_user is_writable
Entry-Sees s virt pte frame b u w walk n l e = record {
  at_page =
      virt_to_phys-Walk s s.directory virt pte walk n ∙ ap (λ x. ok x s) (omega (arith, e.page));
  is_here = test_entry-Walk present s virt pte walk ∙ ap (λ x. ok x s) e.is_here;
  for_user = test_entry-Walk user s virt pte walk ∙ ap (λ x. ok x s) e.for_user;
  may_write = test_entry-Walk writable s virt pte walk ∙ ap (λ x. ok x s) e.may_write;
}

-- Every word but the one at a pointer is what it was.
abbrev pub OnlyAt : Ptr → Paging → Paging → Type 0
OnlyAt p s t = (a : ℕ) → a ≢ s.cell p → t.words a ≡ s.words a

module _ (virt : ℕ) (pte : Ptr) (s : Paging) (walk : Walk s s.directory virt pte) where
  mm_map-Walk :
      (fresh : Ptr) (phys : ℕ) (u w : Bool)
      → mm_map fresh phys virt u w s ≡ ok true (write pte (mapped_entry phys u w (read s pte)) s)
  unfolding mm_map
  mm_map-Walk fresh phys u w =
      let n = ne→== pte null (entry-ne-null s s.directory virt pte walk) in
      then_returns _ pte s (get_table_entry-Walk s s.directory virt pte walk) (
        then_returns _ pte s (false_case (pte == null) _ _ s n)
          (then_returns _ tt s (ap (λ b. in_bounds (not b) s) n) refl))

  mm_unmap-Walk : mm_unmap virt s ≡ ok true (write pte (unmapped_entry (read s pte)) s)
  unfolding mm_unmap
  mm_unmap-Walk =
      then_returns _ pte s (get_table_entry-Walk s s.directory virt pte walk) (
        false_case (pte == null) _ _ s (ne→== pte null (entry-ne-null s s.directory virt pte walk)))

-- With a page directory in use and a 32-bit physical address, for an address whose table can be found
-- and whose entry is a word of its own, `MmMap` returns
-- true; then the address has the physical page that was given, is present, and is open to user code
-- and to writes as asked. `MmUnmap` after it returns true, and then the address has page 0 and is
-- not present, nor open to either. No other word changes. Whatever was in the entry, and whatever
-- `malloc` might have returned, makes no difference.
pub mm_map_lem :
    (fresh pte : Ptr) (phys virt : ℕ) (u w : Bool) (s : Paging)
    → s.directory ≢ null
    → phys < 2 ^ 32
    → Walk s s.directory virt pte
    → IsApart s s.directory virt pte
    → (t r : Paging) × ((mm_map fresh phys virt u w s ≡ ok true t)
        × Sees t virt (page_of phys) true u w
        × OnlyAt pte s t
        × (mm_unmap virt t ≡ ok true r)
        × Sees r virt 0 false false false
        × OnlyAt pte s r)
mm_map_lem fresh pte phys virt u w s n l walk apart =
    let v = mapped_entry phys u w (read s pte) in
    let t = write pte v s in
    let walk_t = Walk-write s s.directory virt pte v walk apart in
    let apart_t : IsApart t s.directory virt pte = record {
      from_directory = apart.from_directory;
      from_kernel = apart.from_kernel;
    } in
    let x = unmapped_entry (read t pte) in
    let r = write pte x t in
    let walk_r = Walk-write t s.directory virt pte x walk_t apart_t in
    (
      t,
      r,
      (
        mm_map-Walk virt pte s walk fresh phys u w,
        Entry-Sees t virt pte (phys / 4096) true u w walk_t n (omega arith) (
            subst (λ y. Entry y (phys / 4096) true u w) (sym (read-write_self s pte v))
              (mapped_entry-Entry (read s pte) phys u w l)),
        λ a d. ground arith,
        mm_unmap-Walk virt pte t walk_t,
        Entry-Sees r virt pte 0 false false false walk_r n (omega arith) (
            subst (λ y. Entry y 0 false false false) (sym (read-write_self t pte x))
              (unmapped_entry-Entry (read t pte))),
        λ a d. ground arith,
      ),
    )
