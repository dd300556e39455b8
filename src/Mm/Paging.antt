-- ===== src/Mm/Paging.antt =====
-- The page tables of kernel/src/MM/Paging.c. Directories and tables lie in memory, as words that
-- are read and written through pointers; `cell` says which word the processor finds at a pointer,
-- so that two pointers may lead to one word. What `malloc` returns is an argument.
pub mod Lookup
pub mod Map
pub mod Directory
pub mod Ending
pub mod Mmap
mod Tests
use mcpgos.Base.{
  ℕ, zero, suc, ◌+◌, ◌-◌, ◌*◌, ◌/◌, ◌%◌, ◌^◌, Bool, true, false, not, ◌&&◌, ltb, leb, ◌==◌,
  if◌then◌else◌, assign,
}
use mcpgos.Base.Words.{u32, sub32, shl, shr, low_bits}
use mcpgos.Base.Run.{Cmd, ok, out_of_fuel, pure, ◌>>=◌, ◌>>◌, assert, in_bounds, modify}
use mcpgos.Base.Run.{placed}
use mcpgos.Mm.Physical
use mcpgos.Mm.Physical.{Pm}
use mcpgos.Utils.LinkedList.{Ptr, null}

pub record Paging : Type 0 where
  pub words : ℕ → ℕ
  pub pm : Pm
  -- `CurrentPageDirectory`, `CurrentPageDirectoryPhys` and the register CR3.
  pub directory : Ptr
  pub directory_phys : ℕ
  pub cr3 : ℕ
  -- What no operation changes: the word at a pointer, and the addresses of `KernelPageTables` and of
  -- `ZeroIdentityPage`, which the linker gives.
  pub cell : Ptr → ℕ
  pub kernel_tables : Ptr
  pub zero_identity : Ptr

-- The entry at a pointer, as its `Raw`.
abbrev pub read : Paging → Ptr → ℕ
read s p = s.words (s.cell p)

abbrev pub write : Ptr → ℕ → Paging → Paging
write p v s = record s { words = assign s.words (s.cell p) v }

-- The fields `Present`, `Writable`, `User` and `PhysAddress` of an entry.
abbrev pub is_set : ℕ → Bool
is_set n = n == 1

abbrev pub present : ℕ → Bool
present raw = is_set (raw % 2)

abbrev pub writable : ℕ → Bool
writable raw = is_set (raw / 2 % 2)

abbrev pub user : ℕ → Bool
user raw = is_set (raw / 4 % 2)

abbrev pub phys_address : ℕ → ℕ
phys_address raw = raw / 4096

abbrev pub bit : Bool → ℕ
bit b = if b then 1 else 0

abbrev pub set_present : Bool → ℕ → ℕ
set_present b raw = raw / 2 * 2 + bit b

abbrev pub set_writable : Bool → ℕ → ℕ
set_writable b raw = raw / 4 * 4 + bit b * 2 + raw % 2

abbrev pub set_user : Bool → ℕ → ℕ
set_user b raw = raw / 8 * 8 + bit b * 4 + raw % 4

abbrev pub set_phys_address : ℕ → ℕ → ℕ
set_phys_address a raw = a % 2 ^ 20 * 4096 + raw % 4096

-- `x & ~0xFFF`.
abbrev pub page_of : ℕ → ℕ
page_of x = x / 4096 * 4096

abbrev pub kernel_pages : ℕ
kernel_pages = 131072

-- The loop of `MmKernelPhysToVirt`, with `n` rounds left.
pub phys_to_virt_loop : (n i phys : ℕ) → Paging → Ptr
phys_to_virt_loop zero i phys s = null
phys_to_virt_loop (suc n) i phys s =
    let raw = read s (s.kernel_tables + 4 * i) in
    let rest = phys_to_virt_loop n (i + 1) phys s in
    if page_of raw == page_of phys then page_of raw + phys % 4096 else rest

pub kernel_phys_to_virt : ℕ → Paging → Ptr
kernel_phys_to_virt phys s = phys_to_virt_loop kernel_pages 0 phys s

-- `pde[index]` stands at `pde + 4 * index`.
unfoldable pub get_table : (pde : Ptr) (index : ℕ) → Cmd Paging Ptr
get_table pde index = do
  assert (leb index 1023)
  raw ← λ s. ok (read s (pde + 4 * index)) s
  elim (present raw) [ false ↦ pure null | true ↦ λ s. ok (kernel_phys_to_virt (page_of raw) s) s ]

unfoldable pub get_table_addr : (pde : Ptr) (virt : ℕ) → Cmd Paging Ptr
get_table_addr pde virt = get_table pde (shr virt 22)

-- `&pte[(virt >> 12) & 1023]`.
abbrev pub entry_at : Ptr → ℕ → Ptr
entry_at pte virt = if pte == null then null else pte + 4 * low_bits (shr virt 12) 10

unfoldable pub get_table_entry : (pde : Ptr) (virt : ℕ) → Cmd Paging Ptr
get_table_entry pde virt = do pte ← get_table_addr pde virt; pure (entry_at pte virt)

unfoldable pub virt_to_phys : (pde : Ptr) (virt : ℕ) → Cmd Paging ℕ
virt_to_phys pde virt = do
  assert (not (pde == null))
  pte ← get_table_entry pde virt
  elim (pte == null) [
    | true ↦ pure 0
    | false ↦ λ s. ok (u32 (phys_address (read s pte) * 4096 + virt % 4096)) s
  ]

-- `MmIsPresent`, `MmIsWritable` and `MmIsUser`, which differ in the field that they read.
pub test_entry : (field : ℕ → Bool) (virt : ℕ) → Cmd Paging Bool
test_entry field virt = do
  pde ← λ s. ok s.directory s
  pte ← get_table_entry pde virt
  elim (pte == null) [ true ↦ pure false | false ↦ λ s. ok (field (read s pte)) s ]

pub is_present : ℕ → Cmd Paging Bool
is_present virt = test_entry present virt

pub is_writable : ℕ → Cmd Paging Bool
is_writable virt = test_entry writable virt

pub is_user : ℕ → Cmd Paging Bool
is_user virt = test_entry user virt

unfoldable pub switch_page_directory : Ptr → Cmd Paging (Unit {0})
switch_page_directory pd = do
  current ← λ s. ok s.directory s
  phys ← virt_to_phys current pd
  modify λ s. record s { directory_phys = phys; directory = pd; cr3 = phys }

-- `K_VIRT_TO_PHYS`.
abbrev pub k_virt_to_phys : ℕ → ℕ
k_virt_to_phys virt = u32 (sub32 virt 0xE0000000 + 0x100000)

-- What `MmAllocPageDirectory` stores for a table at `virt`.
abbrev pub table_entry : ℕ → ℕ
table_entry virt = set_user false (set_writable true (set_present true (k_virt_to_phys virt)))

-- Its loop, with `n` rounds left.
pub kernel_entries : (n i : ℕ) → (result : Ptr) → Paging → Paging
kernel_entries zero i result s = s
kernel_entries (suc n) i result s =
    kernel_entries n (i + 1) result
      (write (result + 4 * (896 + i)) (table_entry (s.kernel_tables + 4 * (i * 1024))) s)

-- `result` is what `malloc` returns.
pub alloc_page_directory : (result : Ptr) → Cmd Paging Ptr
alloc_page_directory result = elim (result == null) [
  | true ↦ pure null
  | false ↦ do
    modify (kernel_entries 128 0 result)
    modify λ s. write result (table_entry s.zero_identity) s
    pure result
]

-- What `MmMap` and `MmUnmap` leave in an entry.
abbrev pub mapped_entry : (phys : ℕ) (user_ok writable_ok : Bool) → ℕ → ℕ
mapped_entry phys user_ok writable_ok raw =
    set_writable writable_ok
      (set_user user_ok (set_present true (set_phys_address (shr phys 12) raw)))

abbrev pub unmapped_entry : ℕ → ℕ
unmapped_entry raw =
    set_writable false (set_user false (set_present false (set_phys_address 0 raw)))

-- The branch of `MmMap` that makes a table, at the memory `fresh` that `malloc` returns for it.
pub add_table : (fresh : Ptr) (virt : ℕ) (user_ok writable_ok : Bool) → Cmd Paging Ptr
add_table fresh virt user_ok writable_ok = do
  pde ← λ s. ok s.directory s
  phys ← virt_to_phys pde fresh
  modify (
      write (pde + 4 * shr virt 22)
        (set_present true (set_writable writable_ok (set_user user_ok (page_of phys)))))
  get_table_entry pde virt

pub mm_map : (fresh : Ptr) (phys virt : ℕ) (user_ok writable_ok : Bool) → Cmd Paging Bool
mm_map fresh phys virt user_ok writable_ok = do
  pde ← λ s. ok s.directory s
  found ← get_table_entry pde virt
  pte ← elim (found == null) [
    | true ↦ add_table fresh virt user_ok writable_ok
    | false ↦ pure found
  ]
  in_bounds (not (pte == null))
  modify λ s. write pte (mapped_entry phys user_ok writable_ok (read s pte)) s
  pure true

pub mm_unmap : (virt : ℕ) → Cmd Paging Bool
mm_unmap virt = do
  pde ← λ s. ok s.directory s
  pte ← get_table_entry pde virt
  elim (pte == null) [
    | true ↦ pure false
    | false ↦ do modify λ s. write pte (unmapped_entry (read s pte)) s; pure true
  ]

-- The first page that `MmMmap` searches, and the last.
abbrev pub starting_page : ℕ
starting_page = 1024

abbrev pub ending_page : ℕ
ending_page = 917503

-- The loop of `MmMmap` that looks for a block, with `n` rounds left: `foundStartingPoint`,
-- `foundPageBase` and `pagesFound` before the page `ptr_page`, and the result is the page at which
-- the loop ends with the first two of these.
pub find_block : (n ptr_page : ℕ) (found : Bool) (base count pages : ℕ) → Cmd Paging (ℕ × Bool × ℕ)
find_block zero ptr_page found base count pages = pure (ptr_page, found, base)
find_block (suc n) ptr_page found base count pages = do
  taken ← is_present (u32 (shl ptr_page 12))
  elim taken [
    | true ↦ find_block n (ptr_page + 1) false 0 0 pages
    | false ↦
        let base' = if found then base else ptr_page in
        elim (u32 (count + 1) == pages) [
          | true ↦ pure (ptr_page, true, base')
          | false ↦ find_block n (ptr_page + 1) true base' (u32 (count + 1)) pages
        ]
  ]

-- The loop that looks at the pages behind a pointer that was given: whether none is present. Its
-- test does not look at the counter `i`, so it runs on fuel.
pub check_block : (fuel i ptr_page pages : ℕ) → Cmd Paging Bool
check_block zero i ptr_page pages = λ _. out_of_fuel
check_block (suc k) i ptr_page pages = elim (ltb ptr_page (u32 (ptr_page + pages))) [
  | false ↦ pure true
  | true ↦ do
    taken ← is_present (u32 (shl i 12))
    elim taken [ true ↦ pure false | false ↦ check_block k (u32 (i + 1)) ptr_page pages ]
]

-- The loop that maps, whose test does not look at its counter either. `fresh` gives what `malloc`
-- returns in the rounds to come.
pub map_block :
    (fuel : ℕ) (fresh : ℕ → Ptr) (ptr ptr_page pages : ℕ) (user_ok writable_ok : Bool)
    → Cmd Paging (Unit {0})
map_block zero fresh ptr ptr_page pages user_ok writable_ok = λ _. out_of_fuel
map_block (suc k) fresh ptr ptr_page pages user_ok writable_ok =
    elim (ltb ptr_page (u32 (ptr_page + pages))) [
      | false ↦ pure tt
      | true ↦ do
        phys ← λ s. placed (λ p. record s { pm = p }) (Physical.allocate s.pm)
        mm_map (fresh k) phys ptr user_ok writable_ok
        map_block k fresh ptr ptr_page pages user_ok writable_ok
    ]

-- `MmMmap` behind its assertions, for NULL and for any other pointer.
pub mmap_anywhere :
    (fuel : ℕ) (fresh : ℕ → Ptr) (pages : ℕ) (user_ok writable_ok : Bool) → Cmd Paging Ptr
mmap_anywhere fuel fresh pages user_ok writable_ok = do
  block ← find_block (ending_page + 1 - starting_page) starting_page false 0 0 pages
  elim block.1 [
    | false ↦ pure null
    | true ↦ do
      map_block fuel fresh (u32 (shl block.2 12)) block.0 pages user_ok writable_ok
      pure (u32 (shl block.2 12))
  ]

pub mmap_at :
    (fuel : ℕ) (fresh : ℕ → Ptr) (ptr pages : ℕ) (user_ok writable_ok : Bool) → Cmd Paging Ptr
mmap_at fuel fresh ptr pages user_ok writable_ok = do
  big_enough ← check_block fuel (shr ptr 12) (shr ptr 12) pages
  elim big_enough [
    | false ↦ pure null
    | true ↦ do map_block fuel fresh ptr (shr ptr 12) pages user_ok writable_ok; pure ptr
  ]

pub mmap :
    (fuel : ℕ) (fresh : ℕ → Ptr) (ptr pages : ℕ) (user_ok writable_ok : Bool) → Cmd Paging Ptr
mmap fuel fresh ptr pages user_ok writable_ok = do
  assert (ltb 0 pages)
  elim (ptr == null) [
    | true ↦ mmap_anywhere fuel fresh pages user_ok writable_ok
    | false ↦ do
      assert (low_bits ptr 12 == 0)
      assert (leb starting_page (shr ptr 12) && leb (shr ptr 12) ending_page)
      assert (leb (u32 (shr ptr 12 + pages)) ending_page)
      mmap_at fuel fresh ptr pages user_ok writable_ok
  ]
