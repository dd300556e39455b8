-- ===== src/Mm/Paging/Lookup.antt =====
-- What the walk from a directory to an entry finds.
use mathlib.Core.Path.{subst}
use mcpgos.Base.{
  ℕ, zero, suc, ◌+◌, ◌*◌, ◌%◌, ◌^◌, ◌≤◌, ◌<◌, ◌≡◌, refl, sym, ap, ◌∙◌, ◌≢◌, ◌⊎◌, inl, inr, Bool,
  true, false, not, arith, leb, ◌==◌, if◌then◌else◌, ne→==, ==→eq, ==→ne, Bool-cases,
}
use mcpgos.Base.Words.{shr, low_bits, u32}
use mcpgos.Base.Run.{ok, then_returns, true_case, false_case, assert-true}
use mcpgos.Utils.LinkedList.{Ptr, null}
use mcpgos.Mm.Paging.{
  Paging, read, present, phys_address, page_of, kernel_pages, phys_to_virt_loop,
  kernel_phys_to_virt, get_table, get_table_addr, get_table_entry, virt_to_phys, test_entry,
  switch_page_directory,
}

-- Some entry of `KernelPageTables` has the frame of `phys`, and none of them has.
abbrev pub IsBacked : Paging → ℕ → Type 0
IsBacked s phys =
    (i : ℕ) × (i < kernel_pages) × (page_of (read s (s.kernel_tables + 4 * i)) ≡ page_of phys)

abbrev pub IsMissing : Paging → ℕ → Type 0
IsMissing s phys =
    (i : ℕ) → i < kernel_pages → page_of (read s (s.kernel_tables + 4 * i)) ≢ page_of phys

phys_to_virt_loop-hit :
    (n i j phys : ℕ) (s : Paging)
    → i ≤ j
    → j < i + n
    → page_of (read s (s.kernel_tables + 4 * j)) ≡ page_of phys
    → phys_to_virt_loop n i phys s ≡ phys
unfolding phys_to_virt_loop
phys_to_virt_loop-hit zero i j phys s a b e = absurd (omega arith)
phys_to_virt_loop-hit (suc n) i j phys s a b e =
    elim (Bool-cases (page_of (read s (s.kernel_tables + 4 * i)) == page_of phys)) [
      | inl h ↦ rw h (omega (arith, ==→eq _ _ h))
      | inr h ↦ rw h (phys_to_virt_loop-hit n (i + 1) j phys s (later h) (omega arith) e)
    ]
  where
    later : (page_of (read s (s.kernel_tables + 4 * i)) == page_of phys) ≡ false → i + 1 ≤ j
    later h = elim (Bool-cases (i == j)) [
      | inl q ↦ absurd (
          ==→ne _ _ h (
            subst (λ k. page_of (read s (s.kernel_tables + 4 * k)) ≡ page_of phys)
              (sym (==→eq i j q)) e))
      | inr q ↦ omega (arith, ==→ne i j q)
    ]

phys_to_virt_loop-miss :
    (n i phys : ℕ) (s : Paging)
    → i + n ≤ kernel_pages
    → IsMissing s phys
    → phys_to_virt_loop n i phys s ≡ null
unfolding phys_to_virt_loop
phys_to_virt_loop-miss zero i phys s l h = refl
phys_to_virt_loop-miss (suc n) i phys s l h =
    ground (arith, h i, phys_to_virt_loop-miss n (i + 1) phys s (omega arith) h)

-- What the entries from `i` on say.
search_result :
    (n i phys : ℕ) (s : Paging)
    → i + n ≡ kernel_pages
    → IsBacked s phys
      ⊎ ((j : ℕ)
          → i ≤ j
          → j < kernel_pages
          → page_of (read s (s.kernel_tables + 4 * j)) ≢ page_of phys)
search_result zero i phys s e = inr (λ j a b. absurd (omega arith))
search_result (suc n) i phys s e =
    elim (Bool-cases (page_of (read s (s.kernel_tables + 4 * i)) == page_of phys)) [
      | inl h ↦ inl (i, omega arith, ==→eq _ _ h)
      | inr h ↦ elim (search_result n (i + 1) phys s (omega arith)) [
        | inl b ↦ inl b
        | inr m ↦ inr (λ j a b. elim (Bool-cases (j == i)) [
          | inl q ↦ rw (==→eq j i q) (==→ne _ _ h)
          | inr q ↦ m j (omega (arith, ==→ne j i q)) b
        ])
      ]
    ]

kernel_phys_to_virt-IsBacked :
    (phys : ℕ) (s : Paging) → IsBacked s phys → kernel_phys_to_virt phys s ≡ phys
unfolding kernel_phys_to_virt
kernel_phys_to_virt-IsBacked phys s h =
    phys_to_virt_loop-hit kernel_pages 0 h.0 phys s (omega arith) (omega (arith, h.1)) h.2

-- `MmKernelPhysToVirt` hands back the physical address itself, where some entry of the kernel's page
-- tables has its frame, and NULL where none has.
pub kernel_phys_to_virt_lem :
    (phys : ℕ) (s : Paging)
    → (IsBacked s phys × (kernel_phys_to_virt phys s ≡ phys))
      ⊎ (IsMissing s phys × (kernel_phys_to_virt phys s ≡ null))
unfolding kernel_phys_to_virt
kernel_phys_to_virt_lem phys s = elim (search_result kernel_pages 0 phys s refl) [
  | inl b ↦ inl (b, kernel_phys_to_virt-IsBacked phys s b)
  | inr m ↦
      let missing : IsMissing s phys = λ j l. m j (omega arith) l in
      inr (missing, phys_to_virt_loop-miss kernel_pages 0 phys s (omega arith) missing)
]

-- The directory's entry for an address.
abbrev pub directory_entry : Ptr → ℕ → Ptr
directory_entry pde virt = pde + 4 * shr virt 22

-- The walk from the directory `pde` for the address `virt` ends at the entry `pte`.
pub record Walk (s : Paging) (pde : Ptr) (virt : ℕ) (pte : Ptr) : Type 0 where
  pub small : virt < 2 ^ 32
  pub mapped : present (read s (directory_entry pde virt)) ≡ true
  pub backed : IsBacked s (page_of (read s (directory_entry pde virt)))
  pub not_null : page_of (read s (directory_entry pde virt)) ≢ null
  pub here : pte ≡ page_of (read s (directory_entry pde virt)) + 4 * low_bits (shr virt 12) 10

get_table-Walk :
    (s : Paging) (pde : Ptr) (virt : ℕ) (pte : Ptr)
    → Walk s pde virt pte
    → get_table pde (shr virt 22) s ≡ ok (page_of (read s (directory_entry pde virt))) s
unfolding get_table
get_table-Walk s pde virt pte w =
    let e = kernel_phys_to_virt-IsBacked (page_of (read s (directory_entry pde virt))) s w.backed in
    let small : leb (shr virt 22) 1023 ≡ true = ground arith in
    then_returns _ tt s (assert-true (leb (shr virt 22) 1023) s small)
      (true_case (present (read s (directory_entry pde virt))) _ _ s w.mapped ∙ ap (λ p. ok p s) e)

pub get_table_entry-Walk :
    (s : Paging) (pde : Ptr) (virt : ℕ) (pte : Ptr)
    → Walk s pde virt pte
    → get_table_entry pde virt s ≡ ok pte s
unfolding get_table_entry get_table_addr
get_table_entry-Walk s pde virt pte w = then_returns _ _ s (get_table-Walk s pde virt pte w) (
    ap
      (λ b.
        ok
          (if b
            then null
            else page_of (read s (directory_entry pde virt)) + 4 * low_bits (shr virt 12) 10)
          s)
      (ne→== _ null w.not_null)
    ∙ ap (λ p. ok p s) (sym w.here))

pub entry-ne-null :
    (s : Paging) (pde : Ptr) (virt : ℕ) (pte : Ptr) → Walk s pde virt pte → pte ≢ null
entry-ne-null s pde virt pte w e = w.not_null (omega (arith, w.here, e))

pub virt_to_phys-Walk :
    (s : Paging) (pde : Ptr) (virt : ℕ) (pte : Ptr)
    → Walk s pde virt pte
    → pde ≢ null
    → virt_to_phys pde virt s ≡ ok (u32 (phys_address (read s pte) * 4096 + virt % 4096)) s
unfolding virt_to_phys
virt_to_phys-Walk s pde virt pte w n =
    then_returns _ tt s (assert-true (not (pde == null)) s (ground arith)) (
      then_returns _ pte s (get_table_entry-Walk s pde virt pte w)
        (false_case (pte == null) _ _ s (ne→== pte null (entry-ne-null s pde virt pte w))))

pub test_entry-Walk :
    (field : ℕ → Bool) (s : Paging) (virt : ℕ) (pte : Ptr)
    → Walk s s.directory virt pte
    → test_entry field virt s ≡ ok (field (read s pte)) s
unfolding test_entry
test_entry-Walk field s virt pte w =
    then_returns _ pte s (get_table_entry-Walk s s.directory virt pte w)
      (false_case (pte == null) _ _ s (ne→== pte null (entry-ne-null s s.directory virt pte w)))

get_table-returns :
    (s : Paging) (pde : Ptr) (virt : ℕ)
    → virt < 2 ^ 32
    → (p : Ptr) × (get_table pde (shr virt 22) s ≡ ok p s)
unfolding get_table
get_table-returns s pde virt l =
    let small : leb (shr virt 22) 1023 ≡ true = ground arith in
    elim (Bool-cases (present (read s (directory_entry pde virt)))) [
      | inl e ↦ (
        kernel_phys_to_virt (page_of (read s (directory_entry pde virt))) s,
        then_returns _ tt s (assert-true _ s small) (true_case _ _ _ s e),
      )
      | inr e ↦ (null, then_returns _ tt s (assert-true _ s small) (false_case _ _ _ s e))
    ]

-- `MmVirtToPhys` returns for every 32-bit address, and reads only.
pub virt_to_phys-returns :
    (s : Paging) (pde : Ptr) (virt : ℕ)
    → pde ≢ null
    → virt < 2 ^ 32
    → (phys : ℕ) × (virt_to_phys pde virt s ≡ ok phys s)
unfolding virt_to_phys get_table_entry get_table_addr
virt_to_phys-returns s pde virt n l =
    let (table, e) = get_table-returns s pde virt l in
    let p : Ptr = if table == null then null else table + 4 * low_bits (shr virt 12) 10 in
    let walk : get_table_entry pde virt s ≡ ok p s = then_returns _ table s e refl in
    let start = assert-true (not (pde == null)) s (ground arith) in
    elim (Bool-cases (p == null)) [
      | inl q ↦ (0, then_returns _ tt s start (then_returns _ p s walk (true_case _ _ _ s q)))
      | inr q ↦ (
        u32 (phys_address (read s p) * 4096 + virt % 4096),
        then_returns _ tt s start (then_returns _ p s walk (false_case _ _ _ s q)),
      )
    ]

-- So does `SwitchPageDirectory`.
pub switch_page_directory-returns :
    (s : Paging) (pd : Ptr)
    → s.directory ≢ null
    → pd < 2 ^ 32
    → (t : Paging) × ((switch_page_directory pd s ≡ ok tt t)
        × (t.directory ≡ pd)
        × (t.cr3 ≡ t.directory_phys))
unfolding switch_page_directory
switch_page_directory-returns s pd n l =
    let (phys, e) = virt_to_phys-returns s s.directory pd n l in
    (
      record s { directory_phys = phys; directory = pd; cr3 = phys },
      (then_returns _ phys s e refl, refl, refl),
    )
