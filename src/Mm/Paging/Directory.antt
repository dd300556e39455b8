-- ===== src/Mm/Paging/Directory.antt =====
-- `MmAllocPageDirectory`.
use mcpgos.Base.{
  ℕ, zero, suc, ◌+◌, ◌-◌, ◌*◌, ◌/◌, ◌≤◌, ◌<◌, ◌≡◌, refl, sym, ap, ◌∙◌, ◌≢◌, inl, inr, Bool, true,
  false, ◌&&◌, arith, ltb, leb, ◌==◌, if◌then◌else◌, eq→==, ne→==, ==→eq, ==→ne, Bool-cases,
}
use mcpgos.Base.Run.{ok, false_case, true_case}
use mcpgos.Utils.LinkedList.{Ptr, null}
use mcpgos.Mm.Paging.{
  Paging, read, write, k_virt_to_phys, table_entry, kernel_entries, alloc_page_directory,
}
use mcpgos.Mm.Paging.Map.{Entry}

-- The 1024 words at a pointer are different words.
abbrev pub IsTable : Paging → Ptr → Type 0
IsTable s p = (i j : ℕ) → i < 1024 → j < 1024 → s.cell (p + 4 * i) ≡ s.cell (p + 4 * j) → i ≡ j

same_cell :
    (s : Paging) (p : Ptr) (i j : ℕ)
    → IsTable s p
    → i < 1024
    → j < 1024
    → (s.cell (p + 4 * i) == s.cell (p + 4 * j)) ≡ (i == j)
same_cell s p i j h a b = elim (Bool-cases (i == j)) [
  | inl e ↦
      rw e (
        eq→== (s.cell (p + 4 * i)) (s.cell (p + 4 * j))
          (ap (λ k. s.cell (p + 4 * k)) (==→eq i j e)))
  | inr e ↦ rw e (ne→== (s.cell (p + 4 * i)) (s.cell (p + 4 * j)) (λ q. ==→ne i j e (h i j a b q)))
]

-- The round that stores entry `i`, before the rounds that store the `n` entries behind it.
one_more :
    (f : ℕ → ℕ) (i j n old : ℕ) (b : Bool)
    → b ≡ (j == (896 + i))
    → (if leb (896 + (i + 1)) j && ltb j (896 + (i + 1) + n)
        then f (j - 896)
        else if b
        then f i
        else old)
      ≡ (if leb (896 + i) j && ltb j (896 + i + suc n) then f (j - 896) else old)
one_more f i j n old b e = ground arith

kernel_entries-read :
    (n i j : ℕ) (p : Ptr) (s : Paging)
    → i + n ≤ 128
    → j < 1024
    → IsTable s p
    → (kernel_entries n i p s).words (s.cell (p + 4 * j)) ≡ (
        if leb (896 + i) j && ltb j (896 + i + n)
        then table_entry (s.kernel_tables + 4 * ((j - 896) * 1024))
        else read s (p + 4 * j))
unfolding kernel_entries
kernel_entries-read zero i j p s l m h = ground arith
kernel_entries-read (suc n) i j p s l m h =
    let v = table_entry (s.kernel_tables + 4 * (i * 1024)) in
    kernel_entries-read n (i + 1) j p (write (p + 4 * (896 + i)) v s) (omega arith) m h
    ∙ one_more (λ k. table_entry (s.kernel_tables + 4 * (k * 1024))) i j n (read s (p + 4 * j)) _
        (same_cell s p j (896 + i) h m (omega arith))

kernel_entries_keeps :
    (n i a : ℕ) (p : Ptr) (s : Paging)
    → i + n ≤ 128
    → ((j : ℕ) → j < 1024 → a ≢ s.cell (p + 4 * j))
    → (kernel_entries n i p s).words a ≡ s.words a
unfolding kernel_entries
kernel_entries_keeps zero i a p s l h = refl
kernel_entries_keeps (suc n) i a p s l h =
    let v = table_entry (s.kernel_tables + 4 * (i * 1024)) in
    kernel_entries_keeps n (i + 1) a p (write (p + 4 * (896 + i)) v s) (omega arith) h
    ∙ ap (λ b. if b then v else s.words a)
        (ne→== a (s.cell (p + 4 * (896 + i))) (h (896 + i) (omega arith)))

kernel_entries-words :
    (n i : ℕ) (p : Ptr) (s : Paging)
    → kernel_entries n i p s ≡ record s { words = (kernel_entries n i p s).words }
unfolding kernel_entries
kernel_entries-words zero i p s = refl
kernel_entries-words (suc n) i p s =
    kernel_entries-words n (i + 1) p
      (write (p + 4 * (896 + i)) (table_entry (s.kernel_tables + 4 * (i * 1024))) s)

table_entry-Entry :
    (virt : ℕ) → Entry (table_entry virt) (k_virt_to_phys virt / 4096) true false true
table_entry-Entry virt = record {
  page = omega arith;
  is_here = ground arith;
  for_user = ground arith;
  may_write = ground arith;
}

-- What entry `j` of a new directory holds, where `old` is what the memory held.
abbrev pub new_entry : Paging → ℕ → ℕ → ℕ
new_entry s j old =
    if j == 0
    then table_entry s.zero_identity
    else if leb 896 j
    then table_entry (s.kernel_tables + 4 * ((j - 896) * 1024))
    else old

-- Entry 0 is the directory's own address.
first_cell :
    (s : Paging) (p : Ptr) (j : ℕ)
    → IsTable s p
    → j < 1024
    → (s.cell (p + 4 * j) == s.cell p) ≡ (j == 0)
first_cell s p j h l =
    let e : p + 4 * 0 ≡ p = omega arith in
    ap (λ q. s.cell (p + 4 * j) == s.cell q) (sym e) ∙ same_cell s p j 0 h l (omega arith)

not_first :
    (s : Paging) (p : Ptr) (a : ℕ) → ((j : ℕ) → j < 1024 → a ≢ s.cell (p + 4 * j)) → a ≢ s.cell p
not_first s p a out i =
    let e : p + 4 * 0 ≡ p = omega arith in out 0 (omega arith) (i ∙ ap (λ q. s.cell q) (sym e))

first_last :
    (f : ℕ → ℕ) (j old last w : ℕ) (b : Bool)
    → b ≡ (j == 0)
    → j < 1024
    → w ≡ (if leb (896 + 0) j && ltb j (896 + 0 + 128) then f (j - 896) else old)
    → (if b then last else w) ≡ (if j == 0 then last else if leb 896 j then f (j - 896) else old)
first_last f j old last w b e l h = ground arith

-- `MmAllocPageDirectory`, with memory for a table at `result`, returns it: entry 0 leads to the table
-- of the first 4 MiB and entries 896 to 1023 to the tables of the kernel, all of them present,
-- writable and closed to user code; the other entries hold what the memory held, and no word outside
-- the directory changes.
pub alloc_page_directory_lem :
    (result : Ptr) (s : Paging)
    → result ≢ null
    → IsTable s result
    → (t : Paging) × ((alloc_page_directory result s ≡ ok result t)
        × ((j : ℕ) → j < 1024 → read t (result + 4 * j) ≡ new_entry s j (read s (result + 4 * j)))
        × ((virt : ℕ) → Entry (table_entry virt) (k_virt_to_phys virt / 4096) true false true)
        × ((a : ℕ) → ((j : ℕ) → j < 1024 → a ≢ s.cell (result + 4 * j)) → t.words a ≡ s.words a))
unfolding alloc_page_directory
alloc_page_directory_lem result s n h =
    let words = (kernel_entries 128 0 result s).words in
    let last : ℕ = table_entry s.zero_identity in
    (
      write result last (record s { words = words }),
      (
        false_case (result == null) _ _ s (ne→== result null n)
            ∙ ap (λ (k : Paging). ok result (write result (table_entry k.zero_identity) k))
                (kernel_entries-words 128 0 result s),
        λ j l.
            first_last (λ k. table_entry (s.kernel_tables + 4 * (k * 1024))) j
              (read s (result + 4 * j)) last _ _ (first_cell s result j h l) l
              (kernel_entries-read 128 0 j result s (omega arith) l h),
        λ virt. table_entry-Entry virt,
        λ a out.
            ap (λ b. if b then last else words a)
              (ne→== a (s.cell result) (not_first s result a out))
            ∙ kernel_entries_keeps 128 0 a result s (omega arith) out,
      ),
    )

-- With memory or without, `MmAllocPageDirectory` returns what `malloc` did.
pub alloc_page_directory-returns :
    (result : Ptr) (s : Paging) → (t : Paging) × (alloc_page_directory result s ≡ ok result t)
unfolding alloc_page_directory
alloc_page_directory-returns result s = elim (Bool-cases (result == null)) [
  | inl e ↦ (s, true_case _ _ _ s e ∙ ap (λ d. ok d s) (sym (==→eq _ _ e)))
  | inr e ↦ (
    write result (table_entry (kernel_entries 128 0 result s).zero_identity)
        (kernel_entries 128 0 result s),
    false_case _ _ _ s e,
  )
]
