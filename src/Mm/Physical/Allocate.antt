-- ===== src/Mm/Physical/Allocate.antt =====
-- What `MmPmAllocate` and `MmPmFree` do to the table of page values.
use mcpgos.Base.{
  ℕ, zero, suc, ◌+◌, ◌-◌, ◌*◌, ◌/◌, ◌<◌, ◌≤◌, ◌≡◌, ◌≢◌, ◌⊎◌, refl, none, some, arith, ◌==◌, inl,
  inr, Bool-cases, ==→eq, ==→ne, eq→==, ne→==,
}
use mcpgos.Base.Run.{ok, panic, no_physical_page}
use mcpgos.Mm.Physical.{Pm, bitmap_size, page_free, page_used, find_free, allocate}
use mcpgos.Mm.Physical.Pages.{
  IsValid, page, put, top-put, put-IsValid, page-put, set_bitmap_value-put, get_bitmap_value-page,
}

-- `i` is the first free page from `lo` on.
pub record FirstFree (s : Pm) (lo i : ℕ) : Type 0 where
  pub above : lo ≤ i
  pub below : i < bitmap_size
  pub is_free : page s i ≡ page_free
  pub first : (j : ℕ) → lo ≤ j → j < i → page s j ≢ page_free

module _ (n i : ℕ) (s : Pm) (h : i < bitmap_size) where
  find_free-hit :
      page s i ≡ page_free → find_free (suc n) i s ≡ ok (some i) (record s { top = i + 1 })
  unfolding find_free
  find_free-hit e = ground (arith, get_bitmap_value-page s i h)

  find_free-miss : page s i ≢ page_free → find_free (suc n) i s ≡ find_free n (i + 1) s
  unfolding find_free
  find_free-miss e = ground (arith, get_bitmap_value-page s i h)

-- Extends a search that starts one page later.
Free-before : {s : Pm} {i k : ℕ} → page s i ≢ page_free → FirstFree s (i + 1) k → FirstFree s i k
Free-before {i} e f = record {
  above = omega (arith, f.above);
  below = f.below;
  is_free = f.is_free;
  first = λ j a b. elim (Bool-cases (j == i)) [
    | inl q ↦ rw (==→eq _ _ q) e
    | inr q ↦ f.first j (omega (arith, ==→ne _ _ q)) b
  ];
}

find_free_lem :
    (n i : ℕ) (s : Pm)
    → n ≤ bitmap_size - i
    → ((k : ℕ) × FirstFree s i k × (find_free n i s ≡ ok (some k) (record s { top = k + 1 })))
      ⊎ (((j : ℕ) → i ≤ j → j < i + n → page s j ≢ page_free) × (find_free n i s ≡ ok none s))
find_free_lem zero i s h = inr (λ j a b. absurd (omega arith), unfold find_free in refl)
find_free_lem (suc n) i s h = elim (Bool-cases (page s i == page_free)) [
  | inl e ↦
      let hit = ==→eq _ _ e in
      inl (
        i,
        record {
          above = omega arith;
          below = omega arith;
          is_free = hit;
          first = λ j a b. absurd (omega arith);
        },
        find_free-hit n i s (omega arith) hit,
      )
  | inr e ↦
      let miss = ==→ne _ _ e in
      rw (find_free-miss n i s (omega arith) miss) (elim (find_free_lem n (i + 1) s (omega arith)) [
        | inl (k, f, r) ↦ inl (k, Free-before miss f, r)
        | inr (g, r) ↦ inr (
          λ j a b. elim (Bool-cases (j == i)) [
            | inl q ↦ rw (==→eq _ _ q) miss
            | inr q ↦ g j (omega (arith, ==→ne _ _ q)) (omega arith)
          ],
          r,
        )
      ])
]

-- The page at `addr` has been given out, and `t` is the state after.
pub record Allocated (s : Pm) (addr : ℕ) (t : Pm) : Type 0 where
  pub index : ℕ
  pub found : FirstFree s s.top index
  pub address : addr ≡ index * 4096
  pub next : t.top ≡ index + 1
  pub marked : page t index ≡ page_used
  pub siblings : (j : ℕ) → j / 4 ≡ index / 4 → j ≢ index → page t j ≡ page_free
  pub others : (j : ℕ) → j / 4 ≢ index / 4 → page t j ≡ page s j
  pub valid : IsValid t

put-Allocated :
    (s : Pm) (i : ℕ)
    → IsValid s
    → FirstFree s s.top i
    → Allocated s (i * 4096) (put (record s { top = i + 1 }) i page_used)
put-Allocated s i v f =
    let s1 : Pm = record s { top = i + 1 } in
    let v1 : IsValid s1 = record { bytes = v.bytes } in
    record {
      index = i;
      found = f;
      address = refl;
      next = top-put s1 i page_used;
      marked = rw (
        page-put s1 i page_used i v1 (omega arith),
        eq→== (i / 4) (i / 4) refl,
        eq→== i i refl,
        f.is_free,
      );
      siblings = λ j e n.
          rw (page-put s1 i page_used j v1 (omega arith), eq→== (j / 4) (i / 4) e, ne→== j i n);
      others = λ j n. rw (page-put s1 i page_used j v1 (omega arith), ne→== (j / 4) (i / 4) n);
      valid = put-IsValid s1 i page_used v1;
    }

-- `MmPmAllocate` never touches memory outside the bitmap. It returns the address of the first page
-- from the search's start that is marked free, marks it used, starts the next search behind it and
-- leaves the pages of other bytes alone (those of its own byte become free); or no page from the
-- search's start is marked free and it panics.
pub allocate_lem :
    (s : Pm)
    → IsValid s
    → ((addr : ℕ) × (t : Pm) × (allocate s ≡ ok addr t) × Allocated s addr t)
      ⊎ (((j : ℕ) → s.top ≤ j → j < bitmap_size → page s j ≢ page_free)
          × (allocate s ≡ panic no_physical_page))
unfolding allocate
allocate_lem s v = elim (find_free_lem (bitmap_size - s.top) s.top s (omega arith)) [
  | inl (i, f, r) ↦ inl (
    i * 4096,
    put (record s { top = i + 1 }) i page_used,
    ground (arith, r, set_bitmap_value-put (record s { top = i + 1 }) i page_used f.below, f.below),
    put-Allocated s i v f,
  )
  | inr (g, r) ↦ inr (λ j a b. g j a (omega arith), ground (arith, r))
]
