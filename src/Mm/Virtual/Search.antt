-- ===== src/Mm/Virtual/Search.antt =====
-- What the search for free kernel pages finds.
pub mod First
use mcpgos.Base.{
  ℕ, zero, suc, ◌+◌, ◌≤◌, ◌<◌, ◌≡◌, refl, ◌⊎◌, inl, inr, true, false, not, ◌&&◌, some, arith, ◌==◌,
  eq→==, ne→==, ==→eq, ==→ne, Bool-cases,
}
use mcpgos.Mm.Virtual.{PageTableEntry, kernel_pages, search, next_start, next_count}

-- The pages `lo`, ..., `hi - 1` are not present.
abbrev pub AbsentFrom : (ℕ → PageTableEntry) → ℕ → ℕ → Type 0
AbsentFrom tables lo hi = (j : ℕ) → lo ≤ j → j < hi → (tables j).present ≡ false

-- What `startingPage` and `pageCounter` say before the page `i`: no run, or the run that they name.
Counted : (ℕ → PageTableEntry) → (i start count : ℕ) → Type 0
Counted tables i start count =
    (start ≡ 0) ⊎ ((0 < start) × (0 < count) × (start + count ≡ i) × AbsentFrom tables start i)

-- What the search returns.
abbrev pub IsBlock : (ℕ → PageTableEntry) → ℕ → ℕ → Type 0
IsBlock tables k pages =
    (0 < k) × (0 < pages) × (k + pages ≤ kernel_pages) × AbsentFrom tables k (k + pages)

AbsentFrom-more :
    (tables : ℕ → PageTableEntry) (lo i : ℕ)
    → (tables i).present ≡ false
    → AbsentFrom tables lo i
    → AbsentFrom tables lo (i + 1)
AbsentFrom-more tables lo i e h j a b = elim (Bool-cases (j == i)) [
  | inl q ↦ rw (==→eq j i q) e
  | inr q ↦ h j a (omega (arith, ==→ne j i q))
]

Counted-next :
    (tables : ℕ → PageTableEntry) (i start count : ℕ)
    → i < kernel_pages
    → Counted tables i start count
    → Counted tables
        (i + 1)
        (next_start (tables i).present i start)
        (next_count (tables i).present start count)
unfolding Counted
Counted-next tables i start count l r = elim (Bool-cases (tables i).present) [
  | inl e ↦ rw e (inl refl)
  | inr e ↦ rw e (elim r [
    | inl z ↦ rw (eq→== start 0 z) (elim (Bool-cases (i == 0)) [
      | inl q ↦ inl (==→eq i 0 q)
      | inr q ↦ inr (
        omega (arith, ==→ne i 0 q),
        omega arith,
        omega arith,
        AbsentFrom-more tables i i e (λ j a b. absurd (omega arith)),
      )
    ])
    | inr (p, c, q, absent) ↦
        rw (ne→== start 0 (omega arith))
          (inr (p, omega arith, omega arith, AbsentFrom-more tables start i e absent))
  ])
]

-- The round in which the search ends.
found :
    (tables : ℕ → PageTableEntry) (i s c pages k : ℕ)
    → i < kernel_pages
    → Counted tables (i + 1) s c
    → not (s == 0) && (c == pages) ≡ true
    → k ≡ s
    → IsBlock tables k pages
unfolding Counted
found tables i s c pages k l (inl z) h e = ground arith
found tables i s c pages k l (inr (p, q, r, absent)) h e =
    let n : pages ≡ c = ground arith in
    (omega arith, omega arith, omega arith, λ j a b. absent j (omega arith) (omega arith))

search-IsBlock :
    (n i start count pages k : ℕ) (tables : ℕ → PageTableEntry)
    → i + n ≤ kernel_pages
    → Counted tables i start count
    → search n i start count pages tables ≡ some k
    → IsBlock tables k pages
unfolding search
search-IsBlock zero i start count pages k tables l r e = cc
search-IsBlock (suc n) i start count pages k tables l r e =
    let s = next_start (tables i).present i start in
    let c = next_count (tables i).present start count in
    let next = Counted-next tables i start count (omega arith) r in
    elim (Bool-cases (not (s == 0) && (c == pages))) [
      | inl h ↦ found tables i s c pages k (omega arith) next h (ground arith)
      | inr h ↦ search-IsBlock n (i + 1) s c pages k tables (omega arith) next (ground arith)
    ]

-- What the whole search finds is a block.
pub search_lem :
    (pages k : ℕ) (tables : ℕ → PageTableEntry)
    → search kernel_pages 0 0 0 pages tables ≡ some k
    → IsBlock tables k pages
unfolding Counted
search_lem pages k tables e =
    search-IsBlock kernel_pages 0 0 0 pages k tables (omega arith) (inl refl) e
