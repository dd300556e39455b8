-- ===== src/Mm/Virtual/Search/First.antt =====
-- The search misses no block: what it finds is the first one.
use mathlib.Core.Path.{subst}
use mcpgos.Base.{
  ℕ, zero, suc, ◌+◌, ◌≤◌, ◌<◌, ◌≡◌, refl, ◌≢◌, inl, inr, true, false, not, ◌&&◌, none, some, arith,
  ◌==◌, ==→eq, ==→ne, Bool-cases,
}
use mcpgos.Mm.Virtual.{PageTableEntry, kernel_pages, search, next_start, next_count}
use mcpgos.Mm.Virtual.Search.{AbsentFrom, Counted, IsBlock, Counted-next}

-- The run that the search counts begins where the pages before `i` that are not present begin.
IsLongest : (ℕ → PageTableEntry) → (i start : ℕ) → Type 0
IsLongest tables i start =
    (k : ℕ) → 0 < k → k < i → AbsentFrom tables k i → (0 < start) × (start ≤ k)

-- No block lies before the page `i`.
NoBlock : (ℕ → PageTableEntry) → (pages i : ℕ) → Type 0
NoBlock tables pages i = (k : ℕ) → 0 < k → k + pages ≤ i → AbsentFrom tables k (k + pages) → ⊥

shorter :
    (tables : ℕ → PageTableEntry) (lo i : ℕ) → AbsentFrom tables lo (i + 1) → AbsentFrom tables lo i
shorter tables lo i h j a b = h j a (omega arith)

IsLongest-next :
    (tables : ℕ → PageTableEntry) (i start count : ℕ)
    → Counted tables i start count
    → IsLongest tables i start
    → IsLongest tables (i + 1) (next_start (tables i).present i start)
unfolding IsLongest Counted
IsLongest-next tables i start count r h k p l absent =
    let e : (tables i).present ≡ false = absent i (omega arith) (omega arith) in
    rw e (elim (Bool-cases (start == 0)) [
      | inl z ↦ rw z (elim (Bool-cases (k == i)) [
        | inl q ↦ let d = ==→eq k i q in (omega arith, omega arith)
        | inr q ↦
            let d = ==→ne k i q in
            let z0 = ==→eq start 0 z in
            let (more, _) = h k p (omega arith) (shorter tables k i absent) in absurd (omega arith)
      ])
      | inr z ↦ rw z (elim (Bool-cases (k == i)) [
        | inl q ↦
            let d = ==→eq k i q in
            let n = ==→ne start 0 z in
            elim r [ inl x ↦ absurd (n x) | inr (a, b, c, _) ↦ (omega arith, omega arith) ]
        | inr q ↦ let d = ==→ne k i q in h k p (omega arith) (shorter tables k i absent)
      ])
    ])

-- A round that does not end the search.
NoBlock-next :
    (tables : ℕ → PageTableEntry) (i s c pages : ℕ)
    → 0 < pages
    → Counted tables (i + 1) s c
    → IsLongest tables (i + 1) s
    → not (s == 0) && (c == pages) ≡ false
    → NoBlock tables pages i
    → NoBlock tables pages (i + 1)
unfolding NoBlock IsLongest Counted
NoBlock-next tables i s c pages pos r h e none_yet k p l absent =
    elim (Bool-cases ((k + pages) == (i + 1))) [
      | inr q ↦ let d = ==→ne (k + pages) (i + 1) q in none_yet k p (omega arith) absent
      | inl q ↦
          let d = ==→eq (k + pages) (i + 1) q in
          let (a, b) = h k p (omega arith) (λ j x y. absent j x (omega arith)) in
          elim r [
            | inl z ↦ absurd (omega arith)
            | inr (_, _, sum, run) ↦
                let n : c ≢ pages = λ x. ground (arith, e, a, x) in
                none_yet s a (omega arith) (λ j x y. run j x (omega arith))
          ]
    ]

-- In the round that ends it, a block before the one that is found would have ended it before.
none_before :
    (tables : ℕ → PageTableEntry) (i s c pages k : ℕ)
    → Counted tables (i + 1) s c
    → not (s == 0) && (c == pages) ≡ true
    → s ≡ k
    → NoBlock tables pages i
    → (j : ℕ) → 0 < j
    → j < k
    → AbsentFrom tables j (j + pages)
    → ⊥
unfolding NoBlock Counted
none_before tables i s c pages k (inl z) e q none_yet j p l absent = ground arith
none_before tables i s c pages k (inr (_, _, sum, _)) e q none_yet j p l absent =
    let n : c ≡ pages = ground arith in none_yet j p (omega arith) absent

search-NoBlock :
    (n i start count pages : ℕ) (tables : ℕ → PageTableEntry)
    → i + n ≡ kernel_pages
    → 0 < pages
    → Counted tables i start count
    → IsLongest tables i start
    → NoBlock tables pages i
    → (search n i start count pages tables ≡ none → NoBlock tables pages kernel_pages)
      × ((k : ℕ)
          → search n i start count pages tables ≡ some k
          → (j : ℕ) → 0 < j
          → j < k
          → AbsentFrom tables j (j + pages)
          → ⊥)
unfolding search
search-NoBlock zero i start count pages tables l pos r h none_yet = (
  λ _. let e : i ≡ kernel_pages = omega arith in subst (NoBlock tables pages) e none_yet,
  λ k e. cc,
)
search-NoBlock (suc n) i start count pages tables l pos r h none_yet =
    let s = next_start (tables i).present i start in
    let c = next_count (tables i).present start count in
    let next = Counted-next tables i start count (omega arith) r in
    let longest = IsLongest-next tables i start count r h in
    elim (Bool-cases (not (s == 0) && (c == pages))) [
      | inl e ↦ (
        λ z. ground (arith, z, e),
        λ k z. none_before tables i s c pages k next e (ground (arith, z, e)) none_yet,
      )
      | inr e ↦
          let (nowhere, first) =
            search-NoBlock n (i + 1) s c pages tables (omega arith) pos next longest
              (NoBlock-next tables i s c pages pos next longest e none_yet) in
          (λ z. nowhere (ground (arith, z, e)), λ k z. first k (ground (arith, z, e)))
    ]

module _ (pages : ℕ) (tables : ℕ → PageTableEntry) where
  from_start :
      0 < pages
      → (search kernel_pages 0 0 0 pages tables ≡ none → NoBlock tables pages kernel_pages)
        × ((k : ℕ)
            → search kernel_pages 0 0 0 pages tables ≡ some k
            → (j : ℕ) → 0 < j
            → j < k
            → AbsentFrom tables j (j + pages)
            → ⊥)
  unfolding NoBlock IsLongest Counted
  from_start pos =
      search-NoBlock kernel_pages 0 0 0 pages tables refl pos (inl refl)
        (λ k p l. absurd (omega arith)) (λ k p l. absurd (omega arith))

  -- Where the search finds nothing there is no block.
  pub search-none :
      search kernel_pages 0 0 0 pages tables ≡ none → (k : ℕ) → IsBlock tables k pages → ⊥
  unfolding NoBlock
  search-none e k (p, pos, l, absent) = (from_start pos).0 e k p l absent

  -- What it finds is the first block.
  pub search-first :
      (k : ℕ)
      → search kernel_pages 0 0 0 pages tables ≡ some k
      → (j : ℕ) → j < k
      → IsBlock tables j pages
      → ⊥
  search-first k e j l (p, pos, _, absent) = (from_start pos).1 k e j p l absent
