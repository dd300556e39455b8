-- ===== src/Mm/Physical/Free.antt =====
-- What `MmPmFree` does.
use mcpgos.Base.{ℕ, ◌/◌, ◌<◌, ◌≤◌, ◌≡◌, ◌≢◌, refl, ltb, arith, if◌then◌else◌, eq→==, ne→==}
use mcpgos.Base.Run.{ok, fault, panic, free_unused_page}
use mcpgos.Mm.Physical.{Pm, bitmap_size, page_free, page_used, free}
use mcpgos.Mm.Physical.Pages.{
  IsValid, page, put, top-put, put-IsValid, page-put, set_bitmap_value-put, get_bitmap_value-page,
  get_bitmap_value-fault,
}

-- What a call of `MmPmFree` that returns has done, with `index` the page that it looked at.
pub record Freed (s : Pm) (index : ℕ) (t : Pm) : Type 0 where
  pub still_used : page t index ≡ page_used
  pub siblings : (j : ℕ) → j / 4 ≡ index / 4 → j ≢ index → page t j ≡ page_free
  pub others : (j : ℕ) → j / 4 ≢ index / 4 → page t j ≡ page s j
  pub lowered : t.top ≡ (if ltb index s.top then index else s.top)
  pub valid : IsValid t

abbrev after_free : Pm → ℕ → Pm
after_free s i = record (put s i page_free) { top = if ltb i s.top then i else s.top }

after_free-Freed : (s : Pm) (i : ℕ) → IsValid s → page s i ≡ page_used → Freed s i (after_free s i)
after_free-Freed s i v e = record {
  still_used =
      rw (page-put s i page_free i v (omega arith), eq→== (i / 4) (i / 4) refl, eq→== i i refl, e);
  siblings =
      λ j p n. rw (page-put s i page_free j v (omega arith), eq→== (j / 4) (i / 4) p, ne→== j i n);
  others = λ j n. rw (page-put s i page_free j v (omega arith), ne→== (j / 4) (i / 4) n);
  lowered = refl;
  valid = record { bytes = (put-IsValid s i page_free v).bytes };
}

-- `MmPmFree` takes the address over 1024 for the page's index. Past the bitmap that is an access
-- out of bounds. A page that is not marked used makes it panic. Else it returns, the page is still
-- marked used, the three other pages of its byte are free, all other pages are as they were, and
-- the next search starts no later than at that page.
pub free_lem :
    (s : Pm) (phys : ℕ)
    → IsValid s
    → (bitmap_size ≤ phys / 1024 → free phys s ≡ fault)
      × (phys / 1024 < bitmap_size
          → page s (phys / 1024) ≢ page_used
          → free phys s ≡ panic free_unused_page)
      × (phys / 1024 < bitmap_size
          → page s (phys / 1024) ≡ page_used
          → (t : Pm) × (free phys s ≡ ok tt t) × Freed s (phys / 1024) t)
unfolding free
free_lem s phys v = (
  λ h. ground (arith, get_bitmap_value-fault s (phys / 1024) h),
  λ h n. ground (arith, get_bitmap_value-page s (phys / 1024) h),
  λ h e. (
    after_free s (phys / 1024),
    ground (
      arith,
      get_bitmap_value-page s (phys / 1024) h,
      set_bitmap_value-put s (phys / 1024) page_free h,
      top-put s (phys / 1024) page_free,
    ),
    after_free-Freed s (phys / 1024) v e,
  ),
)
