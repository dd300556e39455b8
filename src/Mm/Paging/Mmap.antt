-- ===== src/Mm/Paging/Mmap.antt =====
-- `MmMmap` never maps memory.
use mathlib.Core.Path.{subst}
use mcpgos.Base.{
  ℕ, zero, suc, ◌+◌, ◌-◌, ◌^◌, ◌≤◌, ◌<◌, ◌≡◌, refl, sym, ◌∙◌, inl, inr, Bool, true, false, ◌&&◌,
  arith, ltb, leb, ◌==◌, if◌then◌else◌,
}
use mcpgos.Base.Words.{u32, shl, shr, low_bits}
use mcpgos.Base.Run.{pure, ◌>>=◌, ◌>>◌, assert}
use mcpgos.Base.Run.{placed}
use mcpgos.Base.Ends.{
  Ends, Ends-bind, Ends-assert, Ends-given, Stops-assert, Ends-if, Ends-mono, returns, runs_out,
  Stops, Stops-bind, Stops-mono, Stops-if, Stops-assert, Stops-Ends, stops_ok, stops_panic,
}
use mcpgos.Utils.LinkedList.{Ptr, null}
use mcpgos.Mm.Physical
use mcpgos.Mm.Physical.{Pm, bitmap_size}
use mcpgos.Mm.Physical.Pages.{IsValid}
use mcpgos.Mm.Physical.Allocate.{allocate_lem}
use mcpgos.Mm.Paging.{
  Paging, is_present, present, test_entry, mm_map, starting_page, ending_page, find_block,
  check_block, map_block, mmap_anywhere, mmap_at, mmap,
}
use mcpgos.Mm.Paging.Ending.{test_entry-Stops, mm_map-Stops}

allocate-Later :
    (s : Paging)
    → IsValid s.pm
    → Stops
        (λ _ t. IsValid t.pm × (s.pm.top < t.pm.top) × (s.pm.top < bitmap_size))
        (placed (λ p. record s { pm = p }) (Physical.allocate s.pm))
allocate-Later s v = elim (allocate_lem s.pm v) [
  | inl (a, p, r, h) ↦ rw r (
      stops_ok (
        h.valid,
        omega (arith, h.found.above, h.next),
        omega (arith, h.found.above, h.found.below),
      ))
  | inr (_, r) ↦ rw r stops_panic
]

in_range : (p : ℕ) → (leb starting_page p && leb p ending_page) ≡ true → p ≤ 917504
in_range p e = ground arith

-- Where the loops' test holds once, it holds for ever.
module _ (ptr_page pages : ℕ) (more : ltb ptr_page (u32 (ptr_page + pages)) ≡ true) where
  -- Each round takes a physical page behind the last, so the loop ends where they do.
  map_block-Stops :
      (k : ℕ) (fresh : ℕ → Ptr) (ptr : ℕ) (u w : Bool) (s : Paging)
      → IsValid s.pm
      → bitmap_size - s.pm.top < k
      → Stops (λ _ _. ⊥) (map_block k fresh ptr ptr_page pages u w s)
  unfolding map_block
  map_block-Stops zero fresh ptr u w s v l = absurd (omega arith)
  map_block-Stops (suc k) fresh ptr u w s v l =
      Stops-if (ltb ptr_page (u32 (ptr_page + pages)))
        (do
          phys ← λ s. placed (λ p. record s { pm = p }) (Physical.allocate s.pm)
          mm_map (fresh k) phys ptr u w
          map_block k fresh ptr ptr_page pages u w)
        (pure tt) s
        (λ _. Stops-bind (allocate-Later s v) (λ phys t h.
          Stops-bind (mm_map-Stops (fresh k) phys ptr u w t) (λ _ t' e.
            map_block-Stops k fresh ptr u w t' (subst IsValid (sym e) h.0)
              (subst (λ p. bitmap_size - p.top < k) (sym e) (omega (arith, h.1, h.2))))))
        (λ e. cc)

  check_block_never :
      (k i : ℕ) (s : Paging)
      → Ends (λ b t. (b ≡ false) × (t ≡ s)) (check_block k i ptr_page pages s)
  unfolding check_block is_present
  check_block_never zero i s = runs_out
  check_block_never (suc k) i s =
      Ends-if (ltb ptr_page (u32 (ptr_page + pages)))
        (do
          taken ← test_entry present (u32 (shl i 12))
          elim taken [ true ↦ pure false | false ↦ check_block k (u32 (i + 1)) ptr_page pages ])
        (pure true) s
        (λ _. Ends-bind (Stops-Ends (test_entry-Stops present (u32 (shl i 12)) s)) (λ taken t e.
          Ends-if taken (pure false) (check_block k (u32 (i + 1)) ptr_page pages) t
            (λ _. returns (refl, e))
            (λ _. Ends-mono (check_block_never k (u32 (i + 1)) t) (λ b v h. (h.0, h.1 ∙ e)))))
        (λ e. cc)

-- The search ends at a page that it may look at, or one behind.
find_block_bound :
    (n p : ℕ) (found : Bool) (base count pages : ℕ) (s : Paging)
    → Stops (λ b t. (b.0 ≤ p + n) × (t ≡ s)) (find_block n p found base count pages s)
unfolding find_block is_present
find_block_bound zero p found base count pages s = stops_ok (omega arith, refl)
find_block_bound (suc n) p found base count pages s =
    let base' = if found then base else p in
    Stops-bind (test_entry-Stops _ (u32 (shl p 12)) s) (λ taken t e.
      Stops-if taken (find_block n (p + 1) false 0 0 pages)
        (elim (u32 (count + 1) == pages) [
          | true ↦ pure (p, true, base')
          | false ↦ find_block n (p + 1) true base' (u32 (count + 1)) pages
        ])
        t
        (λ _.
          Stops-mono (find_block_bound n (p + 1) false 0 0 pages t)
            (λ b v h. (omega arith, h.1 ∙ e)))
        (λ _.
          Stops-if (u32 (count + 1) == pages) (pure (p, true, base'))
            (find_block n (p + 1) true base' (u32 (count + 1)) pages) t
            (λ _. stops_ok (omega arith, e))
            (λ _.
              Stops-mono (find_block_bound n (p + 1) true base' (u32 (count + 1)) pages t)
                (λ b v h. (omega arith, h.1 ∙ e)))))

-- What `MmMmap` does where the addition of its loops' test does not wrap.
module _ (pages : ℕ) (some_pages : 0 < pages) (no_wrap : pages + 917504 < 2 ^ 32) where
  more : (p : ℕ) → p ≤ 917504 → ltb p (u32 (p + pages)) ≡ true
  more p l = ground arith

  abbrev Nothing : Paging → Ptr → Paging → Type 0
  Nothing s p t = (p ≡ null) × (t ≡ s)

  mmap_anywhere_lem :
      (fuel : ℕ) (fresh : ℕ → Ptr) (u w : Bool) (s : Paging)
      → IsValid s.pm
      → bitmap_size - s.pm.top < fuel
      → Stops (Nothing s) (mmap_anywhere fuel fresh pages u w s)
  unfolding mmap_anywhere
  mmap_anywhere_lem fuel fresh u w s v l =
      Stops-bind
        (find_block_bound (ending_page + 1 - starting_page) starting_page false 0 0 pages s)
        (λ b t h.
          Stops-if b.1
            (do map_block fuel fresh (u32 (shl b.2 12)) b.0 pages u w; pure (u32 (shl b.2 12)))
            (pure null) t
            (λ _.
              Stops-bind
                (map_block-Stops b.0 pages (more b.0 (omega (arith, h.0))) fuel fresh
                  (u32 (shl b.2 12)) u w t (subst (λ x. IsValid x.pm) (sym h.1) v)
                  (subst (λ x. bitmap_size - x.pm.top < fuel) (sym h.1) l))
                (λ _ _ n. absurd n))
            (λ _. stops_ok (refl, h.1)))

  mmap_at_lem :
      (fuel : ℕ) (fresh : ℕ → Ptr) (ptr : ℕ) (u w : Bool) (s : Paging)
      → shr ptr 12 ≤ 917504
      → Ends (Nothing s) (mmap_at fuel fresh ptr pages u w s)
  unfolding mmap_at
  mmap_at_lem fuel fresh ptr u w s l =
      Ends-bind (check_block_never (shr ptr 12) pages (more (shr ptr 12) l) fuel (shr ptr 12) s)
        (λ b t h.
          Ends-if b (do map_block fuel fresh ptr (shr ptr 12) pages u w; pure ptr) (pure null) t
            (λ e. absurd cc) (λ _. returns (refl, h.1)))

  -- From a valid bitmap, for at least one page, few enough that page numbers do not wrap, and with
  -- more fuel than there are physical pages left: `MmMmap` with a NULL pointer ends, and if it
  -- returns, it returns NULL and has changed nothing; with any pointer it returns nothing else.
  pub mmap_lem :
      (fuel : ℕ) (fresh : ℕ → Ptr) (ptr : ℕ) (u w : Bool) (s : Paging)
      → IsValid s.pm
      → bitmap_size - s.pm.top < fuel
      → Stops (Nothing s) (mmap fuel fresh null pages u w s)
        × Ends (Nothing s) (mmap fuel fresh ptr pages u w s)
  unfolding mmap
  mmap_lem fuel fresh ptr u w s v l = (
    Stops-assert (ltb 0 pages) s _ (mmap_anywhere_lem fuel fresh u w s v l),
    Ends-assert (ltb 0 pages) s _ (
        Ends-if (ptr == null) (mmap_anywhere fuel fresh pages u w)
          (do
            assert (low_bits ptr 12 == 0)
            assert (leb starting_page (shr ptr 12) && leb (shr ptr 12) ending_page)
            assert (leb (u32 (shr ptr 12 + pages)) ending_page)
            mmap_at fuel fresh ptr pages u w)
          s (λ _. Stops-Ends (mmap_anywhere_lem fuel fresh u w s v l))
          (λ _. Ends-assert (low_bits ptr 12 == 0) s _ (
            Ends-given (leb starting_page (shr ptr 12) && leb (shr ptr 12) ending_page) s _ (λ e.
              Ends-assert (leb (u32 (shr ptr 12 + pages)) ending_page) s _
                (mmap_at_lem fuel fresh ptr u w s (in_range (shr ptr 12) e)))))),
  )
