-- ===== src/Mm/Physical/Sequence.antt =====
-- Runs of calls of `MmPmAllocate`.
use mcpgos.Base.{ℕ, ◌+◌, ◌*◌, ◌/◌, ◌%◌, ◌≤◌, ◌≡◌, List, [], ◌∷◌, arith, inl, inr}
use mathlib.Core.Path.{subst₂}
use mcpgos.Base.Run.{ok}
use mcpgos.Mm.Physical.{Pm, bitmap_size, page_free, page_used, allocate}
use mcpgos.Mm.Physical.Pages.{IsValid, page}
use mcpgos.Mm.Physical.Allocate.{Allocated, allocate_lem}

-- Calls of `MmPmAllocate`, one after the other, and the addresses that they return.
pub data Calls : Pm → List ℕ → Pm → Type 0 where
  done : (s : Pm) → Calls s [] s
  call : {s t u : Pm} {a : ℕ} {l : List ℕ} → allocate s ≡ ok a t → Calls t l u → Calls s (a ∷ l) u

-- Page-aligned addresses of different pages of the bitmap, none below `lo`, in rising order.
abbrev pub Rising : ℕ → List ℕ → Type 0
Rising lo [] = Unit {0}
Rising lo (a ∷ l) =
    (lo ≤ a) × (a % 4096 ≡ 0) × (a + 4096 ≤ bitmap_size * 4096) × Rising (a + 4096) l

-- What a call that returns has done.
pub Allocated-of_ok : (s : Pm) (a : ℕ) (t : Pm) → IsValid s → allocate s ≡ ok a t → Allocated s a t
Allocated-of_ok s a t v e = elim (allocate_lem s v) [
  | inl (b, u, r, w) ↦
      let p : b ≡ a = cc in let q : u ≡ t = cc in subst₂ (λ x y. Allocated s x y) p q w
  | inr (_, r) ↦ cc
]

Rising-mono : (lo hi : ℕ) (l : List ℕ) → lo ≤ hi → Rising hi l → Rising lo l
Rising-mono lo hi [] h r = r
Rising-mono lo hi (a ∷ l) h r = (omega arith, r.1, r.2, r.3)

-- Calls of `MmPmAllocate` return the addresses of different pages, each the start of a page below
-- 4 GiB, in rising order from the search's start on: no page is handed out twice.
pub Calls-Rising : {s t : Pm} {l : List ℕ} → IsValid s → Calls s l t → Rising (s.top * 4096) l
Calls-Rising v (done s) = tt
Calls-Rising {s} v (call {t} {a} {l} e c) =
    let w = Allocated-of_ok s a t v e in
    (
      omega (arith, w.found.above, w.address),
      omega (arith, w.address),
      omega (arith, w.address, w.found.below),
      Rising-mono (a + 4096) (t.top * 4096) l (omega (arith, w.address, w.next))
          (Calls-Rising w.valid c),
    )

-- Of two pages of one bitmap byte that are handed out in turn, the first is marked free again by
-- the second call, though nobody has freed it.
pub second_call_frees_first :
    (s t u : Pm) (a b : ℕ)
    → IsValid s
    → allocate s ≡ ok a t
    → allocate t ≡ ok b u
    → a / 16384 ≡ b / 16384
    → (page t (a / 4096) ≡ page_used) × (page u (a / 4096) ≡ page_free)
second_call_frees_first s t u a b v e f h =
    let w = Allocated-of_ok s a t v e in
    let x = Allocated-of_ok t b u w.valid f in
    let i : a / 4096 ≡ w.index = omega (arith, w.address) in
    rw i (
      w.marked,
      x.siblings w.index (omega (arith, w.address, x.address))
          (omega (arith, w.next, x.found.above)),
    )
