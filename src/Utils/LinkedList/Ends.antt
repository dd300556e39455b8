-- ===== src/Utils/LinkedList/Ends.antt =====
-- `LListGetFirst`, `LListGetLast`, `LListGet` and `LListGetSize`: the walks, which write nothing.
use mathlib.Core.List.{reverse_aux}
use mcpgos.Base.{
  ℕ, zero, suc, ◌+◌, ◌%◌, ◌^◌, ◌<◌, ◌≡◌, refl, ap, ◌∙◌, List, [], ◌∷◌, arith, ne→==, lt→ltb, length,
}
use mcpgos.Base.Run.{ok}
use mcpgos.Utils.LinkedList.{
  Ptr, null, links, Heap, first_loop, get_first, last_loop, get_last, get_loop, get, size_loop,
  get_size,
}
use mcpgos.Utils.LinkedList.Chain.{first_or, last_or, Chain, IsList, load-ok, Chain-drop}

first_loop_lem :
    (k : ℕ) (h : Heap) (bs : List Ptr) (p : Ptr) (zs : List Ptr)
    → length bs < k
    → IsList h (reverse_aux bs (p ∷ zs))
    → first_loop k p h ≡ ok (last_or p bs) h
unfolding first_loop
first_loop_lem zero h bs p zs f c = absurd (omega arith)
first_loop_lem (suc k) h [] p zs f c = rw (load-ok h p (links (first_or null zs) null) c.0 c.1)
first_loop_lem (suc k) h (b ∷ bs) p zs f c =
    let d = Chain-drop h null bs (b ∷ p ∷ zs) c in
    ground (
      arith,
      load-ok h p (links (first_or null zs) b) d.3.0 d.3.1,
      first_loop_lem k h bs b (p ∷ zs) (omega arith) c,
      d.0,
    )

-- From any element of a list, with `bs` the elements before it, the nearest first, `LListGetFirst`
-- returns the first element of the list.
pub get_first_lem :
    (k : ℕ) (h : Heap) (bs : List Ptr) (p : Ptr) (zs : List Ptr)
    → length bs < k
    → IsList h (reverse_aux bs (p ∷ zs))
    → get_first k p h ≡ ok (last_or p bs) h
unfolding get_first
get_first_lem k h bs p zs f c =
    rw (ne→== p null (Chain-drop h null bs (p ∷ zs) c).0) (first_loop_lem k h bs p zs f c)

last_loop_lem :
    (k : ℕ) (h : Heap) (q p : Ptr) (zs : List Ptr)
    → length zs < k
    → Chain h q (p ∷ zs)
    → last_loop k p h ≡ ok (last_or p zs) h
unfolding last_loop
last_loop_lem zero h q p zs f c = absurd (omega arith)
last_loop_lem (suc k) h q p [] f c = rw (load-ok h p (links null q) c.0 c.1)
last_loop_lem (suc k) h q p (z ∷ zs) f c =
    ground
      (arith, load-ok h p (links z q) c.0 c.1, last_loop_lem k h p z zs (omega arith) c.3, c.3.0)

pub get_last_lem :
    (k : ℕ) (h : Heap) (q p : Ptr) (zs : List Ptr)
    → length zs < k
    → Chain h q (p ∷ zs)
    → get_last k p h ≡ ok (last_or p zs) h
unfolding get_last
get_last_lem k h q p zs f c = rw (ne→== p null c.0) (last_loop_lem k h q p zs f c)

-- The item at an index, NULL past the end.
abbrev pub item : List Ptr → ℕ → Ptr
item [] i = null
item (p ∷ xs) zero = p
item (p ∷ xs) (suc i) = item xs i

item-nil : (i : ℕ) → item [] i ≡ null
item-nil zero = refl
item-nil (suc i) = refl

get_loop_lem :
    (i : ℕ) (h : Heap) (q p : Ptr) (zs : List Ptr)
    → Chain h q (p ∷ zs)
    → get_loop i p h ≡ ok (item (p ∷ zs) i) h
unfolding get_loop
get_loop_lem zero h q p zs c = refl
get_loop_lem (suc i) h q p [] c = rw (load-ok h p (links null q) c.0 c.1)
get_loop_lem (suc i) h q p (z ∷ zs) c =
    ground (arith, load-ok h p (links z q) c.0 c.1, get_loop_lem i h p z zs c.3, c.3.0)

-- A list seen from one of its elements, and from its first.
pub first-reverse_aux :
    (bs : List Ptr) (p : Ptr) (zs : List Ptr)
    → (ys : List Ptr) × (reverse_aux bs (p ∷ zs) ≡ last_or p bs ∷ ys)
      × (last_or (last_or p bs) ys ≡ last_or p zs)
first-reverse_aux [] p zs = (zs, refl, refl)
first-reverse_aux (b ∷ bs) p zs = first-reverse_aux bs b (p ∷ zs)

-- From any element of a list, `LListGet` returns the element at the index in the whole list, and
-- NULL where the index is past its end.
pub get_lem :
    (k : ℕ) (h : Heap) (bs : List Ptr) (p : Ptr) (zs : List Ptr) (index : ℕ)
    → length bs < k
    → index < 0xFFFFFFFF
    → IsList h (reverse_aux bs (p ∷ zs))
    → get k p index h ≡ ok (item (reverse_aux bs (p ∷ zs)) index) h
unfolding get
get_lem k h bs p zs index f i c =
    let (ys, e, _) = first-reverse_aux bs p zs in
    rw
      (
        ne→== p null (Chain-drop h null bs (p ∷ zs) c).0,
        lt→ltb _ _ i,
        get_first_lem k h bs p zs f c,
        e,
      )
      (get_loop_lem index h null (last_or p bs) ys (rw e at c))

size_loop_lem :
    (k : ℕ) (h : Heap) (q p : Ptr) (zs : List Ptr) (n : ℕ)
    → length zs < k
    → n < 2 ^ 32
    → Chain h q (p ∷ zs)
    → size_loop k p n h ≡ ok ((n + length zs) % 2 ^ 32) h
unfolding size_loop
size_loop_lem zero h q p zs n f s c = absurd (omega arith)
size_loop_lem (suc k) h q p [] n f s c = ground (arith, load-ok h p (links null q) c.0 c.1)
size_loop_lem (suc k) h q p (z ∷ zs) n f s c = ground (
  arith,
  load-ok h p (links z q) c.0 c.1,
  size_loop_lem k h p z zs ((n + 1) % 2 ^ 32) (omega arith) (omega arith) c.3,
  c.3.0,
)

-- `LListGetSize` counts, modulo `2 ^ 32`, the element that it is given and those behind it, and not
-- those before it.
pub get_size_lem :
    (k : ℕ) (h : Heap) (bs : List Ptr) (p : Ptr) (zs : List Ptr)
    → length zs < k
    → IsList h (reverse_aux bs (p ∷ zs))
    → get_size k p h ≡ ok (length (p ∷ zs) % 2 ^ 32) h
unfolding get_size
get_size_lem k h bs p zs f c =
    let d = Chain-drop h null bs (p ∷ zs) c in
    rw (ne→== p null d.0) (
      size_loop_lem k h (first_or null bs) p zs 1 f (omega arith) d
      ∙ ap (λ n. ok n h) (omega arith))
