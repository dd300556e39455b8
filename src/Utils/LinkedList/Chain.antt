-- ===== src/Utils/LinkedList/Chain.antt =====
-- Well-formed lists in the heap.
use mathlib.Core.List.{reverse_aux}
use mcpgos.Base.{
  ◌≡◌, ◌∙◌, ◌≢◌, Bool, true, false, ◌||◌, Option, some, List, [], ◌∷◌, arith, ◌==◌, assign, ne→==,
}
use mcpgos.Base.Run.{ok}
use mcpgos.Utils.LinkedList.{Ptr, null, Links, links, Heap, load, set_next, set_prev}

abbrev pub among : Ptr → List Ptr → Bool
among a [] = false
among a (p ∷ xs) = (a == p) || among a xs

-- The first item, and the last, with what stands in where there is none.
abbrev pub first_or : Ptr → List Ptr → Ptr
first_or d [] = d
first_or d (p ∷ xs) = p

abbrev pub last_or : Ptr → List Ptr → Ptr
last_or d [] = d
last_or d (p ∷ xs) = last_or p xs

-- Different elements, linked in this order both ways; `q` is what the first has for `Prev`.
abbrev pub Chain : Heap → Ptr → List Ptr → Type 0
Chain h q [] = Unit {0}
Chain h q (p ∷ xs) =
    (p ≢ null) × (h p ≡ some (links (first_or null xs) q)) × (among p xs ≡ false) × Chain h p xs

-- A whole list: the elements at the addresses `xs`, in this order.
abbrev pub IsList : Heap → List Ptr → Type 0
IsList h xs = Chain h null xs

-- Every element that is not one of `xs` is in `g` what it is in `h`.
abbrev pub Spares : List Ptr → Heap → Heap → Type 0
Spares xs h g = (a : Ptr) → among a xs ≡ false → g a ≡ h a

pub load-ok : (h : Heap) (p : Ptr) (l : Links) → p ≢ null → h p ≡ some l → load p h ≡ ok l h
unfolding load
load-ok h p l n e = rw (ne→== p null n, e)

pub set_next-ok :
    (h : Heap) (p q : Ptr) (l : Links)
    → p ≢ null
    → h p ≡ some l
    → set_next p q h ≡ ok tt (assign h p (some (links q l.prev)))
unfolding set_next
set_next-ok h p q l n e = rw (load-ok h p l n e)

pub set_prev-ok :
    (h : Heap) (p q : Ptr) (l : Links)
    → p ≢ null
    → h p ≡ some l
    → set_prev p q h ≡ ok tt (assign h p (some (links l.next q)))
unfolding set_prev
set_prev-ok h p q l n e = rw (load-ok h p l n e)

-- What stands before an element takes nothing from the list that begins there.
pub Chain-drop :
    (h : Heap) (q : Ptr) (bs l : List Ptr)
    → Chain h q (reverse_aux bs l)
    → Chain h (first_or q bs) l
Chain-drop h q [] l c = c
Chain-drop h q (b ∷ bs) l c = (Chain-drop h q bs (b ∷ l) c).3

-- What changes other elements only leaves the list as it is.
pub Chain-frame :
    (h g : Heap) (q : Ptr) (l : List Ptr)
    → ((a : Ptr) → among a l ≡ true → g a ≡ h a)
    → Chain h q l
    → Chain g q l
Chain-frame h g q [] same c = tt
Chain-frame h g q (p ∷ l) same c =
    (c.0, same p (ground arith) ∙ c.1, c.2, Chain-frame h g p l (λ a i. same a (ground arith)) c.3)

pub Chain-assign :
    (h : Heap) (q a : Ptr) (v : Option Links) (l : List Ptr)
    → among a l ≡ false
    → Chain h q l
    → Chain (assign h a v) q l
Chain-assign h q a v l out c = Chain-frame h (assign h a v) q l (λ b i. ground arith) c
