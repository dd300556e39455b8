-- ===== src/Utils/LinkedList/Pop.antt =====
-- `LListPopFront` and `LListPopBack`.
use mathlib.Core.List.{reverse_aux}
use mcpgos.Base.{
  ℕ, ◌<◌, ◌≡◌, refl, sym, ap, ◌∙◌, some, List, [], ◌∷◌, ◌++◌, arith, assign, ne→==, length,
}
use mcpgos.Base.Run.{ok, fault, pure, and_then, ◌>>◌}
use mcpgos.Utils.LinkedList.{Ptr, null, links, Heap, load, set_next, set_prev, pop_front, pop_back}
use mcpgos.Utils.LinkedList.Chain.{
  first_or, last_or, Chain, IsList, Spares, load-ok, set_next-ok, set_prev-ok, Chain-drop,
  Chain-assign,
}
use mcpgos.Utils.LinkedList.Ends.{get_first_lem, get_last_lem, first-reverse_aux}
use mcpgos.Utils.LinkedList.Push.{among-append}

set_prev-null : {A : Type 0} (a : A) (h : Heap) → (set_prev null null >> pure a) h ≡ fault
unfolding set_prev load
set_prev-null a h = refl

set_next-null : {A : Type 0} (a : A) (h : Heap) → (set_next null null >> pure a) h ≡ fault
unfolding set_next load
set_next-null a h = refl

-- Calls at the element `p` of a list, with `bs` before it, the nearest first, and `zs` behind it.
module _ (k : ℕ) (h : Heap) (bs : List Ptr) (p : Ptr) (zs : List Ptr)
    (c : IsList h (reverse_aux bs (p ∷ zs))) where
  first_call :
      (f : Ptr) (ys : List Ptr)
      → length bs < k
      → reverse_aux bs (p ∷ zs) ≡ f ∷ ys
      → pop_front k p h ≡ and_then (load f h) (λ l. set_prev l.next null >> pure f)
  unfolding pop_front
  first_call f ys fuel e =
      let q : last_or p bs ≡ f = cc ((first-reverse_aux bs p zs).1) in
      rw (ne→== p null (Chain-drop h null bs (p ∷ zs) c).0, get_first_lem k h bs p zs fuel c, q)

  two_front :
      (f s : Ptr) (ys : List Ptr)
      → length bs < k
      → reverse_aux bs (p ∷ zs) ≡ f ∷ s ∷ ys
      → (g : Heap) × (pop_front k p h ≡ ok f g) × IsList g (s ∷ ys) × Spares (s ∷ []) h g
  two_front f s ys fuel e =
      let d : IsList h (f ∷ s ∷ ys) = rw e at c in
      (
        assign h s (some (links (first_or null ys) null)),
        rw (
          first_call f (s ∷ ys) fuel e,
          load-ok h f (links s null) d.0 d.1,
          set_prev-ok h s null (links (first_or null ys) f) d.3.0 d.3.1,
        ),
        (d.3.0, ground arith, d.3.2, Chain-assign h s s _ ys d.3.2 d.3.3),
        ground arith,
      )

  -- From any element of a list, `LListPopFront` returns the first element if there is another; the
  -- others are then a list, and the new first element is the only one written. On a list of one
  -- element it writes through NULL.
  pub pop_front_lem :
      (f : Ptr) (ys : List Ptr)
      → length bs < k
      → reverse_aux bs (p ∷ zs) ≡ f ∷ ys
      → ((s : Ptr) (l : List Ptr)
          → ys ≡ s ∷ l
          → (g : Heap) × (pop_front k p h ≡ ok f g) × IsList g (s ∷ l) × Spares (s ∷ []) h g)
        × (ys ≡ [] → pop_front k p h ≡ fault)
  pop_front_lem f ys fuel e = (
    λ s l y. two_front f s l fuel (e ∙ ap (λ x. f ∷ x) y),
    λ y.
        let d : IsList h (f ∷ []) = rw (e ∙ ap (λ x. f ∷ x) y) at c in
        rw (first_call f ys fuel e, load-ok h f (links null null) d.0 d.1) (set_prev-null f h),
  )

Chain-append :
    (h : Heap) (q : Ptr) (xs l : List Ptr) → Chain h q (xs ++ l) → Chain h (last_or q xs) l
Chain-append h q [] l c = c
Chain-append h q (x ∷ xs) l c = Chain-append h x xs l c.3

first-append :
    (xs : List Ptr) (a : Ptr) (l : List Ptr) → first_or null (xs ++ a ∷ l) ≡ first_or a xs
first-append [] a l = refl
first-append (x ∷ xs) a l = refl

last-append : (d : Ptr) (xs : List Ptr) (a b : Ptr) → last_or d (xs ++ a ∷ b ∷ []) ≡ b
last-append d [] a b = refl
last-append d (x ∷ xs) a b = last-append x xs a b

Chain-init :
    (h : Heap) (q : Ptr) (xs : List Ptr) (a b : Ptr)
    → Chain h q (xs ++ a ∷ b ∷ [])
    → Chain (assign h a (some (links null (last_or q xs)))) q (xs ++ a ∷ [])
Chain-init h q [] a b c = (c.0, ground arith, refl, tt)
Chain-init h q (x ∷ xs) a b c = (
  c.0,
  ground (
    arith,
    c.1,
    c.2,
    among-append x xs (a ∷ b ∷ []),
    first-append xs a (b ∷ []),
    first-append xs a [],
  ),
  ground (arith, c.2, among-append x xs (a ∷ b ∷ []), among-append x xs (a ∷ [])),
  Chain-init h x xs a b c.3,
)

-- Calls at the element `p` of a list, with `bs` before it, the nearest first, and `zs` behind it.
module _ (k : ℕ) (h : Heap) (bs : List Ptr) (p : Ptr) (zs : List Ptr)
    (c : IsList h (reverse_aux bs (p ∷ zs))) where
  last_call :
      length zs < k
      → pop_back k p h
        ≡ and_then (load (last_or p zs) h) (λ l. set_next l.prev null >> pure (last_or p zs))
  unfolding pop_back
  last_call fuel =
      let d = Chain-drop h null bs (p ∷ zs) c in
      rw (ne→== p null d.0, get_last_lem k h (first_or null bs) p zs fuel d)

  last_is : (d : Ptr) (l : List Ptr) → reverse_aux bs (p ∷ zs) ≡ l → last_or d l ≡ last_or p zs
  last_is d l e = let (ys, s, q) = first-reverse_aux bs p zs in rw (← e, s) q

  two_back :
      (xs : List Ptr) (a b : Ptr)
      → length zs < k
      → reverse_aux bs (p ∷ zs) ≡ xs ++ a ∷ b ∷ []
      → (g : Heap) × (pop_back k p h ≡ ok b g) × IsList g (xs ++ a ∷ []) × Spares (a ∷ []) h g
  two_back xs a b fuel e =
      let d : IsList h (xs ++ a ∷ b ∷ []) = rw e at c in
      let w = Chain-append h null xs (a ∷ b ∷ []) d in
      let q : last_or p zs ≡ b =
        sym (last_is null (xs ++ a ∷ b ∷ []) e) ∙ last-append null xs a b in
      (
        assign h a (some (links null (last_or null xs))),
        rw (
          last_call fuel,
          q,
          load-ok h b (links null a) w.3.0 w.3.1,
          set_next-ok h a null (links b (last_or null xs)) w.0 w.1,
        ),
        Chain-init h null xs a b d,
        ground arith,
      )

  -- From any element of a list, `LListPopBack` returns the last element if there is another; the
  -- others are then a list, and the new last element is the only one written. On a list of one
  -- element it writes through NULL.
  pub pop_back_lem :
      length zs < k
      → ((xs : List Ptr) (a b : Ptr)
          → reverse_aux bs (p ∷ zs) ≡ xs ++ a ∷ b ∷ []
          → (g : Heap) × (pop_back k p h ≡ ok b g) × IsList g (xs ++ a ∷ []) × Spares (a ∷ []) h g)
        × ((b : Ptr) → reverse_aux bs (p ∷ zs) ≡ b ∷ [] → pop_back k p h ≡ fault)
  pop_back_lem fuel = (
    λ xs a b. two_back xs a b fuel,
    λ b e.
        let d : IsList h (b ∷ []) = rw e at c in
        let q : last_or p zs ≡ b = sym (last_is null (b ∷ []) e) in
        rw (last_call fuel, q, load-ok h b (links null null) d.0 d.1) (set_next-null b h),
  )
