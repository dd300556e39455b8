-- ===== src/Utils/LinkedList/Push.antt =====
-- `LListPushFront` and `LListPushBack`.
use mathlib.Core.List.{reverse_aux}
use mathlib.Core.Path.{subst}
use mcpgos.Base.{
  ℕ, ◌<◌, ◌≡◌, refl, sym, ◌∙◌, ◌≢◌, true, false, ◌||◌, some, List, [], ◌∷◌, ◌++◌, arith, assign,
  ne→==, length,
}
use mcpgos.Base.Run.{ok, ◌>>◌}
use mcpgos.Utils.LinkedList.{
  Ptr, null, Links, links, Heap, set_next, set_prev, push_front, push_back,
}
use mcpgos.Utils.LinkedList.Chain.{
  among, first_or, last_or, Chain, IsList, Spares, set_next-ok, set_prev-ok, Chain-drop,
  Chain-assign,
}
use mcpgos.Utils.LinkedList.Ends.{get_first_lem, get_last_lem, first-reverse_aux}

pub among-append : (a : Ptr) (xs ys : List Ptr) → among a (xs ++ ys) ≡ (among a xs || among a ys)
among-append a [] ys = refl
among-append a (x ∷ xs) ys = ground (arith, among-append a xs ys)

pub among-last_or : (p : Ptr) (zs : List Ptr) → among (last_or p zs) (p ∷ zs) ≡ true
among-last_or p [] = ground arith
among-last_or p (z ∷ zs) = ground (arith, among-last_or z zs)

pub Chain-last :
    (h : Heap) (q p : Ptr) (zs : List Ptr)
    → Chain h q (p ∷ zs)
    → (last_or p zs ≢ null) × (v : Ptr) × (h (last_or p zs) ≡ some (links null v))
Chain-last h q p [] c = (c.0, q, c.1)
Chain-last h q p (z ∷ zs) c = Chain-last h p z zs c.3

-- The heap `g` is `h` with `e` linked behind the last element of a list.
record Linked (h g : Heap) (last e : Ptr) : Type 0 where
  behind : (v : Ptr) → h last ≡ some (links null v) → g last ≡ some (links e v)
  new : g e ≡ some (links null last)
  others : (a : Ptr) → a ≢ last → a ≢ e → g a ≡ h a

Chain-snoc :
    (h g : Heap) (e q p : Ptr) (zs : List Ptr)
    → Linked h g (last_or p zs) e
    → e ≢ null
    → among e (p ∷ zs) ≡ false
    → Chain h q (p ∷ zs)
    → Chain g q ((p ∷ zs) ++ e ∷ [])
Chain-snoc h g e q p [] w n out c = (c.0, w.behind q c.1, ground arith, (n, w.new, refl, tt))
Chain-snoc h g e q p (z ∷ zs) w n out c = (
  c.0,
  w.others p (λ i. ground (arith, among-last_or z zs, c.2)) (λ i. ground arith) ∙ c.1,
  ground (arith, among-append p (z ∷ zs) (e ∷ []), c.2),
  Chain-snoc h g e p z zs w n (ground arith) c.3,
)

-- The three writes of `LListPushFront` and of `LListPushBack`.
front : Heap → (f e : Ptr) → Links → Links → Heap
front h f e old l =
    assign (assign (assign h e (some (links f old.prev))) e (some (links f null))) f
      (some (links l.next e))

back : Heap → (b e : Ptr) → Links → Links → Heap
back h b e old l =
    assign (assign (assign h e (some (links null old.prev))) e (some (links null b))) b
      (some (links e l.prev))

front_run :
    (h : Heap) (f e : Ptr) (old l : Links)
    → e ≢ null
    → f ≢ null
    → f ≢ e
    → h e ≡ some old
    → h f ≡ some l
    → (set_next e f >> (set_prev e null >> set_prev f e)) h ≡ ok tt (front h f e old l)
unfolding front
front_run h f e old l ne nf d me mf =
    let h1 : Heap = assign h e (some (links f old.prev)) in
    let h2 : Heap = assign h1 e (some (links f null)) in
    ground (
      arith,
      set_next-ok h e f old ne me,
      set_prev-ok h1 e null (links f old.prev) ne,
      set_prev-ok h2 f e l nf,
    )

back_run :
    (h : Heap) (b e : Ptr) (old l : Links)
    → e ≢ null
    → b ≢ null
    → b ≢ e
    → h e ≡ some old
    → h b ≡ some l
    → (set_next e null >> (set_prev e b >> set_next b e)) h ≡ ok tt (back h b e old l)
unfolding back
back_run h b e old l ne nb d me mb =
    let h1 : Heap = assign h e (some (links null old.prev)) in
    let h2 : Heap = assign h1 e (some (links null b)) in
    ground (
      arith,
      set_next-ok h e null old ne me,
      set_prev-ok h1 e b (links null old.prev) ne,
      set_next-ok h2 b e l nb,
    )

front-IsList :
    (h : Heap) (f e : Ptr) (ys : List Ptr) (old : Links)
    → e ≢ null
    → among e (f ∷ ys) ≡ false
    → IsList h (f ∷ ys)
    → IsList (front h f e old (links (first_or null ys) null)) (e ∷ f ∷ ys)
unfolding front
front-IsList h f e ys old n out c =
    let s1 : Chain (assign h e (some (links f old.prev))) f ys =
      Chain-assign h f e _ ys (ground arith) c.3 in
    let s2 = Chain-assign (assign h e _) f e _ ys (ground arith) s1 in
    (
      n,
      ground arith,
      out,
      (c.0, ground arith, c.2, Chain-assign (assign (assign h e _) e _) f f _ ys c.2 s2),
    )

front-Spares :
    (h : Heap) (f e : Ptr) (ys : List Ptr) (old l : Links)
    → Spares (e ∷ f ∷ ys) h (front h f e old l)
unfolding front
front-Spares h f e ys old l a out = ground arith

back-Linked :
    (h : Heap) (b e : Ptr) (old : Links) (v : Ptr)
    → b ≢ e
    → h b ≡ some (links null v)
    → Linked h (back h b e old (links null v)) b e
unfolding back
back-Linked h b e old v d m = record {
  behind = λ w q. ground arith;
  new = ground arith;
  others = λ a x y. ground arith;
}

back-IsList :
    (h : Heap) (f e : Ptr) (ys : List Ptr) (old : Links) (v : Ptr)
    → e ≢ null
    → among e (f ∷ ys) ≡ false
    → h (last_or f ys) ≡ some (links null v)
    → IsList h (f ∷ ys)
    → IsList (back h (last_or f ys) e old (links null v)) ((f ∷ ys) ++ e ∷ [])
      × Spares ((f ∷ ys) ++ e ∷ []) h (back h (last_or f ys) e old (links null v))
back-IsList h f e ys old v n out m c =
    let ne : last_or f ys ≢ e = λ i. ground (arith, among-last_or f ys) in
    let w = back-Linked h (last_or f ys) e old v ne m in
    (
      Chain-snoc h _ e null f ys w n out c,
      λ a o.
          let q : (among a (f ∷ ys) || among a (e ∷ [])) ≡ false =
            sym (among-append a (f ∷ ys) (e ∷ [])) ∙ o in
          w.others a (λ i. ground (arith, among-last_or f ys)) (λ i. ground arith),
    )

back-IsList_at :
    (h : Heap) (f e : Ptr) (ys : List Ptr) (old : Links) (v b : Ptr)
    → last_or f ys ≡ b
    → e ≢ null
    → among e (f ∷ ys) ≡ false
    → h b ≡ some (links null v)
    → IsList h (f ∷ ys)
    → IsList (back h b e old (links null v)) ((f ∷ ys) ++ e ∷ [])
      × Spares ((f ∷ ys) ++ e ∷ []) h (back h b e old (links null v))
back-IsList_at h f e ys old v b l n out =
    subst
      (λ b.
        h b ≡ some (links null v)
        → IsList h (f ∷ ys)
        → IsList (back h b e old (links null v)) ((f ∷ ys) ++ e ∷ [])
          × Spares ((f ∷ ys) ++ e ∷ []) h (back h b e old (links null v)))
      l (back-IsList h f e ys old v n out)

module _ (k : ℕ) (h : Heap) (bs : List Ptr) (p : Ptr) (zs : List Ptr) (e : Ptr) (old : Links)
    (list : IsList h (reverse_aux bs (p ∷ zs))) (n : e ≢ null) (made : h e ≡ some old)
    (out : among e (reverse_aux bs (p ∷ zs)) ≡ false) where
  -- From any element of a list, `LListPushBack` appends a new element to the whole list and writes
  -- to no element outside it.
  pub push_back_lem :
      length zs < k
      → (g : Heap) × (push_back k p e h ≡ ok tt g)
        × IsList g (reverse_aux bs (p ∷ zs) ++ e ∷ [])
        × Spares (reverse_aux bs (p ∷ zs) ++ e ∷ []) h g
  unfolding push_back
  push_back_lem f =
      let d = Chain-drop h null bs (p ∷ zs) list in
      let (nb, v, m) = Chain-last h (first_or null bs) p zs d in
      let (ys, s, l) = first-reverse_aux bs p zs in
      let b : Ptr = last_or p zs in
      let o : among e (last_or p bs ∷ ys) ≡ false = rw s at out in
      let w = back-IsList_at h (last_or p bs) e ys old v b l n o m (rw s at list) in
      let ne : b ≢ e = λ i. ground (arith, among-last_or (last_or p bs) ys, l) in
      (
        back h b e old (links null v),
        rw (ne→== p null d.0, ne→== e null n, get_last_lem k h (first_or null bs) p zs f d)
            (back_run h b e old (links null v) n nb ne made m),
        subst (λ x. IsList (back h b e old (links null v)) (x ++ e ∷ [])) (sym s) w.0,
        subst (λ x. Spares (x ++ e ∷ []) h (back h b e old (links null v))) (sym s) w.1,
      )

  -- From any element of a list, `LListPushFront` puts a new element before the whole list and
  -- writes to no element outside it.
  pub push_front_lem :
      length bs < k
      → (g : Heap) × (push_front k p e h ≡ ok tt g)
        × IsList g (e ∷ reverse_aux bs (p ∷ zs))
        × Spares (e ∷ reverse_aux bs (p ∷ zs)) h g
  unfolding push_front
  push_front_lem f =
      let d = Chain-drop h null bs (p ∷ zs) list in
      let (ys, s, l) = first-reverse_aux bs p zs in
      let f1 : Ptr = last_or p bs in
      let c : IsList h (f1 ∷ ys) = rw s at list in
      let o : among e (f1 ∷ ys) ≡ false = rw s at out in
      (
        front h f1 e old (links (first_or null ys) null),
        rw (ne→== p null d.0, ne→== e null n, get_first_lem k h bs p zs f list)
            (front_run h f1 e old (links (first_or null ys) null) n c.0 (ground arith) made c.1),
        subst (λ x. IsList (front h f1 e old (links (first_or null ys) null)) (e ∷ x)) (sym s)
            (front-IsList h f1 e ys old n o c),
        subst (λ x. Spares (e ∷ x) h (front h f1 e old (links (first_or null ys) null))) (sym s)
            (front-Spares h f1 e ys old (links (first_or null ys) null)),
      )
