-- ===== src/Utils/LinkedList/Append.antt =====
-- `LListPushBack` as its callers use it: with an element that is new.
use mcpgos.Base.{
  ◌∙◌, ◌==◌, ℕ, ◌<◌, ◌≡◌, ◌≢◌, false, some, List, [], ◌∷◌, ◌++◌, arith, assign, length,
}
use mcpgos.Base.Run.{ok}
use mcpgos.Utils.LinkedList.{Ptr, null, links, Heap, push_back}
use mcpgos.Utils.LinkedList.Chain.{among, IsList, Spares, Chain-assign}
use mcpgos.Utils.LinkedList.Push.{push_back_lem}

-- What is not in the longer list is not the element at its end.
among-append : (a e : Ptr) (xs : List Ptr) → among a (xs ++ e ∷ []) ≡ false → (a == e) ≡ false
among-append a e [] o = ground arith
among-append a e (x ∷ xs) o = among-append a e xs (ground arith)

module _ (k : ℕ) (h : Heap) (p : Ptr) (zs : List Ptr) (e : Ptr) (n : e ≢ null)
    (l : IsList h (p ∷ zs)) (out : among e (p ∷ zs) ≡ false) (f : length zs < k) where
  -- The list has the element at its end, and no other element has changed.
  pub appended_Spares :
      (g : Heap) × (push_back k p e (assign h e (some (links null null))) ≡ ok tt g)
      × IsList g ((p ∷ zs) ++ e ∷ [])
      × Spares ((p ∷ zs) ++ e ∷ []) h g
  appended_Spares =
      let (g, r, m, same) =
        push_back_lem k (assign h e (some (links null null))) [] p zs e (links null null)
          (Chain-assign h null e _ (p ∷ zs) out l) n (ground arith) out f in
      (g, r, m, λ a o. same a o ∙ ground (arith, among-append a e (p ∷ zs) o))

  pub appended :
      (g : Heap) × (push_back k p e (assign h e (some (links null null))) ≡ ok tt g)
      × IsList g ((p ∷ zs) ++ e ∷ [])
  appended = let (g, r, m, _) = appended_Spares in (g, r, m)
