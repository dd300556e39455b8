-- ===== src/Utils/LinkedList/Tests.antt =====
-- Lists of three elements, at the addresses 10, 20 and 30, in that order. The calls are made at 20.
use mcpgos.Base.{◌≡◌, refl, none, some, List, [], ◌∷◌, arith, assign}
use mcpgos.Base.Run.{ok, fault, end_of}
use mcpgos.Utils.LinkedList.{
  Ptr, links, Heap, load, set_prev, get_first, push_back, pop_front, first_loop,
}
use mcpgos.Utils.LinkedList.Chain.{IsList, Spares}
use mcpgos.Utils.LinkedList.Ends.{get_first_lem}
use mcpgos.Utils.LinkedList.Push.{push_back_lem}
use mcpgos.Utils.LinkedList.Pop.{pop_front_lem}

-- A fourth element, at 40, is in no list.
abbrev heap : Heap
heap =
    assign
      (assign (assign (assign (λ _. none) 10 (some (links 20 0))) 20 (some (links 30 10))) 30
        (some (links 0 20)))
      40 (some (links 7 7))

heap-IsList : IsList heap (10 ∷ 20 ∷ 30 ∷ [])
heap-IsList = (omega arith, refl, refl, (omega arith, refl, refl, (omega arith, refl, refl, tt)))

get_first_lem_example : get_first 9 20 heap ≡ ok 10 heap
get_first_lem_example = get_first_lem 9 heap (10 ∷ []) 20 (30 ∷ []) (omega arith) heap-IsList

push_back_lem_example :
    (g : Heap) × (push_back 9 20 40 heap ≡ ok tt g)
    × IsList g (10 ∷ 20 ∷ 30 ∷ 40 ∷ [])
    × Spares (10 ∷ 20 ∷ 30 ∷ 40 ∷ []) heap g
push_back_lem_example =
    push_back_lem 9 heap (10 ∷ []) 20 (30 ∷ []) 40 (links 7 7) heap-IsList (omega arith) refl refl
      (omega arith)

abbrev behind : List Ptr
behind = 20 ∷ 30 ∷ []

abbrev all : List Ptr
all = 10 ∷ behind

pop_front_lem_example :
    ((s : Ptr) (l : List Ptr)
      → behind ≡ s ∷ l
      → (g : Heap) × (pop_front 9 20 heap ≡ ok 10 g) × IsList g (s ∷ l) × Spares (s ∷ []) heap g)
    × (behind ≡ [] → pop_front 9 20 heap ≡ fault)
pop_front_lem_example =
    pop_front_lem 9 heap (10 ∷ []) 20 (30 ∷ []) heap-IsList 10 (20 ∷ 30 ∷ []) (omega arith) refl

-- The element taken off the front still points into the list.
pop_front_runs : end_of heap (pop_front 9 30 heap) 10 ≡ some (links 20 0)
unfolding pop_front get_first first_loop load set_prev
pop_front_runs = refl
