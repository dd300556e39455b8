-- ===== src/Utils/LinkedList.antt =====
-- The doubly linked lists of kernel/src/Utils/LinkedList.c, over a heap of list elements. A call
-- may be given any element of a list. The loops that follow pointers run on fuel.
pub mod Chain
pub mod Ends
pub mod Push
pub mod Pop
pub mod Append
mod Tests
use mcpgos.Base.{
  ℕ, zero, suc, ◌+◌, true, false, not, Option, none, some, ltb, ◌==◌, if◌then◌else◌, assign,
}
use mcpgos.Base.Words.{u32}
use mcpgos.Base.Run.{Cmd, ok, fault, out_of_fuel, pure, ◌>>=◌, ◌>>◌, assert}

abbrev pub Ptr : Type 0
Ptr = ℕ

abbrev pub null : Ptr
null = 0

pub record Links : Type 0 where
  pub next : Ptr
  pub prev : Ptr

abbrev pub links : Ptr → Ptr → Links
links n p = record { next = n; prev = p }

-- The element at each address; `none` where there is none.
abbrev pub Heap : Type 0
Heap = Ptr → Option Links

-- `*p`, a fault at NULL and where no element is.
unfoldable pub load : Ptr → Cmd Heap Links
load p h = if p == null then fault else elim (h p) [ none ↦ fault | some l ↦ ok l h ]

-- `p->Next = q` and `p->Prev = q`.
pub set_next : Ptr → Ptr → Cmd Heap (Unit {0})
set_next p q = do l ← load p; λ h. ok tt (assign h p (some (links q l.prev)))

pub set_prev : Ptr → Ptr → Cmd Heap (Unit {0})
set_prev p q = do l ← load p; λ h. ok tt (assign h p (some (links l.next q)))

pub first_loop : ℕ → Ptr → Cmd Heap Ptr
first_loop zero p = λ _. out_of_fuel
first_loop (suc k) p = do
  l ← load p
  elim (l.prev == null) [ true ↦ pure p | false ↦ first_loop k l.prev ]

pub get_first : ℕ → Ptr → Cmd Heap Ptr
get_first fuel list = do assert (not (list == null)); first_loop fuel list

pub last_loop : ℕ → Ptr → Cmd Heap Ptr
last_loop zero p = λ _. out_of_fuel
last_loop (suc k) p = do
  l ← load p
  elim (l.next == null) [ true ↦ pure p | false ↦ last_loop k l.next ]

pub get_last : ℕ → Ptr → Cmd Heap Ptr
get_last fuel list = do assert (not (list == null)); last_loop fuel list

-- The `for` loop of `LListGet`, with the number of rounds left.
pub get_loop : ℕ → Ptr → Cmd Heap Ptr
get_loop zero p = pure p
get_loop (suc n) p = do
  l ← load p
  elim (l.next == null) [ true ↦ pure null | false ↦ get_loop n l.next ]

pub get : ℕ → Ptr → ℕ → Cmd Heap Ptr
get fuel list index = do
  assert (not (list == null))
  assert (ltb index 0xFFFFFFFF)
  first ← get_first fuel list
  get_loop index first

pub push_front : ℕ → Ptr → Ptr → Cmd Heap (Unit {0})
push_front fuel list element = do
  assert (not (list == null))
  assert (not (element == null))
  first ← get_first fuel list
  set_next element first
  set_prev element null
  set_prev first element

unfoldable pub push_back : ℕ → Ptr → Ptr → Cmd Heap (Unit {0})
push_back fuel list element = do
  assert (not (list == null))
  assert (not (element == null))
  last ← get_last fuel list
  set_next element null
  set_prev element last
  set_next last element

pub pop_front : ℕ → Ptr → Cmd Heap Ptr
pop_front fuel list = do
  assert (not (list == null))
  first ← get_first fuel list
  l ← load first
  set_prev l.next null
  pure first

pub pop_back : ℕ → Ptr → Cmd Heap Ptr
pop_back fuel list = do
  assert (not (list == null))
  last ← get_last fuel list
  l ← load last
  set_next l.prev null
  pure last

pub size_loop : ℕ → Ptr → ℕ → Cmd Heap ℕ
size_loop zero p result = λ _. out_of_fuel
size_loop (suc k) p result = do
  l ← load p
  elim (l.next == null) [ true ↦ pure result | false ↦ size_loop k l.next (u32 (result + 1)) ]

pub get_size : ℕ → Ptr → Cmd Heap ℕ
get_size fuel list = do assert (not (list == null)); size_loop fuel list 1
