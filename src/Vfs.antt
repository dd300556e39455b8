-- ===== src/Vfs.antt =====
-- The virtual file system, kernel/src/Vfs/Vfs.c: the list of the registered file systems. Names are
-- strings in memory. What `malloc` returns is an argument.
pub mod Strings
pub mod Registry
pub mod Register
pub mod Devfs
mod Tests
use mcpgos.Base.{
  ℕ, zero, suc, ◌+◌, ◌%◌, Bool, true, false, not, Option, none, some, List, [], ◌∷◌, ◌++◌, ◌==◌,
  if◌then◌else◌, assign,
}
use mcpgos.Base.Run.{
  Cmd, ok, fault, out_of_fuel, pure, and_then, ◌>>=◌, ◌>>◌, assert, in_bounds, modify, placed,
}
use mcpgos.Io.{IoStream}
use mcpgos.Kprintf.{text, kprintf}
use mcpgos.Libc.Memory.{Bytes}
use mcpgos.Libc.Strings.{Sign, minus_one, nought, one, strcmp}
use mcpgos.Utils.LinkedList.{Ptr, null, links, Heap, load, push_back}

-- `VfsFilesystemInfo`; the callback works on what `S` holds, and may be NULL.
pub record FilesystemInfo (S : Type 0) : Type 0 where
  pub name : Ptr
  pub create_callback : Option (Ptr → Cmd S Ptr)

pub record Vfs (S : Type 0) : Type 0 where
  pub elements : Heap
  -- `Filesystem` of a VfsFilesystemEntry.
  pub filesystem_of : Ptr → Ptr
  pub infos : Ptr → FilesystemInfo S
  pub fs_list : Ptr
  pub memory : Bytes
  -- What the streams that `Kprintf` may write to, and the callbacks, work on.
  pub console : S

abbrev pub on_links : {S A : Type 0} → Cmd Heap A → Cmd (Vfs S) A
on_links m s = placed (λ h. record s { elements = h }) (m s.elements)

abbrev pub on_memory : {S A : Type 0} → Cmd Bytes A → Cmd (Vfs S) A
on_memory m s = placed (λ b. record s { memory = b }) (m s.memory)

abbrev pub on_console : {S A : Type 0} → Cmd S A → Cmd (Vfs S) A
on_console m s = placed (λ c. record s { console = c }) (m s.console)

-- The bytes of a string before its NUL, as `Kprintf` is given them.
pub string_at : ℕ → Ptr → Cmd Bytes (List ℕ)
string_at zero p mem = out_of_fuel
string_at (suc k) p mem =
    let rest = string_at k (p + 1) mem in
    if mem p == 0 then ok [] mem else and_then rest (λ cs. pure (mem p ∷ cs))

abbrev pub argument : ℕ → Ptr → Cmd Bytes (Option (List ℕ))
argument fuel p = elim (p == null) [
  | true ↦ pure none
  | false ↦ do cs ← string_at fuel p; pure (some cs)
]

abbrev pub is_nought : Sign → Bool
is_nought minus_one = false
is_nought nought = true
is_nought one = false

-- `info->Name`.
abbrev pub name_of : {S : Type 0} → Ptr → Cmd (Vfs S) Ptr
name_of info = do in_bounds (not (info == null)); λ s. ok (s.infos info).name s

-- The loop of `VfsGetFilesystem`.
pub get_loop : {S : Type 0} → (fuel rounds : ℕ) → (entry fs_name : Ptr) → Cmd (Vfs S) Ptr
get_loop fuel zero entry fs_name = λ _. out_of_fuel
get_loop fuel (suc k) entry fs_name = do
  l ← on_links (load entry)
  info ← λ s. ok (s.filesystem_of entry) s
  name ← name_of info
  r ← on_memory (strcmp fuel name fs_name)
  elim (is_nought r) [
    | true ↦ pure info
    | false ↦ elim (l.next == null) [ true ↦ pure null | false ↦ get_loop fuel k l.next fs_name ]
  ]

pub get_filesystem : {S : Type 0} → (fuel : ℕ) → (fs_name : Ptr) → Cmd (Vfs S) Ptr
get_filesystem fuel fs_name = do
  list ← λ s. ok s.fs_list s
  elim (list == null) [ true ↦ pure null | false ↦ get_loop fuel fuel list fs_name ]

pub is_fs_registered : {S : Type 0} → (fuel : ℕ) → (name : Ptr) → Cmd (Vfs S) Bool
is_fs_registered fuel name = do fs ← get_filesystem fuel name; pure (not (fs == null))

-- `VfsCreateInstance`. A NULL callback is called all the same, which is a fault.
pub create_instance : {S : Type 0} → (fuel : ℕ) → (fs_name device : Ptr) → Cmd (Vfs S) Ptr
create_instance fuel fs_name device = do
  assert (not (fs_name == null))
  info ← get_filesystem fuel fs_name
  assert (not (info == null))
  callback ← λ s. ok (s.infos info).create_callback s
  elim callback [ none ↦ λ _. fault | some f ↦ on_console (f device) ]

abbrev pub registered_before : List ℕ
registered_before =
    b'[' ∷ b'V' ∷ b'f' ∷ b's' ∷ b']' ∷ b' ' ∷ b'R' ∷ b'e' ∷ b'g' ∷ b'i' ∷ b's' ∷ b't' ∷ b'e' ∷ b'r'
    ∷ b'e' ∷ b'd' ∷ b' ' ∷ b'f' ∷ b'i' ∷ b'l' ∷ b'e' ∷ b's' ∷ b'y' ∷ b's' ∷ b't' ∷ b'e' ∷ b'm'
    ∷ b' ' ∷ b'`' ∷ []

abbrev pub registered_after : List ℕ
registered_after = b'`' ∷ 10 ∷ []

-- `VfsInit` does nothing.
abbrev pub vfs_init : {S : Type 0} → Cmd (Vfs S) (Unit {0})
vfs_init = pure tt

module _ {S : Type 0} (stream : Option (IoStream S (List ℕ))) (tty : IoStream S (List ℕ)) where
  -- The call of `Kprintf` in `VfsRegisterFilesystem`.
  pub tell : (fuel : ℕ) → (name : Ptr) → Cmd (Vfs S) (Unit {0})
  tell fuel name = do
    string ← on_memory (argument fuel name)
    on_console (
        kprintf stream tty (registered_before ++ b'%' ∷ b's' ∷ registered_after) (text string ∷ []))

  -- `entry` is what `malloc` returns.
  pub register_filesystem : (fuel : ℕ) → (entry info : Ptr) → Cmd (Vfs S) (Unit {0})
  register_filesystem fuel entry info = do
    assert (not (info == null))
    name ← λ s. ok (s.infos info).name s
    registered ← is_fs_registered fuel name
    assert (not registered)
    assert (not (entry == null))
    modify λ s. record s {
      elements = assign s.elements entry (some (links null null));
      filesystem_of = assign s.filesystem_of entry info;
    }
    list ← λ s. ok s.fs_list s
    elim (list == null) [
      | true ↦ modify λ s. record s { fs_list = entry }
      | false ↦ on_links (push_back fuel list entry)
    ]
    tell fuel name
