-- ===== src/Vfs/Devfs.antt =====
-- The device file system, kernel/src/Vfs/Devfs.c. Its objects lie at addresses that the linker
-- gives. What `malloc` returns is an argument, and `realloc` is a parameter.
pub mod Listing
pub mod Add
pub mod Init
mod Tests
use mcpgos.Base.{
  ℕ, ◌+◌, ◌*◌, ◌/◌, ◌%◌, true, false, not, Option, some, List, [], ◌∷◌, ◌++◌, ◌==◌, assign,
}
use mcpgos.Base.Words.{u32, sub32}
use mcpgos.Base.Run.{Cmd, ok, pure, ◌>>=◌, ◌>>◌, assert, modify, placed}
use mcpgos.Io.{IoStream}
use mcpgos.Kprintf.{text, kprintf}
use mcpgos.Utils.LinkedList.{Ptr, null, links, push_back}
use mcpgos.Vfs.{Vfs, on_links, on_memory, on_console, argument, register_filesystem}

pub data InodeType : Type 0 where
  inode_normal inode_directory inode_block : InodeType

pub record VfsInode : Type 0 where
  pub name : Ptr
  pub uid : ℕ
  pub gid : ℕ
  pub type : InodeType
  pub parent : Ptr
  pub fs_instance : Ptr
  pub operations : Ptr

pub record VfsDirectory : Type 0 where
  pub inode : VfsInode
  pub children_amount : ℕ
  pub children : Ptr
  pub operations : Ptr

pub record DevfsDevice : Type 0 where
  pub name : Ptr
  pub operations : Ptr

pub record DevfsInode : Type 0 where
  pub base : VfsInode
  pub device : Ptr

-- The addresses of `DevfsInfo`, `DevfsInstance`, `DevfsRootDir` and `DevfsRootDirOps`, and of the
-- strings "" and "devfs".
pub record Places : Type 0 where
  pub info : Ptr
  pub instance_at : Ptr
  pub root_dir : Ptr
  pub root_dir_ops : Ptr
  pub empty_string : Ptr
  pub devfs_string : Ptr

pub record Devfs (S : Type 0) : Type 0 where
  pub vfs : Vfs S
  -- `DevfsDeviceList`, and `Device` of a DevfsDeviceEntry.
  pub device_list : Ptr
  pub device_of : Ptr → Ptr
  pub devices : Ptr → DevfsDevice
  -- `DevfsInstance.RootDirectory` and `DevfsRootDir`.
  pub root_directory : Ptr
  pub root : VfsDirectory
  pub inodes : Ptr → DevfsInode
  -- The pointers in arrays of pointers, by their addresses.
  pub cells : Ptr → Ptr

abbrev pub on_vfs : {S A : Type 0} → Cmd (Vfs S) A → Cmd (Devfs S) A
on_vfs m s = placed (λ v. record s { vfs = v }) (m s.vfs)

abbrev pub on_cells : {S A : Type 0} → Cmd (Ptr → Ptr) A → Cmd (Devfs S) A
on_cells m s = placed (λ c. record s { cells = c }) (m s.cells)

abbrev pub device_before : List ℕ
device_before =
    b'[' ∷ b'D' ∷ b'e' ∷ b'v' ∷ b'f' ∷ b's' ∷ b']' ∷ b' ' ∷ b'R' ∷ b'e' ∷ b'g' ∷ b'i' ∷ b's' ∷ b't'
    ∷ b'e' ∷ b'r' ∷ b'e' ∷ b'd' ∷ b' ' ∷ b'd' ∷ b'e' ∷ b'v' ∷ b'i' ∷ b'c' ∷ b'e' ∷ b' ' ∷ b'/'
    ∷ b'd' ∷ b'e' ∷ b'v' ∷ b'/' ∷ []

abbrev pub device_after : List ℕ
device_after = 10 ∷ []

-- The inode that `DevfsAddDevice` fills in; its type of operations is NULL.
abbrev pub device_inode : Places → (name device : Ptr) → DevfsInode
device_inode places name device = record {
  base = record {
    name = name;
    uid = 0;
    gid = 0;
    type = inode_block;
    parent = places.root_dir;
    fs_instance = places.instance_at;
    operations = null;
  };
  device = device;
}

-- `DevfsRootDir` as `DevfsInit` leaves it.
abbrev pub empty_root : Places → VfsDirectory
empty_root places = record {
  inode = record {
    name = places.empty_string;
    uid = 0;
    gid = 0;
    type = inode_directory;
    parent = null;
    fs_instance = places.instance_at;
    operations = places.root_dir_ops;
  };
  children_amount = 0;
  children = null;
  operations = places.root_dir_ops;
}

-- The `if` on `DevfsDeviceList`.
pub link_device : {S : Type 0} → (fuel : ℕ) → (entry : Ptr) → Cmd (Devfs S) (Unit {0})
link_device fuel entry = do
  list ← λ s. ok s.device_list s
  elim (list == null) [
    | true ↦ modify λ s. record s { device_list = entry }
    | false ↦ on_vfs (on_links (push_back fuel list entry))
  ]

-- The children grow by a place for one more.
pub grow_children :
    {S : Type 0}
    → (realloc : (old : Ptr) (size : ℕ) → Cmd (Ptr → Ptr) Ptr) → Cmd (Devfs S) (Unit {0})
grow_children realloc = do
  amount ← λ s. ok (u32 (s.root.children_amount + 1)) s
  modify λ s. record s { root = record (s.root) { children_amount = amount } }
  old ← λ s. ok s.root.children s
  reallocated ← on_cells (realloc old (u32 (4 * amount)))
  assert (not (reallocated == null))
  modify λ s. record s { root = record (s.root) { children = reallocated } }

module _ {S : Type 0} (stream : Option (IoStream S (List ℕ))) (tty : IoStream S (List ℕ)) where
  -- The call of `Kprintf` in `DevfsAddDevice`.
  pub tell_device : (fuel : ℕ) → (name : Ptr) → Cmd (Vfs S) (Unit {0})
  tell_device fuel name = do
    string ← on_memory (argument fuel name)
    on_console (kprintf stream tty (device_before ++ b'%' ∷ b's' ∷ device_after) (text string ∷ []))

module _ {S : Type 0} (stream : Option (IoStream S (List ℕ))) (tty : IoStream S (List ℕ))
    (places : Places) where
  -- `DevfsCreateInst`.
  pub create_inst : Ptr → Cmd S Ptr
  create_inst device = pure places.instance_at

  -- `entry` is what `malloc` returns in `VfsRegisterFilesystem`.
  pub devfs_init : (fuel : ℕ) → (entry : Ptr) → Cmd (Devfs S) (Unit {0})
  devfs_init fuel entry = do
    modify λ s. record s { root_directory = places.root_dir; root = empty_root places }
    modify λ s. record s {
      vfs = record (s.vfs) {
        infos =
            assign s.vfs.infos places.info
              (record { name = places.devfs_string; create_callback = some create_inst });
      };
    }
    on_vfs (register_filesystem stream tty fuel entry places.info)

  -- `entry` and `inode` are what `malloc` returns.
  pub add_device :
      (realloc : (old : Ptr) (size : ℕ) → Cmd (Ptr → Ptr) Ptr)
      → (fuel : ℕ) → (entry inode device : Ptr) → Cmd (Devfs S) (Unit {0})
  add_device realloc fuel entry inode device = do
    assert (not (device == null))
    assert (not (entry == null))
    modify λ s. record s {
      vfs = record (s.vfs) { elements = assign s.vfs.elements entry (some (links null null)) };
      device_of = assign s.device_of entry device;
    }
    link_device fuel entry
    grow_children realloc
    assert (not (inode == null))
    name ← λ s. ok (s.devices device).name s
    modify λ s. record s {
      inodes = assign s.inodes inode (device_inode places name device);
      cells = assign s.cells (s.root.children + 4 * sub32 s.root.children_amount 1) inode;
    }
    on_vfs (tell_device stream tty fuel name)
