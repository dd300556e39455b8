-- ===== src/Vfs/Devfs/Tests.antt =====
-- The device file system with one device, "a", to which "b" is added, and its start.
use mcpgos.Base.{ℕ, ◌+◌, ◌-◌, none, some, List, [], ◌∷◌, leb, if◌then◌else◌, assign}
use mcpgos.Base.Run.{Cmd, ok}
use mcpgos.Libc.Memory.{Bytes}
use mcpgos.Utils.LinkedList.{Ptr, null, links}
use mcpgos.Vfs.{Vfs}
use mcpgos.Vfs.Devfs.{Places, Devfs, device_inode, empty_root}

abbrev places : Places
places = record {
  info = 50;
  instance_at = 51;
  root_dir = 52;
  root_dir_ops = 53;
  empty_string = 99;
  devfs_string = 200;
}

abbrev strings : Bytes
strings =
    assign
      (assign
        (assign (assign (assign (assign (assign (λ _. 0) 100 b'a') 102 b'b') 200 b'd') 201 b'e') 202
          b'v')
        203 b'f')
      204 b's'

abbrev no_fs : Vfs (List ℕ)
no_fs = record {
  elements = assign (λ _. none) 10 (some (links null null));
  filesystem_of = λ _. null;
  infos = λ _. record { name = null; create_callback = none };
  fs_list = null;
  memory = strings;
  console = [];
}

-- The device at 11 by the entry at 10 and the inode at 21; the array of children is at 1000.
abbrev one_device : Devfs (List ℕ)
one_device = record {
  vfs = no_fs;
  device_list = 10;
  device_of = assign (λ _. null) 10 11;
  devices =
      assign (λ _. record { name = 100; operations = null }) 13
        (record { name = 102; operations = null });
  root_directory = 52;
  root = record (empty_root places) { children_amount = 1; children = 1000 };
  inodes = λ _. device_inode places 100 11;
  cells = assign (λ _. null) 1000 21;
}

-- A `realloc` that copies to the address 2000.
abbrev copied : Ptr → (Ptr → Ptr) → Ptr → Ptr
copied old cells a = if leb 2000 a then cells (a - 2000 + old) else cells a

abbrev to_2000 : (old : Ptr) (size : ℕ) → Cmd (Ptr → Ptr) Ptr
to_2000 old size cells = ok 2000 (copied old cells)

abbrev new_name : List ℕ
new_name = b'b' ∷ []
