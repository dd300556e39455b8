-- ===== src/Vfs/Tests.antt =====
-- The virtual file system with one file system, named "a", and a second one, "b".
use mcpgos.Base.{ℕ, ◌≡◌, refl, ap, ◌≢◌, none, some, List, [], ◌∷◌, arith, assign}
use mcpgos.Base.Run.{ok, panic, assertion_failed}
use mcpgos.Kprintf.Format.{recorder}
use mcpgos.Libc.Memory.{Bytes}
use mcpgos.Libc.Strings.{IsString}
use mcpgos.Utils.LinkedList.{Ptr, null, links}
use mcpgos.Vfs.{FilesystemInfo, Vfs, get_filesystem, register_filesystem}
use mcpgos.Vfs.Registry.{Filesystem, IsRegistry}
use mcpgos.Vfs.Register.{said_of, register_filesystem_lem}

abbrev info : Ptr → FilesystemInfo (List ℕ)
info p = record { name = p; create_callback = none }

abbrev strings : Bytes
strings = assign (assign (λ _. 0) 100 b'a') 102 b'b'

-- The entry at 10 leads to the file system at 11; the one at 13 is not registered.
abbrev one_fs : Vfs (List ℕ)
one_fs = record {
  elements = assign (λ _. none) 10 (some (links null null));
  filesystem_of = assign (λ _. null) 10 11;
  infos = assign (assign (λ _. info 0) 11 (info 100)) 13 (info 102);
  fs_list = 10;
  memory = strings;
  console = [];
}

abbrev its_name : List ℕ
its_name = b'a' ∷ []

abbrev new_name : List ℕ
new_name = b'b' ∷ []

abbrev known : List Filesystem
known = (its_name, 11) ∷ []

abbrev first : List ℕ → ℕ
first [] = 0
first (c ∷ cs) = c

other : its_name ≢ new_name
other e = let p : 97 ≡ 98 = ap first e in omega (arith, p)

registry : IsRegistry one_fs (10 ∷ []) known
registry = record {
  linked = (omega arith, refl, refl, tt);
  head = refl;
  known = (refl, omega arith, (omega arith, refl, refl), tt);
}

register_filesystem_lem_example :
    (t : Vfs (List ℕ)) × ((register_filesystem (some recorder) recorder 5 12 13 one_fs ≡ ok tt t)
      × IsRegistry t (10 ∷ 12 ∷ []) ((its_name, 11) ∷ (new_name, 13) ∷ [])
      × (t.console ≡ said_of [] new_name)
      × (t.infos ≡ one_fs.infos)
      × ((name : Ptr) → IsString t.memory name new_name → get_filesystem 5 name t ≡ ok 13 t)
      × ((e i : Ptr)
          → IsString t.memory (t.infos i).name new_name
          → register_filesystem (some recorder) recorder 5 e i t ≡ panic assertion_failed))
register_filesystem_lem_example =
    register_filesystem_lem recorder 5 one_fs 12 13 new_name (10 ∷ []) known registry
      (omega arith, tt) (omega arith) (omega arith) refl (omega arith) (omega arith)
      (omega arith, refl, refl) (omega arith) (other, tt)
