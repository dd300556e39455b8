-- ===== src/Vfs/Devfs/Init.antt =====
-- `DevfsInit`, on a virtual file system that may have other file systems and devices already.
use mathlib.Core.Path.{subst}
use mcpgos.Base.{
  ℕ, ◌+◌, ◌<◌, ◌≡◌, refl, sym, ap, ◌∙◌, ◌≢◌, false, not, Option, none, some, List, [], ◌∷◌, ◌++◌,
  arith, ◌==◌, assign, ne→==, length, All,
}
use mcpgos.Base.Run.{Cmd, ok, fault, placed, then_returns, assert-true}
use mcpgos.Io.{IoStream}
use mcpgos.Kprintf.Format.{recorder}
use mcpgos.Libc.Strings.{IsString}
use mcpgos.Utils.LinkedList.{Ptr, null}
use mcpgos.Utils.LinkedList.Chain.{among}
use mcpgos.Vfs.{Vfs, get_filesystem, create_instance, on_console}
use mcpgos.Vfs.Registry.{Filesystem, Known, IsRegistry, IsNew, IsShort}
use mcpgos.Kprintf.Speaks.{Speaks, Recorded, recorder-Speaks}
use mcpgos.Vfs.Register.{said_of, register-Speaks}
use mcpgos.Vfs.Devfs.{Places, Devfs, empty_root, create_inst, devfs_init}

-- The string "devfs".
abbrev pub devfs_name : List ℕ
devfs_name = b'd' ∷ b'e' ∷ b'v' ∷ b'f' ∷ b's' ∷ []

-- The memory of `DevfsInfo` belongs to none of the registered file systems.
abbrev pub IsApart : Ptr → List Filesystem → Type 0
IsApart info fs = All (λ f. f.1 ≢ info) fs

-- The virtual file system after `DevfsInit` has filled in `DevfsInfo`.
abbrev filled :
    {S : Type 0} → Option (IoStream S (List ℕ)) → IoStream S (List ℕ) → Places → Vfs S → Vfs S
filled stream tty places v = record v {
  infos = assign v.infos places.info (record {
    name = places.devfs_string;
    create_callback = some (create_inst stream tty places);
  });
}

module _ {S : Type 0} (stream : Option (IoStream S (List ℕ))) (tty : IoStream S (List ℕ))
    (places : Places) where
  filled-Known :
      (v : Vfs S) (xs : List Ptr) (fs : List Filesystem)
      → IsApart places.info fs
      → Known v xs fs
      → Known (filled stream tty places v) xs fs
  filled-Known v [] [] a k = tt
  filled-Known v [] (f ∷ fs) a k = absurd k
  filled-Known v (x ∷ xs) [] a k = absurd k
  filled-Known v (x ∷ xs) (f ∷ fs) a k =
      (k.0, k.1, rw (ne→== f.1 places.info a.0) k.2, filled-Known v xs fs a.1 k.3)

  filled_name :
      (v : Vfs S) → ((filled stream tty places v).infos places.info).name ≡ places.devfs_string
  filled_name v = ground arith

  filled_callback :
      (v : Vfs S)
      → ((filled stream tty places v).infos places.info).create_callback
        ≡ some (create_inst stream tty places)
  filled_callback v = ground arith

  called :
      (c : Option (Ptr → Cmd S Ptr)) (f : Ptr → Cmd S Ptr) (device : Ptr) (v : Vfs S)
      → c ≡ some f
      → (elim c as (λ _. Cmd (Vfs S) Ptr) [ none ↦ λ _. fault | some h ↦ on_console (h device) ]) v
        ≡ on_console (f device) v
  called c f device v e =
      ap
        (λ x.
          (elim x as (λ _. Cmd (Vfs S) Ptr) [ none ↦ λ _. fault | some h ↦ on_console (h device) ])
            v)
        e

  -- `VfsCreateInstance` where the name leads to a file system whose callback is `DevfsCreateInst`.
  created :
      (fuel : ℕ) (name device : Ptr) (v : Vfs S)
      → name ≢ null
      → places.info ≢ null
      → get_filesystem fuel name v ≡ ok places.info v
      → (v.infos places.info).create_callback ≡ some (create_inst stream tty places)
      → create_instance fuel name device v ≡ ok places.instance_at v
  unfolding create_instance create_inst
  created fuel name device v n i finds c =
      then_returns _ tt v (assert-true (not (name == null)) v (ground arith)) (
        then_returns _ places.info v finds (
          then_returns _ tt v (assert-true (not (places.info == null)) v (ground arith))
            (called _ (create_inst stream tty places) device v c)))

  -- `DevfsInit` on any stream that speaks.
  pub devfs_init-Speaks :
      (Shown : List ℕ → S → Type 0)
      → Speaks Shown stream tty
      → (fuel : ℕ) (entry : Ptr) (s : Devfs S) (xs : List Ptr) (fs : List Filesystem) (out : List ℕ)
      → IsRegistry s.vfs xs fs
      → IsShort fuel fs
      → length xs + 1 < fuel
      → 5 < fuel
      → entry ≢ null
      → among entry xs ≡ false
      → places.info ≢ null
      → places.devfs_string ≢ null
      → IsString s.vfs.memory places.devfs_string devfs_name
      → IsNew devfs_name fs
      → IsApart places.info fs
      → Shown out s.vfs.console
      → (v : Vfs S) × ((devfs_init stream tty places fuel entry s
            ≡ ok tt
                (record s { vfs = v; root_directory = places.root_dir; root = empty_root places }))
          × IsRegistry v (xs ++ entry ∷ []) (fs ++ (devfs_name, places.info) ∷ [])
          × ((name device : Ptr)
              → IsString v.memory name devfs_name
              → name ≢ null
              → create_instance fuel name device v ≡ ok places.instance_at v)
          × Shown (said_of out devfs_name) v.console)
  unfolding devfs_init
  devfs_init-Speaks Shown speaks fuel entry s xs fs out g short few l en apart n nn str new off sh =
      let v = filled stream tty places s.vfs in
      let g1 : IsRegistry v xs fs = record {
        linked = g.linked;
        head = g.head;
        known = filled-Known s.vfs xs fs off g.known;
      } in
      let named = filled_name s.vfs in
      let (t, (run, reg, said, infos, finds, _, _)) =
        register-Speaks Shown stream tty speaks fuel v xs fs g1 short (omega arith) entry
          places.info devfs_name out few en apart n (λ z. nn (sym named ∙ z))
          (subst (λ q. IsString v.memory q devfs_name) (sym named) str) l new sh in
      let u = record s { vfs = t; root_directory = places.root_dir; root = empty_root places } in
      (
        t,
        (
          ap (placed (λ w. record u { vfs = w })) run,
          reg,
          λ name device d nz.
              created fuel name device t nz n (finds name d)
                (ap (λ f. (f places.info).create_callback) infos ∙ filled_callback s.vfs),
          said,
        ),
      )

-- With enough fuel and memory for an entry, where no file system is named "devfs" yet or uses the
-- memory of `DevfsInfo`, `DevfsInit` returns: "devfs" is the last of the registered file systems, and any string equal to it makes
-- `VfsCreateInstance` return the instance, whose root directory is the one of the devices. But that
-- directory has no children then, whatever devices have been added before; the list of devices keeps
-- them.
pub devfs_init_lem :
    (tty : IoStream (List ℕ) (List ℕ)) (places : Places) (fuel : ℕ) (entry : Ptr)
    (s : Devfs (List ℕ)) (xs : List Ptr) (fs : List Filesystem)
    → IsRegistry s.vfs xs fs
    → IsShort fuel fs
    → length xs + 1 < fuel
    → 5 < fuel
    → entry ≢ null
    → among entry xs ≡ false
    → places.info ≢ null
    → places.devfs_string ≢ null
    → IsString s.vfs.memory places.devfs_string devfs_name
    → IsNew devfs_name fs
    → IsApart places.info fs
    → (t : Devfs (List ℕ)) × ((devfs_init (some recorder) tty places fuel entry s ≡ ok tt t)
        × IsRegistry t.vfs (xs ++ entry ∷ []) (fs ++ (devfs_name, places.info) ∷ [])
        × ((name device : Ptr)
            → IsString t.vfs.memory name devfs_name
            → name ≢ null
            → create_instance fuel name device t.vfs ≡ ok places.instance_at t.vfs)
        × (t.root_directory ≡ places.root_dir)
        × (t.root ≡ empty_root places)
        × (t.device_list ≡ s.device_list))
devfs_init_lem tty places fuel entry s xs fs g short few l en out n nn str new apart =
    let (v, (run, reg, make, _)) =
      devfs_init-Speaks (some recorder) tty places Recorded (recorder-Speaks tty) fuel entry s xs fs
        s.vfs.console g short few l en out n nn str new apart refl in
    (
      record s { vfs = v; root_directory = places.root_dir; root = empty_root places },
      (run, reg, make, refl, refl, refl),
    )
