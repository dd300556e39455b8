-- ===== src/Vfs/Devfs/Listing.antt =====
-- The devices, by their list and by the children of the root directory.
use mcpgos.Base.{
  ℕ, ◌+◌, ◌*◌, ◌<◌, ◌≡◌, ap, ◌∙◌, ◌≢◌, false, List, [], ◌∷◌, ◌++◌, map, arith, assign, length,
}
use mcpgos.Utils.LinkedList.{Ptr, null}
use mcpgos.Utils.LinkedList.Chain.{among, first_or, IsList}
use mcpgos.Vfs.Devfs.{DevfsDevice, DevfsInode, Places, Devfs, device_inode}

-- The inode of child `j` of the root directory.
abbrev pub child : {S : Type 0} → Devfs S → ℕ → DevfsInode
child s j = s.inodes (s.cells (s.root.children + 4 * j))

-- The inodes from `i` on are those of these devices.
abbrev pub Listed : (ℕ → DevfsInode) → (Ptr → DevfsDevice) → Places → ℕ → List Ptr → Type 0
Listed view devices places i [] = Unit {0}
Listed view devices places i (d ∷ ds) =
    (view i ≡ device_inode places (devices d).name d) × Listed view devices places (i + 1) ds

-- The devices, oldest first, by the list with the elements `xs` and by the root directory.
pub record IsDevfs {S : Type 0} (places : Places) (s : Devfs S) (xs ds : List Ptr) : Type 0 where
  pub linked : IsList s.vfs.elements xs
  pub head : s.device_list ≡ first_or null xs
  pub leads : map s.device_of xs ≡ ds
  pub amount : s.root.children_amount ≡ length ds
  pub listed : Listed (child s) s.devices places 0 ds

pub Listed-append :
    (view view' : ℕ → DevfsInode) (devices : Ptr → DevfsDevice) (places : Places) (i : ℕ)
    (ds : List Ptr) (d : Ptr)
    → ((j : ℕ) → j < i + length ds → view' j ≡ view j)
    → view' (i + length ds) ≡ device_inode places (devices d).name d
    → Listed view devices places i ds
    → Listed view' devices places i (ds ++ d ∷ [])
Listed-append view view' devices places i [] d same last h = (ap view' (omega arith) ∙ last, tt)
Listed-append view view' devices places i (e ∷ ds) d same last h = (
  same i (omega arith) ∙ h.0,
  Listed-append view view' devices places (i + 1) ds d (λ j l. same j (omega arith))
      (ap view' (omega arith) ∙ last) h.1,
)

pub map-assign :
    (f : Ptr → Ptr) (e d : Ptr) (xs : List Ptr)
    → among e xs ≡ false
    → map (assign f e d) (xs ++ e ∷ []) ≡ map f xs ++ d ∷ []
map-assign f e d [] out = ground arith
map-assign f e d (x ∷ xs) out = ground (arith, map-assign f e d xs (ground arith))

-- The inodes of the children before the new one are what they were.
pub old_child :
    (inodes : Ptr → DevfsInode) (m cells : Ptr → Ptr) (p old inode n j : ℕ) (x : DevfsInode)
    → j < n
    → m (p + 4 * j) ≡ cells (old + 4 * j)
    → cells (old + 4 * j) ≢ inode
    → assign inodes inode x (assign m (p + 4 * n) inode (p + 4 * j)) ≡ inodes (cells (old + 4 * j))
old_child inodes m cells p old inode n j x l e d = ground arith
