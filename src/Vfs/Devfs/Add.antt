-- ===== src/Vfs/Devfs/Add.antt =====
-- `DevfsAddDevice`: the list of devices and the children of the root directory stay in step.
use mcpgos.Base.{
  ℕ, ◌+◌, ◌*◌, ◌^◌, ◌≤◌, ◌<◌, ◌≡◌, refl, sym, ap, ◌∙◌, ◌≢◌, false, not, Option, some, List, [], ◌∷◌,
  ◌++◌, arith, ◌==◌, assign, eq→==, ne→==, length, length-append,
}
use mcpgos.Base.Words.{u32, sub32}
use mcpgos.Base.Run.{Cmd, ok, placed, then_returns, true_case, false_case, assert-true}
use mcpgos.Io.{IoStream}
use mcpgos.Kprintf.Speaks.{Speaks}
use mcpgos.Libc.Strings.{IsString}
use mcpgos.Utils.LinkedList.{Ptr, null, links, Heap, push_back}
use mcpgos.Utils.LinkedList.Chain.{among, first_or, IsList}
use mcpgos.Utils.LinkedList.Append.{appended}
use mcpgos.Vfs.{Vfs}
use mcpgos.Vfs.Strings.{argument_lem}
use mcpgos.Vfs.Devfs.Listing.{child, IsDevfs, Listed-append, map-assign, old_child}
use mcpgos.Vfs.Devfs.{
  Places, Devfs, device_before, device_after, device_inode, tell_device, link_device, grow_children,
  add_device,
}

link_device_lem :
    {S : Type 0} (k : ℕ) (s : Devfs S) (h : Heap) (xs : List Ptr) (entry : Ptr)
    → entry ≢ null
    → IsList h xs
    → among entry xs ≡ false
    → s.device_list ≡ first_or null xs
    → length xs ≤ k
    → (g : Heap) × ((link_device k entry (record s {
      vfs = record (s.vfs) { elements = assign h entry (some (links null null)) };
    })
          ≡ ok tt (record s {
            vfs = record (s.vfs) { elements = g };
            device_list = first_or null (xs ++ entry ∷ []);
          }))
        × IsList g (xs ++ entry ∷ []))
unfolding link_device
link_device_lem k s h [] entry n l out head f =
    let g : Heap = assign h entry (some (links null null)) in
    (g, (true_case (s.device_list == null) _ _ _ (eq→== _ _ head), (n, ground arith, refl, tt)))
link_device_lem k s h (p ∷ zs) entry n l out head f =
    let (g, r, m) = appended k h p zs entry n l out (omega arith) in
    let h1 : Heap = assign h entry (some (links null null)) in
    (
      g,
      (
        false_case (s.device_list == null) _ _ _ (ne→== _ _ (λ e. l.0 (sym head ∙ e)))
            ∙ ap
                (λ r.
                  placed (λ v. record s { vfs = v })
                    (placed (λ x. record (s.vfs) { elements = x }) r))
                (ap (λ q. push_back k q entry h1) head ∙ r)
            ∙ ap (λ q. ok tt (record s { vfs = record (s.vfs) { elements = g }; device_list = q }))
                head,
        m,
      ),
    )

grow_children_lem :
    {S : Type 0} (realloc : (old : Ptr) (size : ℕ) → Cmd (Ptr → Ptr) Ptr) (s : Devfs S) (n p : ℕ)
    (m : Ptr → Ptr)
    → s.root.children_amount ≡ n
    → 4 * (n + 1) < 2 ^ 32
    → realloc s.root.children (4 * (n + 1)) s.cells ≡ ok p m
    → p ≢ null
    → grow_children realloc s
      ≡ ok tt
          (record s { root = record (s.root) { children_amount = n + 1; children = p }; cells = m })
unfolding grow_children
grow_children_lem realloc s n p m e l r np =
    let a : u32 (s.root.children_amount + 1) ≡ n + 1 = omega (arith, e) in
    let size : u32 (4 * (n + 1)) ≡ 4 * (n + 1) = omega arith in
    let u = record s { root = record (s.root) { children_amount = n + 1 } } in
    let v = record u { cells = m } in
    rw a (
      then_returns _ p v
        (ap (λ z. placed (λ c. record u { cells = c }) (realloc s.root.children z s.cells)) size
          ∙ ap (placed (λ c. record u { cells = c })) r)
        (then_returns _ tt v (assert-true (not (p == null)) v (ground arith)) refl))

-- What is printed for a device.
abbrev pub said_device : List ℕ → List ℕ → List ℕ
said_device out cs = ((out ++ device_before) ++ cs) ++ device_after

-- The state that a call which returns leaves behind.
abbrev pub device_added :
    {S : Type 0}
    → Places
    → Devfs S
    → (entry inode device list p n : ℕ) → (m : Ptr → Ptr) → Heap
    → S
    → Devfs S
device_added places s entry inode device list p n m h said = record s {
  device_of = assign s.device_of entry device;
  vfs = record (s.vfs) { elements = h; console = said };
  device_list = list;
  root = record (s.root) { children_amount = n + 1; children = p };
  inodes = assign s.inodes inode (device_inode places (s.devices device).name device);
  cells = assign m (p + 4 * n) inode;
}

module _ {S : Type 0} (Shown : List ℕ → S → Type 0) (stream : Option (IoStream S (List ℕ)))
    (tty : IoStream S (List ℕ)) (speaks : Speaks Shown stream tty) (fuel : ℕ) where
  tell_device_lem :
      (name : Ptr) (cs out : List ℕ) (s : Vfs S)
      → name ≢ null
      → length cs < fuel
      → IsString s.memory name cs
      → Shown out s.console
      → (d : S) × ((tell_device stream tty fuel name s ≡ ok tt (record s { console = d }))
          × Shown (said_device out cs) d)
  unfolding tell_device
  tell_device_lem name cs out s n l str h =
      let (d, (e, shown)) =
        speaks.line device_before device_after cs out s.console (omega arith) (omega arith) h in
      (
        d,
        (
          then_returns _ (some cs) s (argument_lem fuel name cs s n l str)
              (ap (placed (λ c. record s { console = c })) e),
          shown,
        ),
      )

  -- `DevfsAddDevice` on any stream that speaks.
  pub add_device-Speaks :
      (places : Places) (realloc : (old : Ptr) (size : ℕ) → Cmd (Ptr → Ptr) Ptr)
      (entry inode device : Ptr) (s : Devfs S) (cs out : List ℕ) (xs ds : List Ptr) (p : Ptr)
      (m : Ptr → Ptr)
      → IsDevfs places s xs ds
      → length xs ≤ fuel
      → entry ≢ null
      → among entry xs ≡ false
      → inode ≢ null
      → ((j : ℕ) → j < length ds → s.cells (s.root.children + 4 * j) ≢ inode)
      → device ≢ null
      → (s.devices device).name ≢ null
      → IsString s.vfs.memory (s.devices device).name cs
      → length cs < fuel
      → 4 * (length ds + 1) < 2 ^ 32
      → realloc s.root.children (4 * (length ds + 1)) s.cells ≡ ok p m
      → p ≢ null
      → ((j : ℕ) → j < length ds → m (p + 4 * j) ≡ s.cells (s.root.children + 4 * j))
      → Shown out s.vfs.console
      → (h : Heap) × (d : S) × (let t =
            device_added places s entry inode device
              (first_or null (xs ++ entry ∷ []))
              p
              (length ds)
              m
              h
              d in
          (add_device stream tty places realloc fuel entry inode device s ≡ ok tt t)
          × IsDevfs places t (xs ++ entry ∷ []) (ds ++ device ∷ [])
          × Shown (said_device out cs) d)
  unfolding add_device
  add_device-Speaks places realloc entry inode device s cs out xs ds p m dev few en apart inn fresh
        dn nn str l small moved np kept shown =
      let n = length ds in
      let name = (s.devices device).name in
      let x = device_inode places name device in
      let u = record s { device_of = assign s.device_of entry device } in
      let (h, (linked, list)) =
        link_device_lem fuel u s.vfs.elements xs entry en dev.linked apart dev.head few in
      let u1 = record u {
        vfs = record (s.vfs) { elements = h };
        device_list = first_or null (xs ++ entry ∷ []);
      } in
      let grown = grow_children_lem realloc u1 n p m dev.amount small moved np in
      let last : sub32 (n + 1) 1 ≡ n = omega arith in
      let u2 = record u1 {
        root = record (s.root) { children_amount = n + 1; children = p };
        cells = m;
      } in
      let u3 = record u2 { inodes = assign s.inodes inode x; cells = assign m (p + 4 * n) inode } in
      let (d, (told, said)) = tell_device_lem name cs out u3.vfs nn l str shown in
      let t = record u3 { vfs = record (u3.vfs) { console = d } } in
      (
        h,
        d,
        (
          then_returns _ tt s (assert-true (not (device == null)) s (ground arith)) (
              then_returns _ tt s (assert-true (not (entry == null)) s (ground arith)) (
                then_returns _ tt u1 linked (
                  then_returns _ tt u2 grown (
                    then_returns _ tt u2 (assert-true (not (inode == null)) u2 (ground arith))
                      (rw last (ap (placed (λ v. record u3 { vfs = v })) told)))))),
          record {
            linked = list;
            head = refl;
            leads =
                map-assign s.device_of entry device xs apart ∙ ap (λ z. z ++ device ∷ []) dev.leads;
            amount = omega (arith, length-append ds (device ∷ []));
            listed =
                Listed-append (child s) (child t) s.devices places 0 ds device
                  (λ j k.
                    old_child s.inodes m s.cells p s.root.children inode n j x (omega (arith, k))
                      (kept j (omega (arith, k))) (fresh j (omega (arith, k))))
                  (ground arith) dev.listed;
          },
          said,
        ),
      )
