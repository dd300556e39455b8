-- ===== src/Vfs/Register.antt =====
-- What `VfsRegisterFilesystem` adds, and what the calls after it find.
use mcpgos.Base.{
  ℕ, ◌+◌, ◌≤◌, ◌<◌, ◌≡◌, refl, sym, ap, ◌∙◌, ◌≢◌, inl, inr, Bool, true, false, not, Option, some,
  List, [], ◌∷◌, ◌++◌, arith, ◌==◌, assign, eq→==, ne→==, Bool-cases, length, length-append,
}
use mcpgos.Base.Run.{
  Cmd, ok, panic, modify, assertion_failed, placed, then_returns, true_case, false_case,
  assert-true,
}
use mcpgos.Io.{IoStream}
use mcpgos.Kprintf.Format.{recorder}
use mcpgos.Kprintf.Speaks.{Speaks, Recorded, recorder-Speaks}
use mcpgos.Libc.Strings.{IsString}
use mcpgos.Utils.LinkedList.{Ptr, null, links, Heap, push_back}
use mcpgos.Utils.LinkedList.Chain.{among, first_or, IsList}
use mcpgos.Utils.LinkedList.Append.{appended}
use mcpgos.Vfs.{
  Vfs, on_links, get_filesystem, is_fs_registered, tell, register_filesystem, registered_before,
  registered_after,
}
use mcpgos.Vfs.Registry.{
  Filesystem, Known, IsRegistry, Found, IsNew, IsShort, Found-IsNew, Found_last, IsShort-append,
  get_filesystem_lem,
}
use mcpgos.Vfs.Strings.{argument_lem}

-- The state that a call which returns leaves behind.
abbrev pub added : {S : Type 0} (s : Vfs S) (entry info : Ptr) → Heap → Ptr → S → Vfs S
added s entry info g list said = record s {
  elements = g;
  filesystem_of = assign s.filesystem_of entry info;
  fs_list = list;
  console = said;
}

Known-append :
    {S : Type 0} (s : Vfs S) (entry info : Ptr) (g : Heap) (list : Ptr) (said : S) (cs : List ℕ)
    (xs : List Ptr) (fs : List Filesystem)
    → among entry xs ≡ false
    → Known s xs fs
    → info ≢ null
    → IsString s.memory (s.infos info).name cs
    → Known (added s entry info g list said) (xs ++ entry ∷ []) (fs ++ (cs, info) ∷ [])
Known-append s entry info g list said cs [] [] out k n d = (ground arith, n, d, tt)
Known-append s entry info g list said cs [] (f ∷ fs) out k n d = absurd k
Known-append s entry info g list said cs (x ∷ xs) [] out k n d = absurd k
Known-append s entry info g list said cs (x ∷ xs) (f ∷ fs) out k n d =
    (ground arith, k.1, k.2, Known-append s entry info g list said cs xs fs (ground arith) k.3 n d)

-- What is printed for a name.
abbrev pub said_of : List ℕ → List ℕ → List ℕ
said_of out cs = ((out ++ registered_before) ++ cs) ++ registered_after

-- The new element is linked to the end of the list, or begins it.
linked :
    {S : Type 0} (k : ℕ) (u : Vfs S) (h : Heap) (xs : List Ptr) (entry : Ptr)
    → entry ≢ null
    → IsList h xs
    → among entry xs ≡ false
    → u.fs_list ≡ first_or null xs
    → length xs ≤ k
    → (g : Heap) × (((elim (u.fs_list == null) as (λ _. Cmd (Vfs S) (Unit {0})) [
      | true ↦ modify (λ v. record v { fs_list = entry })
      | false ↦ on_links (push_back k u.fs_list entry)
    ])
            (record u { elements = assign h entry (some (links null null)) })
          ≡ ok tt (record u { elements = g; fs_list = first_or null (xs ++ entry ∷ []) }))
        × IsList g (xs ++ entry ∷ []))
linked k u h [] entry n l out head f =
    let g : Heap = assign h entry (some (links null null)) in
    (g, (true_case (u.fs_list == null) _ _ _ (eq→== _ _ head), (n, ground arith, refl, tt)))
linked k u h (p ∷ zs) entry n l out head f =
    let (g, r, m) = appended k h p zs entry n l out (omega arith) in
    let h1 : Heap = assign h entry (some (links null null)) in
    (
      g,
      (
        false_case (u.fs_list == null) _ _ _ (ne→== _ _ (λ e. l.0 (sym head ∙ e)))
            ∙ ap (placed (λ x. record u { elements = x }))
                (ap (λ q. push_back k q entry h1) head ∙ r)
            ∙ ap (λ q. ok tt (record u { elements = g; fs_list = q })) head,
        m,
      ),
    )

module _ {S : Type 0} (Shown : List ℕ → S → Type 0) (stream : Option (IoStream S (List ℕ)))
    (tty : IoStream S (List ℕ)) (speaks : Speaks Shown stream tty) (fuel : ℕ) where
  tell_lem :
      (name : Ptr) (cs out : List ℕ) (s : Vfs S)
      → name ≢ null
      → length cs < fuel
      → IsString s.memory name cs
      → Shown out s.console
      → (d : S) × ((tell stream tty fuel name s ≡ ok tt (record s { console = d }))
          × Shown (said_of out cs) d)
  unfolding tell
  tell_lem name cs out s n l str h =
      let (d, (e, shown)) =
        speaks.line registered_before registered_after cs out s.console (omega arith) (omega arith)
          h in
      (
        d,
        (
          then_returns _ (some cs) s (argument_lem fuel name cs s n l str)
              (ap (placed (λ c. record s { console = c })) e),
          shown,
        ),
      )

  module _ (s : Vfs S) (xs : List Ptr) (fs : List Filesystem) (g : IsRegistry s xs fs)
      (short : IsShort fuel fs) (few : length xs < fuel) where
    registered :
        (b : Bool) (name : Ptr) (cs : List ℕ)
        → IsString s.memory name cs
        → ((r : Ptr) → Found cs fs r → not (r == null) ≡ b)
        → is_fs_registered fuel name s ≡ ok b s
    unfolding is_fs_registered
    registered b name cs d h =
        let (r, (e, f)) = get_filesystem_lem fuel name cs s d xs fs g short (omega arith) in
        then_returns _ r s e (ap (λ c. ok c s) (h r f))

    -- A second file system of a name is refused.
    register_again :
        (entry info : Ptr) (cs : List ℕ)
        → IsString s.memory (s.infos info).name cs
        → ((r : Ptr) → Found cs fs r → r ≢ null)
        → register_filesystem stream tty fuel entry info s ≡ panic assertion_failed
    unfolding register_filesystem
    register_again entry info cs d h = elim (Bool-cases (info == null)) [
      | inl e ↦ rw e refl
      | inr e ↦ then_returns _ tt s (assert-true (not (info == null)) s (ground arith)) (
          then_returns _ true s
            (registered true (s.infos info).name cs d (λ r f. ground (arith, h r f))) refl)
    ]

    -- A file system of a name that is not there is added at the end.
    register_new :
        (entry info : Ptr) (cs out : List ℕ)
        → entry ≢ null
        → info ≢ null
        → (s.infos info).name ≢ null
        → IsString s.memory (s.infos info).name cs
        → length cs < fuel
        → IsNew cs fs
        → among entry xs ≡ false
        → Shown out s.console
        → (h : Heap) × (d : S) × ((register_filesystem stream tty fuel entry info s
              ≡ ok tt (added s entry info h (first_or null (xs ++ entry ∷ [])) d))
            × IsList h (xs ++ entry ∷ [])
            × Shown (said_of out cs) d)
    unfolding register_filesystem
    register_new entry info cs out en n nn str l new apart shown =
        let u = record s { filesystem_of = assign s.filesystem_of entry info } in
        let (h, (e, m)) =
          linked fuel u s.elements xs entry en g.linked apart g.head (omega arith) in
        let v = record u { elements = h; fs_list = first_or null (xs ++ entry ∷ []) } in
        let (d, (told, said)) = tell_lem (s.infos info).name cs out v nn l str shown in
        (
          h,
          d,
          (
            then_returns _ tt s (assert-true (not (info == null)) s (ground arith)) (
                then_returns _ false s
                  (registered false (s.infos info).name cs str
                    (λ r f. ground (arith, Found-IsNew f new)))
                  (then_returns _ tt s (assert-true (not (entry == null)) s (ground arith))
                    (then_returns _ tt v e told))),
            m,
            said,
          ),
        )

    -- What the calls after it find.
    pub register-Speaks :
        (entry info : Ptr) (cs out : List ℕ)
        → length xs + 1 < fuel
        → entry ≢ null
        → among entry xs ≡ false
        → info ≢ null
        → (s.infos info).name ≢ null
        → IsString s.memory (s.infos info).name cs
        → length cs < fuel
        → IsNew cs fs
        → Shown out s.console
        → (t : Vfs S) × ((register_filesystem stream tty fuel entry info s ≡ ok tt t)
            × IsRegistry t (xs ++ entry ∷ []) (fs ++ (cs, info) ∷ [])
            × Shown (said_of out cs) t.console
            × (t.infos ≡ s.infos)
            × ((name : Ptr) → IsString t.memory name cs → get_filesystem fuel name t ≡ ok info t)
            × IsShort fuel (fs ++ (cs, info) ∷ [])
            × ((p : Ptr) → Found cs (fs ++ (cs, info) ∷ []) p → p ≡ info))
    register-Speaks entry info cs out room en apart n nn str l new shown =
        let (h, d, (run, m, said)) = register_new entry info cs out en n nn str l new apart shown in
        let list : Ptr = first_or null (xs ++ entry ∷ []) in
        let t = added s entry info h list d in
        let r : IsRegistry t (xs ++ entry ∷ []) (fs ++ (cs, info) ∷ []) = record {
          linked = m;
          head = refl;
          known = Known-append s entry info h list d cs xs fs apart g.known n str;
        } in
        let short_t = IsShort-append fuel fs cs info short l in
        let few_t : length (xs ++ entry ∷ []) < fuel =
          omega (arith, length-append xs (entry ∷ [])) in
        (
          t,
          (
            run,
            r,
            said,
            refl,
            λ name q.
                let (p, (e, f)) =
                  get_filesystem_lem fuel name cs t q (xs ++ entry ∷ []) (fs ++ (cs, info) ∷ []) r
                    short_t (omega (arith, few_t)) in
                e ∙ ap (λ q. ok q t) (Found_last cs cs fs info p refl f new),
            short_t,
            λ p f. Found_last cs cs fs info p refl f new,
          ),
        )

-- With enough fuel, on a list of file systems none of which has the name, with memory for an entry
-- and a file system whose name is not NULL, `VfsRegisterFilesystem` returns: it adds the file system
-- at the end, prints its name and changes no VfsFilesystemInfo. From then on `VfsGetFilesystem` finds it by any string that is
-- equal to its name, and to register another file system of that name is a panic.
pub register_filesystem_lem :
    (tty : IoStream (List ℕ) (List ℕ)) (fuel : ℕ) (s : Vfs (List ℕ)) (entry info : Ptr)
    (cs : List ℕ) (xs : List Ptr) (fs : List Filesystem)
    → IsRegistry s xs fs
    → IsShort fuel fs
    → length xs + 1 < fuel
    → entry ≢ null
    → among entry xs ≡ false
    → info ≢ null
    → (s.infos info).name ≢ null
    → IsString s.memory (s.infos info).name cs
    → length cs < fuel
    → IsNew cs fs
    → (t : Vfs (List ℕ)) × ((register_filesystem (some recorder) tty fuel entry info s ≡ ok tt t)
        × IsRegistry t (xs ++ entry ∷ []) (fs ++ (cs, info) ∷ [])
        × (t.console ≡ said_of s.console cs)
        × (t.infos ≡ s.infos)
        × ((name : Ptr) → IsString t.memory name cs → get_filesystem fuel name t ≡ ok info t)
        × ((e i : Ptr)
            → IsString t.memory (t.infos i).name cs
            → register_filesystem (some recorder) tty fuel e i t ≡ panic assertion_failed))
register_filesystem_lem tty fuel s entry info cs xs fs g short few en out n nn d l new =
    let (t, (run, r, said, infos, finds, short_t, last)) =
      register-Speaks Recorded (some recorder) tty (recorder-Speaks tty) fuel s xs fs g short
        (omega arith) entry info cs s.console few en out n nn d l new refl in
    let few_t : length (xs ++ entry ∷ []) < fuel = omega (arith, length-append xs (entry ∷ [])) in
    (
      t,
      (
        run,
        r,
        said,
        infos,
        finds,
        λ e i str.
            register_again Recorded (some recorder) tty (recorder-Speaks tty) fuel t
              (xs ++ entry ∷ []) (fs ++ (cs, info) ∷ []) r short_t few_t e i cs str
              (λ p f z. n (sym (last p f) ∙ z)),
      ),
    )
