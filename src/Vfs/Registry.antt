-- ===== src/Vfs/Registry.antt =====
-- What the list of file systems stands for, and how `VfsGetFilesystem` searches it.
use mathlib.Core.Path.{subst}
use mcpgos.Base.{
  ℕ, zero, suc, ◌≤◌, ◌<◌, ◌≡◌, refl, sym, ap, ◌∙◌, ◌≢◌, ◌⊎◌, inl, inr, true, false, some, List, [],
  ◌∷◌, ◌++◌, arith, ◌==◌, eq→==, ne→==, length, All,
}
use mcpgos.Base.Run.{Cmd, ok, pure, then_returns, true_case, false_case}
use mcpgos.Libc.Strings.{Sign, minus_one, nought, one, strcmp, IsString, strcmp_lem}
use mcpgos.Utils.LinkedList.{Ptr, null, links, load}
use mcpgos.Utils.LinkedList.Chain.{first_or, Chain, IsList, load-ok}
use mcpgos.Vfs.{Vfs, on_links, on_memory, name_of, is_nought, get_loop, get_filesystem}

-- A file system as the list shows it: its name and its `VfsFilesystemInfo`.
abbrev pub Filesystem : Type 0
Filesystem = List ℕ × Ptr

-- What the elements lead to.
abbrev pub Known : {S : Type 0} → Vfs S → List Ptr → List Filesystem → Type 0
Known s [] [] = Unit {0}
Known s [] (f ∷ fs) = ⊥
Known s (x ∷ xs) [] = ⊥
Known s (x ∷ xs) (f ∷ fs) =
    (s.filesystem_of x ≡ f.1)
    × (f.1 ≢ null)
    × IsString s.memory (s.infos f.1).name f.0
    × Known s xs fs

-- The file systems of the list with the elements `xs`, in the order in which they were registered.
pub record IsRegistry {S : Type 0} (s : Vfs S) (xs : List Ptr) (fs : List Filesystem) : Type 0 where
  pub linked : IsList s.elements xs
  pub head : s.fs_list ≡ first_or null xs
  pub known : Known s xs fs

-- `p` is the first file system with the name `cs`, or NULL if there is none.
pub data Found (cs : List ℕ) : List Filesystem → Ptr → Type 0 where
  nowhere : Found cs [] null
  here : {p : Ptr} {fs : List Filesystem} → Found cs ((cs, p) ∷ fs) p
  later :
      {ds : List ℕ} {q p : Ptr} {fs : List Filesystem}
      → ds ≢ cs
      → Found cs fs p
      → Found cs ((ds, q) ∷ fs) p

-- No file system has the name.
abbrev pub IsNew : List ℕ → List Filesystem → Type 0
IsNew cs fs = All (λ f. f.0 ≢ cs) fs

abbrev pub IsShort : ℕ → List Filesystem → Type 0
IsShort fuel fs = All (λ f. length f.0 < fuel) fs

pub Found-IsNew :
    {cs : List ℕ} {fs : List Filesystem} {p : Ptr} → Found cs fs p → IsNew cs fs → p ≡ null
Found-IsNew nowhere n = refl
Found-IsNew here n = absurd (n.0 refl)
Found-IsNew (later d f) n = Found-IsNew f n.1

pub Found_last :
    (cs ds : List ℕ) (fs : List Filesystem) (info p : Ptr)
    → ds ≡ cs
    → Found cs (fs ++ (ds, info) ∷ []) p
    → IsNew cs fs
    → p ≡ info
Found_last cs ds [] info p e here n = refl
Found_last cs ds [] info p e (later d f) n = absurd (d e)
Found_last cs ds (g ∷ fs) info p e here n = absurd (n.0 refl)
Found_last cs ds (g ∷ fs) info p e (later d f) n = Found_last cs ds fs info p e f n.1

pub IsShort-append :
    (fuel : ℕ) (fs : List Filesystem) (cs : List ℕ) (info : Ptr)
    → IsShort fuel fs
    → length cs < fuel
    → IsShort fuel (fs ++ (cs, info) ∷ [])
IsShort-append fuel [] cs info h l = (l, tt)
IsShort-append fuel (f ∷ fs) cs info h l = (h.0, IsShort-append fuel fs cs info h.1 l)

module _ {S : Type 0} (fuel : ℕ) (name : Ptr) (cs : List ℕ) (s : Vfs S)
    (string : IsString s.memory name cs) where
  -- `strcmp` as the loop uses it.
  compared :
      (p : Ptr) (ds : List ℕ)
      → length ds < fuel
      → IsString s.memory p ds
      → ((r : Sign) × ((on_memory {S = S} (strcmp fuel p name) s ≡ ok r s)
            × (is_nought r ≡ true)
            × (ds ≡ cs)))
        ⊎ ((r : Sign) × ((on_memory {S = S} (strcmp fuel p name) s ≡ ok r s)
              × (is_nought r ≡ false)
              × (ds ≢ cs)))
  compared p ds l d = elim (strcmp_lem fuel p name s.memory ds cs l d string) [
    | inl (e, same) ↦ inl (nought, (rw e refl, refl, same))
    | inr (r, (e, n, other)) ↦ inr (r, (rw e refl, not_nought r n, other))
  ]
    where
      not_nought : (r : Sign) → r ≢ nought → is_nought r ≡ false
      not_nought minus_one n = refl
      not_nought nought n = absurd (n refl)
      not_nought one n = refl

  -- One round, at an element that leads to `p` of the name `ds`.
  get_loop_round :
      (k : ℕ) (q x next p : Ptr) (ds : List ℕ)
      → x ≢ null
      → s.elements x ≡ some (links next q)
      → s.filesystem_of x ≡ p
      → p ≢ null
      → IsString s.memory (s.infos p).name ds
      → length ds < fuel
      → ((ds ≡ cs) × (get_loop fuel (suc k) x name s ≡ ok p s))
        ⊎ ((ds ≢ cs)
            × (get_loop fuel (suc k) x name s
                ≡ (elim (next == null) as (λ _. Cmd (Vfs S) Ptr) [
                  | true ↦ pure null
                  | false ↦ get_loop fuel k next name
                ])
                    s))
  unfolding get_loop
  get_loop_round k q x next p ds n e i np d l =
      let loaded : on_links {S = S} (load x) s ≡ ok (links next q) s =
        rw (load-ok s.elements x _ n e) refl in
      let named : name_of (s.filesystem_of x) s ≡ ok (s.infos p).name s =
        rw (i, ne→== p null np) refl in
      elim (compared (s.infos p).name ds l d) [
        | inl (r, (c, hit, same)) ↦ inl (
          same,
          then_returns _ _ s loaded (
              then_returns _ _ s named
                (then_returns _ r s c (true_case (is_nought r) _ _ s hit ∙ ap (λ y. ok y s) i))),
        )
        | inr (r, (c, miss, other)) ↦ inr (
          other,
          then_returns _ _ s loaded (
              then_returns _ _ s named
                (then_returns _ r s c (false_case (is_nought r) _ _ s miss))),
        )
      ]

  get_loop_lem :
      (k : ℕ) (q x : Ptr) (xs : List Ptr) (ds : List ℕ) (p : Ptr) (fs : List Filesystem)
      → Chain s.elements q (x ∷ xs)
      → Known s (x ∷ xs) ((ds, p) ∷ fs)
      → All (λ f. length f.0 < fuel) ((ds, p) ∷ fs)
      → length xs < k
      → (r : Ptr) × ((get_loop fuel k x name s ≡ ok r s) × Found cs ((ds, p) ∷ fs) r)
  get_loop_lem zero q x xs ds p fs c known short l = absurd (omega arith)
  get_loop_lem (suc k) q x [] ds p [] c known short l =
      elim (get_loop_round k q x null p ds c.0 c.1 known.0 known.1 known.2 short.0) [
        | inl (same, e) ↦ (p, (e, subst (λ zs. Found cs ((zs, p) ∷ []) p) (sym same) here))
        | inr (other, e) ↦ (null, (e, later other nowhere))
      ]
  get_loop_lem (suc k) q x [] ds p (f ∷ fs) c known short l = absurd known.3
  get_loop_lem (suc k) q x (y ∷ ys) ds p [] c known short l = absurd known.3
  get_loop_lem (suc k) q x (y ∷ ys) ds p ((es, o) ∷ fs) c known short l =
      elim (get_loop_round k q x y p ds c.0 c.1 known.0 known.1 known.2 short.0) [
        | inl (same, e) ↦
            (p, (e, subst (λ zs. Found cs ((zs, p) ∷ (es, o) ∷ fs) p) (sym same) here))
        | inr (other, e) ↦
            let (r, (d, found)) = get_loop_lem k x y ys es o fs c.3 known.3 short.1 (omega arith) in
            (r, (e ∙ false_case (y == null) _ _ s (ne→== y null c.3.0) ∙ d, later other found))
      ]

  -- `VfsGetFilesystem` with enough fuel returns the first file system of the name, or NULL if there
  -- is none, and changes nothing.
  pub get_filesystem_lem :
      (xs : List Ptr) (fs : List Filesystem)
      → IsRegistry s xs fs
      → All (λ f. length f.0 < fuel) fs
      → length xs ≤ fuel
      → (r : Ptr) × ((get_filesystem fuel name s ≡ ok r s) × Found cs fs r)
  unfolding get_filesystem
  get_filesystem_lem [] [] g short l =
      (null, (true_case (s.fs_list == null) _ _ s (eq→== _ _ g.head), nowhere))
  get_filesystem_lem [] (f ∷ fs) g short l = absurd g.known
  get_filesystem_lem (x ∷ xs) [] g short l = absurd g.known
  get_filesystem_lem (x ∷ xs) ((ds, p) ∷ fs) g short l =
      let (r, (e, found)) =
        get_loop_lem fuel null x xs ds p fs g.linked g.known short (omega arith) in
      (
        r,
        (
          false_case (s.fs_list == null) _ _ s (ne→== _ _ (λ z. g.linked.0 (sym g.head ∙ z)))
              ∙ ap (λ y. get_loop fuel fuel y name s) g.head
              ∙ e,
          found,
        ),
      )
