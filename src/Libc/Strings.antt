-- ===== src/Libc/Strings.antt =====
-- `strlen` and `strcmp` of libc/src/string, over a memory of bytes. The loops run on fuel.
mod Tests
use mcpgos.Base.{
  ℕ, zero, suc, ◌+◌, ◌-◌, ◌%◌, ◌^◌, ◌<◌, ◌≡◌, refl, sym, ap, ◌∙◌, ◌≢◌, ◌⊎◌, inl, inr, Bool, true,
  false, List, [], ◌∷◌, arith, ltb, ◌==◌, if◌then◌else◌, eq→==, ne→==, ==→eq, ==→ne, Bool-cases,
  length,
}
use mcpgos.Base.Words.{u32}
use mcpgos.Base.Run.{Cmd, ok, out_of_fuel}
use mcpgos.Libc.Memory.{Bytes}

pub strlen_loop : ℕ → (str result : ℕ) → Cmd Bytes ℕ
strlen_loop zero str result mem = out_of_fuel
strlen_loop (suc k) str result mem =
    let rest = strlen_loop k (str + 1) (u32 (result + 1)) mem in
    if mem str == 0 then ok result mem else rest

pub strlen : ℕ → ℕ → Cmd Bytes ℕ
strlen fuel str = strlen_loop fuel str 0

-- What `strcmp` returns: -1, 0 or 1.
pub data Sign : Type 0 where
  minus_one nought one : Sign

-- Where a `char`, which is signed, stands in the order.
abbrev pub char_rank : ℕ → ℕ
char_rank c = (c + 128) % 256

pub strcmp : ℕ → (s1 s2 : ℕ) → Cmd Bytes Sign
strcmp zero s1 s2 mem = out_of_fuel
strcmp (suc k) s1 s2 mem =
    let rest = strcmp k (s1 + 1) (s2 + 1) mem in
    if mem s1 == mem s2
    then if mem s1 == 0 then ok nought mem else rest
    else ok (if ltb (char_rank (mem s1)) (char_rank (mem s2)) then minus_one else one) mem

-- At `p` stand these characters, none of them NUL, and then a NUL.
abbrev pub IsString : Bytes → ℕ → List ℕ → Type 0
IsString mem p [] = mem p ≡ 0
IsString mem p (c ∷ cs) = (c ≢ 0) × (mem p ≡ c) × IsString mem (p + 1) cs

strlen_loop_lem :
    (k p r : ℕ) (mem : Bytes) (cs : List ℕ)
    → length cs < k
    → IsString mem p cs
    → r + length cs < 2 ^ 32
    → strlen_loop k p r mem ≡ ok (r + length cs) mem
unfolding strlen_loop
strlen_loop_lem zero p r mem cs f s small = absurd (omega arith)
strlen_loop_lem (suc k) p r mem [] f s small = ground arith
strlen_loop_lem (suc k) p r mem (c ∷ cs) f (n, e, s) small =
    ground (arith, strlen_loop_lem k (p + 1) (u32 (r + 1)) mem cs (omega arith) s (omega arith))

-- With more fuel than characters, `strlen` returns the length of a string that is shorter than the
-- address space.
pub strlen_lem :
    (k p : ℕ) (mem : Bytes) (cs : List ℕ)
    → length cs < k
    → IsString mem p cs
    → length cs < 2 ^ 32
    → strlen k p mem ≡ ok (length cs) mem
unfolding strlen
strlen_lem k p mem cs f s small =
    let same : 0 + length cs ≡ length cs = omega arith in
    strlen_loop_lem k p 0 mem cs f s (omega arith) ∙ ap (λ n. ok n mem) same

one_of_two : (b : Bool) → (if b then minus_one else one) ≢ nought
one_of_two true e = cc
one_of_two false e = cc

strcmp_differ :
    (k p q : ℕ) (mem : Bytes)
    → mem p ≢ mem q
    → (r : Sign) × (strcmp (suc k) p q mem ≡ ok r mem) × (r ≢ nought)
unfolding strcmp
strcmp_differ k p q mem n = (
  if ltb (char_rank (mem p)) (char_rank (mem q)) then minus_one else one,
  rw (ne→== (mem p) (mem q) n) refl,
  one_of_two (ltb (char_rank (mem p)) (char_rank (mem q))),
)

strcmp_same :
    (k p q : ℕ) (mem : Bytes)
    → mem p ≡ mem q
    → mem p ≢ 0
    → strcmp (suc k) p q mem ≡ strcmp k (p + 1) (q + 1) mem
unfolding strcmp
strcmp_same k p q mem e n = rw (eq→== (mem p) (mem q) e, ne→== (mem p) 0 n) refl

-- With more fuel than the first string has characters, `strcmp` returns, and it returns 0 for equal
-- strings and only for those.
pub strcmp_lem :
    (k p q : ℕ) (mem : Bytes) (cs ds : List ℕ)
    → length cs < k
    → IsString mem p cs
    → IsString mem q ds
    → ((strcmp k p q mem ≡ ok nought mem) × (cs ≡ ds))
      ⊎ ((r : Sign) × ((strcmp k p q mem ≡ ok r mem) × (r ≢ nought) × (cs ≢ ds)))
strcmp_lem zero p q mem cs ds f s t = absurd (omega arith)
strcmp_lem (suc k) p q mem [] [] f s t = inl (unfold strcmp in ground arith, refl)
strcmp_lem (suc k) p q mem [] (d ∷ ds) f s (n, e, t) =
    let (r, g, h) = strcmp_differ k p q mem (λ i. n (sym e ∙ sym i ∙ s)) in inr (r, (g, h, λ i. cc))
strcmp_lem (suc k) p q mem (c ∷ cs) [] f (n, e, s) t =
    let (r, g, h) = strcmp_differ k p q mem (λ i. n (sym e ∙ i ∙ t)) in inr (r, (g, h, λ i. cc))
strcmp_lem (suc k) p q mem (c ∷ cs) (d ∷ ds) f (n, e, s) (m, g, t) = elim (Bool-cases (c == d)) [
  | inl h ↦
      let same = ==→eq c d h in
      let step = strcmp_same k p q mem (e ∙ same ∙ sym g) (λ i. n (sym e ∙ i)) in
      elim (strcmp_lem k (p + 1) (q + 1) mem cs ds (omega arith) s t) [
        | inl (a, b) ↦ inl (step ∙ a, cc)
        | inr (r, (a, b, x)) ↦ inr (r, (step ∙ a, b, λ i. x cc))
      ]
  | inr h ↦
      let (r, a, b) = strcmp_differ k p q mem (λ i. ==→ne c d h (sym e ∙ i ∙ g)) in
      inr (r, (a, b, λ i. ==→ne c d h cc))
]
