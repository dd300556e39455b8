-- ===== src/Vfs/Strings.antt =====
-- Strings in memory, as the file systems print them.
use mcpgos.Base.{
  ℕ, zero, suc, ◌+◌, ◌<◌, ◌≡◌, refl, ap, ◌∙◌, ◌≢◌, some, List, [], ◌∷◌, arith, ◌==◌, ne→==, length,
}
use mcpgos.Base.Run.{ok, placed, then_returns, false_case}
use mcpgos.Libc.Memory.{Bytes}
use mcpgos.Libc.Strings.{IsString}
use mcpgos.Utils.LinkedList.{Ptr, null}
use mcpgos.Vfs.{Vfs, on_memory, string_at, argument}

pub string_at_lem :
    (k p : ℕ) (mem : Bytes) (cs : List ℕ)
    → length cs < k
    → IsString mem p cs
    → string_at k p mem ≡ ok cs mem
unfolding string_at
string_at_lem zero p mem cs l s = absurd (omega arith)
string_at_lem (suc k) p mem [] l s = ground (arith, s)
string_at_lem (suc k) p mem (c ∷ cs) l (n, e, s) =
    rw (string_at_lem k (p + 1) mem cs (omega arith) s, e, ne→== c 0 n) refl

pub argument_lem :
    {S : Type 0} (fuel : ℕ) (name : Ptr) (cs : List ℕ) (s : Vfs S)
    → name ≢ null
    → length cs < fuel
    → IsString s.memory name cs
    → on_memory (argument fuel name) s ≡ ok (some cs) s
argument_lem fuel name cs s n l d = ap (placed (λ b. record s { memory = b })) (
    false_case (name == null) _ _ s.memory (ne→== name null n)
    ∙ then_returns _ cs s.memory (string_at_lem fuel name s.memory cs l d) refl)
