-- ===== src/Libc/Memory.antt =====
-- `memset` and `memcpy` of libc/src/string, over a memory of bytes.
use mcpgos.Base.{
  ℕ, zero, suc, ◌+◌, ◌-◌, ◌≤◌, ◌<◌, ◌≡◌, ◌⊎◌, ◌&&◌, arith, ltb, leb, if◌then◌else◌, assign,
}
use mcpgos.Base.Words.{u8}

-- The byte at each address.
abbrev pub Bytes : Type 0
Bytes = ℕ → ℕ

-- The value is converted to `uint8_t`; the last byte is written first.
pub memset : Bytes → ℕ → ℕ → ℕ → Bytes
memset mem ptr val zero = mem
memset mem ptr val (suc n) = memset (assign mem (ptr + n) (u8 val)) ptr val n

-- `memset` stores the byte in the block and leaves every other byte alone.
pub memset_lem :
    (n : ℕ) (mem : Bytes) (ptr val a : ℕ)
    → memset mem ptr val n a ≡ (if leb ptr a && ltb a (ptr + n) then u8 val else mem a)
unfolding memset
memset_lem zero mem ptr val a = ground arith
memset_lem (suc n) mem ptr val a =
    ground (arith, memset_lem n (assign mem (ptr + n) (u8 val)) ptr val a)

-- The loop of `memcpy`, with `n` rounds left: the first byte is copied first.
pub memcpy_loop : ℕ → Bytes → ℕ → ℕ → Bytes
memcpy_loop zero mem dest src = mem
memcpy_loop (suc n) mem dest src =
    memcpy_loop n (assign mem dest (u8 (mem src))) (dest + 1) (src + 1)

pub memcpy : Bytes → (dest src n : ℕ) → Bytes
memcpy mem dest src n = memcpy_loop n mem dest src

-- The memory holds bytes.
abbrev pub IsBytes : Bytes → Type 0
IsBytes mem = (a : ℕ) → mem a < 256

pub assign-IsBytes : (mem : Bytes) (a v : ℕ) → IsBytes mem → IsBytes (assign mem a (u8 v))
assign-IsBytes mem a v bytes b = ground (arith, bytes b)

-- Of blocks that do not meet, `memcpy` copies the source to the destination and leaves every other
-- byte alone.
pub memcpy_lem :
    (n : ℕ) (mem : Bytes) (dest src a : ℕ)
    → IsBytes mem
    → (dest + n ≤ src) ⊎ (src + n ≤ dest)
    → memcpy mem dest src n a
      ≡ (if leb dest a && ltb a (dest + n) then mem (src + (a - dest)) else mem a)
unfolding memcpy memcpy_loop
memcpy_lem zero mem dest src a bytes apart = ground arith
memcpy_lem (suc n) mem dest src a bytes apart = ground (
  arith,
  memcpy_lem n (assign mem dest (u8 (mem src))) (dest + 1) (src + 1) a
      (assign-IsBytes mem dest (mem src) bytes) (omega arith),
  bytes src,
)

pub memcpy-IsBytes :
    (n : ℕ) (mem : Bytes) (dest src : ℕ) → IsBytes mem → IsBytes (memcpy mem dest src n)
unfolding memcpy memcpy_loop
memcpy-IsBytes zero mem dest src bytes = bytes
memcpy-IsBytes (suc n) mem dest src bytes =
    memcpy-IsBytes n (assign mem dest (u8 (mem src))) (dest + 1) (src + 1)
      (assign-IsBytes mem dest (mem src) bytes)
