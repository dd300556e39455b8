-- ===== src/Drivers/RamDisk/Transfer.antt =====
-- `RamDiskWrite` and `RamDiskRead`, the callbacks for writing and for reading.
use Prim.Native.Nat.{min}
use mcpgos.Base.{ℕ, ◌+◌, ◌-◌, ◌^◌, ◌≤◌, ◌<◌, ◌≡◌, ◌⊎◌, ◌&&◌, arith, ltb, leb, if◌then◌else◌}
use mcpgos.Base.Words.{u64}
use mcpgos.Base.Run.{ok}
use mcpgos.Libc.Memory.{Bytes, IsBytes, memcpy, memcpy_lem}
use mcpgos.Drivers.RamDisk.{
  RamDisks, entry_of, cursor_of, set_cursor, clip, position, ram_disk_write, ram_disk_read,
}
use mcpgos.Drivers.RamDisk.Cursor.{IsInside, clip-min, set_cursor-IsInside}

-- The caller's buffer of `size` bytes at `b` and the disk lie in the 32-bit address space, and do
-- not meet.
pub record Apart (d : RamDisks) (s b size : ℕ) : Type 0 where
  pub inside : IsInside d s
  pub bytes : IsBytes d.mem
  pub size_small : size < 2 ^ 32
  pub disk_fits : (entry_of d s).buffer + (entry_of d s).buffer_size < 2 ^ 32
  pub apart :
      (b + size ≤ (entry_of d s).buffer) ⊎ ((entry_of d s).buffer + (entry_of d s).buffer_size ≤ b)

-- What is left of the disk limits the transfer.
abbrev pub amount : RamDisks → ℕ → ℕ → ℕ
amount d s size = min size ((entry_of d s).buffer_size - cursor_of d s)

-- Where the stream stands in memory.
abbrev pub place : RamDisks → ℕ → ℕ
place d s = (entry_of d s).buffer + cursor_of d s

module _ (d : RamDisks) (s b size : ℕ) (v : Apart d s b size) where
  clip-amount : clip d s size ≡ amount d s size
  clip-amount = clip-min d s size v.inside v.size_small

  position-place : position d s ≡ place d s
  position-place = omega (arith, v.inside.cursor_in, v.disk_fits)

  moved :
      (m : Bytes)
      → IsInside (set_cursor s (u64 (cursor_of d s + amount d s size)) (record d { mem = m })) s
  moved m =
      set_cursor-IsInside (record d { mem = m }) s _
        (record { cursor_in = v.inside.cursor_in; small = v.inside.small })
        (omega (arith, v.inside.cursor_in, v.inside.small))

  -- `RamDiskWrite` copies from the disk into the caller's buffer as many bytes as were asked for, or
  -- as are left, returns their number and moves the stream behind them. It changes no byte outside
  -- the part of the caller's buffer that it fills.
  pub ram_disk_write_lem :
      (e : RamDisks) × (ram_disk_write s b size d ≡ ok (amount d s size) e)
      × (cursor_of e s ≡ cursor_of d s + amount d s size)
      × IsInside e s
      × ((a : ℕ)
          → e.mem a ≡ (
              if leb b a && ltb a (b + amount d s size)
              then d.mem (place d s + (a - b))
              else d.mem a))
  unfolding ram_disk_write
  ram_disk_write_lem = (
    set_cursor s (u64 (cursor_of d s + amount d s size))
        (record d { mem = memcpy d.mem b (place d s) (amount d s size) }),
    rw (clip-amount, position-place),
    ground (arith, v.inside.cursor_in, v.inside.small),
    moved (memcpy d.mem b (place d s) (amount d s size)),
    λ a.
        memcpy_lem (amount d s size) d.mem b (place d s) a v.bytes
          (omega (arith, v.apart, v.inside.cursor_in)),
  )

  -- `RamDiskRead` copies from the caller's buffer onto the disk as many bytes as were asked for, or
  -- as there is room for, returns their number and moves the stream behind them. It changes no byte
  -- outside that part of the disk.
  pub ram_disk_read_lem :
      (e : RamDisks) × (ram_disk_read s b size d ≡ ok (amount d s size) e)
      × (cursor_of e s ≡ cursor_of d s + amount d s size)
      × IsInside e s
      × ((a : ℕ)
          → e.mem a ≡ (
              if leb (place d s) a && ltb a (place d s + amount d s size)
              then d.mem (b + (a - place d s))
              else d.mem a))
  unfolding ram_disk_read
  ram_disk_read_lem = (
    set_cursor s (u64 (cursor_of d s + amount d s size))
        (record d { mem = memcpy d.mem (place d s) b (amount d s size) }),
    rw (clip-amount, position-place),
    ground (arith, v.inside.cursor_in, v.inside.small),
    moved (memcpy d.mem (place d s) b (amount d s size)),
    λ a.
        memcpy_lem (amount d s size) d.mem (place d s) b a v.bytes
          (omega (arith, v.apart, v.inside.cursor_in)),
  )
