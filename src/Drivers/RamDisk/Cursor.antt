-- ===== src/Drivers/RamDisk/Cursor.antt =====
-- Where the stream of a RAM disk stands.
use Prim.Native.Nat.{min}
use mcpgos.Base.{
  ℕ, ◌+◌, ◌-◌, ◌^◌, ◌≤◌, ◌<◌, ◌≡◌, refl, inl, inr, Bool, true, false, arith, ltb, leb,
  if◌then◌else◌, Bool-cases,
}
use mcpgos.Base.Run.{ok}
use mcpgos.Io.{Origin, seek_set, seek_cur, seek_end, other}
use mcpgos.Base.Words.{u64}
use mcpgos.Drivers.RamDisk.{RamDisks, entry_of, cursor_of, set_cursor, clip, ram_disk_seek}

-- The stream at `s` stands inside its disk or at the disk's end.
pub record IsInside (d : RamDisks) (s : ℕ) : Type 0 where
  pub cursor_in : cursor_of d s ≤ (entry_of d s).buffer_size
  pub small : (entry_of d s).buffer_size < 2 ^ 32

-- Of a stream inside its disk a transfer is cut to what is left.
pub clip-min :
    (d : RamDisks) (s size : ℕ)
    → IsInside d s
    → size < 2 ^ 32
    → clip d s size ≡ min size ((entry_of d s).buffer_size - cursor_of d s)
unfolding clip
clip-min d s size v h = ground arith

back_lem :
    (d : RamDisks) (s b : ℕ)
    → IsInside d s
    → 0 < b
    → b ≤ 2 ^ 63
    → ram_disk_seek s (2 ^ 64 - b) seek_cur d
      ≡ (if leb b (cursor_of d s) then ok 1 (set_cursor s (cursor_of d s - b) d) else ok 0 d)
unfolding ram_disk_seek
back_lem d s b v l m = elim (Bool-cases (leb b (cursor_of d s))) [
  | inl e ↦
      let le : b ≤ cursor_of d s = ground (arith, e) in
      let at : u64 (cursor_of d s + (2 ^ 64 - b)) ≡ cursor_of d s - b =
        omega (arith, v.small, v.cursor_in) in
      let fits : leb (entry_of d s).buffer_size (cursor_of d s - b) ≡ false =
        ground (arith, v.cursor_in) in
      rw (at, fits, e) refl
  | inr e ↦
      let lt : cursor_of d s < b = ground (arith, e) in
      let at : u64 (cursor_of d s + (2 ^ 64 - b)) ≡ cursor_of d s + (2 ^ 64 - b) = omega arith in
      let past : leb (entry_of d s).buffer_size (cursor_of d s + (2 ^ 64 - b)) ≡ true =
        ground (arith, v.small) in
      rw (at, past, e) refl
]

-- `RamDiskSeek` of a stream inside its disk reads its offset as a signed one of 64 bits. By an offset of
-- at least 0 it moves the stream exactly to the place asked for, if that lies in the disk (for SEEK_END,
-- if the offset back from the end is less than the disk's size), and returns true; else it returns
-- false and moves nothing. By `b` bytes back, from 1 to 2^63, SEEK_CUR moves the stream to the place
-- `b` before it, if that is not before the disk, and any other origin returns false and moves nothing.
pub ram_disk_seek_lem :
    (d : RamDisks) (s pos : ℕ)
    → IsInside d s
    → pos < 2 ^ 63
    → (ram_disk_seek s pos seek_set d
        ≡ (if ltb pos (entry_of d s).buffer_size then ok 1 (set_cursor s pos d) else ok 0 d))
      × (ram_disk_seek s pos seek_cur d ≡ (
          if ltb (cursor_of d s + pos) (entry_of d s).buffer_size
          then ok 1 (set_cursor s (cursor_of d s + pos) d)
          else ok 0 d))
      × (ram_disk_seek s pos seek_end d ≡ (
          if ltb pos (entry_of d s).buffer_size
          then ok 1 (set_cursor s ((entry_of d s).buffer_size - pos) d)
          else ok 0 d))
      × (ram_disk_seek s pos other d ≡ ok 0 d)
      × ((b : ℕ)
          → 0 < b
          → b ≤ 2 ^ 63
          → (ram_disk_seek s (2 ^ 64 - b) seek_set d ≡ ok 0 d)
            × (ram_disk_seek s (2 ^ 64 - b) seek_cur d ≡ (
                if leb b (cursor_of d s)
                then ok 1 (set_cursor s (cursor_of d s - b) d)
                else ok 0 d))
            × (ram_disk_seek s (2 ^ 64 - b) seek_end d ≡ ok 0 d)
            × (ram_disk_seek s (2 ^ 64 - b) other d ≡ ok 0 d))
unfolding ram_disk_seek
ram_disk_seek_lem d s pos v h = (
  ground arith,
  ground arith,
  ground arith,
  refl,
  λ b l m.
      let small = v.small in
      let inside = v.cursor_in in (ground arith, back_lem d s b v l m, ground arith, refl),
)

pub set_cursor-IsInside :
    (d : RamDisks) (s c : ℕ)
    → IsInside d s
    → c ≤ (entry_of d s).buffer_size
    → IsInside (set_cursor s c d) s
set_cursor-IsInside d s c v h = record { cursor_in = ground arith; small = ground (arith, v.small) }

-- A test that leaves the stream where it is or moves it inside its disk.
move-IsInside :
    (d : RamDisks) (s c : ℕ) (stay : Bool)
    → IsInside d s
    → (stay ≡ false → c ≤ (entry_of d s).buffer_size)
    → (r : ℕ) × (e : RamDisks) × ((if stay then ok 0 d else ok 1 (set_cursor s c d)) ≡ ok r e)
      × IsInside e s
move-IsInside d s c true v h = (0, d, refl, v)
move-IsInside d s c false v h = (1, set_cursor s c d, refl, set_cursor-IsInside d s c v (h refl))

-- Whatever is asked of `RamDiskSeek`, a stream inside its disk stays inside.
pub ram_disk_seek-IsInside :
    (d : RamDisks) (s pos : ℕ) (mode : Origin)
    → IsInside d s
    → (r : ℕ) × (e : RamDisks) × (ram_disk_seek s pos mode d ≡ ok r e) × IsInside e s
unfolding ram_disk_seek
ram_disk_seek-IsInside d s pos seek_set v = move-IsInside d s pos _ v (λ e. ground arith)
ram_disk_seek-IsInside d s pos seek_cur v = move-IsInside d s _ _ v (λ e. ground arith)
ram_disk_seek-IsInside d s pos seek_end v = move-IsInside d s _ _ v (λ e. ground (arith, v.small))
ram_disk_seek-IsInside d s pos other v = (0, d, refl, v)
