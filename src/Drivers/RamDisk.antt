-- ===== src/Drivers/RamDisk.antt =====
-- The RAM disks of kernel/src/Drivers/RamDisk.c. Buffers lie in the kernel's memory, and a stream
-- is known by its address.
pub mod Transfer
pub mod Cursor
pub mod AddDisk
mod Tests
use mcpgos.Base.{ℕ, ◌+◌, true, false, Option, some, List, ltb, leb, ◌==◌, if◌then◌else◌, assign}
use mcpgos.Base.Words.{u32, u64, sub64}
use mcpgos.Base.Run.{Cmd, ok, pure, ◌>>=◌, ◌>>◌, in_bounds, modify}
use mcpgos.Libc.Memory.{Bytes, memcpy}
use mcpgos.Drivers.Manager.{Dm, register_driver}
use mcpgos.Io.{IoStream, insert_stream_callbacks, Origin, seek_set, seek_cur, seek_end, other}

pub record RamDiskStream : Type 0 where
  pub cursor : ℕ
  -- The index of `ParentEntry` in `RamDiskEntries`.
  pub parent : ℕ

pub record RamDiskEntry : Type 0 where
  pub id : ℕ
  pub buffer : ℕ
  pub buffer_size : ℕ
  pub stream : ℕ

pub record RamDisks : Type 0 where
  pub mem : Bytes
  pub streams : ℕ → RamDiskStream
  pub entries : ℕ → RamDiskEntry
  pub count : ℕ

abbrev pub max_disks : ℕ
max_disks = 64

abbrev pub entry_of : RamDisks → ℕ → RamDiskEntry
entry_of d s = d.entries (d.streams s).parent

abbrev pub cursor_of : RamDisks → ℕ → ℕ
cursor_of d s = (d.streams s).cursor

abbrev pub set_cursor : ℕ → ℕ → RamDisks → RamDisks
set_cursor s c d = record d { streams = assign d.streams s (record (d.streams s) { cursor = c }) }

-- The size after the test against the end of the disk: `StreamCursor` is a `uint64_t`.
pub clip : RamDisks → ℕ → ℕ → ℕ
clip d s size =
    if leb (entry_of d s).buffer_size (u64 (cursor_of d s + size))
    then u32 (sub64 (entry_of d s).buffer_size (cursor_of d s))
    else size

-- `Buffer + StreamCursor`.
abbrev pub position : RamDisks → ℕ → ℕ
position d s = u32 ((entry_of d s).buffer + cursor_of d s)

pub ram_disk_write : ℕ → ℕ → ℕ → Cmd RamDisks ℕ
unfolding clip
ram_disk_write s b size d =
    let n = clip d s size in
    let d1 = record d { mem = memcpy d.mem b (position d s) n } in
    ok n (set_cursor s (u64 (cursor_of d1 s + n)) d1)

pub ram_disk_read : ℕ → ℕ → ℕ → Cmd RamDisks ℕ
unfolding clip
ram_disk_read s b size d =
    let n = clip d s size in
    let d1 = record d { mem = memcpy d.mem (position d s) b n } in
    ok n (set_cursor s (u64 (cursor_of d1 s + n)) d1)

pub ram_disk_can_read : ℕ → Cmd RamDisks ℕ
ram_disk_can_read s = pure 1

pub ram_disk_can_write : ℕ → Cmd RamDisks ℕ
ram_disk_can_write s = pure 1

pub ram_disk_close : ℕ → Cmd RamDisks ℕ
ram_disk_close s = pure 0

pub ram_disk_seek : ℕ → ℕ → Origin → Cmd RamDisks ℕ
ram_disk_seek s pos seek_set d =
    if leb (entry_of d s).buffer_size pos then ok 0 d else ok 1 (set_cursor s pos d)
ram_disk_seek s pos seek_cur d =
    if leb (entry_of d s).buffer_size (u64 (cursor_of d s + pos))
    then ok 0 d
    else ok 1 (set_cursor s (u64 (cursor_of d s + pos)) d)
ram_disk_seek s pos seek_end d =
    if leb (entry_of d s).buffer_size pos
    then ok 0 d
    else ok 1 (set_cursor s (sub64 (entry_of d s).buffer_size pos) d)
ram_disk_seek s pos other d = ok 0 d

-- `return s->StreamCursor` as an `int`, by its bit pattern.
pub ram_disk_tell : ℕ → Cmd RamDisks ℕ
ram_disk_tell s d = ok (u32 (cursor_of d s)) d

-- The callbacks of the stream at `s`.
pub stream_of : ℕ → IoStream RamDisks ℕ
unfolding insert_stream_callbacks
stream_of s =
    insert_stream_callbacks (some (ram_disk_write s)) (some (ram_disk_read s))
      (some (ram_disk_can_read s)) (some (ram_disk_can_write s)) (some (ram_disk_close s))
      (some (ram_disk_seek s)) (some (ram_disk_tell s))

-- `fresh` is what `malloc` returns for the stream, NULL if it fails.
pub add_disk : (fresh buffer size : ℕ) → Cmd RamDisks ℕ
add_disk fresh buffer size = do
  modify λ d. record d { count = u32 (d.count + 1) }
  id ← λ d. ok d.count d
  elim (id == max_disks) [
    | true ↦ pure 0
    | false ↦ elim (fresh == 0) [
      | true ↦ pure 0
      | false ↦ do
        modify
            λ d. record d { streams = assign d.streams fresh (record { cursor = 0; parent = id }) }
        in_bounds (ltb id max_disks)
        modify λ d. record d {
          entries =
              assign d.entries id
                (record { id = id; buffer = buffer; buffer_size = size; stream = fresh });
        }
        pure id
    ]
  ]

-- `RamDiskInit`: the driver's definition lies at `def`.
unfoldable pub ram_disk_init :
    {S : Type 0}
    → Option (IoStream S (List ℕ))
    → IoStream S (List ℕ)
    → (driver_id : ℕ → Option (List ℕ)) → (def : ℕ) → Cmd (Dm S) (Unit {0})
ram_disk_init stream tty driver_id def = register_driver stream tty driver_id def >> pure tt
