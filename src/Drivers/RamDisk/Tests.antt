-- ===== src/Drivers/RamDisk/Tests.antt =====
-- A disk of four bytes at 100, whose stream, at address 7, stands at its second byte.
use mcpgos.Base.{ℕ, ◌+◌, ◌-◌, ◌^◌, ◌≤◌, ◌<◌, ◌≡◌, ◌≢◌, inr, ◌&&◌, arith, ltb, leb, if◌then◌else◌}
use mcpgos.Base.Run.{ok, fault}
use mcpgos.Io.{seek_set, seek_cur, seek_end, other}
use mcpgos.Drivers.RamDisk.{
  RamDisks, max_disks, entry_of, cursor_of, set_cursor, ram_disk_write, ram_disk_seek, add_disk,
}
use mcpgos.Drivers.RamDisk.Cursor.{IsInside, ram_disk_seek_lem}
use mcpgos.Drivers.RamDisk.Transfer.{Apart, ram_disk_write_lem}
use mcpgos.Drivers.RamDisk.AddDisk.{add_disk_lem}

abbrev disks : RamDisks
disks = record {
  mem = λ a. if ltb a 256 then a else 0;
  streams = λ s. record { cursor = 1; parent = 1 };
  entries = λ i. record { id = 1; buffer = 100; buffer_size = 4; stream = 7 };
  count = 1;
}

disks-IsInside : IsInside disks 7
disks-IsInside = omega arith

disks-Apart : Apart disks 7 200 9
disks-Apart = record {
  inside = disks-IsInside;
  bytes = λ a. ground arith;
  size_small = omega arith;
  disk_fits = omega arith;
  apart = inr (omega arith);
}

ram_disk_write_lem_example :
    (e : RamDisks) × (ram_disk_write 7 200 9 disks ≡ ok 3 e)
    × (cursor_of e 7 ≡ 4)
    × IsInside e 7
    × ((a : ℕ)
        → e.mem a ≡ (if leb 200 a && ltb a 203 then disks.mem (101 + (a - 200)) else disks.mem a))
ram_disk_write_lem_example = ram_disk_write_lem disks 7 200 9 disks-Apart

ram_disk_seek_lem_example :
    (ram_disk_seek 7 2 seek_set disks ≡ ok 1 (set_cursor 7 2 disks))
    × (ram_disk_seek 7 2 seek_cur disks ≡ ok 1 (set_cursor 7 3 disks))
    × (ram_disk_seek 7 2 seek_end disks ≡ ok 1 (set_cursor 7 2 disks))
    × (ram_disk_seek 7 2 other disks ≡ ok 0 disks)
    × ((b : ℕ)
        → 0 < b
        → b ≤ 2 ^ 63
        → (ram_disk_seek 7 (2 ^ 64 - b) seek_set disks ≡ ok 0 disks)
          × (ram_disk_seek 7 (2 ^ 64 - b) seek_cur disks
              ≡ (if leb b 1 then ok 1 (set_cursor 7 (1 - b) disks) else ok 0 disks))
          × (ram_disk_seek 7 (2 ^ 64 - b) seek_end disks ≡ ok 0 disks)
          × (ram_disk_seek 7 (2 ^ 64 - b) other disks ≡ ok 0 disks))
ram_disk_seek_lem_example = ram_disk_seek_lem disks 7 2 disks-IsInside (omega arith)

abbrev fresh : ℕ
fresh = 8

abbrev number : ℕ
number = 2

add_disk_lem_example :
    (2 < max_disks
      → fresh ≢ 0
      → (e : RamDisks) × (add_disk 8 50 3 disks ≡ ok 2 e)
        × (e.count ≡ 2)
        × (entry_of e 8 ≡ record { id = 2; buffer = 50; buffer_size = 3; stream = 8 })
        × (cursor_of e 8 ≡ 0)
        × IsInside e 8
        × ((i : ℕ) → i ≢ 2 → e.entries i ≡ disks.entries i))
    × (number ≡ max_disks → add_disk 8 50 3 disks ≡ ok 0 (record disks { count = 2 }))
    × (max_disks < 2 → fresh ≢ 0 → add_disk 8 50 3 disks ≡ fault)
    × (fresh ≡ 0 → add_disk 8 50 3 disks ≡ ok 0 (record disks { count = 2 }))
add_disk_lem_example = add_disk_lem disks 8 50 3 (omega arith) (omega arith)
