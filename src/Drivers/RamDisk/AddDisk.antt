-- ===== src/Drivers/RamDisk/AddDisk.antt =====
-- `RamDiskAddDisk`.
use mcpgos.Base.{ℕ, ◌+◌, ◌-◌, ◌^◌, ◌<◌, ◌≡◌, refl, ◌≢◌, arith, assign}
use mcpgos.Base.Run.{ok, fault}
use mcpgos.Drivers.RamDisk.{RamDisks, max_disks, entry_of, cursor_of, add_disk}
use mcpgos.Drivers.RamDisk.Cursor.{IsInside}

-- As long as the count of calls is below 2^32 - 1, and for a size below 2^32: with fewer than 63 calls
-- before it and memory for the stream, `RamDiskAddDisk` returns the next number from 1 on, and leaves an
-- entry for the buffer whose stream stands at its start and whose older entries are as they were. The
-- 64th call returns 0, and so does any call that gets no memory, and the number is used up all the
-- same. A later call that gets memory writes past the end of the table of entries.
pub add_disk_lem :
    (d : RamDisks) (fresh buffer size : ℕ)
    → d.count < 2 ^ 32 - 1
    → size < 2 ^ 32
    → (d.count + 1 < max_disks
        → fresh ≢ 0
        → (e : RamDisks) × (add_disk fresh buffer size d ≡ ok (d.count + 1) e)
          × (e.count ≡ d.count + 1)
          × (entry_of e fresh
              ≡ record { id = d.count + 1; buffer = buffer; buffer_size = size; stream = fresh })
          × (cursor_of e fresh ≡ 0)
          × IsInside e fresh
          × ((i : ℕ) → i ≢ d.count + 1 → e.entries i ≡ d.entries i))
      × (d.count + 1 ≡ max_disks
          → add_disk fresh buffer size d ≡ ok 0 (record d { count = d.count + 1 }))
      × (max_disks < d.count + 1 → fresh ≢ 0 → add_disk fresh buffer size d ≡ fault)
      × (fresh ≡ 0 → add_disk fresh buffer size d ≡ ok 0 (record d { count = d.count + 1 }))
unfolding add_disk
add_disk_lem d fresh buffer size h k = (
  λ l n. (
    record d {
      count = d.count + 1;
      streams = assign d.streams fresh (record { cursor = 0; parent = d.count + 1 });
      entries =
          assign d.entries (d.count + 1)
            (record { id = d.count + 1; buffer = buffer; buffer_size = size; stream = fresh });
    },
    ground arith,
    refl,
    ground arith,
    ground arith,
    record { cursor_in = ground arith; small = ground arith },
    ground arith,
  ),
  λ o. ground arith,
  λ l n. ground arith,
  λ n. ground arith,
)
