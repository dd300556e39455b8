-- ===== src/Io.antt =====
-- The streams of kernel/include/IOStream.h: a table of callbacks, each of which may be NULL. `S` is
-- the state that the callbacks work on and `B` is what they are given for a buffer.
use mcpgos.Base.{ℕ, Option, none, some, List, [], ◌∷◌}
use mcpgos.Base.Run.{Cmd, pure}

pub data Origin : Type 0 where
  seek_set seek_cur seek_end : Origin
  -- any other `int`
  other : Origin

pub record IoStream (S B : Type 0) : Type 0 where
  pub write_callback : Option (B → ℕ → Cmd S ℕ)
  pub read_callback : Option (B → ℕ → Cmd S ℕ)
  pub can_read_callback : Option (Cmd S ℕ)
  pub can_write_callback : Option (Cmd S ℕ)
  pub close_callback : Option (Cmd S ℕ)
  pub seek_callback : Option (ℕ → Origin → Cmd S ℕ)
  pub tell_callback : Option (Cmd S ℕ)

module _ {S B : Type 0} where
  -- In the order of the parameters of `IoInsertStreamCallbacks`.
  unfoldable pub insert_stream_callbacks :
      (write read : Option (B → ℕ → Cmd S ℕ)) (can_read can_write close : Option (Cmd S ℕ))
      → Option (ℕ → Origin → Cmd S ℕ)
      → Option (Cmd S ℕ)
      → IoStream S B
  insert_stream_callbacks write read can_read can_write close seek tell = record {
    write_callback = write;
    read_callback = read;
    can_read_callback = can_read;
    can_write_callback = can_write;
    close_callback = close;
    seek_callback = seek;
    tell_callback = tell;
  }

  unfoldable pub io_write : IoStream S B → B → ℕ → Cmd S ℕ
  io_write stream buf size = elim stream.write_callback [ none ↦ pure 0 | some f ↦ f buf size ]

  unfoldable pub io_read : IoStream S B → B → ℕ → Cmd S ℕ
  io_read stream buf size = elim stream.read_callback [ none ↦ pure 0 | some f ↦ f buf size ]

  unfoldable pub io_can_read : IoStream S B → Cmd S ℕ
  io_can_read stream = elim stream.can_read_callback [ none ↦ pure 0 | some f ↦ f ]

  unfoldable pub io_can_write : IoStream S B → Cmd S ℕ
  io_can_write stream = elim stream.can_write_callback [ none ↦ pure 0 | some f ↦ f ]

  unfoldable pub io_close : IoStream S B → Cmd S ℕ
  io_close stream = elim stream.close_callback [ none ↦ pure 0 | some f ↦ f ]

  unfoldable pub io_seek : IoStream S B → ℕ → Origin → Cmd S ℕ
  io_seek stream pos origin = elim stream.seek_callback [ none ↦ pure 0 | some f ↦ f pos origin ]

  unfoldable pub io_tell : IoStream S B → Cmd S ℕ
  io_tell stream = elim stream.tell_callback [ none ↦ pure 0 | some f ↦ f ]

-- `IoWriteByte`, where a buffer is given by the bytes in it.
unfoldable pub io_write_byte : {S : Type 0} → IoStream S (List ℕ) → ℕ → Cmd S ℕ
unfolding io_write
io_write_byte stream n = io_write stream (n ∷ []) 1
