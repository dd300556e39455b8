-- ===== src/Drivers/Tty/At.antt =====
-- `TTYWrite` of the bytes at an address.
use mcpgos.Base.{
  ℕ, zero, suc, ◌+◌, ◌<◌, ◌≡◌, refl, sym, ap, ◌∙◌, Option, none, some, List, [], ◌∷◌, arith, length,
}
use mcpgos.Base.Run.{ok, fault}
use mcpgos.Base.Words.{u32}
use mcpgos.Drivers.Tty.{
  TtyState, put_char, put_chars, tty_write, put_from, tty_write_at, tty_io_write_at,
}

-- The bytes from an address on, whatever the terminal shows.
abbrev pub Reads : (load : TtyState → ℕ → Option ℕ) → (address : ℕ) → List ℕ → Type 0
Reads load a [] = Unit
Reads load a (b ∷ bytes) = ((s : TtyState) → load s a ≡ some b) × Reads load (u32 (a + 1)) bytes

-- The address behind as many bytes.
abbrev pub behind : (address : ℕ) → List ℕ → ℕ
behind a [] = a
behind a (b ∷ bytes) = behind (u32 (a + 1)) bytes

module _ (load : TtyState → ℕ → Option ℕ) where
  put_from-Reads :
      (bytes : List ℕ) (a : ℕ) (s : TtyState)
      → Reads load a bytes
      → put_from load (length bytes) a s ≡ ok tt (put_chars bytes s)
  unfolding put_from put_chars
  put_from-Reads [] a s r = refl
  put_from-Reads (b ∷ bytes) a s r = rw r.0 (put_from-Reads bytes (u32 (a + 1)) (put_char b s) r.1)

  put_from-faults :
      (bytes : List ℕ) (n a : ℕ) (s : TtyState)
      → Reads load a bytes
      → ((t : TtyState) → load t (behind a bytes) ≡ none)
      → length bytes < n
      → put_from load n a s ≡ fault
  unfolding put_from
  put_from-faults [] zero a s r d l = absurd (omega (arith, l))
  put_from-faults [] (suc n) a s r d l = let e : load s a ≡ none = d s in rw (e, put_from) refl
  put_from-faults (b ∷ bytes) zero a s r d l = absurd (omega (arith, l))
  put_from-faults (b ∷ bytes) (suc n) a s r d l =
      let e : load s a ≡ some b = r.0 s in
      rw (e, put_from)
        (put_from-faults bytes n (u32 (a + 1)) (put_char b s) r.1 d (omega (arith, l)))

  pub tty_io_write_at-Reads :
      (bytes : List ℕ) (n a : ℕ) (s : TtyState)
      → length bytes ≡ n
      → Reads load a bytes
      → tty_io_write_at load a n s ≡ ok n (tty_write bytes s)
  unfolding tty_io_write_at tty_write_at tty_write
  tty_io_write_at-Reads bytes n a s e r =
      let run : put_from load n a s ≡ ok tt (put_chars bytes s) =
        ap (λ k. put_from load k a s) (sym e) ∙ put_from-Reads bytes a s r in
      rw run refl

  pub tty_io_write_at-faults :
      (bytes : List ℕ) (n a : ℕ) (s : TtyState)
      → Reads load a bytes
      → ((t : TtyState) → load t (behind a bytes) ≡ none)
      → length bytes < n
      → tty_io_write_at load a n s ≡ fault
  unfolding tty_io_write_at tty_write_at
  tty_io_write_at-faults bytes n a s r d l = rw (put_from-faults bytes n a s r d l) refl
