-- ===== src/Drivers/Tty/Console.antt =====
-- The terminal as the stream of `Kprintf`: what it shows.
use mcpgos.Base.{
  ℕ, ◌-◌, ◌≡◌, refl, sym, ap, ◌∙◌, inl, inr, Bool, true, false, none, some, List, [], ◌∷◌, ◌++◌,
  ltb, ◌==◌, if◌then◌else◌, Bool-cases, length, eq→==,
}
use mcpgos.Base.Alike.{Alike, both_return}
use mcpgos.Io.{IoStream, insert_stream_callbacks, io_write}
use mcpgos.Kprintf.{Arg, kprintf}
use mcpgos.Kprintf.Format.{recorder}
use mcpgos.Kprintf.Streams.{Writes, kprintf-Alike}
use mcpgos.Cpu.Ports.{PortLog}
use mcpgos.Drivers.Tty.{
  TtyState, tty_width, tty_height, scroll, new_line, back_space, line_feed, store_cell, store_char,
  put_char, put_chars, tty_write, update_vga_cursor_position, vga_move_cursor, buffer_bytes,
  tty_io_write, tty_stream,
}

abbrev at_ports : PortLog → TtyState → TtyState
at_ports p s = record s { ports = p }

-- The terminal has the text, the cursor and the attribute that it has when the loop of `TTYWrite`
-- has run over `out` from the state `s`.
abbrev pub Shown : TtyState → List ℕ → TtyState → Type 0
Shown s out t = at_ports s.ports t ≡ put_chars out s

-- A test in front of two states.
tested :
    (p : PortLog) (b : Bool) (x y : TtyState)
    → (if b then at_ports p x else at_ports p y) ≡ at_ports p (if b then x else y)
tested p true x y = refl
tested p false x y = refl

new_line-at_ports : (p : PortLog) (s : TtyState) → new_line (at_ports p s) ≡ at_ports p (new_line s)
unfolding new_line scroll
new_line-at_ports p s = tested p (s.cursor_y == (tty_height - 1)) _ _

line_feed-at_ports :
    (p : PortLog) (s : TtyState) → line_feed (at_ports p s) ≡ at_ports p (line_feed s)
unfolding line_feed scroll
line_feed-at_ports p s = tested p (s.cursor_y == (tty_width - 1)) _ _

store_char-at_ports :
    (p : PortLog) (c : ℕ) (s : TtyState) → store_char c (at_ports p s) ≡ at_ports p (store_char c s)
unfolding store_char
store_char-at_ports p c s =
    let t : TtyState = store_cell c s in
    ap (λ x. if t.cursor_x == tty_width then x else at_ports p t) (new_line-at_ports p t)
    ∙ tested p (t.cursor_x == tty_width) (new_line t) t

-- What a character does to the screen has nothing to do with the ports.
put_char-at_ports :
    (p : PortLog) (c : ℕ) (s : TtyState) → put_char c (at_ports p s) ≡ at_ports p (put_char c s)
unfolding put_char back_space
put_char-at_ports p c s = elim (Bool-cases (c == 8)) [
  | inl e ↦ rw e (tested p (ltb 0 s.cursor_x) (record s { cursor_x = s.cursor_x - 1 }) s)
  | inr e ↦ rw e (elim (Bool-cases (c == 13)) [
    | inl d ↦ rw d refl
    | inr d ↦ rw d (elim (Bool-cases (c == 10)) [
      | inl f ↦ rw f (line_feed-at_ports p s)
      | inr f ↦ rw f (store_char-at_ports p c s)
    ])
  ])
]

put_chars-at_ports :
    (p : PortLog) (buf : List ℕ) (s : TtyState)
    → put_chars buf (at_ports p s) ≡ at_ports p (put_chars buf s)
unfolding put_chars
put_chars-at_ports p [] s = refl
put_chars-at_ports p (c ∷ buf) s =
    ap (put_chars buf) (put_char-at_ports p c s) ∙ put_chars-at_ports p buf (put_char c s)

put_chars-append :
    (out buf : List ℕ) (s : TtyState) → put_chars (out ++ buf) s ≡ put_chars buf (put_chars out s)
unfolding put_chars
put_chars-append [] buf s = refl
put_chars-append (c ∷ out) buf s = put_chars-append out buf (put_char c s)

buffer_bytes-length : (buf : List ℕ) → buffer_bytes (length buf) buf ≡ buf
unfolding buffer_bytes
buffer_bytes-length [] = refl
buffer_bytes-length (c ∷ buf) = ap (λ b. c ∷ b) (buffer_bytes-length buf)

pub tty_write-Shown :
    (s : TtyState) (buf out : List ℕ) (t : TtyState)
    → Shown s out t
    → Shown s (out ++ buf) (tty_write buf t)
unfolding tty_write update_vga_cursor_position vga_move_cursor
tty_write-Shown s buf out t h =
    sym (put_chars-at_ports s.ports buf t) ∙ ap (put_chars buf) h ∙ sym (put_chars-append out buf s)

pub tty_io_write-Alike :
    (s : TtyState) (buf : List ℕ) (n : ℕ) (out : List ℕ) (t : TtyState)
    → length buf ≡ n
    → Shown s out t
    → Alike (Shown s) (io_write recorder buf n out) (tty_io_write buf n t)
unfolding io_write insert_stream_callbacks tty_io_write
tty_io_write-Alike s buf n out t e h =
    let whole : buffer_bytes n buf ≡ buf =
      ap (λ k. buffer_bytes k buf) (sym e) ∙ buffer_bytes-length buf in
    rw (whole, eq→== (length buf) n e) (both_return n (tty_write-Shown s buf out t h))

pub tty_stream-Writes : (s : TtyState) → Writes (Shown s) tty_stream
unfolding io_write insert_stream_callbacks tty_stream
tty_stream-Writes s = record { write = tty_io_write-Alike s }

pub Shown_nothing : (s : TtyState) → Shown s [] s
unfolding put_chars
Shown_nothing s = refl

-- `Kprintf`, with no stream set, ends on the terminal as it does on a stream that records (one on
-- which a write of a size that is not the size of its buffer faults): it
-- returns, panics or faults for the same format and arguments. Where it returns, the text, the
-- cursor and the attribute are those that the loop of `TTYWrite` leaves when it runs once over all
-- that was recorded.
pub kprintf_terminal_lem :
    (tty : IoStream (List ℕ) (List ℕ)) (msg : List ℕ) (args : List Arg) (s : TtyState)
    → Alike (Shown s) (kprintf (some recorder) tty msg args []) (kprintf none tty_stream msg args s)
kprintf_terminal_lem tty msg args s =
    kprintf-Alike (Shown s) tty_stream (tty_stream-Writes s) tty msg args [] s (Shown_nothing s)
