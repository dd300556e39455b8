-- ===== src/Cpu/Idt/Table.antt =====
-- What `IdtInit` leaves in the table.
use mcpgos.Base.{
  ℕ, zero, suc, ◌+◌, ◌≤◌, ◌<◌, ◌≡◌, refl, Bool, true, false, not, sym, ap, ◌∙◌, ◌&&◌, ◌||◌, List,
  [], ◌∷◌, arith, ltb, leb, ◌==◌, if◌then◌else◌, All,
}
use mcpgos.Base.Words.{holds_below, holds_at}
use mcpgos.Cpu.Idt.{
  IdtTable, gate_int32, descriptor, set_entry, default_entries, kernel_vectors, kernel_entries,
  idt_init,
}

-- Whether a vector is in the list.
abbrev pub has : ℕ → List ℕ → Bool
has i [] = false
has i (v ∷ vs) = (i == v) || has i vs

default_entries_lem :
    (n k d : ℕ) (table : IdtTable) (i : ℕ)
    → default_entries n k d table i
      ≡ (if leb k i && ltb i (k + n) then descriptor d gate_int32 3 else table i)
unfolding default_entries set_entry
default_entries_lem zero k d table i = ground arith
default_entries_lem (suc n) k d table i =
    ground (arith, default_entries_lem n (k + 1) d (set_entry k d gate_int32 3 table) i)

kernel_entries_lem :
    (vs : List ℕ) (raw : ℕ → ℕ) (table : IdtTable) (i : ℕ)
    → kernel_entries vs raw table i
      ≡ (if has i vs then descriptor (raw i) gate_int32 0 else table i)
unfolding kernel_entries set_entry
kernel_entries_lem [] raw table i = refl
kernel_entries_lem (v ∷ vs) raw table i =
    ground (arith, kernel_entries_lem vs raw (set_entry v (raw v) gate_int32 0 table) i)

has_above : (vs : List ℕ) (i : ℕ) → 256 ≤ i → All (λ v. v < 256) vs → has i vs ≡ false
has_above [] i l small = refl
has_above (v ∷ vs) i l small = ground (arith, has_above vs i l small.1)

module _ (vs : List ℕ) (d : ℕ) (raw : ℕ → ℕ) (table : IdtTable) (i : ℕ) where
  entries_below :
      i < 256
      → set_entry 0x83
          (raw 0x83)
          gate_int32
          3
          (kernel_entries vs raw (default_entries 256 0 d table))
          i
        ≡ (if i == 0x83
            then descriptor (raw i) gate_int32 3
            else if has i vs
            then descriptor (raw i) gate_int32 0
            else descriptor d gate_int32 3)
  unfolding set_entry
  entries_below l = ground (
    arith,
    kernel_entries_lem vs raw (default_entries 256 0 d table) i,
    default_entries_lem 256 0 d table i,
  )

  entries_above :
      256 ≤ i
      → All (λ v. v < 256) vs
      → set_entry 0x83
          (raw 0x83)
          gate_int32
          3
          (kernel_entries vs raw (default_entries 256 0 d table))
          i
        ≡ table i
  unfolding set_entry
  entries_above l small = ground (
    arith,
    has_above vs i l small,
    kernel_entries_lem vs raw (default_entries 256 0 d table) i,
    default_entries_lem 256 0 d table i,
  )

-- The vectors with an entry point of their own: 0x00 to 0x14 but 0x09 and 0x0F, then 0x1E, and those of
-- the two interrupt controllers.
abbrev pub has_own_entry : ℕ → Bool
has_own_entry i =
    (leb i 0x14 && not ((i == 0x09) || (i == 0x0F))) || (i == 0x1E) || (leb 0x20 i && leb i 0x2F)

own_test : ℕ → Bool
own_test i = if has i kernel_vectors then has_own_entry i else not (has_own_entry i)

own_table : holds_below own_test 256 ≡ true
unfolding holds_below own_test
own_table = refl

agree : (a b : Bool) → (if a then b else not b) ≡ true → a ≡ b
agree true true e = refl
agree true false e = sym e
agree false true e = e
agree false false e = refl

has_own_entry_lem : (i : ℕ) → i < 256 → has i kernel_vectors ≡ has_own_entry i
unfolding own_test
has_own_entry_lem i l = agree _ _ (holds_at own_test i 256 l own_table)

-- `IdtInit` gives each of the 256 vectors a 32-bit interrupt gate and touches nothing past the
-- table: each of 0x00 to 0x14 but 0x09 and 0x0F, and 0x1E, and 0x20 to 0x2F gets an entry point of its
-- own with privilege level 0, vector 0x83 its own with level 3, and any other vector the default entry point with level 3.
pub idt_init_lem :
    (int_default : ℕ) (raw : ℕ → ℕ) (table : IdtTable) (i : ℕ)
    → (i < 256
        → idt_init int_default raw table i ≡ (
            if i == 0x83
            then descriptor (raw i) gate_int32 3
            else if has_own_entry i
            then descriptor (raw i) gate_int32 0
            else descriptor int_default gate_int32 3))
      × (256 ≤ i → idt_init int_default raw table i ≡ table i)
unfolding idt_init
idt_init_lem d raw table i = (
  λ l.
      entries_below kernel_vectors d raw table i l
      ∙ ap
          (λ b.
            if i == 0x83
            then descriptor (raw i) gate_int32 3
            else if b
            then descriptor (raw i) gate_int32 0
            else descriptor d gate_int32 3)
          (has_own_entry_lem i l),
  λ l. entries_above kernel_vectors d raw table i l (omega arith),
)
