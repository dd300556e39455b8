-- ===== src/Mm/Physical/Slots.antt =====
-- The four two-bit slots of a bitmap byte, by tables over all bytes.
use mcpgos.Base.{ℕ, ◌<◌, bit_or, ◌≡◌, refl, Bool, true, arith, ◌==◌, if◌then◌else◌, ==→eq}
use mcpgos.Base.Words.{holds_below, holds_at}
use mcpgos.Mm.Physical.{slot_set, slot_get}

abbrev slot_test : ℕ → ℕ → ℕ → ℕ → Bool
slot_test b k v j = slot_get (slot_set b k v) j == (if j == k then bit_or (slot_get b k) v else 0)

abbrev byte_test : ℕ → Bool
byte_test b = holds_below (λ k. holds_below (λ v. holds_below (slot_test b k v) 4) 4) 4

slot_table : holds_below byte_test 256 ≡ true
unfolding holds_below slot_set slot_get
slot_table = refl

-- Storing `value` in slot `k` joins it to the slot's bits and clears the three other slots.
pub slot_get-slot_set :
    (b k v j : ℕ)
    → b < 256
    → k < 4
    → v < 4
    → j < 4
    → slot_get (slot_set b k v) j ≡ (if j == k then bit_or (slot_get b k) v else 0)
slot_get-slot_set b k v j hb hk hv hj =
    let at_byte = holds_at byte_test b 256 hb slot_table in
    let at_slot =
      holds_at (λ k. holds_below (λ v. holds_below (slot_test b k v) 4) 4) k 4 hk at_byte in
    let at_value = holds_at (λ v. holds_below (slot_test b k v) 4) v 4 hv at_slot in
    ==→eq _ _ (holds_at (slot_test b k v) j 4 hj at_value)

pub slot_set-lt : (b k v : ℕ) → slot_set b k v < 256
unfolding slot_set
slot_set-lt b k v = ground arith

abbrev value_test : ℕ → ℕ → Bool
value_test v k = slot_get v k == (if k == 0 then v else 0)

value_table : holds_below (λ v. holds_below (value_test v) 4) 4 ≡ true
unfolding holds_below slot_get
value_table = refl

-- A byte that holds a page value as it stands gives it to the first of its four pages only.
pub slot_get_value : (v k : ℕ) → v < 4 → k < 4 → slot_get v k ≡ (if k == 0 then v else 0)
slot_get_value v k hv hk = ==→eq _ _ (
    holds_at (value_test v) k 4 hk
      (holds_at (λ v. holds_below (value_test v) 4) v 4 hv value_table))
