-- ===== src/Cpu/Idt/Descriptor.antt =====
-- The fields of a descriptor, as the processor reads them.
use mcpgos.Base.{
  ℕ, ◌+◌, ◌*◌, ◌/◌, ◌%◌, ◌^◌, ◌<◌, bit_or, ◌≡◌, refl, ap, ◌∙◌, inl, inr, arith, ◌==◌, if◌then◌else◌,
  ==→eq, Bool-cases,
}
use mcpgos.Base.Words.{u8, shl, shr, low_bits}
use mcpgos.Base.Bits.{bit_or_same, bit_or_into, bit_or_above}
use mcpgos.Cpu.Idt.{gate_task32, type_attributes, descriptor}

-- The bit of `typeAttributes` that a 32-bit task gate has on.
abbrev pub task_bit : ℕ → ℕ
task_bit gate_type = if gate_type == gate_task32 then 1 else 0

type_attributes_lem :
    (gate_type min_dpl : ℕ)
    → gate_type < 16
    → min_dpl < 4
    → type_attributes gate_type min_dpl ≡ gate_type + 16 * task_bit gate_type + 32 * min_dpl + 128
unfolding type_attributes
type_attributes_lem gate_type min_dpl g d =
    let e1 : bit_or 128 (min_dpl * 32) ≡ 128 + 32 * min_dpl =
      bit_or_same (omega arith) (omega arith)
      ∙ bit_or_into 5 2 0 min_dpl 1 (omega arith) (omega arith)
      ∙ omega arith in
    let e2 : bit_or (128 + 32 * min_dpl) (gate_type % 16) ≡ gate_type + 32 * min_dpl + 128 =
      bit_or_same (omega arith) (omega arith)
      ∙ bit_or_into 0 4 0 gate_type (8 + 2 * min_dpl) (omega arith) (omega arith)
      ∙ omega arith in
    let e : u8 (bit_or (bit_or 128 (min_dpl * 32)) (gate_type % 16))
        ≡ gate_type + 32 * min_dpl + 128 =
      ap u8 (bit_or_same e1 refl ∙ e2) ∙ omega arith in
    elim (Bool-cases (gate_type == gate_task32)) [
      | inl task ↦
          let five : gate_type ≡ 5 = ==→eq _ _ task in
          let e3 : bit_or (gate_type + 32 * min_dpl + 128) 16 ≡ 5 + 16 + 32 * min_dpl + 128 =
            bit_or_same (omega (arith, five)) (omega arith)
            ∙ bit_or_into 4 1 5 1 (4 + min_dpl) (omega arith) (omega arith)
            ∙ omega arith in
          rw task (ap (λ z. u8 (bit_or z 16)) e ∙ ap u8 e3 ∙ omega (arith, five))
      | inr other ↦ rw other (e ∙ omega arith)
    ]

descriptor_sum :
    (callback gate_type min_dpl : ℕ)
    → callback < 2 ^ 32
    → gate_type < 16
    → min_dpl < 4
    → descriptor callback gate_type min_dpl
      ≡ callback % 2 ^ 16
        + 2 ^ 16 * 8
        + 2 ^ 40 * type_attributes gate_type min_dpl
        + 2 ^ 48 * (callback / 2 ^ 16)
unfolding descriptor
descriptor_sum callback gate_type min_dpl c g d =
    let low = callback % 2 ^ 16 in
    let high = callback / 2 ^ 16 in
    let t = type_attributes gate_type min_dpl in
    let small : t < 2 ^ 8 = ground (arith, type_attributes_lem gate_type min_dpl g d) in
    let e1 : bit_or low (shl (low_bits (shr callback 16) 16) 48) ≡ low + 2 ^ 16 * (2 ^ 32 * high) =
      bit_or_same refl (omega arith) ∙ bit_or_above 48 low high (omega arith) ∙ omega arith in
    let e2 : bit_or (low + 2 ^ 16 * (2 ^ 32 * high)) (shl 8 16)
        ≡ (low + 2 ^ 16 * 8) + 2 ^ 40 * (2 ^ 8 * high) =
      bit_or_same refl (omega arith)
      ∙ bit_or_into 16 32 low 8 high (omega arith) (omega arith)
      ∙ omega arith in
    let e3 : bit_or ((low + 2 ^ 16 * 8) + 2 ^ 40 * (2 ^ 8 * high)) (shl t 40)
        ≡ low + 2 ^ 16 * 8 + 2 ^ 40 * t + 2 ^ 48 * high =
      bit_or_same refl (omega arith)
      ∙ bit_or_into 40 8 (low + 2 ^ 16 * 8) t high (omega arith) small
      ∙ omega arith in
    bit_or_same (bit_or_same e1 refl ∙ e2) refl ∙ e3

-- What the processor finds in a descriptor.
pub record Fields (raw offset kind dpl task : ℕ) : Type 0 where
  pub at_offset : raw % 2 ^ 16 + 2 ^ 16 * (raw / 2 ^ 48) ≡ offset
  pub selector : raw / 2 ^ 16 % 2 ^ 16 ≡ 8
  pub reserved : raw / 2 ^ 32 % 2 ^ 8 ≡ 0
  pub gate : raw / 2 ^ 40 % 2 ^ 4 ≡ kind
  pub storage : raw / 2 ^ 44 % 2 ≡ task
  pub level : raw / 2 ^ 45 % 4 ≡ dpl
  pub is_present : raw / 2 ^ 47 % 2 ≡ 1
  pub size : raw < 2 ^ 64

-- The descriptor that `IdtSetEntry` stores can be read back: the entry point, the kernel's code
-- segment, the type of the gate, the privilege level, and that it is present; the bit above the type
-- is on for a task gate only.
pub descriptor-Fields :
    (callback gate_type min_dpl : ℕ)
    → callback < 2 ^ 32
    → gate_type < 16
    → min_dpl < 4
    → Fields (descriptor callback gate_type min_dpl) callback gate_type min_dpl (task_bit gate_type)
descriptor-Fields callback gate_type min_dpl c g d =
    let e = descriptor_sum callback gate_type min_dpl c g d in
    let t = type_attributes_lem gate_type min_dpl g d in
    let bit : task_bit gate_type < 2 = ground arith in
    record {
      at_offset = omega (arith, e, t, bit);
      selector = omega (arith, e, t, bit);
      reserved = omega (arith, e, t, bit);
      gate = omega (arith, e, t, bit);
      storage = omega (arith, e, t, bit);
      level = omega (arith, e, t, bit);
      is_present = omega (arith, e, t, bit);
      size = omega (arith, e, t, bit);
    }
