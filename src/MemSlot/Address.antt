-- ===== src/MemSlot/Address.antt =====
-- The layout of a guest address: slot id in the top bits, generation below it, offset at the
-- bottom.
use spice.Prelude.{ℕ, ◌+◌, ◌-◌, ◌*◌, ◌/◌, ◌%◌, ◌^◌, ◌≤◌, ◌<◌, ◌≡◌, sym, ap, ◌∙◌, some, arith}
use spice.Prelude.Bits.{bit_and-ones, pow-pos}
use spice.Prelude.Fields.{pow-add, pow_mono, high_part, low_part, ones-div}
use native.Mathlib.Nat.{mod-eq_of_lt, div-div-eq-div-mul}
use spice.MemSlot.{MemSlotInfo, info_init, get_id, get_generation, get_clean_virt}

-- The shifts and masks divide the 64 bits among offset, generation and id.
pub record IsLaidOut (info : MemSlotInfo) : Type 0 where
  pub bits : info.memslot_gen_shift + info.generation_bits + info.mem_slot_bits ≡ 64
  pub id_shift : info.memslot_id_shift ≡ info.memslot_gen_shift + info.generation_bits
  pub gen_mask : info.memslot_gen_mask ≡ 2 ^ info.generation_bits - 1
  pub clean_mask : info.memslot_clean_virt_mask ≡ 2 ^ info.memslot_gen_shift - 1
  pub id_fits : info.mem_slot_bits ≤ 32
  pub gen_fits : info.generation_bits ≤ 31

ones_shift : (e q : ℕ) → e + q ≡ 64 → (2 ^ 64 - 1) / 2 ^ q ≡ 2 ^ e - 1
ones_shift e q h =
    let split : 2 ^ e * 2 ^ q ≡ 2 ^ 64 = sym (pow-add e q) ∙ ap (λ t. 2 ^ t) h in
    ap (λ t. (t - 1) / 2 ^ q) (sym split) ∙ ones-div (2 ^ e) (2 ^ q) (pow-pos e) (pow-pos q)

-- The shifts and masks that `memslot_info_init` sets up divide the 64 bits of an address among
-- offset, generation and id, for one to 32 id bits and at most 31 generation bits.
pub info_init-IsLaidOut :
    (groups slots gen_bits id_bits internal : ℕ) {info : MemSlotInfo}
    → 0 < id_bits
    → id_bits ≤ 32
    → gen_bits ≤ 31
    → info_init groups slots gen_bits id_bits internal ≡ some info
    → IsLaidOut info
unfolding info_init
info_init-IsLaidOut groups slots gen_bits id_bits internal {info} h k l e =
    ground (
      arith,
      ones_shift ((64 + 512 - (id_bits + gen_bits)) % 256) (id_bits + gen_bits) (omega arith),
    )

-- The address of an offset in a slot.
abbrev pub encode : MemSlotInfo → ℕ → ℕ → ℕ → ℕ
encode info id gen offset =
    (id * 2 ^ info.generation_bits + gen) * 2 ^ info.memslot_gen_shift + offset

module _ {info : MemSlotInfo} (v : IsLaidOut info) (id gen offset : ℕ)
    (id_small : id < 2 ^ info.mem_slot_bits) (gen_small : gen < 2 ^ info.generation_bits)
    (offset_small : offset < 2 ^ info.memslot_gen_shift) where
  get_clean_virt-encode : get_clean_virt info (encode info id gen offset) ≡ offset
  unfolding get_clean_virt
  get_clean_virt-encode = rw (v.clean_mask, bit_and-ones) (low_part _ _ offset offset_small)

  get_generation-encode : get_generation info (encode info id gen offset) ≡ gen
  unfolding get_generation
  get_generation-encode =
      rw (v.gen_mask, bit_and-ones, high_part _ _ offset offset_small, low_part id _ gen gen_small)
        (mod-eq_of_lt (omega (arith, pow_mono info.generation_bits 32 (omega arith))))

  get_id-encode : get_id info (encode info id gen offset) ≡ id
  unfolding get_id
  get_id-encode =
      rw
        (
          v.id_shift,
          pow-add,
          ← div-div-eq-div-mul,
          high_part _ _ offset offset_small,
          high_part id _ gen gen_small,
        )
        (mod-eq_of_lt (omega (arith, pow_mono info.mem_slot_bits 32 v.id_fits)))

  -- Where the shifts and masks divide the 64 bits, the id, the generation and the offset of an
  -- address, each within its bits, are read back as they were put in.
  pub decode-encode :
      (get_id info (encode info id gen offset) ≡ id)
      × (get_generation info (encode info id gen offset) ≡ gen)
      × (get_clean_virt info (encode info id gen offset) ≡ offset)
  decode-encode = (get_id-encode, get_generation-encode, get_clean_virt-encode)
