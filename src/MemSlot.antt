-- ===== src/MemSlot.antt =====
-- server/memslot.c and server/memslot.h: guest memory slots and the translation of a guest
-- address into a host address. An `int` and a `uint32_t` are 32-bit patterns, a `uintptr_t` and a
-- QXLPHYSICAL 64-bit ones. What the code prints is left out; `spice_critical` counts as a print,
-- since the code goes on to return NULL after it.
pub mod Address
pub mod Translate
pub mod Slots
pub mod Lifetime
mod Tests
use spice.Prelude.{
  ℕ, zero, suc, ◌+◌, ◌-◌, ◌/◌, ◌%◌, ◌^◌, bit_and, Bool, true, false, not, ◌&&◌, ◌||◌, Option, none,
  some, List, [], ◌∷◌, ltb, leb, ◌==◌, if◌then◌else◌, get_or, set, replicate, map,
}

pub record MemSlot : Type 0 where
  pub generation : ℕ
  pub virt_start_addr : ℕ
  pub virt_end_addr : ℕ
  pub address_delta : ℕ

-- A slot of zero bytes.
abbrev pub zero_slot : MemSlot
zero_slot = record { generation = 0; virt_start_addr = 0; virt_end_addr = 0; address_delta = 0 }

pub record MemSlotInfo : Type 0 where
  pub mem_slots : List (List MemSlot)
  pub num_memslots_groups : ℕ
  pub num_memslots : ℕ
  pub mem_slot_bits : ℕ
  pub generation_bits : ℕ
  pub memslot_id_shift : ℕ
  pub memslot_gen_shift : ℕ
  pub internal_groupslot_id : ℕ
  pub memslot_gen_mask : ℕ
  pub memslot_clean_virt_mask : ℕ

-- `info->mem_slots[group_id][slot_id]`; every read is under a test of both indices, but for
-- `validate_virt` and `max_size_virt`, whose callers hold valid ones.
abbrev pub slot_at : MemSlotInfo → ℕ → ℕ → MemSlot
slot_at info group_id slot_id = get_or (get_or info.mem_slots group_id []) slot_id zero_slot

-- `memslot_get_id`: the result is an `int`.
pub get_id : MemSlotInfo → ℕ → ℕ
get_id info addr = addr / 2 ^ info.memslot_id_shift % 2 ^ 32

-- `memslot_get_generation`
pub get_generation : MemSlotInfo → ℕ → ℕ
get_generation info addr =
    bit_and (addr / 2 ^ info.memslot_gen_shift) info.memslot_gen_mask % 2 ^ 32

-- `__get_clean_virt`
pub get_clean_virt : MemSlotInfo → ℕ → ℕ
get_clean_virt info addr = bit_and addr info.memslot_clean_virt_mask

-- `memslot_validate_virt`
pub validate_virt : MemSlotInfo → ℕ → ℕ → ℕ → ℕ → Bool
validate_virt info virt slot_id add_size group_id =
    let slot = slot_at info group_id slot_id in
    let end = (virt + add_size) % 2 ^ 64 in
    if ltb end virt
    then false
    else if ltb virt slot.virt_start_addr || ltb slot.virt_end_addr end
    then false
    else true

-- `memslot_max_size_virt`
pub max_size_virt : MemSlotInfo → ℕ → ℕ → ℕ → ℕ
max_size_virt info virt slot_id group_id =
    let slot = slot_at info group_id slot_id in
    if ltb virt slot.virt_start_addr || ltb slot.virt_end_addr virt
    then 0
    else slot.virt_end_addr - virt

-- `memslot_get_virt`: NULL is `none`. An address that translates to 0 is `some 0` here, which the
-- source's caller cannot tell from NULL.
pub get_virt : MemSlotInfo → ℕ → ℕ → ℕ → Option ℕ
get_virt info addr add_size group_id =
    let slot_id = get_id info addr in
    let slot = slot_at info group_id slot_id in
    let h_virt = (get_clean_virt info addr + slot.address_delta) % 2 ^ 64 in
    if leb info.num_memslots_groups group_id
    then none
    else if leb info.num_memslots slot_id
    then none
    else if not (get_generation info addr == slot.generation)
    then none
    else if not (validate_virt info h_virt slot_id add_size group_id)
    then none
    else some h_virt

-- `memslot_info_init`, where its assertions hold: the shifts are stored in a `uint8_t`, the bit
-- counts are such that no shift is by 64 bits or more, and `~(-1 << n)` is `2 ^ n - 1`.
pub info_init : ℕ → ℕ → ℕ → ℕ → ℕ → Option MemSlotInfo
info_init num_groups num_slots generation_bits id_bits internal_groupslot_id =
    if ltb 0 num_slots && ltb 0 num_groups
    then some (record {
      mem_slots = replicate num_groups (replicate num_slots zero_slot);
      num_memslots_groups = num_groups;
      num_memslots = num_slots;
      mem_slot_bits = id_bits;
      generation_bits = generation_bits;
      memslot_id_shift = (64 + 256 - id_bits) % 256;
      memslot_gen_shift = (64 + 512 - (id_bits + generation_bits)) % 256;
      internal_groupslot_id = internal_groupslot_id;
      memslot_gen_mask = 2 ^ generation_bits - 1;
      memslot_clean_virt_mask = (2 ^ 64 - 1) / 2 ^ (id_bits + generation_bits);
    })
    else none

-- The slots with one of them changed.
abbrev pub set_slot : MemSlotInfo → ℕ → ℕ → MemSlot → List (List MemSlot)
set_slot info group_id slot_id s =
    set info.mem_slots group_id (set (get_or info.mem_slots group_id []) slot_id s)

-- `memslot_info_add_slot`: `none` where an assertion fails.
pub info_add_slot : MemSlotInfo → ℕ → ℕ → ℕ → ℕ → ℕ → ℕ → Option MemSlotInfo
info_add_slot info slot_group_id slot_id addr_delta virt_start virt_end generation =
    if ltb slot_group_id info.num_memslots_groups && ltb slot_id info.num_memslots
    then some (record info {
      mem_slots = set_slot info slot_group_id slot_id (record {
        generation = generation;
        virt_start_addr = virt_start;
        virt_end_addr = virt_end;
        address_delta = addr_delta;
      });
    })
    else none

-- `memslot_info_del_slot`
pub info_del_slot : MemSlotInfo → ℕ → ℕ → MemSlotInfo
info_del_slot info slot_group_id slot_id =
    let s = slot_at info slot_group_id slot_id in
    if not (ltb slot_group_id info.num_memslots_groups)
    then info
    else if not (ltb slot_id info.num_memslots)
    then info
    else record info {
      mem_slots =
          set_slot info slot_group_id slot_id (record s { virt_start_addr = 0; virt_end_addr = 0 });
    }

-- The loop of `memslot_info_reset`, over the groups that are left.
abbrev reset_groups : ℕ → ℕ → List (List MemSlot) → List (List MemSlot)
reset_groups zero num_slots groups = groups
reset_groups (suc n) num_slots [] = []
reset_groups (suc n) num_slots (g ∷ groups) =
    replicate num_slots zero_slot ∷ reset_groups n num_slots groups

-- `memslot_info_reset`
pub info_reset : MemSlotInfo → MemSlotInfo
info_reset info = record info {
  mem_slots = reset_groups info.num_memslots_groups info.num_memslots info.mem_slots;
}
