-- ===== src/MemSlot/Translate.antt =====
-- The translation of a guest address: exactly which addresses resolve, and to what.
use spice.Prelude.{ℕ, ◌+◌, ◌%◌, ◌^◌, ◌≤◌, ◌<◌, ◌≡◌, ◌↔◌, true, some, arith}
use spice.MemSlot.{
  MemSlotInfo, MemSlot, slot_at, get_id, get_generation, get_clean_virt, validate_virt,
  max_size_virt, get_virt,
}

-- The range of `n` bytes at `virt` lies in the slot, with no wrap of the address space.
pub record IsInside (s : MemSlot) (virt n : ℕ) : Type 0 where
  pub from_start : s.virt_start_addr ≤ virt
  pub to_end : virt + n ≤ s.virt_end_addr
  pub no_wrap : virt + n < 2 ^ 64

-- `memslot_validate_virt` accepts exactly the ranges inside the slot, for a 64-bit address and a
-- 32-bit size: a range that wraps around the address space is refused.
pub validate_virt_iff :
    (info : MemSlotInfo) (virt slot_id n group_id : ℕ)
    → virt < 2 ^ 64
    → n < 2 ^ 32
    → (validate_virt info virt slot_id n group_id ≡ true)
      ↔ IsInside (slot_at info group_id slot_id) virt n
unfolding validate_virt
validate_virt_iff info virt slot_id n group_id h k = (ground arith, ground arith)

-- What has to hold of an address for it to resolve to `h_virt`.
pub record Resolves (info : MemSlotInfo) (addr n group_id h_virt : ℕ) : Type 0 where
  pub group : group_id < info.num_memslots_groups
  pub slot : get_id info addr < info.num_memslots
  pub generation : get_generation info addr ≡ (slot_at info group_id (get_id info addr)).generation
  pub inside : IsInside (slot_at info group_id (get_id info addr)) h_virt n
  pub sum :
      h_virt
      ≡ (get_clean_virt info addr + (slot_at info group_id (get_id info addr)).address_delta)
        % 2 ^ 64

-- `memslot_get_virt` returns the host address `h_virt` for a 32-bit size exactly if group and slot
-- exist, the generation is the slot's, `h_virt` is the clean address plus the slot's delta modulo
-- 2 ^ 64, and the whole range lies in the slot.
pub get_virt_iff :
    (info : MemSlotInfo) (addr n group_id h_virt : ℕ)
    → n < 2 ^ 32
    → (get_virt info addr n group_id ≡ some h_virt) ↔ Resolves info addr n group_id h_virt
unfolding get_virt validate_virt
get_virt_iff info addr n group_id h_virt h = (ground arith, ground arith)

-- For an address inside a slot, `memslot_max_size_virt` is the largest size that
-- `memslot_validate_virt` accepts there.
pub max_size_virt_largest :
    (info : MemSlotInfo) (virt slot_id n group_id : ℕ)
    → (slot_at info group_id slot_id).virt_start_addr ≤ virt
    → virt ≤ (slot_at info group_id slot_id).virt_end_addr
    → (slot_at info group_id slot_id).virt_end_addr < 2 ^ 64
    → n < 2 ^ 32
    → (validate_virt info virt slot_id n group_id ≡ true)
      ↔ (n ≤ max_size_virt info virt slot_id group_id)
unfolding validate_virt max_size_virt
max_size_virt_largest info virt slot_id n group_id h k l m = (ground arith, ground arith)
