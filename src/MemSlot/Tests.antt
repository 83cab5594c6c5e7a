-- ===== src/MemSlot/Tests.antt =====
-- Runs of the slot table, and instances of its theorems: eight bits each of id and generation.
use spice.Prelude.{◌-◌, ◌^◌, ◌≤◌, ◌≡◌, ◌↔◌, refl, true, none, some, [], ◌∷◌, arith}
use spice.MemSlot.{
  MemSlot, MemSlotInfo, zero_slot, slot_at, info_init, info_add_slot, info_del_slot, get_id,
  get_generation, get_clean_virt, get_virt, validate_virt, max_size_virt,
}
use spice.MemSlot.Address.{IsLaidOut, encode, decode-encode, info_init-IsLaidOut}
use spice.MemSlot.Translate.{Resolves, get_virt_iff, max_size_virt_largest}
use spice.MemSlot.Slots.{IsShaped, add, del, reset, run, run_map, run_refines}
use spice.MemSlot.Lifetime.{add-get_virt, del-get_virt}

abbrev low_slot : MemSlot
low_slot = record {
  generation = 3;
  virt_start_addr = 0x5000;
  virt_end_addr = 0x6000;
  address_delta = 0x4f00;
}

abbrev fresh : MemSlotInfo
fresh = record {
  mem_slots = (zero_slot ∷ zero_slot ∷ []) ∷ [];
  num_memslots_groups = 1;
  num_memslots = 2;
  mem_slot_bits = 8;
  generation_bits = 8;
  memslot_id_shift = 56;
  memslot_gen_shift = 48;
  internal_groupslot_id = 0;
  memslot_gen_mask = 255;
  memslot_clean_virt_mask = 2 ^ 48 - 1;
}

abbrev used : MemSlotInfo
used = record fresh { mem_slots = (zero_slot ∷ low_slot ∷ []) ∷ [] }

fresh_is_init : info_init 1 2 8 8 0 ≡ some fresh
unfolding info_init
fresh_is_init = refl

fresh-IsShaped : IsShaped fresh
fresh-IsShaped = record { groups = refl; rows = (refl, tt) }

used-IsShaped : IsShaped used
used-IsShaped = record { groups = refl; rows = (refl, tt) }

fresh-IsLaidOut : IsLaidOut fresh
fresh-IsLaidOut =
    info_init-IsLaidOut 1 2 8 8 0 (omega arith) (omega arith) (omega arith) fresh_is_init

-- Id 1, generation 3, offset 0x200.
resolved : get_virt used (encode used 1 3 0x200) 16 0 ≡ some 0x5100
unfolding get_virt get_id get_generation validate_virt get_clean_virt
resolved = refl

info_init-IsLaidOut_example : IsLaidOut fresh
info_init-IsLaidOut_example =
    info_init-IsLaidOut 1 2 8 8 0 (omega arith) (omega arith) (omega arith) fresh_is_init

decode-encode_example :
    (get_id fresh (encode fresh 1 3 0x200) ≡ 1)
    × (get_generation fresh (encode fresh 1 3 0x200) ≡ 3)
    × (get_clean_virt fresh (encode fresh 1 3 0x200) ≡ 0x200)
decode-encode_example =
    decode-encode fresh-IsLaidOut 1 3 0x200 (omega arith) (omega arith) (omega arith)

get_virt_iff_example :
    (get_virt used (encode used 1 3 0x200) 16 0 ≡ some 0x5100)
    ↔ Resolves used (encode used 1 3 0x200) 16 0 0x5100
get_virt_iff_example = get_virt_iff used (encode used 1 3 0x200) 16 0 0x5100 (omega arith)

max_size_virt_largest_example :
    (validate_virt used 0x5ff0 1 16 0 ≡ true) ↔ (16 ≤ max_size_virt used 0x5ff0 1 0)
max_size_virt_largest_example =
    max_size_virt_largest used 0x5ff0 1 16 0 (omega arith) (omega arith) (omega arith) (omega arith)

run_refines_example :
    IsShaped fresh
    × (slot_at fresh 0 1 ≡ run_map (slot_at fresh) (add 0 1 low_slot ∷ del 0 0 ∷ reset ∷ []) 0 1)
unfolding run
run_refines_example =
    run_refines fresh fresh (add 0 1 low_slot ∷ del 0 0 ∷ reset ∷ []) 0 1 fresh-IsShaped refl
      (omega arith) (omega arith)

add-get_virt_example : get_virt used (encode fresh 1 3 0x200) 16 0 ≡ some 0x5100
unfolding info_add_slot
add-get_virt_example =
    add-get_virt fresh used 0 1 0x4f00 0x5000 0x6000 3 0x200 16 fresh-IsLaidOut fresh-IsShaped refl
      (omega arith) (omega arith) (omega arith) (omega arith) (omega arith) (omega arith)
      (omega arith)

del-get_virt_example : get_virt (info_del_slot used 0 1) (encode used 1 3 0x200) 16 0 ≡ none
unfolding get_id
del-get_virt_example =
    del-get_virt used 0 1 (encode used 1 3 0x200) 16 used-IsShaped (omega arith) (omega arith) refl
      (omega arith) (omega arith)
