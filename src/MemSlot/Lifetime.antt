-- ===== src/MemSlot/Lifetime.antt =====
-- Addresses from the registration of a slot to its deletion.
use spice.Prelude.{
  ℕ, ◌+◌, ◌%◌, ◌^◌, ◌≤◌, ◌<◌, ◌≡◌, ◌≢◌, sym, ◌∙◌, ap, none, some, inl, inr, Option-cases, arith,
}
use spice.MemSlot.{
  set_slot, MemSlotInfo, slot_at, get_id, get_generation, get_clean_virt, info_add_slot,
  info_del_slot, get_virt,
}
use spice.MemSlot.Address.{IsLaidOut, encode, decode-encode}
use spice.MemSlot.Slots.{IsShaped, info_add_slot_lem, info_del_slot_lem, get_id-info_del_slot}
use spice.MemSlot.Translate.{get_virt_iff}

-- Once a slot is registered, the address of an offset in it, with the slot's generation,
-- resolves to the offset plus the slot's delta modulo 2 ^ 64, whenever the range there lies within
-- the bounds that were registered. The table has its shape and layout, and the id, the generation
-- and the offset fit their fields.
pub add-get_virt :
    (info info' : MemSlotInfo) (g i delta start end gen offset n : ℕ)
    → IsLaidOut info
    → IsShaped info
    → info_add_slot info g i delta start end gen ≡ some info'
    → i < 2 ^ info.mem_slot_bits
    → gen < 2 ^ info.generation_bits
    → offset < 2 ^ info.memslot_gen_shift
    → n < 2 ^ 32
    → start ≤ (offset + delta) % 2 ^ 64
    → (offset + delta) % 2 ^ 64 + n ≤ end
    → (offset + delta) % 2 ^ 64 + n < 2 ^ 64
    → get_virt info' (encode info i gen offset) n g ≡ some ((offset + delta) % 2 ^ 64)
unfolding get_id get_generation get_clean_virt
add-get_virt info info' g i delta start end gen offset n l v e hi hg ho hn p q r =
    let a = info_add_slot_lem info info' g i delta start end gen v e in
    let d = decode-encode l i gen offset hi hg ho in
    let new = record info {
      mem_slots = set_slot info g i (record {
        generation = gen;
        virt_start_addr = start;
        virt_end_addr = end;
        address_delta = delta;
      });
    } in
    let same = ap (λ t. slot_at new g t) d.0 ∙ a.3 in
    rw a.2 (
      (get_virt_iff new (encode info i gen offset) n g _ hn).1 (record {
        group = a.0;
        slot = omega (arith, d.0, a.1);
        generation = d.1 ∙ sym (ap (λ s. s.generation) same);
        inside = record {
          from_start = omega (arith, ap (λ s. s.virt_start_addr) same);
          to_end = omega (arith, ap (λ s. s.virt_end_addr) same);
          no_wrap = r;
        };
        sum = omega (arith, ap (λ s. s.address_delta) same, d.2);
      }))

-- Once a slot is deleted, no address with its id resolves for a size above zero.
pub del-get_virt :
    (info : MemSlotInfo) (g i addr n : ℕ)
    → IsShaped info
    → g < info.num_memslots_groups
    → i < info.num_memslots
    → get_id info addr ≡ i
    → 0 < n
    → n < 2 ^ 32
    → get_virt (info_del_slot info g i) addr n g ≡ none
del-get_virt info g i addr n v hg hi e p q =
    elim (Option-cases (get_virt (info_del_slot info g i) addr n g)) [
      | inl gone ↦ gone
      | inr (h, found) ↦
          let r = (get_virt_iff (info_del_slot info g i) addr n g h q).0 found in
          let same : get_id (info_del_slot info g i) addr ≡ i =
            get_id-info_del_slot info g i addr ∙ e in
          absurd (
            omega (
              arith,
              info_del_slot_lem info g i v hg hi,
              ap (λ t. (slot_at (info_del_slot info g i) g t).virt_end_addr) same,
              r.inside.to_end,
            ))
    ]

-- An address of another generation than its slot's does not resolve.
pub stale-get_virt :
    (info : MemSlotInfo) (g addr n : ℕ)
    → n < 2 ^ 32
    → get_generation info addr ≢ (slot_at info g (get_id info addr)).generation
    → get_virt info addr n g ≡ none
stale-get_virt info g addr n hn ne = elim (Option-cases (get_virt info addr n g)) [
  | inl e ↦ e
  | inr (h, e) ↦ absurd (ne ((get_virt_iff info addr n g h hn).0 e).generation)
]
