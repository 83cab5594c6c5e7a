-- ===== src/MemSlot/Slots.antt =====
-- The table of slots under its operations, against a map from pairs of numbers to slots.
use spice.Prelude.{
  ℕ, zero, suc, ◌<◌, ◌≡◌, refl, ◌∙◌, ◌&&◌, Option, none, some, List, [], ◌∷◌, arith, ◌==◌,
  if◌then◌else◌, length, get_or, set, replicate, length-set, length-replicate, Option-cases, inl,
  inr,
}
use spice.MemSlot.{
  get_id, MemSlotInfo, MemSlot, zero_slot, slot_at, set_slot, info_init, info_add_slot,
  info_del_slot, reset_groups, info_reset,
}

-- Every group of the table has as many slots as the table's number of slots.
abbrev pub AllRows : ℕ → List (List MemSlot) → Type 0
AllRows n [] = Unit {0}
AllRows n (g ∷ gs) = (length g ≡ n) × AllRows n gs

pub record IsShaped (info : MemSlotInfo) : Type 0 where
  pub groups : length info.mem_slots ≡ info.num_memslots_groups
  pub rows : AllRows info.num_memslots info.mem_slots

module _ {ℓ} {A : Type ℓ} where
  pub get_or-set :
      (xs : List A) (i j : ℕ) (v d : A)
      → i < length xs
      → get_or (set xs i v) j d ≡ (if i == j then v else get_or xs j d)
  get_or-set [] i j v d h = absurd (omega arith)
  get_or-set (x ∷ xs) zero zero v d h = refl
  get_or-set (x ∷ xs) zero (suc j) v d h = ground arith
  get_or-set (x ∷ xs) (suc i) zero v d h = ground arith
  get_or-set (x ∷ xs) (suc i) (suc j) v d h = ground (arith, get_or-set xs i j v d)

  pub get_or-replicate : (n i : ℕ) (v : A) → get_or (replicate n v) i v ≡ v
  get_or-replicate zero i v = refl
  get_or-replicate (suc n) zero v = refl
  get_or-replicate (suc n) (suc i) v = get_or-replicate n i v

AllRows-row :
    (n : ℕ) (gs : List (List MemSlot)) (i : ℕ)
    → AllRows n gs
    → i < length gs
    → length (get_or gs i []) ≡ n
AllRows-row n [] i a h = absurd (omega arith)
AllRows-row n (g ∷ gs) zero a h = a.0
AllRows-row n (g ∷ gs) (suc i) a h = AllRows-row n gs i a.1 (omega arith)

AllRows-set :
    (n : ℕ) (gs : List (List MemSlot)) (i : ℕ) (g : List MemSlot)
    → AllRows n gs
    → length g ≡ n
    → AllRows n (set gs i g)
AllRows-set n [] i g a h = tt
AllRows-set n (x ∷ gs) zero g a h = (h, a.1)
AllRows-set n (x ∷ gs) (suc i) g a h = (a.0, AllRows-set n gs i g a.1 h)

AllRows-replicate : (n m : ℕ) (g : List MemSlot) → length g ≡ n → AllRows n (replicate m g)
AllRows-replicate n zero g h = tt
AllRows-replicate n (suc m) g h = (h, AllRows-replicate n m g h)

-- What `memslot_info_init` returns has its shape, and all its slots are zero.
pub info_init-IsShaped :
    (groups slots gen_bits id_bits internal : ℕ) {info : MemSlotInfo}
    → info_init groups slots gen_bits id_bits internal ≡ some info
    → IsShaped info
unfolding info_init
info_init-IsShaped groups slots gen_bits id_bits internal {info} e = ground (
  arith,
  AllRows-replicate slots groups (replicate slots zero_slot) (length-replicate slots zero_slot),
  length-replicate groups (replicate slots zero_slot),
)

-- The operations that change the table.
pub data Op : Type 0 where
  add : ℕ → ℕ → MemSlot → Op
  del : ℕ → ℕ → Op
  reset : Op

-- An operation as the code runs it; `none` where an assertion stops it.
unfoldable pub step : MemSlotInfo → Op → Option MemSlotInfo
unfolding info_add_slot info_del_slot info_reset
step info (add g i s) =
    info_add_slot info g i s.address_delta s.virt_start_addr s.virt_end_addr s.generation
step info (del g i) = some (info_del_slot info g i)
step info reset = some (info_reset info)

-- What it means for the map: a deleted slot keeps its generation and delta, and loses its range.
unfoldable pub update : (ℕ → ℕ → MemSlot) → Op → ℕ → ℕ → MemSlot
update t (add g i s) h j = if g == h && i == j then s else t h j
update t (del g i) h j =
    if g == h && i == j then record (t h j) { virt_start_addr = 0; virt_end_addr = 0 } else t h j
update t reset h j = zero_slot

slot_at-set_slot :
    (info : MemSlotInfo) (g i h j : ℕ) (s : MemSlot)
    → IsShaped info
    → g < info.num_memslots_groups
    → i < info.num_memslots
    → get_or (get_or (set_slot info g i s) h []) j zero_slot
      ≡ (if g == h && i == j then s else slot_at info h j)
slot_at-set_slot info g i h j s v p q =
    let row : length (get_or info.mem_slots g []) ≡ info.num_memslots =
      AllRows-row info.num_memslots info.mem_slots g v.rows (omega arith) in
    ground (
      arith,
      get_or-set info.mem_slots g h (set (get_or info.mem_slots g []) i s) [],
      get_or-set (get_or info.mem_slots g []) i j s zero_slot,
    )

set_slot-IsShaped :
    (info : MemSlotInfo) (g i : ℕ) (s : MemSlot)
    → IsShaped info
    → g < info.num_memslots_groups
    → IsShaped (record info { mem_slots = set_slot info g i s })
set_slot-IsShaped info g i s v p = record {
  groups = length-set info.mem_slots g _ ∙ v.groups;
  rows = AllRows-set info.num_memslots info.mem_slots g _ v.rows (
      length-set (get_or info.mem_slots g []) i s
      ∙ AllRows-row info.num_memslots info.mem_slots g v.rows (omega arith));
}

reset_groups-IsShaped :
    (m n : ℕ) (gs : List (List MemSlot))
    → length gs ≡ m
    → (length (reset_groups m n gs) ≡ m) × AllRows n (reset_groups m n gs)
reset_groups-IsShaped zero n [] h = (refl, tt)
reset_groups-IsShaped zero n (g ∷ gs) h = absurd (omega arith)
reset_groups-IsShaped (suc m) n [] h = absurd (omega arith)
reset_groups-IsShaped (suc m) n (g ∷ gs) h =
    let rest = reset_groups-IsShaped m n gs (omega arith) in
    (omega arith, (length-replicate n zero_slot, rest.1))

get_or-reset_groups :
    (m n : ℕ) (gs : List (List MemSlot)) (h j : ℕ)
    → length gs ≡ m
    → get_or (get_or (reset_groups m n gs) h []) j zero_slot ≡ zero_slot
get_or-reset_groups zero n [] h j e = refl
get_or-reset_groups zero n (g ∷ gs) h j e = absurd (omega arith)
get_or-reset_groups (suc m) n [] h j e = absurd (omega arith)
get_or-reset_groups (suc m) n (g ∷ gs) zero j e = get_or-replicate n j zero_slot
get_or-reset_groups (suc m) n (g ∷ gs) (suc h) j e = get_or-reset_groups m n gs h j (omega arith)

-- One operation keeps the shape and does to each slot what it means for the map.
record Refines (info info' : MemSlotInfo) (op : Op) : Type 0 where
  shaped : IsShaped info'
  same_groups : info'.num_memslots_groups ≡ info.num_memslots_groups
  same_slots : info'.num_memslots ≡ info.num_memslots
  slots :
      (h j : ℕ)
      → h < info.num_memslots_groups
      → j < info.num_memslots
      → slot_at info' h j ≡ update (slot_at info) op h j

step-Refines :
    (info info' : MemSlotInfo) (op : Op)
    → IsShaped info
    → step info op ≡ some info'
    → Refines info info' op
unfolding step update
step-Refines info info' (add g i s) v e = record {
  shaped = ground (arith, set_slot-IsShaped info g i s v);
  same_groups = ground arith;
  same_slots = ground arith;
  slots = λ h j p q. ground (arith, slot_at-set_slot info g i h j s v);
}
step-Refines info info' (del g i) v e =
    let s : MemSlot = record (slot_at info g i) { virt_start_addr = 0; virt_end_addr = 0 } in
    record {
      shaped = ground (arith, set_slot-IsShaped info g i s v);
      same_groups = ground arith;
      same_slots = ground arith;
      slots = λ h j p q. ground (arith, slot_at-set_slot info g i h j s v);
    }
step-Refines info info' reset v e =
    let m = info.num_memslots_groups in
    let n = info.num_memslots in
    let k = reset_groups-IsShaped m n info.mem_slots v.groups in
    record {
      shaped = ground (arith, k);
      same_groups = ground arith;
      same_slots = ground arith;
      slots = λ h j p q. ground (arith, get_or-reset_groups m n info.mem_slots h j v.groups);
    }

-- A history of operations; `none` where an assertion stops it.
unfoldable pub run : MemSlotInfo → List Op → Option MemSlotInfo
unfolding step
run info [] = some info
run info (op ∷ ops) = elim (step info op) [ none ↦ none | some next ↦ run next ops ]

unfoldable pub run_map : (ℕ → ℕ → MemSlot) → List Op → ℕ → ℕ → MemSlot
run_map t [] = t
run_map t (op ∷ ops) = run_map (update t op) ops

update-agrees :
    (t u : ℕ → ℕ → MemSlot) (op : Op) (h j : ℕ) → t h j ≡ u h j → update t op h j ≡ update u op h j
unfolding update
update-agrees t u (add g i s) h j e = ground arith
update-agrees t u (del g i) h j e = ground arith
update-agrees t u reset h j e = refl

run_map-agrees :
    (t u : ℕ → ℕ → MemSlot) (ops : List Op) (h j : ℕ)
    → t h j ≡ u h j
    → run_map t ops h j ≡ run_map u ops h j
unfolding run_map
run_map-agrees t u [] h j e = e
run_map-agrees t u (op ∷ ops) h j e =
    run_map-agrees (update t op) (update u op) ops h j (update-agrees t u op h j e)

-- After any history that no assertion stops, each slot of a table of the right shape holds what
-- the same history makes of the map of its slots, and the table has its shape.
pub run_refines :
    (info info' : MemSlotInfo) (ops : List Op) (h j : ℕ)
    → IsShaped info
    → run info ops ≡ some info'
    → h < info.num_memslots_groups
    → j < info.num_memslots
    → IsShaped info' × (slot_at info' h j ≡ run_map (slot_at info) ops h j)
unfolding run run_map
run_refines info info' [] h j v e p q = ground (arith)
run_refines info info' (op ∷ ops) h j v e p q = elim (Option-cases (step info op)) [
  | inl stuck ↦ absurd (ground arith)
  | inr (next, went) ↦
      let r = step-Refines info next op v went in
      let ih =
        run_refines next info' ops h j r.shaped (ground arith) (omega (arith, r.same_groups))
          (omega (arith, r.same_slots)) in
      (
        ih.0,
        ih.1 ∙ run_map-agrees (slot_at next) (update (slot_at info) op) ops h j (r.slots h j p q),
      )
]

-- What a successful registration does.
pub info_add_slot_lem :
    (info info' : MemSlotInfo) (g i delta start end gen : ℕ)
    → IsShaped info
    → info_add_slot info g i delta start end gen ≡ some info'
    → let s : MemSlot = record {
      generation = gen;
      virt_start_addr = start;
      virt_end_addr = end;
      address_delta = delta;
    } in
      (g < info.num_memslots_groups)
      × (i < info.num_memslots)
      × (info' ≡ record info { mem_slots = set_slot info g i s })
      × (slot_at (record info { mem_slots = set_slot info g i s }) g i ≡ s)
unfolding info_add_slot
info_add_slot_lem info info' g i delta start end gen v e =
    let s : MemSlot = record {
      generation = gen;
      virt_start_addr = start;
      virt_end_addr = end;
      address_delta = delta;
    } in
    (ground arith, ground arith, ground arith, ground (arith, slot_at-set_slot info g i g i s v))

-- The range of a deleted slot is empty.
pub info_del_slot_lem :
    (info : MemSlotInfo) (g i : ℕ)
    → IsShaped info
    → g < info.num_memslots_groups
    → i < info.num_memslots
    → (slot_at (info_del_slot info g i) g i).virt_end_addr ≡ 0
unfolding info_del_slot
info_del_slot_lem info g i v p q =
    let s : MemSlot = record (slot_at info g i) { virt_start_addr = 0; virt_end_addr = 0 } in
    ground (arith, slot_at-set_slot info g i g i s v)

pub get_id-info_del_slot :
    (info : MemSlotInfo) (g i addr : ℕ) → get_id (info_del_slot info g i) addr ≡ get_id info addr
unfolding info_del_slot get_id
get_id-info_del_slot info g i addr = ground arith
