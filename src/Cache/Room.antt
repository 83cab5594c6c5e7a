-- ===== src/Cache/Room.antt =====
-- Room is made for an item by dropping those used least recently.
use spice.Prelude.{
  ℕ, zero, suc, ◌+◌, ◌<◌, ◌^◌, ◌≡◌, refl, sym, ap, subst, ◌∙◌, Bool, true, false, not, some, List,
  [], ◌∷◌, map, ltb, inl, inr, arith, Bool-cases, length, ◌>>=◌,
}
use spice.Cache.{CacheItem, Cache, without, make_room, evict_tail, u64, is_negative, take_off}
use spice.Cache.Recency.{Recent, total, Entry, trim, entry_of}
use spice.Cache.Chains.{In, here, Distinct, In-without}
use spice.Cache.Lru.{IsConsistent, removed, remove-IsConsistent, without_head}

-- The view of a cache with another room.
abbrev pub view : ℕ → Cache → Recent
view room c = record { entries = map entry_of c.lru; room = room; dropped = c.invalidated }

-- What making room leaves: the field is less by `size` than the room, in 64 bits.
pub record Roomy (c c' : Cache) (room size : ℕ) (b : Bool) : Type 0 where
  pub left : ℕ
  pub consistent : IsConsistent c'
  pub owed : c'.available ≡ take_off left size
  pub trimmed : view left c' ≡ trim size (map entry_of c.lru) room c.invalidated
  pub enough : b ≡ not (ltb left size)
  pub were : (y : CacheItem) → In y c'.lru → In y c.lru

-- The field is negative just when the room is less than `size`.
is_negative-take_off :
    (room size : ℕ)
    → room < 2 ^ 63
    → size < 2 ^ 63
    → is_negative (take_off room size) ≡ ltb room size
is_negative-take_off room size h k = ground arith

take_off-add :
    (room size more : ℕ)
    → size < 2 ^ 63
    → u64 (take_off room size + more) ≡ take_off (room + more) size
take_off-add room size more k = omega arith

make_room-step :
    (fuel : ℕ) (c : Cache)
    → is_negative c.available ≡ true
    → make_room (suc fuel) c ≡ evict_tail (make_room fuel) c.lru c
unfolding make_room
make_room-step fuel c s = rw s refl

make_room-stops :
    (fuel : ℕ) (c : Cache)
    → is_negative c.available ≡ false
    → make_room (suc fuel) c ≡ some (c, true)
unfolding make_room
make_room-stops fuel c s = rw s refl

trim-step :
    (size : ℕ) (e : Entry) (es : List Entry) (room : ℕ) (dropped : List ℕ)
    → ltb room size ≡ true
    → trim size (e ∷ es) room dropped ≡ trim size es (room + e.size) (e.id ∷ dropped)
trim-step size e es room dropped s = rw s refl

trim-stops :
    (size : ℕ) (es : List Entry) (room : ℕ) (dropped : List ℕ)
    → ltb room size ≡ false
    → trim size es room dropped ≡ record { entries = es; room = room; dropped = dropped }
trim-stops size [] room dropped s = refl
trim-stops size (e ∷ es) room dropped s = rw s refl

-- There is room.
stops-Roomy :
    (fuel room size : ℕ) (c : Cache)
    → IsConsistent c
    → c.available ≡ take_off room size
    → is_negative c.available ≡ false
    → ltb room size ≡ false
    → (c' : Cache) × (b : Bool) × (make_room (suc fuel) c ≡ some (c', b)) × Roomy c c' room size b
stops-Roomy fuel room size c q owed n s = (
  c,
  true,
  make_room-stops fuel c n,
  record {
    left = room;
    consistent = q;
    owed = owed;
    trimmed = sym (trim-stops size (map entry_of c.lru) room c.invalidated s);
    enough = rw s refl;
    were = λ y i. i;
  },
)

pub make_room-Roomy :
    (fuel room size : ℕ) (xs : List CacheItem) (c : Cache)
    → IsConsistent c
    → c.lru ≡ xs
    → length xs < fuel
    → size < 2 ^ 63
    → total (map entry_of xs) + room < 2 ^ 63
    → c.available ≡ take_off room size
    → (c' : Cache) × (b : Bool) × (make_room fuel c ≡ some (c', b)) × Roomy c c' room size b
make_room-Roomy zero room size xs c q e h small fits owed = absurd (omega (arith, h))
make_room-Roomy (suc fuel) room size [] c q e h small fits owed =
    let sign = ap is_negative owed ∙ is_negative-take_off room size (omega (arith, fits)) small in
    elim (Bool-cases (ltb room size)) [
      | inr s ↦ stops-Roomy fuel room size c q owed (sign ∙ s) s
      | inl s ↦ (
        c,
        false,
        make_room-step fuel c (sign ∙ s) ∙ ap (λ z. evict_tail (make_room fuel) z c) e,
        record {
          left = room;
          consistent = q;
          owed = owed;
          trimmed = rw e refl;
          enough = rw s refl;
          were = λ y i. i;
        },
      )
    ]
make_room-Roomy (suc fuel) room size (x ∷ xs) c q e h small fits owed =
    let sign = ap is_negative owed ∙ is_negative-take_off room size (omega (arith, fits)) small in
    elim (Bool-cases (ltb room size)) [
      | inr s ↦ stops-Roomy fuel room size c q owed (sign ∙ s) s
      | inl s ↦
          let i : In x c.lru = subst (λ z. In x z) (sym e) here in
          let (ys, gone, q1) = remove-IsConsistent c q x i in
          let c1 = removed c q x ys in
          let left : c1.lru ≡ xs =
            ap (without x.address) e
            ∙ without_head x xs (subst (Distinct (λ z. z.address)) e q.addresses) in
          let (c', b, ran, r) =
            make_room-Roomy fuel (room + x.size) size xs c1 q1 left (omega (arith, h)) small
              (omega (arith, fits))
              (ap (λ z. u64 (z + x.size)) owed ∙ take_off-add room size x.size small) in
          (
            c',
            b,
            make_room-step fuel c (sign ∙ s)
                ∙ ap (λ z. evict_tail (make_room fuel) z c) e
                ∙ ap (λ o. o >>= make_room fuel) gone
                ∙ ran,
            record {
              left = r.left;
              consistent = r.consistent;
              owed = r.owed;
              trimmed =
                  r.trimmed
                  ∙ ap (λ z. trim size (map entry_of z) (room + x.size) (x.id ∷ c.invalidated)) left
                  ∙ sym (
                      ap (λ z. trim size (map entry_of z) room c.invalidated) e
                      ∙ trim-step size (entry_of x) (map entry_of xs) room c.invalidated s);
              enough = r.enough;
              were = λ y j. (In-without x.address c.lru y (r.were y j)).0;
            },
          )
    ]
