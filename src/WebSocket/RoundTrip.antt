-- ===== src/WebSocket/RoundTrip.antt =====
-- A header that is written is read back.
use spice.Prelude.{
  ℕ, zero, suc, ◌+◌, ◌*◌, ◌/◌, ◌%◌, ◌^◌, ◌<◌, ◌≡◌, refl, ap, ◌∙◌, Bool, true, false, some, List, [],
  ◌∷◌, ◌++◌, ltb, leb, if◌then◌else◌, length, take, drop, get_or, length-append, Bool-cases, inl,
  inr, arith,
}
use native.Mathlib.Nat.{pow-suc}
use spice.WebSocket.{
  pos, Frame, has_bit, high_first, join_bytes, extract_length, frame_bytes_needed, length_bytes,
  is_known, assemble, finish_header, websocket_get_frame_header, fill_header, length_16bit,
  length_64bit,
}

join_bytes-append :
    (n : ℕ) (bs : List ℕ) (b : ℕ)
    → join_bytes n (bs ++ (b ∷ [])) ≡ (join_bytes n bs * 256 + b) % 2 ^ 64
unfolding join_bytes
join_bytes-append n [] b = refl
join_bytes-append n (c ∷ bs) b = join_bytes-append ((n * 256 + c) % 2 ^ 64) bs b

length-high_first : (k n : ℕ) → length (high_first k n) ≡ k
unfolding high_first
length-high_first zero n = refl
length-high_first (suc k) n =
    let l = length-append (high_first k (n / 256)) ((n % 256) ∷ []) in
    let m = length-high_first k (n / 256) in omega (arith, l, m)

join_bytes-high_first : (k n : ℕ) → n < 2 ^ 64 → n < 256 ^ k → join_bytes 0 (high_first k n) ≡ n
unfolding join_bytes high_first
join_bytes-high_first zero n h l = omega (arith, l)
join_bytes-high_first (suc k) n h l =
    let q : n / 256 < 256 ^ k = omega (arith, l, pow-suc 256 k) in
    let r = join_bytes-high_first k (n / 256) (omega (arith, h)) q in
    join_bytes-append 0 (high_first k (n / 256)) (n % 256) ∙ rw r (omega (arith, h))

take-all : (xs : List ℕ) (n : ℕ) → length xs ≡ n → take n xs ≡ xs
take-all [] zero h = refl
take-all [] (suc n) h = refl
take-all (x ∷ xs) zero h = absurd (omega (arith, h))
take-all (x ∷ xs) (suc n) h = ap (λ z. x ∷ z) (take-all xs n (omega (arith, h)))

-- The second byte.
abbrev second_of : ℕ → ℕ
second_of len =
    if ltb 65535 len then length_64bit else if leb length_16bit len then length_16bit else len

fill_header-first : (len t : ℕ) → get_or (fill_header len t) 0 0 ≡ t
unfolding fill_header
fill_header-first len t = ground arith

fill_header-second : (len t : ℕ) → get_or (fill_header len t) 1 0 ≡ second_of len
unfolding fill_header
fill_header-second len t = ground arith

length-fill_header : (len t : ℕ) → length (fill_header len t) ≡ 2 + length_bytes (second_of len)
unfolding fill_header
length-fill_header len t = ground (arith, length-high_first 8 len)

second_of-unmasked : (len : ℕ) → has_bit 7 (second_of len) ≡ false
second_of-unmasked len = ground arith

needed-fill_header : (len t : ℕ) → frame_bytes_needed (fill_header len t) ≡ pos 0
unfolding frame_bytes_needed
needed-fill_header len t =
    let s = fill_header-second len t in
    let l = length-fill_header len t in
    let m = second_of-unmasked len in rw (s, l, m) (ground arith)

extract-fill_header :
    (len t : ℕ) → len < 2 ^ 64 → (extract_length (drop 1 (fill_header len t))).0 ≡ len
unfolding extract_length fill_header
extract-fill_header len t h = elim (Bool-cases (ltb 65535 len)) [
  | inl e ↦
      rw (e, take-all (high_first 8 len) 8 (length-high_first 8 len))
        (join_bytes-high_first 8 len h (omega (arith, h)))
  | inr e ↦ elim (Bool-cases (leb length_16bit len)) [
    | inl k ↦ rw (e, k) (omega arith)
    | inr k ↦ rw (e, k) (ground arith)
  ]
]

-- The first byte of a data frame, text or binary.
abbrev pub data_type : Bool → ℕ
data_type binary = if binary then 2 else 1

abbrev pub first_byte : Bool → Bool → ℕ
first_byte final binary = (if final then 128 else 0) + data_type binary

-- The frame once its header is read.
abbrev pub opened : Bool → Bool → ℕ → Frame → Frame
opened final binary len f = record f {
  frame_type = data_type binary;
  fin = final;
  unfinished = if final then 0 else data_type binary;
  masked = false;
  expected_len = len;
  relayed = 0;
  frame_ready = true;
}

first_byte-known : (final binary : Bool) → is_known (first_byte final binary) ≡ true
first_byte-known true true = refl
first_byte-known true false = refl
first_byte-known false true = refl
first_byte-known false false = refl

first_byte-data : (final binary : Bool) → has_bit 3 (first_byte final binary) ≡ false
first_byte-data true true = refl
first_byte-data true false = refl
first_byte-data false true = refl
first_byte-data false false = refl

first_byte-final : (final binary : Bool) → has_bit 7 (first_byte final binary) ≡ final
first_byte-final true true = refl
first_byte-final true false = refl
first_byte-final false true = refl
first_byte-final false false = refl

first_byte-assembles :
    (final binary : Bool)
    → assemble (has_bit 7 (first_byte final binary)) (first_byte final binary % 2 ^ 4) 0
      ≡ some (data_type binary, if final then 0 else data_type binary)
first_byte-assembles true true = refl
first_byte-assembles true false = refl
first_byte-assembles false true = refl
first_byte-assembles false false = refl

finish-fill_header :
    (final binary : Bool) (len : ℕ) (f : Frame)
    → len < 2 ^ 64
    → f.header ≡ fill_header len (first_byte final binary)
    → finish_header f false (some (data_type binary, if final then 0 else data_type binary))
      ≡ some (opened final binary len f)
finish-fill_header final binary len f h e =
    let b0 : has_bit 7 (get_or f.header 0 0) ≡ final =
      ap (λ z. has_bit 7 (get_or z 0 0)) e
      ∙ ap (has_bit 7) (fill_header-first len (first_byte final binary))
      ∙ first_byte-final final binary in
    let b1 : has_bit 7 (get_or f.header 1 0) ≡ false =
      ap (λ z. has_bit 7 (get_or z 1 0)) e
      ∙ ap (has_bit 7) (fill_header-second len (first_byte final binary))
      ∙ second_of-unmasked len in
    let n : (extract_length (drop 1 f.header)).0 ≡ len =
      ap (λ z. (extract_length (drop 1 z)).0) e
      ∙ extract-fill_header len (first_byte final binary) h in
    rw (b0, b1, n) refl

read-step :
    (f : Frame)
    → frame_bytes_needed f.header ≡ pos 0
    → is_known (get_or f.header 0 0) ≡ true
    → has_bit 3 (get_or f.header 0 0) ≡ false
    → websocket_get_frame_header f
      ≡ finish_header f false
          (assemble (has_bit 7 (get_or f.header 0 0)) (get_or f.header 0 0 % 2 ^ 4) f.unfinished)
unfolding websocket_get_frame_header
read-step f n k d = rw (n, k, d) refl

-- The header that is written for a text or a binary frame, in parts or whole, of any length below
-- 2 ^ 64, is read back by a peer that is in no unfinished frame: nothing is missing and nothing is
-- left over, and the type, the flag and the length are those that were written.
pub header-read :
    (final binary : Bool) (len : ℕ) (f : Frame)
    → len < 2 ^ 64
    → f.unfinished ≡ 0
    → f.header ≡ fill_header len (first_byte final binary)
    → (frame_bytes_needed f.header ≡ pos 0)
      × (websocket_get_frame_header f ≡ some (opened final binary len f))
header-read final binary len f h u e =
    (ap frame_bytes_needed e ∙ needed-fill_header len (first_byte final binary), whole)
  where
    first : get_or f.header 0 0 ≡ first_byte final binary
    first = ap (λ z. get_or z 0 0) e ∙ fill_header-first len (first_byte final binary)

    needed : frame_bytes_needed f.header ≡ pos 0
    needed = ap frame_bytes_needed e ∙ needed-fill_header len (first_byte final binary)

    parts :
        assemble (has_bit 7 (get_or f.header 0 0)) (get_or f.header 0 0 % 2 ^ 4) f.unfinished
        ≡ some (data_type binary, if final then 0 else data_type binary)
    parts =
        ap (λ z. assemble (has_bit 7 z) (z % 2 ^ 4) f.unfinished) first
        ∙ ap (assemble (has_bit 7 (first_byte final binary)) (first_byte final binary % 2 ^ 4)) u
        ∙ first_byte-assembles final binary

    whole : websocket_get_frame_header f ≡ some (opened final binary len f)
    whole =
        read-step f needed (ap is_known first ∙ first_byte-known final binary)
          (ap (has_bit 3) first ∙ first_byte-data final binary)
        ∙ ap (finish_header f false) parts
        ∙ finish-fill_header final binary len f h e
