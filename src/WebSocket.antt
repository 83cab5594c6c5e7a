-- ===== src/WebSocket.antt =====
-- server/websocket.c: the headers of frames, as they are written and read. Bytes are numbers; a mask of
-- one bit is `has_bit`, and a mask of the low bits a remainder.
use spice.Prelude.{
  ℕ, zero, suc, ◌+◌, ◌-◌, ◌*◌, ◌/◌, ◌%◌, ◌^◌, Bool, true, false, not, ◌&&◌, ◌||◌, Option, none,
  some, List, [], ◌∷◌, ◌++◌, ltb, leb, ◌==◌, if◌then◌else◌, length, take, drop, get_or,
}
pub mod RoundTrip
mod Tests

-- The mask of bit `k`.
abbrev pub has_bit : ℕ → ℕ → Bool
has_bit k n = (n / 2 ^ k) % 2 == 1

abbrev pub length_16bit : ℕ
length_16bit = 126

abbrev pub length_64bit : ℕ
length_64bit = 127

-- `websocket_frame_t`, with the bytes of the header that have come.
pub record Frame : Type 0 where
  pub frame_type : ℕ
  pub fin : Bool
  pub unfinished : ℕ
  pub header : List ℕ
  pub frame_ready : Bool
  pub masked : Bool
  pub mask : List ℕ
  pub relayed : ℕ
  pub expected_len : ℕ

-- The bytes of a number, high ones first, as the loop of `fill_header` fills them in.
unfoldable pub high_first : ℕ → ℕ → List ℕ
high_first zero n = []
high_first (suc k) n = high_first k (n / 256) ++ ((n % 256) ∷ [])

-- The loop of `extract_length`, in 64 bits.
unfoldable pub join_bytes : ℕ → List ℕ → ℕ
join_bytes n [] = n
join_bytes n (b ∷ bs) = join_bytes ((n * 256 + b) % 2 ^ 64) bs

-- `extract_length`, with the number of bytes that it used.
unfoldable pub extract_length : List ℕ → ℕ × ℕ
extract_length bs =
    let n = get_or bs 0 0 % 2 ^ 7 in
    if n == length_64bit
    then (join_bytes 0 (take 8 (drop 1 bs)), 9)
    else if n == length_16bit
    then (get_or bs 1 0 * 256 + get_or bs 2 0, 3)
    else (n, 1)

-- How many bytes the length in the second byte takes.
abbrev pub length_bytes : ℕ → ℕ
length_bytes b = if b % 2 ^ 7 == length_64bit then 8 else if b % 2 ^ 7 == length_16bit then 2 else 0

-- An `int`, of small numbers: `pos n` is n, and `negsuc n` is -(n + 1).
pub data ℤ : Type 0 where
  pos negsuc : ℕ → ℤ

abbrev pub sub_ℕ : ℕ → ℕ → ℤ
sub_ℕ a b = if leb b a then pos (a - b) else negsuc (b - a - 1)

abbrev pub is_positive : ℤ → Bool
is_positive (pos n) = ltb 0 n
is_positive (negsuc n) = false

-- `frame_bytes_needed`: below zero if there are more bytes than needed.
unfoldable pub frame_bytes_needed : List ℕ → ℤ
frame_bytes_needed h =
    let second = get_or h 1 0 in
    let needed =
      if ltb (length h) 2
      then 2
      else 2 + length_bytes second + (if has_bit 7 second then 4 else 0) in
    sub_ℕ needed (length h)

-- Whether `websocket_get_frame_header` takes the first byte: no reserved bit, no control frame in
-- parts, and a type that there is.
abbrev pub is_known : ℕ → Bool
is_known b = ((b / 2 ^ 4) % 2 ^ 3 == 0) && (has_bit 7 b || not (has_bit 3 b)) && ltb (b % 2 ^ 3) 3

-- The type of a data frame, and the type that stays unfinished behind it.
abbrev pub assemble : Bool → ℕ → ℕ → Option (ℕ × ℕ)
assemble fin t unfinished =
    if t == 0
    then (if unfinished == 0 then none else some (unfinished, if fin then 0 else unfinished))
    else if unfinished == 0
    then some (t, if fin then 0 else t)
    else none

-- The end of `websocket_get_frame_header`.
abbrev pub finish_header : Frame → Bool → Option (ℕ × ℕ) → Option Frame
finish_header f control none = none
finish_header f control (some (t, u)) =
    let len = extract_length (drop 1 f.header) in
    let second = get_or f.header 1 0 in
    if control && leb length_16bit len.0
    then none
    else some (record f {
      frame_type = t;
      fin = has_bit 7 (get_or f.header 0 0);
      unfinished = u;
      masked = has_bit 7 second;
      mask = if has_bit 7 second then take 4 (drop (1 + len.1) f.header) else f.mask;
      expected_len = len.0;
      relayed = 0;
      frame_ready = true;
    })

-- `websocket_get_frame_header`; `none` is its error.
unfoldable pub websocket_get_frame_header : Frame → Option Frame
websocket_get_frame_header f =
    let first = get_or f.header 0 0 in
    let t = first % 2 ^ 4 in
    let control = has_bit 3 first in
    if is_positive (frame_bytes_needed f.header)
    then some f
    else if not (is_known first)
    then none
    else finish_header f control
        (if control then some (t, f.unfinished) else assemble (has_bit 7 first) t f.unfinished)

-- `fill_header`, for a type that has no other bits than those of the flag and the type.
unfoldable pub fill_header : ℕ → ℕ → List ℕ
fill_header len t =
    if ltb 65535 len
    then t ∷ length_64bit ∷ high_first 8 len
    else if leb length_16bit len
    then t ∷ length_16bit ∷ (len / 256) ∷ (len % 256) ∷ []
    else t ∷ len ∷ []

-- A frame that is cleared, as `websocket_clear_frame` leaves it.
abbrev pub websocket_clear_frame : Frame → Frame
websocket_clear_frame f = record {
  frame_type = 0;
  fin = false;
  unfinished = f.unfinished;
  header = [];
  frame_ready = false;
  masked = false;
  mask = [];
  relayed = 0;
  expected_len = 0;
}
