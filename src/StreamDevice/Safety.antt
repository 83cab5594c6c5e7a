-- ===== src/StreamDevice/Safety.antt =====
-- Reading stays inside the buffers, and ends: the reader as a whole.
use spice.Prelude.{
  ℕ, zero, suc, ◌+◌, ◌≤◌, ◌<◌, ◌≡◌, ◌⊎◌, refl, sym, ap, ◌∙◌, subst, inl, inr, true, false, some,
  List, ltb, not, ◌||◌, length, Bool-cases, arith,
}
use spice.StreamDevice.State.{StreamProtocol, IsStreamProtocol, StreamDevice, Answer}
use spice.StreamDevice.Messages.{Outcome}
use spice.StreamDevice.Reader.{
  read_header_loop, read_message, handle, finish, partial_read, read_one_msg_from_device, discard,
}
use spice.StreamDevice.Bounds.{pending, Handled}
use spice.StreamDevice.Framing.{size_of, IsSound, HeaderRead, handle-runs, read_header_loop-reads}

-- A turn that asks for another one has taken a whole header from the device since the last
-- message, or has found an error.
pub record Turns (p : StreamProtocol) (d : StreamDevice) (ans : List Answer) (o : Outcome)
    : Type 0 where
  pub sound : IsSound p o.0
  pub progress :
      o.2 ≡ true
      → (o.0.has_error ≡ true) ⊎ (pending o.1 + length o.0.hdr < pending ans + length d.hdr)

module _ (p : StreamProtocol) where
  -- The turns of the reader, by what it does in them.
  pub partial_read-discards :
      (now : ℕ) (d : StreamDevice) (ans : List Answer)
      → d.has_error ≡ true
      → partial_read p now d ans ≡ some (record d { close_timer = true }, discard ans, false)
  unfolding partial_read
  partial_read-discards now d ans error = ground arith

  pub partial_read-waits :
      (now : ℕ) (d : StreamDevice) (ans : List Answer)
      → d.has_error ≡ false
      → d.flow_stopped || not d.has_channels ≡ true
      → partial_read p now d ans ≡ some (d, ans, false)
  unfolding partial_read
  partial_read-waits now d ans fine waits = ground arith

  pub partial_read-reads :
      (now : ℕ) (d : StreamDevice) (ans : List Answer)
      → d.has_error ≡ false
      → d.flow_stopped || not d.has_channels ≡ false
      → partial_read p now d ans ≡ read_message p now (read_header_loop p d ans)
  unfolding partial_read
  partial_read-reads now d ans fine runs = ground arith

  pub read_message-whole :
      (now : ℕ) (r o : Outcome)
      → r.2 ≡ true
      → handle p now (p.read_header r.0.hdr) r.0 r.1 ≡ some o
      → read_message p now r ≡ some (finish p o)
  read_message-whole now r o whole ends = rw (whole, ends) refl

  read_message-short :
      (now : ℕ) (r : Outcome) → r.2 ≡ false → read_message p now r ≡ some (r.0, r.1, false)
  read_message-short now r short = rw short refl

module _ (p : StreamProtocol) (v : IsStreamProtocol p) where
  message-Turns :
      (d : StreamDevice) (ans : List Answer) (r o : Outcome)
      → HeaderRead p v d ans r
      → r.2 ≡ true
      → Handled p (size_of p r.0) r.0 r.1 o
      → Turns p d ans (finish p o)
  message-Turns d ans r o t done k =
      let whole = t.complete done in
      let same = ap length k.hdr in
      elim (Bool-cases o.2) [
        | inl handled ↦ rw handled (record {
          sound = record {
            hdr_fits = omega arith;
            room = ground (arith, k.room);
            inside = λ e f. absurd (omega (arith, f, v.header_pos));
          };
          progress = λ e. inr (omega (arith, t.input, k.input, whole, v.header_pos));
        })
        | inr partly ↦ rw partly (record {
          sound = record {
            hdr_fits = omega (arith, same, whole);
            room = k.room;
            inside = λ e f. elim k.inside [
              | inl error ↦ cc
              | inr (short, fits) ↦
                  let size = ap (λ h. (p.read_header h).size) k.hdr in
                  (omega (arith, size, short), λ pos. omega (arith, size, fits))
            ];
          };
          progress = λ e. inl e;
        })
      ]

  -- What is in the message buffer when the message of a header is handled.
  begun :
      {d : StreamDevice} {ans : List Answer} {r : Outcome}
      → d.has_error ≡ false
      → IsSound p d
      → HeaderRead p v d ans r
      → r.2 ≡ true
      → (length r.0.msg ≤ size_of p r.0) × (0 < length r.0.msg → size_of p r.0 ≤ r.0.msg_len)
  begun {d} {ans} {r} fine s t whole = elim (Bool-cases (ltb (length d.hdr) p.header_size)) [
    | inl part ↦
        let empty = ap length (t.message.1 (ground arith) whole) in
        (omega (arith, empty), λ pos. absurd (omega (arith, empty, pos)))
    | inr full ↦
        let e : length d.hdr ≡ p.header_size = ground (arith, s.hdr_fits) in
        subst (λ x. (length x.msg ≤ size_of p x) × (0 < length x.msg → size_of p x ≤ x.msg_len))
          (sym (t.message.0 e)) (s.inside fine e)
  ]

  pub partial_read-Turns :
      (now : ℕ) (d : StreamDevice) (ans : List Answer)
      → IsSound p d
      → (o : Outcome) × (partial_read p now d ans ≡ some o) × Turns p d ans o
  unfolding partial_read
  partial_read-Turns now d ans s =
      let t = read_header_loop-reads p v d ans s.hdr_fits in
      let r = read_header_loop p d ans in
      elim (Bool-cases d.has_error) [
        | inl error ↦ (
          _,
          partial_read-discards p now d ans error,
          record {
            sound = record { hdr_fits = s.hdr_fits; room = s.room; inside = s.inside };
            progress = λ e. cc;
          },
        )
        | inr fine ↦ elim (Bool-cases (d.flow_stopped || not d.has_channels)) [
          | inl waits ↦ (
            _,
            partial_read-waits p now d ans fine waits,
            record { sound = s; progress = λ e. cc },
          )
          | inr runs ↦ elim (Bool-cases r.2) [
            | inr short ↦ (
              (r.0, r.1, false),
              partial_read-reads p now d ans fine runs ∙ read_message-short p now r short,
              record {
                sound = record {
                  hdr_fits = t.fits;
                  room = omega (arith, t.same.0, s.room);
                  inside = λ e f. absurd (omega (arith, f, t.incomplete short));
                };
                progress = λ e. cc;
              },
            )
            | inl whole ↦
                let (short, large) = begun fine s t whole in
                let (o, ends, k) =
                  handle-runs p v now (p.read_header r.0.hdr) r.0 r.1
                    (omega (arith, t.same.0, s.room)) short large in
                (
                  finish p o,
                  partial_read-reads p now d ans fine runs
                      ∙ read_message-whole p now r o whole ends,
                  message-Turns d ans r o t whole k,
                )
          ]
        ]
      ]

  -- After an error the next turn is the last.
  pub error-ends :
      (clock : ℕ → ℕ) (fuel : ℕ) (d : StreamDevice) (ans : List Answer)
      → d.has_error ≡ true
      → 0 < fuel
      → read_one_msg_from_device p clock fuel d ans
        ≡ some (record d { close_timer = true }, discard ans)
  unfolding read_one_msg_from_device
  error-ends clock zero d ans error h = absurd (omega (arith, h))
  error-ends clock (suc fuel) d ans error h =
      rw (partial_read-discards p (clock fuel) d ans error) refl

  -- From sound buffers on, nothing that the device at the other end does makes the reader access
  -- memory outside of its buffers, or loop without end: with a turn for each byte that the device
  -- has ready or the header holds, and two more, the loop ends, and it leaves the buffers sound.
  pub read_one_msg-runs :
      (clock : ℕ → ℕ) (fuel : ℕ) (d : StreamDevice) (ans : List Answer)
      → IsSound p d
      → pending ans + length d.hdr + 2 ≤ fuel
      → (o : StreamDevice × List Answer) × (read_one_msg_from_device p clock fuel d ans ≡ some o)
        × IsSound p o.0
  unfolding read_one_msg_from_device
  read_one_msg-runs clock zero d ans s h = absurd (omega (arith, h))
  read_one_msg-runs clock (suc fuel) d ans s h =
      let (o, ran, t) = partial_read-Turns (clock fuel) d ans s in
      elim (Bool-cases o.2) [
        | inr last ↦ ((o.0, o.1), rw (ran, last) refl, t.sound)
        | inl more ↦ elim (t.progress more) [
          | inl error ↦ (
            (record (o.0) { close_timer = true }, discard o.1),
            rw (ran, more) (error-ends clock fuel o.0 o.1 error (omega (arith, h))),
            record { hdr_fits = t.sound.hdr_fits; room = t.sound.room; inside = t.sound.inside },
          )
          | inr less ↦
              let (q, ends, sound) =
                read_one_msg-runs clock fuel o.0 o.1 t.sound (omega (arith, less, h)) in
              (q, rw (ran, more) ends, sound)
        ]
      ]
