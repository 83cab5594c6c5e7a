-- ===== src/Dispatcher/Tests.antt =====
-- A run of a dispatcher, and instances of the theorems on it.
use spice.Prelude.{
  ◌≡◌, refl, ap, Bool, true, false, List, [], ◌∷◌, ◌++◌, ◌==◌, get_or, if◌then◌else◌, arith,
}
use spice.Dispatcher.{
  Packet, Layout, awaiting, at_header, Dispatch, new_dispatch, locks, writes, reads_header,
  reads_payload, handles, writes_ack, Steps, here, next,
}
use spice.Dispatcher.Ordering.{IsLayout}
use spice.Dispatcher.Acks.{Steps-ordered, ack-handled}

-- A number for each field.
abbrev four_numbers : Layout
four_numbers = record {
  header_size = 4;
  encode = λ m. m.handler ∷ m.size ∷ m.message_type ∷ (if m.ack then 1 else 0) ∷ [];
  decode = λ bs. record {
    handler = get_or bs 0 0;
    size = get_or bs 1 0;
    message_type = get_or bs 2 0;
    ack = get_or bs 3 0 == 1;
  };
}

flag_read : (b : Bool) → ((if b then 1 else 0) == 1) ≡ b
flag_read true = refl
flag_read false = refl

four_numbers-IsLayout : IsLayout four_numbers
four_numbers-IsLayout = record {
  nonempty = omega arith;
  encode_size = λ m. refl;
  decode_encode = λ m.
      ap
        (λ b. record { handler = m.handler; size = m.size; message_type = m.message_type; ack = b })
        (flag_read m.ack);
}

abbrev wakeup : Packet
wakeup = record {
  message = record { handler = 1; size = 2; message_type = 0; ack = true };
  payload = 7 ∷ 8 ∷ [];
}

abbrev acked : Dispatch
acked = record {
  sender = awaiting wakeup;
  receiver = at_header [];
  wire = [];
  acks = 1;
  sent = wakeup ∷ [];
  handled = wakeup ∷ [];
}

-- The message is written in two parts, read in three, handled and acknowledged.
acked-Steps : Steps four_numbers new_dispatch acked
acked-Steps =
    next _ _ _
      (next _ _ _
        (next _ _ _
          (next _ _ _
            (next _ _ _
              (next _ _ _
                (next _ _ _ (next _ _ _ (here new_dispatch) (locks new_dispatch wakeup refl refl))
                  (writes _ wakeup (1 ∷ 2 ∷ []) (0 ∷ 1 ∷ 7 ∷ 8 ∷ []) refl))
                (reads_header _ [] (1 ∷ 2 ∷ []) [] refl refl (omega arith)))
              (writes _ wakeup (0 ∷ 1 ∷ 7 ∷ 8 ∷ []) [] refl))
            (reads_header _ (1 ∷ 2 ∷ []) (0 ∷ 1 ∷ []) (7 ∷ 8 ∷ []) refl refl (omega arith)))
          (reads_payload _ wakeup.message [] (7 ∷ 8 ∷ []) [] refl refl (omega arith)))
        (handles _ wakeup.message (7 ∷ 8 ∷ []) refl refl))
      (writes_ack _ refl)

Steps-ordered_example : (flying : List Packet) × (acked.sent ≡ acked.handled ++ flying)
Steps-ordered_example = Steps-ordered four_numbers four_numbers-IsLayout acked acked-Steps

ack-handled_example : acked.handled ≡ acked.sent
ack-handled_example =
    ack-handled four_numbers four_numbers-IsLayout acked wakeup acked-Steps refl (omega arith)
