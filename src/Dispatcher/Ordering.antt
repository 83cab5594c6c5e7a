-- ===== src/Dispatcher/Ordering.antt =====
-- Messages are handled in the order in which they are sent.
use spice.Prelude.{
  ℕ, ◌<◌, ◌≡◌, refl, sym, ap, subst, ◌∙◌, List, [], ◌∷◌, ◌++◌, length, length-append, append-nil,
  append_assoc, ◌==◌, Bool-cases, inl, inr, arith,
}
use spice.Dispatcher.{
  Message, Packet, Layout, Sender, unlocked, writing, Receiver, at_header, at_payload, acking,
  Dispatch, written, after_write, frame, after_header, after_payload,
}

-- What is relied on of the layout: headers have one size, not zero, and are read back as written.
pub record IsLayout (w : Layout) : Type 0 where
  pub nonempty : 0 < w.header_size
  pub encode_size : (m : Message) → length (w.encode m) ≡ w.header_size
  pub decode_encode : (m : Message) → w.decode (w.encode m) ≡ m

head_eq : {u v : ℕ} {us vs : List ℕ} → u ∷ us ≡ v ∷ vs → u ≡ v
head_eq e = cc

tail_eq : {u v : ℕ} {us vs : List ℕ} → u ∷ us ≡ v ∷ vs → us ≡ vs
tail_eq e = cc

cons_eq : {u v : ℕ} {us vs : List ℕ} → u ≡ v → us ≡ vs → u ∷ us ≡ v ∷ vs
cons_eq e f = cc

packet_eq :
    (p : Packet) (m : Message) (bs : List ℕ)
    → p.message ≡ m
    → p.payload ≡ bs
    → p ≡ record { message = m; payload = bs }
packet_eq p m bs e f = cc

-- Equal lists whose first parts have one length have equal parts.
prefix_eq :
    (us vs xs ys : List ℕ) → length us ≡ length vs → us ++ xs ≡ vs ++ ys → (us ≡ vs) × (xs ≡ ys)
prefix_eq [] [] xs ys n e = (refl, e)
prefix_eq [] (v ∷ vs) xs ys n e = absurd (omega (arith, n))
prefix_eq (u ∷ us) [] xs ys n e = absurd (omega (arith, n))
prefix_eq (u ∷ us) (v ∷ vs) xs ys n e =
    let (f, g) = prefix_eq us vs xs ys (omega (arith, n)) (tail_eq e) in (cons_eq (head_eq e) f, g)

module _ (w : Layout) where
  abbrev pub frames : List Packet → List ℕ
  frames [] = []
  frames (p ∷ ps) = frame w p ++ frames ps

  -- The bytes that the receiver has of a message, and those that the sender has.
  abbrev pub held : Receiver → List ℕ
  held (at_header bs) = bs
  held (at_payload m bs) = w.encode m ++ bs
  held acking = []

  abbrev pub rest : Sender → List ℕ
  rest (writing p bs) = bs
  rest _ = []

  unfoldable pub AllSized : List Packet → Type 0
  AllSized [] = Unit {0}
  AllSized (p ∷ ps) = (length p.payload ≡ p.message.size) × AllSized ps

  -- `flying` are the messages begun and not yet handled.
  pub record IsOrdered (s : Dispatch) (flying : List Packet) : Type 0 where
    pub order : s.sent ≡ s.handled ++ flying
    pub sized : AllSized flying
    pub bytes : held s.receiver ++ (s.wire ++ rest s.sender) ≡ frames flying

  frames-snoc : (ps : List Packet) (p : Packet) → frames (ps ++ (p ∷ [])) ≡ frames ps ++ frame w p
  frames-snoc [] p = append-nil (frame w p)
  frames-snoc (q ∷ ps) p =
      ap (λ z. frame w q ++ z) (frames-snoc ps p)
      ∙ sym (append_assoc (frame w q) (frames ps) (frame w p))

  sized-snoc :
      (ps : List Packet) (p : Packet)
      → AllSized ps
      → length p.payload ≡ p.message.size
      → AllSized (ps ++ (p ∷ []))
  unfolding AllSized
  sized-snoc [] p a h = (h, tt)
  sized-snoc (q ∷ ps) p a h = (a.0, sized-snoc ps p a.1 h)

  sized-head :
      (p : Packet) (ps : List Packet) → AllSized (p ∷ ps) → length p.payload ≡ p.message.size
  unfolding AllSized
  sized-head p ps a = a.0

  sized-tail : (p : Packet) (ps : List Packet) → AllSized (p ∷ ps) → AllSized ps
  unfolding AllSized
  sized-tail p ps a = a.1

  rest-written : (p : Packet) → rest (written p) ≡ []
  rest-written p = elim (Bool-cases p.message.ack) [ inl e ↦ rw e refl | inr e ↦ rw e refl ]

  rest-after : (p : Packet) (bs : List ℕ) → rest (after_write p bs) ≡ bs
  rest-after p [] = rest-written p
  rest-after p (b ∷ bs) = refl

  pub locks-IsOrdered :
      (s : Dispatch) (p : Packet) (ps : List Packet)
      → s.sender ≡ unlocked
      → length p.payload ≡ p.message.size
      → IsOrdered s ps
      → IsOrdered
          (record s { sender = writing p (frame w p); sent = s.sent ++ (p ∷ []) })
          (ps ++ (p ∷ []))
  locks-IsOrdered s p ps e h o = record {
    order = ap (λ z. z ++ (p ∷ [])) o.order ∙ append_assoc s.handled ps (p ∷ []);
    sized = sized-snoc ps p o.sized h;
    bytes =
        ap (λ z. held s.receiver ++ z) (sym (append_assoc s.wire [] (frame w p)))
        ∙ sym (append_assoc (held s.receiver) (s.wire ++ []) (frame w p))
        ∙ ap (λ z. (held s.receiver ++ (s.wire ++ rest z)) ++ frame w p) (sym e)
        ∙ ap (λ z. z ++ frame w p) o.bytes
        ∙ sym (frames-snoc ps p);
  }

  pub writes-IsOrdered :
      (s : Dispatch) (p : Packet) (bs cs : List ℕ) (ps : List Packet)
      → s.sender ≡ writing p (bs ++ cs)
      → IsOrdered s ps
      → IsOrdered (record s { sender = after_write p cs; wire = s.wire ++ bs }) ps
  writes-IsOrdered s p bs cs ps e o = record {
    order = o.order;
    sized = o.sized;
    bytes =
        ap (λ z. held s.receiver ++ ((s.wire ++ bs) ++ z)) (rest-after p cs)
        ∙ ap (λ z. held s.receiver ++ z) (append_assoc s.wire bs cs)
        ∙ ap (λ z. held s.receiver ++ (s.wire ++ rest z)) (sym e)
        ∙ o.bytes;
  }

  module _ (a : IsLayout w) where
    -- A whole header is that of the first message that flies.
    first_header :
        (bs cs : List ℕ) (ps : List Packet)
        → length bs ≡ w.header_size
        → bs ++ cs ≡ frames ps
        → (p : Packet) × (qs : List Packet) × (ps ≡ p ∷ qs)
          × (bs ≡ w.encode p.message)
          × (cs ≡ p.payload ++ frames qs)
    first_header bs cs [] h e =
        absurd (omega (arith, h, a.nonempty, length-append bs cs, ap length e))
    first_header bs cs (p ∷ qs) h e =
        let (f, g) =
          prefix_eq bs (w.encode p.message) cs (p.payload ++ frames qs)
            (h ∙ sym (a.encode_size p.message))
            (e ∙ append_assoc (w.encode p.message) p.payload (frames qs)) in
        (p, qs, refl, f, g)

    held-after :
        (bs cs : List ℕ) (ps : List Packet) → bs ++ cs ≡ frames ps → held (after_header w bs) ≡ bs
    held-after bs cs ps e = elim (Bool-cases (length bs == w.header_size)) [
      | inr h ↦ rw h refl
      | inl h ↦
          let (p, qs, _, f, _) = first_header bs cs ps (ground (arith, h)) e in
          rw h (
            append-nil (w.encode (w.decode bs))
            ∙ ap (λ z. w.encode (w.decode z)) f
            ∙ ap w.encode (a.decode_encode p.message)
            ∙ sym f)
    ]

    pub reads_header-IsOrdered :
        (s : Dispatch) (got bs cs : List ℕ) (ps : List Packet)
        → s.receiver ≡ at_header got
        → s.wire ≡ bs ++ cs
        → IsOrdered s ps
        → IsOrdered (record s { receiver = after_header w (got ++ bs); wire = cs }) ps
    reads_header-IsOrdered s got bs cs ps e f o =
        let all : (got ++ bs) ++ (cs ++ rest s.sender) ≡ frames ps =
          append_assoc got bs (cs ++ rest s.sender)
          ∙ ap (λ z. got ++ z) (sym (append_assoc bs cs (rest s.sender)))
          ∙ ap (λ z. got ++ (z ++ rest s.sender)) (sym f)
          ∙ ap (λ z. held z ++ (s.wire ++ rest s.sender)) (sym e)
          ∙ o.bytes in
        record {
          order = o.order;
          sized = o.sized;
          bytes =
              ap (λ z. z ++ (cs ++ rest s.sender))
                (held-after (got ++ bs) (cs ++ rest s.sender) ps all)
              ∙ all;
        }

    pub reads_payload-IsOrdered :
        (s : Dispatch) (m : Message) (got bs cs : List ℕ) (ps : List Packet)
        → s.receiver ≡ at_payload m got
        → s.wire ≡ bs ++ cs
        → IsOrdered s ps
        → IsOrdered (record s { receiver = at_payload m (got ++ bs); wire = cs }) ps
    reads_payload-IsOrdered s m got bs cs ps e f o = record {
      order = o.order;
      sized = o.sized;
      bytes =
          ap (λ z. z ++ (cs ++ rest s.sender)) (sym (append_assoc (w.encode m) got bs))
          ∙ append_assoc (w.encode m ++ got) bs (cs ++ rest s.sender)
          ∙ ap (λ z. (w.encode m ++ got) ++ z) (sym (append_assoc bs cs (rest s.sender)))
          ∙ ap (λ z. (w.encode m ++ got) ++ (z ++ rest s.sender)) (sym f)
          ∙ ap (λ z. held z ++ (s.wire ++ rest s.sender)) (sym e)
          ∙ o.bytes;
    }

    held-done : (m : Message) → held (after_payload w m) ≡ []
    held-done m = elim (Bool-cases m.ack) [ inl e ↦ rw e refl | inr e ↦ rw e refl ]

    -- The payload that was read is that of the first message that flies.
    pub handles-IsOrdered :
        (s : Dispatch) (m : Message) (got : List ℕ) (ps : List Packet)
        → s.receiver ≡ at_payload m got
        → length got ≡ m.size
        → IsOrdered s ps
        → (qs : List Packet) × (ps ≡ record { message = m; payload = got } ∷ qs)
          × IsOrdered
              (record s {
                receiver = after_payload w m;
                handled = s.handled ++ (record { message = m; payload = got } ∷ []);
              })
              qs
    handles-IsOrdered s m got ps e h o =
        let x : List ℕ = s.wire ++ rest s.sender in
        let all : w.encode m ++ (got ++ x) ≡ frames ps =
          sym (append_assoc (w.encode m) got x) ∙ ap (λ z. held z ++ x) (sym e) ∙ o.bytes in
        let (p, qs, first, f, g) = first_header (w.encode m) (got ++ x) ps (a.encode_size m) all in
        let m_is : m ≡ p.message =
          sym (a.decode_encode m) ∙ ap w.decode f ∙ a.decode_encode p.message in
        let sizes = subst AllSized first o.sized in
        let (k, l) =
          prefix_eq got p.payload x (frames qs)
            (h ∙ ap (λ z. z.size) m_is ∙ sym (sized-head p qs sizes)) g in
        let p_is : p ≡ record { message = m; payload = got } =
          packet_eq p m got (sym m_is) (sym k) in
        let ps_is : ps ≡ record { message = m; payload = got } ∷ qs =
          first ∙ ap (λ z. z ∷ qs) p_is in
        (
          qs,
          ps_is,
          record {
            order =
                o.order
                ∙ ap (λ z. s.handled ++ z) ps_is
                ∙ sym (append_assoc s.handled (record { message = m; payload = got } ∷ []) qs);
            sized = sized-tail p qs sizes;
            bytes = ap (λ z. z ++ x) (held-done m) ∙ l;
          },
        )
