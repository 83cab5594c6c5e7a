-- ===== src/ChannelClient/Framing.antt =====
-- Reading message by message as the socket has data is the same as cutting the whole stream.
use spice.Prelude.{
  ℕ, zero, suc, ◌-◌, ◌≤◌, ◌<◌, ◌≡◌, ◌⊎◌, refl, sym, ap, ◌∙◌, inl, inr, true, false, not, ◌&&◌, ◌||◌,
  Option, some, List, [], ◌∷◌, ◌++◌, ltb, ◌==◌, if◌then◌else◌, length, take, drop, length-append,
  append-nil, append_assoc, take-append-drop, length-take, length-drop, Bool-cases, some_inj, arith,
}
use spice.ChannelClient.Incoming.{
  Answer, bytes, interrupted, broken, Methods, Reader, peer_receive, prepend, Round, leave, go_on,
  fault, read_header, read_message, process_message, round, header_arrived, message_arrived,
  then_round,
}

-- The bytes of the answers.
abbrev pub joined : List Answer → List ℕ
joined [] = []
joined (bytes c ∷ ans) = c ++ joined ans
joined (_ ∷ ans) = joined ans

-- No end of the stream, and no error.
abbrev pub AllGood : List Answer → Type 0
AllGood [] = Unit {0}
AllGood (bytes c ∷ ans) = (0 < length c) × AllGood ans
AllGood (interrupted ∷ ans) = AllGood ans
AllGood (broken ∷ ans) = ⊥

-- What is read, and what is left: all that is asked for, or all there is.
pub record Received (size : ℕ) (ans : List Answer) (r : Option (List ℕ) × List Answer)
    : Type 0 where
  pub got : List ℕ
  pub result : r.0 ≡ some got
  pub split : joined ans ≡ got ++ joined r.1
  pub good : AllGood r.1
  pub amount : (length got ≡ size) ⊎ ((length got < size) × (joined r.1 ≡ []))

empty_read : (ans : List Answer) → AllGood ans → Received zero ans (some [], ans)
empty_read ans g = record { got = []; result = refl; split = refl; good = g; amount = inl refl }

peer_receive-Received :
    (size : ℕ) (ans : List Answer) → AllGood ans → Received size ans (peer_receive size ans)
unfolding peer_receive
peer_receive-Received zero [] g = empty_read [] g
peer_receive-Received (suc n) [] g = record {
  got = [];
  result = refl;
  split = refl;
  good = g;
  amount = inr (omega arith, refl);
}
peer_receive-Received size (broken ∷ ans) g = absurd g
peer_receive-Received zero (interrupted ∷ ans) g = empty_read (interrupted ∷ ans) g
peer_receive-Received (suc n) (interrupted ∷ ans) g =
    let t = peer_receive-Received (suc n) ans g in
    let more : (suc n == 0) ≡ false = ground arith in
    rw more
      (record { got = t.got; result = t.result; split = t.split; good = t.good; amount = t.amount })
peer_receive-Received zero (bytes c ∷ ans) g = empty_read (bytes c ∷ ans) g
peer_receive-Received (suc n) (bytes c ∷ ans) g =
    let more : (suc n == 0) ≡ false = ground arith in
    let filled : (length c == 0) ≡ false = ground (arith, g.0) in
    let t = peer_receive-Received (suc n - length c) ans g.1 in
    elim (Bool-cases (ltb (suc n) (length c))) [
      | inl long ↦
          rw (more, filled, long)
            (record {
              got = take (suc n) c;
              result = refl;
              split =
                  sym (ap (λ k. k ++ joined ans) (take-append-drop (suc n) c))
                  ∙ append_assoc (take (suc n) c) (drop (suc n) c) (joined ans);
              good = (ground (arith, length-drop (suc n) c, long), g.1);
              amount = inl (ground (arith, length-take (suc n) c, long));
            })
      | inr short ↦
          rw (more, filled, short)
            (record {
              got = c ++ t.got;
              result = ap (prepend c) t.result;
              split =
                  ap (λ k. c ++ k) t.split
                  ∙ sym (append_assoc c t.got (joined (peer_receive (suc n - length c) ans).1));
              good = t.good;
              amount = elim t.amount [
                | inl all ↦ inl (ground (arith, length-append c t.got, all, short))
                | inr (less, none_left) ↦
                    inr (ground (arith, length-append c t.got, less, short), none_left)
              ];
            })
    ]

-- A client that takes every message, as long as it is connected.
pub record Accepts {S : Type 0} (v : Methods S) : Type 0 where
  pub header_pos : 0 < v.header_size
  pub watched : (s : S) → v.has_watch s ≡ true
  pub allocates : (s : S) (t n : ℕ) → v.alloc s t n ≡ true
  pub parsed : ℕ → List ℕ → List ℕ
  pub parses : (t : ℕ) (m : List ℕ) → v.parse t m ≡ some (parsed t m)
  pub handles : (s : S) (t : ℕ) (m : List ℕ) → (v.handle_message s t m).1 ≡ true

module _ {S : Type 0} (v : Methods S) (a : Accepts v) where
  -- A message with its header.
  abbrev pub deliver : S → List ℕ → List ℕ → S
  deliver s h m = (v.handle_message s (v.get_msg_type h) (a.parsed (v.get_msg_type h) m)).0

  -- The whole messages at the start of a stream, one after the other, and what is left of it.
  unfoldable pub cut : ℕ → S → List ℕ → S × List ℕ
  cut zero s bs = (s, bs)
  cut (suc f) s bs =
      let h = take v.header_size bs in
      let n = v.get_msg_size h in
      let body = drop v.header_size bs in
      let rest = cut f (deliver s h (take n body)) (drop n body) in
      if ltb (length bs) v.header_size
      then (s, bs)
      else if ltb (length body) n
      then (s, bs)
      else rest

  -- Between two calls: a part of a header, or a header and less than the whole message.
  pub record IsPartial (r : Reader S) : Type 0 where
    pub stream : r.has_stream ≡ true
    pub fits : length r.header ≤ v.header_size
    pub before : length r.header < v.header_size → r.msg ≡ []
    pub inside : length r.header ≡ v.header_size → length r.msg < v.get_msg_size r.header

  -- What the reader has of the stream.
  abbrev pub held : Reader S → List ℕ
  held r = r.header ++ r.msg

  -- A round that ends the call takes all there is, and that is less than a message.
  pub record Ends (r : Reader S) (ans : List Answer) (r' : Reader S) : Type 0 where
    pub partial' : IsPartial r'
    pub state : r'.state ≡ r.state
    pub all : held r' ≡ held r ++ joined ans

  -- A round that goes on has delivered the first message of the stream.
  pub record Delivers (r : Reader S) (ans : List Answer) (r' : Reader S) (ans' : List Answer)
      : Type 0 where
    pub header : List ℕ
    pub msg : List ℕ
    pub header_len : length header ≡ v.header_size
    pub msg_len : length msg ≡ v.get_msg_size header
    pub state : r'.state ≡ deliver r.state header msg
    pub idle : (r'.header ≡ []) × (r'.msg ≡ []) × (r'.has_stream ≡ true)
    pub split : held r ++ joined ans ≡ header ++ (msg ++ joined ans')
    pub good : AllGood ans'

  abbrev pub Does : Reader S → List Answer → Round v → Type 0
  Does r ans fault = ⊥
  Does r ans (leave r') = Ends r ans r'
  Does r ans (go_on r' ans') = Delivers r ans r' ans'

  abbrev Headed : Reader S → List Answer → Round v → Type 0
  Headed r ans fault = ⊥
  Headed r ans (leave r') = Ends r ans r'
  Headed r ans (go_on r' ans') =
      (length r'.header ≡ v.header_size)
      × (r'.state ≡ r.state)
      × (r'.has_stream ≡ true)
      × AllGood ans'
      × (held r' ++ joined ans' ≡ held r ++ joined ans)
      × ((length r'.msg < v.get_msg_size r'.header)
          ⊎ ((v.get_msg_size r'.header ≡ 0) × (r'.msg ≡ [])))

  header_arrived-Headed :
      (r : Reader S) (ans ans' : List Answer) (got : List ℕ)
      → IsPartial r
      → length r.header < v.header_size
      → Received (v.header_size - length r.header) ans (some got, ans')
      → Headed r ans (header_arrived v r (some got) ans')
  header_arrived-Headed r ans ans' got q part t =
      let same : got ≡ t.got = some_inj t.result in
      let len = length-append r.header got in
      let empty = q.before part in
      let whole : held r ++ joined ans ≡ (r.header ++ got) ++ joined ans' =
        rw (empty, append-nil, t.split, ← same) (sym (append_assoc r.header got (joined ans'))) in
      elim (Bool-cases (ltb (length (r.header ++ got)) v.header_size)) [
        | inl more ↦ rw more (record {
          partial' = record {
            stream = q.stream;
            fits = ground (arith, more);
            before = λ h. empty;
            inside = λ h. absurd (ground (arith, more, h));
          };
          state = refl;
          all =
              let used : joined ans' ≡ [] = elim t.amount [
                | inl full ↦ absurd (ground (arith, more, len, full, ap length same))
                | inr (less, nothing) ↦ nothing
              ] in
              ap (λ m. (r.header ++ got) ++ m) (empty ∙ sym used) ∙ sym whole;
        })
        | inr done ↦ rw done (
          elim t.amount [
            | inl full ↦ omega (arith, len, full, ap length same, part)
            | inr (less, nothing) ↦ absurd (ground (arith, done, len, less, ap length same))
          ],
          refl,
          q.stream,
          t.good,
          ap (λ m. ((r.header ++ got) ++ m) ++ joined ans') empty
              ∙ ap (λ h. h ++ joined ans') (append-nil (r.header ++ got))
              ∙ sym whole,
          elim (Bool-cases (v.get_msg_size (r.header ++ got) == 0)) [
            | inl none_needed ↦ inr (ground (arith, none_needed), empty)
            | inr some_needed ↦ inl (ground (arith, some_needed, ap length empty))
          ],
        )
      ]

  read_header-Headed :
      (r : Reader S) (ans : List Answer)
      → IsPartial r
      → AllGood ans
      → Headed r ans (read_header v r ans)
  unfolding read_header
  read_header-Headed r ans q g =
      let t = peer_receive-Received (v.header_size - length r.header) ans g in
      let w = a.watched r.state in
      elim (Bool-cases (ltb (length r.header) v.header_size)) [
        | inr full ↦
            let e : length r.header ≡ v.header_size = ground (arith, full, q.fits) in
            rw full (e, refl, q.stream, g, refl, inl (q.inside e))
        | inl part ↦
            let less : length r.header < v.header_size = ground (arith, part) in
            rw (part, w, t.result)
              (header_arrived-Headed r ans _ t.got q less (record {
                got = t.got;
                result = refl;
                split = t.split;
                good = t.good;
                amount = t.amount;
              }))
      ]

  message_arrived-Does :
      (r : Reader S) (ans ans' : List Answer) (got : List ℕ)
      → r.has_stream ≡ true
      → length r.header ≡ v.header_size
      → length r.msg < v.get_msg_size r.header
      → Received (v.get_msg_size r.header - length r.msg) ans (some got, ans')
      → Does r ans (then_round v (message_arrived v r (some got) ans') (process_message v))
  unfolding process_message
  message_arrived-Does r ans ans' got stream whole short t =
      let same : got ≡ t.got = some_inj t.result in
      let len = length-append r.msg got in
      let size = v.get_msg_size r.header in
      let split : held r ++ joined ans ≡ r.header ++ ((r.msg ++ got) ++ joined ans') =
        rw (t.split, ← same) (simp append_assoc) in
      elim (Bool-cases (ltb (length (r.msg ++ got)) size)) [
        | inl more ↦ rw more (record {
          partial' = record {
            stream = stream;
            fits = omega (arith, whole);
            before = λ h. absurd (omega (arith, whole, h));
            inside = λ h. ground (arith, more);
          };
          state = refl;
          all =
              let used : joined ans' ≡ [] = elim t.amount [
                | inl full ↦ absurd (ground (arith, more, len, full, ap length same))
                | inr (less, nothing) ↦ nothing
              ] in
              sym (
                split
                ∙ ap (λ b. r.header ++ ((r.msg ++ got) ++ b)) used
                ∙ ap (λ b. r.header ++ b) (append-nil (r.msg ++ got)));
        })
        | inr done ↦
            rw (done, a.parses, a.handles)
              (record {
                header = r.header;
                msg = r.msg ++ got;
                header_len = whole;
                msg_len = elim t.amount [
                  | inl full ↦ omega (arith, len, full, ap length same, short)
                  | inr (less, nothing) ↦ absurd (ground (arith, done, len, less, ap length same))
                ];
                state = refl;
                idle = (refl, refl, stream);
                split = split;
                good = t.good;
              })
      ]

  -- The same stream from another point of the round.
  Does-shift :
      (r r1 : Reader S) (ans ans1 : List Answer) (x : Round v)
      → r1.state ≡ r.state
      → held r1 ++ joined ans1 ≡ held r ++ joined ans
      → Does r1 ans1 x
      → Does r ans x
  Does-shift r r1 ans ans1 fault same all d = d
  Does-shift r r1 ans ans1 (leave r') same all d = record {
    partial' = d.partial';
    state = d.state ∙ same;
    all = d.all ∙ all;
  }
  Does-shift r r1 ans ans1 (go_on r' ans') same all d = record {
    header = d.header;
    msg = d.msg;
    header_len = d.header_len;
    msg_len = d.msg_len;
    state = d.state ∙ ap (λ s. deliver s d.header d.msg) same;
    idle = d.idle;
    split = sym all ∙ d.split;
    good = d.good;
  }

  empty-Does :
      (r : Reader S) (ans : List Answer)
      → r.has_stream ≡ true
      → length r.header ≡ v.header_size
      → v.get_msg_size r.header ≡ 0
      → r.msg ≡ []
      → AllGood ans
      → Does r ans (process_message v r ans)
  unfolding process_message
  empty-Does r ans stream whole none_needed empty g =
      let zero_size : (v.get_msg_size r.header == 0) ≡ true = ground arith in
      let test : not r.has_buffer && not (v.get_msg_size r.header == 0) ≡ false =
        ground (arith, zero_size) in
      rw (test, a.parses, a.handles)
        (record {
          header = r.header;
          msg = r.msg;
          header_len = whole;
          msg_len = omega (arith, ap length empty, none_needed);
          state = refl;
          idle = (refl, refl, stream);
          split = append_assoc r.header r.msg (joined ans);
          good = g;
        })

  message-Does :
      (r r1 : Reader S) (ans ans1 : List Answer)
      → Headed r ans (go_on r1 ans1)
      → Does r ans (then_round v (read_message v r1 ans1) (process_message v))
  unfolding read_message
  message-Does r r1 ans ans1 h =
      Does-shift r r1 ans ans1 (then_round v (read_message v r1 ans1) (process_message v)) h.1 h.4
        (elim h.5 [
          | inr (none_needed, empty) ↦
              let full : ltb (length r1.msg) (v.get_msg_size r1.header) ≡ false =
                ground (arith, none_needed) in
              rw full (empty-Does r1 ans1 h.2 h.0 none_needed empty h.3)
          | inl short ↦
              let part : ltb (length r1.msg) (v.get_msg_size r1.header) ≡ true =
                ground (arith, short) in
              let t = peer_receive-Received (v.get_msg_size r1.header - length r1.msg) ans1 h.3 in
              let granted : r1.has_buffer
                    || v.alloc r1.state (v.get_msg_type r1.header) (v.get_msg_size r1.header)
                  ≡ true =
                ground (
                  arith,
                  a.allocates r1.state (v.get_msg_type r1.header) (v.get_msg_size r1.header),
                ) in
              rw (part, granted, a.watched r1.state, t.result)
                (message_arrived-Does r1 ans1 _ t.got h.2 h.0 short (record {
                  got = t.got;
                  result = refl;
                  split = t.split;
                  good = t.good;
                  amount = t.amount;
                }))
        ])

  Headed-Does :
      (r : Reader S) (ans : List Answer) (x : Round v)
      → Headed r ans x
      → Does r ans (then_round v (then_round v x (read_message v)) (process_message v))
  Headed-Does r ans fault h = h
  Headed-Does r ans (leave r') h = h
  Headed-Does r ans (go_on r1 ans1) h = message-Does r r1 ans ans1 h

  pub round-Does :
      (r : Reader S) (ans : List Answer) → IsPartial r → AllGood ans → Does r ans (round v r ans)
  round-Does r ans q g = Headed-Does r ans (read_header v r ans) (read_header-Headed r ans q g)
