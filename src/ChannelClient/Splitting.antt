-- ===== src/ChannelClient/Splitting.antt =====
-- However the stream is split into reads and calls, the same messages are handled, in order.
use spice.Prelude.{
  ℕ, zero, suc, ◌+◌, ◌≤◌, ◌<◌, ◌≡◌, refl, sym, ap, ◌∙◌, inl, inr, true, false, Option, some, List,
  [], ◌∷◌, ◌++◌, ltb, length, take, drop, length-append, append-nil, append_assoc, length-drop,
  length-take, take-append-drop, Bool-cases, ◌>>=◌, arith,
}
use spice.ChannelClient.Incoming.{
  Answer, Methods, Reader, Round, leave, go_on, fault, round, next_round, incoming_loop,
  handle_incoming,
}
use spice.ChannelClient.Framing.{
  joined, AllGood, Accepts, deliver, cut, IsPartial, held, Does, round-Does,
}

take-append_of_length {ℓ} :
    {A : Type ℓ} (n : ℕ) (xs ys : List A) → length xs ≡ n → take n (xs ++ ys) ≡ xs
take-append_of_length zero [] ys h = refl
take-append_of_length (suc n) [] ys h = cc
take-append_of_length zero (x ∷ xs) ys h = absurd (omega (arith, h))
take-append_of_length (suc n) (x ∷ xs) ys h =
    ap (λ t. x ∷ t) (take-append_of_length n xs ys (omega (arith, h)))

drop-append_of_length {ℓ} :
    {A : Type ℓ} (n : ℕ) (xs ys : List A) → length xs ≡ n → drop n (xs ++ ys) ≡ ys
drop-append_of_length zero [] ys h = refl
drop-append_of_length (suc n) [] ys h = absurd (omega (arith, h))
drop-append_of_length zero (x ∷ xs) ys h = absurd (omega (arith, h))
drop-append_of_length (suc n) (x ∷ xs) ys h = drop-append_of_length n xs ys (omega (arith, h))

module _ {S : Type 0} (v : Methods S) (a : Accepts v) where
  -- All whole messages of a stream.
  abbrev pub cut_all : S → List ℕ → S × List ℕ
  cut_all s bs = cut v a (length bs) s bs

  cut-frame :
      (f : ℕ) (s : S) (h m rest : List ℕ)
      → length h ≡ v.header_size
      → length m ≡ v.get_msg_size h
      → cut v a (suc f) s (h ++ (m ++ rest)) ≡ cut v a f (deliver v a s h m) rest
  unfolding cut
  cut-frame f s h m rest p q =
      let th = take-append_of_length v.header_size h (m ++ rest) p in
      let dh = drop-append_of_length v.header_size h (m ++ rest) p in
      let tm = take-append_of_length (v.get_msg_size h) m rest q in
      let dm = drop-append_of_length (v.get_msg_size h) m rest q in
      let big : ltb (length (h ++ (m ++ rest))) v.header_size ≡ false =
        ground (arith, p, length-append h (m ++ rest)) in
      let full : ltb (length (m ++ rest)) (v.get_msg_size h) ≡ false =
        ground (arith, q, length-append m rest) in
      rw (big, th, dh, full, tm, dm) refl

  cut-partial :
      (f : ℕ) (r : Reader S)
      → IsPartial v a r
      → cut v a f r.state (held v a r) ≡ (r.state, held v a r)
  unfolding cut
  cut-partial zero r q = refl
  cut-partial (suc f) r q = elim (Bool-cases (ltb (length r.header) v.header_size)) [
    | inl part ↦
        let small : ltb (length (r.header ++ r.msg)) v.header_size ≡ true = ground (
          arith,
          part,
          length-append r.header r.msg,
          ap length (q.before (ground (arith, part))),
        ) in
        rw small refl
    | inr full ↦
        let e : length r.header ≡ v.header_size = ground (arith, full, q.fits) in
        let th = take-append_of_length v.header_size r.header r.msg e in
        let dh = drop-append_of_length v.header_size r.header r.msg e in
        let big : ltb (length (r.header ++ r.msg)) v.header_size ≡ false =
          ground (arith, e, length-append r.header r.msg) in
        let short : ltb (length r.msg) (v.get_msg_size r.header) ≡ true =
          ground (arith, q.inside e) in
        rw (big, th, dh, short) refl
  ]

  -- More fuel than bytes makes no difference.
  cut_fuel :
      (f g : ℕ) (s : S) (bs : List ℕ)
      → length bs ≤ f
      → length bs ≤ g
      → cut v a f s bs ≡ cut v a g s bs
  unfolding cut
  cut_fuel zero zero s bs h k = refl
  cut_fuel zero (suc g) s bs h k =
      let small : ltb (length bs) v.header_size ≡ true = ground (arith, a.header_pos) in
      rw small refl
  cut_fuel (suc f) zero s bs h k =
      let small : ltb (length bs) v.header_size ≡ true = ground (arith, a.header_pos) in
      rw small refl
  cut_fuel (suc f) (suc g) s bs h k =
      let hd = take v.header_size bs in
      let n = v.get_msg_size hd in
      let body = drop v.header_size bs in
      let less = length-drop v.header_size bs in
      let less' = length-drop n body in
      let same =
        cut_fuel f g (deliver v a s hd (take n body)) (drop n body)
          (omega (arith, h, less, less', a.header_pos))
          (omega (arith, k, less, less', a.header_pos)) in
      rw same refl

  -- A whole message at the front is handled first.
  cut_all-frame :
      (s : S) (h m rest : List ℕ)
      → length h ≡ v.header_size
      → length m ≡ v.get_msg_size h
      → cut_all s (h ++ (m ++ rest)) ≡ cut_all (deliver v a s h m) rest
  cut_all-frame s h m rest p q =
      let bs = h ++ (m ++ rest) in
      let fewer : length rest ≤ length bs =
        omega (arith, length-append h (m ++ rest), length-append m rest) in
      cut_fuel (length bs) (suc (length bs)) s bs (omega arith) (omega arith)
      ∙ cut-frame (length bs) s h m rest p q
      ∙ cut_fuel (length bs) (length rest) (deliver v a s h m) rest fewer (omega arith)

  -- Less than a message at the front: nothing is handled.
  cut-stop_header :
      (f : ℕ) (s : S) (bs : List ℕ) → length bs < v.header_size → cut v a f s bs ≡ (s, bs)
  unfolding cut
  cut-stop_header zero s bs h = refl
  cut-stop_header (suc f) s bs h =
      let small : ltb (length bs) v.header_size ≡ true = ground (arith, h) in rw small refl

  cut-stop_message :
      (f : ℕ) (s : S) (bs : List ℕ)
      → length (drop v.header_size bs) < v.get_msg_size (take v.header_size bs)
      → cut v a f s bs ≡ (s, bs)
  unfolding cut
  cut-stop_message zero s bs h = refl
  cut-stop_message (suc f) s bs h = elim (Bool-cases (ltb (length bs) v.header_size)) [
    | inl small ↦ rw small refl
    | inr big ↦
        let short : ltb (length (drop v.header_size bs)) (v.get_msg_size (take v.header_size bs))
            ≡ true =
          ground (arith, h) in
        rw (big, short) refl
  ]

  -- A stream that is cut in two parts: what the first part leaves is cut with the second.
  cut-append :
      (f : ℕ) (s : S) (xs ys : List ℕ)
      → length xs ≤ f
      → cut_all s (xs ++ ys) ≡ cut_all (cut v a f s xs).0 ((cut v a f s xs).1 ++ ys)
  cut-append zero s xs ys h =
      let stop = cut-stop_header zero s xs (omega (arith, h, a.header_pos)) in rw stop refl
  cut-append (suc f) s xs ys h =
      let hd = take v.header_size xs in
      let body = drop v.header_size xs in
      let n = v.get_msg_size hd in
      let m = take n body in
      let rest = drop n body in
      elim (Bool-cases (ltb (length xs) v.header_size)) [
        | inl small ↦ rw (cut-stop_header (suc f) s xs (ground (arith, small))) refl
        | inr big ↦ elim (Bool-cases (ltb (length body) n)) [
          | inl short ↦ rw (cut-stop_message (suc f) s xs (ground (arith, short))) refl
          | inr whole ↦
              let hd_len : length hd ≡ v.header_size =
                ground (arith, big, length-take v.header_size xs) in
              let m_len : length m ≡ n = ground (arith, whole, length-take n body) in
              let e : hd ++ (m ++ rest) ≡ xs =
                ap (λ b. hd ++ b) (take-append-drop n body) ∙ take-append-drop v.header_size xs in
              let regroup : hd ++ (m ++ (rest ++ ys)) ≡ xs ++ ys =
                ap (λ b. hd ++ b) (sym (append_assoc m rest ys))
                ∙ sym (append_assoc hd (m ++ rest) ys)
                ∙ ap (λ b. b ++ ys) e in
              let first : cut v a (suc f) s xs ≡ cut v a f (deliver v a s hd m) rest =
                ap (λ b. cut v a (suc f) s b) (sym e) ∙ cut-frame f s hd m rest hd_len m_len in
              let less = length-drop v.header_size xs in
              let less' = length-drop n body in
              let ih =
                cut-append f (deliver v a s hd m) rest ys
                  (omega (arith, h, less, less', a.header_pos)) in
              sym (ap (cut_all s) regroup)
              ∙ cut_all-frame s hd m (rest ++ ys) hd_len m_len
              ∙ ih
              ∙ ap (λ (r : S × List ℕ). cut_all r.0 (r.1 ++ ys)) (sym first)
        ]
      ]

  -- What a call of the loop gives: all of the stream is taken, and its whole messages are handled.
  pub record Cuts (s : S) (bs : List ℕ) (r' : Reader S) : Type 0 where
    pub partial' : IsPartial v a r'
    pub cuts : (r'.state, held v a r') ≡ cut_all s bs

  round-Cuts :
      (again : Reader S → List Answer → Option (Reader S)) (r : Reader S) (ans : List Answer)
      (x : Round v)
      → Does v a r ans x
      → ((r1 : Reader S) (ans1 : List Answer)
          → IsPartial v a r1
          → AllGood ans1
          → length (held v a r1) + length (joined ans1) < length (held v a r) + length (joined ans)
          → (r' : Reader S) × (again r1 ans1 ≡ some r')
            × Cuts r1.state (held v a r1 ++ joined ans1) r')
      → (r' : Reader S) × (next_round v again x ≡ some r')
        × Cuts r.state (held v a r ++ joined ans) r'
  round-Cuts again r ans fault d more = absurd d
  round-Cuts again r ans (leave r') d more =
      let all = cut-partial (length (held v a r')) r' d.partial' in
      (
        r',
        refl,
        record {
          partial' = d.partial';
          cuts = sym all ∙ ap (λ s. cut_all s (held v a r')) d.state ∙ ap (cut_all r.state) d.all;
        },
      )
  round-Cuts again r ans (go_on r1 ans1) d more =
      let (no_header, no_message, stream) = d.idle in
      let idle : IsPartial v a r1 = record {
        stream = stream;
        fits = omega (arith, ap length no_header);
        before = λ h. no_message;
        inside = λ h. absurd (omega (arith, ap length no_header, h, a.header_pos));
      } in
      let none_held : held v a r1 ≡ [] = rw (no_header, no_message) refl in
      let total = ap length d.split in
      let (r', ran, k) = more r1 ans1 idle d.good (
        omega (
          arith,
          ap length none_held,
          total,
          length-append (held v a r) (joined ans),
          length-append d.header (d.msg ++ joined ans1),
          length-append d.msg (joined ans1),
          d.header_len,
          a.header_pos,
        )) in
      (
        r',
        ran,
        record {
          partial' = k.partial';
          cuts =
              k.cuts
              ∙ ap (λ b. cut_all r1.state (b ++ joined ans1)) none_held
              ∙ ap (λ s. cut_all s (joined ans1)) d.state
              ∙ sym (cut_all-frame r.state d.header d.msg (joined ans1) d.header_len d.msg_len)
              ∙ ap (cut_all r.state) (sym d.split);
        },
      )

  loop-Cuts :
      (fuel : ℕ) (r : Reader S) (ans : List Answer)
      → IsPartial v a r
      → AllGood ans
      → length (held v a r) + length (joined ans) < fuel
      → (r' : Reader S) × (incoming_loop v fuel r ans ≡ some r')
        × Cuts r.state (held v a r ++ joined ans) r'
  unfolding incoming_loop
  loop-Cuts zero r ans q g h = absurd (omega (arith, h))
  loop-Cuts (suc fuel) r ans q g h =
      round-Cuts (incoming_loop v fuel) r ans (round v r ans) (round-Does v a r ans q g)
        (λ r1 ans1 q1 g1 less. loop-Cuts fuel r1 ans1 q1 g1 (omega (arith, h, less)))

  -- A call for each list of answers, with a round for each byte that is held or ready and one more.
  unfoldable pub receive_all : Reader S → List (List Answer) → Option (Reader S)
  receive_all r [] = some r
  receive_all r (ans ∷ calls) =
      handle_incoming v (suc (length (held v a r) + length (joined ans))) r ans >>= λ r'.
      receive_all r' calls

  abbrev pub stream_of : List (List Answer) → List ℕ
  stream_of [] = []
  stream_of (ans ∷ calls) = joined ans ++ stream_of calls

  abbrev pub AllCallsGood : List (List Answer) → Type 0
  AllCallsGood [] = Unit {0}
  AllCallsGood (ans ∷ calls) = AllGood ans × AllCallsGood calls

  handle_incoming-loop :
      (fuel : ℕ) (r : Reader S) (ans : List Answer)
      → r.has_stream ≡ true
      → handle_incoming v fuel r ans ≡ incoming_loop v fuel r ans
  unfolding handle_incoming
  handle_incoming-loop fuel r ans h = ground arith

  -- For a client that takes every message, over any calls of `handle_incoming` in which the stream
  -- neither ends nor fails, and however its bytes are split into calls and reads: no call fails or
  -- runs without end, and in the end the same messages have been handled, in order, and the same
  -- bytes are held, as when the whole stream is cut into messages at once.
  pub receive_all-Cuts :
      (r : Reader S) (calls : List (List Answer))
      → IsPartial v a r
      → AllCallsGood calls
      → (r' : Reader S) × (receive_all r calls ≡ some r')
        × Cuts r.state (held v a r ++ stream_of calls) r'
  unfolding receive_all
  receive_all-Cuts r [] q g =
      let all = append-nil (held v a r) in
      (
        r,
        refl,
        record {
          partial' = q;
          cuts = sym (cut-partial (length (held v a r)) r q) ∙ ap (cut_all r.state) (sym all);
        },
      )
  receive_all-Cuts r (ans ∷ calls) q g =
      let fuel = suc (length (held v a r) + length (joined ans)) in
      let (r1, ran, k) = loop-Cuts fuel r ans q g.0 (omega arith) in
      let (r', rest, t) = receive_all-Cuts r1 calls k.partial' g.1 in
      let front = held v a r ++ joined ans in
      (
        r',
        rw (handle_incoming-loop fuel r ans q.stream ∙ ran) rest,
        record {
          partial' = t.partial';
          cuts =
              t.cuts
              ∙ ap (λ (z : S × List ℕ). cut_all z.0 (z.1 ++ stream_of calls)) k.cuts
              ∙ sym (cut-append (length front) r.state front (stream_of calls) (omega arith))
              ∙ ap (cut_all r.state) (append_assoc (held v a r) (joined ans) (stream_of calls));
        },
      )
