-- ===== src/ChannelClient/Items.antt =====
-- Items are taken off the pipe and sent: the loop of `RedChannelClient::push`.
use spice.Prelude.{
  ℕ, zero, suc, ◌≤◌, ◌≡◌, refl, ap, ◌∙◌, Bool, true, false, Option, none, some, List, [], ◌∷◌, ◌⊎◌,
  inl, inr, ◌==◌, length, arith, Bool-cases, ◌||◌, ◌>>=◌,
}
use spice.ChannelClient.State.{
  Item, set_ack, migrate, ping, empty_msg, marker, other, Sends, nothing, message, urgent_first,
  Channel, Sender, waiting_for_ack,
}
use spice.ChannelClient.Sending.{
  Reply, send_item, send_by_type, send_any_item, send_set_ack, send_migrate, send_ping, push_items,
  next_serial,
}
use spice.ChannelClient.Timing.{IsTimed}
use spice.ChannelClient.Ordering.{IsIdle, Phase, is_idle, is_writing, is_dead, Kept}
use spice.ChannelClient.Beginning.{Went, begin-Went}

-- An item for an empty message has the type of one.
unfoldable pub IsTyped : Item → Type 0
IsTyped (empty_msg n) = (n == 0) ≡ false
IsTyped _ = Unit {0}

unfoldable pub AllTyped : List Item → Type 0
AllTyped [] = Unit {0}
AllTyped (i ∷ is) = IsTyped i × AllTyped is

-- Where the loop stops.
unfoldable pub Halted : Channel → Sender → Type 0
Halted ch c = (c.pipe ≡ []) ⊎ (c.is_blocked ≡ true) ⊎ (waiting_for_ack ch c ≡ true)

module _ (ch : Channel) (now : ℕ) where
  send_item-Went :
      (s : Sends) (c : Sender) (rs : List Reply)
      → IsIdle c
      → IsTimed c.latency
      → Went c (send_item ch now s c rs)
  unfolding Went
  send_item-Went nothing c rs i h =
      (is_idle i, record { pipe = inl refl; during = refl; watch = refl; timed = h })
  send_item-Went (message m) c rs i h =
      begin-Went ch now c c m rs i
        (record { pipe = inl refl; during = refl; watch = refl; timed = h })
  send_item-Went (urgent_first u m) c rs i h =
      begin-Went ch now c (record c { deferred = some m }) u rs
        (record {
          connected' = i.connected';
          current = i.current;
          unblocked = i.unblocked;
          pos = i.pos;
          size = i.size;
          wrote' = i.wrote';
        })
        (record { pipe = inl refl; during = refl; watch = refl; timed = h })

  send_by_type-Went :
      (x : Item) (c : Sender) (rs : List Reply)
      → IsTyped x
      → IsIdle c
      → IsTimed c.latency
      → Went c (send_by_type ch now x c rs)
  unfolding send_by_type send_set_ack send_migrate send_ping Went IsTyped
  send_by_type-Went set_ack c rs t i h =
      begin-Went ch now c _ _ rs
        (record {
          connected' = i.connected';
          current = i.current;
          unblocked = i.unblocked;
          pos = i.pos;
          size = i.size;
          wrote' = i.wrote';
        })
        (record { pipe = inl refl; during = refl; watch = refl; timed = h })
  send_by_type-Went migrate c rs t i h =
      begin-Went ch now c _ _ rs
        (record {
          connected' = i.connected';
          current = i.current;
          unblocked = i.unblocked;
          pos = i.pos;
          size = i.size;
          wrote' = i.wrote';
        })
        (record { pipe = inl refl; during = refl; watch = refl; timed = h })
  send_by_type-Went ping c rs t i h =
      begin-Went ch now c _ _ rs
        (record {
          connected' = i.connected';
          current = i.current;
          unblocked = i.unblocked;
          pos = i.pos;
          size = i.size;
          wrote' = i.wrote';
        })
        (record { pipe = inl refl; during = refl; watch = refl; timed = ground arith })
  send_by_type-Went (empty_msg n) c rs t i h = rw t (
      begin-Went ch now c c (ch.empty_message (next_serial c) n) rs i
        (record { pipe = inl refl; during = refl; watch = refl; timed = h }))
  send_by_type-Went (marker n) c rs t i h = (
    is_idle (record {
      connected' = i.connected';
      current = i.current;
      unblocked = i.unblocked;
      pos = i.pos;
      size = i.size;
      wrote' = i.wrote';
    }),
    record { pipe = inl refl; during = refl; watch = refl; timed = h },
  )
  send_by_type-Went (other n) c rs t i h = send_item-Went (ch.send_item n (next_serial c)) c rs i h

  send_any_item-Went :
      (x : Item) (c : Sender) (rs : List Reply)
      → IsTyped x
      → IsIdle c
      → IsTimed c.latency
      → Went c (send_any_item ch now x c rs)
  unfolding send_any_item
  send_any_item-Went x c rs t i h =
      rw (ap (λ z. length z == 0) i.current) (send_by_type-Went x c rs t i h)

  -- What the loop leaves.
  unfoldable pub Pushed : Sender → Option (Sender × List Reply) → Type 0
  Pushed c0 none = ⊥
  Pushed c0 (some r) =
      Phase r.0
      × AllTyped r.0.pipe
      × (r.0.watches_write ≡ c0.watches_write)
      × Halted ch r.0
      × IsTimed r.0.latency

  pub typed_pipe : (is js : List Item) → AllTyped is → (js ≡ is) ⊎ (js ≡ []) → AllTyped js
  unfolding AllTyped
  typed_pipe is js t (inl e) = rw e t
  typed_pipe is js t (inr e) = rw e tt

  short_pipe : (n : ℕ) (is js : List Item) → length is ≤ n → (js ≡ is) ⊎ (js ≡ []) → length js ≤ n
  short_pipe n is js h (inl e) = rw e h
  short_pipe n is js h (inr e) = rw e (omega arith)

  bind-Pushed :
      (c0 c : Sender) (o : Option (Sender × List Reply))
      (f : Sender × List Reply → Option (Sender × List Reply))
      → Went c o
      → ((r : Sender × List Reply) → Phase r.0 → Kept c r.0 → Pushed c0 (f r))
      → Pushed c0 (o >>= f)
  unfolding Went Pushed
  bind-Pushed c0 c none f w g = w
  bind-Pushed c0 c (some r) f w g = g r w.0 w.1

  IsIdle-of : (c : Sender) → Phase c → c.is_blocked ≡ false → (c.pipe ≡ [] → ⊥) → IsIdle c
  IsIdle-of c (is_idle i) b p = i
  IsIdle-of c (is_writing w b') b p = cc
  IsIdle-of c (is_dead d) b p = absurd (p d.pipe)

  nonempty : {x : Item} {is js : List Item} → js ≡ x ∷ is → js ≡ [] → ⊥
  nonempty e q = cc

  or_eq : (a b : Bool) → (a || b) ≡ true → (a ≡ true) ⊎ (b ≡ true)
  or_eq true b h = inl refl
  or_eq false b h = inr h

  kept-Pushed :
      (c c' : Sender) (o : Option (Sender × List Reply))
      → c'.watches_write ≡ c.watches_write
      → Pushed c' o
      → Pushed c o
  unfolding Pushed
  kept-Pushed c c' none e h = h
  kept-Pushed c c' (some r) e h = (h.0, h.1, h.2 ∙ e, h.3, h.4)

  pub push_items-Pushed :
      (fuel : ℕ) (is : List Item) (c : Sender) (rs : List Reply)
      → c.pipe ≡ is
      → length is ≤ fuel
      → Phase c
      → AllTyped is
      → IsTimed c.latency
      → Pushed c (push_items ch now fuel is c rs)
  unfolding push_items Pushed Halted AllTyped
  push_items-Pushed fuel [] c rs e h p t m = (p, rw e tt, refl, inl e, m)
  push_items-Pushed zero (x ∷ is) c rs e h p t m = absurd (omega (arith, h))
  push_items-Pushed (suc fuel) (x ∷ is) c rs e h p t m =
      elim (Bool-cases (c.is_blocked || waiting_for_ack ch c)) [
        | inl stop ↦
            rw stop (p, rw e t, refl, inr (or_eq (c.is_blocked) (waiting_for_ack ch c) stop), m)
        | inr go ↦
            let i = IsIdle-of c p (ground (arith, go)) (λ q. nonempty e q) in
            rw go (
              bind-Pushed c (record c { pipe = is }) _ _
                (send_any_item-Went x (record c { pipe = is }) rs t.0
                  (record {
                    connected' = i.connected';
                    current = i.current;
                    unblocked = i.unblocked;
                    pos = i.pos;
                    size = i.size;
                    wrote' = i.wrote';
                  })
                  m)
                (λ r q k. kept-Pushed c r.0 _ k.watch (
                  push_items-Pushed fuel r.0.pipe r.0 r.1 refl
                    (short_pipe fuel is r.0.pipe (omega (arith, h)) k.pipe) q
                    (typed_pipe is r.0.pipe t.1 k.pipe) k.timed)))
      ]
