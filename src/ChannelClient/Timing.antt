-- ===== src/ChannelClient/Timing.antt =====
-- The ping timer: it runs only in the state in which its handler expects to be called.
use spice.Prelude.{
  ℕ, ◌≡◌, refl, Bool, true, false, not, ◌&&◌, Option, some, ◌==◌, arith, Bool-cases, inl, inr,
}
use spice.ChannelClient.State.{PingState, ping_none, ping_timer, ping_warmup, ping_latency, Latency}
use spice.ChannelClient.Monitor.{
  is_ping_none, is_ping_timer, start_ping_timer, cancel_ping_timer, restart_ping_timer, handle_pong,
  pong_in, activate, start_latency,
}

abbrev pub is_armed : Option (Option ℕ) → Bool
is_armed (some (some t)) = true
is_armed _ = false

-- A timer that runs is in the state of one.
abbrev pub IsTimed : Latency → Type 0
IsTimed l = (is_armed l.timer && not (is_ping_timer l.state)) ≡ false

pub start-IsTimed : (t : ℕ) (l : Latency) → IsTimed l → IsTimed (start_ping_timer t l)
unfolding start_ping_timer
start-IsTimed t l h = ground arith

pub cancel-IsTimed : (l : Latency) → IsTimed l → IsTimed (cancel_ping_timer l)
unfolding cancel_ping_timer
cancel-IsTimed l h = ground arith

pub restart-IsTimed : (now : ℕ) (l : Latency) → IsTimed l → IsTimed (restart_ping_timer now l)
unfolding restart_ping_timer
restart-IsTimed now l h = start-IsTimed _ l h

-- The handler finds the state that it expects, also when it pings at once.
pub cancel-none :
    (l : Latency)
    → IsTimed l
    → is_armed l.timer ≡ true
    → is_ping_none (cancel_ping_timer l).state ≡ true
unfolding cancel_ping_timer
cancel-none l h a = ground arith

pub cancel-unarmed : (l : Latency) → IsTimed l → is_armed (cancel_ping_timer l).timer ≡ false
unfolding cancel_ping_timer
cancel-unarmed l h = ground arith

pub armed-state : (l : Latency) → IsTimed l → is_armed l.timer ≡ true → is_ping_timer l.state ≡ true
armed-state l h a = ground arith

pong_in-IsTimed :
    (s : PingState) (now stamp : ℕ) (l : Latency)
    → IsTimed l
    → l.state ≡ s
    → IsTimed (pong_in s now stamp l)
unfolding pong_in
pong_in-IsTimed ping_none now stamp l h e = h
pong_in-IsTimed ping_timer now stamp l h e = h
pong_in-IsTimed ping_warmup now stamp l h e = ground arith
pong_in-IsTimed ping_latency now stamp l h e = start-IsTimed _ _ (ground arith)

pub pong-IsTimed :
    (now id stamp : ℕ) (l : Latency) → IsTimed l → IsTimed (handle_pong now id stamp l)
unfolding handle_pong
pong-IsTimed now id stamp l h = elim (Bool-cases (not (id == l.id))) [
  | inl e ↦ rw e h
  | inr e ↦ rw e (pong_in-IsTimed l.state now stamp l h refl)
]

activate-IsTimed : (l : Latency) → IsTimed l → IsTimed (activate l)
unfolding cancel_ping_timer
activate-IsTimed l h = ground arith

pub start_latency-IsTimed :
    (migrating : Bool) (l : Latency) → IsTimed l → IsTimed (start_latency migrating l)
start_latency-IsTimed true l h = activate-IsTimed l h
start_latency-IsTimed false l h = start-IsTimed _ _ (activate-IsTimed l h)
