-- ===== src/RedClient/Unique.antt =====
-- A client never has two channels of the same type and id.
use spice.Prelude.{
  ℕ, ◌≡◌, refl, subst, Bool, Option, none, some, List, [], ◌∷◌, map, Bool-cases, inl, inr, arith,
  ◌==◌, >>=-eq-some, some_inj, ◌>>=◌,
}
use spice.RedClient.{
  ChannelClient, RedClient, red_client_new, await_data, set_migration_seamless, get_channel,
  add_channel, without, remove_channel, awaits_data, clear_wait, handle_migrate_data_early,
  is_there, seamless_migration_done_for_channel, set_disconnecting,
}

-- What happens to a client.
pub data Input : Type 0 where
  added : ChannelClient → Input
  removed : ℕ → Input
  seamless : Input
  data_received : ℕ → Input
  disconnected : Input

unfoldable pub step : RedClient → Input → Option RedClient
step c (added x) = some (add_channel x c).0
step c (removed p) = some (remove_channel p c)
step c seamless = set_migration_seamless c
step c (data_received p) = some (handle_migrate_data_early p c)
step c disconnected = some (set_disconnecting c)

unfoldable pub run : RedClient → List Input → Option RedClient
run c [] = some c
run c (i ∷ is) = step c i >>= λ c'. run c' is

-- Each channel's type and id are not found behind it.
unfoldable pub AllDistinct : List ChannelClient → Type 0
AllDistinct [] = Unit {0}
AllDistinct (x ∷ xs) = (get_channel x.channel_type x.channel_id xs ≡ none) × AllDistinct xs

get_channel-without :
    (t i p : ℕ) (xs : List ChannelClient)
    → get_channel t i xs ≡ none
    → get_channel t i (without p xs) ≡ none
unfolding get_channel without
get_channel-without t i p [] h = refl
get_channel-without t i p (x ∷ xs) h = ground (arith, get_channel-without t i p xs)

get_channel-await :
    (t i : ℕ) (xs : List ChannelClient)
    → get_channel t i xs ≡ none
    → get_channel t i (map await_data xs) ≡ none
unfolding get_channel
get_channel-await t i [] h = refl
get_channel-await t i (x ∷ xs) h = ground (arith, get_channel-await t i xs)

get_channel-clear_wait :
    (t i p : ℕ) (xs : List ChannelClient)
    → get_channel t i xs ≡ none
    → get_channel t i (clear_wait p xs) ≡ none
unfolding get_channel clear_wait
get_channel-clear_wait t i p [] h = refl
get_channel-clear_wait t i p (x ∷ xs) h = ground (arith, get_channel-clear_wait t i p xs)

without-AllDistinct :
    (p : ℕ) (xs : List ChannelClient) → AllDistinct xs → AllDistinct (without p xs)
unfolding AllDistinct without
without-AllDistinct p [] v = v
without-AllDistinct p (x ∷ xs) v = elim (Bool-cases (x.pointer == p)) [
  | inl gone ↦ rw gone (without-AllDistinct p xs v.1)
  | inr kept ↦
      rw kept
        (get_channel-without x.channel_type x.channel_id p xs v.0, without-AllDistinct p xs v.1)
]

await-AllDistinct : (xs : List ChannelClient) → AllDistinct xs → AllDistinct (map await_data xs)
unfolding AllDistinct
await-AllDistinct [] v = v
await-AllDistinct (x ∷ xs) v =
    (ground (arith, get_channel-await x.channel_type x.channel_id xs v.0), await-AllDistinct xs v.1)

clear_wait-AllDistinct :
    (p : ℕ) (xs : List ChannelClient) → AllDistinct xs → AllDistinct (clear_wait p xs)
unfolding AllDistinct clear_wait
clear_wait-AllDistinct p [] v = v
clear_wait-AllDistinct p (x ∷ xs) v = elim (Bool-cases (x.pointer == p)) [
  | inl here ↦ rw here (v.0, v.1)
  | inr there ↦
      rw there (
        get_channel-clear_wait x.channel_type x.channel_id p xs v.0,
        clear_wait-AllDistinct p xs v.1,
      )
]

done-channels : (c : RedClient) → (seamless_migration_done_for_channel c).0.channels ≡ c.channels
unfolding seamless_migration_done_for_channel
done-channels c = ground arith

add_channel-AllDistinct :
    (x : ChannelClient) (c : RedClient)
    → AllDistinct c.channels
    → AllDistinct (add_channel x c).0.channels
unfolding add_channel AllDistinct
add_channel-AllDistinct x c v = elim (Bool-cases c.disconnecting) [
  | inl closing ↦ rw closing v
  | inr open' ↦ elim (Bool-cases (is_there (get_channel x.channel_type x.channel_id c.channels))) [
    | inl taken ↦ rw (open', taken) v
    | inr free ↦ rw (open', free) (ground arith, v)
  ]
]

handle_migrate_data_early-AllDistinct :
    (p : ℕ) (c : RedClient)
    → AllDistinct c.channels
    → AllDistinct (handle_migrate_data_early p c).channels
unfolding handle_migrate_data_early
handle_migrate_data_early-AllDistinct p c v = elim (Bool-cases (awaits_data p c.channels)) [
  | inr idle ↦ rw idle v
  | inl waits ↦
      let c' : RedClient = record c { channels = clear_wait p c.channels } in
      rw (waits, done-channels c') (clear_wait-AllDistinct p c.channels v)
]

set_migration_seamless-AllDistinct :
    (c c' : RedClient)
    → AllDistinct c.channels
    → set_migration_seamless c ≡ some c'
    → AllDistinct c'.channels
unfolding set_migration_seamless
set_migration_seamless-AllDistinct c c' v e =
    let same : c'.channels ≡ map await_data c.channels = ground arith in
    rw same (await-AllDistinct c.channels v)

step-AllDistinct :
    (c c' : RedClient) (i : Input)
    → AllDistinct c.channels
    → step c i ≡ some c'
    → AllDistinct c'.channels
unfolding step
step-AllDistinct c c' (added x) v e =
    subst (λ (z : RedClient). AllDistinct z.channels) (some_inj e) (add_channel-AllDistinct x c v)
step-AllDistinct c c' (removed p) v e =
    subst (λ (z : RedClient). AllDistinct z.channels) (some_inj e)
      (without-AllDistinct p c.channels v)
step-AllDistinct c c' seamless v e = set_migration_seamless-AllDistinct c c' v e
step-AllDistinct c c' (data_received p) v e =
    subst (λ (z : RedClient). AllDistinct z.channels) (some_inj e)
      (handle_migrate_data_early-AllDistinct p c v)
step-AllDistinct c c' disconnected v e =
    subst (λ (z : RedClient). AllDistinct z.channels) (some_inj e) v

run-AllDistinct :
    (c c' : RedClient) (is : List Input)
    → AllDistinct c.channels
    → run c is ≡ some c'
    → AllDistinct c'.channels
unfolding run
run-AllDistinct c c' [] v e = subst (λ (z : RedClient). AllDistinct z.channels) (some_inj e) v
run-AllDistinct c c' (i ∷ is) v e =
    let (c1, stepped, rest) = >>=-eq-some (step c i) (λ x. run x is) e in
    run-AllDistinct c1 c' is (step-AllDistinct c c1 i v stepped) rest

-- Over any history of a new client that no assertion stops, no two of its channels have the same
-- type and id.
pub new-AllDistinct :
    (migrated : Bool) (is : List Input) (c : RedClient)
    → run (red_client_new migrated) is ≡ some c
    → AllDistinct c.channels
unfolding AllDistinct
new-AllDistinct migrated is c e = run-AllDistinct (red_client_new migrated) c is tt e
