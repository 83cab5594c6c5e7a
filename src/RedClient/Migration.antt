-- ===== src/RedClient/Migration.antt =====
-- A seamless migration is complete when the last channel has its data, and only then.
use spice.Prelude.{
  ℕ, ◌+◌, ◌-◌, ◌%◌, ◌^◌, ◌≤◌, ◌<◌, ◌≡◌, ◌⊎◌, inl, inr, refl, Bool, true, false, ◌&&◌, some, List,
  [], ◌∷◌, ◌++◌, map, length, Bool-cases, arith, if◌then◌else◌, ◌==◌,
}
use spice.RedClient.{
  ChannelClient, RedClient, Request, seamless_migrate_dst_complete, await_data, count_awaiting,
  set_migration_seamless, add_channel, awaits_data, clear_wait, handle_migrate_data_early,
  seamless_migration_done_for_channel,
}
use spice.RedClient.Unique.{Input, added, data_received, step, run, removed, seamless, disconnected}

-- The channels that wait for their data.
abbrev pub waiting : List ChannelClient → ℕ
waiting [] = 0
waiting (x ∷ xs) = (if x.needs_data_transfer && x.wait_migrate_data then 1 else 0) + waiting xs

-- How often the end of the migration was reported.
abbrev is_complete : Request → Bool
is_complete seamless_migrate_dst_complete = true
is_complete _ = false

abbrev pub completions : List Request → ℕ
completions [] = 0
completions (r ∷ rs) = (if is_complete r then 1 else 0) + completions rs

-- Some channel still waits, and the counter says how many.
pub record Migrating (c : RedClient) : Type 0 where
  pub during : c.during_target_migrate ≡ true
  pub seamless : c.seamless_migrate ≡ true
  pub count : c.num_migrated_channels ≡ waiting c.channels
  pub some_wait : 0 < waiting c.channels
  pub unreported : completions c.requests ≡ 0

-- No channel waits, and the end was reported once.
pub record Complete (c : RedClient) : Type 0 where
  pub during : c.during_target_migrate ≡ false
  pub seamless : c.seamless_migrate ≡ false
  pub none_waits : waiting c.channels ≡ 0
  pub reported : completions c.requests ≡ 1

-- Channels that connect, none of which waits before, and data that arrive.
abbrev pub IsArrival : Input → Type 0
IsArrival (added x) = x.wait_migrate_data ≡ false
IsArrival (data_received p) = Unit {0}
IsArrival _ = ⊥

abbrev pub AllArrivals : List Input → Type 0
AllArrivals [] = Unit {0}
AllArrivals (i ∷ is) = IsArrival i × AllArrivals is

completions-append :
    (rs : List Request) (r : Request)
    → completions (rs ++ (r ∷ [])) ≡ completions rs + (if is_complete r then 1 else 0)
completions-append [] r = omega arith
completions-append (x ∷ rs) r = omega (arith, completions-append rs r)

waiting-clear_wait :
    (p : ℕ) (xs : List ChannelClient)
    → awaits_data p xs ≡ true
    → waiting (clear_wait p xs) + 1 ≡ waiting xs
unfolding awaits_data clear_wait
waiting-clear_wait p [] h = cc
waiting-clear_wait p (x ∷ xs) h = ground (arith, waiting-clear_wait p xs)

waiting-await :
    (xs : List ChannelClient) (n : ℕ)
    → waiting xs ≡ 0
    → n + length xs < 2 ^ 32
    → count_awaiting xs n ≡ n + waiting (map await_data xs)
unfolding count_awaiting
waiting-await [] n h k = omega arith
waiting-await (x ∷ xs) n h k =
    let rest = waiting-await xs (if x.needs_data_transfer then (n + 1) % 2 ^ 32 else n) in
    ground (arith, rest)

add-Migrating :
    (x : ChannelClient) (c : RedClient)
    → x.wait_migrate_data ≡ false
    → waiting c.channels + 1 < 2 ^ 32
    → Migrating c
    → Migrating (add_channel x c).0
unfolding add_channel
add-Migrating x c fresh bound m = record {
  during = ground (arith, m.during);
  seamless = ground (arith, m.seamless);
  count = ground (arith, m.count, m.during, m.seamless);
  some_wait = ground (arith, m.some_wait);
  unreported = ground (arith, m.unreported);
}

add-Complete :
    (x : ChannelClient) (c : RedClient)
    → x.wait_migrate_data ≡ false
    → Complete c
    → Complete (add_channel x c).0
unfolding add_channel
add-Complete x c fresh m = record {
  during = ground (arith, m.during);
  seamless = ground (arith, m.seamless);
  none_waits = ground (arith, m.none_waits, m.during);
  reported = ground (arith, m.reported);
}

-- The last data complete the migration, other data do not.
data-Migrating :
    (p : ℕ) (c : RedClient)
    → waiting c.channels < 2 ^ 32
    → Migrating c
    → Migrating (handle_migrate_data_early p c) ⊎ Complete (handle_migrate_data_early p c)
unfolding handle_migrate_data_early seamless_migration_done_for_channel
data-Migrating p c bound m = elim (Bool-cases (awaits_data p c.channels)) [
  | inr idle ↦ rw idle (inl m)
  | inl waits ↦
      let fewer = waiting-clear_wait p c.channels waits in
      let reported = completions-append c.requests seamless_migrate_dst_complete in
      elim (Bool-cases ((c.num_migrated_channels + (2 ^ 32 - 1)) % 2 ^ 32 == 0)) [
        | inl last ↦
            rw (waits, last)
              (inr (record {
                during = refl;
                seamless = refl;
                none_waits = ground (arith, fewer, m.count, last, bound);
                reported = omega (arith, reported, m.unreported);
              }))
        | inr more ↦
            rw (waits, more)
              (inl (record {
                during = m.during;
                seamless = m.seamless;
                count = ground (arith, fewer, m.count, more, bound);
                some_wait = ground (arith, fewer, m.count, more, bound);
                unreported = m.unreported;
              }))
      ]
]

data-Complete : (p : ℕ) (c : RedClient) → Complete c → Complete (handle_migrate_data_early p c)
unfolding handle_migrate_data_early
data-Complete p c m = elim (Bool-cases (awaits_data p c.channels)) [
  | inr idle ↦ rw idle m
  | inl waits ↦ absurd (omega (arith, waiting-clear_wait p c.channels waits, m.none_waits))
]

-- Either of the two.
abbrev pub Counts : RedClient → Type 0
Counts c = Migrating c ⊎ Complete c

add-waiting :
    (x : ChannelClient) (c : RedClient)
    → waiting (add_channel x c).0.channels ≤ waiting c.channels + 1
unfolding add_channel
add-waiting x c = ground arith

data-waiting :
    (p : ℕ) (c : RedClient) → waiting (handle_migrate_data_early p c).channels ≤ waiting c.channels
unfolding handle_migrate_data_early seamless_migration_done_for_channel
data-waiting p c = ground (arith, waiting-clear_wait p c.channels)

step-Counts :
    (c : RedClient) (i : Input)
    → IsArrival i
    → waiting c.channels + 1 < 2 ^ 32
    → Counts c
    → (c' : RedClient) × (step c i ≡ some c')
      × Counts c'
      × (waiting c'.channels ≤ waiting c.channels + 1)
unfolding step
step-Counts c (added x) a bound (inl m) =
    (_, refl, inl (add-Migrating x c a bound m), add-waiting x c)
step-Counts c (added x) a bound (inr m) = (_, refl, inr (add-Complete x c a m), add-waiting x c)
step-Counts c (data_received p) a bound (inl m) =
    (_, refl, data-Migrating p c (omega (arith, bound)) m, omega (arith, data-waiting p c))
step-Counts c (data_received p) a bound (inr m) =
    (_, refl, inr (data-Complete p c m), omega (arith, data-waiting p c))
step-Counts c (removed p) a bound m = absurd a
step-Counts c seamless a bound m = absurd a
step-Counts c disconnected a bound m = absurd a

run-Counts :
    (c : RedClient) (is : List Input)
    → AllArrivals is
    → waiting c.channels + length is < 2 ^ 32
    → Counts c
    → (c' : RedClient) × (run c is ≡ some c') × Counts c'
unfolding run
run-Counts c [] a bound m = (c, refl, m)
run-Counts c (i ∷ is) a bound m =
    let (c1, stepped, n, more) = step-Counts c i a.0 (omega (arith, bound)) m in
    let (c', ran, k) = run-Counts c1 is a.1 (omega (arith, bound, more)) n in
    (c', rw stepped ran, k)

-- Let a migration become seamless for a client that has counted and reported nothing yet, none of
-- whose channels waits, and some of which have data to transfer; and let channels that do not wait
-- connect and data arrive in any order, with fewer than 2 ^ 32 channels in all. Then no assertion
-- fails, and as long as some channel waits for its data the client counts as migrating, its counter
-- is the number of those channels and no end was reported; when none waits, the client does not
-- count as migrating and the end has been reported exactly once.
pub seamless-Counts :
    (c c0 : RedClient) (is : List Input)
    → c.num_migrated_channels ≡ 0
    → waiting c.channels ≡ 0
    → completions c.requests ≡ 0
    → set_migration_seamless c ≡ some c0
    → 0 < waiting c0.channels
    → AllArrivals is
    → length c.channels < 2 ^ 32
    → waiting c0.channels + length is < 2 ^ 32
    → (c' : RedClient) × (run c0 is ≡ some c') × Counts c'
unfolding set_migration_seamless
seamless-Counts c c0 is zero_count idle unreported e some_wait a short bound =
    let counted = waiting-await c.channels 0 idle (omega (arith, short)) in
    run-Counts c0 is a bound (
      inl (record {
        during = ground (arith, e);
        seamless = ground (arith, e);
        count = ground (arith, e, counted, zero_count);
        some_wait = some_wait;
        unreported = ground (arith, e, unreported);
      }))
