-- ===== src/RedClient.antt =====
-- server/red-client.cpp and server/red-client.h: the channels of a client, and the count of those
-- that wait for the data of a seamless migration. The lock is left out: each function is one step.
pub mod Unique
pub mod Migration
mod Tests
use spice.Prelude.{
  ℕ, ◌+◌, ◌-◌, ◌%◌, ◌^◌, Bool, true, false, not, ◌&&◌, ◌||◌, Option, none, some, List, [], ◌∷◌,
  ◌++◌, map, ◌==◌, if◌then◌else◌, ◌>>◌, check,
}

-- `RedChannelClient`, as a client sees it: the object's identity, the type and the id of its
-- channel, whether its channel has the flag SPICE_MIGRATE_NEED_DATA_TRANSFER, and
-- `wait_migrate_data`.
pub record ChannelClient : Type 0 where
  pub pointer : ℕ
  pub channel_type : ℕ
  pub channel_id : ℕ
  pub is_connected : Bool
  pub needs_data_transfer : Bool
  pub wait_migrate_data : Bool

-- What a client asks of others.
pub data Request : Type 0 where
  migrate_client : ℕ → Request
  disconnect_client : ℕ → Request
  semi_seamless_migration_complete : ℕ → Request
  on_client_semi_seamless_migrate_complete : Request
  seamless_migrate_dst_complete : Request

-- `RedClient`. `num_migrated_channels` is an `int`, and here its 32-bit pattern.
pub record RedClient : Type 0 where
  pub channels : List ChannelClient
  pub mcc : Option ℕ
  pub disconnecting : Bool
  pub during_target_migrate : Bool
  pub seamless_migrate : Bool
  pub num_migrated_channels : ℕ
  pub requests : List Request

abbrev pub ask : RedClient → Request → RedClient
ask c r = record c { requests = c.requests ++ (r ∷ []) }

-- `red_client_new`; the memory of a new object is zero.
abbrev pub red_client_new : Bool → RedClient
red_client_new migrated = record {
  channels = [];
  mcc = none;
  disconnecting = false;
  during_target_migrate = migrated;
  seamless_migrate = false;
  num_migrated_channels = 0;
  requests = [];
}

-- `RedChannelClient::set_migration_seamless`, and what it returns.
abbrev pub await_data : ChannelClient → ChannelClient
await_data x = if x.needs_data_transfer then record x { wait_migrate_data = true } else x

-- `num_migrated_channels++` for each channel of which that is true.
unfoldable pub count_awaiting : List ChannelClient → ℕ → ℕ
count_awaiting [] n = n
count_awaiting (x ∷ xs) n =
    count_awaiting xs (if x.needs_data_transfer then (n + 1) % 2 ^ 32 else n)

-- `RedClient::set_migration_seamless`
unfoldable pub set_migration_seamless : RedClient → Option RedClient
set_migration_seamless c =
    check c.during_target_migrate
    >> some (record c {
      seamless_migrate = true;
      channels = map await_data c.channels;
      num_migrated_channels = count_awaiting c.channels c.num_migrated_channels;
    })

-- `RedClient::migrate`
migrate_all : List ChannelClient → RedClient → RedClient
migrate_all [] c = c
migrate_all (x ∷ xs) c =
    migrate_all xs (if x.is_connected then ask c (migrate_client x.pointer) else c)

abbrev pub migrate : RedClient → RedClient
unfolding migrate_all
migrate c = migrate_all c.channels c

-- The loop of `RedClient::destroy`, where no channel is removed by others meanwhile.
disconnect_all : List ChannelClient → RedClient → RedClient
disconnect_all [] c = record c { channels = [] }
disconnect_all (x ∷ xs) c =
    disconnect_all xs (ask (record c { channels = xs }) (disconnect_client x.pointer))

-- `RedClient::destroy`
unfoldable pub destroy : RedClient → RedClient
unfolding disconnect_all
destroy c = disconnect_all c.channels (record c { disconnecting = true })

-- `RedClient::get_channel`
unfoldable pub get_channel : ℕ → ℕ → List ChannelClient → Option ChannelClient
get_channel t i [] = none
get_channel t i (x ∷ xs) =
    if x.channel_type == t && x.channel_id == i then some x else get_channel t i xs

abbrev pub is_there : Option ChannelClient → Bool
is_there none = false
is_there (some x) = true

-- The first channel of a client is taken for the main one.
abbrev pub or_else : Option ℕ → ℕ → Option ℕ
or_else none n = some n
or_else (some m) n = some m

-- `RedClient::add_channel`
unfoldable pub add_channel : ChannelClient → RedClient → RedClient × Bool
add_channel x c =
    let awaits = c.during_target_migrate && c.seamless_migrate in
    if c.disconnecting
    then (c, false)
    else if is_there (get_channel x.channel_type x.channel_id c.channels)
    then (c, false)
    else (
      record c {
        mcc = or_else c.mcc x.pointer;
        channels = (if awaits then await_data x else x) ∷ c.channels;
        num_migrated_channels =
            if awaits && x.needs_data_transfer
            then (c.num_migrated_channels + 1) % 2 ^ 32
            else c.num_migrated_channels;
      },
      true,
    )

-- `RedClient::semi_seamless_migrate_complete`
complete_all : List ChannelClient → RedClient → RedClient
complete_all [] c = c
complete_all (x ∷ xs) c = complete_all xs (ask c (semi_seamless_migration_complete x.pointer))

unfoldable pub semi_seamless_migrate_complete : RedClient → RedClient
unfolding complete_all
semi_seamless_migrate_complete c =
    if not c.during_target_migrate || c.seamless_migrate
    then c
    else ask (complete_all c.channels (record c { during_target_migrate = false }))
        on_client_semi_seamless_migrate_complete

unfoldable pub without : ℕ → List ChannelClient → List ChannelClient
without p [] = []
without p (x ∷ xs) = if x.pointer == p then without p xs else x ∷ without p xs

-- `RedClient::remove_channel`
abbrev pub remove_channel : ℕ → RedClient → RedClient
remove_channel p c = record c { channels = without p c.channels }

-- `RedClient::seamless_migration_done_for_channel`
unfoldable pub seamless_migration_done_for_channel : RedClient → RedClient × Bool
seamless_migration_done_for_channel c =
    let n = (c.num_migrated_channels + (2 ^ 32 - 1)) % 2 ^ 32 in
    let c' : RedClient = record c { num_migrated_channels = n } in
    if n == 0
    then (
      ask (record c' { during_target_migrate = false; seamless_migrate = false })
          seamless_migrate_dst_complete,
      true,
    )
    else (c', false)

-- `RedClient::set_disconnecting`
abbrev pub set_disconnecting : RedClient → RedClient
set_disconnecting c = record c { disconnecting = true }

-- Whether the channel of a pointer takes migration data: its channel transfers data, and it waits
-- for them.
unfoldable pub awaits_data : ℕ → List ChannelClient → Bool
awaits_data p [] = false
awaits_data p (x ∷ xs) =
    if x.pointer == p then x.needs_data_transfer && x.wait_migrate_data else awaits_data p xs

unfoldable pub clear_wait : ℕ → List ChannelClient → List ChannelClient
clear_wait p [] = []
clear_wait p (x ∷ xs) =
    if x.pointer == p then record x { wait_migrate_data = false } ∷ xs else x ∷ clear_wait p xs

-- `RedChannelClient::handle_migrate_data_early`, with data that its channel accepts, as far as the
-- client is concerned: a channel that does not wait for them leaves it as it is.
unfoldable pub handle_migrate_data_early : ℕ → RedClient → RedClient
handle_migrate_data_early p c =
    if awaits_data p c.channels
    then (seamless_migration_done_for_channel (record c { channels = clear_wait p c.channels })).0
    else c
