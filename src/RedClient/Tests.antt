-- ===== src/RedClient/Tests.antt =====
-- A client with two channels, one of which has data to transfer, and instances of the theorems.
use spice.Prelude.{◌≡◌, refl, true, false, some, [], ◌∷◌, arith}
use spice.RedClient.{
  ChannelClient, RedClient, red_client_new, set_migration_seamless, count_awaiting, add_channel,
  get_channel,
}
use spice.RedClient.Unique.{added, data_received, step, run, AllDistinct, new-AllDistinct}
use spice.RedClient.Migration.{Counts, seamless-Counts}

abbrev main_channel : ChannelClient
main_channel = record {
  pointer = 100;
  channel_type = 1;
  channel_id = 0;
  is_connected = true;
  needs_data_transfer = false;
  wait_migrate_data = false;
}

abbrev display : ChannelClient
display = record main_channel { pointer = 200; channel_type = 2; needs_data_transfer = true }

abbrev port : ChannelClient
port = record display { pointer = 300; channel_type = 10 }

abbrev before : RedClient
before = record (red_client_new true) { channels = display ∷ main_channel ∷ []; mcc = some 100 }

abbrev waits : RedClient
waits = record before {
  channels = record display { wait_migrate_data = true } ∷ main_channel ∷ [];
  seamless_migrate = true;
  num_migrated_channels = 1;
}

becomes_seamless : set_migration_seamless before ≡ some waits
unfolding set_migration_seamless count_awaiting
becomes_seamless = refl

-- The second channel of the same type and id is refused.
two_added :
    run (red_client_new true) (added main_channel ∷ added display ∷ added display ∷ [])
    ≡ some before
unfolding run step add_channel get_channel
two_added = refl

new-AllDistinct_example : AllDistinct before.channels
new-AllDistinct_example =
    new-AllDistinct true (added main_channel ∷ added display ∷ added display ∷ []) before two_added

seamless-Counts_example :
    (c' : RedClient) × (run waits (added port ∷ data_received 200 ∷ data_received 300 ∷ [])
      ≡ some c')
    × Counts c'
seamless-Counts_example =
    seamless-Counts before waits (added port ∷ data_received 200 ∷ data_received 300 ∷ []) refl refl
      refl becomes_seamless (omega arith) (refl, (tt, (tt, tt))) (omega arith) (omega arith)
