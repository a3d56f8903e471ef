-- ===== src/Tests/Network.antt =====
-- The theorem on the node configuration, with one configuration stored.
use any_sync_coordinator.Prelude.{true, false, none, some, ◌≡◌, refl, [], ◌∷◌, pos, arith}
use any_sync_coordinator.Outcome.{ok, lift, pure, raise_if, ◌>>=◌}
use any_sync_coordinator.Mongo.Memory.{memory, memory-Documented}
use any_sync_coordinator.Coordinator.{Node, Configuration, coordinator}
use any_sync_coordinator.NodeConfSource.{Configurations, new_model, insert_model, add_configuration}
use any_sync_coordinator.Config.{Sections, Config, new_from_file}
use any_sync_coordinator.ConfApply.{Flags, Environment, apply_network, main}
use any_sync_coordinator.ConfApply.Applied.{Applied, main-Applied}
use any_sync_coordinator.Tests.{conf}

abbrev node : Node
node = record { peer_id = "peer"; addresses = "127.0.0.1" ∷ []; types = coordinator ∷ [] }

abbrev configurations : Configurations
configurations =
    record { id = 3; network_id = "net"; nodes = node ∷ []; creation_time = pos 1; enable = true }
    ∷ []

abbrev next_configuration : Configuration
next_configuration = record {
  id = "";
  network_id = "net";
  nodes = node ∷ node ∷ [];
  creation_time = pos 0;
}

abbrev no_sections : Sections
no_sections = record {
  Account = Unit;
  Drpc = Unit;
  Metric = Unit;
  Yamux = Unit;
  Quic = Unit;
  Secure = Unit;
}

abbrev file_config : Config no_sections
file_config = record {
  account = tt;
  drpc = tt;
  metric = tt;
  network = next_configuration;
  network_store_path = "store";
  network_update_interval_sec = pos 600;
  mongo = record { connect = "mongodb://localhost"; database = "coordinator" };
  space_status = conf;
  inbox = record { coll_name = ""; fetch_limit = 0 };
  yamux = tt;
  quic = tt;
  account_limits = record {
    space_members_read = 5;
    space_members_write = 3;
    shared_spaces_limit = 3;
  };
  secure = tt;
}

-- Every file is empty, and is parsed as the same configuration.
abbrev environment : Environment no_sections
environment = record {
  read_file = λ path. ok none;
  unmarshal_config = λ bytes. ok file_config;
  unmarshal_network = λ bytes. ok next_configuration;
  start = λ conf. ok tt;
}

abbrev flags : Flags
flags = record {
  config_file = "etc/any-sync-coordinator.yml";
  help = false;
  network = "network.yml";
  network_enable = true;
}

printed_id : (main memory environment (pos 9) flags configurations).0 ≡ ok (some (memory.hex 4))
unfolding main apply_network new_from_file add_configuration insert_model new_model raise_if pure
    lift ◌>>=◌
printed_id = refl

main-Applied_example :
    Applied memory-Documented environment
      (pos 9)
      flags
      configurations
      (memory.hex 4)
      (memory.hex 3)
      (main memory environment (pos 9) flags configurations).1
main-Applied_example =
    main-Applied memory-Documented environment (pos 9) flags configurations (memory.hex 4)
      (memory.hex 3) refl (tt, tt) (omega arith, tt) printed_id
