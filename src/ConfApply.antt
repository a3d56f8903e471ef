-- ===== src/ConfApply.antt =====
-- cmd/confapply/confapply.go: the command that stores a configuration of the network.
pub mod Applied
use any_sync_coordinator.Prelude.{String, Bool, Option, none, some, ℤ, if◌then◌else◌}
use any_sync_coordinator.Outcome.{Result, Action, pure, lift, ◌>>=◌, ◌>>◌}
use any_sync_coordinator.Docs.{Bytes}
use any_sync_coordinator.Mongo.{Mongo}
use any_sync_coordinator.Config.{Sections, Config, new_from_file}
use any_sync_coordinator.Coordinator.{Configuration}
use any_sync_coordinator.NodeConfSource.{Configurations, add_configuration}

-- The flags that the command reads.
pub record Flags : Type 0 where
  pub config_file : String
  pub help : Bool
  pub network : String
  pub network_enable : Bool

-- What the command uses of the system and of other libraries: the files, the two parsers, and the
-- start of the components.
pub record Environment (x : Sections) : Type 0 where
  pub read_file : String → Result Bytes
  pub unmarshal_config : Bytes → Result (Config x)
  pub unmarshal_network : Bytes → Result Configuration
  pub start : Config x → Result (Unit {0})

module _ (m : Mongo) {x : Sections} (env : Environment x) (now : ℤ) (flags : Flags) where
  -- main after its look at the help flag: an error is one that log.Fatal ends the command with, and
  -- the value is the id that is printed.
  unfoldable pub apply_network : Action Configurations String
  apply_network = do
    conf ← lift (new_from_file env.read_file env.unmarshal_config flags.config_file)
    lift (env.start conf)
    bytes ← lift (env.read_file flags.network)
    node_conf ← lift (env.unmarshal_network bytes)
    add_configuration m now node_conf flags.network_enable

  -- main: with the help flag it prints the defaults only.
  unfoldable pub main : Action Configurations (Option String)
  main = if flags.help then pure none else (do id ← apply_network; pure (some id))
