-- ===== src/RpcHandler/Network.antt =====
-- coordinator/rpchandler.go: NetworkConfiguration.
use any_sync_coordinator.Prelude.{
  ℕ, ◌-◌, ◌^◌, ◌%◌, String, List, [], ◌∷◌, ℤ, pos, negsuc, ◌=ₛ◌, map, if◌then◌else◌,
}
use any_sync_coordinator.Time
use any_sync_coordinator.Coordinator.{
  NodeType, tree, consensus, file, coordinator, naming_node, payment_processing_node, other, Node,
  Configuration,
}

-- coordinatorproto.NodeType
pub data ApiType : Type 0 where
  tree_api file_api coordinator_api consensus_api naming_node_api payment_processing_api : ApiType

pub record ApiNode : Type 0 where
  pub peer_id : String
  pub addresses : List String
  pub types : List ApiType

-- coordinatorproto.NetworkConfigurationResponse
pub record NetworkConfiguration : Type 0 where
  pub configuration_id : String
  pub network_id : String
  pub nodes : List ApiNode
  pub creation_time_unix : ℕ

-- The conversion uint64(n) of an int64.
abbrev pub uint64 : ℤ → ℕ
uint64 (pos n) = n % 2 ^ 64
uint64 (negsuc n) = 2 ^ 64 - 1 - n % 2 ^ 64

-- The types of a node; a type that the switch does not name is left out.
unfoldable pub api_types : List NodeType → List ApiType
api_types [] = []
api_types (coordinator ∷ ts) = coordinator_api ∷ api_types ts
api_types (file ∷ ts) = file_api ∷ api_types ts
api_types (tree ∷ ts) = tree_api ∷ api_types ts
api_types (consensus ∷ ts) = consensus_api ∷ api_types ts
api_types (naming_node ∷ ts) = naming_node_api ∷ api_types ts
api_types (payment_processing_node ∷ ts) = payment_processing_api ∷ api_types ts
api_types (other s ∷ ts) = api_types ts

abbrev pub api_node : Node → ApiNode
api_node n = record { peer_id = n.peer_id; addresses = n.addresses; types = api_types n.types }

-- The nodes are left out where the caller has the configuration already.
unfoldable pub network_configuration : Configuration → String → NetworkConfiguration
network_configuration last current_id = record {
  configuration_id = last.id;
  network_id = last.network_id;
  nodes = if current_id =ₛ last.id then [] else map api_node last.nodes;
  creation_time_unix = uint64 (Time.unix last.creation_time);
}
