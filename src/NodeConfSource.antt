-- ===== src/NodeConfSource.antt =====
-- nodeconfsource/source.go: the stored configurations of the network.
pub mod Adding
use any_sync_coordinator.Prelude.{
  ℕ, String, Bool, true, false, List, [], ◌∷◌, ℤ, map, ◌==◌, ◌=ₛ◌, if◌then◌else◌,
}
use any_sync_coordinator.Outcome.{
  Err, no_documents, text, configuration_not_found, configuration_not_changed, Result, ok, err,
  Action, raise_if, ◌>>=◌, ◌>>◌,
}
use any_sync_coordinator.Docs.{ObjectId}
use any_sync_coordinator.Mongo.{Mongo}
use any_sync_coordinator.Time
use any_sync_coordinator.Coordinator.{Node, Configuration}

pub record ConfModel : Type 0 where
  pub id : ObjectId
  pub network_id : String
  pub nodes : List Node
  pub creation_time : ℤ
  pub enable : Bool

abbrev pub Configurations : Type 0
Configurations = List ConfModel

abbrev pub has_none : List Node → Bool
has_none [] = true
has_none (_ ∷ _) = false

module _ (m : Mongo) where
  -- The configuration of a model, unless the caller has it already.
  unfoldable pub changed_configuration : String → Result ConfModel → Result Configuration
  changed_configuration current_id (ok model) =
      if m.hex model.id =ₛ current_id
      then err configuration_not_changed
      else ok (record {
        id = m.hex model.id;
        network_id = model.network_id;
        nodes = model.nodes;
        creation_time = model.creation_time;
      })
  changed_configuration current_id (err no_documents) = err configuration_not_found
  changed_configuration current_id (err e) = err e

  -- GetLast: the enabled configuration with the greatest `_id`.
  unfoldable pub get_last : String → Action Configurations Configuration
  get_last current_id cs =
      (changed_configuration current_id (m.find_last ConfModel (λ c. c.id) (λ c. c.enable) cs), cs)

  -- The model as MongoDB keeps it; its id is a new ObjectID.
  unfoldable pub new_model : ℤ → Configuration → Bool → Configurations → ConfModel
  new_model now conf enable cs = record {
    id = m.new_object_id (map (λ c. c.id) cs);
    network_id = conf.network_id;
    nodes = conf.nodes;
    creation_time = Time.stored now;
    enable = enable;
  }

  unfoldable pub insert_model : ConfModel → Action Configurations String
  insert_model model cs = elim (m.insert_one ConfModel (λ c. c.id == model.id) model cs) [
    | ok cs' ↦ (ok (m.hex model.id), cs')
    | err e ↦ (err e, cs)
  ]

  -- Add
  unfoldable pub add_configuration : ℤ → Configuration → Bool → Action Configurations String
  add_configuration now conf enable = do
    raise_if (conf.network_id =ₛ "") (text "network id not specified")
    raise_if (has_none conf.nodes) (text "you must provide at leat one node")
    (λ cs. insert_model (new_model now conf enable cs) cs)
