-- ===== src/ConfApply/Applied.antt =====
-- What the coordinator reads once the command has stored a configuration.
use any_sync_coordinator.Prelude.{
  String, true, ◌≡◌, refl, sym, subst, ap, ◌∙◌, inl, inr, Bool-cases, Option, none, some,
  if◌then◌else◌, ℤ, map, All,
}
use any_sync_coordinator.Outcome.{Action, ok, pure, lift, ◌>>=◌, >>=-ok, >>=-reads}
use any_sync_coordinator.Docs.{Bytes}
use any_sync_coordinator.Mongo.{Mongo, Documented}
use any_sync_coordinator.Mongo.Ordered.{IsOrdered}
use any_sync_coordinator.Config.{Sections, Config, new_from_file}
use any_sync_coordinator.ConfApply.{Flags, Environment, apply_network, main}
use any_sync_coordinator.Coordinator.{Configuration}
use any_sync_coordinator.NodeConfSource.{Configurations, add_configuration}
use any_sync_coordinator.NodeConfSource.Adding.{Answered, Below, add_configuration-get_last}

module _ {m : Mongo} (law : Documented m) {x : Sections} (env : Environment x) (now : ℤ)
    (flags : Flags) (cs : Configurations) where
  -- The configuration of the named file is the one that is answered.
  pub record Applied (id current_id : String) (cs' : Configurations) : Type 0 where
    pub config : Config x
    pub configured : new_from_file env.read_file env.unmarshal_config flags.config_file ≡ ok config
    pub started : env.start config ≡ ok tt
    pub bytes : Bytes
    pub file : env.read_file flags.network ≡ ok bytes
    pub network : Configuration
    pub parsed : env.unmarshal_network bytes ≡ ok network
    pub answered : Answered m now network id current_id cs'

  module _ (id current_id : String) (enabled : flags.network_enable ≡ true)
      (ordered : IsOrdered (λ c. c.id) cs)
      (above : All (Below (m.new_object_id (map (λ c. c.id) cs))) cs) where
    apply-Applied :
        (apply_network m env now flags cs).0 ≡ ok id
        → Applied id current_id (apply_network m env now flags cs).1
    unfolding apply_network lift
    apply-Applied h =
        let (config, p1, s1, h1) = >>=-reads _ _ cs id refl h in
        let (u, p2, s2, h2) = >>=-reads _ _ cs id refl h1 in
        let (bytes, p3, s3, h3) = >>=-reads _ _ cs id refl h2 in
        let (network, p4, s4, h4) = >>=-reads _ _ cs id refl h3 in
        record {
          config = config;
          configured = p1;
          started = p2;
          bytes = bytes;
          file = p3;
          network = network;
          parsed = p4;
          answered =
              subst (λ r. Answered m now network id current_id r.1) (sym (s1 ∙ s2 ∙ s3 ∙ s4))
                (subst
                  (λ b.
                    Answered m now network id current_id (add_configuration m now network b cs).1)
                  (sym enabled)
                  (add_configuration-get_last law now network cs id current_id ordered above
                    (subst (λ b. (add_configuration m now network b cs).0 ≡ ok id) enabled h4)));
        }

    abbrev printed : Action Configurations (Option String)
    printed = do id ← apply_network m env now flags; pure (some id)

    main-help : (main m env now flags cs) ≡ (if flags.help then pure none else printed) cs
    unfolding main
    main-help = refl

    -- Only a run without the help flag prints an id.
    main-printed : (main m env now flags cs).0 ≡ ok (some id) → main m env now flags cs ≡ printed cs
    unfolding pure
    main-printed h = elim (Bool-cases flags.help) [
      | inr p ↦ main-help ∙ ap (λ b. (if b then pure none else printed) cs) p
      | inl p ↦
          let helped = main-help ∙ ap (λ b. (if b then pure none else printed) cs) p in
          absurd (cc (ap (λ r. r.0) (sym helped) ∙ h))
    ]

    -- A run of confapply with the enable flag that prints an id, where the ids of the stored
    -- configurations grow and the new ObjectID is greater than all of them: the configuration file was
    -- read, the components started, and the file of the network was read and parsed. GetLast then
    -- tells a caller who names the printed id that nothing has changed, and returns the network id
    -- and the nodes of that file to any other, with the printed id and the time of the run in whole
    -- milliseconds, rounded down; or the driver fails.
    pub main-Applied :
        (main m env now flags cs).0 ≡ ok (some id)
        → Applied id current_id (main m env now flags cs).1
    unfolding pure
    main-Applied h =
        let runs = main-printed h in
        let (id', q, step) =
          >>=-ok (apply_network m env now flags) (λ i. pure (some i)) cs (some id)
            (ap (λ r. r.0) (sym runs) ∙ h) in
        let same : id' ≡ id = cc (ap (λ r. r.0) (sym (runs ∙ step)) ∙ h) in
        subst (λ r. Applied id current_id r.1) (sym (runs ∙ step)) (apply-Applied (q ∙ ap ok same))
