-- ===== src/NodeConfSource/Adding.antt =====
-- What is read after a configuration has been added.
use any_sync_coordinator.Prelude.{
  ℕ, ◌<◌, String, true, ◌≡◌, ◌⊎◌, refl, sym, ap, ◌∙◌, subst, inl, inr, some, List, [], ◌∷◌, ◌++◌, ℤ,
  map, ◌==◌, ◌=ₛ◌, All, All-append, select, select-append, arith, if◌then◌else◌,
}
use any_sync_coordinator.Outcome.{configuration_not_changed, driver, ok, err, raise_if, >>=-reads}
use any_sync_coordinator.Docs.{ObjectId}
use any_sync_coordinator.Prelude.Int.{◌*ℤ◌, ◌/ℤ◌}
use any_sync_coordinator.Time
use any_sync_coordinator.Mongo.{Mongo, Documented, or_no_documents, last, sort_by}
use any_sync_coordinator.Mongo.Ordered.{IsOrdered, IsOrdered-select, sort_ordered}
use any_sync_coordinator.Coordinator.{Configuration}
use any_sync_coordinator.NodeConfSource.{
  ConfModel, Configurations, changed_configuration, get_last, new_model, insert_model,
  add_configuration,
}

last-append : {A : Type 0} (l : List A) (a : A) → last (l ++ a ∷ []) ≡ some a
last-append [] a = refl
last-append (x ∷ []) a = refl
last-append (x ∷ y ∷ l) a = last-append (y ∷ l) a

abbrev pub Below : ObjectId → ConfModel → Type 0
Below i c = c.id < i

IsOrdered-append :
    (cs : Configurations) (c : ConfModel)
    → IsOrdered (λ x. x.id) cs
    → All (Below c.id) cs
    → IsOrdered (λ x. x.id) (cs ++ c ∷ [])
IsOrdered-append [] c h b = (tt, tt)
IsOrdered-append (x ∷ cs) c h b =
    (All-append (λ y. x.id < y.id) cs (c ∷ []) h.0 (b.0, tt), IsOrdered-append cs c h.1 b.1)

-- The enabled configuration with the greatest id is the one that was appended.
last_enabled :
    (cs : Configurations) (c : ConfModel)
    → c.enable ≡ true
    → IsOrdered (λ x. x.id) cs
    → All (Below c.id) cs
    → last (sort_by (λ x. x.id) (select (λ x. x.enable) (cs ++ c ∷ []))) ≡ some c
last_enabled cs c h o b =
    ap last (
      sort_ordered (λ x. x.id) (select (λ x. x.enable) (cs ++ c ∷ []))
        (IsOrdered-select (λ x. x.id) (λ x. x.enable) (cs ++ c ∷ []) (IsOrdered-append cs c o b)))
    ∙ ap last (select-append (λ x. x.enable) cs (c ∷ []))
    ∙ ap (λ b. last (select (λ x. x.enable) cs ++ (if b then c ∷ [] else []))) h
    ∙ last-append (select (λ x. x.enable) cs) c

module _ (m : Mongo) (now : ℤ) (conf : Configuration) where
  -- What GetLast answers once the configuration has been added under an id; the time is that of the
  -- call in whole milliseconds, rounded down.
  abbrev pub Answered : String → String → Configurations → Type 0
  Answered id current_id cs' =
      (get_last m current_id cs' ≡ (
        if id =ₛ current_id
            then err configuration_not_changed
            else ok (record {
              id = id;
              network_id = conf.network_id;
              nodes = conf.nodes;
              creation_time = (now /ℤ 1_000_000) *ℤ 1_000_000;
            }),
        cs',
      ))
      ⊎ ((n : ℕ) × (get_last m current_id cs' ≡ (err (driver n), cs')))

module _ {m : Mongo} (law : Documented m) (now : ℤ) (conf : Configuration)
    (cs : Configurations) where
  added : ConfModel
  added = new_model m now conf true cs

  insert_model-ok :
      (id : String)
      → (insert_model m added cs).0 ≡ ok id
      → (id ≡ m.hex added.id) × ((insert_model m added cs).1 ≡ cs ++ added ∷ [])
  unfolding insert_model
  insert_model-ok id h =
      ground (arith, law.insert_one_lem ConfModel (λ c. c.id == added.id) added cs)

  get_last-after :
      (current_id : String)
      → IsOrdered (λ x. x.id) cs
      → All (Below added.id) cs
      → (get_last m current_id (cs ++ added ∷ [])
          ≡ (changed_configuration m current_id (ok added), cs ++ added ∷ []))
        ⊎ ((n : ℕ) × (get_last m current_id (cs ++ added ∷ [])
              ≡ (err (driver n), cs ++ added ∷ [])))
  unfolding get_last changed_configuration
  get_last-after current_id o b =
      elim (law.find_last_lem ConfModel (λ c. c.id) (λ c. c.enable) (cs ++ added ∷ [])) [
        | inl p ↦ inl (
            ap (λ r. (changed_configuration m current_id r, cs ++ added ∷ []))
              (p
                ∙ ap or_no_documents
                    (last_enabled cs added (unfold added in unfold new_model in refl) o b)))
        | inr (n, p) ↦ inr (n, ap (λ r. (changed_configuration m current_id r, cs ++ added ∷ [])) p)
      ]

  answered :
      (current_id : String)
      → IsOrdered (λ x. x.id) cs
      → All (Below added.id) cs
      → Answered m now conf (m.hex added.id) current_id (cs ++ added ∷ [])
  unfolding changed_configuration added new_model Time.stored
  answered current_id o b = get_last-after current_id o b

  -- Where the ids of the stored configurations grow and the new ObjectID is greater than all of them:
  -- after an enabled configuration has been added under an id, GetLast tells a caller who names that
  -- id that nothing has changed, and returns the new configuration to any other; or the driver fails.
  pub add_configuration-get_last :
      (id current_id : String)
      → IsOrdered (λ x. x.id) cs
      → All (Below (m.new_object_id (map (λ c. c.id) cs))) cs
      → (add_configuration m now conf true cs).0 ≡ ok id
      → Answered m now conf id current_id (add_configuration m now conf true cs).1
  unfolding add_configuration raise_if added new_model
  add_configuration-get_last id current_id o b h =
      let (u, p, s, h1) = >>=-reads _ _ cs id refl h in
      let (v, q, t, h2) = >>=-reads _ _ cs id refl h1 in
      let (same, world) = insert_model-ok id h2 in
      subst (Answered m now conf id current_id) (sym (ap (λ r. r.1) (s ∙ t) ∙ world)) (
        subst (λ j. Answered m now conf j current_id (cs ++ added ∷ [])) (sym same)
          (answered current_id o b))
