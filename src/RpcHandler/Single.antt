-- ===== src/RpcHandler/Single.antt =====
-- SpaceStatusCheckMany against SpaceStatusCheck.
use any_sync_coordinator.Prelude.{
  String, ◌≡◌, ◌⊎◌, inl, inr, refl, List, [], ◌∷◌, ◌=ₛ◌, Bool-cases, if◌then◌else◌,
}
use any_sync_coordinator.Outcome.{space_not_exists, ok, err, pure, ◌>>=◌}
use any_sync_coordinator.Docs.{World, Limits, StatusEntry}
use any_sync_coordinator.Mongo.{Mongo}
use any_sync_coordinator.Keys.{Keys}
use any_sync_coordinator.AccountLimit.{get_limits}
use any_sync_coordinator.Coordinator.{Request, Parts, deletion_period}
use any_sync_coordinator.RpcHandler.{
  StatusPayload, missing_payload, shown_to, convert_status, member_limits, owner_payload,
  space_status_check,
}

module _ (m : Mongo) (k : Keys) (c : Parts k.PubKey) (req : Request k.PubKey) (w : World) where
  -- The payload is that of SpaceStatusCheck, or SpaceStatusCheck does not find the space.
  abbrev pub Agrees : String → StatusPayload → Type 0
  Agrees i p =
      ((space_status_check m k c req i w).0 ≡ ok p)
      ⊎ (((space_status_check m k c req i w).0 ≡ err space_not_exists) × (p ≡ missing_payload))

  abbrev pub AllAgree : List String → List StatusPayload → Type 0
  AllAgree [] [] = Unit
  AllAgree [] (p ∷ ps) = ⊥
  AllAgree (i ∷ is) [] = ⊥
  AllAgree (i ∷ is) (p ∷ ps) = Agrees i p × AllAgree is ps

  module _ (key : k.PubKey) (limits : Limits) (known : req.pub_key ≡ ok key)
      (read : get_limits m c.default_limits req.now (k.account key) w ≡ (ok limits, w)) where
    shown :
        (entry : StatusEntry)
        → (if entry.identity =ₛ k.account key
              then owner_payload m k c req (k.account key) entry
              else pure (convert_status (deletion_period c) entry))
            w
          ≡ (ok (shown_to (k.account key) (deletion_period c) (member_limits limits) entry), w)
    unfolding owner_payload shown_to pure ◌>>=◌
    shown entry = elim (Bool-cases (entry.identity =ₛ k.account key)) [
      | inl e ↦ rw (e, read) refl
      | inr e ↦ rw e refl
    ]
