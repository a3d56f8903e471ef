-- ===== src/SpaceStatus/Sharing.antt =====
-- spacestatus/spacestatus.go: MakeShareable and MakeUnshareable.
use any_sync_coordinator.Prelude.{
  ℕ, ◌%◌, ◌^◌, String, Bool, true, false, not, ◌&&◌, Option, none, some, ◌==◌, ◌=ₛ◌, leb,
  if◌then◌else◌,
}
use any_sync_coordinator.Outcome.{space_limit_reached, ok, err, Action, pure, raise_if, ◌>>=◌, ◌>>◌}
use any_sync_coordinator.Docs.{World, SpaceDoc}
use any_sync_coordinator.Docs.Status
use any_sync_coordinator.Mongo.{Mongo, tx}
use any_sync_coordinator.SpaceStatus.{status}

abbrev type_is : Option ℕ → ℕ → Bool
type_is none type = false
type_is (some t) type = t == type

-- The shareable spaces of an account and type that count towards the limit.
unfoldable pub shareable_query : String → ℕ → SpaceDoc → Bool
shareable_query identity type d =
    d.identity =ₛ identity
    && (type_is d.type type && (d.status == Status.created && d.is_shareable))

module _ (m : Mongo) (space_id : String) where
  -- The update that sets isShareable.
  unfoldable pub set_shareable : Bool → Action World (Unit {0})
  set_shareable shareable w =
      elim (m.update_one SpaceDoc (λ d. d.space_id =ₛ space_id)
        (λ d. record d { is_shareable = shareable }) w.spaces) [
          | ok spaces ↦ (ok tt, record w { spaces = spaces })
          | err e ↦ (err e, w)
        ]

  unfoldable pub make_shareable_tx : ℕ → ℕ → Action World (Unit {0})
  make_shareable_tx space_type limit = do
    entry ← status m space_id
    if entry.is_shareable then pure tt else do
      count ← (λ w.
          (m.count_documents SpaceDoc (shareable_query entry.identity space_type) w.spaces, w))
      raise_if (leb limit (count % 2 ^ 32)) space_limit_reached
      set_shareable true

  unfoldable pub make_shareable : ℕ → ℕ → Action World (Unit {0})
  make_shareable space_type limit = tx m (make_shareable_tx space_type limit)

  unfoldable pub make_unshareable_tx : Action World (Unit {0})
  make_unshareable_tx = do
    entry ← status m space_id
    if not entry.is_shareable then pure tt else set_shareable false

  unfoldable pub make_unshareable : Action World (Unit {0})
  make_unshareable = tx m make_unshareable_tx
