-- ===== src/AccountLimit.antt =====
-- accountlimit/accountlimit.go: the limits of an account and those of a space.
pub mod RoundTrip
use any_sync_coordinator.Prelude.{ℕ, String, Bool, ◌||◌, ℤ, pos, ◌==◌, ◌=ₛ◌, if◌then◌else◌}
use any_sync_coordinator.Outcome.{
  Err, no_documents, Result, ok, err, Action, pure, raise, lift, ◌>>=◌, ◌>>◌,
}
use any_sync_coordinator.Docs.{World, Limits, SpaceLimits, StatusEntry}
use any_sync_coordinator.Docs.SpaceType
use any_sync_coordinator.Mongo.{Mongo}
use any_sync_coordinator.Time
use any_sync_coordinator.SpaceStatus.{status}

-- The file nodes: whether one is reached, its answer to AccountLimitSet, and the join of an
-- error with what rpcerr.Unwrap makes of it.
pub record FilePeer : Type 0 where
  pub reached : Result (Unit {0})
  pub account_limit_set : String → ℕ → Result (Unit {0})
  pub join_unwrapped : Err → Err

abbrev pub join_error : FilePeer → Result (Unit {0}) → Result (Unit {0})
join_error p (ok u) = ok u
join_error p (err e) = err (p.join_unwrapped e)

-- updateFileLimits
unfoldable pub update_file_limits : FilePeer → Limits → Action World (Unit {0})
update_file_limits p limits = do
  lift p.reached
  lift (join_error p (p.account_limit_set limits.identity limits.file_storage_bytes))

-- The limits of an account that has none of its own; `now` is the time of the call.
unfoldable pub limits_by_default : SpaceLimits → ℤ → String → Limits
limits_by_default d now identity = record {
  identity = identity;
  reason = "";
  file_storage_bytes = 0;
  space_members_read = d.space_members_read;
  space_members_write = d.space_members_write;
  shared_spaces_limit = d.shared_spaces_limit;
  updated_time = now;
}

abbrev pub or_default : SpaceLimits → ℤ → String → Result Limits → Result Limits
or_default d now identity (ok limits) = ok limits
or_default d now identity (err no_documents) = ok (limits_by_default d now identity)
or_default d now identity (err e) = err e

abbrev pub space_limits : Limits → SpaceLimits
space_limits l = record {
  space_members_read = l.space_members_read;
  space_members_write = l.space_members_write;
  shared_spaces_limit = l.shared_spaces_limit;
}

module _ (m : Mongo) where
  -- updateDbLimits: an upsert by the identity, of the limits as MongoDB keeps them.
  unfoldable pub update_db_limits : Limits → Action World (Unit {0})
  update_db_limits limits w =
      let kept = record limits { updated_time = Time.stored limits.updated_time } in
      elim (m.upsert_one Limits (λ l. l.identity =ₛ limits.identity) (λ l. kept) kept
        w.account_limits) [ ok ls ↦ (ok tt, record w { account_limits = ls }) | err e ↦ (err e, w) ]

  -- SetLimits
  unfoldable pub set_limits : FilePeer → ℤ → Limits → Action World (Unit {0})
  set_limits p now limits = do
    let limits' = record limits { updated_time = now }
    update_file_limits p limits'
    update_db_limits limits'

  module _ (d : SpaceLimits) (now : ℤ) where
    -- GetLimits
    unfoldable pub get_limits : String → Action World Limits
    get_limits identity w = (
      or_default d now identity (m.find_one Limits (λ l. l.identity =ₛ identity) w.account_limits),
      w,
    )

    -- The limits by the entry of the space.
    unfoldable pub limits_of_entry : StatusEntry → Action World SpaceLimits
    limits_of_entry entry =
        if entry.type == SpaceType.personal || entry.type == SpaceType.tech
        then pure
            (record { space_members_read = 1; space_members_write = 1; shared_spaces_limit = 0 })
        else if entry.type == SpaceType.one_to_one
        then pure
            (record { space_members_read = 0; space_members_write = 0; shared_spaces_limit = 3000 })
        else do limits ← get_limits entry.identity; pure (space_limits limits)

    -- GetLimitsBySpace
    unfoldable pub get_limits_by_space : String → Action World SpaceLimits
    get_limits_by_space space_id = do entry ← status m space_id; limits_of_entry entry
