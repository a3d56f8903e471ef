-- ===== src/RpcHandler/Many.antt =====
-- What SpaceStatusCheckMany answers.
use any_sync_coordinator.Prelude.{
  String, ℤ, pos, Option, none, some, false, ◌=ₛ◌, ◌==◌, first, if◌then◌else◌,
}
use any_sync_coordinator.Docs.{World, Limits, SpaceLimits, SpaceDoc, status_entry}
use any_sync_coordinator.Docs.Status
use any_sync_coordinator.Docs.SpaceType
use any_sync_coordinator.Time
use any_sync_coordinator.Prelude.Int.{◌*ℤ◌}
use any_sync_coordinator.Mongo.{Mongo, Documented}
use any_sync_coordinator.Keys.{Keys}
use any_sync_coordinator.Coordinator.{Request, Parts}
use any_sync_coordinator.RpcHandler.{StatusPayload, stored, not_exists, owner, unknown}
use any_sync_coordinator.SpaceStatus.Change.{days}
use any_sync_coordinator.SpaceStatus.Keyed.{space_at}

-- The limits that are stored for an account, or the defaults.
abbrev pub limits_or_default : SpaceLimits → Option Limits → SpaceLimits
limits_or_default d none = d
limits_or_default d (some l) = record {
  space_members_read = l.space_members_read;
  space_members_write = l.space_members_write;
  shared_spaces_limit = l.shared_spaces_limit;
}

-- What an account is shown of a space, by the days for which a deleted space is kept.
abbrev pub shown_space : String → ℤ → SpaceLimits → SpaceDoc → StatusPayload
shown_space account deletion_days limits d = record {
  status = stored d.status;
  deletion_timestamp =
      if d.status == Status.created
      then pos 0
      else Time.unix (Time.add (d.deletion_timestamp *ℤ Time.second) (days deletion_days));
  permissions =
      if d.identity =ₛ account
      then (if (status_entry d).type == SpaceType.one_to_one then unknown else owner)
      else unknown;
  limits =
      if d.identity =ₛ account
      then some (record {
        read_members = limits.space_members_read;
        write_members = limits.space_members_write;
      })
      else none;
  is_shared = d.is_shareable;
}

abbrev pub shown_or_missing : String → ℤ → SpaceLimits → Option SpaceDoc → StatusPayload
shown_or_missing account deletion_days limits (some d) = shown_space account deletion_days limits d
shown_or_missing account deletion_days limits none = record {
  status = not_exists;
  deletion_timestamp = pos 0;
  permissions = unknown;
  limits = none;
  is_shared = false;
}

module _ {m : Mongo} (law : Documented m) (k : Keys) (c : Parts k.PubKey) (req : Request k.PubKey)
    (w : World) where
  -- The limits of an account.
  abbrev pub limits_of : String → SpaceLimits
  limits_of account =
      limits_or_default c.default_limits (first (λ l. l.identity =ₛ account) w.account_limits)

  abbrev pub shown_at : String → String → StatusPayload
  shown_at account i =
      shown_or_missing account c.service.conf.deletion_period_days (limits_of account)
        (space_at i w.spaces)
