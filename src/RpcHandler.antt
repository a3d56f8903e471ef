-- ===== src/RpcHandler.antt =====
-- coordinator/rpchandler.go: the calls of the coordinator, less the metrics that each records.
-- This file has the conversion of a status and the three calls that show or change one.
pub mod Network
pub mod Logs
pub mod Calls
pub mod Spaces
pub mod Following
pub mod Served
pub mod Answers
pub mod Many
pub mod Single
pub mod Messages
use any_sync_coordinator.Prelude.{
  ℕ, String, Bool, false, not, Option, none, some, List, [], ◌∷◌, ◌++◌, ℤ, pos, ◌==◌, ◌=ₛ◌,
  if◌then◌else◌,
}
use any_sync_coordinator.Prelude.Int.{◌*ℤ◌}
use any_sync_coordinator.Outcome.{
  Err, space_not_exists, Action, Result, ok, err, lift, pure, raise, continue, ◌>>=◌, ◌>>◌,
}
use any_sync_coordinator.Docs.{Bytes, World, StatusEntry, Limits, SpaceLimits}
use any_sync_coordinator.Docs.Status
use any_sync_coordinator.Docs.SpaceType
use any_sync_coordinator.Mongo.{Mongo}
use any_sync_coordinator.Time
use any_sync_coordinator.Keys.{Keys}
use any_sync_coordinator.AccountLimit.{get_limits}
use any_sync_coordinator.Coordinator.{Request, Parts, AclLimits, deletion_period}
use any_sync_coordinator.Coordinator.Deletions.{status_change}
use any_sync_coordinator.SpaceStatus.{PayloadType, status}

-- coordinatorproto.SpacePermissions
pub data Permissions : Type 0 where
  unknown owner : Permissions

-- coordinatorproto.SpaceStatusPayload; a missing space has a status of its own, beside the
-- numbers of the stored ones.
pub data ShownStatus : Type 0 where
  stored : ℕ → ShownStatus
  not_exists : ShownStatus

pub record StatusPayload : Type 0 where
  pub status : ShownStatus
  pub deletion_timestamp : ℤ
  pub permissions : Permissions
  pub limits : Option AclLimits
  pub is_shared : Bool

-- convertStatus, by the deletion period of the coordinator.
unfoldable pub convert_status : ℤ → StatusEntry → StatusPayload
convert_status period entry = record {
  status = stored entry.status;
  deletion_timestamp =
      if entry.status == Status.created
      then pos 0
      else Time.unix (Time.add (entry.deletion_timestamp *ℤ Time.second) period);
  permissions = unknown;
  limits = none;
  is_shared = entry.is_shareable;
}

abbrev pub member_limits : Limits → AclLimits
member_limits l = record {
  read_members = l.space_members_read;
  write_members = l.space_members_write;
}

-- The payload of a missing space.
abbrev pub missing_payload : StatusPayload
missing_payload = record {
  status = not_exists;
  deletion_timestamp = pos 0;
  permissions = unknown;
  limits = none;
  is_shared = false;
}

-- The payload of one of the spaces of SpaceStatusCheckMany: its owner is shown the permissions,
-- except on a one-to-one space, and the limits.
unfoldable pub shown_to : String → ℤ → AclLimits → StatusEntry → StatusPayload
shown_to account period limits entry =
    let p = convert_status period entry in
    if entry.identity =ₛ account
    then record p {
      permissions = if entry.type == SpaceType.one_to_one then p.permissions else owner;
      limits = some limits;
    }
    else p

-- The answer for a space whose status was asked for: a missing space is no error.
abbrev pub many_payload : String → ℤ → AclLimits → Result StatusEntry → Result StatusPayload
many_payload account period limits (ok entry) = ok (shown_to account period limits entry)
many_payload account period limits (err space_not_exists) = ok missing_payload
many_payload account period limits (err e) = err e

module _ (m : Mongo) (k : Keys) (c : Parts k.PubKey) (req : Request k.PubKey) where
  -- The payload of the caller's own space in SpaceStatusCheck: the permissions, except on a
  -- one-to-one space, and the limits.
  unfoldable pub owner_payload : String → StatusEntry → Action World StatusPayload
  owner_payload account entry = do
    let p = convert_status (deletion_period c) entry
    let permissions' = if entry.type == SpaceType.one_to_one then p.permissions else owner
    limits ← get_limits m c.default_limits req.now account
    pure (record p { permissions = permissions'; limits = some (member_limits limits) })

  -- SpaceStatusCheck: the limits are read for the owner only.
  unfoldable pub space_status_check : String → Action World StatusPayload
  space_status_check space_id = do
    entry ← status m space_id
    key ← lift req.pub_key
    if entry.identity =ₛ k.account key
        then owner_payload (k.account key) entry
        else pure (convert_status (deletion_period c) entry)

  -- The loop of SpaceStatusCheckMany over the ids.
  unfoldable pub check_each : String → AclLimits → List String → Action World (List StatusPayload)
  check_each account limits [] = pure []
  check_each account limits (i ∷ is) = do
    payload ← (λ w. (many_payload account (deletion_period c) limits (status m i w).0, w))
    payloads ← check_each account limits is
    pure (payload ∷ payloads)

  -- SpaceStatusCheckMany: the payloads, and the limit on shared spaces.
  unfoldable pub space_status_check_many : List String → Action World (List StatusPayload × ℕ)
  space_status_check_many space_ids = do
    key ← lift req.pub_key
    limits ← get_limits m c.default_limits req.now (k.account key)
    payloads ← check_each (k.account key) (member_limits limits) space_ids
    pure (payloads, limits.shared_spaces_limit)

  -- SpaceStatusChange
  unfoldable pub space_status_change :
      String → PayloadType → Bytes → String → Action World StatusPayload
  space_status_change space_id payload_type payload payload_id = do
    entry ← status_change m k c req space_id payload_type payload payload_id
    pure (convert_status (deletion_period c) entry)
