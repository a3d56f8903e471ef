-- ===== src/Coordinator/Sharing.antt =====
-- coordinator/coordinator.go: making a space shareable and taking that back.
use any_sync_coordinator.Prelude.{String, not, ◌=ₛ◌, if◌then◌else◌}
use any_sync_coordinator.Outcome.{
  forbidden, acl_head_is_missing, acl_non_empty, Action, Result, ok, err, lift, pure, raise_if,
  ◌>>=◌, ◌>>◌,
}
use any_sync_coordinator.Docs.{World, StatusEntry}
use any_sync_coordinator.Docs.EntryType
use any_sync_coordinator.Mongo.{Mongo}
use any_sync_coordinator.Keys.{Keys}
use any_sync_coordinator.AccountLimit.{get_limits_by_space}
use any_sync_coordinator.AclEventLog.{add_log}
use any_sync_coordinator.Coordinator.{Request, Parts}
use any_sync_coordinator.Coordinator.Receipts.{space_event}
use any_sync_coordinator.SpaceStatus.{status}
use any_sync_coordinator.SpaceStatus.Sharing.{make_shareable, make_unshareable}

-- `if err != nil { return coordinatorproto.ErrForbidden }`
abbrev pub or_forbidden : {A : Type 0} → Result A → Result A
or_forbidden (ok a) = ok a
or_forbidden (err e) = err forbidden

module _ (m : Mongo) (k : Keys) (c : Parts k.PubKey) (req : Request k.PubKey)
    (space_id : String) where
  unfoldable pub share : String → StatusEntry → Action World (Unit {0})
  share peer_id entry = do
    limits ← get_limits_by_space m c.default_limits req.now space_id
    make_shareable m space_id entry.type limits.shared_spaces_limit
    add_log m (space_event space_id peer_id entry.identity req.now EntryType.space_shared)

  -- MakeSpaceShareable
  unfoldable pub make_space_shareable : Action World (Unit {0})
  make_space_shareable = do
    key ← lift (or_forbidden req.pub_key)
    peer_id ← lift req.peer_id
    entry ← status m space_id
    raise_if (not (entry.identity =ₛ k.account key)) forbidden
    if entry.is_shareable then pure tt else share peer_id entry

  unfoldable pub unshare : String → String → StatusEntry → Action World (Unit {0})
  unshare acl_head peer_id entry = do
    has_record ← lift (c.acl.has_record space_id acl_head)
    raise_if (not has_record) acl_head_is_missing
    is_empty ← lift (c.acl.is_acl_empty space_id)
    raise_if (not is_empty) acl_non_empty
    make_unshareable m space_id
    add_log m (space_event space_id peer_id entry.identity req.now EntryType.space_unshared)

  -- MakeSpaceUnshareable
  unfoldable pub make_space_unshareable : String → Action World (Unit {0})
  make_space_unshareable acl_head = do
    key ← lift (or_forbidden req.pub_key)
    peer_id ← lift req.peer_id
    entry ← status m space_id
    raise_if (not (entry.identity =ₛ k.account key)) forbidden
    if not entry.is_shareable then pure tt else unshare acl_head peer_id entry
