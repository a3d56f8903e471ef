-- ===== src/RpcHandler/Served.antt =====
-- Histories of calls: every call of the coordinator that can write, and the runs of the deleter,
-- in any order.
use any_sync_coordinator.Prelude.{String, false, ◌≡◌, sym, subst, ◌=ₛ◌, some, ℤ}
use any_sync_coordinator.Outcome.{Action, ok, pure, ◌>>=◌}
use any_sync_coordinator.Docs.{World, Bytes, SpaceDoc, Limits}
use any_sync_coordinator.Mongo.{Mongo, Documented}
use any_sync_coordinator.Keys.{Keys}
use any_sync_coordinator.Coordinator.{Request, Parts}
use any_sync_coordinator.Coordinator.Always.{Always, Always-bind, Always-pure}
use any_sync_coordinator.Coordinator.Keeps.{
  IsSafe, delete_account-Always, revert_account_deletion-Always, delete_space-Always,
  status_change-Always, space_sign-Always, account_limits_set-Always, acl_add_record-Always,
  make_space_shareable-Always, make_space_unshareable-Always,
}
use any_sync_coordinator.RpcHandler.{space_status_change}
use any_sync_coordinator.RpcHandler.Calls.{add_acl_record}
use any_sync_coordinator.RpcHandler.Spaces.{
  SpaceDeleteRequest, AccountDeleteRequest, SpaceSignRequest, handle_space_delete,
  handle_account_delete, handle_account_revert_deletion, handle_space_sign,
  handle_account_limits_set, handle_space_make_shareable, handle_space_make_unshareable,
}
use any_sync_coordinator.SpaceStatus.{PayloadType, log_status}
use any_sync_coordinator.SpaceStatus.Deleter.{delete}
use any_sync_coordinator.SpaceStatus.Invariant.{IsConsistent, shown, followed}
use any_sync_coordinator.SpaceStatus.Keyed.{space_at}
use any_sync_coordinator.SpaceStatus.KeepsUpdates.{delete-IsConsistent}
use any_sync_coordinator.SpaceStatus.Reach.{empty, empty-IsConsistent}

-- One call, with any request and any arguments, and whatever it returns. The space ids of the
-- requests that change a status are not empty, and a forced creation meets a driver that is steady.
pub data Served (m : Mongo) (k : Keys) (c : Parts k.PubKey) (w w' : World) : Type 1 where
  space_delete :
      (req : Request k.PubKey) (r : SpaceDeleteRequest)
      → (r.space_id =ₛ "") ≡ false
      → w' ≡ (handle_space_delete m k c req r w).1
      → Served m k c w w'
  account_delete :
      (req : Request k.PubKey) (r : AccountDeleteRequest)
      → w' ≡ (handle_account_delete m k c req r w).1
      → Served m k c w w'
  account_revert_deletion :
      (req : Request k.PubKey)
      → w' ≡ (handle_account_revert_deletion m k c req w).1
      → Served m k c w w'
  status_change :
      (req : Request k.PubKey) (i : String) (t : PayloadType) (payload : Bytes) (id : String)
      → (i =ₛ "") ≡ false
      → w' ≡ (space_status_change m k c req i t payload id w).1
      → Served m k c w w'
  sign :
      (req : Request k.PubKey) (r : SpaceSignRequest)
      → (r.space_id =ₛ "") ≡ false
      → IsSafe m r.force_request
      → w' ≡ (handle_space_sign m k c req r w).1
      → Served m k c w w'
  limits_set :
      (req : Request k.PubKey) (limits : Limits)
      → w' ≡ (handle_account_limits_set m k c req limits w).1
      → Served m k c w w'
  acl_add :
      (req : Request k.PubKey) (i : String) (payload : Bytes)
      → w' ≡ (add_acl_record m k c req i payload w).1
      → Served m k c w w'
  share :
      (req : Request k.PubKey) (i : String)
      → w' ≡ (handle_space_make_shareable m k c req i w).1
      → Served m k c w w'
  unshare :
      (req : Request k.PubKey) (i head : String)
      → w' ≡ (handle_space_make_unshareable m k c req i head w).1
      → Served m k c w w'
  run_deleter :
      (now now' : ℤ) → w' ≡ (delete m k c.service.deletion_period now now' w).1 → Served m k c w w'

-- Each call of a history meets a driver and answers of the other services of its own.
pub data History (k : Keys) (w : World) : World → Type 1 where
  here : History k w w
  next :
      {u v : World} (m : Mongo) (c : Parts k.PubKey)
      → Documented m
      → History k w u
      → Served m k c u v
      → History k w v

module _ {m : Mongo} (law : Documented m) (k : Keys) (c : Parts k.PubKey) where
  -- What a call returns after its operation does not touch the collections.
  keep :
      {A B : Type 0} {f : Action World A} (g : A → B) (w : World)
      → Always IsConsistent f
      → IsConsistent w
      → IsConsistent ((f >>= λ a. pure (g a)) w).1
  keep g w always h = (Always-bind _ _ always (λ _. Always-pure _)).at w h

  -- Every call keeps the invariant, also where it fails half-way.
  pub Served-IsConsistent : {w w' : World} → Served m k c w w' → IsConsistent w → IsConsistent w'
  unfolding handle_space_delete handle_account_delete handle_account_revert_deletion
      space_status_change handle_space_sign handle_account_limits_set add_acl_record
      handle_space_make_shareable handle_space_make_unshareable
  Served-IsConsistent {w} (space_delete req r named e) h = subst IsConsistent (sym e) (
      keep _ w
        (delete_space-Always law k c req r.space_id named r.deletion_duration r.deletion_payload
          r.deletion_payload_id)
        h)
  Served-IsConsistent {w} (account_delete req r e) h =
      subst IsConsistent (sym e)
        (keep _ w (delete_account-Always law k c req r.deletion_payload r.deletion_payload_id) h)
  Served-IsConsistent {w} (account_revert_deletion req e) h =
      subst IsConsistent (sym e) (keep _ w (revert_account_deletion-Always law k c req) h)
  Served-IsConsistent {w} (status_change req i t payload id named e) h =
      subst IsConsistent (sym e)
        (keep _ w (status_change-Always law k c req i named t payload id) h)
  Served-IsConsistent {w} (sign req r named safe e) h =
      subst IsConsistent (sym e)
        (keep _ w (space_sign-Always law k c req r.space_id named r.header r.force_request safe) h)
  Served-IsConsistent {w} (limits_set req limits e) h =
      subst IsConsistent (sym e) (keep _ w (account_limits_set-Always law k c req limits) h)
  Served-IsConsistent {w} (acl_add req i payload e) h =
      subst IsConsistent (sym e) (keep _ w (acl_add_record-Always law k c req i payload) h)
  Served-IsConsistent {w} (share req i e) h =
      subst IsConsistent (sym e) (keep _ w (make_space_shareable-Always law k c req i) h)
  Served-IsConsistent {w} (unshare req i head e) h =
      subst IsConsistent (sym e) (keep _ w (make_space_unshareable-Always law k c req i head) h)
  Served-IsConsistent {w} (run_deleter now now' e) h =
      subst IsConsistent (sym e) (delete-IsConsistent law k c.service.deletion_period now now' w h)

module _ (k : Keys) where
  -- Any history of calls keeps the invariant.
  pub History-IsConsistent : {w w' : World} → IsConsistent w → History k w w' → IsConsistent w'
  History-IsConsistent h here = h
  History-IsConsistent h (next m c law r s) =
      Served-IsConsistent law k c s (History-IsConsistent h r)

  -- Starting from an empty database, after any history of the coordinator's calls and of runs of
  -- the deleter, whatever fails in them: a node that follows the deletion log from its start
  -- has, for every space, the status that the space has. In the history the space ids of the
  -- calls that change a status are not empty, and a forced creation meets a driver that fails
  -- neither to decode nor to insert.
  pub served_log_follows :
      {w : World}
      → History k empty w
      → (j : String) (d : SpaceDoc) → space_at j w.spaces ≡ some d
      → log_status d.status ≡ ok (followed j w)
  unfolding shown
  served_log_follows {w} r j d e =
      subst (λ o. shown o ≡ ok (followed j w)) e
        ((History-IsConsistent empty-IsConsistent r).agrees j)
