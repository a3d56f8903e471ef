-- ===== src/AclEventLog.antt =====
-- acleventlog/acleventlog.go: the log of space and ACL events of an owner, which the payment
-- node follows.
pub mod Appending
pub mod Paging
pub mod Following
use any_sync_coordinator.Prelude.{
  ℕ, ◌+◌, ◌-◌, String, Bool, true, false, ◌&&◌, ◌||◌, List, ◌==◌, ◌=ₛ◌, ltb, length, take, map,
  if◌then◌else◌,
}
use any_sync_coordinator.Outcome.{
  no_identity, Result, ok, err, Action, pure, lift, raise_if, ◌>>=◌, ◌>>◌,
}
use any_sync_coordinator.Docs.{World, ObjectId, AclEventLogEntry}
use any_sync_coordinator.Mongo.{Mongo}

abbrev pub default_limit : ℕ
default_limit = 1000

-- The limit after the default; the uint32 cannot overflow when one is added.
unfoldable pub effective_limit : ℕ → ℕ
effective_limit limit = if limit == 0 || ltb default_limit limit then default_limit else limit

-- What is cut from the fetched events: the one more that shows that there are more.
unfoldable pub cut_page : ℕ → List AclEventLogEntry → List AclEventLogEntry × Bool
cut_page limit records =
    if length records == limit then (take (length records - 1) records, true) else (records, false)

module _ (m : Mongo) where
  -- The query of GetAfter: the events of the owner, or those with a greater `_id`.
  unfoldable pub after_query : String → String → Result (AclEventLogEntry → Bool)
  after_query identity after_id =
      if after_id =ₛ ""
      then ok (λ r. r.owner =ₛ identity)
      else elim (m.object_id_from_hex after_id) [
        | ok i ↦ ok (λ r. r.owner =ₛ identity && ltb i r.id)
        | err e ↦ err e
      ]

  -- GetAfter: the error of the cursor is not looked at.
  unfoldable pub get_after : String → String → ℕ → Action World (List AclEventLogEntry × Bool)
  get_after identity after_id limit = do
    raise_if (identity =ₛ "") no_identity
    let limit' = effective_limit limit + 1
    q ← lift (after_query identity after_id)
    walked ← (λ w. (m.walk_sorted AclEventLogEntry (λ r. r.id) limit' q w.acl_event_log, w))
    pure (cut_page limit' walked.0)

  -- AddLog of an event without an `_id`.
  unfoldable pub add_log : (ObjectId → AclEventLogEntry) → Action World (Unit {0})
  add_log event w =
      let id = m.new_object_id (map (λ r. r.id) w.acl_event_log) in
      elim (m.insert_one AclEventLogEntry (λ r. r.id == id) (event id) w.acl_event_log) [
        | ok log ↦ (ok tt, record w { acl_event_log = log })
        | err e ↦ (err e, w)
      ]
