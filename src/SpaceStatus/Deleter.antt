-- ===== src/SpaceStatus/Deleter.antt =====
-- spacestatus/spacedeleter.go: the periodic deletion of spaces whose time has come.
use any_sync_coordinator.Prelude.{
  String, Bool, true, false, ◌&&◌, Option, none, some, List, [], ◌∷◌, ℤ, pos, ◌==◌,
}
use any_sync_coordinator.Prelude.Int.{negate, leb_ℤ, ltb_ℤ}
use any_sync_coordinator.Outcome.{ok, err, Action, pure, ◌>>◌}
use any_sync_coordinator.Docs.{World, SpaceDoc}
use any_sync_coordinator.Docs.Status
use any_sync_coordinator.Mongo.{Mongo}
use any_sync_coordinator.Time
use any_sync_coordinator.Keys.{Keys}
use any_sync_coordinator.SpaceStatus.{StatusChange, zero_change, set_status}

-- `{"$gt": 0, "$lte": bound}`
abbrev pub is_due : ℤ → ℤ → Bool
is_due bound t = ltb_ℤ (pos 0) t && leb_ℤ t bound

abbrev is_missing : Option ℤ → Bool
is_missing none = true
is_missing (some t) = false

abbrev is_due_at : ℤ → Option ℤ → Bool
is_due_at bound none = false
is_due_at bound (some t) = is_due bound t

-- oldPendingSpacesQuery
unfoldable pub old_pending_query : ℤ → ℤ → SpaceDoc → Bool
old_pending_query now period d =
    d.status == Status.deletion_pending
    && (is_missing d.to_be_deleted_timestamp
        && is_due (Time.unix (Time.add now (negate period))) d.deletion_timestamp)

-- newPendingSpacesQuery
unfoldable pub new_pending_query : ℤ → SpaceDoc → Bool
new_pending_query now d =
    d.status == Status.deletion_pending && is_due_at (Time.unix now) d.to_be_deleted_timestamp

module _ (k : Keys) where
  -- The Deleter that Run hands to the space deleter.
  unfoldable pub delete_change : String → StatusChange k.PubKey
  delete_change space_id = record (zero_change {PubKey = k.PubKey}) {
    status = Status.deleted;
    space_id = space_id;
  }

module _ (m : Mongo) (k : Keys) where
  -- processEntry: a document that cannot be decoded is an error too.
  unfoldable pub process_entry : SpaceDoc → Action World (Unit {0})
  process_entry d w = elim (m.decode d) [
    | ok entry ↦
        (do set_status m k (delete_change k entry.space_id) Status.deletion_pending; pure tt) w
    | err e ↦ (err e, w)
  ]

  -- The loop over the cursor goes on after the error of an entry.
  unfoldable pub process_entries : List SpaceDoc → World → World
  process_entries [] w = w
  process_entries (d ∷ ds) w = process_entries ds (process_entry d w).1

  -- processQuery: the error of the cursor is not looked at.
  unfoldable pub process_query : (SpaceDoc → Bool) → Action World (Unit {0})
  process_query q w = elim (m.walk SpaceDoc q w.spaces) [
    | ok (docs, unread) ↦ (ok tt, process_entries docs w)
    | err e ↦ (err e, w)
  ]

  -- The two queries are built, each with its own reading of the clock, before the first is run.
  unfoldable pub delete : ℤ → ℤ → ℤ → Action World (Unit {0})
  delete period now now' = do
    process_query (old_pending_query now period)
    process_query (new_pending_query now')
