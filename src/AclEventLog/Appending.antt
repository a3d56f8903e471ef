-- ===== src/AclEventLog/Appending.antt =====
-- What AddLog of acleventlog.go does.
use any_sync_coordinator.Prelude.{◌≡◌, [], ◌∷◌, ◌++◌, ◌==◌, map, arith}
use any_sync_coordinator.Outcome.{ok}
use any_sync_coordinator.Docs.{World, ObjectId, AclEventLogEntry}
use any_sync_coordinator.Mongo.{Mongo, Documented}
use any_sync_coordinator.AclEventLog.{add_log}

-- The `_id` of the next event.
abbrev pub next_event_id : Mongo → World → ObjectId
next_event_id m w = m.new_object_id (map (λ r. r.id) w.acl_event_log)

abbrev pub with_event : AclEventLogEntry → World → World
with_event event w = record w { acl_event_log = w.acl_event_log ++ event ∷ [] }

-- An event that is added is the last of the log, with the next id, and nothing else is changed.
pub add_log-ok :
    {m : Mongo}
    → Documented m
    → (event : ObjectId → AclEventLogEntry) (w : World) (u : Unit {0})
    → (add_log m event w).0 ≡ ok u
    → (add_log m event w).1 ≡ with_event (event (next_event_id m w)) w
unfolding add_log
add_log-ok {m} law event w u h =
    let id = next_event_id m w in
    ground (arith, law.insert_one_lem AclEventLogEntry (λ r. r.id == id) (event id) w.acl_event_log)
