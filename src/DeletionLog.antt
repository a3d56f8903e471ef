-- ===== src/DeletionLog.antt =====
-- deletionlog/deletionlog.go: the log of deletions and owner changes that file nodes follow.
pub mod Paging
pub mod Appending
use any_sync_coordinator.Prelude.{
  ℕ, ◌+◌, ◌-◌, String, Bool, true, false, ◌||◌, List, [], ◌∷◌, ◌==◌, ◌=ₛ◌, ltb, length, take, map,
  if◌then◌else◌,
}
use any_sync_coordinator.Outcome.{Result, ok, err, Action, pure, lift, ◌>>=◌}
use any_sync_coordinator.Docs.{World, ObjectId, DeletionRecord, LogStatus}
use any_sync_coordinator.Mongo.{Mongo}

abbrev pub default_limit : ℕ
default_limit = 1000

-- The limit after the default; the uint32 cannot overflow when one is added.
unfoldable pub effective_limit : ℕ → ℕ
effective_limit limit = if limit == 0 || ltb default_limit limit then default_limit else limit

-- What is cut from the fetched records: the one more that shows that there are more.
unfoldable pub cut_page : ℕ → List DeletionRecord → List DeletionRecord × Bool
cut_page limit records =
    if length records == limit then (take (length records - 1) records, true) else (records, false)

module _ (m : Mongo) where
  -- The query of GetAfter: everything, or what has a greater `_id`.
  unfoldable pub after_query : String → Result (DeletionRecord → Bool)
  after_query after_id =
      if after_id =ₛ ""
      then ok (λ r. true)
      else elim (m.object_id_from_hex after_id) [ ok i ↦ ok (λ r. ltb i r.id) | err e ↦ err e ]

  -- GetAfter: the error of the cursor is not looked at.
  unfoldable pub get_after : String → ℕ → Action World (List DeletionRecord × Bool)
  get_after after_id limit = do
    let limit' = effective_limit limit + 1
    q ← lift (after_query after_id)
    walked ← (λ w. (m.walk_sorted DeletionRecord (λ r. r.id) limit' q w.deletion_log, w))
    pure (cut_page limit' walked.0)

  -- InsertOne of a record without an `_id`.
  unfoldable pub insert : (ObjectId → DeletionRecord) → Action World String
  insert rec w =
      let id = m.new_object_id (map (λ r. r.id) w.deletion_log) in
      elim (m.insert_one DeletionRecord (λ r. r.id == id) (rec id) w.deletion_log) [
        | ok log ↦ (ok (m.hex id), record w { deletion_log = log })
        | err e ↦ (err e, w)
      ]

  unfoldable pub add : String → String → LogStatus → Action World String
  add space_id file_group status = insert λ i. record {
    id = i;
    space_id = space_id;
    file_group = file_group;
    status = status;
    acl_record_id = "";
  }

  unfoldable pub add_ownership_change : String → String → String → Action World String
  add_ownership_change space_id file_group acl_record_id = insert λ i. record {
    id = i;
    space_id = space_id;
    file_group = file_group;
    status = LogStatus.ownership_change;
    acl_record_id = acl_record_id;
  }
