-- ===== src/DeletionLog/Appending.antt =====
-- What an insertion into the deletion log does.
use any_sync_coordinator.Prelude.{
  String, false, ◌≡◌, none, List, [], ◌∷◌, ◌++◌, ◌==◌, map, first, All, refl, arith,
}
use any_sync_coordinator.Outcome.{Err, ok, err}
use any_sync_coordinator.Docs.{World, LogStatus, DeletionRecord, ObjectId}
use any_sync_coordinator.Mongo.{Mongo, Documented, Steady}
use any_sync_coordinator.DeletionLog.{insert, add}

-- The record that Add writes.
abbrev pub status_record : ObjectId → String → String → LogStatus → DeletionRecord
status_record id space_id file_group s = record {
  id = id;
  space_id = space_id;
  file_group = file_group;
  status = s;
  acl_record_id = "";
}

-- The `_id` of the next record.
abbrev pub next_id : Mongo → World → ObjectId
next_id m w = m.new_object_id (map (λ r. r.id) w.deletion_log)

abbrev pub logged : World → DeletionRecord → World
logged w r = record w { deletion_log = w.deletion_log ++ r ∷ [] }

module _ {m : Mongo} (law : Documented m) (w : World) where
  -- An insertion that succeeds has appended its record, with the next id, and done nothing else.
  pub insert-ok :
      (rec : ObjectId → DeletionRecord) (i : String)
      → (insert m rec w).0 ≡ ok i
      → (i ≡ m.hex (next_id m w)) × ((insert m rec w).1 ≡ logged w (rec (next_id m w)))
  unfolding insert
  insert-ok rec i h = ground (
    arith,
    law.insert_one_lem DeletionRecord (λ r. r.id == next_id m w) (rec (next_id m w)) w.deletion_log,
  )

  pub insert-err :
      (rec : ObjectId → DeletionRecord) (e : Err)
      → (insert m rec w).0 ≡ err e
      → (insert m rec w).1 ≡ w
  unfolding insert
  insert-err rec e h = ground arith

  pub add-ok :
      (space_id file_group : String) (s : LogStatus) (i : String)
      → (add m space_id file_group s w).0 ≡ ok i
      → (add m space_id file_group s w).1
        ≡ logged w (status_record (next_id m w) space_id file_group s)
  unfolding add
  add-ok space_id file_group s i h = (insert-ok _ i h).1

  pub add-err :
      (space_id file_group : String) (s : LogStatus) (e : Err)
      → (add m space_id file_group s w).0 ≡ err e
      → (add m space_id file_group s w).1 ≡ w
  unfolding add
  add-err space_id file_group s e h = insert-err _ e h

fresh_absent :
    (rs : List DeletionRecord) (n : ObjectId)
    → All (λ i. (i == n) ≡ false) (map (λ r. r.id) rs)
    → first (λ r. r.id == n) rs ≡ none
fresh_absent [] n h = refl
fresh_absent (r ∷ rs) n h = rw h.0 (fresh_absent rs n h.1)

module _ {m : Mongo} (law : Documented m) (steady : Steady m) (w : World) where
  -- With a driver that does not fail there, an insertion succeeds.
  pub insert_steady :
      (rec : ObjectId → DeletionRecord)
      → (rec (next_id m w)).id ≡ next_id m w
      → insert m rec w ≡ (ok (m.hex (next_id m w)), logged w (rec (next_id m w)))
  unfolding insert
  insert_steady rec same = ground (
    arith,
    steady.insert_one_lem DeletionRecord (λ r. r.id == next_id m w) (rec (next_id m w))
        w.deletion_log,
    fresh_absent w.deletion_log (next_id m w)
        (law.new_object_id_fresh (map (λ r. r.id) w.deletion_log)),
  )

  pub add_steady :
      (space_id file_group : String) (s : LogStatus)
      → add m space_id file_group s w
        ≡ (ok (m.hex (next_id m w)), logged w (status_record (next_id m w) space_id file_group s))
  unfolding add
  add_steady space_id file_group s = insert_steady _ refl
