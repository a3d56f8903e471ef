-- ===== src/SpaceStatus/Effect.antt =====
-- What one change of status does to the collections, on success and on failure.
use any_sync_coordinator.Prelude.{
  ℕ, String, Bool, ◌≡◌, ◌⊎◌, inl, inr, Option-cases, some, first, replace_first, arith,
}
use any_sync_coordinator.Outcome.{Err, Result, Result-cases, ok, err, ◌>>=◌}
use any_sync_coordinator.Docs.{World, SpaceDoc, StatusEntry, status_entry, LogStatus}
use any_sync_coordinator.Mongo.{Mongo, Documented, Steady, IsFault, updated}
use any_sync_coordinator.Keys.{Keys}
use any_sync_coordinator.DeletionLog
use any_sync_coordinator.DeletionLog.Appending.{logged, status_record, next_id, add-ok, add_steady}
use any_sync_coordinator.SpaceStatus.{
  StatusChange, modify_query, modify_status_op, modify_status, log_status, set_status_tx,
}

-- The collections after a change of status.
abbrev pub changed : {PubKey : Type 0} (q : SpaceDoc → Bool) → StatusChange PubKey → World → World
changed q c w = record w { spaces = replace_first q (modify_status_op c) w.spaces }

-- The result of a change is no error of the log status.
abbrev pub log_status_or : LogStatus → Result LogStatus → LogStatus
log_status_or s (ok s') = s'
log_status_or s (err e) = s

module _ {m : Mongo} (law : Documented m) (k : Keys) (c : StatusChange k.PubKey) (old : ℕ) where
  abbrev query : SpaceDoc → Bool
  query = modify_query k c old

  -- A change of one document is made, or an error is returned.
  pub modify_status-effect :
      (w : World) (e : StatusEntry)
      → (modify_status m k c old w).0 ≡ ok e
      → (d : SpaceDoc) × (first query w.spaces ≡ some d)
        × (e ≡ status_entry (modify_status_op c d))
        × ((modify_status m k c old w).1 ≡ changed query c w)
  unfolding modify_status
  modify_status-effect w e h = elim (Option-cases (first query w.spaces)) [
    | inl p ↦ absurd (ground (arith, update))
    | inr (d, p) ↦ (
      d,
      p,
      ground (arith, update, law.decode_lem (modify_status_op c d)),
      ground (arith, update, law.decode_lem (modify_status_op c d)),
    )
  ]
    where
      update :
          (m.find_one_and_update SpaceDoc query (modify_status_op c) w.spaces
            ≡ updated
                (modify_status_op c)
                (replace_first query (modify_status_op c) w.spaces)
                (first query w.spaces))
          ⊎ IsFault (m.find_one_and_update SpaceDoc query (modify_status_op c) w.spaces)
      update = law.find_one_and_update_lem SpaceDoc query (modify_status_op c) w.spaces

  owner_kept : (d : SpaceDoc) → (modify_status_op c d).identity ≡ d.identity
  unfolding modify_status_op
  owner_kept d = ground arith

  -- A change of status that succeeds has updated the first document that its query finds, and
  -- appended one record with the matching log status and the owner of the space.
  pub set_status_tx-effect :
      (w : World) (e : StatusEntry)
      → (set_status_tx m k c old w).0 ≡ ok e
      → (d : SpaceDoc) × (s : LogStatus) × (first query w.spaces ≡ some d)
        × (log_status c.status ≡ ok s)
        × (e ≡ status_entry (modify_status_op c d))
        × ((set_status_tx m k c old w).1
            ≡ logged (changed query c w) (status_record (next_id m w) c.space_id d.identity s))
  unfolding set_status_tx ◌>>=◌
  set_status_tx-effect w e h = elim (Result-cases (modify_status m k c old w).0) [
    | inl (e', p) ↦ after_modify e' p
    | inr (x, p) ↦ absurd (ground arith)
  ]
    where
      after_log :
          (e' : StatusEntry) (p : (modify_status m k c old w).0 ≡ ok e') (s : LogStatus)
          → log_status c.status ≡ ok s
          → (i : String) × ((DeletionLog.add m c.space_id e'.identity s
                (modify_status m k c old w).1).0
              ≡ ok i)
            × (e' ≡ e)
            × ((set_status_tx m k c old w).1
                ≡ (DeletionLog.add m c.space_id e'.identity s (modify_status m k c old w).1).1)
      after_log e' p s q =
          elim (Result-cases
            (DeletionLog.add m c.space_id e'.identity s (modify_status m k c old w).1).0) [
              | inl (i, r) ↦ (i, r, ground arith, ground arith)
              | inr (x, r) ↦ absurd (ground arith)
            ]

      after_modify :
          (e' : StatusEntry)
          → (modify_status m k c old w).0 ≡ ok e'
          → (d : SpaceDoc) × (s : LogStatus) × (first query w.spaces ≡ some d)
            × (log_status c.status ≡ ok s)
            × (e ≡ status_entry (modify_status_op c d))
            × ((set_status_tx m k c old w).1
                ≡ logged (changed query c w) (status_record (next_id m w) c.space_id d.identity s))
      after_modify e' p = elim (Result-cases (log_status c.status)) [
        | inr (x, q) ↦ absurd (ground arith)
        | inl (s, q) ↦
            let (i, r, same, world) = after_log e' p s q in
            let (d, found, shape, w') = modify_status-effect w e' p in
            (
              d,
              s,
              found,
              q,
              cc,
              ground (
                arith,
                owner_kept d,
                add-ok law (modify_status m k c old w).1 c.space_id e'.identity s i r,
              ),
            )
      ]

module _ {m : Mongo} (law : Documented m) (steady : Steady m) (k : Keys) where
  modify_status-err :
      (c : StatusChange k.PubKey) (old : ℕ) (w : World) (x : Err)
      → (modify_status m k c old w).0 ≡ err x
      → (modify_status m k c old w).1 ≡ w
  unfolding modify_status
  modify_status-err c old w x h = elim (Option-cases (first (modify_query k c old) w.spaces)) [
    | inl p ↦ ground (arith, update)
    | inr (d, p) ↦ ground (arith, update, steady.decode_lem (modify_status_op c d))
  ]
    where
      update :
          (m.find_one_and_update SpaceDoc (modify_query k c old) (modify_status_op c) w.spaces
            ≡ updated
                (modify_status_op c)
                (replace_first (modify_query k c old) (modify_status_op c) w.spaces)
                (first (modify_query k c old) w.spaces))
          ⊎ IsFault
              (m.find_one_and_update SpaceDoc (modify_query k c old) (modify_status_op c) w.spaces)
      update =
          law.find_one_and_update_lem SpaceDoc (modify_query k c old) (modify_status_op c) w.spaces

  -- With a driver that neither fails to decode nor to insert, a change that fails writes nothing.
  pub set_status_tx-err :
      (c : StatusChange k.PubKey) (old : ℕ) (w : World) (x : Err) (s : LogStatus)
      → log_status c.status ≡ ok s
      → (set_status_tx m k c old w).0 ≡ err x
      → (set_status_tx m k c old w).1 ≡ w
  unfolding set_status_tx ◌>>=◌
  set_status_tx-err c old w x s logs h = elim (Result-cases (modify_status m k c old w).0) [
    | inl (e, p) ↦ absurd (
        ground (arith, add_steady law steady (modify_status m k c old w).1 c.space_id e.identity s))
    | inr (y, p) ↦ ground (arith, modify_status-err c old w y p)
  ]
