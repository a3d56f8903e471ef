-- ===== src/SpaceStatus/Transition.antt =====
-- What one change of status requires and does, seen through the ids of spaces.
use any_sync_coordinator.Prelude.{
  ℕ, String, true, false, ◌≡◌, ◌⊎◌, inl, inr, subst, ◌=ₛ◌, ap, ◌∙◌, some, Bool-cases, [], ◌∷◌, ◌++◌,
  first-passes, if◌then◌else◌,
}
use any_sync_coordinator.Outcome.{ok}
use any_sync_coordinator.Docs.{World, SpaceDoc, StatusEntry, status_entry, LogStatus}
use any_sync_coordinator.Mongo.{Mongo, Documented}
use any_sync_coordinator.Keys.{Keys, account_or_empty}
use any_sync_coordinator.DeletionLog.Appending.{status_record, next_id}
use any_sync_coordinator.SpaceStatus.{
  StatusChange, modify_query, modify_status_op, log_status, set_status_tx,
}
use any_sync_coordinator.SpaceStatus.Effect.{set_status_tx-effect}
use any_sync_coordinator.SpaceStatus.Invariant.{IsConsistent, modify_query-matches}
use any_sync_coordinator.SpaceStatus.Keyed.{
  space_at, op-space_id, space_at-replace, space_at_of_first,
}

-- What a successful change of status has found and done.
pub record Changed (k : Keys) (c : StatusChange k.PubKey) (old : ℕ) (w w' : World) (d : SpaceDoc)
    : Type 0 where
  -- The space had the old status, and the owner that the change names.
  pub was : space_at c.space_id w.spaces ≡ some d
  pub status : d.status ≡ old
  pub owner :
      ((account_or_empty k c.identity =ₛ "") ≡ true) ⊎ (d.identity ≡ account_or_empty k c.identity)
  -- That space is updated, and every other is as it was.
  pub spaces :
      (j : String)
      → space_at j w'.spaces
        ≡ (if c.space_id =ₛ j then some (modify_status_op c d) else space_at j w.spaces)

module _ {m : Mongo} (law : Documented m) (k : Keys) (c : StatusChange k.PubKey) (old : ℕ) where
  -- A change that succeeds, with the entry that it returns.
  pub set_status_tx-result :
      (w : World) (e : StatusEntry)
      → (c.space_id =ₛ "") ≡ false
      → IsConsistent w
      → (set_status_tx m k c old w).0 ≡ ok e
      → (d : SpaceDoc) × (s : LogStatus) × Changed k c old w (set_status_tx m k c old w).1 d
        × (log_status c.status ≡ ok s)
        × (e ≡ status_entry (modify_status_op c d))
        × ((set_status_tx m k c old w).1.deletion_log
            ≡ w.deletion_log ++ status_record (next_id m w) c.space_id d.identity s ∷ [])
  set_status_tx-result w e named h p =
      let (d, s, found, logs, shape, world) = set_status_tx-effect law k c old w e p in
      let q = modify_query k c old in
      let (same, was, owner) =
        modify_query-matches k c old d (first-passes q w.spaces d found) named in
      (
        d,
        s,
        record {
          was =
              subst (λ i. space_at i w.spaces ≡ some d) same
                (space_at_of_first q w.spaces d h.keyed found);
          status = was;
          owner = elim (Bool-cases (account_or_empty k c.identity =ₛ "")) [
            | inl e ↦ inl e
            | inr e ↦ inr (owner e)
          ];
          spaces = λ j.
              ap (λ v. space_at j v.spaces) world
              ∙ (space_at-replace (modify_status_op c) (op-space_id c) j q w.spaces d h.keyed found
                  ∙ ap (λ i. if i =ₛ j then some (modify_status_op c d) else space_at j w.spaces)
                      same);
        },
        logs,
        shape,
        ap (λ v. v.deletion_log) world,
      )

  -- On consistent collections, a change of status of a named space succeeds only from the old
  -- status and for the owner that it names, if it names one. It then updates that space alone,
  -- and appends one record for it, with the status to be shown and the owner of the space as its
  -- file group.
  pub set_status_tx-Changed :
      (w : World) (e : StatusEntry)
      → (c.space_id =ₛ "") ≡ false
      → IsConsistent w
      → (set_status_tx m k c old w).0 ≡ ok e
      → (d : SpaceDoc) × (s : LogStatus) × Changed k c old w (set_status_tx m k c old w).1 d
        × (log_status c.status ≡ ok s)
        × ((set_status_tx m k c old w).1.deletion_log
            ≡ w.deletion_log ++ status_record (next_id m w) c.space_id d.identity s ∷ [])
  set_status_tx-Changed w e named h p =
      let (d, s, ch, logs, _, log) = set_status_tx-result w e named h p in (d, s, ch, logs, log)
