-- ===== src/SpaceStatus/DeleterEntries.antt =====
-- What the deletion of one entry of a query does to every space.
use any_sync_coordinator.Prelude.{
  String, true, ◌≡◌, ◌⊎◌, refl, sym, subst, ap, ◌∙◌, inl, inr, ◌=ₛ◌, =ₛ_iff, =ₛ_refl, some,
  Bool-cases, first-passes, arith, if◌then◌else◌,
}
use any_sync_coordinator.Outcome.{ok, state-then_pure}
use any_sync_coordinator.Docs.{World, SpaceDoc, LogStatus}
use any_sync_coordinator.Docs.Status
use any_sync_coordinator.Mongo.{Mongo, Documented, Reliable}
use any_sync_coordinator.Mongo.Laws.{tx_atomic, tx-ok}
use any_sync_coordinator.Keys.{Keys}
use any_sync_coordinator.SpaceStatus.{
  modify_query, modify_status_op, log_status, find_status, set_status, set_status_tx,
}
use any_sync_coordinator.SpaceStatus.Deleter.{delete_change, process_entry}
use any_sync_coordinator.SpaceStatus.DeleterSafety.{
  deleted, op_deletes, some_same, pending_not_deleted,
}
use any_sync_coordinator.SpaceStatus.Invariant.{IsConsistent}
use any_sync_coordinator.SpaceStatus.Keyed.{space_at, DiffersFrom}
use any_sync_coordinator.SpaceStatus.Succeeds.{set_status-succeeds}
use any_sync_coordinator.SpaceStatus.Transition.{set_status_tx-Changed}

fits :
    (k : Keys) (d : SpaceDoc)
    → d.status ≡ Status.deletion_pending
    → modify_query k (delete_change k d.space_id) Status.deletion_pending d ≡ true
unfolding modify_query delete_change find_status
fits k d h = ground (arith, =ₛ_refl d.space_id)

logged_as : (k : Keys) (i : String) → log_status (delete_change k i).status ≡ ok LogStatus.remove
unfolding log_status delete_change
logged_as k i = refl

deletes_op :
    (k : Keys) (i : String) (d : SpaceDoc) → modify_status_op (delete_change k i) d ≡ deleted d
unfolding delete_change
deletes_op k i d = op_deletes (delete_change k i) d refl

module _ {m : Mongo} (law : Documented m) (sure : Reliable m) (k : Keys) where
  -- The deletion of one entry, by the transaction that it runs.
  abbrev change_entry : SpaceDoc → World → World
  change_entry x w = (set_status m k (delete_change k x.space_id) Status.deletion_pending w).1

  entry-change : (x : SpaceDoc) (w : World) → (process_entry m k x w).1 ≡ change_entry x w
  unfolding process_entry
  entry-change x w = rw (sure.steady.decode_lem x, process_entry) (state-then_pure _ _ w)

  -- A space that is pending is deleted.
  entry-pending :
      (x d : SpaceDoc) (w : World)
      → DiffersFrom "" x
      → IsConsistent w
      → space_at x.space_id w.spaces ≡ some d
      → d.status ≡ Status.deletion_pending
      → space_at x.space_id (change_entry x w).spaces ≡ some (deleted d)
  unfolding set_status delete_change
  entry-pending x d w named h there pending =
      let c = delete_change k x.space_id in
      let old = Status.deletion_pending in
      let same : d.space_id ≡ x.space_id =
        (=ₛ_iff d.space_id x.space_id).0
          (first-passes (λ y. y.space_id =ₛ x.space_id) w.spaces d there) in
      let done =
        set_status-succeeds law sure k c old named w d LogStatus.remove h.keyed there
          (subst (λ i. modify_query k (delete_change k i) old d ≡ true) same (fits k d pending))
          (logged_as k x.space_id) in
      let (body, world) = tx-ok law (set_status_tx m k c old) w _ done in
      let (d', s, ch, _, _) = set_status_tx-Changed law k c old w _ named h body in
      let d'_is_d : d' ≡ d = some_same (sym ch.was ∙ there) in
      ap (λ v. space_at x.space_id v.spaces) world
      ∙ ch.spaces x.space_id
      ∙ rw (=ₛ_refl x.space_id) (ap some (deletes_op k x.space_id d' ∙ ap deleted d'_is_d))

  -- An entry leaves every space alone but its own, and that too unless it is pending.
  entry-cases :
      (x : SpaceDoc) (j : String) (w : World)
      → DiffersFrom "" x
      → IsConsistent w
      → (space_at j (change_entry x w).spaces ≡ space_at j w.spaces)
        ⊎ (((x.space_id =ₛ j) ≡ true)
            × ((d : SpaceDoc) × (space_at j w.spaces ≡ some d)
                × (d.status ≡ Status.deletion_pending)))
  unfolding set_status delete_change
  entry-cases x j w named h =
      let c = delete_change k x.space_id in
      let old = Status.deletion_pending in
      elim (tx_atomic law (set_status_tx m k c old) w) [
        | inl same ↦ inl (ap (λ v. space_at j v.spaces) same)
        | inr (a, p, world) ↦
            let (d', s, ch, _, _) = set_status_tx-Changed law k c old w a named h p in
            elim (Bool-cases (x.space_id =ₛ j)) [
              | inl e ↦ inr (
                e,
                (
                  d',
                  subst (λ i. space_at i w.spaces ≡ some d') ((=ₛ_iff x.space_id j).0 e) ch.was,
                  ch.status,
                ),
              )
              | inr e ↦ inl (ap (λ v. space_at j v.spaces) world ∙ ch.spaces j ∙ rw e refl)
            ]
      ]

  module _ (j : String) (d : SpaceDoc) where
    -- A deleted space stays as it is.
    pub entry-deleted :
        (x : SpaceDoc) (w : World)
        → DiffersFrom "" x
        → IsConsistent w
        → space_at j w.spaces ≡ some (deleted d)
        → space_at j (process_entry m k x w).1.spaces ≡ some (deleted d)
    entry-deleted x w named h gone =
        ap (λ v. space_at j v.spaces) (entry-change x w) ∙ elim (entry-cases x j w named h) [
          | inl same ↦ same ∙ gone
          | inr (_, (d', there, pending)) ↦
              absurd (pending_not_deleted d' d pending (some_same (sym there ∙ gone)))
        ]

    -- A pending space is deleted by its own entry, and by no other.
    pub entry-deletes :
        (x : SpaceDoc) (w : World)
        → DiffersFrom "" x
        → IsConsistent w
        → space_at j w.spaces ≡ some d
        → d.status ≡ Status.deletion_pending
        → space_at j (process_entry m k x w).1.spaces
          ≡ (if x.space_id =ₛ j then some (deleted d) else some d)
    entry-deletes x w named h there pending =
        ap (λ v. space_at j v.spaces) (entry-change x w) ∙ elim (Bool-cases (x.space_id =ₛ j)) [
          | inl e ↦
              let own = (=ₛ_iff x.space_id j).0 e in
              rw e (
                subst (λ i. space_at i (change_entry x w).spaces ≡ some (deleted d)) own
                  (entry-pending x d w named h
                    (subst (λ i. space_at i w.spaces ≡ some d) (sym own) there) pending))
          | inr e ↦ rw e (elim (entry-cases x j w named h) [
            | inl same ↦ same ∙ there
            | inr (e', _) ↦ absurd (cc (e, e'))
          ])
        ]
