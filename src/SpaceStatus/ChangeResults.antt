-- ===== src/SpaceStatus/ChangeResults.antt =====
-- What ChangeStatus of spacestatus.go requires, by the status that it is asked for, and what it has
-- then done.
use any_sync_coordinator.Prelude.{
  false, refl, ◌≡◌, ◌⊎◌, sym, subst, ap, ◌∙◌, inl, inr, ◌=ₛ◌, ◌==◌, Bool-cases, none, some, ℤ, pos,
  arith,
}
use any_sync_coordinator.Outcome.{
  Action, Result-cases, raise, ok, pure, lift, ◌>>=◌, ◌>>◌, >>=-ok, >>=-reads,
}
use any_sync_coordinator.Docs.{World, SpaceDoc, StatusEntry, LogStatus}
use any_sync_coordinator.Docs.Status
use any_sync_coordinator.Time
use any_sync_coordinator.Mongo.{Mongo, Documented}
use any_sync_coordinator.Mongo.Laws.{tx-ok}
use any_sync_coordinator.Keys.{Keys}
use any_sync_coordinator.SpaceStatus.{
  StatusChange, Service, modify_status_op, log_status, check_limit_tx, set_status, set_status_tx,
  payload_type_number,
}
use any_sync_coordinator.SpaceStatus.Change.{
  verified_or_unexpected, restore_tx, timed_change, change_status,
}
use any_sync_coordinator.SpaceStatus.Invariant.{IsConsistent}
use any_sync_coordinator.SpaceStatus.Reads.{check_limit_tx-same}
use any_sync_coordinator.SpaceStatus.Logged.{
  IsWithin, check_limit-IsWithin, Logged, set_status_tx-Logged,
}

module _ {m : Mongo} (law : Documented m) (k : Keys) where
  module _ (s : Service k.PubKey) (now : ℤ) (c : StatusChange k.PubKey)
      (named : (c.space_id =ₛ "") ≡ false) where
    -- A space that is created again, with no deletion data.
    abbrev pub restored : SpaceDoc → SpaceDoc
    restored d = record d {
      status = Status.created;
      deletion_payload = none;
      deletion_payload_type = 0;
      deletion_timestamp = pos 0;
      to_be_deleted_timestamp = some (pos 0);
    }

    -- A space that waits for its deletion, with the payload and the times of the request.
    abbrev pub pended : SpaceDoc → SpaceDoc
    pended d = record d {
      status = Status.deletion_pending;
      deletion_payload = c.deletion_payload;
      deletion_payload_type = payload_type_number c.deletion_payload_type;
      deletion_timestamp = Time.unix now;
      to_be_deleted_timestamp = some (Time.unix (Time.add now s.deletion_period));
    }

    -- The change that is verified: the request, with the time of the call and the time that lies
    -- a deletion period later.
    abbrev pub dated : StatusChange k.PubKey
    dated = record {
      deletion_payload_type = c.deletion_payload_type;
      deletion_payload = c.deletion_payload;
      deletion_payload_id = c.deletion_payload_id;
      deletion_timestamp = Time.unix now;
      to_be_deleted_timestamp = Time.unix (Time.add now s.deletion_period);
      identity = c.identity;
      status = c.status;
      peer_id = c.peer_id;
      space_id = c.space_id;
      network_id = c.network_id;
    }

    is_restored : c.status ≡ Status.created → (d : SpaceDoc) → modify_status_op c d ≡ restored d
    unfolding modify_status_op
    is_restored p d = rw p refl

    is_pended :
        c.status ≡ Status.deletion_pending
        → (d : SpaceDoc) → modify_status_op (timed_change m k s now c) d ≡ pended d
    unfolding modify_status_op timed_change
    is_pended p d = rw p refl

    -- A space that was pending is created again, within the limit of its account.
    abbrev pub Restored : StatusEntry → World → World → Type 0
    Restored e w w' =
        (c.status ≡ Status.created)
        × Logged law k c.space_id c.identity Status.deletion_pending restored LogStatus.ok e w w'
        × IsWithin law k s.conf c.identity w'

    -- A space that was created is pending, for a change that is verified with its times set.
    abbrev pub Pended : StatusEntry → World → World → Type 0
    Pended e w w' =
        (c.status ≡ Status.deletion_pending)
        × (s.verify dated ≡ ok tt)
        × Logged law k c.space_id c.identity Status.created pended LogStatus.remove_prepare e w w'

    restore-Restored :
        (e : StatusEntry) (w : World)
        → IsConsistent w
        → c.status ≡ Status.created
        → (restore_tx m k s c w).0 ≡ ok e
        → Restored e w (restore_tx m k s c w).1
    unfolding restore_tx pure log_status
    restore-Restored e w h p x =
        let check = check_limit_tx m k s.conf c.identity in
        let (e', p1, s1) = >>=-ok (set_status_tx m k c Status.deletion_pending) _ w e x in
        let w1 = (set_status_tx m k c Status.deletion_pending w).1 in
        let (u, p2, s2, h2) =
          >>=-reads check (λ _. pure e') w1 e (check_limit_tx-same m w1 k s.conf c.identity)
            (ap (λ r. r.0) (sym s1) ∙ x) in
        let same : e' ≡ e = cc h2 in
        subst (Restored e w) (sym (ap (λ r. r.1) (s1 ∙ s2))) (
          p,
          subst
              (λ y.
                Logged law k c.space_id c.identity Status.deletion_pending restored LogStatus.ok y w
                  w1)
              same
              (set_status_tx-Logged law k c Status.deletion_pending restored LogStatus.ok e' w named
                (is_restored p) (ground (arith, p)) h p1),
          check_limit-IsWithin law k s.conf c.identity w1 u p2,
        )

    timed-space_id : (timed_change m k s now c).space_id ≡ c.space_id
    unfolding timed_change
    timed-space_id = refl

    timed-status : (timed_change m k s now c).status ≡ c.status
    unfolding timed_change
    timed-status = refl

    pend-Pended :
        (e : StatusEntry) (w : World)
        → IsConsistent w
        → c.status ≡ Status.deletion_pending
        → s.verify (timed_change m k s now c) ≡ ok tt
        → (set_status m k (timed_change m k s now c) Status.created w).0 ≡ ok e
        → Pended e w (set_status m k (timed_change m k s now c) Status.created w).1
    unfolding set_status log_status timed_change
    pend-Pended e w h p good x =
        let change = timed_change m k s now c in
        let (body, world) = tx-ok law (set_status_tx m k change Status.created) w e x in
        let still : (change.space_id =ₛ "") ≡ false = rw timed-space_id named in
        let shown : log_status change.status ≡ ok LogStatus.remove_prepare =
          rw (timed-status, p) refl in
        (
          p,
          good,
          subst
              (Logged law k c.space_id c.identity Status.created pended LogStatus.remove_prepare e
                w)
              (sym world)
              (set_status_tx-Logged law k change Status.created pended LogStatus.remove_prepare e w
                still (is_pended p) shown h body),
        )

    abbrev verified_pend : Action World StatusEntry
    verified_pend = do
      lift (verified_or_unexpected m k s (s.verify (timed_change m k s now c)))
      set_status m k (timed_change m k s now c) Status.created

    verified_pend-Pended :
        (e : StatusEntry) (w : World)
        → IsConsistent w
        → c.status ≡ Status.deletion_pending
        → (verified_pend w).0 ≡ ok e
        → Pended e w (verified_pend w).1
    unfolding ◌>>=◌
    verified_pend-Pended e w h p x = elim (Result-cases (s.verify (timed_change m k s now c))) [
      | inl (u, good) ↦
          let change = set_status m k (timed_change m k s now c) Status.created in
          let step : verified_pend w ≡ change w = rw good refl in
          subst (λ r. Pended e w r.1) (sym step)
            (pend-Pended e w h p good (ap (λ r. r.0) (sym step) ∙ x))
      | inr (er, bad) ↦ absurd (cc (rw bad at x))
    ]

    -- On consistent collections, a ChangeStatus of a named space that returns an entry was asked for
    -- one of two changes. It took a deletion back: the space was pending, is created with no deletion
    -- data, and its account has no more created spaces than the limit allows, if there is one. Or it
    -- asked for a deletion: the payload was verified with the time of the request and the time that
    -- lies a deletion period later, and the space, which was created, waits for its deletion with
    -- them and with the payload of the request. Either change is for the account that it names, leaves every other space as it is, and
    -- appends one record to the log with the status shown and the owner of the space; and the entry
    -- is the one that the space then has.
    pub change_status-ok :
        (e : StatusEntry) (w : World)
        → IsConsistent w
        → (change_status m k s now c w).0 ≡ ok e
        → Restored e w (change_status m k s now c w).1 ⊎ Pended e w (change_status m k s now c w).1
    unfolding change_status raise
    change_status-ok e w h x = elim (Bool-cases (c.status == Status.created)) [
      | inl p ↦
          let is : c.status ≡ Status.created = ground (arith, p) in
          let (body, world) = tx-ok law (restore_tx m k s c) w e (rw p at x) in
          rw p (inl (subst (Restored e w) (sym world) (restore-Restored e w h is body)))
      | inr p ↦ elim (Bool-cases (c.status == Status.deletion_pending)) [
        | inl q ↦
            let is : c.status ≡ Status.deletion_pending = ground (arith, q) in
            rw (p, q) (inr (verified_pend-Pended e w h is (rw (p, q) at x)))
        | inr q ↦ absurd (cc (rw (p, q) at x))
      ]
    ]
