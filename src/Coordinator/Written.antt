-- ===== src/Coordinator/Written.antt =====
-- Writes to the other collections, a record of a change of owner, and the invariant of the spaces
-- and of their deletion log.
use any_sync_coordinator.Prelude.{
  String, false, ◌≡◌, inl, inr, refl, sym, subst, ◌||◌, ◌=ₛ◌, ◌==◌, List, map, ℤ, arith,
}
use any_sync_coordinator.Outcome.{Result, Result-cases, ok, err}
use any_sync_coordinator.Docs.{
  World, ObjectId, AclEventLogEntry, SpaceReceiptEntry, Limits, SpaceLimits, DeletionRecord,
  LogStatus,
}
use any_sync_coordinator.Docs.SpaceType
use any_sync_coordinator.Mongo.{Mongo, Documented}
use any_sync_coordinator.Time
use any_sync_coordinator.AccountLimit.{
  FilePeer, get_limits, get_limits_by_space, limits_of_entry, set_limits, update_db_limits,
  update_file_limits,
}
use any_sync_coordinator.AclEventLog.{add_log}
use any_sync_coordinator.CoordinatorLog.{add_space_receipt}
use any_sync_coordinator.DeletionLog.{add_ownership_change}
use any_sync_coordinator.DeletionLog.Appending.{insert-ok, insert-err, logged}
use any_sync_coordinator.Coordinator.Always.{
  Always, Always-same, Always-lift, Always-pure, Always-if, Always-bind,
}
use any_sync_coordinator.Coordinator.Acl.{follow_owner}
use any_sync_coordinator.SpaceStatus.{status}
use any_sync_coordinator.SpaceStatus.Invariant.{IsConsistent, replay_status-append}
use any_sync_coordinator.SpaceStatus.KeepsUpdates.{change_owner-IsConsistent}
use any_sync_coordinator.SpaceStatus.Reads.{status-same}

-- The invariant reads two of the collections only.
module _ (w : World) (h : IsConsistent w) where
  with_events : (es : List AclEventLogEntry) → IsConsistent (record w { acl_event_log = es })
  with_events es = record { keyed = h.keyed; named = h.named; agrees = h.agrees; clean = h.clean }

  with_receipts : (rs : List SpaceReceiptEntry) → IsConsistent (record w { receipts = rs })
  with_receipts rs = record { keyed = h.keyed; named = h.named; agrees = h.agrees; clean = h.clean }

  with_limits : (ls : List Limits) → IsConsistent (record w { account_limits = ls })
  with_limits ls = record { keyed = h.keyed; named = h.named; agrees = h.agrees; clean = h.clean }

  -- A record of a change of owner does not change what the log shows.
  pub with_ownership_change :
      (r : DeletionRecord) → r.status ≡ LogStatus.ownership_change → IsConsistent (logged w r)
  with_ownership_change r same = record {
    keyed = h.keyed;
    named = h.named;
    agrees =
        λ j. ground (arith, h.agrees j, same, replay_status-append j LogStatus.ok w.deletion_log r);
    clean = h.clean;
  }

module _ (m : Mongo) where
  add_log-at :
      (event : ObjectId → AclEventLogEntry) (w : World) (r : Result (List AclEventLogEntry))
      → IsConsistent w
      → (let id = m.new_object_id (map (λ x. x.id) w.acl_event_log) in
          m.insert_one AclEventLogEntry (λ x. x.id == id) (event id) w.acl_event_log)
        ≡ r
      → IsConsistent (add_log m event w).1
  unfolding add_log
  add_log-at event w (ok es) h p = rw (p, add_log) (with_events w h es)
  add_log-at event w (err e) h p = rw (p, add_log) h

  pub add_log-Always : (event : ObjectId → AclEventLogEntry) → Always IsConsistent (add_log m event)
  add_log-Always event = record { at = λ w h. add_log-at event w _ h refl }

  add_space_receipt-at :
      (now : ℤ) (entry : SpaceReceiptEntry) (w : World) (r : Result (List SpaceReceiptEntry))
      → IsConsistent w
      → m.insert_one SpaceReceiptEntry
          (λ d. false)
          (record entry { timestamp = Time.unix now })
          w.receipts
        ≡ r
      → IsConsistent (add_space_receipt m now entry w).1
  unfolding add_space_receipt
  add_space_receipt-at now entry w (ok rs) h p = rw (p, add_space_receipt) (with_receipts w h rs)
  add_space_receipt-at now entry w (err e) h p = rw (p, add_space_receipt) h

  pub add_space_receipt-Always :
      (now : ℤ) (entry : SpaceReceiptEntry) → Always IsConsistent (add_space_receipt m now entry)
  add_space_receipt-Always now entry = record {
    at = λ w h. add_space_receipt-at now entry w _ h refl;
  }

  update_db_limits-at :
      (limits : Limits) (w : World) (r : Result (List Limits))
      → IsConsistent w
      → m.upsert_one Limits
          (λ l. l.identity =ₛ limits.identity)
          (λ l. record limits { updated_time = Time.stored limits.updated_time })
          (record limits { updated_time = Time.stored limits.updated_time })
          w.account_limits
        ≡ r
      → IsConsistent (update_db_limits m limits w).1
  unfolding update_db_limits
  update_db_limits-at limits w (ok ls) h p = rw (p, update_db_limits) (with_limits w h ls)
  update_db_limits-at limits w (err e) h p = rw (p, update_db_limits) h

  pub set_limits-Always :
      (p : FilePeer) (now : ℤ) (limits : Limits) → Always IsConsistent (set_limits m p now limits)
  unfolding set_limits update_file_limits
  set_limits-Always p now limits =
      Always-bind _ _ (Always-bind _ _ (Always-lift _) (λ _. Always-lift _))
        λ _. record { at = λ w h. update_db_limits-at _ w _ h refl }

  pub status-Always : (i : String) → Always IsConsistent (status m i)
  status-Always i = Always-same _ (λ w. status-same m w i)

  pub get_limits_by_space-Always :
      (d : SpaceLimits) (now : ℤ) (i : String) → Always IsConsistent (get_limits_by_space m d now i)
  unfolding get_limits_by_space limits_of_entry get_limits
  get_limits_by_space-Always d now i = Always-bind _ _ (status-Always i) λ entry.
      Always-if (entry.type == SpaceType.personal || entry.type == SpaceType.tech) _ _
        (Always-pure
          (record { space_members_read = 1; space_members_write = 1; shared_spaces_limit = 0 }))
        (Always-if (entry.type == SpaceType.one_to_one) _ _
          (Always-pure (record {
            space_members_read = 0;
            space_members_write = 0;
            shared_spaces_limit = 3000;
          }))
          (Always-bind _ _ (Always-same _ (λ w. refl)) (λ _. Always-pure _)))

module _ {m : Mongo} (law : Documented m) where
  pub follow_owner-Always :
      (i owner old id : String) → Always IsConsistent (follow_owner m i owner old id)
  unfolding follow_owner add_ownership_change
  follow_owner-Always i owner old id =
      Always-if _ _ _
        (Always-bind _ _ (record { at = change_owner-IsConsistent law i owner })
          λ _. Always-bind _ _ (record { at = written }) (λ _. Always-pure tt))
        (Always-pure tt)
    where
      written : (w : World) → IsConsistent w → IsConsistent (add_ownership_change m i old id w).1
      written w h = elim (Result-cases (add_ownership_change m i old id w).0) [
        | inl (a, p) ↦
            subst IsConsistent (sym (insert-ok law w _ a p).1) (with_ownership_change w h _ refl)
        | inr (e, p) ↦ subst IsConsistent (sym (insert-err law w _ e p)) h
      ]
