-- ===== src/AclEventLog/Following.antt =====
-- A reader that follows the events of one owner in acleventlog/acleventlog.go.
use any_sync_coordinator.Prelude.{
  ℕ, ◌+◌, ◌*◌, ◌≤◌, String, false, ◌≡◌, subst, List, ◌∷◌, ◌++◌, length, select, ◌=ₛ◌,
}
use any_sync_coordinator.Outcome.{ok}
use any_sync_coordinator.Docs.{World, AclEventLogEntry}
use any_sync_coordinator.Mongo.{Mongo, Documented}
use any_sync_coordinator.Mongo.Ordered.{IsOrdered}
use any_sync_coordinator.AclEventLog.{effective_limit, get_after}
use any_sync_coordinator.AclEventLog.Paging.{
  owned_by, IsWalked, owner_start, owner_start_all, owner_next, owner_next_all, effective_limit_pos,
}
use any_sync_coordinator.Paged.{PagedLog, page, ReadsUnchecked, ReadsUnchecked-ReadsSome}
use any_sync_coordinator.Paged.Following.{Reach, Reach-Follows, Reach-catches_up, polls}
use any_sync_coordinator.Paged.Splitting.{select-split}

module _ {m : Mongo} (law : Documented m) (limit : ℕ) (identity : String)
    (known : (identity =ₛ "") ≡ false) where
  pub read_next :
      (w : World)
      → IsOrdered (λ r. r.id) w.acl_event_log
      → (xs : List AclEventLogEntry) (r : AclEventLogEntry) (ys : List AclEventLogEntry)
      → select (owned_by identity) w.acl_event_log ≡ xs ++ r ∷ ys
      → ReadsUnchecked (get_after m identity (m.hex r.id) limit) w (effective_limit limit) ys
  read_next w ordered xs r ys h =
      let s = select-split (owned_by identity) w.acl_event_log xs r ys h in
      subst
        (λ l. ReadsUnchecked (get_after m identity (m.hex r.id) limit) w (effective_limit limit) l)
        s.same_after (owner_next law limit w identity known ordered s.before r s.after s.whole)

  read_next_all :
      (w : World)
      → IsOrdered (λ r. r.id) w.acl_event_log
      → IsWalked m limit w
      → (xs : List AclEventLogEntry) (r : AclEventLogEntry) (ys : List AclEventLogEntry)
      → select (owned_by identity) w.acl_event_log ≡ xs ++ r ∷ ys
      → get_after m identity (m.hex r.id) limit w ≡ (ok (page (effective_limit limit) ys), w)
  read_next_all w ordered all xs r ys h =
      let s = select-split (owned_by identity) w.acl_event_log xs r ys h in
      subst
        (λ l. get_after m identity (m.hex r.id) limit w ≡ (ok (page (effective_limit limit) l), w))
        s.same_after
        (owner_next_all law limit w identity known ordered s.before r s.after s.whole all)

  -- The events of one owner.
  abbrev pub owner_log : PagedLog World AclEventLogEntry
  owner_log = record {
    entries = λ w. select (owned_by identity) w.acl_event_log;
    cursor = λ r. m.hex r.id;
    IsReady = λ w. IsOrdered (λ r. r.id) w.acl_event_log;
    limit = effective_limit limit;
    limit_pos = effective_limit_pos limit;
    get_after = λ after_id. get_after m identity after_id limit;
    Answers = λ after_id w rest.
        ReadsUnchecked (get_after m identity after_id limit) w (effective_limit limit) rest;
    reads_some = λ after_id w rest.
        ReadsUnchecked-ReadsSome (get_after m identity after_id limit) w (effective_limit limit)
          rest;
    start = λ w ordered. owner_start law limit w identity known ordered;
    next = read_next;
  }

  -- Such a reader at any time of such a history: if from then on nothing is appended and no query
  -- of the log fails, nor its cursor, as many calls as the events of the owner that it lacks have
  -- pages give it all of them.
  pub reader_catches_up :
      {w0 w : World} {seen : List AclEventLogEntry}
      → IsOrdered (λ r. r.id) w0.acl_event_log
      → Reach owner_log w0 w seen
      → IsWalked m limit w
      → (calls : ℕ)
      → length (select (owned_by identity) w.acl_event_log)
        ≤ length seen + calls * effective_limit limit
      → polls owner_log calls w seen ≡ select (owned_by identity) w.acl_event_log
  reader_catches_up {w0} {w} {seen} ordered r all calls h =
      let ready = (Reach-Follows owner_log ordered r).ready in
      Reach-catches_up owner_log ordered r
        (record {
          start = owner_start_all law limit w identity known ready all;
          next = read_next_all w ready all;
        })
        calls h
