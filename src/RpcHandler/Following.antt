-- ===== src/RpcHandler/Following.antt =====
-- A node that follows the deletion log through the calls of coordinator/rpchandler.go.
use any_sync_coordinator.Prelude.{
  ℕ, ◌+◌, ◌*◌, ◌/◌, ◌^◌, ◌≤◌, Bool, false, String, ◌≡◌, refl, ap, ◌∙◌, sym, subst, inl, inr, List,
  ◌∷◌, ◌++◌, length, take, map, ltb, arith,
}
use any_sync_coordinator.Outcome.{driver, ok, err, lift, raise_if, pure, ◌>>=◌}
use any_sync_coordinator.Docs.{World, DeletionRecord}
use any_sync_coordinator.Mongo.{Mongo, Documented}
use any_sync_coordinator.Mongo.Ordered.{IsOrdered}
use any_sync_coordinator.Keys.{Keys}
use any_sync_coordinator.Coordinator.{Request, Parts, NodeType}
use any_sync_coordinator.DeletionLog
use any_sync_coordinator.DeletionLog.{effective_limit}
use any_sync_coordinator.DeletionLog.Paging.{
  effective_limit_bounds, IsWalked, get_after-start, get_after-start_all, get_after-next,
  get_after-next_all,
}
use any_sync_coordinator.Paged.{PagedLog, page, ReadsUnchecked, ReadsUnchecked-ReadsSome}
use any_sync_coordinator.Paged.Following.{Reach-Follows, Reach-catches_up, Reach, polls}
use any_sync_coordinator.Paged.Splitting.{map-take, length-map, map-split}
use any_sync_coordinator.RpcHandler.Logs.{ApiRecord, node_only, read_deletion_log}

module _ {m : Mongo} (law : Documented m) (k : Keys) (c : Parts k.PubKey) (req : Request k.PubKey)
    (limit : ℕ) (peer : String) (t : NodeType) (ts : List NodeType) (known : req.peer_id ≡ ok peer)
    (node : c.node_conf.node_types peer ≡ t ∷ ts) where
  passes : (w : World) → node_only m k c req w ≡ (ok tt, w)
  unfolding node_only lift raise_if ◌>>=◌
  passes w = rw (known, node) refl

  -- A record of the log as a node is shown it.
  abbrev pub log_entry : DeletionRecord → ApiRecord
  log_entry r = record {
    id = m.hex r.id;
    space_id = r.space_id;
    file_group = r.file_group;
    status = r.status;
    acl_record_id = r.acl_record_id;
    timestamp = r.id / 2 ^ 64;
  }

  -- The call for a node of the network, by what GetAfter returns.
  with_records :
      (after_id : String) (l : List DeletionRecord) (more : Bool) (w : World)
      → DeletionLog.get_after m after_id limit w ≡ (ok (l, more), w)
      → read_deletion_log m k c req after_id limit w ≡ (ok (map log_entry l, more), w)
  unfolding read_deletion_log pure ◌>>=◌
  with_records after_id l more w p = rw (passes w, p) refl

  with_page :
      (after_id : String) (rest : List DeletionRecord) (w : World)
      → DeletionLog.get_after m after_id limit w ≡ (ok (page (effective_limit limit) rest), w)
      → read_deletion_log m k c req after_id limit w
        ≡ (ok (page (effective_limit limit) (map log_entry rest)), w)
  with_page after_id rest w p =
      let size = effective_limit limit in
      with_records after_id (take size rest) (ltb size (length rest)) w p
      ∙ ap (λ l. (ok (l, ltb size (length rest)), w)) (sym (map-take log_entry size rest))
      ∙ ap (λ n. (ok (take size (map log_entry rest), ltb size n), w))
          (sym (length-map log_entry rest))

  with_failure :
      (after_id : String) (n : ℕ) (w : World)
      → DeletionLog.get_after m after_id limit w ≡ (err (driver n), w)
      → read_deletion_log m k c req after_id limit w ≡ (err (driver n), w)
  unfolding read_deletion_log ◌>>=◌
  with_failure after_id n w p = rw (passes w, p) refl

  pub served :
      (after_id : String) (rest : List DeletionRecord) (w : World)
      → ReadsUnchecked (DeletionLog.get_after m after_id limit) w (effective_limit limit) rest
      → ReadsUnchecked
          (read_deletion_log m k c req after_id limit)
          w
          (effective_limit limit)
          (map log_entry rest)
  served after_id rest w (inl (inl p)) = inl (inl (with_page after_id rest w p))
  served after_id rest w (inl (inr (n, p))) = inl (inr (n, with_failure after_id n w p))
  served after_id rest w (inr (j, small, p)) = inr (
    j,
    small,
    with_records after_id (take j rest) false w p
        ∙ ap (λ l. (ok (l, false), w)) (sym (map-take log_entry j rest)),
  )

  pub served_next :
      (w : World)
      → IsOrdered (λ r. r.id) w.deletion_log
      → (xs : List ApiRecord) (r : ApiRecord) (ys : List ApiRecord)
      → map log_entry w.deletion_log ≡ xs ++ r ∷ ys
      → ReadsUnchecked (read_deletion_log m k c req r.id limit) w (effective_limit limit) ys
  served_next w ordered xs r ys h =
      let s = map-split log_entry w.deletion_log xs r ys h in
      let read =
        served (m.hex s.entry.id) s.after w
          (get_after-next law limit w ordered s.before s.entry s.after s.whole) in
      subst (λ i. ReadsUnchecked (read_deletion_log m k c req i limit) w (effective_limit limit) ys)
        (ap (λ x. x.id) s.same_entry)
        (subst
          (λ l.
            ReadsUnchecked (read_deletion_log m k c req (m.hex s.entry.id) limit) w
              (effective_limit limit) l)
          s.same_after read)

  served_next_all :
      (w : World)
      → IsOrdered (λ r. r.id) w.deletion_log
      → IsWalked m limit w
      → (xs : List ApiRecord) (r : ApiRecord) (ys : List ApiRecord)
      → map log_entry w.deletion_log ≡ xs ++ r ∷ ys
      → read_deletion_log m k c req r.id limit w ≡ (ok (page (effective_limit limit) ys), w)
  served_next_all w ordered all xs r ys h =
      let s = map-split log_entry w.deletion_log xs r ys h in
      let read =
        with_page (m.hex s.entry.id) s.after w
          (get_after-next_all law limit w ordered s.before s.entry s.after s.whole all) in
      subst (λ i. read_deletion_log m k c req i limit w ≡ (ok (page (effective_limit limit) ys), w))
        (ap (λ x. x.id) s.same_entry)
        (subst
          (λ l.
            read_deletion_log m k c req (m.hex s.entry.id) limit w
            ≡ (ok (page (effective_limit limit) l), w))
          s.same_after read)

  -- The deletion log as a node of the network reads it.
  abbrev pub node_log : PagedLog World ApiRecord
  node_log = record {
    entries = λ w. map log_entry w.deletion_log;
    cursor = λ r. r.id;
    IsReady = λ w. IsOrdered (λ r. r.id) w.deletion_log;
    limit = effective_limit limit;
    limit_pos = (effective_limit_bounds limit).0;
    get_after = λ after_id. read_deletion_log m k c req after_id limit;
    Answers = λ after_id w rest.
        ReadsUnchecked (read_deletion_log m k c req after_id limit) w (effective_limit limit) rest;
    reads_some = λ after_id w rest.
        ReadsUnchecked-ReadsSome (read_deletion_log m k c req after_id limit) w
          (effective_limit limit) rest;
    start = λ w ordered. served "" w.deletion_log w (get_after-start law limit w ordered);
    next = served_next;
  }

  -- A node of the network at any time of such a history, where the ids of the log grow: if from then
  -- on nothing is appended and no query of the log fails, nor its cursor, as many calls as the records
  -- that it lacks have pages give it the whole log, with the id, the space, the file group, the
  -- status, the ACL record and the time of each record.
  pub node_catches_up :
      {w0 w : World} {seen : List ApiRecord}
      → IsOrdered (λ r. r.id) w0.deletion_log
      → Reach node_log w0 w seen
      → IsWalked m limit w
      → (calls : ℕ) → length w.deletion_log ≤ length seen + calls * effective_limit limit
      → polls node_log calls w seen ≡ map log_entry w.deletion_log
  node_catches_up {w0} {w} ordered r all calls h =
      let ready = (Reach-Follows node_log ordered r).ready in
      Reach-catches_up node_log ordered r
        (record {
          start = with_page "" w.deletion_log w (get_after-start_all law limit w ready all);
          next = served_next_all w ready all;
        })
        calls (omega (arith, h, length-map log_entry w.deletion_log))
