-- ===== src/Coordinator/Accepted.antt =====
-- What a record that AclAddRecord accepts has passed, and what becomes of a change of owner.
use any_sync_coordinator.Prelude.{
  String, some, true, false, not, ◌≡◌, refl, sym, subst, ap, ◌∙◌, ◌==◌, ◌=ₛ◌, ℤ, arith,
}
use any_sync_coordinator.Outcome.{
  acl_limit_exceed, space_is_deleted, space_not_shareable, Result, ok, err, lift, raise_if, pure,
  ◌>>=◌, >>=-ok, >>=-reads, raised,
}
use any_sync_coordinator.Docs.{
  World, Bytes, SpaceDoc, StatusEntry, SpaceLimits, AclEventLogEntry, status_entry,
}
use any_sync_coordinator.Docs.EntryType
use any_sync_coordinator.Time
use any_sync_coordinator.Docs.Status
use any_sync_coordinator.Mongo.{Mongo, Documented}
use any_sync_coordinator.Keys.{Keys}
use any_sync_coordinator.AccountLimit.{get_limits_by_space, limits_of_entry, get_limits}
use any_sync_coordinator.AclEventLog.{add_log}
use any_sync_coordinator.AclEventLog.Appending.{next_event_id, with_event, add_log-ok}
use any_sync_coordinator.Coordinator.{Request, Parts, RawRecordWithId}
use any_sync_coordinator.Coordinator.Acl.{
  limit_reached, follow_owner, acl_event, record_added, acl_add_record,
}
use any_sync_coordinator.SpaceStatus.{status}
use any_sync_coordinator.Coordinator.Receipts.{space_event}
use any_sync_coordinator.SpaceStatus.Keyed.{space_at}
use any_sync_coordinator.SpaceStatus.Refusals.{status-found}
use any_sync_coordinator.SpaceStatus.Reads.{status-same}
use any_sync_coordinator.Coordinator.Handover.{OwnerFollowed, follow_owner-ok}
use any_sync_coordinator.Coordinator.MemberLimits.{
  member_limits, limits_for, get_limits_by_space-limits_for,
}

module _ {m : Mongo} (law : Documented m) (k : Keys) (c : Parts k.PubKey) (req : Request k.PubKey)
    (i : String) where
  -- The event of a record that is added to the ACL of a space.
  abbrev pub record_event : String → String → String → World → AclEventLogEntry
  record_event peer_id owner id w = record {
    id = next_event_id m w;
    space_id = i;
    peer_id = peer_id;
    owner = owner;
    timestamp = Time.unix req.now;
    entry_type = EntryType.space_acl_add_record;
    acl_change_id = id;
  }

  -- What an accepted record has passed and done: the space is created and shareable, the ACL service
  -- has accepted the record under the limits of the space, its event is the last of the log, and
  -- where the ACL names another owner than the space has, the space is handed over to that owner.
  pub record Accepted (payload : Bytes) (rec : RawRecordWithId) (w w' : World) : Type 0 where
    pub space : SpaceDoc
    pub there : space_at i w.spaces ≡ some space
    pub created : space.status ≡ Status.created
    pub shareable : space.is_shareable ≡ true
    pub raw : c.acl.RawRecord
    pub decoded : c.acl.unmarshal_raw_record payload ≡ ok raw
    pub added : c.acl.add_record i raw (limits_for c.default_limits w (status_entry space)) ≡ ok rec
    pub owner : k.PubKey
    pub named : c.acl.owner_pub_key i ≡ ok owner
    pub peer_id : String
    pub caller_peer : req.peer_id ≡ ok peer_id
    pub followed :
        OwnerFollowed law i
          (k.account owner)
          space.identity
          rec.id
          (with_event (record_event peer_id space.identity rec.id w) w)
          w'

  limit_reached-ok : {A : Type 0} (r : Result A) (a : A) → (limit_reached r) ≡ ok a → r ≡ ok a
  limit_reached-ok (ok x) a h = h
  limit_reached-ok (err acl_limit_exceed) a h = absurd (cc h)
  limit_reached-ok (err _) a h = absurd (cc h)

  limits-same : (d : SpaceLimits) (now : ℤ) (w : World) → (get_limits_by_space m d now i w).1 ≡ w
  unfolding get_limits_by_space limits_of_entry get_limits ◌>>=◌
  limits-same d now w = ground (arith, status-same m w i)

  event_logged :
      (peer_id : String) (entry : StatusEntry) (rec : RawRecordWithId) (w : World) (u : Unit {0})
      → (add_log m (acl_event m k c req i peer_id entry rec) w).0 ≡ ok u
      → (add_log m (acl_event m k c req i peer_id entry rec) w).1
        ≡ with_event (record_event peer_id entry.identity rec.id w) w
  unfolding acl_event space_event
  event_logged peer_id entry rec w u h = add_log-ok law _ w u h

  module _ (payload : Bytes) (w : World) (space : SpaceDoc)
      (there : space_at i w.spaces ≡ some space) (peer_id : String)
      (peer : req.peer_id ≡ ok peer_id) where
    abbrev entry : StatusEntry
    entry = status_entry space

    added-ok :
        (rec : RawRecordWithId) (raw : c.acl.RawRecord) (limits : SpaceLimits)
        → space.status ≡ Status.created
        → space.is_shareable ≡ true
        → c.acl.unmarshal_raw_record payload ≡ ok raw
        → member_limits limits ≡ limits_for c.default_limits w entry
        → (record_added m k c req i peer_id entry raw limits w).0 ≡ ok rec
        → Accepted payload rec w (record_added m k c req i peer_id entry raw limits w).1
    unfolding record_added lift pure
    added-ok rec raw limits created shareable decoded limited h =
        let (rec', p1, s1, h1) = >>=-reads _ _ w rec refl h in
        let (u2, p2, s2) =
          >>=-ok (add_log m (acl_event m k c req i peer_id entry rec')) _ w rec h1 in
        let w2 = (add_log m (acl_event m k c req i peer_id entry rec') w).1 in
        let h2 = ap (λ r. r.0) (sym s2) ∙ h1 in
        let (owner, p3, s3, h3) = >>=-reads _ _ w2 rec refl h2 in
        let (u4, p4, s4) =
          >>=-ok (follow_owner m i (k.account owner) entry.identity rec'.id) _ w2 rec h3 in
        let same = ap (λ r. r.0) (sym s4) ∙ h3 in
        let world = ap (λ r. r.1) (s1 ∙ s2 ∙ s3 ∙ s4) in
        let w' = (record_added m k c req i peer_id entry raw limits w).1 in
        let follows = OwnerFollowed law i (k.account owner) entry.identity rec'.id in
        subst (λ r. Accepted payload r w w') (cc same)
          (record {
            space = space;
            there = there;
            created = created;
            shareable = shareable;
            raw = raw;
            decoded = decoded;
            added =
                subst (λ l. c.acl.add_record i raw l ≡ ok rec') limited
                  (limit_reached-ok _ rec' p1);
            owner = owner;
            named = p3;
            peer_id = peer_id;
            caller_peer = peer;
            followed =
                subst (λ v. follows v w') (event_logged peer_id entry rec' w u2 p2)
                  (subst (follows w2) (sym world)
                    (follow_owner-ok law i (k.account owner) entry.identity rec'.id w2 u4 p4));
          })

  -- A record that AclAddRecord accepts for a named space has passed every check: the space is
  -- created and shareable, and the ACL service has added the record under the limits of the space:
  -- one reader and one writer in a personal and in a tech space, none in one between two accounts,
  -- and otherwise what is stored for the owner of the space, or the defaults. An event of that kind
  -- with the space, its owner, the peer of the caller, the time of the call and the id of the record
  -- is added to the event log, and where the ACL then names another owner than the space has, the
  -- space is handed over to that owner and the change of owner is logged for the old one. Nothing
  -- else is changed.
  pub acl_add_record-Accepted :
      (i =ₛ "") ≡ false
      → (payload : Bytes) (rec : RawRecordWithId) (w : World)
      → (acl_add_record m k c req i payload w).0 ≡ ok rec
      → Accepted payload rec w (acl_add_record m k c req i payload w).1
  unfolding acl_add_record lift raise_if
  acl_add_record-Accepted i_named payload rec w h =
      let (peer_id, p1, s1, h1) = >>=-reads (lift req.peer_id) _ w rec refl h in
      let (raw, p2, s2, h2) =
        >>=-reads (lift (c.acl.unmarshal_raw_record payload)) _ w rec refl h1 in
      let (e, p3, s3, h3) = >>=-reads (status m i) _ w rec (status-same m w i) h2 in
      let (_, p4, s4, h4) =
        >>=-reads (raise_if (not (e.status == Status.created)) space_is_deleted) _ w rec refl h3 in
      let (_, p5, s5, h5) =
        >>=-reads (raise_if (not e.is_shareable) space_not_shareable) _ w rec refl h4 in
      let (limits, p6, s6, h6) =
        >>=-reads (get_limits_by_space m c.default_limits req.now i) _ w rec
          (limits-same c.default_limits req.now w) h5 in
      let world = ap (λ r. r.1) (s1 ∙ s2 ∙ s3 ∙ s4 ∙ s5 ∙ s6) in
      let live = raised (not (e.status == Status.created)) space_is_deleted w tt p4 in
      let shared = raised (not e.is_shareable) space_not_shareable w tt p5 in
      let limited =
        get_limits_by_space-limits_for law c.default_limits req.now i w e limits p3 p6 in
      let (space, there, same) = status-found law i w e i_named p3 in
      subst (Accepted payload rec w) (sym world) (
        subst (λ x. Accepted payload rec w (record_added m k c req i peer_id x raw limits w).1)
          (sym same)
          (added-ok payload w space there peer_id p1 rec raw limits
            (ap (λ x. x.status) (sym same) ∙ ground arith)
            (ap (λ x. x.is_shareable) (sym same) ∙ ground arith) p2
            (limited ∙ ap (limits_for c.default_limits w) same)
            (subst (λ x. (record_added m k c req i peer_id x raw limits w).0 ≡ ok rec) same h6)))
