-- ===== src/Coordinator/Guards.antt =====
-- The checks that MakeSpaceUnshareable of coordinator/coordinator.go makes, and what follows them.
use any_sync_coordinator.Prelude.{
  String, Bool, true, false, not, ◌≡◌, ◌⊎◌, inl, inr, refl, sym, subst, ap, ◌∙◌, ◌=ₛ◌, some, arith,
  if◌then◌else◌,
}
use any_sync_coordinator.Outcome.{
  forbidden, acl_head_is_missing, acl_non_empty, Result, ok, err, lift, raise_if, pure, >>=-ok,
  >>=-reads,
}
use any_sync_coordinator.Docs.{World, SpaceDoc, StatusEntry, AclEventLogEntry}
use any_sync_coordinator.Docs.EntryType
use any_sync_coordinator.Mongo.{Mongo, Documented}
use any_sync_coordinator.Time
use any_sync_coordinator.Keys.{Keys}
use any_sync_coordinator.AclEventLog.{add_log}
use any_sync_coordinator.AclEventLog.Appending.{next_event_id, with_event, add_log-ok}
use any_sync_coordinator.Coordinator.{Request, Parts}
use any_sync_coordinator.Coordinator.Receipts.{space_event}
use any_sync_coordinator.Outcome.{raised}
use any_sync_coordinator.Coordinator.Sharing.{or_forbidden, unshare, make_space_unshareable}
use any_sync_coordinator.SpaceStatus.{status}
use any_sync_coordinator.SpaceStatus.Keyed.{space_at}
use any_sync_coordinator.SpaceStatus.Refusals.{status-found}
use any_sync_coordinator.SpaceStatus.Unsharing.{unshared, make_unshareable-ok}
use any_sync_coordinator.SpaceStatus.Reads.{status-same}
use any_sync_coordinator.SpaceStatus.Sharing.{make_unshareable}

or_forbidden-ok : {A : Type 0} (r : Result A) (a : A) → or_forbidden r ≡ ok a → r ≡ ok a
or_forbidden-ok (ok x) a h = h
or_forbidden-ok (err e) a h = absurd (cc h)

module _ {m : Mongo} (law : Documented m) (k : Keys) (c : Parts k.PubKey) (req : Request k.PubKey)
    (i acl_head : String) where
  -- The event that says that the space is shared no longer.
  abbrev pub unshared_event : String → String → World → AclEventLogEntry
  unshared_event peer_id owner w = record {
    id = next_event_id m w;
    space_id = i;
    peer_id = peer_id;
    owner = owner;
    timestamp = Time.unix req.now;
    entry_type = EntryType.space_unshared;
    acl_change_id = "";
  }

  -- What unshare has passed and done: the ACL has the head that the caller names and no member
  -- but the owner, the space is not shareable any more, and the event is logged for the owner.
  pub record Unshared (peer_id owner : String) (w w' : World) : Type 0 where
    pub head_known : c.acl.has_record i acl_head ≡ ok true
    pub no_members : c.acl.is_acl_empty i ≡ ok true
    pub world : w' ≡ with_event (unshared_event peer_id owner w) (unshared i w)

  -- A space that is not shareable is left as it is.
  abbrev pub LeftOrUnshared : Bool → String → String → World → World → Type 0
  LeftOrUnshared shareable peer_id owner w w' =
      ((shareable ≡ false) × (w' ≡ w)) ⊎ ((shareable ≡ true) × Unshared peer_id owner w w')

  -- What a success of MakeSpaceUnshareable means.
  pub record Guarded (w w' : World) : Type 0 where
    pub key : k.PubKey
    pub caller : req.pub_key ≡ ok key
    pub peer_id : String
    pub caller_peer : req.peer_id ≡ ok peer_id
    pub space : SpaceDoc
    pub there : space_at i w.spaces ≡ some space
    pub own : (space.identity =ₛ k.account key) ≡ true
    pub outcome : LeftOrUnshared space.is_shareable peer_id space.identity w w'

  event_logged :
      (peer_id owner : String) (w : World) (u : Unit {0})
      → let event = space_event i peer_id owner req.now EntryType.space_unshared in
        (add_log m event (unshared i w)).0 ≡ ok u
        → (add_log m event (unshared i w)).1
          ≡ with_event (unshared_event peer_id owner w) (unshared i w)
  unfolding space_event
  event_logged peer_id owner w u h = add_log-ok law _ (unshared i w) u h

  unshare-Unshared :
      (peer_id : String) (entry : StatusEntry) (w : World) (u : Unit {0})
      → (status m i w).0 ≡ ok entry
      → entry.is_shareable ≡ true
      → (unshare m k c req i acl_head peer_id entry w).0 ≡ ok u
      → Unshared peer_id entry.identity w (unshare m k c req i acl_head peer_id entry w).1
  unfolding unshare lift raise_if
  unshare-Unshared peer_id entry w u read shareable h =
      let (has_record, p1, s1, h1) = >>=-reads (lift (c.acl.has_record i acl_head)) _ w u refl h in
      let (_, p2, s2, h2) =
        >>=-reads (raise_if (not has_record) acl_head_is_missing) _ w u refl h1 in
      let (is_empty, p3, s3, h3) = >>=-reads (lift (c.acl.is_acl_empty i)) _ w u refl h2 in
      let (_, p4, s4, h4) = >>=-reads (raise_if (not is_empty) acl_non_empty) _ w u refl h3 in
      let (v, p5, s5) = >>=-ok (make_unshareable m i) _ w u h4 in
      let event = space_event i peer_id entry.identity req.now EntryType.space_unshared in
      let done = ap (add_log m event) (make_unshareable-ok law i w entry read shareable v p5) in
      let h5 = ap (λ r. r.0) (sym (s5 ∙ done)) ∙ h4 in
      let known = raised (not has_record) acl_head_is_missing w tt p2 in
      let empty = raised (not is_empty) acl_non_empty w tt p4 in
      record {
        head_known = p1 ∙ ap ok (ground arith);
        no_members = p3 ∙ ap ok (ground arith);
        world =
            ap (λ r. r.1) (s1 ∙ s2 ∙ s3 ∙ s4 ∙ s5 ∙ done)
            ∙ event_logged peer_id entry.identity w u h5;
      }

  -- The two branches of `if !statusEntry.IsShareable`.
  branch :
      (shareable : Bool) (peer_id : String) (entry : StatusEntry) (w : World) (u : Unit {0})
      → (status m i w).0 ≡ ok entry
      → entry.is_shareable ≡ shareable
      → let run = if not shareable then pure tt else unshare m k c req i acl_head peer_id entry in
        (run w).0 ≡ ok u → LeftOrUnshared shareable peer_id entry.identity w (run w).1
  unfolding pure
  branch true peer_id entry w u read q h = inr (refl, unshare-Unshared peer_id entry w u read q h)
  branch false peer_id entry w u read q h = inl (refl, refl)

  -- A MakeSpaceUnshareable of a named space that succeeds was called by the owner of the space.
  -- Either the space was not shareable and nothing is changed, or the ACL service has the given
  -- head and knows no member but the owner, and then the space is not shareable any more, an event
  -- of that kind with the space, its owner, the peer of the caller and the time of the call is the
  -- last of the event log, and nothing else is changed.
  pub make_space_unshareable-Guarded :
      (i =ₛ "") ≡ false
      → (w : World) (u : Unit {0}) → (make_space_unshareable m k c req i acl_head w).0 ≡ ok u
      → Guarded w (make_space_unshareable m k c req i acl_head w).1
  unfolding make_space_unshareable lift raise_if
  make_space_unshareable-Guarded i_named w u h =
      let (key, p1, s1, h1) = >>=-reads (lift (or_forbidden req.pub_key)) _ w u refl h in
      let (peer_id, p2, s2, h2) = >>=-reads (lift req.peer_id) _ w u refl h1 in
      let (entry, p3, s3, h3) = >>=-reads (status m i) _ w u (status-same m w i) h2 in
      let (_, p4, s4, h4) =
        >>=-reads (raise_if (not (entry.identity =ₛ k.account key)) forbidden) _ w u refl h3 in
      let mine = raised (not (entry.identity =ₛ k.account key)) forbidden w tt p4 in
      let own : (entry.identity =ₛ k.account key) ≡ true = ground arith in
      let world = ap (λ r. r.1) (s1 ∙ s2 ∙ s3 ∙ s4) in
      let (space, there, same) = status-found law i w entry i_named p3 in
      subst (Guarded w) (sym world) (record {
        key = key;
        caller = or_forbidden-ok req.pub_key key p1;
        peer_id = peer_id;
        caller_peer = p2;
        space = space;
        there = there;
        own = subst (λ x. (x.identity =ₛ k.account key) ≡ true) same own;
        outcome =
            subst
              (λ x.
                LeftOrUnshared x.is_shareable peer_id x.identity w
                  ((if not entry.is_shareable
                      then pure tt
                      else unshare m k c req i acl_head peer_id entry)
                    w).1)
              same (branch entry.is_shareable peer_id entry w u p3 refl h4);
      })
