-- ===== src/Coordinator/Signed.antt =====
-- What SpaceSign of coordinator/coordinator.go requires, and the space behind its receipt.
use any_sync_coordinator.Prelude.{
  ℕ, String, false, ◌≡◌, refl, sym, ap, ◌∙◌, ◌=ₛ◌, inl, inr, arith, pos,
}
use any_sync_coordinator.Outcome.{
  Action, Result-cases, ok, lift, pure, ◌>>=◌, ◌>>◌, >>=-ok, >>=-reads, >>=-step, >>=-fail,
}
use any_sync_coordinator.Docs.{World, Bytes, ObjectId, AclEventLogEntry, SpaceReceiptEntry}
use any_sync_coordinator.Docs.EntryType
use any_sync_coordinator.Mongo.{Mongo, Documented}
use any_sync_coordinator.Keys.{Keys}
use any_sync_coordinator.AclEventLog.{add_log}
use any_sync_coordinator.CoordinatorLog.{add_space_receipt}
use any_sync_coordinator.Coordinator.{Request, Parts}
use any_sync_coordinator.Coordinator.Receipts.{
  space_receipt_valid_period, add_coordinator_log, space_sign, space_event,
}
use any_sync_coordinator.SpaceStatus.Creation.{new_status}
use any_sync_coordinator.SpaceStatus.Opened.{Opened, new_status-Opened}
use any_sync_coordinator.SpaceStatus.Verifier.{verify_space_header}

module _ {m : Mongo} (law : Documented m) (k : Keys) (c : Parts k.PubKey) (req : Request k.PubKey)
    (i : String) (named : (i =ₛ "") ≡ false) where
  -- What a receipt stands for: a header that is valid and that the caller has signed, and a space that
  -- is created, opened with the type of the header if it was not there.
  pub record Signed (header : Bytes) (receipt : c.signing.Receipt) (w w' : World) : Type 0 where
    pub key : k.PubKey
    pub caller : req.pub_key ≡ ok key
    pub peer_id : String
    pub caller_peer : req.peer_id ≡ ok peer_id
    pub valid : c.signing.validate_space_header i header key ≡ ok tt
    pub space_type : ℕ
    pub verified : verify_space_header k c.payloads key header ≡ ok space_type
    pub prepared :
        c.signing.prepare_space_receipt i peer_id space_receipt_valid_period key ≡ ok receipt
    pub opened_world : World
    pub opened : Opened law k c.service.conf i key space_type named w opened_world
    pub spaces : w'.spaces ≡ opened_world.spaces
    pub deletion_log : w'.deletion_log ≡ opened_world.deletion_log

  -- The logs of a receipt are other collections.
  abbrev SameSpaces : World → World → Type 0
  SameSpaces w w' = (w'.spaces ≡ w.spaces) × (w'.deletion_log ≡ w.deletion_log)

  SameSpaces-after :
      {A : Type 0} (f : Action World (Unit {0})) (g : Action World A) (w : World)
      → SameSpaces w (f w).1
      → ((w' : World) → SameSpaces w' (g w').1)
      → SameSpaces w ((f >> g) w).1
  SameSpaces-after f g w (p, q) next = elim (Result-cases (f w).0) [
    | inl (a, h) ↦
        let (p', q') = next (f w).1 in
        let step = ap (λ r. r.1) (>>=-step f (λ _. g) w a h) in
        (ap (λ x. x.spaces) step ∙ p' ∙ p, ap (λ x. x.deletion_log) step ∙ q' ∙ q)
    | inr (e, h) ↦
        let step = ap (λ r. r.1) (>>=-fail f (λ _. g) w e h) in
        (ap (λ x. x.spaces) step ∙ p, ap (λ x. x.deletion_log) step ∙ q)
  ]

  receipt_added :
      (entry : SpaceReceiptEntry) (w : World) → SameSpaces w (add_space_receipt m req.now entry w).1
  unfolding add_space_receipt
  receipt_added entry w = ground arith

  event_added :
      (event : ObjectId → AclEventLogEntry) (w : World) → SameSpaces w (add_log m event w).1
  unfolding add_log
  event_added event w = ground arith

  logs-SameSpaces :
      (peer_id : String) (key : k.PubKey) (receipt : c.signing.Receipt) (w : World)
      → SameSpaces w (add_coordinator_log m k c req.now i peer_id key receipt w).1
  unfolding add_coordinator_log lift ◌>>=◌
  logs-SameSpaces peer_id key receipt w = elim (Result-cases (c.signing.marshal_receipt receipt)) [
    | inl (bytes, h) ↦ rw h (
        SameSpaces-after
          (add_space_receipt m req.now (record {
            signed_space_receipt = bytes;
            space_id = i;
            peer_id = peer_id;
            identity = k.account key;
            timestamp = pos 0;
          }))
          (add_log m (space_event i peer_id (k.account key) req.now EntryType.space_receipt)) w
          (receipt_added _ w) (event_added _))
    | inr (e, h) ↦ rw h (refl, refl)
  ]

  -- The log's error is dropped, and the receipt is returned.
  abbrev issue : String → k.PubKey → c.signing.Receipt → Action World c.signing.Receipt
  issue peer_id key r =
      (λ w. (ok tt, (add_coordinator_log m k c req.now i peer_id key r w).1)) >> pure r

  issued :
      (peer_id : String) (key : k.PubKey) (r : c.signing.Receipt) (w : World)
      → issue peer_id key r w ≡ (ok r, (add_coordinator_log m k c req.now i peer_id key r w).1)
  unfolding ◌>>=◌ pure
  issued peer_id key r w = refl

  -- A receipt that an unforced SpaceSign returns for a named space stands for a header that is valid
  -- and verified for the key of the caller, and for a space that is created: as it was before, or
  -- inserted for the caller with the type of the header where there was none. The receipt is the one
  -- that is prepared for the caller's peer, and the logs leave the spaces and their deletion log as
  -- they are.
  pub space_sign-Signed :
      (header : Bytes) (receipt : c.signing.Receipt) (w : World)
      → (space_sign m k c req i header false w).0 ≡ ok receipt
      → Signed header receipt w (space_sign m k c req i header false w).1
  unfolding space_sign lift
  space_sign-Signed header receipt w h =
      let (key, p1, s1, h1) = >>=-reads (lift req.pub_key) _ w receipt refl h in
      let (peer_id, p2, s2, h2) = >>=-reads (lift req.peer_id) _ w receipt refl h1 in
      let (_, p3, s3, h3) =
        >>=-reads (lift (c.signing.validate_space_header i header key)) _ w receipt refl h2 in
      let (t, p4, s4, h4) =
        >>=-reads (lift (verify_space_header k c.payloads key header)) _ w receipt refl h3 in
      let (u, p5, s5) = >>=-ok (new_status m k c.service.conf i key t false) _ w receipt h4 in
      let w5 = (new_status m k c.service.conf i key t false w).1 in
      let (r, p6, s6, h6) =
        >>=-reads (lift (c.signing.prepare_space_receipt i peer_id space_receipt_valid_period key))
          _ w5 receipt refl (ap (λ x. x.0) (sym s5) ∙ h4) in
      let (same_spaces, same_log) = logs-SameSpaces peer_id key r w5 in
      let last = issued peer_id key r w5 in
      let world = ap (λ x. x.1) (s1 ∙ s2 ∙ s3 ∙ s4 ∙ s5 ∙ s6 ∙ last) in
      record {
        key = key;
        caller = p1;
        peer_id = peer_id;
        caller_peer = p2;
        valid = p3;
        space_type = t;
        verified = p4;
        prepared = p6 ∙ sym (ap (λ x. x.0) last) ∙ h6;
        opened_world = w5;
        opened = new_status-Opened law k c.service.conf i key t named w u p5;
        spaces = ap (λ x. x.spaces) world ∙ same_spaces;
        deletion_log = ap (λ x. x.deletion_log) world ∙ same_log;
      }
