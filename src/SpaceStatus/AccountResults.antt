-- ===== src/SpaceStatus/AccountResults.antt =====
-- What AccountDelete and AccountRevertDeletion return, and what they have then done.
use any_sync_coordinator.Prelude.{
  ℕ, String, true, false, ◌||◌, ◌≡◌, refl, sym, ap, ◌∙◌, inl, inr, ◌=ₛ◌, Option-cases, Option, none,
  some, ℤ, pos, first, arith, if◌then◌else◌,
}
use any_sync_coordinator.Outcome.{account_is_deleted, unexpected, ok, pure, lift, >>=-ok}
use any_sync_coordinator.Docs.{World, SpaceDoc, status_entry}
use any_sync_coordinator.Docs.Status
use any_sync_coordinator.Mongo.{Mongo, Documented, tx}
use any_sync_coordinator.Mongo.Laws.{tx-ok}
use any_sync_coordinator.Time
use any_sync_coordinator.Keys.{Keys, account_or_empty}
use any_sync_coordinator.SpaceStatus.{
  AccountInfo, Service, modify_status_op, tech_account_query, account_status_find_tx,
}
use any_sync_coordinator.SpaceStatus.Deletion.{
  AccountDeletion, account_payload, account_delete_change, account_delete_tx, account_delete,
  account_revert_change, account_revert_deletion_tx, account_revert_deletion,
}
use any_sync_coordinator.SpaceStatus.Invariant.{IsConsistent, IsClean}
use any_sync_coordinator.SpaceStatus.KeepsDeletion.{account_delete-IsConsistent}
use any_sync_coordinator.SpaceStatus.Keyed.{space_at}
use any_sync_coordinator.SpaceStatus.AccountLoop.{map_doc}
use any_sync_coordinator.SpaceStatus.Accounts.{Updates, owned, account_tx-Updates, account_tx-found}

-- A space that waits for its deletion.
abbrev pub pending :
    {PubKey : Type 0} → Service PubKey → ℤ → AccountDeletion PubKey → SpaceDoc → SpaceDoc
pending s now payload d = record d {
  status = Status.deletion_pending;
  deletion_payload = payload.deletion_payload;
  deletion_payload_type = 2;
  deletion_timestamp = Time.unix now;
  to_be_deleted_timestamp = some (Time.unix (Time.add now s.deletion_period));
}

-- A space that is not deleted and carries no deletion data.
abbrev pub restored : SpaceDoc → SpaceDoc
restored d = record d {
  status = Status.created;
  deletion_payload = none;
  deletion_payload_type = 0;
  deletion_timestamp = pos 0;
  to_be_deleted_timestamp = some (pos 0);
}

module _ {m : Mongo} (law : Documented m) (k : Keys) where
  found_tech :
      (account : String) (n : ℕ) (w : World)
      → (account_status_find_tx m account n w).0 ≡ ok true
      → (t : SpaceDoc) × (first (tech_account_query account n) w.spaces ≡ some t)
  unfolding account_status_find_tx
  found_tech account n w h = elim (Option-cases (first (tech_account_query account n) w.spaces)) [
    | inl p ↦
        absurd (ground (arith, law.find_one_lem SpaceDoc (tech_account_query account n) w.spaces))
    | inr r ↦ r
  ]

  -- On consistent collections, a revert for a named account that returns without error found a
  -- tech space of the account that was pending. It has made every pending space of the account a
  -- created one with no deletion data, and changed no other space.
  pub account_revert_deletion-ok :
      (info : AccountInfo k.PubKey) (w : World) (u : Unit {0})
      → (account_or_empty k info.identity =ₛ "") ≡ false
      → IsConsistent w
      → (account_revert_deletion m k info w).0 ≡ ok u
      → ((t : SpaceDoc) × (first
              (tech_account_query (account_or_empty k info.identity) Status.deletion_pending)
              w.spaces
            ≡ some t))
        × Updates
            (account_or_empty k info.identity)
            Status.deletion_pending
            restored
            w
            (account_revert_deletion m k info w).1
  unfolding account_revert_deletion account_revert_deletion_tx
  account_revert_deletion-ok info w u named h p =
      let account = account_or_empty k info.identity in
      let (body, world) = tx-ok law _ w u p in
      let change = account_revert_change k info in
      (
        found_tech account Status.deletion_pending w (
            account_tx-found law k account Status.deletion_pending unexpected change restored
              (revert_id info) (revert_uniform info) (λ d. refl) w u body),
        λ j.
            ap (λ v. space_at j v.spaces) world
            ∙ account_tx-Updates law k account Status.deletion_pending unexpected change restored
                (revert_id info) (revert_uniform info) (λ d. refl) w u named h body j,
      )
    where
      revert_id :
          (info : AccountInfo k.PubKey) (i : String) → (account_revert_change k info i).space_id ≡ i
      revert_id info i = unfold account_revert_change in refl

      revert_uniform :
          (info : AccountInfo k.PubKey) (i : String) (d : SpaceDoc)
          → modify_status_op (account_revert_change k info i) d ≡ restored d
      revert_uniform info i d = unfold account_revert_change modify_status_op in refl

  module _ (s : Service k.PubKey) where
    delete_id :
        (now : ℤ) (p : AccountDeletion k.PubKey) (i : String)
        → (account_delete_change k s now p i).space_id ≡ i
    unfolding account_delete_change
    delete_id now p i = refl

    delete_uniform :
        (now : ℤ) (p : AccountDeletion k.PubKey) (i : String) (d : SpaceDoc)
        → modify_status_op (account_delete_change k s now p i) d ≡ pending s now p d
    unfolding account_delete_change modify_status_op
    delete_uniform now p i d = refl

    -- On consistent collections, a deletion of a named account that returns a time: the payload
    -- was verified, and a created tech space of the account was found. It has made every created
    -- space of the account pending, with the time of the request and the returned time, which
    -- lies a deletion period later, and changed no other space.
    pub account_delete-ok :
        (now : ℤ) (payload : AccountDeletion k.PubKey) (w : World) (t : ℤ)
        → (account_or_empty k payload.account_info.identity =ₛ "") ≡ false
        → IsConsistent w
        → (account_delete m k s now payload w).0 ≡ ok t
        → (s.verify (account_payload payload) ≡ ok tt)
          × (t ≡ Time.unix (Time.add now s.deletion_period))
          × ((d : SpaceDoc) × (first
                  (tech_account_query
                    (account_or_empty k payload.account_info.identity)
                    Status.created)
                  w.spaces
                ≡ some d))
          × Updates
              (account_or_empty k payload.account_info.identity)
              Status.created
              (pending s now payload)
              w
              (account_delete m k s now payload w).1
    unfolding account_delete account_delete_tx lift pure
    account_delete-ok now payload w t named h p =
        let account = account_or_empty k payload.account_info.identity in
        let change = account_delete_change k s now payload in
        let op = pending s now payload in
        let body = account_delete_tx m k s now payload in
        let (v, verified, s1) = >>=-ok _ _ w t p in
        let (u, ran, s2) =
          >>=-ok (tx m body) (λ _. pure (Time.unix (Time.add now s.deletion_period))) w t
            (ap (λ r. r.0) (sym s1) ∙ p) in
        let (done, world) = tx-ok law body w u ran in
        (
          verified,
          cc (p, ap (λ r. r.0) (s1 ∙ s2)),
          found_tech account Status.created w (
              account_tx-found law k account Status.created account_is_deleted change op
                (delete_id now payload) (delete_uniform now payload) (λ d. refl) w u done),
          λ j.
              ap (λ r. space_at j r.1.spaces) (s1 ∙ s2)
              ∙ (ap (λ v. space_at j v.spaces) world
                  ∙ account_tx-Updates law k account Status.created account_is_deleted change op
                      (delete_id now payload) (delete_uniform now payload) (λ d. refl) w u named h
                      done j),
        )

map_doc-map_doc :
    (f g h : SpaceDoc → SpaceDoc) (o : Option SpaceDoc)
    → ((d : SpaceDoc) → f (g d) ≡ h d)
    → map_doc f (map_doc g o) ≡ map_doc h o
map_doc-map_doc f g h none e = refl
map_doc-map_doc f g h (some d) e = ap some (e d)

-- Of a created space of the invariant, a restored document is decoded to the same entry.
pub status_entry-restored :
    (d : SpaceDoc)
    → IsClean d
    → d.status ≡ Status.created
    → status_entry (restored d) ≡ status_entry d
status_entry-restored d h e = ground (arith, h e)

twice :
    (account : String) (p : SpaceDoc → SpaceDoc) (d : SpaceDoc)
    → (p d).identity ≡ d.identity
    → (p d).status ≡ Status.deletion_pending
    → restored (p d) ≡ restored d
    → (let e = if owned account Status.created d then p d else d in
        if owned account Status.deletion_pending e then restored e else e)
      ≡ (if owned account Status.created d || owned account Status.deletion_pending d
          then restored d
          else d)
twice account p d same was again = ground arith

module _ {m m' : Mongo} (law : Documented m) (law' : Documented m') (k : Keys)
    (s : Service k.PubKey) where
  -- On consistent collections, a deletion of a named account and a revert of it, both
  -- successful: every space of the account that was created or already pending is created again,
  -- with no deletion data, and every other space is as before the deletion.
  pub revert-delete :
      (now : ℤ) (payload : AccountDeletion k.PubKey) (w : World) (t : ℤ) (u : Unit {0})
      → (account_or_empty k payload.account_info.identity =ₛ "") ≡ false
      → IsConsistent w
      → (account_delete m k s now payload w).0 ≡ ok t
      → (account_revert_deletion m' k payload.account_info (account_delete m k s now payload w).1).0
        ≡ ok u
      → (j : String)
      → let account = account_or_empty k payload.account_info.identity in
        space_at j
          (account_revert_deletion m' k payload.account_info
            (account_delete m k s now payload w).1).1.spaces
        ≡ map_doc
            (λ d.
              if owned account Status.created d || owned account Status.deletion_pending d
              then restored d
              else d)
            (space_at j w.spaces)
  revert-delete now payload w t u named h p q j =
      let account = account_or_empty k payload.account_info.identity in
      let w1 = (account_delete m k s now payload w).1 in
      let (v, e, found, deleted) = account_delete-ok law k s now payload w t named h p in
      let h1 = account_delete-IsConsistent law k s now payload w h in
      let (found', reverted) =
        account_revert_deletion-ok law' k payload.account_info w1 u named h1 q in
      reverted j
      ∙ (ap (map_doc (λ d. if owned account Status.deletion_pending d then restored d else d))
            (deleted j)
          ∙ map_doc-map_doc _ _ _ (space_at j w.spaces)
              (λ d. twice account (pending s now payload) d refl refl refl))
