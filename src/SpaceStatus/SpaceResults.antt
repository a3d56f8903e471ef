-- ===== src/SpaceStatus/SpaceResults.antt =====
-- What SpaceDelete of spacestatus.go requires, and what it has then done.
use any_sync_coordinator.Prelude.{
  ℕ, String, true, false, ◌||◌, ◌≡◌, ◌⊎◌, refl, sym, subst, ap, ◌∙◌, inl, inr, ◌=ₛ◌, ◌==◌,
  Option-cases, none, some, ℤ, [], ◌∷◌, ◌++◌, arith, if◌then◌else◌,
}
use any_sync_coordinator.Outcome.{
  unexpected, raise_if, Result, ok, err, pure, lift, ◌>>=◌, >>=-ok, >>=-reads, raised,
}
use any_sync_coordinator.Docs.{World, SpaceDoc, status_entry, LogStatus}
use any_sync_coordinator.Docs.Status
use any_sync_coordinator.Docs.SpaceType
use any_sync_coordinator.Mongo.{Mongo, Documented, tx}
use any_sync_coordinator.Mongo.Laws.{tx-ok}
use any_sync_coordinator.Time
use any_sync_coordinator.Keys.{Keys, account_or_empty}
use any_sync_coordinator.DeletionLog.Appending.{status_record, next_id}
use any_sync_coordinator.SpaceStatus.{
  StatusChange, find_status, get_space_type_tx, modify_status_op, log_status, set_status_tx,
}
use any_sync_coordinator.SpaceStatus.Deletion.{
  SpaceDeletion, type_or_not_exists, space_delete_change, space_delete_tx, space_delete,
}
use any_sync_coordinator.SpaceStatus.DeleterSafety.{some_same}
use any_sync_coordinator.SpaceStatus.Invariant.{IsConsistent}
use any_sync_coordinator.SpaceStatus.Keyed.{space_at}
use any_sync_coordinator.SpaceStatus.Refusals.{first-by_id}
use any_sync_coordinator.SpaceStatus.Transition.{Changed, set_status_tx-Changed}

module _ {m : Mongo} (law : Documented m) where
  -- The type is read from the document of the space.
  type-read :
      (i : String) (w : World) (t : ℕ)
      → (i =ₛ "") ≡ false
      → (get_space_type_tx m i w).0 ≡ ok t
      → (d : SpaceDoc) × (space_at i w.spaces ≡ some d) × (t ≡ (status_entry d).type)
  unfolding get_space_type_tx lift pure ◌>>=◌
  type-read i w t named h =
      let here = first-by_id law i named w.spaces in
      let found =
        law.find_one_lem SpaceDoc
          (find_status (record { space_id = i; status = none; identity = "" })) w.spaces in
      elim (Option-cases (space_at i w.spaces)) [
        | inl gone ↦ absurd (ground (arith, gone, here, found))
        | inr (d, there) ↦ (d, there, ground (arith, there, here, found, law.decode_lem d))
      ]

type_found : (r : Result ℕ) (t : ℕ) → type_or_not_exists r ≡ ok t → r ≡ ok t
type_found (ok t') t h = h
type_found (err e) t h = absurd (cc h)

module _ {m : Mongo} (law : Documented m) (k : Keys) (now : ℤ)
    (payload : SpaceDeletion k.PubKey) where
  -- The space that a request deletes, as it waits for its deletion.
  abbrev pub awaiting : SpaceDoc → SpaceDoc
  awaiting d = record d {
    status = Status.deletion_pending;
    deletion_payload = payload.deletion_payload;
    deletion_payload_type = 1;
    deletion_timestamp = Time.unix now;
    to_be_deleted_timestamp = some (Time.unix (Time.add now payload.deletion_period));
  }

  -- A space that was created, neither a tech space nor one between two accounts, and that belongs to
  -- the account of the request, waits for its deletion, with a record for it in the log; every other
  -- space is as it was.
  pub record SpacePending (w w' : World) : Type 0 where
    pub space : SpaceDoc
    pub there : space_at payload.space_id w.spaces ≡ some space
    pub created : space.status ≡ Status.created
    pub deletable :
        ((status_entry space).type == SpaceType.one_to_one
          || (status_entry space).type == SpaceType.tech)
        ≡ false
    pub owner :
        ((account_or_empty k payload.account_info.identity =ₛ "") ≡ true)
        ⊎ (space.identity ≡ account_or_empty k payload.account_info.identity)
    pub spaces :
        (j : String)
        → space_at j w'.spaces
          ≡ (if payload.space_id =ₛ j then some (awaiting space) else space_at j w.spaces)
    pub deletion_log :
        w'.deletion_log
        ≡ w.deletion_log
          ++ status_record (next_id m w) payload.space_id space.identity LogStatus.remove_prepare
            ∷ []

  abbrev change : StatusChange k.PubKey
  change = space_delete_change k now payload

  module _ (named : (payload.space_id =ₛ "") ≡ false) where
    Changed-SpacePending :
        (w w' : World) (d : SpaceDoc) (s : LogStatus) (t : ℕ) (d' : SpaceDoc)
        → Changed k change Status.created w w' d
        → log_status change.status ≡ ok s
        → w'.deletion_log
          ≡ w.deletion_log ++ status_record (next_id m w) change.space_id d.identity s ∷ []
        → space_at payload.space_id w.spaces ≡ some d'
        → t ≡ (status_entry d').type
        → (t == SpaceType.one_to_one || t == SpaceType.tech) ≡ false
        → SpacePending w w'
    unfolding space_delete_change modify_status_op log_status
    Changed-SpacePending w w' d s t d' ch logs log there typed fine =
        let same : d' ≡ d = some_same (sym there ∙ ch.was) in
        record {
          space = d;
          there = ch.was;
          created = ch.status;
          deletable =
              subst (λ n. (n == SpaceType.one_to_one || n == SpaceType.tech) ≡ false)
                (typed ∙ ap (λ x. (status_entry x).type) same) fine;
          owner = ch.owner;
          spaces = ch.spaces;
          deletion_log =
              log
              ∙ ap
                  (λ x.
                    w.deletion_log
                    ++ status_record (next_id m w) payload.space_id d.identity x ∷ [])
                  (cc logs);
        }

    change-named : (change.space_id =ₛ "") ≡ false
    unfolding space_delete_change
    change-named = named

    tx-SpacePending :
        (w : World) (u : Unit {0})
        → IsConsistent w
        → (space_delete_tx m k now payload w).0 ≡ ok u
        → SpacePending w (space_delete_tx m k now payload w).1
    unfolding space_delete_tx raise_if pure
    tx-SpacePending w u h p =
        let (t, p1, s1, h1) =
          >>=-reads (λ w. (type_or_not_exists (get_space_type_tx m payload.space_id w).0, w)) _ w u
            refl p in
        let kind = t == SpaceType.one_to_one || t == SpaceType.tech in
        let (_, p2, s2, h2) = >>=-reads (raise_if kind unexpected) _ w u refl h1 in
        let (e, p3, s3) = >>=-ok (set_status_tx m k change Status.created) _ w u h2 in
        let world = ap (λ r. r.1) (s1 ∙ s2 ∙ s3) in
        let (d', there, typed) = type-read law payload.space_id w t named (type_found _ t p1) in
        let (d, s, ch, logs, log) =
          set_status_tx-Changed law k change Status.created w e change-named h p3 in
        subst (SpacePending w) (sym world) (
          Changed-SpacePending w _ d s t d' ch logs log there typed
            (raised kind unexpected w tt p2))

    -- On consistent collections, a SpaceDelete of a named space that returns a time: the space was
    -- created, is neither a tech space nor one between two accounts, and belongs to the account of the
    -- request, if that names one. It now waits for its deletion, with the payload of the request, the
    -- time of the request and the returned time, which lies the period of the request later. The log
    -- has a record that its removal is prepared, with its owner as the file group, and every other
    -- space is as it was.
    pub space_delete-ok :
        (w : World) (t : ℤ)
        → IsConsistent w
        → (space_delete m k now payload w).0 ≡ ok t
        → (t ≡ Time.unix (Time.add now payload.deletion_period))
          × SpacePending w (space_delete m k now payload w).1
    unfolding space_delete pure
    space_delete-ok w t h p =
        let (u, p1, s1) = >>=-ok (tx m (space_delete_tx m k now payload)) _ w t p in
        let (body, world) = tx-ok law (space_delete_tx m k now payload) w u p1 in
        (cc p, subst (SpacePending w) (sym (ap (λ r. r.1) s1 ∙ world)) (tx-SpacePending w u h body))
