-- ===== src/SpaceStatus/KeepsDeletion.antt =====
-- The invariant under the deletions, their reversal and the deprecated change of status.
use any_sync_coordinator.Prelude.{
  ℕ, String, false, ◌≡◌, inl, inr, refl, sym, subst, ◌∙◌, ◌==◌, ◌=ₛ◌, some, Bool-cases, List, [],
  ◌∷◌, map, ℤ, All, All-select, select, arith, not,
}
use any_sync_coordinator.Outcome.{state-then_pure, state-lift_then, raise, ok}
use any_sync_coordinator.Docs.{World, SpaceDoc, StatusEntry, status_entry}
use any_sync_coordinator.Docs.Status
use any_sync_coordinator.Mongo.{Mongo, Documented}
use any_sync_coordinator.Mongo.Triple.{
  Triple, Keeps, Keeps-reader, Keeps-same, Keeps-pure, Keeps-raise_if, Keeps-bind, Triple-bind,
  tx-keeps,
}
use any_sync_coordinator.Keys.{Keys}
use any_sync_coordinator.SpaceStatus.{StatusChange, find_status, Service, set_status}
use any_sync_coordinator.SpaceStatus.Deletion.{
  AccountDeletion, SpaceDeletion, find_entries, set_each, account_delete_change, account_delete_tx,
  account_delete, account_revert_change, account_revert_deletion_tx, account_revert_deletion,
  space_delete_change, space_delete_tx, space_delete,
}
use any_sync_coordinator.SpaceStatus.{AccountInfo}
use any_sync_coordinator.SpaceStatus.Change.{change_status, restore_tx, timed_change}
use any_sync_coordinator.SpaceStatus.Invariant.{IsConsistent, set_status_tx-IsConsistent}
use any_sync_coordinator.SpaceStatus.Keyed.{DiffersFrom}
use any_sync_coordinator.SpaceStatus.Reads.{account_status_find_tx-same, check_limit_tx-same}

abbrev pub IsNamed : StatusEntry → Type 0
IsNamed e = (e.space_id =ₛ "") ≡ false

entries-IsNamed : (ds : List SpaceDoc) → All (DiffersFrom "") ds → All IsNamed (map status_entry ds)
entries-IsNamed [] h = h
entries-IsNamed (d ∷ ds) h = (h.0, entries-IsNamed ds h.1)

module _ {m : Mongo} (law : Documented m) where
  pub find_entries-ok :
      (i : String) (n : ℕ) (w : World) (es : List StatusEntry)
      → (find_entries m i n w).0 ≡ ok es
      → es
        ≡ map status_entry (
            select (find_status (record { space_id = ""; status = some n; identity = i })) w.spaces)
  unfolding find_entries
  find_entries-ok i n w es h = ground (
    arith,
    law.find_lem SpaceDoc (find_status (record { space_id = ""; status = some n; identity = i }))
        w.spaces,
  )

  pub find_entries-same : (i : String) (n : ℕ) (w : World) → (find_entries m i n w).1 ≡ w
  unfolding find_entries
  find_entries-same i n w = refl

  -- The entries that a loop goes over are named.
  pub find_entries-IsNamed :
      (i : String) (n : ℕ) → Triple IsConsistent (find_entries m i n) (All IsNamed)
  find_entries-IsNamed i n = record {
    at = λ w es h p. (
      subst IsConsistent (sym (find_entries-same i n w)) h,
      subst (All IsNamed) (sym (find_entries-ok i n w es p))
          (entries-IsNamed _ (All-select (DiffersFrom "") _ w.spaces h.named)),
    );
  }

module _ {m : Mongo} (law : Documented m) (k : Keys) where
  set_each-IsConsistent :
      (change : String → StatusChange k.PubKey) (old : ℕ)
      → ((i : String) → (change i).space_id ≡ i)
      → (es : List StatusEntry) → All IsNamed es
      → Keeps IsConsistent (set_each m k change old es)
  unfolding set_each
  set_each-IsConsistent change old same [] h = Keeps-pure tt
  set_each-IsConsistent change old same (e ∷ es) h =
      Triple-bind _ _ (set_status_tx-IsConsistent law k (change e.space_id) old (rw same h.0))
        λ _ _. set_each-IsConsistent change old same es h.1

  revert-space_id :
      (payload : AccountInfo k.PubKey) (i : String)
      → (account_revert_change k payload i).space_id ≡ i
  unfolding account_revert_change
  revert-space_id payload i = refl

  pub account_revert_deletion-IsConsistent :
      (payload : AccountInfo k.PubKey) (w : World)
      → IsConsistent w
      → IsConsistent (account_revert_deletion m k payload w).1
  unfolding account_revert_deletion account_revert_deletion_tx
  account_revert_deletion-IsConsistent payload = tx-keeps law _ (
      Triple-bind _ _ (Keeps-same _ (λ w. account_status_find_tx-same m w _ _)) λ found _.
        Triple-bind _ _ (Keeps-raise_if (not found) _) λ _ _.
          Triple-bind _ _ (find_entries-IsNamed law _ _) λ es named.
            set_each-IsConsistent (account_revert_change k payload) _ (revert-space_id payload) es
              named)

  deleted_named :
      (now : ℤ) (payload : SpaceDeletion k.PubKey)
      → (payload.space_id =ₛ "") ≡ false
      → ((space_delete_change k now payload).space_id =ₛ "") ≡ false
  unfolding space_delete_change
  deleted_named now payload h = h

  pub space_delete-IsConsistent :
      (now : ℤ) (payload : SpaceDeletion k.PubKey) (w : World)
      → (payload.space_id =ₛ "") ≡ false
      → IsConsistent w
      → IsConsistent (space_delete m k now payload w).1
  unfolding space_delete space_delete_tx
  space_delete-IsConsistent now payload w named h =
      subst IsConsistent (sym (state-then_pure _ _ w)) (
        tx-keeps law _
          (Keeps-bind _ _ (Keeps-reader _) λ t. Keeps-bind _ _ (Keeps-raise_if _ _) λ _.
            Keeps-bind _ _
              (set_status_tx-IsConsistent law k (space_delete_change k now payload) _
                (deleted_named now payload named))
              λ _. Keeps-pure tt)
          w h)

module _ {m : Mongo} (law : Documented m) (k : Keys) (s : Service k.PubKey) where
  delete-space_id :
      (now : ℤ) (payload : AccountDeletion k.PubKey) (i : String)
      → (account_delete_change k s now payload i).space_id ≡ i
  unfolding account_delete_change
  delete-space_id now payload i = refl

  account_delete_tx-IsConsistent :
      (now : ℤ) (payload : AccountDeletion k.PubKey)
      → Keeps IsConsistent (account_delete_tx m k s now payload)
  unfolding account_delete_tx
  account_delete_tx-IsConsistent now payload =
      Triple-bind _ _ (Keeps-same _ (λ w. account_status_find_tx-same m w _ _)) λ found _.
        Triple-bind _ _ (Keeps-raise_if (not found) _) λ _ _.
          Triple-bind _ _ (find_entries-IsNamed law _ _) λ es named.
            set_each-IsConsistent law k (account_delete_change k s now payload) _
              (delete-space_id now payload) es named

  pub account_delete-IsConsistent :
      (now : ℤ) (payload : AccountDeletion k.PubKey) (w : World)
      → IsConsistent w
      → IsConsistent (account_delete m k s now payload w).1
  unfolding account_delete
  account_delete-IsConsistent now payload w h = elim (state-lift_then _ _ w) [
    | inl e ↦ subst IsConsistent (sym e) h
    | inr e ↦
        subst IsConsistent (sym (e ∙ state-then_pure _ _ w))
          (tx-keeps law _ (account_delete_tx-IsConsistent now payload) w h)
  ]

  -- A change of status of a named space, through the deprecated call.
  pub change_status-IsConsistent :
      (now : ℤ) (c : StatusChange k.PubKey) (w : World)
      → (c.space_id =ₛ "") ≡ false
      → IsConsistent w
      → IsConsistent (change_status m k s now c w).1
  unfolding change_status restore_tx timed_change set_status raise
  change_status-IsConsistent now c w named h = elim (Bool-cases (c.status == Status.created)) [
    | inl p ↦ rw p (
        tx-keeps law _
          (Keeps-bind _ _ (set_status_tx-IsConsistent law k c _ named) λ e.
            Keeps-bind _ _ (Keeps-same _ (λ v. check_limit_tx-same m v k s.conf c.identity))
              λ _. Keeps-pure e)
          w h)
    | inr p ↦ elim (Bool-cases (c.status == Status.deletion_pending)) [
      | inl q ↦ rw p (
          rw q (elim (state-lift_then _ _ w) [
            | inl e ↦ subst IsConsistent (sym e) h
            | inr e ↦
                subst IsConsistent (sym e)
                  (tx-keeps law _ (set_status_tx-IsConsistent law k _ _ named) w h)
          ]))
      | inr q ↦ rw p (rw q h)
    ]
  ]
