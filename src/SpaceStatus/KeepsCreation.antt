-- ===== src/SpaceStatus/KeepsCreation.antt =====
-- The invariant under the creation of spaces.
use any_sync_coordinator.Prelude.{
  ℕ, String, Bool, true, false, ◌≡◌, ◌⊎◌, inl, inr, refl, sym, subst, ◌=ₛ◌, =ₛ_iff, ◌==◌, none,
  some, [], ◌∷◌, ◌++◌, All-append, arith,
}
use any_sync_coordinator.Outcome.{space_not_exists, Result, Result-cases, ok, err, ◌>>◌}
use any_sync_coordinator.Docs.{World, SpaceDoc, StatusEntry, ok as status_ok}
use any_sync_coordinator.Docs.Status
use any_sync_coordinator.Mongo.{Mongo, Documented, Steady}
use any_sync_coordinator.Mongo.Triple.{
  Keeps, Keeps-reader, Keeps-same, Keeps-pure, Keeps-raise, Keeps-raise_if, Keeps-if, Keeps-bind,
  tx-keeps,
}
use any_sync_coordinator.Keys.{Keys}
use any_sync_coordinator.SpaceStatus.{Config, set_status_tx, check_limit_tx, log_status}
use any_sync_coordinator.SpaceStatus.Creation.{
  new_space, insert_space, force_change, force_status, new_status_from, new_status_tx, new_status,
}
use any_sync_coordinator.SpaceStatus.Effect.{set_status_tx-err}
use any_sync_coordinator.SpaceStatus.Invariant.{
  IsConsistent, IsClean, shown, followed, set_status_tx-IsConsistent,
}
use any_sync_coordinator.SpaceStatus.Keyed.{DiffersFrom, space_at, append-IsKeyed, space_at-append}
use any_sync_coordinator.SpaceStatus.Reads.{account_status_find_tx-same, check_limit_tx-same}

abbrev added : SpaceDoc → World → World
added d w = record w { spaces = w.spaces ++ d ∷ [] }

-- A new space keeps the invariant: the log, which has no record of its status, shows it as Ok.
added-IsConsistent :
    (i owner : String) (t : ℕ) (w : World)
    → (i =ₛ "") ≡ false
    → space_at i w.spaces ≡ none
    → IsConsistent w
    → IsConsistent (added (new_space i owner t) w)
unfolding new_space shown log_status
added-IsConsistent i owner t w named absent h = record {
  keyed = append-IsKeyed w.spaces (new_space i owner t) h.keyed absent;
  named = All-append (DiffersFrom "") w.spaces (new_space i owner t ∷ []) h.named (named, tt);
  agrees = λ j. added_agrees j;
  clean =
      All-append IsClean w.spaces (new_space i owner t ∷ []) h.clean
        ((λ _. (refl, refl, refl, refl)), tt);
}
  where
    added_agrees :
        (j : String) → shown (space_at j (w.spaces ++ new_space i owner t ∷ [])) ≡ ok (followed j w)
    added_agrees j = ground (
      arith,
      absent,
      h.agrees j,
      h.agrees i,
      =ₛ_iff i j,
      space_at-append j w.spaces (new_space i owner t) absent,
    )

module _ {m : Mongo} (law : Documented m) (k : Keys) (i : String) (key : k.PubKey) where
  insert_space-ok :
      (t : ℕ) (w : World) (u : Unit {0})
      → (insert_space m k i key t w).0 ≡ ok u
      → (space_at i w.spaces ≡ none)
        × ((insert_space m k i key t w).1 ≡ added (new_space i (k.account key) t) w)
  unfolding insert_space
  insert_space-ok t w u h = ground (
    arith,
    law.insert_one_lem SpaceDoc (λ d. d.space_id =ₛ i) (new_space i (k.account key) t) w.spaces,
  )

  insert_space-IsConsistent :
      (t : ℕ) → (i =ₛ "") ≡ false → Keeps IsConsistent (insert_space m k i key t)
  insert_space-IsConsistent t named = record {
    at = λ w u h p.
        let (absent, world) = insert_space-ok t w u p in
        (
          subst IsConsistent (sym world) (added-IsConsistent i (k.account key) t w named absent h),
          tt,
        );
  }

  force_named : (i =ₛ "") ≡ false → ((force_change k i key).space_id =ₛ "") ≡ false
  unfolding force_change
  force_named h = h

  force_logs : log_status (force_change k i key).status ≡ ok status_ok
  unfolding force_change log_status
  force_logs = refl

  module _ (steady : Steady m) where
    -- The change of status whose error is dropped has written nothing if it failed.
    force_status-IsConsistent :
        (old : ℕ) → (i =ₛ "") ≡ false → Keeps IsConsistent (force_status m k i key old)
    unfolding force_status
    force_status-IsConsistent old named = record {
      at = λ w u h p. (
        elim (Result-cases (set_status_tx m k (force_change k i key) old w).0) [
          | inl (e, q) ↦
              ((set_status_tx-IsConsistent law k (force_change k i key) old (force_named named)).at
                w e h q).0
          | inr (x, q) ↦
              subst IsConsistent
                (sym (
                  set_status_tx-err law steady k (force_change k i key) old w x status_ok force_logs
                    q))
                h
        ],
        tt,
      );
    }

  module _ (conf : Config) (named : (i =ₛ "") ≡ false) (t : ℕ) where
    limit_kept : Keeps IsConsistent (check_limit_tx m k conf (some key))
    limit_kept = Keeps-same _ (λ w. check_limit_tx-same m w k conf (some key))

    new_status_from-IsConsistent :
        (force : Bool) (found : Result StatusEntry)
        → (force ≡ false) ⊎ Steady m
        → Keeps IsConsistent (new_status_from m k conf i key t force found)
    unfolding new_status_from
    new_status_from-IsConsistent force (ok entry) safe =
        Keeps-if (entry.status == Status.created) _ _ (λ _. Keeps-pure tt)
          λ _. Keeps-if force _ _ (λ forced. forced_kept forced safe) λ _. Keeps-raise _
      where
        forced_kept :
            force ≡ true
            → (force ≡ false) ⊎ Steady m
            → Keeps IsConsistent
                (do force_status m k i key entry.status; check_limit_tx m k conf (some key))
        forced_kept p (inl q) = absurd (cc (p, q))
        forced_kept p (inr steady) =
            Keeps-bind _ _ (force_status-IsConsistent steady entry.status named) λ _. limit_kept
    new_status_from-IsConsistent force (err space_not_exists) safe =
        Keeps-bind _ _ (insert_space-IsConsistent t named) λ _. limit_kept
    new_status_from-IsConsistent force (err _) safe = Keeps-raise _

    pub new_status-IsConsistent :
        (force : Bool) (w : World)
        → (force ≡ false) ⊎ Steady m
        → IsConsistent w
        → IsConsistent (new_status m k conf i key t force w).1
    unfolding new_status new_status_tx
    new_status-IsConsistent force w safe =
        tx-keeps law _
          (Keeps-bind _ _ (Keeps-same _ (λ v. account_status_find_tx-same m v _ _)) λ pending.
            Keeps-bind _ _ (Keeps-raise_if pending _) λ _.
              Keeps-bind _ _ (Keeps-reader _)
                λ found. new_status_from-IsConsistent force found safe)
          w
