-- ===== src/SpaceStatus/Logged.antt =====
-- A change of status with its record in the log, and the limit that is checked after it.
use any_sync_coordinator.Prelude.{
  ℕ, String, if◌then◌else◌, true, false, ◌&&◌, refl, ◌≡◌, ◌⊎◌, ap, ◌∙◌, inl, inr, ◌=ₛ◌, ◌==◌,
  Bool-cases, Option, none, some, pos, [], ◌∷◌, ◌++◌, arith,
}
use any_sync_coordinator.Prelude.Int.{ltb_ℤ, leb_ℤ}
use any_sync_coordinator.Outcome.{raise_if, ok}
use any_sync_coordinator.Docs.{World, SpaceDoc, StatusEntry, status_entry, LogStatus}
use any_sync_coordinator.Docs.Status
use any_sync_coordinator.SpaceStatus.Keyed.{space_at}
use any_sync_coordinator.Mongo.{Mongo, Documented}
use any_sync_coordinator.Keys.{Keys, account_or_empty}
use any_sync_coordinator.DeletionLog.Appending.{status_record, next_id}
use any_sync_coordinator.SpaceStatus.{
  Config, StatusChange, modify_status_op, log_status, check_limit_tx, set_status_tx,
}
use any_sync_coordinator.SpaceStatus.Invariant.{IsConsistent}
use any_sync_coordinator.SpaceStatus.Limits.{created_spaces}
use any_sync_coordinator.SpaceStatus.Transition.{set_status_tx-result}

module _ {m : Mongo} (law : Documented m) (k : Keys) where
  -- There is no limit, or the account is named and has no more created spaces than it allows.
  abbrev pub IsWithin : Config → Option k.PubKey → World → Type 0
  IsWithin conf who w =
      (leb_ℤ conf.space_limit (pos 0) ≡ true)
      ⊎ ((key : k.PubKey) × (who ≡ some key)
          × (ltb_ℤ conf.space_limit (pos (created_spaces (k.account key) w)) ≡ false))

  pub check_limit-IsWithin :
      (conf : Config) (who : Option k.PubKey) (w : World) (u : Unit {0})
      → (check_limit_tx m k conf who w).0 ≡ ok u
      → IsWithin conf who w
  unfolding check_limit_tx raise_if
  check_limit-IsWithin conf none w u h = inl (ground arith)
  check_limit-IsWithin conf (some key) w u h = elim (Bool-cases (leb_ℤ conf.space_limit (pos 0))) [
    | inl p ↦ inl p
    | inr p ↦ inr (
      key,
      refl,
      ground (
        arith,
        p,
        law.count_documents_lem SpaceDoc
            (λ d. d.identity =ₛ k.account key && d.status == Status.created) w.spaces,
      ),
    )
  ]

  -- A change of status as the service makes it: the space had the old status and the owner that is
  -- named, if one is; it becomes the given document, and every other space is as it was; the entry
  -- is that of the document, and the log has one record more.
  pub record Logged (i : String) (who : Option k.PubKey) (old : ℕ) (after : SpaceDoc → SpaceDoc)
      (shown : LogStatus) (e : StatusEntry) (w w' : World) : Type 0 where
    pub space : SpaceDoc
    pub was : space_at i w.spaces ≡ some space
    pub status : space.status ≡ old
    pub owner : ((account_or_empty k who =ₛ "") ≡ true) ⊎ (space.identity ≡ account_or_empty k who)
    pub spaces :
        (j : String)
        → space_at j w'.spaces ≡ (if i =ₛ j then some (after space) else space_at j w.spaces)
    pub entry : e ≡ status_entry (after space)
    pub deletion_log :
        w'.deletion_log ≡ w.deletion_log ++ status_record (next_id m w) i space.identity shown ∷ []

  pub set_status_tx-Logged :
      (c : StatusChange k.PubKey) (old : ℕ) (after : SpaceDoc → SpaceDoc) (shown : LogStatus)
      (e : StatusEntry) (w : World)
      → (c.space_id =ₛ "") ≡ false
      → ((d : SpaceDoc) → modify_status_op c d ≡ after d)
      → log_status c.status ≡ ok shown
      → IsConsistent w
      → (set_status_tx m k c old w).0 ≡ ok e
      → Logged c.space_id c.identity old after shown e w (set_status_tx m k c old w).1
  set_status_tx-Logged c old after shown e w named shape logs h p =
      let (d, s, ch, logs', entry, log) = set_status_tx-result law k c old w e named h p in
      let same : s ≡ shown = cc (logs, logs') in
      record {
        space = d;
        was = ch.was;
        status = ch.status;
        owner = ch.owner;
        spaces = λ j.
            ch.spaces j
            ∙ ap (λ x. if c.space_id =ₛ j then some x else space_at j w.spaces) (shape d);
        entry = entry ∙ ap status_entry (shape d);
        deletion_log =
            log
            ∙ ap (λ x. w.deletion_log ++ status_record (next_id m w) c.space_id d.identity x ∷ [])
                same;
      }
