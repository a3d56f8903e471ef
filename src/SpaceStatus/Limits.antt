-- ===== src/SpaceStatus/Limits.antt =====
-- The limit on the spaces of an account, in NewStatus and in ChangeStatus.
use any_sync_coordinator.Prelude.{
  ℕ, suc, String, Bool, true, false, ◌&&◌, ◌≡◌, ◌≤◌, ◌⊎◌, refl, sym, subst, ap, ◌∙◌, inl, inr, ◌==◌,
  ◌=ₛ◌, Bool-cases, some, pos, count, arith, if◌then◌else◌,
}
use any_sync_coordinator.Outcome.{
  space_not_exists, account_is_deleted, Result, Result-cases, ok, err, raise_if, raise, pure,
  Action, ◌>>=◌, ◌>>◌, >>=-ok,
}
use any_sync_coordinator.Docs.{World, SpaceDoc, StatusEntry}
use any_sync_coordinator.Docs.Status
use any_sync_coordinator.Mongo.{Mongo, Documented}
use any_sync_coordinator.Mongo.Laws.{tx-ok}
use any_sync_coordinator.Keys.{Keys}
use any_sync_coordinator.SpaceStatus.{Config, status, account_status_find_tx, check_limit_tx}
use any_sync_coordinator.SpaceStatus.Creation.{
  insert_space, force_status, new_status_from, new_status_tx, new_status,
}
use any_sync_coordinator.SpaceStatus.Reads.{account_status_find_tx-same, check_limit_tx-same}

-- The spaces of an account that count: those that are created.
abbrev pub created_spaces : String → World → ℕ
created_spaces account w = count (λ d. d.identity =ₛ account && d.status == Status.created) w.spaces

module _ (m : Mongo) (k : Keys) (conf : Config) (i : String) (key : k.PubKey) (t : ℕ) (force : Bool)
    (w : World) where
  -- The transaction of NewStatus, by what it finds of the account.
  pub new_status_tx-guard :
      (b : Bool)
      → (account_status_find_tx m (k.account key) Status.deletion_pending w).0 ≡ ok b
      → new_status_tx m k conf i key t force w ≡ (
          if b
          then (err account_is_deleted, w)
          else new_status_from m k conf i key t force (status m i w).0 w)
  unfolding new_status_tx ◌>>=◌
  new_status_tx-guard b h =
      ground (arith, account_status_find_tx-same m w (k.account key) Status.deletion_pending)

  pub new_status_tx-runs :
      (u : Unit {0})
      → (new_status_tx m k conf i key t force w).0 ≡ ok u
      → ((account_status_find_tx m (k.account key) Status.deletion_pending w).0 ≡ ok false)
        × (new_status_tx m k conf i key t force w
            ≡ new_status_from m k conf i key t force (status m i w).0 w)
  new_status_tx-runs u h =
      elim (Result-cases (account_status_find_tx m (k.account key) Status.deletion_pending w).0) [
        | inl (b, p) ↦ by_answer b p (new_status_tx-guard b p)
        | inr (e, p) ↦ absurd (unfold account_status_find_tx in ground arith)
      ]
    where
      by_answer :
          (b : Bool)
          → (account_status_find_tx m (k.account key) Status.deletion_pending w).0 ≡ ok b
          → new_status_tx m k conf i key t force w ≡ (
              if b
              then (err account_is_deleted, w)
              else new_status_from m k conf i key t force (status m i w).0 w)
          → ((account_status_find_tx m (k.account key) Status.deletion_pending w).0 ≡ ok false)
            × (new_status_tx m k conf i key t force w
                ≡ new_status_from m k conf i key t force (status m i w).0 w)
      by_answer true p e = absurd (cc (h, ap (λ r. r.0) e))
      by_answer false p e = (p, e)

module _ {m : Mongo} (law : Documented m) (k : Keys) (conf : Config) (key : k.PubKey) (n : ℕ)
    (limit : conf.space_limit ≡ pos (suc n)) where
  pub check_limit_tx-ok :
      (w : World) (u : Unit {0})
      → (check_limit_tx m k conf (some key) w).0 ≡ ok u
      → created_spaces (k.account key) w ≤ suc n
  unfolding check_limit_tx raise_if
  check_limit_tx-ok w u h = ground (
    arith,
    limit,
    law.count_documents_lem SpaceDoc
        (λ d. d.identity =ₛ k.account key && d.status == Status.created) w.spaces,
  )

  then_limit :
      (f : Action World (Unit {0})) (w : World) (u : Unit {0})
      → ((f >> check_limit_tx m k conf (some key)) w).0 ≡ ok u
      → created_spaces (k.account key) ((f >> check_limit_tx m k conf (some key)) w).1 ≤ suc n
  then_limit f w u h =
      let check = check_limit_tx m k conf (some key) in
      let (v, p, step) = >>=-ok f (λ _. check) w u h in
      let same = ap (λ r. r.1) step ∙ check_limit_tx-same m (f w).1 k conf (some key) in
      subst (λ x. created_spaces (k.account key) x ≤ suc n) (sym same)
        (check_limit_tx-ok (f w).1 u (ap (λ r. r.0) (sym step) ∙ h))

  module _ (i : String) (t : ℕ) (force : Bool) where
    -- What a success of NewStatus means.
    abbrev Created : Result StatusEntry → World → World → Type 0
    Created found w w' =
        ((entry : StatusEntry) × (found ≡ ok entry) × (entry.status ≡ Status.created) × (w' ≡ w))
        ⊎ (created_spaces (k.account key) w' ≤ suc n)

    new_status_from-ok :
        (found : Result StatusEntry) (w : World) (u : Unit {0})
        → (new_status_from m k conf i key t force found w).0 ≡ ok u
        → Created found w (new_status_from m k conf i key t force found w).1
    unfolding new_status_from pure raise
    new_status_from-ok (ok entry) w u h = elim (Bool-cases (entry.status == Status.created)) [
      | inl p ↦ inl (entry, refl, ground arith, rw p)
      | inr p ↦ elim (Bool-cases force) [
        | inl q ↦
            rw (p, q) (inr (then_limit (force_status m k i key entry.status) w u (rw (p, q) at h)))
        | inr q ↦ absurd (cc (rw (p, q) at h))
      ]
    ]
    new_status_from-ok (err space_not_exists) w u h =
        inr (then_limit (insert_space m k i key t) w u h)
    new_status_from-ok (err _) w u h = absurd (cc h)

    -- A NewStatus that succeeds, where there is a limit above zero: the space was there already
    -- and created, and nothing is changed; or the account has no more created spaces afterwards
    -- than the limit allows.
    pub new_status-limit :
        (w : World) (u : Unit {0})
        → (new_status m k conf i key t force w).0 ≡ ok u
        → Created (status m i w).0 w (new_status m k conf i key t force w).1
    unfolding new_status
    new_status-limit w u h =
        let (body, world) = tx-ok law _ w u h in
        let runs = (new_status_tx-runs m k conf i key t force w u body).1 in
        subst (Created (status m i w).0 w) (sym (world ∙ ap (λ r. r.1) runs))
          (new_status_from-ok (status m i w).0 w u (ap (λ r. r.0) (sym runs) ∙ body))
