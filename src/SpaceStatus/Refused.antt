-- ===== src/SpaceStatus/Refused.antt =====
-- How a change of status is refused, and what becomes of a refusal in a forced creation.
use any_sync_coordinator.Prelude.{
  ℕ, String, Bool, true, false, ◌≡◌, ◌⊎◌, refl, sym, subst, ap, ◌∙◌, inl, inr, ◌==◌, ◌=ₛ◌, =ₛ_iff,
  Bool-cases, Option-cases, Option, none, some, List, [], ◌∷◌, first, first-passes, arith,
}
use any_sync_coordinator.Outcome.{unexpected, ok, err, >>=-step, >>=-fail}
use any_sync_coordinator.Docs.{World, SpaceDoc, StatusEntry, status_entry}
use any_sync_coordinator.Docs.Status
use any_sync_coordinator.Mongo.{Mongo, Documented}
use any_sync_coordinator.Keys.{Keys}
use any_sync_coordinator.SpaceStatus.{
  Config, StatusChange, find_status, modify_query, modify_status_op, modify_status, status,
  set_status_tx, not_found_or_unexpected, incorrect_status_error, account_status_find_tx,
  check_limit_tx, wrong_status,
}
use any_sync_coordinator.SpaceStatus.Creation.{
  force_change, force_status, new_status_from, new_status_tx,
}
use any_sync_coordinator.SpaceStatus.Invariant.{modify_query-matches}
use any_sync_coordinator.SpaceStatus.Keyed.{space_at, space_at_of_first, IsKeyed}
use any_sync_coordinator.SpaceStatus.Limits.{new_status_tx-guard}
use any_sync_coordinator.SpaceStatus.Refusals.{status-cases}

abbrev shown_status : SpaceDoc → Option SpaceDoc → ℕ
shown_status d none = d.status
shown_status d (some d') = d'.status

none_narrower :
    (p q : SpaceDoc → Bool)
    → ((d : SpaceDoc) → p d ≡ true → q d ≡ true)
    → (ds : List SpaceDoc) → first q ds ≡ none
    → first p ds ≡ none
none_narrower p q sub [] h = refl
none_narrower p q sub (d ∷ ds) h = elim (Bool-cases (p d)) [
  | inl y ↦ absurd (cc (rw (sub d y) at h))
  | inr n ↦ elim (Bool-cases (q d)) [
    | inl y ↦ absurd (cc (rw y at h))
    | inr n' ↦ rw n (none_narrower p q sub ds (rw n' at h))
  ]
]

module _ {m : Mongo} (law : Documented m) (k : Keys) (c : StatusChange k.PubKey) (old : ℕ) where
  -- A change whose query finds nothing writes nothing, and its error is the one for the status.
  unmatched :
      (w : World)
      → first (modify_query k c old) w.spaces ≡ none
      → modify_status m k c old w ≡ (err (wrong_status m (status m c.space_id w).0), w)
  unfolding modify_status
  unmatched w h = ground (
    arith,
    h,
    law.find_one_and_update_lem SpaceDoc (modify_query k c old) (modify_status_op c) w.spaces,
  )

  refused :
      (w : World)
      → first (modify_query k c old) w.spaces ≡ none
      → set_status_tx m k c old w ≡ (err (wrong_status m (status m c.space_id w).0), w)
  unfolding set_status_tx
  refused w h =
      let p = unmatched w h in
      >>=-fail (modify_status m k c old) _ w _ (ap (λ r. r.0) p)
      ∙ ap (λ x. (err (wrong_status m (status m c.space_id w).0), x)) (ap (λ r. r.1) p)

  module _ (named : (c.space_id =ₛ "") ≡ false) where
    no_match :
        (w : World)
        → space_at c.space_id w.spaces ≡ none
        → first (modify_query k c old) w.spaces ≡ none
    no_match w h =
        none_narrower (modify_query k c old) (λ d. d.space_id =ₛ c.space_id)
          (λ d p. (=ₛ_iff d.space_id c.space_id).1 (modify_query-matches k c old d p named).0)
          w.spaces h

    -- A change of a named space that does not exist is refused as unexpected, whatever the
    -- driver does, and writes nothing.
    pub set_status_tx-missing :
        (w : World)
        → space_at c.space_id w.spaces ≡ none
        → set_status_tx m k c old w ≡ (err unexpected, w)
    unfolding not_found_or_unexpected
    set_status_tx-missing w gone =
        let r = refused w (no_match w gone) in
        elim (status-cases law c.space_id w named) [
          | inl (_, p) ↦ r ∙ ap (λ s. (err (wrong_status m s), w)) p
          | inr (inl (d, p, _)) ↦ absurd (cc (gone, p))
          | inr (inr (inl p)) ↦ r ∙ ap (λ s. (err (wrong_status m s), w)) p
          | inr (inr (inr (n, p))) ↦ r ∙ ap (λ s. (err (wrong_status m s), w)) p
        ]

    -- The document of the space is the only one that the query can find.
    no_other :
        (w : World) (d : SpaceDoc)
        → IsKeyed w.spaces
        → space_at c.space_id w.spaces ≡ some d
        → modify_query k c old d ≡ false
        → first (modify_query k c old) w.spaces ≡ none
    no_other w d keyed there fails = elim (Option-cases (first (modify_query k c old) w.spaces)) [
      | inl p ↦ p
      | inr (d', p) ↦
          let hit = first-passes (modify_query k c old) w.spaces d' p in
          let same = (modify_query-matches k c old d' hit named).0 in
          let found = space_at_of_first (modify_query k c old) w.spaces d' keyed p in
          absurd (cc (hit, fails, there, subst (λ i. space_at i w.spaces ≡ some d') same found))
    ]

    -- Where no two documents have the same id: a change of a named space that the document of
    -- the space does not match, because it has another status or another owner, writes nothing.
    -- Its error is the one for the status that the document has, or the unexpected error.
    pub set_status_tx-refused :
        (w : World) (d : SpaceDoc)
        → IsKeyed w.spaces
        → space_at c.space_id w.spaces ≡ some d
        → modify_query k c old d ≡ false
        → (set_status_tx m k c old w ≡ (err (incorrect_status_error d.status), w))
          ⊎ (set_status_tx m k c old w ≡ (err unexpected, w))
    unfolding not_found_or_unexpected
    set_status_tx-refused w d keyed there fails =
        let r = refused w (no_other w d keyed there fails) in
        elim (status-cases law c.space_id w named) [
          | inl (p, _) ↦ absurd (cc (there, p))
          | inr (inl (d', p, q)) ↦
              let same = ap (λ o. shown_status d o) (sym there ∙ p) in
              inl (
                r
                ∙ ap (λ s. (err (wrong_status m s), w)) q
                ∙ ap (λ s. (err (incorrect_status_error s), w)) (sym same))
          | inr (inr (inl p)) ↦ inr (r ∙ ap (λ s. (err (wrong_status m s), w)) p)
          | inr (inr (inr (n, p))) ↦ inr (r ∙ ap (λ s. (err (wrong_status m s), w)) p)
        ]

module _ {m : Mongo} (law : Documented m) (k : Keys) (conf : Config) (i : String) (key : k.PubKey)
    (t : ℕ) (named : (i =ₛ "") ≡ false) where
  -- A forced change that is refused leaves the state to the check of the limit.
  force_refused :
      (w : World) (d : SpaceDoc) (old : ℕ)
      → IsKeyed w.spaces
      → space_at i w.spaces ≡ some d
      → modify_query k (force_change k i key) old d ≡ false
      → force_status m k i key old w ≡ (ok tt, w)
  unfolding force_status force_change
  force_refused w d old keyed there fails =
      elim (set_status_tx-refused law k (force_change k i key) old named w d keyed there fails) [
        | inl p ↦ ap (λ r. (ok tt, r.1)) p
        | inr p ↦ ap (λ r. (ok tt, r.1)) p
      ]

  query_other :
      (d : SpaceDoc)
      → (d.identity =ₛ k.account key) ≡ false
      → (k.account key =ₛ "") ≡ false
      → modify_query k (force_change k i key) d.status d ≡ false
  unfolding modify_query find_status force_change
  query_other d owner known = ground arith

  force_step :
      (entry : StatusEntry) (w : World)
      → (entry.status == Status.created) ≡ false
      → force_status m k i key entry.status w ≡ (ok tt, w)
      → check_limit_tx m k conf (some key) w ≡ (ok tt, w)
      → new_status_from m k conf i key t true (ok entry) w ≡ (ok tt, w)
  unfolding new_status_from
  force_step entry w gone forced limit =
      let f = force_status m k i key entry.status in
      let step = >>=-step f (λ _. check_limit_tx m k conf (some key)) w tt (ap (λ r. r.0) forced) in
      rw gone (step ∙ ap (check_limit_tx m k conf (some key)) (ap (λ r. r.1) forced) ∙ limit)

  -- Where no two documents have the same id: a forced NewStatus for a named space that exists,
  -- is not created and belongs to another account succeeds and changes nothing, if the space can
  -- be read, no deletion of the caller's account is pending, and the check of the caller's limit
  -- passes.
  pub forced-other_owner :
      (w : World) (d : SpaceDoc)
      → IsKeyed w.spaces
      → space_at i w.spaces ≡ some d
      → (d.status == Status.created) ≡ false
      → (d.identity =ₛ k.account key) ≡ false
      → (k.account key =ₛ "") ≡ false
      → (status m i w).0 ≡ ok (status_entry d)
      → (account_status_find_tx m (k.account key) Status.deletion_pending w).0 ≡ ok false
      → check_limit_tx m k conf (some key) w ≡ (ok tt, w)
      → new_status_tx m k conf i key t true w ≡ (ok tt, w)
  forced-other_owner w d keyed there gone owner known read pending limit =
      new_status_tx-guard m k conf i key t true w false pending
      ∙ ap (λ found. new_status_from m k conf i key t true found w) read
      ∙ force_step (status_entry d) w gone
          (force_refused w d d.status keyed there (query_other d owner known)) limit
