-- ===== src/SpaceStatus/Opened.antt =====
-- What an unforced NewStatus leaves behind.
use any_sync_coordinator.Prelude.{
  ℕ, String, false, ◌≡◌, ◌⊎◌, refl, sym, subst, ap, ◌∙◌, inl, inr, ◌==◌, ◌=ₛ◌, =ₛ_refl, Bool-cases,
  none, some, [], ◌∷◌, ◌++◌, arith,
}
use any_sync_coordinator.Outcome.{
  Result, ok, err, space_not_exists, driver, unexpected, raise, pure, >>=-ok,
}
use any_sync_coordinator.Docs.{World, SpaceDoc, StatusEntry, status_entry}
use any_sync_coordinator.Docs.Status
use any_sync_coordinator.Mongo.{Mongo, Documented}
use any_sync_coordinator.Mongo.Laws.{tx-ok}
use any_sync_coordinator.Keys.{Keys}
use any_sync_coordinator.SpaceStatus.{Config, status, check_limit_tx}
use any_sync_coordinator.SpaceStatus.Creation.{new_space, insert_space, new_status_from, new_status}
use any_sync_coordinator.SpaceStatus.Keyed.{space_at, space_at-append}
use any_sync_coordinator.SpaceStatus.Limits.{new_status_tx-runs}
use any_sync_coordinator.SpaceStatus.Reads.{check_limit_tx-same}
use any_sync_coordinator.SpaceStatus.Refusals.{status-cases}

module _ {m : Mongo} (law : Documented m) (k : Keys) (conf : Config) (i : String) (key : k.PubKey)
    (t : ℕ) (named : (i =ₛ "") ≡ false) where
  -- The space is there and created: as it was, or inserted for the account of the key where there was
  -- none.
  pub record Opened (w w' : World) : Type 0 where
    pub space : SpaceDoc
    pub there : space_at i w'.spaces ≡ some space
    pub created : space.status ≡ Status.created
    pub origin :
        (w' ≡ w)
        ⊎ ((space_at i w.spaces ≡ none)
            × (space ≡ new_space i (k.account key) t)
            × (w' ≡ record w { spaces = w.spaces ++ space ∷ [] }))

  inserted_space :
      (w : World) (u : Unit {0})
      → (insert_space m k i key t w).0 ≡ ok u
      → space_at i w.spaces ≡ none
      → (insert_space m k i key t w).1
        ≡ record w { spaces = w.spaces ++ new_space i (k.account key) t ∷ [] }
  unfolding insert_space
  inserted_space w u h gone = ground (
    arith,
    gone,
    law.insert_one_lem SpaceDoc (λ d. d.space_id =ₛ i) (new_space i (k.account key) t) w.spaces,
  )

  appended :
      (w : World)
      → space_at i w.spaces ≡ none
      → space_at i (w.spaces ++ new_space i (k.account key) t ∷ [])
        ≡ some (new_space i (k.account key) t)
  unfolding new_space
  appended w gone =
      space_at-append i w.spaces (new_space i (k.account key) t) gone ∙ rw (=ₛ_refl i) refl

  is_created : (new_space i (k.account key) t).status ≡ Status.created
  unfolding new_space
  is_created = refl

  from_missing :
      (w : World) (u : Unit {0})
      → space_at i w.spaces ≡ none
      → (new_status_from m k conf i key t false (err space_not_exists) w).0 ≡ ok u
      → Opened w (new_status_from m k conf i key t false (err space_not_exists) w).1
  unfolding new_status_from
  from_missing w u gone h =
      let check = check_limit_tx m k conf (some key) in
      let (v, p, step) = >>=-ok (insert_space m k i key t) (λ _. check) w u h in
      let world =
        ap (λ r. r.1) step
        ∙ check_limit_tx-same m (insert_space m k i key t w).1 k conf (some key)
        ∙ inserted_space w v p gone in
      record {
        space = new_space i (k.account key) t;
        there = ap (λ x. space_at i x.spaces) world ∙ appended w gone;
        created = is_created;
        origin = inr (gone, refl, world);
      }

  from_present :
      (w : World) (u : Unit {0}) (d : SpaceDoc)
      → space_at i w.spaces ≡ some d
      → (new_status_from m k conf i key t false (ok (status_entry d)) w).0 ≡ ok u
      → Opened w (new_status_from m k conf i key t false (ok (status_entry d)) w).1
  unfolding new_status_from raise pure
  from_present w u d at h = elim (Bool-cases (d.status == Status.created)) [
    | inl p ↦ rw p (record { space = d; there = at; created = ground arith; origin = inl refl })
    | inr p ↦ absurd (cc (rw p at h))
  ]

  from_error :
      (w : World) (u : Unit {0}) (found : Result StatusEntry)
      → ((found ≡ err unexpected) ⊎ ((n : ℕ) × (found ≡ err (driver n))))
      → (new_status_from m k conf i key t false found w).0 ≡ ok u
      → ⊥
  unfolding new_status_from raise
  from_error w u found (inl p) h = cc (rw p at h)
  from_error w u found (inr (n, p)) h = cc (rw p at h)

  by_status :
      (w : World) (u : Unit {0}) (found : Result StatusEntry)
      → (status m i w).0 ≡ found
      → (new_status_from m k conf i key t false found w).0 ≡ ok u
      → Opened w (new_status_from m k conf i key t false found w).1
  by_status w u found same h = elim (status-cases law i w named) [
    | inl (gone, p) ↦
        let q : found ≡ err space_not_exists = sym same ∙ p in
        rw q (from_missing w u gone (rw q at h))
    | inr (inl (d, at, p)) ↦
        let q : found ≡ ok (status_entry d) = sym same ∙ p in
        rw q (from_present w u d at (rw q at h))
    | inr (inr (inl p)) ↦ absurd (from_error w u found (inl (sym same ∙ p)) h)
    | inr (inr (inr (n, p))) ↦ absurd (from_error w u found (inr (n, sym same ∙ p)) h)
  ]

  -- An unforced NewStatus of a named space that succeeds leaves the space created.
  pub new_status-Opened :
      (w : World) (u : Unit {0})
      → (new_status m k conf i key t false w).0 ≡ ok u
      → Opened w (new_status m k conf i key t false w).1
  unfolding new_status
  new_status-Opened w u h =
      let (body, world) = tx-ok law _ w u h in
      let runs = (new_status_tx-runs m k conf i key t false w u body).1 in
      subst (Opened w) (sym (world ∙ ap (λ r. r.1) runs))
        (by_status w u (status m i w).0 refl (ap (λ r. r.0) (sym runs) ∙ body))
