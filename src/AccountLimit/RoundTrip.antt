-- ===== src/AccountLimit/RoundTrip.antt =====
-- What is read after the limits of an account have been set.
use any_sync_coordinator.Prelude.{
  ℕ, String, Bool, false, ◌≡◌, ◌⊎◌, inl, inr, refl, sym, subst, ap, ◌∙◌, ◌=ₛ◌, =ₛ_iff, =ₛ_refl,
  Bool-cases, Option, none, some, Option-cases, List, [], ◌∷◌, ◌++◌, ℤ, first, replace_first, arith,
  if◌then◌else◌,
}
use any_sync_coordinator.Outcome.{driver, Result-cases, ok, err, ◌>>=◌, >>=-ok}
use any_sync_coordinator.Docs.{World, Limits, SpaceLimits}
use any_sync_coordinator.Prelude.Int.{◌*ℤ◌, ◌/ℤ◌}
use any_sync_coordinator.Time
use any_sync_coordinator.Mongo.{Mongo, Documented, or_no_documents, upserted}
use any_sync_coordinator.AccountLimit.{
  FilePeer, set_limits, get_limits, update_db_limits, update_file_limits, or_default,
  limits_by_default,
}

abbrev by : String → Limits → Bool
by identity l = l.identity =ₛ identity

-- The limits that are stored for an account.
abbrev pub stored : String → World → Option Limits
stored identity w = first (by identity) w.account_limits

first-append_other :
    (i : String) (l : Limits) (ls : List Limits)
    → (l.identity =ₛ i) ≡ false
    → first (by i) (ls ++ l ∷ []) ≡ first (by i) ls
first-append_other i l [] h = rw h refl
first-append_other i l (x ∷ ls) h = ground (arith, first-append_other i l ls h)

first-append_same :
    (l : Limits) (ls : List Limits)
    → first (by l.identity) ls ≡ none
    → first (by l.identity) (ls ++ l ∷ []) ≡ some l
first-append_same l [] h = rw (=ₛ_refl l.identity) refl
first-append_same l (x ∷ ls) h = ground (arith, first-append_same l ls)

replace_same :
    (l : Limits) (ls : List Limits) (x : Limits)
    → first (by l.identity) ls ≡ some x
    → first (by l.identity) (replace_first (by l.identity) (λ y. l) ls) ≡ some l
replace_same l [] x h = absurd (cc h)
replace_same l (y ∷ ls) x h = ground (arith, replace_same l ls x, =ₛ_refl l.identity)

replace_other :
    (i : String) (l : Limits) (ls : List Limits)
    → (l.identity =ₛ i) ≡ false
    → first (by i) (replace_first (by l.identity) (λ y. l) ls) ≡ first (by i) ls
replace_other i l [] h = refl
replace_other i l (y ∷ ls) h =
    ground (arith, replace_other i l ls h, =ₛ_iff y.identity l.identity, =ₛ_iff y.identity i)

-- The limits as SetLimits stores them: with the time of the call in whole milliseconds, rounded
-- down.
abbrev pub dated : ℤ → Limits → Limits
dated now l = record l { updated_time = (now /ℤ 1_000_000) *ℤ 1_000_000 }

-- The limits of an account, by what is stored for it.
abbrev pub found_limits : SpaceLimits → ℤ → String → Option Limits → Limits
found_limits d now identity (some l) = l
found_limits d now identity none = record {
  identity = identity;
  reason = "";
  file_storage_bytes = 0;
  space_members_read = d.space_members_read;
  space_members_write = d.space_members_write;
  shared_spaces_limit = d.shared_spaces_limit;
  updated_time = now;
}

or_default-found :
    (d : SpaceLimits) (now : ℤ) (i : String) (o : Option Limits)
    → or_default d now i (or_no_documents o) ≡ ok (found_limits d now i o)
unfolding limits_by_default
or_default-found d now i none = refl
or_default-found d now i (some l) = refl

abbrev timed : ℤ → Limits → Limits
timed now l = record l { updated_time = now }

module _ {m : Mongo} (law : Documented m) where
  update_db_limits-ok :
      (l : Limits) (w : World) (u : Unit {0})
      → (update_db_limits m l w).0 ≡ ok u
      → (update_db_limits m l w).1 ≡ record w {
        account_limits =
            upserted
              (by l.identity)
              (λ x. dated l.updated_time l)
              (dated l.updated_time l)
              w.account_limits
              (first (by l.identity) w.account_limits);
      }
  unfolding update_db_limits Time.stored
  update_db_limits-ok l w u h =
      let kept = dated l.updated_time l in
      ground (arith, law.upsert_one_lem Limits (by l.identity) (λ x. kept) kept w.account_limits)

  stored_after :
      (l : Limits) (w : World) (u : Unit {0})
      → (update_db_limits m l w).0 ≡ ok u
      → (stored l.identity (update_db_limits m l w).1 ≡ some (dated l.updated_time l))
        × ((i : String)
            → (l.identity =ₛ i) ≡ false
            → stored i (update_db_limits m l w).1 ≡ stored i w)
  stored_after l w u h = elim (Option-cases (stored l.identity w)) [
    | inl p ↦ (
      rw (update_db_limits-ok l w u h, p)
          (first-append_same (dated l.updated_time l) w.account_limits p),
      λ i n.
          rw (update_db_limits-ok l w u h, p)
            (first-append_other i (dated l.updated_time l) w.account_limits n),
    )
    | inr (x, p) ↦ (
      rw (update_db_limits-ok l w u h, p)
          (replace_same (dated l.updated_time l) w.account_limits x p),
      λ i n.
          rw (update_db_limits-ok l w u h, p)
            (replace_other i (dated l.updated_time l) w.account_limits n),
    )
  ]

  files-same : (p : FilePeer) (l : Limits) (w : World) → (update_file_limits p l w).1 ≡ w
  unfolding update_file_limits ◌>>=◌
  files-same p l w = elim (Result-cases p.reached) [
    | inl (a, q) ↦ rw q refl
    | inr (e, q) ↦ rw q refl
  ]

  -- SetLimits, where it succeeds, has stored its limits.
  set_limits-stored :
      (p : FilePeer) (now : ℤ) (l : Limits) (w : World) (u : Unit {0})
      → (set_limits m p now l w).0 ≡ ok u
      → (stored l.identity (set_limits m p now l w).1 ≡ some (dated now l))
        × ((i : String)
            → (l.identity =ₛ i) ≡ false
            → stored i (set_limits m p now l w).1 ≡ stored i w)
  unfolding set_limits
  set_limits-stored p now l w u h =
      let files = update_file_limits p (timed now l) in
      let (v, q, step) = >>=-ok files (λ _. update_db_limits m (timed now l)) w u h in
      let whole = step ∙ ap (update_db_limits m (timed now l)) (files-same p (timed now l) w) in
      let (mine, others) = stored_after (timed now l) w u (ap (λ r. r.0) (sym whole) ∙ h) in
      (
        ap (λ r. stored l.identity r.1) whole ∙ mine,
        λ i n. ap (λ r. stored i r.1) whole ∙ others i n,
      )

  -- GetLimits returns the stored limits or the defaults, or the driver fails.
  pub get_limits-cases :
      (d : SpaceLimits) (now : ℤ) (i : String) (w : World)
      → (get_limits m d now i w ≡ (or_default d now i (or_no_documents (stored i w)), w))
        ⊎ ((n : ℕ) × (get_limits m d now i w ≡ (err (driver n), w)))
  unfolding get_limits
  get_limits-cases d now i w = elim (law.find_one_lem Limits (by i) w.account_limits) [
    | inl p ↦ inl (rw (p, get_limits) refl)
    | inr (n, p) ↦ inr (n, rw (p, get_limits) refl)
  ]

  after_stored :
      (p : FilePeer) (now : ℤ) (l : Limits) (w : World) (u : Unit {0}) (i : String)
      → (set_limits m p now l w).0 ≡ ok u
      → stored i (set_limits m p now l w).1
        ≡ (if l.identity =ₛ i then some (dated now l) else stored i w)
  after_stored p now l w u i h =
      let (mine, others) = set_limits-stored p now l w u h in
      elim (Bool-cases (l.identity =ₛ i)) [
        | inl e ↦ rw e (
            subst (λ x. stored x (set_limits m p now l w).1 ≡ some (dated now l))
              ((=ₛ_iff l.identity i).0 e) mine)
        | inr e ↦ rw e (others i e)
      ]

  -- After SetLimits has succeeded, GetLimits returns for the same account the limits that were
  -- set, with the time of the setting in whole milliseconds, rounded down, and for any other account
  -- what is stored for it as before, or where nothing is stored the default limits, without a reason
  -- and a storage, with the time of the call; or the driver fails.
  pub set_limits-get_limits :
      (p : FilePeer) (now : ℤ) (l : Limits) (w : World) (u : Unit {0})
      → (set_limits m p now l w).0 ≡ ok u
      → (d : SpaceLimits) (now' : ℤ) (i : String)
      → (let w' = (set_limits m p now l w).1 in
          (get_limits m d now' i w' ≡ (
            ok (found_limits d now' i (if l.identity =ₛ i then some (dated now l) else stored i w)),
            w',
          ))
          ⊎ ((n : ℕ) × (get_limits m d now' i w' ≡ (err (driver n), w'))))
  set_limits-get_limits p now l w u h d now' i =
      let w' = (set_limits m p now l w).1 in
      elim (get_limits-cases d now' i w') [
        | inl e ↦ inl (
            e
            ∙ ap (λ r. (r, w')) (or_default-found d now' i (stored i w'))
            ∙ ap (λ o. (ok (found_limits d now' i o), w')) (after_stored p now l w u i h))
        | inr f ↦ inr f
      ]
