-- ===== src/RpcHandler/Answers.antt =====
-- The loop of SpaceStatusCheckMany over its ids.
use any_sync_coordinator.Prelude.{ℕ, String, ◌≡◌, refl, sym, subst, ap, ◌∙◌, List, [], ◌∷◌, map}
use any_sync_coordinator.Outcome.{Result, ok, lift, pure, >>=-reads, >>=-ok}
use any_sync_coordinator.Docs.{World, Limits}
use any_sync_coordinator.Mongo.{Mongo}
use any_sync_coordinator.Keys.{Keys}
use any_sync_coordinator.AccountLimit.{get_limits}
use any_sync_coordinator.Coordinator.{Request, Parts, AclLimits, deletion_period}
use any_sync_coordinator.RpcHandler.{
  StatusPayload, many_payload, member_limits, check_each, space_status_check_many,
}
use any_sync_coordinator.SpaceStatus.{status}

same_ok : {A : Type 0} {a b : A} → ok a ≡ ok b → a ≡ b
same_ok h = cc h

module _ (m : Mongo) (k : Keys) (c : Parts k.PubKey) (req : Request k.PubKey) where
  -- The answer for one id.
  abbrev pub answer : String → AclLimits → World → String → Result StatusPayload
  answer account limits w i = many_payload account (deletion_period c) limits (status m i w).0

  check_each-ok :
      (account : String) (limits : AclLimits) (ids : List String) (w : World)
      (payloads : List StatusPayload)
      → (check_each m k c req account limits ids w).0 ≡ ok payloads
      → ((check_each m k c req account limits ids w).1 ≡ w)
        × (map (answer account limits w) ids ≡ map ok payloads)
  unfolding check_each pure
  check_each-ok account limits [] w payloads h = (refl, subst (λ l. [] ≡ map ok l) (same_ok h) refl)
  check_each-ok account limits (i ∷ is) w payloads h =
      let (payload, p, step, h') = >>=-reads _ _ w payloads refl h in
      let (rest, p', step') = >>=-ok (check_each m k c req account limits is) _ w payloads h' in
      let (same, all) = check_each-ok account limits is w rest p' in
      let done = ap (λ r. r.0) (sym step') ∙ h' in
      (
        ap (λ r. r.1) (step ∙ step') ∙ same,
        subst (λ l. map (answer account limits w) (i ∷ is) ≡ map ok l) (same_ok done)
            (ap (λ x. x ∷ map (answer account limits w) is) p ∙ ap (λ l. ok payload ∷ l) all),
      )

  pub get_limits-same : (i : String) (w : World) → (get_limits m c.default_limits req.now i w).1 ≡ w
  unfolding get_limits
  get_limits-same i w = refl

  pub space_status_check_many-answers :
      (ids : List String) (w : World) (payloads : List StatusPayload) (shared : ℕ)
      → (space_status_check_many m k c req ids w).0 ≡ ok (payloads, shared)
      → (key : k.PubKey) × (limits : Limits) × (req.pub_key ≡ ok key)
        × ((get_limits m c.default_limits req.now (k.account key) w).0 ≡ ok limits)
        × (map (answer (k.account key) (member_limits limits) w) ids ≡ map ok payloads)
        × (shared ≡ limits.shared_spaces_limit)
        × ((space_status_check_many m k c req ids w).1 ≡ w)
  unfolding space_status_check_many lift pure
  space_status_check_many-answers ids w payloads shared h =
      let (key, p1, s1, h1) = >>=-reads (lift req.pub_key) _ w (payloads, shared) refl h in
      let (limits, p2, s2, h2) =
        >>=-reads (get_limits m c.default_limits req.now (k.account key)) _ w (payloads, shared)
          (get_limits-same (k.account key) w) h1 in
      let (found, p3, s3) =
        >>=-ok (check_each m k c req (k.account key) (member_limits limits) ids) _ w
          (payloads, shared) h2 in
      let (same, all) = check_each-ok (k.account key) (member_limits limits) ids w found p3 in
      let done = same_ok (ap (λ r. r.0) (sym s3) ∙ h2) in
      (
        key,
        limits,
        p1,
        p2,
        subst (λ l. map (answer (k.account key) (member_limits limits) w) ids ≡ map ok l)
            (ap (λ r. r.0) done) all,
        ap (λ r. r.1) (sym done),
        ap (λ r. r.1) (s1 ∙ s2 ∙ s3) ∙ same,
      )
