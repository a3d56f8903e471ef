-- ===== src/Subscribe/Copies.antt =====
-- How often an event is sent on a stream.
use any_sync_coordinator.Prelude.{
  String, true, false, ◌≡◌, ◌≢◌, refl, ap, ◌∙◌, inl, inr, some, none, Bool-cases, [], ◌∷◌, ◌==◌,
  ◌=ₛ◌, =ₛ_iff, =ₛ_refl, All, map, select,
}
use any_sync_coordinator.Prelude.Assoc.{lookup, IsMap}
use any_sync_coordinator.Subscribe.{Stream, Peers, NotifyEvent, Sent}
use any_sync_coordinator.Subscribe.Streams.{==-iff}

-- What was sent on a stream.
abbrev pub sent_on : Stream → Sent → Sent
sent_on s sent = select (λ x. x.0 == s) sent

-- The event on each stream of an account.
abbrev pub to_each : NotifyEvent → Peers → Sent
to_each event ps = map (λ x. (x.1, event)) ps

absent-lookup :
    (p : String) (ps : Peers) → All (λ x. (x.0 =ₛ p) ≡ false) ps → lookup ◌=ₛ◌ p ps ≡ none
absent-lookup p [] h = refl
absent-lookup p ((x, u) ∷ ps) h = rw h.0 (absent-lookup p ps h.1)

module _ (event : NotifyEvent) (s : Stream) where
  -- A peer of the rest is found in the whole map too.
  behind :
      (x : String) (u : Stream) (ps : Peers) (p : String)
      → All (λ y. (y.0 =ₛ x) ≡ false) ps
      → lookup ◌=ₛ◌ p ps ≡ some s
      → ((x =ₛ p) ≡ false) × (lookup ◌=ₛ◌ p ((x, u) ∷ ps) ≡ some s)
  behind x u ps p h g = elim (Bool-cases (x =ₛ p)) [
    | inl e ↦ absurd (cc (absent-lookup x ps h, (=ₛ_iff x p).0 e, g))
    | inr e ↦ (e, rw e g)
  ]

  found_first :
      (x : String) (u : Stream) (ps : Peers)
      → (u == s) ≡ true
      → lookup ◌=ₛ◌ x ((x, u) ∷ ps) ≡ some s
  found_first x u ps e = rw (=ₛ_refl x) (ap some ((==-iff u s).0 e))

  pub no_copy :
      (ps : Peers)
      → IsMap ◌=ₛ◌ ps
      → ((p : String) → lookup ◌=ₛ◌ p ps ≢ some s)
      → sent_on s (to_each event ps) ≡ []
  no_copy [] h free = refl
  no_copy ((x, u) ∷ ps) h free = elim (Bool-cases (u == s)) [
    | inl e ↦ absurd (free x (found_first x u ps e))
    | inr e ↦ rw e (no_copy ps h.1 (λ p g. free p (behind x u ps p h.0 g).1))
  ]

  pub one_copy :
      (p : String) (ps : Peers)
      → IsMap ◌=ₛ◌ ps
      → lookup ◌=ₛ◌ p ps ≡ some s
      → ((p' : String) → lookup ◌=ₛ◌ p' ps ≡ some s → p' ≡ p)
      → sent_on s (to_each event ps) ≡ (s, event) ∷ []
  one_copy p [] h g only = absurd (cc g)
  one_copy p ((x, u) ∷ ps) h g only = elim (Bool-cases (x =ₛ p)) [
    | inl e ↦
        let same : some u ≡ some s = rw e at g in
        let hit : u ≡ s = cc same in
        rw ((==-iff u s).1 hit) (
          ap (λ l. (u, event) ∷ l)
            (no_copy ps h.1 (λ p' g'.
              let (other, whole) = behind x u ps p' h.0 g' in
              let same_peer = only p' whole in cc (e, other, same_peer)))
          ∙ ap (λ v. (v, event) ∷ []) hit)
    | inr e ↦ elim (Bool-cases (u == s)) [
      | inl e' ↦ absurd (cc (=ₛ_refl p, e, only x (found_first x u ps e')))
      | inr e' ↦
          rw e' (one_copy p ps h.1 (rw e at g) (λ p' g'. only p' (behind x u ps p' h.0 g').1))
    ]
  ]
