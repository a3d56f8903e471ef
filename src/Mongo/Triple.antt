-- ===== src/Mongo/Triple.antt =====
-- Invariants of actions that run in a transaction, of which only a success counts: after an error
-- the transaction is undone.
use any_sync_coordinator.Prelude.{
  Bool, true, false, ◌≡◌, ◌⊎◌, inl, inr, refl, sym, ap, subst, if◌then◌else◌,
}
use any_sync_coordinator.Outcome.{
  Err, Result, Result-cases, ok, err, Action, pure, raise, lift, raise_if, ◌>>=◌, >>=-step,
  >>=-fail,
}
use any_sync_coordinator.Docs.{World}
use any_sync_coordinator.Mongo.{Mongo, Documented, tx}
use any_sync_coordinator.Mongo.Laws.{tx_atomic}

-- From a world that satisfies I, a success of f leaves one, and returns a value that satisfies Q.
pub record Triple (I : World → Type 0) {A : Type 0} (f : Action World A) (Q : A → Type 0)
    : Type 0 where
  pub at : (w : World) (a : A) → I w → (f w).0 ≡ ok a → I (f w).1 × Q a

abbrev pub Anything : {A : Type 0} → A → Type 0
Anything a = Unit

-- f keeps I wherever it succeeds.
abbrev pub Keeps : (World → Type 0) → {A : Type 0} → Action World A → Type 0
Keeps I f = Triple I f Anything

module _ {I : World → Type 0} {A : Type 0} where
  -- An action that leaves the world alone.
  pub Keeps-reader : (f : World → Result A) → Keeps I (λ w. (f w, w))
  Keeps-reader f = record { at = λ w a h e. (h, tt) }

  pub Keeps-same : (f : Action World A) → ((w : World) → (f w).1 ≡ w) → Keeps I f
  Keeps-same f same = record { at = λ w a h e. (subst I (sym (same w)) h, tt) }

  pub Keeps-pure : (a : A) → Keeps I (pure a)
  unfolding pure
  Keeps-pure a = record { at = λ w a h e. (h, tt) }

  pub Keeps-raise : (x : Err) → Keeps I (raise {A = A} x)
  unfolding raise
  Keeps-raise x = record { at = λ w a h e. (h, tt) }

  pub Keeps-lift : (r : Result A) → Keeps I (lift r)
  unfolding lift
  Keeps-lift r = record { at = λ w a h e. (h, tt) }

  pub Keeps-if :
      (b : Bool) (f g : Action World A)
      → (b ≡ true → Keeps I f)
      → (b ≡ false → Keeps I g)
      → Keeps I (if b then f else g)
  Keeps-if true f g kf kg = kf refl
  Keeps-if false f g kf kg = kg refl

module _ {I : World → Type 0} where
  pub Keeps-raise_if : (b : Bool) (x : Err) → Keeps I (raise_if b x)
  unfolding raise_if
  Keeps-raise_if b x = record { at = λ w a h e. (h, tt) }

module _ {I : World → Type 0} {A B : Type 0} {Q : A → Type 0} {R : B → Type 0} where
  -- The rest of a block may use what the value of the first action satisfies.
  pub Triple-bind :
      (f : Action World A) (g : A → Action World B)
      → Triple I f Q
      → ((a : A) → Q a → Triple I (g a) R)
      → Triple I (f >>= g) R
  Triple-bind f g tf tg = record { at = λ w b h e. go w b h e (Result-cases (f w).0) }
    where
      go :
          (w : World) (b : B)
          → I w
          → ((f >>= g) w).0 ≡ ok b
          → ((a : A) × ((f w).0 ≡ ok a)) ⊎ ((x : Err) × ((f w).0 ≡ err x))
          → I ((f >>= g) w).1 × R b
      go w b h e (inl (a, p)) =
          let (h', q) = tf.at w a h p in
          let step = >>=-step f g w a p in
          let (h'', r) = (tg a q).at (f w).1 b h' (rw step at e) in
          (subst I (ap (λ s. s.1) (sym step)) h'', r)
      go w b h e (inr (x, p)) = absurd (cc (e, >>=-fail f g w x p))

module _ {m : Mongo} (law : Documented m) {I : World → Type 0} {A : Type 0} {Q : A → Type 0} where
  -- A transaction keeps what its body keeps, whatever becomes of it.
  pub tx-keeps : (f : Action World A) → Triple I f Q → (w : World) → I w → I (tx m f w).1
  tx-keeps f t w h = elim (tx_atomic law f w) [
    | inl e ↦ subst I (sym e) h
    | inr (a, p, e) ↦ subst I (sym e) (t.at w a h p).0
  ]

module _ {I : World → Type 0} {A B : Type 0} where
  -- The rule for a block whose first value satisfies nothing in particular.
  pub Keeps-bind :
      (f : Action World A) (g : A → Action World B)
      → Keeps I f
      → ((a : A) → Keeps I (g a))
      → Keeps I (f >>= g)
  Keeps-bind f g kf kg = Triple-bind f g kf (λ a _. kg a)

module _ {I : World → Type 0} {A B : Type 0} where
  -- The same for an invariant that both actions keep even where they fail.
  pub always-bind :
      (f : Action World A) (g : A → Action World B) (w : World)
      → ((v : World) → I v → I (f v).1)
      → ((a : A) (v : World) → I v → I (g a v).1)
      → I w
      → I ((f >>= g) w).1
  always-bind f g w kf kg h = elim (Result-cases (f w).0) [
    | inl (a, p) ↦ subst I (ap (λ s. s.1) (sym (>>=-step f g w a p))) (kg a (f w).1 (kf w h))
    | inr (e, p) ↦ subst I (ap (λ s. s.1) (sym (>>=-fail f g w e p))) (kf w h)
  ]
