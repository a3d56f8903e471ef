-- ===== src/Coordinator/Always.antt =====
-- Invariants of requests: what holds before holds after, whatever the request returns.
use any_sync_coordinator.Prelude.{Bool, true, false, ◌≡◌, sym, subst, if◌then◌else◌}
use any_sync_coordinator.Outcome.{Err, Result, Action, pure, lift, raise_if, ◌>>=◌}
use any_sync_coordinator.Docs.{World}
use any_sync_coordinator.Mongo.Triple.{always-bind}

-- f keeps I, also where it fails.
pub record Always (I : World → Type 0) {A : Type 0} (f : Action World A) : Type 0 where
  pub at : (w : World) → I w → I (f w).1

module _ {I : World → Type 0} where
  pub Always-same : {A : Type 0} (f : Action World A) → ((w : World) → (f w).1 ≡ w) → Always I f
  Always-same f same = record { at = λ w h. subst I (sym (same w)) h }

  pub Always-lift : {A : Type 0} (r : Result A) → Always I (lift r)
  unfolding lift
  Always-lift r = record { at = λ w h. h }

  pub Always-pure : {A : Type 0} (a : A) → Always I (pure a)
  unfolding pure
  Always-pure a = record { at = λ w h. h }

  pub Always-raise_if : (b : Bool) (x : Err) → Always I (raise_if b x)
  unfolding raise_if
  Always-raise_if b x = record { at = λ w h. h }

  pub Always-if :
      {A : Type 0} (b : Bool) (f g : Action World A)
      → Always I f
      → Always I g
      → Always I (if b then f else g)
  Always-if true f g af ag = af
  Always-if false f g af ag = ag

  pub Always-bind :
      {A B : Type 0} (f : Action World A) (g : A → Action World B)
      → Always I f
      → ((a : A) → Always I (g a))
      → Always I (f >>= g)
  Always-bind f g af ag = record { at = λ w h. always-bind f g w af.at (λ a. (ag a).at) h }

pub ruleset always_rules = (Always-lift, Always-pure, Always-raise_if, Always-if, Always-bind)
