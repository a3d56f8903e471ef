-- ===== src/Outcome.antt =====
-- Go's `error` as a value: the errors that the coordinator returns or passes on, the result of a
-- call, and the actions on a state that may fail.
use any_sync_coordinator.Prelude.{
  ℕ, String, Bool, true, false, ◌≡◌, ◌⊎◌, inl, inr, refl, sym, ap, ◌∙◌, if◌then◌else◌,
}

-- `no_documents` is mongo.ErrNoDocuments. `driver n` is any other failure of the MongoDB driver,
-- `external n` a failure of another library or of a remote peer, `text s` an error made by
-- fmt.Errorf or errors.New in place. The others carry the names of the variables in the source.
pub data Err : Type 0 where
  no_documents : Err
  driver : ℕ → Err
  external : ℕ → Err
  text : String → Err
  unexpected space_not_exists space_is_created space_is_deleted space_deletion_pending : Err
  space_limit_reached account_is_deleted forbidden space_not_shareable : Err
  acl_head_is_missing acl_non_empty acl_limit_exceed no_identity : Err
  invalid_identity invalid_signature threshold_reached inbox_message_verify_failed : Err
  nil_dereference subscribe_peer_already_subscribed configuration_not_found
        configuration_not_changed :
      Err

pub data Result (A : Type 0) : Type 0 where
  ok : A → Result A
  err : Err → Result A

-- A method of a component: the state comes back beside an error too.
abbrev pub Action : Type 0 → Type 0 → Type 0
Action W A = W → Result A × W

module _ {W A : Type 0} where
  unfoldable pub pure : A → Action W A
  pure a w = (ok a, w)

  unfoldable pub raise : Err → Action W A
  raise e w = (err e, w)

  unfoldable pub lift : Result A → Action W A
  lift r w = (r, w)

module _ {W : Type 0} where
  -- `if c { return err }`
  unfoldable pub raise_if : Bool → Err → Action W (Unit {0})
  raise_if c e w = (if c then err e else ok tt, w)

  pub raise_if-same : (b : Bool) (e : Err) (w : W) → (raise_if b e w).1 ≡ w
  unfolding raise_if
  raise_if-same b e w = refl

  -- A guard that has let a block go on.
  pub raised : (b : Bool) (e : Err) (w : W) (u : Unit {0}) → (raise_if b e w).0 ≡ ok u → b ≡ false
  unfolding raise_if
  raised true e w u h = absurd (cc h)
  raised false e w u h = refl

module _ {W A B : Type 0} where
  abbrev pub continue : Result A → (A → Action W B) → Action W B
  continue (ok a) f w = f a w
  continue (err e) f w = (err e, w)

  infixl 5 ◌>>=◌ ◌>>◌
  -- Opening this opens the actions above too.
  unfoldable pub ◌>>=◌ : Action W A → (A → Action W B) → Action W B
  unfolding pure raise lift raise_if
  ◌>>=◌ m f w = let (r, w') = m w in continue r f w'

  pub >>=-step :
      (m : Action W A) (f : A → Action W B) (w : W) (a : A)
      → (m w).0 ≡ ok a
      → (m >>= f) w ≡ f a (m w).1
  unfolding ◌>>=◌
  >>=-step m f w a h = rw h

  pub >>=-fail :
      (m : Action W A) (f : A → Action W B) (w : W) (e : Err)
      → (m w).0 ≡ err e
      → (m >>= f) w ≡ (err e, (m w).1)
  unfolding ◌>>=◌
  >>=-fail m f w e h = rw h

  abbrev pub ◌>>◌ : Action W A → Action W B → Action W B
  m >> k = m >>= λ _. k

pub Result-cases : {A : Type 0} (r : Result A) → ((a : A) × (r ≡ ok a)) ⊎ ((e : Err) × (r ≡ err e))
Result-cases (ok a) = inl (a, refl)
Result-cases (err e) = inr (e, refl)

module _ {W A B : Type 0} where
  -- Returning a value after an action, or checking one before it, does not touch the state.
  pub state-then_pure : (f : Action W A) (b : B) (w : W) → ((f >> pure b) w).1 ≡ (f w).1
  unfolding ◌>>=◌
  state-then_pure f b w = elim (Result-cases (f w).0) [ inl (a, p) ↦ rw p | inr (e, p) ↦ rw p ]

  pub state-lift_then :
      (r : Result A) (f : Action W B) (w : W)
      → (((lift r >> f) w).1 ≡ w) ⊎ (((lift r >> f) w).1 ≡ (f w).1)
  unfolding ◌>>=◌
  state-lift_then (ok a) f w = inr refl
  state-lift_then (err e) f w = inl refl

  -- A block that succeeds has run its first action to a value, and then the rest.
  pub >>=-ok :
      (f : Action W A) (g : A → Action W B) (w : W) (b : B)
      → ((f >>= g) w).0 ≡ ok b
      → (a : A) × ((f w).0 ≡ ok a) × ((f >>= g) w ≡ g a (f w).1)
  >>=-ok f g w b h = elim (Result-cases (f w).0) [
    | inl (a, p) ↦ (a, p, >>=-step f g w a p)
    | inr (e, p) ↦ absurd (cc (h, >>=-fail f g w e p))
  ]

  -- The same where the first action only reads.
  pub >>=-reads :
      (f : Action W A) (g : A → Action W B) (w : W) (b : B)
      → (f w).1 ≡ w
      → ((f >>= g) w).0 ≡ ok b
      → (a : A) × ((f w).0 ≡ ok a) × ((f >>= g) w ≡ g a w) × ((g a w).0 ≡ ok b)
  >>=-reads f g w b same h =
      let (a, p, step) = >>=-ok f g w b h in
      let step' = step ∙ ap (g a) same in (a, p, step', ap (λ r. r.0) (sym step') ∙ h)
