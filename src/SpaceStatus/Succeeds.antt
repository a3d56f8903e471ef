-- ===== src/SpaceStatus/Succeeds.antt =====
-- When a change of status succeeds.
use any_sync_coordinator.Prelude.{
  ℕ, Bool, true, false, ◌≡◌, refl, sym, subst, ◌∙◌, inl, inr, ◌=ₛ◌, none, some, Option-cases,
  Bool-cases, List, [], ◌∷◌, first, first-passes, arith,
}
use any_sync_coordinator.Outcome.{Action, ok, ◌>>=◌, pure, lift}
use any_sync_coordinator.Docs.{World, SpaceDoc, status_entry, LogStatus}
use any_sync_coordinator.Mongo.{Mongo, Documented, Reliable, tx}
use any_sync_coordinator.Keys.{Keys}
use any_sync_coordinator.DeletionLog.Appending.{add_steady}
use any_sync_coordinator.SpaceStatus.{
  StatusChange, modify_query, modify_status_op, modify_status, log_status, set_status_tx,
  set_status,
}
use any_sync_coordinator.SpaceStatus.Invariant.{modify_query-matches}
use any_sync_coordinator.SpaceStatus.Keyed.{space_at, IsKeyed, space_at_of_first}

-- What a query without a match says of a document that is there.
first-none :
    (q p : SpaceDoc → Bool) (ds : List SpaceDoc) (d : SpaceDoc)
    → first q ds ≡ none
    → first p ds ≡ some d
    → q d ≡ false
first-none q p [] d h g = absurd (cc g)
first-none q p (x ∷ ds) d h g = elim (Bool-cases (q x)) [
  | inl e ↦ absurd (cc (rw e at h))
  | inr e ↦ elim (Bool-cases (p x)) [
    | inl e' ↦ (let same : some x ≡ some d = rw e' at g in subst (λ y. q y ≡ false) (cc same) e)
    | inr e' ↦ first-none q p ds d (rw e at h) (rw e' at g)
  ]
]

module _ {m : Mongo} (law : Documented m) (sure : Reliable m) where
  pub tx-succeeds :
      {A : Type 0} (f : Action World A) (w : World) (a : A) → (f w).0 ≡ ok a → (tx m f w).0 ≡ ok a
  unfolding tx
  tx-succeeds f w a h = ground (arith, sure.start_lem w, sure.commit_lem w (f w).1)

  module _ (k : Keys) (c : StatusChange k.PubKey) (old : ℕ)
      (named : (c.space_id =ₛ "") ≡ false) where
    -- The query finds the document of the space, where that matches.
    found :
        (w : World) (d : SpaceDoc)
        → IsKeyed w.spaces
        → space_at c.space_id w.spaces ≡ some d
        → modify_query k c old d ≡ true
        → first (modify_query k c old) w.spaces ≡ some d
    found w d keyed there fits = elim (Option-cases (first (modify_query k c old) w.spaces)) [
      | inl p ↦ absurd (
          cc (
            fits,
            first-none (modify_query k c old) (λ x. x.space_id =ₛ c.space_id) w.spaces d p there,
          ))
      | inr (d', p) ↦
          let q = modify_query k c old in
          let same = (modify_query-matches k c old d' (first-passes q w.spaces d' p) named).0 in
          let at = space_at_of_first q w.spaces d' keyed p in
          p ∙ sym (subst (λ i. space_at i w.spaces ≡ some d') same at) ∙ there
    ]

    modified :
        (w : World) (d : SpaceDoc)
        → first (modify_query k c old) w.spaces ≡ some d
        → (modify_status m k c old w).0 ≡ ok (status_entry (modify_status_op c d))
    unfolding modify_status
    modified w d h = ground (
      arith,
      h,
      sure.find_one_and_update_lem SpaceDoc (modify_query k c old) (modify_status_op c) w.spaces,
      sure.steady.decode_lem (modify_status_op c d),
    )

    -- With a driver that does not fail, a change to a status that the log knows succeeds for a space
    -- that has the old status, and the owner that the change names, if it names one.
    pub set_status-succeeds :
        (w : World) (d : SpaceDoc) (s : LogStatus)
        → IsKeyed w.spaces
        → space_at c.space_id w.spaces ≡ some d
        → modify_query k c old d ≡ true
        → log_status c.status ≡ ok s
        → (set_status m k c old w).0 ≡ ok (status_entry (modify_status_op c d))
    unfolding set_status set_status_tx lift pure ◌>>=◌
    set_status-succeeds w d s keyed there fits logs =
        let e = status_entry (modify_status_op c d) in
        let w' = (modify_status m k c old w).1 in
        tx-succeeds (set_status_tx m k c old) w e (
          rw
            (
              modified w d (found w d keyed there fits),
              logs,
              add_steady law sure.steady w' c.space_id e.identity s,
            )
            refl)
