-- ===== src/Coordinator/Handover.antt =====
-- What the change of owner that follows an ACL record in AclAddRecord does.
use any_sync_coordinator.Prelude.{
  String, true, false, ◌≡◌, ◌⊎◌, inl, inr, refl, sym, ap, ◌∙◌, ◌=ₛ◌, Bool-cases, replace_first,
  arith,
}
use any_sync_coordinator.Outcome.{ok, pure, ◌>>◌, >>=-ok}
use any_sync_coordinator.Docs.{World, SpaceDoc, LogStatus}
use any_sync_coordinator.Mongo.{Mongo, Documented}
use any_sync_coordinator.DeletionLog.{add_ownership_change}
use any_sync_coordinator.DeletionLog.Appending.{insert-ok, logged, next_id}
use any_sync_coordinator.Coordinator.Acl.{follow_owner}
use any_sync_coordinator.SpaceStatus.{change_owner}

module _ {m : Mongo} (law : Documented m) where
  abbrev recorded : String → String → String → World → World
  recorded i old id w = logged w (record {
    id = next_id m w;
    space_id = i;
    file_group = old;
    status = LogStatus.ownership_change;
    acl_record_id = id;
  })

  -- The collections after a change of owner: the document of the space has the owner, and the log
  -- has a record that names the old owner.
  abbrev pub handed_over : String → String → String → String → World → World
  handed_over i owner old id w = recorded i old id (record w {
    spaces = replace_first (λ d. d.space_id =ₛ i) (λ d. record d { identity = owner }) w.spaces;
  })

  change_owner-ok :
      (i o : String) (w : World) (u : Unit {0})
      → (change_owner m i o w).0 ≡ ok u
      → (change_owner m i o w).1 ≡ record w {
        spaces = replace_first (λ d. d.space_id =ₛ i) (λ d. record d { identity = o }) w.spaces;
      }
  unfolding change_owner
  change_owner-ok i o w u h = ground (
    arith,
    law.update_one_lem SpaceDoc (λ d. d.space_id =ₛ i) (λ d. record d { identity = o }) w.spaces,
  )

  -- What a success of follow_owner has done.
  abbrev pub OwnerFollowed : String → String → String → String → World → World → Type 0
  OwnerFollowed i owner old id w w' =
      (((owner =ₛ old) ≡ true) × (w' ≡ w))
      ⊎ (((owner =ₛ old) ≡ false) × (w' ≡ handed_over i owner old id w))

  pub follow_owner-ok :
      (i owner old id : String) (w : World) (u : Unit {0})
      → (follow_owner m i owner old id w).0 ≡ ok u
      → OwnerFollowed i owner old id w (follow_owner m i owner old id w).1
  unfolding follow_owner add_ownership_change pure
  follow_owner-ok i owner old id w u h = elim (Bool-cases (owner =ₛ old)) [
    | inl p ↦ inl (p, rw p refl)
    | inr p ↦
        let written = add_ownership_change m i old id in
        let (a, q, step) =
          >>=-ok (change_owner m i owner) (λ _. written >> pure tt) w u (rw p at h) in
        let w' = (change_owner m i owner w).1 in
        let h' = ap (λ r. r.0) (sym step) ∙ (rw p at h) in
        let (b, q', step') = >>=-ok written (λ _. pure tt) w' u h' in
        let done = (insert-ok law w' _ b q').1 in
        inr (
          p,
          rw p (
              ap (λ r. r.1) (step ∙ step')
              ∙ done
              ∙ ap (recorded i old id) (change_owner-ok i owner w a q)),
        )
  ]
