-- ===== src/SpaceStatus/Unsharing.antt =====
-- What MakeUnshareable of spacestatus.go does to a shareable space.
use any_sync_coordinator.Prelude.{
  String, true, false, ◌≡◌, ap, sym, ◌∙◌, ◌=ₛ◌, replace_first, arith,
}
use any_sync_coordinator.Outcome.{ok, ◌>>=◌}
use any_sync_coordinator.Docs.{World, SpaceDoc, StatusEntry}
use any_sync_coordinator.Mongo.{Mongo, Documented}
use any_sync_coordinator.Mongo.Laws.{tx-ok}
use any_sync_coordinator.SpaceStatus.{status}
use any_sync_coordinator.SpaceStatus.Reads.{status-same}
use any_sync_coordinator.SpaceStatus.Sharing.{set_shareable, make_unshareable_tx, make_unshareable}

-- The space may be shared no longer.
abbrev pub unshared : String → World → World
unshared i w = record w {
  spaces = replace_first (λ d. d.space_id =ₛ i) (λ d. record d { is_shareable = false }) w.spaces;
}

module _ {m : Mongo} (law : Documented m) (i : String) (w : World) (entry : StatusEntry)
    (read : (status m i w).0 ≡ ok entry) (shareable : entry.is_shareable ≡ true) where
  set_shareable-unshared :
      (u : Unit {0})
      → (set_shareable m i false w).0 ≡ ok u
      → (set_shareable m i false w).1 ≡ unshared i w
  unfolding set_shareable
  set_shareable-unshared u h = ground (
    arith,
    law.update_one_lem SpaceDoc (λ d. d.space_id =ₛ i) (λ d. record d { is_shareable = false })
        w.spaces,
  )

  make_unshareable_tx-set : make_unshareable_tx m i w ≡ set_shareable m i false w
  unfolding make_unshareable_tx ◌>>=◌
  make_unshareable_tx-set = ground (arith, read, shareable, status-same m w i)

  pub make_unshareable-ok :
      (u : Unit {0}) → (make_unshareable m i w).0 ≡ ok u → (make_unshareable m i w).1 ≡ unshared i w
  unfolding make_unshareable
  make_unshareable-ok u h =
      let (body, world) = tx-ok law (make_unshareable_tx m i) w u h in
      world
      ∙ ap (λ r. r.1) make_unshareable_tx-set
      ∙ set_shareable-unshared u (ap (λ r. r.0) (sym make_unshareable_tx-set) ∙ body)
