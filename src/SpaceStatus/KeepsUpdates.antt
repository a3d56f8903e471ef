-- ===== src/SpaceStatus/KeepsUpdates.antt =====
-- The invariant under the updates that leave id and status alone, and under the deleter.
use any_sync_coordinator.Prelude.{
  ℕ, String, Bool, true, false, ◌≡◌, ◌⊎◌, inl, inr, refl, sym, subst, not, ◌=ₛ◌, =ₛ_iff, none,
  Option-cases, List, [], ◌∷◌, ℤ, All, All-select, All-take, select, All-replace_first, first,
  first-passes, replace_first, arith,
}
use any_sync_coordinator.Outcome.{ok, state-then_pure}
use any_sync_coordinator.Docs.{World, SpaceDoc}
use any_sync_coordinator.Mongo.{Mongo, Documented}
use any_sync_coordinator.Mongo.Triple.{
  Keeps, Keeps-reader, Keeps-same, Keeps-pure, Keeps-raise_if, Keeps-if, Keeps-bind, always-bind,
  tx-keeps,
}
use any_sync_coordinator.Keys.{Keys}
use any_sync_coordinator.SpaceStatus.{change_owner, set_status}
use any_sync_coordinator.SpaceStatus.Sharing.{
  set_shareable, make_shareable, make_shareable_tx, make_unshareable, make_unshareable_tx,
}
use any_sync_coordinator.SpaceStatus.Deleter.{
  delete_change, process_entry, process_entries, process_query, delete,
}
use any_sync_coordinator.SpaceStatus.Invariant.{
  IsConsistent, IsClean, shown, set_status_tx-IsConsistent,
}
use any_sync_coordinator.SpaceStatus.Keyed.{
  DiffersFrom, IsKeyed, space_at, replace-IsKeyed, space_at-replace,
}
use any_sync_coordinator.SpaceStatus.Reads.{status-same}

-- An update that leaves the id, the status and the deletion data alone.
pub record IsMild (f : SpaceDoc → SpaceDoc) : Type 0 where
  pub space_id : (d : SpaceDoc) → (f d).space_id ≡ d.space_id
  pub status : (d : SpaceDoc) → (f d).status ≡ d.status
  pub clean : (d : SpaceDoc) → IsClean d → IsClean (f d)

replace_none :
    (q : SpaceDoc → Bool) (f : SpaceDoc → SpaceDoc) (ds : List SpaceDoc)
    → first q ds ≡ none
    → replace_first q f ds ≡ ds
replace_none q f [] h = refl
replace_none q f (d ∷ ds) h = ground (arith, replace_none q f ds)

module _ (f : SpaceDoc → SpaceDoc) (mild : IsMild f) (i : String) where
  shown_after :
      (j : String) (ds : List SpaceDoc)
      → IsKeyed ds
      → shown (space_at j (replace_first (λ d. d.space_id =ₛ i) f ds)) ≡ shown (space_at j ds)
  unfolding shown
  shown_after j ds h = elim (Option-cases (space_at i ds)) [
    | inl p ↦ rw (replace_none (λ d. d.space_id =ₛ i) f ds p)
    | inr (d, p) ↦ ground (
      arith,
      space_at-replace f mild.space_id j (λ x. x.space_id =ₛ i) ds d h p,
      =ₛ_iff d.space_id j,
      =ₛ_iff d.space_id i,
      first-passes (λ x. x.space_id =ₛ i) ds d p,
      mild.status d,
    )
  ]

  pub update-IsConsistent :
      (w : World)
      → IsConsistent w
      → IsConsistent (record w { spaces = replace_first (λ d. d.space_id =ₛ i) f w.spaces })
  update-IsConsistent w h = record {
    keyed = replace-IsKeyed f mild.space_id _ w.spaces h.keyed;
    named = All-replace_first (DiffersFrom "") _ f w.spaces (λ d n. rw mild.space_id n) h.named;
    agrees = λ j. rw (shown_after j w.spaces h.keyed) (h.agrees j);
    clean = All-replace_first IsClean _ f w.spaces mild.clean h.clean;
  }

shareable-IsMild : (b : Bool) → IsMild (λ d. record d { is_shareable = b })
shareable-IsMild b = record { space_id = λ d. refl; status = λ d. refl; clean = λ d h. h }

owner-IsMild : (o : String) → IsMild (λ d. record d { identity = o })
owner-IsMild o = record { space_id = λ d. refl; status = λ d. refl; clean = λ d h. h }

module _ {m : Mongo} (law : Documented m) where
  set_shareable-ok :
      (i : String) (b : Bool) (w : World) (u : Unit {0})
      → (set_shareable m i b w).0 ≡ ok u
      → (set_shareable m i b w).1 ≡ record w {
        spaces = replace_first (λ d. d.space_id =ₛ i) (λ d. record d { is_shareable = b }) w.spaces;
      }
  unfolding set_shareable
  set_shareable-ok i b w u h = ground (
    arith,
    law.update_one_lem SpaceDoc (λ d. d.space_id =ₛ i) (λ d. record d { is_shareable = b })
        w.spaces,
  )

  set_shareable-IsConsistent : (i : String) (b : Bool) → Keeps IsConsistent (set_shareable m i b)
  set_shareable-IsConsistent i b = record {
    at = λ w u h p. (
      subst IsConsistent (sym (set_shareable-ok i b w u p))
          (update-IsConsistent (λ d. record d { is_shareable = b }) (shareable-IsMild b) i w h),
      tt,
    );
  }

  pub make_shareable-IsConsistent :
      (i : String) (t limit : ℕ) (w : World)
      → IsConsistent w
      → IsConsistent (make_shareable m i t limit w).1
  unfolding make_shareable make_shareable_tx
  make_shareable-IsConsistent i t limit = tx-keeps law _ (
      Keeps-bind _ _ (Keeps-same _ (λ w. status-same m w i)) λ entry.
        Keeps-if entry.is_shareable _ _ (λ _. Keeps-pure tt)
          λ _.
            Keeps-bind _ _ (Keeps-reader _)
              λ n. Keeps-bind _ _ (Keeps-raise_if _ _) λ _. set_shareable-IsConsistent i true)

  pub make_unshareable-IsConsistent :
      (i : String) (w : World) → IsConsistent w → IsConsistent (make_unshareable m i w).1
  unfolding make_unshareable make_unshareable_tx
  make_unshareable-IsConsistent i = tx-keeps law _ (
      Keeps-bind _ _ (Keeps-same _ (λ w. status-same m w i)) λ entry.
        Keeps-if (not entry.is_shareable) _ _ (λ _. Keeps-pure tt)
          λ _. set_shareable-IsConsistent i false)

  change_owner-cases :
      (i o : String) (w : World)
      → ((change_owner m i o w).1 ≡ w)
        ⊎ ((change_owner m i o w).1 ≡ record w {
          spaces = replace_first (λ d. d.space_id =ₛ i) (λ d. record d { identity = o }) w.spaces;
        })
  unfolding change_owner
  change_owner-cases i o w = ground (
    arith,
    law.update_one_lem SpaceDoc (λ d. d.space_id =ₛ i) (λ d. record d { identity = o }) w.spaces,
  )

  pub change_owner-IsConsistent :
      (i o : String) (w : World) → IsConsistent w → IsConsistent (change_owner m i o w).1
  change_owner-IsConsistent i o w h = elim (change_owner-cases i o w) [
    | inl e ↦ subst IsConsistent (sym e) h
    | inr e ↦
        subst IsConsistent (sym e)
          (update-IsConsistent (λ d. record d { identity = o }) (owner-IsMild o) i w h)
  ]

  module _ (k : Keys) where
    pub delete_named :
        (i : String) → (i =ₛ "") ≡ false → ((delete_change k i).space_id =ₛ "") ≡ false
    unfolding delete_change
    delete_named i h = h

    pub process_entry-IsConsistent :
        (d : SpaceDoc) (w : World)
        → DiffersFrom "" d
        → IsConsistent w
        → IsConsistent (process_entry m k d w).1
    unfolding process_entry set_status
    process_entry-IsConsistent d w named h = elim (law.decode_lem d) [
      | inl e ↦
          rw (e, process_entry)
            (subst IsConsistent (sym (state-then_pure _ _ w)) (
              tx-keeps law _
                (set_status_tx-IsConsistent law k (delete_change k d.space_id) _
                  (delete_named d.space_id named))
                w h))
      | inr (n, e) ↦ rw (e, process_entry) h
    ]

    process_entries-IsConsistent :
        (ds : List SpaceDoc) (w : World)
        → All (DiffersFrom "") ds
        → IsConsistent w
        → IsConsistent (process_entries m k ds w)
    unfolding process_entries
    process_entries-IsConsistent [] w named h = h
    process_entries-IsConsistent (d ∷ ds) w named h =
        process_entries-IsConsistent ds (process_entry m k d w).1 named.1
          (process_entry-IsConsistent d w named.0 h)

    pub process_query-IsConsistent :
        (q : SpaceDoc → Bool) (w : World) → IsConsistent w → IsConsistent (process_query m k q w).1
    unfolding process_query
    process_query-IsConsistent q w h =
        let named = All-select (DiffersFrom "") q w.spaces h.named in
        elim (law.walk_lem SpaceDoc q w.spaces) [
          | inl e ↦ rw (e, process_query) (process_entries-IsConsistent _ w named h)
          | inr (inl (j, n, e)) ↦
              rw (e, process_query)
                (process_entries-IsConsistent _ w
                  (All-take (DiffersFrom "") j (select q w.spaces) named) h)
          | inr (inr (n, e)) ↦ rw (e, process_query) h
        ]

    -- A run of the deleter keeps the invariant, whichever of its steps fail.
    pub delete-IsConsistent :
        (period now now' : ℤ) (w : World)
        → IsConsistent w
        → IsConsistent (delete m k period now now' w).1
    unfolding delete
    delete-IsConsistent period now now' w h =
        always-bind _ _ w (process_query-IsConsistent _) (λ _. process_query-IsConsistent _) h
