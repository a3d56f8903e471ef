-- ===== src/SpaceStatus/Refusals.antt =====
-- What Status of spacestatus.go returns for a named space.
use any_sync_coordinator.Prelude.{
  String, false, ◌≡◌, ◌⊎◌, refl, ap, ◌∙◌, inl, inr, ◌=ₛ◌, Option-cases, none, some, List, [], ◌∷◌,
  first, arith,
}
use any_sync_coordinator.Outcome.{unexpected, space_not_exists, Result, ok, err}
use any_sync_coordinator.Docs.{World, SpaceDoc, StatusEntry, status_entry}
use any_sync_coordinator.Mongo.{Mongo, Documented, IsFault, or_no_documents}
use any_sync_coordinator.SpaceStatus.{find_status, status, not_found_or_unexpected}
use any_sync_coordinator.SpaceStatus.Keyed.{space_at}

module _ {m : Mongo} (law : Documented m) where
  by_id :
      (i : String)
      → (i =ₛ "") ≡ false
      → (d : SpaceDoc)
      → find_status (record { space_id = i; status = none; identity = "" }) d ≡ (d.space_id =ₛ i)
  unfolding find_status
  by_id i h d = ground arith

  pub first-by_id :
      (i : String)
      → (i =ₛ "") ≡ false
      → (ds : List SpaceDoc)
      → first (find_status (record { space_id = i; status = none; identity = "" })) ds
        ≡ space_at i ds
  first-by_id i h [] = refl
  first-by_id i h (d ∷ ds) = rw (by_id i h d, first-by_id i h ds) refl

  abbrev answer : Result SpaceDoc → Result StatusEntry
  answer (ok d) = m.decode d
  answer (err e) = err (not_found_or_unexpected e)

  status-answer :
      (i : String) (w : World) (r : Result SpaceDoc)
      → m.find_one SpaceDoc
          (find_status (record { space_id = i; status = none; identity = "" }))
          w.spaces
        ≡ r
      → (status m i w).0 ≡ answer r
  unfolding status
  status-answer i w (ok d) h = rw (h, status) refl
  status-answer i w (err e) h = rw (h, status) refl

  -- Status of a named space returns the entry of its document, or ErrSpaceNotExists if there is
  -- none, or the unexpected error or a failure of the driver in decoding.
  pub status-cases :
      (i : String) (w : World)
      → (i =ₛ "") ≡ false
      → ((space_at i w.spaces ≡ none) × ((status m i w).0 ≡ err space_not_exists))
        ⊎ ((d : SpaceDoc) × (space_at i w.spaces ≡ some d)
            × ((status m i w).0 ≡ ok (status_entry d)))
        ⊎ ((status m i w).0 ≡ err unexpected)
        ⊎ IsFault (status m i w).0
  unfolding not_found_or_unexpected
  status-cases i w named =
      let q = find_status (record { space_id = i; status = none; identity = "" }) in
      let here = first-by_id i named w.spaces in
      elim (law.find_one_lem SpaceDoc q w.spaces) [
        | inr (n, f) ↦ inr (inr (inl (status-answer i w _ f)))
        | inl found ↦ elim (Option-cases (space_at i w.spaces)) [
          | inl gone ↦ inl (gone, status-answer i w _ (found ∙ ap or_no_documents (here ∙ gone)))
          | inr (d, there) ↦
              let read = status-answer i w _ (found ∙ ap or_no_documents (here ∙ there)) in
              elim (law.decode_lem d) [
                | inl p ↦ inr (inl (d, there, read ∙ p))
                | inr (n, p) ↦ inr (inr (inr (n, read ∙ p)))
              ]
        ]
      ]

  -- The entry that Status of a named space returns is that of the space's document.
  pub status-found :
      (i : String) (w : World) (entry : StatusEntry)
      → (i =ₛ "") ≡ false
      → (status m i w).0 ≡ ok entry
      → (d : SpaceDoc) × (space_at i w.spaces ≡ some d) × (entry ≡ status_entry d)
  status-found i w entry named h = elim (status-cases i w named) [
    | inl (_, p) ↦ absurd (cc (p, h))
    | inr (inl (d, there, p)) ↦ (d, there, cc (p, h))
    | inr (inr (inl p)) ↦ absurd (cc (p, h))
    | inr (inr (inr (n, p))) ↦ absurd (cc (p, h))
  ]
