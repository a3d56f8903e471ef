-- ===== src/SpaceStatus/DeleterLiveness.antt =====
-- What a run of the deleter does to every space, where the driver does not fail.
use any_sync_coordinator.Prelude.{
  String, Bool, true, false, ◌||◌, ◌≡◌, refl, sym, subst, ap, ◌∙◌, inl, inr, ◌=ₛ◌, some, none,
  Option-cases, Bool-cases, List, [], ◌∷◌, ℤ, All, All-select, select, arith, if◌then◌else◌,
}
use any_sync_coordinator.Outcome.{ok, >>=-step}
use any_sync_coordinator.Docs.{World, SpaceDoc}
use any_sync_coordinator.Docs.Status
use any_sync_coordinator.Mongo.{Mongo, Documented, Reliable}
use any_sync_coordinator.Keys.{Keys}
use any_sync_coordinator.SpaceStatus.AccountLoop.{map_doc}
use any_sync_coordinator.SpaceStatus.Deleter.{
  process_entry, process_entries, process_query, old_pending_query, new_pending_query, delete,
}
use any_sync_coordinator.SpaceStatus.DeleterSafety.{
  deleted, is_to_be_deleted, some_same, query_OnlyDeletes, delete-OnlyDeletes,
}
use any_sync_coordinator.SpaceStatus.Invariant.{IsConsistent}
use any_sync_coordinator.SpaceStatus.Keyed.{space_at, DiffersFrom}
use any_sync_coordinator.SpaceStatus.KeepsUpdates.{
  process_entry-IsConsistent, process_query-IsConsistent,
}
use any_sync_coordinator.SpaceStatus.DeleterEntries.{entry-deleted, entry-deletes}

-- One of the documents is that of the space.
abbrev is_listed : String → List SpaceDoc → Bool
is_listed j [] = false
is_listed j (d ∷ ds) = d.space_id =ₛ j || is_listed j ds

listed :
    (q : SpaceDoc → Bool) (j : String) (ds : List SpaceDoc) (d : SpaceDoc)
    → space_at j ds ≡ some d
    → q d ≡ true
    → is_listed j (select q ds) ≡ true
listed q j [] d h p = absurd (cc h)
listed q j (x ∷ ds) d h p = elim (Bool-cases (x.space_id =ₛ j)) [
  | inl e ↦
      let same : some x ≡ some d = rw e at h in
      rw (subst (λ y. q y ≡ true) (sym (some_same same)) p, e) refl
  | inr e ↦
      let rest = listed q j ds d (rw e at h) p in
      elim (Bool-cases (q x)) [ inl r ↦ rw (r, e) rest | inr r ↦ rw r rest ]
]

module _ {m : Mongo} (law : Documented m) (sure : Reliable m) (k : Keys) where
  module _ (j : String) (d : SpaceDoc) where
    entries-deleted :
        (ds : List SpaceDoc) (w : World)
        → All (DiffersFrom "") ds
        → IsConsistent w
        → space_at j w.spaces ≡ some (deleted d)
        → space_at j (process_entries m k ds w).spaces ≡ some (deleted d)
    unfolding process_entries
    entries-deleted [] w named h gone = gone
    entries-deleted (x ∷ ds) w named h gone =
        entries-deleted ds (process_entry m k x w).1 named.1
          (process_entry-IsConsistent law k x w named.0 h)
          (entry-deleted law sure k j d x w named.0 h gone)

    entries-delete :
        (ds : List SpaceDoc) (w : World)
        → All (DiffersFrom "") ds
        → IsConsistent w
        → space_at j w.spaces ≡ some d
        → d.status ≡ Status.deletion_pending
        → is_listed j ds ≡ true
        → space_at j (process_entries m k ds w).spaces ≡ some (deleted d)
    unfolding process_entries
    entries-delete [] w named h there pending l = absurd (cc l)
    entries-delete (x ∷ ds) w named h there pending l =
        let after = entry-deletes law sure k j d x w named.0 h there pending in
        let kept = process_entry-IsConsistent law k x w named.0 h in
        elim (Bool-cases (x.space_id =ₛ j)) [
          | inl e ↦ entries-deleted ds (process_entry m k x w).1 named.1 kept (rw e at after)
          | inr e ↦
              entries-delete ds (process_entry m k x w).1 named.1 kept (rw e at after) pending
                (rw e at l)
        ]

    query-deletes :
        (q : SpaceDoc → Bool) (w : World)
        → IsConsistent w
        → space_at j w.spaces ≡ some d
        → d.status ≡ Status.deletion_pending
        → q d ≡ true
        → space_at j (process_query m k q w).1.spaces ≡ some (deleted d)
    unfolding process_query
    query-deletes q w h there pending hit =
        rw (sure.walk_lem SpaceDoc q w.spaces, process_query)
          (entries-delete (select q w.spaces) w (All-select (DiffersFrom "") q w.spaces h.named) h
            there pending (listed q j w.spaces d there hit))

    query-deleted :
        (q : SpaceDoc → Bool) (w : World)
        → IsConsistent w
        → space_at j w.spaces ≡ some (deleted d)
        → space_at j (process_query m k q w).1.spaces ≡ some (deleted d)
    unfolding process_query
    query-deleted q w h gone =
        rw (sure.walk_lem SpaceDoc q w.spaces, process_query)
          (entries-deleted (select q w.spaces) w (All-select (DiffersFrom "") q w.spaces h.named) h
            gone)

  query-runs : (q : SpaceDoc → Bool) (w : World) → (process_query m k q w).0 ≡ ok tt
  unfolding process_query
  query-runs q w = rw (sure.walk_lem SpaceDoc q w.spaces, process_query) refl

  old-pending :
      (now period : ℤ) (d : SpaceDoc)
      → old_pending_query now period d ≡ true
      → d.status ≡ Status.deletion_pending
  unfolding old_pending_query
  old-pending now period d h = ground arith

  new-pending :
      (now : ℤ) (d : SpaceDoc) → new_pending_query now d ≡ true → d.status ≡ Status.deletion_pending
  unfolding new_pending_query
  new-pending now d h = ground arith

  module _ (period now now' : ℤ) (w : World) (h : IsConsistent w) where
    abbrev after_old : World
    after_old = (process_query m k (old_pending_query now period) w).1

    runs : delete m k period now now' w ≡ process_query m k (new_pending_query now') after_old
    unfolding delete
    runs =
        >>=-step (process_query m k (old_pending_query now period))
          (λ _. process_query m k (new_pending_query now')) w tt (query-runs _ w)

    after_old-IsConsistent : IsConsistent after_old
    after_old-IsConsistent = process_query-IsConsistent law k (old_pending_query now period) w h

    due :
        (j : String) (d : SpaceDoc)
        → space_at j w.spaces ≡ some d
        → is_to_be_deleted period now now' d ≡ true
        → space_at j (delete m k period now now' w).1.spaces ≡ some (deleted d)
    due j d there hit =
        let q = old_pending_query now period in
        ap (λ r. space_at j r.1.spaces) runs ∙ elim (Bool-cases (q d)) [
          | inl p ↦
              query-deleted j d (new_pending_query now') after_old after_old-IsConsistent
                (query-deletes j d q w h there (old-pending now period d p) p)
          | inr p ↦
              let new = rw p at hit in
              elim (query_OnlyDeletes law k q w h j) [
                | inl same ↦
                    query-deletes j d (new_pending_query now') after_old after_old-IsConsistent
                      (same ∙ there) (new-pending now' d new) new
                | inr (d', there', hit', _) ↦
                    absurd (cc (p, hit', ap q (some_same (sym there ∙ there'))))
              ]
        ]

    there-Deletes :
        (j : String) (d : SpaceDoc)
        → space_at j w.spaces ≡ some d
        → space_at j (delete m k period now now' w).1.spaces
          ≡ some (if is_to_be_deleted period now now' d then deleted d else d)
    there-Deletes j d there = elim (Bool-cases (is_to_be_deleted period now now' d)) [
      | inl hit ↦ rw hit (due j d there hit)
      | inr miss ↦ rw miss (elim (delete-OnlyDeletes law k period now now' w h j) [
        | inl same ↦ same ∙ there
        | inr (d', there', hit', _) ↦ absurd (
            cc (miss, hit', ap (is_to_be_deleted period now now') (some_same (sym there ∙ there'))))
      ])
    ]

    missing-Deletes :
        (j : String)
        → space_at j w.spaces ≡ none
        → space_at j (delete m k period now now' w).1.spaces ≡ none
    missing-Deletes j gone = elim (delete-OnlyDeletes law k period now now' w h j) [
      | inl same ↦ same ∙ gone
      | inr (d', there', _, _) ↦ absurd (cc (gone, there'))
    ]

    -- A run of the deleter on consistent collections, with a driver that does not fail, succeeds. Every
    -- space that is pending and due by one of the two queries is deleted by it, its other fields kept;
    -- every other space is as it was, and none is added.
    pub delete-Deletes :
        ((delete m k period now now' w).0 ≡ ok tt)
        × ((j : String)
            → space_at j (delete m k period now now' w).1.spaces
              ≡ map_doc
                  (λ d. if is_to_be_deleted period now now' d then deleted d else d)
                  (space_at j w.spaces))
    delete-Deletes = (
      ap (λ r. r.0) runs ∙ query-runs _ after_old,
      λ j. elim (Option-cases (space_at j w.spaces)) [
        | inl gone ↦ rw gone (missing-Deletes j gone)
        | inr (d, there) ↦ rw there (there-Deletes j d there)
      ],
    )
