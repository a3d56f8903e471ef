-- ===== src/SpaceStatus/DeleterSafety.antt =====
-- Which spaces a run of the deleter touches, and how.
use any_sync_coordinator.Prelude.{
  String, Bool, true, false, ◌||◌, ◌≡◌, ◌≢◌, ◌⊎◌, inl, inr, refl, sym, subst, ap, ◌∙◌, ◌=ₛ◌, =ₛ_iff,
  =ₛ_refl, Bool-cases, some, List, [], ◌∷◌, ℤ, All, All-take, select, arith,
}
use any_sync_coordinator.Outcome.{Result-cases, ok, >>=-step, >>=-fail, state-then_pure}
use any_sync_coordinator.Docs.{World, SpaceDoc, StatusEntry}
use any_sync_coordinator.Docs.Status
use any_sync_coordinator.Mongo.{Mongo, Documented}
use any_sync_coordinator.Mongo.Laws.{tx_atomic}
use any_sync_coordinator.Keys.{Keys}
use any_sync_coordinator.SpaceStatus.{StatusChange, modify_status_op, set_status, set_status_tx}
use any_sync_coordinator.SpaceStatus.Deleter.{
  delete_change, process_entry, process_entries, process_query, old_pending_query,
  new_pending_query, delete,
}
use any_sync_coordinator.SpaceStatus.Invariant.{IsConsistent}
use any_sync_coordinator.SpaceStatus.Keyed.{space_at, DiffersFrom, DiffersFrom-sym, IsKeyed}
use any_sync_coordinator.SpaceStatus.KeepsUpdates.{
  delete_named, process_entry-IsConsistent, process_query-IsConsistent,
}
use any_sync_coordinator.SpaceStatus.Transition.{Changed, set_status_tx-Changed}

abbrev pub deleted : SpaceDoc → SpaceDoc
deleted d = record d { status = Status.deleted }

-- From w0 to w, only spaces whose document passes the query have changed: they are deleted.
abbrev pub OnlyDeletes : (SpaceDoc → Bool) → World → World → Type 0
OnlyDeletes q w0 w =
    (j : String)
    → (space_at j w.spaces ≡ space_at j w0.spaces)
      ⊎ ((d : SpaceDoc) × (space_at j w0.spaces ≡ some d)
          × (q d ≡ true)
          × (space_at j w.spaces ≡ some (deleted d)))

-- Where ids are distinct, a document is found under its own id.
abbrev Found : List SpaceDoc → SpaceDoc → Type 0
Found ds d = space_at d.space_id ds ≡ some d

Found-behind :
    (x : SpaceDoc) (all ds : List SpaceDoc)
    → All (DiffersFrom x.space_id) ds
    → All (Found all) ds
    → All (Found (x ∷ all)) ds
Found-behind x all [] h f = tt
Found-behind x all (d ∷ ds) h f =
    (rw (DiffersFrom-sym x.space_id d h.0) f.0, Found-behind x all ds h.1 f.1)

All-Found : (ds : List SpaceDoc) → IsKeyed ds → All (Found ds) ds
All-Found [] h = tt
All-Found (x ∷ ds) h = (rw (=ₛ_refl x.space_id) refl, Found-behind x ds ds h.0 (All-Found ds h.1))

-- A document that a query has found.
abbrev Hit : (SpaceDoc → Bool) → List SpaceDoc → SpaceDoc → Type 0
Hit q ds d = (q d ≡ true) × Found ds d × DiffersFrom "" d

All-hits :
    (q : SpaceDoc → Bool) (all ds : List SpaceDoc)
    → All (Found all) ds
    → All (DiffersFrom "") ds
    → All (Hit q all) (select q ds)
All-hits q all [] f n = tt
All-hits q all (d ∷ ds) f n = elim (Bool-cases (q d)) [
  | inl p ↦ rw p ((p, f.0, n.0), All-hits q all ds f.1 n.1)
  | inr p ↦ rw p (All-hits q all ds f.1 n.1)
]

pub some_same : {a b : SpaceDoc} → some a ≡ some b → a ≡ b
some_same h = cc h

pub pending_not_deleted : (d x : SpaceDoc) → d.status ≡ Status.deletion_pending → d ≢ deleted x
pending_not_deleted d x h e = omega (arith, h, ap (λ y. y.status) e)

pub op_deletes :
    {PubKey : Type 0} (c : StatusChange PubKey) (d : SpaceDoc)
    → c.status ≡ Status.deleted
    → modify_status_op c d ≡ deleted d
unfolding modify_status_op
op_deletes c d h = ground arith

module _ {m : Mongo} (law : Documented m) (k : Keys) (q : SpaceDoc → Bool) (w0 : World) where
  step_OnlyDeletes :
      (w w' : World) (d d' : SpaceDoc)
      → Hit q w0.spaces d
      → OnlyDeletes q w0 w
      → Changed k (delete_change k d.space_id) Status.deletion_pending w w' d'
      → OnlyDeletes q w0 w'
  unfolding delete_change
  step_OnlyDeletes w w' d d' (passes, found, named) only ch j = elim (only d.space_id) [
    | inr (x, p, _, r) ↦ absurd (pending_not_deleted d' x ch.status (some_same (sym ch.was ∙ r)))
    | inl same ↦
        let d'_is_d : d' ≡ d = some_same (sym ch.was ∙ same ∙ found) in
        elim (Bool-cases (d.space_id =ₛ j)) [
          | inl e ↦ inr (
            d,
            subst (λ i. space_at i w0.spaces ≡ some d) ((=ₛ_iff d.space_id j).0 e) found,
            passes,
            ch.spaces j ∙ rw e (ap some (op_deletes _ d' refl ∙ ap deleted d'_is_d)),
          )
          | inr e ↦
              let kept = ch.spaces j ∙ rw e refl in
              elim (only j) [ inl u ↦ inl (kept ∙ u) | inr (x, p, y, r) ↦ inr (x, p, y, kept ∙ r) ]
        ]
  ]

  entry_OnlyDeletes :
      (w : World) (d : SpaceDoc)
      → Hit q w0.spaces d
      → IsConsistent w
      → OnlyDeletes q w0 w
      → OnlyDeletes q w0 (process_entry m k d w).1
  unfolding process_entry set_status
  entry_OnlyDeletes w d hit h only =
      let change = set_status_tx m k (delete_change k d.space_id) Status.deletion_pending in
      elim (law.decode_lem d) [
        | inr (n, e) ↦ rw (e, process_entry) only
        | inl e ↦
            rw (e, process_entry)
              (subst (OnlyDeletes q w0) (sym (state-then_pure _ _ w))
                (elim (tx_atomic law change w) [
                  | inl same ↦ subst (OnlyDeletes q w0) (sym same) only
                  | inr (a, p, same) ↦
                      subst (OnlyDeletes q w0) (sym same) (changed_entry w d hit h only a p)
                ]))
      ]
    where
      changed_entry :
          (w : World) (d : SpaceDoc)
          → Hit q w0.spaces d
          → IsConsistent w
          → OnlyDeletes q w0 w
          → (a : StatusEntry)
          → (set_status_tx m k (delete_change k d.space_id) Status.deletion_pending w).0 ≡ ok a
          → OnlyDeletes q w0
              (set_status_tx m k (delete_change k d.space_id) Status.deletion_pending w).1
      changed_entry w d hit h only a p =
          let (d', s, ch, _, _) =
            set_status_tx-Changed law k (delete_change k d.space_id) Status.deletion_pending w a
              (delete_named law k d.space_id hit.2) h p in
          step_OnlyDeletes w _ d d' hit only ch

  entries_OnlyDeletes :
      (ds : List SpaceDoc) (w : World)
      → All (Hit q w0.spaces) ds
      → IsConsistent w
      → OnlyDeletes q w0 w
      → OnlyDeletes q w0 (process_entries m k ds w)
  unfolding process_entries
  entries_OnlyDeletes [] w hits h only = only
  entries_OnlyDeletes (d ∷ ds) w (hit, hits) h only =
      entries_OnlyDeletes ds (process_entry m k d w).1 hits
        (process_entry-IsConsistent law k d w hit.2 h) (entry_OnlyDeletes w d hit h only)

-- What either query of a run finds.
abbrev pub is_to_be_deleted : ℤ → ℤ → ℤ → SpaceDoc → Bool
is_to_be_deleted period now now' d = old_pending_query now period d || new_pending_query now' d

module _ {m : Mongo} (law : Documented m) (k : Keys) where
  pub query_OnlyDeletes :
      (q : SpaceDoc → Bool) (w : World) → IsConsistent w → OnlyDeletes q w (process_query m k q w).1
  unfolding process_query
  query_OnlyDeletes q w h =
      let hits = All-hits q w.spaces w.spaces (All-Found w.spaces h.keyed) h.named in
      elim (law.walk_lem SpaceDoc q w.spaces) [
        | inl e ↦ rw (e, process_query) (entries_OnlyDeletes law k q w _ w hits h (λ j. inl refl))
        | inr (inl (j, n, e)) ↦
            rw (e, process_query)
              (entries_OnlyDeletes law k q w _ w
                (All-take (Hit q w.spaces) j (select q w.spaces) hits) h (λ i. inl refl))
        | inr (inr (n, e)) ↦ rw (e, process_query) (λ j. inl refl)
      ]

  weaken :
      (p q : SpaceDoc → Bool) (w0 w1 w2 : World)
      → ((d : SpaceDoc) → q (deleted d) ≡ false)
      → OnlyDeletes p w0 w1
      → OnlyDeletes q w1 w2
      → OnlyDeletes (λ d. p d || q d) w0 w2
  weaken p q w0 w1 w2 dead a b j = elim (b j) [
    | inl same ↦ elim (a j) [
      | inl u ↦ inl (same ∙ u)
      | inr (d, x, y, z) ↦ inr (d, x, rw y refl, same ∙ z)
    ]
    | inr (d, x, y, z) ↦ elim (a j) [
      | inl u ↦ inr (d, sym u ∙ x, ground arith, z)
      | inr (d', x', y', z') ↦ absurd (cc (y, ap q (some_same (sym x ∙ z')), dead d'))
    ]
  ]

  dead_new : (now' : ℤ) (d : SpaceDoc) → new_pending_query now' (deleted d) ≡ false
  unfolding new_pending_query
  dead_new now' d = refl

  -- A run of the deleter on consistent collections, whatever fails in it: every space is as it was,
  -- or it was pending and due by one of the two queries, and has the status deleted now, its other
  -- fields kept.
  pub delete-OnlyDeletes :
      (period now now' : ℤ) (w : World)
      → IsConsistent w
      → OnlyDeletes (is_to_be_deleted period now now') w (delete m k period now now' w).1
  unfolding delete
  delete-OnlyDeletes period now now' w h =
      let p = old_pending_query now period in
      let q = new_pending_query now' in
      let first_run = process_query m k p in
      let w1 = (first_run w).1 in
      let a = query_OnlyDeletes p w h in
      let b = query_OnlyDeletes q w1 (process_query-IsConsistent law k p w h) in
      let both = λ (d : SpaceDoc). p d || q d in
      elim (Result-cases (first_run w).0) [
        | inl (u, e) ↦
            subst (OnlyDeletes both w)
              (ap (λ r. r.1) (sym (>>=-step first_run (λ _. process_query m k q) w u e)))
              (weaken p q w w1 (process_query m k q w1).1 (dead_new now') a b)
        | inr (x, e) ↦
            subst (OnlyDeletes both w)
              (ap (λ r. r.1) (sym (>>=-fail first_run (λ _. process_query m k q) w x e)))
              (weaken p q w w1 w1 (dead_new now') a (λ j. inl refl))
      ]
