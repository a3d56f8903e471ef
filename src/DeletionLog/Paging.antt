-- ===== src/DeletionLog/Paging.antt =====
-- Reading the deletion log in pages.
use any_sync_coordinator.Prelude.{
  ℕ, ◌+◌, ◌≤◌, String, Bool, true, ◌≡◌, refl, ap, ◌∙◌, subst, inl, inr, List, [], ◌∷◌, ◌++◌, take,
  select, ltb, =ₛ_refl, arith,
}
use any_sync_coordinator.Outcome.{driver, Result, ok, err, ◌>>=◌}
use any_sync_coordinator.Docs.{World, DeletionRecord, ObjectId}
use any_sync_coordinator.Mongo.{Mongo, Documented, sort_by}
use any_sync_coordinator.Mongo.Ordered.{
  IsOrdered, IsOrdered-select, select_after, sort_ordered, page_of, fetched_page, fetched_cut,
}
use any_sync_coordinator.Paged.{page, ReadsUnchecked}
use any_sync_coordinator.DeletionLog.{
  default_limit, effective_limit, cut_page, after_query, get_after,
}

pub effective_limit_bounds : (n : ℕ) → (1 ≤ effective_limit n) × (effective_limit n ≤ default_limit)
unfolding effective_limit
effective_limit_bounds n = ground arith

select_all : (l : List DeletionRecord) → select (λ r. true) l ≡ l
select_all [] = refl
select_all (r ∷ l) = ap (λ t. r ∷ t) (select_all l)

module _ (m : Mongo) (limit : ℕ) (w : World) where
  -- The cursor of each query of GetAfter yields all that the query finds.
  abbrev pub IsWalked : Type 0
  IsWalked =
      (q : DeletionRecord → Bool)
      → m.walk_sorted DeletionRecord (λ r. r.id) (effective_limit limit + 1) q w.deletion_log
        ≡ ok (
          take (effective_limit limit + 1) (sort_by (λ r. r.id) (select q w.deletion_log)),
          ok tt,
        )

module _ {m : Mongo} (law : Documented m) (limit : ℕ) (w : World) where
  -- GetAfter, by the records that the cursor of its query yields.
  walked :
      (after_id : String) (q : DeletionRecord → Bool) (l : List DeletionRecord)
      (e : Result (Unit {0}))
      → after_query m after_id ≡ ok q
      → m.walk_sorted DeletionRecord (λ r. r.id) (effective_limit limit + 1) q w.deletion_log
        ≡ ok (l, e)
      → get_after m after_id limit w ≡ (ok (page_of (effective_limit limit + 1) l), w)
  unfolding get_after cut_page ◌>>=◌
  walked after_id q l e h p = rw (h, p) refl

  failed :
      (after_id : String) (q : DeletionRecord → Bool) (n : ℕ)
      → after_query m after_id ≡ ok q
      → m.walk_sorted DeletionRecord (λ r. r.id) (effective_limit limit + 1) q w.deletion_log
        ≡ err (driver n)
      → get_after m after_id limit w ≡ (err (driver n), w)
  unfolding get_after ◌>>=◌
  failed after_id q n h p = rw (h, p) refl

  -- GetAfter where the cursor does not fail, by the records that the query selects.
  read_all :
      (after_id : String) (q : DeletionRecord → Bool) (rest : List DeletionRecord)
      → after_query m after_id ≡ ok q
      → sort_by (λ r. r.id) (select q w.deletion_log) ≡ rest
      → m.walk_sorted DeletionRecord (λ r. r.id) (effective_limit limit + 1) q w.deletion_log
        ≡ ok (
          take (effective_limit limit + 1) (sort_by (λ r. r.id) (select q w.deletion_log)),
          ok tt,
        )
      → get_after m after_id limit w ≡ (ok (page (effective_limit limit) rest), w)
  read_all after_id q rest h s p =
      walked after_id q _ (ok tt) h p
      ∙ ap (λ l. (ok (page_of (effective_limit limit + 1) (take (effective_limit limit + 1) l)), w))
          s
      ∙ ap (λ p. (ok p, w)) (fetched_page (effective_limit limit) rest)

  read :
      (after_id : String) (q : DeletionRecord → Bool) (rest : List DeletionRecord)
      → after_query m after_id ≡ ok q
      → sort_by (λ r. r.id) (select q w.deletion_log) ≡ rest
      → ReadsUnchecked (get_after m after_id limit) w (effective_limit limit) rest
  read after_id q rest h s =
      let size = effective_limit limit in
      elim (law.walk_sorted_lem DeletionRecord (λ r. r.id) (size + 1) q w.deletion_log) [
        | inl p ↦ inl (inl (read_all after_id q rest h s p))
        | inr (inl (j, n, p)) ↦
            let cut =
              walked after_id q _ (err (driver n)) h p
              ∙ ap (λ l. (ok (page_of (size + 1) (take j (take (size + 1) l))), w)) s in
            elim (fetched_cut j size rest) [
              | inl e ↦ inl (inl (cut ∙ ap (λ p. (ok p, w)) e))
              | inr (small, e) ↦ inr (j, small, cut ∙ ap (λ p. (ok p, w)) e)
            ]
        | inr (inr (n, p)) ↦ inl (inr (n, failed after_id q n h p))
      ]

  pub query_start : after_query m "" ≡ ok (λ r. true)
  unfolding after_query
  query_start = rw (=ₛ_refl "") refl

  pub query_next : (i : ObjectId) → after_query m (m.hex i) ≡ ok (λ r. ltb i r.id)
  unfolding after_query
  query_next i = rw (law.hex_nonempty i, law.object_id_from_hex_lem i) refl

  module _ (ordered : IsOrdered (λ r. r.id) w.deletion_log) where
    sorted_start : sort_by (λ r. r.id) (select (λ r. true) w.deletion_log) ≡ w.deletion_log
    sorted_start =
        ap (sort_by (λ r. r.id)) (select_all w.deletion_log)
        ∙ sort_ordered (λ r. r.id) w.deletion_log ordered

    -- Where the ids of the log grow, a call without an id returns the first records of the log,
    -- as many as the limit allows, and whether there are more; or the driver fails; or its cursor
    -- does, and only the first of these records are returned, without an error.
    pub get_after-start :
        ReadsUnchecked (get_after m "" limit) w (effective_limit limit) w.deletion_log
    get_after-start = read "" (λ r. true) w.deletion_log query_start sorted_start

    pub get_after-start_all :
        IsWalked m limit w
        → get_after m "" limit w ≡ (ok (page (effective_limit limit) w.deletion_log), w)
    get_after-start_all all =
        read_all "" (λ r. true) w.deletion_log query_start sorted_start (all (λ r. true))

    module _ (xs : List DeletionRecord) (r : DeletionRecord) (ys : List DeletionRecord)
        (e : w.deletion_log ≡ xs ++ r ∷ ys) where
      sorted_next : sort_by (λ x. x.id) (select (λ x. ltb r.id x.id) w.deletion_log) ≡ ys
      sorted_next =
          ap (sort_by (λ x. x.id)) found
          ∙ sort_ordered (λ x. x.id) ys
              (subst (IsOrdered (λ x. x.id)) found
                (IsOrdered-select (λ x. x.id) (λ x. ltb r.id x.id) w.deletion_log ordered))
        where
          found : select (λ x. ltb r.id x.id) w.deletion_log ≡ ys
          found =
              ap (select (λ x. ltb r.id x.id)) e
              ∙ select_after (λ x. x.id) (λ x. true) xs r ys
                  (subst (IsOrdered (λ x. x.id)) e ordered)
              ∙ select_all ys

      -- Where the ids of the log grow, a call with the id of a record returns the records that
      -- follow it, as many as the limit allows, and whether there are more: no record is skipped
      -- and none is returned again; or the driver fails; or its cursor does, and only the first of
      -- these records are returned, without an error.
      pub get_after-next :
          ReadsUnchecked (get_after m (m.hex r.id) limit) w (effective_limit limit) ys
      get_after-next = read (m.hex r.id) (λ x. ltb r.id x.id) ys (query_next r.id) sorted_next

      pub get_after-next_all :
          IsWalked m limit w
          → get_after m (m.hex r.id) limit w ≡ (ok (page (effective_limit limit) ys), w)
      get_after-next_all all =
          read_all (m.hex r.id) (λ x. ltb r.id x.id) ys (query_next r.id) sorted_next
            (all (λ x. ltb r.id x.id))
