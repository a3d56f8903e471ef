-- ===== src/AclEventLog/Paging.antt =====
-- Reading the event log of an owner in pages.
use any_sync_coordinator.Prelude.{
  ℕ, ◌+◌, String, Bool, false, ◌&&◌, ◌≡◌, refl, ap, ◌∙◌, subst, inl, inr, List, ◌∷◌, ◌++◌, take,
  select, ltb, ◌=ₛ◌, ◌≤◌, arith,
}
use any_sync_coordinator.Outcome.{driver, no_identity, Result, ok, err, ◌>>=◌}
use any_sync_coordinator.Docs.{World, AclEventLogEntry}
use any_sync_coordinator.Mongo.{Mongo, Documented, sort_by}
use any_sync_coordinator.Mongo.Ordered.{
  IsOrdered, IsOrdered-select, select_after, sort_ordered, page_of, fetched_page, fetched_cut,
}
use any_sync_coordinator.Paged.{page, ReadsUnchecked}
use any_sync_coordinator.AclEventLog.{effective_limit, cut_page, after_query, get_after}

abbrev pub owned_by : String → AclEventLogEntry → Bool
owned_by identity e = e.owner =ₛ identity

module _ (m : Mongo) (after_id : String) (limit : ℕ) (w : World) where
  -- Without an identity nothing is read.
  pub get_after-no_identity : get_after m "" after_id limit w ≡ (err no_identity, w)
  unfolding get_after ◌>>=◌
  get_after-no_identity = refl

pub effective_limit_pos : (n : ℕ) → 1 ≤ effective_limit n
unfolding effective_limit
effective_limit_pos n = ground arith

module _ (m : Mongo) (limit : ℕ) (w : World) where
  -- The cursor of each query of GetAfter yields all that the query finds.
  abbrev pub IsWalked : Type 0
  IsWalked =
      (q : AclEventLogEntry → Bool)
      → m.walk_sorted AclEventLogEntry (λ r. r.id) (effective_limit limit + 1) q w.acl_event_log
        ≡ ok (
          take (effective_limit limit + 1) (sort_by (λ r. r.id) (select q w.acl_event_log)),
          ok tt,
        )

module _ {m : Mongo} (law : Documented m) (limit : ℕ) (w : World) (identity : String)
    (known : (identity =ₛ "") ≡ false) where
  -- GetAfter, by the events that the cursor of its query yields.
  walked :
      (after_id : String) (q : AclEventLogEntry → Bool) (l : List AclEventLogEntry)
      (e : Result (Unit {0}))
      → after_query m identity after_id ≡ ok q
      → m.walk_sorted AclEventLogEntry (λ r. r.id) (effective_limit limit + 1) q w.acl_event_log
        ≡ ok (l, e)
      → get_after m identity after_id limit w ≡ (ok (page_of (effective_limit limit + 1) l), w)
  unfolding get_after cut_page ◌>>=◌
  walked after_id q l e h p = rw (known, h, p) refl

  failed :
      (after_id : String) (q : AclEventLogEntry → Bool) (n : ℕ)
      → after_query m identity after_id ≡ ok q
      → m.walk_sorted AclEventLogEntry (λ r. r.id) (effective_limit limit + 1) q w.acl_event_log
        ≡ err (driver n)
      → get_after m identity after_id limit w ≡ (err (driver n), w)
  unfolding get_after ◌>>=◌
  failed after_id q n h p = rw (known, h, p) refl

  -- GetAfter where the cursor does not fail, by the events that the query selects.
  read_all :
      (after_id : String) (q : AclEventLogEntry → Bool) (rest : List AclEventLogEntry)
      → after_query m identity after_id ≡ ok q
      → sort_by (λ r. r.id) (select q w.acl_event_log) ≡ rest
      → m.walk_sorted AclEventLogEntry (λ r. r.id) (effective_limit limit + 1) q w.acl_event_log
        ≡ ok (
          take (effective_limit limit + 1) (sort_by (λ r. r.id) (select q w.acl_event_log)),
          ok tt,
        )
      → get_after m identity after_id limit w ≡ (ok (page (effective_limit limit) rest), w)
  read_all after_id q rest h s p =
      walked after_id q _ (ok tt) h p
      ∙ ap (λ l. (ok (page_of (effective_limit limit + 1) (take (effective_limit limit + 1) l)), w))
          s
      ∙ ap (λ p. (ok p, w)) (fetched_page (effective_limit limit) rest)

  read :
      (after_id : String) (q : AclEventLogEntry → Bool) (rest : List AclEventLogEntry)
      → after_query m identity after_id ≡ ok q
      → sort_by (λ r. r.id) (select q w.acl_event_log) ≡ rest
      → ReadsUnchecked (get_after m identity after_id limit) w (effective_limit limit) rest
  read after_id q rest h s =
      let size = effective_limit limit in
      elim (law.walk_sorted_lem AclEventLogEntry (λ r. r.id) (size + 1) q w.acl_event_log) [
        | inl p ↦ inl (inl (read_all after_id q rest h s p))
        | inr (inl (j, n, p)) ↦
            let cut =
              walked after_id q _ (err (driver n)) h p
              ∙ ap (λ l. (ok (page_of (size + 1) (take j (take (size + 1) l))), w)) s in
            elim (fetched_cut j size rest) [
              | inl e ↦ inl (inl (cut ∙ ap (λ p. (ok p, w)) e))
              | inr (small, e) ↦ inr (j, small, cut ∙ ap (λ p. (ok p, w)) e)
            ]
        | inr (inr (n, p)) ↦ inl (inr (n, failed after_id q n h p))
      ]

  query_start : after_query m identity "" ≡ ok (owned_by identity)
  unfolding after_query
  query_start = refl

  query_next :
      (r : AclEventLogEntry)
      → after_query m identity (m.hex r.id) ≡ ok (λ x. owned_by identity x && ltb r.id x.id)
  unfolding after_query
  query_next r = rw (law.hex_nonempty r.id, law.object_id_from_hex_lem r.id) refl

  abbrev owned : List AclEventLogEntry → List AclEventLogEntry
  owned l = select (owned_by identity) l

  module _ (ordered : IsOrdered (λ r. r.id) w.acl_event_log) where
    sorted_start : sort_by (λ r. r.id) (owned w.acl_event_log) ≡ owned w.acl_event_log
    sorted_start =
        sort_ordered (λ r. r.id) _ (IsOrdered-select (λ r. r.id) _ w.acl_event_log ordered)

    -- Where the ids of the log grow, a call for an identity that is not empty, without an id,
    -- returns the first of the identity's events, as many as the limit allows, and whether there are
    -- more; or the driver fails; or its cursor does, and only the first of these events are
    -- returned, without an error.
    pub owner_start :
        ReadsUnchecked
          (get_after m identity "" limit)
          w
          (effective_limit limit)
          (owned w.acl_event_log)
    owner_start = read "" (owned_by identity) _ query_start sorted_start

    pub owner_start_all :
        IsWalked m limit w
        → get_after m identity "" limit w
          ≡ (ok (page (effective_limit limit) (owned w.acl_event_log)), w)
    owner_start_all all =
        read_all "" (owned_by identity) _ query_start sorted_start (all (owned_by identity))

    module _ (xs : List AclEventLogEntry) (r : AclEventLogEntry) (ys : List AclEventLogEntry)
        (e : w.acl_event_log ≡ xs ++ r ∷ ys) where
      later : AclEventLogEntry → Bool
      later x = owned_by identity x && ltb r.id x.id

      sorted_next : sort_by (λ x. x.id) (select later w.acl_event_log) ≡ owned ys
      unfolding later
      sorted_next =
          ap (sort_by (λ x. x.id)) found
          ∙ sort_ordered (λ x. x.id) _
              (subst (IsOrdered (λ x. x.id)) found
                (IsOrdered-select (λ x. x.id) later w.acl_event_log ordered))
        where
          found : select later w.acl_event_log ≡ owned ys
          found =
              ap (select later) e
              ∙ select_after (λ x. x.id) (owned_by identity) xs r ys
                  (subst (IsOrdered (λ x. x.id)) e ordered)

      -- Where the ids of the log grow, a call for an identity that is not empty, with the id of an
      -- event, returns the identity's events that follow it, as many as the limit allows, and whether
      -- there are more; or the driver fails; or its cursor does, and only the first of these events
      -- are returned, without an error.
      pub owner_next :
          ReadsUnchecked
            (get_after m identity (m.hex r.id) limit)
            w
            (effective_limit limit)
            (owned ys)
      unfolding later
      owner_next = read (m.hex r.id) later _ (query_next r) sorted_next

      pub owner_next_all :
          IsWalked m limit w
          → get_after m identity (m.hex r.id) limit w
            ≡ (ok (page (effective_limit limit) (owned ys)), w)
      unfolding later
      owner_next_all all = read_all (m.hex r.id) later _ (query_next r) sorted_next (all later)
