-- ===== src/SpaceStatus/Invariant.antt =====
-- The invariant of the collections `spaces` and `deletionLog`, and changes of status under it.
use any_sync_coordinator.Prelude.{
  ℕ, String, Bool, true, false, ◌≡◌, refl, ◌=ₛ◌, =ₛ_iff, Option, none, some, List, [], ◌∷◌, ◌++◌,
  pos, All, All-replace_first, first, first-passes, replace_first, arith, subst, sym, if◌then◌else◌,
}
use any_sync_coordinator.Outcome.{Result, ok}
use any_sync_coordinator.Docs.{
  World, SpaceDoc, StatusEntry, status_entry, LogStatus, ok as status_ok, ownership_change,
  DeletionRecord, ObjectId,
}
use any_sync_coordinator.Docs.Status
use any_sync_coordinator.Mongo.{Mongo, Documented}
use any_sync_coordinator.Mongo.Triple.{Keeps}
use any_sync_coordinator.Keys.{Keys, account_or_empty}
use any_sync_coordinator.DeletionLog.Appending.{status_record, next_id}
use any_sync_coordinator.SpaceStatus.{
  StatusChange, find_status, modify_query, modify_status_op, log_status, set_status_tx,
}
use any_sync_coordinator.SpaceStatus.Effect.{set_status_tx-effect}
use any_sync_coordinator.SpaceStatus.Keyed.{
  space_at, DiffersFrom, IsKeyed, op-space_id, replace-IsKeyed, space_at-replace,
}

-- A record of a space sets its status, except that a change of owner does not.
abbrev pub status_or : LogStatus → LogStatus → LogStatus
status_or acc ownership_change = acc
status_or acc s = s

abbrev pub follow : String → LogStatus → DeletionRecord → LogStatus
follow j acc r = if r.space_id =ₛ j then status_or acc r.status else acc

-- The status of a space for a node that follows the log from its start.
abbrev pub replay_status : String → LogStatus → List DeletionRecord → LogStatus
replay_status j acc [] = acc
replay_status j acc (r ∷ rs) = replay_status j (follow j acc r) rs

abbrev pub followed : String → World → LogStatus
followed j w = replay_status j status_ok w.deletion_log

pub replay_status-append :
    (j : String) (acc : LogStatus) (rs : List DeletionRecord) (r : DeletionRecord)
    → replay_status j acc (rs ++ r ∷ []) ≡ follow j (replay_status j acc rs) r
replay_status-append j acc [] r = refl
replay_status-append j acc (x ∷ rs) r = replay_status-append j (follow j acc x) rs r

-- The status that the log should show for a space: that of its document, or Ok if it has none.
unfoldable pub shown : Option SpaceDoc → Result LogStatus
shown none = ok status_ok
shown (some d) = log_status d.status

-- A space that is not deleted carries no deletion data.
abbrev pub IsClean : SpaceDoc → Type 0
IsClean d =
    d.status ≡ Status.created
    → (d.deletion_payload ≡ none)
      × (d.deletion_payload_type ≡ 0)
      × (d.deletion_timestamp ≡ pos 0)
      × ((status_entry d).to_be_deleted_timestamp ≡ pos 0)

-- Ids are distinct and not empty, the log shows the status of every space, and spaces that are
-- not deleted carry no deletion data.
pub record IsConsistent (w : World) : Type 0 where
  pub keyed : IsKeyed w.spaces
  pub named : All (DiffersFrom "") w.spaces
  pub agrees : (j : String) → shown (space_at j w.spaces) ≡ ok (followed j w)
  pub clean : All IsClean w.spaces

op-IsClean :
    {PubKey : Type 0} (c : StatusChange PubKey) (d : SpaceDoc) → IsClean (modify_status_op c d)
unfolding modify_status_op
op-IsClean c d = ground arith

pub op-status :
    {PubKey : Type 0} (c : StatusChange PubKey) (d : SpaceDoc)
    → (modify_status_op c d).status ≡ c.status
unfolding modify_status_op
op-status c d = ground arith

-- What a document that the query of a change finds has.
pub modify_query-matches :
    (k : Keys) (c : StatusChange k.PubKey) (old : ℕ) (d : SpaceDoc)
    → modify_query k c old d ≡ true
    → (c.space_id =ₛ "") ≡ false
    → (d.space_id ≡ c.space_id)
      × (d.status ≡ old)
      × ((account_or_empty k c.identity =ₛ "") ≡ false → d.identity ≡ account_or_empty k c.identity)
unfolding modify_query find_status
modify_query-matches k c old d h n =
    ground (arith, =ₛ_iff d.space_id c.space_id, =ₛ_iff d.identity (account_or_empty k c.identity))

-- What a record of a status change shows.
follow_change :
    (j : String) (acc : LogStatus) (s : LogStatus) (n : ℕ) (id : ℕ) (space_id group : String)
    → log_status n ≡ ok s
    → follow j acc (status_record id space_id group s) ≡ (if space_id =ₛ j then s else acc)
unfolding log_status
follow_change j acc s n id space_id group h = ground arith

-- The log still shows every status after a change and its record.
agrees_after :
    {PubKey : Type 0} (c : StatusChange PubKey) (q : SpaceDoc → Bool) (w : World) (d : SpaceDoc)
    (s : LogStatus) (id : ObjectId) (j : String)
    → IsConsistent w
    → first q w.spaces ≡ some d
    → d.space_id ≡ c.space_id
    → log_status c.status ≡ ok s
    → shown (space_at j (replace_first q (modify_status_op c) w.spaces))
      ≡ ok (
          replay_status j status_ok
            (w.deletion_log ++ status_record id c.space_id d.identity s ∷ []))
unfolding shown
agrees_after c q w d s id j h found same logs = ground (
  arith,
  h.agrees j,
  space_at-replace (modify_status_op c) (op-space_id c) j q w.spaces d h.keyed found,
  replay_status-append j status_ok w.deletion_log (status_record id c.space_id d.identity s),
  follow_change j (followed j w) s c.status id c.space_id d.identity logs,
  op-status c d,
)

module _ {m : Mongo} (law : Documented m) (k : Keys) (c : StatusChange k.PubKey) (old : ℕ) where
  -- A change of status of a named space keeps the invariant.
  pub set_status_tx-IsConsistent :
      (c.space_id =ₛ "") ≡ false → Keeps IsConsistent (set_status_tx m k c old)
  set_status_tx-IsConsistent named = record { at = λ w e h p. (kept w e h p, tt) }
    where
      kept :
          (w : World) (e : StatusEntry)
          → IsConsistent w
          → (set_status_tx m k c old w).0 ≡ ok e
          → IsConsistent (set_status_tx m k c old w).1
      kept w e h p =
          let (d, s, found, logs, shape, world) = set_status_tx-effect law k c old w e p in
          let q = modify_query k c old in
          let (same, was, owner) =
            modify_query-matches k c old d (first-passes q w.spaces d found) named in
          subst IsConsistent (sym world) (record {
            keyed = replace-IsKeyed (modify_status_op c) (op-space_id c) q w.spaces h.keyed;
            named =
                All-replace_first (DiffersFrom "") q (modify_status_op c) w.spaces
                  (λ x n. rw (op-space_id c x) n) h.named;
            agrees = λ j. agrees_after c q w d s (next_id m w) j h found same logs;
            clean =
                All-replace_first IsClean q (modify_status_op c) w.spaces (λ x _. op-IsClean c x)
                  h.clean;
          })
