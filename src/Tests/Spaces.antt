-- ===== src/Tests/Spaces.antt =====
-- The theorems on single spaces, at the three spaces of the tests.
use any_sync_coordinator.Prelude.{
  String, true, false, ◌≡◌, ◌⊎◌, inl, ◌≤◌, ◌<◌, ◌^◌, refl, some, [], ◌∷◌, ◌++◌, pos, arith,
}
use any_sync_coordinator.Outcome.{ok, err, unexpected, lift, pure, raise_if, ◌>>=◌}
use any_sync_coordinator.Docs.{World, SpaceDoc, StatusEntry, status_entry, LogStatus}
use any_sync_coordinator.Docs.Status
use any_sync_coordinator.Docs.SpaceType
use any_sync_coordinator.Mongo.{tx}
use any_sync_coordinator.Mongo.Memory.{memory, memory-Documented}
use any_sync_coordinator.DeletionLog.{add, insert}
use any_sync_coordinator.DeletionLog.Appending.{status_record, next_id}
use any_sync_coordinator.SpaceStatus.{
  StatusChange, zero_change, log_status, status, modify_status, modify_status_op, modify_query,
  find_status, set_status_tx, tech_account_query, account_status_find_tx, check_limit_tx,
  incorrect_status_error, not_found_or_unexpected,
}
use any_sync_coordinator.SpaceStatus.Creation.{
  new_status, new_status_tx, new_status_from, insert_space, new_space,
}
use any_sync_coordinator.SpaceStatus.Deleter.{delete}
use any_sync_coordinator.SpaceStatus.DeleterSafety.{
  OnlyDeletes, is_to_be_deleted, delete-OnlyDeletes,
}
use any_sync_coordinator.SpaceStatus.Invariant.{IsConsistent, followed, set_status_tx-IsConsistent}
use any_sync_coordinator.SpaceStatus.Keyed.{space_at}
use any_sync_coordinator.SpaceStatus.Limits.{created_spaces, new_status-limit}
use any_sync_coordinator.SpaceStatus.Reach.{here, next, create, empty, log_follows}
use any_sync_coordinator.SpaceStatus.Refused.{
  set_status_tx-missing, set_status_tx-refused, forced-other_owner,
}
use any_sync_coordinator.SpaceStatus.Sharing.{
  make_shareable, make_shareable_tx, set_shareable, shareable_query,
}
use any_sync_coordinator.SpaceStatus.SharingLimit.{shareable_spaces, make_shareable-Shared}
use any_sync_coordinator.SpaceStatus.Transition.{Changed, set_status_tx-Changed}
use any_sync_coordinator.Tests.{keys, conf, service, space, three_spaces, three_spaces-IsConsistent}

-- A deletion of a space by its owner.
abbrev deletion : String → StatusChange String
deletion i = record (zero_change {PubKey = String}) {
  identity = some "bob";
  deletion_timestamp = pos 5;
  to_be_deleted_timestamp = pos 65;
  status = Status.deletion_pending;
  space_id = i;
}

abbrev pub pending_notes : World
pending_notes = (set_status_tx memory keys (deletion "notes") Status.created three_spaces).1

changed_notes :
    (set_status_tx memory keys (deletion "notes") Status.created three_spaces).0
    ≡ ok
        (status_entry (modify_status_op (deletion "notes") (space "notes" "bob" SpaceType.regular)))
unfolding set_status_tx modify_status modify_query find_status log_status add insert pure lift ◌>>=◌
    modify_status_op
changed_notes = refl

set_status_tx-Changed_example :
    (d : SpaceDoc) × (s : LogStatus) × Changed keys
      (deletion "notes")
      Status.created
      three_spaces
      pending_notes
      d
    × (log_status Status.deletion_pending ≡ ok s)
    × (pending_notes.deletion_log
        ≡ three_spaces.deletion_log
          ++ status_record (next_id memory three_spaces) "notes" d.identity s ∷ [])
set_status_tx-Changed_example =
    set_status_tx-Changed memory-Documented keys (deletion "notes") Status.created three_spaces
      (status_entry (modify_status_op (deletion "notes") (space "notes" "bob" SpaceType.regular)))
      refl three_spaces-IsConsistent changed_notes

set_status_tx-missing_example :
    set_status_tx memory keys (deletion "gone") Status.created three_spaces
    ≡ (err unexpected, three_spaces)
set_status_tx-missing_example =
    set_status_tx-missing memory-Documented keys (deletion "gone") Status.created refl three_spaces
      refl

foreign :
    modify_query keys (deletion "other") Status.created (space "other" "eve" SpaceType.regular)
    ≡ false
unfolding modify_query find_status
foreign = refl

set_status_tx-refused_example :
    (set_status_tx memory keys (deletion "other") Status.created three_spaces
      ≡ (err (incorrect_status_error Status.created), three_spaces))
    ⊎ (set_status_tx memory keys (deletion "other") Status.created three_spaces
        ≡ (err unexpected, three_spaces))
set_status_tx-refused_example =
    set_status_tx-refused memory-Documented keys (deletion "other") Status.created refl three_spaces
      (space "other" "eve" SpaceType.regular) three_spaces-IsConsistent.keyed refl foreign

-- The first space of an account.
abbrev first_space : World
first_space = (new_status memory keys conf "a" "bob" SpaceType.tech false empty).1

first_created : (new_status memory keys conf "a" "bob" SpaceType.tech false empty).0 ≡ ok tt
unfolding new_status new_status_tx new_status_from insert_space new_space account_status_find_tx
    tech_account_query status find_status not_found_or_unexpected check_limit_tx raise_if pure lift
    tx ◌>>=◌
first_created = refl

new_status-limit_example :
    ((entry : StatusEntry) × ((status memory "a" empty).0 ≡ ok entry)
      × (entry.status ≡ Status.created)
      × (first_space ≡ empty))
    ⊎ (created_spaces "bob" first_space ≤ 2)
new_status-limit_example =
    new_status-limit memory-Documented keys conf "bob" 1 refl "a" SpaceType.tech false empty tt
      first_created

first_space_at : space_at "a" first_space.spaces ≡ some (space "a" "bob" SpaceType.tech)
unfolding new_status new_status_tx new_status_from insert_space new_space account_status_find_tx
    tech_account_query status find_status not_found_or_unexpected check_limit_tx raise_if pure lift
    tx ◌>>=◌
first_space_at = refl

log_follows_example : log_status Status.created ≡ ok (followed "a" first_space)
log_follows_example =
    log_follows keys service
      (next memory memory-Documented here
        (create "a" "bob" SpaceType.tech false refl (inl refl) refl))
      "a" (space "a" "bob" SpaceType.tech) first_space_at

-- A space of another account that waits for its deletion.
abbrev waiting : SpaceDoc
waiting = record (space "other" "eve" SpaceType.regular) { status = Status.deletion_pending }

abbrev eve_waits : World
eve_waits = record empty { spaces = space "tech" "bob" SpaceType.tech ∷ waiting ∷ [] }

read_other : (status memory "other" eve_waits).0 ≡ ok (status_entry waiting)
unfolding status find_status
read_other = refl

none_pending : (account_status_find_tx memory "bob" Status.deletion_pending eve_waits).0 ≡ ok false
unfolding account_status_find_tx tech_account_query
none_pending = refl

below_limit : check_limit_tx memory keys conf (some "bob") eve_waits ≡ (ok tt, eve_waits)
unfolding check_limit_tx raise_if
below_limit = refl

forced-other_owner_example :
    new_status_tx memory keys conf "other" "bob" SpaceType.regular true eve_waits
    ≡ (ok tt, eve_waits)
forced-other_owner_example =
    forced-other_owner memory-Documented keys conf "other" "bob" SpaceType.regular refl eve_waits
      waiting ((refl, tt), (tt, tt)) refl refl refl refl read_other none_pending below_limit

pub pending_notes-IsConsistent : IsConsistent pending_notes
pending_notes-IsConsistent =
    ((set_status_tx-IsConsistent memory-Documented keys (deletion "notes") Status.created refl).at
      three_spaces
      (status_entry (modify_status_op (deletion "notes") (space "notes" "bob" SpaceType.regular)))
      three_spaces-IsConsistent changed_notes).0

-- A run of the deleter after a hundred seconds, when the space is due.
delete-OnlyDeletes_example :
    OnlyDeletes
      (is_to_be_deleted (pos 60_000_000_000) (pos 100_000_000_000) (pos 100_000_000_000))
      pending_notes
      (delete memory keys
        (pos 60_000_000_000)
        (pos 100_000_000_000)
        (pos 100_000_000_000)
        pending_notes).1
delete-OnlyDeletes_example =
    delete-OnlyDeletes memory-Documented keys (pos 60_000_000_000) (pos 100_000_000_000)
      (pos 100_000_000_000) pending_notes pending_notes-IsConsistent

shared_notes : (make_shareable memory "notes" SpaceType.regular 1 three_spaces).0 ≡ ok tt
unfolding make_shareable make_shareable_tx set_shareable shareable_query status find_status raise_if
    pure lift tx ◌>>=◌
shared_notes = refl

few_shared : (account : String) → shareable_spaces account SpaceType.regular three_spaces < 2 ^ 32
unfolding shareable_query
few_shared account = ground arith

make_shareable-Shared_example :
    (entry : StatusEntry) × ((status memory "notes" three_spaces).0 ≡ ok entry)
    × (((entry.is_shareable ≡ true)
          × ((make_shareable memory "notes" SpaceType.regular 1 three_spaces).1 ≡ three_spaces))
        ⊎ ((entry.is_shareable ≡ false)
            × (shareable_spaces entry.identity SpaceType.regular
                  (make_shareable memory "notes" SpaceType.regular 1 three_spaces).1
                ≤ 1)))
make_shareable-Shared_example =
    make_shareable-Shared memory-Documented "notes" SpaceType.regular 1 three_spaces tt few_shared
      shared_notes
