-- ===== src/Tests/Calls.antt =====
-- The theorems on the coordinator's calls, with services that agree to everything.
use any_sync_coordinator.Prelude.{
  ℕ, String, true, false, ◌≡◌, ◌⊎◌, inl, refl, none, some, List, [], ◌∷◌, ◌=ₛ◌, ℤ, pos,
  if◌then◌else◌,
}
use any_sync_coordinator.Outcome.{ok, err, driver, lift, pure, raise_if, ◌>>=◌}
use any_sync_coordinator.Docs.{World, SpaceDoc, Bytes, Limits, SpaceLimits, status_entry}
use any_sync_coordinator.Docs.Status
use any_sync_coordinator.Docs.SpaceType
use any_sync_coordinator.Mongo.{tx}
use any_sync_coordinator.Mongo.Memory.{memory, memory-Documented}
use any_sync_coordinator.AccountLimit.{
  FilePeer, set_limits, get_limits, update_file_limits, update_db_limits, get_limits_by_space,
  limits_of_entry, limits_by_default,
}
use any_sync_coordinator.AccountLimit.RoundTrip.{found_limits, stored, dated, set_limits-get_limits}
use any_sync_coordinator.AclEventLog.{add_log}
use any_sync_coordinator.CoordinatorLog.{add_space_receipt}
use any_sync_coordinator.DeletionLog.{add_ownership_change, insert}
use any_sync_coordinator.Coordinator.{
  Request, Parts, AclService, Signing, RawRecordWithId, deletion_period,
}
use any_sync_coordinator.Coordinator.Accepted.{Accepted, acl_add_record-Accepted}
use any_sync_coordinator.Coordinator.Acl.{acl_add_record, record_added, follow_owner, acl_event}
use any_sync_coordinator.Coordinator.Receipts.{space_event}
use any_sync_coordinator.RpcHandler.{
  StatusPayload, missing_payload, convert_status, shown_to, check_each, space_status_check_many,
}
use any_sync_coordinator.RpcHandler.Spaces.{SpaceSignRequest, handle_space_sign}
use any_sync_coordinator.RpcHandler.Served.{sign, here, next, served_log_follows}
use any_sync_coordinator.SpaceStatus.{
  status, find_status, change_owner, log_status, not_found_or_unexpected, account_status_find_tx,
  tech_account_query, check_limit_tx,
}
use any_sync_coordinator.SpaceStatus.Creation.{
  new_status, new_status_tx, new_status_from, insert_space, new_space,
}
use any_sync_coordinator.SpaceStatus.Invariant.{followed}
use any_sync_coordinator.SpaceStatus.Keyed.{space_at}
use any_sync_coordinator.SpaceStatus.Reach.{empty}
use any_sync_coordinator.SpaceStatus.Verifier.{
  Payloads, verify_space_header, verify_header_signature, header_space_type,
}
use any_sync_coordinator.SpaceStatus.VerifierAccepts.{Verified, verify_space_header-Verified}
use any_sync_coordinator.Coordinator.Receipts.{space_sign, add_coordinator_log}
use any_sync_coordinator.Tests.{keys, service, space, three_spaces}

-- Every payload and header is good; a header has no type and no timestamp.
abbrev payloads : Payloads String
payloads = record {
  Confirmation = Bytes;
  verify_delete_change = λ payload id identity peer. ok tt;
  unmarshal_confirmation = λ b. ok b;
  validate_delete_confirmation = λ identity space net c. ok tt;
  validate_account_delete_confirmation = λ identity space net c. ok tt;
  unmarshal_raw_header = λ b. ok (record { space_header = b; signature = none });
  unmarshal_header =
      λ b. ok (record { space_type = ""; timestamp = pos 0; space_header_payload = none });
  unmarshal_one_to_one = λ b. ok (record { owner = none; writers = [] });
}

abbrev signed : RawRecordWithId
signed = record { id = "rec"; payload = none }

-- The ACL names ann as the owner of every space.
abbrev acl : AclService String
acl = record {
  RawRecord = Bytes;
  unmarshal_raw_record = λ b. ok b;
  marshal_record = λ r. ok r.payload;
  add_record = λ i raw limits. ok signed;
  owner_pub_key = λ i. ok "ann";
  records_after = λ i h. ok [];
  has_record = λ i h. ok true;
  is_acl_empty = λ i. ok true;
}

abbrev signing : Signing String
signing = record {
  Receipt = Bytes;
  prepare_space_receipt = λ i peer period key. ok none;
  marshal_receipt = λ r. ok r;
  validate_space_header = λ i header key. ok tt;
}

abbrev file_peer : FilePeer
file_peer = record {
  reached = ok tt;
  account_limit_set = λ i bytes. ok tt;
  join_unwrapped = λ e. e;
}

abbrev defaults : SpaceLimits
defaults = record { space_members_read = 5; space_members_write = 3; shared_spaces_limit = 3 }

abbrev pub parts : Parts String
parts = record {
  node_conf = record {
    configuration = record { id = "c"; network_id = "net"; nodes = []; creation_time = pos 0 };
    node_types = λ peer. [];
  };
  service = service;
  payloads = payloads;
  acl = acl;
  signing = signing;
  default_limits = defaults;
  file_peer = file_peer;
}

abbrev pub request : Request String
request = record { pub_key = ok "bob"; peer_id = ok "peer"; now = pos 5_000_000_000 }

verified : verify_space_header keys payloads "bob" none ≡ ok SpaceType.personal
unfolding verify_space_header verify_header_signature header_space_type
verified = refl

verify_space_header-Verified_example : Verified keys payloads "bob" none SpaceType.personal
verify_space_header-Verified_example =
    verify_space_header-Verified keys payloads "bob" none SpaceType.personal verified

-- The limits that the payment node sets for bob.
abbrev bob_limits : Limits
bob_limits = record {
  identity = "bob";
  reason = "paid";
  file_storage_bytes = 100;
  space_members_read = 10;
  space_members_write = 10;
  shared_spaces_limit = 7;
  updated_time = pos 0;
}

limits_set : (set_limits memory file_peer (pos 9) bob_limits empty).0 ≡ ok tt
unfolding set_limits update_file_limits update_db_limits lift ◌>>=◌
limits_set = refl

set_limits-get_limits_example :
    let w' = (set_limits memory file_peer (pos 9) bob_limits empty).1 in
    (get_limits memory defaults (pos 10) "bob" w' ≡ (
      ok (
          found_limits defaults
            (pos 10)
            "bob"
            (if "bob" =ₛ "bob" then some (dated (pos 9) bob_limits) else stored "bob" empty)),
      w',
    ))
    ⊎ ((n : ℕ) × (get_limits memory defaults (pos 10) "bob" w' ≡ (err (driver n), w')))
set_limits-get_limits_example =
    set_limits-get_limits memory-Documented file_peer (pos 9) bob_limits empty tt limits_set
      defaults (pos 10) "bob"

-- A shareable space of bob.
abbrev shared_space : SpaceDoc
shared_space = record (space "notes" "bob" SpaceType.regular) { is_shareable = true }

abbrev pub shared_world : World
shared_world = record empty { spaces = shared_space ∷ [] }

accepted : (acl_add_record memory keys parts request "notes" none shared_world).0 ≡ ok signed
unfolding acl_add_record record_added follow_owner acl_event space_event status find_status
    change_owner add_ownership_change insert add_log get_limits_by_space limits_of_entry get_limits
    limits_by_default lift pure raise_if ◌>>=◌
accepted = refl

acl_add_record-Accepted_example :
    Accepted memory-Documented keys parts request "notes" none signed shared_world
      (acl_add_record memory keys parts request "notes" none shared_world).1
acl_add_record-Accepted_example =
    acl_add_record-Accepted memory-Documented keys parts request "notes" refl none signed
      shared_world accepted

abbrev period : ℤ
period = pos 2_592_000_000_000_000

-- What bob is shown of his own space, of a missing one and of eve's.
abbrev pub answers : List StatusPayload
answers =
    shown_to "bob" period (record { read_members = 5; write_members = 3 })
      (status_entry (space "notes" "bob" SpaceType.regular))
    ∷ missing_payload
    ∷ shown_to "bob" period (record { read_members = 5; write_members = 3 })
        (status_entry (space "other" "eve" SpaceType.regular))
    ∷ []

abbrev pub ids : List String
ids = "notes" ∷ "gone" ∷ "other" ∷ []

pub answered :
    (space_status_check_many memory keys parts request ids three_spaces).0 ≡ ok (answers, 3)
unfolding space_status_check_many check_each get_limits limits_by_default status find_status
    not_found_or_unexpected deletion_period lift pure ◌>>=◌ shown_to convert_status
answered = refl

-- After bob has opened a space.
abbrev opening : SpaceSignRequest
opening = record { space_id = "a"; header = none; force_request = false }

abbrev opened : World
opened = (handle_space_sign memory keys parts request opening empty).1

opened_at : space_at "a" opened.spaces ≡ some (space "a" "bob" SpaceType.personal)
unfolding handle_space_sign space_sign add_coordinator_log add_space_receipt space_event add_log
    verify_space_header verify_header_signature header_space_type new_status new_status_tx
    new_status_from insert_space new_space account_status_find_tx tech_account_query status
    find_status not_found_or_unexpected check_limit_tx raise_if pure lift tx ◌>>=◌
opened_at = refl

served_log_follows_example : log_status Status.created ≡ ok (followed "a" opened)
served_log_follows_example =
    served_log_follows keys
      (next memory parts memory-Documented here (sign request opening refl (inl refl) refl)) "a"
      (space "a" "bob" SpaceType.personal) opened_at
