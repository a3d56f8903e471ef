-- ===== src/Tests.antt =====
-- Concrete states, keys and services, for the tests of the library's theorems at inputs where their
-- hypotheses hold.
pub mod Spaces
pub mod Accounts
pub mod Logs
pub mod Calls
pub mod Sharing
pub mod Following
pub mod Streams
pub mod Histories
pub mod Deleter
pub mod Changes
pub mod Agreement
pub mod Inbox
pub mod Identity
pub mod Network
use any_sync_coordinator.Prelude.{
  ℕ, String, Bool, true, false, ◌≡◌, refl, ◌=ₛ◌, Option, none, some, List, [], ◌∷◌, ℤ, pos, arith,
  All, Bool-cases, inl, inr,
}
use any_sync_coordinator.Outcome.{Result, ok, err, text}
use any_sync_coordinator.Docs.{
  World, SpaceDoc, Bytes, SpaceLimits, DeletionRecord, LogStatus, AclEventLogEntry,
}
use any_sync_coordinator.Docs.Status
use any_sync_coordinator.Docs.SpaceType
use any_sync_coordinator.Keys.{Keys}
use any_sync_coordinator.SpaceStatus.{log_status, Config, Service, AccountInfo, StatusChange}
use any_sync_coordinator.SpaceStatus.Invariant.{IsConsistent, shown}
use any_sync_coordinator.SpaceStatus.Keyed.{space_at}
use any_sync_coordinator.SpaceStatus.Reach.{empty}

-- A public key is its account; every signature is good.
abbrev pub keys : Keys
keys = record {
  PubKey = String;
  account = λ key. key;
  verify = λ key message signature. ok true;
  equals = λ a b. a =ₛ b;
  unmarshal_public_key = λ b. ok "bob";
}

abbrev pub conf : Config
conf = record { run_seconds = pos 10; deletion_period_days = pos 30; space_limit = pos 2 }

abbrev pub service : Service String
service = record { conf = conf; verify = λ c. ok tt; deletion_period = pos 60_000_000_000 }

abbrev pub space : String → String → ℕ → SpaceDoc
space i owner t = record {
  space_id = i;
  identity = owner;
  deletion_payload_type = 0;
  deletion_payload = none;
  deletion_timestamp = pos 0;
  to_be_deleted_timestamp = none;
  status = Status.created;
  type = some t;
  is_shareable = false;
}

-- Two spaces of one account and one of another.
abbrev pub three_spaces : World
three_spaces = record empty {
  spaces =
      space "tech" "bob" SpaceType.tech
      ∷ space "notes" "bob" SpaceType.regular
      ∷ space "other" "eve" SpaceType.regular
      ∷ [];
}

-- No space of the list has a status but created, so the empty log shows every one.
created_shown :
    (j : String) (ds : List SpaceDoc)
    → All (λ d. d.status ≡ Status.created) ds
    → shown (space_at j ds) ≡ ok LogStatus.ok
unfolding shown log_status
created_shown j [] h = refl
created_shown j (d ∷ ds) h = elim (Bool-cases (d.space_id =ₛ j)) [
  | inl e ↦ rw (e, h.0) refl
  | inr e ↦ rw e (created_shown j ds h.1)
]

pub three_spaces-IsConsistent : IsConsistent three_spaces
three_spaces-IsConsistent = record {
  keyed = ((refl, (refl, tt)), ((refl, tt), (tt, tt)));
  named = (refl, (refl, (refl, tt)));
  agrees = λ j. created_shown j three_spaces.spaces (refl, (refl, (refl, tt)));
  clean = (
    λ h. (refl, refl, refl, refl),
    (λ h. (refl, refl, refl, refl), (λ h. (refl, refl, refl, refl), tt)),
  );
}

abbrev pub bob : AccountInfo String
bob = record { identity = some "bob"; peer_id = "peer"; network_id = "net" }
