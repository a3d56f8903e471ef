-- ===== src/Tests/Inbox.antt =====
-- The theorems on the inbox, at three messages.
use any_sync_coordinator.Prelude.{ℕ, String, true, ◌≡◌, refl, none, [], ◌∷◌, ◌++◌, pos}
use any_sync_coordinator.Outcome.{ok, lift, ◌>>=◌}
use any_sync_coordinator.Mongo.Memory.{memory, memory-Documented}
use any_sync_coordinator.Inbox.{
  InboxMessage, Messages, AddRequest, inbox_add_message, insert_message, verify_signature,
  message_from_request,
}
use any_sync_coordinator.Inbox.Fetching.{sent_by, inbox_add_message-ok}
use any_sync_coordinator.Tests.{keys}

abbrev message : ℕ → String → InboxMessage
message i receiver = record {
  id = i;
  packet_type = 0;
  packet = record {
    key_type = 0;
    sender_identity = "eve";
    receiver_identity = receiver;
    sender_signature = none;
    payload = record { payload_type = 0; timestamp = pos 0; body = none };
  };
}

abbrev pub messages : Messages
messages = message 2 "bob" ∷ message 4 "eve" ∷ message 7 "bob" ∷ []

abbrev pub invite : AddRequest
invite = record {
  packet_type = 0;
  key_type = 0;
  receiver_identity = "bob";
  sender_signature = none;
  payload_type = 0;
  body = none;
}

pub invite_added : (inbox_add_message memory keys (ok "eve") (pos 9) invite messages).0 ≡ ok tt
unfolding inbox_add_message insert_message verify_signature message_from_request lift ◌>>=◌
invite_added = refl

inbox_add_message-ok_example :
    (key : String) × (ok "eve" ≡ ok key)
    × (keys.verify key none none ≡ ok true)
    × ((inbox_add_message memory keys (ok "eve") (pos 9) invite messages).1
        ≡ messages ++ sent_by memory-Documented keys (pos 9) invite messages key ∷ [])
inbox_add_message-ok_example =
    inbox_add_message-ok memory-Documented keys (pos 9) invite messages (ok "eve") tt invite_added
