-- ===== src/Inbox.antt =====
-- inbox/inbox.go and inbox/message.go: the messages that wait for their receivers.
pub mod Fetching
pub mod Following
pub mod Arrival
pub mod Listener
pub mod Delivery
use any_sync_coordinator.Prelude.{
  ℕ, ◌+◌, ◌-◌, String, Bool, true, false, not, ◌&&◌, Option, none, some, List, ℤ, ◌==◌, ◌=ₛ◌, ltb,
  length, take, map, if◌then◌else◌,
}
use any_sync_coordinator.Outcome.{
  Err, unexpected, inbox_message_verify_failed, nil_dereference, Result, ok, err, Action, pure,
  lift, raise, ◌>>=◌, ◌>>◌,
}
use any_sync_coordinator.Docs.{Bytes, ObjectId}
use any_sync_coordinator.Mongo.{Mongo}
use any_sync_coordinator.Time
use any_sync_coordinator.Keys.{Keys}

pub record InboxPayload : Type 0 where
  pub payload_type : ℕ
  pub timestamp : ℤ
  pub body : Bytes

pub record InboxPacket : Type 0 where
  pub key_type : ℕ
  pub sender_identity : String
  pub receiver_identity : String
  pub sender_signature : Bytes
  pub payload : InboxPayload

pub record InboxMessage : Type 0 where
  pub id : ObjectId
  pub packet_type : ℕ
  pub packet : InboxPacket

-- The collection of the messages.
abbrev pub Messages : Type 0
Messages = List InboxMessage

-- The limit on a fetch, with the default that Init sets.
unfoldable pub fetch_limit : ℕ → ℕ
fetch_limit configured = if configured == 0 then 1000 else configured

-- What a request adds: an InboxMessage of coordinatorproto, whose sender is not read.
pub record AddRequest : Type 0 where
  pub packet_type : ℕ
  pub key_type : ℕ
  pub receiver_identity : String
  pub sender_signature : Bytes
  pub payload_type : ℕ
  pub body : Bytes

module _ (k : Keys) where
  abbrev pub signature_matches : Result Bool → Result (Unit {0})
  signature_matches (ok true) = ok tt
  signature_matches _ = err inbox_message_verify_failed

  -- verifyInboxMessageSignature, by the key of the request.
  unfoldable pub verify_signature : Result k.PubKey → InboxMessage → Result (Unit {0})
  verify_signature (ok key) msg =
      signature_matches (k.verify key msg.packet.payload.body msg.packet.sender_signature)
  verify_signature (err e) msg = err unexpected

  -- InboxMessageFromRequest: the sender is the account of the request's key. The message is nil
  -- without one, and the signature check fails before it is read.
  unfoldable pub message_from_request : k.PubKey → ℤ → AddRequest → ObjectId → InboxMessage
  message_from_request key now r id = record {
    id = id;
    packet_type = r.packet_type;
    packet = record {
      key_type = r.key_type;
      sender_identity = k.account key;
      receiver_identity = r.receiver_identity;
      sender_signature = r.sender_signature;
      payload = record { payload_type = r.payload_type; timestamp = Time.unix now; body = r.body };
    };
  }

abbrev pub stamped : ℤ → InboxMessage → InboxMessage
stamped now msg = record msg {
  packet = record msg.packet { payload = record msg.packet.payload { timestamp = Time.unix now } };
}

-- The message more that shows that there are more is cut off.
unfoldable pub cut_messages : ℕ → Messages → Messages × Bool
cut_messages limit messages =
    if ltb limit (length messages)
    then (take (length messages - 1) messages, true)
    else (messages, false)

module _ (m : Mongo) where
  -- The filter of InboxFetch: the messages of the receiver, or those with a greater `_id`.
  unfoldable pub offset_query : String → String → Result (InboxMessage → Bool)
  offset_query receiver offset =
      if offset =ₛ ""
      then ok (λ msg. msg.packet.receiver_identity =ₛ receiver)
      else elim (m.object_id_from_hex offset) [
        | ok i ↦ ok (λ msg. msg.packet.receiver_identity =ₛ receiver && ltb i msg.id)
        | err e ↦ err e
      ]

  -- InsertOne of a message without an `_id`.
  unfoldable pub insert_message : (ObjectId → InboxMessage) → Action Messages (Unit {0})
  insert_message msg messages =
      let id = m.new_object_id (map (λ x. x.id) messages) in
      elim (m.insert_one InboxMessage (λ x. x.id == id) (msg id) messages) [
        | ok messages' ↦ (ok tt, messages')
        | err e ↦ (err e, messages)
      ]

  module _ (k : Keys) (pub_key : Result k.PubKey) where
    -- InboxAddMessage, called with the message that InboxMessageFromRequest makes.
    unfoldable pub inbox_add_message : ℤ → AddRequest → Action Messages (Unit {0})
    inbox_add_message now r messages = elim pub_key [
      | err e ↦ (err unexpected, messages)
      | ok key ↦
          (do
            lift (verify_signature k (ok key) (message_from_request k key now r 0))
            insert_message (λ id. stamped now (message_from_request k key now r id)))
            messages
    ]

    -- InboxFetch
    unfoldable pub inbox_fetch : ℕ → String → Action Messages (Messages × Bool)
    inbox_fetch configured offset = do
      key ← lift pub_key
      q ← lift (offset_query (k.account key) offset)
      let limit = fetch_limit configured
      found ← (λ ms. (m.find_sorted InboxMessage (λ x. x.id) (limit + 1) q ms, ms))
      pure (cut_messages limit found)
